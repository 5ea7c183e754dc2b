-- ===== src/Router/Races.antt =====
-- Answers that come late in packages/core/src/router.ts: which resources of an answer are applied,
-- by the epochs of their keys.
use flux_fast.Shared.{
  ℕ, ◌≤◌, ◌<◌, String, ◌≡◌, refl, sym, ◌∙◌, subst, ap, elem, is_yes, not, ◌⊎◌, Bool, true, false,
  ◌&&◌, Option, none, some, List, [], ◌∷◌, arith, str_dec, if◌then◌else◌, Bool-cases, inl, inr,
}
use flux_fast.Shared.JsMap.{Map, keys, size}
use flux_fast.Shared.JsMap
use flux_fast.Store.State.{ResourceStore, ResourceRecord, ResourceErrorDetail}
use flux_fast.Store.Changes.{ResourceWireRecord}
use flux_fast.Epochs
use flux_fast.Epochs.{ResourceEpoch, max_resource_epoch_entries}
use flux_fast.Epochs.Laws.{epoch_of}
use flux_fast.Envelope.{PageEnvelope}
use flux_fast.Router.State.{Router, ResourceLoad}
use flux_fast.Router.Basics.{bump_resource_epoch, epoch_in, same_epoch}
use flux_fast.Router.Bumps.{get-bump, get-bump_other, HasHistory, bump_all, names, bump_all-lt}
use flux_fast.Router.Loads.{
  is_current, settle_key, settle_keys, settle_found, keep_known, put_resource, emit_update,
}
use flux_fast.Router.Pages.{is_eligible}

-- The keys of a load that are current.
unfoldable pub current_keys : ResourceLoad → Router → List String → List String
current_keys load r [] = []
current_keys load r (key ∷ keys) =
    if is_current load key r then key ∷ current_keys load r keys else current_keys load r keys

emit_update-epochs :
    (updated : Bool) (key version : String) (r : Router)
    → (emit_update updated key version r).resource_epochs ≡ r.resource_epochs
emit_update-epochs true key version r = refl
emit_update-epochs false key version r = refl

put_resource-epochs :
    (now : ℕ) (key version : String) (wire : ResourceWireRecord) (r : Router)
    → (put_resource now key version wire r).resource_epochs ≡ r.resource_epochs
unfolding put_resource
put_resource-epochs now key version wire r = emit_update-epochs _ key version _

keep_known-epochs :
    (now : ℕ) (key : String) (p : ResourceStore × Option ResourceRecord) (r : Router)
    → (keep_known now key p r).resource_epochs ≡ r.resource_epochs
keep_known-epochs now key (s, none) r = refl
keep_known-epochs now key (s, some rec) r = put_resource-epochs now key rec.version _ _

settle_found-epochs :
    (now : ℕ) (key : String) (wire : Option ResourceWireRecord)
    (problem : Option ResourceErrorDetail) (r : Router)
    → (settle_found now key wire problem r).resource_epochs ≡ r.resource_epochs
settle_found-epochs now key (some wire) problem r = put_resource-epochs now key wire.version wire r
settle_found-epochs now key none (some problem) r = refl
settle_found-epochs now key none none r = keep_known-epochs now key _ r

settle_key-epochs :
    (now : ℕ) (load : ResourceLoad) (envelope : PageEnvelope) (key : String) (r : Router)
    → (settle_key now load envelope key r).resource_epochs ≡ r.resource_epochs
unfolding settle_key
settle_key-epochs now load envelope key r = settle_found-epochs now key _ _ r

current_keys-epochs :
    (load : ResourceLoad) (r q : Router) (keys : List String)
    → q.resource_epochs ≡ r.resource_epochs
    → current_keys load q keys ≡ current_keys load r keys
unfolding current_keys
current_keys-epochs load r q [] e = refl
current_keys-epochs load r q (key ∷ keys) e = rw (e, current_keys-epochs load r q keys e) refl

abbrev Settles : ℕ → ResourceLoad → PageEnvelope → List String → List String → Router → Type 0
Settles now load envelope some_keys current r =
    ((settle_keys now load envelope some_keys r).1 ≡ current)
    × ((settle_keys now load envelope some_keys r).0 ≡ (settle_keys now load envelope current r).0)

settle_keys_current :
    (now : ℕ) (load : ResourceLoad) (envelope : PageEnvelope) (key : String) (rest : List String)
    (r : Router)
    → is_current load key r ≡ true
    → settle_keys now load envelope (key ∷ rest) r ≡ (
      (settle_keys now load envelope rest (settle_key now load envelope key r)).0,
      key ∷ (settle_keys now load envelope rest (settle_key now load envelope key r)).1,
    )
unfolding settle_keys
settle_keys_current now load envelope key rest r e = rw e refl

settle_current :
    (now : ℕ) (load : ResourceLoad) (envelope : PageEnvelope) (key : String) (rest : List String)
    (r : Router)
    → is_current load key r ≡ true
    → Settles now load envelope rest
        (current_keys load (settle_key now load envelope key r) rest)
        (settle_key now load envelope key r)
    → Settles now load envelope (key ∷ rest) (key ∷ current_keys load r rest) r
settle_current now load envelope key rest r e (keys_then, router_then) =
    rw
      (
        ← same_keys,
        settle_keys_current now load envelope key rest r e,
        settle_keys_current now load envelope key
            (current_keys load (settle_key now load envelope key r) rest) r e,
      )
      (ap (λ ks. key ∷ ks) keys_then, router_then)
  where
    same_keys :
        current_keys load (settle_key now load envelope key r) rest ≡ current_keys load r rest
    same_keys =
        current_keys-epochs load r (settle_key now load envelope key r) rest
          (settle_key-epochs now load envelope key r)

settle_late :
    (now : ℕ) (load : ResourceLoad) (envelope : PageEnvelope) (key : String)
    (rest current : List String) (r : Router)
    → is_current load key r ≡ false
    → Settles now load envelope rest current r
    → Settles now load envelope (key ∷ rest) current r
unfolding settle_keys
settle_late now load envelope key rest current r e h = rw e h

current_keys-current :
    (load : ResourceLoad) (r : Router) (key : String) (rest : List String) (b : Bool)
    → is_current load key r ≡ b
    → current_keys load r (key ∷ rest)
      ≡ (if b then key ∷ current_keys load r rest else current_keys load r rest)
unfolding current_keys
current_keys-current load r key rest b e = rw e refl

-- The loop over an answer's keys settles just those that are current when the answer comes, in
-- their order, as if the load had asked for no others: settling one key makes no other out of date.
pub settle_keys-current_keys :
    (now : ℕ) (load : ResourceLoad) (envelope : PageEnvelope) (keys : List String) (r : Router)
    → ((settle_keys now load envelope keys r).1 ≡ current_keys load r keys)
      × ((settle_keys now load envelope keys r).0
          ≡ (settle_keys now load envelope (current_keys load r keys) r).0)
settle_keys-current_keys now load envelope [] r = unfold settle_keys current_keys in (refl, refl)
settle_keys-current_keys now load envelope (key ∷ rest) r =
    elim (Bool-cases (is_current load key r)) [
      | inl e ↦ rw (current_keys-current load r key rest true e) (
          settle_current now load envelope key rest r e
            (settle_keys-current_keys now load envelope rest (settle_key now load envelope key r)))
      | inr e ↦ rw (current_keys-current load r key rest false e) (
          settle_late now load envelope key rest (current_keys load r rest) r e
            (settle_keys-current_keys now load envelope rest r))
    ]

-- A new epoch of one resource decides of no other whether a navigation may apply it, and a
-- speculative one, which a prefetch brings, of none. An epoch that is not speculative, given after
-- the navigation started, keeps the navigation from its own resource. The history has room for one
-- more key, or the resource asked about is the one with the new epoch.
pub bump-is_eligible :
    (started_at_epoch : ℕ) (key j : String) (r : Router)
    → started_at_epoch ≤ r.resource_epoch_counter
    → (size r.resource_epochs.entries < max_resource_epoch_entries) ⊎ (key ≡ j)
    → (is_eligible started_at_epoch (bump_resource_epoch key true r) j
        ≡ is_eligible started_at_epoch r j)
      × (is_eligible started_at_epoch (bump_resource_epoch key false r) j
          ≡ (not (is_yes (str_dec key j)) && is_eligible started_at_epoch r j))
bump-is_eligible started_at_epoch key j r p room = go (str_dec key j)
  where
    go :
        (d : Dec (key ≡ j))
        → (is_eligible started_at_epoch (bump_resource_epoch key true r) j
            ≡ is_eligible started_at_epoch r j)
          × (is_eligible started_at_epoch (bump_resource_epoch key false r) j
              ≡ (not (is_yes d) && is_eligible started_at_epoch r j))
    go (yes same) =
        subst
          (λ x.
            (is_eligible started_at_epoch (bump_resource_epoch key true r) x
              ≡ is_eligible started_at_epoch r x)
            × (is_eligible started_at_epoch (bump_resource_epoch key false r) x ≡ false))
          same (rw (get-bump key true r) refl, rw (get-bump key false r) (ground arith))
    go (no ne) = elim room [
      | inl fits ↦ (
        rw (get-bump_other key j true r fits ne) refl,
        rw (get-bump_other key j false r fits ne) refl,
      )
      | inr same ↦ absurd (ne same)
    ]

-- Some keys without one of them.
abbrev pub without : String → List String → List String
without key [] = []
without key (k ∷ ks) = if is_yes (str_dec k key) then without key ks else k ∷ without key ks

settle_keys-without :
    (now : ℕ) (load : ResourceLoad) (envelope : PageEnvelope) (key : String)
    (some_keys : List String) (r : Router)
    → is_current load key r ≡ false
    → settle_keys now load envelope some_keys r
      ≡ settle_keys now load envelope (without key some_keys) r
settle_keys-without now load envelope key [] r h = refl
settle_keys-without now load envelope key (k ∷ ks) r h =
    go (str_dec k key) (settle_keys-without now load envelope key ks r h)
      (λ e. settle_keys-without now load envelope key ks (settle_key now load envelope k r) e)
  where
    later :
        (rest : List String)
        → is_current load k r ≡ false
        → settle_keys now load envelope (k ∷ rest) r ≡ settle_keys now load envelope rest r
    later rest e = unfold settle_keys in rw e refl

    still_late : is_current load key (settle_key now load envelope k r) ≡ false
    still_late = rw (settle_key-epochs now load envelope k r) h

    go :
        (d : Dec (k ≡ key))
        → settle_keys now load envelope ks r ≡ settle_keys now load envelope (without key ks) r
        → (is_current load key (settle_key now load envelope k r) ≡ false
            → settle_keys now load envelope ks (settle_key now load envelope k r)
              ≡ settle_keys now load envelope (without key ks) (settle_key now load envelope k r))
        → settle_keys now load envelope (k ∷ ks) r
          ≡ settle_keys now load envelope
              (if is_yes d then without key ks else k ∷ without key ks)
              r
    go (yes p) rest rest_then = later ks (subst (λ x. is_current load x r ≡ false) (sym p) h) ∙ rest
    go (no ne) rest rest_then = elim (Bool-cases (is_current load k r)) [
      | inr e ↦ later ks e ∙ rest ∙ sym (later (without key ks) e)
      | inl e ↦
          rw
            (
              settle_keys_current now load envelope k ks r e,
              settle_keys_current now load envelope k (without key ks) r e,
              rest_then still_late,
            )
            refl
    ]

late_of_lt :
    (e : ℕ) (o : Option ResourceEpoch) → e < epoch_of o → same_epoch (epoch_in o) (some e) ≡ false
late_of_lt e none p = refl
late_of_lt e (some x) p = ground arith

-- Once a resource got a new epoch after its load began, speculative or not, and whatever epochs it
-- and other resources got before and after that, an answer to the load is settled as if the resource
-- had not been asked for, wherever it stands among the keys, and whatever else of the router has
-- changed. When the load began, the epoch that it captured had been given out, and the history was
-- one of epochs given out, which holds no key twice.
pub settle_keys-bump :
    (now : ℕ) (load : ResourceLoad) (envelope : PageEnvelope) (some_keys : List String)
    (key : String) (e : ℕ) (bumps : List (String × Bool)) (r q : Router)
    → HasHistory r
    → JsMap.get str_dec key load.captured_epochs ≡ some e
    → e ≤ r.resource_epoch_counter
    → elem str_dec key (names bumps) ≡ true
    → q.resource_epochs ≡ (bump_all bumps r).resource_epochs
    → settle_keys now load envelope some_keys q
      ≡ settle_keys now load envelope (without key some_keys) q
settle_keys-bump now load envelope some_keys key e bumps r q h c p m same =
    settle_keys-without now load envelope key some_keys q (
      rw (same, c)
        (late_of_lt e (Epochs.get key (bump_all bumps r).resource_epochs)
          (bump_all-lt key e bumps r h p m)))
