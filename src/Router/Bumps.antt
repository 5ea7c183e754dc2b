-- ===== src/Router/Bumps.antt =====
-- Epochs that come one after the other in packages/core/src/router.ts: what `bumpResourceEpoch` does
-- to the epochs of other keys.
use flux_fast.Shared.{
  ℕ, suc, ◌≤◌, ◌<◌, String, ◌≡◌, refl, ◌≢◌, ap, Bool, true, false, ◌&&◌, Option, none, some, List,
  [], ◌∷◌, arith, str_dec, elem, is_yes, if◌then◌else◌, ltb, ◌||◌,
}
use flux_fast.Shared.JsMap.{Map, AllValues, size}
use flux_fast.Shared.JsMap
use flux_fast.Epochs
use flux_fast.Epochs.{
  ResourceEpoch, ResourceEpochMap, max_resource_epoch_entries, evict, or_else, watermark,
}
use flux_fast.Epochs.Laws.{get-set, set_lem, epoch_of, authoritative_of, Ordered}
use flux_fast.Epochs.Bounds.{IsPast, IsHistory, IsHistory-raise, set-IsHistory, get-le}
use flux_fast.Router.State.{Router}
use flux_fast.Router.Basics.{inherited, bump_resource_epoch}
use flux_fast.Router.Loads.{capture_epochs}

-- What `bumpResourceEpoch` gives the key.
abbrev pub bumped : String → Bool → Router → ResourceEpoch
bumped key speculative r = record {
  epoch = suc r.resource_epoch_counter;
  authoritative_epoch =
      if speculative
      then (inherited (Epochs.get key r.resource_epochs)).0
      else suc r.resource_epoch_counter;
  conservative = speculative && (inherited (Epochs.get key r.resource_epochs)).1;
}

pub get-bump :
    (key : String) (speculative : Bool) (r : Router)
    → Epochs.get key (bump_resource_epoch key speculative r).resource_epochs
      ≡ some (bumped key speculative r)
unfolding bump_resource_epoch
get-bump key speculative r = get-set key (bumped key speculative r) r.resource_epochs

abbrev pub HasHistory : Router → Type 0
HasHistory r = IsHistory r.resource_epoch_counter r.resource_epochs

bumped-IsPast :
    (key : String) (speculative : Bool) (r : Router)
    → HasHistory r
    → IsPast (suc r.resource_epoch_counter) (bumped key speculative r)
bumped-IsPast key false r h = record { ordered = omega arith; past = omega arith }
bumped-IsPast key true r h = record {
  ordered =
      below (Epochs.get key r.resource_epochs)
        (get-le r.resource_epoch_counter key r.resource_epochs h);
  past = omega arith;
}
  where
    below :
        (o : Option ResourceEpoch)
        → (epoch_of o ≤ r.resource_epoch_counter) × (authoritative_of o ≤ epoch_of o)
        → (inherited o).0 ≤ suc r.resource_epoch_counter
    below none p = omega arith
    below (some e) p = omega (arith, p)

bump-HasHistory :
    (key : String) (speculative : Bool) (r : Router)
    → HasHistory r
    → HasHistory (bump_resource_epoch key speculative r)
unfolding bump_resource_epoch
bump-HasHistory key speculative r h =
    set-IsHistory (suc r.resource_epoch_counter) key (bumped key speculative r) r.resource_epochs
      (bumped-IsPast key speculative r h)
      (IsHistory-raise r.resource_epoch_counter (suc r.resource_epoch_counter) r.resource_epochs
        (omega arith) h)

AllValues-Ordered :
    (counter : ℕ) (m : Map String ResourceEpoch)
    → AllValues (IsPast counter) m
    → AllValues Ordered m
AllValues-Ordered counter [] h = tt
AllValues-Ordered counter ((k, v) ∷ m) h = (h.0.ordered, AllValues-Ordered counter m h.1)

abbrev seen : String → Router → ℕ
seen key r = epoch_of (Epochs.get key r.resource_epochs)

-- A new epoch of one key lowers the epoch of none.
bump-seen :
    (j key : String) (speculative : Bool) (r : Router)
    → HasHistory r
    → seen key r ≤ seen key (bump_resource_epoch j speculative r)
bump-seen j key speculative r h = go (str_dec j key)
  where
    go : Dec (j ≡ key) → seen key r ≤ seen key (bump_resource_epoch j speculative r)
    go (yes p) =
        let le : seen key r ≤ r.resource_epoch_counter =
          (get-le r.resource_epoch_counter key r.resource_epochs h).0 in
        rw (p, get-bump key speculative r) (omega (arith, le))
    go (no ne) =
        unfold bump_resource_epoch in
        (set_lem j key (bumped j speculative r) r.resource_epochs h.distinct
          (record {
            entries =
                AllValues-Ordered r.resource_epoch_counter r.resource_epochs.entries h.entries;
            watermarks = h.ordered;
          })
          (bumped-IsPast j speculative r h).ordered ne).2

-- New epochs for some keys, speculative or not, one after the other.
abbrev pub bump_all : List (String × Bool) → Router → Router
bump_all [] r = r
bump_all ((key, speculative) ∷ bumps) r = bump_all bumps (bump_resource_epoch key speculative r)

abbrev pub names : List (String × Bool) → List String
names [] = []
names ((key, _) ∷ bumps) = key ∷ names bumps

bump_all-seen :
    (key : String) (bumps : List (String × Bool)) (r : Router)
    → HasHistory r
    → seen key r ≤ seen key (bump_all bumps r)
bump_all-seen key [] r h = omega arith
bump_all-seen key ((j, speculative) ∷ bumps) r h = omega (
  arith,
  bump-seen j key speculative r h,
  bump_all-seen key bumps (bump_resource_epoch j speculative r) (bump-HasHistory j speculative r h),
)

-- A key with a new epoch among them has one above every epoch given out before.
pub bump_all-lt :
    (key : String) (e : ℕ) (bumps : List (String × Bool)) (r : Router)
    → HasHistory r
    → e ≤ r.resource_epoch_counter
    → elem str_dec key (names bumps) ≡ true
    → e < seen key (bump_all bumps r)
unfolding elem
bump_all-lt key e [] r h p m = absurd (ground arith)
bump_all-lt key e ((j, speculative) ∷ bumps) r h p m =
    go (str_dec j key)
      (bump_all-lt key e bumps r₁ (bump-HasHistory j speculative r h)
        (unfold bump_resource_epoch in omega arith))
      m
  where
    r₁ : Router
    r₁ = bump_resource_epoch j speculative r

    go :
        (d : Dec (j ≡ key))
        → (elem str_dec key (names bumps) ≡ true → e < seen key (bump_all bumps r₁))
        → (is_yes d || elem str_dec key (names bumps)) ≡ true
        → e < seen key (bump_all bumps r₁)
    go (no ne) later q = later q
    go (yes same) later q =
        let here : e < seen key r₁ = rw (same, get-bump key speculative r) (omega arith) in
        omega (arith, here, bump_all-seen key bumps r₁ (bump-HasHistory j speculative r h))

abbrev pub authoritative : List String → List (String × Bool)
authoritative [] = []
authoritative (key ∷ keys) = (key, false) ∷ authoritative keys

-- A load gives each of its keys a new epoch, in their order.
pub capture_epochs-bump_all :
    (keys : List String) (captured : Map String ℕ) (r : Router)
    → (capture_epochs keys captured r).0 ≡ bump_all (authoritative keys) r
unfolding capture_epochs
capture_epochs-bump_all [] captured r = refl
capture_epochs-bump_all (key ∷ keys) captured r =
    capture_epochs-bump_all keys _ (bump_resource_epoch key false r)

-- With room nothing is evicted.
evict-fits :
    (m : Map String ResourceEpoch) (e a : ℕ)
    → size m ≤ max_resource_epoch_entries
    → evict m e a ≡ record { entries = m; evicted_epoch = e; evicted_authoritative_epoch = a }
unfolding evict
evict-fits [] e a p = refl
evict-fits ((k, v) ∷ m) e a p =
    let fits : ltb max_resource_epoch_entries (suc (size m)) ≡ false = ground arith in rw fits refl

pub get-bump_other :
    (key j : String) (speculative : Bool) (r : Router)
    → size r.resource_epochs.entries < max_resource_epoch_entries
    → key ≢ j
    → Epochs.get j (bump_resource_epoch key speculative r).resource_epochs
      ≡ Epochs.get j r.resource_epochs
unfolding bump_resource_epoch Epochs.set
get-bump_other key j speculative r room ne =
    rw
      (evict-fits next r.resource_epochs.evicted_epoch r.resource_epochs.evicted_authoritative_epoch
        fits)
      (unfold Epochs.get in ap (λ o. or_else o (watermark r.resource_epochs)) same)
  where
    next : Map String ResourceEpoch
    next =
        JsMap.set str_dec key (bumped key speculative r)
          (JsMap.delete str_dec key r.resource_epochs.entries)

    fits : size next ≤ max_resource_epoch_entries
    fits = omega (
      arith,
      JsMap.size-set-le str_dec key (bumped key speculative r)
          (JsMap.delete str_dec key r.resource_epochs.entries),
      JsMap.size-delete-le str_dec key r.resource_epochs.entries,
    )

    same : JsMap.get str_dec j next ≡ JsMap.get str_dec j r.resource_epochs.entries
    same = ground (
      arith,
      JsMap.get-set str_dec key j (bumped key speculative r)
          (JsMap.delete str_dec key r.resource_epochs.entries),
      JsMap.get-delete str_dec key j r.resource_epochs.entries,
    )
