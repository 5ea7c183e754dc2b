-- ===== src/Store/Patches.antt =====
-- `patch`, `markStale` and `clearResourceError` of packages/core/src/store.ts keep the store valid.
use flux_fast.Shared.{
  ℕ, String, ◌≡◌, refl, sym, ap, ◌∙◌, ◌≢◌, inl, inr, Bool, true, false, ◌&&◌, ◌||◌, not, Bool-cases,
  Option, none, some, is_some, is_yes, get_or, List, arith, elem, add, str_dec, Option-cases,
  if◌then◌else◌, elem-add, add-Distinct,
}
use flux_fast.Shared.JsMap.{get, has, size-set_old}
use flux_fast.Mutation.{ResourcePatch}
use flux_fast.Store.State.{
  ResourceRecord, missing, ready, status_eq, ResourceStateSnapshot, missing_resource_state,
  ResourceStore,
}
use flux_fast.Store.Internals.{touch_lru, notify, update_state_snapshot}
use flux_fast.Store.Operations.{get_state_snapshot}
use flux_fast.Store.Changes.{clear_resource_error, patch, mark_stale}
use flux_fast.Store.Validity.{Agree, IsConsistent, IsValid}
use flux_fast.Store.Snapshots.{Target, elem-touch_lru, touch_lru-Distinct}
use flux_fast.Store.Update.{IsReady, Updates, update_state_snapshot-Updates}
use flux_fast.Store.Methods.{
  notify-IsValid, has_snapshot, touch_lru-IsValid, IsReady_of, get_state_snapshot-IsValid,
}
use flux_fast.Store.Writes.{write, get-write, write-update}

elem-add_ne :
    (k j : String) (l : List String) → k ≢ j → elem str_dec j (add str_dec k l) ≡ elem str_dec j l
elem-add_ne k j l ne = ground (arith, elem-add str_dec k j l)

elem-add_self : (k : String) (l : List String) → elem str_dec k (add str_dec k l) ≡ true
elem-add_self k l = ground (arith, elem-add str_dec k k l)

IsConsistent-IsReady : (k : String) (s : ResourceStore) → IsConsistent s → IsReady k s
IsConsistent-IsReady k s h = record {
  shaped = h.shaped;
  others = λ j _. h.agree j;
  stored = (IsReady_of k s h).0;
  tracked = (IsReady_of k s h).1;
}

module _ (k : String) (s : ResourceStore) (h : IsValid s) where
  patch-go :
      (r new : ResourceRecord)
      → get str_dec k s.records ≡ some r
      → new.key ≡ k
      → IsValid (
          notify k (
            touch_lru k
              (update_state_snapshot k ready none true
                (write k new (add str_dec k s.stale_keys) s)).0))
  patch-go r new found keyed =
      let u =
        write-update k new (add str_dec k s.stale_keys) true s h.consistent
          (add-Distinct str_dec k s.stale_keys h.consistent.shaped.stale_keys)
          (λ j ne. elem-add_ne k j s.stale_keys ne) (elem-add_self k s.stale_keys) keyed in
      let there = ap is_some (u.same_record ∙ get-write k new s.records) in
      notify-IsValid k _ (
        touch_lru-IsValid k _
          (record {
            consistent = u.consistent;
            fits = u.fits (record {
              records = rw (size-set_old str_dec k new s.records (ap is_some found)) h.fits.records;
              state_snapshots = h.fits.state_snapshots;
            });
          })
          (has_snapshot k _ u.consistent there))

  pub patch-IsValid :
      (now later fresh : ℕ) (patches : List ResourcePatch)
      → IsValid (patch now later fresh k patches s).0
  unfolding patch
  patch-IsValid now later fresh patches = elim (Option-cases (get str_dec k s.records)) [
    | inl e ↦ rw (e, patch) h
    | inr (r, e) ↦ rw (e, patch) (patch-go r _ e refl)
  ]

  clear_resource_error-go :
      (s₁ : ResourceStore)
      → IsValid s₁
      → Updates k s₁
          (update_state_snapshot k
            (if has str_dec k s₁.records then ready else missing)
            none
            (has str_dec k s₁.records && elem str_dec k s₁.stale_keys)
            s₁).0
  clear_resource_error-go s₁ v =
      update_state_snapshot-Updates k _ none _ s₁ (IsConsistent-IsReady k s₁ v.consistent) (
        target (get str_dec k s₁.records) (get str_dec k s₁.state_snapshots)
          (elem str_dec k s₁.stale_keys) (elem str_dec k s₁.lru_order) (v.consistent.agree k))
    where
      target :
          (r : Option ResourceRecord) (st : Option ResourceStateSnapshot) (stale listed : Bool)
          → Agree k r st stale listed
          → Target k r stale (if is_some r then ready else missing) none (is_some r && stale)
      target none none stale listed a =
          (refl, a.0, unfold status_eq in refl, unfold status_eq in refl)
      target none (some st) stale listed a =
          (refl, a.0.key_fresh, unfold status_eq in refl, unfold status_eq in refl)
      target (some r) none stale listed a = absurd a
      target (some r) (some st) stale listed a = (
        refl,
        a.0.keyed,
        record { not_missing = unfold status_eq in refl; error_iff = unfold status_eq in refl },
      )

  pub clear_resource_error-IsValid : IsValid (clear_resource_error k s)
  unfolding clear_resource_error
  clear_resource_error-IsValid = first (is_some (get_state_snapshot k s).1.error)
    where
      s₁ : ResourceStore
      s₁ = (get_state_snapshot k s).0

      v : IsValid s₁
      v = get_state_snapshot-IsValid k s h

      updated : ResourceStore × Bool
      updated =
          update_state_snapshot k (if has str_dec k s₁.records then ready else missing) none
            (has str_dec k s₁.records && elem str_dec k s₁.stale_keys) s₁

      w : IsValid updated.0
      w =
          let u = clear_resource_error-go s₁ v in
          record { consistent = u.consistent; fits = u.fits v.fits }

      second : (b : Bool) → IsValid (if b then notify k updated.0 else updated.0)
      second true = notify-IsValid k _ w
      second false = w

      first :
          (b : Bool)
          → IsValid (if not b then s₁ else if updated.1 then notify k updated.0 else updated.0)
      first true = second updated.1
      first false = v

  -- The store when `markStale` comes to the snapshot: the key is stale, and was just used.
  abbrev touched : ResourceStore
  touched = touch_lru k (record s { stale_keys = add str_dec k s.stale_keys })

  touched-IsReady : has str_dec k s.records ≡ true → IsReady k touched
  touched-IsReady there = record {
    shaped = record {
      positive = h.consistent.shaped.positive;
      lru_order = touch_lru-Distinct k s.lru_order h.consistent.shaped.lru_order;
      stale_keys = add-Distinct str_dec k s.stale_keys h.consistent.shaped.stale_keys;
      records = h.consistent.shaped.records;
      state_snapshots = h.consistent.shaped.state_snapshots;
    };
    others = λ j ne.
        rw
          (
            elem-add_ne k j s.stale_keys ne,
            elem-touch_lru k j s.lru_order h.consistent.shaped.lru_order,
          )
          (other j ne (str_dec k j));
    stored = (IsReady_of k s h.consistent).0;
    tracked =
        elem-touch_lru k k s.lru_order h.consistent.shaped.lru_order
        ∙ ground (arith, has_snapshot k s h.consistent there);
  }
    where
      other :
          (j : String)
          → k ≢ j
          → (d : Dec (k ≡ j))
          → Agree j
              (get str_dec j s.records)
              (get str_dec j s.state_snapshots)
              (elem str_dec j s.stale_keys)
              (is_yes d || elem str_dec j s.lru_order)
      other j ne (yes p) = absurd (ne p)
      other j ne (no p) = h.consistent.agree j

  mark_stale-go :
      has str_dec k s.records ≡ true
      → let current = get_or (get str_dec k s.state_snapshots) missing_resource_state in
        IsValid (notify k (update_state_snapshot k current.status current.error true touched).0)
  mark_stale-go there =
      let u = update_state_snapshot-Updates k _ _ true touched (touched-IsReady there) (
        target (get str_dec k s.records) (get str_dec k s.state_snapshots)
          (elem str_dec k s.stale_keys) (elem str_dec k s.lru_order)
          (elem str_dec k (add str_dec k s.stale_keys)) (h.consistent.agree k) there
          (elem-add_self k s.stale_keys)) in
      notify-IsValid k _ (record {
        consistent = u.consistent;
        fits =
            u.fits (record { records = h.fits.records; state_snapshots = h.fits.state_snapshots });
      })
    where
      target :
          (r : Option ResourceRecord) (st : Option ResourceStateSnapshot) (stale listed now : Bool)
          → Agree k r st stale listed
          → is_some r ≡ true
          → now ≡ true
          → let current = get_or st missing_resource_state in
            Target k r now current.status current.error true
      target none st stale listed now a p e = cc
      target (some r) none stale listed now a p e = absurd a
      target (some r) (some st) stale listed now a p e = (sym e, a.0.keyed, a.0.status)

  get_state_snapshot_there :
      has str_dec k s.records ≡ true
      → get_state_snapshot k (record s { stale_keys = add str_dec k s.stale_keys })
        ≡ (touched, get_or (get str_dec k s.state_snapshots) missing_resource_state)
  unfolding get_state_snapshot
  get_state_snapshot_there there = rw there

  pub mark_stale-IsValid : IsValid (mark_stale k s)
  unfolding mark_stale
  mark_stale-IsValid =
      elim (Bool-cases (not (has str_dec k s.records) || elem str_dec k s.stale_keys)) [
        | inl e ↦ rw (e, mark_stale) h
        | inr e ↦
            let there : has str_dec k s.records ≡ true = ground arith in
            rw (e, mark_stale, get_state_snapshot_there there) (mark_stale-go there)
      ]
