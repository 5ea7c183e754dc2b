-- ===== src/Store/Update.antt =====
-- `updateStateSnapshot` of packages/core/src/store.ts, on each of its three ways out.
use flux_fast.Shared.{
  String, ◌≡◌, refl, sym, subst, ◌≢◌, inl, inr, Bool, true, Bool-cases, Option, some, get_or, arith,
  elem, remove, str_dec,
}
use flux_fast.Shared.JsMap.{get, has, size-delete-le}
use flux_fast.Value.{Value}
use flux_fast.Store.State.{
  ResourceStatus, ResourceErrorDetail, ResourceStateSnapshot, missing_resource_state, ResourceStore,
}
use flux_fast.Store.Internals.{
  value_of, is_unchanged, is_nothing, drop_snapshot, put_snapshot, evict_if_needed,
  update_state_snapshot,
}
use flux_fast.Store.Validity.{Agree, AgreeAt, IsShaped, IsConsistent, Fits}
use flux_fast.Store.Limits.{evict_if_needed-IsValid}
use flux_fast.Store.Survival.{evict_if_needed-Spares}
use flux_fast.Store.Snapshots.{
  IsStored, Target, put_snapshot-IsConsistent, drop_snapshot-IsConsistent, unchanged-Agree,
  changed-Agree, nothing-no_record,
}

-- The store is well formed but for what it says of the key `k`.
pub record IsReady (k : String) (s : ResourceStore) : Type 0 where
  pub shaped : IsShaped s
  pub others : (j : String) → k ≢ j → AgreeAt s j
  pub stored : IsStored (get str_dec k s.state_snapshots)
  pub tracked : elem str_dec k s.lru_order ≡ has str_dec k s.state_snapshots

-- What an update of `k` keeps.
pub record Updates (k : String) (s t : ResourceStore) : Type 0 where
  pub consistent : IsConsistent t
  pub same_record : get str_dec k t.records ≡ get str_dec k s.records
  pub fits : Fits s → Fits t

module _ (k : String) (status : ResourceStatus) (problem : Option ResourceErrorDetail)
    (stale : Bool) (s : ResourceStore) (ready : IsReady k s)
    (target : Target k
      (get str_dec k s.records)
      (elem str_dec k s.stale_keys)
      status
      problem
      stale) where
  unchanged_lem :
      is_unchanged
          (get_or (get str_dec k s.state_snapshots) missing_resource_state)
          (value_of (get str_dec k s.records))
          status
          problem
          stale
        ≡ true
      → Updates k s s
  unchanged_lem e = record {
    consistent = record { shaped = ready.shaped; agree = λ j. at j (str_dec k j) };
    same_record = refl;
    fits = λ f. f;
  }
    where
      at : (j : String) → Dec (k ≡ j) → AgreeAt s j
      at j (no p) = ready.others j p
      at j (yes p) = subst (AgreeAt s) p (
          subst
            (λ b.
              Agree k (get str_dec k s.records) (get str_dec k s.state_snapshots)
                (elem str_dec k s.stale_keys) b)
            (sym ready.tracked)
            (unchanged-Agree k (get str_dec k s.records) (get str_dec k s.state_snapshots) status
              problem stale (elem str_dec k s.stale_keys) ready.stored target e))

  nothing_lem :
      is_nothing (value_of (get str_dec k s.records)) status problem stale ≡ true
      → Updates k s (drop_snapshot k s)
  nothing_lem e =
      let (empty, fresh) =
        nothing-no_record k (get str_dec k s.records) status problem stale
          (elem str_dec k s.stale_keys) target e in
      record {
        consistent = drop_snapshot-IsConsistent k s ready.shaped ready.others empty fresh;
        same_record = ground arith;
        fits = λ f.
            ground
              (arith, size-delete-le str_dec k s.state_snapshots, f.records, f.state_snapshots);
      }

  put_lem :
      (st : ResourceStateSnapshot)
      → Agree k (get str_dec k s.records) (some st) (elem str_dec k s.stale_keys) true
      → Updates k s (evict_if_needed (put_snapshot k st s))
  put_lem st own =
      let c = put_snapshot-IsConsistent k st s ready.shaped ready.others own in
      record {
        consistent = (evict_if_needed-IsValid _ c).consistent;
        same_record =
            (evict_if_needed-Spares k (remove str_dec k s.lru_order) _ c refl).same_record;
        fits = λ _. (evict_if_needed-IsValid _ c).fits;
      }

  -- Whatever the snapshot said, after the update the store is well formed at every key, and holds
  -- the record of the key that it held.
  pub update_state_snapshot-Updates : Updates k s (update_state_snapshot k status problem stale s).0
  unfolding update_state_snapshot
  update_state_snapshot-Updates =
      elim (Bool-cases (is_unchanged current value status problem stale)) [
        | inl e ↦ rw (e, update_state_snapshot) (unchanged_lem e)
        | inr u ↦ elim (Bool-cases (is_nothing value status problem stale)) [
          | inl e ↦ rw (u, e, update_state_snapshot) (nothing_lem e)
          | inr e ↦
              rw (u, e, update_state_snapshot)
                (put_lem _ (
                  changed-Agree k (get str_dec k s.records) current.error status problem stale
                    (elem str_dec k s.stale_keys) target e))
        ]
      ]
    where
      current : ResourceStateSnapshot
      current = get_or (get str_dec k s.state_snapshots) missing_resource_state

      value : Value
      value = value_of (get str_dec k s.records)
