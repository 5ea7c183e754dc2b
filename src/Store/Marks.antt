-- ===== src/Store/Marks.antt =====
-- The marks of packages/core/src/store.ts keep the store valid: `markPending`, `markLoading`,
-- `setResourceError`, `clearResourceError`, `markStale` and `patch`.
use flux_fast.Shared.{
  String, ◌≡◌, refl, sym, subst, ◌∙◌, ◌≢◌, inl, inr, Bool, true, false, ◌||◌, Bool-cases, Option,
  none, some, is_some, is_yes, List, [], ◌∷◌, arith, elem, add, str_dec, if◌then◌else◌, elem-add,
  add-Distinct,
}
use flux_fast.Shared.JsMap.{get, has}
use flux_fast.Store.State.{
  ResourceRecord, ResourceStatus, pending, loading, ready, error, status_eq, ResourceErrorDetail,
  ResourceStateSnapshot, ResourceStore,
}
use flux_fast.Store.Internals.{notify, update_state_snapshot}
use flux_fast.Store.Changes.{mark, mark_pending, mark_loading, set_resource_error}
use flux_fast.Store.Validity.{IsStatus, Agree, IsConsistent, Fits, IsValid}
use flux_fast.Store.Snapshots.{Target}
use flux_fast.Store.Update.{IsReady, Updates, update_state_snapshot-Updates}
use flux_fast.Store.Methods.{notify-IsValid, IsReady_of}

-- The status and error that `markPending`, `markLoading` and `setResourceError` write.
pub record IsMark (status : ResourceStatus) (problem : Option ResourceErrorDetail) : Type 0 where
  pub is_status : IsStatus status problem
  pub not_ready : status_eq status ready ≡ false

pub pending-IsMark : IsMark pending none
unfolding status_eq
pending-IsMark = ground arith

pub loading-IsMark : IsMark loading none
unfolding status_eq
loading-IsMark = ground arith

pub error-IsMark : (problem : ResourceErrorDetail) → IsMark error (some problem)
unfolding status_eq
error-IsMark problem = ground arith

-- The target of a mark: a record that is there must be stale by now, and keyed as it is stored.
mark-Target :
    (k : String) (status : ResourceStatus) (problem : Option ResourceErrorDetail)
    → IsMark status problem
    → (r : Option ResourceRecord) (st : Option ResourceStateSnapshot) (old new listed : Bool)
    → Agree k r st old listed
    → new ≡ (is_some r || old)
    → Target k r new status problem (is_some r)
mark-Target k status problem m none none old new listed a e =
    (refl, e ∙ a.0, m.is_status.error_iff, m.not_ready)
mark-Target k status problem m none (some st) old new listed a e =
    (refl, e ∙ a.0.key_fresh, m.is_status.error_iff, m.not_ready)
mark-Target k status problem m (some r) none old new listed a e = absurd a
mark-Target k status problem m (some r) (some st) old new listed a e =
    (sym e, a.0.keyed, m.is_status)

-- The key goes stale if it has a record.
abbrev pub stale_if_there : String → ResourceStore → ResourceStore
stale_if_there k s =
    if has str_dec k s.records then record s { stale_keys = add str_dec k s.stale_keys } else s

stale_if_there-IsReady :
    (k : String) (s : ResourceStore)
    → IsConsistent s
    → IsReady k (stale_if_there k s)
      × (elem str_dec k (stale_if_there k s).stale_keys
          ≡ (has str_dec k s.records || elem str_dec k s.stale_keys))
      × ((stale_if_there k s).records ≡ s.records)
      × (Fits s → Fits (stale_if_there k s))
stale_if_there-IsReady k s h = elim (Bool-cases (has str_dec k s.records)) [
  | inr e ↦
      rw (e, stale_if_there)
        (
          record {
            shaped = h.shaped;
            others = λ j ne. h.agree j;
            stored = (IsReady_of k s h).0;
            tracked = (IsReady_of k s h).1;
          },
          refl,
          refl,
          λ f. f,
        )
  | inl e ↦
      rw (e, stale_if_there)
        (
          record {
            shaped = record {
              positive = h.shaped.positive;
              lru_order = h.shaped.lru_order;
              stale_keys = add-Distinct str_dec k s.stale_keys h.shaped.stale_keys;
              records = h.shaped.records;
              state_snapshots = h.shaped.state_snapshots;
            };
            others = λ j ne. rw (elem-add str_dec k j s.stale_keys) (other j ne (str_dec k j));
            stored = (IsReady_of k s h).0;
            tracked = (IsReady_of k s h).1;
          },
          ground (arith, elem-add str_dec k k s.stale_keys),
          refl,
          λ f. record { records = f.records; state_snapshots = f.state_snapshots },
        )
]
  where
    other :
        (j : String)
        → k ≢ j
        → (d : Dec (k ≡ j))
        → Agree j
            (get str_dec j s.records)
            (get str_dec j s.state_snapshots)
            (is_yes d || elem str_dec j s.stale_keys)
            (elem str_dec j s.lru_order)
    other j ne (yes p) = absurd (ne p)
    other j ne (no p) = h.agree j

module _ (k : String) (s : ResourceStore) (h : IsValid s) where
  pub mark-IsValid :
      (status : ResourceStatus) (problem : Option ResourceErrorDetail)
      → IsMark status problem
      → IsValid (mark k status problem s)
  unfolding mark
  mark-IsValid status problem m = finish changed
    where
      ready_of :
          IsReady k (stale_if_there k s)
          × (elem str_dec k (stale_if_there k s).stale_keys
              ≡ (has str_dec k s.records || elem str_dec k s.stale_keys))
          × ((stale_if_there k s).records ≡ s.records)
          × (Fits s → Fits (stale_if_there k s))
      ready_of = stale_if_there-IsReady k s h.consistent

      s₂ : ResourceStore
      s₂ = (update_state_snapshot k status problem (has str_dec k s.records) (stale_if_there k s)).0

      changed : Bool
      changed =
          (update_state_snapshot k status problem (has str_dec k s.records) (stale_if_there k s)).1

      u : Updates k (stale_if_there k s) s₂
      u =
          update_state_snapshot-Updates k status problem (has str_dec k s.records)
            (stale_if_there k s) ready_of.0
            (subst
              (λ m'.
                Target k (get str_dec k m') (elem str_dec k (stale_if_there k s).stale_keys) status
                  problem (has str_dec k s.records))
              (sym ready_of.2)
              (mark-Target k status problem m (get str_dec k s.records)
                (get str_dec k s.state_snapshots) (elem str_dec k s.stale_keys)
                (elem str_dec k (stale_if_there k s).stale_keys) (elem str_dec k s.lru_order)
                (h.consistent.agree k) ready_of.1))

      v : IsValid s₂
      v = record { consistent = u.consistent; fits = u.fits (ready_of.3 h.fits) }

      finish : (b : Bool) → IsValid (if b then notify k s₂ else s₂)
      finish true = notify-IsValid k s₂ v
      finish false = v

pub mark_pending-IsValid :
    (ks : List String) (s : ResourceStore) → IsValid s → IsValid (mark_pending ks s)
unfolding mark_pending
mark_pending-IsValid [] s h = h
mark_pending-IsValid (k ∷ ks) s h =
    mark_pending-IsValid ks _ (mark-IsValid k s h pending none pending-IsMark)

pub mark_loading-IsValid :
    (ks : List String) (s : ResourceStore) → IsValid s → IsValid (mark_loading ks s)
unfolding mark_loading
mark_loading-IsValid [] s h = h
mark_loading-IsValid (k ∷ ks) s h =
    mark_loading-IsValid ks _ (mark-IsValid k s h loading none loading-IsMark)

pub set_resource_error-IsValid :
    (k : String) (problem : ResourceErrorDetail) (s : ResourceStore)
    → IsValid s
    → IsValid (set_resource_error k problem s)
unfolding set_resource_error
set_resource_error-IsValid k problem s h =
    mark-IsValid k s h error (some problem) (error-IsMark problem)
