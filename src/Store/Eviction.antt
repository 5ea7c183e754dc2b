-- ===== src/Store/Eviction.antt =====
-- Eviction in packages/core/src/store.ts: `invalidate`, `touchLru` and the loop of `evictIfNeeded`.
use flux_fast.Shared.{
  String, ◌≡◌, refl, subst, ◌≢◌, false, ◌&&◌, not, none, is_yes, List, [], ◌∷◌, ite, arith, elem,
  Distinct, str_dec, elem-remove, remove-Distinct,
}
use flux_fast.Shared.JsMap.{get, has, get-delete, delete-Distinct, size_of_no_key}
use flux_fast.Store.State.{ResourceStore}
use flux_fast.Store.Internals.{notify, invalidate, over_limit}
use flux_fast.Store.Validity.{Agree, AgreeAt, IsShaped, IsConsistent}

module _ (k j : String) (s : ResourceStore) where
  pub records-invalidate :
      get str_dec j (invalidate k s).records ≡ ite (str_dec k j) none (get str_dec j s.records)
  unfolding invalidate notify
  records-invalidate = ground (arith, get-delete str_dec k j s.records)

  pub state_snapshots-invalidate :
      get str_dec j (invalidate k s).state_snapshots
      ≡ ite (str_dec k j) none (get str_dec j s.state_snapshots)
  unfolding invalidate notify
  state_snapshots-invalidate = ground (arith, get-delete str_dec k j s.state_snapshots)

  pub stale_keys-invalidate :
      Distinct str_dec s.stale_keys
      → elem str_dec j (invalidate k s).stale_keys
        ≡ (not (is_yes (str_dec k j)) && elem str_dec j s.stale_keys)
  unfolding invalidate notify
  stale_keys-invalidate d = ground (arith, elem-remove str_dec k j s.stale_keys d)

  -- A key that the store knows nothing of is not in the LRU order.
  pub lru_order-invalidate :
      Distinct str_dec s.lru_order
      → (has str_dec k s.records ≡ false
          → has str_dec k s.state_snapshots ≡ false
          → elem str_dec k s.lru_order ≡ false)
      → elem str_dec j (invalidate k s).lru_order
        ≡ (not (is_yes (str_dec k j)) && elem str_dec j s.lru_order)
  unfolding invalidate notify
  lru_order-invalidate d h = ground (arith, elem-remove str_dec k j s.lru_order d)

pub invalidate-IsShaped : (k : String) (s : ResourceStore) → IsShaped s → IsShaped (invalidate k s)
unfolding invalidate notify
invalidate-IsShaped k s h = ground (
  arith,
  remove-Distinct str_dec k s.lru_order,
  remove-Distinct str_dec k s.stale_keys,
  delete-Distinct str_dec k s.records,
  delete-Distinct str_dec k s.state_snapshots,
)

-- Invalidating a key repairs whatever the store said of it, and says nothing else of another key.
pub invalidate-IsConsistent :
    (k : String) (s : ResourceStore)
    → IsShaped s
    → ((j : String) → k ≢ j → AgreeAt s j)
    → (has str_dec k s.records ≡ false
        → has str_dec k s.state_snapshots ≡ false
        → elem str_dec k s.lru_order ≡ false)
    → IsConsistent (invalidate k s)
invalidate-IsConsistent k s h others absent = record {
  shaped = invalidate-IsShaped k s h;
  agree = λ j.
      rw
        (
          records-invalidate k j s,
          state_snapshots-invalidate k j s,
          stale_keys-invalidate k j s h.stale_keys,
          lru_order-invalidate k j s h.lru_order absent,
        )
        (split j (str_dec k j));
}
  where
    split :
        (j : String) (d : Dec (k ≡ j))
        → Agree j
            (ite d none (get str_dec j s.records))
            (ite d none (get str_dec j s.state_snapshots))
            (not (is_yes d) && elem str_dec j s.stale_keys)
            (not (is_yes d) && elem str_dec j s.lru_order)
    split j (yes p) = (refl, refl)
    split j (no p) = others j p

-- The store after a round of the loop of `evictIfNeeded`.
abbrev pub evicted : String → List String → ResourceStore → ResourceStore
evicted k rest s = invalidate k (record s { lru_order = rest })

pub evicted-IsConsistent :
    (k : String) (rest : List String) (s : ResourceStore)
    → s.lru_order ≡ k ∷ rest
    → IsConsistent s
    → IsConsistent (evicted k rest s)
unfolding elem
evicted-IsConsistent k rest s e h =
    invalidate-IsConsistent k (record s { lru_order = rest })
      (record {
        positive = h.shaped.positive;
        lru_order = d.1;
        stale_keys = h.shaped.stale_keys;
        records = h.shaped.records;
        state_snapshots = h.shaped.state_snapshots;
      })
      (λ j ne. others j ne (h.agree j)) (λ _ _. d.0)
  where
    d : Distinct str_dec (k ∷ rest)
    d = subst (λ l. Distinct str_dec l) e h.shaped.lru_order

    listed : (j : String) → k ≢ j → elem str_dec j s.lru_order ≡ elem str_dec j rest
    listed j ne = rw e (ground arith)

    others : (j : String) → k ≢ j → AgreeAt s j → AgreeAt (record s { lru_order = rest }) j
    others j ne a =
        subst
          (λ b.
            Agree j (get str_dec j s.records) (get str_dec j s.state_snapshots)
              (elem str_dec j s.stale_keys) b)
          (listed j ne) a

-- With no key in the LRU order there is nothing in the store.
pub not-over_limit_of_nil :
    (s : ResourceStore) → IsConsistent s → s.lru_order ≡ [] → over_limit s ≡ false
unfolding elem
not-over_limit_of_nil s h e = ground (
  arith,
  size_of_no_key str_dec s.records (λ k. (nothing k (h.agree k)).0),
  size_of_no_key str_dec s.state_snapshots (λ k. (nothing k (h.agree k)).1),
  h.shaped.positive,
)
  where
    nothing :
        (k : String)
        → AgreeAt s k
        → (has str_dec k s.records ≡ false) × (has str_dec k s.state_snapshots ≡ false)
    nothing k a = let unlisted : elem str_dec k s.lru_order ≡ false = rw e refl in ground arith
