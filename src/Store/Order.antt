-- ===== src/Store/Order.antt =====
-- Which keys `evictIfNeeded` of packages/core/src/store.ts takes: the least recently used, and no
-- others.
use mathlib.Core.List.{append_assoc}
use flux_fast.Shared.{
  String, ◌≡◌, refl, sym, ap, subst, ◌∙◌, true, false, ◌||◌, none, List, [], ◌∷◌, ◌++◌, ite, arith,
  elem, length, str_dec, elem-append, is_yes, Distinct, Option,
}
use flux_fast.Shared.JsMap.{get}
use flux_fast.Store.State.{ResourceStore}
use flux_fast.Store.Internals.{evict_if_needed}
use flux_fast.Store.Validity.{IsConsistent, IsValid}
use flux_fast.Store.Eviction.{
  evicted, evicted-IsConsistent, records-invalidate, state_snapshots-invalidate,
}
use flux_fast.Store.Limits.{evict_loop_inv, evict_if_needed-IsValid}
use flux_fast.Store.Survival.{lru_order-evicted}

-- `t` is `s` without the keys `dropped`, which came first in the LRU order.
pub record Evicts (s t : ResourceStore) : Type 0 where
  pub dropped : List String
  pub oldest : s.lru_order ≡ dropped ++ t.lru_order
  pub gone :
      (j : String)
      → elem str_dec j dropped ≡ true
      → (get str_dec j t.records ≡ none) × (get str_dec j t.state_snapshots ≡ none)
  pub kept :
      (j : String)
      → elem str_dec j dropped ≡ false
      → (get str_dec j t.records ≡ get str_dec j s.records)
        × (get str_dec j t.state_snapshots ≡ get str_dec j s.state_snapshots)

gone_by :
    {A : Type 0} (k j : String) (o : Option A) (before : List String) (d : Dec (k ≡ j))
    → (elem str_dec j before || is_yes d) ≡ true
    → (elem str_dec j before ≡ true → o ≡ none)
    → ite d none o ≡ none
gone_by k j o before (yes q) p h = refl
gone_by k j o before (no q) p h = h (ground arith)

kept_by :
    {A : Type 0} (k j : String) (o : Option A) (d : Dec (k ≡ j))
    → is_yes d ≡ false
    → ite d none o ≡ o
kept_by k j o (yes q) p = cc
kept_by k j o (no q) p = refl

elem-concat :
    (k j : String) (before : List String)
    → elem str_dec j (before ++ k ∷ []) ≡ (elem str_dec j before || is_yes (str_dec k j))
unfolding elem
elem-concat k j before = ground (arith, elem-append str_dec j before (k ∷ []))

Evicts-round :
    (s t : ResourceStore) (k : String) (rest : List String)
    → t.lru_order ≡ k ∷ rest
    → IsConsistent t × Evicts s t
    → IsConsistent (evicted k rest t) × Evicts s (evicted k rest t)
Evicts-round s t k rest e (c, v) = (
  evicted-IsConsistent k rest t e c,
  record {
    dropped = v.dropped ++ k ∷ [];
    oldest =
        v.oldest
        ∙ ap (◌++◌ v.dropped) (e ∙ ap (◌∷◌ k) (sym (lru_order-evicted k rest t fresh)))
        ∙ sym (append_assoc v.dropped (k ∷ []) (evicted k rest t).lru_order);
    gone = λ j p. (
      records-invalidate k j u
          ∙ gone_by k j (get str_dec j t.records) v.dropped (str_dec k j)
              (sym (elem-concat k j v.dropped) ∙ p) (λ q. (v.gone j q).0),
      state_snapshots-invalidate k j u
          ∙ gone_by k j (get str_dec j t.state_snapshots) v.dropped (str_dec k j)
              (sym (elem-concat k j v.dropped) ∙ p) (λ q. (v.gone j q).1),
    );
    kept = λ j p.
        let (old, ne) = split j p in
        (
          records-invalidate k j u
              ∙ kept_by k j (get str_dec j t.records) (str_dec k j) ne
              ∙ (v.kept j old).0,
          state_snapshots-invalidate k j u
              ∙ kept_by k j (get str_dec j t.state_snapshots) (str_dec k j) ne
              ∙ (v.kept j old).1,
        );
  },
)
  where
    u : ResourceStore
    u = record t { lru_order = rest }

    fresh : elem str_dec k rest ≡ false
    fresh = unfold elem in (subst (λ l. Distinct str_dec l) e c.shaped.lru_order).0

    split :
        (j : String)
        → elem str_dec j (v.dropped ++ k ∷ []) ≡ false
        → (elem str_dec j v.dropped ≡ false) × (is_yes (str_dec k j) ≡ false)
    split j p = ground (arith, elem-concat k j v.dropped)

-- Eviction of a consistent store takes a first part of the LRU order, and with it every record and
-- snapshot of those keys; every other key keeps its record and snapshot. What remains is valid.
pub evict_if_needed-Evicts :
    (s : ResourceStore)
    → IsConsistent s
    → Evicts s (evict_if_needed s) × IsValid (evict_if_needed s)
unfolding evict_if_needed
evict_if_needed-Evicts s h = (
  (evict_loop_inv (λ t. IsConsistent t × Evicts s t) (λ t k rest _ e p. Evicts-round s t k rest e p)
      (length s.lru_order) s
      (
        h,
        record {
          dropped = [];
          oldest = refl;
          gone = λ j p. none_in j p;
          kept = λ j p. (refl, refl);
        },
      )).1,
  unfold evict_if_needed in evict_if_needed-IsValid s h,
)
  where
    none_in :
        (j : String)
        → elem str_dec j [] ≡ true
        → (get str_dec j s.records ≡ none) × (get str_dec j s.state_snapshots ≡ none)
    none_in j p = unfold elem in cc p
