-- ===== src/Store/Limits.antt =====
-- The loop of `evictIfNeeded` in packages/core/src/store.ts: it keeps the store consistent, ends
-- within the limits and spares the key that was used last.
use flux_fast.Shared.{
  ℕ, zero, suc, String, ◌≤◌, ◌≡◌, refl, inl, inr, true, false, Bool-cases, List, [], ◌∷◌, arith,
  remove, length, str_dec,
}
use flux_fast.Store.State.{ResourceStore}
use flux_fast.Store.Internals.{
  notify, invalidate, over_limit, evict_oldest, evict_loop, evict_if_needed,
}
use flux_fast.Store.Validity.{IsConsistent, IsValid}
use flux_fast.Store.Eviction.{evicted, evicted-IsConsistent, not-over_limit_of_nil}

-- What a round of the loop keeps, the loop keeps.
module _ {ℓ} (P : ResourceStore → Type ℓ)
    (round : (s : ResourceStore) (k : String) (rest : List String)
      → over_limit s ≡ true
      → s.lru_order ≡ k ∷ rest
      → P s
      → P (evicted k rest s)) where
  evict_oldest_inv :
      (again : ResourceStore → ResourceStore) (l : List String) (s : ResourceStore)
      → ((t : ResourceStore) → P t → P (again t))
      → s.lru_order ≡ l
      → over_limit s ≡ true
      → P s
      → P (evict_oldest again l s)
  unfolding evict_oldest
  evict_oldest_inv again [] s keep e o h = h
  evict_oldest_inv again (k ∷ rest) s keep e o h = keep _ (round s k rest o e h)

  pub evict_loop_inv : (fuel : ℕ) (s : ResourceStore) → P s → P (evict_loop fuel s)
  unfolding evict_loop
  evict_loop_inv zero s h = h
  evict_loop_inv (suc fuel) s h = elim (Bool-cases (over_limit s)) [
    | inl o ↦
        rw (o, evict_loop)
          (evict_oldest_inv (evict_loop fuel) s.lru_order s (evict_loop_inv fuel) refl o h)
    | inr o ↦ rw (o, evict_loop) h
  ]

length-remove-le : (a : String) (xs : List String) → length (remove str_dec a xs) ≤ length xs
unfolding remove
length-remove-le a [] = omega arith
length-remove-le a (x ∷ xs) = ground (arith, length-remove-le a xs)

nil_of_length : (l : List String) → length l ≤ 0 → l ≡ []
nil_of_length [] n = refl
nil_of_length (x ∷ l) n = absurd (omega arith)

length-evicted :
    (k : String) (rest : List String) (s : ResourceStore)
    → length (evicted k rest s).lru_order ≤ length rest
unfolding invalidate notify
length-evicted k rest s = ground (arith, length-remove-le k rest)

evict_oldest-ends :
    (fuel : ℕ) (l : List String) (s : ResourceStore)
    → s.lru_order ≡ l
    → length l ≤ suc fuel
    → IsConsistent s
    → ((t : ResourceStore)
        → length t.lru_order ≤ fuel
        → IsConsistent t
        → over_limit (evict_loop fuel t) ≡ false)
    → over_limit (evict_oldest (evict_loop fuel) l s) ≡ false
unfolding evict_oldest
evict_oldest-ends fuel [] s e n h ih = not-over_limit_of_nil s h e
evict_oldest-ends fuel (k ∷ rest) s e n h ih =
    ih (evicted k rest s) (omega (arith, length-evicted k rest s))
      (evicted-IsConsistent k rest s e h)

-- Fuel for every key in the LRU order is enough.
evict_loop-ends :
    (fuel : ℕ) (s : ResourceStore)
    → length s.lru_order ≤ fuel
    → IsConsistent s
    → over_limit (evict_loop fuel s) ≡ false
unfolding evict_loop
evict_loop-ends zero s n h = elim (Bool-cases (over_limit s)) [
  | inr o ↦ o
  | inl o ↦ not-over_limit_of_nil s h (nil_of_length s.lru_order n)
]
evict_loop-ends (suc fuel) s n h = elim (Bool-cases (over_limit s)) [
  | inr o ↦ rw (o, evict_loop) o
  | inl o ↦
      rw (o, evict_loop) (evict_oldest-ends fuel s.lru_order s refl n h (evict_loop-ends fuel))
]

-- Eviction makes any consistent store valid.
pub evict_if_needed-IsValid : (s : ResourceStore) → IsConsistent s → IsValid (evict_if_needed s)
unfolding evict_if_needed
evict_if_needed-IsValid s h =
    let done : over_limit (evict_loop (length s.lru_order) s) ≡ false =
      evict_loop-ends (length s.lru_order) s (omega arith) h in
    record {
      consistent =
          evict_loop_inv IsConsistent (λ t k rest o e. evicted-IsConsistent k rest t e)
            (length s.lru_order) s h;
      fits = ground arith;
    }
