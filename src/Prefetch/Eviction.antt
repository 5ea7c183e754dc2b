-- ===== src/Prefetch/Eviction.antt =====
-- Which requests `evictInFlight` of packages/core/src/prefetch.ts gives up.
use flux_fast.Shared.{
  ℕ, zero, suc, ◌-◌, ◌≤◌, String, ◌≡◌, refl, ap, sym, ◌∙◌, true, false, none, some, List, [], ◌∷◌,
  ◌++◌, arith, ltb, elem, str_dec, drop, Distinct, Bool-cases, inl, inr,
}
use mathlib.Core.List.{append-nil, append_assoc}
use flux_fast.Shared.JsMap.{Map, get, delete, keys, get-delete, size}
use flux_fast.Prefetch.{PrefetchManager, evict_request, evict_in_flight, max_prefetch_entries}

-- The `n` requests that were made first.
abbrev pub oldest : ℕ → Map String ℕ → Map String ℕ
oldest zero l = []
oldest (suc n) [] = []
oldest (suc n) (e ∷ l) = e ∷ oldest n l

-- The controllers of some requests.
abbrev pub controllers_of : Map String ℕ → Map String ℕ → List ℕ
controllers_of [] controllers = []
controllers_of ((finger, _) ∷ l) controllers =
    elim (get str_dec finger controllers) [ none ↦ [] | some c ↦ c ∷ [] ]
    ++ controllers_of l controllers

elem-oldest :
    (finger : String) (n : ℕ) (l : Map String ℕ)
    → elem str_dec finger (keys l) ≡ false
    → elem str_dec finger (keys (oldest n l)) ≡ false
unfolding elem
elem-oldest finger zero l h = refl
elem-oldest finger (suc n) [] h = refl
elem-oldest finger (suc n) (e ∷ l) h = ground (arith, elem-oldest finger n l)

controllers_of-delete :
    (finger : String) (l controllers : Map String ℕ)
    → elem str_dec finger (keys l) ≡ false
    → controllers_of l (delete str_dec finger controllers) ≡ controllers_of l controllers
unfolding elem
controllers_of-delete finger [] controllers h = refl
controllers_of-delete finger ((k, id) ∷ l) controllers h =
    let same : get str_dec k (delete str_dec finger controllers) ≡ get str_dec k controllers =
      ground (arith, get-delete str_dec finger k controllers) in
    rw (same, controllers_of-delete finger l controllers (ground arith)) refl

-- What `evictInFlight` does to the requests `l` in flight.
abbrev pub Evicts : Map String ℕ → PrefetchManager → PrefetchManager → Type 0
Evicts l m n =
    (n.in_flight ≡ drop (size l - max_prefetch_entries) l)
    × (n.aborted
        ≡ m.aborted ++ controllers_of (oldest (size l - max_prefetch_entries) l) m.controllers)
    × (n.cache ≡ m.cache)

-- With fuel for every request in flight, the loop of `evictInFlight` ends with the 32 newest
-- requests in flight, in their order, or with all of them if there are no more. It has aborted the
-- controllers of the others, oldest first, and no more, and takes nothing from the cache. No two
-- requests in flight have one fingerprint.
pub evict_in_flight_lem :
    (fuel : ℕ) (m : PrefetchManager)
    → Distinct str_dec (keys m.in_flight)
    → size m.in_flight ≤ fuel
    → Evicts m.in_flight m (evict_in_flight fuel m)
unfolding evict_in_flight
evict_in_flight_lem zero m d p = fits m.in_flight (omega arith) refl
  where
    fits : (l : Map String ℕ) → size l ≤ 0 → m.in_flight ≡ l → Evicts l m m
    fits l q e =
        let none_over : (size l - max_prefetch_entries) ≡ 0 = omega arith in
        rw (none_over) (e, sym (append-nil m.aborted), refl)
evict_in_flight_lem (suc fuel) m d p =
    elim (Bool-cases (ltb max_prefetch_entries (size m.in_flight))) [
      | inr all_fit ↦ rw (all_fit, evict_in_flight) (fits (ground arith))
      | inl over ↦
          rw (over, evict_in_flight) (round m.in_flight d p over (evict_in_flight_lem fuel))
    ]
  where
    fits : size m.in_flight ≤ max_prefetch_entries → Evicts m.in_flight m m
    fits q =
        let none_over : (size m.in_flight - max_prefetch_entries) ≡ 0 = omega arith in
        rw (none_over) (refl, sym (append-nil m.aborted), refl)

    round :
        (l : Map String ℕ)
        → Distinct str_dec (keys l)
        → size l ≤ suc fuel
        → ltb max_prefetch_entries (size l) ≡ true
        → ((n : PrefetchManager)
            → Distinct str_dec (keys n.in_flight)
            → size n.in_flight ≤ fuel
            → Evicts n.in_flight n (evict_in_flight fuel n))
        → Evicts l m (evict_request (evict_in_flight fuel) l m)
    round [] distinct q o again = absurd (ground arith)
    round ((finger, id) ∷ rest) distinct q o again =
        let one : (suc (size rest) - max_prefetch_entries)
            ≡ suc (size rest - max_prefetch_entries) =
          ground arith in
        let (flight, aborted, cache) =
          again
            (record m {
              aborted =
                  m.aborted
                  ++ elim (get str_dec finger m.controllers) [ none ↦ [] | some c ↦ c ∷ [] ];
              controllers = delete str_dec finger m.controllers;
              in_flight = rest;
            })
            distinct.1 (omega arith) in
        rw (one) (
          flight,
          aborted
              ∙ append_assoc m.aborted
                  (elim (get str_dec finger m.controllers) [ none ↦ [] | some c ↦ c ∷ [] ]) _
              ∙ ap
                  (λ cs.
                    m.aborted
                    ++ (elim (get str_dec finger m.controllers) [ none ↦ [] | some c ↦ c ∷ [] ]
                        ++ cs))
                  (controllers_of-delete finger (oldest (size rest - max_prefetch_entries) rest)
                    m.controllers
                    (elem-oldest finger (size rest - max_prefetch_entries) rest distinct.0)),
          cache,
        )
