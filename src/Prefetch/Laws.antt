-- ===== src/Prefetch/Laws.antt =====
-- What packages/core/src/prefetch.ts keeps: its limits, and what `clear` throws away.
use native.Mathlib.Decide.{ℕ_discrete}
use flux_fast.Shared.{
  ℕ, zero, suc, ◌≤◌, String, ◌≡◌, refl, true, not, ◌||◌, Option, none, some, List, [], ◌∷◌, arith,
  ltb, ◌==◌, elem, str_dec, Bool-cases, inl, inr,
}
use flux_fast.Shared.JsMap.{Map, get, set, size, size-trim, size-delete-le, size-refresh-le}
use flux_fast.Envelope.{PageEnvelope}
use flux_fast.Prefetch.{
  PrefetchManager, PrefetchEntry, PrefetchRequest, new_prefetch_manager, is_usable, looked_up,
  get_cached, evict_request, evict_in_flight, max_prefetch_entries, fetch, fetched,
  share_or_request, resolved, settled, clear,
}

-- Both tables are within the limit.
pub record IsBounded (m : PrefetchManager) : Type 0 where
  pub in_flight : size m.in_flight ≤ max_prefetch_entries
  pub cache : size m.cache ≤ max_prefetch_entries

-- With fuel for every request in flight, at most 32 requests are left.
evict_in_flight-ends :
    (fuel : ℕ) (m : PrefetchManager)
    → size m.in_flight ≤ fuel
    → (size (evict_in_flight fuel m).in_flight ≤ max_prefetch_entries)
      × ((evict_in_flight fuel m).cache ≡ m.cache)
unfolding evict_in_flight
evict_in_flight-ends zero m p = (omega arith, refl)
evict_in_flight-ends (suc fuel) m p =
    elim (Bool-cases (ltb max_prefetch_entries (size m.in_flight))) [
      | inr fits ↦ rw (fits, evict_in_flight) (ground arith, refl)
      | inl over ↦ rw (over, evict_in_flight) (round m.in_flight p over (evict_in_flight-ends fuel))
    ]
  where
    round :
        (l : Map String ℕ)
        → size l ≤ suc fuel
        → ltb max_prefetch_entries (size l) ≡ true
        → ((n : PrefetchManager)
            → size n.in_flight ≤ fuel
            → (size (evict_in_flight fuel n).in_flight ≤ max_prefetch_entries)
              × ((evict_in_flight fuel n).cache ≡ n.cache))
        → (size (evict_request (evict_in_flight fuel) l m).in_flight ≤ max_prefetch_entries)
          × ((evict_request (evict_in_flight fuel) l m).cache ≡ m.cache)
    round [] q o again = absurd (ground arith)
    round ((oldest, id) ∷ rest) q o again = again _ (omega arith)

pub get_cached-IsBounded :
    (now : ℕ) (url : String) (current : Map String String) (m : PrefetchManager)
    → IsBounded m
    → IsBounded (get_cached now url current m).0
unfolding get_cached
get_cached-IsBounded now url current m h = go (get str_dec url m.cache) refl
  where
    go :
        (o : Option PrefetchEntry)
        → get str_dec url m.cache ≡ o
        → IsBounded (looked_up now url o current m).0
    go none p = h
    go (some entry) p = elim (Bool-cases (is_usable now entry current m)) [
      | inl use_it ↦ rw use_it (record {
        in_flight = h.in_flight;
        cache = omega (arith, h.cache, size-refresh-le str_dec url entry entry m.cache p);
      })
      | inr no_use ↦ rw no_use (record {
        in_flight = h.in_flight;
        cache = omega (arith, h.cache, size-delete-le str_dec url m.cache);
      })
    ]

pub fetch-IsBounded :
    (now : ℕ) (finger url : String) (known : Map String String) (ttl : ℕ) (m : PrefetchManager)
    → IsBounded m
    → IsBounded (fetch now finger url known ttl m).0
unfolding fetch
fetch-IsBounded now finger url known ttl m h =
    go (get_cached now url known m).0 (get_cached now url known m).1
      (get_cached-IsBounded now url known m h)
  where
    share :
        (o : Option ℕ) (n : PrefetchManager)
        → IsBounded n
        → IsBounded (share_or_request o finger url known ttl n).0
    share (some p) n b = b
    share none n b =
        let (flight, cache) =
          evict_in_flight-ends (size (set str_dec finger n.next_request n.in_flight)) _
            (omega arith) in
        record { in_flight = flight; cache = rw cache b.cache }

    go :
        (n : PrefetchManager) (o : Option PageEnvelope)
        → IsBounded n
        → IsBounded (fetched (n, o) finger url known ttl).0
    go n (some envelope) b = b
    go n none b = share (get str_dec finger n.in_flight) n b

settled-IsBounded :
    (req : PrefetchRequest) (m : PrefetchManager) → IsBounded m → IsBounded (settled req m)
settled-IsBounded req m h = record {
  in_flight = ground (arith, h.in_flight, size-delete-le str_dec req.finger m.in_flight);
  cache = h.cache;
}

resolved-IsBounded :
    (now : ℕ) (req : PrefetchRequest) (envelope : PageEnvelope) (m : PrefetchManager)
    → IsBounded m
    → IsBounded (resolved now req envelope m).0
unfolding resolved
resolved-IsBounded now req envelope m h =
    elim (Bool-cases (not (req.generation == m.generation) || elem ℕ_discrete req.id m.aborted)) [
      | inl old ↦ rw (old, resolved) h
      | inr current ↦
          rw (current, resolved)
            (record { in_flight = h.in_flight; cache = size-trim max_prefetch_entries _ })
    ]

-- The operations of the manager, with what the clock and the transport say, and the two parts of
-- `fetch` after its wait. A request that fails has only the last of them.
pub data PrefetchStep : Type 0 where
  fetch_called : ℕ → String → String → Map String String → ℕ → PrefetchStep
  get_cached_called : ℕ → String → Map String String → PrefetchStep
  answered : ℕ → PrefetchRequest → PageEnvelope → PrefetchStep
  finished : PrefetchRequest → PrefetchStep
  clear_called : PrefetchStep

unfoldable pub happen : PrefetchStep → PrefetchManager → PrefetchManager
unfolding fetch get_cached resolved clear
happen (fetch_called now finger url known ttl) m = (fetch now finger url known ttl m).0
happen (get_cached_called now url current) m = (get_cached now url current m).0
happen (answered now req envelope) m = (resolved now req envelope m).0
happen (finished req) m = settled req m
happen clear_called m = clear m

-- Each step keeps the limits.
pub happen-IsBounded :
    (step : PrefetchStep) (m : PrefetchManager) → IsBounded m → IsBounded (happen step m)
unfolding happen
happen-IsBounded (fetch_called now finger url known ttl) m h =
    fetch-IsBounded now finger url known ttl m h
happen-IsBounded (get_cached_called now url current) m h = get_cached-IsBounded now url current m h
happen-IsBounded (answered now req envelope) m h = resolved-IsBounded now req envelope m h
happen-IsBounded (finished req) m h = settled-IsBounded req m h
happen-IsBounded clear_called m h =
    unfold clear in record { in_flight = omega arith; cache = omega arith }

unfoldable pub run : List PrefetchStep → PrefetchManager → PrefetchManager
unfolding happen
run [] m = m
run (step ∷ steps) m = run steps (happen step m)

run-IsBounded :
    (steps : List PrefetchStep) (m : PrefetchManager) → IsBounded m → IsBounded (run steps m)
unfolding run
run-IsBounded [] m h = h
run-IsBounded (step ∷ steps) m h = run-IsBounded steps (happen step m) (happen-IsBounded step m h)

-- However `fetch`, `getCached` and `clear` are called from a new manager on, and whatever answers and
-- failures come for whichever requests, in any order, there are then at most 32 requests in flight
-- that can be shared, and at most 32 envelopes kept.
pub run-new_prefetch_manager :
    (steps : List PrefetchStep)
    → (size (run steps new_prefetch_manager).in_flight ≤ 32)
      × (size (run steps new_prefetch_manager).cache ≤ 32)
run-new_prefetch_manager steps =
    let h : IsBounded (run steps new_prefetch_manager) =
      run-IsBounded steps new_prefetch_manager
        (record { in_flight = omega arith; cache = omega arith }) in
    (h.in_flight, h.cache)

-- An answer to a request from before `clear` is thrown away: it is cancelled, and nothing is kept.
pub clear-resolved :
    (now : ℕ) (req : PrefetchRequest) (envelope : PageEnvelope) (m : PrefetchManager)
    → req.generation ≤ m.generation
    → ((resolved now req envelope (clear m)).1 ≡ none)
      × ((resolved now req envelope (clear m)).0.cache ≡ [])
unfolding resolved clear
clear-resolved now req envelope m p = rw old (refl, refl)
  where
    old : (not (req.generation == suc m.generation)) ≡ true
    old = ground arith
