-- ===== src/Prefetch.antt =====
-- packages/core/src/prefetch.ts, the class PrefetchManager, with the rejections of
-- prefetch-cache-policy.ts. A promise and its controller are the number of the request. `finger` is
-- `fingerprint`, which is made of the runtime's own functions: the URL and the versions, in the
-- order of `localeCompare`, as one JSON text.
pub mod Laws
pub mod Serving
pub mod Eviction
use native.Mathlib.Decide.{ℕ_discrete}
use flux_fast.Shared.{
  ℕ, zero, suc, ◌+◌, String, Bool, true, false, ◌&&◌, ◌||◌, not, Option, none, some, List, [], ◌∷◌,
  ◌++◌, map, if◌then◌else◌, is_some, get_or, ltb, leb, ◌==◌, elem, remove, str_dec, str_eq,
}
use flux_fast.Shared.Chars.{all}
use flux_fast.Shared.JsMap.{Map, get, set, delete, size, trim}
use flux_fast.Store.Changes.{ResourceWireRecord}
use flux_fast.Envelope.{PageEnvelope}

abbrev pub max_prefetch_entries : ℕ
max_prefetch_entries = 32

pub record PrefetchEntry : Type 0 where
  pub envelope : PageEnvelope
  pub expires_at : ℕ
  pub based_on_versions : Map String String

-- `rejected` are the envelopes of this manager in the registry of prefetch-cache-policy.ts, and
-- `aborted` the controllers that were aborted.
pub record PrefetchManager : Type 0 where
  pub in_flight : Map String ℕ
  pub controllers : Map String ℕ
  pub cache : Map String PrefetchEntry
  pub generation : ℕ
  pub rejected : List ℕ
  pub aborted : List ℕ
  pub next_request : ℕ

abbrev pub new_prefetch_manager : PrefetchManager
new_prefetch_manager = record {
  in_flight = [];
  controllers = [];
  cache = [];
  generation = 0;
  rejected = [];
  aborted = [];
  next_request = 0;
}

-- `a === b` of two lookups
abbrev pub same_text : Option String → Option String → Bool
same_text none none = true
same_text (some a) (some b) = str_eq a b
same_text _ _ = false

-- `envelope.resources[key]?.version ?? version`
abbrev pub expected_version : Option ResourceWireRecord → String → String
expected_version none version = version
expected_version (some wire) version = wire.version

unfoldable pub versions_still_available :
    Map String String → Map String String → PageEnvelope → Bool
versions_still_available based_on current envelope =
    all
      (λ (e : String × String).
        same_text (get str_dec e.0 current)
          (some (expected_version (get str_dec e.0 envelope.resources) e.1)))
      based_on
    && all
        (λ (e : String × ResourceWireRecord).
          not (is_some (get str_dec e.0 current))
          || same_text (get str_dec e.0 current) (some e.1.version))
        envelope.resources

-- `isRejectedPrefetchEnvelope`, `rejectPrefetchEnvelope`, `acceptPrefetchEnvelope`
abbrev pub is_rejected : PageEnvelope → PrefetchManager → Bool
is_rejected envelope m = elem ℕ_discrete envelope.ref m.rejected

abbrev pub reject : PageEnvelope → PrefetchManager → PrefetchManager
reject envelope m = record m { rejected = envelope.ref ∷ m.rejected }

abbrev without : ℕ → List ℕ → List ℕ
without ref [] = []
without ref (r ∷ refs) = if r == ref then without ref refs else r ∷ without ref refs

abbrev pub accept : PageEnvelope → PrefetchManager → PrefetchManager
accept envelope m = record m { rejected = without envelope.ref m.rejected }

-- The test of `getCached`, at the time `now`.
abbrev pub is_usable : ℕ → PrefetchEntry → Map String String → PrefetchManager → Bool
is_usable now entry current m =
    not (is_rejected entry.envelope m)
    && not (leb entry.expires_at now)
    && versions_still_available entry.based_on_versions current entry.envelope

abbrev pub looked_up :
    ℕ
    → String
    → Option PrefetchEntry
    → Map String String
    → PrefetchManager
    → PrefetchManager × Option PageEnvelope
looked_up now url none current m = (m, none)
looked_up now url (some entry) current m =
    if is_usable now entry current m
    then (
      record m { cache = set str_dec url entry (delete str_dec url m.cache) },
      some entry.envelope,
    )
    else (record m { cache = delete str_dec url m.cache }, none)

unfoldable pub get_cached :
    ℕ → String → Map String String → PrefetchManager → PrefetchManager × Option PageEnvelope
unfolding versions_still_available
get_cached now url current m = looked_up now url (get str_dec url m.cache) current m

-- One round of `evictInFlight`, and the rounds after it.
abbrev pub evict_request :
    (PrefetchManager → PrefetchManager) → Map String ℕ → PrefetchManager → PrefetchManager
evict_request again [] m = m
evict_request again ((oldest, _) ∷ rest) m = again (record m {
  aborted = m.aborted ++ elim (get str_dec oldest m.controllers) [ none ↦ [] | some c ↦ c ∷ [] ];
  controllers = delete str_dec oldest m.controllers;
  in_flight = rest;
})

-- The loop, with fuel: every round takes one request.
unfoldable pub evict_in_flight : ℕ → PrefetchManager → PrefetchManager
evict_in_flight zero m = m
evict_in_flight (suc fuel) m = elim (ltb max_prefetch_entries (size m.in_flight)) [
  | false ↦ m
  | true ↦ evict_request (evict_in_flight fuel) m.in_flight m
]

-- What `fetch` has captured when it waits for the transport.
pub record PrefetchRequest : Type 0 where
  pub url : String
  pub finger : String
  pub id : ℕ
  pub generation : ℕ
  pub known_versions : Map String String
  pub ttl : ℕ

-- `fetch` up to its wait: an envelope that is there, a request to share, or a new one.
pub data Fetch : Type 0 where
  cached : PageEnvelope → Fetch
  shared : ℕ → Fetch
  requested : PrefetchRequest → Fetch

abbrev pub new_request : String → String → Map String String → ℕ → PrefetchManager → PrefetchRequest
new_request finger url known ttl m = record {
  url = url;
  finger = finger;
  id = m.next_request;
  generation = m.generation;
  known_versions = known;
  ttl = ttl;
}

abbrev share_or_request :
    Option ℕ → String → String → Map String String → ℕ → PrefetchManager → PrefetchManager × Fetch
share_or_request (some promise) finger url known ttl m = (m, shared promise)
share_or_request none finger url known ttl m =
    let m₁ = record m {
      next_request = suc m.next_request;
      in_flight = set str_dec finger m.next_request m.in_flight;
      controllers = set str_dec finger m.next_request m.controllers;
    } in
    (evict_in_flight (size m₁.in_flight) m₁, requested (new_request finger url known ttl m))

abbrev fetched :
    PrefetchManager × Option PageEnvelope
    → String
    → String
    → Map String String
    → ℕ
    → PrefetchManager × Fetch
fetched (m, some envelope) finger url known ttl = (m, cached envelope)
fetched (m, none) finger url known ttl =
    share_or_request (get str_dec finger m.in_flight) finger url known ttl m

unfoldable pub fetch :
    ℕ → String → String → Map String String → ℕ → PrefetchManager → PrefetchManager × Fetch
unfolding get_cached evict_in_flight
fetch now finger url known ttl m = fetched (get_cached now url known m) finger url known ttl

-- `getPending`
abbrev pub get_pending : String → PrefetchManager → Option ℕ
get_pending finger m = get str_dec finger m.in_flight

abbrev pub prune_expired : ℕ → Map String PrefetchEntry → Map String PrefetchEntry
prune_expired now [] = []
prune_expired now ((url, entry) ∷ cache) =
    if leb entry.expires_at now
    then prune_expired now cache
    else (url, entry) ∷ prune_expired now cache

-- The `finally` of `fetch`, after an answer, a cancellation or a failure: the request is no longer in flight, unless another took its place.
abbrev holds : Option ℕ → ℕ → Bool
holds none id = false
holds (some i) id = i == id

abbrev pub settled : PrefetchRequest → PrefetchManager → PrefetchManager
settled req m = record m {
  in_flight =
      if holds (get str_dec req.finger m.in_flight) req.id
      then delete str_dec req.finger m.in_flight
      else m.in_flight;
  controllers =
      if holds (get str_dec req.finger m.controllers) req.id
      then delete str_dec req.finger m.controllers
      else m.controllers;
}

-- `evictOldest`
abbrev pub stored :
    ℕ → PrefetchRequest → PageEnvelope → Map String PrefetchEntry → Map String PrefetchEntry
stored now req envelope cache = trim max_prefetch_entries (
    set str_dec req.url
      (record {
        envelope = envelope;
        expires_at = now + req.ttl;
        based_on_versions = req.known_versions;
      })
      (delete str_dec req.url (prune_expired now cache)))

-- The answer of the transport, up to the `finally`, which runs in a later microtask; `none` is the
-- cancellation that `fetch` throws.
unfoldable pub resolved :
    ℕ → PrefetchRequest → PageEnvelope → PrefetchManager → PrefetchManager × Option PageEnvelope
resolved now req envelope m =
    if not (req.generation == m.generation) || elem ℕ_discrete req.id m.aborted
    then (m, none)
    else let m₁ = accept envelope m in
      (record m₁ { cache = stored now req envelope m₁.cache }, some envelope)

abbrev pub ids : Map String ℕ → List ℕ
ids [] = []
ids ((_, id) ∷ rest) = id ∷ ids rest

unfoldable pub clear : PrefetchManager → PrefetchManager
clear m = record m {
  generation = suc m.generation;
  rejected = [];
  aborted = m.aborted ++ ids m.controllers;
  controllers = [];
  in_flight = [];
  cache = [];
}
