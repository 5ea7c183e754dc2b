-- ===== src/Tests/Prefetch.antt =====
-- Runs of the prefetches and of the live keys of packages/core/src.
use flux_fast.Shared.{
  ◌≤◌, ◌≡◌, refl, false, none, some, [], ◌∷◌, arith, str_dec, str_eq, add, elem, length, All,
}
use flux_fast.Shared.Chars.{
  codes, code_units, text_length, is_blank, includes, has_control, insert, sort, join_commas,
  split_commas,
}
use flux_fast.Shared.JsMap.{get, set, delete, size, trim}
use Prim.Native.String.{len}
use flux_fast.Value.{null}
use flux_fast.Store.Changes.{union}
use flux_fast.Envelope.{PageEnvelope}
use flux_fast.Prefetch.{
  PrefetchManager, PrefetchRequest, new_prefetch_manager, get_cached, fetch, resolved, clear,
  versions_still_available, evict_in_flight,
}
use flux_fast.Prefetch.Laws.{fetch_called, answered, run, run-new_prefetch_manager, clear-resolved}
use flux_fast.Prefetch.Serving.{Serves, get_cached-Serves}
use flux_fast.Prefetch.Eviction.{Evicts, evict_in_flight_lem}
use flux_fast.Live.State.{LiveManifest}
use flux_fast.Live.Keys.{is_unsafe_key, serialize_live_keys, normalized, normalize_manifest}
use flux_fast.Live.Keys.Laws.{normalize_manifest_lem}

abbrev envelope : PageEnvelope
envelope = record {
  ref = 1;
  page = record { component = "rooms"; url = "/rooms"; meta = none };
  resources = ("rooms", record { version = "v2"; value = null }) ∷ [];
  resource_keys = none;
  deferred = none;
  live = none;
  resource_errors = none;
}

abbrev request : PrefetchRequest
request = record {
  url = "/rooms";
  finger = "f1";
  id = 0;
  generation = 0;
  known_versions = [];
  ttl = 30;
}

abbrev asked : PrefetchManager
asked = (fetch 10 "f1" "/rooms" [] 30 new_prefetch_manager).0

abbrev kept : PrefetchManager
kept = (resolved 12 request envelope asked).0

-- Every definition that a prefetch computes with.
kept_entry : size kept.cache ≡ 1
unfolding get set delete trim elem str_dec fetch resolved get_cached evict_in_flight
    versions_still_available
kept_entry = refl

answers : (get_cached 20 "/rooms" [] kept).1 ≡ some envelope
unfolding get set delete trim elem str_dec fetch resolved get_cached evict_in_flight
    versions_still_available
answers = refl

expired : (get_cached 42 "/rooms" [] kept).1 ≡ none
unfolding get set delete trim elem str_dec fetch resolved get_cached evict_in_flight
    versions_still_available
expired = refl

get_cached_example : Serves 20 "/rooms" [] kept envelope
get_cached_example = get_cached-Serves 20 "/rooms" [] kept envelope answers

run-new_prefetch_manager_example :
    (size
        (run
          (fetch_called 10 "f1" "/rooms" [] 30 ∷ answered 12 request envelope ∷ [])
          new_prefetch_manager).in_flight
      ≤ 32)
    × (size
          (run
            (fetch_called 10 "f1" "/rooms" [] 30 ∷ answered 12 request envelope ∷ [])
            new_prefetch_manager).cache
        ≤ 32)
run-new_prefetch_manager_example =
    run-new_prefetch_manager
      (fetch_called 10 "f1" "/rooms" [] 30 ∷ answered 12 request envelope ∷ [])

evict_in_flight_example : Evicts asked.in_flight asked (evict_in_flight 1 asked)
evict_in_flight_example =
    evict_in_flight_lem 1 asked
      (unfold get set delete str_dec elem fetch get_cached evict_in_flight
          versions_still_available in
        (refl, tt))
      (unfold get set delete str_dec fetch get_cached evict_in_flight versions_still_available in
        omega arith)

clear-resolved_example :
    ((resolved 12 request envelope (clear new_prefetch_manager)).1 ≡ none)
    × ((resolved 12 request envelope (clear new_prefetch_manager)).0.cache ≡ [])
clear-resolved_example = clear-resolved 12 request envelope new_prefetch_manager (omega arith)

abbrev manifest : LiveManifest
manifest = record { url = "/rooms"; keys = "rooms" ∷ "users" ∷ [] }

normal : normalize_manifest "/rooms" ("users" ∷ "rooms" ∷ "users" ∷ []) ≡ normalized manifest
unfolding normalize_manifest serialize_live_keys is_unsafe_key add str_dec insert sort join_commas
    split_commas is_blank text_length includes has_control codes code_units
normal = refl

normalize_manifest_example :
    (manifest.url ≡ "/rooms")
    × (str_eq "/rooms" "" ≡ false)
    × (manifest.keys ≡ sort (union [] ("users" ∷ "rooms" ∷ "users" ∷ [])))
    × All (λ key. is_unsafe_key key ≡ false) manifest.keys
    × (length manifest.keys ≤ 100)
    × (len (join_commas manifest.keys) ≤ 16384)
normalize_manifest_example =
    normalize_manifest_lem "/rooms" ("users" ∷ "rooms" ∷ "users" ∷ []) manifest normal
