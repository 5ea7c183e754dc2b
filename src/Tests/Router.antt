-- ===== src/Tests/Router.antt =====
-- Runs of the router of packages/core/src/router.ts.
use flux_fast.Shared.{
  ◌≡◌, refl, true, false, ◌&&◌, none, some, List, [], ◌∷◌, arith, str_dec, elem, add, get_or,
  is_yes, not, inr, ◌⊎◌,
}
use flux_fast.Shared.JsMap.{get, keys}
use flux_fast.Value.{null}
use flux_fast.Store.State.{ResourceStore}
use flux_fast.Store.Validity.{IsValid}
use flux_fast.Store.Operations.{new_store}
use flux_fast.Store.Reachable.{perform_all, reachable-IsValid}
use flux_fast.Envelope.{PageEnvelope, MutationPayload, page_state}
use flux_fast.Prefetch.{new_prefetch_manager}
use flux_fast.Live.State.{new_live_manager}
use flux_fast.Live.Runs
use flux_fast.Live.Runs.{run_lem}
use flux_fast.Live.Keys.{normalize_manifest, throws, serialize_live_keys, is_unsafe_key}
use flux_fast.Router.State.{Router, Outside, ResourceLoad, Visit, refresh}
use flux_fast.Router.Basics.{bump_resource_epoch, or_root}
use flux_fast.Router.Bumps.{HasHistory, authoritative}
use flux_fast.Epochs.Bounds.{new_map-IsHistory}
use flux_fast.Store.Others.{Untouched}
use flux_fast.Router.Loads.{
  begin_load, capture_epochs, settle_keys, load_answered, load_failed, finish_load,
}
use flux_fast.Router.Pages.{is_eligible, apply_page_envelope}
use flux_fast.Router.Visits.{visit_answered, clear}
use flux_fast.Router.Signals.{session_over, mutation_answered, prefetch_answered}
use flux_fast.Router.Start.{FluxRuntimeOptions, assembled, new_router}
use flux_fast.Router.Soundness.{IsSound}
use flux_fast.Router.SoundStart.{AreFit}
use flux_fast.Router.Runs.{
  RouterStep, visit_called, visit_got, load_called, cleared, run, run-new_router-IsSound,
}
use flux_fast.Router.Races.{
  current_keys, without, bump-is_eligible, settle_keys-bump, settle_keys-current_keys,
}
use flux_fast.Router.Eligibility.{apply_page_envelope-is_eligible}
use flux_fast.Router.Endings.{clear-IsFinal, visit_answered-throws}

abbrev store : ResourceStore
store = record {
  records = [];
  subscribers = [];
  global_subscribers = [];
  lru_order = [];
  stale_keys = [];
  state_snapshots = [];
  max_resources = 8;
  calls = [];
}

abbrev options : FluxRuntimeOptions
options = record {
  resource_store = store;
  prefetch_manager = new_prefetch_manager;
  page_cache = record { entries = []; max_pages = 4 };
  live_manager = new_live_manager;
  initial_envelope = none;
  initial_page = none;
  initial_resources = some (("rooms", record { version = "v1"; value = null }) ∷ []);
}

store-IsValid : IsValid store
unfolding perform_all
store-IsValid = reachable-IsValid (some 8) store [] (unfold new_store in refl)

options-AreFit : AreFit options
unfolding Runs.run
options-AreFit = record {
  store = store-IsValid;
  live = run_lem [];
  prefetches = record { in_flight = omega arith; cache = omega arith };
  pages = record { positive = omega arith; fits = omega arith };
}

abbrev outside : Outside
outside = record { now = 10; later = 11; fresh = 1; answer = some 5; online = true }

-- A page that names an unsafe live key, with a comma.
abbrev page : PageEnvelope
page = record {
  ref = 1;
  page = record { component = "rooms"; url = "/rooms"; meta = none };
  resources = ("rooms", record { version = "v2"; value = null }) ∷ [];
  resource_keys = none;
  deferred = some ("users" ∷ []);
  live = some ("a,b" ∷ []);
  resource_errors = none;
}

abbrev visit : Visit
visit = record { visit_id = 1; url = "/rooms"; started_at_epoch = 0; controller = 1 }

abbrev steps : List RouterStep
steps =
    visit_called 10 "/rooms"
    ∷ visit_got outside visit page
    ∷ load_called ("rooms" ∷ []) none refresh none
    ∷ cleared 12
    ∷ []

run-new_router_example : IsSound (run steps (new_router outside options).0)
run-new_router_example = run-new_router-IsSound outside options steps options-AreFit

abbrev router : Router
router = assembled options

-- A router whose epochs have come to 3, and the load of a key that has captured the second.
abbrev counted : Router
counted = record router { resource_epoch_counter = 3 }

abbrev load : ResourceLoad
load = record {
  load_id = 1;
  url = "/rooms";
  keys = "rooms" ∷ "users" ∷ [];
  reason = refresh;
  captured_epochs = ("rooms", 2) ∷ ("users", 3) ∷ [];
  lifecycle_generation = 0;
  signal = none;
  known_versions = [];
}

bump-is_eligible_example :
    (is_eligible 2 (bump_resource_epoch "rooms" true counted) "rooms"
      ≡ is_eligible 2 counted "rooms")
    × (is_eligible 2 (bump_resource_epoch "rooms" false counted) "rooms"
        ≡ (not (is_yes (str_dec "rooms" "rooms")) && is_eligible 2 counted "rooms"))
bump-is_eligible_example = bump-is_eligible 2 "rooms" "rooms" counted (omega arith) (inr refl)

-- A newer load of the same resources, in the other order.
abbrev newer : Router
newer = (begin_load ("users" ∷ "rooms" ∷ []) "/rooms" refresh none counted).0

counted-HasHistory : HasHistory counted
counted-HasHistory = new_map-IsHistory 3

settle_keys-bump_example :
    settle_keys 10 load page ("rooms" ∷ "users" ∷ []) newer
    ≡ settle_keys 10 load page (without "rooms" ("rooms" ∷ "users" ∷ [])) newer
settle_keys-bump_example =
    settle_keys-bump 10 load page ("rooms" ∷ "users" ∷ []) "rooms" 2
      (authoritative ("users" ∷ "rooms" ∷ [])) counted newer counted-HasHistory
      (unfold get str_dec in refl) (omega arith) (unfold elem str_dec in refl)
      (unfold begin_load capture_epochs bump_resource_epoch in refl)

settle_keys-current_keys_example :
    ((settle_keys 10 load page load.keys counted).1 ≡ current_keys load counted load.keys)
    × ((settle_keys 10 load page load.keys counted).0
        ≡ (settle_keys 10 load page (current_keys load counted load.keys) counted).0)
settle_keys-current_keys_example = settle_keys-current_keys 10 load page load.keys counted

apply_page_envelope-is_eligible_example :
    (elem str_dec "rooms" (keys (apply_page_envelope outside page 2 counted).1.resources)
      ≡ (elem str_dec "rooms" (keys page.resources) && is_eligible 2 counted "rooms"))
    × (elem str_dec "rooms"
          (keys (get_or (apply_page_envelope outside page 2 counted).1.resource_errors []))
        ≡ (elem str_dec "rooms" (keys (get_or page.resource_errors []))
            && is_eligible 2 counted "rooms"))
    × (elem str_dec "rooms" (get_or (apply_page_envelope outside page 2 counted).1.deferred [])
        ≡ (elem str_dec "rooms" (get_or page.deferred []) && is_eligible 2 counted "rooms"))
    × ((is_eligible 2 counted "rooms" ≡ true)
        ⊎ Untouched "rooms" counted.resource_store
            (apply_page_envelope outside page 2 counted).0.resource_store)
apply_page_envelope-is_eligible_example =
    apply_page_envelope-is_eligible outside page 2 counted "rooms"

abbrev payload : MutationPayload
payload = record {
  patches = none;
  invalidate = some ("rooms" ∷ []);
  redirect = some "/login";
  external_redirect = none;
}

clear-IsFinal_example :
    (load_answered 10 load page (clear 10 counted) ≡ finish_load load (clear 10 counted))
    × (load_failed 10 load false
          (record { type = "t"; message = "m"; details = null })
          (clear 10 counted)
        ≡ finish_load load (clear 10 counted))
    × (mutation_answered outside 0 0 payload (clear 10 counted) ≡ (clear 10 counted, session_over))
    × (prefetch_answered 10 "/rooms" 0 0 [] page (clear 10 counted) ≡ clear 10 counted)
clear-IsFinal_example =
    clear-IsFinal 10 counted load 0 0 0 outside "/rooms" [] page false
      (record { type = "t"; message = "m"; details = null }) payload (omega arith) (omega arith)

abbrev visiting : Router
visiting = record counted { current_visit_id = some 1; active_controller = some 1 }

unsafe : normalize_manifest (or_root "/rooms") ("a,b" ∷ []) ≡ throws
unfolding normalize_manifest serialize_live_keys is_unsafe_key add
unsafe = refl

visit_answered_example :
    ((visit_answered outside visit page visiting).1 ≡ [])
    × ((visit_answered outside visit page visiting).0.page_cache ≡ visiting.page_cache)
    × ((visit_answered outside visit page visiting).0.page_store.state ≡ page_state page.page)
visit_answered_example = visit_answered-throws outside visit page visiting refl unsafe
