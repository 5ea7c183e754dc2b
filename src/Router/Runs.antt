-- ===== src/Router/Runs.antt =====
-- Runs of FluxRouter in packages/core/src/router.ts: any sequence of its methods, of answers and
-- failures for what waits, of live events, and of what its parts do by themselves.
use flux_fast.Shared.{ℕ, String, Bool, Option, none, List, [], ◌∷◌, either_branch}
use flux_fast.Shared.JsMap.{Map}
use flux_fast.Store.State.{ResourceErrorDetail}
use flux_fast.Store.Reachable.{StoreCall, perform, perform-IsValid}
use flux_fast.Envelope.{PageEnvelope, MutationPayload}
use flux_fast.Prefetch.Laws.{IsBounded, PrefetchStep, happen-IsBounded}
use flux_fast.Prefetch.Laws
use flux_fast.Live.State.{LiveEvent}
use flux_fast.Live.Runs.{LiveStep, happen-IsCoherent}
use flux_fast.Live.Runs
use flux_fast.Router.State.{Router, Outside, ResourceLoad, ResourceLoadReason, Visit}
use flux_fast.Router.Loads.{
  load_resources, load_answered, load_failed, start_deferred_batch, batch_finished, has_controller,
}
use flux_fast.Router.Visits.{
  refresh_page, begin_visit, find_envelope, pending_lost, visit_answered, visit_failed, pop_state,
  start_live, stop_live, clear,
}
use flux_fast.Router.Signals.{
  begin_mutation, end_mutation, fail_mutation, begin_prefetch, mutation_answered, prefetch_answered,
  handle_live_event, live_refresh_fired,
}
use flux_fast.Router.Start.{FluxRuntimeOptions, new_router}
use flux_fast.Router.SoundStart.{AreFit, new_router-IsSound}
use flux_fast.Router.Soundness.{IsSound, store-AreSound, live-AreSound, prefetches-AreSound}
use flux_fast.Router.SoundLoads.{
  load_resources-IsSound, load_answered-IsSound, load_failed-IsSound, start_deferred_batch-IsSound,
}
use flux_fast.Router.SoundVisits.{
  refresh_page-IsSound, begin_visit-IsSound, find_envelope-IsSound, visit_answered-IsSound,
  visit_failed-IsSound, pop_state-IsSound, start_live-IsSound, stop_live-IsSound, clear-IsSound,
}
use flux_fast.Router.SoundSignals.{
  fail_mutation-IsSound, begin_prefetch-IsSound, mutation_answered-IsSound,
  prefetch_answered-IsSound, handle_live_event-IsSound, live_refresh_fired-IsSound,
}

-- What can happen, with the clock and the network then, and with what a method captured before it
-- waited. No step asks for a state: an answer may come at any time, and more than once.
pub data RouterStep : Type 0 where
  visit_called : ℕ → String → RouterStep
  envelope_sought : ℕ → (Map String String → String) → Bool → Visit → RouterStep
  pending_missed : Visit → Map String String → RouterStep
  visit_got : Outside → Visit → PageEnvelope → RouterStep
  visit_broke : Outside → Bool → Visit → RouterStep
  refresh_called : ℕ → List String → RouterStep
  load_called : List String → Option String → ResourceLoadReason → Option ℕ → RouterStep
  load_got : ℕ → ResourceLoad → PageEnvelope → RouterStep
  load_broke : ℕ → ResourceLoad → Bool → ResourceErrorDetail → RouterStep
  batch_called : ℕ → List String → String → RouterStep
  batch_over : ℕ → RouterStep
  history_moved : Outside → String → RouterStep
  live_began : Outside → RouterStep
  live_stopped cleared : ℕ → RouterStep
  mutation_called mutation_done : String → RouterStep
  mutation_broke : ℕ → String → RouterStep
  prefetch_called : ℕ → (Map String String → String) → String → RouterStep
  mutation_got : Outside → ℕ → ℕ → MutationPayload → RouterStep
  prefetch_got : ℕ → String → ℕ → ℕ → Map String String → PageEnvelope → RouterStep
  event_came : Outside → String → LiveEvent → RouterStep
  refresh_fired : RouterStep
  store_used : StoreCall → RouterStep
  live_used : LiveStep → RouterStep
  prefetch_used : PrefetchStep → RouterStep

unfoldable pub happen : RouterStep → Router → Router
unfolding begin_prefetch refresh_page begin_visit find_envelope visit_answered visit_failed
    load_resources load_answered load_failed start_deferred_batch pop_state start_live stop_live
    clear mutation_answered prefetch_answered handle_live_event live_refresh_fired perform
    Runs.happen Laws.happen
happen (visit_called now url) r = (begin_visit now url r).0
happen (envelope_sought now finger use_prefetch visit) r =
    (find_envelope now finger use_prefetch visit r).0
happen (pending_missed visit known) r = (pending_lost visit known r).0
happen (visit_got out visit envelope) r = (visit_answered out visit envelope r).0
happen (visit_broke out abort_error visit) r = visit_failed out abort_error visit r
happen (refresh_called now keys) r = (refresh_page now keys r).0
happen (load_called keys url reason signal) r = (load_resources keys url reason signal r).0
happen (load_got now load envelope) r = load_answered now load envelope r
happen (load_broke now load abort_error problem) r = load_failed now load abort_error problem r
happen (batch_called now keys url) r = (start_deferred_batch now keys url r).0
happen (batch_over controller) r = batch_finished controller r
happen (history_moved out url) r = (pop_state out url r).0
happen (live_began out) r = start_live out r
happen (live_stopped now) r = stop_live now r
happen (cleared now) r = clear now r
happen (mutation_called url) r = begin_mutation url r
happen (mutation_done url) r = end_mutation url r
happen (mutation_broke generation url) r = fail_mutation generation url r
happen (prefetch_called now finger url) r = (begin_prefetch now finger url r).0
happen (mutation_got out generation visit_counter payload) r =
    (mutation_answered out generation visit_counter payload r).0
happen (prefetch_got now url generation started_at_epoch known envelope) r =
    prefetch_answered now url generation started_at_epoch known envelope r
happen (event_came out client event) r = handle_live_event out client event r
happen refresh_fired r = (live_refresh_fired r).0
happen (store_used call) r = record r { resource_store = perform call r.resource_store }
happen (live_used step) r = record r { live_manager = Runs.happen step r.live_manager }
happen (prefetch_used step) r = record r { prefetch_manager = Laws.happen step r.prefetch_manager }

unfoldable pub run : List RouterStep → Router → Router
unfolding happen
run [] r = r
run (step ∷ steps) r = run steps (happen step r)

batch_finished-IsSound :
    (controller : ℕ) (r : Router) → IsSound r → IsSound (batch_finished controller r)
batch_finished-IsSound controller r h =
    either_branch IsSound (has_controller r.active_deferred controller)
      (record r { active_deferred = none }) r h h

happen-IsSound : (step : RouterStep) (r : Router) → IsSound r → IsSound (happen step r)
unfolding happen
happen-IsSound (visit_called now url) r h = begin_visit-IsSound now url r h
happen-IsSound (envelope_sought now finger use_prefetch visit) r h =
    find_envelope-IsSound now finger use_prefetch visit r h
happen-IsSound (pending_missed visit known) r h = h
happen-IsSound (visit_got out visit envelope) r h = visit_answered-IsSound out visit envelope r h
happen-IsSound (visit_broke out abort_error visit) r h =
    visit_failed-IsSound out abort_error visit r h
happen-IsSound (refresh_called now keys) r h = refresh_page-IsSound now keys r h
happen-IsSound (load_called keys url reason signal) r h =
    load_resources-IsSound keys url reason signal r h
happen-IsSound (load_got now load envelope) r h = load_answered-IsSound now load envelope r h
happen-IsSound (load_broke now load abort_error problem) r h =
    load_failed-IsSound now load abort_error problem r h
happen-IsSound (batch_called now keys url) r h = start_deferred_batch-IsSound now keys url r h
happen-IsSound (batch_over controller) r h = batch_finished-IsSound controller r h
happen-IsSound (history_moved out url) r h = pop_state-IsSound out url r h
happen-IsSound (live_began out) r h = start_live-IsSound out r h
happen-IsSound (live_stopped now) r h = stop_live-IsSound now r h
happen-IsSound (cleared now) r h = clear-IsSound now r h
happen-IsSound (mutation_called url) r h = h
happen-IsSound (mutation_done url) r h = h
happen-IsSound (mutation_broke generation url) r h = fail_mutation-IsSound generation url r h
happen-IsSound (prefetch_called now finger url) r h = begin_prefetch-IsSound now finger url r h
happen-IsSound (mutation_got out generation visit_counter payload) r h =
    mutation_answered-IsSound out generation visit_counter payload r h
happen-IsSound (prefetch_got now url generation started_at_epoch known envelope) r h =
    prefetch_answered-IsSound now url generation started_at_epoch known envelope r h
happen-IsSound (event_came out client event) r h = handle_live_event-IsSound out client event r h
happen-IsSound refresh_fired r h = live_refresh_fired-IsSound r h
happen-IsSound (store_used call) r h =
    store-AreSound h (perform-IsValid call r.resource_store h.store)
happen-IsSound (live_used step) r h = live-AreSound h (happen-IsCoherent step r.live_manager h.live)
happen-IsSound (prefetch_used step) r h =
    prefetches-AreSound h (happen-IsBounded step r.prefetch_manager h.prefetches)

run-IsSound : (steps : List RouterStep) (r : Router) → IsSound r → IsSound (run steps r)
unfolding run
run-IsSound [] r h = h
run-IsSound (step ∷ steps) r h = run-IsSound steps (happen step r) (happen-IsSound step r h)

-- A router that the constructor makes of well-formed stores and managers stays sound through any run
-- of its methods, answers, failures and live events: its resource store is valid, its live manager
-- coherent, its prefetches and its page cache within their limits, and its epochs ordered and not
-- past the counter. Listeners are taken not to call the router back.
pub run-new_router-IsSound :
    (out : Outside) (options : FluxRuntimeOptions) (steps : List RouterStep)
    → AreFit options
    → IsSound (run steps (new_router out options).0)
run-new_router-IsSound out options steps fit =
    run-IsSound steps (new_router out options).0 (new_router-IsSound out options fit)
