-- ===== src/Router/SoundVisits.antt =====
-- Navigation keeps a router of packages/core/src/router.ts sound, whatever the envelopes are.
use flux_fast.Shared.{
  ℕ, suc, String, Bool, true, false, Option, none, some, List, [], ◌∷◌, get_or, str_eq,
  either_branch, if◌then◌else◌, Bool-cases, inl, inr, arith,
}
use flux_fast.Shared.JsMap.{Map}
use flux_fast.Store.Marks.{mark_pending-IsValid}
use flux_fast.Store.Methods.{get_state_snapshot-IsValid}
use flux_fast.Store.Reachable.{clear-IsValid}
use flux_fast.Cache.{CachedPage, get_valid}
use flux_fast.Cache.Bounds.{get_valid-keeps, clear_pages-IsPages}
use flux_fast.Epochs.Bounds.{new_map-IsHistory}
use flux_fast.Epochs
use flux_fast.Envelope.{PageEnvelope}
use flux_fast.Prefetch
use flux_fast.Prefetch.Laws.{get_cached-IsBounded}
use flux_fast.Live.Lifecycle.{disconnect-IsCoherent, clear-IsCoherent, connect-IsCoherent}
use flux_fast.Router.State.{refresh, Router, Outside, Visit, visit_success}
use flux_fast.Router.Basics.{
  or_root, emit_event, abort_active_visit, abort_active_deferred, supersede_live_work,
  cancel_pending_live_refresh,
}
use flux_fast.Router.Visits.{
  refresh_page, pause_live, begin_visit, looked_up, find_envelope, missing_keys, start_deferred,
  recover, after_apply, visit_failed, apply_or_fail, visit_answered, page_keys, show_cached,
  show_deferred, shown, popped, pop_state, start_live, stop_live, clear, same_number, finish_visit,
}
use flux_fast.Router.Pages.{connect_live, apply_page_envelope}
use flux_fast.Router.Soundness.{
  IsSound, store-AreSound, live-AreSound, prefetches-AreSound, pages-AreSound,
  supersede_live_work-IsSound, abort_active_deferred-IsSound, abort_active_visit-IsSound,
}
use flux_fast.Router.SoundLoads.{load_resources-IsSound, start_deferred_batch-IsSound}
use flux_fast.Router.SoundPages.{
  update_live-IsSound, connect_live-IsSound, apply_page_envelope-IsSound,
}

pause_live-IsSound : (now : ℕ) (r : Router) → IsSound r → IsSound (pause_live now r)
unfolding pause_live
pause_live-IsSound now r h =
    either_branch IsSound r.live_started _ _
      (live-AreSound (supersede_live_work-IsSound now r h)
        (disconnect-IsCoherent (supersede_live_work now r).live_manager))
      h

pub begin_visit-IsSound :
    (now : ℕ) (url : String) (r : Router) → IsSound r → IsSound (begin_visit now url r).0
unfolding begin_visit
begin_visit-IsSound now url r h =
    pause_live-IsSound now (abort_active_visit (abort_active_deferred now next))
      (abort_active_visit-IsSound _ (abort_active_deferred-IsSound now next h))
  where
    next : Router
    next = record r { visit_counter = suc r.visit_counter }

looked_up-IsSound :
    (url : String) (o : Option PageEnvelope) (pending : Option ℕ) (r : Router)
    → IsSound r
    → IsSound (looked_up url o pending r).0
looked_up-IsSound url (some envelope) pending r h = h
looked_up-IsSound url none pending r h = h

pub find_envelope-IsSound :
    (now : ℕ) (finger : Map String String → String) (use_prefetch : Bool) (visit : Visit)
    (r : Router)
    → IsSound r
    → IsSound (find_envelope now finger use_prefetch visit r).0
unfolding find_envelope
find_envelope-IsSound now finger true visit r h =
    looked_up-IsSound visit.url _ _ _
      (prefetches-AreSound h (get_cached-IsBounded now visit.url _ r.prefetch_manager h.prefetches))
find_envelope-IsSound now finger false visit r h = h

missing_keys-IsSound :
    (started_at_epoch : ℕ) (deferred keys : List String) (r : Router)
    → IsSound r
    → IsSound (missing_keys started_at_epoch deferred keys r).0
unfolding missing_keys
missing_keys-IsSound started_at_epoch deferred [] r h = h
missing_keys-IsSound started_at_epoch deferred (key ∷ keys) r h =
    missing_keys-IsSound started_at_epoch deferred keys _
      (store-AreSound h (get_state_snapshot-IsValid key r.resource_store h.store))

start_deferred-IsSound :
    (now : ℕ) (envelope : PageEnvelope) (keys : List String) (r : Router)
    → IsSound r
    → IsSound (start_deferred now envelope keys r).0
start_deferred-IsSound now envelope [] r h = h
start_deferred-IsSound now envelope (key ∷ keys) r h =
    start_deferred_batch-IsSound now (key ∷ keys) (or_root envelope.page.url) r h

recover-IsSound :
    (url : String) (p : Router × List String) → IsSound p.0 → IsSound (recover url p).0
recover-IsSound url (r, []) h = h
recover-IsSound url (r, (key ∷ keys)) h = load_resources-IsSound (key ∷ keys) (some url) _ none r h

finish_visit-IsSound : (visit : Visit) (r : Router) → IsSound r → IsSound (finish_visit visit r)
finish_visit-IsSound visit r h =
    either_branch IsSound (same_number r.active_controller visit.controller)
      (record r { active_controller = none }) r h h

after_apply-IsSound :
    (now : ℕ) (visit : Visit) (envelope a : PageEnvelope) (r : Router)
    → IsSound r
    → IsSound (after_apply now visit envelope a r).0
unfolding after_apply
after_apply-IsSound now visit envelope a r h = finish_visit-IsSound visit _ (
    recover-IsSound url (missing_keys visit.started_at_epoch deferred (page_keys envelope) started)
      (missing_keys-IsSound visit.started_at_epoch deferred (page_keys envelope) started
        (start_deferred-IsSound now a deferred _ h)))
  where
    url : String
    url = if str_eq envelope.page.url "" then visit.url else envelope.page.url

    deferred : List String
    deferred = get_or a.deferred []

    started : Router
    started = (start_deferred now a deferred (emit_event (visit_success visit.visit_id url) r)).0

pub visit_failed-IsSound :
    (out : Outside) (abort_error : Bool) (visit : Visit) (r : Router)
    → IsSound r
    → IsSound (visit_failed out abort_error visit r)
unfolding visit_failed
visit_failed-IsSound out abort_error visit r h =
    finish_visit-IsSound visit _ (either_branch IsSound _ _ _ resumed resumed)
  where
    resumed :
        IsSound (if same_number r.current_visit_id visit.visit_id then connect_live out r else r)
    resumed =
        either_branch IsSound (same_number r.current_visit_id visit.visit_id) _ r
          (connect_live-IsSound out r h) h

apply_or_fail-IsSound :
    (out : Outside) (visit : Visit) (envelope : PageEnvelope) (p : Router × PageEnvelope × Bool)
    → IsSound p.0
    → IsSound (apply_or_fail out visit envelope p).0
apply_or_fail-IsSound out visit envelope (r, a, true) h = visit_failed-IsSound out false visit r h
apply_or_fail-IsSound out visit envelope (r, a, false) h =
    after_apply-IsSound out.now visit envelope a r h

pub visit_answered-IsSound :
    (out : Outside) (visit : Visit) (envelope : PageEnvelope) (r : Router)
    → IsSound r
    → IsSound (visit_answered out visit envelope r).0
unfolding visit_answered
visit_answered-IsSound out visit envelope r h =
    elim (Bool-cases (same_number r.current_visit_id visit.visit_id)) [
      | inl e ↦
          rw (e, visit_answered)
            (apply_or_fail-IsSound out visit envelope
              (apply_page_envelope out envelope visit.started_at_epoch r)
              (apply_page_envelope-IsSound out envelope visit.started_at_epoch r h))
      | inr e ↦ rw (e, visit_answered) (finish_visit-IsSound visit _ h)
    ]

show_cached-IsSound :
    (out : Outside) (url : String) (page : CachedPage) (r : Router)
    → IsSound r
    → IsSound (show_cached out url page r).0
show_cached-IsSound out url page r h =
    update_live-IsSound out _ _ _
      (store-AreSound aborted (mark_pending-IsValid page.pending_deferred _ aborted.store))
  where
    paused : Router
    paused =
        cancel_pending_live_refresh
          (pause_live out.now (record r { visit_counter = suc r.visit_counter }))

    aborted : IsSound (abort_active_visit (abort_active_deferred out.now paused))
    aborted = abort_active_visit-IsSound _ (
        abort_active_deferred-IsSound out.now paused
          (pause_live-IsSound out.now (record r { visit_counter = suc r.visit_counter }) h))

show_deferred-IsSound :
    (out : Outside) (url : String) (page : CachedPage) (keys : List String) (r : Router)
    → IsSound r
    → IsSound (show_deferred out url page keys r).0
show_deferred-IsSound out url page [] r h = h
show_deferred-IsSound out url page (key ∷ keys) r h =
    start_deferred_batch-IsSound out.now (key ∷ keys) _ r h

shown-IsSound :
    (out : Outside) (url : String) (page : CachedPage) (p : Router × Bool)
    → IsSound p.0
    → IsSound (shown out url page p).0
shown-IsSound out url page (r, true) h = h
shown-IsSound out url page (r, false) h =
    show_deferred-IsSound out url page page.pending_deferred _ (connect_live-IsSound out r h)

popped-IsSound :
    (out : Outside) (url : String) (o : Option CachedPage) (r : Router)
    → IsSound r
    → IsSound (popped out url o r).0
popped-IsSound out url none r h = h
popped-IsSound out url (some page) r h =
    shown-IsSound out url page (show_cached out url page r) (show_cached-IsSound out url page r h)

pub pop_state-IsSound :
    (out : Outside) (url : String) (r : Router) → IsSound r → IsSound (pop_state out url r).0
unfolding pop_state
pop_state-IsSound out url r h =
    let (pages, store) = get_valid-keeps url r.page_cache r.resource_store h.pages h.store in
    popped-IsSound out url (get_valid url r.page_cache r.resource_store).2
      (record r {
        page_cache = (get_valid url r.page_cache r.resource_store).0;
        resource_store = (get_valid url r.page_cache r.resource_store).1;
      })
      (store-AreSound (pages-AreSound h pages) store)

pub start_live-IsSound : (out : Outside) (r : Router) → IsSound r → IsSound (start_live out r)
unfolding start_live
start_live-IsSound out r h =
    live-AreSound h (connect-IsCoherent out.answer out.online r.live_manager h.live)

pub stop_live-IsSound : (now : ℕ) (r : Router) → IsSound r → IsSound (stop_live now r)
unfolding stop_live
stop_live-IsSound now r h =
    live-AreSound (supersede_live_work-IsSound now (record r { live_started = false }) h) (
      disconnect-IsCoherent
        (supersede_live_work now (record r { live_started = false })).live_manager)

pub clear-IsSound : (now : ℕ) (r : Router) → IsSound r → IsSound (clear now r)
unfolding clear
clear-IsSound now r h = record {
  store = clear-IsValid _ over.store;
  live = clear-IsCoherent (supersede_live_work now stopped).live_manager;
  prefetches = unfold Prefetch.clear in record { in_flight = omega arith; cache = omega arith };
  pages = clear_pages-IsPages _ over.pages;
  epochs = unfold Epochs.clear in new_map-IsHistory _;
}
  where
    next : Router
    next = record r { lifecycle_generation = suc r.lifecycle_generation }

    stopped : Router
    stopped = record (abort_active_visit (abort_active_deferred now next)) { live_started = false }

    over : IsSound (supersede_live_work now stopped)
    over =
        supersede_live_work-IsSound now stopped
          (abort_active_visit-IsSound _ (abort_active_deferred-IsSound now next h))

pub refresh_page-IsSound :
    (now : ℕ) (keys : List String) (r : Router) → IsSound r → IsSound (refresh_page now keys r).0
unfolding refresh_page
refresh_page-IsSound now [] r h = begin_visit-IsSound now (or_root r.page_store.state.url) r h
refresh_page-IsSound now (key ∷ keys) r h =
    load_resources-IsSound (key ∷ keys) (some (or_root r.page_store.state.url)) refresh none r h
