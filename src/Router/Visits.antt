-- ===== src/Router/Visits.antt =====
-- Navigation in packages/core/src/router.ts: `visit` in the parts between its waits, `refresh`, the
-- history listener and `startLive`, `stopLive` and `clear`. The history and the scroll position are
-- the browser's and left out.
use native.Mathlib.Decide.{ℕ_discrete}
use flux_fast.Shared.{
  ℕ, suc, String, Bool, true, false, ◌&&◌, ◌||◌, not, Option, none, some, List, [], ◌∷◌, ◌++◌,
  if◌then◌else◌, get_or, elem, ltb, str_dec, ◌==◌, str_eq,
}
use flux_fast.Shared.JsMap.{Map, keys}
use flux_fast.Store.State.{missing, loading as loading_status, status_eq}
use flux_fast.Store.Operations.{get_state_snapshot}
use flux_fast.Store.Changes.{export_known_versions, finite, mark_pending}
use flux_fast.Store.Changes
use flux_fast.Cache.{CachedPage, PageDescriptor, get_valid, clear_pages}
use flux_fast.Epochs
use flux_fast.Epochs.{ResourceEpoch}
use flux_fast.Envelope.{PageEnvelope, set_page_state, clear_page_state}
use flux_fast.Prefetch.{get_cached, get_pending}
use flux_fast.Prefetch
use flux_fast.Live.Methods.{connect, disconnect}
use flux_fast.Live.Methods
use flux_fast.Router.State.{
  refresh, visit_start, visit_success, visit_error, visit_cancel, cache_hit, cache_miss, Router,
  Outside, ResourceLoad, Visit,
}
use flux_fast.Router.Basics.{
  emit_event, with_store, or_root, supersede_live_work, cancel_pending_live_refresh,
  abort_active_visit, abort_active_deferred,
}
use flux_fast.Router.Loads.{load_resources, start_deferred_batch}
use flux_fast.Router.Pages.{apply_page_envelope, update_live, connect_live}

-- `if (this.liveStarted) { this.supersedeLiveWork(); this.liveManager.disconnect(); }`
unfoldable pub pause_live : ℕ → Router → Router
unfolding supersede_live_work disconnect
pause_live now r =
    if r.live_started
    then (let r₁ = supersede_live_work now r in
        record r₁ { live_manager = disconnect r₁.live_manager })
    else r

-- `visit` up to its first lookup.
unfoldable pub begin_visit : ℕ → String → Router → Router × Visit
unfolding abort_active_deferred pause_live
begin_visit now url r =
    let visit_id = suc r.visit_counter in
    let r₁ =
      abort_active_visit (abort_active_deferred now (record r { visit_counter = visit_id })) in
    let r₂ = cancel_pending_live_refresh (pause_live now r₁) in
    let controller = suc r₂.controllers in
    (
      emit_event (visit_start visit_id url) (record r₂ {
        current_visit_id = some visit_id;
        controllers = controller;
        active_controller = some controller;
      }),
      record {
        visit_id = visit_id;
        url = url;
        started_at_epoch = r₂.resource_epoch_counter;
        controller = controller;
      },
    )

-- Where the envelope of a visit comes from: it is there, the visit waits for a prefetch under way or
-- for nothing, or the transport is asked.
pub data Source : Type 0 where
  found : PageEnvelope → Source
  awaits : Option ℕ → Source
  asks : Map String String → Source

abbrev pub looked_up : String → Option PageEnvelope → Option ℕ → Router → Router × Source
looked_up url (some envelope) pending r = (emit_event (cache_hit url) r, found envelope)
looked_up url none pending r = (r, awaits pending)

-- The lookups of `visit` up to its first wait; `finger` is the fingerprint of the URL and the known versions, and
-- `use_prefetch` says that prefetches may be used and the visit is not a partial one.
unfoldable pub find_envelope :
    ℕ → (Map String String → String) → Bool → Visit → Router → Router × Source
unfolding get_cached export_known_versions
find_envelope now finger use_prefetch visit r =
    let known = export_known_versions (finite 100) r.resource_store in
    if use_prefetch
    then (let (m, envelope) = get_cached now visit.url known r.prefetch_manager in
        looked_up visit.url envelope (get_pending (finger known) m)
          (record r { prefetch_manager = m }))
    else (emit_event (cache_miss visit.url) r, asks known)

-- After the wait for `getPending`, where that brought nothing or there was nothing to wait for.
abbrev pub pending_lost : Visit → Map String String → Router → Router × Source
pending_lost visit known r = (emit_event (cache_miss visit.url) r, asks known)

-- The `finally` of `visit`.
abbrev pub same_number : Option ℕ → ℕ → Bool
same_number none n = false
same_number (some m) n = m == n

abbrev pub finish_visit : Visit → Router → Router
finish_visit visit r =
    if same_number r.active_controller visit.controller
    then record r { active_controller = none }
    else r

-- `epoch?.conservative && epoch.authoritativeEpoch > startedAtEpoch`
abbrev pub is_uncertain : ℕ → Option ResourceEpoch → Bool
is_uncertain started_at_epoch none = false
is_uncertain started_at_epoch (some e) =
    e.conservative && ltb started_at_epoch e.authoritative_epoch

-- The keys of a page that are left without a value, which the visit asks for again.
unfoldable pub missing_keys : ℕ → List String → List String → Router → Router × List String
unfolding get_state_snapshot
missing_keys started_at_epoch deferred [] r = (r, [])
missing_keys started_at_epoch deferred (key ∷ keys) r =
    let (s, snapshot) = get_state_snapshot key r.resource_store in
    let uncertain = is_uncertain started_at_epoch (Epochs.get key r.resource_epochs) in
    let (r₁, rest) = missing_keys started_at_epoch deferred keys (with_store s r) in
    (
      r₁,
      if not (elem str_dec key deferred)
            && (status_eq snapshot.status missing
                || (uncertain && not (status_eq snapshot.status loading_status)))
          then key ∷ rest
          else rest,
    )

-- The keys of a page: those that the server lists, or all that the envelope brings.
abbrev pub page_keys : PageEnvelope → List String
page_keys envelope = get_or envelope.resource_keys (
    keys envelope.resources
    ++ keys (get_or envelope.resource_errors [])
    ++ get_or envelope.deferred [])

abbrev loads_of : Option ResourceLoad → List ResourceLoad
loads_of none = []
loads_of (some load) = load ∷ []

-- `startDeferredEnvelope`
abbrev pub start_deferred : ℕ → PageEnvelope → List String → Router → Router × List ResourceLoad
start_deferred now envelope [] r = (r, [])
start_deferred now envelope (key ∷ keys) r =
    let (r₁, load) = start_deferred_batch now (key ∷ keys) (or_root envelope.page.url) r in
    (r₁, loads_of load)

abbrev pub recover : String → Router × List String → Router × List ResourceLoad
recover url (r, []) = (r, [])
recover url (r, (key ∷ keys)) =
    let (r₁, load) = load_resources (key ∷ keys) (some url) refresh none r in (r₁, loads_of load)

-- `visit` after its envelope was applied; answers the loads that it starts.
unfoldable pub after_apply :
    ℕ → Visit → PageEnvelope → PageEnvelope → Router → Router × List ResourceLoad
unfolding start_deferred_batch missing_keys load_resources
after_apply now visit envelope a r =
    let url = if str_eq envelope.page.url "" then visit.url else envelope.page.url in
    let r₁ = emit_event (visit_success visit.visit_id url) r in
    let (r₂, deferred) = start_deferred now a (get_or a.deferred []) r₁ in
    let (r₃, recovered) =
      recover url
        (missing_keys visit.started_at_epoch (get_or a.deferred []) (page_keys envelope) r₂) in
    (finish_visit visit r₃, deferred ++ recovered)

-- `visit` after a failure; `abort_error` is the test for an AbortError.
unfoldable pub visit_failed : Outside → Bool → Visit → Router → Router
unfolding connect_live
visit_failed out abort_error visit r =
    let r₁ = if same_number r.current_visit_id visit.visit_id then connect_live out r else r in
    finish_visit visit (
      if abort_error || elem ℕ_discrete visit.controller r₁.aborted
      then emit_event (visit_cancel visit.visit_id visit.url) r₁
      else emit_event (visit_error visit.visit_id visit.url) r₁)

abbrev pub apply_or_fail :
    Outside → Visit → PageEnvelope → Router × PageEnvelope × Bool → Router × List ResourceLoad
apply_or_fail out visit envelope (r, a, true) = (visit_failed out false visit r, [])
apply_or_fail out visit envelope (r, a, false) = after_apply out.now visit envelope a r

-- `visit` with its envelope.
unfoldable pub visit_answered : Outside → Visit → PageEnvelope → Router → Router × List ResourceLoad
unfolding apply_page_envelope after_apply visit_failed
visit_answered out visit envelope r =
    if not (same_number r.current_visit_id visit.visit_id)
    then (finish_visit visit (emit_event (visit_cancel visit.visit_id visit.url) r), [])
    else apply_or_fail out visit envelope
        (apply_page_envelope out envelope visit.started_at_epoch r)

abbrev pub descriptor_of : CachedPage → PageDescriptor
descriptor_of page = record { component = page.component; url = page.url; meta = some page.meta }

-- The history listener with a cached page, up to the live manifest. The live manifest of a cached
-- page was accepted when the page was cached.
abbrev pub show_cached : Outside → String → CachedPage → Router → Router × Bool
show_cached out url page r =
    let r₁ = pause_live out.now (record r { visit_counter = suc r.visit_counter }) in
    let r₂ = abort_active_visit (abort_active_deferred out.now (cancel_pending_live_refresh r₁)) in
    let r₃ = record r₂ {
      resource_store = mark_pending page.pending_deferred r₂.resource_store;
      page_store = set_page_state (descriptor_of page) r₂.page_store;
    } in
    update_live out (if str_eq page.url "" then url else page.url) page.live_keys r₃

abbrev pub show_deferred :
    Outside → String → CachedPage → List String → Router → Router × List ResourceLoad
show_deferred out url page [] r = (r, [])
show_deferred out url page (key ∷ keys) r =
    let (r₁, load) =
      start_deferred_batch out.now (key ∷ keys) (if str_eq page.url "" then url else page.url) r in
    (r₁, loads_of load)

abbrev pub shown : Outside → String → CachedPage → Router × Bool → Router × List ResourceLoad
shown out url page (r, true) = (r, [])
shown out url page (r, false) =
    show_deferred out url page page.pending_deferred
      (emit_event (cache_hit url) (connect_live out r))

-- `none` where the page is not cached and `visit` is called.
abbrev pub popped :
    Outside → String → Option CachedPage → Router → Router × Option (List ResourceLoad)
popped out url none r = (emit_event (cache_miss url) r, none)
popped out url (some page) r =
    let (r₁, loads) = shown out url page (show_cached out url page r) in (r₁, some loads)

unfoldable pub pop_state : Outside → String → Router → Router × Option (List ResourceLoad)
unfolding get_valid pause_live abort_active_deferred mark_pending update_live connect_live
    start_deferred_batch
pop_state out url r =
    let (c, s, page) = get_valid url r.page_cache r.resource_store in
    popped out url page (record r { page_cache = c; resource_store = s })

unfoldable pub start_live : Outside → Router → Router
unfolding connect
start_live out r = record r {
  live_started = true;
  live_manager = connect out.answer out.online r.live_manager;
}

unfoldable pub stop_live : ℕ → Router → Router
unfolding supersede_live_work disconnect
stop_live now r =
    let r₁ =
      cancel_pending_live_refresh (supersede_live_work now (record r { live_started = false })) in
    record r₁ { live_manager = disconnect r₁.live_manager }

unfoldable pub clear : ℕ → Router → Router
unfolding abort_active_deferred supersede_live_work Methods.clear Changes.clear Prefetch.clear
    Epochs.clear
clear now r =
    let r₁ = abort_active_visit (
      abort_active_deferred now (record r { lifecycle_generation = suc r.lifecycle_generation })) in
    let r₂ =
      cancel_pending_live_refresh (supersede_live_work now (record r₁ { live_started = false })) in
    record r₂ {
      live_manager = Methods.clear r₂.live_manager;
      resource_store = Changes.clear r₂.resource_store;
      page_store = clear_page_state r₂.page_store;
      page_cache = clear_pages r₂.page_cache;
      prefetch_manager = Prefetch.clear r₂.prefetch_manager;
      resource_epochs = Epochs.clear r₂.resource_epochs;
    }

-- What `refresh` starts: a load of some resources, or a visit without prefetches.
pub data Refresh : Type 0 where
  loading : Option ResourceLoad → Refresh
  visiting : Visit → Refresh

-- `refresh`, with the keys of `only`.
unfoldable pub refresh_page : ℕ → List String → Router → Router × Refresh
unfolding load_resources begin_visit
refresh_page now [] r =
    let (r₁, visit) = begin_visit now (or_root r.page_store.state.url) r in (r₁, visiting visit)
refresh_page now (key ∷ keys) r =
    let (r₁, load) =
      load_resources (key ∷ keys) (some (or_root r.page_store.state.url)) refresh none r in
    (r₁, loading load)
