-- ===== src/Router/Start.antt =====
-- The constructor of FluxRouter in packages/core/src/router.ts, with the initial envelope of the
-- server. The stores and managers that it makes by default are given to it. It is the window's
-- history that the listener is attached to.
use flux_fast.Shared.{ℕ, String, Bool, false, Option, none, some, List, [], ◌∷◌, get_or}
use flux_fast.Shared.JsMap.{Map}
use flux_fast.Store.State.{ResourceStore}
use flux_fast.Store.Operations.{get_record}
use flux_fast.Store.Changes.{
  ResourceWireRecord, set_many, mark_pending, export_known_versions, finite,
}
use flux_fast.Cache.{PageCache, PageDescriptor, set_page}
use flux_fast.Epochs.{new_map}
use flux_fast.Envelope.{PageEnvelope, new_page_store}
use flux_fast.Prefetch.{PrefetchManager}
use flux_fast.Live.State.{LiveManager}
use flux_fast.Router.State.{Router, Outside, live, resource_update}
use flux_fast.Router.Basics.{emit_event, with_store, or_root}
use flux_fast.Router.Pages.{put_errors, cache_page_envelope, update_live}
use flux_fast.Router.Signals.{version_of}

pub record FluxRuntimeOptions : Type 0 where
  pub resource_store : ResourceStore
  pub prefetch_manager : PrefetchManager
  pub page_cache : PageCache
  pub live_manager : LiveManager
  pub initial_envelope : Option PageEnvelope
  pub initial_page : Option PageDescriptor
  pub initial_resources : Option (Map String ResourceWireRecord)

-- The page that `initialEnvelope?.page ?? initialPage` is.
abbrev pub first_page : Option PageEnvelope → Option PageDescriptor → Option PageDescriptor
first_page none page = page
first_page (some envelope) page = some envelope.page

abbrev pub assembled : FluxRuntimeOptions → Router
assembled options = record {
  resource_store = options.resource_store;
  page_store = new_page_store (first_page options.initial_envelope options.initial_page);
  events = record { listeners = []; calls = [] };
  page_cache = options.page_cache;
  prefetch_manager = options.prefetch_manager;
  live_manager = options.live_manager;
  current_visit_id = none;
  active_controller = none;
  active_deferred = none;
  visit_counter = 0;
  lifecycle_generation = 0;
  resource_load_counter = 0;
  resource_epoch_counter = 0;
  resource_epochs = new_map;
  live_started = false;
  pending_live_refresh_keys = [];
  active_live_load_epochs = [];
  pending_live_refresh_reason = live;
  live_refresh_timer = false;
  controllers = 0;
  aborted = [];
}

unfoldable pub emit_resource_updates : List String → Router → Router
emit_resource_updates [] r = r
emit_resource_updates (key ∷ keys) r =
    let (s, rec) = get_record key r.resource_store in
    emit_resource_updates keys (emit_event (resource_update key (version_of rec)) (with_store s r))

unfoldable pub put_initial : ℕ → Map String ResourceWireRecord → Router → Router
unfolding set_many emit_resource_updates
put_initial now resources r =
    let (s, updated) = set_many now resources r.resource_store in
    emit_resource_updates updated (with_store s r)

-- The part of the constructor for an initial envelope, up to the live manifest.
unfoldable pub start_envelope : ℕ → PageEnvelope → Router → Router
unfolding put_initial put_errors mark_pending cache_page_envelope
start_envelope now envelope r =
    let r₁ =
      put_errors (get_or envelope.resource_errors []) (put_initial now envelope.resources r) in
    cache_page_envelope envelope
      (with_store (mark_pending (get_or envelope.deferred []) r₁.resource_store) r₁)

abbrev pub cache_first : Option PageDescriptor → Router → Router
cache_first none r = r
cache_first (some page) r = record r {
  page_cache =
      set_page page (export_known_versions (finite 100) r.resource_store) none r.page_cache;
}

-- The router, and whether the constructor throws, which the live keys can make it do.
abbrev pub started : Outside → FluxRuntimeOptions → Option PageEnvelope → Router → Router × Bool
started out options (some envelope) r =
    update_live out (or_root envelope.page.url) (get_or envelope.live [])
      (start_envelope out.now envelope r)
started out options none r = (
  cache_first options.initial_page (put_initial out.now (get_or options.initial_resources []) r),
  false,
)

unfoldable pub new_router : Outside → FluxRuntimeOptions → Router × Bool
unfolding start_envelope put_initial update_live
new_router out options = started out options options.initial_envelope (assembled options)
