-- ===== src/Router/SoundStart.antt =====
-- The constructor of FluxRouter in packages/core/src/router.ts makes a sound router.
use flux_fast.Shared.{ℕ, String, Option, none, some, List, [], ◌∷◌, get_or}
use flux_fast.Shared.JsMap.{Map}
use flux_fast.Store.Validity.{IsValid}
use flux_fast.Store.Changes.{ResourceWireRecord, set_many, mark_pending}
use flux_fast.Store.Methods.{get_record-IsValid}
use flux_fast.Store.Marks.{mark_pending-IsValid}
use flux_fast.Store.Reachable.{set_many-IsValid}
use flux_fast.Cache.{PageDescriptor}
use flux_fast.Cache.Bounds.{IsPages, set_page-IsPages}
use flux_fast.Epochs.Bounds.{new_map-IsHistory}
use flux_fast.Envelope.{PageEnvelope}
use flux_fast.Prefetch.Laws.{IsBounded}
use flux_fast.Live.Coherence.{IsCoherent}
use flux_fast.Router.State.{Router, Outside}
use flux_fast.Router.Start.{
  FluxRuntimeOptions, assembled, emit_resource_updates, put_initial, start_envelope, cache_first,
  started, new_router,
}
use flux_fast.Router.Pages.{put_errors}
use flux_fast.Router.Soundness.{IsSound, store-AreSound, pages-AreSound}
use flux_fast.Router.SoundPages.{
  put_errors-IsSound, cache_page_envelope-IsSound, update_live-IsSound,
}
use flux_fast.Router.Basics.{with_store, or_root}

-- The options that the constructor may be given: stores and managers that are well formed.
pub record AreFit (options : FluxRuntimeOptions) : Type 0 where
  pub store : IsValid options.resource_store
  pub live : IsCoherent options.live_manager
  pub prefetches : IsBounded options.prefetch_manager
  pub pages : IsPages options.page_cache

emit_resource_updates-IsSound :
    (keys : List String) (r : Router) → IsSound r → IsSound (emit_resource_updates keys r)
unfolding emit_resource_updates
emit_resource_updates-IsSound [] r h = h
emit_resource_updates-IsSound (key ∷ keys) r h =
    emit_resource_updates-IsSound keys _
      (store-AreSound h (get_record-IsValid key r.resource_store h.store))

put_initial-IsSound :
    (now : ℕ) (resources : Map String ResourceWireRecord) (r : Router)
    → IsSound r
    → IsSound (put_initial now resources r)
unfolding put_initial
put_initial-IsSound now resources r h =
    emit_resource_updates-IsSound (set_many now resources r.resource_store).1 _
      (store-AreSound h (set_many-IsValid now resources r.resource_store h.store))

start_envelope-IsSound :
    (now : ℕ) (envelope : PageEnvelope) (r : Router)
    → IsSound r
    → IsSound (start_envelope now envelope r)
unfolding start_envelope
start_envelope-IsSound now envelope r h =
    cache_page_envelope-IsSound envelope
      (with_store (mark_pending (get_or envelope.deferred []) r₁.resource_store) r₁)
      (store-AreSound put (mark_pending-IsValid (get_or envelope.deferred []) _ put.store))
  where
    r₁ : Router
    r₁ = put_errors (get_or envelope.resource_errors []) (put_initial now envelope.resources r)

    put : IsSound r₁
    put =
        put_errors-IsSound (get_or envelope.resource_errors []) _
          (put_initial-IsSound now envelope.resources r h)

cache_first-IsSound :
    (o : Option PageDescriptor) (r : Router) → IsSound r → IsSound (cache_first o r)
cache_first-IsSound none r h = h
cache_first-IsSound (some page) r h = pages-AreSound h (search (set_page-IsPages, h.pages))

pub new_router-IsSound :
    (out : Outside) (options : FluxRuntimeOptions)
    → AreFit options
    → IsSound (new_router out options).0
unfolding new_router
new_router-IsSound out options fit = go options.initial_envelope
  where
    fresh : IsSound (assembled options)
    fresh = record {
      store = fit.store;
      live = fit.live;
      prefetches = fit.prefetches;
      pages = fit.pages;
      epochs = new_map-IsHistory 0;
    }

    go : (o : Option PageEnvelope) → IsSound (started out options o (assembled options)).0
    go (some envelope) =
        update_live-IsSound out (or_root envelope.page.url) (get_or envelope.live [])
          (start_envelope out.now envelope (assembled options))
          (start_envelope-IsSound out.now envelope (assembled options) fresh)
    go none =
        cache_first-IsSound options.initial_page
          (put_initial out.now (get_or options.initial_resources []) (assembled options))
          (put_initial-IsSound out.now (get_or options.initial_resources []) (assembled options)
            fresh)
