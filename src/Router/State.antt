-- ===== src/Router/State.antt =====
-- The fields of FluxRouter in packages/core/src/router.ts, and what its asynchronous methods have
-- captured when they wait. Visits, loads and controllers are numbers.
use flux_fast.Shared.{ℕ, String, Bool, Option, List}
use flux_fast.Shared.JsMap.{Map}
use flux_fast.Store.State.{ResourceStore, ResourceErrorDetail}
use flux_fast.Cache.{PageCache}
use flux_fast.Epochs.{ResourceEpochMap}
use flux_fast.Events.{EventEmitter}
use flux_fast.Envelope.{PageStore}
use flux_fast.Prefetch.{PrefetchManager}
use flux_fast.Live.State.{LiveManager}

pub data ResourceLoadReason : Type 0 where
  deferred refresh mutation retry live live_reconnect : ResourceLoadReason

pub data LiveSignal : Type 0 where
  invalidate patch resync : LiveSignal

-- The events that the router emits, with their payloads; errors are left out of them.
pub data FluxEvent : Type 0 where
  visit_start visit_success visit_error visit_cancel : ℕ → String → FluxEvent
  load_start load_success load_error : String → List String → ResourceLoadReason → FluxEvent
  resource_error : String → ResourceErrorDetail → FluxEvent
  resource_update : String → String → FluxEvent
  resource_invalidate cache_hit cache_miss : String → FluxEvent
  prefetch_start prefetch_success mutation_start mutation_success mutation_error :
      String → FluxEvent
  live_signal : LiveSignal → ℕ → FluxEvent

-- What a step finds outside: the clock, which it reads twice at most, the first free reference, the
-- answer of the live transport, and whether the network is there.
pub record Outside : Type 0 where
  pub now : ℕ
  pub later : ℕ
  pub fresh : ℕ
  pub answer : Option ℕ
  pub online : Bool

-- The deferred batch that is being loaded.
pub record DeferredBatch : Type 0 where
  pub controller : ℕ
  pub keys : List String
  pub epochs : Map String ℕ

pub record Router : Type 0 where
  pub resource_store : ResourceStore
  pub page_store : PageStore
  pub events : EventEmitter FluxEvent
  pub page_cache : PageCache
  pub prefetch_manager : PrefetchManager
  pub live_manager : LiveManager
  pub current_visit_id : Option ℕ
  pub active_controller : Option ℕ
  pub active_deferred : Option DeferredBatch
  pub visit_counter : ℕ
  pub lifecycle_generation : ℕ
  pub resource_load_counter : ℕ
  pub resource_epoch_counter : ℕ
  pub resource_epochs : ResourceEpochMap
  pub live_started : Bool
  pub pending_live_refresh_keys : List String
  pub active_live_load_epochs : Map ℕ (Map String ℕ)
  pub pending_live_refresh_reason : ResourceLoadReason
  pub live_refresh_timer : Bool
  pub controllers : ℕ
  pub aborted : List ℕ

-- What `loadResources` has captured when it waits for the transport.
pub record ResourceLoad : Type 0 where
  pub load_id : ℕ
  pub url : String
  pub keys : List String
  pub reason : ResourceLoadReason
  pub captured_epochs : Map String ℕ
  pub lifecycle_generation : ℕ
  pub signal : Option ℕ
  pub known_versions : Map String String

-- What `visit` has captured when it waits.
pub record Visit : Type 0 where
  pub visit_id : ℕ
  pub url : String
  pub started_at_epoch : ℕ
  pub controller : ℕ
