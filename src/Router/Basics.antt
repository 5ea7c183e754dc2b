-- ===== src/Router/Basics.antt =====
-- Small private methods of FluxRouter in packages/core/src/router.ts: events, epochs, aborts, and
-- what happens to a resource whose load is given up.
use flux_fast.Shared.{
  ℕ, suc, String, Bool, true, false, ◌&&◌, Option, none, some, List, [], ◌∷◌, if◌then◌else◌,
  str_dec, str_eq, ◌==◌,
}
use flux_fast.Shared.JsMap.{Map}
use flux_fast.Shared.JsMap
use flux_fast.Store.State.{ResourceStore, ResourceRecord}
use flux_fast.Store.Internals.{invalidate}
use flux_fast.Store.Operations.{get_record, set_record}
use flux_fast.Store.Changes.{mark_stale}
use flux_fast.Epochs.{ResourceEpoch, ResourceEpochMap}
use flux_fast.Epochs
use flux_fast.Events.{emit}
use flux_fast.Router.State.{
  FluxEvent, visit_start, visit_success, visit_error, visit_cancel, load_start, load_success,
  load_error, resource_error, resource_update, resource_invalidate, cache_hit, cache_miss,
  prefetch_start, prefetch_success, mutation_start, mutation_success, mutation_error, live_signal,
  invalidate as live_invalidate, patch as live_patch, resync, Router, DeferredBatch, live,
}

abbrev pub event_name : FluxEvent → String
event_name (visit_start _ _) = "visit:start"
event_name (visit_success _ _) = "visit:success"
event_name (visit_error _ _) = "visit:error"
event_name (visit_cancel _ _) = "visit:cancel"
event_name (load_start _ _ _) = "resource:load:start"
event_name (load_success _ _ _) = "resource:load:success"
event_name (load_error _ _ _) = "resource:load:error"
event_name (resource_error _ _) = "resource:error"
event_name (resource_update _ _) = "resource:update"
event_name (resource_invalidate _) = "resource:invalidate"
event_name (cache_hit _) = "cache:hit"
event_name (cache_miss _) = "cache:miss"
event_name (prefetch_start _) = "prefetch:start"
event_name (prefetch_success _) = "prefetch:success"
event_name (mutation_start _) = "mutation:start"
event_name (mutation_success _) = "mutation:success"
event_name (mutation_error _) = "mutation:error"
event_name (live_signal live_invalidate _) = "live:invalidate"
event_name (live_signal live_patch _) = "live:patch"
event_name (live_signal resync _) = "live:resync"

abbrev pub emit_event : FluxEvent → Router → Router
emit_event event r = record r { events = emit (event_name event) event r.events }

abbrev pub with_store : ResourceStore → Router → Router
with_store s r = record r { resource_store = s }

-- `url || "/"`
abbrev pub or_root : String → String
or_root url = if str_eq url "" then "/" else url

-- `this.resourceEpochs.get(key)?.epoch`
abbrev pub epoch_in : Option ResourceEpoch → Option ℕ
epoch_in none = none
epoch_in (some e) = some e.epoch

abbrev pub epoch_of_key : String → Router → Option ℕ
epoch_of_key key r = epoch_in (Epochs.get key r.resource_epochs)

abbrev pub same_epoch : Option ℕ → Option ℕ → Bool
same_epoch none none = true
same_epoch (some a) (some b) = a == b
same_epoch _ _ = false

-- The authoritative epoch and the mark that a speculative epoch takes over.
abbrev pub inherited : Option ResourceEpoch → ℕ × Bool
inherited none = (0, false)
inherited (some e) = (e.authoritative_epoch, e.conservative)

-- `bumpResourceEpoch`; the new epoch is the counter afterwards.
unfoldable pub bump_resource_epoch : String → Bool → Router → Router
bump_resource_epoch key speculative r =
    let epoch = suc r.resource_epoch_counter in
    let previous = inherited (Epochs.get key r.resource_epochs) in
    record r {
      resource_epoch_counter = epoch;
      resource_epochs =
          Epochs.set key
            (record {
              epoch = epoch;
              authoritative_epoch = if speculative then previous.0 else epoch;
              conservative = speculative && previous.1;
            })
            r.resource_epochs;
    }

-- A record that is there is set again, which makes it ready and fresh; a key without one goes.
-- Answers whether there was a record, and its version if setting it changed something.
abbrev pub restored : ℕ → String → ResourceStore × Option ResourceRecord → ResourceStore × Bool
restored now key (s, none) = (invalidate key s, false)
restored now key (s, some rec) = ((set_record now key rec.version rec.value s).0, true)

unfoldable pub restore : ℕ → String → ResourceStore → ResourceStore × Bool
restore now key s = restored now key (get_record key s)

-- What superseding a load does to one of its keys, if no later epoch has come: a new epoch, and a
-- record that is there is kept as stale.
unfoldable pub give_up_key : ℕ → String → Router → Router
unfolding bump_resource_epoch restore
give_up_key now key r =
    let r₁ = bump_resource_epoch key false r in
    let (s, there) = restore now key r₁.resource_store in
    with_store (if there then mark_stale key s else s) r₁

abbrev pub give_up_if_current : ℕ → String → Option ℕ → Router → Router
give_up_if_current now key captured r =
    if same_epoch (epoch_of_key key r) captured then give_up_key now key r else r

unfoldable pub give_up_keys : ℕ → Map String ℕ → Router → Router
unfolding give_up_key
give_up_keys now [] r = r
give_up_keys now ((key, epoch) ∷ rest) r =
    give_up_keys now rest (give_up_if_current now key (some epoch) r)

unfoldable pub give_up_loads : ℕ → Map ℕ (Map String ℕ) → Router → Router
unfolding give_up_keys
give_up_loads now [] r = r
give_up_loads now ((load, epochs) ∷ rest) r = give_up_loads now rest (give_up_keys now epochs r)

unfoldable pub supersede_live_work : ℕ → Router → Router
unfolding give_up_loads
supersede_live_work now r = record (give_up_loads now r.active_live_load_epochs r) {
  active_live_load_epochs = [];
}

abbrev pub cancel_pending_live_refresh : Router → Router
cancel_pending_live_refresh r = record r {
  live_refresh_timer = false;
  pending_live_refresh_keys = [];
  pending_live_refresh_reason = live;
}

abbrev pub abort : Option ℕ → Router → Router
abort none r = r
abort (some controller) r = record r { aborted = controller ∷ r.aborted }

abbrev pub abort_active_visit : Router → Router
abort_active_visit r = record (abort r.active_controller r) {
  active_controller = none;
  current_visit_id = none;
}

unfoldable pub give_up_batch : ℕ → List String → Map String ℕ → Router → Router
unfolding give_up_key
give_up_batch now [] epochs r = r
give_up_batch now (key ∷ keys) epochs r =
    give_up_batch now keys epochs (give_up_if_current now key (JsMap.get str_dec key epochs) r)

abbrev pub abort_batch : ℕ → Option DeferredBatch → Router → Router
abort_batch now none r = r
abort_batch now (some batch) r =
    record (abort (some batch.controller) (give_up_batch now batch.keys batch.epochs r)) {
      active_deferred = none;
    }

unfoldable pub abort_active_deferred : ℕ → Router → Router
unfolding give_up_batch
abort_active_deferred now r = abort_batch now r.active_deferred r
