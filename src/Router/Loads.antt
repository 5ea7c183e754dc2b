-- ===== src/Router/Loads.antt =====
-- `loadResources` of packages/core/src/router.ts, in the three parts between its waits, and the
-- deferred batches that are loaded through it. The lifecycle generation is compared where a part
-- starts: within one part nothing changes it, as listeners are taken not to call the router back.
-- A page's URL is cached and settled with the store as it is then.
use native.Mathlib.Decide.{ℕ_discrete}
use flux_fast.Shared.{
  ℕ, suc, String, Bool, true, false, ◌&&◌, ◌||◌, not, Option, none, some, List, [], ◌∷◌,
  if◌then◌else◌, get_or, elem, str_dec, str_eq, ◌==◌,
}
use flux_fast.Shared.JsMap.{Map}
use flux_fast.Shared.JsMap
use flux_fast.Store.State.{ResourceStore, ResourceRecord, ResourceErrorDetail}
use flux_fast.Store.Internals.{invalidate}
use flux_fast.Store.Operations.{get_record, set_record}
use flux_fast.Store.Changes.{
  ResourceWireRecord, mark_loading, set_resource_error, export_known_versions, finite, union,
}
use flux_fast.Cache.{settle_resources}
use flux_fast.Envelope.{PageEnvelope}
use flux_fast.Router.State.{
  ResourceLoadReason, deferred, live, live_reconnect, load_start, load_success, load_error,
  resource_error, resource_update, Router, ResourceLoad, DeferredBatch,
}
use flux_fast.Router.Basics.{
  emit_event, with_store, or_root, epoch_of_key, same_epoch, bump_resource_epoch,
  abort_active_deferred,
}

-- `keys.filter(key => typeof key === "string" && key.length > 0)`
abbrev non_empty : List String → List String
non_empty [] = []
non_empty (key ∷ keys) = if str_eq key "" then non_empty keys else key ∷ non_empty keys

abbrev pub requested : List String → List String
requested keys = union [] (non_empty keys)

-- The new epochs of the keys of a load, and what it captures of them.
unfoldable pub capture_epochs : List String → Map String ℕ → Router → Router × Map String ℕ
unfolding bump_resource_epoch
capture_epochs [] captured r = (r, captured)
capture_epochs (key ∷ keys) captured r =
    let r₁ = bump_resource_epoch key false r in
    capture_epochs keys (JsMap.set str_dec key r₁.resource_epoch_counter captured) r₁

abbrev pub is_live : ResourceLoadReason → Bool
is_live live = true
is_live live_reconnect = true
is_live _ = false

-- `loadResources` with the keys that are left, up to the wait for the transport.
unfoldable pub begin_load :
    List String → String → ResourceLoadReason → Option ℕ → Router → Router × ResourceLoad
unfolding capture_epochs mark_loading export_known_versions
begin_load keys url reason signal r =
    let known = export_known_versions (finite 100) r.resource_store in
    let load_id = suc r.resource_load_counter in
    let (r₁, captured) = capture_epochs keys [] (record r { resource_load_counter = load_id }) in
    let r₂ = record r₁ {
      active_live_load_epochs =
          if is_live reason
          then JsMap.set ℕ_discrete load_id captured r₁.active_live_load_epochs
          else r₁.active_live_load_epochs;
      resource_store = mark_loading keys r₁.resource_store;
    } in
    (
      emit_event (load_start url keys reason) r₂,
      record {
        load_id = load_id;
        url = url;
        keys = keys;
        reason = reason;
        captured_epochs = captured;
        lifecycle_generation = r.lifecycle_generation;
        signal = signal;
        known_versions = known;
      },
    )

abbrev pub begin_requested :
    List String → String → ResourceLoadReason → Option ℕ → Router → Router × Option ResourceLoad
begin_requested [] url reason signal r = (r, none)
begin_requested (key ∷ keys) url reason signal r =
    let (r₁, load) = begin_load (key ∷ keys) url reason signal r in (r₁, some load)

-- `options.url ?? (page.url || "/")`; without a key nothing is loaded.
unfoldable pub load_resources :
    List String
    → Option String
    → ResourceLoadReason
    → Option ℕ
    → Router
    → Router × Option ResourceLoad
unfolding begin_load
load_resources keys url reason signal r =
    begin_requested (requested keys) (get_or url (or_root r.page_store.state.url)) reason signal r

abbrev pub emit_update : Bool → String → String → Router → Router
emit_update updated key version r =
    if updated then emit_event (resource_update key version) r else r

-- `resourceStore.set` of one resource, and the event if it changed something.
unfoldable pub put_resource : ℕ → String → String → ResourceWireRecord → Router → Router
put_resource now key version wire r =
    let (s, updated) = set_record now key version wire.value r.resource_store in
    emit_update updated key version (with_store s r)

abbrev pub put_error : String → ResourceErrorDetail → Router → Router
put_error key problem r =
    emit_event (resource_error key problem)
      (with_store (set_resource_error key problem r.resource_store) r)

-- A key that the answer does not name: the server left it out as known.
abbrev pub keep_known : ℕ → String → ResourceStore × Option ResourceRecord → Router → Router
keep_known now key (s, none) r = with_store (invalidate key s) r
keep_known now key (s, some rec) r =
    put_resource now key rec.version (record { version = rec.version; value = rec.value })
      (with_store s r)

abbrev pub settle_found :
    ℕ → String → Option ResourceWireRecord → Option ResourceErrorDetail → Router → Router
settle_found now key (some wire) problem r = put_resource now key wire.version wire r
settle_found now key none (some problem) r = put_error key problem r
settle_found now key none none r = keep_known now key (get_record key r.resource_store) r

-- Whether no later epoch has come for the key since the load began.
abbrev pub is_current : ResourceLoad → String → Router → Bool
is_current load key r = same_epoch (epoch_of_key key r) (JsMap.get str_dec key load.captured_epochs)

-- One round of the loop over the requested keys of an answer.
unfoldable pub settle_key : ℕ → ResourceLoad → PageEnvelope → String → Router → Router
unfolding put_resource
settle_key now load envelope key r =
    settle_found now key (JsMap.get str_dec key envelope.resources)
      (JsMap.get str_dec key (get_or envelope.resource_errors [])) r

unfoldable pub settle_keys :
    ℕ → ResourceLoad → PageEnvelope → List String → Router → Router × List String
unfolding settle_key
settle_keys now load envelope [] r = (r, [])
settle_keys now load envelope (key ∷ keys) r =
    let current = is_current load key r in
    let (r₁, settled) =
      settle_keys now load envelope keys
        (if current then settle_key now load envelope key r else r) in
    (r₁, (if current then key ∷ settled else settled))

-- `pageCache.settleResources(url, settled, resourceStore)`, which reads the store.
abbrev pub settle_cache : String → List String → Router → Router
settle_cache url settled r =
    let (c, s) = settle_resources url settled r.page_cache r.resource_store in
    record r { page_cache = c; resource_store = s }

-- The `finally` of `loadResources`.
abbrev pub finish_load : ResourceLoad → Router → Router
finish_load load r = record r {
  active_live_load_epochs = JsMap.delete ℕ_discrete load.load_id r.active_live_load_epochs;
}

-- `loadResources` after an answer.
unfoldable pub load_answered : ℕ → ResourceLoad → PageEnvelope → Router → Router
unfolding settle_keys
load_answered now load envelope r =
    if not (load.lifecycle_generation == r.lifecycle_generation)
    then finish_load load r
    else let (r₁, settled) = settle_keys now load envelope load.keys r in
      finish_load load (
        emit_event (load_success load.url load.keys load.reason) (settle_cache load.url settled r₁))

-- A key of a load that was aborted; the source reads the record first, whether aborted or not.
abbrev pub keep_aborted : ℕ → String → ResourceStore × Option ResourceRecord → Router → Router
keep_aborted now key (s, none) r = with_store (invalidate key s) r
keep_aborted now key (s, some rec) r = with_store (set_record now key rec.version rec.value s).0 r

unfoldable pub fail_key : ℕ → Bool → ResourceErrorDetail → String → Router → Router
fail_key now true problem key r = keep_aborted now key (get_record key r.resource_store) r
fail_key now false problem key r =
    put_error key problem (with_store (get_record key r.resource_store).0 r)

unfoldable pub fail_keys :
    ℕ → ResourceLoad → Bool → ResourceErrorDetail → List String → Router → Router × List String
unfolding fail_key
fail_keys now load aborted problem [] r = (r, [])
fail_keys now load aborted problem (key ∷ keys) r =
    let current = is_current load key r in
    let (r₁, settled) =
      fail_keys now load aborted problem keys
        (if current then fail_key now aborted problem key r else r) in
    (r₁, (if current && not aborted then key ∷ settled else settled))

abbrev pub was_aborted : Option ℕ → Router → Bool
was_aborted none r = false
was_aborted (some controller) r = elem ℕ_discrete controller r.aborted

-- `loadResources` after a failure, which it throws again; `abort_error` is the test for an
-- AbortError, and `problem` the name and the message of the failure.
unfoldable pub load_failed : ℕ → ResourceLoad → Bool → ResourceErrorDetail → Router → Router
unfolding fail_keys
load_failed now load abort_error problem r =
    if not (load.lifecycle_generation == r.lifecycle_generation)
    then finish_load load r
    else let aborted = was_aborted load.signal r || abort_error in
      let (r₁, settled) = fail_keys now load aborted problem load.keys r in
      finish_load load (
        emit_event (load_error load.url load.keys load.reason)
          (if aborted then r₁ else settle_cache load.url settled r₁))

-- `new Map(keys.map(key => [key, epochs.get(key)?.epoch ?? 0]))`
abbrev pub epochs_of : List String → Map String ℕ → Router → Map String ℕ
epochs_of [] epochs r = epochs
epochs_of (key ∷ keys) epochs r =
    epochs_of keys (JsMap.set str_dec key (get_or (epoch_of_key key r) 0) epochs) r

abbrev pub with_batch :
    List String → ℕ → Router × Option ResourceLoad → Router × Option ResourceLoad
with_batch keys controller (r, load) = (
  record r {
    active_deferred =
        some (record { controller = controller; keys = keys; epochs = epochs_of keys [] r });
  },
  load,
)

unfoldable pub start_deferred_batch :
    ℕ → List String → String → Router → Router × Option ResourceLoad
unfolding abort_active_deferred load_resources
start_deferred_batch now keys url r =
    let r₁ = abort_active_deferred now r in
    let controller = suc r₁.controllers in
    with_batch keys controller (
      load_resources keys (some url) deferred (some controller)
        (record r₁ { controllers = controller }))

abbrev pub has_controller : Option DeferredBatch → ℕ → Bool
has_controller none controller = false
has_controller (some batch) controller = batch.controller == controller

-- What follows when the load of a batch is over.
abbrev pub batch_finished : ℕ → Router → Router
batch_finished controller r =
    if has_controller r.active_deferred controller then record r { active_deferred = none } else r
