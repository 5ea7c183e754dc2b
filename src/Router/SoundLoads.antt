-- ===== src/Router/SoundLoads.antt =====
-- Loading resources keeps a router of packages/core/src/router.ts sound, whatever the answers are.
use flux_fast.Shared.{
  ℕ, suc, String, Bool, true, false, ◌||◌, Option, none, some, List, [], ◌∷◌, either_branch, get_or,
}
use flux_fast.Shared.JsMap.{Map}
use flux_fast.Store.State.{ResourceStore, ResourceRecord, ResourceErrorDetail}
use flux_fast.Store.Validity.{IsValid}
use flux_fast.Store.Operations.{get_record}
use flux_fast.Store.Changes.{ResourceWireRecord}
use flux_fast.Store.Methods.{get_record-IsValid, invalidate-IsValid}
use flux_fast.Store.Writes.{set_record-IsValid}
use flux_fast.Store.Marks.{mark_loading-IsValid, set_resource_error-IsValid}
use flux_fast.Cache.Bounds.{settle_resources-keeps}
use flux_fast.Envelope.{PageEnvelope}
use flux_fast.Router.State.{Router, ResourceLoad, ResourceLoadReason}
use flux_fast.Router.Basics.{or_root, bump_resource_epoch}
use flux_fast.Router.Loads.{
  requested, capture_epochs, begin_load, begin_requested, load_resources, emit_update, put_resource,
  put_error, keep_known, settle_found, is_current, settle_key, settle_keys, settle_cache,
  load_answered, keep_aborted, fail_key, fail_keys, load_failed, start_deferred_batch, was_aborted,
}
use flux_fast.Router.Soundness.{
  IsSound, store-AreSound, pages-AreSound, bump_resource_epoch-IsSound,
  abort_active_deferred-IsSound,
}

pub capture_epochs-IsSound :
    (keys : List String) (captured : Map String ℕ) (r : Router)
    → IsSound r
    → IsSound (capture_epochs keys captured r).0
unfolding capture_epochs
capture_epochs-IsSound [] captured r h = h
capture_epochs-IsSound (key ∷ keys) captured r h =
    capture_epochs-IsSound keys _ (bump_resource_epoch key false r)
      (bump_resource_epoch-IsSound key false r h)

begin_load-IsSound :
    (keys : List String) (url : String) (reason : ResourceLoadReason) (signal : Option ℕ)
    (r : Router)
    → IsSound r
    → IsSound (begin_load keys url reason signal r).0
unfolding begin_load
begin_load-IsSound keys url reason signal r h =
    let captured =
      capture_epochs-IsSound keys []
        (record r { resource_load_counter = suc r.resource_load_counter }) h in
    store-AreSound captured (mark_loading-IsValid keys _ captured.store)

pub load_resources-IsSound :
    (keys : List String) (url : Option String) (reason : ResourceLoadReason) (signal : Option ℕ)
    (r : Router)
    → IsSound r
    → IsSound (load_resources keys url reason signal r).0
unfolding load_resources
load_resources-IsSound keys url reason signal r h = go (requested keys)
  where
    go :
        (ks : List String)
        → IsSound
            (begin_requested ks (get_or url (or_root r.page_store.state.url)) reason signal r).0
    go [] = h
    go (k ∷ ks) =
        begin_load-IsSound (k ∷ ks) (get_or url (or_root r.page_store.state.url)) reason signal r h

emit_update-IsSound :
    (updated : Bool) (key version : String) (r : Router)
    → IsSound r
    → IsSound (emit_update updated key version r)
emit_update-IsSound true key version r h = h
emit_update-IsSound false key version r h = h

pub put_resource-IsSound :
    (now : ℕ) (key version : String) (wire : ResourceWireRecord) (r : Router)
    → IsSound r
    → IsSound (put_resource now key version wire r)
unfolding put_resource
put_resource-IsSound now key version wire r h =
    emit_update-IsSound _ key version _
      (store-AreSound h (set_record-IsValid key r.resource_store h.store now version wire.value))

put_error-IsSound :
    (key : String) (problem : ResourceErrorDetail) (r : Router)
    → IsSound r
    → IsSound (put_error key problem r)
put_error-IsSound key problem r h =
    store-AreSound h (set_resource_error-IsValid key problem _ h.store)

keep_known-IsSound :
    (now : ℕ) (key : String) (p : ResourceStore × Option ResourceRecord) (r : Router)
    → IsValid p.0
    → IsSound r
    → IsSound (keep_known now key p r)
keep_known-IsSound now key (s, none) r v h = store-AreSound h (invalidate-IsValid key s v)
keep_known-IsSound now key (s, some rec) r v h =
    put_resource-IsSound now key rec.version _ _ (store-AreSound h v)

settle_found-IsSound :
    (now : ℕ) (key : String) (wire : Option ResourceWireRecord)
    (problem : Option ResourceErrorDetail) (r : Router)
    → IsSound r
    → IsSound (settle_found now key wire problem r)
settle_found-IsSound now key (some wire) problem r h =
    put_resource-IsSound now key wire.version wire r h
settle_found-IsSound now key none (some problem) r h = put_error-IsSound key problem r h
settle_found-IsSound now key none none r h =
    keep_known-IsSound now key (get_record key r.resource_store) r
      (get_record-IsValid key r.resource_store h.store) h

settle_keys-IsSound :
    (now : ℕ) (load : ResourceLoad) (envelope : PageEnvelope) (keys : List String) (r : Router)
    → IsSound r
    → IsSound (settle_keys now load envelope keys r).0
unfolding settle_keys
settle_keys-IsSound now load envelope [] r h = h
settle_keys-IsSound now load envelope (key ∷ keys) r h =
    settle_keys-IsSound now load envelope keys _ (
      either_branch IsSound (is_current load key r) _ _
        (unfold settle_key in settle_found-IsSound now key _ _ r h) h)

settle_cache-IsSound :
    (url : String) (settled : List String) (r : Router)
    → IsSound r
    → IsSound (settle_cache url settled r)
settle_cache-IsSound url settled r h =
    let (pages, store) =
      settle_resources-keeps url settled r.page_cache r.resource_store h.pages h.store in
    store-AreSound (pages-AreSound h pages) store

pub load_answered-IsSound :
    (now : ℕ) (load : ResourceLoad) (envelope : PageEnvelope) (r : Router)
    → IsSound r
    → IsSound (load_answered now load envelope r)
unfolding load_answered
load_answered-IsSound now load envelope r h = either_branch IsSound _ _ _ h (
    settle_cache-IsSound load.url _ (settle_keys now load envelope load.keys r).0
      (settle_keys-IsSound now load envelope load.keys r h))

keep_aborted-IsSound :
    (now : ℕ) (key : String) (p : ResourceStore × Option ResourceRecord) (r : Router)
    → IsValid p.0
    → IsSound r
    → IsSound (keep_aborted now key p r)
keep_aborted-IsSound now key (s, none) r v h = store-AreSound h (invalidate-IsValid key s v)
keep_aborted-IsSound now key (s, some rec) r v h =
    store-AreSound h (set_record-IsValid key s v now rec.version rec.value)

fail_key-IsSound :
    (now : ℕ) (aborted : Bool) (problem : ResourceErrorDetail) (key : String) (r : Router)
    → IsSound r
    → IsSound (fail_key now aborted problem key r)
unfolding fail_key
fail_key-IsSound now true problem key r h =
    keep_aborted-IsSound now key (get_record key r.resource_store) r
      (get_record-IsValid key r.resource_store h.store) h
fail_key-IsSound now false problem key r h =
    store-AreSound h
      (set_resource_error-IsValid key problem _ (get_record-IsValid key r.resource_store h.store))

fail_keys-IsSound :
    (now : ℕ) (load : ResourceLoad) (aborted : Bool) (problem : ResourceErrorDetail)
    (keys : List String) (r : Router)
    → IsSound r
    → IsSound (fail_keys now load aborted problem keys r).0
unfolding fail_keys
fail_keys-IsSound now load aborted problem [] r h = h
fail_keys-IsSound now load aborted problem (key ∷ keys) r h =
    fail_keys-IsSound now load aborted problem keys _ (
      either_branch IsSound (is_current load key r) _ _
        (fail_key-IsSound now aborted problem key r h) h)

pub load_failed-IsSound :
    (now : ℕ) (load : ResourceLoad) (abort_error : Bool) (problem : ResourceErrorDetail)
    (r : Router)
    → IsSound r
    → IsSound (load_failed now load abort_error problem r)
unfolding load_failed
load_failed-IsSound now load abort_error problem r h = either_branch IsSound _ _ _ h (
    either_branch IsSound (was_aborted load.signal r || abort_error) _ _ failed (
      settle_cache-IsSound load.url _
        (fail_keys now load (was_aborted load.signal r || abort_error) problem load.keys r).0
        failed))
  where
    failed :
        IsSound
          (fail_keys now load (was_aborted load.signal r || abort_error) problem load.keys r).0
    failed = fail_keys-IsSound now load _ problem load.keys r h

pub start_deferred_batch-IsSound :
    (now : ℕ) (keys : List String) (url : String) (r : Router)
    → IsSound r
    → IsSound (start_deferred_batch now keys url r).0
unfolding start_deferred_batch
start_deferred_batch-IsSound now keys url r h =
    load_resources-IsSound keys (some url) _ _ _ (abort_active_deferred-IsSound now r h)
