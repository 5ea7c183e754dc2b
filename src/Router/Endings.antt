-- ===== src/Router/Endings.antt =====
-- What is over in packages/core/src/router.ts stays over: answers that belong to the time before
-- `clear`, and a visit whose page cannot be applied.
use flux_fast.Shared.{
  ℕ, suc, ◌≤◌, String, ◌≡◌, refl, ap, ◌∙◌, Bool, true, false, Option, none, some, List, [], ◌∷◌,
  arith, ◌==◌, get_or, str_dec,
}
use flux_fast.Shared.JsMap.{Map}
use flux_fast.Shared.JsMap
use flux_fast.Store.State.{ResourceErrorDetail}
use flux_fast.Envelope.{PageEnvelope, MutationPayload}
use flux_fast.Router.State.{Visit, Router, Outside, ResourceLoad, DeferredBatch}
use flux_fast.Router.Basics.{
  give_up_key, give_up_if_current, give_up_keys, give_up_loads, give_up_batch, abort_batch,
  abort_active_deferred, abort, abort_active_visit, with_store, or_root, supersede_live_work,
  bump_resource_epoch,
}
use flux_fast.Router.Loads.{put_resource, emit_update, load_answered, load_failed, finish_load}
use flux_fast.Router.Visits.{clear, same_number, visit_failed, visit_answered}
use flux_fast.Router.Pages.{
  bump_keys, put_resources, put_errors, apply_resources, applied, connect_live, eligible_keys,
  envelope_keys, update_live, apply_page_envelope,
}
use flux_fast.Envelope.{page_state}
use flux_fast.Store.Changes.{ResourceWireRecord, set_resource_error}
use flux_fast.Store.Operations.{set_record}
use flux_fast.Live.Keys.{normalize_manifest, throws}
use flux_fast.Router.Signals.{session_over, mutation_answered, prefetch_answered}

-- Giving up a key changes the store and the epochs only.
give_up_if_current-generation :
    (now : ℕ) (key : String) (captured : Option ℕ) (r : Router)
    → (give_up_if_current now key captured r).lifecycle_generation ≡ r.lifecycle_generation
unfolding give_up_key bump_resource_epoch
give_up_if_current-generation now key captured r = ground arith

give_up_keys-generation :
    (now : ℕ) (epochs : Map String ℕ) (r : Router)
    → (give_up_keys now epochs r).lifecycle_generation ≡ r.lifecycle_generation
unfolding give_up_keys
give_up_keys-generation now [] r = refl
give_up_keys-generation now ((key, epoch) ∷ rest) r =
    give_up_keys-generation now rest (give_up_if_current now key (some epoch) r)
    ∙ give_up_if_current-generation now key (some epoch) r

give_up_loads-generation :
    (now : ℕ) (loads : Map ℕ (Map String ℕ)) (r : Router)
    → (give_up_loads now loads r).lifecycle_generation ≡ r.lifecycle_generation
unfolding give_up_loads
give_up_loads-generation now [] r = refl
give_up_loads-generation now ((load, epochs) ∷ rest) r =
    give_up_loads-generation now rest (give_up_keys now epochs r)
    ∙ give_up_keys-generation now epochs r

give_up_batch-generation :
    (now : ℕ) (keys : List String) (epochs : Map String ℕ) (r : Router)
    → (give_up_batch now keys epochs r).lifecycle_generation ≡ r.lifecycle_generation
unfolding give_up_batch
give_up_batch-generation now [] epochs r = refl
give_up_batch-generation now (key ∷ keys) epochs r =
    give_up_batch-generation now keys epochs
      (give_up_if_current now key (JsMap.get str_dec key epochs) r)
    ∙ give_up_if_current-generation now key (JsMap.get str_dec key epochs) r

abort_active_deferred-generation :
    (now : ℕ) (r : Router)
    → (abort_active_deferred now r).lifecycle_generation ≡ r.lifecycle_generation
unfolding abort_active_deferred
abort_active_deferred-generation now r = go r.active_deferred
  where
    go :
        (o : Option DeferredBatch)
        → (abort_batch now o r).lifecycle_generation ≡ r.lifecycle_generation
    go none = refl
    go (some batch) = give_up_batch-generation now batch.keys batch.epochs r

abort-generation :
    (o : Option ℕ) (r : Router) → (abort o r).lifecycle_generation ≡ r.lifecycle_generation
abort-generation none r = refl
abort-generation (some c) r = refl

clear-generation :
    (now : ℕ) (r : Router) → (clear now r).lifecycle_generation ≡ suc r.lifecycle_generation
unfolding clear supersede_live_work
clear-generation now r =
    give_up_loads-generation now stopped.active_live_load_epochs stopped
    ∙ abort-generation deferred.active_controller deferred
    ∙ abort_active_deferred-generation now next
  where
    next : Router
    next = record r { lifecycle_generation = suc r.lifecycle_generation }

    deferred : Router
    deferred = abort_active_deferred now next

    stopped : Router
    stopped = record (abort_active_visit deferred) { live_started = false }

-- Once `clear` has run, what comes for a load, a mutation or a prefetch of the time before it changes
-- nothing: the load only leaves the table of live loads, the mutation ends without a navigation.
pub clear-IsFinal :
    (now : ℕ) (r : Router) (load : ResourceLoad) (generation visit_counter started_at_epoch : ℕ)
    (out : Outside) (url : String) (known : Map String String) (envelope : PageEnvelope)
    (abort_error : Bool) (problem : ResourceErrorDetail) (payload : MutationPayload)
    → load.lifecycle_generation ≤ r.lifecycle_generation
    → generation ≤ r.lifecycle_generation
    → (load_answered out.now load envelope (clear now r) ≡ finish_load load (clear now r))
      × (load_failed out.now load abort_error problem (clear now r)
          ≡ finish_load load (clear now r))
      × (mutation_answered out generation visit_counter payload (clear now r)
          ≡ (clear now r, session_over))
      × (prefetch_answered out.now url generation started_at_epoch known envelope (clear now r)
          ≡ clear now r)
unfolding load_answered load_failed mutation_answered prefetch_answered
clear-IsFinal now r load generation visit_counter started_at_epoch out url known envelope
      abort_error problem payload p q =
    (rw old_load refl, rw old_load refl, rw old refl, rw old refl)
  where
    old_load : (load.lifecycle_generation == (clear now r).lifecycle_generation) ≡ false
    old_load = rw (clear-generation now r) (ground arith)

    old : (generation == (clear now r).lifecycle_generation) ≡ false
    old = rw (clear-generation now r) (ground arith)

-- What applying resources leaves alone: the page cache, the visit, and whether the live stream is on.
abbrev SamePages : Router → Router → Type 0
SamePages q r = (q.page_cache ≡ r.page_cache) × (q.page_store ≡ r.page_store)

bump_keys-SamePages :
    (speculative : Bool) (keys : List String) (r : Router)
    → SamePages (bump_keys speculative keys r) r
unfolding bump_keys bump_resource_epoch
bump_keys-SamePages speculative [] r = (refl, refl)
bump_keys-SamePages speculative (key ∷ keys) r =
    bump_keys-SamePages speculative keys (bump_resource_epoch key speculative r)

emit_update-SamePages :
    (updated : Bool) (key version : String) (r : Router)
    → SamePages (emit_update updated key version r) r
emit_update-SamePages true key version r = (refl, refl)
emit_update-SamePages false key version r = (refl, refl)

put_resources-SamePages :
    (now : ℕ) (wires : Map String ResourceWireRecord) (r : Router)
    → SamePages (put_resources now wires r) r
unfolding put_resources put_resource
put_resources-SamePages now [] r = (refl, refl)
put_resources-SamePages now ((key, wire) ∷ rest) r =
    let (a, b) = put_resources-SamePages now rest (put_resource now key wire.version wire r) in
    let (c, d) =
      emit_update-SamePages (set_record now key wire.version wire.value r.resource_store).1 key
        wire.version
        (with_store (set_record now key wire.version wire.value r.resource_store).0 r) in
    (a ∙ c, b ∙ d)

put_errors-SamePages :
    (errors : Map String ResourceErrorDetail) (r : Router) → SamePages (put_errors errors r) r
unfolding put_errors
put_errors-SamePages [] r = (refl, refl)
put_errors-SamePages ((key, problem) ∷ rest) r =
    put_errors-SamePages rest (with_store (set_resource_error key problem r.resource_store) r)

apply_resources-pages :
    (now : ℕ) (envelope : PageEnvelope) (eligible : List String) (r : Router)
    → ((apply_resources now envelope eligible r).page_cache ≡ r.page_cache)
      × ((apply_resources now envelope eligible r).page_store.state ≡ page_state envelope.page)
unfolding apply_resources
apply_resources-pages now envelope eligible r = (
  (put_errors-SamePages (get_or a.resource_errors []) put).0
      ∙ (put_resources-SamePages now a.resources (bump_keys false eligible r)).0
      ∙ (bump_keys-SamePages false eligible r).0,
  refl,
)
  where
    a : PageEnvelope
    a = applied eligible envelope

    put : Router
    put = put_resources now a.resources (bump_keys false eligible r)

visit_failed-SamePages :
    (out : Outside) (abort_error : Bool) (visit : Visit) (r : Router)
    → SamePages (visit_failed out abort_error visit r) r
unfolding visit_failed connect_live
visit_failed-SamePages out abort_error visit r = ground arith

-- The live keys of the current visit's envelope are such that `normalizeManifest` throws: the visit
-- starts no load and leaves the page cache as it was, but the page is shown by then.
pub visit_answered-throws :
    (out : Outside) (visit : Visit) (envelope : PageEnvelope) (r : Router)
    → same_number r.current_visit_id visit.visit_id ≡ true
    → normalize_manifest (or_root envelope.page.url) (get_or envelope.live []) ≡ throws
    → ((visit_answered out visit envelope r).1 ≡ [])
      × ((visit_answered out visit envelope r).0.page_cache ≡ r.page_cache)
      × ((visit_answered out visit envelope r).0.page_store.state ≡ page_state envelope.page)
unfolding visit_answered apply_page_envelope update_live
visit_answered-throws out visit envelope r c e =
    rw (c, e) (refl, same.0 ∙ shown.0, ap (λ s. s.state) same.1 ∙ shown.1)
  where
    a : Router
    a =
        apply_resources out.now envelope
          (eligible_keys visit.started_at_epoch r (envelope_keys envelope)) r

    same : SamePages (visit_failed out false visit a) a
    same = visit_failed-SamePages out false visit a

    shown : (a.page_cache ≡ r.page_cache) × (a.page_store.state ≡ page_state envelope.page)
    shown = apply_resources-pages out.now envelope _ r
