-- ===== src/Router/SoundSignals.antt =====
-- Mutations, prefetches and live events keep a router of packages/core/src/router.ts sound.
use flux_fast.Shared.{
  ℕ, String, Bool, true, false, ◌==◌, not, Option, none, some, List, [], ◌∷◌, get_or, length,
  either_branch, if◌then◌else◌, Bool-cases, inl, inr,
}
use flux_fast.Shared.JsMap.{Map, keys, size}
use flux_fast.Mutation.{ResourcePatch}
use flux_fast.Store.State.{ResourceStore}
use flux_fast.Store.Validity.{IsValid}
use flux_fast.Store.Changes.{has_subscribers}
use flux_fast.Store.Methods.{get_record-IsValid, invalidate-IsValid}
use flux_fast.Store.Patches.{mark_stale-IsValid, patch-IsValid}
use flux_fast.Envelope.{PageEnvelope, MutationPayload}
use flux_fast.Live.State.{LiveEvent, LiveManifest}
use flux_fast.Live.State
use flux_fast.Prefetch.Laws.{fetch-IsBounded}
use flux_fast.Router.State.{
  mutation_error, Router, live_signal, patch, Outside, ResourceLoad, ResourceLoadReason,
}
use flux_fast.Router.Basics.{emit_event, bump_resource_epoch}
use flux_fast.Router.Loads.{load_resources}
use flux_fast.Router.Pages.{keep_in, entries_in, bump_keys, put_resources}
use flux_fast.Router.Signals.{
  begin_prefetch, fail_mutation, patched, patch_or_drop, patch_key, past, patch_keys,
  invalidate_key, invalidate_keys, proceed, reload, next_load, redirected, mutation_answered,
  unraced_keys, prefetch_answered, stale_keys, signal_stale, queue_live_refresh, handle_live_event,
  manifest_keys, refreshed, live_refresh_fired, is_own, hard_navigate, visits, reject_or_cache,
}
use flux_fast.Router.Soundness.{
  IsSound, store-AreSound, prefetches-AreSound, bump_resource_epoch-IsSound,
}
use flux_fast.Router.SoundLoads.{load_resources-IsSound}
use flux_fast.Router.SoundPages.{
  bump_keys-IsSound, put_resources-IsSound, cache_page_envelope-IsSound,
}

patched-IsSound : (key : String) (r : Router) → IsSound r → IsSound (patched key r)
patched-IsSound key r h = store-AreSound h (get_record-IsValid key r.resource_store h.store)

patch_or_drop-IsSound :
    (drop : Bool) (key : String) (p : ResourceStore × Bool) (r : Router)
    → IsValid p.0
    → IsSound r
    → IsSound (patch_or_drop drop key p r)
patch_or_drop-IsSound drop key (s, true) r v h =
    patched-IsSound key (record r { resource_store = s }) (store-AreSound h v)
patch_or_drop-IsSound false key (s, false) r v h = store-AreSound h v
patch_or_drop-IsSound true key (s, false) r v h = store-AreSound h (invalidate-IsValid key s v)

patch_key-IsSound :
    (out : Outside) (drop : Bool) (key : String) (patches : List ResourcePatch) (r : Router)
    → IsSound r
    → IsSound (patch_key out drop key patches r)
unfolding patch_key
patch_key-IsSound out drop key patches r h =
    let bumped = bump_resource_epoch-IsSound key false r h in
    patch_or_drop-IsSound drop key _ (bump_resource_epoch key false r)
      (patch-IsValid key _ bumped.store out.now out.later out.fresh patches) bumped

patch_keys-IsSound :
    (out : Outside) (drop : Bool) (patches : Map String (List ResourcePatch)) (r : Router)
    → IsSound r
    → IsSound (patch_keys out drop patches r)
unfolding patch_keys
patch_keys-IsSound out drop [] r h = h
patch_keys-IsSound out drop ((key, patches) ∷ rest) r h =
    patch_keys-IsSound (past (length patches) out) drop rest _
      (patch_key-IsSound out drop key patches r h)

invalidate_key-IsSound : (key : String) (r : Router) → IsSound r → IsSound (invalidate_key key r)
unfolding invalidate_key
invalidate_key-IsSound key r h =
    let bumped = bump_resource_epoch-IsSound key false r h in
    store-AreSound bumped (
      either_branch IsValid (has_subscribers key (bump_resource_epoch key false r).resource_store) _
        _ (mark_stale-IsValid key _ bumped.store) (invalidate-IsValid key _ bumped.store))

invalidate_keys-IsSound :
    (keys : List String) (r : Router) → IsSound r → IsSound (invalidate_keys keys r).0
unfolding invalidate_keys
invalidate_keys-IsSound [] r h = h
invalidate_keys-IsSound (key ∷ keys) r h =
    invalidate_keys-IsSound keys (invalidate_key key r) (invalidate_key-IsSound key r h)

next_load-IsSound : (p : Router × Option ResourceLoad) → IsSound p.0 → IsSound (next_load p).0
next_load-IsSound (r, none) h = h
next_load-IsSound (r, some load) h = h

reload-IsSound : (keys : List String) (r : Router) → IsSound r → IsSound (reload keys r).0
reload-IsSound [] r h = h
reload-IsSound (key ∷ keys) r h =
    next_load-IsSound _ (load_resources-IsSound (key ∷ keys) _ _ none r h)

proceed-IsSound :
    (can_redirect : Bool) (payload : MutationPayload) (p : Router × List String)
    → IsSound p.0
    → IsSound (proceed can_redirect payload p).0
proceed-IsSound false payload (r, active) h = reload-IsSound active r h
proceed-IsSound true payload (r, active) h =
    go (redirected payload.external_redirect) (redirected payload.redirect)
  where
    go :
        (external internal : Bool)
        → IsSound
            (if external
              then (r, hard_navigate (get_or payload.external_redirect ""))
              else if internal
              then (r, visits (get_or payload.redirect ""))
              else reload active r).0
    go true internal = h
    go false true = h
    go false false = reload-IsSound active r h

pub mutation_answered-IsSound :
    (out : Outside) (generation visit_counter : ℕ) (payload : MutationPayload) (r : Router)
    → IsSound r
    → IsSound (mutation_answered out generation visit_counter payload r).0
unfolding mutation_answered
mutation_answered-IsSound out generation visit_counter payload r h =
    elim (Bool-cases (generation == r.lifecycle_generation)) [
      | inl e ↦
          rw (e, mutation_answered)
            (proceed-IsSound (visit_counter == r.visit_counter) payload
              (invalidate_keys (get_or payload.invalidate [])
                (patch_keys out true (get_or payload.patches []) r))
              (invalidate_keys-IsSound (get_or payload.invalidate []) _
                (patch_keys-IsSound out true (get_or payload.patches []) r h)))
      | inr e ↦ rw (e, mutation_answered) h
    ]

reject_or_cache-IsSound :
    (raced : Bool) (envelope : PageEnvelope) (r : Router)
    → IsSound r
    → IsSound (reject_or_cache raced envelope r)
reject_or_cache-IsSound true envelope r h =
    prefetches-AreSound h
      (record { in_flight = h.prefetches.in_flight; cache = h.prefetches.cache })
reject_or_cache-IsSound false envelope r h = cache_page_envelope-IsSound envelope r h

pub prefetch_answered-IsSound :
    (now : ℕ) (url : String) (generation started_at_epoch : ℕ) (known : Map String String)
    (envelope : PageEnvelope) (r : Router)
    → IsSound r
    → IsSound (prefetch_answered now url generation started_at_epoch known envelope r)
unfolding prefetch_answered
prefetch_answered-IsSound now url generation started_at_epoch known envelope r h =
    elim (Bool-cases (generation == r.lifecycle_generation)) [
      | inl e ↦ rw (e, prefetch_answered) (reject_or_cache-IsSound _ envelope _ put)
      | inr e ↦ rw (e, prefetch_answered) h
    ]
  where
    safe : List String
    safe = unraced_keys started_at_epoch r (keys envelope.resources)

    put : IsSound (put_resources now (entries_in safe envelope.resources) (bump_keys true safe r))
    put =
        put_resources-IsSound now (entries_in safe envelope.resources) _
          (bump_keys-IsSound true safe r h)

stale_keys-IsSound : (keys : List String) (r : Router) → IsSound r → IsSound (stale_keys keys r)
unfolding stale_keys
stale_keys-IsSound [] r h = h
stale_keys-IsSound (key ∷ keys) r h =
    let bumped = bump_resource_epoch-IsSound key false r h in
    stale_keys-IsSound keys _ (store-AreSound bumped (mark_stale-IsValid key _ bumped.store))

queue_live_refresh-IsSound :
    (keys : List String) (reconnected : Bool) (r : Router)
    → IsSound r
    → IsSound (queue_live_refresh keys reconnected r)
queue_live_refresh-IsSound [] reconnected r h = h
queue_live_refresh-IsSound (key ∷ keys) reconnected r h = h

signal_stale-IsSound :
    (listed : List String) (reconnected : Bool) (r : Router)
    → IsSound r
    → IsSound (signal_stale listed reconnected r)
signal_stale-IsSound listed reconnected r h =
    queue_live_refresh-IsSound active reconnected (stale_keys active r)
      (stale_keys-IsSound active r h)
  where
    active : List String
    active = keep_in (manifest_keys r.live_manager.manifest) listed

pub handle_live_event-IsSound :
    (out : Outside) (client : String) (event : LiveEvent) (r : Router)
    → IsSound r
    → IsSound (handle_live_event out client event r)
unfolding handle_live_event
handle_live_event-IsSound out client (State.ready id) r h = h
handle_live_event-IsSound out client (State.invalidate listed origin) r h =
    either_branch IsSound (is_own client origin) _ _ h (signal_stale-IsSound listed false _ h)
handle_live_event-IsSound out client (State.resync listed reason) r h =
    signal_stale-IsSound listed true _ h
handle_live_event-IsSound out client (State.patch patches origin) r h =
    either_branch IsSound (is_own client origin) _ _ h (
      queue_live_refresh-IsSound (keys active) false (patch_keys out false active started)
        (patch_keys-IsSound out false active started h))
  where
    started : Router
    started = emit_event (live_signal patch (size patches)) r

    active : Map String (List ResourcePatch)
    active = entries_in (manifest_keys r.live_manager.manifest) patches

refreshed-IsSound :
    (o : Option LiveManifest) (pending : List String) (reason : ResourceLoadReason) (r : Router)
    → IsSound r
    → IsSound (refreshed o pending reason r).0
refreshed-IsSound none pending reason r h = h
refreshed-IsSound (some manifest) [] reason r h = h
refreshed-IsSound (some manifest) (key ∷ rest) reason r h = go r.live_started
  where
    go :
        (b : Bool)
        → IsSound
            (if not b
              then (r, none)
              else load_resources (key ∷ rest) (some manifest.url) reason none r).0
    go true = load_resources-IsSound (key ∷ rest) (some manifest.url) reason none r h
    go false = h

pub live_refresh_fired-IsSound : (r : Router) → IsSound r → IsSound (live_refresh_fired r).0
unfolding live_refresh_fired
live_refresh_fired-IsSound r h = refreshed-IsSound r.live_manager.manifest _ _ _ h

pub begin_prefetch-IsSound :
    (now : ℕ) (finger : Map String String → String) (url : String) (r : Router)
    → IsSound r
    → IsSound (begin_prefetch now finger url r).0
unfolding begin_prefetch
begin_prefetch-IsSound now finger url r h =
    prefetches-AreSound h (fetch-IsBounded now _ url _ 10000 r.prefetch_manager h.prefetches)

pub fail_mutation-IsSound :
    (generation : ℕ) (url : String) (r : Router)
    → IsSound r
    → IsSound (fail_mutation generation url r)
fail_mutation-IsSound generation url r h =
    either_branch IsSound (generation == r.lifecycle_generation) (emit_event (mutation_error url) r)
      r h h
