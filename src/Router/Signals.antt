-- ===== src/Router/Signals.antt =====
-- What changes resources between navigations in packages/core/src/router.ts: `mutate` and `prefetch`
-- after their answers, and live events with the refresh that they queue.
use flux_fast.Shared.{
  ℕ, ◌+◌, String, Bool, true, false, ◌&&◌, not, Option, none, some, List, [], ◌∷◌, ◌++◌,
  if◌then◌else◌, get_or, add, ltb, leb, str_dec, str_eq, ◌==◌, length,
}
use flux_fast.Shared.Chars.{sort, any}
use flux_fast.Shared.JsMap.{Map, keys, size}
use flux_fast.Mutation.{ResourcePatch}
use flux_fast.Store.State.{ResourceStore, ResourceRecord}
use flux_fast.Store.Internals
use flux_fast.Store.Operations.{get_record}
use flux_fast.Store.Changes.{
  export_known_versions, finite, ResourceWireRecord, has_subscribers, mark_stale, union,
}
use flux_fast.Store.Changes
use flux_fast.Epochs
use flux_fast.Epochs.{ResourceEpoch}
use flux_fast.Envelope.{PageEnvelope, MutationPayload}
use flux_fast.Prefetch.{PrefetchManager, Fetch, fetch, reject}
use flux_fast.Live.State.{LiveEvent, LiveManifest}
use flux_fast.Live.State
use flux_fast.Router.State.{
  prefetch_start, mutation_start, mutation_success, mutation_error, ResourceLoadReason, live,
  live_reconnect, mutation, resource_update, resource_invalidate, prefetch_success, live_signal,
  invalidate, patch, resync, Router, Outside, ResourceLoad,
}
use flux_fast.Router.Basics.{emit_event, with_store, or_root, bump_resource_epoch, epoch_in}
use flux_fast.Router.Loads.{load_resources}
use flux_fast.Router.Pages.{entries_in, bump_keys, put_resources, cache_page_envelope, keep_in}

-- `this.resourceStore.getRecord(key)?.version ?? ""`
abbrev pub version_of : Option ResourceRecord → String
version_of none = ""
version_of (some rec) = rec.version

-- After a patch that found its record: the event with the new version.
abbrev pub patched : String → Router → Router
patched key r =
    let (s, rec) = get_record key r.resource_store in
    emit_event (resource_update key (version_of rec)) (with_store s r)

abbrev pub patch_or_drop : Bool → String → ResourceStore × Bool → Router → Router
patch_or_drop drop key (s, true) r = patched key (with_store s r)
patch_or_drop false key (s, false) r = with_store s r
patch_or_drop true key (s, false) r = with_store (Internals.invalidate key s) r

-- One resource of a mutation or of a live patch; `drop` says that a resource without a record is
-- invalidated, which mutations do.
unfoldable pub patch_key : Outside → Bool → String → List ResourcePatch → Router → Router
unfolding bump_resource_epoch Changes.patch Internals.invalidate
patch_key out drop key patches r =
    let r₁ = bump_resource_epoch key false r in
    patch_or_drop drop key (Changes.patch out.now out.later out.fresh key patches r₁.resource_store)
      r₁

-- Each patch may make one new array or object.
abbrev pub past : ℕ → Outside → Outside
past n out = record out { fresh = out.fresh + n }

unfoldable pub patch_keys : Outside → Bool → Map String (List ResourcePatch) → Router → Router
unfolding patch_key
patch_keys out drop [] r = r
patch_keys out drop ((key, patches) ∷ rest) r =
    patch_keys (past (length patches) out) drop rest (patch_key out drop key patches r)

-- One invalidated key of a mutation: kept as stale where someone shows it.
unfoldable pub invalidate_key : String → Router → Router
unfolding bump_resource_epoch mark_stale Internals.invalidate has_subscribers
invalidate_key key r =
    let r₁ = bump_resource_epoch key false r in
    let s = r₁.resource_store in
    emit_event (resource_invalidate key) (
      with_store (if has_subscribers key s then mark_stale key s else Internals.invalidate key s)
        r₁)

-- The keys that are shown are loaded again.
unfoldable pub invalidate_keys : List String → Router → Router × List String
unfolding invalidate_key
invalidate_keys [] r = (r, [])
invalidate_keys (key ∷ keys) r =
    let shown = has_subscribers key r.resource_store in
    let (r₁, active) = invalidate_keys keys (invalidate_key key r) in
    (r₁, (if shown then key ∷ active else active))

-- What `mutate` does next, before it reports its success.
pub data Next : Type 0 where
  session_over done : Next
  hard_navigate visits : String → Next
  loads : ResourceLoad → Next

abbrev pub redirected : Option String → Bool
redirected none = false
redirected (some url) = not (str_eq url "")

abbrev pub next_load : Router × Option ResourceLoad → Router × Next
next_load (r, none) = (r, done)
next_load (r, some load) = (r, loads load)

abbrev pub reload : List String → Router → Router × Next
reload [] r = (r, done)
reload (key ∷ keys) r =
    next_load (load_resources (key ∷ keys) (some (or_root r.page_store.state.url)) mutation none r)

abbrev pub proceed : Bool → MutationPayload → Router × List String → Router × Next
proceed can_redirect payload (r, active) =
    if can_redirect && redirected payload.external_redirect
    then (r, hard_navigate (get_or payload.external_redirect ""))
    else if can_redirect && redirected payload.redirect
    then (r, visits (get_or payload.redirect ""))
    else reload active r

-- `mutate` after its answer, with the generation and the visit counter that it captured.
unfoldable pub mutation_answered : Outside → ℕ → ℕ → MutationPayload → Router → Router × Next
unfolding patch_keys invalidate_keys load_resources
mutation_answered out generation visit_counter payload r =
    if not (generation == r.lifecycle_generation)
    then (r, session_over)
    else proceed (visit_counter == r.visit_counter) payload (
        invalidate_keys (get_or payload.invalidate [])
          (patch_keys out true (get_or payload.patches []) r))

-- The rest of `mutate`: before its request, when all is done, and after a failure.
abbrev pub begin_mutation : String → Router → Router
begin_mutation url r = emit_event (mutation_start url) r

abbrev pub end_mutation : String → Router → Router
end_mutation url r = emit_event (mutation_success url) r

abbrev pub fail_mutation : ℕ → String → Router → Router
fail_mutation generation url r =
    if generation == r.lifecycle_generation then emit_event (mutation_error url) r else r

-- What `prefetch` has captured when it waits.
pub record PrefetchCall : Type 0 where
  pub url : String
  pub lifecycle_generation : ℕ
  pub started_at_epoch : ℕ
  pub known_versions : Map String String

abbrev pub fetched_with :
    PrefetchCall → Router → PrefetchManager × Fetch → Router × PrefetchCall × Fetch
fetched_with call r (m, fetch) = (record r { prefetch_manager = m }, call, fetch)

-- `prefetch` up to its wait, with the time to live of ten seconds that is the manager's default.
unfoldable pub begin_prefetch :
    ℕ → (Map String String → String) → String → Router → Router × PrefetchCall × Fetch
unfolding fetch export_known_versions
begin_prefetch now finger url r =
    let known = export_known_versions (finite 100) r.resource_store in
    fetched_with
      (record {
        url = url;
        lifecycle_generation = r.lifecycle_generation;
        started_at_epoch = r.resource_epoch_counter;
        known_versions = known;
      })
      (emit_event (prefetch_start url) r)
      (fetch now (finger known) url known 10000 r.prefetch_manager)

-- `resourceEpochs.get(key)?.epoch ?? 0`
abbrev pub epoch_or_zero : String → Router → ℕ
epoch_or_zero key r = get_or (epoch_in (Epochs.get key r.resource_epochs)) 0

unfoldable pub unraced_keys : ℕ → Router → List String → List String
unraced_keys started_at_epoch r [] = []
unraced_keys started_at_epoch r (key ∷ keys) =
    let rest = unraced_keys started_at_epoch r keys in
    if leb (epoch_or_zero key r) started_at_epoch then key ∷ rest else rest

abbrev pub reject_or_cache : Bool → PageEnvelope → Router → Router
reject_or_cache raced envelope r =
    if raced
    then record r { prefetch_manager = reject envelope r.prefetch_manager }
    else cache_page_envelope envelope r

-- `prefetch` after its answer, with what it captured: a prefetch is a guess, so its epochs give it
-- no authority, and what has changed since it started is left alone.
unfoldable pub prefetch_answered :
    ℕ → String → ℕ → ℕ → Map String String → PageEnvelope → Router → Router
unfolding unraced_keys bump_keys put_resources cache_page_envelope
prefetch_answered now url generation started_at_epoch known envelope r =
    if not (generation == r.lifecycle_generation)
    then r
    else let safe = unraced_keys started_at_epoch r (keys envelope.resources) in
      let page_keys = get_or envelope.resource_keys (keys known ++ keys envelope.resources) in
      let raced = any (λ key. ltb started_at_epoch (epoch_or_zero key r)) page_keys in
      let r₁ = put_resources now (entries_in safe envelope.resources) (bump_keys true safe r) in
      emit_event (prefetch_success url) (reject_or_cache raced envelope r₁)

unfoldable pub add_all : List String → List String → List String
add_all [] pending = pending
add_all (key ∷ keys) pending = add_all keys (add str_dec key pending)

-- `queueLiveRefresh`
abbrev pub queue_live_refresh : List String → Bool → Router → Router
queue_live_refresh [] reconnected r = r
queue_live_refresh (key ∷ keys) reconnected r = record r {
  pending_live_refresh_keys = add_all (key ∷ keys) r.pending_live_refresh_keys;
  pending_live_refresh_reason =
      if reconnected then live_reconnect else r.pending_live_refresh_reason;
  live_refresh_timer = true;
}

abbrev pub manifest_keys : Option LiveManifest → List String
manifest_keys none = []
manifest_keys (some manifest) = manifest.keys

unfoldable pub stale_keys : List String → Router → Router
unfolding bump_resource_epoch mark_stale
stale_keys [] r = r
stale_keys (key ∷ keys) r =
    let r₁ = bump_resource_epoch key false r in
    stale_keys keys
      (emit_event (resource_invalidate key) (with_store (mark_stale key r₁.resource_store) r₁))

-- `event.originClientId === this.clientId`
abbrev pub is_own : String → Option String → Bool
is_own client none = false
is_own client (some origin) = str_eq origin client

abbrev entries_of : List String → Map String (List ResourcePatch) → Map String (List ResourcePatch)
entries_of allowed patches = entries_in allowed patches

abbrev pub signal_stale : List String → Bool → Router → Router
signal_stale listed reconnected r =
    let active = keep_in (manifest_keys r.live_manager.manifest) listed in
    queue_live_refresh active reconnected (stale_keys active r)

-- `handleLiveEvent`, with the client's own identity.
unfoldable pub handle_live_event : Outside → String → LiveEvent → Router → Router
unfolding patch_keys stale_keys add_all
handle_live_event out client (State.ready _) r = r
handle_live_event out client (State.invalidate listed origin) r =
    let r₁ = emit_event (live_signal invalidate (length listed)) r in
    if is_own client origin then r₁ else signal_stale listed false r₁
handle_live_event out client (State.resync listed reason) r =
    signal_stale listed true (emit_event (live_signal resync (length listed)) r)
handle_live_event out client (State.patch patches origin) r =
    let r₁ = emit_event (live_signal patch (size patches)) r in
    if is_own client origin
    then r₁
    else let active = entries_of (manifest_keys r₁.live_manager.manifest) patches in
      queue_live_refresh (keys active) false (patch_keys out false active r₁)

-- `manifest && pending.length > 0 && this.liveStarted`
abbrev pub refreshed :
    Option LiveManifest → List String → ResourceLoadReason → Router → Router × Option ResourceLoad
refreshed none pending reason r = (r, none)
refreshed (some manifest) [] reason r = (r, none)
refreshed (some manifest) (key ∷ keys) reason r =
    if not r.live_started
    then (r, none)
    else load_resources (key ∷ keys) (some manifest.url) reason none r

-- The callback of the timer that `queueLiveRefresh` sets.
unfoldable pub live_refresh_fired : Router → Router × Option ResourceLoad
unfolding sort load_resources
live_refresh_fired r =
    let manifest = r.live_manager.manifest in
    refreshed manifest (sort (keep_in (manifest_keys manifest) r.pending_live_refresh_keys))
      r.pending_live_refresh_reason
      (record r {
        live_refresh_timer = false;
        pending_live_refresh_keys = [];
        pending_live_refresh_reason = live;
      })
