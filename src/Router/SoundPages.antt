-- ===== src/Router/SoundPages.antt =====
-- Applying and caching a page keeps a router of packages/core/src/router.ts sound.
use flux_fast.Shared.{
  ℕ, String, Bool, true, false, Option, none, some, List, [], ◌∷◌, get_or, either_branch,
}
use flux_fast.Shared.JsMap.{Map}
use flux_fast.Store.State.{ResourceErrorDetail}
use flux_fast.Store.Changes.{ResourceWireRecord}
use flux_fast.Store.Marks.{mark_pending-IsValid, set_resource_error-IsValid}
use flux_fast.Cache.{PageCache}
use flux_fast.Cache.Bounds.{IsPages, set_page-IsPages}
use flux_fast.Envelope.{PageEnvelope}
use flux_fast.Live.Keys.{Normalized, throws, no_manifest, normalized, normalize_manifest}
use flux_fast.Live.Methods.{connect}
use flux_fast.Live.Lifecycle.{update_manifest-IsCoherent, connect-IsCoherent}
use flux_fast.Router.State.{Router, Outside}
use flux_fast.Router.Basics.{or_root, bump_resource_epoch}
use flux_fast.Router.Loads.{put_resource}
use flux_fast.Router.Pages.{
  replaced, update_live, connect_live, cache_page_envelope, cached_with, bump_keys, put_resources,
  put_errors, apply_resources, after_manifest, apply_page_envelope, applied, eligible_keys,
  envelope_keys,
}
use flux_fast.Router.Soundness.{
  IsSound, store-AreSound, live-AreSound, pages-AreSound, bump_resource_epoch-IsSound,
}
use flux_fast.Router.SoundLoads.{put_resource-IsSound}

replaced-IsSound :
    (out : Outside) (n : Normalized) (r : Router) → IsSound r → IsSound (replaced out n r).0
replaced-IsSound out throws r h = h
replaced-IsSound out no_manifest r h =
    live-AreSound h (update_manifest-IsCoherent out.answer out.online none r.live_manager h.live)
replaced-IsSound out (normalized manifest) r h =
    live-AreSound h
      (update_manifest-IsCoherent out.answer out.online (some manifest) r.live_manager h.live)

pub update_live-IsSound :
    (out : Outside) (url : String) (keys : List String) (r : Router)
    → IsSound r
    → IsSound (update_live out url keys r).0
unfolding update_live
update_live-IsSound out url keys r h = replaced-IsSound out (normalize_manifest url keys) r h

pub connect_live-IsSound : (out : Outside) (r : Router) → IsSound r → IsSound (connect_live out r)
unfolding connect_live
connect_live-IsSound out r h =
    either_branch IsSound r.live_started
      (record r { live_manager = connect out.answer out.online r.live_manager }) r
      (live-AreSound h (connect-IsCoherent out.answer out.online r.live_manager h.live)) h

cached_with-IsPages :
    (envelope : PageEnvelope) (known : Map String String) (o : Option (List String)) (c : PageCache)
    → IsPages c
    → IsPages (cached_with envelope known o c)
unfolding cached_with
cached_with-IsPages envelope known none c h = search (set_page-IsPages, h)
cached_with-IsPages envelope known (some listed) c h = search (set_page-IsPages, h)

pub cache_page_envelope-IsSound :
    (envelope : PageEnvelope) (r : Router) → IsSound r → IsSound (cache_page_envelope envelope r)
unfolding cache_page_envelope
cache_page_envelope-IsSound envelope r h =
    pages-AreSound h (cached_with-IsPages envelope _ envelope.resource_keys r.page_cache h.pages)

pub bump_keys-IsSound :
    (speculative : Bool) (keys : List String) (r : Router)
    → IsSound r
    → IsSound (bump_keys speculative keys r)
unfolding bump_keys
bump_keys-IsSound speculative [] r h = h
bump_keys-IsSound speculative (key ∷ keys) r h =
    bump_keys-IsSound speculative keys (bump_resource_epoch key speculative r)
      (bump_resource_epoch-IsSound key speculative r h)

pub put_resources-IsSound :
    (now : ℕ) (wires : Map String ResourceWireRecord) (r : Router)
    → IsSound r
    → IsSound (put_resources now wires r)
unfolding put_resources
put_resources-IsSound now [] r h = h
put_resources-IsSound now ((key, wire) ∷ rest) r h =
    put_resources-IsSound now rest (put_resource now key wire.version wire r)
      (put_resource-IsSound now key wire.version wire r h)

pub put_errors-IsSound :
    (errors : Map String ResourceErrorDetail) (r : Router)
    → IsSound r
    → IsSound (put_errors errors r)
unfolding put_errors
put_errors-IsSound [] r h = h
put_errors-IsSound ((key, problem) ∷ rest) r h =
    put_errors-IsSound rest _ (store-AreSound h (set_resource_error-IsValid key problem _ h.store))

apply_resources-IsSound :
    (now : ℕ) (envelope : PageEnvelope) (eligible : List String) (r : Router)
    → IsSound r
    → IsSound (apply_resources now envelope eligible r)
unfolding apply_resources
apply_resources-IsSound now envelope eligible r h =
    store-AreSound put (mark_pending-IsValid (get_or a.deferred []) _ put.store)
  where
    a : PageEnvelope
    a = applied eligible envelope

    put : IsSound (
        put_errors
          (get_or a.resource_errors [])
          (put_resources now a.resources (bump_keys false eligible r)))
    put =
        put_errors-IsSound (get_or a.resource_errors []) _
          (put_resources-IsSound now a.resources _ (bump_keys-IsSound false eligible r h))

after_manifest-IsSound :
    (out : Outside) (envelope : PageEnvelope) (p : Router × Bool)
    → IsSound p.0
    → IsSound (after_manifest out envelope p).0
after_manifest-IsSound out envelope (r, true) h = h
after_manifest-IsSound out envelope (r, false) h =
    cache_page_envelope-IsSound envelope (connect_live out r) (connect_live-IsSound out r h)

pub apply_page_envelope-IsSound :
    (out : Outside) (envelope : PageEnvelope) (started_at_epoch : ℕ) (r : Router)
    → IsSound r
    → IsSound (apply_page_envelope out envelope started_at_epoch r).0
unfolding apply_page_envelope
apply_page_envelope-IsSound out envelope started_at_epoch r h =
    after_manifest-IsSound out (applied eligible envelope) _ (
      update_live-IsSound out (or_root envelope.page.url) (get_or envelope.live [])
        (apply_resources out.now envelope eligible r)
        (apply_resources-IsSound out.now envelope eligible r h))
  where
    eligible : List String
    eligible = eligible_keys started_at_epoch r (envelope_keys envelope)
