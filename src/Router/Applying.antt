-- ===== src/Router/Applying.antt =====
-- What applying a page's envelope in packages/core/src/router.ts does to the store's other resources.
use flux_fast.Shared.{
  ℕ, String, ◌≡◌, refl, subst, ◌≢◌, Bool, true, false, List, [], ◌∷◌, arith, str_dec, elem, get_or,
}
use flux_fast.Shared.JsMap.{Map, keys}
use flux_fast.Store.State.{ResourceErrorDetail, ResourceStore}
use flux_fast.Store.Changes.{ResourceWireRecord, set_resource_error}
use flux_fast.Store.Operations.{set_record}
use flux_fast.Store.Others.{
  Untouched, Untouched-trans, Untouched-refl, set_record-Untouched, set_resource_error-Untouched,
  mark_pending-Untouched,
}
use flux_fast.Envelope.{PageEnvelope}
use flux_fast.Live.Keys.{Normalized, throws, no_manifest, normalized, normalize_manifest}
use flux_fast.Router.State.{Router, Outside}
use flux_fast.Router.Basics.{with_store, bump_resource_epoch}
use flux_fast.Router.Loads.{emit_update, put_resource}
use flux_fast.Router.Pages.{
  applied, bump_keys, put_resources, put_errors, apply_resources, replaced, update_live,
  connect_live, cache_page_envelope, after_manifest,
}

emit_update-store :
    (updated : Bool) (key version : String) (r : Router)
    → (emit_update updated key version r).resource_store ≡ r.resource_store
emit_update-store true key version r = refl
emit_update-store false key version r = refl

put_resource-Untouched :
    (key now_key : String) (now : ℕ) (version : String) (wire : ResourceWireRecord) (r : Router)
    → now_key ≢ key
    → Untouched key r.resource_store (put_resource now now_key version wire r).resource_store
unfolding put_resource
put_resource-Untouched key k now version wire r ne =
    rw
      (emit_update-store (set_record now k version wire.value r.resource_store).1 k version
        (with_store (set_record now k version wire.value r.resource_store).0 r))
      (set_record-Untouched k key ne now version wire.value r.resource_store)

put_resources-Untouched :
    (key : String) (now : ℕ) (resources : Map String ResourceWireRecord) (r : Router)
    → elem str_dec key (keys resources) ≡ false
    → Untouched key r.resource_store (put_resources now resources r).resource_store
unfolding put_resources elem
put_resources-Untouched key now [] r h = Untouched-refl key r.resource_store
put_resources-Untouched key now ((k, wire) ∷ rest) r h =
    Untouched-trans (put_resource-Untouched key k now wire.version wire r (λ p. ground (arith, p)))
      (put_resources-Untouched key now rest (put_resource now k wire.version wire r) (ground arith))

put_errors-Untouched :
    (key : String) (errors : Map String ResourceErrorDetail) (r : Router)
    → elem str_dec key (keys errors) ≡ false
    → Untouched key r.resource_store (put_errors errors r).resource_store
unfolding put_errors elem
put_errors-Untouched key [] r h = Untouched-refl key r.resource_store
put_errors-Untouched key ((k, problem) ∷ rest) r h =
    Untouched-trans
      (set_resource_error-Untouched k key (λ p. ground (arith, p)) problem r.resource_store)
      (put_errors-Untouched key rest (with_store (set_resource_error k problem r.resource_store) r)
        (ground arith))

bump_keys-store :
    (speculative : Bool) (some_keys : List String) (r : Router)
    → (bump_keys speculative some_keys r).resource_store ≡ r.resource_store
unfolding bump_keys bump_resource_epoch
bump_keys-store speculative [] r = refl
bump_keys-store speculative (k ∷ ks) r =
    bump_keys-store speculative ks (bump_resource_epoch k speculative r)

apply_resources-Untouched :
    (key : String) (now : ℕ) (envelope : PageEnvelope) (eligible : List String) (r : Router)
    → elem str_dec key (keys (applied eligible envelope).resources) ≡ false
    → elem str_dec key (keys (get_or (applied eligible envelope).resource_errors [])) ≡ false
    → elem str_dec key (get_or (applied eligible envelope).deferred []) ≡ false
    → Untouched key r.resource_store (apply_resources now envelope eligible r).resource_store
unfolding apply_resources
apply_resources-Untouched key now envelope eligible r no_resource no_error no_mark =
    Untouched-trans
      (Untouched-trans
        (subst
          (λ (s : ResourceStore).
            Untouched key s
              (put_resources now (applied eligible envelope).resources
                (bump_keys false eligible r)).resource_store)
          (bump_keys-store false eligible r)
          (put_resources-Untouched key now (applied eligible envelope).resources
            (bump_keys false eligible r) no_resource))
        (put_errors-Untouched key (get_or (applied eligible envelope).resource_errors []) _
          no_error))
      (mark_pending-Untouched key (get_or (applied eligible envelope).deferred []) _ no_mark)

replaced-store :
    (out : Outside) (n : Normalized) (r : Router)
    → (replaced out n r).0.resource_store ≡ r.resource_store
replaced-store out throws r = refl
replaced-store out no_manifest r = refl
replaced-store out (normalized manifest) r = refl

connect_live-store :
    (out : Outside) (r : Router) → (connect_live out r).resource_store ≡ r.resource_store
unfolding connect_live
connect_live-store out r = go r.live_started refl
  where
    go : (b : Bool) → r.live_started ≡ b → (connect_live out r).resource_store ≡ r.resource_store
    go true e = rw (e, connect_live) refl
    go false e = rw (e, connect_live) refl

after_manifest-store :
    (out : Outside) (envelope : PageEnvelope) (p : Router × Bool)
    → (after_manifest out envelope p).0.resource_store ≡ p.0.resource_store
after_manifest-store out envelope (r, true) = refl
after_manifest-store out envelope (r, false) =
    unfold cache_page_envelope in connect_live-store out r

-- The live manifest and the page cache leave the store as the resources left it.
pub page-Untouched :
    (key : String) (out : Outside) (envelope a : PageEnvelope) (url : String)
    (live eligible : List String) (r : Router)
    → elem str_dec key (keys (applied eligible envelope).resources) ≡ false
    → elem str_dec key (keys (get_or (applied eligible envelope).resource_errors [])) ≡ false
    → elem str_dec key (get_or (applied eligible envelope).deferred []) ≡ false
    → Untouched key r.resource_store
        (after_manifest out a
          (update_live out url live (apply_resources out.now envelope eligible r))).0.resource_store
unfolding update_live
page-Untouched key out envelope a url live eligible r x y z =
    rw
      (
        after_manifest-store out a (
            replaced out (normalize_manifest url live)
              (apply_resources out.now envelope eligible r)),
        replaced-store out (normalize_manifest url live)
            (apply_resources out.now envelope eligible r),
      )
      (apply_resources-Untouched key out.now envelope eligible r x y z)
