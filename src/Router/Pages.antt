-- ===== src/Router/Pages.antt =====
-- How packages/core/src/router.ts applies the envelope of a page: `applyPageEnvelope` and
-- `cachePageEnvelope`.
use flux_fast.Shared.{
  ℕ, String, Bool, true, false, Option, none, some, List, [], ◌∷◌, if◌then◌else◌, get_or, elem, leb,
  str_dec,
}
use flux_fast.Shared.JsMap.{Map, keys}
use flux_fast.Shared.JsMap
use flux_fast.Store.State.{ResourceErrorDetail}
use flux_fast.Store.Changes.{
  ResourceWireRecord, mark_pending, set_resource_error, export_known_versions, finite, union,
}
use flux_fast.Cache.{PageCache, set_page}
use flux_fast.Epochs
use flux_fast.Epochs.{ResourceEpoch}
use flux_fast.Envelope.{PageEnvelope, set_page_state}
use flux_fast.Live.Keys.{Normalized, throws, no_manifest, normalized, normalize_manifest}
use flux_fast.Live.Methods.{update_manifest, connect}
use flux_fast.Router.State.{Router, Outside}
use flux_fast.Router.Basics.{with_store, or_root, inherited, bump_resource_epoch}
use flux_fast.Router.Loads.{put_resource}

abbrev pub replaced : Outside → Normalized → Router → Router × Bool
replaced out throws r = (r, true)
replaced out no_manifest r =
    (record r { live_manager = update_manifest out.answer out.online none r.live_manager }, false)
replaced out (normalized manifest) r = (
  record r { live_manager = update_manifest out.answer out.online (some manifest) r.live_manager },
  false,
)

-- `liveManager.updateManifest(url, keys)`, and whether it throws.
unfoldable pub update_live : Outside → String → List String → Router → Router × Bool
unfolding update_manifest normalize_manifest
update_live out url keys r = replaced out (normalize_manifest url keys) r

-- `if (this.liveStarted) this.liveManager.connect()`
unfoldable pub connect_live : Outside → Router → Router
unfolding connect
connect_live out r =
    if r.live_started
    then record r { live_manager = connect out.answer out.online r.live_manager }
    else r

-- `versions` of the resource keys of a page, of those that are known.
abbrev select_versions : List String → Map String String → Map String String → Map String String
select_versions [] known versions = versions
select_versions (key ∷ keys) known versions =
    select_versions keys known (elim (JsMap.get str_dec key known) [
      | none ↦ versions
      | some version ↦ JsMap.set str_dec key version versions
    ])

abbrev pub keep_in : List String → List String → List String
keep_in allowed [] = []
keep_in allowed (key ∷ keys) =
    if elem str_dec key allowed then key ∷ keep_in allowed keys else keep_in allowed keys

-- Without a list of the page's keys, every known one is taken for the page's.
unfoldable pub cached_with :
    PageEnvelope → Map String String → Option (List String) → PageCache → PageCache
unfolding set_page
cached_with envelope known none c =
    set_page envelope.page known
      (some (record {
        resource_keys = keys known;
        pending_deferred = [];
        live_keys = some (union [] (get_or envelope.live []));
      }))
      c
cached_with envelope known (some listed) c =
    let resource_keys = union [] listed in
    set_page envelope.page (select_versions resource_keys known [])
      (some (record {
        resource_keys = resource_keys;
        pending_deferred = keep_in resource_keys (union [] (get_or envelope.deferred []));
        live_keys = some (union [] (get_or envelope.live []));
      }))
      c

unfoldable pub cache_page_envelope : PageEnvelope → Router → Router
unfolding cached_with export_known_versions
cache_page_envelope envelope r = record r {
  page_cache =
      cached_with envelope (export_known_versions (finite 100) r.resource_store)
        envelope.resource_keys r.page_cache;
}

-- Every key that an envelope names.
abbrev pub envelope_keys : PageEnvelope → List String
envelope_keys envelope =
    union
      (union
        (union (union [] (keys envelope.resources)) (keys (get_or envelope.resource_errors [])))
        (get_or envelope.deferred []))
      (get_or envelope.resource_keys [])

-- Navigation must not replace what mutations, refreshes and live events brought since it started.
abbrev pub is_eligible : ℕ → Router → String → Bool
is_eligible started_at_epoch r key =
    leb (inherited (Epochs.get key r.resource_epochs)).0 started_at_epoch

unfoldable pub eligible_keys : ℕ → Router → List String → List String
eligible_keys started_at_epoch r [] = []
eligible_keys started_at_epoch r (key ∷ keys) =
    let rest = eligible_keys started_at_epoch r keys in
    if is_eligible started_at_epoch r key then key ∷ rest else rest

abbrev pub entries_in {ℓ} : {A : Type ℓ} → List String → List (String × A) → List (String × A)
entries_in allowed [] = []
entries_in allowed ((key, value) ∷ entries) =
    let rest = entries_in allowed entries in
    if elem str_dec key allowed then (key, value) ∷ rest else rest

abbrev pub keep_entries :
    List String → Option (Map String ResourceErrorDetail) → Option (Map String ResourceErrorDetail)
keep_entries allowed none = none
keep_entries allowed (some errors) = some (entries_in allowed errors)

abbrev pub keep_keys : List String → Option (List String) → Option (List String)
keep_keys allowed none = none
keep_keys allowed (some keys) = some (keep_in allowed keys)

-- The envelope with what may be applied of it.
abbrev pub applied : List String → PageEnvelope → PageEnvelope
applied eligible envelope = record envelope {
  resources = entries_in eligible envelope.resources;
  resource_errors = keep_entries eligible envelope.resource_errors;
  deferred = keep_keys eligible envelope.deferred;
}

unfoldable pub bump_keys : Bool → List String → Router → Router
unfolding bump_resource_epoch
bump_keys speculative [] r = r
bump_keys speculative (key ∷ keys) r =
    bump_keys speculative keys (bump_resource_epoch key speculative r)

unfoldable pub put_resources : ℕ → Map String ResourceWireRecord → Router → Router
unfolding put_resource
put_resources now [] r = r
put_resources now ((key, wire) ∷ rest) r =
    put_resources now rest (put_resource now key wire.version wire r)

unfoldable pub put_errors : Map String ResourceErrorDetail → Router → Router
unfolding set_resource_error
put_errors [] r = r
put_errors ((key, problem) ∷ rest) r =
    put_errors rest (with_store (set_resource_error key problem r.resource_store) r)

-- `applyPageEnvelope` up to the live manifest.
unfoldable pub apply_resources : ℕ → PageEnvelope → List String → Router → Router
unfolding bump_keys put_resources put_errors mark_pending
apply_resources now envelope eligible r =
    let a = applied eligible envelope in
    let r₁ = put_resources now a.resources (bump_keys false eligible r) in
    let r₂ = put_errors (get_or a.resource_errors []) r₁ in
    let r₃ = with_store (mark_pending (get_or a.deferred []) r₂.resource_store) r₂ in
    record r₃ { page_store = set_page_state envelope.page r₃.page_store }

abbrev pub after_manifest : Outside → PageEnvelope → Router × Bool → Router × Bool
after_manifest out envelope (r, true) = (r, true)
after_manifest out envelope (r, false) = (cache_page_envelope envelope (connect_live out r), false)

-- `applyPageEnvelope`: the router, the envelope that was applied, and whether the live manifest
-- made it throw.
unfoldable pub apply_page_envelope :
    Outside → PageEnvelope → ℕ → Router → Router × PageEnvelope × Bool
unfolding apply_resources update_live connect_live cache_page_envelope eligible_keys
apply_page_envelope out envelope started_at_epoch r =
    let eligible = eligible_keys started_at_epoch r (envelope_keys envelope) in
    let a = applied eligible envelope in
    let (r₁, thrown) = after_manifest out a (
      update_live out (or_root envelope.page.url) (get_or envelope.live [])
        (apply_resources out.now envelope eligible r)) in
    (r₁, a, thrown)
