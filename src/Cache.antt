-- ===== src/Cache.antt =====
-- packages/core/src/cache.ts, the class PageCache: cached page shells that name the versions of the
-- resources they show, least recently used first. It reads a ResourceStore, whose reads reorder
-- that store's own LRU list, so a method that reads returns the store too.
pub mod Laws
pub mod Bounds
use flux_fast.Shared.{
  ℕ, String, Bool, true, false, ◌&&◌, not, Option, none, some, List, [], ◌∷◌, if◌then◌else◌, get_or,
  ltb, elem, remove, str_dec, str_eq,
}
use flux_fast.Shared.JsMap.{Map, get, set, delete, keys, trim}
use flux_fast.Value.{Fields, end}
use flux_fast.Store.State.{
  ResourceRecord, ResourceStatus, pending, loading, ready, error, status_eq, ResourceStateSnapshot,
  ResourceStore,
}
use flux_fast.Store.Operations.{get_state_snapshot, get_record, is_stale}
use flux_fast.Store.Changes.{union}

pub record PageDescriptor : Type 0 where
  pub component : String
  pub url : String
  pub meta : Option Fields

pub record CachedPage : Type 0 where
  pub url : String
  pub component : String
  pub meta : Fields
  pub resources : Map String String
  pub resource_keys : List String
  pub pending_deferred : List String
  pub live_keys : List String

pub record PageCacheManifest : Type 0 where
  pub resource_keys : List String
  pub pending_deferred : List String
  pub live_keys : Option (List String)

pub record PageCache : Type 0 where
  pub entries : Map String CachedPage
  pub max_pages : ℕ

-- The constructor; `none` is its RangeError.
unfoldable pub new_cache : ℕ → Option PageCache
new_cache max_pages =
    if ltb 0 max_pages then some (record { entries = []; max_pages = max_pages }) else none

unfoldable pub cached_page :
    PageDescriptor → Map String String → Option PageCacheManifest → CachedPage
cached_page page resources none = record {
  url = page.url;
  component = page.component;
  meta = get_or page.meta end;
  resources = resources;
  resource_keys = keys resources;
  pending_deferred = [];
  live_keys = [];
}
cached_page page resources (some manifest) = record {
  url = page.url;
  component = page.component;
  meta = get_or page.meta end;
  resources = resources;
  resource_keys = manifest.resource_keys;
  pending_deferred = manifest.pending_deferred;
  live_keys = union [] (get_or manifest.live_keys []);
}

unfoldable pub set_page :
    PageDescriptor → Map String String → Option PageCacheManifest → PageCache → PageCache
unfolding cached_page
set_page page resources manifest c = record c {
  entries = trim c.max_pages (
      set str_dec page.url (cached_page page resources manifest)
        (delete str_dec page.url c.entries));
}

-- `record && record.version === version && !resources.isStale(key)`
abbrev pub holds_version : Option ResourceRecord → String → Bool → Bool
holds_version none version stale = false
holds_version (some rec) version stale = str_eq rec.version version && not stale

-- What every object inherits: such a name reads as something in `entry.resources` when the page has
-- no version for it.
unfoldable pub is_inherited : String → Bool
is_inherited key = elem str_dec key (
    "constructor" ∷ "toString" ∷ "toLocaleString" ∷ "valueOf" ∷ "hasOwnProperty" ∷ "isPrototypeOf"
    ∷ "propertyIsEnumerable" ∷ "__proto__" ∷ "__defineGetter__" ∷ "__defineSetter__"
    ∷ "__lookupGetter__" ∷ "__lookupSetter__" ∷ [])

-- One round of the loop of `getValid`, for a key that is not pending: whether the page stays valid.
-- What is inherited is no record's version.
unfoldable pub check_key : Option String → String → ResourceStore → ResourceStore × Bool
unfolding is_inherited
check_key (some version) key s =
    let (s₁, rec) = get_record key s in (s₁, holds_version rec version (is_stale key s₁))
check_key none key s =
    let (s₁, rec) = get_record key s in
    let (s₂, state) = get_state_snapshot key s in
    if is_inherited key then (s₁, false) else (s₂, status_eq state.status error)

unfoldable pub check_keys : CachedPage → List String → ResourceStore → ResourceStore × Bool
unfolding check_key
check_keys entry [] s = (s, true)
check_keys entry (key ∷ keys) s =
    let skipped = check_keys entry keys s in
    if elem str_dec key entry.pending_deferred
    then skipped
    else (let (s₁, fine) = check_key (get str_dec key entry.resources) key s in
        let rest = check_keys entry keys s₁ in if fine then rest else (s₁, false))

-- A valid page becomes the most recently used; an invalid one is forgotten.
unfoldable pub get_valid :
    String → PageCache → ResourceStore → PageCache × ResourceStore × Option CachedPage
unfolding check_keys
get_valid url c s = elim (get str_dec url c.entries) [
  | none ↦ (c, s, none)
  | some entry ↦
      let (s₁, valid) = check_keys entry entry.resource_keys s in
      if valid
      then (
        record c { entries = set str_dec url entry (delete str_dec url c.entries) },
        s₁,
        some entry,
      )
      else (record c { entries = delete str_dec url c.entries }, s₁, none)
]

-- The versions and the pending keys that the loop of `settleResources` works on.
pub record Settlement : Type 0 where
  pub versions : Map String String
  pub still_pending : List String

-- A key with no fresh record, by its status; `none` drops the page from the cache.
unfoldable pub settle_by_status : ResourceStatus → String → Settlement → Option Settlement
settle_by_status error key t = some (record {
  versions = delete str_dec key t.versions;
  still_pending = remove str_dec key t.still_pending;
})
settle_by_status pending key t = some t
settle_by_status loading key t = some t
settle_by_status _ key t = none

unfoldable pub settle_key :
    String → Option ResourceRecord → ResourceStatus → Bool → Settlement → Option Settlement
unfolding settle_by_status
settle_key key (some rec) status false t =
    if status_eq status ready
    then some (record {
      versions = set str_dec key rec.version t.versions;
      still_pending = remove str_dec key t.still_pending;
    })
    else settle_by_status status key t
settle_key key rec status stale t = settle_by_status status key t

unfoldable pub settle_keys :
    List String → List String → Settlement → ResourceStore → ResourceStore × Option Settlement
unfolding settle_key
settle_keys owned [] t s = (s, some t)
settle_keys owned (key ∷ keys) t s =
    let skipped = settle_keys owned keys t s in
    if not (elem str_dec key owned)
    then skipped
    else (let (s₁, state) = get_state_snapshot key s in
        let (s₂, rec) = get_record key s₁ in
        elim (settle_key key rec state.status (is_stale key s₂) t) [
          | none ↦ (s₂, none)
          | some t' ↦ settle_keys owned keys t' s₂
        ])

abbrev pub keep_pending : List String → List String → List String
keep_pending still [] = []
keep_pending still (key ∷ keys) =
    let rest = keep_pending still keys in if elem str_dec key still then key ∷ rest else rest

-- What becomes of the page when the loop is over.
abbrev pub settled_page :
    String → CachedPage → PageCache → ResourceStore × Option Settlement → PageCache × ResourceStore
settled_page url entry c (s, none) = (record c { entries = delete str_dec url c.entries }, s)
settled_page url entry c (s, some t) =
    let updated = record entry {
      resources = t.versions;
      pending_deferred = keep_pending t.still_pending entry.resource_keys;
    } in
    (record c { entries = set str_dec url updated (delete str_dec url c.entries) }, s)

unfoldable pub settle_resources :
    String → List String → PageCache → ResourceStore → PageCache × ResourceStore
unfolding settle_keys
settle_resources url keys c s = elim (get str_dec url c.entries) [
  | none ↦ (c, s)
  | some entry ↦ settled_page url entry c (
      settle_keys entry.resource_keys keys
        (record { versions = entry.resources; still_pending = union [] entry.pending_deferred }) s)
]

unfoldable pub clear_pages : PageCache → PageCache
clear_pages c = record c { entries = [] }
