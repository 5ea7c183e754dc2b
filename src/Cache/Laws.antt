-- ===== src/Cache/Laws.antt =====
-- When the page cache of packages/core/src/cache.ts hands a page out, and what it keeps.
use flux_fast.Shared.{
  ◌≤◌, ◌<◌, String, ◌≡◌, refl, ap, ◌∙◌, Bool, true, false, not, str_eq, ◌&&◌, ◌||◌, Option, none,
  some, List, [], ◌∷◌, if◌then◌else◌, get_or, arith, elem, str_dec,
}
use flux_fast.Shared.JsMap.{
  Map, get, set, delete, keys, size, get-set, get-delete, size-trim, get-refresh,
}
use flux_fast.Store.State.{
  error, status_eq, ResourceRecord, ResourceStateSnapshot, missing_resource_state, ResourceStore,
}
use flux_fast.Store.Operations.{get_state_snapshot, get_record}
use flux_fast.Cache.{
  PageDescriptor, CachedPage, PageCacheManifest, PageCache, cached_page, set_page, holds_version,
  is_inherited, check_key, check_keys, get_valid,
}

-- Whether the store holds a version of a key, and it is not stale.
abbrev pub shows : Option ResourceRecord → String → Bool → Bool
shows none version stale = false
shows (some rec) version true = false
shows (some rec) version false = str_eq rec.version version

-- Whether a cached page still shows what the store holds of a key: a pending key always, a key with
-- a version if the store has that version and it is not stale, any other if its status is an error.
-- A key without a version that is spelled like what every object inherits is never fresh.
abbrev pub is_fresh_by : Option String → String → ResourceStore → Bool
is_fresh_by (some version) key s =
    shows (get str_dec key s.records) version (elem str_dec key s.stale_keys)
is_fresh_by none key s =
    not (is_inherited key)
    && status_eq (get_or (get str_dec key s.state_snapshots) missing_resource_state).status error

abbrev pub is_fresh : CachedPage → String → ResourceStore → Bool
is_fresh entry key s =
    elem str_dec key entry.pending_deferred || is_fresh_by (get str_dec key entry.resources) key s

abbrev pub all_fresh : CachedPage → List String → ResourceStore → Bool
all_fresh entry [] s = true
all_fresh entry (key ∷ keys) s = is_fresh entry key s && all_fresh entry keys s

-- Two stores that differ in nothing but the LRU order.
pub record SameContents (s t : ResourceStore) : Type 0 where
  pub records : t.records ≡ s.records
  pub state_snapshots : t.state_snapshots ≡ s.state_snapshots
  pub stale_keys : t.stale_keys ≡ s.stale_keys
  pub calls : t.calls ≡ s.calls

SameContents-trans :
    {s t u : ResourceStore} → SameContents s t → SameContents t u → SameContents s u
SameContents-trans p q = record {
  records = q.records ∙ p.records;
  state_snapshots = q.state_snapshots ∙ p.state_snapshots;
  stale_keys = q.stale_keys ∙ p.stale_keys;
  calls = q.calls ∙ p.calls;
}

check_key-SameContents :
    (o : Option String) (key : String) (s : ResourceStore) → SameContents s (check_key o key s).0
unfolding check_key get_record get_state_snapshot
check_key-SameContents none key s = ground arith
check_key-SameContents (some v) key s = ground arith

check_key-is_fresh :
    (o : Option String) (key : String) (s : ResourceStore)
    → (check_key o key s).1 ≡ is_fresh_by o key s
unfolding check_key get_record get_state_snapshot
check_key-is_fresh none key s = ground arith
check_key-is_fresh (some v) key s =
    ground (arith, held (get str_dec key s.records) (elem str_dec key s.stale_keys))
  where
    held : (o : Option ResourceRecord) (stale : Bool) → holds_version o v stale ≡ shows o v stale
    held none stale = refl
    held (some rec) true = ground arith
    held (some rec) false = ground arith

all_fresh-SameContents :
    (entry : CachedPage) (ks : List String) (s t : ResourceStore)
    → SameContents s t
    → all_fresh entry ks t ≡ all_fresh entry ks s
all_fresh-SameContents entry [] s t h = refl
all_fresh-SameContents entry (key ∷ ks) s t h =
    let by : is_fresh_by (get str_dec key entry.resources) key t
        ≡ is_fresh_by (get str_dec key entry.resources) key s =
      same (get str_dec key entry.resources) in
    rw (by, all_fresh-SameContents entry ks s t h)
  where
    same : (o : Option String) → is_fresh_by o key t ≡ is_fresh_by o key s
    same none =
        ap
          (λ (m : Map String ResourceStateSnapshot).
            not (is_inherited key)
            && status_eq (get_or (get str_dec key m) missing_resource_state).status error)
          h.state_snapshots
    same (some v) = rw (h.records, h.stale_keys)

check_keys_lem :
    (entry : CachedPage) (ks : List String) (s : ResourceStore)
    → ((check_keys entry ks s).1 ≡ all_fresh entry ks s) × SameContents s (check_keys entry ks s).0
unfolding check_keys
check_keys_lem entry [] s =
    (refl, record { records = refl; state_snapshots = refl; stale_keys = refl; calls = refl })
check_keys_lem entry (key ∷ ks) s =
    go (elem str_dec key entry.pending_deferred) (check_key o key s).1 (is_fresh_by o key s)
      (check_key-is_fresh o key s) (check_keys_lem entry ks s)
      (check_keys_lem entry ks (check_key (get str_dec key entry.resources) key s).0)
  where
    o : Option String
    o = get str_dec key entry.resources

    s₁ : ResourceStore
    s₁ = (check_key o key s).0

    go :
        (skip fine fresh : Bool)
        → fine ≡ fresh
        → ((check_keys entry ks s).1 ≡ all_fresh entry ks s)
          × SameContents s (check_keys entry ks s).0
        → ((check_keys entry ks s₁).1 ≡ all_fresh entry ks s₁)
          × SameContents s₁ (check_keys entry ks s₁).0
        → let r =
            (if skip
              then check_keys entry ks s
              else if fine
              then check_keys entry ks s₁
              else (s₁, false)) in
          (r.1 ≡ ((skip || fresh) && all_fresh entry ks s)) × SameContents s r.0
    go true fine fresh e ih ih₁ = ih
    go false true fresh e ih (fine, rest) =
        let same = check_key-SameContents o key s in
        (rw (← e) (fine ∙ all_fresh-SameContents entry ks s s₁ same), SameContents-trans same rest)
    go false false fresh e ih ih₁ = (rw (← e) refl, check_key-SameContents o key s)

-- A cached page is handed out exactly when every one of its resource keys is pending on the page, or
-- its version on the page is the store's and not stale, or has no version on the page, a status of
-- error in the store, and no name that every object inherits: it is then the answer and stays cached, and otherwise it is forgotten. Either way the store keeps
-- its records, snapshots and stale keys, and calls no subscriber.
pub get_valid_lem :
    (url : String) (c : PageCache) (s : ResourceStore) (entry : CachedPage)
    → get str_dec url c.entries ≡ some entry
    → ((get_valid url c s).2 ≡ (if all_fresh entry entry.resource_keys s then some entry else none))
      × (get str_dec url (get_valid url c s).0.entries ≡ (get_valid url c s).2)
      × SameContents s (get_valid url c s).1
unfolding get_valid
get_valid_lem url c s entry e =
    rw (e, get_valid)
      (go (check_keys entry entry.resource_keys s).1 (all_fresh entry entry.resource_keys s)
        (check_keys_lem entry entry.resource_keys s).0)
  where
    s₁ : ResourceStore
    s₁ = (check_keys entry entry.resource_keys s).0

    go :
        (valid fresh : Bool)
        → valid ≡ fresh
        → let r : PageCache × ResourceStore × Option CachedPage =
            (if valid
              then (
                record c { entries = set str_dec url entry (delete str_dec url c.entries) },
                s₁,
                some entry,
              )
              else (record c { entries = delete str_dec url c.entries }, s₁, none)) in
          (r.2 ≡ (if fresh then some entry else none))
          × (get str_dec url r.0.entries ≡ r.2)
          × SameContents s r.1
    go true fresh q = (
      rw (← q) refl,
      ground (arith, get-set str_dec url url entry (delete str_dec url c.entries)),
      (check_keys_lem entry entry.resource_keys s).1,
    )
    go false fresh q = (
      rw (← q) refl,
      ground (arith, get-delete str_dec url url c.entries),
      (check_keys_lem entry entry.resource_keys s).1,
    )

-- A page that is set is found, whatever was evicted, and there are at most `maxPages` pages.
pub set_page_lem :
    (page : PageDescriptor) (resources : Map String String) (manifest : Option PageCacheManifest)
    (c : PageCache)
    → 0 < c.max_pages
    → (get str_dec page.url (set_page page resources manifest c).entries
        ≡ some (cached_page page resources manifest))
      × (size (set_page page resources manifest c).entries ≤ c.max_pages)
unfolding set_page
set_page_lem page resources manifest c p = (
  get-refresh str_dec c.max_pages page.url (cached_page page resources manifest) c.entries p,
  size-trim c.max_pages _,
)
