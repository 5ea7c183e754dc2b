-- ===== src/Cache/Bounds.antt =====
-- The page cache of packages/core/src/cache.ts keeps its limit, and its reads keep the store valid.
use flux_fast.Shared.{
  ◌≤◌, ◌<◌, String, ◌≡◌, Bool, true, false, not, Option, none, some, List, [], ◌∷◌, arith, elem,
  str_dec, either_branch, Option-cases, inl, inr, if◌then◌else◌,
}
use flux_fast.Shared.JsMap.{Map, get, set, delete, size, size-trim, size-delete-le, size-refresh-le}
use flux_fast.Store.State.{error, status_eq, ResourceStore, ResourceRecord, ResourceStateSnapshot}
use flux_fast.Store.Validity.{IsValid}
use flux_fast.Store.Operations.{get_record, get_state_snapshot, is_stale}
use flux_fast.Store.Methods.{get_record-IsValid, get_state_snapshot-IsValid}
use flux_fast.Store.Changes.{union}
use flux_fast.Cache.{
  PageDescriptor, CachedPage, PageCacheManifest, PageCache, set_page, check_key, check_keys,
  is_inherited, get_valid, Settlement, settle_key, settle_keys, settled_page, settle_resources,
  clear_pages,
}

pub record IsPages (c : PageCache) : Type 0 where
  pub positive : 0 < c.max_pages
  pub fits : size c.entries ≤ c.max_pages

pub set_page-IsPages :
    (page : PageDescriptor) (resources : Map String String) (manifest : Option PageCacheManifest)
    (c : PageCache)
    → IsPages c
    → IsPages (set_page page resources manifest c)
unfolding set_page
set_page-IsPages page resources manifest c h = record {
  positive = h.positive;
  fits = size-trim c.max_pages _;
}

pub clear_pages-IsPages : (c : PageCache) → IsPages c → IsPages (clear_pages c)
unfolding clear_pages
clear_pages-IsPages c h = record { positive = h.positive; fits = omega (arith, h.positive) }

check_key-IsValid :
    (o : Option String) (key : String) (s : ResourceStore)
    → IsValid s
    → IsValid (check_key o key s).0
unfolding check_key
check_key-IsValid (some v) key s h = get_record-IsValid key s h
check_key-IsValid none key s h =
    either_branch (λ (r : ResourceStore × Bool). IsValid r.0) (is_inherited key)
      ((get_record key s).0, false)
      ((get_state_snapshot key s).0, status_eq (get_state_snapshot key s).1.status error)
      (get_record-IsValid key s h) (get_state_snapshot-IsValid key s h)

check_keys-IsValid :
    (entry : CachedPage) (ks : List String) (s : ResourceStore)
    → IsValid s
    → IsValid (check_keys entry ks s).0
unfolding check_keys
check_keys-IsValid entry [] s h = h
check_keys-IsValid entry (key ∷ ks) s h =
    go (elem str_dec key entry.pending_deferred)
      (check_key (get str_dec key entry.resources) key s).1 (check_keys-IsValid entry ks s h)
      (check_keys-IsValid entry ks _ (check_key-IsValid (get str_dec key entry.resources) key s h))
      (check_key-IsValid (get str_dec key entry.resources) key s h)
  where
    go :
        (pending fine : Bool)
        → IsValid (check_keys entry ks s).0
        → IsValid (check_keys entry ks (check_key (get str_dec key entry.resources) key s).0).0
        → IsValid (check_key (get str_dec key entry.resources) key s).0
        → IsValid
            (if pending
              then check_keys entry ks s
              else if fine
              then check_keys entry ks (check_key (get str_dec key entry.resources) key s).0
              else ((check_key (get str_dec key entry.resources) key s).0, false)).0
    go true fine p q r = p
    go false true p q r = q
    go false false p q r = r

settle_keys-IsValid :
    (owned ks : List String) (t : Settlement) (s : ResourceStore)
    → IsValid s
    → IsValid (settle_keys owned ks t s).0
unfolding settle_keys
settle_keys-IsValid owned [] t s h = h
settle_keys-IsValid owned (key ∷ ks) t s h =
    go (elem str_dec key owned) (settle_key key rec.1 state.1.status (is_stale key rec.0) t)
      (settle_keys-IsValid owned ks t s h) (λ t'. settle_keys-IsValid owned ks t' rec.0 valid) valid
  where
    state : ResourceStore × ResourceStateSnapshot
    state = get_state_snapshot key s

    rec : ResourceStore × Option ResourceRecord
    rec = get_record key state.0

    valid : IsValid rec.0
    valid = get_record-IsValid key state.0 (get_state_snapshot-IsValid key s h)

    go :
        (mine : Bool) (o : Option Settlement)
        → IsValid (settle_keys owned ks t s).0
        → ((t' : Settlement) → IsValid (settle_keys owned ks t' rec.0).0)
        → IsValid rec.0
        → IsValid
            (if not mine
              then settle_keys owned ks t s
              else elim o [ none ↦ (rec.0, none) | some t' ↦ settle_keys owned ks t' rec.0 ]).0
    go false o p q r = p
    go true none p q r = r
    go true (some t') p q r = q t'

-- A page that is there moves to the end, perhaps changed; a page that goes leaves room.
moved-IsPages :
    (url : String) (old new : CachedPage) (c : PageCache)
    → get str_dec url c.entries ≡ some old
    → IsPages c
    → IsPages (record c { entries = set str_dec url new (delete str_dec url c.entries) })
moved-IsPages url old new c e p = record {
  positive = p.positive;
  fits = omega (arith, p.fits, size-refresh-le str_dec url old new c.entries e);
}

dropped-IsPages :
    (url : String) (c : PageCache)
    → IsPages c
    → IsPages (record c { entries = delete str_dec url c.entries })
dropped-IsPages url c p = record {
  positive = p.positive;
  fits = omega (arith, p.fits, size-delete-le str_dec url c.entries);
}

pub get_valid-keeps :
    (url : String) (c : PageCache) (s : ResourceStore)
    → IsPages c
    → IsValid s
    → IsPages (get_valid url c s).0 × IsValid (get_valid url c s).1
unfolding get_valid
get_valid-keeps url c s p v = elim (Option-cases (get str_dec url c.entries)) [
  | inl e ↦ rw (e, get_valid) (p, v)
  | inr (entry, e) ↦
      rw (e, get_valid)
        (either_branch
          (λ (r : PageCache × ResourceStore × Option CachedPage). IsPages r.0 × IsValid r.1) _ _ _
          (moved-IsPages url entry entry c e p, check_keys-IsValid entry entry.resource_keys s v)
          (dropped-IsPages url c p, check_keys-IsValid entry entry.resource_keys s v))
]

pub settle_resources-keeps :
    (url : String) (ks : List String) (c : PageCache) (s : ResourceStore)
    → IsPages c
    → IsValid s
    → IsPages (settle_resources url ks c s).0 × IsValid (settle_resources url ks c s).1
unfolding settle_resources
settle_resources-keeps url ks c s p v = elim (Option-cases (get str_dec url c.entries)) [
  | inl e ↦ rw (e, settle_resources) (p, v)
  | inr (entry, e) ↦
      rw (e, settle_resources)
        (go entry e
          (settle_keys entry.resource_keys ks
            (record { versions = entry.resources; still_pending = union [] entry.pending_deferred })
            s)
          (settle_keys-IsValid entry.resource_keys ks _ s v))
]
  where
    go :
        (entry : CachedPage)
        → get str_dec url c.entries ≡ some entry
        → (r : ResourceStore × Option Settlement) → IsValid r.0
        → IsPages (settled_page url entry c r).0 × IsValid (settled_page url entry c r).1
    go entry e (s', none) h = (dropped-IsPages url c p, h)
    go entry e (s', some t) h = (moved-IsPages url entry _ c e p, h)
