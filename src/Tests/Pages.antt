-- ===== src/Tests/Pages.antt =====
-- Runs of the page cache and of the resource epochs of packages/core/src.
use flux_fast.Shared.{
  ◌≤◌, ◌≡◌, refl, false, none, some, [], ◌∷◌, arith, str_dec, eq_iff, if◌then◌else◌, elem,
}
use flux_fast.Shared.JsMap.{get, size}
use flux_fast.Store.State.{ResourceStore}
use flux_fast.Cache.{PageDescriptor, CachedPage, PageCache, cached_page, set_page, get_valid}
use flux_fast.Cache.Laws.{all_fresh, SameContents, get_valid_lem, set_page_lem}
use flux_fast.Epochs
use flux_fast.Epochs.{ResourceEpoch, ResourceEpochMap, max_resource_epoch_entries}
use flux_fast.Epochs.Laws.{epoch_of, authoritative_of, set_lem}

abbrev store : ResourceStore
store = record {
  records = [];
  subscribers = [];
  global_subscribers = [];
  lru_order = [];
  stale_keys = [];
  state_snapshots = [];
  max_resources = 2;
  calls = [];
}

abbrev page : PageDescriptor
page = record { component = "home/index"; url = "/"; meta = none }

abbrev shown : CachedPage
shown = unfold cached_page in cached_page page (("a", "v1") ∷ []) none

abbrev pages : PageCache
pages = record { entries = ("/", shown) ∷ []; max_pages = 4 }

get_valid_example :
    ((get_valid "/" pages store).2
      ≡ (if all_fresh shown shown.resource_keys store then some shown else none))
    × (get str_dec "/" (get_valid "/" pages store).0.entries ≡ (get_valid "/" pages store).2)
    × SameContents store (get_valid "/" pages store).1
get_valid_example = get_valid_lem "/" pages store shown (unfold get str_dec in refl)

set_page_example :
    (get str_dec "/" (set_page page (("a", "v1") ∷ []) none pages).entries
      ≡ some (cached_page page (("a", "v1") ∷ []) none))
    × (size (set_page page (("a", "v1") ∷ []) none pages).entries ≤ 4)
set_page_example = set_page_lem page (("a", "v1") ∷ []) none pages (omega arith)

abbrev one_epoch : ResourceEpochMap
one_epoch = record {
  entries = ("a", record { epoch = 3; authoritative_epoch = 2; conservative = false }) ∷ [];
  evicted_epoch = 0;
  evicted_authoritative_epoch = 0;
}

abbrev next_epoch : ResourceEpoch
next_epoch = record { epoch = 4; authoritative_epoch = 4; conservative = false }

set_example :
    (size (Epochs.set "b" next_epoch one_epoch).entries ≤ max_resource_epoch_entries)
    × (Epochs.get "b" (Epochs.set "b" next_epoch one_epoch) ≡ some next_epoch)
    × (epoch_of (Epochs.get "a" one_epoch)
        ≤ epoch_of (Epochs.get "a" (Epochs.set "b" next_epoch one_epoch)))
    × (authoritative_of (Epochs.get "a" one_epoch)
        ≤ authoritative_of (Epochs.get "a" (Epochs.set "b" next_epoch one_epoch)))
set_example =
    set_lem "b" "a" next_epoch one_epoch (unfold elem in (refl, tt))
      (record { entries = (omega arith, tt); watermarks = omega arith }) (omega arith)
      (λ e. ground (arith, eq_iff "b" "a"))
