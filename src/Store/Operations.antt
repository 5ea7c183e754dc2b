-- ===== src/Store/Operations.antt =====
-- The public methods of ResourceStore in packages/core/src/store.ts. A method returns the new store,
-- with its result where it has one. `now` is what `Date.now()` answers.
use flux_fast.Shared.{
  ℕ, String, Bool, true, false, ◌&&◌, ◌||◌, not, Option, none, some, List, [], if◌then◌else◌,
  is_some, get_or, elem, remove, add, str_dec, str_eq, ltb,
}
use native.Mathlib.Decide.{ℕ_discrete}
use flux_fast.Shared.JsMap.{get, has, set, delete}
use flux_fast.Value.{Value}
use flux_fast.Store.State.{
  ResourceRecord, ready, status_eq, ResourceStateSnapshot, missing_resource_state, Callback,
  ResourceStore,
}
use flux_fast.Store.Internals.{touch_lru, notify, value_of, evict_if_needed, update_state_snapshot}

-- The constructor; `none` is its RangeError.
unfoldable pub new_store : Option ℕ → Option ResourceStore
new_store options =
    let max_resources = get_or options 128 in
    if ltb 0 max_resources
    then some (record {
      records = [];
      subscribers = [];
      global_subscribers = [];
      lru_order = [];
      stale_keys = [];
      state_snapshots = [];
      max_resources = max_resources;
      calls = [];
    })
    else none

unfoldable pub subscribe : String → Callback → ResourceStore → ResourceStore
subscribe key callback s =
    let callbacks = get_or (get str_dec key s.subscribers) [] in
    record s { subscribers = set str_dec key (add ℕ_discrete callback callbacks) s.subscribers }

-- What the function that `subscribe` returned does, with the set that it finds.
unfoldable pub unsubscribe_from :
    Option (List Callback) → String → Callback → ResourceStore → ResourceStore
unsubscribe_from none key callback s = s
unsubscribe_from (some callbacks) key callback s = record s {
  subscribers = elim (remove ℕ_discrete callback callbacks) [
    | [] ↦ delete str_dec key s.subscribers
    | left ↦ set str_dec key left s.subscribers
  ];
}

unfoldable pub unsubscribe : String → Callback → ResourceStore → ResourceStore
unfolding unsubscribe_from
unsubscribe key callback s = unsubscribe_from (get str_dec key s.subscribers) key callback s

unfoldable pub subscribe_all : Callback → ResourceStore → ResourceStore
subscribe_all callback s = record s {
  global_subscribers = add ℕ_discrete callback s.global_subscribers;
}

unfoldable pub unsubscribe_all : Callback → ResourceStore → ResourceStore
unsubscribe_all callback s = record s {
  global_subscribers = remove ℕ_discrete callback s.global_subscribers;
}

unfoldable pub get_snapshot : String → ResourceStore → ResourceStore × Value
get_snapshot key s =
    let rec = get str_dec key s.records in
    ((if is_some rec then touch_lru key s else s), value_of rec)

unfoldable pub get_server_snapshot : String → ResourceStore → Value
get_server_snapshot key s = value_of (get str_dec key s.records)

unfoldable pub get_state_snapshot : String → ResourceStore → ResourceStore × ResourceStateSnapshot
get_state_snapshot key s = (
  (if has str_dec key s.records || has str_dec key s.state_snapshots then touch_lru key s else s),
  get_or (get str_dec key s.state_snapshots) missing_resource_state,
)

unfoldable pub get_record : String → ResourceStore → ResourceStore × Option ResourceRecord
get_record key s =
    let rec = get str_dec key s.records in ((if is_some rec then touch_lru key s else s), rec)

abbrev pub is_stale : String → ResourceStore → Bool
is_stale key s = elem str_dec key s.stale_keys

-- The test of `set` for a record that is already there.
abbrev pub up_to_date : Option ResourceRecord → String → Bool → ResourceStateSnapshot → Bool
up_to_date none version stale current = false
up_to_date (some existing) version stale current =
    str_eq existing.version version
    && not stale
    && status_eq current.status ready
    && not (is_some current.error)

unfoldable pub set_record : ℕ → String → String → Value → ResourceStore → ResourceStore × Bool
set_record now key version value s =
    let existing = get str_dec key s.records in
    let (s₁, current) = get_state_snapshot key s in
    if up_to_date existing version (is_stale key s₁) current
    then (touch_lru key s₁, false)
    else let new_record : ResourceRecord = record {
      key = key;
      version = version;
      value = value;
      updated_at = now;
    } in
      let s₂ = record s₁ {
        records = set str_dec key new_record s₁.records;
        stale_keys = remove str_dec key s₁.stale_keys;
      } in
      let s₃ = (update_state_snapshot key ready none false s₂).0 in
      (notify key (evict_if_needed (touch_lru key s₃)), true)
