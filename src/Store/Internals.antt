-- ===== src/Store/Internals.antt =====
-- The private methods of ResourceStore in packages/core/src/store.ts: notification, the LRU order,
-- state snapshots and eviction; and `invalidate`, which eviction calls.
use flux_fast.Shared.{
  ℕ, zero, suc, String, Bool, true, false, ◌&&◌, ◌||◌, not, Option, none, some, List, [], ◌∷◌, ◌++◌,
  map, ltb, bool_eq, if◌then◌else◌, is_some, get_or, length, elem, remove, str_dec,
}
use flux_fast.Shared.JsMap.{get, has, set, delete, size}
use flux_fast.Value.{Value, undefined, same}
use flux_fast.Store.State.{
  ResourceStatus, missing, status_eq, ResourceErrorDetail, missing_resource_state, same_error,
  of_key, of_all, ResourceStore, ResourceRecord, ResourceStateSnapshot,
}

-- `lruOrder.splice(lruOrder.indexOf(key), 1)`, if it is there
abbrev pub remove_from_lru : String → ResourceStore → ResourceStore
remove_from_lru key s = record s { lru_order = remove str_dec key s.lru_order }

abbrev pub touch_lru : String → ResourceStore → ResourceStore
touch_lru key s = record s { lru_order = remove str_dec key s.lru_order ++ key ∷ [] }

-- The key's subscribers in the order of their subscription, then those of the whole store.
unfoldable pub notify : String → ResourceStore → ResourceStore
notify key s = record s {
  calls =
      s.calls
      ++ map (of_key key) (get_or (get str_dec key s.subscribers) [])
      ++ map of_all s.global_subscribers;
}

unfoldable pub invalidate : String → ResourceStore → ResourceStore
unfolding notify
invalidate key s =
    let had_state = has str_dec key s.state_snapshots in
    let had_record = has str_dec key s.records in
    let was_stale = elem str_dec key s.stale_keys in
    let s' = record s {
      records = delete str_dec key s.records;
      stale_keys = remove str_dec key s.stale_keys;
    } in
    if not had_state && not had_record && not was_stale
    then s'
    else notify key
        (remove_from_lru key (record s' { state_snapshots = delete str_dec key s.state_snapshots }))

abbrev pub over_limit : ResourceStore → Bool
over_limit s = ltb s.max_resources (size s.records) || ltb s.max_resources (size s.state_snapshots)

-- The body of the `while` loop of `evictIfNeeded`, and the rounds after it; it returns when
-- `shift()` finds nothing.
unfoldable pub evict_oldest :
    (ResourceStore → ResourceStore) → List String → ResourceStore → ResourceStore
evict_oldest again [] s = s
evict_oldest again (oldest_key ∷ rest) s =
    again (invalidate oldest_key (record s { lru_order = rest }))

-- The loop, with fuel: every round takes one key off the LRU order.
unfoldable pub evict_loop : ℕ → ResourceStore → ResourceStore
unfolding evict_oldest
evict_loop zero s = s
evict_loop (suc fuel) s = elim (over_limit s) [
  | false ↦ s
  | true ↦ evict_oldest (evict_loop fuel) s.lru_order s
]

unfoldable pub evict_if_needed : ResourceStore → ResourceStore
unfolding evict_loop
evict_if_needed s = evict_loop (length s.lru_order) s

-- `this.records.get(key)?.value`
abbrev pub value_of : Option ResourceRecord → Value
value_of none = undefined
value_of (some r) = r.value

-- The snapshot keeps the error object that it holds where the new error is the same.
abbrev pub frozen_error :
    Option ResourceErrorDetail → Option ResourceErrorDetail → Option ResourceErrorDetail
frozen_error current none = none
frozen_error current (some e) =
    if same_error current (some e) && is_some current then current else some e

-- The first test of `updateStateSnapshot`: the snapshot says all this already.
unfoldable pub is_unchanged :
    ResourceStateSnapshot → Value → ResourceStatus → Option ResourceErrorDetail → Bool → Bool
unfolding same same_error status_eq
is_unchanged current value status error stale =
    same current.value value
    && status_eq current.status status
    && same_error current.error error
    && bool_eq current.stale stale

-- The second test: a snapshot with nothing to say.
unfoldable pub is_nothing : Value → ResourceStatus → Option ResourceErrorDetail → Bool → Bool
unfolding same status_eq
is_nothing value status error stale =
    status_eq status missing && same value undefined && not (is_some error) && not stale

abbrev pub drop_snapshot : String → ResourceStore → ResourceStore
drop_snapshot key s =
    let s' = record s { state_snapshots = delete str_dec key s.state_snapshots } in
    if not (has str_dec key s.records) then remove_from_lru key s' else s'

abbrev pub put_snapshot : String → ResourceStateSnapshot → ResourceStore → ResourceStore
put_snapshot key snapshot s =
    touch_lru key (record s { state_snapshots = set str_dec key snapshot s.state_snapshots })

unfoldable pub update_state_snapshot :
    String
    → ResourceStatus
    → Option ResourceErrorDetail
    → Bool
    → ResourceStore
    → ResourceStore × Bool
unfolding is_unchanged is_nothing evict_if_needed
update_state_snapshot key status error stale s =
    let value = value_of (get str_dec key s.records) in
    let current = get_or (get str_dec key s.state_snapshots) missing_resource_state in
    if is_unchanged current value status error stale
    then (s, false)
    else if is_nothing value status error stale
    then (drop_snapshot key s, true)
    else (
      evict_if_needed (
          put_snapshot key
            (record {
              value = value;
              status = status;
              error = frozen_error current.error error;
              stale = stale;
            })
            s),
      true,
    )
