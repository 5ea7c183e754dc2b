-- ===== src/Tests/Store.antt =====
-- Runs of the resource store of packages/core/src/store.ts.
use native.Mathlib.Decide.{ℕ_discrete}
use flux_fast.Shared.{
  String, ◌≤◌, ◌≡◌, refl, none, some, List, [], ◌∷◌, ◌++◌, arith, elem, remove, add, str_dec,
  to_string,
}
use flux_fast.Shared.JsMap.{get, set, delete, size}
use flux_fast.Value.{num, null, same}
use flux_fast.Store.State.{status_eq, same_error, of_key, of_all, ResourceStore}
use flux_fast.Store.Internals.{
  notify, invalidate, evict_oldest, evict_loop, evict_if_needed, is_unchanged, is_nothing,
  update_state_snapshot,
}
use flux_fast.Store.Operations
use flux_fast.Store.Operations.{new_store, set_record, get_state_snapshot, get_record}
use flux_fast.Store.Changes
use flux_fast.Store.Changes.{
  Limit, safe_limit, export_known_versions, known_versions, mark, apply_patches, patched_version,
}
use flux_fast.Store.Validity.{IsConsistent, IsValid}
use flux_fast.Store.Reachable.{StoreCall, perform, perform_all, reachable-IsValid}
use flux_fast.Store.Reads.{Holds, set_record-Holds}
use flux_fast.Store.Known.{IsKnown, export_known_versions-IsKnown}
use flux_fast.Store.Order.{Evicts, evict_if_needed-Evicts}
use flux_fast.Store.Listeners.{subscribe-unsubscribe}

-- Every definition that a run of the store computes with.
program : Unit {0}
unfolding get set delete elem remove add str_dec ℕ_discrete same status_eq same_error notify
    invalidate evict_oldest evict_loop evict_if_needed is_unchanged is_nothing update_state_snapshot
    new_store set_record get_state_snapshot get_record known_versions export_known_versions mark
    perform perform_all Operations.subscribe Operations.unsubscribe Operations.unsubscribe_from
    Operations.subscribe_all Operations.unsubscribe_all Operations.get_snapshot Changes.set_many
    Changes.mark_pending Changes.mark_loading Changes.set_resource_error
    Changes.clear_resource_error Changes.patch Changes.mark_stale Changes.notify_each Changes.clear
    to_string patched_version apply_patches
program = tt

abbrev empty : ResourceStore
empty = record {
  records = [];
  subscribers = [];
  global_subscribers = [];
  lru_order = [];
  stale_keys = [];
  state_snapshots = [];
  max_resources = 2;
  calls = [];
}

new_store_two : new_store (some 2) ≡ some empty
unfolding program
new_store_two = refl

new_store_zero : new_store (some 0) ≡ none
unfolding program
new_store_zero = refl

-- Three resources in a store for two: the first goes, unless it is read in between.
abbrev three : List StoreCall
three =
    StoreCall.set 10 "a" "v1" (num "1")
    ∷ StoreCall.set 11 "b" "v1" (num "2")
    ∷ StoreCall.get_record "a"
    ∷ StoreCall.set 12 "c" "v1" (num "3")
    ∷ []

three_order : (perform_all three empty).lru_order ≡ "a" ∷ "c" ∷ []
unfolding program
three_order = refl

known_after : export_known_versions (Limit.finite 1) (perform_all three empty) ≡ ("c", "v1") ∷ []
unfolding program
known_after = refl

stale_unknown :
    export_known_versions Limit.not_finite
      (perform_all (three ++ StoreCall.mark_stale "a" ∷ []) empty)
    ≡ ("c", "v1") ∷ []
unfolding program
stale_unknown = refl

told :
    (perform_all
      (StoreCall.subscribe "a" 7
        ∷ StoreCall.subscribe_all 8
        ∷ StoreCall.mark_loading ("a" ∷ [])
        ∷ StoreCall.mark_loading ("a" ∷ [])
        ∷ [])
      empty).calls
    ≡ of_key "a" 7 ∷ of_all 8 ∷ []
unfolding program
told = refl

abbrev used : ResourceStore
used = perform_all three empty

used-IsValid : IsValid used
used-IsValid = reachable-IsValid (some 2) empty three new_store_two

reachable-IsValid_example : IsValid (perform_all three empty)
reachable-IsValid_example = reachable-IsValid (some 2) empty three new_store_two

set_record-Holds_example :
    Holds 13 "d" "v1" null (set_record 13 "d" "v1" null used).0 (set_record 13 "d" "v1" null used).1
set_record-Holds_example = set_record-Holds 13 "d" "v1" null used used-IsValid

-- The store with room for one resource less.
abbrev crowded : ResourceStore
crowded = record used { max_resources = 1 }

crowded-IsConsistent : IsConsistent crowded
crowded-IsConsistent = record {
  shaped = record {
    positive = omega arith;
    lru_order = used-IsValid.consistent.shaped.lru_order;
    stale_keys = used-IsValid.consistent.shaped.stale_keys;
    records = used-IsValid.consistent.shaped.records;
    state_snapshots = used-IsValid.consistent.shaped.state_snapshots;
  };
  agree = used-IsValid.consistent.agree;
}

evict_if_needed-Evicts_example :
    Evicts crowded (evict_if_needed crowded) × IsValid (evict_if_needed crowded)
evict_if_needed-Evicts_example = evict_if_needed-Evicts crowded crowded-IsConsistent

export_known_versions-IsKnown_example :
    ((key version : String)
      → get str_dec key (export_known_versions (Limit.finite 1) used) ≡ some version
      → IsKnown used key version)
    × (size (export_known_versions (Limit.finite 1) used) ≤ 1)
    × (size (export_known_versions (Limit.finite 1) used) ≤ 100)
export_known_versions-IsKnown_example = export_known_versions-IsKnown (Limit.finite 1) used

subscribe-unsubscribe_example :
    (notify "a" (Operations.unsubscribe "a" 9 (Operations.subscribe "a" 9 used))).calls
    ≡ (notify "a" used).calls
subscribe-unsubscribe_example = subscribe-unsubscribe "a" "a" 9 used (unfold program in refl)
