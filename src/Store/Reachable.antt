-- ===== src/Store/Reachable.antt =====
-- Every way to use the ResourceStore of packages/core/src/store.ts, as a list of calls, and what
-- holds of every store that such a list reaches.
use flux_fast.Shared.{
  ℕ, String, ◌≡◌, ◌<◌, inl, inr, Option, none, some, List, [], ◌∷◌, arith, elem, str_dec, refl,
  subst, Bool-cases, ltb, get_or,
}
use mathlib.Core.Option.{some-injective}
use flux_fast.Shared.JsMap.{get, keys}
use flux_fast.Value.{Value}
use flux_fast.Mutation.{ResourcePatch}
use flux_fast.Store.State.{ResourceErrorDetail, Callback, ResourceStore}
use flux_fast.Store.Internals
use flux_fast.Store.Internals.{notify}
use flux_fast.Store.Operations
use flux_fast.Store.Operations.{new_store, set_record}
use flux_fast.Store.Changes
use flux_fast.Store.Changes.{ResourceWireRecord, notify_each}
use flux_fast.Store.Validity.{IsValid}
use flux_fast.Store.Methods.{
  listeners-IsValid, notify-IsValid, invalidate-IsValid, get_snapshot-IsValid,
  get_state_snapshot-IsValid, get_record-IsValid,
}
use flux_fast.Store.Writes.{set_record-IsValid}
use flux_fast.Store.Marks.{mark_pending-IsValid, mark_loading-IsValid, set_resource_error-IsValid}
use flux_fast.Store.Patches.{patch-IsValid, clear_resource_error-IsValid, mark_stale-IsValid}

-- A public method with its arguments; the clock's readings and the first free reference are among
-- them.
pub data StoreCall : Type 0 where
  subscribe unsubscribe : String → Callback → StoreCall
  subscribe_all unsubscribe_all : Callback → StoreCall
  get_snapshot get_state_snapshot get_record : String → StoreCall
  set : ℕ → String → String → Value → StoreCall
  set_many : ℕ → List (String × ResourceWireRecord) → StoreCall
  mark_pending mark_loading : List String → StoreCall
  set_resource_error : String → ResourceErrorDetail → StoreCall
  clear_resource_error : String → StoreCall
  patch : ℕ → ℕ → ℕ → String → List ResourcePatch → StoreCall
  invalidate mark_stale : String → StoreCall
  clear : StoreCall

unfoldable pub perform : StoreCall → ResourceStore → ResourceStore
perform (subscribe key callback) s = Operations.subscribe key callback s
perform (unsubscribe key callback) s = Operations.unsubscribe key callback s
perform (subscribe_all callback) s = Operations.subscribe_all callback s
perform (unsubscribe_all callback) s = Operations.unsubscribe_all callback s
perform (get_snapshot key) s = (Operations.get_snapshot key s).0
perform (get_state_snapshot key) s = (Operations.get_state_snapshot key s).0
perform (get_record key) s = (Operations.get_record key s).0
perform (set now key version value) s = (set_record now key version value s).0
perform (set_many now resources) s = (Changes.set_many now resources s).0
perform (mark_pending keys) s = Changes.mark_pending keys s
perform (mark_loading keys) s = Changes.mark_loading keys s
perform (set_resource_error key problem) s = Changes.set_resource_error key problem s
perform (clear_resource_error key) s = Changes.clear_resource_error key s
perform (patch now later fresh key patches) s = (Changes.patch now later fresh key patches s).0
perform (invalidate key) s = Internals.invalidate key s
perform (mark_stale key) s = Changes.mark_stale key s
perform clear s = Changes.clear s

unfoldable pub perform_all : List StoreCall → ResourceStore → ResourceStore
unfolding perform
perform_all [] s = s
perform_all (c ∷ cs) s = perform_all cs (perform c s)

pub set_many-IsValid :
    (now : ℕ) (rs : List (String × ResourceWireRecord)) (s : ResourceStore)
    → IsValid s
    → IsValid (Changes.set_many now rs s).0
unfolding Changes.set_many
set_many-IsValid now [] s h = h
set_many-IsValid now ((key, wire) ∷ rs) s h =
    set_many-IsValid now rs _ (set_record-IsValid key s h now wire.version wire.value)

notify_each-IsValid :
    (ks : List String) (s : ResourceStore) → IsValid s → IsValid (notify_each ks s)
unfolding notify_each
notify_each-IsValid [] s h = h
notify_each-IsValid (k ∷ ks) s h = notify_each-IsValid ks (notify k s) (notify-IsValid k s h)

-- A store with nothing in it.
empty-IsValid :
    (s : ResourceStore)
    → 0 < s.max_resources
    → IsValid (record s { records = []; stale_keys = []; state_snapshots = []; lru_order = [] })
unfolding get elem
empty-IsValid s h = record {
  consistent = record {
    shaped = record {
      positive = h;
      lru_order = tt;
      stale_keys = tt;
      records = tt;
      state_snapshots = tt;
    };
    agree = λ k. (refl, refl);
  };
  fits = record { records = omega arith; state_snapshots = omega arith };
}

pub clear-IsValid : (s : ResourceStore) → IsValid s → IsValid (Changes.clear s)
unfolding Changes.clear
clear-IsValid s h =
    notify_each-IsValid
      (Changes.union (Changes.union (Changes.union [] (keys s.records)) (keys s.state_snapshots))
        s.stale_keys)
      _ (empty-IsValid s h.consistent.shaped.positive)

unsubscribe-IsValid :
    (k : String) (c : Callback) (s : ResourceStore)
    → IsValid s
    → IsValid (Operations.unsubscribe k c s)
unfolding Operations.unsubscribe
unsubscribe-IsValid k c s h = go (get str_dec k s.subscribers)
  where
    go : (o : Option (List Callback)) → IsValid (Operations.unsubscribe_from o k c s)
    go none = h
    go (some callbacks) = listeners-IsValid s _ s.global_subscribers s.calls h

pub perform-IsValid : (c : StoreCall) (s : ResourceStore) → IsValid s → IsValid (perform c s)
unfolding perform
perform-IsValid (subscribe k c) s h =
    unfold Operations.subscribe in listeners-IsValid s _ s.global_subscribers s.calls h
perform-IsValid (unsubscribe k c) s h = unsubscribe-IsValid k c s h
perform-IsValid (subscribe_all c) s h =
    unfold Operations.subscribe_all in listeners-IsValid s s.subscribers _ s.calls h
perform-IsValid (unsubscribe_all c) s h =
    unfold Operations.unsubscribe_all in listeners-IsValid s s.subscribers _ s.calls h
perform-IsValid (get_snapshot k) s h = get_snapshot-IsValid k s h
perform-IsValid (get_state_snapshot k) s h = get_state_snapshot-IsValid k s h
perform-IsValid (get_record k) s h = get_record-IsValid k s h
perform-IsValid (set now k version value) s h = set_record-IsValid k s h now version value
perform-IsValid (set_many now rs) s h = set_many-IsValid now rs s h
perform-IsValid (mark_pending ks) s h = mark_pending-IsValid ks s h
perform-IsValid (mark_loading ks) s h = mark_loading-IsValid ks s h
perform-IsValid (set_resource_error k e) s h = set_resource_error-IsValid k e s h
perform-IsValid (clear_resource_error k) s h = clear_resource_error-IsValid k s h
perform-IsValid (patch now later fresh k ps) s h = patch-IsValid k s h now later fresh ps
perform-IsValid (invalidate k) s h = invalidate-IsValid k s h
perform-IsValid (mark_stale k) s h = mark_stale-IsValid k s h
perform-IsValid clear s h = clear-IsValid s h

perform_all-IsValid :
    (cs : List StoreCall) (s : ResourceStore) → IsValid s → IsValid (perform_all cs s)
unfolding perform_all
perform_all-IsValid [] s h = h
perform_all-IsValid (c ∷ cs) s h = perform_all-IsValid cs (perform c s) (perform-IsValid c s h)

pub new_store-IsValid :
    (options : Option ℕ) (s : ResourceStore) → new_store options ≡ some s → IsValid s
unfolding new_store
new_store-IsValid options s e = elim (Bool-cases (ltb 0 (get_or options 128))) [
  | inr low ↦ absurd (ground arith)
  | inl high ↦ subst IsValid (some-injective _ _ (rw high at e)) (
      empty-IsValid
        (record {
          records = [];
          subscribers = [];
          global_subscribers = [];
          lru_order = [];
          stale_keys = [];
          state_snapshots = [];
          max_resources = get_or options 128;
          calls = [];
        })
        (ground arith))
]

-- Every store that the constructor and any calls of the public methods reach is valid: its records,
-- snapshots, stale keys and LRU order agree on every key, and neither the records nor the snapshots
-- are more than `maxResources`. Subscribers are taken not to call the store back.
pub reachable-IsValid :
    (options : Option ℕ) (s : ResourceStore) (cs : List StoreCall)
    → new_store options ≡ some s
    → IsValid (perform_all cs s)
reachable-IsValid options s cs e = perform_all-IsValid cs s (new_store-IsValid options s e)
