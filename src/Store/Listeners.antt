-- ===== src/Store/Listeners.antt =====
-- Subscriptions of the ResourceStore of packages/core/src/store.ts, and what they are told.
use native.Mathlib.Decide.{ℕ_discrete}
use flux_fast.Shared.{
  String, ◌≡◌, ap, ◌∙◌, false, some, List, [], ◌∷◌, ite, arith, elem, add, remove, remove-add,
  str_dec, get_or,
}
use flux_fast.Shared.JsMap.{Map, get, set, delete, get-set, get-delete}
use flux_fast.Store.State.{Callback, ResourceStore}
use flux_fast.Store.Internals.{notify}
use flux_fast.Store.Operations.{subscribe, unsubscribe, unsubscribe_from}

-- The callbacks of one key.
abbrev pub callbacks_of : String → Map String (List Callback) → List Callback
callbacks_of k m = get_or (get str_dec k m) []

pub callbacks_of-put :
    (k j : String) (l : List Callback) (m : Map String (List Callback))
    → callbacks_of j (elim l [ [] ↦ delete str_dec k m | left ↦ set str_dec k left m ])
      ≡ ite (str_dec k j) l (callbacks_of j m)
callbacks_of-put k j [] m = ground (arith, get-delete str_dec k j m)
callbacks_of-put k j (c ∷ l) m = ground (arith, get-set str_dec k j (c ∷ l) m)

subscribers-unsubscribe :
    (k j : String) (c : Callback) (s : ResourceStore) (l : List Callback)
    → get str_dec k s.subscribers ≡ some l
    → callbacks_of j (unsubscribe k c s).subscribers
      ≡ ite (str_dec k j) (remove ℕ_discrete c l) (callbacks_of j s.subscribers)
unfolding unsubscribe
subscribers-unsubscribe k j c s l e =
    rw (e, unsubscribe_from) (callbacks_of-put k j (remove ℕ_discrete c l) s.subscribers)

callbacks_of-round_trip :
    (k j : String) (c : Callback) (s : ResourceStore)
    → elem ℕ_discrete c (callbacks_of k s.subscribers) ≡ false
    → callbacks_of j (unsubscribe k c (subscribe k c s)).subscribers ≡ callbacks_of j s.subscribers
callbacks_of-round_trip k j c s new =
    subscribers-unsubscribe k j c (subscribe k c s)
      (add ℕ_discrete c (callbacks_of k s.subscribers))
      (unfold subscribe in
        ground (
          arith,
          get-set str_dec k k (add ℕ_discrete c (callbacks_of k s.subscribers)) s.subscribers,
        ))
    ∙ both (str_dec k j)
  where
    both :
        (d : Dec (k ≡ j))
        → ite d
            (remove ℕ_discrete c (add ℕ_discrete c (callbacks_of k s.subscribers)))
            (callbacks_of j (subscribe k c s).subscribers)
          ≡ callbacks_of j s.subscribers
    both (yes p) =
        remove-add ℕ_discrete c (callbacks_of k s.subscribers) new
        ∙ ap (λ i. callbacks_of i s.subscribers) p
    both (no p) =
        unfold subscribe in
        ground (
          arith,
          get-set str_dec k j (add ℕ_discrete c (callbacks_of k s.subscribers)) s.subscribers,
        )

-- The calls that `notify` makes read the subscribers of the key only.
calls-notify :
    (j : String) (s t : ResourceStore)
    → s.calls ≡ t.calls
    → s.global_subscribers ≡ t.global_subscribers
    → callbacks_of j s.subscribers ≡ callbacks_of j t.subscribers
    → (notify j s).calls ≡ (notify j t).calls
unfolding notify
calls-notify j s t a b c = cc

-- Subscribing a new callback to a key and unsubscribing it again leaves every later notification, of
-- that key or of another, as it would have been: the same callbacks in the same order.
pub subscribe-unsubscribe :
    (k j : String) (c : Callback) (s : ResourceStore)
    → elem ℕ_discrete c (get_or (get str_dec k s.subscribers) []) ≡ false
    → (notify j (unsubscribe k c (subscribe k c s))).calls ≡ (notify j s).calls
subscribe-unsubscribe k j c s new =
    calls-notify j (unsubscribe k c (subscribe k c s)) s (same.0) (same.1)
      (callbacks_of-round_trip k j c s new)
  where
    same :
        ((unsubscribe k c (subscribe k c s)).calls ≡ s.calls)
        × ((unsubscribe k c (subscribe k c s)).global_subscribers ≡ s.global_subscribers)
    same = unfold subscribe unsubscribe in ground arith
