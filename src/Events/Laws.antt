-- ===== src/Events/Laws.antt =====
-- Adding a listener to the emitter of packages/core/src/events.ts and taking it off again.
use native.Mathlib.Decide.{ℕ_discrete}
use flux_fast.Shared.{
  ℕ, String, ◌≡◌, refl, ap, ◌∙◌, false, some, [], ite, arith, elem, add, remove, remove-add,
  str_dec, Bool-cases, inl, inr, map, ◌++◌,
}
use flux_fast.Shared.JsMap.{get, has, set, get-set}
use flux_fast.Events.{EventEmitter, listeners_of, on, off, off_from, emit}
use flux_fast.Store.Listeners.{callbacks_of-put}

module _ {ℓ} {Payload : Type ℓ} where
  get-on :
      (event j : String) (l : ℕ) (e : EventEmitter Payload)
      → get str_dec j (on event l e).listeners
        ≡ ite
            (str_dec event j)
            (some (add ℕ_discrete l (listeners_of event e)))
            (get str_dec j e.listeners)
  unfolding on
  get-on event j l e = elim (Bool-cases (has str_dec event e.listeners)) [
    | inl h ↦ rw (h, get-set) refl
    | inr h ↦ rw h (
        ground (
          arith,
          get-set str_dec event event [] e.listeners,
          get-set str_dec event j [] e.listeners,
          get-set str_dec event j (add ℕ_discrete l []) (set str_dec event [] e.listeners),
        ))
  ]

  calls-on : (event : String) (l : ℕ) (e : EventEmitter Payload) → (on event l e).calls ≡ e.calls
  unfolding on
  calls-on event l e = elim (Bool-cases (has str_dec event e.listeners)) [
    | inl h ↦ rw h refl
    | inr h ↦ rw h refl
  ]

  get-on_self :
      (event : String) (l : ℕ) (e : EventEmitter Payload)
      → get str_dec event (on event l e).listeners ≡ some (add ℕ_discrete l (listeners_of event e))
  get-on_self event l e = ground (arith, get-on event event l e)

  listeners_of-off :
      (event j : String) (l : ℕ) (e : EventEmitter Payload)
      → elem ℕ_discrete l (listeners_of event e) ≡ false
      → (d : Dec (event ≡ j))
      → ite d
          (remove ℕ_discrete l (add ℕ_discrete l (listeners_of event e)))
          (listeners_of j (on event l e))
        ≡ listeners_of j e
  listeners_of-off event j l e new (yes p) =
      remove-add ℕ_discrete l (listeners_of event e) new ∙ ap (λ i. listeners_of i e) p
  listeners_of-off event j l e new (no p) = ground (arith, get-on event j l e)

  -- Adding a listener that was not there and taking it off again leaves every later `emit`, of that
  -- event or of another, as it would have been: the same calls in the same order.
  pub on-off :
      (event j : String) (l : ℕ) (payload : Payload) (e : EventEmitter Payload)
      → elem ℕ_discrete l (listeners_of event e) ≡ false
      → (emit j payload (off event l (on event l e))).calls ≡ (emit j payload e).calls
  unfolding emit off
  on-off event j l payload e new =
      rw (get-on_self event l e, off_from, calls-on)
        (ap (λ ls. e.calls ++ map (λ listener. (listener, payload)) ls)
          (callbacks_of-put event j (remove ℕ_discrete l (add ℕ_discrete l (listeners_of event e)))
              (on event l e).listeners
            ∙ listeners_of-off event j l e new (str_dec event j)))
