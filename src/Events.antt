-- ===== src/Events.antt =====
-- packages/core/src/events.ts, the class EventEmitter: listeners by event name, in the order in which
-- they were added.
pub mod Laws
use native.Mathlib.Decide.{ℕ_discrete}
use flux_fast.Shared.{
  ℕ, String, Option, none, some, List, [], ◌∷◌, ◌++◌, map, get_or, remove, add, str_dec,
  if◌then◌else◌,
}
use flux_fast.Shared.JsMap.{Map, get, has, set, delete}

-- A listener is a number, and `calls` lists each call that `emit` made, with its payload.
pub record EventEmitter {ℓ} (Payload : Type ℓ) : Type ℓ where
  pub listeners : Map String (List ℕ)
  pub calls : List (ℕ × Payload)

module _ {ℓ} {Payload : Type ℓ} where
  -- The listeners of one event.
  abbrev pub listeners_of : String → EventEmitter Payload → List ℕ
  listeners_of event e = get_or (get str_dec event e.listeners) []

  unfoldable pub on : String → ℕ → EventEmitter Payload → EventEmitter Payload
  on event listener e =
      let e₁ =
        if has str_dec event e.listeners
        then e
        else record e { listeners = set str_dec event [] e.listeners } in
      record e₁ {
        listeners =
            set str_dec event (add ℕ_discrete listener (listeners_of event e₁)) e₁.listeners;
      }

  abbrev pub off_from : Option (List ℕ) → String → ℕ → EventEmitter Payload → EventEmitter Payload
  off_from none event listener e = e
  off_from (some listeners) event listener e = record e {
    listeners = elim (remove ℕ_discrete listener listeners) [
      | [] ↦ delete str_dec event e.listeners
      | left ↦ set str_dec event left e.listeners
    ];
  }

  unfoldable pub off : String → ℕ → EventEmitter Payload → EventEmitter Payload
  off event listener e = off_from (get str_dec event e.listeners) event listener e

  unfoldable pub emit : String → Payload → EventEmitter Payload → EventEmitter Payload
  emit event payload e = record e {
    calls = e.calls ++ map (λ listener. (listener, payload)) (listeners_of event e);
  }

  abbrev pub remove_all_listeners : EventEmitter Payload → EventEmitter Payload
  remove_all_listeners e = record e { listeners = [] }
