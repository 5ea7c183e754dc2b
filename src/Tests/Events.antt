-- ===== src/Tests/Events.antt =====
-- Runs of the emitter of packages/core/src/events.ts.
use flux_fast.Shared.{String, ◌≡◌, refl, [], ◌∷◌, elem, str_dec}
use flux_fast.Shared.JsMap.{get}
use native.Mathlib.Decide.{ℕ_discrete}
use flux_fast.Events.{EventEmitter, on, off, emit}
use flux_fast.Events.Laws.{on-off}

abbrev emitter : EventEmitter String
emitter = record { listeners = ("cache:hit", 1 ∷ 2 ∷ []) ∷ []; calls = [] }

both_called : (emit "cache:hit" "rooms" emitter).calls ≡ (1, "rooms") ∷ (2, "rooms") ∷ []
unfolding emit get str_dec
both_called = refl

on-off_example :
    (emit "cache:hit" "rooms" (off "cache:hit" 3 (on "cache:hit" 3 emitter))).calls
    ≡ (emit "cache:hit" "rooms" emitter).calls
unfolding elem get str_dec ℕ_discrete
on-off_example = on-off "cache:hit" "cache:hit" 3 "rooms" emitter refl
