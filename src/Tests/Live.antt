-- ===== src/Tests/Live.antt =====
-- Runs of the live connection of packages/core/src/live/manager.ts.
use flux_fast.Shared.{ℕ, ◌≡◌, refl, true, false, none, some, List, [], ◌∷◌, arith, is_some}
use flux_fast.Live.State.{
  same_snapshot, LiveManifest, LiveManager, ready, invalidate, error, offline, new_live_manager,
}
use flux_fast.Live.Methods.{disconnect, clear, handle_offline, handle_online, timer_fired}
use flux_fast.Live.Coherence.{IsCoherent}
use flux_fast.Live.Runs.{
  LiveStep, manifest_replaced, connect_called, event_received, stream_failed, timer_called,
  went_offline, run, run_lem, IsOver, stop-IsOver, recover_lem,
}

abbrev manifest : LiveManifest
manifest = record { url = "/rooms"; keys = "rooms" ∷ [] }

-- A page is shown and connected, the connection is ready, and it breaks.
abbrev broken : List LiveStep
broken =
    manifest_replaced none true (some manifest)
    ∷ connect_called (some 7) true
    ∷ event_received 10 2 0 (ready ("rooms" ∷ []))
    ∷ event_received 11 2 0 (invalidate ("rooms" ∷ []) none)
    ∷ stream_failed true 2 0
    ∷ []

abbrev waiting : LiveManager
waiting = run broken new_live_manager

waiting_timer : waiting.reconnect_timer ≡ some 1
unfolding run same_snapshot
waiting_timer = refl

waiting_status : waiting.snapshot.status ≡ error
unfolding run same_snapshot
waiting_status = refl

retried : (run (timer_called (some 8) true ∷ went_offline ∷ []) waiting).snapshot.status ≡ offline
unfolding run same_snapshot
retried = refl

run_example : IsCoherent (run broken new_live_manager)
run_example = run_lem broken

stop-IsOver_example :
    IsOver 2 (disconnect waiting) × IsOver 2 (clear waiting) × IsOver 2 (handle_offline waiting)
stop-IsOver_example =
    stop-IsOver 2 waiting (unfold run same_snapshot in omega arith)
      (unfold run same_snapshot in refl) (unfold run same_snapshot in refl)

recover_example :
    ((handle_online (some 9) true waiting).connection ≡ some 9)
    × (is_some (handle_online (some 9) true waiting).reconnect_timer ≡ false)
    × ((attempt : ℕ)
        → waiting.reconnect_timer ≡ some attempt
        → ((timer_fired (some 9) true attempt waiting).connection ≡ some 9)
          × (is_some (timer_fired (some 9) true attempt waiting).reconnect_timer ≡ false))
recover_example =
    recover_lem 9 true waiting (run_lem broken) (unfold run same_snapshot in refl)
      (unfold run same_snapshot in refl)
