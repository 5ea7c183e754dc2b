-- ===== src/Live/Runs.antt =====
-- Runs of LiveManager in packages/core/src/live/manager.ts: any sequence of method calls, network
-- changes, timer callbacks and rounds of the loop over a connection, and what holds after it.
use flux_fast.Shared.{
  ℕ, ◌≤◌, ◌≡◌, refl, max, sym, ◌<◌, Bool, true, false, ◌||◌, not, Option, none, some, List, [], ◌∷◌,
  is_some, arith, ◌==◌, if◌then◌else◌,
}
use flux_fast.Live.State.{reconnecting, LiveManifest, LiveManager, LiveEvent, new_live_manager}
use flux_fast.Live.Internals.{cancel_reconnect, handle_connection_error}
use flux_fast.Live.Methods.{
  update_manifest, connect, disconnect, reconnect, clear, handle_online, handle_offline,
  timer_fired, received, ended,
}
use flux_fast.Live.Coherence.{wants, branch-IsCoherent, IsCoherent, set_snapshot_lem}
use flux_fast.Live.Steps.{IsWaiting, start_connection-connection}
use flux_fast.Live.Lifecycle.{
  loop_runs, disconnect-IsCoherent, clear-IsCoherent, update_manifest-IsCoherent,
  connect-IsCoherent, reconnect-IsCoherent, handle_online-IsCoherent, timer_fired-IsCoherent,
  handle_offline-IsCoherent, received-IsCoherent, ended-IsCoherent, failed-IsCoherent,
  idle-IsCoherent,
}

-- What can happen to a manager, with what the network and the transport answer, and for the loop
-- over a connection the generation and the attempt that it captured.
pub data LiveStep : Type 0 where
  manifest_replaced : Option ℕ → Bool → Option LiveManifest → LiveStep
  connect_called reconnect_called went_online timer_called : Option ℕ → Bool → LiveStep
  disconnect_called clear_called went_offline : LiveStep
  event_received : ℕ → ℕ → ℕ → LiveEvent → LiveStep
  stream_ended stream_failed : Bool → ℕ → ℕ → LiveStep

abbrev fired : Option ℕ → Option ℕ → Bool → LiveManager → LiveManager
fired none answer online m = m
fired (some attempt) answer online m = timer_fired answer online attempt m

-- A step that cannot happen changes nothing.
unfoldable pub happen : LiveStep → LiveManager → LiveManager
unfolding update_manifest connect disconnect reconnect clear handle_online handle_offline
    timer_fired received ended handle_connection_error
happen (manifest_replaced answer online next) m = update_manifest answer online next m
happen (connect_called answer online) m = connect answer online m
happen (reconnect_called answer online) m = reconnect answer online m
happen (went_online answer online) m =
    if m.network_subscribed then handle_online answer online m else m
happen (timer_called answer online) m = fired m.reconnect_timer answer online m
happen disconnect_called m = disconnect m
happen clear_called m = clear m
happen went_offline m = if m.network_subscribed then handle_offline m else m
happen (event_received now generation attempt event) m =
    if loop_runs generation m then received now generation attempt event m else m
happen (stream_ended online generation attempt) m =
    if loop_runs generation m then ended online generation attempt m else m
happen (stream_failed online generation attempt) m =
    if loop_runs generation m then handle_connection_error online generation m else m

unfoldable pub run : List LiveStep → LiveManager → LiveManager
unfolding happen
run [] m = m
run (step ∷ steps) m = run steps (happen step m)

fired-IsCoherent :
    (timer answer : Option ℕ) (online : Bool) (m : LiveManager)
    → is_some timer ≡ is_some m.reconnect_timer
    → IsCoherent m
    → IsCoherent (fired timer answer online m)
fired-IsCoherent none answer online m e h = h
fired-IsCoherent (some attempt) answer online m e h =
    timer_fired-IsCoherent answer online attempt m (sym e) h

pub happen-IsCoherent :
    (step : LiveStep) (m : LiveManager) → IsCoherent m → IsCoherent (happen step m)
unfolding happen
happen-IsCoherent (manifest_replaced answer online next) m h =
    update_manifest-IsCoherent answer online next m h
happen-IsCoherent (connect_called answer online) m h = connect-IsCoherent answer online m h
happen-IsCoherent (reconnect_called answer online) m h = reconnect-IsCoherent answer online m h
happen-IsCoherent (went_online answer online) m h =
    branch-IsCoherent m.network_subscribed _ _ (λ _. handle_online-IsCoherent answer online m h)
      (λ _. h)
happen-IsCoherent (timer_called answer online) m h =
    fired-IsCoherent m.reconnect_timer answer online m refl h
happen-IsCoherent disconnect_called m h = disconnect-IsCoherent m
happen-IsCoherent clear_called m h = clear-IsCoherent m
happen-IsCoherent went_offline m h =
    branch-IsCoherent m.network_subscribed _ _ (λ _. handle_offline-IsCoherent m h) (λ _. h)
happen-IsCoherent (event_received now generation attempt event) m h =
    branch-IsCoherent (loop_runs generation m) _ _
      (λ r. received-IsCoherent now generation attempt event m r h) (λ _. h)
happen-IsCoherent (stream_ended online generation attempt) m h =
    branch-IsCoherent (loop_runs generation m) _ _
      (λ r. ended-IsCoherent online generation attempt m r h) (λ _. h)
happen-IsCoherent (stream_failed online generation attempt) m h =
    branch-IsCoherent (loop_runs generation m) _ _ (λ r. failed-IsCoherent online generation m r h)
      (λ _. h)

run-IsCoherent : (steps : List LiveStep) (m : LiveManager) → IsCoherent m → IsCoherent (run steps m)
unfolding run
run-IsCoherent [] m h = h
run-IsCoherent (step ∷ steps) m h =
    run-IsCoherent steps (happen step m) (happen-IsCoherent step m h)

-- After any sequence of steps a new manager is coherent: a connection or a reconnect timer is there
-- only for a manager that is wanted and has a manifest and a network subscription, and never both;
-- it shows itself connected only with a connection; and a manager that is wanted and has a manifest
-- is never stuck: it has a connection, waits for its timer, or shows itself offline and watches the
-- network. Listeners are taken not to call the manager back.
pub run_lem : (steps : List LiveStep) → IsCoherent (run steps new_live_manager)
run_lem steps =
    run-IsCoherent steps new_live_manager
      (idle-IsCoherent new_live_manager refl refl refl refl refl)

-- What the loop over a connection of `generation` still does: nothing, whatever it receives and
-- however its stream ends.
abbrev pub IsOver : ℕ → LiveManager → Type 0
IsOver generation m =
    ((now attempt : ℕ) (event : LiveEvent) → received now generation attempt event m ≡ m)
    × ((online : Bool) (attempt : ℕ) → ended online generation attempt m ≡ m)
    × ((online : Bool) → handle_connection_error online generation m ≡ m)

old-IsOver : (generation : ℕ) (m : LiveManager) → generation < m.generation → IsOver generation m
unfolding received ended handle_connection_error
old-IsOver generation m p =
    (λ now attempt event. rw e refl, λ online attempt. rw e refl, λ online. rw e refl)
  where
    e : (generation == m.generation) ≡ false
    e = ground arith

-- For a manager that is wanted and has a manifest: once `disconnect`, `clear` or `handleOffline` has
-- run, the loops over all connections of the generations up to then have no more effect.
pub stop-IsOver :
    (generation : ℕ) (m : LiveManager)
    → generation ≤ m.generation
    → m.desired ≡ true
    → is_some m.manifest ≡ true
    → IsOver generation (disconnect m)
      × IsOver generation (clear m)
      × IsOver generation (handle_offline m)
unfolding disconnect clear handle_offline
stop-IsOver generation m p d f = (
  rw set_snapshot_lem (old-IsOver generation _ (omega arith)),
  rw set_snapshot_lem (old-IsOver generation _ (omega arith)),
  rw (wanted, set_snapshot_lem) (old-IsOver generation _ (omega arith)),
)
  where
    wanted : (not m.desired || not (is_some m.manifest)) ≡ false
    wanted = ground arith

-- A coherent manager that is wanted, has a manifest and has lost its connection gets the next one:
-- when the network is back, or when its timer fires online, the connection with which the transport
-- answers is the manager's, and no timer is left.
pub recover_lem :
    (k : ℕ) (online : Bool) (m : LiveManager)
    → IsCoherent m
    → wants m ≡ true
    → is_some m.connection ≡ false
    → ((handle_online (some k) online m).connection ≡ some k)
      × (is_some (handle_online (some k) online m).reconnect_timer ≡ false)
      × ((attempt : ℕ)
          → m.reconnect_timer ≡ some attempt
          → ((timer_fired (some k) true attempt m).connection ≡ some k)
            × (is_some (timer_fired (some k) true attempt m).reconnect_timer ≡ false))
recover_lem k online m h w c = (
  by_network,
  no_timer _ (handle_online-IsCoherent (some k) online m h) by_network,
  λ attempt t. (
    by_timer attempt,
    no_timer _ (timer_fired-IsCoherent (some k) true attempt m (rw t refl) h) (by_timer attempt),
  ),
)
  where
    no_timer :
        (n : LiveManager) → IsCoherent n → n.connection ≡ some k → is_some n.reconnect_timer ≡ false
    no_timer n i e = ground (arith, i.exclusive)

    guard : (not m.desired || not (is_some m.manifest) || is_some m.connection) ≡ false
    guard = ground arith

    waiting : IsWaiting (cancel_reconnect m)
    waiting = record { wanted = w; subscribed = ground (arith, h.watching); unconnected = c }

    by_network : (handle_online (some k) online m).connection ≡ some k
    by_network =
        unfold handle_online in
        rw guard (
          start_connection-connection k online reconnecting (max 1 m.snapshot.reconnect_attempt)
            (cancel_reconnect m) waiting)

    by_timer : (attempt : ℕ) → (timer_fired (some k) true attempt m).connection ≡ some k
    by_timer attempt =
        unfold timer_fired in
        rw guard
          (start_connection-connection k true reconnecting attempt (cancel_reconnect m) waiting)
