-- ===== src/Live/Methods.antt =====
-- The methods of LiveManager in packages/core/src/live/manager.ts, and what its timer, its network
-- handlers and its loop over a connection do. `online` and `answer` are as in Live/Internals.
use flux_fast.Shared.{
  ℕ, suc, ◌+◌, Bool, true, false, ◌&&◌, ◌||◌, not, Option, none, some, List, [], ◌∷◌, ◌++◌,
  if◌then◌else◌, is_some, ◌==◌, length, max,
}
use flux_fast.Live.State.{
  idle, connecting, connected, reconnecting, offline, status_eq, LiveStatusSnapshot, initial_status,
  LiveManifest, same_manifest, LiveEvent, ready, invalidate, patch, resync, is_ready, connect_open,
  connect_close, event_seen, lifecycle, stream_end, went_offline, Effect, diagnosed, emitted,
  LiveManager,
}
use flux_fast.Live.Internals.{
  emit_diagnostic, key_count, set_snapshot, unconnected, cancel_reconnect, set_offline,
  ensure_network_subscription, stop_network_subscription, stop_connection, schedule_reconnect,
  start_connection,
}
use flux_fast.Shared.JsMap.{size}

-- `updateManifest`, from the manifest that `normalizeManifest` made of the URL and the keys.
unfoldable pub update_manifest : Option ℕ → Bool → Option LiveManifest → LiveManager → LiveManager
unfolding same_manifest stop_connection set_snapshot start_connection
update_manifest answer online next m =
    if same_manifest next m.identity
    then m
    else let should_reconnect = m.desired in
      let m₁ = stop_connection lifecycle should_reconnect (cancel_reconnect m) in
      let m₂ = set_snapshot initial_status (record m₁ { manifest = next; identity = next }) in
      if should_reconnect && is_some next
      then (let m₃ = ensure_network_subscription m₂ in
          if online then start_connection answer online connecting 0 m₃ else set_offline 1 m₃)
      else if not (is_some next)
      then stop_network_subscription m₂
      else m₂

unfoldable pub connect : Option ℕ → Bool → LiveManager → LiveManager
unfolding start_connection set_snapshot
connect answer online m =
    let m₁ = record m { desired = true } in
    if not (is_some m₁.manifest) || is_some m₁.connection || is_some m₁.reconnect_timer
    then m₁
    else let m₂ = ensure_network_subscription m₁ in
      if not online then set_offline 1 m₂ else start_connection answer online connecting 0 m₂

unfoldable pub disconnect : LiveManager → LiveManager
unfolding stop_connection set_snapshot
disconnect m =
    let m₁ = stop_connection lifecycle false (cancel_reconnect (record m { desired = false })) in
    let m₂ = stop_network_subscription m₁ in set_snapshot (unconnected idle 0 m₂) m₂

unfoldable pub reconnect : Option ℕ → Bool → LiveManager → LiveManager
unfolding stop_connection set_snapshot start_connection
reconnect answer online m =
    let m₁ = record m { desired = true } in
    if not (is_some m₁.manifest)
    then set_snapshot initial_status m₁
    else let attempt = m₁.snapshot.reconnect_attempt + 1 in
      let m₂ = stop_connection lifecycle true (cancel_reconnect (ensure_network_subscription m₁)) in
      if not online
      then set_offline (max 1 attempt) m₂
      else start_connection answer online reconnecting attempt m₂

unfoldable pub clear : LiveManager → LiveManager
unfolding stop_connection set_snapshot
clear m =
    let m₁ = stop_connection lifecycle false (cancel_reconnect (record m { desired = false })) in
    let m₂ = record (stop_network_subscription m₁) { manifest = none; identity = none } in
    set_snapshot initial_status m₂

unfoldable pub handle_online : Option ℕ → Bool → LiveManager → LiveManager
unfolding start_connection
handle_online answer online m =
    if not m.desired || not (is_some m.manifest) || is_some m.connection
    then m
    else start_connection answer online reconnecting (max 1 m.snapshot.reconnect_attempt)
        (cancel_reconnect m)

unfoldable pub handle_offline : LiveManager → LiveManager
unfolding stop_connection set_snapshot
handle_offline m =
    if not m.desired || not (is_some m.manifest)
    then m
    else let attempt =
        if status_eq m.snapshot.status offline
        then max 1 m.snapshot.reconnect_attempt
        else max 1 (m.snapshot.reconnect_attempt + 1) in
      set_offline attempt (stop_connection went_offline true (cancel_reconnect m))

-- The callback of the timer, with the attempt that it captured.
unfoldable pub timer_fired : Option ℕ → Bool → ℕ → LiveManager → LiveManager
unfolding start_connection set_snapshot
timer_fired answer online attempt m =
    let m₁ = record m { reconnect_timer = none } in
    if not m₁.desired || not (is_some m₁.manifest) || is_some m₁.connection
    then m₁
    else if not online
    then set_offline attempt m₁
    else start_connection answer online reconnecting attempt m₁

abbrev event_keys : LiveEvent → ℕ
event_keys (ready keys) = length keys
event_keys (invalidate keys _) = length keys
event_keys (patch patches _) = size patches
event_keys (resync keys _) = length keys

-- `dispatchEvent`
abbrev dispatched : LiveEvent → List Effect
dispatched event = diagnosed (event_seen event (event_keys event)) ∷ emitted event ∷ []

-- After a `ready` event of a connection that was a retry, listeners are told to fetch the keys again.
abbrev resynced : LiveEvent → ℕ → Option LiveManifest → List Effect
resynced (ready _) (suc _) (some manifest) = dispatched (resync manifest.keys "reconnect")
resynced _ _ _ = []

abbrev opening : LiveEvent → ℕ → List Effect
opening (ready keys) attempt = diagnosed (connect_open (length keys) attempt) ∷ []
opening _ attempt = []

-- One round of the loop in `consume`; `now` is the time of the event.
unfoldable pub received : ℕ → ℕ → ℕ → LiveEvent → LiveManager → LiveManager
unfolding set_snapshot
received now generation attempt event m =
    if not (generation == m.generation)
    then m
    else let seen : LiveStatusSnapshot = record {
      status = if is_ready event then connected else m.snapshot.status;
      is_connected = if is_ready event then true else m.snapshot.is_connected;
      reconnect_attempt = if is_ready event then 0 else m.snapshot.reconnect_attempt;
      last_event_at = some now;
    } in
      let m₁ = set_snapshot seen m in
      if not (generation == m₁.generation) then m₁ else record m₁ {
        effects =
            m₁.effects
            ++ opening event attempt
            ++ dispatched event
            ++ resynced event attempt m.manifest;
      }

-- What `consume` does when the stream ends.
unfoldable pub ended : Bool → ℕ → ℕ → LiveManager → LiveManager
unfolding set_snapshot schedule_reconnect
ended online generation attempt m =
    if not (generation == m.generation)
    then m
    else let m₁ =
        emit_diagnostic (connect_close (key_count m.manifest) attempt stream_end m.desired)
          (record m { connection = none }) in
      if m₁.desired
      then schedule_reconnect online false m₁
      else set_snapshot (record m₁.snapshot { status = idle; is_connected = false }) m₁
