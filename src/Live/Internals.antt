-- ===== src/Live/Internals.antt =====
-- The private methods of LiveManager in packages/core/src/live/manager.ts. `online` is what the
-- network adapter answers, and `answer` what `transport.connect` does: the connection, or none where
-- it throws. Listeners are taken not to call the manager back, so each of them is one effect.
use flux_fast.Shared.{
  ℕ, suc, ◌+◌, Bool, true, false, ◌||◌, not, Option, none, some, List, [], ◌∷◌, ◌++◌, if◌then◌else◌,
  is_some, ◌==◌, length, max,
}
use flux_fast.Live.State.{
  LiveConnectionStatus, reconnecting, offline, error, status_eq, LiveStatusSnapshot, same_snapshot,
  LiveManifest, same_manifest, LiveManagerDiagnostic, connect_start, connect_retry, connect_error,
  connect_close, CloseReason, failed, Effect, told, diagnosed, reported, opened, closed,
  LiveManager,
}

abbrev pub do_effect : Effect → LiveManager → LiveManager
do_effect e m = record m { effects = m.effects ++ e ∷ [] }

abbrev pub emit_diagnostic : LiveManagerDiagnostic → LiveManager → LiveManager
emit_diagnostic d m = do_effect (diagnosed d) m

-- `this.manifest?.keys.length ?? 0`
abbrev pub key_count : Option LiveManifest → ℕ
key_count none = 0
key_count (some manifest) = length manifest.keys

unfoldable pub set_snapshot : LiveStatusSnapshot → LiveManager → LiveManager
set_snapshot next m =
    if same_snapshot next m.snapshot
    then m
    else do_effect (told next) (record m { snapshot = next })

-- `{...this.snapshot, status, connected: false, reconnectAttempt}`
abbrev pub unconnected : LiveConnectionStatus → ℕ → LiveManager → LiveStatusSnapshot
unconnected status attempt m = record m.snapshot {
  status = status;
  is_connected = false;
  reconnect_attempt = attempt;
}

abbrev pub cancel_reconnect : LiveManager → LiveManager
cancel_reconnect m = record m { reconnect_timer = none }

abbrev pub set_offline : ℕ → LiveManager → LiveManager
set_offline attempt m =
    let m₁ = cancel_reconnect m in set_snapshot (unconnected offline attempt m₁) m₁

abbrev pub ensure_network_subscription : LiveManager → LiveManager
ensure_network_subscription m = record m { network_subscribed = true }

abbrev pub stop_network_subscription : LiveManager → LiveManager
stop_network_subscription m = record m { network_subscribed = false }

abbrev closing : Option ℕ → CloseReason → Bool → LiveManager → List Effect
closing none reason will_reconnect m = []
closing (some connection) reason will_reconnect m =
    diagnosed
      (connect_close (key_count m.manifest) m.snapshot.reconnect_attempt reason will_reconnect)
    ∷ closed connection
    ∷ []

unfoldable pub stop_connection : CloseReason → Bool → LiveManager → LiveManager
stop_connection reason will_reconnect m = record m {
  generation = suc m.generation;
  connection = none;
  effects = m.effects ++ closing m.connection reason will_reconnect m;
}

unfoldable pub schedule_reconnect : Bool → Bool → LiveManager → LiveManager
unfolding set_snapshot
schedule_reconnect online error_state m =
    let m₁ = cancel_reconnect m in
    if not m.desired || not (is_some m.manifest)
    then m₁
    else let attempt = max 1 (m.snapshot.reconnect_attempt + 1) in
      if not online
      then set_offline attempt m₁
      else let m₂ =
          set_snapshot (unconnected (if error_state then error else reconnecting) attempt m₁) m₁ in
        if not m₂.desired || not (is_some m₂.manifest) || is_some m₂.connection
        then m₂
        else record m₂ { reconnect_timer = some attempt }

-- The diagnostics of `handleConnectionError`, and then `onError`.
abbrev pub failing : Bool → LiveManager → List Effect
failing had_connection m =
    let count = key_count m.manifest in
    let attempt = m.snapshot.reconnect_attempt in
    diagnosed (connect_error count attempt)
      ∷ (if had_connection
          then diagnosed (connect_close count attempt failed m.desired) ∷ []
          else [])
    ++ reported ∷ []

unfoldable pub handle_connection_error : Bool → ℕ → LiveManager → LiveManager
unfolding schedule_reconnect set_snapshot
handle_connection_error online generation m =
    if not (generation == m.generation)
    then m
    else let m₁ = record m {
      connection = none;
      effects = m.effects ++ failing (is_some m.connection) m;
    } in
      if not (generation == m₁.generation)
      then m₁
      else if m₁.desired
      then schedule_reconnect online true m₁
      else set_snapshot (record m₁.snapshot { status = error; is_connected = false }) m₁

-- The test that `startConnection` repeats after everything that could call back.
abbrev pub superseded : ℕ → Option LiveManifest → LiveManager → Bool
superseded generation manifest m =
    not (generation == m.generation) || not m.desired || not (same_manifest m.manifest manifest)

-- `startConnection` from `transport.connect` on.
unfoldable pub open_connection :
    Option ℕ → Bool → ℕ → Option LiveManifest → LiveManager → LiveManager
unfolding handle_connection_error same_manifest
open_connection none online generation manifest m = handle_connection_error online generation m
open_connection (some connection) online generation manifest m =
    let m₁ = do_effect (opened connection) m in
    if superseded generation manifest m₁
    then do_effect (closed connection) m₁
    else record m₁ { connection = some connection }

abbrev pub starting : LiveConnectionStatus → ℕ → LiveManager → List Effect
starting status attempt m =
    (if status_eq status reconnecting
      then diagnosed (connect_retry (key_count m.manifest) attempt) ∷ []
      else [])
    ++ diagnosed (connect_start (key_count m.manifest) attempt) ∷ []

unfoldable pub start_connection :
    Option ℕ → Bool → LiveConnectionStatus → ℕ → LiveManager → LiveManager
unfolding set_snapshot same_manifest open_connection
start_connection answer online status attempt m =
    if not (is_some m.manifest) || not m.desired || is_some m.connection
    then m
    else let generation = suc m.generation in
      let m₁ = set_snapshot (unconnected status attempt m) (record m { generation = generation }) in
      if superseded generation m.manifest m₁ || is_some m₁.connection
      then m₁
      else let m₂ = record m₁ { effects = m₁.effects ++ starting status attempt m₁ } in
        if superseded generation m.manifest m₂ || is_some m₂.connection
        then m₂
        else open_connection answer online generation m.manifest m₂
