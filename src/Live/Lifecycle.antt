-- ===== src/Live/Lifecycle.antt =====
-- Every step of LiveManager in packages/core/src/live/manager.ts keeps it coherent: its methods, its
-- timer, its network handlers and its loop over a connection.
use flux_fast.Shared.{
  ℕ, ◌+◌, ◌≡◌, refl, Bool, true, false, ◌&&◌, ◌||◌, not, Option, none, is_some, arith, ◌==◌, max,
  Bool-cases, inl, inr,
}
use flux_fast.Live.State.{
  lifecycle, went_offline, stream_end, connect_close, connecting, connected, reconnecting,
  status_eq, initial_status, LiveManifest, same_manifest, LiveManager, LiveEvent,
}
use flux_fast.Live.Internals.{
  key_count, emit_diagnostic, cancel_reconnect, ensure_network_subscription,
  stop_network_subscription, set_snapshot, stop_connection, handle_connection_error,
}
use flux_fast.Live.Methods.{
  update_manifest, connect, disconnect, reconnect, clear, handle_online, handle_offline,
  timer_fired, received, ended,
}
use flux_fast.Live.Coherence.{branch-IsCoherent, wants, IsCoherent, set_snapshot_lem}
use flux_fast.Live.Steps.{
  set_snapshot-IsCoherent, set_offline-IsCoherent, start_connection-IsCoherent,
  schedule_reconnect-IsCoherent, handle_connection_error-IsCoherent,
}

-- The loop over a connection runs on when its generation is over, and otherwise only while the
-- manager has the connection: the field is set when the loop starts, and each way out resets it.
abbrev pub loop_runs : ℕ → LiveManager → Bool
loop_runs generation m = not (generation == m.generation) || is_some m.connection

pub idle-IsCoherent :
    (m : LiveManager)
    → is_some m.connection ≡ false
    → is_some m.reconnect_timer ≡ false
    → m.snapshot.is_connected ≡ false
    → status_eq m.snapshot.status connected ≡ false
    → wants m ≡ false
    → IsCoherent m
idle-IsCoherent m c t i s w = record {
  connection = ground (arith, c);
  timer = ground (arith, t);
  exclusive = ground (arith, c);
  status = ground (arith, i, s);
  connected = ground (arith, i);
  progress = ground (arith, w);
  watching = ground (arith, w);
}

pub disconnect-IsCoherent : (m : LiveManager) → IsCoherent (disconnect m)
unfolding disconnect
disconnect-IsCoherent m =
    set_snapshot-IsCoherent _ _ (λ es. idle-IsCoherent _ refl refl refl refl refl)

pub clear-IsCoherent : (m : LiveManager) → IsCoherent (clear m)
unfolding clear
clear-IsCoherent m = set_snapshot-IsCoherent _ _ (λ es. idle-IsCoherent _ refl refl refl refl refl)

-- `updateManifest` after it has replaced the manifest, and after it has shown so.
abbrev changed : Option LiveManifest → LiveManager → LiveManager
changed next m = record (stop_connection lifecycle m.desired (cancel_reconnect m)) {
  manifest = next;
  identity = next;
}

abbrev shown : Option LiveManifest → LiveManager → LiveManager
shown next m = record (changed next m) {
  snapshot = initial_status;
  effects = (set_snapshot initial_status (changed next m)).effects;
}

-- `reconnect` after it has stopped the connection.
abbrev stopped : LiveManager → LiveManager
stopped m =
    stop_connection lifecycle true
      (cancel_reconnect (record m { desired = true; network_subscribed = true }))

module _ (answer : Option ℕ) (online : Bool) where
  pub update_manifest-IsCoherent :
      (next : Option LiveManifest) (m : LiveManager)
      → IsCoherent m
      → IsCoherent (update_manifest answer online next m)
  unfolding update_manifest
  update_manifest-IsCoherent next m h =
      branch-IsCoherent (same_manifest next m.identity) _ _ (λ e. h)
        (λ e. rw (set_snapshot_lem initial_status (changed next m)) (
          branch-IsCoherent (m.desired && is_some next) _ _
            (λ w.
              branch-IsCoherent online _ _
                (λ o.
                  start_connection-IsCoherent answer online connecting 0
                    (ensure_network_subscription (shown next m)) refl
                    (record { wanted = w; subscribed = refl; unconnected = refl }) refl)
                (λ o.
                  set_offline-IsCoherent 1 (ensure_network_subscription (shown next m))
                    (record { wanted = w; subscribed = refl; unconnected = refl })))
            (λ w.
              branch-IsCoherent (not (is_some next)) _ _
                (λ n.
                  idle-IsCoherent (stop_network_subscription (shown next m)) refl refl refl refl w)
                (λ n. idle-IsCoherent (shown next m) refl refl refl refl w))))

  pub connect-IsCoherent : (m : LiveManager) → IsCoherent m → IsCoherent (connect answer online m)
  unfolding connect
  connect-IsCoherent m h =
      branch-IsCoherent
        (not (is_some m.manifest) || is_some m.connection || is_some m.reconnect_timer) _ _
        (λ g. record {
          connection = ground (arith, h.connection);
          timer = ground (arith, h.timer);
          exclusive = h.exclusive;
          status = h.status;
          connected = h.connected;
          progress = ground (arith, h.progress);
          watching = ground (arith, h.watching, h.connection, h.timer);
        })
        (λ g.
          branch-IsCoherent (not online) _ _
            (λ o.
              set_offline-IsCoherent 1 (record m { desired = true; network_subscribed = true })
                (record { wanted = ground arith; subscribed = refl; unconnected = ground arith }))
            (λ o.
              start_connection-IsCoherent answer online connecting 0
                (record m { desired = true; network_subscribed = true }) refl
                (record { wanted = ground arith; subscribed = refl; unconnected = ground arith })
                (ground arith)))

  pub reconnect-IsCoherent :
      (m : LiveManager) → IsCoherent m → IsCoherent (reconnect answer online m)
  unfolding reconnect
  reconnect-IsCoherent m h =
      branch-IsCoherent (not (is_some m.manifest)) _ _
        (λ g. set_snapshot-IsCoherent _ _ (λ es.
          idle-IsCoherent (record m { desired = true; snapshot = initial_status; effects = es })
            (ground (arith, h.connection)) (ground (arith, h.timer)) refl refl (ground arith)))
        (λ g.
          branch-IsCoherent (not online) _ _
            (λ o.
              set_offline-IsCoherent (max 1 (m.snapshot.reconnect_attempt + 1)) (stopped m)
                (record { wanted = ground arith; subscribed = refl; unconnected = refl }))
            (λ o.
              start_connection-IsCoherent answer online reconnecting
                (m.snapshot.reconnect_attempt + 1) (stopped m) refl
                (record { wanted = ground arith; subscribed = refl; unconnected = refl }) refl))

  pub handle_online-IsCoherent :
      (m : LiveManager) → IsCoherent m → IsCoherent (handle_online answer online m)
  unfolding handle_online
  handle_online-IsCoherent m h =
      branch-IsCoherent (not m.desired || not (is_some m.manifest) || is_some m.connection) _ _
        (λ g. h)
        (λ g.
          start_connection-IsCoherent answer online reconnecting
            (max 1 m.snapshot.reconnect_attempt) (cancel_reconnect m) refl
            (record {
              wanted = ground arith;
              subscribed = ground (arith, h.watching);
              unconnected = ground arith;
            })
            refl)

  pub timer_fired-IsCoherent :
      (attempt : ℕ) (m : LiveManager)
      → is_some m.reconnect_timer ≡ true
      → IsCoherent m
      → IsCoherent (timer_fired answer online attempt m)
  unfolding timer_fired
  timer_fired-IsCoherent attempt m t h =
      branch-IsCoherent (not m.desired || not (is_some m.manifest) || is_some m.connection) _ _
        (λ g. absurd (ground (arith, h.timer, h.exclusive)))
        (λ g.
          branch-IsCoherent (not online) _ _
            (λ o. set_offline-IsCoherent attempt (cancel_reconnect m) (record {
              wanted = ground arith;
              subscribed = ground (arith, h.watching);
              unconnected = ground arith;
            }))
            (λ o.
              start_connection-IsCoherent answer online reconnecting attempt (cancel_reconnect m)
                refl
                (record {
                  wanted = ground arith;
                  subscribed = ground (arith, h.watching);
                  unconnected = ground arith;
                })
                refl))

pub handle_offline-IsCoherent : (m : LiveManager) → IsCoherent m → IsCoherent (handle_offline m)
unfolding handle_offline
handle_offline-IsCoherent m h =
    branch-IsCoherent (not m.desired || not (is_some m.manifest)) _ _ (λ g. h)
      (λ g.
        set_offline-IsCoherent _ (stop_connection went_offline true (cancel_reconnect m)) (record {
          wanted = ground arith;
          subscribed = ground (arith, h.watching);
          unconnected = refl;
        }))

pub received-IsCoherent :
    (now generation attempt : ℕ) (event : LiveEvent) (m : LiveManager)
    → loop_runs generation m ≡ true
    → IsCoherent m
    → IsCoherent (received now generation attempt event m)
unfolding received
received-IsCoherent now generation attempt event m c h =
    branch-IsCoherent (not (generation == m.generation)) _ _ (λ g. h)
      (λ g.
        rw (set_snapshot_lem, g)
          (record {
            connection = h.connection;
            timer = h.timer;
            exclusive = h.exclusive;
            status = ground (arith, h.status);
            connected = ground (arith, c);
            progress = ground (arith, c);
            watching = h.watching;
          }))

pub ended-IsCoherent :
    (online : Bool) (generation attempt : ℕ) (m : LiveManager)
    → loop_runs generation m ≡ true
    → IsCoherent m
    → IsCoherent (ended online generation attempt m)
unfolding ended
ended-IsCoherent online generation attempt m c h =
    branch-IsCoherent (not (generation == m.generation)) _ _ (λ g. h)
      (λ g.
        branch-IsCoherent m.desired _ _
          (λ d.
            schedule_reconnect-IsCoherent online false
              (emit_diagnostic (connect_close (key_count m.manifest) attempt stream_end m.desired)
                (record m { connection = none }))
              (record {
                wanted = ground (arith, h.connection);
                subscribed = ground (arith, h.connection);
                unconnected = refl;
              }))
          (λ d. absurd (ground (arith, h.connection))))

pub failed-IsCoherent :
    (online : Bool) (generation : ℕ) (m : LiveManager)
    → loop_runs generation m ≡ true
    → IsCoherent m
    → IsCoherent (handle_connection_error online generation m)
failed-IsCoherent online generation m c h = elim (Bool-cases (generation == m.generation)) [
  | inl e ↦
      handle_connection_error-IsCoherent online generation m e (ground (arith, h.connection))
        (ground (arith, h.connection))
  | inr e ↦ unfold handle_connection_error in rw e h
]
