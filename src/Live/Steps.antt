-- ===== src/Live/Steps.antt =====
-- The private methods of LiveManager in packages/core/src/live/manager.ts leave it coherent.
use flux_fast.Shared.{
  ℕ, suc, ◌+◌, ◌≡◌, refl, sym, subst, Bool, true, false, ◌||◌, not, Option, none, some, List, ◌++◌,
  if◌then◌else◌, is_some, ◌==◌, arith, max,
}
use flux_fast.Live.State.{
  LiveConnectionStatus, connected, reconnecting, offline, error, status_eq, LiveStatusSnapshot,
  LiveManifest, same_manifest, LiveManager, Effect,
}
use flux_fast.Live.Internals.{
  set_snapshot, unconnected, open_connection, schedule_reconnect, handle_connection_error,
  start_connection, set_offline, cancel_reconnect, failing, superseded,
}
use flux_fast.Live.Coherence.{
  branch-IsCoherent, wants, IsCoherent, set_snapshot_lem, same_manifest_refl,
}

-- Coherence does not depend on the effects, so `setSnapshot` may be taken to replace the snapshot.
pub set_snapshot-IsCoherent :
    (next : LiveStatusSnapshot) (m : LiveManager)
    → ((es : List Effect) → IsCoherent (record m { snapshot = next; effects = es }))
    → IsCoherent (set_snapshot next m)
set_snapshot-IsCoherent next m h =
    subst IsCoherent (sym (set_snapshot_lem next m)) (h (set_snapshot next m).effects)

-- A manager that wants a connection, watches the network and is about to have neither connection nor
-- timer.
pub record IsWaiting (m : LiveManager) : Type 0 where
  pub wanted : wants m ≡ true
  pub subscribed : m.network_subscribed ≡ true
  pub unconnected : is_some m.connection ≡ false

guard_of : (m : LiveManager) → IsWaiting m → (not m.desired || not (is_some m.manifest)) ≡ false
guard_of m h = ground (arith, h.wanted)

full_guard_of :
    (m : LiveManager)
    → IsWaiting m
    → (not m.desired || not (is_some m.manifest) || is_some m.connection) ≡ false
full_guard_of m h = ground (arith, h.wanted, h.unconnected)

start_guard_of :
    (m : LiveManager)
    → IsWaiting m
    → (not (is_some m.manifest) || not m.desired || is_some m.connection) ≡ false
start_guard_of m h = ground (arith, h.wanted, h.unconnected)

start_again_guard_of :
    (m : LiveManager)
    → IsWaiting m
    → (not (suc m.generation == suc m.generation)
        || not m.desired
        || not (same_manifest m.manifest m.manifest)
        || is_some m.connection)
      ≡ false
start_again_guard_of m h = ground (arith, h.wanted, h.unconnected, same_manifest_refl m.manifest)

pub set_offline-IsCoherent :
    (attempt : ℕ) (m : LiveManager) → IsWaiting m → IsCoherent (set_offline attempt m)
set_offline-IsCoherent attempt m h =
    set_snapshot-IsCoherent (unconnected offline attempt m) (record m { reconnect_timer = none })
      (λ es. record {
        connection = ground (arith, h.unconnected);
        timer = refl;
        exclusive = ground (arith, h.unconnected);
        status = refl;
        connected = refl;
        progress = ground arith;
        watching = ground (arith, h.subscribed);
      })

timer-IsCoherent :
    (status : LiveConnectionStatus) (attempt : ℕ) (m : LiveManager)
    → status_eq status connected ≡ false
    → IsWaiting m
    → (es : List Effect)
    → IsCoherent (record m {
      snapshot = unconnected status attempt m;
      reconnect_timer = some attempt;
      effects = es;
    })
timer-IsCoherent status attempt m e h es = record {
  connection = ground (arith, h.unconnected);
  timer = ground (arith, h.subscribed, h.wanted);
  exclusive = ground (arith, h.unconnected);
  status = ground arith;
  connected = refl;
  progress = ground arith;
  watching = ground (arith, h.subscribed);
}

pub schedule_reconnect-IsCoherent :
    (online error_state : Bool) (m : LiveManager)
    → IsWaiting m
    → IsCoherent (schedule_reconnect online error_state m)
unfolding schedule_reconnect
schedule_reconnect-IsCoherent false error_state m h = rw (guard_of m h) (
    set_offline-IsCoherent (max 1 (m.snapshot.reconnect_attempt + 1))
      (record m { reconnect_timer = none })
      (record { wanted = h.wanted; subscribed = h.subscribed; unconnected = h.unconnected }))
schedule_reconnect-IsCoherent true error_state m h =
    rw (guard_of m h, set_snapshot_lem, full_guard_of m h)
      (timer-IsCoherent (if error_state then error else reconnecting)
        (max 1 (m.snapshot.reconnect_attempt + 1)) m (ground arith) h
        (set_snapshot
          (unconnected (if error_state then error else reconnecting)
            (max 1 (m.snapshot.reconnect_attempt + 1)) m)
          (cancel_reconnect m)).effects)

pub handle_connection_error-IsCoherent :
    (online : Bool) (generation : ℕ) (m : LiveManager)
    → (generation == m.generation) ≡ true
    → wants m ≡ true
    → m.network_subscribed ≡ true
    → IsCoherent (handle_connection_error online generation m)
unfolding handle_connection_error
handle_connection_error-IsCoherent online generation m e w n = rw e (
    branch-IsCoherent m.desired _ _
      (λ d.
        schedule_reconnect-IsCoherent online true
          (record m { connection = none; effects = m.effects ++ failing (is_some m.connection) m })
          (record { wanted = w; subscribed = n; unconnected = refl }))
      (λ d. absurd (ground (arith, w))))

pub open_connection-IsCoherent :
    (answer : Option ℕ) (online : Bool) (generation : ℕ) (manifest : Option LiveManifest)
    (m : LiveManager)
    → (generation == m.generation) ≡ true
    → IsWaiting m
    → is_some m.reconnect_timer ≡ false
    → m.snapshot.is_connected ≡ false
    → status_eq m.snapshot.status connected ≡ false
    → manifest ≡ m.manifest
    → IsCoherent (open_connection answer online generation manifest m)
unfolding open_connection
open_connection-IsCoherent none online generation manifest m e h t c s f =
    handle_connection_error-IsCoherent online generation m e h.wanted h.subscribed
open_connection-IsCoherent (some k) online generation manifest m e h t c s f = rw (guard) (record {
  connection = ground (arith, h.subscribed, h.wanted);
  timer = ground (arith, h.subscribed, h.wanted);
  exclusive = ground arith;
  status = ground arith;
  connected = ground arith;
  progress = ground arith;
  watching = ground (arith, h.subscribed);
})
  where
    guard : superseded generation manifest m ≡ false
    guard = rw f (ground (arith, h.wanted, same_manifest_refl m.manifest))

pub start_connection-IsCoherent :
    (answer : Option ℕ) (online : Bool) (status : LiveConnectionStatus) (attempt : ℕ)
    (m : LiveManager)
    → status_eq status connected ≡ false
    → IsWaiting m
    → is_some m.reconnect_timer ≡ false
    → IsCoherent (start_connection answer online status attempt m)
unfolding start_connection
start_connection-IsCoherent answer online status attempt m c h t =
    rw (start_guard_of m h, set_snapshot_lem, start_again_guard_of m h)
      (open_connection-IsCoherent answer online (suc m.generation) m.manifest _ (ground arith)
        (record { wanted = h.wanted; subscribed = h.subscribed; unconnected = h.unconnected }) t
        refl c refl)

open_connection-connection :
    (k : ℕ) (online : Bool) (generation : ℕ) (m : LiveManager)
    → (generation == m.generation) ≡ true
    → wants m ≡ true
    → (open_connection (some k) online generation m.manifest m).connection ≡ some k
unfolding open_connection
open_connection-connection k online generation m e w = rw (guard) refl
  where
    guard : superseded generation m.manifest m ≡ false
    guard = ground (arith, w, same_manifest_refl m.manifest)

-- A start that the transport answers has the connection that it answered with.
pub start_connection-connection :
    (k : ℕ) (online : Bool) (status : LiveConnectionStatus) (attempt : ℕ) (m : LiveManager)
    → IsWaiting m
    → (start_connection (some k) online status attempt m).connection ≡ some k
unfolding start_connection
start_connection-connection k online status attempt m h =
    rw (start_guard_of m h, set_snapshot_lem, start_again_guard_of m h)
      (open_connection-connection k online (suc m.generation) _ (ground arith) h.wanted)
