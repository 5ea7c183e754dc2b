-- ===== src/Live/State.antt =====
-- The data of packages/core/src/live/manager.ts, with the events of live/protocol.ts in the same
-- package: snapshots, manifests, diagnostics and the fields of LiveManager.
use flux_fast.Shared.{
  ℕ, String, Bool, true, false, ◌&&◌, Option, none, some, List, [], ◌∷◌, str_eq, ◌==◌, bool_eq,
}
use flux_fast.Shared.JsMap.{Map}
use flux_fast.Mutation.{ResourcePatch}

pub data LiveConnectionStatus : Type 0 where
  idle connecting connected reconnecting offline error : LiveConnectionStatus

abbrev code : LiveConnectionStatus → ℕ
code idle = 0
code connecting = 1
code connected = 2
code reconnecting = 3
code offline = 4
code error = 5

abbrev pub status_eq : LiveConnectionStatus → LiveConnectionStatus → Bool
status_eq a b = code a == code b

pub record LiveStatusSnapshot : Type 0 where
  pub status : LiveConnectionStatus
  pub is_connected : Bool
  pub reconnect_attempt : ℕ
  pub last_event_at : Option ℕ

abbrev pub initial_status : LiveStatusSnapshot
initial_status = record {
  status = idle;
  is_connected = false;
  reconnect_attempt = 0;
  last_event_at = none;
}

abbrev pub time_eq : Option ℕ → Option ℕ → Bool
time_eq none none = true
time_eq (some a) (some b) = a == b
time_eq _ _ = false

-- The test of `setSnapshot`: all four fields are the same.
unfoldable pub same_snapshot : LiveStatusSnapshot → LiveStatusSnapshot → Bool
same_snapshot a b =
    status_eq a.status b.status
    && bool_eq a.is_connected b.is_connected
    && (a.reconnect_attempt == b.reconnect_attempt)
    && time_eq a.last_event_at b.last_event_at

-- A manifest after `normalizeManifest`. Its identity, the JSON text of its URL and keys, is
-- compared by comparing these.
pub record LiveManifest : Type 0 where
  pub url : String
  pub keys : List String

abbrev pub same_keys : List String → List String → Bool
same_keys [] [] = true
same_keys (x ∷ xs) (y ∷ ys) = str_eq x y && same_keys xs ys
same_keys _ _ = false

unfoldable pub same_manifest : Option LiveManifest → Option LiveManifest → Bool
same_manifest none none = true
same_manifest (some a) (some b) = str_eq a.url b.url && same_keys a.keys b.keys
same_manifest _ _ = false

pub data LiveEvent : Type 0 where
  ready : List String → LiveEvent
  invalidate : List String → Option String → LiveEvent
  patch : Map String (List ResourcePatch) → Option String → LiveEvent
  resync : List String → String → LiveEvent

abbrev pub is_ready : LiveEvent → Bool
is_ready (ready _) = true
is_ready _ = false

pub data CloseReason : Type 0 where
  lifecycle stream_end failed went_offline : CloseReason

-- What the manager tells its diagnostics listeners, with the key count and the attempt.
pub data LiveManagerDiagnostic : Type 0 where
  connect_start connect_open connect_retry connect_error : ℕ → ℕ → LiveManagerDiagnostic
  connect_close : ℕ → ℕ → CloseReason → Bool → LiveManagerDiagnostic
  event_seen : LiveEvent → ℕ → LiveManagerDiagnostic

-- What the manager does outside its own fields, in the order in which it does it.
pub data Effect : Type 0 where
  told : LiveStatusSnapshot → Effect
  diagnosed : LiveManagerDiagnostic → Effect
  emitted : LiveEvent → Effect
  reported : Effect
  opened closed : ℕ → Effect

-- A connection is a number. The timer holds the attempt that its callback captured: it is always
-- cancelled before another is set, so that no other timer is pending.
pub record LiveManager : Type 0 where
  pub snapshot : LiveStatusSnapshot
  pub manifest : Option LiveManifest
  pub identity : Option LiveManifest
  pub connection : Option ℕ
  pub reconnect_timer : Option ℕ
  pub network_subscribed : Bool
  pub generation : ℕ
  pub desired : Bool
  pub effects : List Effect

abbrev pub new_live_manager : LiveManager
new_live_manager = record {
  snapshot = initial_status;
  manifest = none;
  identity = none;
  connection = none;
  reconnect_timer = none;
  network_subscribed = false;
  generation = 0;
  desired = false;
  effects = [];
}
