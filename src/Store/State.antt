-- ===== src/Store/State.antt =====
-- The data of packages/core/src/store.ts: records, snapshots and the fields of ResourceStore.
use flux_fast.Shared.{ℕ, String, Bool, true, false, ◌&&◌, Option, none, some, List, str_eq, ◌==◌}
use flux_fast.Shared.JsMap.{Map}
use flux_fast.Value.{Value, undefined, same}

pub record ResourceRecord : Type 0 where
  pub key : String
  pub version : String
  pub value : Value
  pub updated_at : ℕ

pub data ResourceStatus : Type 0 where
  missing pending loading ready error : ResourceStatus

abbrev code : ResourceStatus → ℕ
code missing = 0
code pending = 1
code loading = 2
code ready = 3
code error = 4

-- `===` on the status texts
unfoldable pub status_eq : ResourceStatus → ResourceStatus → Bool
status_eq a b = code a == code b

-- `details` left out is `undefined`.
pub record ResourceErrorDetail : Type 0 where
  pub type : String
  pub message : String
  pub details : Value

pub record ResourceStateSnapshot : Type 0 where
  pub value : Value
  pub status : ResourceStatus
  pub error : Option ResourceErrorDetail
  pub stale : Bool

abbrev pub missing_resource_state : ResourceStateSnapshot
missing_resource_state = record { value = undefined; status = missing; error = none; stale = false }

-- `sameError`; two references to one error are equal in its fields.
unfoldable pub same_error : Option ResourceErrorDetail → Option ResourceErrorDetail → Bool
same_error none none = true
same_error (some a) (some b) =
    str_eq a.type b.type && str_eq a.message b.message && same a.details b.details
same_error _ _ = false

-- A callback is a function value, told apart by its identity.
abbrev pub Callback : Type 0
Callback = ℕ

-- One call of a subscriber.
pub data Call : Type 0 where
  of_key : String → Callback → Call
  of_all : Callback → Call

-- `calls` is the trace of the callbacks run so far; what they do is the application's, and the
-- store catches what they throw.
pub record ResourceStore : Type 0 where
  pub records : Map String ResourceRecord
  pub subscribers : Map String (List Callback)
  pub global_subscribers : List Callback
  pub lru_order : List String
  pub stale_keys : List String
  pub state_snapshots : Map String ResourceStateSnapshot
  pub max_resources : ℕ
  pub calls : List Call
