-- ===== src/Store/Validity.antt =====
-- When a ResourceStore of packages/core/src/store.ts is well formed: what the four collections say
-- of one key, and the limits.
use flux_fast.Shared.{
  String, ◌<◌, ◌≤◌, ◌≡◌, Bool, true, false, Option, none, some, is_some, elem, Distinct, str_dec,
}
use flux_fast.Shared.JsMap.{get, keys, size}
use flux_fast.Value.{undefined}
use flux_fast.Value.Laws.{Same}
use flux_fast.Store.State.{
  ResourceRecord, ResourceStatus, missing, ready, error, status_eq, ResourceErrorDetail,
  ResourceStateSnapshot, ResourceStore,
}

-- The status and the error of a stored snapshot fit each other.
pub record IsStatus (status : ResourceStatus) (problem : Option ResourceErrorDetail) : Type 0 where
  pub not_missing : status_eq status missing ≡ false
  pub error_iff : is_some problem ≡ status_eq status error

-- A snapshot of a key with no record, and of a key with one. `stale` says whether the key is stale.
pub record IsEmptySnapshot (st : ResourceStateSnapshot) (stale : Bool) : Type 0 where
  pub status : IsStatus st.status st.error
  pub not_ready : status_eq st.status ready ≡ false
  pub fresh : st.stale ≡ false
  pub key_fresh : stale ≡ false
  pub no_value : Same st.value undefined

pub record IsFullSnapshot (key : String) (r : ResourceRecord) (st : ResourceStateSnapshot)
    (stale : Bool) : Type 0 where
  pub status : IsStatus st.status st.error
  pub same_stale : st.stale ≡ stale
  pub same_value : Same st.value r.value
  pub keyed : r.key ≡ key

-- What the records, the snapshots, the stale keys and the LRU order say of one key.
abbrev pub Agree :
    String → Option ResourceRecord → Option ResourceStateSnapshot → Bool → Bool → Type 0
Agree key none none stale listed = (stale ≡ false) × (listed ≡ false)
Agree key none (some st) stale listed = IsEmptySnapshot st stale × (listed ≡ true)
Agree key (some r) none stale listed = ⊥
Agree key (some r) (some st) stale listed = IsFullSnapshot key r st stale × (listed ≡ true)

abbrev pub AgreeAt : ResourceStore → String → Type 0
AgreeAt s key =
    Agree key (get str_dec key s.records) (get str_dec key s.state_snapshots)
      (elem str_dec key s.stale_keys) (elem str_dec key s.lru_order)

-- No collection holds a key twice, and there is room for one resource.
pub record IsShaped (s : ResourceStore) : Type 0 where
  pub positive : 0 < s.max_resources
  pub lru_order : Distinct str_dec s.lru_order
  pub stale_keys : Distinct str_dec s.stale_keys
  pub records : Distinct str_dec (keys s.records)
  pub state_snapshots : Distinct str_dec (keys s.state_snapshots)

pub record IsConsistent (s : ResourceStore) : Type 0 where
  pub shaped : IsShaped s
  pub agree : (key : String) → AgreeAt s key

pub record Fits (s : ResourceStore) : Type 0 where
  pub records : size s.records ≤ s.max_resources
  pub state_snapshots : size s.state_snapshots ≤ s.max_resources

-- The invariant: the collections agree on every key, and none is over the limit.
pub record IsValid (s : ResourceStore) : Type 0 where
  pub consistent : IsConsistent s
  pub fits : Fits s
