-- ===== src/Store/Changes.antt =====
-- The public methods of ResourceStore in packages/core/src/store.ts that mark, patch, export and
-- clear resources.
use Prim.Native.String
use mathlib.Core.List.{reverse}
use flux_fast.Shared.{
  ℕ, suc, ◌-◌, String, Bool, true, false, ◌&&◌, ◌||◌, not, Option, none, some, List, [], ◌∷◌, min,
  if◌then◌else◌, is_some, get_or, length, drop, elem, add, str_dec, str_eq, to_string, ◌==◌,
}
use flux_fast.Shared.JsMap.{Map, get, has, set, keys}
use flux_fast.Value.{Value}
use flux_fast.Mutation.{ResourcePatch, apply_patch_to_value}
use flux_fast.Store.State.{
  ResourceRecord, ResourceStatus, missing, pending, loading, ready, error, ResourceErrorDetail,
  ResourceStore,
}
use flux_fast.Store.Internals.{touch_lru, notify, update_state_snapshot}
use flux_fast.Store.Operations.{get_state_snapshot, set_record}

pub record ResourceWireRecord : Type 0 where
  pub version : String
  pub value : Value

-- The loop over the entries of a response: the keys that were updated.
unfoldable pub set_many :
    ℕ → List (String × ResourceWireRecord) → ResourceStore → ResourceStore × List String
set_many now [] s = (s, [])
set_many now ((key, wire) ∷ resources) s =
    let (s₁, updated) = set_record now key wire.version wire.value s in
    let (s₂, updated_keys) = set_many now resources s₁ in
    (s₂, (if updated then key ∷ updated_keys else updated_keys))

-- One key with a new status and error: the body that `markPending`, `markLoading` and
-- `setResourceError` share. A record that is there stays, and goes stale.
unfoldable pub mark :
    String → ResourceStatus → Option ResourceErrorDetail → ResourceStore → ResourceStore
mark key status problem s =
    let has_data = has str_dec key s.records in
    let s₁ = if has_data then record s { stale_keys = add str_dec key s.stale_keys } else s in
    let (s₂, changed) = update_state_snapshot key status problem has_data s₁ in
    if changed then notify key s₂ else s₂

unfoldable pub mark_pending : List String → ResourceStore → ResourceStore
mark_pending [] s = s
mark_pending (key ∷ keys) s = mark_pending keys (mark key pending none s)

unfoldable pub mark_loading : List String → ResourceStore → ResourceStore
mark_loading [] s = s
mark_loading (key ∷ keys) s = mark_loading keys (mark key loading none s)

unfoldable pub set_resource_error : String → ResourceErrorDetail → ResourceStore → ResourceStore
set_resource_error key problem s = mark key error (some problem) s

unfoldable pub clear_resource_error : String → ResourceStore → ResourceStore
clear_resource_error key s =
    let (s₁, current) = get_state_snapshot key s in
    if not (is_some current.error)
    then s₁
    else (let has_data = has str_dec key s₁.records in
        let status = if has_data then ready else missing in
        let (s₂, changed) =
          update_state_snapshot key status none (has_data && elem str_dec key s₁.stale_keys) s₁ in
        if changed then notify key s₂ else s₂)

-- The loop over the patches; each new array or object has the next reference.
unfoldable pub apply_patches : ℕ → List ResourcePatch → Value → Value
apply_patches fresh [] value = value
apply_patches fresh (p ∷ patches) value =
    apply_patches (suc fresh) patches (apply_patch_to_value fresh value p)

-- `${version}_p${now.toString(36)}`
unfoldable pub patched_version : String → ℕ → String
patched_version version now = String.◌++◌ version (String.◌++◌ "_p" (to_string 36 now))

-- The clock is read twice, for the version and for `updatedAt`.
unfoldable pub patch :
    ℕ → ℕ → ℕ → String → List ResourcePatch → ResourceStore → ResourceStore × Bool
patch now later fresh key patches s = elim (get str_dec key s.records) [
  | none ↦ (s, false)
  | some existing ↦
      let new_record : ResourceRecord = record {
        key = key;
        version = patched_version existing.version now;
        value = apply_patches fresh patches existing.value;
        updated_at = later;
      } in
      let s₁ = record s {
        records = set str_dec key new_record s.records;
        stale_keys = add str_dec key s.stale_keys;
      } in
      let s₂ = (update_state_snapshot key ready none true s₁).0 in
      (notify key (touch_lru key s₂), true)
]

unfoldable pub mark_stale : String → ResourceStore → ResourceStore
mark_stale key s =
    if not (has str_dec key s.records) || elem str_dec key s.stale_keys
    then s
    else (let s₁ = record s { stale_keys = add str_dec key s.stale_keys } in
        let (s₂, current) = get_state_snapshot key s₁ in
        notify key (update_state_snapshot key current.status current.error true s₂).0)

unfoldable pub has_subscribers : String → ResourceStore → Bool
has_subscribers key s = elim (get_or (get str_dec key s.subscribers) []) [ [] ↦ false | _ ↦ true ]

-- A limit is a finite number with its whole part, negative ones as one value, or no finite number.
pub data Limit : Type 0 where
  finite : ℕ → Limit
  negative not_finite : Limit

abbrev pub safe_limit : Limit → ℕ
safe_limit (finite n) = min 100 n
safe_limit negative = 0
safe_limit not_finite = 100

-- The body of the loop of `exportKnownVersions`: the result with one more key looked at.
abbrev pub noted :
    String → Option ResourceRecord → ResourceStore → Map String String → Map String String
noted key none s result = result
noted key (some rec) s result =
    if not (str_eq rec.version "") && not (elem str_dec key s.stale_keys)
    then set str_dec key rec.version result
    else result

unfoldable pub known_versions : List String → Map String String → ResourceStore → Map String String
known_versions [] result s = result
known_versions (key ∷ keys) result s =
    known_versions keys (noted key (get str_dec key s.records) s result) s

-- `lruOrder.slice(-n)`
abbrev pub last {ℓ} : {A : Type ℓ} → ℕ → List A → List A
last n xs = drop (length xs - n) xs

unfoldable pub export_known_versions : Limit → ResourceStore → Map String String
unfolding known_versions
export_known_versions limit s =
    if safe_limit limit == 0
    then []
    else known_versions (reverse (last (safe_limit limit) s.lru_order)) [] s

-- `new Set([...])`
abbrev pub union : List String → List String → List String
union xs [] = xs
union xs (y ∷ ys) = union (add str_dec y xs) ys

unfoldable pub notify_each : List String → ResourceStore → ResourceStore
notify_each [] s = s
notify_each (key ∷ keys) s = notify_each keys (notify key s)

unfoldable pub clear : ResourceStore → ResourceStore
unfolding notify_each
clear s =
    let all_keys =
      union (union (union [] (keys s.records)) (keys s.state_snapshots)) s.stale_keys in
    notify_each all_keys
      (record s { records = []; stale_keys = []; state_snapshots = []; lru_order = [] })
