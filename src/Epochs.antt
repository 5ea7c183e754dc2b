-- ===== src/Epochs.antt =====
-- packages/core/src/resource-epochs.ts, the class ResourceEpochMap: a bounded history of the epochs
-- at which resources were last asked for, with watermarks for what it has forgotten.
pub mod Laws
pub mod Bounds
use flux_fast.Shared.{
  ℕ, suc, String, Bool, true, false, Option, none, some, List, [], ◌∷◌, max, ltb, ◌==◌,
  if◌then◌else◌, str_dec,
}
use flux_fast.Shared.JsMap
use flux_fast.Shared.JsMap.{Map, size}

pub record ResourceEpoch : Type 0 where
  pub epoch : ℕ
  pub authoritative_epoch : ℕ
  pub conservative : Bool

abbrev pub max_resource_epoch_entries : ℕ
max_resource_epoch_entries = 1024

-- `entries` is the map that the class extends.
pub record ResourceEpochMap : Type 0 where
  pub entries : Map String ResourceEpoch
  pub evicted_epoch : ℕ
  pub evicted_authoritative_epoch : ℕ

abbrev pub new_map : ResourceEpochMap
new_map = record { entries = []; evicted_epoch = 0; evicted_authoritative_epoch = 0 }

-- What is said of a key with no entry.
abbrev pub watermark : ResourceEpochMap → Option ResourceEpoch
watermark m =
    if m.evicted_epoch == 0
    then none
    else some (record {
      epoch = m.evicted_epoch;
      authoritative_epoch = m.evicted_authoritative_epoch;
      conservative = true;
    })

abbrev pub or_else : Option ResourceEpoch → Option ResourceEpoch → Option ResourceEpoch
or_else none o = o
or_else (some e) o = some e

unfoldable pub get : String → ResourceEpochMap → Option ResourceEpoch
get key m = or_else (JsMap.get str_dec key m.entries) (watermark m)

-- The `while` loop of `set`; the oldest key comes first, and occurs once.
unfoldable pub evict : Map String ResourceEpoch → ℕ → ℕ → ResourceEpochMap
evict [] epoch authoritative = record {
  entries = [];
  evicted_epoch = epoch;
  evicted_authoritative_epoch = authoritative;
}
evict ((oldest, evicted) ∷ rest) epoch authoritative =
    let trimmed =
      evict rest (max epoch evicted.epoch) (max authoritative evicted.authoritative_epoch) in
    if ltb max_resource_epoch_entries (suc (size rest)) then trimmed else record {
      entries = (oldest, evicted) ∷ rest;
      evicted_epoch = epoch;
      evicted_authoritative_epoch = authoritative;
    }

unfoldable pub set : String → ResourceEpoch → ResourceEpochMap → ResourceEpochMap
unfolding evict
set key value m =
    evict (JsMap.set str_dec key value (JsMap.delete str_dec key m.entries)) m.evicted_epoch
      m.evicted_authoritative_epoch

unfoldable pub clear : ResourceEpochMap → ResourceEpochMap
clear m = new_map
