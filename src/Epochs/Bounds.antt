-- ===== src/Epochs/Bounds.antt =====
-- The history of packages/core/src/resource-epochs.ts stays well formed, and below a counter, as
-- values below the counter are set.
use flux_fast.Shared.{
  ℕ, suc, ◌≤◌, String, Option, none, some, [], ◌∷◌, max, ltb, arith, str_dec, Bool-cases, inl, inr,
  Distinct,
}
use flux_fast.Shared.JsMap
use flux_fast.Shared.JsMap.{
  Map, keys, size, AllValues, AllValues-delete, AllValues-set, set-Distinct, delete-Distinct,
}
use flux_fast.Epochs.{
  ResourceEpoch, ResourceEpochMap, max_resource_epoch_entries, watermark, or_else, get, evict, set,
  new_map,
}
use flux_fast.Epochs.Laws.{epoch_of, authoritative_of, Ordered}

-- An epoch that is ordered and was given out: the counter has reached it.
pub record IsPast (counter : ℕ) (e : ResourceEpoch) : Type 0 where
  pub ordered : Ordered e
  pub past : e.epoch ≤ counter

pub record IsHistory (counter : ℕ) (m : ResourceEpochMap) : Type 0 where
  pub distinct : Distinct str_dec (keys m.entries)
  pub entries : AllValues (IsPast counter) m.entries
  pub ordered : m.evicted_authoritative_epoch ≤ m.evicted_epoch
  pub past : m.evicted_epoch ≤ counter

pub new_map-IsHistory : (counter : ℕ) → IsHistory counter new_map
new_map-IsHistory counter = record {
  distinct = tt;
  entries = tt;
  ordered = omega arith;
  past = omega arith;
}

evict-IsHistory :
    (counter : ℕ) (m : Map String ResourceEpoch) (e a : ℕ)
    → Distinct str_dec (keys m)
    → AllValues (IsPast counter) m
    → a ≤ e
    → e ≤ counter
    → IsHistory counter (evict m e a)
unfolding evict
evict-IsHistory counter [] e a d h o p = record {
  distinct = tt;
  entries = tt;
  ordered = o;
  past = p;
}
evict-IsHistory counter ((k, v) ∷ m) e a d h o p =
    elim (Bool-cases (ltb max_resource_epoch_entries (suc (size m)))) [
      | inr fits ↦ rw (fits, evict) (record { distinct = d; entries = h; ordered = o; past = p })
      | inl over ↦
          rw (over, evict)
            (evict-IsHistory counter m (max e v.epoch) (max a v.authoritative_epoch) d.1 h.1
              (omega (arith, h.0.ordered)) (omega (arith, h.0.past)))
    ]

pub set-IsHistory :
    (counter : ℕ) (k : String) (v : ResourceEpoch) (m : ResourceEpochMap)
    → IsPast counter v
    → IsHistory counter m
    → IsHistory counter (set k v m)
unfolding set
set-IsHistory counter k v m p h =
    evict-IsHistory counter _ m.evicted_epoch m.evicted_authoritative_epoch
      (set-Distinct str_dec k v (JsMap.delete str_dec k m.entries)
        (delete-Distinct str_dec k m.entries h.distinct))
      (AllValues-set str_dec (IsPast counter) k v (JsMap.delete str_dec k m.entries) p
        (AllValues-delete str_dec (IsPast counter) k m.entries h.entries))
      h.ordered h.past

raise :
    (b c : ℕ) (m : Map String ResourceEpoch)
    → b ≤ c
    → AllValues (IsPast b) m
    → AllValues (IsPast c) m
raise b c [] p h = tt
raise b c ((k, v) ∷ m) p h =
    (record { ordered = h.0.ordered; past = omega (arith, h.0.past) }, raise b c m p h.1)

pub IsHistory-raise : (b c : ℕ) (m : ResourceEpochMap) → b ≤ c → IsHistory b m → IsHistory c m
IsHistory-raise b c m p h = record {
  distinct = h.distinct;
  entries = raise b c m.entries p h.entries;
  ordered = h.ordered;
  past = omega (arith, h.past);
}

entry-le :
    (counter : ℕ) (k : String) (m : Map String ResourceEpoch)
    → AllValues (IsPast counter) m
    → (epoch_of (JsMap.get str_dec k m) ≤ counter)
      × (authoritative_of (JsMap.get str_dec k m) ≤ epoch_of (JsMap.get str_dec k m))
unfolding JsMap.get
entry-le counter k [] h = (omega arith, omega arith)
entry-le counter k ((j, w) ∷ m) h = ground (arith, h.0.ordered, h.0.past, entry-le counter k m h.1)

-- Nothing that the history says is past the counter, and what it calls authoritative is an epoch.
pub get-le :
    (counter : ℕ) (k : String) (m : ResourceEpochMap)
    → IsHistory counter m
    → (epoch_of (get k m) ≤ counter) × (authoritative_of (get k m) ≤ epoch_of (get k m))
unfolding get
get-le counter k m h = go (JsMap.get str_dec k m.entries) (entry-le counter k m.entries h.entries)
  where
    go :
        (o : Option ResourceEpoch)
        → (epoch_of o ≤ counter) × (authoritative_of o ≤ epoch_of o)
        → (epoch_of (or_else o (watermark m)) ≤ counter)
          × (authoritative_of (or_else o (watermark m)) ≤ epoch_of (or_else o (watermark m)))
    go (some e) p = p
    go none p = ground (arith, h.past, h.ordered)
