-- ===== src/Epochs/Laws.antt =====
-- The history of packages/core/src/resource-epochs.ts is bounded, and forgetting never lowers what
-- it says of a resource.
use flux_fast.Shared.{
  ℕ, suc, ◌≤◌, String, ◌≡◌, refl, ap, subst, ◌≢◌, inl, inr, true, Option, none, some, [], ◌∷◌, ◌++◌,
  max, ltb, ite, arith, str_dec, Bool-cases, Distinct, elem, is_yes,
}
use flux_fast.Shared.JsMap
use flux_fast.Shared.JsMap.{Map, size, AllValues, AllValues-delete, AllValues-set}
use flux_fast.Epochs.{
  ResourceEpoch, ResourceEpochMap, max_resource_epoch_entries, watermark, or_else, get, evict, set,
}

-- The epochs that a reader goes by; nothing known counts as epoch 0.
abbrev pub epoch_of : Option ResourceEpoch → ℕ
epoch_of none = 0
epoch_of (some e) = e.epoch

abbrev pub authoritative_of : Option ResourceEpoch → ℕ
authoritative_of none = 0
authoritative_of (some e) = e.authoritative_epoch

abbrev pub Ordered : ResourceEpoch → Type 0
Ordered e = e.authoritative_epoch ≤ e.epoch

-- An authoritative epoch is an epoch, in every entry and in the watermarks.
pub record IsOrdered (m : ResourceEpochMap) : Type 0 where
  pub entries : AllValues Ordered m.entries
  pub watermarks : m.evicted_authoritative_epoch ≤ m.evicted_epoch

size-evict :
    (m : Map String ResourceEpoch) (e a : ℕ)
    → size (evict m e a).entries ≤ max_resource_epoch_entries
unfolding evict
size-evict [] e a = omega arith
size-evict ((k, v) ∷ m) e a =
    ground (arith, size-evict m (max e v.epoch) (max a v.authoritative_epoch))

-- What the entries say of `j`, and the watermarks where they say nothing.
abbrev floor : Option ResourceEpoch → ℕ → ℕ
floor none e = e
floor (some v) e = v.epoch

abbrev authoritative_floor : Option ResourceEpoch → ℕ → ℕ
authoritative_floor none a = a
authoritative_floor (some v) a = v.authoritative_epoch

-- Where the loop ends, the watermarks are read.
stop-raises :
    (o : Option ResourceEpoch) (m : Map String ResourceEpoch) (e a : ℕ)
    → a ≤ e
    → let r =
        or_else o (
          watermark (record { entries = m; evicted_epoch = e; evicted_authoritative_epoch = a })) in
      (floor o e ≤ epoch_of r) × (authoritative_floor o a ≤ authoritative_of r)
stop-raises none m e a h = ground arith
stop-raises (some v) m e a h = ground arith

-- Evicting never lowers an epoch: what an entry said, a watermark says at least.
evict-raises :
    (j : String) (m : Map String ResourceEpoch) (e a : ℕ)
    → Distinct str_dec (JsMap.keys m)
    → a ≤ e
    → AllValues Ordered m
    → (floor (JsMap.get str_dec j m) e ≤ epoch_of (get j (evict m e a)))
      × (authoritative_floor (JsMap.get str_dec j m) a ≤ authoritative_of (get j (evict m e a)))
unfolding evict get
evict-raises j [] e a d o h = stop-raises (JsMap.get str_dec j []) [] e a o
evict-raises j ((k, v) ∷ m) e a d o h =
    elim (Bool-cases (ltb max_resource_epoch_entries (suc (size m)))) [
      | inr fits ↦
          rw (fits, evict) (stop-raises (JsMap.get str_dec j ((k, v) ∷ m)) ((k, v) ∷ m) e a o)
      | inl over ↦
          rw (over, evict)
            (raise (str_dec k j) (
              evict-raises j m (max e v.epoch) (max a v.authoritative_epoch) d.1
                (ground (arith, h.0)) h.1))
    ]
  where
    absent : k ≡ j → JsMap.get str_dec j m ≡ none
    absent p =
        ground (arith, JsMap.has-keys str_dec j m, ap (λ i. elem str_dec i (JsMap.keys m)) p, d.0)

    t : ResourceEpochMap
    t = evict m (max e v.epoch) (max a v.authoritative_epoch)

    step :
        (p : Dec (k ≡ j))
        → (is_yes p ≡ true → JsMap.get str_dec j m ≡ none)
        → (floor (JsMap.get str_dec j m) (max e v.epoch) ≤ epoch_of (get j t))
          × (authoritative_floor (JsMap.get str_dec j m) (max a v.authoritative_epoch)
              ≤ authoritative_of (get j t))
        → (floor (ite p (some v) (JsMap.get str_dec j m)) e ≤ epoch_of (get j t))
          × (authoritative_floor (ite p (some v) (JsMap.get str_dec j m)) a
              ≤ authoritative_of (get j t))
    step (yes p) missing (x, y) = ground (arith, missing refl)
    step (no p) missing (x, y) = ground arith

    raise :
        (p : Dec (k ≡ j))
        → (floor (JsMap.get str_dec j m) (max e v.epoch) ≤ epoch_of (get j t))
          × (authoritative_floor (JsMap.get str_dec j m) (max a v.authoritative_epoch)
              ≤ authoritative_of (get j t))
        → (floor (JsMap.get str_dec j ((k, v) ∷ m)) e ≤ epoch_of (get j t))
          × (authoritative_floor (JsMap.get str_dec j ((k, v) ∷ m)) a ≤ authoritative_of (get j t))
    raise _ b = unfold JsMap.get in step (str_dec k j) (λ p. absent (ground (arith, p))) b

set-append :
    (k : String) (v : ResourceEpoch) (m : Map String ResourceEpoch)
    → JsMap.get str_dec k m ≡ none
    → JsMap.set str_dec k v m ≡ m ++ (k, v) ∷ []
unfolding JsMap.get JsMap.set
set-append k v [] h = refl
set-append k v ((j, w) ∷ m) h = ground (arith, set-append k v m)

-- The entry that comes last stays, and is what `get` finds.
evict-last :
    (k : String) (v : ResourceEpoch) (m : Map String ResourceEpoch) (e a : ℕ)
    → JsMap.get str_dec k m ≡ none
    → get k (evict (m ++ (k, v) ∷ []) e a) ≡ some v
unfolding evict get JsMap.get
evict-last k v [] e a h = ground arith
evict-last k v ((j, w) ∷ m) e a h =
    elim (Bool-cases (ltb max_resource_epoch_entries (suc (size (m ++ (k, v) ∷ []))))) [
      | inl over ↦
          rw (over, evict)
            (evict-last k v m (max e w.epoch) (max a w.authoritative_epoch) (ground arith))
      | inr fits ↦ rw (fits, evict) (ground (arith, get-append m))
    ]
  where
    get-append :
        (l : Map String ResourceEpoch)
        → JsMap.get str_dec k (l ++ (k, v) ∷ []) ≡ or_else (JsMap.get str_dec k l) (some v)
    get-append [] = ground arith
    get-append ((i, x) ∷ l) = ground (arith, get-append l)

-- What was set last is what `get` answers.
pub get-set : (k : String) (v : ResourceEpoch) (m : ResourceEpochMap) → get k (set k v m) ≡ some v
unfolding set
get-set k v m = rw (set-append k v (JsMap.delete str_dec k m.entries) gone) (
    evict-last k v (JsMap.delete str_dec k m.entries) m.evicted_epoch m.evicted_authoritative_epoch
      gone)
  where
    gone : JsMap.get str_dec k (JsMap.delete str_dec k m.entries) ≡ none
    gone = ground (arith, JsMap.get-delete str_dec k k m.entries)

-- `set` bounds the history at 1024 entries, `get` answers with the value just set, and of any other
-- resource neither the epoch nor the authoritative epoch that `get` answers falls, evicted or not,
-- where nothing known counts as 0. The map holds no key twice and its authoritative epochs are
-- epochs, as is the one set.
pub set_lem :
    (k j : String) (v : ResourceEpoch) (m : ResourceEpochMap)
    → Distinct str_dec (JsMap.keys m.entries)
    → IsOrdered m
    → v.authoritative_epoch ≤ v.epoch
    → k ≢ j
    → (size (set k v m).entries ≤ max_resource_epoch_entries)
      × (get k (set k v m) ≡ some v)
      × (epoch_of (get j m) ≤ epoch_of (get j (set k v m)))
      × (authoritative_of (get j m) ≤ authoritative_of (get j (set k v m)))
unfolding set
set_lem k j v m d o q ne = (
  size-evict next m.evicted_epoch m.evicted_authoritative_epoch,
  get-set k v m,
  omega (arith, raised, below),
  omega (arith, raised, below),
)
  where
    next : Map String ResourceEpoch
    next = JsMap.set str_dec k v (JsMap.delete str_dec k m.entries)

    same : JsMap.get str_dec j next ≡ JsMap.get str_dec j m.entries
    same = ground (
      arith,
      JsMap.get-set str_dec k j v (JsMap.delete str_dec k m.entries),
      JsMap.get-delete str_dec k j m.entries,
    )

    raised :
        (floor (JsMap.get str_dec j m.entries) m.evicted_epoch
          ≤ epoch_of (get j (evict next m.evicted_epoch m.evicted_authoritative_epoch)))
        × (authoritative_floor (JsMap.get str_dec j m.entries) m.evicted_authoritative_epoch
            ≤ authoritative_of (get j (evict next m.evicted_epoch m.evicted_authoritative_epoch)))
    raised =
        subst
          (λ x.
            (floor x m.evicted_epoch
              ≤ epoch_of (get j (evict next m.evicted_epoch m.evicted_authoritative_epoch)))
            × (authoritative_floor x m.evicted_authoritative_epoch
                ≤ authoritative_of
                    (get j (evict next m.evicted_epoch m.evicted_authoritative_epoch))))
          same
          (evict-raises j next m.evicted_epoch m.evicted_authoritative_epoch
            (JsMap.set-Distinct str_dec k v (JsMap.delete str_dec k m.entries)
              (JsMap.delete-Distinct str_dec k m.entries d))
            o.watermarks
            (AllValues-set str_dec Ordered k v (JsMap.delete str_dec k m.entries) q
              (AllValues-delete str_dec Ordered k m.entries o.entries)))

    below :
        (epoch_of (get j m) ≤ floor (JsMap.get str_dec j m.entries) m.evicted_epoch)
        × (authoritative_of (get j m)
            ≤ authoritative_floor (JsMap.get str_dec j m.entries) m.evicted_authoritative_epoch)
    below = unfold get in ground arith
