-- ===== src/Store/Snapshots.antt =====
-- `touchLru` and `updateStateSnapshot` of packages/core/src/store.ts keep the store well formed.
use flux_fast.Shared.{
  String, ◌≡◌, refl, ap, subst, ◌∙◌, ◌≢◌, inl, inr, Bool, true, false, ◌&&◌, ◌||◌, not, Option,
  none, some, is_some, is_yes, get_or, List, [], ◌∷◌, ◌++◌, ite, arith, elem, remove, Distinct,
  str_dec, elem-append, elem-remove, elem-remove_self, remove-Distinct, append_last-Distinct,
}
use flux_fast.Shared.JsMap.{get, has, get-set, get-delete, set-Distinct, delete-Distinct}
use flux_fast.Value.{same}
use flux_fast.Store.State.{
  ResourceRecord, ResourceStatus, missing, ready, error, status_eq, ResourceErrorDetail,
  ResourceStateSnapshot, missing_resource_state, same_error, ResourceStore,
}
use flux_fast.Store.Internals.{
  touch_lru, value_of, frozen_error, is_unchanged, is_nothing, drop_snapshot, put_snapshot,
}
use flux_fast.Store.Validity.{IsStatus, Agree, AgreeAt, IsShaped, IsConsistent}

pub elem-touch_lru :
    (k j : String) (l : List String)
    → Distinct str_dec l
    → elem str_dec j (remove str_dec k l ++ k ∷ []) ≡ (is_yes (str_dec k j) || elem str_dec j l)
unfolding elem
elem-touch_lru k j l d =
    ground (arith, elem-append str_dec j (remove str_dec k l) (k ∷ []), elem-remove str_dec k j l d)

pub touch_lru-Distinct :
    (k : String) (l : List String)
    → Distinct str_dec l
    → Distinct str_dec (remove str_dec k l ++ k ∷ [])
touch_lru-Distinct k l d =
    append_last-Distinct str_dec k (remove str_dec k l) (remove-Distinct str_dec k l d)
      (elem-remove_self str_dec k l d)

-- A touched key moves; its snapshot already lists it.
pub touch_lru-IsConsistent :
    (k : String) (s : ResourceStore)
    → IsConsistent s
    → has str_dec k s.state_snapshots ≡ true
    → IsConsistent (touch_lru k s)
touch_lru-IsConsistent k s h known = record {
  shaped = record {
    positive = h.shaped.positive;
    lru_order = touch_lru-Distinct k s.lru_order h.shaped.lru_order;
    stale_keys = h.shaped.stale_keys;
    records = h.shaped.records;
    state_snapshots = h.shaped.state_snapshots;
  };
  agree = λ j.
      rw (elem-touch_lru k j s.lru_order h.shaped.lru_order) (split j (str_dec k j) (h.agree j));
}
  where
    split :
        (j : String) (d : Dec (k ≡ j))
        → AgreeAt s j
        → Agree j
            (get str_dec j s.records)
            (get str_dec j s.state_snapshots)
            (elem str_dec j s.stale_keys)
            (is_yes d || elem str_dec j s.lru_order)
    split j (no p) a = a
    split j (yes p) a =
        subst
          (λ b.
            Agree j (get str_dec j s.records) (get str_dec j s.state_snapshots)
              (elem str_dec j s.stale_keys) b)
          listed a
      where
        listed : elem str_dec j s.lru_order ≡ true
        listed = ground (arith, ap (λ i. has str_dec i s.state_snapshots) p)

-- Writing the snapshot of one key, where it fits what else is said of that key.
pub put_snapshot-IsConsistent :
    (k : String) (st : ResourceStateSnapshot) (s : ResourceStore)
    → IsShaped s
    → ((j : String) → k ≢ j → AgreeAt s j)
    → Agree k (get str_dec k s.records) (some st) (elem str_dec k s.stale_keys) true
    → IsConsistent (put_snapshot k st s)
put_snapshot-IsConsistent k st s h others own = record {
  shaped = record {
    positive = h.positive;
    lru_order = touch_lru-Distinct k s.lru_order h.lru_order;
    stale_keys = h.stale_keys;
    records = h.records;
    state_snapshots = set-Distinct str_dec k st s.state_snapshots h.state_snapshots;
  };
  agree = λ j.
      rw (elem-touch_lru k j s.lru_order h.lru_order, get-set str_dec k j st s.state_snapshots)
        (split j (str_dec k j));
}
  where
    split :
        (j : String) (d : Dec (k ≡ j))
        → Agree j
            (get str_dec j s.records)
            (ite d (some st) (get str_dec j s.state_snapshots))
            (elem str_dec j s.stale_keys)
            (is_yes d || elem str_dec j s.lru_order)
    split j (no p) = others j p
    split j (yes p) =
        subst (λ i. Agree i (get str_dec i s.records) (some st) (elem str_dec i s.stale_keys) true)
          p own

-- Dropping the snapshot of a key that has no record.
pub drop_snapshot-IsConsistent :
    (k : String) (s : ResourceStore)
    → IsShaped s
    → ((j : String) → k ≢ j → AgreeAt s j)
    → get str_dec k s.records ≡ none
    → elem str_dec k s.stale_keys ≡ false
    → IsConsistent (drop_snapshot k s)
drop_snapshot-IsConsistent k s h others empty fresh =
    rw (empty, drop_snapshot)
      (record {
        shaped = record {
          positive = h.positive;
          lru_order = remove-Distinct str_dec k s.lru_order h.lru_order;
          stale_keys = h.stale_keys;
          records = h.records;
          state_snapshots = delete-Distinct str_dec k s.state_snapshots h.state_snapshots;
        };
        agree = λ j.
            rw
              (
                elem-remove str_dec k j s.lru_order h.lru_order,
                get-delete str_dec k j s.state_snapshots,
              )
              (split j (str_dec k j));
      })
  where
    split :
        (j : String) (d : Dec (k ≡ j))
        → Agree j
            (get str_dec j s.records)
            (ite d none (get str_dec j s.state_snapshots))
            (elem str_dec j s.stale_keys)
            (not (is_yes d) && elem str_dec j s.lru_order)
    split j (no p) = others j p
    split j (yes p) =
        subst (λ i. Agree i (get str_dec i s.records) none (elem str_dec i s.stale_keys) false) p
          (rw (empty, fresh) (refl, refl))

-- What a caller of `updateStateSnapshot` asks for, in terms of the record and of the stale keys.
abbrev pub Target :
    String
    → Option ResourceRecord
    → Bool
    → ResourceStatus
    → Option ResourceErrorDetail
    → Bool
    → Type 0
Target key none key_stale status problem stale =
    (stale ≡ false)
    × (key_stale ≡ false)
    × (is_some problem ≡ status_eq status error)
    × (status_eq status ready ≡ false)
Target key (some r) key_stale status problem stale =
    (stale ≡ key_stale) × (r.key ≡ key) × IsStatus status problem

pub status_eq→eq : (a b : ResourceStatus) → status_eq a b ≡ true → a ≡ b
status_eq→eq a b h = unfold status_eq in ground arith

same_error→is_some :
    (a b : Option ResourceErrorDetail) → same_error a b ≡ true → is_some a ≡ is_some b
unfolding same_error
same_error→is_some a b h = ground arith

pub is_some-frozen_error :
    (a b : Option ResourceErrorDetail) → is_some (frozen_error a b) ≡ is_some b
is_some-frozen_error a b = ground arith

-- A stored snapshot is never that of a missing resource.
abbrev pub IsStored : Option ResourceStateSnapshot → Type 0
IsStored none = Unit {0}
IsStored (some st) = status_eq st.status missing ≡ false

-- The snapshot that is there says what is asked for.
pub unchanged-Agree :
    (k : String) (r : Option ResourceRecord) (st : Option ResourceStateSnapshot)
    (status : ResourceStatus) (problem : Option ResourceErrorDetail) (stale key_stale : Bool)
    → IsStored st
    → Target k r key_stale status problem stale
    → is_unchanged (get_or st missing_resource_state) (value_of r) status problem stale ≡ true
    → Agree k r st key_stale (is_some st)
unfolding is_unchanged
unchanged-Agree k none none status problem stale key_stale m t h = (t.1, refl)
unchanged-Agree k (some r) none status problem stale key_stale m t h =
    ground (arith, status_eq→eq missing status, t.2.not_missing, missing_self)
  where
    missing_self : status_eq missing missing ≡ true
    missing_self = unfold status_eq in refl
unchanged-Agree k none (some st) status problem stale key_stale m t h = (
  record {
    status = record {
      not_missing = m;
      error_iff =
          ground (arith, status_eq→eq st.status status, same_error→is_some st.error problem);
    };
    not_ready = ground (arith, status_eq→eq st.status status);
    fresh = ground arith;
    key_fresh = t.1;
    no_value = inr (ground arith);
  },
  refl,
)
unchanged-Agree k (some r) (some st) status problem stale key_stale m t h = (
  record {
    status = record {
      not_missing = ground (arith, status_eq→eq st.status status, t.2.not_missing);
      error_iff = ground (
        arith,
        status_eq→eq st.status status,
        same_error→is_some st.error problem,
        t.2.error_iff,
      );
    };
    same_stale = ground arith;
    same_value = inr (ground arith);
    keyed = t.1;
  },
  refl,
)

-- The snapshot that is written says what is asked for.
pub changed-Agree :
    (k : String) (r : Option ResourceRecord) (current : Option ResourceErrorDetail)
    (status : ResourceStatus) (problem : Option ResourceErrorDetail) (stale key_stale : Bool)
    → Target k r key_stale status problem stale
    → is_nothing (value_of r) status problem stale ≡ false
    → Agree k r
        (some (record {
          value = value_of r;
          status = status;
          error = frozen_error current problem;
          stale = stale;
        }))
        key_stale
        true
unfolding is_nothing same
changed-Agree k none current status problem stale key_stale t h = (
  record {
    status = record {
      not_missing = unfold status_eq in ground arith;
      error_iff = is_some-frozen_error current problem ∙ t.2;
    };
    not_ready = t.3;
    fresh = t.0;
    key_fresh = t.1;
    no_value = inl refl;
  },
  refl,
)
changed-Agree k (some r) current status problem stale key_stale t h = (
  record {
    status = record {
      not_missing = t.2.not_missing;
      error_iff = is_some-frozen_error current problem ∙ t.2.error_iff;
    };
    same_stale = t.0;
    same_value = inl refl;
    keyed = t.1;
  },
  refl,
)

-- A snapshot with nothing to say belongs to a key with no record.
pub nothing-no_record :
    (k : String) (r : Option ResourceRecord) (status : ResourceStatus)
    (problem : Option ResourceErrorDetail) (stale key_stale : Bool)
    → Target k r key_stale status problem stale
    → is_nothing (value_of r) status problem stale ≡ true
    → (r ≡ none) × (key_stale ≡ false)
unfolding is_nothing
nothing-no_record k none status problem stale key_stale t h = (refl, t.1)
nothing-no_record k (some r) status problem stale key_stale t h = ground (arith, t.2.not_missing)
