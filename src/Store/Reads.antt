-- ===== src/Store/Reads.antt =====
-- What can be read from the ResourceStore of packages/core/src/store.ts after `set`, and what a
-- known-versions header may hold.
use flux_fast.Shared.{
  ℕ, String, ◌≡◌, refl, sym, ap, subst, ◌∙◌, ◌≢◌, inl, inr, Bool, true, false, Bool-cases, Option,
  none, some, is_some, get_or, arith, elem, remove, str_dec, eq_iff, remove-Distinct,
  elem-remove_ne, elem-remove_self, bool_eq,
}
use flux_fast.Shared.JsMap.{get, get-set}
use flux_fast.Value.{Value}
use flux_fast.Store.State.{
  ResourceRecord, ResourceStatus, missing, ready, status_eq, ResourceErrorDetail,
  ResourceStateSnapshot, missing_resource_state, same_error, ResourceStore,
}
use flux_fast.Store.Internals.{
  touch_lru, notify, value_of, frozen_error, is_unchanged, is_nothing, put_snapshot,
  evict_if_needed, update_state_snapshot,
}
use flux_fast.Store.Operations.{get_state_snapshot, set_record, up_to_date, is_stale}
use flux_fast.Store.Validity.{Agree, IsValid}
use flux_fast.Store.Survival.{evict_if_needed-Spares}
use flux_fast.Store.Snapshots.{
  Target, put_snapshot-IsConsistent, changed-Agree, is_some-frozen_error, status_eq→eq,
  touch_lru-IsConsistent,
}
use flux_fast.Store.Update.{IsReady}
use flux_fast.Store.Methods.{has_snapshot, get_state_snapshot-IsValid}
use flux_fast.Store.Writes.{
  write, get-write, write-update, write-IsReady, records-get_state_snapshot,
}

-- The snapshot of a key with the status, the error and the staleness asked for.
pub record Shows (k : String) (status : ResourceStatus) (problem : Option ResourceErrorDetail)
    (stale : Bool) (t : ResourceStore) : Type 0 where
  pub snapshot : ResourceStateSnapshot
  pub found : get str_dec k t.state_snapshots ≡ some snapshot
  pub same_status : snapshot.status ≡ status
  pub same_problem : is_some snapshot.error ≡ is_some problem
  pub same_stale : snapshot.stale ≡ stale

bool_eq→eq : (a b : Bool) → bool_eq a b ≡ true → a ≡ b
bool_eq→eq a b h = ground arith

unchanged-Shows :
    (k : String) (status : ResourceStatus) (problem : Option ResourceErrorDetail) (stale : Bool)
    (s : ResourceStore) (r : ResourceRecord) (o : Option ResourceStateSnapshot)
    → get str_dec k s.state_snapshots ≡ o
    → status_eq status missing ≡ false
    → is_unchanged (get_or o missing_resource_state) r.value status problem stale ≡ true
    → Shows k status problem stale s
unfolding is_unchanged same_error
unchanged-Shows k status problem stale s r none e m u =
    absurd (ground (arith, status_eq→eq missing status))
unchanged-Shows k status problem stale s r (some st) e m u = record {
  snapshot = st;
  found = e;
  same_status = status_eq→eq st.status status (ground arith);
  same_problem = ground arith;
  same_stale = bool_eq→eq st.stale stale (ground arith);
}

-- After an update of a key with a record, its snapshot says what was asked for.
pub update_state_snapshot-Shows :
    (k : String) (status : ResourceStatus) (problem : Option ResourceErrorDetail) (stale : Bool)
    (s : ResourceStore) (r : ResourceRecord)
    → IsReady k s
    → get str_dec k s.records ≡ some r
    → Target k (some r) (elem str_dec k s.stale_keys) status problem stale
    → Shows k status problem stale (update_state_snapshot k status problem stale s).0
unfolding update_state_snapshot
update_state_snapshot-Shows k status problem stale s r set_up found target =
    elim (Bool-cases (is_unchanged current value status problem stale)) [
      | inl e ↦
          rw (e, update_state_snapshot)
            (unchanged-Shows k status problem stale s r (get str_dec k s.state_snapshots) refl
              target.2.not_missing (subst (says (is_unchanged current)) value_is e))
      | inr u ↦
          rw (u, something, update_state_snapshot)
            (put next own (refl, is_some-frozen_error current.error problem, refl))
    ]
  where
    says : (Value → ResourceStatus → Option ResourceErrorDetail → Bool → Bool) → Value → Type 0
    says f v = f v status problem stale ≡ true

    current : ResourceStateSnapshot
    current = get_or (get str_dec k s.state_snapshots) missing_resource_state

    value : Value
    value = value_of (get str_dec k s.records)

    value_is : value ≡ r.value
    value_is = ap value_of found

    something : is_nothing value status problem stale ≡ false
    something = unfold is_nothing in ground (arith, target.2.not_missing)

    next : ResourceStateSnapshot
    next = record {
      value = value;
      status = status;
      error = frozen_error current.error problem;
      stale = stale;
    }

    own : Agree k (get str_dec k s.records) (some next) (elem str_dec k s.stale_keys) true
    own =
        changed-Agree k (get str_dec k s.records) current.error status problem stale
          (elem str_dec k s.stale_keys)
          (subst (λ o. Target k o (elem str_dec k s.stale_keys) status problem stale) (sym found)
            target)
          something

    put :
        (st : ResourceStateSnapshot)
        → Agree k (get str_dec k s.records) (some st) (elem str_dec k s.stale_keys) true
        → (st.status ≡ status) × (is_some st.error ≡ is_some problem) × (st.stale ≡ stale)
        → Shows k status problem stale (evict_if_needed (put_snapshot k st s))
    put st own (e₀, e₁, e₂) =
        let c = put_snapshot-IsConsistent k st s set_up.shaped set_up.others own in
        let spared = evict_if_needed-Spares k (remove str_dec k s.lru_order) _ c refl in
        record {
          snapshot = st;
          found = spared.same_snapshot ∙ ground (arith, get-set str_dec k k st s.state_snapshots);
          same_status = e₀;
          same_problem = e₁;
          same_stale = e₂;
        }

Shows-cong :
    {k : String} {status : ResourceStatus} {problem : Option ResourceErrorDetail} {stale : Bool}
    (s t : ResourceStore)
    → Shows k status problem stale s
    → get str_dec k t.state_snapshots ≡ get str_dec k s.state_snapshots
    → Shows k status problem stale t
Shows-cong s t w e = record {
  snapshot = w.snapshot;
  found = e ∙ w.found;
  same_status = w.same_status;
  same_problem = w.same_problem;
  same_stale = w.same_stale;
}

-- What a caller of `set` can read back.
pub record Holds (now : ℕ) (k version : String) (value : Value) (t : ResourceStore) (updated : Bool)
    : Type 0 where
  pub resource : ResourceRecord
  pub found : get str_dec k t.records ≡ some resource
  pub same_version : resource.version ≡ version
  pub shows : Shows k ready none false t
  pub written :
      updated ≡ true
      → resource ≡ record { key = k; version = version; value = value; updated_at = now }

module _ (now : ℕ) (k version : String) (value : Value) (s : ResourceStore) (h : IsValid s) where
  abbrev new_record : ResourceRecord
  new_record = record { key = k; version = version; value = value; updated_at = now }

  abbrev written : ResourceStore
  written = write k new_record (remove str_dec k s.stale_keys) s

  abbrev shown : ResourceStore
  shown = (update_state_snapshot k ready none false written).0

  set_record-written :
      Holds now k version value (notify k (evict_if_needed (touch_lru k shown))) true
  unfolding notify
  set_record-written =
      let stale_gone = elem-remove_self str_dec k s.stale_keys h.consistent.shaped.stale_keys in
      let d = remove-Distinct str_dec k s.stale_keys h.consistent.shaped.stale_keys in
      let others = (λ (j : String) (ne : k ≢ j). elem-remove_ne str_dec k j s.stale_keys ne) in
      let u = write-update k new_record _ false s h.consistent d others stale_gone refl in
      let there = u.same_record ∙ get-write k new_record s.records in
      let c =
        touch_lru-IsConsistent k shown u.consistent
          (has_snapshot k shown u.consistent (ap is_some there)) in
      let spared =
        evict_if_needed-Spares k (remove str_dec k shown.lru_order) (touch_lru k shown) c refl in
      record {
        resource = new_record;
        found = spared.same_record ∙ there;
        same_version = refl;
        shows =
            Shows-cong shown _
              (update_state_snapshot-Shows k ready none false written new_record
                (write-IsReady k new_record _ s h.consistent d others)
                (get-write k new_record s.records)
                (
                  sym stale_gone,
                  refl,
                  record {
                    not_missing = unfold status_eq in refl;
                    error_iff = unfold status_eq in refl;
                  },
                ))
              spared.same_snapshot;
        written = λ _. refl;
      }

  -- A record that is up to date shows as such.
  set_record-kept :
      (o : Option ResourceRecord)
      → get str_dec k s.records ≡ o
      → up_to_date o version
          (is_stale k s)
          (get_or (get str_dec k s.state_snapshots) missing_resource_state)
        ≡ true
      → Holds now k version value s false
  set_record-kept none e u = cc
  set_record-kept (some r) e u = record {
    resource = r;
    found = e;
    same_version = (eq_iff r.version version).0 (ground arith);
    shows = shown_by (get str_dec k s.state_snapshots) refl u (
        subst
          (λ o.
            Agree k o (get str_dec k s.state_snapshots) (elem str_dec k s.stale_keys)
              (elem str_dec k s.lru_order))
          e (h.consistent.agree k));
    written = λ p. cc;
  }
    where
      shown_by :
          (st : Option ResourceStateSnapshot)
          → get str_dec k s.state_snapshots ≡ st
          → up_to_date (some r) version (is_stale k s) (get_or st missing_resource_state) ≡ true
          → Agree k (some r) st (elem str_dec k s.stale_keys) (elem str_dec k s.lru_order)
          → Shows k ready none false s
      shown_by none f v a = absurd a
      shown_by (some st) f v a = record {
        snapshot = st;
        found = f;
        same_status = status_eq→eq st.status ready (ground arith);
        same_problem = ground arith;
        same_stale = a.0.same_stale ∙ ground arith;
      }

state_snapshot_of :
    (k : String) (s : ResourceStore)
    → (get_state_snapshot k s).1
      ≡ get_or (get str_dec k (get_state_snapshot k s).0.state_snapshots) missing_resource_state
unfolding get_state_snapshot
state_snapshot_of k s = ground arith

-- After `set` on a valid store, `key` has a record with the version that was given and a snapshot
-- that is ready, with no error and not stale; eviction never takes the key that was just set. If
-- `set` answers `true`, the record is the one that was given, with the time of the call.
pub set_record-Holds :
    (now : ℕ) (k version : String) (value : Value) (s : ResourceStore)
    → IsValid s
    → Holds now k version value
        (set_record now k version value s).0
        (set_record now k version value s).1
unfolding set_record
set_record-Holds now k version value s h =
    elim (Bool-cases (up_to_date (get str_dec k s.records) version (is_stale k s₁) current)) [
      | inl e ↦ rw (e, set_record) (kept e)
      | inr e ↦ rw (e, set_record) (set_record-written now k version value s₁ h₁)
    ]
  where
    s₁ : ResourceStore
    s₁ = (get_state_snapshot k s).0

    current : ResourceStateSnapshot
    current = (get_state_snapshot k s).1

    h₁ : IsValid s₁
    h₁ = get_state_snapshot-IsValid k s h

    kept :
        up_to_date (get str_dec k s.records) version (is_stale k s₁) current ≡ true
        → Holds now k version value (touch_lru k s₁) false
    kept e =
        let w =
          set_record-kept now k version value s₁ h₁ (get str_dec k s.records)
            (ap (get str_dec k) (records-get_state_snapshot k s))
            (ap (up_to_date (get str_dec k s.records) version (is_stale k s₁))
                (sym (state_snapshot_of k s))
              ∙ e) in
        record {
          resource = w.resource;
          found = w.found;
          same_version = w.same_version;
          shows = Shows-cong s₁ (touch_lru k s₁) w.shows refl;
          written = w.written;
        }
