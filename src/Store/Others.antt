-- ===== src/Store/Others.antt =====
-- What the methods of packages/core/src/store.ts do to the resources that they are not called for:
-- these keep their record and their snapshot, or are evicted.
use flux_fast.Shared.{
  ℕ, String, ◌≡◌, refl, ◌∙◌, ◌≢◌, ◌⊎◌, inl, inr, Bool, false, not, Option, none, some, List, [],
  ◌∷◌, ite, arith, str_dec, elem, length, if◌then◌else◌, if_neg, either_branch, add,
}
use flux_fast.Shared.JsMap.{get, set, delete, has, get-set, get-delete}
use flux_fast.Value.{Value}
use flux_fast.Store.State.{
  ResourceRecord, ResourceStatus, ready, error, pending, ResourceErrorDetail, ResourceStateSnapshot,
  ResourceStore,
}
use flux_fast.Store.Internals.{
  notify, touch_lru, evict_if_needed, drop_snapshot, put_snapshot, update_state_snapshot,
  invalidate, remove_from_lru,
}
use flux_fast.Store.Operations.{get_state_snapshot, set_record}
use flux_fast.Store.Changes.{mark, mark_pending, set_resource_error}
use flux_fast.Store.Eviction.{evicted, records-invalidate, state_snapshots-invalidate}
use flux_fast.Store.Limits.{evict_loop_inv}

-- Something is kept as it was, or is gone.
abbrev pub KeptOrGone {ℓ} : {A : Type ℓ} → Option A → Option A → Type ℓ
KeptOrGone before after = (after ≡ none) ⊎ (after ≡ before)

-- What `t` holds of a key, `s` held.
pub record Untouched (key : String) (s t : ResourceStore) : Type 0 where
  pub same_record : KeptOrGone (get str_dec key s.records) (get str_dec key t.records)
  pub same_snapshot :
      KeptOrGone (get str_dec key s.state_snapshots) (get str_dec key t.state_snapshots)

KeptOrGone-trans :
    {A : Type 0} {a b c : Option A} → KeptOrGone a b → KeptOrGone b c → KeptOrGone a c
KeptOrGone-trans p (inl gone) = inl gone
KeptOrGone-trans (inl gone) (inr same) = inl (same ∙ gone)
KeptOrGone-trans (inr kept) (inr same) = inr (same ∙ kept)

pub Untouched-trans :
    {key : String} {s t u : ResourceStore}
    → Untouched key s t
    → Untouched key t u
    → Untouched key s u
Untouched-trans p q = record {
  same_record = KeptOrGone-trans p.same_record q.same_record;
  same_snapshot = KeptOrGone-trans p.same_snapshot q.same_snapshot;
}

pub Untouched-refl : (key : String) (s : ResourceStore) → Untouched key s s
Untouched-refl key s = record { same_record = inr refl; same_snapshot = inr refl }

gone_or : {A : Type 0} {P : Type 0} (d : Dec P) (o : Option A) → KeptOrGone o (ite d none o)
gone_or (yes p) o = inl refl
gone_or (no n) o = inr refl

invalidate-Untouched : (o key : String) (s : ResourceStore) → Untouched key s (invalidate o s)
invalidate-Untouched o key s = record {
  same_record =
      rw (records-invalidate o key s) (gone_or (str_dec o key) (get str_dec key s.records));
  same_snapshot =
      rw (state_snapshots-invalidate o key s)
        (gone_or (str_dec o key) (get str_dec key s.state_snapshots));
}

-- Eviction changes nothing that it does not take.
evict_if_needed-Untouched : (key : String) (s : ResourceStore) → Untouched key s (evict_if_needed s)
unfolding evict_if_needed
evict_if_needed-Untouched key s =
    evict_loop_inv (Untouched key s) (λ t o rest over l p. Untouched-trans p (round t o rest))
      (length s.lru_order) s (Untouched-refl key s)
  where
    round :
        (t : ResourceStore) (o : String) (rest : List String) → Untouched key t (evicted o rest t)
    round t o rest =
        let q : Untouched key (record t { lru_order = rest }) (evicted o rest t) =
          invalidate-Untouched o key (record t { lru_order = rest }) in
        record { same_record = q.same_record; same_snapshot = q.same_snapshot }

module _ (k key : String) (ne : k ≢ key) where
  drop_snapshot-Untouched : (s : ResourceStore) → Untouched key s (drop_snapshot k s)
  drop_snapshot-Untouched s =
      either_branch (λ (t : ResourceStore). Untouched key s t) (not (has str_dec k s.records))
        (remove_from_lru k (record s { state_snapshots = delete str_dec k s.state_snapshots }))
        (record s { state_snapshots = delete str_dec k s.state_snapshots }) gone gone
    where
      gone :
          {l : List String}
          → Untouched key s
              (record s { lru_order = l; state_snapshots = delete str_dec k s.state_snapshots })
      gone = record {
        same_record = inr refl;
        same_snapshot =
            inr (get-delete str_dec k key s.state_snapshots ∙ if_neg (str_dec k key) ne none _);
      }

  put_snapshot-Untouched :
      (snapshot : ResourceStateSnapshot) (s : ResourceStore)
      → Untouched key s (put_snapshot k snapshot s)
  put_snapshot-Untouched snapshot s = record {
    same_record = inr refl;
    same_snapshot = inr (
        get-set str_dec k key snapshot s.state_snapshots
        ∙ if_neg (str_dec k key) ne (some snapshot) _);
  }

  update_state_snapshot-Untouched :
      (status : ResourceStatus) (problem : Option ResourceErrorDetail) (stale : Bool)
      (s : ResourceStore)
      → Untouched key s (update_state_snapshot k status problem stale s).0
  unfolding update_state_snapshot
  update_state_snapshot-Untouched status problem stale s =
      either_branch (λ (r : ResourceStore × Bool). Untouched key s r.0) _ _ _ (Untouched-refl key s)
        (either_branch (λ (r : ResourceStore × Bool). Untouched key s r.0) _ _ _
          (drop_snapshot-Untouched s)
          (Untouched-trans (put_snapshot-Untouched _ s) (evict_if_needed-Untouched key _)))

  notify-Untouched : (s t : ResourceStore) → Untouched key s t → Untouched key s (notify k t)
  unfolding notify
  notify-Untouched s t h = record { same_record = h.same_record; same_snapshot = h.same_snapshot }

  mark-Untouched :
      (status : ResourceStatus) (problem : Option ResourceErrorDetail) (s : ResourceStore)
      → Untouched key s (mark k status problem s)
  unfolding mark
  mark-Untouched status problem s =
      either_branch (λ (t : ResourceStore). Untouched key s t) _ _ _ (notify-Untouched s _ after)
        after
    where
      s₁ : ResourceStore
      s₁ =
          if has str_dec k s.records
          then record s { stale_keys = add str_dec k s.stale_keys }
          else s

      first : Untouched key s s₁
      first =
          either_branch (λ (t : ResourceStore). Untouched key s t) (has str_dec k s.records) _ _
            (record { same_record = inr refl; same_snapshot = inr refl }) (Untouched-refl key s)

      after :
          Untouched key s (update_state_snapshot k status problem (has str_dec k s.records) s₁).0
      after =
          Untouched-trans first
            (update_state_snapshot-Untouched status problem (has str_dec k s.records) s₁)

  pub set_resource_error-Untouched :
      (problem : ResourceErrorDetail) (s : ResourceStore)
      → Untouched key s (set_resource_error k problem s)
  unfolding set_resource_error
  set_resource_error-Untouched problem s = mark-Untouched error (some problem) s

  pub set_record-Untouched :
      (now : ℕ) (version : String) (value : Value) (s : ResourceStore)
      → Untouched key s (set_record now k version value s).0
  unfolding set_record
  set_record-Untouched now version value s =
      either_branch (λ (r : ResourceStore × Bool). Untouched key s r.0) _ _ _ (moved first)
        (notify-Untouched s _ (
          Untouched-trans
            (moved (
              Untouched-trans (Untouched-trans first (put _ (get_state_snapshot k s).0))
                (update_state_snapshot-Untouched ready none false _)))
            (evict_if_needed-Untouched key _)))
    where
      moved : {t : ResourceStore} → Untouched key s t → Untouched key s (touch_lru k t)
      moved h = record { same_record = h.same_record; same_snapshot = h.same_snapshot }

      first : Untouched key s (get_state_snapshot k s).0
      first =
          unfold get_state_snapshot in
          either_branch (λ (t : ResourceStore). Untouched key s t) _ _ _
            (moved (Untouched-refl key s)) (Untouched-refl key s)

      put :
          (rec : ResourceRecord) (t : ResourceStore) {stale : List String}
          → Untouched key t (record t { records = set str_dec k rec t.records; stale_keys = stale })
      put rec t = record {
        same_record =
            inr (get-set str_dec k key rec t.records ∙ if_neg (str_dec k key) ne (some rec) _);
        same_snapshot = inr refl;
      }

pub mark_pending-Untouched :
    (key : String) (keys : List String) (s : ResourceStore)
    → elem str_dec key keys ≡ false
    → Untouched key s (mark_pending keys s)
unfolding mark_pending elem
mark_pending-Untouched key [] s h = Untouched-refl key s
mark_pending-Untouched key (k ∷ keys) s h =
    Untouched-trans (mark-Untouched k key (λ p. ground (arith, p)) pending none s)
      (mark_pending-Untouched key keys (mark k pending none s) (ground arith))
