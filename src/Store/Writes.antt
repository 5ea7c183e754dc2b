-- ===== src/Store/Writes.antt =====
-- `set`, `patch`, `invalidate` and the marks of packages/core/src/store.ts keep the store valid.
use flux_fast.Shared.{
  ℕ, String, ◌≡◌, refl, sym, ap, ◌∙◌, ◌≢◌, inl, inr, Bool, true, false, Bool-cases, Option, none,
  some, is_some, List, if_neg, arith, elem, remove, str_dec, Distinct, elem-remove_ne,
  elem-remove_self, remove-Distinct,
}
use flux_fast.Shared.JsMap.{Map, get, has, set, get-set, set-Distinct}
use flux_fast.Value.{Value}
use flux_fast.Store.State.{ResourceRecord, ready, status_eq, ResourceStateSnapshot, ResourceStore}
use flux_fast.Store.Internals.{touch_lru, notify, evict_if_needed, update_state_snapshot}
use flux_fast.Store.Operations.{get_state_snapshot, set_record, up_to_date, is_stale}
use flux_fast.Store.Validity.{IsConsistent, IsValid}
use flux_fast.Store.Limits.{evict_if_needed-IsValid}
use flux_fast.Store.Snapshots.{touch_lru-IsConsistent}
use flux_fast.Store.Update.{IsReady, Updates, update_state_snapshot-Updates}
use flux_fast.Store.Methods.{
  notify-IsValid, has_snapshot, touch_lru-IsValid, IsReady_of, get_state_snapshot-IsValid,
}

-- A record of `k` is written, and `k` leaves the stale keys or joins them.
abbrev pub write : String → ResourceRecord → List String → ResourceStore → ResourceStore
write k r stale s = record s { records = set str_dec k r s.records; stale_keys = stale }

pub write-IsReady :
    (k : String) (r : ResourceRecord) (stale : List String) (s : ResourceStore)
    → IsConsistent s
    → Distinct str_dec stale
    → ((j : String) → k ≢ j → elem str_dec j stale ≡ elem str_dec j s.stale_keys)
    → IsReady k (write k r stale s)
write-IsReady k r stale s h d others = record {
  shaped = record {
    positive = h.shaped.positive;
    lru_order = h.shaped.lru_order;
    stale_keys = d;
    records = set-Distinct str_dec k r s.records h.shaped.records;
    state_snapshots = h.shaped.state_snapshots;
  };
  others = λ j ne.
      rw
        (
          others j ne,
          get-set str_dec k j r s.records,
          if_neg (str_dec k j) ne (some r) (get str_dec j s.records),
        )
        (h.agree j);
  stored = (IsReady_of k s h).0;
  tracked = (IsReady_of k s h).1;
}

pub get-write :
    (k : String) (r : ResourceRecord) (m : Map String ResourceRecord)
    → get str_dec k (set str_dec k r m) ≡ some r
get-write k r m = ground (arith, get-set str_dec k k r m)

-- After the write, an update to `ready` and a touch, the store is consistent and the record there.
pub write-update :
    (k : String) (r : ResourceRecord) (stale : List String) (b : Bool) (s : ResourceStore)
    → IsConsistent s
    → Distinct str_dec stale
    → ((j : String) → k ≢ j → elem str_dec j stale ≡ elem str_dec j s.stale_keys)
    → elem str_dec k stale ≡ b
    → r.key ≡ k
    → Updates k (write k r stale s) (update_state_snapshot k ready none b (write k r stale s)).0
write-update k r stale b s h d others here keyed =
    update_state_snapshot-Updates k ready none b (write k r stale s)
      (write-IsReady k r stale s h d others)
      (rw get-write (
        sym here,
        keyed,
        record { not_missing = unfold status_eq in refl; error_iff = unfold status_eq in refl },
      ))

set_record-go :
    (now : ℕ) (k version : String) (value : Value) (s : ResourceStore)
    → IsValid s
    → IsValid (
        notify k (
          evict_if_needed (
            touch_lru k
              (update_state_snapshot k ready none false (
                write k
                  (record { key = k; version = version; value = value; updated_at = now })
                  (remove str_dec k s.stale_keys)
                  s)).0)))
set_record-go now k version value s h =
    let u =
      write-update k (record { key = k; version = version; value = value; updated_at = now })
        (remove str_dec k s.stale_keys) false s h.consistent
        (remove-Distinct str_dec k s.stale_keys h.consistent.shaped.stale_keys)
        (λ j ne. elem-remove_ne str_dec k j s.stale_keys ne)
        (elem-remove_self str_dec k s.stale_keys h.consistent.shaped.stale_keys) refl in
    notify-IsValid k _ (
      evict_if_needed-IsValid _ (
        touch_lru-IsConsistent k _ u.consistent
          (has_snapshot k _ u.consistent (ap is_some (u.same_record ∙ get-write k _ s.records)))))

pub records-get_state_snapshot :
    (k : String) (s : ResourceStore) → (get_state_snapshot k s).0.records ≡ s.records
unfolding get_state_snapshot
records-get_state_snapshot k s = ground arith

has_of_up_to_date :
    (r : Option ResourceRecord) (version : String) (stale : Bool) (current : ResourceStateSnapshot)
    → up_to_date r version stale current ≡ true
    → is_some r ≡ true
has_of_up_to_date none version stale current e = cc
has_of_up_to_date (some r) version stale current e = refl

module _ (k : String) (s : ResourceStore) (h : IsValid s) where
  pub set_record-IsValid :
      (now : ℕ) (version : String) (value : Value) → IsValid (set_record now k version value s).0
  unfolding set_record
  set_record-IsValid now version value =
      elim (Bool-cases (up_to_date (get str_dec k s.records) version (is_stale k s₁) current)) [
        | inl e ↦
            rw (e, set_record)
              (touch_lru-IsValid k s₁ h₁ (
                has_snapshot k s₁ h₁.consistent (
                  ap (has str_dec k) (records-get_state_snapshot k s)
                  ∙ has_of_up_to_date (get str_dec k s.records) version (is_stale k s₁) current e)))
        | inr e ↦ rw (e, set_record) (set_record-go now k version value s₁ h₁)
      ]
    where
      s₁ : ResourceStore
      s₁ = (get_state_snapshot k s).0

      current : ResourceStateSnapshot
      current = (get_state_snapshot k s).1

      h₁ : IsValid s₁
      h₁ = get_state_snapshot-IsValid k s h
