-- ===== src/Store/Methods.antt =====
-- The methods of ResourceStore in packages/core/src/store.ts keep the store valid.
use flux_fast.Shared.{
  String, ◌≡◌, refl, ◌∙◌, Bool, true, false, Option, none, some, is_some, List, arith, elem,
  str_dec,
}
use flux_fast.Shared.JsMap.{Map, get, has, size-delete-le}
use flux_fast.Store.State.{ResourceRecord, ResourceStateSnapshot, Callback, Call, ResourceStore}
use flux_fast.Store.Internals.{touch_lru, notify, invalidate}
use flux_fast.Store.Operations.{get_snapshot, get_state_snapshot, get_record}
use flux_fast.Store.Validity.{Agree, IsConsistent, IsValid}
use flux_fast.Store.Eviction.{invalidate-IsConsistent}
use flux_fast.Store.Snapshots.{IsStored, touch_lru-IsConsistent}

-- Validity does not depend on who listens.
pub listeners-IsValid :
    (s : ResourceStore) (subs : Map String (List Callback)) (all : List Callback)
    (calls : List Call)
    → IsValid s
    → IsValid (record s { subscribers = subs; global_subscribers = all; calls = calls })
listeners-IsValid s subs all calls h = record {
  consistent = record {
    shaped = record {
      positive = h.consistent.shaped.positive;
      lru_order = h.consistent.shaped.lru_order;
      stale_keys = h.consistent.shaped.stale_keys;
      records = h.consistent.shaped.records;
      state_snapshots = h.consistent.shaped.state_snapshots;
    };
    agree = h.consistent.agree;
  };
  fits = record { records = h.fits.records; state_snapshots = h.fits.state_snapshots };
}

pub notify-IsValid : (k : String) (s : ResourceStore) → IsValid s → IsValid (notify k s)
unfolding notify
notify-IsValid k s h = listeners-IsValid s s.subscribers s.global_subscribers _ h

-- A key with a record has a snapshot, and both are in the LRU order.
pub has_snapshot :
    (k : String) (s : ResourceStore)
    → IsConsistent s
    → has str_dec k s.records ≡ true
    → has str_dec k s.state_snapshots ≡ true
has_snapshot k s h p = go (get str_dec k s.records) (get str_dec k s.state_snapshots) (h.agree k) p
  where
    go :
        (r : Option ResourceRecord) (st : Option ResourceStateSnapshot)
        → Agree k r st (elem str_dec k s.stale_keys) (elem str_dec k s.lru_order)
        → is_some r ≡ true
        → is_some st ≡ true
    go none st a p = cc
    go (some r) none a p = absurd a
    go (some r) (some st) a p = refl

pub touch_lru-IsValid :
    (k : String) (s : ResourceStore)
    → IsValid s
    → has str_dec k s.state_snapshots ≡ true
    → IsValid (touch_lru k s)
touch_lru-IsValid k s h p = record {
  consistent = touch_lru-IsConsistent k s h.consistent p;
  fits = record { records = h.fits.records; state_snapshots = h.fits.state_snapshots };
}

-- What a consistent store says of one key, as an update of that key wants it.
pub IsReady_of :
    (k : String) (s : ResourceStore)
    → IsConsistent s
    → IsStored (get str_dec k s.state_snapshots)
      × (elem str_dec k s.lru_order ≡ has str_dec k s.state_snapshots)
      × (has str_dec k s.records ≡ false → elem str_dec k s.stale_keys ≡ false)
IsReady_of k s h =
    go (get str_dec k s.records) (get str_dec k s.state_snapshots) (elem str_dec k s.stale_keys)
      (elem str_dec k s.lru_order) (h.agree k)
  where
    go :
        (r : Option ResourceRecord) (st : Option ResourceStateSnapshot) (stale listed : Bool)
        → Agree k r st stale listed
        → IsStored st × (listed ≡ is_some st) × (is_some r ≡ false → stale ≡ false)
    go none none stale listed a = (tt, a.1, λ _. a.0)
    go none (some st) stale listed a = (a.0.status.not_missing, a.1, λ _. a.0.key_fresh)
    go (some r) none stale listed a = absurd a
    go (some r) (some st) stale listed a = (a.0.status.not_missing, a.1, λ p. cc)

module _ (k : String) (s : ResourceStore) (h : IsValid s) where
  pub invalidate-IsValid : IsValid (invalidate k s)
  unfolding invalidate notify
  invalidate-IsValid = record {
    consistent =
        invalidate-IsConsistent k s h.consistent.shaped (λ j _. h.consistent.agree j)
          (λ _ p. (IsReady_of k s h.consistent).1 ∙ p);
    fits = ground (
      arith,
      h.fits.records,
      h.fits.state_snapshots,
      size-delete-le str_dec k s.records,
      size-delete-le str_dec k s.state_snapshots,
    );
  }

  pub get_state_snapshot-IsValid : IsValid (get_state_snapshot k s).0
  unfolding get_state_snapshot
  get_state_snapshot-IsValid =
      ground (arith, h, touch_lru-IsValid k s h, has_snapshot k s h.consistent)

  pub get_record-IsValid : IsValid (get_record k s).0
  unfolding get_record
  get_record-IsValid = ground (arith, h, touch_lru-IsValid k s h, has_snapshot k s h.consistent)

  pub get_snapshot-IsValid : IsValid (get_snapshot k s).0
  unfolding get_snapshot
  get_snapshot-IsValid = ground (arith, h, touch_lru-IsValid k s h, has_snapshot k s h.consistent)
