-- ===== src/Router/Soundness.antt =====
-- A router of packages/core/src/router.ts is sound where each of its parts is: the store, the live
-- manager, the prefetches, the page cache, and the epochs up to the counter. The small methods keep
-- it so.
use flux_fast.Shared.{
  ℕ, suc, ◌≤◌, String, Bool, true, false, Option, none, some, List, [], ◌∷◌, arith, str_dec,
  either_branch, if◌then◌else◌,
}
use flux_fast.Shared.JsMap.{Map}
use flux_fast.Shared.JsMap
use flux_fast.Store.State.{ResourceStore, ResourceRecord}
use flux_fast.Store.Validity.{IsValid}
use flux_fast.Store.Operations.{get_record}
use flux_fast.Store.Methods.{get_record-IsValid, invalidate-IsValid}
use flux_fast.Store.Writes.{set_record-IsValid}
use flux_fast.Store.Patches.{mark_stale-IsValid}
use flux_fast.Live.State.{LiveManager}
use flux_fast.Live.Coherence.{IsCoherent}
use flux_fast.Prefetch.{PrefetchManager}
use flux_fast.Prefetch.Laws.{IsBounded}
use flux_fast.Cache.{PageCache}
use flux_fast.Cache.Bounds.{IsPages}
use flux_fast.Epochs
use flux_fast.Epochs.{ResourceEpochMap, ResourceEpoch}
use flux_fast.Epochs.Laws.{epoch_of, authoritative_of}
use flux_fast.Epochs.Bounds.{IsHistory, IsHistory-raise, set-IsHistory, get-le}
use flux_fast.Router.State.{Router, DeferredBatch}
use flux_fast.Router.Basics.{
  inherited, bump_resource_epoch, restored, restore, give_up_key, give_up_if_current, give_up_keys,
  give_up_loads, supersede_live_work, abort, abort_active_visit, give_up_batch, abort_batch,
  abort_active_deferred, epoch_of_key, same_epoch,
}

pub record AreSound (s : ResourceStore) (l : LiveManager) (f : PrefetchManager) (p : PageCache)
    (m : ResourceEpochMap) (counter : ℕ) : Type 0 where
  pub store : IsValid s
  pub live : IsCoherent l
  pub prefetches : IsBounded f
  pub pages : IsPages p
  pub epochs : IsHistory counter m

abbrev pub IsSound : Router → Type 0
IsSound r =
    AreSound r.resource_store r.live_manager r.prefetch_manager r.page_cache r.resource_epochs
      r.resource_epoch_counter

-- One part is replaced by another that is sound.
module _ {s : ResourceStore} {l : LiveManager} {f : PrefetchManager} {p : PageCache}
    {m : ResourceEpochMap} {n : ℕ} (h : AreSound s l f p m n) where
  pub store-AreSound : {t : ResourceStore} → IsValid t → AreSound t l f p m n
  store-AreSound v = record {
    store = v;
    live = h.live;
    prefetches = h.prefetches;
    pages = h.pages;
    epochs = h.epochs;
  }

  pub live-AreSound : {t : LiveManager} → IsCoherent t → AreSound s t f p m n
  live-AreSound v = record {
    store = h.store;
    live = v;
    prefetches = h.prefetches;
    pages = h.pages;
    epochs = h.epochs;
  }

  pub prefetches-AreSound : {t : PrefetchManager} → IsBounded t → AreSound s l t p m n
  prefetches-AreSound v = record {
    store = h.store;
    live = h.live;
    prefetches = v;
    pages = h.pages;
    epochs = h.epochs;
  }

  pub pages-AreSound : {t : PageCache} → IsPages t → AreSound s l f t m n
  pages-AreSound v = record {
    store = h.store;
    live = h.live;
    prefetches = h.prefetches;
    pages = v;
    epochs = h.epochs;
  }

inherited-le :
    (counter : ℕ) (o : Option ResourceEpoch)
    → (epoch_of o ≤ counter) × (authoritative_of o ≤ epoch_of o)
    → (inherited o).0 ≤ counter
inherited-le counter none h = omega arith
inherited-le counter (some e) h = omega arith

pub bump_resource_epoch-IsSound :
    (key : String) (speculative : Bool) (r : Router)
    → IsSound r
    → IsSound (bump_resource_epoch key speculative r)
unfolding bump_resource_epoch
bump_resource_epoch-IsSound key speculative r h = record {
  store = h.store;
  live = h.live;
  prefetches = h.prefetches;
  pages = h.pages;
  epochs =
      set-IsHistory (suc r.resource_epoch_counter) key _ r.resource_epochs
        (record { ordered = below speculative; past = omega arith })
        (IsHistory-raise r.resource_epoch_counter (suc r.resource_epoch_counter) r.resource_epochs
          (omega arith) h.epochs);
}
  where
    below :
        (b : Bool)
        → (if b
            then (inherited (Epochs.get key r.resource_epochs)).0
            else suc r.resource_epoch_counter)
          ≤ suc r.resource_epoch_counter
    below false = omega arith
    below true = omega (
      arith,
      inherited-le r.resource_epoch_counter (Epochs.get key r.resource_epochs)
          (get-le r.resource_epoch_counter key r.resource_epochs h.epochs),
    )

restored-IsValid :
    (now : ℕ) (key : String) (p : ResourceStore × Option ResourceRecord)
    → IsValid p.0
    → IsValid (restored now key p).0
restored-IsValid now key (s, none) h = invalidate-IsValid key s h
restored-IsValid now key (s, some rec) h = set_record-IsValid key s h now rec.version rec.value

pub restore-IsValid :
    (now : ℕ) (key : String) (s : ResourceStore) → IsValid s → IsValid (restore now key s).0
unfolding restore
restore-IsValid now key s h =
    restored-IsValid now key (get_record key s) (get_record-IsValid key s h)

module _ (now : ℕ) where
  give_up_key-IsSound : (key : String) (r : Router) → IsSound r → IsSound (give_up_key now key r)
  unfolding give_up_key
  give_up_key-IsSound key r h = store-AreSound bumped (
      either_branch IsValid (restore now key (bump_resource_epoch key false r).resource_store).1 _ _
        (mark_stale-IsValid key _ valid) valid)
    where
      bumped : IsSound (bump_resource_epoch key false r)
      bumped = bump_resource_epoch-IsSound key false r h

      valid : IsValid (restore now key (bump_resource_epoch key false r).resource_store).0
      valid = restore-IsValid now key _ bumped.store

  give_up_if_current-IsSound :
      (key : String) (captured : Option ℕ) (r : Router)
      → IsSound r
      → IsSound (give_up_if_current now key captured r)
  give_up_if_current-IsSound key captured r h =
      either_branch IsSound (same_epoch (epoch_of_key key r) captured) _ _
        (give_up_key-IsSound key r h) h

  give_up_keys-IsSound :
      (epochs : Map String ℕ) (r : Router) → IsSound r → IsSound (give_up_keys now epochs r)
  unfolding give_up_keys
  give_up_keys-IsSound [] r h = h
  give_up_keys-IsSound ((key, epoch) ∷ rest) r h =
      give_up_keys-IsSound rest _ (give_up_if_current-IsSound key (some epoch) r h)

  give_up_loads-IsSound :
      (loads : Map ℕ (Map String ℕ)) (r : Router) → IsSound r → IsSound (give_up_loads now loads r)
  unfolding give_up_loads
  give_up_loads-IsSound [] r h = h
  give_up_loads-IsSound ((load, epochs) ∷ rest) r h =
      give_up_loads-IsSound rest _ (give_up_keys-IsSound epochs r h)

  pub supersede_live_work-IsSound : (r : Router) → IsSound r → IsSound (supersede_live_work now r)
  unfolding supersede_live_work
  supersede_live_work-IsSound r h = give_up_loads-IsSound r.active_live_load_epochs r h

  give_up_batch-IsSound :
      (keys : List String) (epochs : Map String ℕ) (r : Router)
      → IsSound r
      → IsSound (give_up_batch now keys epochs r)
  unfolding give_up_batch
  give_up_batch-IsSound [] epochs r h = h
  give_up_batch-IsSound (key ∷ keys) epochs r h =
      give_up_batch-IsSound keys epochs _
        (give_up_if_current-IsSound key (JsMap.get str_dec key epochs) r h)

  abort_batch-IsSound :
      (o : Option DeferredBatch) (r : Router) → IsSound r → IsSound (abort_batch now o r)
  abort_batch-IsSound none r h = h
  abort_batch-IsSound (some batch) r h = give_up_batch-IsSound batch.keys batch.epochs r h

  pub abort_active_deferred-IsSound :
      (r : Router) → IsSound r → IsSound (abort_active_deferred now r)
  unfolding abort_active_deferred
  abort_active_deferred-IsSound r h = abort_batch-IsSound r.active_deferred r h

pub abort_active_visit-IsSound : (r : Router) → IsSound r → IsSound (abort_active_visit r)
abort_active_visit-IsSound r h = go r.active_controller
  where
    go : (o : Option ℕ) → IsSound (abort o r)
    go none = h
    go (some c) = h
