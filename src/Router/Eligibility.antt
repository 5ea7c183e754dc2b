-- ===== src/Router/Eligibility.antt =====
-- Which parts of a page's envelope `applyPageEnvelope` of packages/core/src/router.ts applies.
use flux_fast.Shared.{
  ℕ, String, ◌≡◌, refl, ap, Bool, ◌&&◌, ◌||◌, Option, none, some, List, [], ◌∷◌, arith, str_dec,
  elem, add, get_or, is_yes, elem-add, true, Bool-cases, inl, inr, ◌⊎◌,
}
use flux_fast.Shared.JsMap.{Map, keys}
use flux_fast.Store.State.{ResourceErrorDetail}
use flux_fast.Store.Changes.{union}
use flux_fast.Envelope.{PageEnvelope}
use flux_fast.Router.State.{Router, Outside}
use flux_fast.Router.Basics.{or_root}
use flux_fast.Router.Applying.{page-Untouched}
use flux_fast.Store.Others.{Untouched}
use flux_fast.Router.Pages.{
  is_eligible, eligible_keys, entries_in, envelope_keys, keep_in, keep_entries, keep_keys, applied,
  apply_page_envelope,
}

-- A test of a key that is the same key.
at_same :
    (P : String → Bool) (key k : String)
    → (is_yes (str_dec k key) && P k) ≡ (is_yes (str_dec k key) && P key)
at_same P key k = go (str_dec k key)
  where
    go : (d : Dec (k ≡ key)) → (is_yes d && P k) ≡ (is_yes d && P key)
    go (yes p) = ap P p
    go (no n) = refl

elem-entries_in :
    {A : Type 0} (key : String) (allowed : List String) (entries : List (String × A))
    → elem str_dec key (keys (entries_in allowed entries))
      ≡ (elem str_dec key (keys entries) && elem str_dec key allowed)
unfolding elem
elem-entries_in key allowed [] = refl
elem-entries_in key allowed ((k, v) ∷ entries) =
    ground (arith, elem-entries_in key allowed entries, at_same (λ k. elem str_dec k allowed) key k)

elem-eligible_keys :
    (started_at_epoch : ℕ) (r : Router) (key : String) (some_keys : List String)
    → elem str_dec key (eligible_keys started_at_epoch r some_keys)
      ≡ (elem str_dec key some_keys && is_eligible started_at_epoch r key)
unfolding elem eligible_keys
elem-eligible_keys started_at_epoch r key [] = refl
elem-eligible_keys started_at_epoch r key (k ∷ ks) = ground (
  arith,
  elem-eligible_keys started_at_epoch r key ks,
  at_same (is_eligible started_at_epoch r) key k,
)

elem-union :
    (key : String) (xs ys : List String)
    → elem str_dec key (union xs ys) ≡ (elem str_dec key xs || elem str_dec key ys)
unfolding elem
elem-union key xs [] = ground arith
elem-union key xs (y ∷ ys) =
    ground (arith, elem-union key (add str_dec y xs) ys, elem-add str_dec y key xs)

elem-unions :
    (key : String) (a b c d : List String)
    → elem str_dec key (union (union (union (union [] a) b) c) d)
      ≡ (elem str_dec key a || elem str_dec key b || elem str_dec key c || elem str_dec key d)
unfolding elem
elem-unions key a b c d = ground (
  arith,
  elem-union key [] a,
  elem-union key (union [] a) b,
  elem-union key (union (union [] a) b) c,
  elem-union key (union (union (union [] a) b) c) d,
)

elem-keep_in :
    (key : String) (allowed some_keys : List String)
    → elem str_dec key (keep_in allowed some_keys)
      ≡ (elem str_dec key some_keys && elem str_dec key allowed)
unfolding elem
elem-keep_in key allowed [] = refl
elem-keep_in key allowed (k ∷ ks) =
    ground (arith, elem-keep_in key allowed ks, at_same (λ j. elem str_dec j allowed) key k)

-- Of a page's envelope a navigation hands on a key's resource, its error and its place among the
-- deferred keys just where the envelope has them and no authoritative epoch has come for the key
-- since the navigation started. Where one has come, nothing of the key is written to the store: its
-- record and its snapshot are what they were, or were evicted.
pub apply_page_envelope-is_eligible :
    (out : Outside) (envelope : PageEnvelope) (started_at_epoch : ℕ) (r : Router) (key : String)
    → (elem str_dec key (keys (apply_page_envelope out envelope started_at_epoch r).1.resources)
        ≡ (elem str_dec key (keys envelope.resources) && is_eligible started_at_epoch r key))
      × (elem str_dec key (
            keys
              (get_or (apply_page_envelope out envelope started_at_epoch r).1.resource_errors []))
          ≡ (elem str_dec key (keys (get_or envelope.resource_errors []))
              && is_eligible started_at_epoch r key))
      × (elem str_dec key
            (get_or (apply_page_envelope out envelope started_at_epoch r).1.deferred [])
          ≡ (elem str_dec key (get_or envelope.deferred []) && is_eligible started_at_epoch r key))
      × ((is_eligible started_at_epoch r key ≡ true)
          ⊎ Untouched key r.resource_store
              (apply_page_envelope out envelope started_at_epoch r).0.resource_store)
unfolding apply_page_envelope
apply_page_envelope-is_eligible out envelope started_at_epoch r key = (
  resources,
  errors envelope.resource_errors refl,
  deferred envelope.deferred refl,
  elim (Bool-cases (is_eligible started_at_epoch r key)) [
    | inl yes_it_is ↦ inl yes_it_is
    | inr late ↦ inr (
        page-Untouched key out envelope (applied eligible envelope) (or_root envelope.page.url)
          (get_or envelope.live []) eligible r (ground (arith, resources))
          (ground (arith, errors envelope.resource_errors refl))
          (ground (arith, deferred envelope.deferred refl)))
  ],
)
  where
    eligible : List String
    eligible = eligible_keys started_at_epoch r (envelope_keys envelope)

    allowed : elem str_dec key eligible ≡ (
        (elem str_dec key (keys envelope.resources)
          || elem str_dec key (keys (get_or envelope.resource_errors []))
          || elem str_dec key (get_or envelope.deferred [])
          || elem str_dec key (get_or envelope.resource_keys []))
        && is_eligible started_at_epoch r key)
    allowed = ground (
      arith,
      elem-eligible_keys started_at_epoch r key (envelope_keys envelope),
      elem-unions key (keys envelope.resources) (keys (get_or envelope.resource_errors []))
          (get_or envelope.deferred []) (get_or envelope.resource_keys []),
    )

    resources :
        elem str_dec key (keys (applied eligible envelope).resources)
        ≡ (elem str_dec key (keys envelope.resources) && is_eligible started_at_epoch r key)
    resources = ground (arith, allowed, elem-entries_in key eligible envelope.resources)

    errors :
        (o : Option (Map String ResourceErrorDetail))
        → envelope.resource_errors ≡ o
        → elem str_dec key (keys (get_or (keep_entries eligible o) []))
          ≡ (elem str_dec key (keys (get_or o [])) && is_eligible started_at_epoch r key)
    errors none e = unfold elem in refl
    errors (some es) e = ground (arith, allowed, e, elem-entries_in key eligible es)

    deferred :
        (o : Option (List String))
        → envelope.deferred ≡ o
        → elem str_dec key (get_or (keep_keys eligible o) [])
          ≡ (elem str_dec key (get_or o []) && is_eligible started_at_epoch r key)
    deferred none e = unfold elem in refl
    deferred (some ks) e = ground (arith, allowed, e, elem-keep_in key eligible ks)
