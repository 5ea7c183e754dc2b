-- ===== src/Store/Survival.antt =====
-- The loop of `evictIfNeeded` in packages/core/src/store.ts never reaches the key that was used
-- last: the limit is at least one, and that key comes last in the LRU order.
use flux_fast.Shared.{
  String, ◌≡◌, refl, sym, ap, subst, ◌∙◌, ◌≢◌, true, false, List, [], ◌∷◌, ◌++◌, if_neg, arith,
  elem, length, Distinct, str_dec, elem-append, remove_absent, none,
}
use flux_fast.Shared.JsMap.{get, has, size_of_one_key}
use flux_fast.Store.State.{ResourceStore}
use flux_fast.Store.Internals.{notify, invalidate, over_limit, evict_if_needed}
use flux_fast.Store.Validity.{AgreeAt, IsConsistent}
use flux_fast.Store.Eviction.{
  evicted, evicted-IsConsistent, records-invalidate, state_snapshots-invalidate,
}
use flux_fast.Store.Limits.{evict_loop_inv}

-- `t` holds of the last-used key `k` what `s` held.
pub record Spares (k : String) (s t : ResourceStore) : Type 0 where
  pub consistent : IsConsistent t
  pub before : List String
  pub last_used : t.lru_order ≡ before ++ k ∷ []
  pub same_record : get str_dec k t.records ≡ get str_dec k s.records
  pub same_snapshot : get str_dec k t.state_snapshots ≡ get str_dec k s.state_snapshots
  pub same_limit : t.max_resources ≡ s.max_resources

pub lru_order-evicted :
    (o : String) (rest : List String) (s : ResourceStore)
    → elem str_dec o rest ≡ false
    → (evicted o rest s).lru_order ≡ rest
unfolding invalidate notify
lru_order-evicted o rest s h = ground (arith, remove_absent str_dec o rest h)

max_resources-invalidate :
    (o : String) (s : ResourceStore) → (invalidate o s).max_resources ≡ s.max_resources
unfolding invalidate notify
max_resources-invalidate o s = ground arith

one_elem : (k j : String) → elem str_dec j (k ∷ []) ≡ true → k ≡ j
unfolding elem
one_elem k j h = ground arith

-- A store with one key in its LRU order holds one key.
one_key :
    (k : String) (t : ResourceStore) → IsConsistent t → t.lru_order ≡ k ∷ [] → over_limit t ≡ false
one_key k t h e = ground (
  arith,
  size_of_one_key str_dec k t.records h.shaped.records (λ j p. (only j (h.agree j)).0 p),
  size_of_one_key str_dec k t.state_snapshots h.shaped.state_snapshots
      (λ j p. (only j (h.agree j)).1 p),
  h.shaped.positive,
)
  where
    here : (j : String) → elem str_dec j t.lru_order ≡ true → k ≡ j
    here j l = one_elem k j (subst (λ x. elem str_dec j x ≡ true) e l)

    only :
        (j : String)
        → AgreeAt t j
        → (has str_dec j t.records ≡ true → k ≡ j)
          × (has str_dec j t.state_snapshots ≡ true → k ≡ j)
    only j a = (λ p. here j (ground arith), λ p. here j (ground arith))

spare :
    (k o : String) (rest xs : List String) (s t : ResourceStore)
    → over_limit t ≡ true
    → t.lru_order ≡ o ∷ rest
    → (h : Spares k s t) → h.before ≡ xs
    → Spares k s (evicted o rest t)
unfolding elem
spare k o rest [] s t over e h b =
    absurd (ground (arith, one_key k t h.consistent (h.last_used ∙ ap (λ l. l ++ k ∷ []) b)))
spare k o rest (x ∷ xs) s t over e h b = record {
  consistent = evicted-IsConsistent o rest t e h.consistent;
  before = xs;
  last_used = lru_order-evicted o rest t fresh ∙ rest_is;
  same_record =
      records-invalidate o k (record t { lru_order = rest })
      ∙ if_neg (str_dec o k) other none _
      ∙ h.same_record;
  same_snapshot =
      state_snapshots-invalidate o k (record t { lru_order = rest })
      ∙ if_neg (str_dec o k) other none _
      ∙ h.same_snapshot;
  same_limit = max_resources-invalidate o (record t { lru_order = rest }) ∙ h.same_limit;
}
  where
    lists : o ∷ rest ≡ x ∷ xs ++ k ∷ []
    lists = sym e ∙ h.last_used ∙ ap (λ l. l ++ k ∷ []) b

    rest_is : rest ≡ xs ++ k ∷ []
    rest_is = cc lists

    fresh : elem str_dec o rest ≡ false
    fresh = (subst (λ l. Distinct str_dec l) e h.consistent.shaped.lru_order).0

    other : o ≢ k
    other p =
        ground (arith, fresh, ap (elem str_dec o) rest_is, elem-append str_dec o xs (k ∷ []), p)

-- What the store holds of the key used last, it holds after eviction, and that key is still last.
pub evict_if_needed-Spares :
    (k : String) (before : List String) (s : ResourceStore)
    → IsConsistent s
    → s.lru_order ≡ before ++ k ∷ []
    → Spares k s (evict_if_needed s)
unfolding evict_if_needed
evict_if_needed-Spares k before s h e =
    evict_loop_inv (Spares k s) (λ t o rest over l p. spare k o rest p.before s t over l p refl)
      (length s.lru_order) s
      (record {
        consistent = h;
        before = before;
        last_used = e;
        same_record = refl;
        same_snapshot = refl;
        same_limit = refl;
      })
