-- ===== src/Store/Known.antt =====
-- The known versions that packages/core/src/store.ts exports for the X-FluxFast-Known header.
use mathlib.Core.List.{reverse, reverse_aux}
use flux_fast.Shared.{
  ℕ, suc, ◌+◌, ◌-◌, String, ◌≡◌, refl, sym, ap, ◌∙◌, ◌≤◌, inl, inr, true, false, ◌&&◌, not,
  Bool-cases, Option, none, some, List, [], ◌∷◌, arith, elem, str_dec, str_eq, ite, length,
  length-drop, ◌==◌,
}
use mathlib.Core.Option.{some-injective}
use flux_fast.Shared.JsMap.{Map, get, size, get-set, size-set-le}
use flux_fast.Store.State.{ResourceRecord, ResourceStore}
use flux_fast.Store.Changes.{Limit, safe_limit, noted, known_versions, last, export_known_versions}

-- A version that the client may claim to hold: that of a record which is there and not stale.
pub record IsKnown (s : ResourceStore) (key version : String) : Type 0 where
  pub resource : ResourceRecord
  pub found : get str_dec key s.records ≡ some resource
  pub same_version : resource.version ≡ version
  pub has_version : str_eq version "" ≡ false
  pub fresh : elem str_dec key s.stale_keys ≡ false

module _ (s : ResourceStore) where
  noted-IsKnown :
      (key : String) (o : Option ResourceRecord) (result : Map String String)
      → get str_dec key s.records ≡ o
      → ((j v : String) → get str_dec j result ≡ some v → IsKnown s j v)
      → (j v : String) → get str_dec j (noted key o s result) ≡ some v
      → IsKnown s j v
  noted-IsKnown key none result e known j v f = known j v f
  noted-IsKnown key (some rec) result e known j v f =
      elim (Bool-cases (not (str_eq rec.version "") && not (elem str_dec key s.stale_keys))) [
        | inr q ↦ known j v (rw q at f)
        | inl q ↦
            here q (str_dec key j) (sym (get-set str_dec key j rec.version result) ∙ rw q at f)
      ]
    where
      here :
          (not (str_eq rec.version "") && not (elem str_dec key s.stale_keys)) ≡ true
          → (d : Dec (key ≡ j)) → ite d (some rec.version) (get str_dec j result) ≡ some v
          → IsKnown s j v
      here q (no p) g = known j v g
      here q (yes p) g = record {
        resource = rec;
        found = ap (λ i. get str_dec i s.records) (sym p) ∙ e;
        same_version = cc;
        has_version = ap (λ t. str_eq t "") (sym (some-injective _ _ g)) ∙ ground arith;
        fresh = ap (λ i. elem str_dec i s.stale_keys) (sym p) ∙ ground arith;
      }

  known_versions-IsKnown :
      (keys : List String) (result : Map String String)
      → ((j v : String) → get str_dec j result ≡ some v → IsKnown s j v)
      → (j v : String) → get str_dec j (known_versions keys result s) ≡ some v
      → IsKnown s j v
  unfolding known_versions
  known_versions-IsKnown [] result known j v f = known j v f
  known_versions-IsKnown (key ∷ keys) result known j v f =
      known_versions-IsKnown keys (noted key (get str_dec key s.records) s result)
        (noted-IsKnown key (get str_dec key s.records) result refl known) j v f

  size-noted :
      (key : String) (o : Option ResourceRecord) (result : Map String String)
      → size (noted key o s result) ≤ suc (size result)
  size-noted key none result = omega arith
  size-noted key (some rec) result = ground (arith, size-set-le str_dec key rec.version result)

  size-known_versions :
      (keys : List String) (result : Map String String)
      → size (known_versions keys result s) ≤ length keys + size result
  unfolding known_versions
  size-known_versions [] result = omega arith
  size-known_versions (key ∷ keys) result = omega (
    arith,
    size-known_versions keys (noted key (get str_dec key s.records) s result),
    size-noted key (get str_dec key s.records) result,
  )

length-reverse_aux : (xs ys : List String) → length (reverse_aux xs ys) ≡ length xs + length ys
length-reverse_aux [] ys = omega arith
length-reverse_aux (x ∷ xs) ys = omega (arith, length-reverse_aux xs (x ∷ ys))

length-last-le : (n : ℕ) (xs : List String) → length (last n xs) ≤ n
length-last-le n xs = omega (arith, length-drop (length xs - n) xs)

-- What is exported is known: each version is the non-empty version of a record that is there and
-- not stale. There are at most 100 entries, and at most as many as the limit says.
pub export_known_versions-IsKnown :
    (limit : Limit) (s : ResourceStore)
    → ((key version : String)
        → get str_dec key (export_known_versions limit s) ≡ some version
        → IsKnown s key version)
      × (size (export_known_versions limit s) ≤ safe_limit limit)
      × (size (export_known_versions limit s) ≤ 100)
unfolding export_known_versions get
export_known_versions-IsKnown limit s = elim (Bool-cases (safe_limit limit == 0)) [
  | inl z ↦ rw z (λ key version e. cc, omega arith, omega arith)
  | inr z ↦ rw z (
    known_versions-IsKnown s keys [] (λ j v e. cc),
    omega (arith, size-known_versions s keys [], bound),
    ground (arith, size-known_versions s keys [], bound),
  )
]
  where
    keys : List String
    keys = reverse (last (safe_limit limit) s.lru_order)

    bound : length keys ≤ safe_limit limit
    bound = ground (
      arith,
      length-reverse_aux (last (safe_limit limit) s.lru_order) [],
      length-last-le (safe_limit limit) s.lru_order,
    )
