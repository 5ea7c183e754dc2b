-- ===== src/Transport/Selection.antt =====
-- What packages/core/src/transport.ts puts into the headers of a request.
use Prim.Native.String.{len}
use flux_fast.Shared.{
  ℕ, ◌-◌, ◌≤◌, String, ◌≡◌, refl, ◌⊎◌, inl, inr, Bool, true, false, ◌||◌, some, List, [], ◌∷◌,
  if◌then◌else◌, arith, length, ltb, leb, ◌==◌, elem, str_dec, All, Distinct, Bool-cases, ite,
}
use flux_fast.Shared.Chars.{includes, join_commas, split_commas, split-join}
use flux_fast.Shared.JsMap.{Map, get, set, size, keys, size-set-le, get-set, has-keys}
use mathlib.Core.Option.{some-injective}
use flux_fast.Transport.{
  is_safe_key, is_sendable, select_known, select_known_versions, safe_keys, first,
  select_only_resources,
}

size-select_known :
    (known safe : Map String String) → size safe ≤ 100 → size (select_known known safe) ≤ 100
unfolding select_known
size-select_known [] safe p = p
size-select_known ((key, version) ∷ rest) safe p = elim (Bool-cases (leb 100 (size safe))) [
  | inl full ↦ rw (full, select_known) p
  | inr room ↦
      rw (room, select_known) (size-select_known rest _ (more (is_sendable key version) room))
]
  where
    more :
        (b : Bool)
        → leb 100 (size safe) ≡ false
        → size (if b then set str_dec key version safe else safe) ≤ 100
    more true room = ground (arith, size-set-le str_dec key version safe)
    more false room = p

-- Where a pair of the selection comes from.
abbrev Origin : String → String → Map String String → Map String String → Type 0
Origin key version known safe =
    (get str_dec key safe ≡ some version)
    ⊎ ((get str_dec key known ≡ some version) × (is_sendable key version ≡ true))

-- One more known version does not take the origin of a pair away.
older :
    (key version k v : String) (rest safe : Map String String)
    → elem str_dec k (keys rest) ≡ false
    → Origin key version rest safe
    → Origin key version ((k, v) ∷ rest) safe
older key version k v rest safe fresh (inl e) = inl e
older key version k v rest safe fresh (inr (e, s)) = inr (unfold get in go (str_dec k key), s)
  where
    go : (d : Dec (k ≡ key)) → ite d (some v) (get str_dec key rest) ≡ some version
    go (yes p) = absurd (ground (arith, has-keys str_dec key rest, rw p at fresh, e))
    go (no n) = e

newest :
    (key version k v : String) (rest safe : Map String String)
    → elem str_dec k (keys rest) ≡ false
    → is_sendable k v ≡ true
    → Origin key version rest (set str_dec k v safe)
    → Origin key version ((k, v) ∷ rest) safe
newest key version k v rest safe fresh s (inr o) = older key version k v rest safe fresh (inr o)
newest key version k v rest safe fresh s (inl e) =
    go (str_dec k key) refl (rw (get-set str_dec k key v safe) at e)
  where
    go :
        (d : Dec (k ≡ key))
        → str_dec k key ≡ d
        → ite d (some v) (get str_dec key safe) ≡ some version
        → Origin key version ((k, v) ∷ rest) safe
    go (no n) q w = inl w
    go (yes p) q w =
        inr (unfold get in rw q w, ground (arith, rw (p, some-injective v version w) at s))

one_more :
    (key version k v : String) (rest safe : Map String String)
    → elem str_dec k (keys rest) ≡ false
    → Origin key version rest (if is_sendable k v then set str_dec k v safe else safe)
    → Origin key version ((k, v) ∷ rest) safe
one_more key version k v rest safe fresh o = go (is_sendable k v) refl o
  where
    go :
        (b : Bool)
        → is_sendable k v ≡ b
        → Origin key version rest (if b then set str_dec k v safe else safe)
        → Origin key version ((k, v) ∷ rest) safe
    go true s x = newest key version k v rest safe fresh s x
    go false s x = older key version k v rest safe fresh x

get-select_known :
    (key version : String) (known safe : Map String String)
    → Distinct str_dec (keys known)
    → get str_dec key (select_known known safe) ≡ some version
    → Origin key version known safe
unfolding select_known
get-select_known key version [] safe d e = inl e
get-select_known key version ((k, v) ∷ rest) safe d e = elim (Bool-cases (leb 100 (size safe))) [
  | inl full ↦ inl (rw (full, select_known) at e)
  | inr room ↦
      one_more key version k v rest safe d.0
        (get-select_known key version rest _ d.1 (rw (room, select_known) at e))
]

-- The versions that a request names are at most 100, each is the known one of its key, and the key
-- and the version are safe for a header. Known versions have each key once.
pub select_known_versions_lem :
    (known : Map String String)
    → Distinct str_dec (keys known)
    → (size (select_known_versions (some known)) ≤ 100)
      × ((key version : String)
          → get str_dec key (select_known_versions (some known)) ≡ some version
          → (get str_dec key known ≡ some version) × (is_sendable key version ≡ true))
unfolding select_known_versions
select_known_versions_lem known d = (
  size-select_known known [] (omega arith),
  λ key version e. from_known key version (get-select_known key version known [] d e),
)
  where
    from_known :
        (key version : String)
        → Origin key version known []
        → (get str_dec key known ≡ some version) × (is_sendable key version ≡ true)
    from_known key version (inl e) = absurd (unfold get in ground (arith, e))
    from_known key version (inr p) = p

safe_keys-All : (only : List String) → All (λ key. is_safe_key key ≡ true) (safe_keys only)
safe_keys-All [] = tt
safe_keys-All (key ∷ only) = ground (arith, safe_keys-All only)

first-All :
    (n : ℕ) (ks : List String)
    → All (λ key. is_safe_key key ≡ true) ks
    → All (λ key. is_safe_key key ≡ true) (first n ks)
first-All n [] h = tt
first-All n (key ∷ ks) h = elim (Bool-cases (ltb 0 n)) [
  | inl e ↦ rw e (h.0, first-All (n - 1) ks h.1)
  | inr e ↦ rw e tt
]

length-first-le : (n : ℕ) (ks : List String) → length (first n ks) ≤ n
length-first-le n [] = omega arith
length-first-le n (key ∷ ks) = ground (arith, length-first-le (n - 1) ks)

no_commas :
    (ks : List String)
    → All (λ key. is_safe_key key ≡ true) ks
    → All (λ key. includes 44 key ≡ false) ks
unfolding is_safe_key
no_commas [] h = tt
no_commas (key ∷ ks) h = (ground (arith, h.0), no_commas ks h.1)

-- What is promised of a header's keys.
pub record IsSplit (ks : List String) : Type 0 where
  pub short : length ks ≤ 100
  pub safe : All (λ key. is_safe_key key ≡ true) ks
  pub bytes : len (join_commas ks) ≤ 16384
  pub split : split_commas (join_commas ks) ≡ ks

-- The keys that a request asks for are none, or at most 100 safe ones in a header of at most 16384
-- bytes, and splitting that header at its commas gives the keys back.
pub select_only_resources-IsSplit :
    (only : List String)
    → (select_only_resources (some only) ≡ []) ⊎ IsSplit (select_only_resources (some only))
unfolding select_only_resources
select_only_resources-IsSplit only =
    go (first 100 (safe_keys only)) (length-first-le 100 (safe_keys only))
      (first-All 100 (safe_keys only) (safe_keys-All only))
  where
    go :
        (ks : List String)
        → length ks ≤ 100
        → All (λ key. is_safe_key key ≡ true) ks
        → ((if length ks == 0 || ltb 16384 (len (join_commas ks)) then [] else ks) ≡ [])
          ⊎ IsSplit (if length ks == 0 || ltb 16384 (len (join_commas ks)) then [] else ks)
    go [] p h = inl refl
    go (k ∷ ks) p h =
        elim (Bool-cases (length (k ∷ ks) == 0 || ltb 16384 (len (join_commas (k ∷ ks))))) [
          | inl big ↦ rw big (inl refl)
          | inr fits ↦ rw fits (
              inr (record {
                short = p;
                safe = h;
                bytes = ground arith;
                split = split-join k ks (no_commas (k ∷ ks) h);
              }))
        ]
