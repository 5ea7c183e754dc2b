-- ===== src/Shared/JsMap.antt =====
-- The runtime's `Map` in insertion order: `set` replaces in place or appends, `delete` removes.
use Prim.Native.Nat.{ℕ, suc, ◌≤◌, ◌<◌}
use mathlib.Core.Path.{◌≡◌, refl}
use mathlib.Core.Logic.{ite, inl, inr}
use mathlib.Core.Bool.{Bool, true, false, ◌||◌}
use mathlib.Core.Option.{Option, none, some}
use mathlib.Core.List.{List, [], ◌∷◌, ◌++◌}
use native.Mathlib.Omega.{arith}
use flux_fast.Shared.Tests.{is_some, is_yes, ltb, if◌then◌else◌, Bool-cases}
use flux_fast.Shared.Lists.{elem, Distinct}

abbrev pub Map {ℓ} : Type ℓ → Type ℓ → Type ℓ
Map K V = List (K × V)

module _ {ℓ} {K V : Type ℓ} where
  abbrev pub keys : Map K V → List K
  keys [] = []
  keys (e ∷ m) = e.0 ∷ keys m

  abbrev pub size : Map K V → ℕ
  size [] = 0
  size (e ∷ m) = suc (size m)

module _ {ℓ} {K V : Type ℓ} (dec : Discrete K) where
  unfoldable pub get : K → Map K V → Option V
  get k [] = none
  get k ((j, v) ∷ m) = ite (dec j k) (some v) (get k m)

  abbrev pub has : K → Map K V → Bool
  has k m = is_some (get k m)

  unfoldable pub set : K → V → Map K V → Map K V
  set k v [] = (k, v) ∷ []
  set k v ((j, w) ∷ m) = ite (dec j k) ((j, v) ∷ m) ((j, w) ∷ set k v m)

  unfoldable pub delete : K → Map K V → Map K V
  delete k [] = []
  delete k ((j, v) ∷ m) = ite (dec j k) (delete k m) ((j, v) ∷ delete k m)

  pub get-set :
      (k j : K) (v : V) (m : Map K V) → get j (set k v m) ≡ ite (dec k j) (some v) (get j m)
  unfolding get set
  get-set k j v [] = refl
  get-set k j v ((i, w) ∷ m) = ground (arith, get-set k j v m)

  pub get-delete : (k j : K) (m : Map K V) → get j (delete k m) ≡ ite (dec k j) none (get j m)
  unfolding get delete
  get-delete k j [] = ground arith
  get-delete k j ((i, w) ∷ m) = ground (arith, get-delete k j m)

  pub has-keys : (k : K) (m : Map K V) → has k m ≡ elem dec k (keys m)
  unfolding get elem
  has-keys k [] = refl
  has-keys k ((j, v) ∷ m) = ground (arith, has-keys k m)

  elem-keys-set :
      (k j : K) (v : V) (m : Map K V)
      → elem dec j (keys (set k v m)) ≡ (is_yes (dec k j) || elem dec j (keys m))
  unfolding set elem
  elem-keys-set k j v [] = refl
  elem-keys-set k j v ((i, w) ∷ m) = ground (arith, elem-keys-set k j v m)

  pub set-Distinct :
      (k : K) (v : V) (m : Map K V) → Distinct dec (keys m) → Distinct dec (keys (set k v m))
  unfolding set elem
  set-Distinct k v [] d = (refl, tt)
  set-Distinct k v ((j, w) ∷ m) d = ground (arith, set-Distinct k v m d.1, elem-keys-set k j v m)

  elem-keys-delete :
      (k j : K) (m : Map K V) → elem dec j (keys m) ≡ false → elem dec j (keys (delete k m)) ≡ false
  unfolding delete elem
  elem-keys-delete k j [] h = refl
  elem-keys-delete k j ((i, w) ∷ m) h = ground (arith, elem-keys-delete k j m)

  pub delete-Distinct :
      (k : K) (m : Map K V) → Distinct dec (keys m) → Distinct dec (keys (delete k m))
  unfolding delete
  delete-Distinct k [] d = tt
  delete-Distinct k ((j, w) ∷ m) d =
      ground (arith, delete-Distinct k m d.1, elem-keys-delete k j m d.0)

  pub size-set_old : (k : K) (v : V) (m : Map K V) → has k m ≡ true → size (set k v m) ≡ size m
  unfolding set get
  size-set_old k v [] h = cc
  size-set_old k v ((j, w) ∷ m) h = ground (arith, size-set_old k v m)

  pub size-set-le : (k : K) (v : V) (m : Map K V) → size (set k v m) ≤ suc (size m)
  unfolding set
  size-set-le k v [] = omega arith
  size-set-le k v ((j, w) ∷ m) = ground (arith, size-set-le k v m)

  pub size-delete-le : (k : K) (m : Map K V) → size (delete k m) ≤ size m
  unfolding delete
  size-delete-le k [] = omega arith
  size-delete-le k ((j, w) ∷ m) = ground (arith, size-delete-le k m)

  -- A map with no key is empty.
  pub size_of_no_key : (m : Map K V) → ((k : K) → has k m ≡ false) → size m ≡ 0
  unfolding get
  size_of_no_key [] h = refl
  size_of_no_key ((j, w) ∷ m) h = ground (arith, h j)

  -- A map whose only key is `k` has at most one entry.
  pub size_of_one_key :
      (k : K) (m : Map K V)
      → Distinct dec (keys m)
      → ((j : K) → has j m ≡ true → k ≡ j)
      → size m ≤ 1
  unfolding get elem
  size_of_one_key k [] d h = omega arith
  size_of_one_key k ((i, w) ∷ []) d h = omega arith
  size_of_one_key k ((i, w) ∷ (j, v) ∷ m) d h = ground (arith, h i, h j)

module _ {ℓ} {K V : Type ℓ} where
  -- `while (map.size > limit) map.delete(map.keys().next().value)`; the first key occurs once.
  unfoldable pub trim : ℕ → Map K V → Map K V
  trim limit [] = []
  trim limit (e ∷ m) = if ltb limit (suc (size m)) then trim limit m else e ∷ m

  pub size-trim : (limit : ℕ) (m : Map K V) → size (trim limit m) ≤ limit
  unfolding trim
  size-trim limit [] = omega arith
  size-trim limit (e ∷ m) = ground (arith, size-trim limit m)

module _ {ℓ} {K V : Type ℓ} (dec : Discrete K) where
  size-delete_found :
      (k : K) (v : V) (m : Map K V) → get dec k m ≡ some v → suc (size (delete dec k m)) ≤ size m
  unfolding get delete
  size-delete_found k v [] h = absurd (ground arith)
  size-delete_found k v ((j, w) ∷ m) h =
      ground (arith, size-delete_found k v m, size-delete-le dec k m)

  -- Moving a key that is there to the end makes no new entry.
  pub size-refresh-le :
      (k : K) (v w : V) (m : Map K V)
      → get dec k m ≡ some v
      → size (set dec k w (delete dec k m)) ≤ size m
  size-refresh-le k v w m h =
      omega (arith, size-set-le dec k w (delete dec k m), size-delete_found k v m h)

  pub set-append :
      (k : K) (v : V) (m : Map K V) → get dec k m ≡ none → set dec k v m ≡ m ++ (k, v) ∷ []
  unfolding get set
  set-append k v [] h = refl
  set-append k v ((j, w) ∷ m) h = ground (arith, set-append k v m)

  pub get-append_last :
      (k : K) (v : V) (m : Map K V) → get dec k m ≡ none → get dec k (m ++ (k, v) ∷ []) ≡ some v
  unfolding get
  get-append_last k v [] h = ground arith
  get-append_last k v ((j, w) ∷ m) h = ground (arith, get-append_last k v m)

  -- The entry that comes last is not trimmed away.
  pub get-trim_last :
      (limit : ℕ) (k : K) (v : V) (m : Map K V)
      → 0 < limit
      → get dec k m ≡ none
      → get dec k (trim limit (m ++ (k, v) ∷ [])) ≡ some v
  unfolding trim get
  get-trim_last limit k v [] p h = ground arith
  get-trim_last limit k v ((j, w) ∷ m) p h =
      elim (Bool-cases (ltb limit (suc (size (m ++ (k, v) ∷ []))))) [
        | inl over ↦ rw (over, trim) (get-trim_last limit k v m p (ground arith))
        | inr fits ↦ rw (fits, trim) (ground (arith, get-append_last k v m))
      ]

  -- Re-inserting a key puts it last, where it survives trimming.
  pub get-refresh :
      (limit : ℕ) (k : K) (v : V) (m : Map K V)
      → 0 < limit
      → get dec k (trim limit (set dec k v (delete dec k m))) ≡ some v
  get-refresh limit k v m p =
      let gone : get dec k (delete dec k m) ≡ none = ground (arith, get-delete dec k k m) in
      rw (set-append k v (delete dec k m) gone) (get-trim_last limit k v (delete dec k m) p gone)

-- A predicate of every value stays true where entries go, and where a value is set of which it
-- holds.
abbrev pub AllValues {ℓ} : {K V : Type ℓ} → (V → Type 0) → Map K V → Type 0
AllValues P [] = Unit
AllValues P ((k, v) ∷ m) = P v × AllValues P m

module _ {ℓ} {K V : Type ℓ} (dec : Discrete K) (P : V → Type 0) where
  pub AllValues-delete : (k : K) (m : Map K V) → AllValues P m → AllValues P (delete dec k m)
  unfolding delete
  AllValues-delete k [] h = tt
  AllValues-delete k ((j, v) ∷ m) h = go (dec j k) (AllValues-delete k m h.1)
    where
      go :
          (d : Dec (j ≡ k))
          → AllValues P (delete dec k m)
          → AllValues P (ite d (delete dec k m) ((j, v) ∷ delete dec k m))
      go (yes _) rest = rest
      go (no _) rest = (h.0, rest)

  pub AllValues-set :
      (k : K) (v : V) (m : Map K V) → P v → AllValues P m → AllValues P (set dec k v m)
  unfolding set
  AllValues-set k v [] p h = (p, tt)
  AllValues-set k v ((j, w) ∷ m) p h = go (dec j k) (AllValues-set k v m p h.1)
    where
      go :
          (d : Dec (j ≡ k))
          → AllValues P (set dec k v m)
          → AllValues P (ite d ((j, v) ∷ m) ((j, w) ∷ set dec k v m))
      go (yes _) rest = (p, h.1)
      go (no _) rest = (h.0, rest)
