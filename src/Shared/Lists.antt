-- ===== src/Shared/Lists.antt =====
-- Lists measured by native numbers, Boolean membership, and lists without repetition.
use Prim.Native.Nat.{ℕ, zero, suc, ◌+◌, ◌-◌}
use mathlib.Core.Path.{◌≡◌, refl}
use mathlib.Core.Logic.{◌≢◌, ite}
use mathlib.Core.Bool.{Bool, false, not, ◌&&◌, ◌||◌}
use mathlib.Core.List.{List, [], ◌∷◌, ◌++◌}
use native.Mathlib.Omega.{arith}
use flux_fast.Shared.Tests.{is_yes}

module _ {ℓ} {A : Type ℓ} where
  abbrev pub length : List A → ℕ
  length [] = 0
  length (x ∷ xs) = suc (length xs)

  pub length-append : (xs ys : List A) → length (xs ++ ys) ≡ length xs + length ys
  length-append [] ys = omega arith
  length-append (x ∷ xs) ys = omega (arith, length-append xs ys)

  -- `slice(-n)` drops all but the last `n`.
  abbrev pub drop : ℕ → List A → List A
  drop zero xs = xs
  drop (suc n) [] = []
  drop (suc n) (x ∷ xs) = drop n xs

  pub length-drop : (n : ℕ) (xs : List A) → length (drop n xs) ≡ length xs - n
  length-drop zero xs = omega arith
  length-drop (suc n) [] = omega arith
  length-drop (suc n) (x ∷ xs) = omega (arith, length-drop n xs)

-- A predicate of every element; it computes to tuples.
abbrev pub All {ℓ κ} : {A : Type ℓ} → (A → Type κ) → List A → Type κ
All P [] = Unit
All P (x ∷ xs) = P x × All P xs

pub All-append {ℓ κ} :
    {A : Type ℓ} (P : A → Type κ) (xs ys : List A) → All P xs → All P ys → All P (xs ++ ys)
All-append P [] ys hx hy = hy
All-append P (x ∷ xs) ys hx hy = (hx.0, All-append P xs ys hx.1 hy)

module _ {ℓ} {A : Type ℓ} (dec : Discrete A) where
  unfoldable pub elem : A → List A → Bool
  elem a [] = false
  elem a (x ∷ xs) = is_yes (dec x a) || elem a xs

  -- `splice(indexOf(a), 1)`: the first occurrence goes.
  unfoldable pub remove : A → List A → List A
  remove a [] = []
  remove a (x ∷ xs) = ite (dec x a) xs (x ∷ remove a xs)

  -- `set.add(a)`: a new element goes last.
  unfoldable pub add : A → List A → List A
  add a [] = a ∷ []
  add a (x ∷ xs) = ite (dec x a) (x ∷ xs) (x ∷ add a xs)

  abbrev pub Distinct : List A → Type 0
  Distinct [] = Unit
  Distinct (x ∷ xs) = (elem x xs ≡ false) × Distinct xs

  pub elem-append : (a : A) (xs ys : List A) → elem a (xs ++ ys) ≡ (elem a xs || elem a ys)
  unfolding elem
  elem-append a [] ys = refl
  elem-append a (x ∷ xs) ys = ground (arith, elem-append a xs ys)

  pub elem-add : (a b : A) (xs : List A) → elem b (add a xs) ≡ (is_yes (dec a b) || elem b xs)
  unfolding elem add
  elem-add a b [] = refl
  elem-add a b (x ∷ xs) = ground (arith, elem-add a b xs)

  pub elem-remove_ne : (a b : A) (xs : List A) → a ≢ b → elem b (remove a xs) ≡ elem b xs
  unfolding elem remove
  elem-remove_ne a b [] h = refl
  elem-remove_ne a b (x ∷ xs) h = ground (arith, elem-remove_ne a b xs h)

  pub elem-remove_self : (a : A) (xs : List A) → Distinct xs → elem a (remove a xs) ≡ false
  unfolding elem remove
  elem-remove_self a [] d = refl
  elem-remove_self a (x ∷ xs) d = ground (arith, elem-remove_self a xs d.1)

  pub elem-remove :
      (a b : A) (xs : List A)
      → Distinct xs
      → elem b (remove a xs) ≡ (not (is_yes (dec a b)) && elem b xs)
  elem-remove a b xs d = ground (arith, elem-remove_ne a b xs, elem-remove_self a xs d)

  -- What is removed adds nothing.
  elem-remove-false : (a b : A) (xs : List A) → elem b xs ≡ false → elem b (remove a xs) ≡ false
  unfolding elem remove
  elem-remove-false a b [] h = refl
  elem-remove-false a b (x ∷ xs) h = ground (arith, elem-remove-false a b xs)

  pub remove-Distinct : (a : A) (xs : List A) → Distinct xs → Distinct (remove a xs)
  unfolding remove
  remove-Distinct a [] d = tt
  remove-Distinct a (x ∷ xs) d =
      ground (arith, remove-Distinct a xs d.1, elem-remove-false a x xs d.0)

  pub add-Distinct : (a : A) (xs : List A) → Distinct xs → Distinct (add a xs)
  unfolding add elem
  add-Distinct a [] d = (refl, tt)
  add-Distinct a (x ∷ xs) d = ground (arith, add-Distinct a xs d.1, elem-add a x xs)

  pub append_last-Distinct :
      (a : A) (xs : List A) → Distinct xs → elem a xs ≡ false → Distinct (xs ++ a ∷ [])
  unfolding elem
  append_last-Distinct a [] d h = (refl, tt)
  append_last-Distinct a (x ∷ xs) d h =
      ground (arith, append_last-Distinct a xs d.1, elem-append x xs (a ∷ []))

  pub remove_absent : (a : A) (xs : List A) → elem a xs ≡ false → remove a xs ≡ xs
  unfolding elem remove
  remove_absent a [] h = refl
  remove_absent a (x ∷ xs) h = ground (arith, remove_absent a xs)

  pub remove-add : (a : A) (xs : List A) → elem a xs ≡ false → remove a (add a xs) ≡ xs
  unfolding elem remove add
  remove-add a [] h = ground arith
  remove-add a (x ∷ xs) h = ground (arith, remove-add a xs)
