-- ===== src/Mutation/Laws.antt =====
-- What the patch operations of packages/core/src/mutation.ts do to arrays and objects.
use flux_fast.Shared.{
  ℕ, String, ◌≡◌, refl, ap, ◌⊎◌, inl, inr, true, false, Bool-cases, Option, none, not, ◌&&◌, ◌||◌,
  some, List, [], ◌∷◌, ◌++◌, ◌∙◌, Bool, arith, eq_iff, str_eq, if◌then◌else◌, All,
}
use flux_fast.Value.{
  Value, undefined, num, str, object, array, Items, nil, cons, Fields, same, to_text, is_object,
  get_prop, get_field, has_field, own_fields, elements,
}
use flux_fast.Value.Laws.{
  to_text_of_same_num, to_text_of_same_str, get_field-spread, DistinctFields,
}
use flux_fast.Mutation.{
  ResourcePatch, merge_object, replace_item, remove_item, append_item, match_item, replace_items,
  remove_items, append_items, apply_patch_to_value,
}

-- The elements of an array, and nothing for any other value.
abbrev pub elements_of : Value → Option (List Value)
elements_of (array r xs) = some (elements xs)
elements_of _ = none

-- A `merge-object` patch on an object: a property that the patch's value has reads as there, and
-- every other property reads as before. The value must be an object without a property twice.
pub merge_object_lem :
    (fresh r q : ℕ) (fs gs : Fields) (p : ResourcePatch) (k : String)
    → p.op ≡ merge_object
    → p.value ≡ object q gs
    → DistinctFields gs
    → get_prop (apply_patch_to_value fresh (object r fs) p) k
      ≡ (if has_field k gs then get_field k gs else get_prop (object r fs) k)
unfolding apply_patch_to_value get_prop
merge_object_lem fresh r q fs gs p k h e d = rw (h, e, own_fields) (get_field-spread k fs gs d)

abbrev pub IsIdentity : Value → Type 0
IsIdentity v = ((n : String) × (v ≡ num n)) ⊎ ((s : String) × (v ≡ str s))

-- With an `id` that is a number or a string and no `match`, an item matches a patch exactly when it
-- is an object or an array and its `id` prints as the patch's does: a number and the text of that
-- number are one identity.
pub match_item-id :
    (item : Value) (p : ResourcePatch)
    → IsIdentity p.id
    → p.match ≡ none
    → match_item item p
      ≡ (if is_object item then str_eq (to_text (get_prop item "id")) (to_text p.id) else false)
unfolding match_item
match_item-id item p i h = elim (Bool-cases (is_object item)) [
  | inr other ↦ rw other
  | inl obj ↦ rw (obj, h) (identity i)
]
  where
    found : Value
    found = get_prop item "id"

    identity :
        IsIdentity p.id
        → (if not (same p.id undefined)
              && (same found p.id || str_eq (to_text found) (to_text p.id))
            then true
            else false)
          ≡ str_eq (to_text found) (to_text p.id)
    identity (inl (n, e)) = rw e (
        unfold same to_text in
        ground (arith, to_text_of_same_num n found, eq_iff (to_text found) n))
    identity (inr (s, e)) = rw e (
        unfold same to_text in
        ground (arith, to_text_of_same_str s found, eq_iff (to_text found) s))

-- Whether an item is the one with an identity: an object or an array whose `id` prints as the
-- identity does.
abbrev pub has_identity : Value → Value → Bool
has_identity id item =
    if is_object item then str_eq (to_text (get_prop item "id")) (to_text id) else false

-- The elements, those with the identity replaced.
abbrev pub replaced : Value → Value → List Value → List Value
replaced id value [] = []
replaced id value (x ∷ xs) = (if has_identity id x then value else x) ∷ replaced id value xs

-- The elements without those with the identity.
abbrev pub others : Value → List Value → List Value
others id [] = []
others id (x ∷ xs) = if has_identity id x then others id xs else x ∷ others id xs

-- The operations on an array, with the dispatch gone.
apply_replace :
    (fresh r : ℕ) (xs : Items) (p : ResourcePatch)
    → p.op ≡ replace_item
    → apply_patch_to_value fresh (array r xs) p ≡ array fresh (replace_items p xs)
unfolding apply_patch_to_value
apply_replace fresh r xs p h = ground arith

apply_remove :
    (fresh r : ℕ) (xs : Items) (p : ResourcePatch)
    → p.op ≡ remove_item
    → apply_patch_to_value fresh (array r xs) p ≡ array fresh (remove_items p xs)
unfolding apply_patch_to_value
apply_remove fresh r xs p h = ground arith

module _ (p : ResourcePatch) (identified : IsIdentity p.id) (no_match : p.match ≡ none) where
  elements-replace_items :
      (xs : Items) → elements (replace_items p xs) ≡ replaced p.id p.value (elements xs)
  unfolding replace_items
  elements-replace_items nil = refl
  elements-replace_items (cons x xs) =
      rw (match_item-id x p identified no_match, elements-replace_items xs) refl

  elements-remove_items : (xs : Items) → elements (remove_items p xs) ≡ others p.id (elements xs)
  unfolding remove_items
  elements-remove_items nil = refl
  elements-remove_items (cons x xs) =
      rw (match_item-id x p identified no_match) (ground (arith, elements-remove_items xs))

  -- A `replace-item` patch with a number or a text for its `id`, and no `match`, puts the patch's
  -- value in the place of every element of an array that is an object or an array with that `id`, a
  -- number and its text being one, and leaves the other elements, and their order.
  pub replace_item-replaced :
      (fresh r : ℕ) (xs : Items)
      → p.op ≡ replace_item
      → elements_of (apply_patch_to_value fresh (array r xs) p)
        ≡ some (replaced p.id p.value (elements xs))
  replace_item-replaced fresh r xs h =
      ap elements_of (apply_replace fresh r xs p h) ∙ ap some (elements-replace_items xs)

  -- A `remove-item` patch with a number or a text for its `id`, and no `match`, leaves of an array
  -- the elements that are not an object or an array with that `id`, a number and its text being one,
  -- in their order.
  pub remove_item-others :
      (fresh r : ℕ) (xs : Items)
      → p.op ≡ remove_item
      → elements_of (apply_patch_to_value fresh (array r xs) p) ≡ some (others p.id (elements xs))
  remove_item-others fresh r xs h =
      ap elements_of (apply_remove fresh r xs p h) ∙ ap some (elements-remove_items xs)

elements-append_items :
    (xs : Items) (v : Value) → elements (append_items xs v) ≡ elements xs ++ v ∷ []
unfolding append_items
elements-append_items nil v = refl
elements-append_items (cons x xs) v = rw (elements-append_items xs v) refl

others-append :
    (id v : Value) (xs : List Value)
    → All (λ x. has_identity id x ≡ false) xs
    → has_identity id v ≡ true
    → others id (xs ++ v ∷ []) ≡ xs
others-append id v [] h e = rw e refl
others-append id v (x ∷ xs) h e = rw (h.0, others-append id v xs h.1 e) refl

apply_append :
    (fresh r : ℕ) (xs : Items) (p : ResourcePatch)
    → p.op ≡ append_item
    → apply_patch_to_value fresh (array r xs) p ≡ array fresh (append_items xs p.value)
unfolding apply_patch_to_value
apply_append fresh r xs p h = ground arith

-- An `append-item` patch puts its value behind the elements of an array. A `remove-item` patch, with
-- a number or a text for its `id` and no `match`, takes it off again, and gives the elements back
-- in their order, if the value has that `id` and no element had it.
pub append_item-remove_item :
    (fresh fresh' r : ℕ) (xs : Items) (p q : ResourcePatch)
    → p.op ≡ append_item
    → q.op ≡ remove_item
    → IsIdentity q.id
    → q.match ≡ none
    → All (λ x. has_identity q.id x ≡ false) (elements xs)
    → has_identity q.id p.value ≡ true
    → (elements_of (apply_patch_to_value fresh (array r xs) p) ≡ some (elements xs ++ p.value ∷ []))
      × (elements_of (apply_patch_to_value fresh' (apply_patch_to_value fresh (array r xs) p) q)
          ≡ some (elements xs))
append_item-remove_item fresh fresh' r xs p q hp hq i n h e = (
  rw (apply_append fresh r xs p hp, elements-append_items xs p.value) refl,
  rw (apply_append fresh r xs p hp) (
      remove_item-others q i n fresh' fresh (append_items xs p.value) hq
      ∙ ap some (
          ap (others q.id) (elements-append_items xs p.value)
          ∙ others-append q.id p.value (elements xs) h e)),
)
