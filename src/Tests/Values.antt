-- ===== src/Tests/Values.antt =====
-- Runs of the patch operations of packages/core/src/mutation.ts.
use flux_fast.Shared.{
  String, ℕ, ◌≡◌, refl, true, false, none, some, [], ◌∷◌, inl, inr, if◌then◌else◌, str_eq,
}
use flux_fast.Value.{
  Value, undefined, num, str, object, array, nil, cons, Fields, end, field, same, to_text, get_prop,
  has_field, get_field,
}
use flux_fast.Mutation.{
  ResourcePatch, replace_item, remove_item, append_item, merge_object, match_item,
  apply_patch_to_value, remove_items, replace_items, append_items,
}
use flux_fast.Mutation.Laws.{
  elements_of, replaced, others, replace_item-replaced, remove_item-others, append_item-remove_item,
  merge_object_lem, match_item-id,
}
use flux_fast.Value

program : Unit {0}
unfolding same to_text get_prop match_item apply_patch_to_value remove_items replace_items
    append_items has_field get_field Value.spread Value.set_field
program = tt

abbrev row : ℕ → String → Value
row ref n = object ref (field "id" (num n) end)

abbrev rows : Value
rows = array 1 (cons (row 2 "1") (cons (row 3 "2") nil))

-- The text "2" finds the number 2.
abbrev drop_two : ResourcePatch
drop_two = record { op = remove_item; id = str "2"; match = none; value = undefined }

abbrev add_three : ResourcePatch
add_three = record { op = append_item; id = undefined; match = none; value = row 4 "3" }

abbrev drop_three : ResourcePatch
drop_three = record { op = remove_item; id = num "3"; match = none; value = undefined }

abbrev put_two : ResourcePatch
put_two = record { op = replace_item; id = num "2"; match = none; value = row 5 "9" }

abbrev rename : ResourcePatch
rename = record {
  op = merge_object;
  id = undefined;
  match = none;
  value = object 6 (field "name" (str "x") end);
}

dropped : apply_patch_to_value 9 rows drop_two ≡ array 9 (cons (row 2 "1") nil)
unfolding program
dropped = refl

replace_item_example :
    elements_of (apply_patch_to_value 7 rows put_two)
    ≡ some (replaced put_two.id put_two.value (row 2 "1" ∷ row 3 "2" ∷ []))
replace_item_example =
    replace_item-replaced put_two (inl ("2", refl)) refl 7 1
      (cons (row 2 "1") (cons (row 3 "2") nil)) refl

remove_item_example :
    elements_of (apply_patch_to_value 7 rows drop_two)
    ≡ some (others drop_two.id (row 2 "1" ∷ row 3 "2" ∷ []))
remove_item_example =
    remove_item-others drop_two (inr ("2", refl)) refl 7 1 (cons (row 2 "1") (cons (row 3 "2") nil))
      refl

append_item-remove_item_example :
    (elements_of (apply_patch_to_value 7 rows add_three)
      ≡ some (row 2 "1" ∷ row 3 "2" ∷ row 4 "3" ∷ []))
    × (elements_of (apply_patch_to_value 8 (apply_patch_to_value 7 rows add_three) drop_three)
        ≡ some (row 2 "1" ∷ row 3 "2" ∷ []))
append_item-remove_item_example =
    append_item-remove_item 7 8 1 (cons (row 2 "1") (cons (row 3 "2") nil)) add_three drop_three
      refl refl (inl ("3", refl)) refl (unfold program in (refl, (refl, tt)))
      (unfold program in refl)

merge_object_example : get_prop (apply_patch_to_value 7 (row 2 "1") rename) "name" ≡ (
    if has_field "name" (field "name" (str "x") end)
    then get_field "name" (field "name" (str "x") end)
    else get_prop (row 2 "1") "name")
merge_object_example =
    merge_object_lem 7 2 6 (field "id" (num "1") end) (field "name" (str "x") end) rename "name"
      refl refl (unfold program in (refl, tt))

match_item-id_example :
    match_item (row 3 "2") drop_two
    ≡ (if true then str_eq (to_text (get_prop (row 3 "2") "id")) (to_text (str "2")) else false)
match_item-id_example = match_item-id (row 3 "2") drop_two (inr ("2", refl)) refl
