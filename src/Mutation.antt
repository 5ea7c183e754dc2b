-- ===== src/Mutation.antt =====
-- packages/core/src/mutation.ts: how one patch of a mutation or of a live event changes a value.
-- The types of a patch are those of packages/core/src/protocol.ts.
pub mod Laws
use flux_fast.Shared.{
  ℕ, String, Bool, true, false, ◌&&◌, ◌||◌, not, Option, none, some, str_eq, if◌then◌else◌,
}
use flux_fast.Value.{
  Value, undefined, object, array, Items, nil, cons, Fields, end, field, same, to_text, is_object,
  get_prop, own_fields, spread,
}

pub data PatchOp : Type 0 where
  replace_resource merge_object replace_item remove_item append_item : PatchOp
  -- anything else that was decoded where an operation is meant
  other_op : PatchOp

-- A field left out is `undefined`; `match` left out is `none`.
pub record ResourcePatch : Type 0 where
  pub op : PatchOp
  pub id : Value
  pub match : Option Fields
  pub value : Value

-- The loop over `Object.entries(patch.match)`.
unfoldable pub match_fields : Value → Fields → Bool
match_fields obj end = true
match_fields obj (field k v fs) =
    if not (same (get_prop obj k) v) then false else match_fields obj fs

-- The `id` of the item, if an object, has no `toString` or `valueOf` of its own: `String` throws where
-- such a property is no function.
unfoldable pub match_item : Value → ResourcePatch → Bool
unfolding match_fields
match_item item patch =
    if not (is_object item)
    then false
    else if not (same patch.id undefined)
        && (same (get_prop item "id") patch.id
            || str_eq (to_text (get_prop item "id")) (to_text patch.id))
    then true
    else elim patch.match [ none ↦ false | some fs ↦ match_fields item fs ]

unfoldable pub replace_items : ResourcePatch → Items → Items
replace_items p nil = nil
replace_items p (cons x xs) = cons (if match_item x p then p.value else x) (replace_items p xs)

unfoldable pub remove_items : ResourcePatch → Items → Items
remove_items p nil = nil
remove_items p (cons x xs) =
    if not (match_item x p) then cons x (remove_items p xs) else remove_items p xs

unfoldable pub append_items : Items → Value → Items
append_items nil v = cons v nil
append_items (cons x xs) v = cons x (append_items xs v)

-- One case of the `switch` for each operation; `fresh` is the reference of a new array or object.
unfoldable pub merge_value : ℕ → Value → Value → Value
merge_value fresh (object r fs) v = object fresh (spread fs (own_fields v))
merge_value fresh _ v = v

unfoldable pub replace_in : ℕ → Value → ResourcePatch → Value
replace_in fresh (array r xs) p = array fresh (replace_items p xs)
replace_in fresh current p = current

unfoldable pub remove_in : ℕ → Value → ResourcePatch → Value
remove_in fresh (array r xs) p = array fresh (remove_items p xs)
remove_in fresh current p = current

unfoldable pub append_to : ℕ → Value → Value → Value
append_to fresh (array r xs) v = array fresh (append_items xs v)
append_to fresh _ v = array fresh (cons v nil)

dispatch : PatchOp → ℕ → Value → ResourcePatch → Value
unfolding merge_value replace_in remove_in append_to
dispatch replace_resource fresh current p = p.value
dispatch merge_object fresh current p = merge_value fresh current p.value
dispatch replace_item fresh current p = replace_in fresh current p
dispatch remove_item fresh current p = remove_in fresh current p
dispatch append_item fresh current p = append_to fresh current p.value
dispatch other_op fresh current p = current

unfoldable pub apply_patch_to_value : ℕ → Value → ResourcePatch → Value
unfolding dispatch
apply_patch_to_value fresh current p = dispatch p.op fresh current p
