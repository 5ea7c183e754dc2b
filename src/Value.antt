-- ===== src/Value.antt =====
-- The values that JSON decoding hands to packages/core/src/mutation.ts and store.ts: what `unknown`
-- stands for there. Arrays and objects carry the reference by which `===` compares them. A number
-- is kept as the text that `String(n)` gives, which tells any two numbers apart that `===` does.
-- An object has its own properties only; inherited ones (`toString` and the like) are left out.
pub mod Laws
use Prim.Native.String
use flux_fast.Shared.{
  ℕ, zero, suc, ◌+◌, String, Bool, true, false, ◌&&◌, not, List, [], ◌∷◌, ◌==◌, bool_eq, str_eq,
  if◌then◌else◌, to_string,
}

mutual
  pub data Value : Type 0 where
    undefined : Value
    null : Value
    bool : Bool → Value
    num : String → Value
    str : String → Value
    array : ℕ → Items → Value
    object : ℕ → Fields → Value

  pub data Items : Type 0 where
    nil : Items
    cons : Value → Items → Items

  pub data Fields : Type 0 where
    end : Fields
    field : String → Value → Fields → Fields

-- `===`: arrays and objects by reference, NaN equal to nothing.
unfoldable pub same : Value → Value → Bool
same undefined undefined = true
same null null = true
same (bool a) (bool b) = bool_eq a b
same (num a) (num b) = str_eq a b && not (str_eq a "NaN")
same (str a) (str b) = str_eq a b
same (array r xs) (array q ys) = r == q
same (object r fs) (object q gs) = r == q
same _ _ = false

unfoldable mutual
  -- `String(v)` of a value that has no `toString` or `valueOf` of its own among its properties.
  pub to_text : Value → String
  to_text undefined = "undefined"
  to_text null = "null"
  to_text (bool true) = "true"
  to_text (bool false) = "false"
  to_text (num n) = n
  to_text (str s) = s
  to_text (array r xs) = join xs
  to_text (object r fs) = "[object Object]"

  -- `join(",")`, which prints nothing for `undefined` and `null`.
  pub join : Items → String
  join nil = ""
  join (cons undefined nil) = ""
  join (cons null nil) = ""
  join (cons x nil) = to_text x
  join (cons undefined xs) = String.◌++◌ "," (join xs)
  join (cons null xs) = String.◌++◌ "," (join xs)
  join (cons x xs) = String.◌++◌ (to_text x) (String.◌++◌ "," (join xs))

-- `typeof v === "object" && v !== null`
abbrev pub is_object : Value → Bool
is_object (array r xs) = true
is_object (object r fs) = true
is_object _ = false

abbrev pub elements : Items → List Value
elements nil = []
elements (cons x xs) = x ∷ elements xs

unfoldable pub count_items : Items → ℕ
count_items nil = 0
count_items (cons x xs) = suc (count_items xs)

-- The own enumerable properties of an array: its indices.
unfoldable pub index_fields : ℕ → Items → Fields
index_fields i nil = end
index_fields i (cons x xs) = field (to_string 10 i) x (index_fields (suc i) xs)

unfoldable pub get_field : String → Fields → Value
get_field k end = undefined
get_field k (field j v fs) = if str_eq j k then v else get_field k fs

unfoldable pub has_field : String → Fields → Bool
has_field k end = false
has_field k (field j v fs) = if str_eq j k then true else has_field k fs

unfoldable pub set_field : String → Value → Fields → Fields
set_field k v end = field k v end
set_field k v (field j w fs) = if str_eq j k then field j v fs else field j w (set_field k v fs)

-- `{ ...fs, ...gs }`
unfoldable pub spread : Fields → Fields → Fields
spread fs end = fs
spread fs (field k v gs) = spread (set_field k v fs) gs

-- What spreading `v` gives: nothing for a primitive or `undefined`.
unfoldable pub own_fields : Value → Fields
unfolding index_fields to_string
own_fields (array r xs) = index_fields 0 xs
own_fields (object r fs) = fs
own_fields _ = end

-- `v[k]` of an array or an object
unfoldable pub get_prop : Value → String → Value
unfolding count_items own_fields get_field
get_prop (array r xs) k =
    if str_eq k "length"
    then num (to_string 10 (count_items xs))
    else get_field k (index_fields 0 xs)
get_prop v k = get_field k (own_fields v)
