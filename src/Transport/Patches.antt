-- ===== src/Transport/Patches.antt =====
-- The patches that packages/core/src/transport.ts takes for complete.
use flux_fast.Shared.{
  ℕ, String, ◌≡◌, refl, ◌⊎◌, inl, inr, true, false, ◌&&◌, not, arith, str_eq, eq_iff, Bool-cases,
}
use flux_fast.Value.{
  Value, undefined, null, bool, num, str, array, object, Fields, end, field, get_field, has_field,
}
use flux_fast.Transport.{
  is_plain, is_string, is_number, fields_of, is_empty, has_identity, op_in, allowed_ops,
  is_incomplete,
}
use flux_fast.Transport.Envelopes.{both, IsPatch}
use flux_fast.Transport.Pages.{IsObject, IsText, by_object, is_string-IsText}

-- By what an element is found: an `id` that is a number or a text, or a `match` with a property.
abbrev pub IsIdentified : Fields → Type 0
IsIdentified fs =
    ((n : String) × (get_field "id" fs ≡ num n))
    ⊎ (IsText (get_field "id" fs)
        ⊎ IsObject (λ gs. (k : String) × (v : Value) × (hs : Fields) × (gs ≡ field k v hs))
            (get_field "match" fs))

abbrev pub HasOp : String → Fields → Type 0
HasOp op fs = get_field "op" fs ≡ str op

-- What each operation needs.
pub data IsComplete (fs : Fields) : Type 0 where
  replaces_resource : HasOp "replace-resource" fs → has_field "value" fs ≡ true → IsComplete fs
  merges : HasOp "merge-object" fs → IsObject (λ _. Unit) (get_field "value" fs) → IsComplete fs
  replaces_item :
      HasOp "replace-item" fs → has_field "value" fs ≡ true → IsIdentified fs → IsComplete fs
  removes_item : HasOp "remove-item" fs → IsIdentified fs → IsComplete fs
  appends : HasOp "append-item" fs → has_field "value" fs ≡ true → IsComplete fs

number_is : (v : Value) → is_number v ≡ true → (n : String) × (v ≡ num n)
number_is (num n) e = (n, refl)
number_is undefined e = absurd (ground arith)
number_is null e = absurd (ground arith)
number_is (bool b) e = absurd (ground arith)
number_is (str s) e = absurd (ground arith)
number_is (object r fs) e = absurd (ground arith)
number_is (array r xs) e = absurd (ground arith)

abbrev IsFilled : Fields → Type 0
IsFilled gs = (k : String) × (v : Value) × (hs : Fields) × (gs ≡ field k v hs)

filled : (gs : Fields) → not (is_empty gs) ≡ true → IsFilled gs
filled end e = absurd (ground arith)
filled (field k v hs) e = (k, v, hs, refl)

matched : (v : Value) → (is_plain v && not (is_empty (fields_of v))) ≡ true → IsObject IsFilled v
matched v e =
    let (plain, some_field) = both _ _ e in
    by_object (λ v. not (is_empty (fields_of v)) ≡ true → IsObject IsFilled v)
      (λ r gs h. (r, gs, refl, filled gs h)) v plain some_field

has_identity-IsIdentified : (fs : Fields) → has_identity fs ≡ true → IsIdentified fs
has_identity-IsIdentified fs e = elim (Bool-cases (is_number (get_field "id" fs))) [
  | inl n ↦ inl (number_is (get_field "id" fs) n)
  | inr no_number ↦ elim (Bool-cases (is_string (get_field "id" fs))) [
    | inl s ↦ inr (inl (is_string-IsText (get_field "id" fs) s))
    | inr no_text ↦ inr (inr (matched (get_field "match" fs) (ground arith)))
  ]
]

-- The five operations, one after the other.
is_incomplete-IsComplete :
    (fs : Fields) (op : String)
    → get_field "op" fs ≡ str op
    → op_in allowed_ops op ≡ true
    → is_incomplete op fs ≡ false
    → IsComplete fs
is_incomplete-IsComplete fs op e known complete = elim (Bool-cases (str_eq "replace-resource" op)) [
  | inl p ↦ replaces ((eq_iff "replace-resource" op).0 p)
  | inr n₁ ↦ elim (Bool-cases (str_eq "merge-object" op)) [
    | inl p ↦ merge ((eq_iff "merge-object" op).0 p)
    | inr n₂ ↦ elim (Bool-cases (str_eq "replace-item" op)) [
      | inl p ↦ put ((eq_iff "replace-item" op).0 p)
      | inr n₃ ↦ elim (Bool-cases (str_eq "remove-item" op)) [
        | inl p ↦ take_off ((eq_iff "remove-item" op).0 p)
        | inr n₄ ↦ append ((eq_iff "append-item" op).0 (ground arith))
      ]
    ]
  ]
]
  where
    is_op : (o : String) → o ≡ op → HasOp o fs
    is_op o p = rw p e

    then_complete : (o : String) → o ≡ op → is_incomplete o fs ≡ false
    then_complete o p = rw p complete

    replaces : "replace-resource" ≡ op → IsComplete fs
    replaces p =
        let h = then_complete "replace-resource" p in replaces_resource (is_op _ p) (ground arith)

    merge : "merge-object" ≡ op → IsComplete fs
    merge p =
        let h = then_complete "merge-object" p in
        merges (is_op _ p) (
          by_object (IsObject (λ _. Unit)) (λ r gs. (r, gs, refl, tt)) (get_field "value" fs)
            (ground arith))

    put : "replace-item" ≡ op → IsComplete fs
    put p =
        let h = then_complete "replace-item" p in
        replaces_item (is_op _ p) (ground arith) (has_identity-IsIdentified fs (ground arith))

    take_off : "remove-item" ≡ op → IsComplete fs
    take_off p =
        let h = then_complete "remove-item" p in
        removes_item (is_op _ p) (has_identity-IsIdentified fs (ground arith))

    append : "append-item" ≡ op → IsComplete fs
    append p = let h = then_complete "append-item" p in appends (is_op _ p) (ground arith)

pub IsPatch-IsComplete : (v : Value) → IsPatch v → IsObject IsComplete v
IsPatch-IsComplete v h =
    by_object (λ v. IsPatch v → IsObject IsComplete v) (λ r fs p. (r, fs, refl, of_fields fs p)) v
      h.plain h
  where
    of_fields : {r : ℕ} (fs : Fields) → IsPatch (object r fs) → IsComplete fs
    of_fields fs p =
        let (op, is_op) = is_string-IsText (get_field "op" fs) p.text in
        is_incomplete-IsComplete fs op is_op (rw is_op at p.known) (rw is_op at p.complete)
