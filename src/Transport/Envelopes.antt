-- ===== src/Transport/Envelopes.antt =====
-- Chains of checks in packages/core/src/transport.ts: what follows where none finds a problem.
use flux_fast.Shared.{
  String, ◌≡◌, refl, Bool, true, false, ◌&&◌, ◌||◌, not, Option, none, some, List, [], ◌∷◌,
  if◌then◌else◌, arith, All, str_eq,
}
use flux_fast.Value.{
  Value, undefined, null, bool, num, str, array, object, Fields, end, field, get_field, has_field,
}
use flux_fast.Transport.{
  is_plain, is_string, is_undefined, fields_of, Refusal, or_then, first_problem, unless, each_field,
  has_id, is_error_detail, error_problem, patch_checks, resource_error, op_in, allowed_ops, text_of,
  is_incomplete, patch_problem,
}

-- Each name once, as in every decoded object.
abbrev pub DistinctNames : Fields → Type 0
DistinctNames end = Unit
DistinctNames (field k v fs) = (has_field k fs ≡ false) × DistinctNames fs

-- Every property passes the test, as it is looked up.
abbrev pub Each : (Value → Bool) → Fields → Type 0
Each test fs = (key : String) → has_field key fs ≡ true → test (get_field key fs) ≡ true

is_false : (b : Bool) → not b ≡ true → b ≡ false
is_false false e = refl
is_false true e = absurd (ground arith)

pub both : (a b : Bool) → (a && b) ≡ true → (a ≡ true) × (b ≡ true)
both true b e = (refl, e)
both false b e = absurd (ground arith)

pub unless_fine : (fine : Bool) (refusal : Refusal) → unless fine refusal ≡ none → fine ≡ true
unless_fine true refusal e = refl
unless_fine false refusal e = absurd (ground arith)

-- The first check of a chain passed, and so did the rest.
passed :
    (fine : Bool) (refusal : Refusal) (next : Option Refusal)
    → or_then (unless fine refusal) next ≡ none
    → (fine ≡ true) × (next ≡ none)
passed true refusal next e = (refl, e)
passed false refusal next e = absurd (ground arith)

-- Where there is no first problem, there is none.
pub All-first_problem :
    (checks : List (Option Refusal))
    → first_problem checks ≡ none
    → All (λ check. check ≡ none) checks
All-first_problem [] e = tt
All-first_problem (none ∷ checks) e = (refl, All-first_problem checks e)
All-first_problem (some refusal ∷ checks) e = absurd (ground arith)

pub Each-each_field :
    (test : Value → Bool) (refusal : String → Refusal) (fs : Fields)
    → each_field test refusal fs ≡ none
    → Each test fs
unfolding each_field get_field has_field
Each-each_field test refusal end e key h = absurd (ground arith)
Each-each_field test refusal (field k v fs) e key h =
    let (head, rest) = passed (test v) (refusal k) (each_field test refusal fs) e in
    go head (str_eq k key) (Each-each_field test refusal fs rest key) h
  where
    go :
        test v ≡ true
        → (b : Bool) → (has_field key fs ≡ true → test (get_field key fs) ≡ true)
        → (if b then true else has_field key fs) ≡ true
        → test (if b then v else get_field key fs) ≡ true
    go head true later p = head
    go head false later p = later p

pub error_problem-fine :
    (v : Value)
    → error_problem v ≡ none
    → ((is_undefined v || is_plain v) ≡ true) × Each is_error_detail (fields_of v)
unfolding has_field
error_problem-fine undefined e = (refl, λ key h. absurd (ground arith))
error_problem-fine (object r fs) e = (refl, Each-each_field is_error_detail resource_error fs e)
error_problem-fine null e = absurd (ground arith)
error_problem-fine (bool b) e = absurd (ground arith)
error_problem-fine (num n) e = absurd (ground arith)
error_problem-fine (str s) e = absurd (ground arith)
error_problem-fine (array r xs) e = absurd (ground arith)

-- A patch that `applyPatchToValue` is made for: an operation that it knows, with what that needs.
pub record IsPatch (v : Value) : Type 0 where
  pub plain : is_plain v ≡ true
  pub text : is_string (get_field "op" (fields_of v)) ≡ true
  pub known : op_in allowed_ops (text_of (get_field "op" (fields_of v))) ≡ true
  pub id : (not (has_field "id" (fields_of v)) || has_id (fields_of v)) ≡ true
  pub complete : is_incomplete (text_of (get_field "op" (fields_of v))) (fields_of v) ≡ false

pub patch_problem-IsPatch : (key : String) (v : Value) → patch_problem key v ≡ none → IsPatch v
unfolding patch_problem patch_checks
patch_problem-IsPatch key v e =
    let (op, c₁) = All-first_problem (patch_checks key v) e in
    let (id, c₂) = c₁ in
    let (match_fine, c₃) = c₂ in
    record {
      plain = (both _ _ (both _ _ (unless_fine _ _ op)).0).0;
      text = (both _ _ (both _ _ (unless_fine _ _ op)).0).1;
      known = (both _ _ (unless_fine _ _ op)).1;
      id = unless_fine _ _ id;
      complete = is_false _ (unless_fine _ _ c₃.0);
    }

pub both_pass : (a b : Option Refusal) → or_then a b ≡ none → (a ≡ none) × (b ≡ none)
both_pass none b e = (refl, e)
both_pass (some refusal) b e = absurd (ground arith)
