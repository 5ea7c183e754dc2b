-- ===== src/Transport/Mutations.antt =====
-- What `assertMutationEnvelope` of packages/core/src/transport.ts lets through.
use flux_fast.Shared.{
  ℕ, String, ◌≡◌, refl, inl, inr, Bool, true, false, ◌&&◌, ◌||◌, none, arith, All, str_eq,
  if◌then◌else◌,
}
use flux_fast.Value.{
  Value, undefined, null, bool, num, str, array, object, Items, nil, cons, Fields, end, field,
  get_field, has_field, elements,
}
use flux_fast.Transport.{
  is_plain, is_string, is_undefined, fields_of, is_origin_relative, text_of, patch_problem,
  items_problem, list_of_patches, patches_problem, mutation_checks, assert_mutation_envelope,
}
use flux_fast.Transport.Envelopes.{
  both, unless_fine, All-first_problem, both_pass, patch_problem-IsPatch,
}
use flux_fast.Transport.Pages.{
  IsObject, Optional, EachHas, by_object, is_string-IsText, left_out, has_version-eq,
}
use flux_fast.Transport.Redirects.{IsLocalText, is_origin_relative-IsLocalText}
use flux_fast.Transport.Patches.{IsComplete, IsPatch-IsComplete}

abbrev pub ArePatches : Value → Type 0
ArePatches v = (r : ℕ) × (vs : Items) × (v ≡ array r vs) × All (IsObject IsComplete) (elements vs)

items_problem-All :
    (key : String) (vs : Items)
    → items_problem key vs ≡ none
    → All (IsObject IsComplete) (elements vs)
unfolding items_problem
items_problem-All key nil e = tt
items_problem-All key (cons v vs) e =
    let (here, later) = both_pass (patch_problem key v) (items_problem key vs) e in
    (IsPatch-IsComplete v (patch_problem-IsPatch key v here), items_problem-All key vs later)

list_of_patches-ArePatches :
    (key : String) (v : Value) → list_of_patches key v ≡ none → ArePatches v
list_of_patches-ArePatches key (array r vs) e = (r, vs, refl, items_problem-All key vs e)
list_of_patches-ArePatches key undefined e = absurd (ground arith)
list_of_patches-ArePatches key null e = absurd (ground arith)
list_of_patches-ArePatches key (bool b) e = absurd (ground arith)
list_of_patches-ArePatches key (num n) e = absurd (ground arith)
list_of_patches-ArePatches key (str s) e = absurd (ground arith)
list_of_patches-ArePatches key (object r fs) e = absurd (ground arith)

patches_problem-EachHas : (fs : Fields) → patches_problem fs ≡ none → EachHas ArePatches fs
unfolding patches_problem get_field has_field
patches_problem-EachHas end e key h = absurd (ground arith)
patches_problem-EachHas (field k v fs) e key h =
    let (here, later) = both_pass (list_of_patches k v) (patches_problem fs) e in
    go (list_of_patches-ArePatches k v here) (str_eq k key) (patches_problem-EachHas fs later key) h
  where
    go :
        ArePatches v
        → (b : Bool) → (has_field key fs ≡ true → ArePatches (get_field key fs))
        → (if b then true else has_field key fs) ≡ true
        → ArePatches (if b then v else get_field key fs)
    go head true later p = head
    go head false later p = later p

-- What the type MutationEnvelope says of the mutation of a decoded object.
pub record IsMutation (is_http : String → Bool) (fs : Fields) : Type 0 where
  pub redirect : Optional IsLocalText (get_field "redirect" fs)
  pub external :
      Optional
        (λ v. (url : String) × (v ≡ str url) × (is_http url ≡ true))
        (get_field "externalRedirect" fs)
  pub patches : Optional (IsObject (EachHas ArePatches)) (get_field "patches" fs)

abbrev pub IsMutationEnvelope : (String → Bool) → Value → Type 0
IsMutationEnvelope is_http = IsObject (λ fs.
    (get_field "protocol" fs ≡ str "fluxfast/1")
    × IsObject (IsMutation is_http) (get_field "mutation" fs))

http_text :
    (is_http : String → Bool) (v : Value)
    → (is_string v && is_http (text_of v)) ≡ true
    → (url : String) × (v ≡ str url) × (is_http url ≡ true)
http_text is_http v e =
    let (text, http) = both _ _ e in
    let (url, is_url) = is_string-IsText v text in (url, is_url, rw is_url at http)

patches_if_any :
    (v : Value)
    → (is_undefined v || is_plain v) ≡ true
    → patches_problem (fields_of v) ≡ none
    → Optional (IsObject (EachHas ArePatches)) v
patches_if_any v shape e = go (
    left_out (λ v. patches_problem (fields_of v) ≡ none → IsObject (EachHas ArePatches) v) is_plain
      (by_object (λ v. patches_problem (fields_of v) ≡ none → IsObject (EachHas ArePatches) v)
        (λ r fs h. (r, fs, refl, patches_problem-EachHas fs h)))
      v shape)
  where
    go :
        Optional (λ v. patches_problem (fields_of v) ≡ none → IsObject (EachHas ArePatches) v) v
        → Optional (IsObject (EachHas ArePatches)) v
    go (inl u) = inl u
    go (inr f) = inr (f e)

mutation_checks-IsMutationEnvelope :
    (is_http : String → Bool) (r : ℕ) (fs : Fields)
    → All (λ check. check ≡ none) (mutation_checks is_http (object r fs))
    → IsMutationEnvelope is_http (object r fs)
unfolding mutation_checks
mutation_checks-IsMutationEnvelope is_http r fs checks =
    let (version, c₁) = checks in
    let (mutation, c₂) = c₁ in
    let (invalidate, c₃) = c₂ in
    let (shape, c₄) = c₃ in
    let (redirect, c₅) = c₄ in
    let (external, c₆) = c₅ in
    let patches = c₆.0 in
    (
      r,
      fs,
      refl,
      (
        has_version-eq (get_field "protocol" fs) (both true _ (unless_fine _ _ version)).1,
        by_object (λ v. IsMutation is_http (fields_of v) → IsObject (IsMutation is_http) v)
            (λ q gs h. (q, gs, refl, h)) (get_field "mutation" fs) (unless_fine _ _ mutation)
            (record {
              redirect =
                  left_out IsLocalText is_origin_relative is_origin_relative-IsLocalText _
                    (unless_fine _ _ redirect);
              external =
                  left_out (λ v. (url : String) × (v ≡ str url) × (is_http url ≡ true))
                    (λ v. is_string v && is_http (text_of v)) (http_text is_http) _
                    (unless_fine _ _ external);
              patches = patches_if_any _ (unless_fine _ _ shape) patches;
            }),
      ),
    )

-- What `assertMutationEnvelope` lets through is an object whose protocol is "fluxfast/1" and whose
-- mutation is an object. If that redirects, it is to a path that begins with one `/`, and with no
-- second, and has no `\` and no control character, or else to a text that the runtime takes for an HTTP
-- URL. Its patches are left out, or an object of which each property, as it is looked up, is a list
-- of objects with a known operation that have what the operation needs: a value, an object for a
-- value, or an identity, which is a number or a text for `id` or a property in `match`.
pub assert_mutation_envelope-ArePatches :
    (is_http : String → Bool) (decoded : Value)
    → assert_mutation_envelope is_http decoded ≡ none
    → IsMutationEnvelope is_http decoded
unfolding assert_mutation_envelope
assert_mutation_envelope-ArePatches is_http decoded e =
    let checks = All-first_problem (mutation_checks is_http decoded) e in
    by_object
      (λ v. All (λ check. check ≡ none) (mutation_checks is_http v) → IsMutationEnvelope is_http v)
      (λ r fs h. mutation_checks-IsMutationEnvelope is_http r fs h) decoded (plain decoded checks)
      checks
  where
    plain :
        (v : Value) → All (λ check. check ≡ none) (mutation_checks is_http v) → is_plain v ≡ true
    plain v h = (both _ _ (unless_fine _ _ (unfold mutation_checks in h.0))).0
