-- ===== src/Tests/Transport.antt =====
-- Runs of the checks of packages/core/src/transport.ts.
use flux_fast.Shared.{
  ◌≤◌, String, ◌≡◌, refl, ◌⊎◌, Bool, true, false, none, some, [], ◌∷◌, str_dec, elem,
}
use flux_fast.Shared.Chars.{codes, code_units, text_length, is_blank, includes, has_any_control}
use flux_fast.Shared.JsMap.{Map, get, set, size}
use flux_fast.Value.{
  Value, null, num, str, array, object, nil, cons, end, field, get_field, has_field,
}
use flux_fast.Transport.{
  is_origin_relative, is_safe_key, is_sendable, select_known, select_known_versions,
  select_only_resources, each_field, all_items, page_checks, assert_page_envelope, patch_checks,
  patch_problem, items_problem, patches_problem, mutation_checks, assert_mutation_envelope,
  version_mismatch, resource_record, incomplete,
}
use flux_fast.Transport.Selection.{
  select_known_versions_lem, IsSplit, select_only_resources-IsSplit,
}
use flux_fast.Transport.Pages.{IsObject, IsEnvelope, assert_page_envelope-IsPageEnvelope}
use flux_fast.Transport.Mutations.{IsMutationEnvelope, assert_mutation_envelope-ArePatches}

abbrev known : Map String String
known = ("rooms", "v1") ∷ ("a,b", "v1") ∷ []

unsafe_left_out : select_known_versions (some known) ≡ ("rooms", "v1") ∷ []
unfolding select_known_versions select_known is_safe_key is_blank text_length includes
    has_any_control codes code_units set
unsafe_left_out = refl

select_known_versions_example :
    (size (select_known_versions (some known)) ≤ 100)
    × ((key version : String)
        → get str_dec key (select_known_versions (some known)) ≡ some version
        → (get str_dec key known ≡ some version) × (is_sendable key version ≡ true))
select_known_versions_example =
    select_known_versions_lem known (unfold elem str_dec in (refl, (refl, tt)))

select_only_resources_example :
    (select_only_resources (some ("rooms" ∷ "a,b" ∷ "users" ∷ [])) ≡ [])
    ⊎ IsSplit (select_only_resources (some ("rooms" ∷ "a,b" ∷ "users" ∷ [])))
select_only_resources_example = select_only_resources-IsSplit ("rooms" ∷ "a,b" ∷ "users" ∷ [])

abbrev page : Value → Value
page record_of = object 1 (
    field "protocol" (str "fluxfast/1") (
      field "page" (object 2 (field "component" (str "rooms") (field "url" (str "/rooms") end))) (
        field "resources" (object 3 (field "rooms" record_of end))
          (field "deferred" (array 4 (cons (str "users") nil)) end))))

abbrev good : Value
good = page (object 5 (field "version" (str "v1") (field "value" null end)))

good_accepted : assert_page_envelope good ≡ none
unfolding assert_page_envelope page_checks get_field has_field each_field all_items
good_accepted = refl

no_value :
    assert_page_envelope (page (object 5 (field "version" (str "v1") end)))
    ≡ some (resource_record "rooms")
unfolding assert_page_envelope page_checks get_field has_field each_field all_items
no_value = refl

no_version : assert_page_envelope (object 1 end) ≡ some version_mismatch
unfolding assert_page_envelope page_checks get_field has_field each_field all_items
no_version = refl

assert_page_envelope_example : IsObject IsEnvelope good
assert_page_envelope_example = assert_page_envelope-IsPageEnvelope good good_accepted

abbrev mutated : Value → Value
mutated patch = object 1 (
    field "protocol" (str "fluxfast/1") (
      field "mutation"
        (object 2 (
          field "patches" (object 3 (field "rooms" (array 4 (cons patch nil)) end))
            (field "redirect" (str "/login") end)))
        end))

abbrev removal : Value
removal = object 5 (field "op" (str "remove-item") (field "id" (num "7") end))

no_http : String → Bool
no_http url = false

removal_accepted : assert_mutation_envelope no_http (mutated removal) ≡ none
unfolding assert_mutation_envelope mutation_checks get_field has_field all_items is_origin_relative
    patches_problem items_problem patch_problem patch_checks codes includes has_any_control
removal_accepted = refl

no_identity :
    assert_mutation_envelope no_http (mutated (object 5 (field "op" (str "remove-item") end)))
    ≡ some (incomplete "rooms")
unfolding assert_mutation_envelope mutation_checks get_field has_field all_items is_origin_relative
    patches_problem items_problem patch_problem patch_checks codes includes has_any_control
no_identity = refl

assert_mutation_envelope_example : IsMutationEnvelope no_http (mutated removal)
assert_mutation_envelope_example =
    assert_mutation_envelope-ArePatches no_http (mutated removal) removal_accepted
