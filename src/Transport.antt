-- ===== src/Transport.antt =====
-- packages/core/src/transport.ts: the checks of decoded envelopes, and what of the known versions and
-- the wanted keys goes into the headers. The properties of a decoded object stand in the order in
-- which `Object.entries` lists them.
pub mod Selection
pub mod Envelopes
pub mod Pages
pub mod Redirects
pub mod Patches
pub mod Mutations
use Prim.Native.String.{len}
use flux_fast.Shared.{
  ℕ, ◌-◌, String, Bool, true, false, ◌&&◌, ◌||◌, not, Option, none, some, List, [], ◌∷◌,
  if◌then◌else◌, length, ltb, leb, ◌==◌, str_eq, str_dec,
}
use flux_fast.Shared.Chars.{
  any, codes, text_length, is_blank, includes, has_any_control, join_commas,
}
use flux_fast.Shared.JsMap.{Map, set, size}
use flux_fast.Value.{
  Value, undefined, null, bool, num, str, array, object, Items, nil, cons, Fields, end, field,
  get_field, has_field,
}

-- `isObject`: an object that is no array.
abbrev pub is_plain : Value → Bool
is_plain (object r fs) = true
is_plain _ = false

abbrev pub is_string : Value → Bool
is_string (str s) = true
is_string _ = false

abbrev pub is_undefined : Value → Bool
is_undefined undefined = true
is_undefined _ = false

abbrev pub is_number : Value → Bool
is_number (num n) = true
is_number _ = false

-- The properties of an object that is no array.
abbrev pub fields_of : Value → Fields
fields_of (object r fs) = fs
fields_of _ = end

-- `isSafeResourceKey`
unfoldable pub is_safe_key : String → Bool
unfolding is_blank text_length includes has_any_control
is_safe_key key =
    not (is_blank key)
    && not (ltb 128 (text_length key))
    && not (includes 44 key)
    && not (has_any_control key)

abbrev pub starts_relative : List ℕ → Bool
starts_relative [] = false
starts_relative (c ∷ []) = c == 47
starts_relative (c ∷ d ∷ cs) = c == 47 && not (d == 47)

-- `isOriginRelativeRedirect`: `\` has the code 92.
unfoldable pub is_origin_relative : Value → Bool
unfolding codes includes has_any_control
is_origin_relative (str s) =
    starts_relative (codes s) && not (includes 92 s) && not (has_any_control s)
is_origin_relative _ = false

abbrev pub is_sendable : String → String → Bool
is_sendable key version =
    is_safe_key key && not (ltb 128 (text_length version)) && not (has_any_control version)

-- The loop of `selectKnownVersions`.
unfoldable pub select_known : Map String String → Map String String → Map String String
unfolding is_safe_key text_length has_any_control
select_known [] safe = safe
select_known ((key, version) ∷ rest) safe =
    if leb 100 (size safe)
    then safe
    else select_known rest (if is_sendable key version then set str_dec key version safe else safe)

unfoldable pub select_known_versions : Option (Map String String) → Map String String
unfolding select_known
select_known_versions none = []
select_known_versions (some known) = select_known known []

abbrev pub safe_keys : List String → List String
safe_keys [] = []
safe_keys (key ∷ keys) = if is_safe_key key then key ∷ safe_keys keys else safe_keys keys

abbrev pub first : ℕ → List String → List String
first n [] = []
first n (key ∷ keys) = if ltb 0 n then key ∷ first (n - 1) keys else []

-- The bytes of the header are counted in UTF-8.
unfoldable pub select_only_resources : Option (List String) → List String
unfolding is_safe_key join_commas
select_only_resources none = []
select_only_resources (some only) =
    let safe = first 100 (safe_keys only) in
    if length safe == 0 || ltb 16384 (len (join_commas safe)) then [] else safe

-- What an envelope is refused for. A page's problems are ProtocolErrors, a mutation's MutationErrors.
pub data Refusal : Type 0 where
  version_mismatch page_descriptor no_resources no_errors app_version : Refusal
  resource_record list_field resource_error : String → Refusal
  no_mutation no_invalidate no_patches redirect external_redirect : Refusal
  patch_list operation patch_id patch_match incomplete : String → Refusal

-- The first refusal, if any.
abbrev pub or_then : Option Refusal → Option Refusal → Option Refusal
or_then (some refusal) next = some refusal
or_then none next = next

-- Checks one after the other.
abbrev pub first_problem : List (Option Refusal) → Option Refusal
first_problem [] = none
first_problem (check ∷ checks) = or_then check (first_problem checks)

abbrev pub unless : Bool → Refusal → Option Refusal
unless fine refusal = if fine then none else some refusal

-- The first property whose value fails the test.
unfoldable pub each_field : (Value → Bool) → (String → Refusal) → Fields → Option Refusal
each_field test refusal end = none
each_field test refusal (field key v fs) =
    or_then (unless (test v) (refusal key)) (each_field test refusal fs)

unfoldable pub all_items : (Value → Bool) → Items → Bool
all_items test nil = true
all_items test (cons x xs) = test x && all_items test xs

abbrev pub is_text_list : Value → Bool
is_text_list (array r xs) = all_items is_string xs
is_text_list _ = false

abbrev pub has_version : Value → Bool
has_version (str s) = str_eq s "fluxfast/1"
has_version _ = false

abbrev pub is_wire_record : Value → Bool
is_wire_record v =
    is_plain v && is_string (get_field "version" (fields_of v)) && has_field "value" (fields_of v)

abbrev pub is_error_detail : Value → Bool
is_error_detail v =
    is_plain v
    && is_string (get_field "type" (fields_of v))
    && is_string (get_field "message" (fields_of v))

abbrev pub is_page : Value → Bool
is_page v =
    is_plain v
    && is_string (get_field "component" (fields_of v))
    && is_string (get_field "url" (fields_of v))

abbrev pub list_problem : String → Fields → Option Refusal
list_problem name fs =
    unless (is_undefined (get_field name fs) || is_text_list (get_field name fs)) (list_field name)

abbrev pub error_problem : Value → Option Refusal
error_problem undefined = none
error_problem v =
    or_then (unless (is_plain v) no_errors)
      (each_field is_error_detail resource_error (fields_of v))

-- The checks of `assertPageEnvelope`, which accepts where none finds a problem.
unfoldable pub page_checks : Value → List (Option Refusal)
unfolding get_field has_field each_field all_items
page_checks decoded =
    let fs = fields_of decoded in
    unless (is_plain decoded && has_version (get_field "protocol" fs)) version_mismatch
    ∷ unless (is_page (get_field "page" fs)) page_descriptor
    ∷ unless (is_plain (get_field "resources" fs)) no_resources
    ∷ each_field is_wire_record resource_record (fields_of (get_field "resources" fs))
    ∷ list_problem "resourceKeys" fs
    ∷ list_problem "deferred" fs
    ∷ list_problem "live" fs
    ∷ error_problem (get_field "resourceErrors" fs)
    ∷ unless (is_undefined (get_field "appVersion" fs) || is_string (get_field "appVersion" fs))
        app_version
    ∷ []

unfoldable pub assert_page_envelope : Value → Option Refusal
unfolding page_checks
assert_page_envelope decoded = first_problem (page_checks decoded)

abbrev pub op_in : List String → String → Bool
op_in ops op = any (λ o. str_eq o op) ops

abbrev pub allowed_ops : List String
allowed_ops =
    "replace-resource" ∷ "merge-object" ∷ "replace-item" ∷ "remove-item" ∷ "append-item" ∷ []

abbrev pub text_of : Value → String
text_of (str s) = s
text_of _ = ""

abbrev pub has_id : Fields → Bool
has_id patch = is_string (get_field "id" patch) || is_number (get_field "id" patch)

abbrev pub is_empty : Fields → Bool
is_empty end = true
is_empty (field k v fs) = false

abbrev pub has_identity : Fields → Bool
has_identity patch =
    has_id patch
    || (is_plain (get_field "match" patch) && not (is_empty (fields_of (get_field "match" patch))))

-- The conditions under which a patch is `Incomplete`.
abbrev pub is_incomplete : String → Fields → Bool
is_incomplete op patch =
    (op_in ("replace-resource" ∷ "merge-object" ∷ "append-item" ∷ []) op
      && not (has_field "value" patch))
    || (op_in ("replace-item" ∷ "remove-item" ∷ []) op && not (has_identity patch))
    || (str_eq op "replace-item" && not (has_field "value" patch))
    || (str_eq op "merge-object" && not (is_plain (get_field "value" patch)))

-- The checks of one patch of the resource `key`.
unfoldable pub patch_checks : String → Value → List (Option Refusal)
unfolding get_field has_field
patch_checks key v =
    let patch = fields_of v in
    let op = get_field "op" patch in
    unless (is_plain v && is_string op && op_in allowed_ops (text_of op)) (operation key)
    ∷ unless (not (has_field "id" patch) || has_id patch) (patch_id key)
    ∷ unless (not (has_field "match" patch) || is_plain (get_field "match" patch)) (patch_match key)
    ∷ unless (not (is_incomplete (text_of op) patch)) (incomplete key)
    ∷ []

unfoldable pub patch_problem : String → Value → Option Refusal
unfolding patch_checks
patch_problem key v = first_problem (patch_checks key v)

unfoldable pub items_problem : String → Items → Option Refusal
unfolding patch_problem
items_problem key nil = none
items_problem key (cons v vs) = or_then (patch_problem key v) (items_problem key vs)

abbrev pub list_of_patches : String → Value → Option Refusal
list_of_patches key (array r vs) = items_problem key vs
list_of_patches key _ = some (patch_list key)

unfoldable pub patches_problem : Fields → Option Refusal
unfolding items_problem
patches_problem end = none
patches_problem (field key v fs) = or_then (list_of_patches key v) (patches_problem fs)

-- The checks of `assertMutationEnvelope`. `is_http` says of a text whether the runtime's `new URL` takes it and
-- finds the protocol `http:` or `https:`.
unfoldable pub mutation_checks : (String → Bool) → Value → List (Option Refusal)
unfolding get_field all_items is_origin_relative patches_problem
mutation_checks is_http decoded =
    let fs = fields_of decoded in
    let payload = fields_of (get_field "mutation" fs) in
    let external = get_field "externalRedirect" payload in
    unless (is_plain decoded && has_version (get_field "protocol" fs)) version_mismatch
    ∷ unless (is_plain (get_field "mutation" fs)) no_mutation
    ∷ unless
        (is_undefined (get_field "invalidate" payload)
          || is_text_list (get_field "invalidate" payload))
        no_invalidate
    ∷ unless (is_undefined (get_field "patches" payload) || is_plain (get_field "patches" payload))
        no_patches
    ∷ unless
        (is_undefined (get_field "redirect" payload)
          || is_origin_relative (get_field "redirect" payload))
        redirect
    ∷ unless (is_undefined external || (is_string external && is_http (text_of external)))
        external_redirect
    ∷ patches_problem (fields_of (get_field "patches" payload))
    ∷ []

unfoldable pub assert_mutation_envelope : (String → Bool) → Value → Option Refusal
unfolding mutation_checks
assert_mutation_envelope is_http decoded = first_problem (mutation_checks is_http decoded)
