-- ===== src/Tests/Protocol.antt =====
-- Runs of the check of live events of packages/core/src/live/protocol.ts.
use flux_fast.Shared.{◌≡◌, refl, true, none, some, [], ◌∷◌, add, str_dec}
use flux_fast.Shared.Chars.{
  codes, code_units, text_length, is_blank, includes, has_control, insert, sort, join_commas,
  split_commas,
}
use flux_fast.Value.{Value, null, num, str, object, end, field, get_field, has_field}
use flux_fast.Live.State.{LiveManifest}
use flux_fast.Live.Keys.{is_unsafe_key, serialize_live_keys, normalized, normalize_manifest}
use flux_fast.Transport.{patch_problem, patch_checks}
use flux_fast.Live.Protocol.{
  version_mismatch, protocol_error, is_live_patch, is_event, assert_live_event, ready_event,
  normalize_manifest-assert_live_event, patch_problem-is_live_patch,
}

abbrev manifest : LiveManifest
manifest = record { url = "/rooms"; keys = "rooms" ∷ "users" ∷ [] }

normal : normalize_manifest "/rooms" ("users" ∷ "rooms" ∷ []) ≡ normalized manifest
unfolding normalize_manifest serialize_live_keys is_unsafe_key add str_dec insert sort join_commas
    split_commas is_blank text_length includes has_control codes code_units
normal = refl

ready_example : assert_live_event (ready_event 1 2 manifest.keys) ≡ none
ready_example =
    normalize_manifest-assert_live_event "/rooms" ("users" ∷ "rooms" ∷ []) manifest 1 2 normal

unknown_type :
    assert_live_event
      (object 1 (field "protocol" (str "fluxfast/1") (field "type" (str "other") end)))
    ≡ some protocol_error
unfolding assert_live_event is_event get_field
unknown_type = refl

no_version : assert_live_event null ≡ some version_mismatch
unfolding assert_live_event get_field
no_version = refl

abbrev removal : Value
removal = object 5 (field "op" (str "remove-item") (field "id" (num "7") end))

patch_problem_example : is_live_patch removal ≡ true
patch_problem_example =
    patch_problem-is_live_patch "rooms" removal
      (unfold patch_problem patch_checks get_field has_field in refl)
