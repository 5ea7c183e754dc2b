-- ===== src/Live/Keys.antt =====
-- The keys of a live connection: `serializeLiveKeys` of packages/core/src/live/transport.ts,
-- `normalizeManifest` of live/manager.ts and `assertClientId` of live/client-id.ts.
pub mod Laws
use Prim.Native.String.{len}
use flux_fast.Shared.{
  ℕ, String, ◌≤◌, ◌≡◌, refl, Bool, true, false, ◌&&◌, ◌||◌, not, Option, none, some, List, [], ◌∷◌,
  arith, if◌then◌else◌, length, ltb, ◌==◌, str_eq, All, inl, inr, Bool-cases,
}
use flux_fast.Shared.Chars.{
  text_length, is_blank, includes, has_control, is_printable, sort, join_commas, split_commas,
  split-join, any,
}
use flux_fast.Store.Changes.{union}
use flux_fast.Live.State.{LiveManifest}

-- The checks of one key, which `assertResourceKeys` of live/protocol.ts repeats. `includes` looks
-- for a comma.
unfoldable pub is_unsafe_key : String → Bool
unfolding is_blank text_length includes has_control
is_unsafe_key key = is_blank key || ltb 128 (text_length key) || includes 44 key || has_control key

-- `none` is the ProtocolError. The header's length is counted in bytes of UTF-8.
unfoldable pub serialize_live_keys : List String → Option String
unfolding sort is_unsafe_key join_commas
serialize_live_keys [] = none
serialize_live_keys keys =
    let normalized = sort (union [] keys) in
    let serialized = join_commas normalized in
    if ltb 100 (length normalized) || any is_unsafe_key normalized || ltb 16384 (len serialized)
    then none
    else some serialized

-- The outcome of `normalizeManifest`: no manifest for a page without live keys.
pub data Normalized : Type 0 where
  throws no_manifest : Normalized
  normalized : LiveManifest → Normalized

abbrev with_keys : String → Option String → Normalized
with_keys url none = throws
with_keys url (some serialized) = normalized (record { url = url; keys = split_commas serialized })

unfoldable pub normalize_manifest : String → List String → Normalized
unfolding serialize_live_keys split_commas
normalize_manifest url [] = no_manifest
normalize_manifest url keys =
    if str_eq url "" then throws else with_keys url (serialize_live_keys keys)

-- `false` is the ProtocolError.
unfoldable pub assert_client_id : Option String → Bool
unfolding text_length is_printable
assert_client_id none = true
assert_client_id (some id) =
    not (text_length id == 0) && not (ltb 64 (text_length id)) && is_printable id
