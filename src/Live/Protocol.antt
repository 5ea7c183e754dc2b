-- ===== src/Live/Protocol.antt =====
-- `assertLiveEvent` of packages/core/src/live/protocol.ts, the check of a decoded live event.
use flux_fast.Shared.{
  ℕ, ◌≤◌, String, ◌≡◌, refl, Bool, true, false, ◌&&◌, ◌||◌, not, Option, none, some, List, [], ◌∷◌,
  if◌then◌else◌, arith, length, ltb, str_eq, All, ap, Bool-cases, inl, inr,
}
use flux_fast.Shared.Chars.{any}
use flux_fast.Value.{
  Value, undefined, str, array, object, Items, nil, cons, Fields, end, field, get_field, has_field,
}
use flux_fast.Live.State.{LiveManifest}
use flux_fast.Live.Keys.{is_unsafe_key, assert_client_id, normalized, normalize_manifest}
use flux_fast.Live.Keys.Laws.{normalize_manifest_lem}
use flux_fast.Transport.{
  is_plain, is_string, fields_of, text_of, op_in, allowed_ops, has_version, all_items, is_empty,
  has_id, has_identity, patch_problem,
}
use flux_fast.Transport.Envelopes.{IsPatch, patch_problem-IsPatch}

-- A VersionMismatchError, or any other ProtocolError.
pub data LiveRefusal : Type 0 where
  version_mismatch protocol_error : LiveRefusal

abbrev pub texts : Items → List String
texts nil = []
texts (cons v vs) = text_of v ∷ texts vs

abbrev pub names : Fields → List String
names end = []
names (field k v fs) = k ∷ names fs

-- `assertResourceKeys` of a list of texts
unfoldable pub are_safe_keys : List String → Bool
unfolding is_unsafe_key
are_safe_keys keys = not (ltb 100 (length keys)) && not (any is_unsafe_key keys)

abbrev pub are_resource_keys : Value → Bool
are_resource_keys (array r vs) = all_items is_string vs && are_safe_keys (texts vs)
are_resource_keys _ = false

-- `assertOriginClientId`
abbrev pub is_client_id : Value → Bool
is_client_id undefined = true
is_client_id (str s) = assert_client_id (some s)
is_client_id _ = false

abbrev is_identified : Fields → Bool
is_identified patch =
    has_field "id" patch
    || (is_plain (get_field "match" patch) && not (is_empty (fields_of (get_field "match" patch))))

abbrev lacks : String → Fields → Bool
lacks op patch =
    (op_in ("replace-resource" ∷ "merge-object" ∷ "append-item" ∷ []) op
      && not (has_field "value" patch))
    || (op_in ("replace-item" ∷ "remove-item" ∷ []) op && not (is_identified patch))
    || (str_eq op "replace-item" && not (has_field "value" patch))

-- `assertPatch`
unfoldable pub is_live_patch : Value → Bool
unfolding get_field has_field
is_live_patch v =
    let patch = fields_of v in
    let op = get_field "op" patch in
    is_plain v && is_string op && op_in allowed_ops (text_of op) && not (lacks (text_of op) patch)

abbrev pub is_patch_list : Value → Bool
is_patch_list (array r vs) = all_items is_live_patch vs
is_patch_list _ = false

unfoldable pub all_fields : (Value → Bool) → Fields → Bool
all_fields test end = true
all_fields test (field k v fs) = test v && all_fields test fs

abbrev pub live_resync_reasons : List String
live_resync_reasons = "overflow" ∷ "reconnect" ∷ "broker-recovery" ∷ "server" ∷ []

-- The checks of an event of the type that it names, with its other properties.
unfoldable pub is_event : String → Fields → Bool
unfolding get_field all_items are_safe_keys assert_client_id is_live_patch all_fields
is_event type fs =
    if str_eq type "ready"
    then are_resource_keys (get_field "keys" fs)
    else if str_eq type "invalidate"
    then are_resource_keys (get_field "keys" fs) && is_client_id (get_field "originClientId" fs)
    else if str_eq type "patch"
    then is_plain (get_field "patches" fs)
      && are_safe_keys (names (fields_of (get_field "patches" fs)))
      && all_fields is_patch_list (fields_of (get_field "patches" fs))
      && is_client_id (get_field "originClientId" fs)
    else str_eq type "resync"
      && are_resource_keys (get_field "keys" fs)
      && is_string (get_field "reason" fs)
      && op_in live_resync_reasons (text_of (get_field "reason" fs))

unfoldable pub assert_live_event : Value → Option LiveRefusal
unfolding get_field is_event
assert_live_event decoded =
    let fs = fields_of decoded in
    if not (is_plain decoded && has_version (get_field "protocol" fs))
    then some version_mismatch
    else if is_string (get_field "type" fs) && is_event (text_of (get_field "type" fs)) fs
    then none
    else some protocol_error

-- Texts as a decoded array.
abbrev pub array_of : List String → Items
array_of [] = nil
array_of (s ∷ ss) = cons (str s) (array_of ss)

texts-array_of : (ss : List String) → texts (array_of ss) ≡ ss
texts-array_of [] = refl
texts-array_of (s ∷ ss) = ap (λ ts. s ∷ ts) (texts-array_of ss)

all_strings : (ss : List String) → all_items is_string (array_of ss) ≡ true
unfolding all_items
all_strings [] = refl
all_strings (s ∷ ss) = all_strings ss

none_unsafe :
    (ss : List String) → All (λ key. is_unsafe_key key ≡ false) ss → any is_unsafe_key ss ≡ false
none_unsafe [] h = refl
none_unsafe (s ∷ ss) h = rw (h.0, none_unsafe ss h.1) refl

-- The event by which the server says that it serves a manifest's keys.
abbrev pub ready_event : ℕ → ℕ → List String → Value
ready_event q r keys = object q (
    field "protocol" (str "fluxfast/1")
      (field "type" (str "ready") (field "keys" (array r (array_of keys)) end)))

-- The server may answer with the keys that it was asked for: a `ready` event with the keys of a
-- manifest that `normalizeManifest` made is accepted.
pub normalize_manifest-assert_live_event :
    (url : String) (keys : List String) (m : LiveManifest) (q r : ℕ)
    → normalize_manifest url keys ≡ normalized m
    → assert_live_event (ready_event q r m.keys) ≡ none
unfolding assert_live_event is_event get_field are_safe_keys
normalize_manifest-assert_live_event url keys m q r e =
    let (same, filled, sorted, safe, few, short) = normalize_manifest_lem url keys m e in
    accepted safe few
  where
    accepted :
        All (λ key. is_unsafe_key key ≡ false) m.keys
        → length m.keys ≤ 100
        → assert_live_event (ready_event q r m.keys) ≡ none
    accepted safe few =
        rw (all_strings m.keys, texts-array_of m.keys, none_unsafe m.keys safe) (ground arith)

absent_undefined :
    (key : String) (fs : Fields) → has_field key fs ≡ false → get_field key fs ≡ undefined
unfolding has_field get_field
absent_undefined key end e = refl
absent_undefined key (field k v fs) e = go (str_eq k key) (absent_undefined key fs) e
  where
    go :
        (b : Bool)
        → (has_field key fs ≡ false → get_field key fs ≡ undefined)
        → (if b then true else has_field key fs) ≡ false
        → (if b then v else get_field key fs) ≡ undefined
    go true later p = absurd (ground arith)
    go false later p = later p

has_id-has_field : (patch : Fields) → has_id patch ≡ true → has_field "id" patch ≡ true
has_id-has_field patch h = elim (Bool-cases (has_field "id" patch)) [
  | inl e ↦ e
  | inr e ↦ absurd (ground (arith, rw (absent_undefined "id" patch e) at h))
]

identified : (patch : Fields) → (not (has_identity patch) || is_identified patch) ≡ true
identified patch =
    go (has_id patch) (has_field "id" patch)
      (is_plain (get_field "match" patch) && not (is_empty (fields_of (get_field "match" patch))))
      (has_id-has_field patch)
  where
    go : (a b c : Bool) → (a ≡ true → b ≡ true) → (not (a || c) || (b || c)) ≡ true
    go true b c h = rw (h refl) refl
    go false true c h = ground arith
    go false false c h = ground arith

weaker :
    (a b r m v p i j : Bool)
    → (not i || j) ≡ true
    → ((a && not v) || (b && not i) || (r && not v) || (m && not p)) ≡ false
    → ((a && not v) || (b && not j) || (r && not v)) ≡ false
weaker a b r m v p i j h e = ground arith

-- A patch that a mutation's answer may carry may come in a live event as well.
pub patch_problem-is_live_patch :
    (key : String) (v : Value) → patch_problem key v ≡ none → is_live_patch v ≡ true
unfolding is_live_patch
patch_problem-is_live_patch key v e =
    let fine = patch_problem-IsPatch key v e in
    rw (fine.plain, fine.text, fine.known, complete fine) refl
  where
    complete : IsPatch v → lacks (text_of (get_field "op" (fields_of v))) (fields_of v) ≡ false
    complete fine = weaker _ _ _ _ _ _ _ _ (identified (fields_of v)) fine.complete
