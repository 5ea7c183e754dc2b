-- ===== src/Transport/Pages.antt =====
-- What `assertPageEnvelope` of packages/core/src/transport.ts lets through.
use flux_fast.Shared.{
  ℕ, String, ◌≡◌, refl, ◌⊎◌, inl, inr, Bool, true, ◌&&◌, ◌||◌, none, arith, All, eq_iff,
}
use flux_fast.Value.{
  Value, undefined, null, bool, num, str, array, object, Items, nil, cons, Fields, get_field,
  has_field, elements,
}
use flux_fast.Transport.{
  is_plain, is_string, is_undefined, fields_of, is_text_list, has_version, is_wire_record,
  is_error_detail, all_items, resource_record, assert_page_envelope, page_checks,
}
use flux_fast.Transport.Envelopes.{
  Each-each_field, both, unless_fine, All-first_problem, error_problem-fine,
}

-- A value is an object, which is no array, whose properties have `P`.
abbrev pub IsObject : (Fields → Type 0) → Value → Type 0
IsObject P v = (r : ℕ) × (fs : Fields) × (v ≡ object r fs) × P fs

-- A value is a text.
abbrev pub IsText : Value → Type 0
IsText v = (s : String) × (v ≡ str s)

-- A value is a list of texts.
abbrev pub IsTexts : Value → Type 0
IsTexts v = (r : ℕ) × (xs : Items) × (v ≡ array r xs) × All IsText (elements xs)

-- Every property, as it is looked up, has `P`.
abbrev pub EachHas : (Value → Type 0) → Fields → Type 0
EachHas P fs = (key : String) → has_field key fs ≡ true → P (get_field key fs)

abbrev pub IsWireRecord : Value → Type 0
IsWireRecord = IsObject (λ fs. IsText (get_field "version" fs) × (has_field "value" fs ≡ true))

abbrev pub IsErrorDetail : Value → Type 0
IsErrorDetail = IsObject (λ fs. IsText (get_field "type" fs) × IsText (get_field "message" fs))

abbrev pub IsPage : Value → Type 0
IsPage = IsObject (λ fs. IsText (get_field "component" fs) × IsText (get_field "url" fs))

abbrev pub Optional : (Value → Type 0) → Value → Type 0
Optional P v = (v ≡ undefined) ⊎ P v

-- What the type PageEnvelope says of the properties of a decoded object.
pub record IsEnvelope (fs : Fields) : Type 0 where
  pub protocol : get_field "protocol" fs ≡ str "fluxfast/1"
  pub page : IsPage (get_field "page" fs)
  pub resources : IsObject (EachHas IsWireRecord) (get_field "resources" fs)
  pub resource_keys : Optional IsTexts (get_field "resourceKeys" fs)
  pub deferred : Optional IsTexts (get_field "deferred" fs)
  pub live : Optional IsTexts (get_field "live" fs)
  pub errors : Optional (IsObject (EachHas IsErrorDetail)) (get_field "resourceErrors" fs)
  pub app_version : Optional IsText (get_field "appVersion" fs)

-- What `isObject` lets through is an object.
pub by_object :
    (P : Value → Type 0)
    → ((r : ℕ) (fs : Fields) → P (object r fs))
    → (v : Value) → is_plain v ≡ true
    → P v
by_object P one (object r fs) e = one r fs
by_object P one undefined e = absurd (ground arith)
by_object P one null e = absurd (ground arith)
by_object P one (bool b) e = absurd (ground arith)
by_object P one (num n) e = absurd (ground arith)
by_object P one (str s) e = absurd (ground arith)
by_object P one (array r xs) e = absurd (ground arith)

pub is_string-IsText : (v : Value) → is_string v ≡ true → IsText v
is_string-IsText (str s) e = (s, refl)
is_string-IsText undefined e = absurd (ground arith)
is_string-IsText null e = absurd (ground arith)
is_string-IsText (bool b) e = absurd (ground arith)
is_string-IsText (num n) e = absurd (ground arith)
is_string-IsText (object r fs) e = absurd (ground arith)
is_string-IsText (array r xs) e = absurd (ground arith)

all_items-IsText : (xs : Items) → all_items is_string xs ≡ true → All IsText (elements xs)
unfolding all_items
all_items-IsText nil e = tt
all_items-IsText (cons x xs) e =
    let (here, later) = both (is_string x) (all_items is_string xs) e in
    (is_string-IsText x here, all_items-IsText xs later)

is_text_list-IsTexts : (v : Value) → is_text_list v ≡ true → IsTexts v
is_text_list-IsTexts (array r xs) e = (r, xs, refl, all_items-IsText xs e)
is_text_list-IsTexts undefined e = absurd (ground arith)
is_text_list-IsTexts null e = absurd (ground arith)
is_text_list-IsTexts (bool b) e = absurd (ground arith)
is_text_list-IsTexts (num n) e = absurd (ground arith)
is_text_list-IsTexts (str s) e = absurd (ground arith)
is_text_list-IsTexts (object r fs) e = absurd (ground arith)

-- A value that may be left out.
pub left_out :
    (P : Value → Type 0) (test : Value → Bool)
    → ((v : Value) → test v ≡ true → P v)
    → (v : Value) → (is_undefined v || test v) ≡ true
    → Optional P v
left_out P test one undefined e = inl refl
left_out P test one null e = inr (one null e)
left_out P test one (bool b) e = inr (one (bool b) e)
left_out P test one (num n) e = inr (one (num n) e)
left_out P test one (str s) e = inr (one (str s) e)
left_out P test one (object r fs) e = inr (one (object r fs) e)
left_out P test one (array r xs) e = inr (one (array r xs) e)

pub has_version-eq : (v : Value) → has_version v ≡ true → v ≡ str "fluxfast/1"
has_version-eq (str s) e = rw ((eq_iff s "fluxfast/1").0 e) refl
has_version-eq undefined e = absurd (ground arith)
has_version-eq null e = absurd (ground arith)
has_version-eq (bool b) e = absurd (ground arith)
has_version-eq (num n) e = absurd (ground arith)
has_version-eq (object r fs) e = absurd (ground arith)
has_version-eq (array r xs) e = absurd (ground arith)

is_wire_record-IsWireRecord : (v : Value) → is_wire_record v ≡ true → IsWireRecord v
is_wire_record-IsWireRecord v e =
    let (front, value) = both _ _ e in
    let (plain, version) = both _ _ front in
    by_object
      (λ v.
        is_string (get_field "version" (fields_of v)) ≡ true
        → has_field "value" (fields_of v) ≡ true
        → IsWireRecord v)
      (λ r fs s h. (r, fs, refl, (is_string-IsText (get_field "version" fs) s, h))) v plain version
      value

two_texts :
    (a b : String) (v : Value)
    → (is_plain v && is_string (get_field a (fields_of v)) && is_string (get_field b (fields_of v)))
      ≡ true
    → IsObject (λ fs. IsText (get_field a fs) × IsText (get_field b fs)) v
two_texts a b v e =
    let (front, second) = both _ _ e in
    let (plain, fst) = both _ _ front in
    by_object
      (λ v.
        is_string (get_field a (fields_of v)) ≡ true
        → is_string (get_field b (fields_of v)) ≡ true
        → IsObject (λ fs. IsText (get_field a fs) × IsText (get_field b fs)) v)
      (λ r fs s t.
        (r, fs, refl, (is_string-IsText (get_field a fs) s, is_string-IsText (get_field b fs) t)))
      v plain fst second

-- A plain object whose properties pass a test.
each_passes :
    (P : Value → Type 0) (test : Value → Bool)
    → ((v : Value) → test v ≡ true → P v)
    → (v : Value) → is_plain v ≡ true
    → ((key : String)
        → has_field key (fields_of v) ≡ true
        → test (get_field key (fields_of v)) ≡ true)
    → IsObject (EachHas P) v
each_passes P test one v plain h =
    by_object
      (λ v.
        ((key : String)
          → has_field key (fields_of v) ≡ true
          → test (get_field key (fields_of v)) ≡ true)
        → IsObject (EachHas P) v)
      (λ r fs g. (r, fs, refl, λ key k. one (get_field key fs) (g key k))) v plain h

fields_if_any :
    (P : Value → Type 0) (test : Value → Bool)
    → ((v : Value) → test v ≡ true → P v)
    → (v : Value) → (is_undefined v || is_plain v) ≡ true
    → ((key : String)
        → has_field key (fields_of v) ≡ true
        → test (get_field key (fields_of v)) ≡ true)
    → Optional (IsObject (EachHas P)) v
fields_if_any P test one undefined e h = inl refl
fields_if_any P test one (object r fs) e h = inr (each_passes P test one (object r fs) refl h)
fields_if_any P test one null e h = absurd (ground arith)
fields_if_any P test one (bool b) e h = absurd (ground arith)
fields_if_any P test one (num n) e h = absurd (ground arith)
fields_if_any P test one (str s) e h = absurd (ground arith)
fields_if_any P test one (array r xs) e h = absurd (ground arith)

page_checks-IsEnvelope :
    (r : ℕ) (fs : Fields) → All (λ check. check ≡ none) (page_checks (object r fs)) → IsEnvelope fs
unfolding page_checks
page_checks-IsEnvelope r fs checks =
    let (version, c₁) = checks in
    let (page, c₂) = c₁ in
    let (resources, c₃) = c₂ in
    let (records, c₄) = c₃ in
    let (keys, c₅) = c₄ in
    let (deferred, c₆) = c₅ in
    let (live, c₇) = c₆ in
    let (errors, c₈) = c₇ in
    record {
      protocol = has_version-eq (get_field "protocol" fs) (both true _ (unless_fine _ _ version)).1;
      page = two_texts "component" "url" (get_field "page" fs) (unless_fine _ _ page);
      resources =
          each_passes IsWireRecord is_wire_record is_wire_record-IsWireRecord
            (get_field "resources" fs) (unless_fine _ _ resources)
            (Each-each_field is_wire_record resource_record _ records);
      resource_keys =
          left_out IsTexts is_text_list is_text_list-IsTexts (get_field "resourceKeys" fs)
            (unless_fine _ _ keys);
      deferred =
          left_out IsTexts is_text_list is_text_list-IsTexts (get_field "deferred" fs)
            (unless_fine _ _ deferred);
      live =
          left_out IsTexts is_text_list is_text_list-IsTexts (get_field "live" fs)
            (unless_fine _ _ live);
      errors =
          let fine = error_problem-fine (get_field "resourceErrors" fs) errors in
          fields_if_any IsErrorDetail is_error_detail (two_texts "type" "message")
            (get_field "resourceErrors" fs) fine.0 fine.1;
      app_version =
          left_out IsText is_string is_string-IsText (get_field "appVersion" fs)
            (unless_fine _ _ c₈.0);
    }

-- What `assertPageEnvelope` lets through is an object whose protocol is "fluxfast/1". Its page is an
-- object with texts for its component and URL; its resources are an object of which each property,
-- as it is looked up, is an object with a text for its version and with a value; its resource keys,
-- deferred keys and live keys are lists of texts, or left out; its errors are left out, or an object
-- of which each property is an object with texts for its type and message; and its version of the
-- application is a text, or left out.
pub assert_page_envelope-IsPageEnvelope :
    (decoded : Value) → assert_page_envelope decoded ≡ none → IsObject IsEnvelope decoded
unfolding assert_page_envelope
assert_page_envelope-IsPageEnvelope decoded e =
    let checks = All-first_problem (page_checks decoded) e in
    by_object (λ v. All (λ check. check ≡ none) (page_checks v) → IsObject IsEnvelope v)
      (λ r fs h. (r, fs, refl, page_checks-IsEnvelope r fs h)) decoded (plain decoded checks) checks
  where
    plain : (v : Value) → All (λ check. check ≡ none) (page_checks v) → is_plain v ≡ true
    plain v h = (both _ _ (unless_fine _ _ (unfold page_checks in h.0))).0
