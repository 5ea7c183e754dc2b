-- ===== src/Value/Laws.antt =====
-- Facts on `===`, on property lookup and on object spread.
use flux_fast.Shared.{String, ◌≡◌, refl, true, false, ◌⊎◌, arith, eq_iff, str_eq, if◌then◌else◌}
use flux_fast.Value.{
  Value, num, str, Fields, end, field, same, to_text, get_field, has_field, set_field, spread,
}

-- Two values that `===` identifies, or one value.
abbrev pub Same : Value → Value → Type 0
Same a b = (a ≡ b) ⊎ (same a b ≡ true)

-- A primitive that `===` identifies with something prints like it.
pub to_text_of_same_num : (n : String) (v : Value) → same v (num n) ≡ true → to_text v ≡ n
unfolding same to_text
to_text_of_same_num n (num m) h = ground (arith, eq_iff m n, eq_iff m "NaN")
to_text_of_same_num n _ h = cc

pub to_text_of_same_str : (s : String) (v : Value) → same v (str s) ≡ true → to_text v ≡ s
unfolding same to_text
to_text_of_same_str s (str t) h = (eq_iff t s).0 h
to_text_of_same_str s _ h = cc

pub get_field-set_field :
    (k j : String) (v : Value) (fs : Fields)
    → get_field j (set_field k v fs) ≡ (if str_eq k j then v else get_field j fs)
unfolding get_field set_field
get_field-set_field k j v end = refl
get_field-set_field k j v (field i w fs) =
    ground (arith, eq_iff k j, eq_iff i k, eq_iff i j, get_field-set_field k j v fs)

-- No property twice.
abbrev pub DistinctFields : Fields → Type 0
DistinctFields end = Unit
DistinctFields (field k v fs) = (has_field k fs ≡ false) × DistinctFields fs

pub get_field-spread :
    (k : String) (fs gs : Fields)
    → DistinctFields gs
    → get_field k (spread fs gs) ≡ (if has_field k gs then get_field k gs else get_field k fs)
unfolding get_field has_field spread
get_field-spread k fs end d = refl
get_field-spread k fs (field j v gs) d =
    ground (
      arith,
      eq_iff j k,
      get_field-spread k (set_field j v fs) gs d.1,
      get_field-set_field j k v fs,
    )
