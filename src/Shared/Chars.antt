-- ===== src/Shared/Chars.antt =====
-- Texts by their characters: JavaScript's `length`, `trim`, `includes` and the character classes of
-- the runtime's regular expressions, and `join` and `split` at commas.
use Prim.Native.Nat.{ℕ, ◌+◌, ◌-◌, ◌/◌, ◌%◌}
use Prim.Native.Char.{Char, code}
use Prim.Native.String.{String, char_at}
use Prim.Native.String
use Prim.Native.String.append
use mathlib.Core.Path.{◌≡◌, refl}
use mathlib.Core.Bool.{Bool, true, false, ◌&&◌, ◌||◌}
use mathlib.Core.List.{List, [], ◌∷◌}
use native.Mathlib.Omega.{arith}
use flux_fast.Shared.Tests.{ltb, leb, ◌==◌, if◌then◌else◌}
use flux_fast.Shared.Lists.{length, All}

unfoldable pub codes : String → List ℕ
codes String.[] = []
codes (String.◌∷◌ c s) = code c ∷ codes s

-- The UTF-16 code units, which `length`, `charCodeAt` and the order of strings go by.
unfoldable pub code_units : String → List ℕ
code_units String.[] = []
code_units (String.◌∷◌ c s) =
    let rest = code_units s in
    if ltb (code c) 65536
    then code c ∷ rest
    else (55296 + (code c - 65536) / 1024) ∷ (56320 + (code c - 65536) % 1024) ∷ rest

-- `s.length`
unfoldable pub text_length : String → ℕ
unfolding code_units
text_length s = length (code_units s)

abbrev pub any {ℓ} : {A : Type ℓ} → (A → Bool) → List A → Bool
any p [] = false
any p (x ∷ xs) = p x || any p xs

abbrev pub all {ℓ} : {A : Type ℓ} → (A → Bool) → List A → Bool
all p [] = true
all p (x ∷ xs) = p x && all p xs

-- What `trim` takes: white space and line terminators.
abbrev is_space : ℕ → Bool
is_space c =
    (leb 9 c && leb c 13)
    || c == 32
    || c == 160
    || c == 5760
    || (leb 8192 c && leb c 8202)
    || c == 8232
    || c == 8233
    || c == 8239
    || c == 8287
    || c == 12288
    || c == 65279

-- `s.trim().length === 0`
unfoldable pub is_blank : String → Bool
unfolding codes
is_blank s = all is_space (codes s)

-- `s.includes(c)` for a text of one character
unfoldable pub includes : ℕ → String → Bool
unfolding codes
includes c s = any (λ d. d == c) (codes s)

-- `/[\u0000-\u001f]/.test(s)`
unfoldable pub has_control : String → Bool
unfolding codes
has_control s = any (λ c. leb c 31) (codes s)

-- `/[\u0000-\u001f\u007f-\u009f]/.test(s)`
unfoldable pub has_any_control : String → Bool
unfolding codes
has_any_control s = any (λ c. leb c 31 || (leb 127 c && leb c 159)) (codes s)

-- `/^[\x21-\x7e]+$/.test(s)`
unfoldable pub is_printable : String → Bool
unfolding codes
is_printable String.[] = false
is_printable (String.◌∷◌ c s) = all (λ d. leb 33 d && leb d 126) (code c ∷ codes s)

-- The order of `sort` on texts.
abbrev units_below : List ℕ → List ℕ → Bool
units_below [] [] = false
units_below [] (y ∷ ys) = true
units_below (x ∷ xs) [] = false
units_below (x ∷ xs) (y ∷ ys) = ltb x y || (x == y && units_below xs ys)

unfoldable pub insert : String → List String → List String
unfolding code_units
insert s [] = s ∷ []
insert s (t ∷ ts) =
    if units_below (code_units t) (code_units s) then t ∷ insert s ts else s ∷ t ∷ ts

-- `texts.sort()` of texts that differ
unfoldable pub sort : List String → List String
unfolding insert
sort [] = []
sort (s ∷ ts) = insert s (sort ts)

-- `texts.join(",")`
unfoldable pub join_commas : List String → String
join_commas [] = ""
join_commas (s ∷ []) = s
join_commas (s ∷ t ∷ ts) = String.◌++◌ s (String.◌++◌ "," (join_commas (t ∷ ts)))

abbrev push : Char → List String → List String
push c [] = String.◌∷◌ c "" ∷ []
push c (s ∷ ts) = String.◌∷◌ c s ∷ ts

-- `text.split(",")`
unfoldable pub split_commas : String → List String
split_commas String.[] = "" ∷ []
split_commas (String.◌∷◌ c s) =
    if code c == 44 then "" ∷ split_commas s else push c (split_commas s)

split-append :
    (s t : String)
    → includes 44 s ≡ false
    → split_commas (String.◌++◌ s (String.◌++◌ "," t)) ≡ s ∷ split_commas t
unfolding split_commas includes
split-append String.[] t h =
    rw (append.nil (String.◌++◌ "," t), append.cons (char_at "," 0) "" t, append.nil t) refl
split-append (String.◌∷◌ c s) t h =
    rw (append.cons c s (String.◌++◌ "," t)) (ground (arith, split-append s t))

split_last : (s : String) → includes 44 s ≡ false → split_commas s ≡ s ∷ []
unfolding split_commas includes
split_last String.[] h = refl
split_last (String.◌∷◌ c s) h = ground (arith, split_last s)

-- Texts without a comma come back from their joined text, unless there are none.
pub split-join :
    (s : String) (ts : List String)
    → All (λ t. includes 44 t ≡ false) (s ∷ ts)
    → split_commas (join_commas (s ∷ ts)) ≡ s ∷ ts
unfolding join_commas
split-join s [] h = split_last s h.0
split-join s (t ∷ ts) h = rw (split-append s (join_commas (t ∷ ts)) h.0, split-join t ts h.1) refl
