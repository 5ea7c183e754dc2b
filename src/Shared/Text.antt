-- ===== src/Shared/Text.antt =====
-- Texts compared as whole values: JavaScript's `===` on strings, as a decision.
use Prim.Native.Nat.{ℕ, zero, suc, ◌/◌, ◌%◌}
use Prim.Native.String.{String, char_at, [], ◌∷◌}
use mathlib.Core.Path.{◌≡◌, refl}
use mathlib.Core.Bool.{Bool, true, false}
use native.Mathlib.Omega.{arith}
use text.Mathlib.Text.{◌==◌}
use text.Mathlib.TextEquality.{eq_iff}
use flux_fast.Shared.Tests.{◌==◌ as nat_eq}

decide_from : (s t : String) (b : Bool) → (s == t) ≡ b → Dec (s ≡ t)
decide_from s t true e = yes ((eq_iff s t).0 e)
decide_from s t false e = no (λ p. ground (arith, (eq_iff s t).1 p))

unfoldable pub str_dec : Discrete String
unfolding decide_from
str_dec s t = decide_from s t (s == t) refl

pub str_eq_refl : (s : String) → (s == s) ≡ true
str_eq_refl s = (eq_iff s s).1 refl

digits_from : ℕ → ℕ → ℕ → String → String
digits_from zero radix n rest = rest
digits_from (suc fuel) radix n rest =
    let longer = char_at "0123456789abcdefghijklmnopqrstuvwxyz" (n % radix) ∷ rest in
    elim (nat_eq (n / radix) 0) [
      | true ↦ longer
      | false ↦ digits_from fuel radix (n / radix) longer
    ]

-- `n.toString(radix)` of a whole number; it has at most `n + 1` digits.
unfoldable pub to_string : ℕ → ℕ → String
unfolding digits_from
to_string radix n = digits_from (suc n) radix n []
