-- ===== src/Transport/Redirects.antt =====
-- The redirects that `isOriginRelativeRedirect` of packages/core/src/transport.ts lets through.
use flux_fast.Shared.{
  ℕ, ◌≤◌, String, ◌≡◌, refl, ◌≢◌, ◌⊎◌, inl, inr, true, false, ◌&&◌, ◌||◌, List, [], ◌∷◌, arith, All,
  Bool-cases, leb, ◌==◌,
}
use flux_fast.Shared.Chars.{any, codes, includes, has_any_control}
use flux_fast.Value.{Value, undefined, null, bool, num, str, array, object}
use flux_fast.Transport.{is_origin_relative, starts_relative}
use flux_fast.Transport.Envelopes.{both}

-- A path within the origin: it begins with one `/` that no other follows, and has neither a `\` nor a
-- control character.
pub record IsLocal (s : String) : Type 0 where
  pub rest : List ℕ
  pub rooted : codes s ≡ 47 ∷ rest
  pub one_slash : (more : List ℕ) → rest ≢ 47 ∷ more
  pub harmless : All (λ c. (c ≢ 92) × (32 ≤ c) × ((c ≤ 126) ⊎ (160 ≤ c))) (codes s)

abbrev pub IsLocalText : Value → Type 0
IsLocalText v = (s : String) × (v ≡ str s) × IsLocal s

not_control :
    (cs : List ℕ)
    → any (λ d. d == 92) cs ≡ false
    → any (λ c. leb c 31 || (leb 127 c && leb c 159)) cs ≡ false
    → All (λ c. (c ≢ 92) × (32 ≤ c) × ((c ≤ 126) ⊎ (160 ≤ c))) cs
not_control [] e h = tt
not_control (c ∷ cs) e h = (
  ((λ p. ground arith), ground arith, range (Bool-cases (leb c 126))),
  not_control cs (ground arith) (ground arith),
)
  where
    range : ((leb c 126 ≡ true) ⊎ (leb c 126 ≡ false)) → (c ≤ 126) ⊎ (160 ≤ c)
    range (inl p) = inl (ground arith)
    range (inr p) = inr (ground arith)

starts_relative-rooted :
    (cs : List ℕ)
    → starts_relative cs ≡ true
    → (rest : List ℕ) × (cs ≡ 47 ∷ rest) × ((more : List ℕ) → rest ≢ 47 ∷ more)
starts_relative-rooted [] e = absurd (ground arith)
starts_relative-rooted (c ∷ []) e = ([], ground arith, λ more p. ground (arith, p))
starts_relative-rooted (c ∷ d ∷ cs) e = (d ∷ cs, ground arith, λ more p. ground (arith, p))

pub is_origin_relative-IsLocalText : (v : Value) → is_origin_relative v ≡ true → IsLocalText v
unfolding is_origin_relative includes has_any_control
is_origin_relative-IsLocalText (str s) e =
    let (front, control) = both _ _ e in
    let (starts, slash) = both _ _ front in
    let (rest, rooted, one_slash) = starts_relative-rooted (codes s) starts in
    (
      s,
      refl,
      record {
        rest = rest;
        rooted = rooted;
        one_slash = one_slash;
        harmless = not_control (codes s) (ground arith) (ground arith);
      },
    )
is_origin_relative-IsLocalText undefined e = absurd (ground arith)
is_origin_relative-IsLocalText null e = absurd (ground arith)
is_origin_relative-IsLocalText (bool b) e = absurd (ground arith)
is_origin_relative-IsLocalText (num n) e = absurd (ground arith)
is_origin_relative-IsLocalText (object r fs) e = absurd (ground arith)
is_origin_relative-IsLocalText (array r xs) e = absurd (ground arith)
