-- ===== src/Prefetch/Serving.antt =====
-- What `getCached` of packages/core/src/prefetch.ts hands out.
use native.Mathlib.Decide.{ℕ_discrete}
use flux_fast.Shared.{
  ℕ, ◌<◌, String, ◌≡◌, refl, ap, ◌∙◌, subst, Bool, true, false, not, ◌||◌, Option, none, some, List,
  [], ◌∷◌, arith, elem, str_dec, eq_iff, is_some, All, Bool-cases, inl, inr, ◌⊎◌,
}
use flux_fast.Shared.Chars.{all}
use flux_fast.Store.Changes.{ResourceWireRecord}
use flux_fast.Shared.JsMap.{Map, get}
use mathlib.Core.Option.{some-injective}
use flux_fast.Envelope.{PageEnvelope}
use flux_fast.Prefetch.{
  PrefetchManager, PrefetchEntry, same_text, expected_version, versions_still_available, is_usable,
  looked_up, get_cached,
}

-- The version that a prefetch expects to be the current one: the envelope's, if it has the resource.
abbrev expected : PageEnvelope → String → String → String
expected envelope key version = elim (get str_dec key envelope.resources) [
  | none ↦ version
  | some wire ↦ wire.version
]

-- The entry that an answer of `getCached` comes from, and what makes it good.
pub record Serves (now : ℕ) (url : String) (current : Map String String) (m : PrefetchManager)
    (envelope : PageEnvelope) : Type 0 where
  pub entry : PrefetchEntry
  pub found : get str_dec url m.cache ≡ some entry
  pub same_envelope : entry.envelope ≡ envelope
  pub in_time : now < entry.expires_at
  pub not_rejected : elem ℕ_discrete envelope.ref m.rejected ≡ false
  pub based_on :
      All
        (λ (e : String × String). get str_dec e.0 current ≡ some (expected envelope e.0 e.1))
        entry.based_on_versions
  pub brings :
      All
        (λ (e : String × ResourceWireRecord).
          (get str_dec e.0 current ≡ none) ⊎ (get str_dec e.0 current ≡ some e.1.version))
        envelope.resources

same_text-eq : (a b : Option String) → same_text a b ≡ true → a ≡ b
same_text-eq none none e = refl
same_text-eq (some a) (some b) e = ap some ((eq_iff a b).0 e)
same_text-eq none (some b) e = absurd (ground arith)
same_text-eq (some a) none e = absurd (ground arith)

All-all :
    {A : Type 0} (test : A → Bool) (P : A → Type 0)
    → ((x : A) → test x ≡ true → P x)
    → (xs : List A) → all test xs ≡ true
    → All P xs
All-all test P one [] e = tt
All-all test P one (x ∷ xs) e = (one x (ground arith), All-all test P one xs (ground arith))

absent_or_same :
    (o : Option String) (version : String)
    → (not (is_some o) || same_text o (some version)) ≡ true
    → (o ≡ none) ⊎ (o ≡ some version)
absent_or_same none version e = inl refl
absent_or_same (some v) version e = inr (same_text-eq (some v) (some version) e)

expected_version-expected :
    (o : Option ResourceWireRecord) (version : String)
    → expected_version o version ≡ elim o [ none ↦ version | some wire ↦ wire.version ]
expected_version-expected none version = refl
expected_version-expected (some wire) version = refl

usable-Serves :
    (now : ℕ) (url : String) (current : Map String String) (m : PrefetchManager)
    (entry : PrefetchEntry)
    → get str_dec url m.cache ≡ some entry
    → is_usable now entry current m ≡ true
    → Serves now url current m entry.envelope
unfolding versions_still_available
usable-Serves now url current m entry found h = record {
  entry = entry;
  found = found;
  same_envelope = refl;
  in_time = ground arith;
  not_rejected = ground arith;
  based_on =
      All-all _ _
        (λ e same.
          same_text-eq _ _ same
          ∙ ap some (expected_version-expected (get str_dec e.0 entry.envelope.resources) e.1))
        entry.based_on_versions (ground arith);
  brings =
      All-all _ _ (λ e fine. absent_or_same (get str_dec e.0 current) e.1.version fine)
        entry.envelope.resources (ground arith);
}

-- What `getCached` answers was stored for the URL, has not expired at the time of the call and was
-- not rejected. Every resource that it was based on has now the version of that time, or the one that
-- the envelope brings of it, and every resource that it brings has that version now, or is unknown.
pub get_cached-Serves :
    (now : ℕ) (url : String) (current : Map String String) (m : PrefetchManager)
    (envelope : PageEnvelope)
    → (get_cached now url current m).1 ≡ some envelope
    → Serves now url current m envelope
unfolding get_cached
get_cached-Serves now url current m envelope e = go (get str_dec url m.cache) refl e
  where
    go :
        (o : Option PrefetchEntry)
        → get str_dec url m.cache ≡ o
        → (looked_up now url o current m).1 ≡ some envelope
        → Serves now url current m envelope
    go none p q = absurd (ground arith)
    go (some entry) p q = elim (Bool-cases (is_usable now entry current m)) [
      | inr no_use ↦ absurd (ground (arith, rw no_use at q))
      | inl use_it ↦
          subst (λ (x : PageEnvelope). Serves now url current m x)
            (some-injective _ _ (rw use_it at q)) (usable-Serves now url current m entry p use_it)
    ]
