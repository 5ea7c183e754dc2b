-- ===== src/Live/Keys/Laws.antt =====
-- What a manifest of packages/core/src/live/manager.ts holds: the keys that were given, safe for the
-- header that carries them.
use Prim.Native.String.{len}
use flux_fast.Shared.{
  suc, String, ◌≤◌, ◌≡◌, refl, ap, Bool, true, false, ◌||◌, Option, none, some, List, [], ◌∷◌,
  arith, subst, add, str_dec, if◌then◌else◌, length, ltb, str_eq, All, inl, inr, Bool-cases,
}
use flux_fast.Shared.Chars.{includes, sort, insert, join_commas, split_commas, split-join, any}
use mathlib.Core.Option.{some-injective}
use flux_fast.Store.Changes.{union}
use flux_fast.Live.State.{LiveManifest}
use flux_fast.Live.Keys.{
  is_unsafe_key, serialize_live_keys, Normalized, throws, normalized, with_keys, normalize_manifest,
}

no_comma : (key : String) → is_unsafe_key key ≡ false → includes 44 key ≡ false
unfolding is_unsafe_key
no_comma key h = ground arith

safe_each :
    (keys : List String)
    → any is_unsafe_key keys ≡ false
    → All (λ key. is_unsafe_key key ≡ false) keys
safe_each [] h = tt
safe_each (key ∷ keys) h = (ground arith, safe_each keys (ground arith))

no_commas :
    (keys : List String)
    → any is_unsafe_key keys ≡ false
    → All (λ key. includes 44 key ≡ false) keys
no_commas [] h = tt
no_commas (key ∷ keys) h = (no_comma key (ground arith), no_commas keys (ground arith))

-- What `keys` of a manifest are, where the header's text is not empty.
round_trip :
    (keys : List String)
    → any is_unsafe_key keys ≡ false
    → 1 ≤ length keys
    → split_commas (join_commas keys) ≡ keys
round_trip [] h p = absurd (omega arith)
round_trip (key ∷ keys) h p = split-join key keys (no_commas (key ∷ keys) h)

length-insert : (s : String) (ts : List String) → length (insert s ts) ≡ suc (length ts)
unfolding insert
length-insert s [] = refl
length-insert s (t ∷ ts) = ground (arith, length-insert s ts)

length-sort : (ts : List String) → length (sort ts) ≡ length ts
unfolding sort
length-sort [] = refl
length-sort (t ∷ ts) = omega (arith, length-insert t (sort ts), length-sort ts)

length-add-le : (s : String) (ts : List String) → length ts ≤ length (add str_dec s ts)
unfolding add
length-add-le s [] = omega arith
length-add-le s (t ∷ ts) = ground (arith, length-add-le s ts)

length-union-le : (xs ys : List String) → length xs ≤ length (union xs ys)
length-union-le xs [] = omega arith
length-union-le xs (y ∷ ys) =
    omega (arith, length-add-le y xs, length-union-le (add str_dec y xs) ys)

some_key : (key : String) (keys : List String) → 1 ≤ length (sort (union [] (key ∷ keys)))
unfolding add
some_key key keys =
    omega (arith, length-sort (union [] (key ∷ keys)), length-union-le (key ∷ []) keys)

-- What `serializeLiveKeys` gives, where it gives something.
serialized-keys :
    (keys : List String) (text : String)
    → serialize_live_keys keys ≡ some text
    → (split_commas text ≡ sort (union [] keys))
      × All (λ key. is_unsafe_key key ≡ false) (sort (union [] keys))
      × (length (sort (union [] keys)) ≤ 100)
      × (len text ≤ 16384)
      × (join_commas (sort (union [] keys)) ≡ text)
unfolding serialize_live_keys
serialized-keys [] text e = absurd (ground arith)
serialized-keys (key ∷ keys) text e =
    elim (Bool-cases
      (ltb 100 (length ns) || any is_unsafe_key ns || ltb 16384 (len (join_commas ns)))) [
        | inl bad ↦ absurd (ground (arith, rw bad at e))
        | inr fine ↦ within fine (some-injective _ _ (rw fine at e))
      ]
  where
    ns : List String
    ns = sort (union [] (key ∷ keys))

    within :
        (ltb 100 (length ns) || any is_unsafe_key ns || ltb 16384 (len (join_commas ns))) ≡ false
        → join_commas ns ≡ text
        → (split_commas text ≡ ns)
          × All (λ k. is_unsafe_key k ≡ false) ns
          × (length ns ≤ 100)
          × (len text ≤ 16384)
          × (join_commas ns ≡ text)
    within fine t = (
      rw (← t) (round_trip ns (ground arith) (some_key key keys)),
      safe_each ns (ground arith),
      ground arith,
      rw (← t) (ground arith),
      t,
    )

abbrev manifest_of : LiveManifest → Normalized → LiveManifest
manifest_of m (normalized n) = n
manifest_of m _ = m

-- A manifest that `normalizeManifest` makes has the URL that was given, which is not empty, and each
-- of the given keys once, in order, as they come out of the header's text: at most 100 keys, all of
-- them safe, in at most 16384 bytes.
pub normalize_manifest_lem :
    (url : String) (keys : List String) (m : LiveManifest)
    → normalize_manifest url keys ≡ normalized m
    → (m.url ≡ url)
      × (str_eq url "" ≡ false)
      × (m.keys ≡ sort (union [] keys))
      × All (λ key. is_unsafe_key key ≡ false) m.keys
      × (length m.keys ≤ 100)
      × (len (join_commas m.keys) ≤ 16384)
unfolding normalize_manifest
normalize_manifest_lem url [] m e = absurd (ground arith)
normalize_manifest_lem url (key ∷ keys) m e =
    go (str_eq url "") (serialize_live_keys (key ∷ keys)) refl refl e
  where
    go :
        (b : Bool) (o : Option String)
        → str_eq url "" ≡ b
        → serialize_live_keys (key ∷ keys) ≡ o
        → (if b then throws else with_keys url o) ≡ normalized m
        → (m.url ≡ url)
          × (str_eq url "" ≡ false)
          × (m.keys ≡ sort (union [] (key ∷ keys)))
          × All (λ k. is_unsafe_key k ≡ false) m.keys
          × (length m.keys ≤ 100)
          × (len (join_commas m.keys) ≤ 16384)
    go true o p q r = absurd (ground arith)
    go false none p q r = absurd (ground arith)
    go false (some text) p q r =
        let (ks, safe, few, short, joined) = serialized-keys (key ∷ keys) text q in
        subst
          (λ (n : LiveManifest).
            (n.url ≡ url)
            × (str_eq url "" ≡ false)
            × (n.keys ≡ sort (union [] (key ∷ keys)))
            × All (λ k. is_unsafe_key k ≡ false) n.keys
            × (length n.keys ≤ 100)
            × (len (join_commas n.keys) ≤ 16384))
          (ap (manifest_of m) r) (refl, p, ks, rw ks safe, rw ks few, rw (ks, joined) short)
