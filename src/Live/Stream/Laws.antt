-- ===== src/Live/Stream/Laws.antt =====
-- What the parser of packages/core/src/live/transport.ts leaves in its buffer, and what later chunks
-- do to the frames that are there.
use flux_fast.Shared.{
  ℕ, zero, suc, ◌≤◌, ◌≡◌, refl, sym, ◌≢◌, ◌⊎◌, All, List, true, false, Option, none, some, [], ◌∷◌,
  ◌++◌, if◌then◌else◌, arith, ltb, ◌==◌, drop, length, length-drop, subst, Bool-cases, Option-cases,
  inl, inr,
}
use mathlib.Core.Option.{some-injective}
use flux_fast.Value.{Value}
use flux_fast.Live.Stream.{
  Text, byte_length, separator, split_frame, before, Parsed, nothing, unknown_event, missing_data,
  malformed, too_long, refused, event, Drained, kept, stopped, after_frame, parse_frame,
  parse_sized, drain, push,
}

is_zero : (n : ℕ) → (n == 0) ≡ true → n ≡ 0
is_zero n h = ground arith

positive : (n : ℕ) → (n == 0) ≡ false → 1 ≤ n
positive n h = ground arith

-- A frame with its separator is at least as long as the frame's separator.
length-split_frame :
    (s : Text) (p : Text × Text) → split_frame s ≡ some p → suc (length p.1) ≤ length s
unfolding split_frame
length-split_frame [] p e = absurd (ground arith)
length-split_frame (c ∷ cs) p e = go (separator (c ∷ cs)) (split_frame cs) (length-split_frame cs) e
  where
    later :
        (o : Option (Text × Text))
        → ((q : Text × Text) → o ≡ some q → suc (length q.1) ≤ length cs)
        → before c o ≡ some p
        → suc (length p.1) ≤ suc (length cs)
    later none ih q = absurd (ground arith)
    later (some (frame, rest)) ih q =
        subst (λ x. suc (length x.1) ≤ suc (length cs)) (some-injective _ _ q)
          (omega (arith, ih (frame, rest) refl))

    go :
        (n : ℕ) (o : Option (Text × Text))
        → ((q : Text × Text) → o ≡ some q → suc (length q.1) ≤ length cs)
        → (if n == 0 then before c o else some ([], drop n (c ∷ cs))) ≡ some p
        → suc (length p.1) ≤ suc (length cs)
    go n o ih q = elim (Bool-cases (n == 0)) [
      | inl z ↦ later o ih (rw z at q)
      | inr nz ↦
          subst (λ x. suc (length x.1) ≤ suc (length cs)) (some-injective _ _ (rw nz at q))
            (omega (arith, length-drop n (c ∷ cs), positive n nz))
    ]

separator-append : (s t : Text) → (separator s == 0) ≡ false → separator (s ++ t) ≡ separator s
unfolding separator
separator-append [] t h = absurd (ground arith)
separator-append (c ∷ []) t h = absurd (ground arith)
separator-append (c ∷ d ∷ []) t h = ground arith
separator-append (c ∷ d ∷ e ∷ []) t h = ground arith
separator-append (c ∷ d ∷ e ∷ f ∷ s) t h = refl

separator-le : (s : Text) → separator s ≤ length s
unfolding separator
separator-le [] = omega arith
separator-le (c ∷ []) = omega arith
separator-le (c ∷ d ∷ []) = ground arith
separator-le (c ∷ d ∷ e ∷ []) = ground arith
separator-le (c ∷ d ∷ e ∷ f ∷ s) = ground arith

-- A separator that is not whole yet has no other behind it.
separator_late :
    (c : ℕ) (cs t : Text)
    → separator (c ∷ cs) ≡ 0
    → (separator (c ∷ cs ++ t) == 0) ≡ false
    → split_frame cs ≡ none
unfolding separator split_frame
separator_late c [] t h g = refl
separator_late c (d ∷ []) t h g = ground arith
separator_late c (d ∷ e ∷ []) t h g = ground arith
separator_late c (d ∷ e ∷ f ∷ s) t h g = absurd (ground arith)

drop-append : (n : ℕ) (s t : Text) → n ≤ length s → drop n (s ++ t) ≡ drop n s ++ t
drop-append zero s t p = refl
drop-append (suc n) [] t p = absurd (omega arith)
drop-append (suc n) (c ∷ s) t p = drop-append n s t (omega arith)

abbrev found : Text → Text → Option (Text × Text)
found frame rest = some (frame, rest)

first_frame :
    (c n : ℕ) (cs t frame rest : Text)
    → found [] (drop n (c ∷ cs)) ≡ found frame rest
    → n ≤ length (c ∷ cs)
    → found [] (drop n (c ∷ cs ++ t)) ≡ found frame (rest ++ t)
first_frame c n cs t frame rest e p =
    subst (λ (x : Text × Text). found [] (drop n (c ∷ cs ++ t)) ≡ found x.0 (x.1 ++ t))
      (some-injective _ _ e) (rw (drop-append n (c ∷ cs) t p) refl)

later_frame :
    (c : ℕ) (t frame rest : Text) (o longer : Option (Text × Text))
    → ((f r : Text) → o ≡ some (f, r) → longer ≡ some (f, r ++ t))
    → before c o ≡ some (frame, rest)
    → before c longer ≡ some (frame, rest ++ t)
later_frame c t frame rest none longer ih e = absurd (ground arith)
later_frame c t frame rest (some (f, r)) longer ih e = rw (ih f r refl) (
    subst (λ (x : Text × Text). found (c ∷ f) (r ++ t) ≡ found x.0 (x.1 ++ t))
      (some-injective _ _ e) refl)

-- A frame that is found in the buffer is the one that is found whatever text comes after it, and
-- that text is added to what follows the frame.
pub split_frame-append :
    (s t frame rest : Text)
    → split_frame s ≡ some (frame, rest)
    → split_frame (s ++ t) ≡ some (frame, rest ++ t)
unfolding split_frame
split_frame-append [] t frame rest e = absurd (ground arith)
split_frame-append (c ∷ cs) t frame rest e = elim (Bool-cases (separator (c ∷ cs) == 0)) [
  | inr nz ↦
      rw (separator-append (c ∷ cs) t nz, nz)
        (first_frame c (separator (c ∷ cs)) cs t frame rest (rw nz at e) (separator-le (c ∷ cs)))
  | inl z ↦ elim (Bool-cases (separator (c ∷ cs ++ t) == 0)) [
    | inl still ↦ rw still (
        later_frame c t frame rest (split_frame cs) (split_frame (cs ++ t))
          (split_frame-append cs t) (rw z at e))
    | inr whole ↦
        absurd (
          ground (arith, rw (z, separator_late c cs t (is_zero (separator (c ∷ cs)) z) whole) at e))
  ]
]

-- The frames of a text up to its last separator, and what comes after it.
pub data Splits : Text → List Text → Text → Type 0 where
  done : {buffer : Text} → split_frame buffer ≡ none → Splits buffer [] buffer
  next :
      {buffer frame later rest : Text} {frames : List Text}
      → split_frame buffer ≡ some (frame, later)
      → Splits later frames rest
      → Splits buffer (frame ∷ frames) rest

-- The event that a frame is parsed to.
abbrev pub events_in : Parsed → List Value
events_in (event v) = v ∷ []
events_in _ = []

abbrev pub events_of : (Text → Option Value) → List Text → List Value
events_of read [] = []
events_of read (frame ∷ frames) = events_in (parse_frame read frame) ++ events_of read frames

abbrev pub IsFine : (Text → Option Value) → Text → Type 0
IsFine read frame =
    (byte_length frame ≤ 1048576)
    × ((parse_frame read frame ≡ nothing) ⊎ ((v : Value) × (parse_frame read frame ≡ event v)))

-- What a text was made of where nothing was thrown.
pub record IsDrained (read : Text → Option Value) (buffer : Text) (d : Drained) : Type 0 where
  pub frames : List Text
  pub splits : Splits buffer frames d.buffer
  pub fine : All (IsFine read) frames
  pub events : d.events ≡ events_of read frames
  pub short : byte_length d.buffer ≤ 1048576

abbrev Drains : (Text → Option Value) → Text → Drained → Type 0
Drains read buffer d = d.thrown ≡ none → IsDrained read buffer d

kept-Drains :
    (read : Text → Option Value) (buffer : Text)
    → split_frame buffer ≡ none
    → Drains read buffer (kept buffer)
kept-Drains read buffer s e = elim (Bool-cases (ltb 1048576 (byte_length buffer))) [
  | inl big ↦ absurd (ground (arith, rw big at e))
  | inr fits ↦ record {
    frames = [];
    splits = done s;
    fine = tt;
    events = refl;
    short = ground arith;
  }
]

stopped-Drains :
    (read : Text → Option Value) (buffer : Text)
    → split_frame buffer ≡ none
    → Drains read buffer (stopped read false buffer)
stopped-Drains read [] s = kept-Drains read [] s
stopped-Drains read (c ∷ cs) s = kept-Drains read (c ∷ cs) s

-- A frame that is parsed to no problem was measured first.
sized :
    (read : Text → Option Value) (frame : Text) (p : Parsed)
    → parse_sized read frame ≡ p
    → p ≢ too_long
    → (byte_length frame ≤ 1048576) × (parse_frame read frame ≡ p)
sized read frame p e ne = elim (Bool-cases (ltb 1048576 (byte_length frame))) [
  | inl big ↦ absurd (ne (sym (rw big at e)))
  | inr fits ↦ (ground arith, rw fits at e)
]

module _ (read : Text → Option Value) (buffer frame rest : Text)
    (split : split_frame buffer ≡ some (frame, rest)) (d : Drained) where
  -- One more frame in front.
  with_frame :
      (p : Parsed)
      → parse_sized read frame ≡ p
      → ((p ≡ nothing) ⊎ ((v : Value) × (p ≡ event v)))
      → p ≢ too_long
      → IsDrained read rest d
      → IsDrained read buffer (record d { events = events_in p ++ d.events })
  with_frame p e good ne h =
      let (short, parsed) = sized read frame p e ne in
      record {
        frames = frame ∷ h.frames;
        splits = next split h.splits;
        fine = ((short, rw parsed good), h.fine);
        events = rw (parsed, h.events) refl;
        short = h.short;
      }

  after_frame-Drains :
      (p : Parsed)
      → parse_sized read frame ≡ p
      → Drains read rest d
      → Drains read buffer (after_frame rest p d)
  after_frame-Drains nothing s h e = with_frame nothing s (inl refl) (λ q. ground (arith, q)) (h e)
  after_frame-Drains (event v) s h e =
      with_frame (event v) s (inr (v, refl)) (λ q. ground (arith, q)) (h e)
  after_frame-Drains unknown_event s h e = absurd (ground arith)
  after_frame-Drains missing_data s h e = absurd (ground arith)
  after_frame-Drains malformed s h e = absurd (ground arith)
  after_frame-Drains too_long s h e = absurd (ground arith)
  after_frame-Drains (refused r) s h e = absurd (ground arith)

drain-Drains :
    (fuel : ℕ) (read : Text → Option Value) (buffer : Text)
    → length buffer ≤ fuel
    → Drains read buffer (drain fuel read false buffer)
unfolding drain
drain-Drains zero read [] p = stopped-Drains read [] (unfold split_frame in refl)
drain-Drains zero read (c ∷ cs) p = absurd (omega arith)
drain-Drains (suc fuel) read buffer p = elim (Option-cases (split_frame buffer)) [
  | inl none_found ↦ rw (none_found, drain) (stopped-Drains read buffer none_found)
  | inr (q, some_found) ↦
      rw (some_found, drain)
        (after_frame-Drains read buffer q.0 q.1 some_found (drain fuel read false q.1)
          (parse_sized read q.0) refl
          (drain-Drains fuel read q.1 (omega (arith, length-split_frame buffer q some_found))))
]

-- Where `push` throws nothing, the text that was kept and the new one were taken apart at every
-- separator, from the left: each frame is of at most a mebibyte and parses to an event or to nothing,
-- the answer is these events in the order of the frames, and what is kept is the text after the last
-- separator, of at most a mebibyte.
pub push-IsDrained :
    (read : Text → Option Value) (chunk buffer : Text)
    → (push read chunk buffer).thrown ≡ none
    → IsDrained read (buffer ++ chunk) (push read chunk buffer)
unfolding push
push-IsDrained read chunk buffer =
    drain-Drains (length (buffer ++ chunk)) read (buffer ++ chunk) (omega arith)
