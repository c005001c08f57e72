-- ===== src/Meshtastic/Framer/Scan.antt =====
-- A round of the loop of `Push` as one walk over the buffer, and how it extends to a longer one.
use mesthastic_caltopo_bridg.Prelude.{
  ℕ, ◌+◌, ◌*◌, ◌≤◌, ◌<◌, ◌≡◌, refl, inl, inr, ◌⊎◌, true, false, ◌&&◌, List, [], ◌∷◌, ◌++◌, length,
  ◌==◌, if◌then◌else◌, arith, Bool-cases, take-append, drop-append, length-append, length-take,
  length-drop,
}
use mesthastic_caltopo_bridg.Meshtastic.Framer.{
  frame_start1, frame_start2, max_frame, keep_last, Round, done, invalid, framed, parse_frame,
  round,
}

unfoldable pub scan : List ℕ → Round
unfolding keep_last parse_frame
scan [] = done []
scan (b ∷ []) = done (keep_last (b ∷ []))
scan (b ∷ c ∷ r) =
    let rest = scan (c ∷ r) in
    if b == frame_start1 && c == frame_start2 then parse_frame (b ∷ c ∷ r) else rest

pub round-eq-scan : (buffer : List ℕ) → round buffer ≡ scan buffer
unfolding round scan
round-eq-scan [] = refl
round-eq-scan (b ∷ []) = refl
round-eq-scan (b ∷ c ∷ r) = ground (arith, round-eq-scan (c ∷ r))

-- What a round over the buffer becomes when more bytes stand behind it.
unfoldable pub extend : Round → List ℕ → Round
extend (done rest) more = scan (rest ++ more)
extend (invalid size rest) more = invalid size (rest ++ more)
extend (framed frame rest) more = framed frame (rest ++ more)

pub scan-skip : (b : ℕ) (more : List ℕ) → (b == frame_start1) ≡ false → scan (b ∷ more) ≡ scan more
unfolding scan
scan-skip b [] h = rw h
scan-skip b (c ∷ r) h = rw h

parse_frame-append :
    (b c : ℕ) (r more : List ℕ)
    → (b == frame_start1 && c == frame_start2) ≡ true
    → parse_frame (b ∷ c ∷ r ++ more) ≡ extend (parse_frame (b ∷ c ∷ r)) more
unfolding extend scan
parse_frame-append b c [] more h = rw h
parse_frame-append b c (d ∷ []) more h = rw h
parse_frame-append b c (d ∷ e ∷ r) more h =
    let size : ℕ = d * 256 + e in
    ground (arith, take-append size r more, drop-append size r more, length-append r more)

pub scan-append : (xs more : List ℕ) → scan (xs ++ more) ≡ extend (scan xs) more
unfolding scan extend keep_last
scan-append [] more = refl
scan-append (b ∷ []) more = ground (arith, scan-skip b more)
scan-append (b ∷ c ∷ r) more =
    ground (arith, scan-append (c ∷ r) more, parse_frame-append b c r more)

-- What a round leaves, and what it takes, by its outcome.
abbrev pub Bounded : List ℕ → Round → Type 0
Bounded xs (done rest) = (length rest ≤ length xs) × (length rest < max_frame + 4)
Bounded xs (invalid size rest) = (length rest < length xs) × ((size ≡ 0) ⊎ (max_frame < size))
Bounded xs (framed frame rest) =
    (length rest < length xs) × (0 < length frame) × (length frame ≤ max_frame)

parse_frame-Bounded : (b c : ℕ) (r : List ℕ) → Bounded (b ∷ c ∷ r) (parse_frame (b ∷ c ∷ r))
unfolding parse_frame
parse_frame-Bounded b c [] = omega arith
parse_frame-Bounded b c (d ∷ []) = omega arith
parse_frame-Bounded b c (d ∷ e ∷ r) =
    let size : ℕ = d * 256 + e in ground (arith, length-take size r, length-drop size r)

Bounded-cons : (b : ℕ) (xs : List ℕ) (o : Round) → Bounded xs o → Bounded (b ∷ xs) o
Bounded-cons b xs (done rest) h = omega arith
Bounded-cons b xs (invalid size rest) h = (omega arith, h.1)
Bounded-cons b xs (framed frame rest) h = omega arith

pub scan-Bounded : (xs : List ℕ) → Bounded xs (scan xs)
unfolding scan keep_last
scan-Bounded [] = omega arith
scan-Bounded (b ∷ []) = ground arith
scan-Bounded (b ∷ c ∷ r) = elim (Bool-cases (b == frame_start1 && c == frame_start2)) [
  | inl start ↦ rw start (parse_frame-Bounded b c r)
  | inr other ↦ rw other (Bounded-cons b (c ∷ r) (scan (c ∷ r)) (scan-Bounded (c ∷ r)))
]
