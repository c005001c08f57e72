-- ===== src/Meshtastic/Framer/Bounds.antt =====
-- The lengths of what `Push` returns.
use mesthastic_caltopo_bridg.Prelude.{
  ℕ, zero, suc, ◌≤◌, ◌<◌, ◌≡◌, ◌⊎◌, some, List, [], ◌∷◌, ◌++◌, length, arith, All, All-append,
}
use mesthastic_caltopo_bridg.Meshtastic.Framer.{
  FrameError, invalid_length, Framer, max_frame, Round, done, invalid, framed, Pushed, push_loop,
  push,
}
use mesthastic_caltopo_bridg.Meshtastic.Framer.Scan.{scan, Bounded, scan-Bounded}
use mesthastic_caltopo_bridg.Meshtastic.Framer.Loop.{Next, after_round, push_loop-suc}

abbrev pub FitsFrame : List ℕ → Type 0
FitsFrame frame = (0 < length frame) × (length frame ≤ max_frame)

-- The error is about a length that no frame may have.
abbrev pub IsRefused : FrameError → Type 0
IsRefused (invalid_length size) = (size ≡ 0) ⊎ (max_frame < size)

abbrev Sized : List (List ℕ) → List FrameError → Type 0
Sized frames errs = All FitsFrame frames × All IsRefused errs

after_round-Sized :
    (next : Next) (xs : List ℕ) (frames : List (List ℕ)) (errs : List FrameError) (o : Round)
    (x : Pushed)
    → Bounded xs o
    → Sized frames errs
    → ((ys : List ℕ) (fs : List (List ℕ)) (es : List FrameError)
        → Sized fs es
        → next ys fs es ≡ some x
        → Sized x.1 x.2)
    → after_round next frames errs o ≡ some x
    → Sized x.1 x.2
unfolding after_round
after_round-Sized next xs frames errs (done rest) x b h e p = ground arith
after_round-Sized next xs frames errs (invalid size rest) x b h e p =
    e rest frames (errs ++ invalid_length size ∷ [])
      (h.0, All-append IsRefused errs (invalid_length size ∷ []) h.1 (b.1, tt)) p
after_round-Sized next xs frames errs (framed frame rest) x b h e p =
    e rest (frames ++ frame ∷ []) errs
      (All-append FitsFrame frames (frame ∷ []) h.0 ((b.1, b.2), tt), h.1) p

push_loop-Sized :
    (fuel : ℕ) (buffer : List ℕ) (frames : List (List ℕ)) (errs : List FrameError) (x : Pushed)
    → Sized frames errs
    → push_loop fuel buffer frames errs ≡ some x
    → Sized x.1 x.2
push_loop-Sized zero buffer frames errs x h p = unfold push_loop in cc
push_loop-Sized (suc fuel) buffer frames errs x h p =
    after_round-Sized (push_loop fuel) buffer frames errs (scan buffer) x (scan-Bounded buffer) h
      (λ ys fs es. push_loop-Sized fuel ys fs es x) (rw push_loop-suc at p)

-- Each frame that `Push` returns has 1 to 512 bytes, and each error is about a length that is
-- zero or above 512.
pub push-Sized :
    (f f' : Framer) (chunk : List ℕ) (frames : List (List ℕ)) (errs : List FrameError)
    → push f chunk ≡ some (f', frames, errs)
    → All FitsFrame frames × All IsRefused errs
unfolding push
push-Sized f f' chunk frames errs p =
    push_loop-Sized (suc (length (f.buffer ++ chunk))) (f.buffer ++ chunk) [] [] (f', frames, errs)
      (tt, tt) p
