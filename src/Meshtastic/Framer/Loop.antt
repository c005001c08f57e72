-- ===== src/Meshtastic/Framer/Loop.antt =====
-- The loop of `Push`: its fuel, its accumulators, and a buffer that more bytes come behind.
use mesthastic_caltopo_bridg.Prelude.{
  ℕ, zero, suc, ◌+◌, ◌<◌, ◌≡◌, refl, sym, ap, ◌∙◌, Option, none, some, List, [], ◌∷◌, ◌++◌, length,
  arith, append-nil, append_assoc, length-append,
}
use mesthastic_caltopo_bridg.Meshtastic.Framer.{
  FrameError, invalid_length, max_frame, Round, done, invalid, framed, Pushed, push_loop,
}
use mesthastic_caltopo_bridg.Meshtastic.Framer.Scan.{
  scan, round-eq-scan, extend, scan-append, Bounded, scan-Bounded,
}

-- The rest of the loop after a round.
unfoldable pub after_round :
    (List ℕ → List (List ℕ) → List FrameError → Option Pushed)
    → List (List ℕ)
    → List FrameError
    → Round
    → Option Pushed
after_round next frames errs (done rest) = some (record { buffer = rest }, frames, errs)
after_round next frames errs (invalid size rest) =
    next rest frames (errs ++ invalid_length size ∷ [])
after_round next frames errs (framed frame rest) = next rest (frames ++ frame ∷ []) errs

pub push_loop-suc :
    (fuel : ℕ) (buffer : List ℕ) (frames : List (List ℕ)) (errs : List FrameError)
    → push_loop (suc fuel) buffer frames errs
      ≡ after_round (push_loop fuel) frames errs (scan buffer)
unfolding push_loop after_round
push_loop-suc fuel buffer frames errs = ground (arith, round-eq-scan buffer)

abbrev pub Next : Type 0
Next = List ℕ → List (List ℕ) → List FrameError → Option Pushed

after_round-ext :
    (next next' : Next) (xs : List ℕ) (frames : List (List ℕ)) (errs : List FrameError) (o : Round)
    → Bounded xs o
    → ((ys : List ℕ) (fs : List (List ℕ)) (es : List FrameError)
        → length ys < length xs
        → next ys fs es ≡ next' ys fs es)
    → after_round next frames errs o ≡ after_round next' frames errs o
unfolding after_round
after_round-ext next next' xs frames errs (done rest) h e = refl
after_round-ext next next' xs frames errs (invalid size rest) h e = e rest _ _ h.0
after_round-ext next next' xs frames errs (framed frame rest) h e = e rest _ _ h.0

-- Two amounts of fuel that both suffice give one result.
pub push_loop_fuel :
    (f g : ℕ) (buffer : List ℕ) (frames : List (List ℕ)) (errs : List FrameError)
    → length buffer < f
    → length buffer < g
    → push_loop f buffer frames errs ≡ push_loop g buffer frames errs
push_loop_fuel zero g buffer frames errs hf hg = absurd (omega arith)
push_loop_fuel (suc f) zero buffer frames errs hf hg = absurd (omega arith)
push_loop_fuel (suc f) (suc g) buffer frames errs hf hg =
    rw (push_loop-suc f, push_loop-suc g)
      (after_round-ext (push_loop f) (push_loop g) buffer frames errs (scan buffer)
        (scan-Bounded buffer) λ ys fs es h. push_loop_fuel f g ys fs es (omega arith) (omega arith))

-- A result behind what was collected before.
unfoldable pub prepend : List (List ℕ) → List FrameError → Option Pushed → Option Pushed
prepend frames errs none = none
prepend frames errs (some (f, fs, es)) = some (f, frames ++ fs, errs ++ es)

prepend-prepend :
    (frames fs : List (List ℕ)) (errs es : List FrameError) (o : Option Pushed)
    → prepend frames errs (prepend fs es o) ≡ prepend (frames ++ fs) (errs ++ es) o
unfolding prepend
prepend-prepend frames fs errs es none = refl
prepend-prepend frames fs errs es (some (f, gs, ds)) = simp append_assoc

after_round-prepend :
    (next : Next) (frames : List (List ℕ)) (errs : List FrameError) (o : Round)
    → ((ys : List ℕ) (fs : List (List ℕ)) (es : List FrameError)
        → next ys fs es ≡ prepend fs es (next ys [] []))
    → after_round next frames errs o ≡ prepend frames errs (after_round next [] [] o)
unfolding after_round
after_round-prepend next frames errs (done rest) e = unfold prepend in simp append-nil
after_round-prepend next frames errs (invalid size rest) e =
    e rest frames (errs ++ invalid_length size ∷ [])
    ∙ sym (
        ap (prepend frames errs) (e rest [] (invalid_length size ∷ []))
        ∙ prepend-prepend frames [] errs (invalid_length size ∷ []) (next rest [] [])
        ∙ simp append-nil)
after_round-prepend next frames errs (framed frame rest) e =
    e rest (frames ++ frame ∷ []) errs
    ∙ sym (
        ap (prepend frames errs) (e rest (frame ∷ []) [])
        ∙ prepend-prepend frames (frame ∷ []) errs [] (next rest [] [])
        ∙ simp append-nil)

-- What the loop was given as collected stands in front of what it collects.
pub push_loop-prepend :
    (fuel : ℕ) (buffer : List ℕ) (frames : List (List ℕ)) (errs : List FrameError)
    → push_loop fuel buffer frames errs ≡ prepend frames errs (push_loop fuel buffer [] [])
push_loop-prepend zero buffer frames errs = unfold push_loop prepend in refl
push_loop-prepend (suc fuel) buffer frames errs = rw push_loop-suc (
    rw push_loop-suc
      (after_round-prepend (push_loop fuel) frames errs (scan buffer) (push_loop-prepend fuel)))

-- The loop started again on what it left, with more bytes behind it.
unfoldable pub resume : List ℕ → Option Pushed → Option Pushed
resume more none = none
resume more (some (f, frames, errs)) =
    push_loop (suc (length (f.buffer ++ more))) (f.buffer ++ more) frames errs

after_round-resume :
    (f : ℕ) (next : Next) (xs more : List ℕ) (frames : List (List ℕ)) (errs : List FrameError)
    (o : Round)
    → Bounded xs o
    → length xs + length more < suc f
    → ((ys : List ℕ) (fs : List (List ℕ)) (es : List FrameError)
        → length ys < length xs
        → push_loop f (ys ++ more) fs es ≡ resume more (next ys fs es))
    → after_round (push_loop f) frames errs (extend o more)
      ≡ resume more (after_round next frames errs o)
unfolding after_round extend resume
after_round-resume f next xs more frames errs (done rest) h fits e =
    sym (push_loop-suc f (rest ++ more) frames errs)
    ∙ push_loop_fuel (suc f) (suc (length (rest ++ more))) (rest ++ more) frames errs
        (omega (arith, h, length-append rest more)) (omega arith)
after_round-resume f next xs more frames errs (invalid size rest) h fits e = e rest _ _ h.0
after_round-resume f next xs more frames errs (framed frame rest) h fits e = e rest _ _ h.0

pub push_loop-resume :
    (f g : ℕ) (xs more : List ℕ) (frames : List (List ℕ)) (errs : List FrameError)
    → length xs + length more < f
    → length xs < g
    → push_loop f (xs ++ more) frames errs ≡ resume more (push_loop g xs frames errs)
push_loop-resume zero g xs more frames errs hf hg = absurd (omega arith)
push_loop-resume (suc f) zero xs more frames errs hf hg = absurd (omega arith)
push_loop-resume (suc f) (suc g) xs more frames errs hf hg =
    rw (push_loop-suc f, scan-append, push_loop-suc g)
      (after_round-resume f (push_loop g) xs more frames errs (scan xs) (scan-Bounded xs) hf
        λ ys fs es h. push_loop-resume f g ys more fs es (omega arith) (omega arith))

after_round-returns :
    (next : Next) (xs : List ℕ) (frames : List (List ℕ)) (errs : List FrameError) (o : Round)
    → Bounded xs o
    → ((ys : List ℕ) (fs : List (List ℕ)) (es : List FrameError)
        → length ys < length xs
        → (x : Pushed) × (next ys fs es ≡ some x) × (length x.0.buffer < max_frame + 4))
    → (x : Pushed) × (after_round next frames errs o ≡ some x) × (length x.0.buffer < max_frame + 4)
unfolding after_round
after_round-returns next xs frames errs (done rest) h e =
    ((record { buffer = rest }, frames, errs), refl, h.1)
after_round-returns next xs frames errs (invalid size rest) h e = e rest _ _ h.0
after_round-returns next xs frames errs (framed frame rest) h e = e rest _ _ h.0

-- With fuel above the buffer's length the loop returns, with a short buffer.
pub push_loop_returns :
    (fuel : ℕ) (buffer : List ℕ) (frames : List (List ℕ)) (errs : List FrameError)
    → length buffer < fuel
    → (x : Pushed) × (push_loop fuel buffer frames errs ≡ some x)
      × (length x.0.buffer < max_frame + 4)
push_loop_returns zero buffer frames errs h = absurd (omega arith)
push_loop_returns (suc fuel) buffer frames errs h = rw push_loop-suc (
    after_round-returns (push_loop fuel) buffer frames errs (scan buffer) (scan-Bounded buffer)
      λ ys fs es l. push_loop_returns fuel ys fs es (omega arith))
