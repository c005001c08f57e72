-- ===== src/Meshtastic/Framer/Stream.antt =====
-- `Push` over a stream of reads.
use mesthastic_caltopo_bridg.Prelude.{
  ℕ, suc, ◌+◌, ◌<◌, ◌≡◌, refl, sym, ◌∙◌, Option, none, some, List, [], ◌∷◌, ◌++◌, length, arith,
  append-nil, append_assoc, length-append,
}
use mesthastic_caltopo_bridg.Meshtastic.Framer.{
  FrameError, Framer, max_frame, Pushed, push_loop, push,
}
use mesthastic_caltopo_bridg.Meshtastic.Framer.Loop.{
  prepend, push_loop-prepend, resume, push_loop-resume, push_loop_returns,
}

-- `Push` again, on the framer that an earlier `Push` left; the results are joined.
unfoldable pub then_push : List ℕ → Option Pushed → Option Pushed
then_push chunk none = none
then_push chunk (some (f, frames, errs)) = prepend frames errs (push f chunk)

-- A call of `Push` always returns, and what it keeps is shorter than one whole frame.
pub push_returns :
    (f : Framer) (chunk : List ℕ)
    → (x : Pushed) × (push f chunk ≡ some x) × (length x.0.buffer < max_frame + 4)
unfolding push
push_returns f chunk =
    push_loop_returns (suc (length (f.buffer ++ chunk))) (f.buffer ++ chunk) [] [] (omega arith)

resume-eq-then_push : (more : List ℕ) (o : Option Pushed) → resume more o ≡ then_push more o
unfolding resume then_push push
resume-eq-then_push more none = refl
resume-eq-then_push more (some (f, frames, errs)) =
    push_loop-prepend (suc (length (f.buffer ++ more))) (f.buffer ++ more) frames errs

-- Two reads give the frames, the errors and the buffer that one read of all their bytes gives.
pub push-append : (f : Framer) (a b : List ℕ) → push f (a ++ b) ≡ then_push b (push f a)
unfolding push
push-append f a b =
    let xs : List ℕ = f.buffer ++ a in
    rw (← append_assoc f.buffer a b) (
      push_loop-resume (suc (length (xs ++ b))) (suc (length xs)) xs b [] []
        (omega (arith, length-append xs b)) (omega arith)
      ∙ resume-eq-then_push b (push_loop (suc (length xs)) xs [] []))

-- A read in two parts: the frames of the first and then those of the second.
pub push_parts :
    (f f' : Framer) (a b : List ℕ) (frames : List (List ℕ)) (errs : List FrameError)
    → push f (a ++ b) ≡ some (f', frames, errs)
    → (g : Framer) × (before after : List (List ℕ)) × (es es' : List FrameError) × (push f a
        ≡ some (g, before, es))
      × (push g b ≡ some (f', after, es'))
      × (frames ≡ before ++ after)
      × (errs ≡ es ++ es')
unfolding then_push prepend
push_parts f f' a b frames errs e =
    let ((g, before, es), ea, _) = push_returns f a in
    let ((g', after, es'), eb, _) = push_returns g b in
    let joined : some (f', frames, errs) ≡ some (g', before ++ after, es ++ es') =
      sym e ∙ push-append f a b ∙ rw (ea, then_push, eb) refl in
    (g, before, after, es, es', ea, cc (eb, joined), cc joined, cc joined)

append-eq_self {ℓ} : {A : Type ℓ} (xs ys : List A) → xs ≡ xs ++ ys → ys ≡ []
append-eq_self [] ys e = sym e
append-eq_self (x ∷ xs) ys e = append-eq_self xs ys (cc e)

-- What a push leaves gives nothing more by itself.
pub push-drained :
    (f f' : Framer) (a : List ℕ) (frames : List (List ℕ)) (errs : List FrameError)
    → push f a ≡ some (f', frames, errs)
    → push f' [] ≡ some (f', [], [])
push-drained f f' a frames errs e =
    let whole : push f (a ++ []) ≡ some (f', frames, errs) = rw append-nil e in
    let (g, before, after, es, es', ea, eb, ef, ee) = push_parts f f' a [] frames errs whole in
    let same : f' ≡ g = cc (e, ea) in
    let none_after : after ≡ [] = append-eq_self before after (cc (e, ea, ef)) in
    let no_errs : es' ≡ [] = append-eq_self es es' (cc (e, ea, ee)) in
    cc (eb, same, none_after, no_errs)
