-- ===== src/Meshtastic/Serial/Prefix.antt =====
-- What has been handled whenever the intake of the serial source stops.
use mesthastic_caltopo_bridg.Prelude.{
  ℕ, zero, suc, ◌≡◌, refl, sym, ap, ◌⊎◌, inl, inr, subst, Bool, true, false, Option, none, some,
  List, [], ◌∷◌, ◌++◌, arith, append_assoc,
}
use mesthastic_caltopo_bridg.Go.Text.{Text}
use mesthastic_caltopo_bridg.Go.Time.{second}
use mesthastic_caltopo_bridg.Meshtastic.Framer.{FrameError, Framer, push}
use mesthastic_caltopo_bridg.Meshtastic.Framer.Stream.{push_parts, push-drained}
use mesthastic_caltopo_bridg.Meshtastic.Serial.{
  Source, Read, State, Ending, stopped, lost, is_reading, next_backoff, retry, handle_frames,
  take_bytes, read_loop,
}
use mesthastic_caltopo_bridg.Meshtastic.Serial.Intake.{all_bytes, messages_of, messages-append}

module _ {W M : Type 0} (source : Source W M) where
  -- The messages handled are the first of `ms`; they are all of them, or the intake has stopped.
  abbrev pub HasPrefix : List M → State W M → State W M → Bool → Type 0
  HasPrefix ms s s' goes_on =
      (rest : List M) × (s.handled ++ ms ≡ s'.handled ++ rest) × ((rest ≡ []) ⊎ (goes_on ≡ false))

  retry-handled :
      (fuel backoff : ℕ) (m : M) (s s' : State W M) (b : Bool)
      → retry source fuel backoff m s ≡ some (s', b)
      → s'.handled ≡ (elim b as (λ _. List M) [ true ↦ s.handled ++ m ∷ [] | false ↦ s.handled ])
  unfolding retry
  retry-handled zero backoff m s s' b e = cc
  retry-handled (suc fuel) backoff m s s' b e =
      let w : W = (source.sleep backoff (source.handler m s.world).0).0 in
      ground (arith, retry-handled fuel (next_backoff backoff) m (record s { world = w }) s' b)

  handle_frames-HasPrefix :
      (fuel : ℕ) (frames : List (List ℕ)) (s s' : State W M) (b : Bool)
      → handle_frames source fuel frames s ≡ some (s', b)
      → HasPrefix (messages_of source frames) s s' b
  unfolding handle_frames messages_of
  handle_frames-HasPrefix fuel [] s s' b e =
      let same : s ≡ s' = cc e in ([], ap (λ (t : State W M). t.handled ++ []) same, inl refl)
  handle_frames-HasPrefix fuel (frame ∷ frames) s s' b e =
      by_message (source.unmarshal frame) refl (handle_frames-HasPrefix fuel frames)
    where
      Later : Type 0
      Later =
          (t t' : State W M) (c : Bool)
          → handle_frames source fuel frames t ≡ some (t', c)
          → HasPrefix (messages_of source frames) t t' c

      by_retry :
          (m : M) (o : Option (State W M × Bool))
          → source.unmarshal frame ≡ some m
          → retry source fuel second m s ≡ o
          → Later
          → HasPrefix (messages_of source (frame ∷ frames)) s s' b
      by_retry m none u r later = ground arith
      by_retry m (some (t, true)) u r later =
          let kept = retry-handled fuel second m s t true r in
          let (rest, split, all) = later t s' b (ground arith) in
          (rest, ground (arith, append_assoc s.handled (m ∷ []) (messages_of source frames)), all)
      by_retry m (some (t, false)) u r later =
          let kept = retry-handled fuel second m s t false r in
          (m ∷ messages_of source frames, ground arith, inr (ground arith))

      by_message :
          (o : Option M)
          → source.unmarshal frame ≡ o
          → Later
          → HasPrefix (messages_of source (frame ∷ frames)) s s' b
      by_message none u later =
          let (rest, split, all) = later s s' b (ground arith) in (rest, ground arith, all)
      by_message (some m) u later = by_retry m (retry source fuel second m s) u refl later

  -- A read took the first of the frames: their messages have been handled or the intake has stopped,
  -- and the framer makes the others of the bytes that follow.
  abbrev Split : List ℕ → Framer → Framer → List (List ℕ) → State W M → State W M → Bool → Type 0
  Split b f' g frames s s' c =
      (before after : List (List ℕ)) × (es : List FrameError) × HasPrefix
        (messages_of source before) s s' c
      × (push g [] ≡ some (g, [], []))
      × (push g b ≡ some (f', after, es))
      × (frames ≡ before ++ after)

  take_bytes-HasPrefix :
      (fuel : ℕ) (a b : List ℕ) (f f' g : Framer) (frames : List (List ℕ)) (errs : List FrameError)
      (s s' : State W M) (c : Bool)
      → push f [] ≡ some (f, [], [])
      → push f (a ++ b) ≡ some (f', frames, errs)
      → take_bytes source fuel a f s ≡ some (g, s', c)
      → Split b f' g frames s s' c
  unfolding take_bytes messages_of
  take_bytes-HasPrefix fuel [] b f f' g frames errs s s' c dry e run =
      let same : s ≡ s' = cc run in
      let kept : f ≡ g = cc run in
      (
        [],
        frames,
        errs,
        ([], ap (λ (t : State W M). t.handled ++ []) same, inl refl),
        subst (λ (x : Framer). push x [] ≡ some (x, [], [])) kept dry,
        rw (← kept) e,
        refl,
      )
  take_bytes-HasPrefix fuel (x ∷ a) b f f' g frames errs s s' c dry e run =
      let (k, before, after, es, es', ea, eb, split, _) = push_parts f f' (x ∷ a) b frames errs e in
      by_frames k before after es es' ea eb split (handle_frames source fuel before s) refl
    where
      by_frames :
          (k : Framer) (before after : List (List ℕ)) (es es' : List FrameError)
          → push f (x ∷ a) ≡ some (k, before, es)
          → push k b ≡ some (f', after, es')
          → frames ≡ before ++ after
          → (o : Option (State W M × Bool)) → handle_frames source fuel before s ≡ o
          → Split b f' g frames s s' c
      by_frames k before after es es' ea eb split none h = ground (arith, ea)
      by_frames k before after es es' ea eb split (some (t, d)) h =
          let kept : k ≡ g = ground (arith, ea) in
          let ends : handle_frames source fuel before s ≡ some (s', c) = ground (arith, ea) in
          (
            before,
            after,
            es',
            handle_frames-HasPrefix fuel before s s' c ends,
            subst (λ (x : Framer). push x [] ≡ some (x, [], [])) kept
                (push-drained f k (x ∷ a) before es ea),
            rw (← kept) eb,
            split,
          )

  -- Where the fuel is enough for the attempts of the handler, and the framer holds nothing that it
  -- would drop or return: when the loop ends, or is still reading, the handled messages have grown by
  -- a prefix of the messages of the frames that the bytes of the reads make, each once and in order,
  -- whatever the handler, the clock and the context do. It is all of them, or the loop has ended.
  pub read_loop-HasPrefix :
      (fuel : ℕ) (reads : List Read) (f f' : Framer) (frames : List (List ℕ))
      (errs : List FrameError) (s s' : State W M) (result : Ending)
      → push f [] ≡ some (f, [], [])
      → push f (all_bytes reads) ≡ some (f', frames, errs)
      → read_loop source fuel reads f s ≡ some (s', result)
      → HasPrefix (messages_of source frames) s s' (is_reading result)
  unfolding read_loop messages_of
  read_loop-HasPrefix fuel [] f f' frames errs s s' result dry e run =
      let nothing : frames ≡ [] = cc (e, dry) in
      let same : s ≡ s' = cc run in
      ([], rw nothing (ap (λ (t : State W M). t.handled ++ []) same), inl refl)
  read_loop-HasPrefix fuel (r ∷ rs) f f' frames errs s s' result dry e run =
      by_test (source.cancelled s.world) refl (read_loop-HasPrefix fuel rs)
    where
      after_read : State W M
      after_read = record s { world = source.await_read s.world }

      Later : Type 0
      Later =
          (g f'' : Framer) (after : List (List ℕ)) (es : List FrameError) (t t' : State W M)
          (end : Ending)
          → push g [] ≡ some (g, [], [])
          → push g (all_bytes rs) ≡ some (f'', after, es)
          → read_loop source fuel rs g t ≡ some (t', end)
          → HasPrefix (messages_of source after) t t' (is_reading end)

      by_parts :
          (before after : List (List ℕ)) (t : State W M) (rest : List M)
          → frames ≡ before ++ after
          → s.handled ++ messages_of source before ≡ t.handled ++ rest
          → s.handled ++ messages_of source frames ≡ t.handled ++ (rest ++ messages_of source after)
      by_parts before after t rest parts split = ground (
        arith,
        messages-append source before after,
        append_assoc s.handled (messages_of source before) (messages_of source after),
        append_assoc t.handled rest (messages_of source after),
      )

      by_error :
          (g : Framer) (t : State W M)
          → source.cancelled s.world ≡ false
          → take_bytes source fuel r.bytes f after_read ≡ some (g, t, true)
          → (o : Option Text) → r.error ≡ o
          → Later
          → HasPrefix (messages_of source frames) s s' (is_reading result)
      by_error g t c taken (some problem) h later =
          let (before, after, es, (rest, split, all), dry', e', parts) =
            take_bytes-HasPrefix fuel r.bytes (all_bytes rs) f f' g frames errs after_read t true
              dry e taken in
          let same : t ≡ s' = ground arith in
          let ends : lost problem ≡ result = ground arith in
          (
            rest ++ messages_of source after,
            rw (← same) (by_parts before after t rest parts split),
            inr (ap is_reading (sym ends)),
          )
      by_error g t c taken none h later =
          let (before, after, es, (rest, split, all), dry', e', parts) =
            take_bytes-HasPrefix fuel r.bytes (all_bytes rs) f f' g frames errs after_read t true
              dry e taken in
          let (rest', split', all') = later g f' after es t s' result dry' e' (ground arith) in
          let first = by_parts before after t rest parts split in
          let nothing : rest ≡ [] = ground (arith, all) in
          (rest', cc (first, nothing, split'), all')

      by_bytes :
          source.cancelled s.world ≡ false
          → (o : Option (Framer × State W M × Bool))
          → take_bytes source fuel r.bytes f after_read ≡ o
          → Later
          → HasPrefix (messages_of source frames) s s' (is_reading result)
      by_bytes c none taken later = ground arith
      by_bytes c (some (g, t, true)) taken later = by_error g t c taken r.error refl later
      by_bytes c (some (g, t, false)) taken later =
          let (before, after, es, (rest, split, all), dry', e', parts) =
            take_bytes-HasPrefix fuel r.bytes (all_bytes rs) f f' g frames errs after_read t false
              dry e taken in
          let same : t ≡ s' = ground arith in
          let ends : stopped ≡ result = ground arith in
          (
            rest ++ messages_of source after,
            rw (← same) (by_parts before after t rest parts split),
            inr (ap is_reading (sym ends)),
          )

      by_test :
          (b : Bool)
          → source.cancelled s.world ≡ b
          → Later
          → HasPrefix (messages_of source frames) s s' (is_reading result)
      by_test true c later =
          let same : s ≡ s' = ground arith in
          let ends : stopped ≡ result = ground arith in
          (messages_of source frames, rw same refl, inr (ap is_reading (sym ends)))
      by_test false c later = by_bytes c (take_bytes source fuel r.bytes f after_read) refl later
