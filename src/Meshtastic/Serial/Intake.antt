-- ===== src/Meshtastic/Serial/Intake.antt =====
-- The intake of the serial source: from the bytes on the wire to the messages handled.
use mesthastic_caltopo_bridg.Prelude.{
  ℕ, zero, suc, ◌<◌, ◌≡◌, refl, sym, ap, ◌∙◌, Bool, true, false, Option, none, some, List, [], ◌∷◌,
  ◌++◌, arith, append-nil, append_assoc, All,
}
use mesthastic_caltopo_bridg.Go.Text.{Text}
use mesthastic_caltopo_bridg.Go.Time.{second}
use mesthastic_caltopo_bridg.Meshtastic.Framer.{FrameError, Framer, push}
use mesthastic_caltopo_bridg.Meshtastic.Framer.Stream.{push_parts, push-drained}
use mesthastic_caltopo_bridg.Meshtastic.Framer.Wire.{
  IsNoise, Segment, IsSent, empty, wire, payloads, push-wire,
}
use mesthastic_caltopo_bridg.Meshtastic.Serial.{
  Source, Read, State, reading, next_backoff, retry, handle_frames, take_bytes, read_loop,
}
use mesthastic_caltopo_bridg.Meshtastic.Serial.Returns.{IsPatient}

-- The bytes of the reads, and reads with no error.
abbrev pub all_bytes : List Read → List ℕ
all_bytes [] = []
all_bytes (r ∷ rs) = r.bytes ++ all_bytes rs

abbrev pub IsClean : Read → Type 0
IsClean r = r.error ≡ none

module _ {W M : Type 0} (source : Source W M) where
  -- The messages among the frames.
  unfoldable pub messages_of : List (List ℕ) → List M
  messages_of [] = []
  messages_of (frame ∷ frames) = elim (source.unmarshal frame) [
    | none ↦ messages_of frames
    | some m ↦ m ∷ messages_of frames
  ]

  pub messages-append :
      (a b : List (List ℕ)) → messages_of (a ++ b) ≡ messages_of a ++ messages_of b
  unfolding messages_of
  messages-append [] b = refl
  messages-append (frame ∷ a) b = ground (arith, messages-append a b)

  -- The messages have been handled, one after the other.
  abbrev Handles : List M → State W M → Option (State W M × Bool) → Type 0
  Handles ms s o = (s' : State W M) × (o ≡ some (s', true)) × (s'.handled ≡ s.handled ++ ms)

  module _ (limit : ℕ) (patient : IsPatient source limit)
      (running : (w : W) → source.cancelled w ≡ false)
      (fires : (backoff : ℕ) (w : W) → (source.sleep backoff w).1 ≡ true) where
    retry-Handles :
        (fuel backoff : ℕ) (m : M) (s : State W M)
        → patient.patience s.world < fuel
        → Handles (m ∷ []) s (retry source fuel backoff m s)
    unfolding retry
    retry-Handles zero backoff m s h = absurd (omega arith)
    retry-Handles (suc fuel) backoff m s h =
        by_answer (source.handler m s.world) refl
          (λ (w' : W). retry-Handles fuel (next_backoff backoff) m (record s { world = w' }))
      where
        after_sleep : W × Bool → Option (State W M × Bool)
        after_sleep r = elim r.1 [
          | true ↦ retry source fuel (next_backoff backoff) m (record s { world = r.0 })
          | false ↦ some (record s { world = r.0 }, false)
        ]

        after_test : W → Bool → Option (State W M × Bool)
        after_test w b = elim b [
          | true ↦ some (record s { world = w }, false)
          | false ↦ after_sleep (source.sleep backoff w)
        ]

        Again : Type 0
        Again =
            (w : W)
            → patient.patience w < fuel
            → Handles (m ∷ []) (record s { world = w })
                (retry source fuel (next_backoff backoff) m (record s { world = w }))

        by_sleep :
            Again
            → (r : W × Bool) → r.1 ≡ true
            → patient.patience r.0 < fuel
            → Handles (m ∷ []) s (after_sleep r)
        by_sleep again (w, true) f k = again w k
        by_sleep again (w, false) f k = cc

        by_test :
            Again
            → (w : W) (b : Bool) → b ≡ false
            → patient.patience (source.sleep backoff w).0 < fuel
            → Handles (m ∷ []) s (after_test w b)
        by_test again w true f k = cc
        by_test again w false f k = by_sleep again (source.sleep backoff w) (fires backoff w) k

        by_answer :
            (r : W × Option Text)
            → source.handler m s.world ≡ r
            → Again
            → Handles (m ∷ []) s (elim r.1 as (λ _. Option (State W M × Bool)) [
              | none ↦ some (record s { world = r.0; handled = s.handled ++ m ∷ [] }, true)
              | some _ ↦ after_test r.0 (source.cancelled r.0)
            ])
        by_answer (w, none) e again =
            (record s { world = w; handled = s.handled ++ m ∷ [] }, refl, refl)
        by_answer (w, some x) e again =
            let fell : patient.patience (source.sleep backoff w).0 < patient.patience s.world =
              rw e at (patient.falls m backoff s.world) (λ q. cc q) in
            by_test again w (source.cancelled w) (running w) (omega arith)

    handle_frames-Handles :
        (frames : List (List ℕ)) (s : State W M)
        → Handles (messages_of frames) s (handle_frames source limit frames s)
    unfolding handle_frames messages_of
    handle_frames-Handles [] s = (s, refl, sym (append-nil s.handled))
    handle_frames-Handles (frame ∷ frames) s =
        by_message (source.unmarshal frame) refl (handle_frames-Handles frames)
      where
        by_message :
            (o : Option M)
            → source.unmarshal frame ≡ o
            → ((s' : State W M)
                → Handles (messages_of frames) s' (handle_frames source limit frames s'))
            → Handles
                (messages_of (frame ∷ frames))
                s
                (handle_frames source limit (frame ∷ frames) s)
        by_message none e rest = let (s', run, got) = rest s in (s', ground arith, ground arith)
        by_message (some m) e rest =
            let (s', run, got) = retry-Handles limit second m s (patient.below s.world) in
            let (s'', run', got') = rest s' in
            (
              s'',
              ground arith,
              ground (arith, append_assoc s.handled (m ∷ []) (messages_of frames)),
            )

    -- The messages of the frames that a read completes are handled; the framer goes on.
    take_bytes-Handles :
        (a b : List ℕ) (f f' : Framer) (frames : List (List ℕ)) (errs : List FrameError)
        (s : State W M)
        → push f [] ≡ some (f, [], [])
        → push f (a ++ b) ≡ some (f', frames, errs)
        → (g : Framer) × (s' : State W M) × (before after : List (List ℕ)) × (es : List FrameError)
          × (take_bytes source limit a f s ≡ some (g, s', true))
          × (s'.handled ≡ s.handled ++ messages_of before)
          × (push g [] ≡ some (g, [], []))
          × (push g b ≡ some (f', after, es))
          × (frames ≡ before ++ after)
    unfolding take_bytes messages_of
    take_bytes-Handles [] b f f' frames errs s dry e =
        (f, s, [], frames, errs, refl, sym (append-nil s.handled), dry, e, refl)
    take_bytes-Handles (x ∷ a) b f f' frames errs s dry e =
        let (g, before, after, es, es', ea, eb, split, _) =
          push_parts f f' (x ∷ a) b frames errs e in
        let (s', run, got) = handle_frames-Handles before s in
        (
          g,
          s',
          before,
          after,
          es',
          rw (ea, run) refl,
          got,
          push-drained f g (x ∷ a) before es ea,
          eb,
          split,
        )

    read_loop-Handles :
        (reads : List Read) (f f' : Framer) (frames : List (List ℕ)) (errs : List FrameError)
        (s : State W M)
        → All IsClean reads
        → push f [] ≡ some (f, [], [])
        → push f (all_bytes reads) ≡ some (f', frames, errs)
        → (s' : State W M) × (read_loop source limit reads f s ≡ some (s', reading))
          × (s'.handled ≡ s.handled ++ messages_of frames)
    unfolding read_loop messages_of
    read_loop-Handles [] f f' frames errs s clean dry e =
        let nothing : frames ≡ [] = cc (e, dry) in
        (s, refl, rw nothing (sym (append-nil s.handled)))
    read_loop-Handles (r ∷ rs) f f' frames errs s clean dry e =
        let (g, s', before, after, es, run, got, dry', e', split) =
          take_bytes-Handles r.bytes (all_bytes rs) f f' frames errs
            (record s { world = source.await_read s.world }) dry e in
        let (s'', run', got') = read_loop-Handles rs g f' after es s' clean.1 dry' e' in
        (
          s'',
          ground (arith, running s.world),
          ground (
            arith,
            messages-append before after,
            append_assoc s.handled (messages_of before) (messages_of after),
          ),
        )

    -- The reads of the port may cut the stream anywhere and may be empty. If the stream is frames that
    -- `EncodeFrame` made, with noise before, between and after them, if no read fails, if the context
    -- is not cancelled and if the handler never fails `limit` times in a row, then the loop is still
    -- reading after them, and the handler has taken the message of each frame that is one, once and in
    -- the order of the frames.
    pub read_loop-wire :
        (reads : List Read) (ss : List Segment) (tail : List ℕ) (s : State W M)
        → All IsClean reads
        → All IsSent ss
        → IsNoise tail
        → all_bytes reads ≡ wire ss tail
        → (s' : State W M) × (read_loop source limit reads empty s ≡ some (s', reading))
          × (s'.handled ≡ s.handled ++ messages_of (payloads ss))
    read_loop-wire reads ss tail s clean sent quiet same =
        read_loop-Handles reads empty empty (payloads ss) [] s clean (push-wire [] [] tt tt)
          (ap (push empty) same ∙ push-wire ss tail sent quiet)
