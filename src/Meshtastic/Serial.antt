-- ===== src/Meshtastic/Serial.antt =====
-- The serial source of internal/meshtastic/serial.go. The port, the clock, the random numbers and the
-- message handler are parameters on a world `W`; what a read of the port gives is a list, and so are
-- the attempts to open the port. A message of the radio is a value of `M`.
pub mod Intake
pub mod Prefix
pub mod Waits
pub mod Returns
use Prim.Native.Nat.{min}
use mesthastic_caltopo_bridg.Prelude.{
  ℕ, zero, suc, ◌+◌, ◌*◌, ◌/◌, Bool, true, false, Option, none, some, List, [], ◌∷◌, ◌++◌, length,
  drop, ltb, ◌==◌, if◌then◌else◌,
}
use mesthastic_caltopo_bridg.Go.Text.{Text, text}
use mesthastic_caltopo_bridg.Go.Time.{second}
use mesthastic_caltopo_bridg.Go.Time.Parse.{◌>>=◌}
use mesthastic_caltopo_bridg.Store.Tables.{Result, ok, err}
use mesthastic_caltopo_bridg.Meshtastic.Framer.{FrameError, Framer, push, encode_frame}
use mesthastic_caltopo_bridg.Meshtastic.Framer

pub record Source (W M : Type 0) : Type 0 where
  pub handler : M → W → W × Option Text
  -- `sleep`: whether the timer fired, and not the context
  pub sleep : ℕ → W → W × Bool
  -- what happens while `port.Read` waits
  pub await_read : W → W
  -- `ctx.Err() != nil`
  pub cancelled : W → Bool
  pub unmarshal : List ℕ → Option M
  -- `rand.Int64N` and `rand.Uint32`
  pub rand_below : ℕ → W → W × ℕ
  pub rand_uint32 : W → W × ℕ
  -- `proto.Marshal` of the request with that configuration id
  pub marshal_request : ℕ → Result Text (List ℕ)
  -- `port.Write`
  pub write : List ℕ → W → W × ℕ × Option Text

-- A `Read`: the bytes, and an error.
pub record Read : Type 0 where
  pub bytes : List ℕ
  pub error : Option Text

-- The world, the messages that the handler took without an error, and the pauses of `Run`.
pub record State (W M : Type 0) : Type 0 where
  pub world : W
  pub handled : List M
  pub waits : List ℕ

-- How `consume` ends: it is still reading, the context was cancelled, or an error.
pub data Ending : Type 0 where
  reading stopped : Ending
  lost : Text → Ending
  request_failed : Ending

abbrev pub is_reading : Ending → Bool
is_reading reading = true
is_reading stopped = false
is_reading (lost e) = false
is_reading request_failed = false

abbrev pub max_backoff : ℕ
max_backoff = 30 * second

abbrev pub next_backoff : ℕ → ℕ
next_backoff backoff = min (backoff * 2) max_backoff

module _ {W M : Type 0} (source : Source W M) where
  open source use {
    handler, sleep, await_read, cancelled, unmarshal, rand_below, rand_uint32, marshal_request,
    write,
  }

  -- The loop around the handler, with fuel for its attempts; `none` means that the fuel ran out. The
  -- flag says whether the intake goes on.
  unfoldable pub retry : ℕ → ℕ → M → State W M → Option (State W M × Bool)
  retry zero backoff m s = none
  retry (suc fuel) backoff m s =
      let (w, e) = handler m s.world in
      elim e [
        | none ↦ some (record s { world = w; handled = s.handled ++ m ∷ [] }, true)
        | some _ ↦ elim (cancelled w) [
          | true ↦ some (record s { world = w }, false)
          | false ↦
              let (w', fired) = sleep backoff w in
              elim fired [
                | true ↦ retry fuel (next_backoff backoff) m (record s { world = w' })
                | false ↦ some (record s { world = w' }, false)
              ]
        ]
      ]

  -- The frames of one read. One that is no message is passed over.
  unfoldable pub handle_frames : ℕ → List (List ℕ) → State W M → Option (State W M × Bool)
  unfolding retry
  handle_frames fuel [] s = some (s, true)
  handle_frames fuel (frame ∷ frames) s = elim (unmarshal frame) [
    | none ↦ handle_frames fuel frames s
    | some m ↦ (do
      (s', goes_on) ← retry fuel second m s
      elim goes_on [ true ↦ handle_frames fuel frames s' | false ↦ some (s', false) ])
  ]

  -- `if n > 0 { … }`: the framer, and the rest.
  unfoldable pub take_bytes : ℕ → List ℕ → Framer → State W M → Option (Framer × State W M × Bool)
  unfolding handle_frames
  take_bytes fuel [] framer s = some (framer, s, true)
  take_bytes fuel (b ∷ bs) framer s = do
    (framer', frames, errs) ← push framer (b ∷ bs)
    (s', goes_on) ← handle_frames fuel frames s
    some (framer', s', goes_on)

  -- The loop over the reads.
  unfoldable pub read_loop : ℕ → List Read → Framer → State W M → Option (State W M × Ending)
  unfolding take_bytes
  read_loop fuel [] framer s = some (s, reading)
  read_loop fuel (r ∷ rs) framer s = elim (cancelled s.world) [
    | true ↦ some (s, stopped)
    | false ↦ (do
      (framer', s', goes_on) ←
          take_bytes fuel r.bytes framer (record s { world = await_read s.world })
      elim goes_on [
        | false ↦ some (s', stopped)
        | true ↦ elim r.error [ some e ↦ some (s', lost e) | none ↦ read_loop fuel rs framer' s' ]
      ])
  ]

  -- `writeAll`, with fuel for its calls of `Write`; `none` means that the fuel ran out.
  unfoldable pub write_all : ℕ → List ℕ → W → Option (W × Option Text)
  write_all fuel [] w = some (w, none)
  write_all zero (b ∷ bs) w = none
  write_all (suc fuel) (b ∷ bs) w =
      let (w', n, e) = write (b ∷ bs) w in
      elim e [
        | some e ↦ some (w', some e)
        | none ↦ elim (n == 0) [
          | true ↦ some (w', some (text "short write"))
          | false ↦ write_all fuel (drop n (b ∷ bs)) w'
        ]
      ]

  -- The configuration request. Each call of `Write` takes a byte or more.
  unfoldable pub send_request : W → Option (W × Bool)
  send_request w =
      let (w', r) = rand_uint32 w in
      elim (marshal_request (if r == 0 then 1 else r)) [
        | err e ↦ some (w', false)
        | ok payload ↦ elim (encode_frame payload) [
          | Framer.err e ↦ some (w', false)
          | Framer.ok frame ↦ (do
            (w'', e) ← write_all (length frame) frame w'
            some (w'', elim e [ none ↦ true | some _ ↦ false ]))
        ]
      ]

  unfoldable pub consume : ℕ → List Read → State W M → Option (State W M × Ending)
  unfolding send_request read_loop
  consume fuel reads s = do
    (w, sent) ← send_request s.world
    elim sent [
      | false ↦ some (record s { world = w }, request_failed)
      | true ↦ read_loop fuel reads (record { buffer = [] }) (record s { world = w })
    ]

  -- `sleep(ctx, jitter(backoff))`, whose pause is noted.
  unfoldable pub pause : ℕ → State W M → State W M × Bool
  pause backoff s =
      let (w, r) = rand_below backoff s.world in
      let duration = backoff / 2 + r in
      let (w', fired) = sleep duration w in
      (record s { world = w'; waits = s.waits ++ duration ∷ [] }, fired)

  -- The loop of `Run`, over what the attempts to open the port give: nothing, or the reads of a
  -- connection, which is open while it is reading. The flag says whether the loop has returned.
  unfoldable pub run_loop :
      ℕ → ℕ → List (Option (List Read)) → State W M → Option (State W M × Bool)
  unfolding consume pause
  run_loop fuel backoff [] s = some (s, false)
  run_loop fuel backoff (o ∷ os) s = elim (cancelled s.world) [
    | true ↦ some (s, true)
    | false ↦ elim o [
      | none ↦
          let (s', fired) = pause backoff s in
          elim fired [ true ↦ run_loop fuel (next_backoff backoff) os s' | false ↦ some (s', true) ]
      | some reads ↦ (do
        (s', ending) ← consume fuel reads s
        elim (is_reading ending) [
          | true ↦ some (s', false)
          | false ↦ elim (cancelled s'.world) [
            | true ↦ some (s', true)
            | false ↦
                let (s'', fired) = pause second s' in
                elim fired [
                  | true ↦ run_loop fuel (next_backoff second) os s''
                  | false ↦ some (s'', true)
                ]
          ]
        ])
    ]
  ]

  unfoldable pub run : ℕ → List (Option (List Read)) → State W M → Option (State W M × Bool)
  unfolding run_loop
  run fuel openings s = run_loop fuel second openings s
