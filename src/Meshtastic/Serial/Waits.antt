-- ===== src/Meshtastic/Serial/Waits.antt =====
-- The pauses of `Run` between its attempts to open the port.
use mesthastic_caltopo_bridg.Prelude.{
  ℕ, zero, suc, ◌*◌, ◌/◌, ◌≤◌, ◌<◌, ◌≡◌, refl, subst, Bool, false, Option, none, some, List, [],
  ◌∷◌, arith, All, All-append,
}
use mesthastic_caltopo_bridg.Go.Time.{second}
use mesthastic_caltopo_bridg.Meshtastic.Framer.{Framer}
use mesthastic_caltopo_bridg.Meshtastic.Serial.{
  Source, Read, State, Ending, max_backoff, next_backoff, retry, handle_frames, take_bytes,
  read_loop, consume, pause, run_loop, run,
}
use mesthastic_caltopo_bridg.Meshtastic.Serial.Returns.{IsPatient, run_returns}

-- Half a second or more, and less than 45 seconds.
abbrev pub IsModest : ℕ → Type 0
IsModest d = (second / 2 ≤ d) × (2 * d < 3 * max_backoff)

module _ {W M : Type 0} (source : Source W M) where
  retry-waits :
      (fuel backoff : ℕ) (m : M) (s : State W M) {r : State W M × Bool}
      → retry source fuel backoff m s ≡ some r
      → r.0.waits ≡ s.waits
  unfolding retry
  retry-waits zero backoff m s e = cc
  retry-waits (suc fuel) backoff m s {r} e =
      let w : W = (source.sleep backoff (source.handler m s.world).0).0 in
      ground (arith, retry-waits fuel (next_backoff backoff) m (record s { world = w }) {r = r})

  handle_frames-waits :
      (fuel : ℕ) (frames : List (List ℕ)) (s : State W M) {r : State W M × Bool}
      → handle_frames source fuel frames s ≡ some r
      → r.0.waits ≡ s.waits
  unfolding handle_frames
  handle_frames-waits fuel [] s e = cc
  handle_frames-waits fuel (frame ∷ frames) s e =
      grind (arith, retry-waits, handle_frames-waits fuel frames)

  take_bytes-waits :
      (fuel : ℕ) (bytes : List ℕ) (f : Framer) (s : State W M) {r : Framer × State W M × Bool}
      → take_bytes source fuel bytes f s ≡ some r
      → r.1.waits ≡ s.waits
  unfolding take_bytes
  take_bytes-waits fuel [] f s e = cc
  take_bytes-waits fuel (b ∷ bytes) f s e = grind (arith, handle_frames-waits)

  read_loop-waits :
      (fuel : ℕ) (reads : List Read) (f : Framer) (s : State W M) {r : State W M × Ending}
      → read_loop source fuel reads f s ≡ some r
      → r.0.waits ≡ s.waits
  unfolding read_loop
  read_loop-waits fuel [] f s e = cc
  read_loop-waits fuel (x ∷ reads) f s e =
      grind (arith, take_bytes-waits, read_loop-waits fuel reads)

  consume-waits :
      (fuel : ℕ) (reads : List Read) (s : State W M) {r : State W M × Ending}
      → consume source fuel reads s ≡ some r
      → r.0.waits ≡ s.waits
  unfolding consume
  consume-waits fuel reads s e = grind (arith, read_loop-waits)

  module _ (below : (n : ℕ) (w : W) → 0 < n → (source.rand_below n w).1 < n) where
    pause-IsModest :
        (backoff : ℕ) (s : State W M)
        → second ≤ backoff
        → backoff ≤ max_backoff
        → All IsModest s.waits
        → All IsModest (pause source backoff s).0.waits
    unfolding pause
    pause-IsModest backoff s h k modest =
        All-append IsModest s.waits (_ ∷ []) modest
          ((omega (arith, below backoff s.world), omega (arith, below backoff s.world)), tt)

    next_backoff_bounds :
        (backoff : ℕ)
        → second ≤ backoff
        → (second ≤ next_backoff backoff) × (next_backoff backoff ≤ max_backoff)
    next_backoff_bounds backoff h = ground arith

    run_loop-IsModest :
        (fuel backoff : ℕ) (openings : List (Option (List Read))) (s : State W M)
        (r : State W M × Bool)
        → second ≤ backoff
        → backoff ≤ max_backoff
        → All IsModest s.waits
        → run_loop source fuel backoff openings s ≡ some r
        → All IsModest r.0.waits
    unfolding run_loop
    run_loop-IsModest fuel backoff [] s r h k modest e =
        let same : (s, false) ≡ r = cc e in
        subst (λ (x : State W M × Bool). All IsModest x.0.waits) same modest
    run_loop-IsModest fuel backoff (none ∷ os) s r h k modest e =
        let p : State W M × Bool = pause source backoff s in
        let paused : All IsModest p.0.waits = pause-IsModest backoff s h k modest in
        let (low, high) = next_backoff_bounds backoff h in
        let later : (run_loop source fuel (next_backoff backoff) os p.0 ≡ some r
            → All IsModest r.0.waits) =
          run_loop-IsModest fuel (next_backoff backoff) os p.0 r low high paused in
        ground arith
    run_loop-IsModest fuel backoff (some reads ∷ os) s r h k modest e =
        by_ending (consume source fuel reads s) refl
          (run_loop-IsModest fuel (next_backoff second) os)
      where
        by_ending :
            (o : Option (State W M × Ending))
            → consume source fuel reads s ≡ o
            → ((t : State W M) (r : State W M × Bool)
                → second ≤ next_backoff second
                → next_backoff second ≤ max_backoff
                → All IsModest t.waits
                → run_loop source fuel (next_backoff second) os t ≡ some r
                → All IsModest r.0.waits)
            → All IsModest r.0.waits
        by_ending none c later = ground arith
        by_ending (some (t, result)) c later =
            let kept : t.waits ≡ s.waits = consume-waits fuel reads s c in
            let before : All IsModest t.waits = rw kept modest in
            let p : State W M × Bool = pause source second t in
            let paused : All IsModest p.0.waits =
              pause-IsModest second t (omega arith) (omega arith) before in
            let rest : (run_loop source fuel (next_backoff second) os p.0 ≡ some r
                → All IsModest r.0.waits) =
              later p.0 r (omega arith) (omega arith) paused in
            ground arith

    run-IsModest' :
        (fuel : ℕ) (openings : List (Option (List Read))) (s : State W M) (r : State W M × Bool)
        → All IsModest s.waits
        → run source fuel openings s ≡ some r
        → All IsModest r.0.waits
    unfolding run
    run-IsModest' fuel openings s r modest e =
        run_loop-IsModest fuel second openings s r (omega arith) (omega arith) modest e

    -- Given that `rand.Int64N(n)` is below `n` and that the handler never fails `limit` times in a row:
    -- `Run` comes to the end of what its attempts to open the port give, whether they fail or give
    -- reads, and if all pauses so far were half a second or more and less than 45 seconds, then so are
    -- all pauses that it adds.
    pub run-IsModest :
        (limit : ℕ)
        → IsPatient source limit
        → (openings : List (Option (List Read))) (s : State W M) → All IsModest s.waits
        → (r : State W M × Bool) × (run source limit openings s ≡ some r) × All IsModest r.0.waits
    run-IsModest limit patient openings s modest =
        let (r, e) = run_returns source limit patient openings s in
        (r, e, run-IsModest' limit openings s r modest e)
