-- ===== src/Meshtastic/Serial/Returns.antt =====
-- The loops of the serial source come to their ends.
use mesthastic_caltopo_bridg.Prelude.{
  ℕ, zero, suc, ◌≤◌, ◌<◌, ◌≡◌, ◌≢◌, refl, Bool, Option, none, some, List, [], ◌∷◌, length, drop,
  arith,
}
use mesthastic_caltopo_bridg.Go.Time.{second}
use mesthastic_caltopo_bridg.Meshtastic.Framer.{Framer}
use mesthastic_caltopo_bridg.Meshtastic.Framer.Stream.{push_returns}
use mesthastic_caltopo_bridg.Meshtastic.Serial.{
  Source, Read, State, next_backoff, retry, handle_frames, take_bytes, read_loop, write_all,
  send_request, consume, run_loop, run,
}

some_of-ne-none : {A : Type 0} (o : Option A) → o ≢ none → (a : A) × (o ≡ some a)
some_of-ne-none none h = absurd (h refl)
some_of-ne-none (some a) h = (a, refl)

module _ {W M : Type 0} (source : Source W M) where
  -- The handler fails fewer than `limit` times in a row: a number below the limit falls from one
  -- attempt to the next.
  pub record IsPatient (limit : ℕ) : Type 0 where
    pub patience : W → ℕ
    pub below : (w : W) → patience w < limit
    pub falls :
        (m : M) (backoff : ℕ) (w : W)
        → (source.handler m w).1 ≢ none
        → patience (source.sleep backoff (source.handler m w).0).0 < patience w

  length-drop : (n : ℕ) (b : ℕ) (bs : List ℕ) → n ≢ 0 → length (drop n (b ∷ bs)) ≤ length bs
  length-drop zero b bs h = absurd (h refl)
  length-drop (suc zero) b bs h = omega arith
  length-drop (suc (suc n)) b [] h = omega arith
  length-drop (suc (suc n)) b (c ∷ bs) h =
      omega (arith, length-drop (suc n) c bs (λ e. omega arith))

  -- As many calls of `Write` as there are bytes are enough, whatever the port does.
  write_all-ne-none :
      (fuel : ℕ) (bytes : List ℕ) (w : W)
      → length bytes ≤ fuel
      → write_all source fuel bytes w ≢ none
  unfolding write_all
  write_all-ne-none fuel [] w h = cc
  write_all-ne-none zero (b ∷ bs) w h = absurd (omega arith)
  write_all-ne-none (suc fuel) (b ∷ bs) w h =
      let n : ℕ = (source.write (b ∷ bs) w).1 in
      let w' : W = (source.write (b ∷ bs) w).0 in
      ground (arith, length-drop n b bs, write_all-ne-none fuel (drop n (b ∷ bs)) w')

  send_request-ne-none : (w : W) → send_request source w ≢ none
  unfolding send_request
  send_request-ne-none w =
      grind (arith, λ (bs : List ℕ) (t : W). write_all-ne-none (length bs) bs t)

  module _ (limit : ℕ) (patient : IsPatient limit) where
    retry-ne-none :
        (fuel backoff : ℕ) (m : M) (s : State W M)
        → patient.patience s.world < fuel
        → retry source fuel backoff m s ≢ none
    unfolding retry
    retry-ne-none zero backoff m s h = absurd (omega arith)
    retry-ne-none (suc fuel) backoff m s h =
        let w : W = (source.sleep backoff (source.handler m s.world).0).0 in
        ground (
          arith,
          patient.falls m backoff s.world,
          retry-ne-none fuel (next_backoff backoff) m (record s { world = w }),
        )

    handle_frames-ne-none :
        (frames : List (List ℕ)) (s : State W M) → handle_frames source limit frames s ≢ none
    unfolding handle_frames
    handle_frames-ne-none [] s = cc
    handle_frames-ne-none (frame ∷ frames) s =
        grind (arith, patient.below, retry-ne-none limit second, handle_frames-ne-none frames)

    take_bytes-ne-none :
        (bytes : List ℕ) (f : Framer) (s : State W M) → take_bytes source limit bytes f s ≢ none
    unfolding take_bytes
    take_bytes-ne-none [] f s = cc
    take_bytes-ne-none (b ∷ bytes) f s =
        let (x, pushed, _) = push_returns f (b ∷ bytes) in
        grind (arith, pushed, handle_frames-ne-none)

    read_loop-ne-none :
        (reads : List Read) (f : Framer) (s : State W M) → read_loop source limit reads f s ≢ none
    unfolding read_loop
    read_loop-ne-none [] f s = cc
    read_loop-ne-none (r ∷ reads) f s = grind (arith, take_bytes-ne-none, read_loop-ne-none reads)

    consume-ne-none : (reads : List Read) (s : State W M) → consume source limit reads s ≢ none
    unfolding consume
    consume-ne-none reads s = grind (arith, send_request-ne-none, read_loop-ne-none)

    run_loop-ne-none :
        (backoff : ℕ) (openings : List (Option (List Read))) (s : State W M)
        → run_loop source limit backoff openings s ≢ none
    unfolding run_loop
    run_loop-ne-none backoff [] s = cc
    run_loop-ne-none backoff (none ∷ os) s =
        grind (arith, λ (b : ℕ) (t : State W M). run_loop-ne-none b os t)
    run_loop-ne-none backoff (some reads ∷ os) s =
        grind (arith, consume-ne-none, λ (b : ℕ) (t : State W M). run_loop-ne-none b os t)

    pub run_returns :
        (openings : List (Option (List Read))) (s : State W M)
        → (r : State W M × Bool) × (run source limit openings s ≡ some r)
    unfolding run
    run_returns openings s =
        some_of-ne-none (run_loop source limit second openings s)
          (run_loop-ne-none second openings s)
