-- ===== src/Scenarios/Listening.antt =====
-- A serial source whose handler fails before each message, and whose port takes two bytes at a time.
use mesthastic_caltopo_bridg.Prelude.{
  ℕ, ◌/◌, ◌<◌, ◌≡◌, ◌≢◌, refl, Bool, true, false, Option, none, some, List, [], ◌∷◌, ◌++◌, arith,
  All,
}
use mesthastic_caltopo_bridg.Go.Text.{Text, text}
use mesthastic_caltopo_bridg.Store.Tables.{ok}
use mesthastic_caltopo_bridg.Meshtastic.Framer.{push, push_loop, round}
use mesthastic_caltopo_bridg.Meshtastic.Framer.Wire.{empty, payloads}
use mesthastic_caltopo_bridg.Meshtastic.Serial.{
  Source, Read, State, reading, stopped, is_reading, read_loop, run,
}
use mesthastic_caltopo_bridg.Meshtastic.Serial.Returns.{IsPatient}
use mesthastic_caltopo_bridg.Meshtastic.Serial.Intake.{messages_of, read_loop-wire}
use mesthastic_caltopo_bridg.Meshtastic.Serial.Prefix.{HasPrefix, read_loop-HasPrefix}
use mesthastic_caltopo_bridg.Meshtastic.Serial.Waits.{IsModest, run-IsModest}
use mesthastic_caltopo_bridg.Scenarios.Framing.{sent, sent-IsSent}

-- The world: whether the handler fails.
abbrev handler : List ℕ → Bool → Bool × Option Text
handler m true = (true, some (text "locked"))
handler m false = (true, none)

abbrev unmarshal : List ℕ → Option (List ℕ)
unmarshal [] = none
unmarshal (b ∷ bs) = some (b ∷ bs)

abbrev source : Source Bool (List ℕ)
source = record {
  handler = handler;
  sleep = λ d w. (false, true);
  await_read = λ w. w;
  cancelled = λ w. false;
  unmarshal = unmarshal;
  rand_below = λ n w. (w, n / 2);
  rand_uint32 = λ w. (w, 0);
  marshal_request = λ id. ok (24 ∷ id ∷ []);
  write = λ bytes w. (w, 2, none);
}

abbrev patience : Bool → ℕ
patience true = 1
patience false = 0

patience-lt : (w : Bool) → patience w < 2
patience-lt true = omega arith
patience-lt false = omega arith

patience_falls :
    (m : List ℕ) (backoff : ℕ) (w : Bool)
    → (handler m w).1 ≢ none
    → patience (source.sleep backoff (handler m w).0).0 < patience w
patience_falls m backoff true h = omega arith
patience_falls m backoff false h = absurd (h refl)

patient : IsPatient source 2
patient = record { patience = patience; below = patience-lt; falls = patience_falls }

abbrev start : State Bool (List ℕ)
start = record { world = true; handled = []; waits = [] }

-- The stream of `sent`, cut in three, with a read of nothing between.
abbrev reads : List Read
reads =
    record { bytes = 0x41 ∷ 0x94 ∷ 0xc3 ∷ 0 ∷ []; error = none }
    ∷ record { bytes = []; error = none }
    ∷ record { bytes = 2 ∷ 1 ∷ 2 ∷ 0x94 ∷ []; error = none }
    ∷ record { bytes = 0xc3 ∷ 0 ∷ 1 ∷ 0x94 ∷ 0x42 ∷ []; error = none }
    ∷ []

read_loop-wire_example :
    (s' : State Bool (List ℕ)) × (read_loop source 2 reads empty start ≡ some (s', reading))
    × (s'.handled ≡ [] ++ messages_of source (payloads sent))
read_loop-wire_example =
    read_loop-wire source 2 patient (λ w. refl) (λ backoff w. refl) reads sent (0x42 ∷ []) start
      (refl, (refl, (refl, (refl, tt)))) sent-IsSent ((λ e. omega arith), tt) refl

below : (n : ℕ) (w : Bool) → 0 < n → (source.rand_below n w).1 < n
below n w h = omega arith

-- Two failed attempts, and then a connection that is lost.
abbrev openings : List (Option (List Read))
openings = none ∷ none ∷ some (record { bytes = []; error = some (text "EOF") } ∷ []) ∷ []

run-IsModest_example :
    (r : State Bool (List ℕ) × Bool) × (run source 2 openings start ≡ some r)
    × All IsModest r.0.waits
run-IsModest_example = run-IsModest source below 2 patient openings start tt

-- The handler takes one message, and the context is cancelled while it waits to take the next.
abbrev takes_one : List ℕ → Bool → Bool × Option Text
takes_one m true = (false, none)
takes_one m false = (false, some (text "locked"))

abbrev negated : Bool → Bool
negated true = false
negated false = true

abbrev hurried : Source Bool (List ℕ)
hurried = record source { handler = takes_one; cancelled = negated }

abbrev one_read : List Read
one_read =
    record {
      bytes = 0x41 ∷ 0x94 ∷ 0xc3 ∷ 0 ∷ 2 ∷ 1 ∷ 2 ∷ 0x94 ∷ 0xc3 ∷ 0 ∷ 1 ∷ 0x94 ∷ 0x42 ∷ [];
      error = none;
    }
    ∷ []

abbrev one_taken : State Bool (List ℕ)
one_taken = record { world = false; handled = (1 ∷ 2 ∷ []) ∷ []; waits = [] }

read_loop-HasPrefix_example :
    HasPrefix hurried (messages_of hurried (payloads sent)) start one_taken (is_reading stopped)
unfolding push round push_loop read_loop
read_loop-HasPrefix_example =
    read_loop-HasPrefix hurried 2 one_read empty empty (payloads sent) [] start one_taken stopped
      refl refl refl
