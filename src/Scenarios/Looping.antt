-- ===== src/Scenarios/Looping.antt =====
-- The theorems on the loop of the worker, with the publisher that refuses every position.
use mesthastic_caltopo_bridg.Prelude.{ℕ, ◌≡◌, refl, true, false, Option, some, List, ◌∷◌}
use mesthastic_caltopo_bridg.Prelude.Int.{ℤ, pos}
use mesthastic_caltopo_bridg.Store.Tables.{Result}
use mesthastic_caltopo_bridg.Store.Deliveries.{Delivery}
use mesthastic_caltopo_bridg.Caltopo.Filter.Safety.{new-HasStates}
use mesthastic_caltopo_bridg.Caltopo.Worker.{DrainError, Worker, drain_one, drain}
use mesthastic_caltopo_bridg.Caltopo.Worker.Pass.{IsReady, drain-IsReady}
use mesthastic_caltopo_bridg.Caltopo.Worker.Loop.{
  Loop, selecting, listing, sending, wake_up, started, list_due, goes_on, takes, lists, Trace,
  still, move, has_listed,
}
use mesthastic_caltopo_bridg.Caltopo.Worker.Loop.Wakes.{IsOwed, wake_up-IsOwed}
use mesthastic_caltopo_bridg.Caltopo.Worker.Loop.Ready.{started-IsReady}
use mesthastic_caltopo_bridg.Caltopo.Worker.Loop.Passes.{Pass, at, after_drain, drain-Pass}
use mesthastic_caltopo_bridg.Scenarios.{env, stored-WellFormed}
use mesthastic_caltopo_bridg.Scenarios.Delivering.{refusing, worker}

-- The worker takes the wake-up while the time goes on.
abbrev taken : Loop ℕ ℕ ℤ
taken = record { worker = record worker { world = 51 }; wake = false; phase = listing }

taking : Trace env refusing (started worker) taken
unfolding started
taking = move (move still (goes_on 51 refl)) (takes refl refl refl)

abbrev idle : Loop ℕ ℕ ℤ
idle = record { worker = worker; wake = false; phase = selecting }

woken : Trace env refusing (wake_up idle) taken
unfolding wake_up
woken = move (move still (goes_on 51 refl)) (takes refl refl refl)

wake_up-IsOwed_example : IsOwed taken
unfolding has_listed woken
wake_up-IsOwed_example = wake_up-IsOwed env refusing idle taken woken refl

started-IsReady_example :
    IsReady (list_due env refusing taken).worker
    × ((d : Delivery ℤ) (ds : List (Delivery ℤ)) (n : ℕ)
        → (list_due env refusing taken).phase ≡ sending (d ∷ ds) n
        → (p : Worker ℕ ℕ ℤ × Option DrainError) × (drain_one env.float refusing
              (list_due env refusing taken).worker
              d
            ≡ some p))
started-IsReady_example =
    started-IsReady env refusing worker (list_due env refusing taken)
      (record { states = new-HasStates (pos 5) (pos 600000000000); tables = stored-WellFormed })
      (move taking (lists refl refl))

abbrev passed :
    (r : Worker ℕ ℕ ℤ × Result DrainError ℕ) × (drain env.float refusing worker ≡ some r)
    × IsReady r.0
passed =
    drain-IsReady env.float refusing worker
      (record { states = new-HasStates (pos 5) (pos 600000000000); tables = stored-WellFormed })

drain-Pass_example :
    Pass env refusing (at env refusing true worker listing) (after_drain env refusing true passed.0)
drain-Pass_example = drain-Pass env refusing true worker passed.0 passed.1
