-- ===== src/Caltopo/Worker/Loop.antt =====
-- The loop of the worker of internal/caltopo/worker.go: `Run`, and `Wake`, which other goroutines
-- call. A move is one choice of the select, one query, or one delivery of `drain`; between two moves
-- other goroutines may wake the worker or write to the database, and the world goes on.
pub mod Wakes
pub mod Ready
pub mod Passes
use mesthastic_caltopo_bridg.Prelude.{
  ℕ, zero, suc, ◌≡◌, Bool, true, false, ◌||◌, Option, none, some, List, [], ◌∷◌, length, ◌==◌,
  if◌then◌else◌,
}
use mesthastic_caltopo_bridg.Go.Float.{Env}
use mesthastic_caltopo_bridg.Store.Tables.{Db, ok, err}
use mesthastic_caltopo_bridg.Store.Deliveries.{Delivery, pending_deliveries}
use mesthastic_caltopo_bridg.Store.History.{Step}
use mesthastic_caltopo_bridg.Caltopo.Worker.{Outside, DrainError, Worker, drain_one}

-- Where `Run` is: at its select, before the query of `drain`, in the loop of `drain` with the
-- deliveries left and the number of them all, or out.
pub data Phase (F : Type 0) : Type 0 where
  selecting listing returned : Phase F
  sending : List (Delivery F) → ℕ → Phase F

-- `wake`: whether the channel, which has room for one, is full.
pub record Loop (W S F : Type 0) : Type 0 where
  pub worker : Worker W S F
  pub wake : Bool
  pub phase : Phase F

module _ {W S F : Type 0} where
  -- `Wake`: a full channel stays full.
  unfoldable pub wake_up : Loop W S F → Loop W S F
  wake_up a = record a { wake = true }

  -- The start of `Run`, which wakes itself.
  unfoldable pub started : Worker W S F → Loop W S F
  started w = record { worker = w; wake = true; phase = selecting }

  -- The inner loop goes on while `drain` found something.
  unfoldable pub after_all : Loop W S F → ℕ → Loop W S F
  after_all a n = if n == 0 then record a { phase = selecting } else record a { phase = listing }

  unfoldable pub after_one :
      Loop W S F → List (Delivery F) → ℕ → Worker W S F × Option DrainError → Loop W S F
  after_one a ds n (w, none) = record a { worker = w; phase = sending ds n }
  after_one a ds n (w, some e) = record a { worker = w; phase = selecting }

  module _ (env : Env F) (outside : Outside W F) where
    -- The query of `drain`.
    unfoldable pub list_due : Loop W S F → Loop W S F
    list_due a =
        let w = a.worker in
        elim (pending_deliveries (outside.query_fails w.world) (outside.clock w.world) 50 w.db) [
          | err e ↦ record a { phase = selecting }
          | ok ds ↦ record a { phase = sending ds (length ds) }
        ]

    pub data Move (a b : Loop W S F) : Type 0 where
      wakes : b ≡ wake_up a → Move a b
      writes :
          (db : Db S F)
          → Step env a.worker.db db
          → b ≡ record a { worker = record a.worker { db = db } }
          → Move a b
      goes_on : (world : W) → b ≡ record a { worker = record a.worker { world = world } } → Move a b
      ticks : a.phase ≡ selecting → b ≡ record a { phase = listing } → Move a b
      takes :
          a.phase ≡ selecting
          → a.wake ≡ true
          → b ≡ record a { wake = false; phase = listing }
          → Move a b
      stops : a.phase ≡ selecting → b ≡ record a { phase = returned } → Move a b
      lists : a.phase ≡ listing → b ≡ list_due a → Move a b
      sends :
          (d : Delivery F) (ds : List (Delivery F)) (n : ℕ) (p : Worker W S F × Option DrainError)
          → a.phase ≡ sending (d ∷ ds) n
          → drain_one env.float outside a.worker d ≡ some p
          → b ≡ after_one a ds n p
          → Move a b
      ends : (n : ℕ) → a.phase ≡ sending [] n → b ≡ after_all a n → Move a b

    pub data Trace (a : Loop W S F) : Loop W S F → Type 0 where
      still : Trace a a
      move : {b c : Loop W S F} → Trace a b → Move b c → Trace a c

    -- Whether a query was made.
    unfoldable pub has_listed : {a b : Loop W S F} → Trace a b → Bool
    has_listed still = false
    has_listed (move t (lists _ _)) = true
    has_listed (move t _) = has_listed t
