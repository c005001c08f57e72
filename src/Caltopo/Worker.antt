-- ===== src/Caltopo/Worker.antt =====
-- One pass of the worker over the outbox: `drain` of internal/caltopo/worker.go. `none` stands for a
-- run-time panic. What the worker cannot see into is a world: the publisher, the clock, and whether a
-- call of the database fails.
pub mod Pass
pub mod Loop
use Prim.Native.Nat.{min}
use mesthastic_caltopo_bridg.Prelude.{
  ℕ, ◌+◌, ◌*◌, ◌^◌, Bool, true, false, Option, none, some, List, [], ◌∷◌, length,
}
use mesthastic_caltopo_bridg.Go.Float.{Float64}
use mesthastic_caltopo_bridg.Go.Text.{Text}
use mesthastic_caltopo_bridg.Go.Time.{Time, second, minute}
use mesthastic_caltopo_bridg.Go.Time.Parse.{◌>>=◌}
use mesthastic_caltopo_bridg.Model.{Position}
use mesthastic_caltopo_bridg.Store.Tables.{Db, Result, ok, err}
use mesthastic_caltopo_bridg.Store.Deliveries.{
  Delivery, QueryError, MarkError, pending_deliveries, mark_delivered, mark_failed,
}
use mesthastic_caltopo_bridg.Caltopo.Filter.{PositionFilter, prepare, complete}

-- `min(time.Second*time.Duration(1<<min(attempts, 8)), 5*time.Minute)`
unfoldable pub retry_delay : ℕ → ℕ
retry_delay attempts = min (second * 2 ^ min attempts 8) (5 * minute)

-- `Publish` of a publisher gives an error's text, or nothing.
pub record Outside (W F : Type 0) : Type 0 where
  pub publish : W → Position F → W × Option Text
  pub clock : W → Time
  pub query_fails : W → QueryError → Bool
  pub mark_fails : W → MarkError → Bool

pub data DrainError : Type 0 where
  list_error : QueryError → DrainError
  mark_error : MarkError → DrainError

pub record Worker (W S F : Type 0) : Type 0 where
  pub db : Db S F
  pub filter : PositionFilter F
  pub world : W

module _ {W S F : Type 0} (float : Float64 F) (outside : Outside W F) where
  open outside use {publish, clock, query_fails, mark_fails}

  -- `MarkDelivered`, and `complete` if that succeeds.
  unfoldable pub finish :
      Worker W S F → Delivery F → Bool → Option (Worker W S F × Option DrainError)
  unfolding mark_delivered complete
  finish w d published =
      let (db, r) = mark_delivered (mark_fails w.world) (clock w.world) d.id w.db in
      elim r [
        | err e ↦ some (record w { db = db }, some (mark_error e))
        | ok _ ↦ (do
          filter ← complete float w.filter d.id published
          some (record w { db = db; filter = filter }, none))
      ]

  -- `MarkFailed`, for another attempt.
  unfoldable pub postpone :
      Worker W S F → Delivery F → Text → Option (Worker W S F × Option DrainError)
  unfolding mark_failed retry_delay
  postpone w d error =
      let attempts = d.attempts + 1 in
      let next = clock w.world + retry_delay attempts in
      let (db, r) = mark_failed (mark_fails w.world) d.id attempts next false error w.db in
      elim r [
        | err e ↦ some (record w { db = db }, some (mark_error e))
        | ok _ ↦ some (record w { db = db }, none)
      ]

  unfoldable pub send :
      Worker W S F → Delivery F → Position F → Option (Worker W S F × Option DrainError)
  unfolding finish postpone
  send w d position =
      let (world, r) = publish w.world position in
      elim r [
        | none ↦ finish (record w { world = world }) d true
        | some error ↦ postpone (record w { world = world }) d error
      ]

  -- The body of the loop over the deliveries.
  unfoldable pub drain_one : Worker W S F → Delivery F → Option (Worker W S F × Option DrainError)
  unfolding send finish prepare
  drain_one w d = do
    (filter, position, published) ← prepare float w.filter d
    let w' : Worker W S F = record w { filter = filter }
    elim published [ true ↦ send w' d position | false ↦ finish w' d false ]

  unfoldable pub drain_list :
      List (Delivery F) → Worker W S F → Option (Worker W S F × Option DrainError)
  unfolding drain_one
  drain_list [] w = some (w, none)
  drain_list (d ∷ ds) w = do
    (w', e) ← drain_one w d
    elim e [ none ↦ drain_list ds w' | some e ↦ some (w', some e) ]

  unfoldable pub drain : Worker W S F → Option (Worker W S F × Result DrainError ℕ)
  unfolding drain_list pending_deliveries
  drain w = elim (pending_deliveries (query_fails w.world) (clock w.world) 50 w.db) [
    | err e ↦ some (w, err (list_error e))
    | ok ds ↦ (do
      (w', e) ← drain_list ds w
      elim e [ none ↦ some (w', ok (length ds)) | some e ↦ some (w', err e) ])
  ]
