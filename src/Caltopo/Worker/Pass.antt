-- ===== src/Caltopo/Worker/Pass.antt =====
-- A pass of the worker over the outbox, and the delay of a retry: `drain` of
-- internal/caltopo/worker.go.
use Prim.Native.Nat.{min}
use mesthastic_caltopo_bridg.Prelude.{
  ℕ, zero, suc, ◌+◌, ◌*◌, ◌^◌, ◌≤◌, ◌<◌, ◌≡◌, refl, Bool, true, false, Option, none, some, List, [],
  ◌∷◌, length, arith,
}
use mesthastic_caltopo_bridg.Go.Float.{Float64}
use mesthastic_caltopo_bridg.Go.Text.{Text}
use mesthastic_caltopo_bridg.Go.Time.{second, minute}
use mesthastic_caltopo_bridg.Go.Time.Parse.{◌>>=◌}
use mesthastic_caltopo_bridg.Model.{Position}
use mesthastic_caltopo_bridg.Store.Tables.{Db, Result, ok, err}
use mesthastic_caltopo_bridg.Store.Invariant.{WellFormed}
use mesthastic_caltopo_bridg.Store.Deliveries.{
  Delivery, QueryError, MarkError, pending_deliveries, mark_delivered, mark_failed,
}
use mesthastic_caltopo_bridg.Store.Deliveries.Settle.{mark-WellFormed}
use mesthastic_caltopo_bridg.Caltopo.Filter.{FilteredDelivery, lookup, complete}
use mesthastic_caltopo_bridg.Caltopo.Filter.Safety.{
  HasStates, prepare-HasStates, complete-HasStates,
}
use mesthastic_caltopo_bridg.Caltopo.Worker.{
  retry_delay, Outside, DrainError, list_error, mark_error, Worker, finish, postpone, send,
  drain_one, drain_list, drain,
}

two_pow : (k : ℕ) → k ≤ 8 → 2 ^ k ≤ 256
two_pow zero h = omega arith
two_pow (suc zero) h = omega arith
two_pow (suc (suc zero)) h = omega arith
two_pow (suc (suc (suc zero))) h = omega arith
two_pow (suc (suc (suc (suc zero)))) h = omega arith
two_pow (suc (suc (suc (suc (suc zero))))) h = omega arith
two_pow (suc (suc (suc (suc (suc (suc zero)))))) h = omega arith
two_pow (suc (suc (suc (suc (suc (suc (suc zero))))))) h = omega arith
two_pow (suc (suc (suc (suc (suc (suc (suc (suc zero)))))))) h = omega arith
two_pow (suc (suc (suc (suc (suc (suc (suc (suc (suc k))))))))) h = absurd (omega arith)

-- The delay in seconds is two to the power of the attempts, counted up to eight; so the eighth
-- attempt and all later ones wait 256 seconds, and the cap of five minutes is never reached.
pub retry_delay_lem :
    (attempts : ℕ)
    → (retry_delay attempts ≡ second * 2 ^ min attempts 8)
      × (retry_delay attempts < 5 * minute)
      × (retry_delay (8 + attempts) ≡ 256 * second)
unfolding retry_delay
retry_delay_lem attempts =
    let small = two_pow (min attempts 8) (omega arith) in
    let eight : min (8 + attempts) 8 ≡ 8 = omega arith in
    (omega (arith, small), omega (arith, small), rw eight)

-- The two things that a pass relies on.
pub record IsReady {W S F : Type 0} (w : Worker W S F) : Type 0 where
  pub states : HasStates w.filter
  pub tables : WellFormed w.db

module _ {W S F : Type 0} (float : Float64 F) (outside : Outside W F) where
  -- A step has returned, and leaves the worker ready.
  abbrev pub Goes : Option (Worker W S F × Option DrainError) → Type 0
  Goes o = (r : Worker W S F × Option DrainError) × (o ≡ some r) × IsReady r.0

  finish-Goes :
      (w : Worker W S F) (d : Delivery F) (p : FilteredDelivery F) (published : Bool)
      → IsReady w
      → lookup d.id w.filter.prepared ≡ some p
      → Goes (finish float outside w d published)
  unfolding finish
  finish-Goes w d p published ready seen =
      by_mark (mark_delivered (outside.mark_fails w.world) (outside.clock w.world) d.id w.db)
        (mark-WellFormed w.db (outside.mark_fails w.world) d.id (outside.clock w.world) 0 0 false []
          ready.tables).0
    where
      by_mark :
          (m : Db S F × Result MarkError (Unit {0}))
          → WellFormed m.0
          → Goes (elim m.1 as (λ _. Option (Worker W S F × Option DrainError)) [
            | err e ↦ some (record w { db = m.0 }, some (mark_error e))
            | ok _ ↦
                (complete float w.filter d.id published >>= λ filter.
                some (record w { db = m.0; filter = filter }, none))
          ])
      by_mark (db, err e) wf = (_, refl, record { states = ready.states; tables = wf })
      by_mark (db, ok u) wf =
          let c = complete-HasStates float w.filter d.id p published seen ready.states in
          ((record w { db = db; filter = c.0 }, none), rw c.1, record { states = c.2; tables = wf })

  postpone-Goes :
      (w : Worker W S F) (d : Delivery F) (error : Text)
      → IsReady w
      → Goes (postpone float outside w d error)
  unfolding postpone
  postpone-Goes w d error ready =
      by_mark
        (mark_failed (outside.mark_fails w.world) d.id (d.attempts + 1)
          (outside.clock w.world + retry_delay (d.attempts + 1)) false error w.db)
        (mark-WellFormed w.db (outside.mark_fails w.world) d.id 0
          (outside.clock w.world + retry_delay (d.attempts + 1)) (d.attempts + 1) false error
          ready.tables).1
    where
      by_mark :
          (m : Db S F × Result MarkError (Unit {0}))
          → WellFormed m.0
          → Goes (elim m.1 as (λ _. Option (Worker W S F × Option DrainError)) [
            | err e ↦ some (record w { db = m.0 }, some (mark_error e))
            | ok _ ↦ some (record w { db = m.0 }, none)
          ])
      by_mark (db, err e) wf = (_, refl, record { states = ready.states; tables = wf })
      by_mark (db, ok u) wf = (_, refl, record { states = ready.states; tables = wf })

  send-Goes :
      (w : Worker W S F) (d : Delivery F) (p : FilteredDelivery F) (position : Position F)
      → IsReady w
      → lookup d.id w.filter.prepared ≡ some p
      → Goes (send float outside w d position)
  unfolding send
  send-Goes w d p position ready seen = by_reply (outside.publish w.world position)
    where
      by_reply :
          (r : W × Option Text)
          → Goes (elim r.1 as (λ _. Option (Worker W S F × Option DrainError)) [
            | none ↦ finish float outside (record w { world = r.0 }) d true
            | some error ↦ postpone float outside (record w { world = r.0 }) d error
          ])
      by_reply (world, none) =
          finish-Goes (record w { world = world }) d p true
            (record { states = ready.states; tables = ready.tables }) seen
      by_reply (world, some error) =
          postpone-Goes (record w { world = world }) d error
            (record { states = ready.states; tables = ready.tables })

  pub drain_one-Goes :
      (w : Worker W S F) (d : Delivery F) → IsReady w → Goes (drain_one float outside w d)
  unfolding drain_one
  drain_one-Goes w d ready =
      let r = prepare-HasStates float w.filter d ready.states in
      rw r.3 (
        by_publish (record w { filter = r.0 }) r.1 r.2
          (record { states = r.4; tables = ready.tables }) r.5)
    where
      by_publish :
          (w' : Worker W S F) (position : Position F) (publish : Bool)
          → IsReady w'
          → lookup d.id w'.filter.prepared
            ≡ some (record { position = position; publish = publish })
          → Goes (elim publish as (λ _. Option (Worker W S F × Option DrainError)) [
            | true ↦ send float outside w' d position
            | false ↦ finish float outside w' d false
          ])
      by_publish w' position true ready' seen = send-Goes w' d _ position ready' seen
      by_publish w' position false ready' seen = finish-Goes w' d _ false ready' seen

  drain_list-Goes :
      (ds : List (Delivery F)) (w : Worker W S F) → IsReady w → Goes (drain_list float outside ds w)
  unfolding drain_list
  drain_list-Goes [] w ready = (_, refl, ready)
  drain_list-Goes (d ∷ ds) w ready =
      let r = drain_one-Goes w d ready in
      rw r.1 (by_error r.0.0 r.0.1 r.2 (drain_list-Goes ds r.0.0 r.2))
    where
      by_error :
          (w' : Worker W S F) (e : Option DrainError)
          → IsReady w'
          → Goes (drain_list float outside ds w')
          → Goes (elim e as (λ _. Option (Worker W S F × Option DrainError)) [
            | none ↦ drain_list float outside ds w'
            | some e ↦ some (w', some e)
          ])
      by_error w' none ready' rest = rest
      by_error w' (some e) ready' rest = ((w', some e), refl, ready')

  -- A pass over the outbox, from a filter that has a state for each position it prepared and from well
  -- formed tables, does not panic, whatever the publisher answers and whatever calls of the database
  -- fail; and it leaves the filter and the tables so again.
  pub drain-IsReady :
      (w : Worker W S F)
      → IsReady w
      → (r : Worker W S F × Result DrainError ℕ) × (drain float outside w ≡ some r) × IsReady r.0
  unfolding drain
  drain-IsReady w ready =
      by_list (pending_deliveries (outside.query_fails w.world) (outside.clock w.world) 50 w.db)
    where
      by_errors :
          (n : ℕ) (w' : Worker W S F) (e : Option DrainError)
          → IsReady w'
          → (r : Worker W S F × Result DrainError ℕ) × (elim e
                as (λ _. Option (Worker W S F × Result DrainError ℕ)) [
                  | none ↦ some (w', ok n)
                  | some e ↦ some (w', err e)
                ]
              ≡ some r)
            × IsReady r.0
      by_errors n w' none ready' = ((w', ok n), refl, ready')
      by_errors n w' (some e) ready' = ((w', err e), refl, ready')

      by_list :
          (q : Result QueryError (List (Delivery F)))
          → (r : Worker W S F × Result DrainError ℕ) × (elim q
                as (λ _. Option (Worker W S F × Result DrainError ℕ)) [
                  | err e ↦ some (w, err (list_error e))
                  | ok ds ↦
                      (drain_list float outside ds w >>= λ x. elim x.1 [
                        | none ↦ some (x.0, ok (length ds))
                        | some e ↦ some (x.0, err e)
                      ])
                ]
              ≡ some r)
            × IsReady r.0
      by_list (err e) = ((w, err (list_error e)), refl, ready)
      by_list (ok ds) =
          let r = drain_list-Goes ds w ready in rw r.1 (by_errors (length ds) r.0.0 r.0.1 r.2)
