-- ===== src/Caltopo/Worker/Loop/Ready.antt =====
-- The loop of the worker does not panic, whatever other goroutines do between its moves.
use mesthastic_caltopo_bridg.Prelude.{
  ℕ, ◌≡◌, sym, subst, Option, none, some, List, ◌∷◌, ◌==◌, length, Bool-cases, inl, inr,
}
use mesthastic_caltopo_bridg.Go.Float.{Env}
use mesthastic_caltopo_bridg.Store.Tables.{Result, ok, err}
use mesthastic_caltopo_bridg.Store.Deliveries.{Delivery, QueryError, pending_deliveries}
use mesthastic_caltopo_bridg.Store.History.Formed.{Step-WellFormed}
use mesthastic_caltopo_bridg.Caltopo.Worker.{Outside, DrainError, Worker, drain_one}
use mesthastic_caltopo_bridg.Caltopo.Worker.Pass.{IsReady, drain_one-Goes}
use mesthastic_caltopo_bridg.Caltopo.Worker.Loop.{
  selecting, sending, Loop, wake_up, started, after_all, after_one, list_due, Move, wakes, writes,
  goes_on, ticks, takes, stops, lists, sends, ends, Trace, still, move,
}

module _ {W S F : Type 0} (env : Env F) (outside : Outside W F) where
  list_due-IsReady : (a : Loop W S F) → IsReady a.worker → IsReady (list_due env outside a).worker
  unfolding list_due
  list_due-IsReady a ready = by_list (
      pending_deliveries (outside.query_fails a.worker.world) (outside.clock a.worker.world) 50
        a.worker.db)
    where
      by_list :
          (q : Result QueryError (List (Delivery F)))
          → IsReady
              (let b : Loop W S F = elim q [
                | err e ↦ record a { phase = selecting }
                | ok ds ↦ record a { phase = sending ds (length ds) }
              ] in
                b).worker
      by_list (err e) = ready
      by_list (ok ds) = ready

  after_all-IsReady : (a : Loop W S F) (n : ℕ) → IsReady a.worker → IsReady (after_all a n).worker
  unfolding after_all
  after_all-IsReady a n ready = elim (Bool-cases (n == 0)) [
    | inl e ↦ rw e ready
    | inr e ↦ rw e ready
  ]

  after_one-IsReady :
      (a : Loop W S F) (ds : List (Delivery F)) (n : ℕ) (p : Worker W S F × Option DrainError)
      → IsReady p.0
      → IsReady (after_one a ds n p).worker
  unfolding after_one
  after_one-IsReady a ds n (w, none) ready = ready
  after_one-IsReady a ds n (w, some e) ready = ready

  drain_one-IsReady :
      (w : Worker W S F) (d : Delivery F) (p : Worker W S F × Option DrainError)
      → drain_one env.float outside w d ≡ some p
      → IsReady w
      → IsReady p.0
  drain_one-IsReady w d p e ready =
      let (r, run, ready') = drain_one-Goes env.float outside w d ready in
      let same : r ≡ p = cc (e, run) in
      subst (λ (x : Worker W S F × Option DrainError). IsReady x.0) same ready'

  along : {a b : Loop W S F} → b ≡ a → IsReady a.worker → IsReady b.worker
  along e ready = subst (λ (l : Loop W S F). IsReady l.worker) (sym e) ready

  Move-IsReady : {a b : Loop W S F} → Move env outside a b → IsReady a.worker → IsReady b.worker
  unfolding wake_up
  Move-IsReady (wakes e) ready = along e ready
  Move-IsReady (writes db s e) ready =
      along e (record { states = ready.states; tables = Step-WellFormed env s ready.tables })
  Move-IsReady (goes_on w e) ready =
      along e (record { states = ready.states; tables = ready.tables })
  Move-IsReady (ticks s e) ready = along e ready
  Move-IsReady (takes s f e) ready = along e ready
  Move-IsReady (stops s e) ready = along e ready
  Move-IsReady {a} (lists s e) ready = along e (list_due-IsReady a ready)
  Move-IsReady {a} (sends d ds n p s r e) ready =
      along e (after_one-IsReady a ds n p (drain_one-IsReady a.worker d p r ready))
  Move-IsReady {a} (ends n s e) ready = along e (after_all-IsReady a n ready)

  Trace-IsReady : {a b : Loop W S F} → Trace env outside a b → IsReady a.worker → IsReady b.worker
  Trace-IsReady still ready = ready
  Trace-IsReady (move t m) ready = Move-IsReady m (Trace-IsReady t ready)

  -- `Run`, started on a filter that has a state for each position it prepared and on well formed
  -- tables, keeps both so, and the handling of the next delivery of a pass returns: whatever other
  -- goroutines write to the database between its moves, whatever the publisher answers and whatever
  -- calls of the database fail.
  pub started-IsReady :
      (w : Worker W S F) (b : Loop W S F)
      → IsReady w
      → Trace env outside (started w) b
      → IsReady b.worker
        × ((d : Delivery F) (ds : List (Delivery F)) (n : ℕ)
            → b.phase ≡ sending (d ∷ ds) n
            → (p : Worker W S F × Option DrainError) × (drain_one env.float outside b.worker d
                ≡ some p))
  unfolding started
  started-IsReady w b ready t =
      let ready' = Trace-IsReady t ready in
      (
        ready',
        λ d ds n s.
            let (p, run, _) = drain_one-Goes env.float outside b.worker d ready' in (p, run),
      )
