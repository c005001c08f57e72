-- ===== src/Caltopo/Worker/Loop/Passes.antt =====
-- The moves of the loop, with no other goroutine between them, and `drain`.
use mesthastic_caltopo_bridg.Prelude.{
  ℕ, zero, suc, ◌≡◌, refl, ap, subst, arith, Bool, true, false, Option, none, some, List, [], ◌∷◌,
  length,
}
use mesthastic_caltopo_bridg.Go.Float.{Env}
use mesthastic_caltopo_bridg.Go.Time.Parse.{◌>>=◌}
use mesthastic_caltopo_bridg.Store.Tables.{Result, ok, err}
use mesthastic_caltopo_bridg.Store.Deliveries.{Delivery, QueryError, pending_deliveries}
use mesthastic_caltopo_bridg.Caltopo.Worker.{
  Outside, DrainError, list_error, Worker, drain_one, drain_list, drain,
}
use mesthastic_caltopo_bridg.Caltopo.Worker.Loop.{
  Phase, selecting, listing, sending, Loop, after_all, after_one, list_due, lists, sends, ends,
  Move,
}

-- A move of the worker itself: not a call of `Wake`, a write of another goroutine or a change of the
-- world between two moves.
abbrev is_own :
    {W S F : Type 0} {env : Env F} {outside : Outside W F} {a b : Loop W S F}
    → Move env outside a b
    → Bool
is_own (lists p e) = true
is_own (sends d ds n r p o e) = true
is_own (ends n p e) = true
is_own _ = false

-- A sequence of moves of `drain`, and of the end of its loop, with nothing between them.
pub data Pass {W S F : Type 0} (env : Env F) (outside : Outside W F) (a : Loop W S F)
    : Loop W S F → Type 0 where
  unmoved : Pass env outside a a
  own :
      {b c : Loop W S F}
      → Pass env outside a b
      → (m : Move env outside b c) → is_own m ≡ true
      → Pass env outside a c

module _ {W S F : Type 0} (env : Env F) (outside : Outside W F) where
  Pass-append :
      {a b c : Loop W S F} → Pass env outside a b → Pass env outside b c → Pass env outside a c
  Pass-append t unmoved = t
  Pass-append t (own u m h) = own (Pass-append t u) m h

  abbrev pub at : Bool → Worker W S F → Phase F → Loop W S F
  at wake w phase = record { worker = w; wake = wake; phase = phase }

  -- Where `Run` goes after a result of `drain`: the inner loop ends at an error and where there was
  -- nothing to deliver.
  abbrev pub after_drain : Bool → Worker W S F × Result DrainError ℕ → Loop W S F
  after_drain wake (w, err e) = at wake w selecting
  after_drain wake (w, ok zero) = at wake w selecting
  after_drain wake (w, ok (suc n)) = at wake w listing

  after_all_lem :
      (wake : Bool) (w : Worker W S F) (n : ℕ)
      → after_drain wake (w, ok n) ≡ after_all (at wake w (sending [] n)) n
  unfolding after_all
  after_all_lem wake w zero = refl
  after_all_lem wake w (suc n) = ground arith

  abbrev result_of : ℕ → Worker W S F × Option DrainError → Worker W S F × Result DrainError ℕ
  result_of n (w, none) = (w, ok n)
  result_of n (w, some e) = (w, err e)

  to_result :
      (wake : Bool) (a : Loop W S F) (q r : Worker W S F × Result DrainError ℕ)
      → q ≡ r
      → Pass env outside a (after_drain wake q)
      → Pass env outside a (after_drain wake r)
  to_result wake a q r e t =
      subst (λ (x : Worker W S F × Result DrainError ℕ). Pass env outside a (after_drain wake x)) e
        t

  drain_list-Pass :
      (wake : Bool) (ds : List (Delivery F)) (n : ℕ) (w : Worker W S F)
      (p : Worker W S F × Option DrainError)
      → drain_list env.float outside ds w ≡ some p
      → Pass env outside (at wake w (sending ds n)) (after_drain wake (result_of n p))
  unfolding drain_list after_one
  drain_list-Pass wake [] n w p e =
      let same : (w, none) ≡ p = cc e in
      to_result wake (at wake w (sending [] n)) (w, ok n) (result_of n p) (ap (result_of n) same)
        (own unmoved (ends n refl (after_all_lem wake w n)) refl)
  drain_list-Pass wake (d ∷ ds) n w p e =
      by_one (drain_one env.float outside w d) refl e (drain_list-Pass wake ds n)
    where
      by_one :
          (o : Option (Worker W S F × Option DrainError))
          → drain_one env.float outside w d ≡ o
          → (let r : Option (Worker W S F × Option DrainError) =
                (o >>= λ x. elim x.1 [
                  | none ↦ drain_list env.float outside ds x.0
                  | some e ↦ some (x.0, some e)
                ]) in
              r)
            ≡ some p
          → ((w' : Worker W S F) (q : Worker W S F × Option DrainError)
              → drain_list env.float outside ds w' ≡ some q
              → Pass env outside (at wake w' (sending ds n)) (after_drain wake (result_of n q)))
          → Pass env outside (at wake w (sending (d ∷ ds) n)) (after_drain wake (result_of n p))
      by_one none one f rest = cc
      by_one (some (w', none)) one f rest =
          Pass-append (own unmoved (sends d ds n (w', none) refl one refl) refl) (rest w' p f)
      by_one (some (w', some x)) one f rest =
          let same : (w', some x) ≡ p = cc f in
          to_result wake (at wake w (sending (d ∷ ds) n)) (w', err x) (result_of n p)
            (ap (result_of n) same) (own unmoved (sends d ds n (w', some x) refl one refl) refl)

  -- What `drain` does is a sequence of moves of the worker alone: its query, and its deliveries in the order of the query.
  -- `Run` is then at its select if the result is an error or no delivery, and else, after one delivery
  -- or more, before the next query; what is left of the deliveries after an error is not sent.
  pub drain-Pass :
      (wake : Bool) (w : Worker W S F) (r : Worker W S F × Result DrainError ℕ)
      → drain env.float outside w ≡ some r
      → Pass env outside (at wake w listing) (after_drain wake r)
  unfolding drain list_due
  drain-Pass wake w r e =
      by_list (pending_deliveries (outside.query_fails w.world) (outside.clock w.world) 50 w.db)
        refl e
    where
      by_list :
          (q : Result QueryError (List (Delivery F)))
          → pending_deliveries (outside.query_fails w.world) (outside.clock w.world) 50 w.db ≡ q
          → elim q as (λ _. Option (Worker W S F × Result DrainError ℕ)) [
            | err e ↦ some (w, err (list_error e))
            | ok ds ↦
                (drain_list env.float outside ds w >>= λ x. elim x.1 [
                  | none ↦ some (x.0, ok (length ds))
                  | some e ↦ some (x.0, err e)
                ])
          ]
            ≡ some r
          → Pass env outside (at wake w listing) (after_drain wake r)
      by_list (err x) l f =
          let same : (w, err (list_error x)) ≡ r = cc f in
          to_result wake (at wake w listing) (w, err (list_error x)) r same
            (own unmoved (lists refl (rw (list_due, l))) refl)
      by_list (ok ds) l f = by_pass (drain_list env.float outside ds w) refl f
        where
          listed : Pass env outside (at wake w listing) (at wake w (sending ds (length ds)))
          listed = own unmoved (lists refl (rw (list_due, l))) refl

          by_pass :
              (o : Option (Worker W S F × Option DrainError))
              → drain_list env.float outside ds w ≡ o
              → (o >>= λ x. elim x.1 as (λ _. Option (Worker W S F × Result DrainError ℕ)) [
                | none ↦ some (x.0, ok (length ds))
                | some e ↦ some (x.0, err e)
              ])
                ≡ some r
              → Pass env outside (at wake w listing) (after_drain wake r)
          by_pass none p f = cc
          by_pass (some (w', none)) p f =
              let same : (w', ok (length ds)) ≡ r = cc f in
              let sent = drain_list-Pass wake ds (length ds) w (w', none) p in
              to_result wake (at wake w listing) (w', ok (length ds)) r same
                (Pass-append listed sent)
          by_pass (some (w', some x)) p f =
              let same : (w', err x) ≡ r = cc f in
              let sent = drain_list-Pass wake ds (length ds) w (w', some x) p in
              to_result wake (at wake w listing) (w', err x) r same (Pass-append listed sent)
