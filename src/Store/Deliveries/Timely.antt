-- ===== src/Store/Deliveries/Timely.antt =====
-- `PendingDeliveries` by the times that the stored texts stand for: seconds are kept apart.
use mesthastic_caltopo_bridg.Prelude.{
  ℕ, ◌/◌, ◌≤◌, ◌<◌, ◌≡◌, sym, subst, true, false, arith, In, inl, inr, Bool-cases, ltb,
}
use mesthastic_caltopo_bridg.Go.Text.{text_lt, text_lt_irrefl, text_lt_trans}
use mesthastic_caltopo_bridg.Go.Time.{Time, IsDated, second, format_time}
use mesthastic_caltopo_bridg.Go.Time.Seconds.{format_time-orders}
use mesthastic_caltopo_bridg.Store.Tables.{Db}
use mesthastic_caltopo_bridg.Store.Deliveries.{Joined, join, before, due_rows}
use mesthastic_caltopo_bridg.Store.Deliveries.Order.{
  pending_row, HasCome, due_rows_sound, due_rows_progress,
}

-- What the order of the texts says of the times.
pub not_later :
    (t u : Time)
    → IsDated t
    → text_lt (format_time u) (format_time t) ≡ false
    → t / second ≤ u / second
not_later t u dated h = elim (Bool-cases (ltb (u / second) (t / second))) [
  | inl later ↦ absurd (ground (arith, format_time-orders u t (ground arith) dated))
  | inr other ↦ ground arith
]

earlier_second :
    (t u : Time)
    → IsDated u
    → t / second < u / second
    → text_lt (format_time u) (format_time t) ≡ false
earlier_second t u dated h = elim (Bool-cases (text_lt (format_time u) (format_time t))) [
  | inl back ↦
      let forth = format_time-orders t u h dated in
      absurd (
        ground (
          arith,
          text_lt_trans (format_time t) (format_time u) (format_time t) forth back,
          text_lt_irrefl (format_time t),
        ))
  | inr other ↦ other
]

module _ {S F : Type 0} (now : Time) (limit : ℕ) (db : Db S F) where
  -- For times before the year 10000: the next attempt of a row that `PendingDeliveries` takes lies in
  -- no later second than the time now, and no pending row of the same node was sent in an earlier
  -- second than the row taken. So the deliveries of a node, also those that wait for another attempt,
  -- are not overtaken by one that was sent in a later second.
  pub due_rows_timely :
      (j e : Joined F) (attempt sent other : Time)
      → In j (due_rows now limit db)
      → In e (join db.deliveries db.positions)
      → pending_row e ≡ true
      → e.p.source_node ≡ j.p.source_node
      → (j.d.next_attempt_at ≡ format_time attempt) × IsDated attempt
      → (j.p.source_time ≡ format_time sent) × IsDated sent
      → e.p.source_time ≡ format_time other
      → (attempt / second ≤ now / second) × (sent / second ≤ other / second)
  unfolding before
  due_rows_timely j e attempt sent other i k pending same (due, dated) (own, dated') others =
      let (joined, waiting, come, first) = due_rows_sound now limit db j i in
      let not_before : before e j ≡ false = first e k pending same in
      let behind : text_lt e.p.source_time j.p.source_time ≡ false = ground arith in
      (
        not_later attempt now dated (subst (λ t. text_lt (format_time now) t ≡ false) due come),
        not_later sent other dated' (cc (behind, own, others)),
      )

  -- The queue does not stall: where a row is pending and the next attempt of every pending row lies
  -- in an earlier second than the time now, which is before the year 10000, a limit above 0 takes
  -- some row.
  pub due_rows_move :
      (waiting : Joined F)
      → IsDated now
      → In waiting (join db.deliveries db.positions)
      → pending_row waiting ≡ true
      → ((a : Joined F)
          → In a (join db.deliveries db.positions)
          → pending_row a ≡ true
          → (attempt : Time) × (a.d.next_attempt_at ≡ format_time attempt)
            × (attempt / second < now / second))
      → 0 < limit
      → (j : Joined F) × In j (due_rows now limit db)
  due_rows_move waiting dated i pending earlier positive =
      due_rows_progress now limit db waiting i pending come positive
    where
      come :
          (a : Joined F)
          → In a (join db.deliveries db.positions)
          → pending_row a ≡ true
          → HasCome now a
      come a k p =
          let (attempt, same, less) = earlier a k p in
          subst (λ t. text_lt (format_time now) t ≡ false) (sym same)
            (earlier_second attempt now dated less)
