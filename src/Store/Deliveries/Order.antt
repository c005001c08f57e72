-- ===== src/Store/Deliveries/Order.antt =====
-- What `PendingDeliveries` selects, and in which order.
use mesthastic_caltopo_bridg.Prelude.{
  ℕ, zero, suc, ◌≤◌, ◌<◌, ◌≡◌, inl, inr, refl, sym, Bool, true, false, List, [], ◌∷◌, length, take,
  arith, In, here, length-take,
}
use mesthastic_caltopo_bridg.Go.Text.{
  text_lt, text_eq_iff, text_lt_irrefl, text_lt_trans, text_lt_total,
}
use mesthastic_caltopo_bridg.Go.Time.{Time, format_time}
use mesthastic_caltopo_bridg.Store.Sql.{rows_where, order_by}
use mesthastic_caltopo_bridg.Store.Sql.Laws.{
  exists_row-false, exists_row-none, In-rows_where, rows_where-In, take-In, Ordered, order_by-In,
  In-order_by, take-Ordered, order_by-Ordered, first_where,
}
use mesthastic_caltopo_bridg.Store.Tables.{Db}
use mesthastic_caltopo_bridg.Store.Deliveries.{
  Joined, is_pending, join, before, goes_first, is_due, due_rows,
}

module _ {F : Type 0} where
  pub before_trans : (a b c : Joined F) → before a b ≡ true → before b c ≡ true → before a c ≡ true
  unfolding before
  before_trans a b c h k = ground (
    arith,
    text_lt_trans a.p.source_time b.p.source_time c.p.source_time,
    text_eq_iff a.p.source_time b.p.source_time,
    text_eq_iff b.p.source_time c.p.source_time,
    text_eq_iff a.p.source_time c.p.source_time,
  )

  pub before_irrefl : (a : Joined F) → before a a ≡ false
  unfolding before
  before_irrefl a = ground (arith, text_lt_irrefl a.p.source_time)

  -- Two rows neither of which comes first have one key.
  pub before_total : (a b : Joined F) → before a b ≡ false → before b a ≡ false → a.d.id ≡ b.d.id
  unfolding before
  before_total a b h k = ground (
    arith,
    text_lt_total a.p.source_time b.p.source_time,
    text_eq_iff a.p.source_time b.p.source_time,
    text_eq_iff b.p.source_time a.p.source_time,
  )

  -- The pending rows of the join.
  abbrev pub pending_row : Joined F → Bool
  pending_row j = is_pending j.d.state

  -- The text of the next attempt is not greater than that of the time now.
  abbrev pub HasCome : Time → Joined F → Type 0
  HasCome now j = text_lt (format_time now) j.d.next_attempt_at ≡ false

  module _ {S : Type 0} (now : Time) (limit : ℕ) (db : Db S F) where
    abbrev pub table : List (Joined F)
    table = join db.deliveries db.positions

    due_rows-is_due :
        (j : Joined F)
        → In j (due_rows now limit db)
        → In j table × (is_due table (format_time now) j ≡ true)
    unfolding due_rows
    due_rows-is_due j i = rows_where-In (is_due table (format_time now)) table j (
        order_by-In before (rows_where (is_due table (format_time now)) table) j
          (take-In limit (order_by before (rows_where (is_due table (format_time now)) table)) j i))

    not_first :
        (j e : Joined F)
        → is_due table (format_time now) j ≡ true
        → In e table
        → pending_row e ≡ true
        → e.p.source_node ≡ j.p.source_node
        → before e j ≡ false
    unfolding is_due
    not_first j e due i pending same =
        unfold goes_first in
        ground (arith, exists_row-false (λ x. goes_first x j) table e (ground arith) i)

    -- Every row that `PendingDeliveries` takes is a pending row of the join, the text of whose next
    -- attempt is not greater than the text of the time now; and no pending row of the same node, also
    -- none that waits for another attempt, has a smaller text of the source time, nor the same text
    -- and a smaller key. The orders are those of the stored texts, which are not those of the times
    -- where one of them has a fraction of a second.
    pub due_rows_sound :
        (j : Joined F)
        → In j (due_rows now limit db)
        → In j table
          × (pending_row j ≡ true)
          × HasCome now j
          × ((e : Joined F)
              → In e table
              → pending_row e ≡ true
              → e.p.source_node ≡ j.p.source_node
              → before e j ≡ false)
    unfolding is_due
    due_rows_sound j i =
        let r = due_rows-is_due j i in
        (r.0, ground (arith, r.1), ground (arith, r.1), λ e k. not_first j e r.1 k)

    -- Two rows that it takes of one node are the same delivery.
    pub due_rows_one_per_node :
        (j k : Joined F)
        → In j (due_rows now limit db)
        → In k (due_rows now limit db)
        → j.p.source_node ≡ k.p.source_node
        → j.d.id ≡ k.d.id
    due_rows_one_per_node j k ij ik same =
        let rj = due_rows_sound j ij in
        let rk = due_rows_sound k ik in
        before_total j k (rk.3 j rj.0 rj.1 same) (rj.3 k rk.0 rk.1 (sym same))

    -- The rows are in the order of source time and key, and no more than the limit.
    pub due_rows-Ordered :
        Ordered before (due_rows now limit db) × (length (due_rows now limit db) ≤ limit)
    unfolding due_rows
    due_rows-Ordered =
        let rows = order_by before (rows_where (is_due table (format_time now)) table) in
        (
          take-Ordered before limit rows (
              order_by-Ordered before before_trans before_irrefl
                (rows_where (is_due table (format_time now)) table)),
          omega (arith, length-take limit rows),
        )

    some_taken :
        (n : ℕ) (rows : List (Joined F)) (m : Joined F)
        → 0 < n
        → In m rows
        → (j : Joined F) × In j (take n rows)
    some_taken zero rows m h i = absurd (omega arith)
    some_taken (suc n) [] m h i = elim i [ ]
    some_taken (suc n) (x ∷ xs) m h i = (x, here refl)

    first_is_due :
        (m : Joined F)
        → HasCome now m
        → (pending_row m ≡ true)
        → ((a : Joined F) → In a table → pending_row a ≡ true → before a m ≡ false)
        → is_due table (format_time now) m ≡ true
    unfolding is_due goes_first
    first_is_due m come p h =
        ground (arith, exists_row-none (λ e. goes_first e m) table (λ a i. ground (arith, h a i)))

    -- The queue does not stall: where a row is pending and no pending row has a text of the next
    -- attempt that is greater than the text of the time now, a limit above 0 takes some row. With a
    -- fraction of a second, such a text may be greater though the time has come.
    pub due_rows_progress :
        (waiting : Joined F)
        → In waiting table
        → pending_row waiting ≡ true
        → ((a : Joined F) → In a table → pending_row a ≡ true → HasCome now a)
        → 0 < limit
        → (j : Joined F) × In j (due_rows now limit db)
    unfolding due_rows
    due_rows_progress waiting i p come positive =
        elim (first_where before before_trans before_irrefl pending_row table) [
          | inl none ↦ absurd (ground (arith, none waiting i))
          | inr (m, f) ↦ some_taken limit _ m positive (
              In-order_by before _ m (
                In-rows_where (is_due table (format_time now)) table m f.0
                  (first_is_due m (come m f.0 f.1) f.1 f.2)))
        ]
