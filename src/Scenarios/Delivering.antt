-- ===== src/Scenarios/Delivering.antt =====
-- The theorems on the outbox and on the worker, on the stored deliveries.
use Prim.Native.Nat.{min}
use mesthastic_caltopo_bridg.Prelude.{
  ℕ, ◌+◌, ◌*◌, ◌/◌, ◌^◌, ◌≤◌, ◌<◌, ◌≡◌, refl, ap, ◌&&◌, Bool, true, false, some, ◌==◌, arith, In,
  here, there,
}
use mesthastic_caltopo_bridg.Prelude.Int.{ℤ, pos}
use mesthastic_caltopo_bridg.Go.Text.{text, text_lt, text_eq}
use mesthastic_caltopo_bridg.Go.Time.{Time, IsDated, unix, second, minute, format_time}
use mesthastic_caltopo_bridg.Go.Time.Order.{format_time-misorders}
use mesthastic_caltopo_bridg.Store.Tables.{DeliveryRow, pending, Result, err}
use mesthastic_caltopo_bridg.Store.Deliveries.{
  Joined, join, due_rows, before, is_pending, not_found, mark_delivered, mark_failed,
}
use mesthastic_caltopo_bridg.Store.Deliveries.Order.{
  pending_row, HasCome, due_rows_sound, due_rows_one_per_node,
}
use mesthastic_caltopo_bridg.Store.Deliveries.Timely.{due_rows_timely, due_rows_move}
use mesthastic_caltopo_bridg.Store.Deliveries.Settle.{never, mark_missing}
use mesthastic_caltopo_bridg.Caltopo.Filter.{new_position_filter}
use mesthastic_caltopo_bridg.Caltopo.Filter.Safety.{new-HasStates}
use mesthastic_caltopo_bridg.Caltopo.Worker.{retry_delay, Outside, DrainError, Worker, drain}
use mesthastic_caltopo_bridg.Caltopo.Worker.Pass.{retry_delay_lem, IsReady, drain-IsReady}
use mesthastic_caltopo_bridg.Scenarios.{whole, position_of, delivery_of, stored, stored-WellFormed}

abbrev waiting : ℕ → Joined ℤ
waiting id = record { d = delivery_of id pending; p = position_of id 7 }

first_taken : In (waiting 1) (due_rows (unix 50) 10 stored)
unfolding due_rows text_lt text_eq format_time unix
first_taken = here refl

due_rows_sound_example :
    In (waiting 1) (join stored.deliveries stored.positions)
    × (true ≡ true)
    × HasCome (unix 50) (waiting 1)
    × ((e : Joined ℤ)
        → In e (join stored.deliveries stored.positions)
        → pending_row e ≡ true
        → e.p.source_node ≡ 7
        → before e (waiting 1) ≡ false)
due_rows_sound_example = due_rows_sound (unix 50) 10 stored (waiting 1) first_taken

due_rows_one_per_node_example : (waiting 1).d.id ≡ 1
due_rows_one_per_node_example =
    due_rows_one_per_node (unix 50) 10 stored (waiting 1) (waiting 1) first_taken first_taken refl

all_earlier :
    (a : Joined ℤ)
    → In a (join stored.deliveries stored.positions)
    → pending_row a ≡ true
    → (attempt : Time) × (a.d.next_attempt_at ≡ format_time attempt)
      × (attempt / second < unix 50 / second)
unfolding join unix
all_earlier a (here e) p = (unix 10, ap (λ (b : Joined ℤ). b.d.next_attempt_at) e, omega arith)
all_earlier a (there (here e)) p =
    (unix 20, ap (λ (b : Joined ℤ). b.d.next_attempt_at) e, omega arith)
all_earlier a (there (there (here e))) p =
    (unix 30, ap (λ (b : Joined ℤ). b.d.next_attempt_at) e, omega arith)
all_earlier a (there (there (there i))) p = elim i [ ]

second_waits : In (waiting 2) (join stored.deliveries stored.positions)
unfolding join
second_waits = there (here refl)

present : IsDated (unix 50)
unfolding unix
present = omega arith

first_sent : IsDated (unix 10)
unfolding unix
first_sent = omega arith

due_rows_timely_example :
    (unix 10 / second ≤ unix 50 / second) × (unix 10 / second ≤ unix 20 / second)
due_rows_timely_example =
    due_rows_timely (unix 50) 10 stored (waiting 1) (waiting 2) (unix 10) (unix 10) (unix 20)
      first_taken second_waits refl refl (refl, first_sent) (refl, first_sent) refl

due_rows_move_example : (j : Joined ℤ) × In j (due_rows (unix 50) 10 stored)
due_rows_move_example =
    due_rows_move (unix 50) 10 stored (waiting 2) present second_waits refl all_earlier
      (omega arith)

abbrev is_third : DeliveryRow → Bool
is_third e = e.id == 3 && is_pending e.state

no_third : (e : DeliveryRow) → In e stored.deliveries → (e.id == 3 && is_pending e.state) ≡ false
no_third e (here p) = ap is_third p
no_third e (there (here p)) = ap is_third p
no_third e (there (there (here p))) = ap is_third p
no_third e (there (there (there i))) = elim i [ ]

mark_missing_example :
    (mark_delivered never (unix 50) 3 stored ≡ (stored, err not_found))
    × (mark_failed never 3 1 (unix 52) true (text "down") stored ≡ (stored, err not_found))
mark_missing_example = mark_missing stored 3 (unix 50) (unix 52) 1 true (text "down") no_third

-- The world is the time; the publisher refuses every position.
abbrev pub refusing : Outside ℕ ℤ
refusing = record {
  publish = λ w p. (w + 1, some (text "down"));
  clock = λ w. unix w;
  query_fails = λ w e. false;
  mark_fails = λ w e. false;
}

abbrev pub worker : Worker ℕ ℕ ℤ
worker = record { db = stored; filter = new_position_filter (pos 5) (pos 600000000000); world = 50 }

drain-IsReady_example :
    (r : Worker ℕ ℕ ℤ × Result DrainError ℕ) × (drain whole refusing worker ≡ some r) × IsReady r.0
drain-IsReady_example =
    drain-IsReady whole refusing worker
      (record { states = new-HasStates (pos 5) (pos 600000000000); tables = stored-WellFormed })

retry_delay_lem_example :
    (retry_delay 3 ≡ second * 2 ^ min 3 8)
    × (retry_delay 3 < 5 * minute)
    × (retry_delay (8 + 3) ≡ 256 * second)
retry_delay_lem_example = retry_delay_lem 3

-- A second and a half against one second.
format_time-misorders_example :
    text_lt (format_time (1 * second + 500000000)) (format_time (1 * second + 0)) ≡ true
format_time-misorders_example = format_time-misorders 1 500000000 (omega arith) (omega arith)
