-- ===== src/Go/Time/RoundTrip.antt =====
-- `parseTime` of internal/store/store.go reads what `formatTime` writes.
use mesthastic_caltopo_bridg.Prelude.{
  ℕ, suc, ◌+◌, ◌-◌, ◌*◌, ◌/◌, ◌%◌, ◌≤◌, ◌<◌, ◌≡◌, refl, ap, ◌∙◌, some, [], ◌∷◌, ◌++◌, arith,
}
use mesthastic_caltopo_bridg.Go.Text.{Text}
use mesthastic_caltopo_bridg.Go.Time.{
  Time, second, is_leap, year_day, month_lengths, month_day, pad2, pad4, fraction, format_date,
  format_clock, format_fraction, format_time,
}
use mesthastic_caltopo_bridg.Go.Time.Parse.{
  ◌>>=◌, expect, nanos_value, month_start, days_before_year, time_of_parts, parse_time,
}
use mesthastic_caltopo_bridg.Go.Time.Days.{
  year_day_lem, month_day_lem, months_sum, months-length, month-lt, month-le, months-le,
}
use mesthastic_caltopo_bridg.Go.Time.Digits.{number-pad2, number-pad4, nanos_value_lem}

-- The parts that `Parse` reads.
parse_time-parts :
    (y mo d h mi s : ℕ) (rest : Text)
    → y < 10000
    → (mo < 100) × (d < 100) × (h < 100) × (mi < 100) × (s < 100)
    → parse_time (
        pad4 y
        ++ 0x2d ∷ pad2 mo
        ++ 0x2d ∷ pad2 d
        ++ 0x54 ∷ pad2 h
        ++ 0x3a ∷ pad2 mi
        ++ 0x3a ∷ pad2 s
        ++ rest)
      ≡ (nanos_value rest >>= time_of_parts y mo d h mi s)
unfolding parse_time expect
parse_time-parts y mo d h mi s rest hy b =
    rw
      (
        number-pad4 y
            (0x2d ∷ pad2 mo
              ++ 0x2d ∷ pad2 d
              ++ 0x54 ∷ pad2 h
              ++ 0x3a ∷ pad2 mi
              ++ 0x3a ∷ pad2 s
              ++ rest)
            hy,
        number-pad2 mo (0x2d ∷ pad2 d ++ 0x54 ∷ pad2 h ++ 0x3a ∷ pad2 mi ++ 0x3a ∷ pad2 s ++ rest)
            b.0,
        number-pad2 d (0x54 ∷ pad2 h ++ 0x3a ∷ pad2 mi ++ 0x3a ∷ pad2 s ++ rest) b.1,
        number-pad2 h (0x3a ∷ pad2 mi ++ 0x3a ∷ pad2 s ++ rest) b.2,
        number-pad2 mi (0x3a ∷ pad2 s ++ rest) b.3,
        number-pad2 s rest b.4,
      )
      refl

time_of_parts_lem :
    (y i yday s nanos : ℕ) (m : ℕ × ℕ)
    → month_start (month_lengths (is_leap y)) (suc i) ≡ m
    → 0 < y
    → (m.0 ≤ yday) × (yday < m.0 + m.1)
    → s < 86400
    → time_of_parts y (suc i) (yday - m.0 + 1) (s / 3600) (s / 60 % 60) (s % 60) nanos
      ≡ some (((days_before_year (y - 1) + yday) * 86400 + s) * second + nanos)
unfolding time_of_parts
time_of_parts_lem y i yday s nanos (before, len) e positive day clock = rw e (ground arith)

-- The text of a day and a clock.
date_text : ℕ → ℕ × ℕ → ℕ → Text → Text
date_text y m clock rest =
    pad4 y
    ++ 0x2d ∷ pad2 m.0
    ++ 0x2d ∷ pad2 m.1
    ++ 0x54 ∷ pad2 (clock / 3600)
    ++ 0x3a ∷ pad2 (clock / 60 % 60)
    ++ 0x3a ∷ pad2 (clock % 60)
    ++ rest

format_time-date_text :
    (t : Time)
    → format_time t
      ≡ date_text
          (year_day (t / second / 86400)).0
          (month_day
            (month_lengths (is_leap (year_day (t / second / 86400)).0))
            1
            (year_day (t / second / 86400)).1)
          (t / second % 86400)
          (format_fraction (t % second) ++ 0x5a ∷ [])
unfolding format_time format_date format_clock date_text year_day month_day is_leap format_fraction
    fraction
format_time-date_text t = refl

year_bound : (y days : ℕ) → days_before_year (y - 1) ≤ days → days < 3652059 → y < 10000
year_bound y days h k = omega arith

parse_time-date_text :
    (y yday i clock n : ℕ) (m : ℕ × ℕ)
    → month_start (month_lengths (is_leap y)) (suc i) ≡ m
    → (0 < y) × (y < 10000)
    → i < 12
    → (m.0 ≤ yday) × (yday < m.0 + m.1) × (m.1 ≤ 31)
    → (clock < 86400) × (n < second)
    → parse_time (date_text y (suc i, yday - m.0 + 1) clock (format_fraction n ++ 0x5a ∷ []))
      ≡ some (((days_before_year (y - 1) + yday) * 86400 + clock) * second + n)
unfolding date_text
parse_time-date_text y yday i clock n m e year twelve day rest =
    parse_time-parts y (suc i) (yday - m.0 + 1) (clock / 3600) (clock / 60 % 60) (clock % 60)
      (format_fraction n ++ 0x5a ∷ []) year.1
      (omega arith, omega arith, omega arith, omega arith, omega arith)
    ∙ rw (nanos_value_lem n rest.1)
        (time_of_parts_lem y i yday clock n m e year.0 (day.0, day.1) rest.0)

-- The stored text of a time before the year 10000 gives that time back.
pub parse_time-format_time :
    (t : Time) → t < 3652059 * 86400 * second → parse_time (format_time t) ≡ some t
parse_time-format_time t h =
    let days = t / second / 86400 in
    let clock = t / second % 86400 in
    let y = (year_day days).0 in
    let yday = (year_day days).1 in
    let (positive, whole, small) = year_day_lem days in
    let ls = month_lengths (is_leap y) in
    let (i, e, low, high) = month_day_lem ls 1 yday (omega (arith, months_sum (is_leap y))) in
    let m = month_start ls (suc i) in
    let twelve : i < 12 = omega (arith, month-lt ls i (omega arith), months-length (is_leap y)) in
    let date : month_day ls 1 yday ≡ (suc i, yday - m.0 + 1) =
      e ∙ ap (λ k. (k, yday - m.0 + 1)) (omega arith) in
    rw (format_time-date_text t, date)
      (parse_time-date_text y yday i clock (t % second) m refl
          (positive, year_bound y days (omega arith) (omega arith)) twelve
          (low, high, month-le ls (suc i) (months-le (is_leap y))) (omega arith, omega arith)
        ∙ ap some (omega (arith, whole)))
