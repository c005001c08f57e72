-- ===== src/Go/Time/Seconds.antt =====
-- The texts of times in different seconds stand in the order of the times.
use mesthastic_caltopo_bridg.Prelude.{
  ℕ, ◌*◌, ◌/◌, ◌%◌, ◌≤◌, ◌<◌, ◌≡◌, refl, ◌∙◌, inl, inr, true, false, [], ◌∷◌, ◌++◌, arith, Bool,
  ltb,
}
use mesthastic_caltopo_bridg.Go.Text.{Text, text_lt}
use mesthastic_caltopo_bridg.Go.Time.{
  Time, second, pad2, format_date, format_clock, format_fraction, format_time,
}
use mesthastic_caltopo_bridg.Go.Time.Order.{text_lt-prefix}
use mesthastic_caltopo_bridg.Go.Time.Dates.{Earlier, pad2-lt, Earlier-map, cons-lt, format_date-lt}

format_clock-lt :
    (a b : ℕ) (xs ys : Text)
    → a < b
    → b < 86400
    → text_lt (format_clock a ++ xs) (format_clock b ++ ys) ≡ true
unfolding format_clock
format_clock-lt a b xs ys h hb =
    pad2-lt (a / 3600) (b / 3600) _ _ (omega arith) (omega arith)
      (by_hour (ltb (a / 3600) (b / 3600)) refl)
  where
    by_second :
        a % 60 < b % 60 → text_lt (0x3a ∷ pad2 (a % 60) ++ xs) (0x3a ∷ pad2 (b % 60) ++ ys) ≡ true
    by_second less =
        cons-lt 0x3a _ _ (pad2-lt (a % 60) (b % 60) xs ys (omega arith) (omega arith) (inl less))

    by_minute :
        Earlier (a / 60 % 60) (b / 60 % 60) (a % 60 < b % 60)
        → text_lt
            (0x3a ∷ pad2 (a / 60 % 60) ++ 0x3a ∷ pad2 (a % 60) ++ xs)
            (0x3a ∷ pad2 (b / 60 % 60) ++ 0x3a ∷ pad2 (b % 60) ++ ys)
          ≡ true
    by_minute m = cons-lt 0x3a _ _ (
        pad2-lt (a / 60 % 60) (b / 60 % 60) _ _ (omega arith) (omega arith)
          (Earlier-map by_second m))

    minutes :
        a / 3600 ≡ b / 3600
        → (c : Bool) → ltb (a / 60 % 60) (b / 60 % 60) ≡ c
        → Earlier (a / 60 % 60) (b / 60 % 60) (a % 60 < b % 60)
    minutes same true e = inl (ground arith)
    minutes same false e =
        let no_less : b / 60 % 60 ≤ a / 60 % 60 = ground arith in inr (omega arith, omega arith)

    by_hour :
        (c : Bool)
        → ltb (a / 3600) (b / 3600) ≡ c
        → Earlier (a / 3600) (b / 3600) (
            text_lt
              (0x3a ∷ pad2 (a / 60 % 60) ++ 0x3a ∷ pad2 (a % 60) ++ xs)
              (0x3a ∷ pad2 (b / 60 % 60) ++ 0x3a ∷ pad2 (b % 60) ++ ys)
            ≡ true)
    by_hour true e = inl (ground arith)
    by_hour false e =
        let no_less : b / 3600 ≤ a / 3600 = ground arith in
        let same : a / 3600 ≡ b / 3600 = omega arith in
        inr (same, by_minute (minutes same (ltb (a / 60 % 60) (b / 60 % 60)) refl))

-- The text of a time stands before the text of a time of a later second, before the year 10000.
pub format_time-orders :
    (t u : Time)
    → t / second < u / second
    → u < 3652059 * 86400 * second
    → text_lt (format_time t) (format_time u) ≡ true
unfolding format_time
format_time-orders t u h hu = by_day (ltb (t / second / 86400) (u / second / 86400)) refl
  where
    tail : Time → Text
    tail v = format_fraction (v % second) ++ 0x5a ∷ []

    clock : Time → Text
    clock v = 0x54 ∷ format_clock (v / second % 86400) ++ tail v

    by_day :
        (c : Bool)
        → ltb (t / second / 86400) (u / second / 86400) ≡ c
        → text_lt
            (format_date (t / second / 86400) ++ clock t)
            (format_date (u / second / 86400) ++ clock u)
          ≡ true
    by_day true e =
        format_date-lt (t / second / 86400) (u / second / 86400) (clock t) (clock u) (ground arith)
          (omega arith)
    by_day false e =
        let no_less : u / second / 86400 ≤ t / second / 86400 = ground arith in
        let same : t / second / 86400 ≡ u / second / 86400 = omega arith in
        rw same (
          text_lt-prefix (format_date (u / second / 86400)) (clock t) (clock u)
          ∙ cons-lt 0x54 _ _ (
              format_clock-lt (t / second % 86400) (u / second % 86400) (tail t) (tail u)
                (omega arith) (omega arith)))
