-- ===== src/Go/Time/Order.antt =====
-- The order of the texts of times against the order of the times.
use mesthastic_caltopo_bridg.Prelude.{
  ℕ, ◌+◌, ◌*◌, ◌/◌, ◌%◌, ◌<◌, ◌≡◌, refl, ◌∙◌, true, [], ◌∷◌, ◌++◌, arith,
}
use mesthastic_caltopo_bridg.Go.Text.{Text, text_lt}
use mesthastic_caltopo_bridg.Go.Time.{
  second, format_date, format_clock, format_fraction, format_time,
}

pub text_lt-prefix : (p xs ys : Text) → text_lt (p ++ xs) (p ++ ys) ≡ text_lt xs ys
unfolding text_lt
text_lt-prefix [] xs ys = refl
text_lt-prefix (c ∷ p) xs ys = ground (arith, text_lt-prefix p xs ys)

-- What stands before the fraction.
abbrev up_to_seconds : ℕ → Text → Text
up_to_seconds s rest = format_date (s / 86400) ++ 0x54 ∷ format_clock (s % 86400) ++ rest

format_time-parts :
    (s n : ℕ)
    → n < second
    → format_time (s * second + n) ≡ up_to_seconds s (format_fraction n ++ 0x5a ∷ [])
unfolding format_time
format_time-parts s n h =
    let whole : (s * second + n) / second ≡ s = omega arith in
    let rest : (s * second + n) % second ≡ n = omega arith in rw (whole, rest) refl

up_to_seconds-lt :
    (s : ℕ) (xs ys : Text) → text_lt (up_to_seconds s xs) (up_to_seconds s ys) ≡ text_lt xs ys
unfolding text_lt format_date
up_to_seconds-lt s xs ys =
    text_lt-prefix (format_date (s / 86400)) (0x54 ∷ format_clock (s % 86400) ++ xs)
      (0x54 ∷ format_clock (s % 86400) ++ ys)
    ∙ text_lt-prefix (0x54 ∷ format_clock (s % 86400)) xs ys

fraction_first :
    (n : ℕ)
    → 0 < n
    → text_lt (format_fraction n ++ 0x5a ∷ []) (format_fraction 0 ++ 0x5a ∷ []) ≡ true
unfolding text_lt format_fraction
fraction_first n h = ground arith

-- The text of a time with a fraction of a second stands before the text of the whole second that
-- came before it: a point is smaller than the `Z`.
pub format_time-misorders :
    (s n : ℕ)
    → 0 < n
    → n < second
    → text_lt (format_time (s * second + n)) (format_time (s * second + 0)) ≡ true
format_time-misorders s n positive small =
    rw (format_time-parts s n small, format_time-parts s 0 (omega arith))
      (up_to_seconds-lt s (format_fraction n ++ 0x5a ∷ []) (format_fraction 0 ++ 0x5a ∷ [])
        ∙ fraction_first n positive)
