-- ===== src/Go/Time/Dates.antt =====
-- The texts of days stand in the order of the days.
use mesthastic_caltopo_bridg.Prelude.{
  ℕ, suc, ◌+◌, ◌-◌, ◌/◌, ◌%◌, ◌≤◌, ◌<◌, ◌≡◌, refl, ◌⊎◌, inl, inr, true, false, List, [], ◌∷◌, ◌++◌,
  arith, Bool-cases, ltb, if◌then◌else◌,
}
use mesthastic_caltopo_bridg.Go.Text.{Text, text_lt}
use mesthastic_caltopo_bridg.Go.Time.{
  is_leap, year_day, month_lengths, month_day, pad2, pad4, digit, format_date,
}
use mesthastic_caltopo_bridg.Go.Time.Parse.{month_start, days_before_year}
use mesthastic_caltopo_bridg.Go.Time.Days.{
  year_day_lem, month_day_lem, months_sum, months-length, month-lt, month-le, months-le,
}

-- The first number is smaller, or it is the same and what follows is smaller.
abbrev pub Earlier : ℕ → ℕ → Type 0 → Type 0
Earlier a b rest = (a < b) ⊎ ((a ≡ b) × rest)

pub pad2-lt :
    (a b : ℕ) (xs ys : Text)
    → a < 100
    → b < 100
    → Earlier a b (text_lt xs ys ≡ true)
    → text_lt (pad2 a ++ xs) (pad2 b ++ ys) ≡ true
unfolding text_lt
pad2-lt a b xs ys ha hb (inl h) = ground arith
pad2-lt a b xs ys ha hb (inr (same, h)) = ground arith

pad4-split : (n : ℕ) (xs : Text) → pad4 n ++ xs ≡ pad2 (n / 100) ++ (pad2 (n % 100) ++ xs)
pad4-split n xs =
    let first : digit (n / 1000) ≡ digit (n / 100 / 10) = omega arith in
    let third : digit (n / 10) ≡ digit (n % 100 / 10) = omega arith in
    let fourth : digit n ≡ digit (n % 100) = omega arith in rw (first, third, fourth) refl

pad4-lt :
    (a b : ℕ) (xs ys : Text)
    → a < 10000
    → b < 10000
    → Earlier a b (text_lt xs ys ≡ true)
    → text_lt (pad4 a ++ xs) (pad4 b ++ ys) ≡ true
pad4-lt a b xs ys ha hb h =
    rw (pad4-split a xs, pad4-split b ys)
      (pad2-lt (a / 100) (b / 100) (pad2 (a % 100) ++ xs) (pad2 (b % 100) ++ ys) (omega arith)
        (omega arith) (by_rest h))
  where
    by_rest :
        Earlier a b (text_lt xs ys ≡ true)
        → Earlier (a / 100) (b / 100) (text_lt (pad2 (a % 100) ++ xs) (pad2 (b % 100) ++ ys) ≡ true)
    by_rest (inr (same, h)) = inr (
      omega arith,
      pad2-lt (a % 100) (b % 100) xs ys (omega arith) (omega arith) (inr (omega arith, h)),
    )
    by_rest (inl h) = elim (Bool-cases (ltb (a / 100) (b / 100))) [
      | inl less ↦ inl (ground arith)
      | inr same ↦
          let top : a / 100 ≡ b / 100 = ground arith in
          inr
            (top, pad2-lt (a % 100) (b % 100) xs ys (omega arith) (omega arith) (inl (omega arith)))
    ]

month_day-le : (ls : List ℕ) (m day : ℕ) → m ≤ (month_day ls m day).0
unfolding month_day
month_day-le [] m day = omega arith
month_day-le (l ∷ ls) m day = ground (arith, month_day-le ls (m + 1) (day - l))

-- A later day of the year has a later month, or the same month and a later day.
month_day-Earlier :
    (ls : List ℕ) (m a b : ℕ)
    → a < b
    → Earlier
        (month_day ls m a).0
        (month_day ls m b).0
        ((month_day ls m a).1 < (month_day ls m b).1)
unfolding month_day
month_day-Earlier [] m a b h = inr (refl, omega arith)
month_day-Earlier (l ∷ ls) m a b h = elim (Bool-cases (ltb a l)) [
  | inl first ↦ elim (Bool-cases (ltb b l)) [
    | inl both ↦ rw (first, both) (inr (refl, omega arith))
    | inr later ↦ rw (first, later) (inl (omega (arith, month_day-le ls (m + 1) (b - l))))
  ]
  | inr later ↦
      let also : ltb b l ≡ false = ground arith in
      rw (later, also) (month_day-Earlier ls (m + 1) (a - l) (b - l) (ground arith))
]

days_before_year_mono : (y z : ℕ) → y ≤ z → days_before_year y ≤ days_before_year z
days_before_year_mono y z h = omega arith

days_of_year :
    (y : ℕ)
    → 0 < y
    → days_before_year (y - 1) + (if is_leap y then 366 else 365) ≡ days_before_year y
unfolding is_leap
days_of_year y h = ground arith

year-Earlier :
    (y z i j : ℕ)
    → 0 < z
    → days_before_year (y - 1) + i < days_before_year (z - 1) + j
    → j < (if is_leap z then 366 else 365)
    → Earlier y z (i < j)
year-Earlier y z i j positive h small = elim (Bool-cases (ltb y z)) [
  | inl before ↦ inl (ground arith)
  | inr other ↦ elim (Bool-cases (ltb z y)) [
    | inl behind ↦
        let whole = days_of_year z positive in
        let mono = days_before_year_mono z (y - 1) (ground arith) in absurd (omega arith)
    | inr neither ↦ let same : y ≡ z = ground arith in inr (same, ground arith)
  ]
]

-- A later day has a later year, or the same year and a later day of it.
year_day-Earlier :
    (a b : ℕ) → a < b → Earlier (year_day a).0 (year_day b).0 ((year_day a).1 < (year_day b).1)
year_day-Earlier a b h =
    let (pa, wa, sa) = year_day_lem a in
    let (pb, wb, sb) = year_day_lem b in
    year-Earlier (year_day a).0 (year_day b).0 (year_day a).1 (year_day b).1 pb (omega arith) sb

-- The bounds of a date, which have the text of fixed width.
date_bounds :
    (days : ℕ)
    → days < 3652059
    → let y = (year_day days).0 in
      let md = month_day (month_lengths (is_leap y)) 1 (year_day days).1 in
      (y < 10000) × (md.0 < 100) × (md.1 < 100)
date_bounds days h =
    let y = (year_day days).0 in
    let yday = (year_day days).1 in
    let (positive, whole, small) = year_day_lem days in
    let ls = month_lengths (is_leap y) in
    let (i, e, low, high) = month_day_lem ls 1 yday (omega (arith, months_sum (is_leap y))) in
    let m = month_start ls (suc i) in
    let twelve : i < 12 = omega (arith, month-lt ls i (omega arith), months-length (is_leap y)) in
    let short = month-le ls (suc i) (months-le (is_leap y)) in
    rw e (omega arith, omega arith, omega arith)

pub Earlier-map : {R R' : Type 0} {a b : ℕ} → (R → R') → Earlier a b R → Earlier a b R'
Earlier-map f (inl h) = inl h
Earlier-map f (inr (same, r)) = inr (same, f r)

pub cons-lt : (c : ℕ) (xs ys : Text) → text_lt xs ys ≡ true → text_lt (c ∷ xs) (c ∷ ys) ≡ true
unfolding text_lt
cons-lt c xs ys h = ground arith

date_text : ℕ → ℕ × ℕ → Text
date_text y m = pad4 y ++ 0x2d ∷ pad2 m.0 ++ 0x2d ∷ pad2 m.1

date_text-lt :
    (y z : ℕ) (m n : ℕ × ℕ) (xs ys : Text)
    → (y < 10000) × (m.0 < 100) × (m.1 < 100)
    → (z < 10000) × (n.0 < 100) × (n.1 < 100)
    → Earlier y z (Earlier m.0 n.0 (Earlier m.1 n.1 (text_lt xs ys ≡ true)))
    → text_lt (date_text y m ++ xs) (date_text z n ++ ys) ≡ true
unfolding date_text
date_text-lt y z m n xs ys hm hn h = pad4-lt y z _ _ hm.0 hn.0 (Earlier-map by_month h)
  where
    by_day :
        Earlier m.1 n.1 (text_lt xs ys ≡ true)
        → text_lt (0x2d ∷ pad2 m.1 ++ xs) (0x2d ∷ pad2 n.1 ++ ys) ≡ true
    by_day h = cons-lt 0x2d _ _ (pad2-lt m.1 n.1 xs ys hm.2 hn.2 h)

    by_month :
        Earlier m.0 n.0 (Earlier m.1 n.1 (text_lt xs ys ≡ true))
        → text_lt
            (0x2d ∷ pad2 m.0 ++ 0x2d ∷ pad2 m.1 ++ xs)
            (0x2d ∷ pad2 n.0 ++ 0x2d ∷ pad2 n.1 ++ ys)
          ≡ true
    by_month h = cons-lt 0x2d _ _ (pad2-lt m.0 n.0 _ _ hm.1 hn.1 (Earlier-map by_day h))

format_date-date_text :
    (days : ℕ)
    → format_date days
      ≡ date_text
          (year_day days).0
          (month_day (month_lengths (is_leap (year_day days).0)) 1 (year_day days).1)
unfolding format_date date_text year_day month_day is_leap
format_date-date_text days = refl

pub format_date-lt :
    (a b : ℕ) (xs ys : Text)
    → a < b
    → b < 3652059
    → text_lt (format_date a ++ xs) (format_date b ++ ys) ≡ true
format_date-lt a b xs ys h hb =
    rw (format_date-date_text a, format_date-date_text b)
      (date_text-lt (year_day a).0 (year_day b).0 _ _ xs ys (date_bounds a (omega arith))
        (date_bounds b hb) (by_year (year_day-Earlier a b h)))
  where
    by_year :
        Earlier (year_day a).0 (year_day b).0 ((year_day a).1 < (year_day b).1)
        → Earlier (year_day a).0 (year_day b).0 (
            Earlier
              (month_day (month_lengths (is_leap (year_day a).0)) 1 (year_day a).1).0
              (month_day (month_lengths (is_leap (year_day b).0)) 1 (year_day b).1).0
              (Earlier
                (month_day (month_lengths (is_leap (year_day a).0)) 1 (year_day a).1).1
                (month_day (month_lengths (is_leap (year_day b).0)) 1 (year_day b).1).1
                (text_lt xs ys ≡ true)))
    by_year (inl less) = inl less
    by_year (inr (same, less)) = inr (
      same,
      rw same (
          Earlier-map inl (
            month_day-Earlier (month_lengths (is_leap (year_day b).0)) 1 (year_day a).1
              (year_day b).1 less)),
    )
