-- ===== src/Go/Time/Days.antt =====
-- The year, the month and the day of a day count.
use mesthastic_caltopo_bridg.Prelude.{
  ℕ, zero, suc, ◌+◌, ◌-◌, ◌≤◌, ◌<◌, ◌≡◌, refl, Bool, true, false, List, [], ◌∷◌, length, All, arith,
  ltb, if◌then◌else◌, Bool-cases, inl, inr,
}
use mesthastic_caltopo_bridg.Go.Time.{is_leap, year_day, month_lengths, month_day}
use mesthastic_caltopo_bridg.Go.Time.Parse.{month_start, days_before_year}

-- The parts of a day's year.
pub year_day_lem :
    (days : ℕ)
    → (0 < (year_day days).0)
      × (days_before_year ((year_day days).0 - 1) + (year_day days).1 ≡ days)
      × ((year_day days).1 < (if is_leap (year_day days).0 then 366 else 365))
unfolding year_day is_leap
year_day_lem days = ground arith

pub sum : List ℕ → ℕ
sum [] = 0
sum (l ∷ ls) = l + sum ls

pub month_day_lem :
    (ls : List ℕ) (m day : ℕ)
    → day < sum ls
    → (i : ℕ) × (month_day ls m day ≡ (m + i, day - (month_start ls (suc i)).0 + 1))
      × ((month_start ls (suc i)).0 ≤ day)
      × (day < (month_start ls (suc i)).0 + (month_start ls (suc i)).1)
unfolding sum month_day month_start
month_day_lem [] m day h = absurd (omega arith)
month_day_lem (l ∷ ls) m day h = elim (Bool-cases (ltb day l)) [
  | inl first ↦ (0, ground (arith, first), omega arith, ground (arith, first))
  | inr later ↦
      let (i, e, low, high) = month_day_lem ls (m + 1) (day - l) (ground (arith, later)) in
      (suc i, ground (arith, later, e), ground (arith, later), ground (arith, later))
]

pub months_sum : (leap : Bool) → sum (month_lengths leap) ≡ (if leap then 366 else 365)
unfolding sum
months_sum true = refl
months_sum false = refl

pub months-length : (leap : Bool) → length (month_lengths leap) ≡ 12
months-length true = refl
months-length false = refl

-- There are no more months than lengths.
pub month-lt : (ls : List ℕ) (i : ℕ) → 0 < (month_start ls (suc i)).1 → i < length ls
unfolding month_start
month-lt [] i h = absurd (omega arith)
month-lt (l ∷ ls) zero h = omega arith
month-lt (l ∷ ls) (suc i) h = omega (arith, month-lt ls i h)

pub month-le : (ls : List ℕ) (i : ℕ) → All (λ l. l ≤ 31) ls → (month_start ls i).1 ≤ 31
unfolding month_start
month-le [] i h = omega arith
month-le (l ∷ ls) zero h = omega arith
month-le (l ∷ ls) (suc zero) h = h.0
month-le (l ∷ ls) (suc (suc i)) h = month-le ls (suc i) h.1

pub months-le : (leap : Bool) → All (λ l. l ≤ 31) (month_lengths leap)
months-le true = omega arith
months-le false = omega arith
