-- ===== src/Go/Time/Parse.antt =====
-- `time.Parse(time.RFC3339Nano, value)` on the texts in UTC, which end in `Z`: the only ones that
-- the store writes.
use mesthastic_caltopo_bridg.Prelude.{
  ℕ, zero, suc, ◌+◌, ◌-◌, ◌*◌, ◌/◌, ◌^◌, ◌&&◌, Option, none, some, List, [], ◌∷◌, ltb, leb, ◌==◌,
  if◌then◌else◌,
}
use mesthastic_caltopo_bridg.Go.Text.{Text}
use mesthastic_caltopo_bridg.Go.Time.{Time, second, is_leap, month_lengths}

infixl 5 ◌>>=◌
abbrev pub ◌>>=◌ {ℓ κ} : {A : Type ℓ} {B : Type κ} → Option A → (A → Option B) → Option B
none >>= f = none
some a >>= f = f a

-- A number of exactly `k` digits behind what is read, and the rest of the text.
unfoldable pub number : ℕ → ℕ → Text → Option (ℕ × Text)
number zero n xs = some (n, xs)
number (suc k) n [] = none
number (suc k) n (c ∷ cs) =
    let rest = number k (n * 10 + (c - 48)) cs in if leb 48 c && leb c 57 then rest else none

-- One byte that must be there.
unfoldable pub expect : ℕ → Text → Option Text
expect b [] = none
expect b (c ∷ cs) = if c == b then some cs else none

-- The digits of a fraction with `k` places still to fill, up to the `Z` that ends the text.
unfoldable pub fraction_value : ℕ → ℕ → Text → Option ℕ
fraction_value k n [] = none
fraction_value zero n (c ∷ cs) = if c == 0x5a then some n else none
fraction_value (suc k) n (c ∷ cs) =
    let more = fraction_value k (n + (c - 48) * 10 ^ k) cs in
    if leb 48 c && leb c 57 then more else if c == 0x5a then some n else none

-- What stands behind the seconds: nothing, or a point and the fraction; then the `Z`.
unfoldable pub nanos_value : Text → Option ℕ
unfolding fraction_value
nanos_value [] = none
nanos_value (c ∷ cs) = if c == 0x2e then fraction_value 9 0 cs else fraction_value 0 0 (c ∷ cs)

-- The days of the whole months before a month, and that month's length; 0 where there is no month.
unfoldable pub month_start : List ℕ → ℕ → ℕ × ℕ
month_start [] month = (0, 0)
month_start (l ∷ ls) zero = (0, 0)
month_start (l ∷ ls) (suc zero) = (0, l)
month_start (l ∷ ls) (suc (suc m)) =
    let (before, length) = month_start ls (suc m) in (l + before, length)

-- The days before the year with this many years before it.
abbrev pub days_before_year : ℕ → ℕ
days_before_year y = 365 * y + y / 4 - y / 100 + y / 400

-- The parts of a date and a clock as a time, if they are in range.
unfoldable pub time_of_parts : ℕ → ℕ → ℕ → ℕ → ℕ → ℕ → ℕ → Option Time
time_of_parts y mo d h mi s nanos =
    let (before, length) = month_start (month_lengths (is_leap y)) mo in
    if leb 1 y && (leb 1 d && leb d length) && (ltb h 24 && (ltb mi 60 && ltb s 60))
    then some (
        (((days_before_year (y - 1) + before + (d - 1)) * 86400 + (h * 3600 + mi * 60 + s))
          * second)
        + nanos)
    else none

unfoldable pub parse_time : Text → Option Time
parse_time xs = do
  (y, xs) ← number 4 0 xs
  xs ← expect 0x2d xs
  (mo, xs) ← number 2 0 xs
  xs ← expect 0x2d xs
  (d, xs) ← number 2 0 xs
  xs ← expect 0x54 xs
  (h, xs) ← number 2 0 xs
  xs ← expect 0x3a xs
  (mi, xs) ← number 2 0 xs
  xs ← expect 0x3a xs
  (s, xs) ← number 2 0 xs
  nanos ← nanos_value xs
  time_of_parts y mo d h mi s nanos
