-- ===== src/Go/Time.antt =====
-- `time.Time` in UTC as nanoseconds since the start of year 1, which is Go's zero time, and its
-- text in the layout `time.RFC3339Nano`. A time of the program lies in the years 1 to 9999.
use Prim.Native.Nat.{min}
use mesthastic_caltopo_bridg.Prelude.{
  ℕ, zero, suc, ◌+◌, ◌-◌, ◌*◌, ◌/◌, ◌%◌, ◌^◌, ◌<◌, Bool, ◌&&◌, ◌||◌, not, Option, none, some, List,
  [], ◌∷◌, ◌++◌, ltb, leb, ◌==◌, if◌then◌else◌,
}
use mesthastic_caltopo_bridg.Prelude.Int.{ℤ, pos, negsuc}
use mesthastic_caltopo_bridg.Go.Text.{Text}
mod Civil
pub mod Parse
pub mod Order
mod Days
mod Digits
pub mod RoundTrip
mod Dates
pub mod Seconds

abbrev pub Time : Type 0
Time = ℕ

-- A time before the year 10000.
abbrev pub IsDated : Time → Type 0
IsDated t = t < 3652059 * 86400 * 1000000000

-- A `time.Duration`, in nanoseconds.
abbrev pub Duration : Type 0
Duration = ℤ

abbrev pub second : ℕ
second = 1000000000

abbrev pub minute : ℕ
minute = 60000000000

-- Seconds from the start of year 1 to the start of 1970.
abbrev pub unix_epoch : ℕ
unix_epoch = 62135596800

-- `time.Unix(s, 0).UTC()` for the seconds of a protobuf field, which is unsigned.
unfoldable pub unix : ℕ → Time
unix s = (s + unix_epoch) * second

abbrev pub is_zero : Time → Bool
is_zero t = t == 0

abbrev pub max_duration : ℕ
max_duration = 9223372036854775807

-- `t.Sub(u)`, which saturates.
unfoldable pub sub : Time → Time → Duration
sub t u = if leb u t then pos (min (t - u) max_duration) else negsuc (min (u - t - 1) max_duration)

unfoldable pub is_leap : ℕ → Bool
is_leap y = y % 4 == 0 && (not (y % 100 == 0) || y % 400 == 0)

-- The year and the day in it, from 0, of a day since the start of year 1.
unfoldable pub year_day : ℕ → ℕ × ℕ
year_day days =
    let n400 = days / 146097 in
    let d400 = days % 146097 in
    let n100 = if ltb (d400 / 36524) 3 then d400 / 36524 else 3 in
    let d100 = d400 - 36524 * n100 in
    let n4 = d100 / 1461 in
    let d4 = d100 % 1461 in
    let n1 = if ltb (d4 / 365) 3 then d4 / 365 else 3 in
    (400 * n400 + 100 * n100 + 4 * n4 + n1 + 1, d4 - 365 * n1)

abbrev pub month_lengths : Bool → List ℕ
month_lengths leap =
    31 ∷ (if leap then 29 else 28) ∷ 31 ∷ 30 ∷ 31 ∷ 30 ∷ 31 ∷ 31 ∷ 30 ∷ 31 ∷ 30 ∷ 31 ∷ []

-- The month and the day in it, both from 1, of a day of the year.
unfoldable pub month_day : List ℕ → ℕ → ℕ → ℕ × ℕ
month_day [] month day = (month, day + 1)
month_day (l ∷ ls) month day =
    let later = month_day ls (month + 1) (day - l) in if ltb day l then (month, day + 1) else later

abbrev pub digit : ℕ → ℕ
digit n = 48 + n % 10

abbrev pub pad2 : ℕ → Text
pad2 n = digit (n / 10) ∷ digit n ∷ []

abbrev pub pad4 : ℕ → Text
pad4 n = digit (n / 1000) ∷ digit (n / 100) ∷ digit (n / 10) ∷ digit n ∷ []

-- The digits of a fraction, of `k` places, with no trailing zeros.
unfoldable pub fraction : ℕ → ℕ → Text
fraction zero n = []
fraction (suc k) n =
    let rest = fraction k (n % 10 ^ k) in if n == 0 then [] else digit (n / 10 ^ k) ∷ rest

unfoldable pub format_date : ℕ → Text
unfolding year_day month_day is_leap
format_date days =
    let (year, yday) = year_day days in
    let (month, day) = month_day (month_lengths (is_leap year)) 1 yday in
    pad4 year ++ 0x2d ∷ pad2 month ++ 0x2d ∷ pad2 day

unfoldable pub format_clock : ℕ → Text
format_clock s = pad2 (s / 3600) ++ 0x3a ∷ pad2 (s / 60 % 60) ++ 0x3a ∷ pad2 (s % 60)

unfoldable pub format_fraction : ℕ → Text
unfolding fraction
format_fraction nanos = if nanos == 0 then [] else 0x2e ∷ fraction 9 nanos

-- `value.UTC().Format(time.RFC3339Nano)`
unfoldable pub format_time : Time → Text
unfolding format_date format_clock format_fraction
format_time t =
    let s = t / second in
    format_date (s / 86400)
    ++ 0x54 ∷ format_clock (s % 86400)
    ++ (format_fraction (t % second) ++ 0x5a ∷ [])
