-- ===== src/Go/Time/Civil.antt =====
-- The text of some times.
use mesthastic_caltopo_bridg.Prelude.{◌≡◌, refl, ◌+◌, some}
use mesthastic_caltopo_bridg.Go.Time.Parse.{
  number, expect, nanos_value, month_start, time_of_parts, parse_time,
}
use mesthastic_caltopo_bridg.Go.Text.{text, trim_space}
use mesthastic_caltopo_bridg.Go.Time.{format_time, unix, is_leap}

format_whole : format_time (unix 1700000000) ≡ text "2023-11-14T22:13:20Z"
unfolding format_time unix
format_whole = refl

format_leap_day : format_time (unix 1709164799 + 50000000) ≡ text "2024-02-28T23:59:59.05Z"
unfolding format_time unix
format_leap_day = refl

trimmed : trim_space (text "  a b ") ≡ text "a b"
unfolding trim_space
trimmed = refl

parse_leap_day : parse_time (text "2024-02-28T23:59:59.05Z") ≡ some (unix 1709164799 + 50000000)
unfolding parse_time number expect nanos_value time_of_parts is_leap month_start unix
parse_leap_day = refl
