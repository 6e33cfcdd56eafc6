-- ===== src/RunningHours/Tests.antt =====
-- A night on which the hours run past midnight.
use sablier.Text.{split, trim_space, atoi, equal_lower}
use sablier.RunningHours.Days.{running_hours_remaining_bounds}
use sablier.Prelude.{ℕ, ◌+◌, arith, ◌≡◌, ◌/◌, true, ◌∷◌, ◌%◌, [], some, ◌≤◌, ◌<◌, refl, List}
use sablier.RunningHours.Window.{IsRegular, is_open}
use sablier.RunningHours.{
  LocalTime, parse_running_hours, parse_running_days, running_hours_remaining, window_at,
  RunningHours, ok, err, out_of_range, no_days, on_running_day, day_length, parse_clock,
}

abbrev late : LocalTime
late = record {
  instant = 1728000000000000 + 84600000000000;
  midnight = 1728000000000000;
  hour = 23;
  minute = 30;
  weekday = λ t. (t / 86400000000000) % 7;
}

late-IsRegular : IsRegular late
late-IsRegular = record {
  hours = omega arith;
  minutes = omega arith;
  after = omega arith;
  before = omega arith;
  late = omega arith;
}

parsed : parse_running_hours "22:00 - 06:00" ≡ ok (record { start_minute = 1320; end_minute = 360 })
unfolding parse_running_hours split parse_clock trim_space atoi
parsed = refl

refused : parse_running_hours "24:00-06:00" ≡ err out_of_range
unfolding parse_running_hours split parse_clock trim_space atoi
refused = refl

parsed_days : parse_running_days "Mon, ,wednesday" ≡ ok (1 ∷ 3 ∷ [])
unfolding parse_running_days split trim_space equal_lower
parsed_days = refl

no_day : parse_running_days " , " ≡ err no_days
unfolding parse_running_days split trim_space
no_day = refl

remaining : running_hours_remaining "22:00-06:00" "sat,sun" late ≡ ok (some 23400000000000)
unfolding running_hours_remaining parse_running_hours split parse_clock trim_space atoi window_at
    parse_running_days equal_lower
remaining = refl

abbrev weekdays : List ℕ
weekdays = 1 ∷ 3 ∷ []

running_hours_remaining_bounds_example :
    (r : RunningHours) × (parse_running_hours "22:00-06:00" ≡ ok r)
    × (is_open r 1410 ≡ true)
    × (on_running_day "sat,sun" (late.weekday (window_at r late).0) ≡ ok true)
    × (23400000000000 + late.instant ≡ (window_at r late).1)
    × (0 < 23400000000000)
    × (23400000000000 ≤ day_length)
running_hours_remaining_bounds_example =
    running_hours_remaining_bounds "22:00-06:00" "sat,sun" late 23400000000000 late-IsRegular
      remaining
