-- ===== src/RunningHours.antt =====
-- pkg/sablier/running_hours.go: the daily window in which an instance is kept running.
pub mod Window
pub mod Days
mod Tests
use sablier.Prelude.{
  ℕ, zero, suc, ◌+◌, ◌-◌, ◌*◌, String, Bool, true, false, not, ◌&&◌, ◌||◌, List, [], ◌∷◌, Option,
  none, some, ltb, leb, ◌==◌, if◌then◌else◌, str_eq,
}
use sablier.Prelude.Int.{ℤ, pos, negsuc, leb_ℤ, ltb_ℤ}
use sablier.Text.{is_empty, trim_space, split, atoi, equal_lower}

pub record RunningHours : Type 0 where
  pub start_minute : ℕ
  pub end_minute : ℕ

-- The errors carry messages that quote their input; only their kind is kept.
pub data ParseError : Type 0 where
  bad_form bad_hour bad_minute out_of_range equal_ends unknown_day no_days : ParseError

pub data Parsed {ℓ} (T : Type ℓ) : Type ℓ where
  err : ParseError → Parsed T
  ok : T → Parsed T

abbrev or_fail {ℓ} : {T : Type ℓ} → Option T → ParseError → Parsed T
or_fail none e = err e
or_fail (some t) e = ok t

infixl 5 ◌>>=◌
abbrev pub ◌>>=◌ {ℓ κ} : {T : Type ℓ} {U : Type κ} → Parsed T → (T → Parsed U) → Parsed U
err e >>= next = err e
ok t >>= next = next t

-- The checks on the two numbers, which may be negative.
clock_minute : ℤ → ℤ → Parsed ℕ
clock_minute (pos h) (pos m) = if ltb 23 h || ltb 59 m then err out_of_range else ok (h * 60 + m)
clock_minute (negsuc h) m = err out_of_range
clock_minute (pos h) (negsuc m) = err out_of_range

clock_of : List String → Parsed ℕ
unfolding clock_minute
clock_of (hour ∷ minute ∷ []) = do
  h ← or_fail (atoi hour) bad_hour
  m ← or_fail (atoi minute) bad_minute
  clock_minute h m
clock_of [] = err bad_form
clock_of (hour ∷ []) = err bad_form
clock_of (hour ∷ minute ∷ second ∷ rest) = err bad_form

unfoldable pub parse_clock : String → Parsed ℕ
unfolding clock_of
parse_clock s = clock_of (split b':' (trim_space s))

hours_of : List String → Parsed RunningHours
hours_of (from ∷ to ∷ []) = do
  start ← parse_clock from
  end ← parse_clock to
  if start == end then err equal_ends else ok (record { start_minute = start; end_minute = end })
hours_of [] = err bad_form
hours_of (from ∷ []) = err bad_form
hours_of (from ∷ to ∷ more ∷ rest) = err bad_form

unfoldable pub parse_running_hours : String → Parsed RunningHours
unfolding hours_of
parse_running_hours v = hours_of (split b'-' v)

-- A reading of the local clock: the instant, the instant of the local midnight before it, the hour
-- and minute that the location shows, and the weekday of every instant there.
pub record LocalTime : Type 0 where
  pub instant : ℕ
  pub midnight : ℕ
  pub hour : ℕ
  pub minute : ℕ
  pub weekday : ℕ → ℕ

abbrev pub minute_length : ℕ
minute_length = 60_000_000_000

abbrev pub day_length : ℕ
day_length = 1440 * minute_length

within : ℕ → ℕ → ℕ → ℕ × ℕ × Bool
within start end now = (start, end, not (ltb now start) && ltb now end)

-- The start and the end of the window, and whether `now` lies in it.
pub window_at : RunningHours → LocalTime → ℕ × ℕ × Bool
unfolding within
window_at r now =
    let now_minute = now.hour * 60 + now.minute in
    let start = now.midnight + r.start_minute * minute_length in
    let end = now.midnight + r.end_minute * minute_length in
    if ltb r.start_minute r.end_minute
    then within start end now.instant
    else if leb r.start_minute now_minute
    then within start (now.midnight + (day_length + r.end_minute * minute_length)) now.instant
    else within (start - day_length) end now.instant

pub day_names : List (String × ℕ)
day_names =
    ("sun", 0)
    ∷ ("sunday", 0)
    ∷ ("mon", 1)
    ∷ ("monday", 1)
    ∷ ("tue", 2)
    ∷ ("tuesday", 2)
    ∷ ("wed", 3)
    ∷ ("wednesday", 3)
    ∷ ("thu", 4)
    ∷ ("thursday", 4)
    ∷ ("fri", 5)
    ∷ ("friday", 5)
    ∷ ("sat", 6)
    ∷ ("saturday", 6)
    ∷ []

pub find_day : String → List (String × ℕ) → Option ℕ
find_day token [] = none
find_day token ((name, day) ∷ names) =
    if equal_lower token name then some day else find_day token names

-- The set of weekdays, as the list of those that the tokens name.
days_of : List String → Parsed (List ℕ)
unfolding find_day day_names
days_of [] = ok []
days_of (p ∷ ps) =
    let rest = days_of ps in
    let token = trim_space p in
    if is_empty token
    then rest
    else (do day ← or_fail (find_day token day_names) unknown_day; days ← rest; ok (day ∷ days))

pub parse_running_days : String → Parsed (List ℕ)
unfolding days_of
parse_running_days v = do
  days ← days_of (split b',' v)
  elim days [ [] ↦ err no_days | d ∷ ds ↦ ok (d ∷ ds) ]

pub contains_day : List ℕ → ℕ → Bool
contains_day [] day = false
contains_day (d ∷ ds) day = d == day || contains_day ds day

-- The day restriction, tested on the day on which the window began.
pub on_running_day : String → ℕ → Parsed Bool
unfolding contains_day
on_running_day days day =
    if is_empty days then ok true else (do set ← parse_running_days days; ok (contains_day set day))

-- What is left of the window at `now`, or `none` outside of it.
pub running_hours_remaining : String → String → LocalTime → Parsed (Option ℕ)
unfolding on_running_day
running_hours_remaining hours days now = do
  rh ← parse_running_hours hours
  let (start, end, in_window) = window_at rh now
  let last : Parsed (Option ℕ) = do
    allowed ← on_running_day days (now.weekday start)
    ok (if allowed then some (end - now.instant) else none)
  if in_window then last else ok none
