-- ===== src/RunningHours/Days.antt =====
-- The weekdays, and what is left of a window.
use sablier.Prelude.{
  ℕ, ◌+◌, ◌-◌, ◌*◌, ◌≤◌, ◌<◌, ◌≡◌, refl, String, Bool, true, false, List, [], ◌∷◌, none, some,
  arith, ◌==◌, if◌then◌else◌, any, Bool-cases, Option-cases, inl, inr, sym, ◌∙◌, ap, Option,
}
use sablier.Text.{is_empty, trim_space, split}
use sablier.RunningHours.{
  RunningHours, ok, parse_running_hours, LocalTime, day_length, window_at, day_names, find_day,
  days_of, parse_running_days, contains_day, on_running_day, running_hours_remaining,
}
use sablier.RunningHours.Window.{
  IsRegular, is_open, >>=-eq-ok, parse_running_hours-IsWindow, window_at-open,
}

-- A token of the list names the weekday.
abbrev pub names_day : ℕ → String → Bool
names_day day p =
    if is_empty (trim_space p)
    then false
    else elim (find_day (trim_space p) day_names) [ none ↦ false | some d ↦ d == day ]

contains_day-days_of :
    (tokens : List String) (ds : List ℕ) (day : ℕ)
    → days_of tokens ≡ ok ds
    → contains_day ds day ≡ any (names_day day) tokens
unfolding days_of contains_day
contains_day-days_of [] ds day e = ground arith
contains_day-days_of (p ∷ ps) ds day e = elim (Bool-cases (is_empty (trim_space p))) [
  | inl blank ↦ ground (arith, contains_day-days_of ps ds day)
  | inr full ↦ elim (Option-cases (find_day (trim_space p) day_names)) [
    | inl unknown ↦ ground arith
    | inr (d, found) ↦
        let (rest, e1, e2) = >>=-eq-ok (days_of ps) (λ r. ok (d ∷ r)) {b = ds} (ground arith) in
        ground (arith, contains_day-days_of ps rest day)
  ]
]

-- The set that a list of weekdays parses to has exactly the days that some token of it names, and
-- it has at least one.
pub contains_day-parse_running_days :
    (v : String) (ds : List ℕ)
    → parse_running_days v ≡ ok ds
    → ((day : ℕ) → contains_day ds day ≡ any (names_day day) (split b',' v)) × (ds ≡ [] → ⊥)
unfolding parse_running_days
contains_day-parse_running_days v ds e =
    let (found, e1, e2) = >>=-eq-ok (days_of (split b',' v)) _ e in
    ((λ day. ground (arith, contains_day-days_of (split b',' v) ds day)), (λ bare. ground arith))

allowed_of :
    (allowed : Bool) (rest left : ℕ)
    → ok (if allowed then some rest else none) ≡ ok (some left)
    → (allowed ≡ true) × (rest ≡ left)
allowed_of true rest left e = (refl, cc)
allowed_of false rest left e = cc

-- Where a window is reported open, the hours parse, the minute of `now` lies in them, the day on which
-- the window began is allowed, and what is left is above zero and at most a day.
pub running_hours_remaining_bounds :
    (hours days : String) (now : LocalTime) (left : ℕ)
    → IsRegular now
    → running_hours_remaining hours days now ≡ ok (some left)
    → (r : RunningHours) × (parse_running_hours hours ≡ ok r)
      × (is_open r (now.hour * 60 + now.minute) ≡ true)
      × (on_running_day days (now.weekday (window_at r now).0) ≡ ok true)
      × (left + now.instant ≡ (window_at r now).1)
      × (0 < left)
      × (left ≤ day_length)
unfolding running_hours_remaining
running_hours_remaining_bounds hours days now left reg e =
    let (r, e1, e2) = >>=-eq-ok (parse_running_hours hours) _ e in
    elim (Bool-cases (window_at r now).2) [
      | inr shut ↦ ground arith
      | inl open_now ↦
          let (allowed, e3, e4) =
            >>=-eq-ok (on_running_day days (now.weekday (window_at r now).0))
              (λ a. ok (if a then some ((window_at r now).1 - now.instant) else none))
              {b = some left} (ground arith) in
          let w = parse_running_hours-IsWindow hours r e1 in
          let (inside, bounds) = window_at-open r now w reg in
          let (from, upto, long) = bounds open_now in
          let on = allowed_of allowed _ left e4 in
          (
            r,
            e1,
            (sym inside ∙ open_now),
            (e3 ∙ ap ok on.0),
            (ground (arith, on, upto)),
            (ground (arith, on, upto)),
            (ground (arith, on, upto, long, w, from)),
          )
    ]

-- The hours parse, the minute of `now` lies in them, the day on which the window began is allowed, and
-- `left` is the time to its end.
abbrev pub IsOpenFor : String → String → LocalTime → ℕ → Type 0
IsOpenFor hours days now left =
    (r : RunningHours) × (parse_running_hours hours ≡ ok r)
    × (is_open r (now.hour * 60 + now.minute) ≡ true)
    × (on_running_day days (now.weekday (window_at r now).0) ≡ ok true)
    × (left + now.instant ≡ (window_at r now).1)

-- An open window is reported.
pub running_hours_remaining-IsOpenFor :
    (hours days : String) (now : LocalTime) (left : ℕ)
    → IsRegular now
    → IsOpenFor hours days now left
    → running_hours_remaining hours days now ≡ ok (some left)
unfolding running_hours_remaining
running_hours_remaining-IsOpenFor hours days now left reg (r, parsed, inside, allowed, until) =
    let w = parse_running_hours-IsWindow hours r parsed in
    let (same, bounds) = window_at-open r now w reg in
    let open_now : (window_at r now).2 ≡ true = same ∙ inside in
    let exact : (window_at r now).1 - now.instant ≡ left = omega (arith, until) in
    rw (running_hours_remaining, parsed, open_now, allowed, exact) refl

-- Where both texts parse, there is an answer.
pub running_hours_remaining_total :
    (hours days : String) (now : LocalTime)
    → (r : RunningHours) × (parse_running_hours hours ≡ ok r)
    → (is_empty days ≡ false → (ds : List ℕ) × (parse_running_days days ≡ ok ds))
    → (left : Option ℕ) × (running_hours_remaining hours days now ≡ ok left)
unfolding running_hours_remaining
running_hours_remaining_total hours days now (r, e) given = elim (Bool-cases (window_at r now).2) [
  | inr shut ↦ (none, ground arith)
  | inl open_now ↦ elim (Bool-cases (is_empty days)) [
    | inl every ↦ (some ((window_at r now).1 - now.instant), ground arith)
    | inr some_days ↦
        let (ds, parsed) = given some_days in
        (
          (if contains_day ds (now.weekday (window_at r now).0)
              then some ((window_at r now).1 - now.instant)
              else none),
          ground arith,
        )
  ]
]
