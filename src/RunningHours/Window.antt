-- ===== src/RunningHours/Window.antt =====
-- When the window is open, and how long it stays so.
use sablier.Prelude.{
  ℕ, ◌+◌, ◌-◌, ◌*◌, ◌≤◌, ◌<◌, ◌≡◌, refl, String, Bool, true, false, ◌&&◌, ◌||◌, List, [], ◌∷◌,
  arith, ltb, leb, ◌==◌, if◌then◌else◌, ◌⊎◌, inl, inr,
}
use sablier.Prelude.Int.{ℤ, pos, negsuc}
use sablier.RunningHours.{
  RunningHours, Parsed, ok, err, ◌>>=◌, clock_minute, clock_of, parse_clock, hours_of,
  parse_running_hours, LocalTime, minute_length, day_length, window_at, or_fail, atoi, bad_hour,
  bad_minute, ParseError,
}

-- Both ends are minutes of the day, and they differ.
pub record IsWindow (r : RunningHours) : Type 0 where
  pub start_in_day : r.start_minute < 1440
  pub end_in_day : r.end_minute < 1440
  pub apart : (r.start_minute == r.end_minute) ≡ false

-- A step that ends well: its first part did.
pub >>=-eq-ok {ℓ κ} :
    {T : Type ℓ} {U : Type κ} (m : Parsed T) (f : T → Parsed U) {b : U}
    → (m >>= f) ≡ ok b
    → (a : T) × (m ≡ ok a) × (f a ≡ ok b)
>>=-eq-ok (ok a) f h = (a, refl, h)
>>=-eq-ok (err e) f h = cc

clock_minute-lt : (h m : ℤ) (n : ℕ) → clock_minute h m ≡ ok n → n < 1440
unfolding clock_minute
clock_minute-lt (pos h) (pos m) n e = ground arith
clock_minute-lt (negsuc h) m n e = cc
clock_minute-lt (pos h) (negsuc m) n e = cc

clock_of-lt : (parts : List String) (n : ℕ) → clock_of parts ≡ ok n → n < 1440
unfolding clock_of
clock_of-lt [] n e = cc
clock_of-lt (a ∷ []) n e = cc
clock_of-lt (a ∷ b ∷ c ∷ rest) n e = cc
clock_of-lt (a ∷ b ∷ []) n e =
    let (h, _, e1) = >>=-eq-ok (or_fail (atoi a) bad_hour) _ e in
    let (m, _, e2) = >>=-eq-ok (or_fail (atoi b) bad_minute) _ e1 in clock_minute-lt h m n e2

hours_of-IsWindow : (parts : List String) (r : RunningHours) → hours_of parts ≡ ok r → IsWindow r
unfolding hours_of parse_clock
hours_of-IsWindow [] r e = cc
hours_of-IsWindow (a ∷ []) r e = cc
hours_of-IsWindow (a ∷ b ∷ c ∷ rest) r e = cc
hours_of-IsWindow (a ∷ b ∷ []) r e =
    let (from, e0, e1) = >>=-eq-ok (parse_clock a) _ e in
    let (to, e2, e3) = >>=-eq-ok (parse_clock b) _ e1 in
    record {
      start_in_day = ground (arith, clock_of-lt _ from e0, clock_of-lt _ to e2);
      end_in_day = ground (arith, clock_of-lt _ from e0, clock_of-lt _ to e2);
      apart = ground arith;
    }

-- Whatever parses is a window of the day: both ends are below 24 hours, and they differ.
pub parse_running_hours-IsWindow :
    (v : String) (r : RunningHours) → parse_running_hours v ≡ ok r → IsWindow r
unfolding parse_running_hours
parse_running_hours-IsWindow v r e = hours_of-IsWindow _ r e

-- The clock runs evenly from midnight: no time shift since then, and more than a day after the zero
-- time.
pub record IsRegular (now : LocalTime) : Type 0 where
  pub hours : now.hour < 24
  pub minutes : now.minute < 60
  pub after : now.midnight + (now.hour * 60 + now.minute) * minute_length ≤ now.instant
  pub before : now.instant < now.midnight + (now.hour * 60 + now.minute + 1) * minute_length
  pub late : day_length ≤ now.midnight

-- Minute `m` of the day lies in the window, which may run past midnight.
abbrev pub is_open : RunningHours → ℕ → Bool
is_open r m =
    if ltb r.start_minute r.end_minute
    then leb r.start_minute m && ltb m r.end_minute
    else leb r.start_minute m || ltb m r.end_minute

-- The window is found open exactly at its minutes. Then `now` lies between the start and the end that
-- are returned, and these are apart by the length of the window.
pub window_at-open :
    (r : RunningHours) (now : LocalTime)
    → IsWindow r
    → IsRegular now
    → ((window_at r now).2 ≡ is_open r (now.hour * 60 + now.minute))
      × ((window_at r now).2 ≡ true
          → ((window_at r now).0 ≤ now.instant)
            × (now.instant < (window_at r now).1)
            × ((window_at r now).1
                ≡ (window_at r now).0
                  + (if ltb r.start_minute r.end_minute
                      then r.end_minute - r.start_minute
                      else 1440 + r.end_minute - r.start_minute)
                    * minute_length))
unfolding window_at
window_at-open r now w reg = (ground arith, λ e. (ground arith, ground arith, ground arith))

pub Parsed-cases {ℓ} :
    {A : Type ℓ} (p : Parsed A) → ((e : ParseError) × (p ≡ err e)) ⊎ ((a : A) × (p ≡ ok a))
Parsed-cases (err e) = inl (e, refl)
Parsed-cases (ok a) = inr (a, refl)
