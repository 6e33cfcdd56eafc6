-- ===== src/TinyKv/Expire/Interval.antt =====
-- The timer of expireLoop.
use sablier.Prelude.{ℕ, ◌≤◌, ◌<◌, arith, suc, if◌then◌else◌, ◌≡◌, ltb, ◌&&◌, leb, ◌*◌, ◌+◌, ◌/◌}
use sablier.Prelude.Int.{ℤ, pos, negsuc}
use sablier.TinyKv.Expire.{next_interval}

abbrev pub magnitude : ℤ → ℕ
magnitude (pos n) = n
magnitude (negsuc n) = suc n

-- The interval without the guard against zero: two parts of the old one and one of what the sweep
-- returned, if that is above zero and within the interval that the store was made with.
abbrev pub weighted : ℕ → ℕ → ℕ → ℕ
weighted expiration interval size =
    if ltb 0 size && leb size expiration then (2 * interval + size) / 3 else interval

-- From an interval above zero and within the one that the store was made with, the next interval is the
-- one without the guard, so that the guard is not taken. It is again above zero and within the interval
-- that the store was made with.
pub next_interval_bounds :
    (expiration interval : ℕ) (v : ℤ)
    → 0 < interval
    → interval ≤ expiration
    → (next_interval expiration interval v ≡ weighted expiration interval (magnitude v))
      × (0 < weighted expiration interval (magnitude v))
      × (weighted expiration interval (magnitude v) ≤ expiration)
unfolding next_interval
next_interval_bounds expiration interval (pos n) p q = (ground arith, ground arith, ground arith)
next_interval_bounds expiration interval (negsuc n) p q = (ground arith, ground arith, ground arith)
