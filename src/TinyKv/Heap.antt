-- ===== src/TinyKv/Heap.antt =====
-- pkg/tinykv/timeout_heap.go and the heap of pkg/tinykv/tinykv.go: timeouts ordered by deadline.
-- `none` stands for a run-time panic (an index out of range) and for fuel that ran out. Indices stay
-- below twice the heap's length plus two, so Go's `int` does not overflow.
-- An instant is a number of nanoseconds since Go's zero time, a duration a signed number of them.
pub mod Order
pub mod Push
pub mod Pop
use sablier.Prelude.{
  ◌>>=◌, ℕ, zero, suc, ◌+◌, ◌-◌, ◌*◌, ◌/◌, String, Bool, true, false, ◌||◌, not, List, [], ◌∷◌,
  ◌++◌, Option, none, some, ltb, leb, ◌==◌, if◌then◌else◌, length, get_elem?, set, take,
}
use sablier.Prelude.Int.{ℤ, pos, negsuc}

pub record Timeout : Type 0 where
  pub expires_at : ℕ
  pub expires_after : ℤ
  pub key : String

-- `t.Add(d)`. Every instant in use lies more than the longest duration after the zero time.
abbrev pub add_duration : ℕ → ℤ → ℕ
add_duration t (pos n) = t + n
add_duration t (negsuc n) = t - suc n

abbrev pub new_timeout : String → ℤ → ℕ → Timeout
new_timeout key expires_after now = record {
  expires_at = add_duration now expires_after;
  expires_after = expires_after;
  key = key;
}

-- A nil timeout never expires.
abbrev pub expired : Option Timeout → ℕ → Bool
expired none now = false
expired (some to) now = ltb to.expires_at now

pub less : List Timeout → ℕ → ℕ → Option Bool
less h i j = do x ← get_elem? h i; y ← get_elem? h j; some (ltb x.expires_at y.expires_at)

pub swap : List Timeout → ℕ → ℕ → Option (List Timeout)
swap h i j = do x ← get_elem? h i; y ← get_elem? h j; some (set (set h i y) j x)

-- The method `Pop`: the last entry is cut off.
pop_last : List Timeout → Option (Timeout × List Timeout)
pop_last h =
    let n = length h in
    if n == 0 then none else (do x ← get_elem? h (n - 1); some (x, take (n - 1) h))

up_loop : ℕ → List Timeout → ℕ → Option (List Timeout)
up_loop zero h j = none
up_loop (suc fuel) h j =
    let i = (j - 1) / 2 in
    let rise = swap h i j >>= λ h'. up_loop fuel h' i in
    let step = less h j i >>= λ before. if before then rise else some h in
    if i == j then some h else step

heap_up : List Timeout → ℕ → Option (List Timeout)
unfolding up_loop less swap
heap_up h j = up_loop (suc j) h j

-- The child that sinks against `i`: the right one if it exists and is due before the left one.
earlier_child : List Timeout → ℕ → ℕ → Option ℕ
earlier_child h j1 n =
    let j2 = j1 + 1 in
    if ltb j2 n then (do before ← less h j2 j1; some (if before then j2 else j1)) else some j1

down_loop : ℕ → List Timeout → ℕ → ℕ → Option (List Timeout)
down_loop zero h i n = none
down_loop (suc fuel) h i n =
    let j1 = 2 * i + 1 in
    let step : Option (List Timeout) = do
      j ← earlier_child h j1 n
      before ← less h j i
      let sink = swap h i j >>= λ h'. down_loop fuel h' j n
      if before then sink else some h
    in if leb n j1 then some h else step

heap_down : List Timeout → ℕ → ℕ → Option (List Timeout)
unfolding down_loop earlier_child less swap
heap_down h i n = down_loop (suc n) h i n

unfoldable pub heap_push : List Timeout → Timeout → Option (List Timeout)
unfolding heap_up
heap_push h x = let grown = h ++ x ∷ [] in heap_up grown (length grown - 1)

-- `Swap(0, n)` with n = -1, on an empty heap, panics.
unfoldable pub heap_pop : List Timeout → Option (Timeout × List Timeout)
unfolding heap_down swap pop_last
heap_pop h =
    let n = length h - 1 in
    if length h == 0 then none else (do a ← swap h 0 n; b ← heap_down a 0 n; pop_last b)
