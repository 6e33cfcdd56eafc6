-- ===== src/TinyKv/Heap/Order.antt =====
-- The heap order, and the heap's array operations on indices in range.
use sablier.Prelude.{ℕ, zero, suc, ◌-◌, ◌/◌, ◌≤◌, ◌<◌, ◌≡◌, List, some, arith, ltb, length}
use sablier.Prelude.Int.{pos}
use sablier.Prelude.Arrays.{at, exchange, get_elem?-at}
use sablier.TinyKv.Heap.{Timeout, less, swap}

abbrev pub blank : Timeout
blank = record { expires_at = 0; expires_after = pos 0; key = "" }

-- The deadline at an index.
abbrev pub due : List Timeout → ℕ → ℕ
due h i = (at blank h i).expires_at

abbrev pub parent : ℕ → ℕ
parent c = (c - 1) / 2

-- No entry among the first `n` is due before its parent.
abbrev pub IsHeapBelow : ℕ → List Timeout → Type 0
IsHeapBelow n h = (c : ℕ) → 0 < c → c < n → due h (parent c) ≤ due h c

abbrev pub IsHeap : List Timeout → Type 0
IsHeap h = IsHeapBelow (length h) h

top_least_within :
    (k : ℕ) (h : List Timeout) (i : ℕ) → IsHeap h → i < k → i < length h → due h 0 ≤ due h i
top_least_within zero h i o lt p = absurd (omega arith)
top_least_within (suc k) h i o lt p = ground (arith, o i, top_least_within k h (parent i) o)

-- The entry at the top of a heap is due first.
pub top_least : (h : List Timeout) (i : ℕ) → IsHeap h → i < length h → due h 0 ≤ due h i
top_least h i o p = top_least_within (suc i) h i o (omega arith) p

module _ (h : List Timeout) (i j : ℕ) (hi : i < length h) (hj : j < length h) where
  pub less-some : less h i j ≡ some (ltb (due h i) (due h j))
  unfolding less
  less-some = rw (get_elem?-at blank h i hi, get_elem?-at blank h j hj)

  pub swap-some : swap h i j ≡ some (exchange blank h i j)
  unfolding swap exchange
  swap-some = rw (get_elem?-at blank h i hi, get_elem?-at blank h j hj)
