-- ===== src/TinyKv/Heap/Push.antt =====
-- timeheapPush: the heap order comes back, and exactly the new timeout is added.
use mathlib.Core.List.{Perm}
use mathlib.Core.List.Perm
use sablier.Prelude.{
  ℕ, zero, suc, ◌+◌, ◌-◌, ◌≤◌, ◌<◌, ◌≡◌, refl, ◌≢◌, inl, inr, List, [], ◌∷◌, ◌++◌, Option, some,
  arith, ltb, ◌==◌, length, length-append, Bool-cases,
}
use sablier.Prelude.Arrays.{
  exchange, at-exchange, at-append, exchange-perm, length-exchange, append_one-perm,
}
use sablier.TinyKv.Heap.{Timeout, up_loop, heap_up, heap_push}
use sablier.TinyKv.Heap.Order.{blank, due, parent, IsHeap, less-some, swap-some}

-- Only the edge above `j` may be out of order.
record RisingAt (h : List Timeout) (j : ℕ) : Type 0 where
  inside : j < length h
  others : (c : ℕ) → 0 < c → c < length h → c ≢ j → due h (parent c) ≤ due h c
  around : (c : ℕ) → 0 < c → c < length h → parent c ≡ j → 0 < j → due h (parent j) ≤ due h c

-- The call ends with a heap of the same timeouts.
abbrev Restores : List Timeout → Option (List Timeout) → Type 0
Restores h r = (h' : List Timeout) × (r ≡ some h') × IsHeap h' × Perm h' h

rise-RisingAt :
    (h : List Timeout) (j : ℕ)
    → RisingAt h j
    → 0 < j
    → due h j < due h (parent j)
    → RisingAt (exchange blank h (parent j) j) (parent j)
rise-RisingAt h j v pos below =
    let size = length-exchange blank h (parent j) j in
    let now = at-exchange blank h (parent j) j (omega arith) v.inside in
    record {
      inside = omega arith;
      others = λ c p q r. ground (arith, size, now c, now (parent c), v.others c, v.around c);
      around = λ c p q r s.
          ground (arith, size, now c, now (parent (parent j)), v.others c, v.others (parent j));
    }

up_loop-Restores :
    (fuel : ℕ) (h : List Timeout) (j : ℕ) → j < fuel → RisingAt h j → Restores h (up_loop fuel h j)
unfolding up_loop
up_loop-Restores zero h j f v = absurd (omega arith)
up_loop-Restores (suc fuel) h j f v =
    let above : parent j < length h = omega (arith, v.inside) in
    elim (Bool-cases (parent j == j)) [
      | inl root ↦ (h, rw root refl, (λ c p q. v.others c p q (ground arith)), Perm.refl h)
      | inr inner ↦ elim (Bool-cases (ltb (due h j) (due h (parent j)))) [
        | inl below ↦
            let ih =
              up_loop-Restores fuel (exchange blank h (parent j) j) (parent j) (ground arith)
                (rise-RisingAt h j v (ground arith) (ground arith)) in
            (
              ih.0,
              rw
                  (
                    inner,
                    less-some h j (parent j) v.inside above,
                    below,
                    swap-some h (parent j) j above v.inside,
                  )
                  ih.1,
              ih.2,
              Perm.trans ih.3 (exchange-perm blank h (parent j) j above v.inside),
            )
        | inr settled ↦ (
          h,
          rw (inner, less-some h j (parent j) v.inside above, settled) refl,
          (λ c p q. ground (arith, v.others c)),
          Perm.refl h,
        )
      ]
    ]

-- `heap_push` ends, and adds exactly the timeout to the heap.
pub heap_push-IsHeap :
    (h : List Timeout) (x : Timeout)
    → IsHeap h
    → (h' : List Timeout) × (heap_push h x ≡ some h') × IsHeap h' × Perm h' (x ∷ h)
unfolding heap_push heap_up
heap_push-IsHeap h x o =
    let grown = h ++ x ∷ [] in
    let size : length grown ≡ length h + 1 = length-append h (x ∷ []) in
    let start : RisingAt grown (length grown - 1) = record {
      inside = omega (arith, size);
      others = λ c p q r.
          ground
            (arith, size, o c, at-append blank h (x ∷ []) c, at-append blank h (x ∷ []) (parent c));
      around = λ c p q r s. absurd (omega (arith, size));
    } in
    let done =
      up_loop-Restores (suc (length grown - 1)) grown (length grown - 1) (omega arith) start in
    (done.0, done.1, done.2, Perm.trans done.3 (append_one-perm h x))
