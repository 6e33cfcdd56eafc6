-- ===== src/TinyKv/Heap/Pop.antt =====
-- timeheapPop: the earliest timeout comes off, and the others stay a heap.
use mathlib.Core.List.{Perm}
use mathlib.Core.List.Perm
use sablier.Prelude.{
  ℕ, zero, suc, ◌+◌, ◌-◌, ◌*◌, ◌≤◌, ◌<◌, ◌≡◌, refl, ap, subst, ◌≢◌, ◌⊎◌, inl, inr, List, ◌∷◌,
  Option, some, false, arith, ltb, leb, ◌==◌, if◌then◌else◌, length, take, Bool-cases,
}
use sablier.Prelude.Arrays.{
  at, exchange, at-exchange, at-take, take-last, exchange-perm, length-exchange, length-perm,
  append_one-perm, get_elem?-at,
}
use sablier.TinyKv.Heap.{Timeout, pop_last, earlier_child, down_loop, heap_down, heap_pop}
use sablier.TinyKv.Heap.Order.{blank, due, parent, IsHeap, IsHeapBelow, less-some, swap-some}

-- Among the first `n` entries, only the edges below `i` may be out of order.
record SinkingAt (n : ℕ) (h : List Timeout) (i : ℕ) : Type 0 where
  fits : n ≤ length h
  others : (c : ℕ) → 0 < c → c < n → parent c ≢ i → due h (parent c) ≤ due h c
  around : (c : ℕ) → 0 < c → c < n → parent c ≡ i → 0 < i → due h (parent i) ≤ due h c

-- `j` is the child of `i` that is due first, among the first `n` entries.
record IsEarlierChild (n : ℕ) (h : List Timeout) (i j : ℕ) : Type 0 where
  inside : j < n
  child : (j ≡ 2 * i + 1) ⊎ (j ≡ 2 * i + 2)
  least : (c : ℕ) → 0 < c → c < n → parent c ≡ i → due h j ≤ due h c

-- The call ends with the first `n` entries in heap order and the others untouched.
abbrev Settles : ℕ → List Timeout → Option (List Timeout) → Type 0
Settles n h r =
    (h' : List Timeout) × (r ≡ some h')
    × IsHeapBelow n h'
    × Perm h' h
    × ((c : ℕ) → n ≤ c → at blank h' c ≡ at blank h c)

choose_child : (n : ℕ) (h : List Timeout) (i : ℕ) → 2 * i + 1 < n → n ≤ length h → ℕ
choose_child n h i p q =
    let j1 = 2 * i + 1 in
    if ltb (j1 + 1) n then (if ltb (due h (j1 + 1)) (due h j1) then j1 + 1 else j1) else j1

module _ (n : ℕ) (h : List Timeout) (i : ℕ) (p : 2 * i + 1 < n) (q : n ≤ length h) where
  earlier_child-some : earlier_child h (2 * i + 1) n ≡ some (choose_child n h i p q)
  unfolding earlier_child choose_child
  earlier_child-some = elim (Bool-cases (ltb (2 * i + 1 + 1) n)) [
    | inl both ↦
        rw (both, less-some h (2 * i + 1 + 1) (2 * i + 1) (ground arith) (ground arith)) refl
    | inr one ↦ rw one refl
  ]

  choose_child-IsEarlierChild : IsEarlierChild n h i (choose_child n h i p q)
  unfolding choose_child
  choose_child-IsEarlierChild = record {
    inside = ground arith;
    child = ground arith;
    least = λ c r s t. elim (Bool-cases (c == 2 * i + 1)) [
      | inl left ↦ ground arith
      | inr right ↦ let e : c ≡ 2 * i + 1 + 1 = ground arith in rw e (ground arith)
    ];
  }

module _ (n : ℕ) (h : List Timeout) (i j : ℕ) (v : SinkingAt n h i)
    (m : IsEarlierChild n h i j) where
  sink-SinkingAt : due h j < due h i → SinkingAt n (exchange blank h i j) j
  sink-SinkingAt below =
      let now =
        at-exchange blank h i j (omega (arith, m.inside, m.child, v.fits))
          (omega (arith, m.inside, v.fits)) in
      record {
        fits = omega (arith, v.fits, length-exchange blank h i j);
        others = λ c p q r.
            ground
              (arith, m.child, m.inside, now c, now (parent c), v.others c, v.around j, m.least c);
        around = λ c p q r s. ground (arith, m.child, m.inside, now c, now (parent j), v.others c);
      }

down_loop-Settles :
    (fuel n : ℕ) (h : List Timeout) (i : ℕ)
    → n < fuel + i
    → i ≤ n
    → SinkingAt n h i
    → Settles n h (down_loop fuel h i n)
unfolding down_loop
down_loop-Settles zero n h i f b v = absurd (omega arith)
down_loop-Settles (suc fuel) n h i f b v = elim (Bool-cases (leb n (2 * i + 1))) [
  | inl leaf ↦ (h, rw leaf refl, (λ c p q. ground (arith, v.others c)), Perm.refl h, (λ c p. refl))
  | inr inner ↦
      let p : 2 * i + 1 < n = ground arith in
      let j = choose_child n h i p v.fits in
      let m = choose_child-IsEarlierChild n h i p v.fits in
      let hi : i < length h = omega (arith, v.fits) in
      let hj : j < length h = omega (arith, m.inside, v.fits) in
      elim (Bool-cases (ltb (due h j) (due h i))) [
        | inl below ↦
            let ih =
              down_loop-Settles fuel n (exchange blank h i j) j (omega (arith, m.child))
                (omega (arith, m.inside)) (sink-SinkingAt n h i j v m (ground arith)) in
            (
              ih.0,
              rw
                  (
                    inner,
                    earlier_child-some n h i p v.fits,
                    less-some h j i hj hi,
                    below,
                    swap-some h i j hi hj,
                  )
                  ih.1,
              ih.2,
              Perm.trans ih.3 (exchange-perm blank h i j hi hj),
              (λ c q. ground (arith, ih.4 c q, m.inside, at-exchange blank h i j hi hj c)),
            )
        | inr settled ↦ (
          h,
          rw (inner, earlier_child-some n h i p v.fits, less-some h j i hj hi, settled) refl,
          (λ c r q. ground (arith, v.others c, m.least c)),
          Perm.refl h,
          (λ c p. refl),
        )
      ]
]

pop_last-some :
    (n : ℕ) (h : List Timeout) → length h ≡ suc n → pop_last h ≡ some (at blank h n, take n h)
unfolding pop_last
pop_last-some n h size =
    let last : length h - 1 ≡ n = omega (arith, size) in
    let full : (length h == 0) ≡ false = ground (arith, size) in
    rw (full, last, get_elem?-at blank h n (omega (arith, size))) refl

last-perm : (n : ℕ) (h : List Timeout) → length h ≡ suc n → Perm (at blank h n ∷ take n h) h
last-perm n h size =
    subst (Perm (at blank h n ∷ take n h)) (take-last blank n h size)
      (Perm.symm (append_one-perm (take n h) (at blank h n)))

take-IsHeap : (n : ℕ) (h : List Timeout) → length h ≡ suc n → IsHeapBelow n h → IsHeap (take n h)
take-IsHeap n h size o =
    let short = length-perm (append_one-perm (take n h) (at blank h n)) in
    let whole = ap length (take-last blank n h size) in
    λ c p q.
      ground (arith, short, whole, size, o c, at-take blank n h c, at-take blank n h (parent c))

-- `heap_pop` ends on a heap that is not empty: it takes off a timeout that no other one is due
-- before, and leaves a heap of exactly the others.
pub heap_pop_least :
    (h : List Timeout)
    → IsHeap h
    → 0 < length h
    → (h' : List Timeout) × (heap_pop h ≡ some (at blank h 0, h'))
      × IsHeap h'
      × Perm (at blank h 0 ∷ h') h
unfolding heap_pop heap_down
heap_pop_least h o pos =
    let n = length h - 1 in
    let hn : n < length h = omega (arith, pos) in
    let full : (length h == 0) ≡ false = ground (arith, pos) in
    let a = exchange blank h 0 n in
    let size : length a ≡ suc n = omega (arith, length-exchange blank h 0 n, pos) in
    let now = at-exchange blank h 0 n pos hn in
    let start : SinkingAt n a 0 = record {
      fits = omega (arith, size);
      others = λ c p q r. ground (arith, o c, now c, now (parent c));
      around = λ c p q r s. absurd (omega arith);
    } in
    let (b, run, heap, same, rest) =
      down_loop-Settles (suc n) n a 0 (omega arith) (omega arith) start in
    let size_b : length b ≡ suc n = omega (arith, length-perm same, size) in
    let top : at blank b n ≡ at blank h 0 = ground (arith, rest n, now n) in
    (
      take n b,
      rw (full, swap-some h 0 n pos hn, run, pop_last-some n b size_b, top) refl,
      take-IsHeap n b size_b heap,
      Perm.trans (subst (λ x. Perm (x ∷ take n b) b) top (last-perm n b size_b))
          (Perm.trans same (exchange-perm blank h 0 n pos hn)),
    )
