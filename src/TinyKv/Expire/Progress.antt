-- ===== src/TinyKv/Expire/Progress.antt =====
-- How far a sweep gets: the loop of expireFunc stops when it has made as many rounds as the heap has
-- timeouts left, so one sweep takes off half of the timeouts that are past, and log₂ n sweeps all.
use native.Mathlib.Nat.{pow-suc}
use sablier.Prelude.{
  ℕ, zero, suc, ◌+◌, ◌/◌, ◌^◌, ◌≤◌, ◌<◌, ◌≡◌, refl, sym, ◌∙◌, inl, inr, String, Bool, true, false,
  ◌||◌, List, [], ◌∷◌, none, some, arith, ltb, leb, ◌==◌, if◌then◌else◌, any, Option-cases,
  Bool-cases, length, Map, lookup, insert, some-eq-some, subst, ◌++◌, ◌>>=◌,
}
use sablier.Prelude.Int.{ℤ, pos}
use sablier.Prelude.Arrays.{at, length-perm, get_elem?-at}
use sablier.TinyKv.Heap.{Timeout}
use sablier.TinyKv.Heap.Order.{blank, IsHeap}
use sablier.TinyKv.Heap.Pop.{heap_pop_least}
use sablier.TinyKv.Store.{Entry, Store}
use sablier.TinyKv.Store.View.{any-perm, IsValid}
use sablier.TinyKv.Store.{notify_expirations}
use sablier.TinyKv.Expire.{
  Clock, next_interval, sweep, confirm, delete_all, remaining_wait, expire_func, expire_loop,
}
use sablier.TinyKv.Expire.Sweep.{IsForward, sweep-done, sweep-stale, sweep-found}
use sablier.TinyKv.Expire.Unseen.{expire_func-Fate}

-- Some timeout of the heap is not due before `t`.
abbrev pub pending : ℕ → List Timeout → Bool
pending t = any (λ to. leb t to.expires_at)

module _ {ℓ} {T : Type ℓ} (clock : Clock) (kv : Map (Entry T)) (t : ℕ)
    (late : (c : ℕ) → t ≤ clock.at_round c) where
  -- The heap with which the loop ends, from `m` timeouts after `c` rounds.
  abbrev left_over : ℕ → ℕ → ℕ
  left_over m c = if leb m c then m else (m + c) / 2

  sweep_halves :
      (fuel c : ℕ) (heap : List Timeout) (found : Map T)
      → length heap < fuel
      → IsHeap heap
      → pending t heap ≡ false
      → (heap' : List Timeout) × (found' : Map T) × (sweep fuel c clock kv heap found
          ≡ some (heap', found', pos 0))
        × (length heap' ≡ left_over (length heap) c)
        × (pending t heap' ≡ false)
  sweep_halves zero c heap found f order past = absurd (omega arith)
  sweep_halves (suc fuel) c heap found f order past =
      elim (Bool-cases (length heap == 0 || leb (length heap) c)) [
        | inl done ↦ (heap, found, sweep-done clock kv fuel c heap found done, ground arith, past)
        | inr more ↦
            let last = at blank heap 0 in
            let full : 0 < length heap = ground arith in
            let (h, run, order', same) = heap_pop_least heap order full in
            let size = length-perm same in
            let top = get_elem?-at blank heap 0 full in
            let split : pending t (last ∷ h) ≡ false =
              any-perm (λ to. leb t to.expires_at) same ∙ past in
            let due : ltb last.expires_at (clock.at_round c) ≡ true =
              ground (arith, split, late c) in
            elim (Option-cases (lookup last.key kv)) [
              | inl missing ↦
                  let ih =
                    sweep_halves fuel (suc c) h found (omega (arith, size)) order'
                      (ground (arith, split)) in
                  (
                    ih.0,
                    ih.1,
                    sweep-stale clock kv fuel c heap found last more top h run missing ∙ ih.2,
                    ground (arith, ih.3, size),
                    ih.4,
                  )
              | inr (e, here) ↦
                  let ih =
                    sweep_halves fuel (suc c) h (insert last.key e.value found)
                      (omega (arith, size)) order' (ground (arith, split)) in
                  (
                    ih.0,
                    ih.1,
                    sweep-found clock kv fuel c heap found last more top e here h run due ∙ ih.2,
                    ground (arith, ih.3, size),
                    ih.4,
                  )
            ]
      ]

-- Every reading of the clock in every one of the sweeps is at `t` or later, and none goes back.
abbrev pub AreLate : ℕ → List Clock → Type 0
AreLate t [] = Unit
AreLate t (clock ∷ ticks) = ((c : ℕ) → t ≤ clock.at_round c) × IsForward clock × AreLate t ticks

module _ {ℓ} {T : Type ℓ} (t : ℕ) where
  -- A sweep on a store whose timeouts are all past leaves exactly half of them, rounded down.
  pub expire_func-halves :
      (clock : Clock) (s : Store T)
      → ((c : ℕ) → t ≤ clock.at_round c)
      → IsHeap s.heap
      → pending t s.heap ≡ false
      → (r : ℤ × Store T × List (String × T)) × (expire_func clock s ≡ some r)
        × (length r.1.heap ≡ length s.heap / 2)
        × (pending t r.1.heap ≡ false)
  unfolding expire_func
  expire_func-halves clock s late order past = elim (Bool-cases (length s.heap == 0)) [
    | inl bare ↦ ((pos 0, s, []), rw (bare, expire_func) refl, ground arith, past)
    | inr full ↦
        let (h, found, run, half, rest) =
          sweep_halves clock s.kv t late (suc (length s.heap)) 0 s.heap [] (omega arith) order
            past in
        let gone = confirm clock s.kv found in
        (
          (
            remaining_wait clock.until_end h (pos 0),
            record s { kv = delete_all gone s.kv; heap = h },
            notify_expirations gone s.listening,
          ),
          rw (full, run, expire_func) refl,
          ground (arith, half),
          rest,
        )
  ]

  -- Of `n` timeouts that are past, fewer than 2 ^ k, nothing is left after `k` sweeps: the heap is
  -- empty and no key has an entry.
  pub expire_loop-drains :
      (ticks : List Clock) (interval : ℕ) (s : Store T)
      → IsValid s
      → AreLate t ticks
      → pending t s.heap ≡ false
      → length s.heap < 2 ^ length ticks
      → (r : ℕ × Store T × List (String × T)) × (expire_loop ticks interval s ≡ some r)
        × (r.1.heap ≡ [])
        × ((k : String) → lookup k r.1.kv ≡ none)
  unfolding expire_loop
  expire_loop-drains [] interval s valid late past small = (
    (interval, s, []),
    refl,
    empty,
    λ k. elim (Option-cases (lookup k s.kv)) [
      | inl missing ↦ missing
      | inr (e, here) ↦
          let (to, timed, c) = valid.tracked k e here in absurd (ground (arith, c, empty))
    ],
  )
    where
      empty : s.heap ≡ []
      empty = grind arith
  expire_loop-drains (clock ∷ ticks) interval s valid (late, forward, later) past small =
      let (r, run, (valid', _)) = expire_func-Fate clock s valid forward in
      let (r', run', half, past') = expire_func-halves clock s late valid.order past in
      let same : r' ≡ r = some-eq-some (sym run' ∙ run) in
      let next = next_interval s.expiration_interval interval r.0 in
      let (q, runs, bare, gone) =
        expire_loop-drains ticks next r.1 valid' later
          (subst (λ x. pending t x.1.heap ≡ false) same past')
          (omega (
            arith,
            pow-suc 2 (length ticks),
            subst (λ x. length x.1.heap ≡ length s.heap / 2) same half,
          )) in
      ((q.0, q.1, r.2 ++ q.2), rw (run, expire_loop) (rw (runs, ◌>>=◌) refl), bare, gone)
