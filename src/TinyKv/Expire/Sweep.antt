-- ===== src/TinyKv/Expire/Sweep.antt =====
-- The loop of expireFunc: it ends, its heap stays in order, and every entry stays tracked or is found.
use mathlib.Core.List.{Perm}
use sablier.Prelude.{
  ℕ, zero, suc, ◌≤◌, ◌<◌, ◌≡◌, sym, ◌∙◌, ◌⊎◌, inl, inr, String, true, false, ◌&&◌, ◌||◌, List, ◌∷◌,
  none, some, arith, ltb, leb, ◌==◌, Option-cases, Bool-cases, length, get_elem?, Map, lookup,
  insert, lookup-insert, str_eq, eq_iff,
}
use sablier.Prelude.Int.{ℤ, pos}
use sablier.Prelude.Arrays.{at, length-perm, get_elem?-at}
use sablier.TinyKv.Heap.{Timeout, heap_pop}
use sablier.TinyKv.Heap.Order.{blank, IsHeap}
use sablier.TinyKv.Heap.Pop.{heap_pop_least}
use sablier.TinyKv.Store.{Entry}
use sablier.TinyKv.Store.View.{any-perm, covers}
use sablier.TinyKv.Expire.{Clock, wait_for, sweep}

-- The readings of the clock do not go back: a candidate is looked at again after it was found.
abbrev pub IsForward : Clock → Type 0
IsForward clock = (c : ℕ) (k : String) → clock.at_round c ≤ clock.at_key k

module _ {ℓ} {T : Type ℓ} (clock : Clock) (kv : Map (Entry T)) where
  -- What is found are values of entries of the map.
  abbrev pub FoundIn : Map T → Type ℓ
  FoundIn found =
      (k : String) (v : T)
      → lookup k found ≡ some v
      → (e : Entry T) × (lookup k kv ≡ some e) × (e.value ≡ v)

  -- The timeout of an entry waits in the heap, or the entry is found and its deadline has passed.
  abbrev pub IsSwept : List Timeout → Map T → Type ℓ
  IsSwept heap found =
      (k : String) (e : Entry T)
      → lookup k kv ≡ some e
      → (to : Timeout) × (e.timeout ≡ some to)
        × ((covers k to.expires_at heap ≡ true)
            ⊎ ((lookup k found ≡ some e.value) × (to.expires_at < clock.at_key k)))

  pub record Loop (heap : List Timeout) (found : Map T) : Type ℓ where
    pub order : IsHeap heap
    pub sound : FoundIn found
    pub swept : IsSwept heap found

  -- A round that drops a timeout of a key that the map has not.
  Loop-stale :
      (heap h : List Timeout) (found : Map T) (last : Timeout)
      → Loop heap found
      → IsHeap h
      → ((k : String) (t : ℕ)
          → covers k t heap ≡ (str_eq last.key k && last.expires_at == t || covers k t h))
      → lookup last.key kv ≡ none
      → Loop h found
  Loop-stale heap h found last v order same missing = record {
    order = order;
    sound = v.sound;
    swept = λ k e held.
        let (to, timed, rest) = v.swept k e held in
        (to, timed, ground (arith, rest, same k to.expires_at, eq_iff last.key k));
  }

  -- A round that finds an expired entry.
  Loop-found :
      (heap h : List Timeout) (found : Map T) (last : Timeout) (e : Entry T) (c : ℕ)
      → Loop heap found
      → IsForward clock
      → IsHeap h
      → ((k : String) (t : ℕ)
          → covers k t heap ≡ (str_eq last.key k && last.expires_at == t || covers k t h))
      → lookup last.key kv ≡ some e
      → ltb last.expires_at (clock.at_round c) ≡ true
      → Loop h (insert last.key e.value found)
  Loop-found heap h found last e c v forward order same here past = record {
    order = order;
    sound = λ k w held. elim (Bool-cases (str_eq last.key k)) [
      | inl this ↦ (
        e,
        ground (arith, eq_iff last.key k),
        ground (arith, lookup-insert last.key k e.value found),
      )
      | inr other ↦ v.sound k w (ground (arith, lookup-insert last.key k e.value found))
    ];
    swept = λ k f held.
        let (to, timed, rest) = v.swept k f held in
        (
          to,
          timed,
          ground (
            arith,
            rest,
            same k to.expires_at,
            eq_iff last.key k,
            forward c k,
            lookup-insert last.key k e.value found,
          ),
        );
  }

  covers-pop :
      (heap h : List Timeout) (last : Timeout)
      → Perm (last ∷ h) heap
      → (k : String) (t : ℕ)
      → covers k t heap ≡ (str_eq last.key k && last.expires_at == t || covers k t h)
  covers-pop heap h last same k t =
      sym (any-perm (λ to. str_eq to.key k && to.expires_at == t) same)

  -- One round of the loop, on each of its branches.
  module _ (fuel c : ℕ) (heap : List Timeout) (found : Map T) where
    pub sweep-done :
        (length heap == 0 || leb (length heap) c) ≡ true
        → sweep (suc fuel) c clock kv heap found ≡ some (heap, found, pos 0)
    unfolding sweep
    sweep-done done = rw (done, sweep)

    module _ (last : Timeout) (more : (length heap == 0 || leb (length heap) c) ≡ false)
        (top : get_elem? heap 0 ≡ some last) where
      pub sweep-stale :
          (h : List Timeout)
          → heap_pop heap ≡ some (last, h)
          → lookup last.key kv ≡ none
          → sweep (suc fuel) c clock kv heap found ≡ sweep fuel (suc c) clock kv h found
      unfolding sweep
      sweep-stale h run missing = ground arith

      module _ (e : Entry T) (here : lookup last.key kv ≡ some e) where
        pub sweep-found :
            (h : List Timeout)
            → heap_pop heap ≡ some (last, h)
            → ltb last.expires_at (clock.at_round c) ≡ true
            → sweep (suc fuel) c clock kv heap found
              ≡ sweep fuel (suc c) clock kv h (insert last.key e.value found)
        unfolding sweep
        sweep-found h run past = ground arith

        pub sweep-early :
            ltb last.expires_at (clock.at_round c) ≡ false
            → sweep (suc fuel) c clock kv heap found
              ≡ some (heap, found, wait_for last (clock.until_round c))
        unfolding sweep
        sweep-early early = ground arith

  -- The loop ends with the fuel that expireFunc gives it, and keeps the invariant.
  pub sweep_ends :
      IsForward clock
      → (fuel c : ℕ) (heap : List Timeout) (found : Map T) → length heap < fuel
      → Loop heap found
      → (heap' : List Timeout) × (found' : Map T) × (i : ℤ) × (sweep fuel c clock kv heap found
          ≡ some (heap', found', i))
        × Loop heap' found'
  sweep_ends forward zero c heap found f v = absurd (omega arith)
  sweep_ends forward (suc fuel) c heap found f v =
      elim (Bool-cases (length heap == 0 || leb (length heap) c)) [
        | inl done ↦ (heap, found, pos 0, sweep-done fuel c heap found done, v)
        | inr more ↦
            let last = at blank heap 0 in
            let full : 0 < length heap = ground arith in
            let (h, run, order, same) = heap_pop_least heap v.order full in
            let size = length-perm same in
            let top = get_elem?-at blank heap 0 full in
            let known = covers-pop heap h last same in
            elim (Option-cases (lookup last.key kv)) [
              | inl missing ↦
                  let ih =
                    sweep_ends forward fuel (suc c) h found (omega (arith, size))
                      (Loop-stale heap h found last v order known missing) in
                  (
                    ih.0,
                    ih.1,
                    ih.2,
                    sweep-stale fuel c heap found last more top h run missing ∙ ih.3,
                    ih.4,
                  )
              | inr (e, here) ↦ elim (Bool-cases (ltb last.expires_at (clock.at_round c))) [
                | inl past ↦
                    let ih =
                      sweep_ends forward fuel (suc c) h (insert last.key e.value found)
                        (omega (arith, size))
                        (Loop-found heap h found last e c v forward order known here past) in
                    (
                      ih.0,
                      ih.1,
                      ih.2,
                      sweep-found fuel c heap found last more top e here h run past ∙ ih.3,
                      ih.4,
                    )
                | inr early ↦ (
                  heap,
                  found,
                  wait_for last (clock.until_round c),
                  sweep-early fuel c heap found last more top e here early,
                  v,
                )
              ]
            ]
      ]
