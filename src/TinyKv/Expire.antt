-- ===== src/TinyKv/Expire.antt =====
-- pkg/tinykv/tinykv.go: expireFunc, the sweep that expires entries, and the interval of expireLoop.
pub mod Sweep
pub mod Unseen
pub mod Progress
pub mod Interval
use sablier.Prelude.{
  ◌>>=◌, ℕ, zero, suc, ◌+◌, ◌*◌, ◌/◌, String, Bool, true, false, ◌&&◌, ◌||◌, not, List, [], ◌∷◌,
  ◌++◌, Option, none, some, ltb, leb, ◌==◌, if◌then◌else◌, length, get_elem?, Map, lookup, insert,
  delete, keys,
}
use sablier.Prelude.Int.{ℤ, pos, negsuc, sub_ℕ, ltb_ℤ, leb_ℤ}
use sablier.TinyKv.Heap.{Timeout, expired, heap_pop}
use sablier.TinyKv.Store.{Entry, Store, notify_expirations}

-- The readings of the clock in one call of expireFunc: in each round of the loop the one of
-- `expired` and the one of time.Until, then one for each candidate, and the last time.Until.
pub record Clock : Type 0 where
  pub at_round : ℕ → ℕ
  pub until_round : ℕ → ℕ
  pub at_key : String → ℕ
  pub until_end : ℕ

-- `time.Until`, or the whole duration of a timeout that is past.
pub wait_for : Timeout → ℕ → ℤ
wait_for last now =
    let left = sub_ℕ last.expires_at now in if ltb_ℤ left (pos 0) then last.expires_after else left

-- The interval of expireLoop after a sweep that returned `v`. It starts positive.
pub next_interval : ℕ → ℕ → ℤ → ℕ
next_interval expiration interval v =
    let size : ℕ = elim v [ pos n ↦ n | negsuc n ↦ suc n ] in
    let i = if ltb 0 size && leb size expiration then (2 * interval + size) / 3 else interval in
    if i == 0 then 1_000_000 else i

-- What expireFunc returns when the loop left no interval.
pub remaining_wait : ℕ → List Timeout → ℤ → ℤ
remaining_wait now [] i = i
remaining_wait now (last ∷ heap) (pos zero) = wait_for last now
remaining_wait now (last ∷ heap) i = i

module _ {ℓ} {T : Type ℓ} where
  -- The loop of expireFunc: `c` counts its rounds, `found` is the map of expired values.
  pub sweep :
      ℕ → ℕ → Clock → Map (Entry T) → List Timeout → Map T → Option (List Timeout × Map T × ℤ)
  sweep zero c clock kv heap found = none
  sweep (suc fuel) c clock kv heap found = elim (length heap == 0 || leb (length heap) c) [
    | true ↦ some (heap, found, pos 0)
    | false ↦ get_elem? heap 0 >>= λ last. elim (lookup last.key kv) [
      | none ↦ heap_pop heap >>= λ popped. sweep fuel (suc c) clock kv popped.1 found
      | some e ↦ elim (expired (some last) (clock.at_round c)) [
        | false ↦ some (heap, found, wait_for last (clock.until_round c))
        | true ↦ heap_pop heap >>= λ popped.
            sweep fuel (suc c) clock kv popped.1 (insert popped.0.key e.value found)
      ]
    ]
  ]

  -- Whether a candidate is still in the map and still expired.
  pub still_expired : Clock → Map (Entry T) → String → Bool
  still_expired clock kv k = elim (lookup k kv) [
    | none ↦ false
    | some e ↦ elim e.timeout [ none ↦ false | some to ↦ ltb to.expires_at (clock.at_key k) ]
  ]

  pub confirm : Clock → Map (Entry T) → Map T → Map T
  unfolding still_expired
  confirm clock kv [] = []
  confirm clock kv ((k, v) ∷ found) =
      let rest = confirm clock kv found in if still_expired clock kv k then (k, v) ∷ rest else rest

  pub delete_all : Map T → Map (Entry T) → Map (Entry T)
  delete_all [] kv = kv
  delete_all ((k, v) ∷ gone) kv = delete_all gone (delete k kv)

  unfoldable pub expire_func : Clock → Store T → Option (ℤ × Store T × List (String × T))
  unfolding sweep confirm delete_all remaining_wait wait_for notify_expirations
  expire_func clock s = if length s.heap == 0 then some (pos 0, s, []) else (do
    swept ← sweep (suc (length s.heap)) 0 clock s.kv s.heap []
    let gone = confirm clock s.kv swept.1
    some (
      remaining_wait clock.until_end swept.0 swept.2,
      record s { kv = delete_all gone s.kv; heap = swept.0 },
      notify_expirations gone s.listening,
    ))

  -- expireLoop: one sweep for each tick of the timer, until the store is stopped after the last one.
  -- The result is the interval that the timer was last set to, the store and the callbacks' calls.
  pub expire_loop : List Clock → ℕ → Store T → Option (ℕ × Store T × List (String × T))
  unfolding next_interval
  expire_loop [] interval s = some (interval, s, [])
  expire_loop (clock ∷ ticks) interval s = expire_func clock s >>= λ r.
      expire_loop ticks (next_interval s.expiration_interval interval r.0) r.1 >>= λ rest.
      some (rest.0, rest.1, r.2 ++ rest.2)
