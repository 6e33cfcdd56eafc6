-- ===== src/TinyKv/Tests.antt =====
-- Concrete runs of the store, and the theorems about it at concrete inputs.
use sablier.TinyKv.Snapshot.Restore.{restored, unmarshal-marshal}
use sablier.TinyKv.Snapshot.{Readings, marshal, unmarshal}
use sablier.Prelude.{
  ℕ, ◌≤◌, ◌<◌, ◌≡◌, refl, String, true, false, List, [], ◌∷◌, none, some, arith, if◌then◌else◌,
  length, Map, lookup, str_eq, inl, inr, ltb, Bool-cases, insert, delete, has_key, keys,
}
use sablier.Prelude.Int.{ℤ, pos, negsuc}
use sablier.Prelude.Arrays.{at}
use sablier.TinyKv.Heap.{Timeout, add_duration, heap_push, heap_pop}
use sablier.TinyKv.Heap.Order.{blank, IsHeap}
use sablier.TinyKv.Heap.Pop.{heap_pop_least}
use sablier.TinyKv.Store.{
  Entry, Store, get, put, notify_expirations, new, stored_keys, set_on_expire, values, stop,
}
use sablier.TinyKv.Store.View.{view, IsValid, put-view}
use sablier.TinyKv.Expire.{Clock, next_interval, expire_func, expire_loop}
use sablier.TinyKv.Expire.Unseen.{Swept, expire_func-Fate}
use sablier.TinyKv.Expire.Progress.{pending, expire_func-halves, expire_loop-drains}
use sablier.TinyKv.Expire.Interval.{next_interval_bounds, weighted, magnitude}
use mathlib.Core.List.{Perm}

abbrev timeout_at : ℕ → String → Timeout
timeout_at t key = record { expires_at = t; expires_after = pos 5; key = key }

abbrev two_timeouts : List Timeout
two_timeouts = timeout_at 5 "a" ∷ timeout_at 9 "b" ∷ []

abbrev two_entries : Map (Entry ℕ)
two_entries =
    ("a", record { timeout = some (timeout_at 5 "a"); value = 1 })
    ∷ ("b", record { timeout = some (timeout_at 9 "b"); value = 2 })
    ∷ []

abbrev sample : Store ℕ
sample = record {
  listening = true;
  stopped = false;
  expiration_interval = 10;
  kv = two_entries;
  heap = two_timeouts;
}

abbrev still_at : ℕ → Clock
still_at t = record { at_round = λ c. t; until_round = λ c. t; at_key = λ k. t; until_end = t }

two_timeouts-IsHeap : IsHeap two_timeouts
unfolding at
two_timeouts-IsHeap = grind arith

sample-IsValid : IsValid sample
unfolding lookup has_key
sample-IsValid = record {
  order = two_timeouts-IsHeap;
  tracked = λ k e h. elim (Bool-cases (str_eq "a" k)) [
    | inl first ↦ (timeout_at 5 "a", ground arith, ground arith)
    | inr rest ↦ (timeout_at 9 "b", ground arith, ground arith)
  ];
  unique = (refl, (refl, tt));
}

push_first :
    heap_push two_timeouts (timeout_at 3 "c")
    ≡ some (timeout_at 3 "c" ∷ timeout_at 9 "b" ∷ timeout_at 5 "a" ∷ [])
unfolding heap_push
push_first = refl

pop_first : heap_pop two_timeouts ≡ some (timeout_at 5 "a", timeout_at 9 "b" ∷ [])
unfolding heap_pop
pop_first = refl

get_late : (get "a" 6 sample).1 ≡ ("a", 1) ∷ []
unfolding get lookup notify_expirations
get_late = refl

sweep_once :
    expire_func (still_at 20) sample
    ≡ some (
      pos 5,
      record sample {
        kv = ("b", record { timeout = some (timeout_at 9 "b"); value = 2 }) ∷ [];
        heap = timeout_at 9 "b" ∷ [];
      },
      ("a", 1) ∷ [],
    )
unfolding expire_func lookup insert delete heap_pop notify_expirations
sweep_once = refl

heap_pop_least_example :
    (h : List Timeout) × (heap_pop two_timeouts ≡ some (at blank two_timeouts 0, h))
    × IsHeap h
    × Perm (at blank two_timeouts 0 ∷ h) two_timeouts
heap_pop_least_example = heap_pop_least two_timeouts two_timeouts-IsHeap (omega arith)

put-view_example :
    (s : Store ℕ) × (put "a" 7 (pos 4) 6 sample ≡ some s)
    × IsValid s
    × ((j : String) (later : ℕ)
        → view s later j ≡ (
            if str_eq "a" j
            then (if ltb (add_duration 6 (pos 4)) later then none else some 7)
            else view sample later j))
put-view_example = put-view "a" 7 (pos 4) 6 sample sample-IsValid

expire_func-Fate_example :
    (r : ℤ × Store ℕ × List (String × ℕ)) × (expire_func (still_at 20) sample ≡ some r)
    × Swept (still_at 20) sample r
expire_func-Fate_example = expire_func-Fate (still_at 20) sample sample-IsValid (λ c k. omega arith)

expire_func-halves_example :
    (r : ℤ × Store ℕ × List (String × ℕ)) × (expire_func (still_at 20) sample ≡ some r)
    × (length r.1.heap ≡ 1)
    × (pending 20 r.1.heap ≡ false)
expire_func-halves_example =
    expire_func-halves 20 (still_at 20) sample (λ c. omega arith) two_timeouts-IsHeap refl

expire_loop-drains_example :
    (r : ℕ × Store ℕ × List (String × ℕ)) × (expire_loop (still_at 20 ∷ still_at 30 ∷ []) 10 sample
      ≡ some r)
    × (r.1.heap ≡ [])
    × ((k : String) → lookup k r.1.kv ≡ none)
expire_loop-drains_example =
    expire_loop-drains 20 (still_at 20 ∷ still_at 30 ∷ []) 10 sample sample-IsValid (omega arith)
      refl (omega arith)

next_interval_bounds_example :
    (next_interval 10 10 (negsuc 3) ≡ weighted 10 10 (magnitude (negsuc 3)))
    × (0 < weighted 10 10 (magnitude (negsuc 3)))
    × (weighted 10 10 (magnitude (negsuc 3)) ≤ 10)
next_interval_bounds_example = next_interval_bounds 10 10 (negsuc 3) (omega arith) (omega arith)

new_defaults :
    ((new {T = ℕ} (negsuc 0) false).expiration_interval ≡ 20_000_000_000)
    × ((set_on_expire (stop (new {T = ℕ} (pos 7) false))).listening ≡ true)
    × ((stop (new {T = ℕ} (pos 7) false)).stopped ≡ true)
unfolding new set_on_expire stop
new_defaults = (refl, refl, refl)

listed : (stored_keys sample ≡ "a" ∷ "b" ∷ []) × (values sample.kv ≡ 1 ∷ 2 ∷ [])
unfolding stored_keys values keys
listed = (refl, refl)

abbrev readings : String → Readings
readings k = record { tested = 7; measured = 7; stored = 7 }

abbrev empty_store : Store ℕ
empty_store = record {
  listening = true;
  stopped = false;
  expiration_interval = 10;
  kv = [];
  heap = [];
}

empty_store-IsValid : IsValid empty_store
unfolding lookup
empty_store-IsValid = record {
  order = λ c p q. absurd (omega arith);
  tracked = λ k e h. cc;
  unique = tt;
}

saved : marshal two_entries ≡ some (("a", (1, 5)) ∷ ("b", (2, 9)) ∷ [])
unfolding marshal
saved = refl

unmarshal-marshal_example :
    (doc : Map (ℕ × ℕ)) × (marshal sample.kv ≡ some doc)
    × (t' : Store ℕ) × (unmarshal readings doc empty_store ≡ some t')
    × IsValid t'
    × ((k : String) (later : ℕ)
        → view t' later k
          ≡ restored (readings k) later (lookup k sample.kv) (view empty_store later k))
unmarshal-marshal_example =
    unmarshal-marshal readings sample empty_store sample-IsValid empty_store-IsValid
