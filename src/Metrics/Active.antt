-- ===== src/Metrics/Active.antt =====
-- The active time of an instance is never counted twice.
-- The active time that the log has of an instance.
use sablier.Metrics.{
  active, inactive, stop, record_call, Observation, PromRecorder, Recording, active_for,
  session_request, observe, session_requested, start_failure, start_failed, stop, instance_stopped,
  start_end, start_took, ready_wait_begin, ready_took, ready_wait_end, ready_wait_discard,
  record_calls, new_prom_recorder,
}
use sablier.Prelude.{
  [], ◌∷◌, some, none, inl, inr, arith, ℕ, String, List, lookup, ◌≤◌, ◌+◌, if◌then◌else◌, ◌-◌,
  str_eq, Bool-cases, has_key, Option-cases, lookup-insert, lookup-delete, eq_iff,
}

abbrev pub active_total : String → List Observation → ℕ
active_total i [] = 0
active_total i (active_for j d ∷ os) = (if str_eq i j then d else 0) + active_total i os
active_total i (session_requested a b ∷ os) = active_total i os
active_total i (start_failed a ∷ os) = active_total i os
active_total i (instance_stopped a b ∷ os) = active_total i os
active_total i (start_took a d ∷ os) = active_total i os
active_total i (ready_took a d ∷ os) = active_total i os

-- The active time that runs still at `now`.
abbrev pub active_still : String → ℕ → PromRecorder → ℕ
active_still i now r = elim (lookup i r.active_since) [ none ↦ 0 | some since ↦ now - since ]

-- The readings of the clock do not go back, and the last is `now`.
abbrev pub IsOrdered : ℕ → List (Recording × ℕ) → ℕ → Type 0
IsOrdered t [] now = t ≤ now
IsOrdered t ((call, at) ∷ calls) now = (t ≤ at) × IsOrdered at calls now

record_call-active :
    (i : String) (call : Recording) (now : ℕ) (r : PromRecorder)
    → active_total i (record_call call now r).log + active_still i now (record_call call now r)
      ≤ active_total i r.log + active_still i now r
unfolding record_call
record_call-active i (session_request strategy target) now r = ground (arith, observe)
record_call-active i (start_failure j) now r = ground (arith, observe)
record_call-active i (stop j reason) now r = ground (arith, observe)
record_call-active i (start_end j duration) now r = ground (arith, observe)
record_call-active i (ready_wait_begin j) now r = elim (Bool-cases (has_key j r.ready_wait)) [
  | inl before ↦ ground (arith, before)
  | inr first ↦ ground (arith, first)
]
record_call-active i (ready_wait_end j) now r = elim (Option-cases (lookup j r.ready_wait)) [
  | inl bare ↦ ground (arith, bare)
  | inr (start, began) ↦ ground (arith, began, lookup-insert j i now r.active_since)
]
record_call-active i (ready_wait_discard j) now r = ground arith
record_call-active i (active j) now r = ground arith
record_call-active i (inactive j) now r = elim (Option-cases (lookup j r.active_since)) [
  | inl bare ↦ ground (arith, bare)
  | inr (since, began) ↦
      ground (arith, began, lookup-delete j i r.active_since, eq_iff i j, eq_iff j i)
]

active_still_later :
    (i : String) (t now : ℕ) (r : PromRecorder)
    → t ≤ now
    → active_still i now r ≤ active_still i t r + (now - t)
active_still_later i t now r h = elim (Option-cases (lookup i r.active_since)) [
  | inl bare ↦ ground (arith, bare)
  | inr (since, began) ↦ ground (arith, began)
]

record_calls-active :
    (i : String) (start t now : ℕ) (calls : List (Recording × ℕ)) (r : PromRecorder)
    → start ≤ t
    → IsOrdered t calls now
    → active_total i r.log + active_still i t r ≤ t - start
    → active_total i (record_calls calls r).log + active_still i now (record_calls calls r)
      ≤ now - start
unfolding record_calls
record_calls-active i start t now [] r before ordered h =
    omega (arith, active_still_later i t now r ordered, h, before, ordered)
record_calls-active i start t now ((call, at) ∷ calls) r before (here, ordered) h =
    record_calls-active i start at now calls (record_call call at r) (omega (arith, before, here))
      ordered
      (omega
        (arith, record_call-active i call at r, active_still_later i t at r here, h, before, here))

-- From a new recorder on, whatever is recorded, and as often, the active time counted of an instance,
-- with what runs still, is never more than the time that has passed, if the clock does not go back.
pub record_calls-active_bounds :
    (i : String) (start now : ℕ) (calls : List (Recording × ℕ))
    → IsOrdered start calls now
    → active_total i (record_calls calls new_prom_recorder).log
        + active_still i now (record_calls calls new_prom_recorder)
      ≤ now - start
unfolding new_prom_recorder lookup
record_calls-active_bounds i start now calls ordered =
    record_calls-active i start start now calls new_prom_recorder (omega arith) ordered
      (omega arith)
