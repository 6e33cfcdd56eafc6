-- ===== src/Metrics.antt =====
-- pkg/metrics/prom.go and collector.go: what the recorder keeps between its calls, and what it hands to
-- the Prometheus client, which is the log. Every reading of the clock is an argument, in nanoseconds.
use sablier.Groups.{Registry}
use sablier.Prelude.{
  [], ◌∷◌, some, none, true, false, inl, inr, refl, arith, suc, zero, ℕ, String, Map, List, Bool,
  if◌then◌else◌, lookup, delete, insert, has_key, ◌-◌, ltb, ◌+◌,
}
pub mod Active
mod Tests

-- A call on one of the client's counters and histograms, with its labels.
pub data Observation : Type 0 where
  session_requested : String → String → Observation
  start_failed : String → Observation
  instance_stopped : String → String → Observation
  start_took : String → ℕ → Observation
  ready_took : String → ℕ → Observation
  active_for : String → ℕ → Observation

pub record PromRecorder : Type 0 where
  pub active_instances : Map Bool
  pub active_since : Map ℕ
  pub ready_wait : Map ℕ
  pub log : List Observation

pub new_prom_recorder : PromRecorder
new_prom_recorder = record { active_instances = []; active_since = []; ready_wait = []; log = [] }

observe : Observation → PromRecorder → PromRecorder
observe o r = record r { log = o ∷ r.log }

-- The first begin counts.
record_ready_wait_begin : String → ℕ → PromRecorder → PromRecorder
record_ready_wait_begin instance_name now r =
    if has_key instance_name r.ready_wait
    then r
    else record r { ready_wait = insert instance_name now r.ready_wait }

record_ready_wait_end : String → ℕ → PromRecorder → PromRecorder
unfolding observe
record_ready_wait_end instance_name now r = elim (lookup instance_name r.ready_wait) [
  | none ↦ r
  | some start ↦
      let waited = observe (ready_took instance_name (now - start)) r in
      record waited {
        ready_wait = delete instance_name r.ready_wait;
        active_since = insert instance_name now r.active_since;
      }
]

discard_ready_wait : String → PromRecorder → PromRecorder
discard_ready_wait instance_name r = record r { ready_wait = delete instance_name r.ready_wait }

record_active_instance : String → PromRecorder → PromRecorder
record_active_instance instance_name r = record r {
  active_instances = insert instance_name true r.active_instances;
}

-- The time since the instance became ready is counted, if it is not zero.
record_inactive_instance : String → ℕ → PromRecorder → PromRecorder
unfolding observe
record_inactive_instance instance_name now r =
    let gone = record r { active_instances = delete instance_name r.active_instances } in
    elim (lookup instance_name r.active_since) [
      | none ↦ gone
      | some since ↦
          let left = record gone { active_since = delete instance_name r.active_since } in
          if ltb 0 (now - since)
          then observe (active_for instance_name (now - since)) left
          else left
    ]

-- A call of the recorder.
pub data Recording : Type 0 where
  session_request : String → String → Recording
  start_failure : String → Recording
  stop : String → String → Recording
  start_end : String → ℕ → Recording
  ready_wait_begin : String → Recording
  ready_wait_end : String → Recording
  ready_wait_discard : String → Recording
  active : String → Recording
  inactive : String → Recording

pub record_call : Recording → ℕ → PromRecorder → PromRecorder
unfolding record_ready_wait_begin record_ready_wait_end discard_ready_wait record_active_instance
    record_inactive_instance observe
record_call (session_request strategy target) now r = observe (session_requested strategy target) r
record_call (start_failure instance_name) now r = observe (start_failed instance_name) r
record_call (stop instance_name reason) now r = observe (instance_stopped instance_name reason) r
record_call (start_end instance_name duration) now r = observe (start_took instance_name duration) r
record_call (ready_wait_begin instance_name) now r = record_ready_wait_begin instance_name now r
record_call (ready_wait_end instance_name) now r = record_ready_wait_end instance_name now r
record_call (ready_wait_discard instance_name) now r = discard_ready_wait instance_name r
record_call (active instance_name) now r = record_active_instance instance_name r
record_call (inactive instance_name) now r = record_inactive_instance instance_name now r

-- Calls, each with the time at which it comes.
pub record_calls : List (Recording × ℕ) → PromRecorder → PromRecorder
unfolding record_call
record_calls [] r = r
record_calls ((call, now) ∷ calls) r = record_calls calls (record_call call now r)

-- GroupLockCollector.Collect: of a group, whether it is locked and how many of its members are active.
active_members : List String → Map Bool → ℕ
active_members [] snapshot = 0
active_members (m ∷ ms) snapshot =
    let rest = active_members ms snapshot in if has_key m snapshot then rest + 1 else rest

pub collect_groups : Registry → PromRecorder → List (String × (Bool × ℕ))
unfolding active_members
collect_groups [] r = []
collect_groups ((group, ms) ∷ groups) r =
    let count = active_members ms r.active_instances in
    (group, (ltb 0 count, count)) ∷ collect_groups groups r
