-- ===== src/Starts/Log.antt =====
-- What the log of a run says, and which logs are in order.
use sablier.Instance.{
  InstanceStatus, is_status, ready, completed, starting, unset, stopped, error, not_ready,
}
use sablier.Starts.{
  is_satisfied, Outcome, wait_for_dependency_condition, Event, Engine, started, met, failed, done,
  deadlock, out_of_fuel, cannot_resolve, cannot_inspect, in_error_state, timed_out, cannot_start,
}
use sablier.Dependencies.{
  InstanceDependency, DependencyGraph, dependencies, dependency_condition_satisfied,
}
use sablier.Prelude.{
  [], ◌∷◌, some, none, true, false, inl, inr, refl, arith, suc, zero, ℕ, String, List, Option, Bool,
  ◌&&◌, ◌≡◌, str_eq, Option-cases, ◌||◌, not, Bool-cases, eq_iff,
}

abbrev pub has_started : String → List Event → Bool
has_started name [] = false
has_started name (started n ∷ log) = str_eq n name || has_started name log
has_started name (met n c seen ∷ log) = has_started name log

abbrev pub has_met : InstanceDependency → List Event → Bool
has_met dep [] = false
has_met dep (started n ∷ log) = has_met dep log
has_met dep (met n c seen ∷ log) = (str_eq n dep.name && str_eq c dep.condition) || has_met dep log

abbrev pub all_met : List InstanceDependency → List Event → Bool
all_met [] log = true
all_met (dep ∷ deps) log = has_met dep log && all_met deps log

-- The statuses that Docker Compose's conditions accept.
abbrev pub accepts : String → InstanceStatus → Bool
accepts condition ready = not (str_eq condition "service_completed_successfully")
accepts condition completed =
    not (str_eq condition "service_healthy" || str_eq condition "service_running_or_healthy")
accepts condition starting =
    not (str_eq condition "service_healthy" || str_eq condition "service_completed_successfully")
accepts condition unset = false
accepts condition stopped = false
accepts condition error = false
accepts condition not_ready = false

abbrev pub shows : String → Option InstanceStatus → Bool
shows condition none = false
shows condition (some status) = accepts condition status

accepted :
    (status : InstanceStatus) (condition : String)
    → dependency_condition_satisfied status condition ≡ true
    → accepts condition status ≡ true
unfolding dependency_condition_satisfied
accepted ready condition h = elim (Bool-cases (str_eq condition "service_healthy")) [
  | inl healthy ↦ rw ((eq_iff condition "service_healthy").0 healthy) refl
  | inr other ↦ ground (arith, h, other)
]
accepted completed condition h =
    elim (Bool-cases (str_eq condition "service_completed_successfully")) [
      | inl ended ↦ rw ((eq_iff condition "service_completed_successfully").0 ended) refl
      | inr other ↦ ground (arith, h, other)
    ]
accepted starting condition h = ground (arith, h)
accepted unset condition h = absurd (ground (arith, h))
accepted stopped condition h = absurd (ground (arith, h))
accepted error condition h = absurd (ground (arith, h))
accepted not_ready condition h = absurd (ground (arith, h))

-- Each instance is started at most once, and only after every one of its dependencies has met its
-- condition, which the provider's status of it then shows.
abbrev pub IsOrdered : DependencyGraph → List Event → Type 0
IsOrdered graph [] = Unit {0}
IsOrdered graph (met n c seen ∷ log) = (shows c seen ≡ true) × IsOrdered graph log
IsOrdered graph (started n ∷ log) =
    (has_started n log ≡ false) × (all_met (dependencies graph n) log ≡ true) × IsOrdered graph log

abbrev pub is_done : Outcome → Bool
is_done done = true
is_done (failed e) = false

-- The outcomes that the program cannot have.
abbrev pub is_stuck : Outcome → Bool
is_stuck done = false
is_stuck (failed deadlock) = true
is_stuck (failed out_of_fuel) = true
is_stuck (failed cannot_resolve) = false
is_stuck (failed cannot_inspect) = false
is_stuck (failed in_error_state) = false
is_stuck (failed timed_out) = false
is_stuck (failed cannot_start) = false

-- A start that is under way, and one that has ended.
abbrev pub is_open : Option (Option Outcome) → Bool
is_open none = false
is_open (some none) = true
is_open (some (some o)) = false

abbrev pub is_finished : Option (Option Outcome) → Bool
is_finished none = false
is_finished (some none) = false
is_finished (some (some o)) = true

abbrev pub stuck_entry : Option (Option Outcome) → Bool
stuck_entry none = false
stuck_entry (some none) = false
stuck_entry (some (some o)) = is_stuck o

pub all_met-later :
    (deps : List InstanceDependency) (old new : List Event)
    → ((dep : InstanceDependency) → has_met dep old ≡ true → has_met dep new ≡ true)
    → all_met deps old ≡ true
    → all_met deps new ≡ true
all_met-later [] old new later h = refl
all_met-later (dep ∷ deps) old new later h =
    ground (arith, later dep, all_met-later deps old new later, h)

pub wait-is_stuck {ℓ} :
    {W : Type ℓ} (engine : Engine W) (ticks left : ℕ) (name condition : String) (w : W)
    → is_stuck (wait_for_dependency_condition engine ticks left name condition w).0 ≡ false
unfolding wait_for_dependency_condition
wait-is_stuck engine ticks zero name condition w =
    elim (Option-cases (engine.inspect_status name w)) [
      | inl gone ↦ ground arith
      | inr (status, seen) ↦ ground arith
    ]
wait-is_stuck engine ticks (suc left) name condition w =
    elim (Option-cases (engine.inspect_status name w)) [
      | inl gone ↦ ground arith
      | inr (status, seen) ↦
          ground (arith, wait-is_stuck engine ticks left name condition (engine.pass w))
    ]

pub is_satisfied-shows {ℓ} :
    {W : Type ℓ} (engine : Engine W) (ticks : ℕ) (dep : InstanceDependency) (w : W)
    → is_satisfied engine ticks dep w ≡ true
    → shows dep.condition (engine.inspect_status dep.name w) ≡ true
unfolding is_satisfied
is_satisfied-shows engine ticks dep w h = elim (Option-cases (engine.inspect_status dep.name w)) [
  | inl gone ↦ absurd (ground (arith, h, gone))
  | inr (status, seen) ↦ rw (seen) (accepted status dep.condition (rw (is_satisfied, seen) at h))
]

-- A wait that ends well ends in a world in which the provider's status meets the condition.
pub wait-shows {ℓ} :
    {W : Type ℓ} (engine : Engine W) (ticks left : ℕ) (name condition : String) (w : W)
    → (wait_for_dependency_condition engine ticks left name condition w).0 ≡ done
    → shows condition (
        engine.inspect_status name
          (wait_for_dependency_condition engine ticks left name condition w).1)
      ≡ true
unfolding wait_for_dependency_condition
wait-shows engine ticks zero name condition w h =
    elim (Option-cases (engine.inspect_status name w)) [
      | inl gone ↦ absurd (ground (arith, h, gone))
      | inr (status, seen) ↦ elim (Bool-cases (is_status status error)) [
        | inl broken ↦ absurd (ground (arith, h, seen, broken))
        | inr fine ↦ elim (Bool-cases (dependency_condition_satisfied status condition)) [
          | inr unmet ↦ absurd (ground (arith, h, seen, fine, unmet))
          | inl holds ↦
              rw (wait_for_dependency_condition, seen, fine, holds, seen)
                (accepted status condition holds)
        ]
      ]
    ]
wait-shows engine ticks (suc left) name condition w h =
    elim (Option-cases (engine.inspect_status name w)) [
      | inl gone ↦ absurd (ground (arith, h, gone))
      | inr (status, seen) ↦ elim (Bool-cases (is_status status error)) [
        | inl broken ↦ absurd (ground (arith, h, seen, broken))
        | inr fine ↦ elim (Bool-cases (dependency_condition_satisfied status condition)) [
          | inl holds ↦
              rw (wait_for_dependency_condition, seen, fine, holds, seen)
                (accepted status condition holds)
          | inr unmet ↦
              rw (wait_for_dependency_condition, seen, fine, unmet)
                (wait-shows engine ticks left name condition (engine.pass w)
                  (rw (wait_for_dependency_condition, seen, fine, unmet) at h))
        ]
      ]
    ]
