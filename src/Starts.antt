-- ===== src/Starts.antt =====
-- pkg/sablier/instance_dependency.go: startWithDependencies and what it calls. The provider is a
-- parameter. Dependencies that the program handles at the same time are handled here one after the
-- other, in the order of the graph, and the first that fails cancels those that are left. Starts that
-- other requests have under way are left out, but for the managed ones.
use sablier.Instance.{InstanceStatus, is_status, error}
use sablier.Dependencies.{
  InstanceDependency, DependencyGraph, resolve_dependency_graph, dependency_condition_satisfied,
  dependencies, resolve_failed, resolved, dependency_graph_cycle, cyclic, acyclic,
  resolve_out_of_fuel, search_out_of_fuel,
}
use sablier.Prelude.{
  [], ◌∷◌, some, none, true, false, inl, inr, refl, arith, suc, zero, ℕ, String, Map, Option,
  if◌then◌else◌, Bool, List, insert, lookup,
}
pub mod Log
pub mod Order
pub mod Node
pub mod Whole
mod Tests

-- What is called of the provider, over a world of workloads; `pass` is the world one poll interval
-- later. A Bool says that the call succeeded.
pub record Engine {ℓ} (W : Type ℓ) : Type ℓ where
  pub inspect_status : String → W → Option InstanceStatus
  pub start_instance : String → W → Bool × W
  pub pass : W → W
  pub direct_dependencies : String → Option (List InstanceDependency)
  -- a key of pendingStarts: another request performs the start
  pub is_managed : String → Bool

pub data StartError : Type 0 where
  cannot_resolve : StartError
  cannot_inspect : StartError
  in_error_state : StartError
  timed_out : StartError
  cannot_start : StartError
  deadlock : StartError
  out_of_fuel : StartError

pub data Outcome : Type 0 where
  done : Outcome
  failed : StartError → Outcome

-- What happened, in the order of time from the end of the list.
pub data Event : Type 0 where
  started : String → Event
  -- the condition, and the status that the provider gives when it is met
  met : String → String → Option InstanceStatus → Event

-- The memo has a node from when its start is first asked for; `none` until that ends.
pub record Run {ℓ} (W : Type ℓ) : Type ℓ where
  pub world : W
  pub memo : Map (Option Outcome)
  pub log : List Event

module _ {ℓ} {W : Type ℓ} (engine : Engine W) (ticks : ℕ) where
  -- `left` polls are left before the deadline.
  pub wait_for_dependency_condition : ℕ → String → String → W → Outcome × W
  wait_for_dependency_condition zero name condition w = elim (engine.inspect_status name w) [
    | none ↦ (failed cannot_inspect, w)
    | some status ↦
        if is_status status error
        then (failed in_error_state, w)
        else if dependency_condition_satisfied status condition
        then (done, w)
        else (failed timed_out, w)
  ]
  wait_for_dependency_condition (suc left) name condition w =
      let later = wait_for_dependency_condition left name condition (engine.pass w) in
      elim (engine.inspect_status name w) [
        | none ↦ (failed cannot_inspect, w)
        | some status ↦
            if is_status status error
            then (failed in_error_state, w)
            else if dependency_condition_satisfied status condition
            then (done, w)
            else later
      ]

  pub is_satisfied : InstanceDependency → W → Bool
  is_satisfied dep w = elim (engine.inspect_status dep.name w) [
    | none ↦ false
    | some status ↦ dependency_condition_satisfied status dep.condition
  ]

  -- The end of satisfyDependency, after the start of the node.
  pub await_dependency : InstanceDependency → Outcome × Run W → Outcome × Run W
  unfolding wait_for_dependency_condition
  await_dependency dep (failed e, run) = (failed e, run)
  await_dependency dep (done, run) =
      let (o, w) = wait_for_dependency_condition ticks dep.name dep.condition run.world in
      elim o [
        | done ↦ (
          done,
          record run {
            world = w;
            log = met dep.name dep.condition (engine.inspect_status dep.name w) ∷ run.log;
          },
        )
        | failed e ↦ (failed e, record run { world = w })
      ]

  pub satisfy_dependency :
      (String → Run W → Outcome × Run W) → InstanceDependency → Run W → Outcome × Run W
  unfolding await_dependency
  satisfy_dependency start_node dep run =
      if is_satisfied dep run.world
      then (
        done,
        record run {
          log = met dep.name dep.condition (engine.inspect_status dep.name run.world) ∷ run.log;
        },
      )
      else await_dependency dep (start_node dep.name run)

  pub satisfy_each :
      (String → Run W → Outcome × Run W) → List InstanceDependency → Run W → Outcome × Run W
  satisfy_each start_node [] run = (done, run)
  satisfy_each start_node (dep ∷ deps) run =
      let (o, next) = satisfy_dependency start_node dep run in
      elim o [ done ↦ satisfy_each start_node deps next | failed e ↦ (failed e, next) ]

  ensure_dependency_started : String → Run W → Outcome × Run W
  ensure_dependency_started name run =
      let (good, w) = engine.start_instance name run.world in
      let asked = record run { world = w; log = started name ∷ run.log } in
      if engine.is_managed name
      then (done, run)
      else if good
      then (done, asked)
      else (failed cannot_start, asked)

  -- The rest of startDependencyNode, after the node's own dependencies.
  start_after : String → Outcome × Run W → Outcome × Run W
  unfolding ensure_dependency_started
  start_after node (failed e, run) = (failed e, run)
  start_after node (done, run) = ensure_dependency_started node run

  close_result : String → Outcome × Run W → Outcome × Run W
  close_result node (o, run) = (o, record run { memo = insert node (some o) run.memo })

  pub start_dependency_node : ℕ → DependencyGraph → String → Run W → Outcome × Run W
  unfolding satisfy_each start_after close_result
  start_dependency_node zero graph node run = (failed out_of_fuel, run)
  start_dependency_node (suc fuel) graph node run = elim (lookup node run.memo) [
    | some (some o) ↦ (o, run)
    | some none ↦ (failed deadlock, run)
    | none ↦
        let first = record run { memo = insert node none run.memo } in
        close_result node (
          start_after node
            (satisfy_each (start_dependency_node fuel graph) (dependencies graph node) first))
  ]

  -- The last call of startWithDependencies.
  pub start_root : String → Outcome × Run W → Outcome × Run W
  start_root root (failed e, run) = (failed e, run)
  start_root root (done, run) =
      let (good, w) = engine.start_instance root run.world in
      let asked = record run { world = w; log = started root ∷ run.log } in
      if good then (done, asked) else (failed cannot_start, asked)

  pub start_with_dependencies : ℕ → String → W → Outcome × Run W
  unfolding start_dependency_node start_root
  start_with_dependencies fuel root w =
      let fresh : Run W = record { world = w; memo = []; log = [] } in
      elim (resolve_dependency_graph fuel engine.direct_dependencies root []) [
        | resolve_failed ↦ (failed cannot_resolve, fresh)
        | resolve_out_of_fuel ↦ (failed out_of_fuel, fresh)
        | resolved graph ↦ elim (dependency_graph_cycle fuel root graph) [
          | cyclic path ↦ start_root root (done, fresh)
          | search_out_of_fuel ↦ (failed out_of_fuel, fresh)
          | acyclic state ↦
              start_root root
                (satisfy_each (start_dependency_node fuel graph) (dependencies graph root) fresh)
        ]
      ]
