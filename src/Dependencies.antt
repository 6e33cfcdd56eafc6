-- ===== src/Dependencies.antt =====
-- pkg/sablier/instance_dependency.go: the instances that an instance depends on are started before it.
-- The recursions of the program are on names, so they run on fuel here: Resolve, Cycle and Order show
-- how much is enough.
use sablier.Instance.{InstanceStatus, is_status, ready, completed, starting}
use sablier.Prelude.{
  [], ◌∷◌, some, none, true, false, inl, inr, refl, arith, suc, zero, ℕ, String, Map, List, Bool,
  lookup, Option, insert, ◌++◌, if◌then◌else◌, has_key, str_eq, ◌||◌,
}
pub mod Resolve
pub mod Cycle
pub mod Visit
pub mod Acyclic
pub mod Graph
mod Tests

pub record InstanceDependency : Type 0 where
  pub name : String
  pub condition : String

unfoldable pub dependency_condition_satisfied : InstanceStatus → String → Bool
dependency_condition_satisfied status condition =
    if str_eq condition "service_healthy"
    then is_status status ready
    else if str_eq condition "service_completed_successfully"
    then is_status status completed
    else if str_eq condition "service_running_or_healthy"
    then is_status status starting || is_status status ready
    else is_status status starting || is_status status ready || is_status status completed

abbrev pub DependencyGraph : Type 0
DependencyGraph = Map (List InstanceDependency)

-- `graph[node]`
abbrev pub dependencies : DependencyGraph → String → List InstanceDependency
dependencies graph node = elim (lookup node graph) [ none ↦ [] | some deps ↦ deps ]

pub data Resolved : Type 0 where
  resolved : DependencyGraph → Resolved
  resolve_failed : Resolved
  resolve_out_of_fuel : Resolved

-- The loop over the dependencies of one instance.
unfoldable pub resolve_each :
    (String → DependencyGraph → Resolved) → List InstanceDependency → DependencyGraph → Resolved
resolve_each resolve [] graph = resolved graph
resolve_each resolve (dep ∷ deps) graph = elim (resolve dep.name graph) [
  | resolved next ↦ resolve_each resolve deps next
  | resolve_failed ↦ resolve_failed
  | resolve_out_of_fuel ↦ resolve_out_of_fuel
]

-- The provider answers with the direct dependencies of an instance, or with an error.
unfoldable pub resolve_dependency_graph :
    ℕ → (String → Option (List InstanceDependency)) → String → DependencyGraph → Resolved
unfolding resolve_each
resolve_dependency_graph zero provider name graph = resolve_out_of_fuel
resolve_dependency_graph (suc fuel) provider name graph = elim (has_key name graph) [
  | true ↦ resolved graph
  | false ↦ elim (provider name) [
    | none ↦ resolve_failed
    | some deps ↦
        resolve_each (resolve_dependency_graph fuel provider) deps (insert name deps graph)
  ]
]

-- The colours of the depth-first search; a node without one is not visited yet.
pub data Colour : Type 0 where
  visiting : Colour
  visited : Colour

-- The offending path is a list of names; the program joins them by arrows.
pub data Search : Type 0 where
  cyclic : List String → Search
  acyclic : Map Colour → Search
  search_out_of_fuel : Search

unfoldable pub visit_each :
    (String → Map Colour → Search) → List String → List InstanceDependency → Map Colour → Search
visit_each visit path [] state = acyclic state
visit_each visit path (dep ∷ deps) state = elim (lookup dep.name state) [
  | some visiting ↦ cyclic (path ++ dep.name ∷ [])
  | some visited ↦ visit_each visit path deps state
  | none ↦ elim (visit dep.name state) [
    | cyclic p ↦ cyclic p
    | acyclic next ↦ visit_each visit path deps next
    | search_out_of_fuel ↦ search_out_of_fuel
  ]
]

unfoldable pub finish_visit : String → Search → Search
finish_visit node (cyclic p) = cyclic p
finish_visit node (acyclic state) = acyclic (insert node visited state)
finish_visit node search_out_of_fuel = search_out_of_fuel

unfoldable pub visit : ℕ → DependencyGraph → List String → String → Map Colour → Search
unfolding visit_each finish_visit
visit zero graph path node state = search_out_of_fuel
visit (suc fuel) graph path node state =
    let path' = path ++ node ∷ [] in
    finish_visit node (
      visit_each (visit fuel graph path') path' (dependencies graph node)
        (insert node visiting state))

unfoldable pub dependency_graph_cycle : ℕ → String → DependencyGraph → Search
unfolding visit
dependency_graph_cycle fuel root graph = visit fuel graph [] root []
