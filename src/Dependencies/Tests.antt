-- ===== src/Dependencies/Tests.antt =====
-- A pair, and a cycle of two.
use sablier.Dependencies.Cycle.{IsClosed}
use sablier.Instance.{ready}
use sablier.Dependencies.Resolve.{EndsFor, HasNamedAnswers, resolve_dependency_graph-EndsFor}
use sablier.Dependencies.Acyclic.{Answers, dependency_graph_cycle-Answers}
use sablier.Dependencies.{
  DependencyGraph, dependency_condition_satisfied, dependency_graph_cycle, InstanceDependency,
  cyclic, resolve_dependency_graph,
}
use sablier.Prelude.{
  [], ◌∷◌, true, inl, inr, refl, arith, String, List, lookup, Option, ◌≡◌, str_eq, Bool-cases,
  eq_iff, insert,
}

abbrev needs : String → InstanceDependency
needs name = record { name = name; condition = "service_healthy" }

abbrev pair : DependencyGraph
pair = ("app", needs "db" ∷ []) ∷ ("db", []) ∷ []

abbrev loop_of_two : DependencyGraph
loop_of_two = ("a", needs "b" ∷ []) ∷ ("b", needs "a" ∷ []) ∷ []

abbrev pair_names : List String
pair_names = "app" ∷ "db" ∷ []

abbrev answers : String → Option (List InstanceDependency)
answers name = lookup name pair

abbrev loop_names : List String
loop_names = "a" ∷ "b" ∷ []

healthy : dependency_condition_satisfied ready "service_healthy" ≡ true
unfolding dependency_condition_satisfied
healthy = refl

loop_found : dependency_graph_cycle 3 "a" loop_of_two ≡ cyclic ("a" ∷ "b" ∷ "a" ∷ [])
unfolding dependency_graph_cycle lookup insert
loop_found = refl

loop-IsClosed : IsClosed loop_of_two loop_names "a"
unfolding lookup
loop-IsClosed n d known dep = elim (Bool-cases (str_eq "a" n)) [
  | inl this ↦ ground (arith, this, dep, eq_iff "b" d)
  | inr other ↦ elim (Bool-cases (str_eq "b" n)) [
    | inl that ↦ ground (arith, other, that, dep, eq_iff "a" d)
    | inr none_left ↦ absurd (ground (arith, other, none_left, known))
  ]
]

dependency_graph_cycle-Answers_example :
    Answers loop_of_two loop_names "a" (dependency_graph_cycle 3 "a" loop_of_two)
dependency_graph_cycle-Answers_example =
    dependency_graph_cycle-Answers loop_of_two loop_names "a" loop-IsClosed refl

pair-HasNamedAnswers : HasNamedAnswers answers pair_names
unfolding lookup
pair-HasNamedAnswers n deps known said d dep = elim (Bool-cases (str_eq "app" n)) [
  | inl this ↦ ground (arith, this, said, dep, eq_iff "db" d)
  | inr other ↦ elim (Bool-cases (str_eq "db" n)) [
    | inl that ↦ absurd (ground (arith, other, that, said, dep))
    | inr none_left ↦ absurd (ground (arith, other, none_left, known))
  ]
]

resolve_dependency_graph-EndsFor_example :
    EndsFor answers pair_names (str_eq "app") [] (resolve_dependency_graph 3 answers "app" [])
resolve_dependency_graph-EndsFor_example =
    resolve_dependency_graph-EndsFor answers pair_names pair-HasNamedAnswers "app" refl
