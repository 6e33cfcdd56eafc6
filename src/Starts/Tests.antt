-- ===== src/Starts/Tests.antt =====
-- An application that depends on a database, in a world that counts the starts.
use sablier.Instance.{ready, stopped}
use sablier.Dependencies.{
  InstanceDependency, resolve_dependency_graph, dependency_graph_cycle,
  dependency_condition_satisfied,
}
use sablier.Starts.Whole.{Finished, start_with_dependencies-Finished}
use sablier.Dependencies.Resolve.{HasNamedAnswers}
use sablier.Starts.{Engine, start_with_dependencies, started, met, satisfy_dependency, is_satisfied}
use sablier.Prelude.{
  [], ◌∷◌, some, none, true, false, inl, inr, refl, arith, List, String, Option, if◌then◌else◌,
  Bool-cases, ◌≡◌, str_eq, contains, eq_iff, has_key, insert, lookup,
}

abbrev needs_db : List InstanceDependency
needs_db = record { name = "db"; condition = "service_started" } ∷ []

abbrev pair_names : List String
pair_names = "app" ∷ "db" ∷ []

abbrev answers : String → Option (List InstanceDependency)
answers name =
    if str_eq name "app" then some needs_db else if str_eq name "db" then some [] else none

-- An instance runs once it has been asked to start.
abbrev engine : Engine (List String)
engine = record {
  inspect_status = λ name w. some (if contains w name then ready else stopped);
  start_instance = λ name w. (true, name ∷ w);
  pass = λ w. w;
  direct_dependencies = answers;
  is_managed = λ name. false;
}

answers-HasNamedAnswers : HasNamedAnswers answers pair_names
answers-HasNamedAnswers n deps known said d dep = elim (Bool-cases (str_eq n "app")) [
  | inl this ↦ ground (arith, this, said, dep, eq_iff "db" d)
  | inr other ↦ elim (Bool-cases (str_eq n "db")) [
    | inl that ↦ absurd (ground (arith, other, that, said, dep))
    | inr none_left ↦ absurd (ground (arith, other, none_left, said))
  ]
]

start_with_dependencies-Finished_example :
    Finished engine 4 pair_names "app" (start_with_dependencies engine 4 3 "app" [])
start_with_dependencies-Finished_example =
    start_with_dependencies-Finished engine 4 pair_names "app" [] answers-HasNamedAnswers refl

db_first :
    (start_with_dependencies engine 4 3 "app" []).1.log
    ≡ started "app" ∷ met "db" "service_started" (some ready) ∷ started "db" ∷ []
unfolding start_with_dependencies resolve_dependency_graph has_key insert dependency_graph_cycle
    lookup satisfy_dependency is_satisfied dependency_condition_satisfied
db_first = refl
