-- ===== src/Docker.antt =====
-- pkg/provider/docker/compose.go and container_depends_on.go: the dependencies that Docker Compose
-- writes into a label. What the Docker client answers is a parameter: the labels of a container, and
-- the containers of a service of a project.
use sablier.Dependencies.{InstanceDependency}
use sablier.Session.{name_before}
use sablier.Text.{trim_space, strip_prefix, is_empty, split}
use sablier.Prelude.{
  [], ◌∷◌, some, none, true, false, inl, inr, refl, arith, suc, zero, ℕ, String, List, Bool, Option,
  if◌then◌else◌, ◌&&◌, not,
}
pub mod Choice
pub mod Containers
mod Tests

pub record ComposeDependency : Type 0 where
  pub service : String
  pub condition : String

pub record Container : Type 0 where
  pub names : List String
  pub is_running : Bool

-- The labels of Docker Compose.
pub record ComposeLabels : Type 0 where
  pub project : String
  pub depends_on : String

-- One entry of the label, with its surplus parts left out.
compose_dependency : List String → Option ComposeDependency
compose_dependency [] = none
compose_dependency (service ∷ []) = none
compose_dependency (service ∷ condition ∷ rest) =
    if is_empty service then none else some (record { service = service; condition = condition })

parse_entry : String → Option ComposeDependency
unfolding compose_dependency
parse_entry entry =
    let trimmed = trim_space entry in
    if is_empty trimmed then none else compose_dependency (split 58 trimmed)

parse_entries : List String → List ComposeDependency
unfolding parse_entry
parse_entries [] = []
parse_entries (entry ∷ entries) =
    let rest = parse_entries entries in
    elim (parse_entry entry) [ none ↦ rest | some dep ↦ dep ∷ rest ]

pub parse_compose_depends_on : String → List ComposeDependency
unfolding parse_entries
parse_compose_depends_on label =
    let trimmed = trim_space label in
    if is_empty trimmed then [] else parse_entries (split 44 trimmed)

trim_prefix : String → String → String
trim_prefix prefix s = elim (strip_prefix prefix s) [ some rest ↦ rest | none ↦ s ]

-- The first names of the containers, or only of those that run.
pub container_names : Bool → List Container → List String
unfolding trim_prefix
container_names only_running [] = []
container_names only_running (c ∷ cs) =
    let rest = container_names only_running cs in
    elim c.names [
      | [] ↦ rest
      | name ∷ names ↦
          if only_running && not c.is_running then rest else trim_prefix "/" name ∷ rest
    ]

-- sort.Strings
insert_name : String → List String → List String
insert_name s [] = s ∷ []
insert_name s (t ∷ ts) =
    let later = insert_name s ts in if name_before t s then t ∷ later else s ∷ t ∷ ts

pub sort_names : List String → List String
unfolding insert_name
sort_names [] = []
sort_names (s ∷ ss) = insert_name s (sort_names ss)

-- findComposeContainer on the answer of the client: the empty name if there is no container.
pub find_compose_container : List Container → String
unfolding container_names sort_names
find_compose_container cs = elim (sort_names (container_names true cs)) [
  | name ∷ names ↦ name
  | [] ↦ elim (sort_names (container_names false cs)) [ name ∷ names ↦ name | [] ↦ "" ]
]

-- What a call of the client answers; `none` is its error.
module _ (inspect_labels : String → Option ComposeLabels)
    (list_containers : String → String → Option (List Container)) where
  resolve_dependencies : String → List ComposeDependency → Option (List InstanceDependency)
  unfolding find_compose_container
  resolve_dependencies project [] = some []
  resolve_dependencies project (dep ∷ deps) =
      let rest = resolve_dependencies project deps in
      elim (list_containers project dep.service) [
        | none ↦ none
        | some cs ↦ elim rest [
          | none ↦ none
          | some found ↦
              if is_empty (find_compose_container cs)
              then some found
              else some
                  (record { name = find_compose_container cs; condition = dep.condition } ∷ found)
        ]
      ]

  pub instance_dependencies : String → Option (List InstanceDependency)
  unfolding resolve_dependencies parse_compose_depends_on
  instance_dependencies name = elim (inspect_labels name) [
    | none ↦ none
    | some labels ↦
        if is_empty labels.project
        then some []
        else resolve_dependencies labels.project (parse_compose_depends_on labels.depends_on)
  ]
