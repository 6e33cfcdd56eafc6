-- ===== src/Docker/Tests.antt =====
-- A label of Docker Compose, and the containers of its services.
use sablier.Session.{name_before}
use sablier.Text.{trim_space, split, strip_prefix}
use sablier.Docker.Choice.{IsChoice, candidates, find_compose_container-IsChoice}
use sablier.Docker.{
  parse_compose_depends_on, find_compose_container, instance_dependencies, Container,
  container_names,
}
use sablier.Prelude.{[], ◌∷◌, some, none, false, refl, String, List, ◌≡◌}

abbrev compose_label : String
compose_label = "db:service_healthy:false, redis:service_started,:x,plain"

two_entries :
    parse_compose_depends_on compose_label
    ≡ record { service = "db"; condition = "service_healthy" }
      ∷ record { service = "redis"; condition = "service_started" }
      ∷ []
unfolding parse_compose_depends_on trim_space split
two_entries = refl

abbrev pair : List Container
pair =
    record { names = "/app-db-2" ∷ []; is_running = false }
    ∷ record { names = "/app-db-1" ∷ []; is_running = false }
    ∷ []

least_name : find_compose_container pair ≡ "app-db-1"
unfolding find_compose_container container_names strip_prefix name_before
least_name = refl

no_project :
    instance_dependencies
      (λ name. some (record { project = ""; depends_on = compose_label }))
      (λ project service. none)
      "web"
    ≡ some []
unfolding instance_dependencies
no_project = refl

find_compose_container-IsChoice_example : IsChoice (candidates pair) (find_compose_container pair)
find_compose_container-IsChoice_example = find_compose_container-IsChoice pair
