-- ===== src/Kubernetes/Tests.antt =====
-- Names of workloads, and what they parse to.
use sablier.Kubernetes.Config.Precedence.{
  or_else, public_value, config_value, lookup-sablier_config,
}
use sablier.Kubernetes.Config.{sablier_config, list_enabled}
use sablier.Kubernetes.Names.{IsParsed, parse_name-workload_name, parse_name-IsParsed}
use sablier.Text.{split, atoi, strip_prefix}
use sablier.Prelude.Int.{pos}
use sablier.Kubernetes.{
  ParsedName, parse_name, int32, deployment_name, active_replicas, stateful_set_name, workload_name,
  invalid_name, cluster_name, invalid_replicas,
}
use sablier.Prelude.{
  false, inl, inr, refl, ◌≡◌, Map, has_key, lookup, String, HasUniqueKeys, ◌∷◌, insert, [], some,
}
use Prim.Native.Char.{Char}
use mathlib.Core.Logic.{◌↔◌}

abbrev underscore : Char
underscore = "_"

abbrev web_name : ParsedName
web_name = record {
  original = "deployment_apps_web_2";
  kind = "deployment";
  namespace = "apps";
  name = "web";
  replicas = pos 2;
}

three_parts : parse_name underscore "deployment_apps_web" ≡ inl invalid_name
unfolding parse_name split
three_parts = refl

no_number : parse_name underscore "deployment_apps_web_x" ≡ inl invalid_replicas
unfolding parse_name split atoi
no_number = refl

beyond_32_bits : int32 (pos 4294967297) ≡ pos 1
unfolding int32
beyond_32_bits = refl

names_of_kinds :
    ((deployment_name underscore "a" "b").kind ≡ "deployment")
    × ((stateful_set_name underscore "a" "b").kind ≡ "statefulset")
    × ((cluster_name underscore "a" "b").kind ≡ "cnpgcluster")
unfolding deployment_name stateful_set_name cluster_name
names_of_kinds = (refl, refl, refl)

count_of_name : active_replicas (pos 1) false web_name ≡ pos 2
unfolding active_replicas
count_of_name = refl

parse_name-IsParsed_example :
    (parse_name underscore "deployment_apps_web_2" ≡ inr web_name)
    ↔ IsParsed underscore "deployment_apps_web_2" web_name
parse_name-IsParsed_example = parse_name-IsParsed underscore "deployment_apps_web_2" web_name

parse_name-workload_name_example :
    parse_name underscore (workload_name "deployment" underscore "apps" "web").original
    ≡ inr (workload_name "deployment" underscore "apps" "web")
parse_name-workload_name_example =
    parse_name-workload_name "deployment" underscore "apps" "web" refl refl refl refl

abbrev labels : Map String
labels = ("sablier.group", "a") ∷ ("sablierapp.dev/group", "b") ∷ ("app", "web") ∷ []

abbrev annotations : Map String
annotations = ("sablier.group", "c") ∷ ("note", "x") ∷ []

annotation_wins : lookup "sablier.group" (sablier_config labels annotations) ≡ some "c"
unfolding sablier_config strip_prefix lookup insert
annotation_wins = refl

two_answers :
    list_enabled (λ selector. some (record { namespace = "apps"; name = "web" } ∷ []))
    ≡ some (record { namespace = "apps"; name = "web" } ∷ [])
unfolding list_enabled
two_answers = refl

labels-HasUniqueKeys : HasUniqueKeys labels
unfolding has_key
labels-HasUniqueKeys = (refl, (refl, (refl, tt)))

annotations-HasUniqueKeys : HasUniqueKeys annotations
unfolding has_key
annotations-HasUniqueKeys = (refl, (refl, tt))

lookup-sablier_config_example :
    lookup "sablier.group" (sablier_config labels annotations)
    ≡ or_else (public_value annotations "sablier.group") (
        or_else
          (config_value annotations "sablier.group")
          (or_else (public_value labels "sablier.group") (lookup "sablier.group" labels)))
lookup-sablier_config_example =
    lookup-sablier_config labels annotations "sablier.group" labels-HasUniqueKeys
      annotations-HasUniqueKeys
