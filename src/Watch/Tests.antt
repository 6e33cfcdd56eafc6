-- ===== src/Watch/Tests.antt =====
-- Runs of the watch.
use sablier.Watch.Loop.Steps.{is_member_said, run_steps-groups}
use sablier.Requests.Shelf.{shelf}
use sablier.Watch.Loop.{group_watch, run_steps, Step, tick, requested, start_ended, event_seen}
use sablier.Watch.Rebuild.{
  reconcile_anti_affinity_registry, is_member-reconcile_anti_affinity_registry,
}
use sablier.RunningHours.{LocalTime}
use sablier.Requests.{Environment, Sablier}
use sablier.Instance.{no_instance, InstanceInfo}
use sablier.Groups.Member.{is_member}
use sablier.Watch.{
  InstanceEvent, equal_string_slice_sets, updated, reconcile_groups, follow_groups,
  handle_anti_affinity_event, handle_group_event, removed,
}
use sablier.Groups.{Registry, string_set}
use sablier.Prelude.{
  [], ◌∷◌, some, true, refl, HasUniqueKeys, ◌≡◌, has_key, if◌then◌else◌, str_eq, String, Map, List,
  Option, none, false,
}

abbrev before_change : Registry
before_change = ("web", "a" ∷ "b" ∷ []) ∷ ("db", "b" ∷ []) ∷ []

before_change-HasUniqueKeys : HasUniqueKeys before_change
unfolding has_key
before_change-HasUniqueKeys = (refl, (refl, tt))

abbrev provided : Registry
provided = ("web", "b" ∷ []) ∷ ("new", "b" ∷ "c" ∷ []) ∷ []

provided-HasUniqueKeys : HasUniqueKeys provided
unfolding has_key
provided-HasUniqueKeys = (refl, (refl, tt))

abbrev update : InstanceEvent
update = record {
  type = updated;
  info = record no_instance { name = "b"; groups = "new" ∷ "db" ∷ [] };
}

repeats_differ : equal_string_slice_sets ("x" ∷ "y" ∷ []) ("x" ∷ "x" ∷ []) ≡ true
unfolding equal_string_slice_sets string_set
repeats_differ = refl

module _ {ℓ} {W : Type ℓ} (env : Environment W) (now : LocalTime) (s : Sablier W) where
  nameless :
      handle_anti_affinity_event env 60 now (record { type = removed; info = no_instance }) s ≡ s
  unfolding handle_anti_affinity_event
  nameless = refl

  groups_follow :
      (handle_group_event env 60 now (record { type = removed; info = no_instance }) s).groups
      ≡ follow_groups (record { type = removed; info = no_instance }) s.groups
  unfolding handle_group_event
  groups_follow = refl

abbrev declared : String → Option InstanceInfo
declared name =
    if str_eq name "web"
    then some (record no_instance { name = "web"; anti_affinity = "games" ∷ [] })
    else none

is_member-reconcile_anti_affinity_registry_example :
    is_member "web" "games"
      (reconcile_anti_affinity_registry (some ("web" ∷ "db" ∷ [])) declared before_change)
    ≡ true
is_member-reconcile_anti_affinity_registry_example =
    is_member-reconcile_anti_affinity_registry ("web" ∷ "db" ∷ []) declared before_change "web"
      "games" before_change-HasUniqueKeys

abbrev noon : LocalTime
noon = record { instant = 5; midnight = 5; hour = 0; minute = 0; weekday = λ t. 0 }

abbrev watched : Sablier (Map InstanceInfo)
watched = record {
  groups = before_change;
  anti_affinity = [];
  suppressed = [];
  pending_starts = [];
  world = [];
}

abbrev busy_hour : List (Step (Map InstanceInfo))
busy_hour =
    tick (some provided) none noon
    ∷ requested "db" 60 false noon
    ∷ start_ended "db" true
    ∷ event_seen update noon
    ∷ []

watch_starts : (group_watch shelf 60 none [] watched).groups ≡ before_change
unfolding group_watch run_steps reconcile_groups
watch_starts = refl

run_steps-groups_example :
    HasUniqueKeys (run_steps shelf 60 busy_hour watched).groups
    × ((x g : String)
        → is_member x g (run_steps shelf 60 busy_hour watched).groups
          ≡ is_member_said busy_hour x g (is_member x g before_change))
run_steps-groups_example =
    run_steps-groups shelf 60 busy_hour watched before_change-HasUniqueKeys
      (provided-HasUniqueKeys, ((refl, (refl, tt)), tt))
