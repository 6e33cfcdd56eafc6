-- ===== src/KeepWarm/Tests.antt =====
-- A sweep at night.
use sablier.KeepWarm.Sweep.{
  AreWanted, request_all, inspected, IsBrief, reconcile_running_hours-requests, AreWanted,
}
use sablier.Groups.{group_keys}
use sablier.Requests.Shelf.{shelf}
use sablier.Watch.Loop.{trigger_anti_affinity_reconcile}
use sablier.Instance.{InstanceInfo, no_instance, ready}
use sablier.KeepWarm.{on_instance_expired, time_left, reconcile_running_hours}
use sablier.Requests.{Environment, Sablier}
use sablier.RunningHours.Window.{IsRegular}
use sablier.RunningHours.{LocalTime}
use sablier.Prelude.{
  [], ◌∷◌, some, none, false, refl, arith, List, ◌+◌, Map, ◌≡◌, ◌/◌, ◌%◌, keys, String, ℕ,
}

abbrev late : LocalTime
late = record {
  instant = 1728000000000000 + 84600000000000;
  midnight = 1728000000000000;
  hour = 23;
  minute = 30;
  weekday = λ t. (t / 86400000000000) % 7;
}

late-IsRegular : IsRegular late
late-IsRegular = record {
  hours = omega arith;
  minutes = omega arith;
  after = omega arith;
  before = omega arith;
  late = omega arith;
}

abbrev night_shelf : Environment (Map InstanceInfo)
night_shelf = record shelf {
  inspect_instance = λ name w.
      some (record no_instance { name = name; status = ready; running_hours = "22:00-06:00" });
}

abbrev guarded : List InstanceInfo
guarded =
    record no_instance { name = "web"; enabled = "true" } ∷ record no_instance { name = "db" } ∷ []

abbrev quiet : Sablier (Map InstanceInfo)
quiet = record { groups = []; anti_affinity = []; suppressed = []; pending_starts = []; world = [] }

stopped_once : on_instance_expired night_shelf 60 false late "web" quiet ≡ quiet
unfolding on_instance_expired trigger_anti_affinity_reconcile group_keys keys
stopped_once = refl

no_hours : time_left night_shelf no_instance late ≡ none
unfolding time_left
no_hours = refl

reconcile_running_hours-requests_example :
    (asked : List (String × ℕ)) × AreWanted late guarded (inspected night_shelf []) asked
    × (reconcile_running_hours night_shelf (some guarded) late quiet
        ≡ request_all night_shelf late asked quiet)
    × IsBrief night_shelf asked
reconcile_running_hours-requests_example =
    reconcile_running_hours-requests night_shelf guarded late quiet (λ info d w name. refl)
      late-IsRegular
