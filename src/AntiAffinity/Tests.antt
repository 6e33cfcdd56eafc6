-- ===== src/AntiAffinity/Tests.antt =====
-- Runs of the reconciliation, in a world that is the map of its sessions.
use sablier.AntiAffinity.Desired.{has_active_antagonist}
use sablier.Instance.{InstanceInfo, no_instance, ready}
use sablier.AntiAffinity.{suppress, reconcile_anti_affinity, desired_suppress}
use sablier.AntiAffinity.Suppressed.{is_asked_for, reconcile_anti_affinity-asked}
use sablier.RunningHours.{LocalTime}
use sablier.Requests.Safety.{IsStore}
use sablier.Requests.{Environment, Sablier, is_group_active, missing, found}
use sablier.Prelude.{
  [], ◌∷◌, some, none, true, false, refl, arith, lookup, Map, lookup-insert, contains, ◌≡◌,
  lookup-delete, insert, delete,
}

abbrev shelf : Environment (Map InstanceInfo)
shelf = record {
  get_session = λ name w. elim (lookup name w) [ none ↦ missing | some info ↦ found info ];
  put_session = λ info d w. (true, insert info.name info w);
  delete_session = λ name w. (true, delete name w);
  stop_instance = λ name w. (true, w);
  inspect_instance = λ name w. some (record no_instance { name = name; status = ready });
  hold_message = λ group. group;
}

shelf-IsStore : IsStore shelf
shelf-IsStore = record {
  get_put = λ info d w name. ground (arith, lookup-insert info.name name info w);
  get_delete = λ gone w name. ground (arith, lookup-delete gone name w);
  get_stop = λ stopped_name w name. refl;
}

abbrev both_live : Sablier (Map InstanceInfo)
both_live = record {
  groups = ("games", "rival" ∷ []) ∷ [];
  anti_affinity = ("games", "web" ∷ []) ∷ [];
  suppressed = [];
  pending_starts = [];
  world =
      ("rival", record no_instance { name = "rival" })
      ∷ ("web", record no_instance { name = "web" })
      ∷ [];
}

abbrev noon : LocalTime
noon = record { instant = 5; midnight = 5; hour = 0; minute = 0; weekday = λ t. 0 }

reconcile_anti_affinity-asked_example :
    is_asked_for false
      (contains (reconcile_anti_affinity shelf 60 noon both_live).suppressed "web")
      (some (has_active_antagonist (is_group_active shelf both_live) "web" both_live.anti_affinity))
    ≡ true
reconcile_anti_affinity-asked_example = reconcile_anti_affinity-asked shelf 60 noon both_live "web"

web_suppressed : (reconcile_anti_affinity shelf 60 noon both_live).suppressed ≡ "web" ∷ []
unfolding reconcile_anti_affinity desired_suppress is_group_active lookup insert suppress
web_suppressed = refl
