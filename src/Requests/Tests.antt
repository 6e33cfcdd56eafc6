-- ===== src/Requests/Tests.antt =====
-- A world that is the map of its sessions, and runs of the requests in it.
use sablier.Requests.Shelf.{shelf}
use sablier.Groups.Member.{is_member}
use sablier.Requests.Outcome.{
  session_after, instance_request-session, instance_request-hold, has_live_member,
}
use sablier.Groups.{groups_of, Registry}
use sablier.RunningHours.{LocalTime}
use sablier.Instance.{InstanceInfo, no_instance, ready, not_ready}
use sablier.Requests.Safety.{IsStore, is_running, instance_request-keeps_running}
use sablier.Requests.{
  PendingStart, anti_affinity_hold, finish_start, instance_request, Sablier, running,
  is_group_active, info_of,
}
use sablier.Prelude.{
  [], ◌∷◌, some, none, true, false, refl, arith, Map, has_key, lookup, is_some, lookup-insert,
  HasUniqueKeys, delete, ◌≡◌, lookup-delete, any, String,
}

shelf-IsStore : IsStore shelf
shelf-IsStore = record {
  get_put = λ info d w name. ground (arith, lookup-insert info.name name info w);
  get_delete = λ gone w name. ground (arith, lookup-delete gone name w);
  get_stop = λ stopped_name w name. refl;
}

abbrev rival : InstanceInfo
rival = record no_instance { name = "rival"; status = ready }

abbrev rivalry : Registry
rivalry = ("games", "web" ∷ []) ∷ []

-- "web" backs off from the group "games", which has the member "rival".
abbrev town : Map InstanceInfo → Map PendingStart → Sablier (Map InstanceInfo)
town sessions pending = record {
  groups = ("games", "rival" ∷ []) ∷ [];
  anti_affinity = rivalry;
  suppressed = [];
  pending_starts = pending;
  world = sessions;
}

abbrev noon : LocalTime
noon = record { instant = 5; midnight = 5; hour = 0; minute = 0; weekday = λ t. 0 }

town-HasUniqueKeys : HasUniqueKeys rivalry
unfolding has_key
town-HasUniqueKeys = (refl, tt)

abbrev web_start : PendingStart
web_start = record { progress = running; info = record no_instance { name = "web" } }

web_start_runs : is_running shelf "web" (("web", web_start) ∷ []) ≡ true
unfolding lookup
web_start_runs = refl

nobody_active : anti_affinity_hold shelf (town [] []) "web" ≡ none
unfolding anti_affinity_hold groups_of is_group_active lookup
nobody_active = refl

start_over : (finish_start shelf "web" true (town [] (("web", web_start) ∷ []))).pending_starts ≡ []
unfolding finish_start lookup delete
start_over = refl

instance_request-keeps_running_example :
    lookup "web"
      (instance_request shelf "db" 60 false noon
        (town [] (("web", web_start) ∷ []))).1.pending_starts
    ≡ lookup "web" (("web", web_start) ∷ [])
instance_request-keeps_running_example =
    instance_request-keeps_running shelf "db" 60 false noon (town [] (("web", web_start) ∷ []))
      "web" web_start_runs

instance_request-hold_example :
    (is_some (anti_affinity_hold shelf (town (("rival", rival) ∷ []) []) "web")
      ≡ any (has_live_member shelf (town (("rival", rival) ∷ []) [])) (groups_of "web" rivalry))
    × ((g : String)
        → anti_affinity_hold shelf (town (("rival", rival) ∷ []) []) "web" ≡ some g
        → (is_member "web" g rivalry ≡ true)
          × (has_live_member shelf (town (("rival", rival) ∷ []) []) g ≡ true)
          × (info : InstanceInfo) × (instance_request shelf "web" 60 false noon
                (town (("rival", rival) ∷ []) [])
              ≡ (info_of info, town (("rival", rival) ∷ []) []))
          × (info.name ≡ "web")
          × (info.status ≡ not_ready)
          × (info.message ≡ g))
instance_request-hold_example =
    instance_request-hold shelf "web" 60 false noon (town (("rival", rival) ∷ []) [])
      town-HasUniqueKeys refl

instance_request-session_example :
    shelf.get_session "web" (instance_request shelf "web" 60 false noon (town [] [])).1.world
    ≡ session_after shelf (instance_request shelf "web" 60 false noon (town [] [])).0 [] "web"
instance_request-session_example =
    instance_request-session shelf "web" 60 false noon (town [] []) "web" shelf-IsStore
      nobody_active
