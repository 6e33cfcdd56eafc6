-- ===== src/Blocking/Tests.antt =====
-- Runs of a request for several instances, in a world that shows each of them ready.
use sablier.Requests.Shelf.{shelf}
use sablier.Requests.Safety.{is_running}
use sablier.Blocking.Names.{is_requested, request_session-names}
use sablier.Session.{SessionState}
use sablier.Prelude.Int.{pos}
use sablier.Groups.{get_group, group_keys}
use sablier.Instance.{InstanceInfo}
use sablier.Text.{strip_prefix}
use sablier.Blocking.Waiting.{IsHonest, request_ready_session-IsHonest, delay_before_bounds}
use sablier.Blocking.{
  cut_optional, request_session_group, request_ready_session_group, Wake, group_members,
  request_session, request_ready_session, delay_before, rejected, poll, no_names, deadline,
  longest_delay, min, session, blocking_first_recheck, group_not_found, group_without_members,
}
use sablier.RunningHours.{LocalTime}
use sablier.Requests.{RequestError, Sablier}
use sablier.Prelude.{
  [], ◌∷◌, true, false, refl, List, ◌≡◌, ◌<◌, Map, String, lookup, ◌≤◌, ◌⊎◌, has_key, ◌*◌, ◌^◌,
  keys,
}

abbrev spelled : RequestError → String
spelled e = "failed"

abbrev idle : Sablier (Map InstanceInfo)
idle = record {
  groups = ("games", "chess" ∷ []) ∷ ("none", []) ∷ [];
  anti_affinity = [];
  suppressed = [];
  pending_starts = [];
  world = [];
}

abbrev noon : LocalTime
noon = record { instant = 5; midnight = 5; hour = 0; minute = 0; weekday = λ t. 0 }

abbrev wakes : List (Wake (Map InstanceInfo))
wakes = poll noon (λ s. s) ∷ deadline 9 ∷ []

marker_is_cut : cut_optional "optional:db" ≡ ("db", true)
unfolding cut_optional strip_prefix
marker_is_cut = refl

unknown_group :
    (request_session_group shelf spelled "cards" 60 noon idle).0
    ≡ rejected (group_not_found ("games" ∷ "none" ∷ []))
unfolding request_session_group group_members get_group group_keys lookup keys
unknown_group = refl

empty_group :
    (request_ready_session_group shelf spelled "none" 60 noon wakes idle).0
    ≡ rejected group_without_members
unfolding request_ready_session_group group_members get_group lookup
empty_group = refl

abbrev two_names : List String
two_names = "web" ∷ "optional:db" ∷ []

request_session-names_example :
    ((two_names ≡ [])
      × (request_session shelf spelled two_names 60 false noon idle ≡ (rejected no_names, idle)))
    ⊎ ((st : SessionState) × ((request_session shelf spelled two_names 60 false noon idle).0
          ≡ session st)
        × ((k : String) → has_key k st ≡ is_requested two_names k)
        × ((y : String)
            → is_running shelf y [] ≡ true
            → lookup y (request_session shelf spelled two_names 60 false noon idle).1.pending_starts
              ≡ lookup y []))
request_session-names_example = request_session-names shelf spelled two_names 60 false noon idle

request_ready_session-IsHonest_example :
    IsHonest two_names true
      (request_ready_session shelf spelled two_names 60 false noon wakes idle).0
request_ready_session-IsHonest_example =
    request_ready_session-IsHonest shelf spelled two_names 60 false noon wakes idle

delay_before_bounds_example :
    (0 < delay_before (pos 250_000_000) 2)
    × (delay_before (pos 250_000_000) 2 ≤ longest_delay (pos 250_000_000))
    × (delay_before (pos 250_000_000) 2
        ≡ min (blocking_first_recheck * 2 ^ 2) (longest_delay (pos 250_000_000)))
delay_before_bounds_example = delay_before_bounds (pos 250_000_000) 2
