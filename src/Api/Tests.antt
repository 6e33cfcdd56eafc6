-- ===== src/Api/Tests.antt =====
-- Runs of the handlers in a world in which each instance is ready.
use sablier.Groups.{get_group}
use sablier.Instance.{InstanceInfo}
use sablier.Blocking.{Wake, request_session_group, group_members, poll, deadline}
use sablier.Requests.Shelf.{shelf}
use sablier.Api.{start_poke, is_invalid, poke_reply, problem}
use sablier.RunningHours.{LocalTime}
use sablier.Requests.{RequestError, Sablier}
use sablier.Prelude.{[], ◌∷◌, false, refl, List, String, Map, ◌≡◌, lookup}

abbrev spelled : RequestError → String
spelled e = "failed"

abbrev idle : Sablier (Map InstanceInfo)
idle = record {
  groups = ("games", "chess" ∷ []) ∷ ("none", []) ∷ [];
  anti_affinity = [];
  suppressed = [];
  pending_starts = [];
  world = [];
}

abbrev noon : LocalTime
noon = record { instant = 5; midnight = 5; hour = 0; minute = 0; weekday = λ t. 0 }

both_given : start_poke shelf spelled ("web" ∷ []) "games" 60 false noon idle ≡ (problem 400, idle)
unfolding start_poke is_invalid
both_given = refl

unknown_group : (start_poke shelf spelled [] "cards" 60 false noon idle).0 ≡ problem 404
unfolding start_poke is_invalid poke_reply request_session_group group_members get_group lookup
unknown_group = refl

abbrev two_names : List String
two_names = "web" ∷ "optional:db" ∷ []

abbrev one_poll : List (Wake (Map InstanceInfo))
one_poll = poll noon (λ s. s) ∷ deadline 9 ∷ []
