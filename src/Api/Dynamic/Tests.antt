-- ===== src/Api/Dynamic/Tests.antt =====
-- A page for a group in a world in which each instance is ready.
use sablier.Api.Blocking.{has_one_target}
use sablier.Instance.{InstanceInfo}
use sablier.Api.{is_invalid}
use sablier.Api.Dynamic.{DynamicRequest, start_dynamic, problem_detail}
use sablier.Theme.{Texts, Themes, exists}
use sablier.RunningHours.{LocalTime}
use sablier.Requests.{RequestError, Sablier}
use sablier.Prelude.{[], ◌∷◌, some, true, false, refl, String, Map, ◌≡◌, ◌⊎◌, has_key}
use sablier.Requests.Shelf.{shelf}
use sablier.Api.Dynamic.Page.{start_dynamic-IsReplyTo, IsReplyTo, session_of}

abbrev spelled : RequestError → String
spelled e = "failed"

abbrev idle : Sablier (Map InstanceInfo)
idle = record {
  groups = ("games", "chess" ∷ []) ∷ [];
  anti_affinity = [];
  suppressed = [];
  pending_starts = [];
  world = [];
}

abbrev noon : LocalTime
noon = record { instant = 5; midnight = 5; hour = 0; minute = 0; weekday = λ t. 0 }

abbrev spellings : Texts
spellings = record { humanize = λ d. "a while"; whole_seconds = λ d. "5"; version = "dev" }

abbrev plain : Themes
plain = ("ghost.html", λ data_. some data_.display_name) ∷ []

abbrev chess : DynamicRequest
chess = record {
  group = "games";
  names = [];
  show_details = true;
  display_name = "Chess";
  theme = "ghost";
  session_duration = 60;
  refresh_frequency = 5;
}

unknown_theme :
    start_dynamic shelf spelled spellings plain (record chess { theme = "shost" }) false noon 5 idle
    ≡ (problem_detail 404, idle)
unfolding start_dynamic is_invalid exists has_key
unknown_theme = refl

start_dynamic-IsReplyTo_example :
    ((has_one_target chess.names chess.group ≡ false)
      × (start_dynamic shelf spelled spellings plain chess false noon 5 idle
          ≡ (problem_detail 400, idle)))
    ⊎ (((has_one_target chess.names chess.group ≡ true)
          × (has_key "ghost.html" plain ≡ false)
          × (start_dynamic shelf spelled spellings plain chess false noon 5 idle
              ≡ (problem_detail 404, idle)))
        ⊎ ((has_one_target chess.names chess.group ≡ true)
            × (has_key "ghost.html" plain ≡ true)
            × ((start_dynamic shelf spelled spellings plain chess false noon 5 idle).1
                ≡ (session_of shelf spelled chess false noon idle).1)
            × IsReplyTo spellings plain chess 5
                (session_of shelf spelled chess false noon idle).0
                (start_dynamic shelf spelled spellings plain chess false noon 5 idle).0))
start_dynamic-IsReplyTo_example =
    start_dynamic-IsReplyTo shelf spelled spellings plain chess false noon 5 idle
