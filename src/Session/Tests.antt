-- ===== src/Session/Tests.antt =====
-- A session with one instance that is ready and one that failed.
use sablier.Session.{
  SessionState, not_ready_instances, instance_errors, session_is_ready, sort_by_name,
  insert_by_name,
}
use sablier.Instance.{InstanceInfo, no_instance, ready, is_ready}
use sablier.Prelude.{[], ◌∷◌, some, none, true, false, refl, length, ◌≡◌}

abbrev web : InstanceInfo
web = record no_instance { name = "web"; status = ready }

abbrev failing : InstanceInfo
failing = record no_instance { name = "db" }

abbrev both : SessionState
both =
    ("web", record { instance_info = web; error = none; optional = false })
    ∷ ("db", record { instance_info = failing; error = some "gone"; optional = false })
    ∷ []

abbrev only_web : SessionState
only_web = ("web", record { instance_info = web; error = none; optional = false }) ∷ []

waits : length (not_ready_instances 7 both) ≡ 1
unfolding not_ready_instances sort_by_name is_ready insert_by_name
waits = refl

reported : instance_errors both ≡ ("db", "gone") ∷ []
unfolding instance_errors
reported = refl

web_ready : session_is_ready 7 only_web ≡ true
unfolding session_is_ready is_ready
web_ready = refl
