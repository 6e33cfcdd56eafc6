-- ===== src/Api.antt =====
-- internal/api/start_blocking.go and start_poke.go: what the two handlers answer to a request whose
-- parameters are read. Reading them, the headers and the encoding of an answer are gin's.
use sablier.RunningHours.{LocalTime}
use sablier.Text.{is_empty}
use sablier.Requests.{Environment, RequestError, Sablier}
use sablier.Blocking.{
  SessionAnswer, session, rejected, group_not_found, Wake, instances_failed, request_timed_out,
  no_names, request_session_group, request_ready_session_group, no_group, cancelled,
  request_session, request_ready_session, group_without_members, waiting,
}
use sablier.Session.{SessionState}
use sablier.Prelude.{
  [], ◌∷◌, some, none, true, false, inl, inr, refl, arith, suc, zero, ℕ, List, String, Bool, not,
  if◌then◌else◌,
}
pub mod Blocking
pub mod Dynamic
mod Tests

pub data Reply : Type 0 where
  -- the status of a problem
  problem : ℕ → Reply
  session_response : SessionState → Reply
  -- the handler still waits
  no_reply : Reply

-- Neither names nor a group is given, or both are.
pub is_invalid : List String → String → Bool
is_invalid [] group = is_empty group
is_invalid (name ∷ names) group = not (is_empty group)

pub poke_reply : SessionAnswer → Reply
poke_reply (session instances) = session_response instances
poke_reply (rejected (group_not_found groups)) = problem 404
poke_reply (rejected no_names) = problem 500
poke_reply (rejected no_group) = problem 500
poke_reply (rejected group_without_members) = problem 500
poke_reply (rejected cancelled) = problem 500
poke_reply (rejected (instances_failed errors)) = problem 500
poke_reply (rejected (request_timed_out pending)) = problem 500
poke_reply waiting = no_reply

-- Whether errors.AsType finds that an instance is not managed is a parameter: errors are texts here.
pub blocking_reply : (List (String × String) → Bool) → SessionAnswer → Reply
blocking_reply not_managed (session instances) = session_response instances
blocking_reply not_managed (rejected (group_not_found groups)) = problem 404
blocking_reply not_managed (rejected (request_timed_out pending)) = problem 504
blocking_reply not_managed (rejected (instances_failed errors)) =
    problem (if not_managed errors then 404 else 500)
blocking_reply not_managed (rejected cancelled) = problem 503
blocking_reply not_managed (rejected no_names) = problem 500
blocking_reply not_managed (rejected no_group) = problem 500
blocking_reply not_managed (rejected group_without_members) = problem 500
blocking_reply not_managed waiting = no_reply

module _ {ℓ} {W : Type ℓ} (env : Environment W) (text : RequestError → String) where
  pub start_poke : List String → String → ℕ → Bool → LocalTime → Sablier W → Reply × Sablier W
  unfolding poke_reply is_invalid
  start_poke names group duration reject now s =
      if is_invalid names group then (problem 400, s) else elim names [
        | [] ↦
            let (answer, s') = request_session_group env text group duration now s in
            (poke_reply answer, s')
        | name ∷ rest ↦
            let (answer, s') = request_session env text (name ∷ rest) duration reject now s in
            (poke_reply answer, s')
      ]

  pub start_blocking :
      (List (String × String) → Bool)
      → List String
      → String
      → ℕ
      → Bool
      → LocalTime
      → List (Wake W)
      → Sablier W
      → Reply × Sablier W
  unfolding blocking_reply is_invalid
  start_blocking not_managed names group duration reject now wakes s =
      if is_invalid names group then (problem 400, s) else elim names [
        | [] ↦
            let (answer, s') = request_ready_session_group env text group duration now wakes s in
            (blocking_reply not_managed answer, s')
        | name ∷ rest ↦
            let (answer, s') =
              request_ready_session env text (name ∷ rest) duration reject now wakes s in
            (blocking_reply not_managed answer, s')
      ]
