-- ===== src/Blocking.antt =====
-- pkg/sablier/session_request.go: a request for several instances at once, and the request that waits
-- until they are ready. The instances of one request are asked for at the same time; each is one step,
-- and here they follow the order of the names.
use sablier.Instance.{no_instance}
use sablier.Groups.{get_group, group_keys}
use sablier.Text.{strip_prefix, is_empty}
use sablier.Requests.{
  Environment, Sablier, RequestError, Answer, instance_request, info_of, refused,
}
use sablier.Prelude.Int.{ℤ, pos, negsuc}
use sablier.RunningHours.{LocalTime}
use sablier.Session.{
  SessionState, InstanceInfoWithError, not_ready_instances, session_is_ready, instance_errors,
}
use sablier.Prelude.{
  [], ◌∷◌, some, none, true, false, inl, inr, refl, arith, suc, zero, ℕ, String, List,
  if◌then◌else◌, Bool, leb, ◌*◌, ◌==◌, ◌⊎◌, insert,
}
pub mod Names
pub mod Waiting
mod Tests

-- The name without the marker "optional:", and whether it had one.
pub cut_optional : String → String × Bool
cut_optional name = elim (strip_prefix "optional:" name) [
  | some rest ↦ (rest, true)
  | none ↦ (name, false)
]

pub data SessionError : Type 0 where
  no_names : SessionError
  no_group : SessionError
  group_not_found : List String → SessionError
  group_without_members : SessionError
  cancelled : SessionError
  instances_failed : List (String × String) → SessionError
  request_timed_out : List InstanceInfoWithError → SessionError

pub data SessionAnswer : Type 0 where
  session : SessionState → SessionAnswer
  rejected : SessionError → SessionAnswer
  -- the request still waits
  waiting : SessionAnswer

-- What happens to a request that waits. A poll comes when the timer fires or the starts are done, and
-- what other requests and the starts did since the last poll is a function on the state.
pub data Wake {ℓ} (W : Type ℓ) : Type ℓ where
  poll : LocalTime → (Sablier W → Sablier W) → Wake W
  deadline : ℕ → Wake W
  caller_gone : Wake W

-- The wait before the first poll, and the next one, in nanoseconds: BlockingRefreshFrequency is the
-- longest, and where it is not positive the first one is.
abbrev pub blocking_first_recheck : ℕ
blocking_first_recheck = 100_000_000

pub longest_delay : ℤ → ℕ
longest_delay (pos n) = if n == 0 then blocking_first_recheck else n
longest_delay (negsuc n) = blocking_first_recheck

pub min : ℕ → ℕ → ℕ
min a b = if leb a b then a else b

-- The delay before the poll that the timer fires as number `k`.
pub delay_before : ℤ → ℕ → ℕ
unfolding longest_delay min
delay_before frequency zero = min blocking_first_recheck (longest_delay frequency)
delay_before frequency (suc k) = min (delay_before frequency k * 2) (longest_delay frequency)

-- The text of an error is a parameter.
module _ {ℓ} {W : Type ℓ} (env : Environment W) (text : RequestError → String) where
  info_with_error : Bool → Answer → InstanceInfoWithError
  info_with_error optional (info_of info) = record {
    instance_info = info;
    error = none;
    optional = optional;
  }
  info_with_error optional (refused e) = record {
    instance_info = no_instance;
    error = some (text e);
    optional = optional;
  }

  request_each :
      List String → ℕ → Bool → LocalTime → SessionState → Sablier W → SessionState × Sablier W
  unfolding info_with_error cut_optional
  request_each [] duration reject now instances s = (instances, s)
  request_each (requested ∷ names) duration reject now instances s =
      let (name, optional) = cut_optional requested in
      let (answer, s') = instance_request env name duration reject now s in
      request_each names duration reject now
        (insert name (info_with_error optional answer) instances) s'

  pub request_session : List String → ℕ → Bool → LocalTime → Sablier W → SessionAnswer × Sablier W
  unfolding request_each
  request_session [] duration reject now s = (rejected no_names, s)
  request_session (name ∷ names) duration reject now s =
      let (instances, s') = request_each (name ∷ names) duration reject now [] s in
      (session instances, s')

  -- The names of a group's members, or why there are none.
  unfoldable pub group_members : String → Sablier W → SessionError ⊎ List String
  group_members group s = if is_empty group then inl no_group else elim (get_group group s.groups) [
    | none ↦ inl (group_not_found (group_keys s.groups))
    | some [] ↦ inl group_without_members
    | some (name ∷ names) ↦ inr (name ∷ names)
  ]

  unfoldable pub request_session_group :
      String → ℕ → LocalTime → Sablier W → SessionAnswer × Sablier W
  unfolding group_members
  request_session_group group duration now s = elim (group_members group s) [
    | inl e ↦ (rejected e, s)
    | inr names ↦ request_session names duration false now s
  ]

  -- What a request that waits makes of one answer: an end, or the session that it goes on with.
  judge : ℕ → SessionAnswer → SessionAnswer ⊎ SessionState
  judge now (rejected e) = inl (rejected e)
  judge now waiting = inl waiting
  judge now (session instances) =
      if session_is_ready now instances
      then inl (session instances)
      else elim (instance_errors instances) [
        | [] ↦ inr instances
        | e ∷ es ↦ inl (rejected (instances_failed (e ∷ es)))
      ]

  await_ready :
      List String → ℕ → Bool → List (Wake W) → SessionState → Sablier W → SessionAnswer × Sablier W
  unfolding judge
  await_ready names duration reject [] last s = (waiting, s)
  await_ready names duration reject (deadline late ∷ wakes) last s =
      (rejected (request_timed_out (not_ready_instances late last)), s)
  await_ready names duration reject (caller_gone ∷ wakes) last s = (rejected cancelled, s)
  await_ready names duration reject (poll now others ∷ wakes) last s =
      let (answer, s') = request_session names duration reject now (others s) in
      elim (judge now.instant answer) [
        | inl final ↦ (final, s')
        | inr next ↦ await_ready names duration reject wakes next s'
      ]

  pub request_ready_session :
      List String → ℕ → Bool → LocalTime → List (Wake W) → Sablier W → SessionAnswer × Sablier W
  unfolding await_ready
  request_ready_session names duration reject now wakes s =
      let (answer, s') = request_session names duration reject now s in
      elim (judge now.instant answer) [
        | inl final ↦ (final, s')
        | inr next ↦ await_ready names duration reject wakes next s'
      ]

  unfoldable pub request_ready_session_group :
      String → ℕ → LocalTime → List (Wake W) → Sablier W → SessionAnswer × Sablier W
  request_ready_session_group group duration now wakes s = elim (group_members group s) [
    | inl e ↦ (rejected e, s)
    | inr names ↦ request_ready_session names duration false now wakes s
  ]
