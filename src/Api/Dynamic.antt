-- ===== src/Api/Dynamic.antt =====
-- internal/api/start_dynamic.go: the handler that answers with a page.
pub mod Page
mod Tests
use sablier.Api.{is_invalid, group_not_found, instances_failed, request_timed_out}
use sablier.RunningHours.{LocalTime}
use sablier.Blocking.{
  SessionAnswer, session, request_session_group, rejected, request_session, no_names, no_group,
  group_without_members, cancelled, waiting,
}
use sablier.Text.{is_empty}
use sablier.Requests.{Environment, RequestError, Sablier}
use sablier.Theme.{
  ThemeInstance, Texts, Options, Themes, render, html, exists, theme_not_found, render_failed,
}
use sablier.Session.{SessionState, InstanceInfoWithError, name_before, status_of}
use sablier.Instance.{error, InstanceInfo}
use sablier.Prelude.{[], ◌∷◌, some, none, ℕ, String, List, Bool, if◌then◌else◌, not}

-- The parameters of a request, with the defaults filled in.
pub record DynamicRequest : Type 0 where
  pub group : String
  pub names : List String
  pub show_details : Bool
  pub display_name : String
  pub theme : String
  pub session_duration : ℕ
  pub refresh_frequency : ℕ

pub data DynamicReply : Type 0 where
  problem_detail : ℕ → DynamicReply
  -- the header X-Sablier-Session-Status, and the body
  page : String → String → DynamicReply

-- instanceStateToRenderOptionsRequestState
instance_state : InstanceInfo → ThemeInstance
instance_state info = record {
  name = info.name;
  status = info.status;
  error = if is_empty info.message then none else some info.message;
  current_replicas = info.current_replicas;
  desired_replicas = info.desired_replicas;
}

pub entry_state : String → InstanceInfoWithError → ThemeInstance
unfolding instance_state
entry_state name v = elim v.error [
  | some e ↦ record {
    name = name;
    status = error;
    error = some e;
    current_replicas = 0;
    desired_replicas = 0;
  }
  | none ↦ instance_state v.instance_info
]

pub states_of : SessionState → List ThemeInstance
unfolding entry_state
states_of [] = []
states_of ((name, v) ∷ s) = entry_state name v ∷ states_of s

-- sort.SliceStable by name
insert_state : ThemeInstance → List ThemeInstance → List ThemeInstance
insert_state x [] = x ∷ []
insert_state x (y ∷ ys) =
    let rest = insert_state x ys in if name_before y.name x.name then y ∷ rest else x ∷ y ∷ ys

sort_states : List ThemeInstance → List ThemeInstance
unfolding insert_state
sort_states [] = []
sort_states (x ∷ xs) = insert_state x (sort_states xs)

-- sessionStateToRenderOptionsInstanceState
pub render_states : SessionState → List ThemeInstance
unfolding sort_states states_of
render_states s = sort_states (states_of s)

pub render_options : DynamicRequest → SessionState → Options
unfolding render_states
render_options request s = record {
  display_name = request.display_name;
  show_details = request.show_details;
  instance_states = render_states s;
  session_duration = request.session_duration;
  refresh_frequency = request.refresh_frequency;
}

-- The header is written before the page is rendered, at the time `at`.
dynamic_page : Texts → Themes → DynamicRequest → ℕ → SessionState → DynamicReply
unfolding render_options
dynamic_page texts themes request at s =
    elim (render texts themes request.theme (render_options request s)) [
      | html body ↦ page (status_of at s) body
      | theme_not_found ↦ problem_detail 404
      | render_failed ↦ problem_detail 500
    ]

dynamic_reply : Texts → Themes → DynamicRequest → ℕ → SessionAnswer → DynamicReply
unfolding dynamic_page
dynamic_reply texts themes request at (session s) = dynamic_page texts themes request at s
dynamic_reply texts themes request at (rejected (group_not_found groups)) = problem_detail 404
dynamic_reply texts themes request at (rejected no_names) = problem_detail 500
dynamic_reply texts themes request at (rejected no_group) = problem_detail 500
dynamic_reply texts themes request at (rejected group_without_members) = problem_detail 500
dynamic_reply texts themes request at (rejected cancelled) = problem_detail 500
dynamic_reply texts themes request at (rejected (instances_failed errors)) = problem_detail 500
dynamic_reply texts themes request at (rejected (request_timed_out pending)) = problem_detail 500
dynamic_reply texts themes request at waiting = problem_detail 500

module _ {ℓ} {W : Type ℓ} (env : Environment W) (text : RequestError → String) where
  -- RequestSession, or RequestSessionGroup where no names are given.
  pub asked_session : DynamicRequest → Bool → LocalTime → Sablier W → SessionAnswer × Sablier W
  asked_session request reject now s = elim request.names [
    | [] ↦ request_session_group env text request.group request.session_duration now s
    | name ∷ names ↦ request_session env text (name ∷ names) request.session_duration reject now s
  ]

module _ {ℓ} {W : Type ℓ} (env : Environment W) (text : RequestError → String) (texts : Texts)
    (themes : Themes) where
  pub start_dynamic : DynamicRequest → Bool → LocalTime → ℕ → Sablier W → DynamicReply × Sablier W
  unfolding asked_session dynamic_reply
  start_dynamic request reject now at s =
      if is_invalid request.names request.group
      then (problem_detail 400, s)
      else if not (exists themes request.theme)
      then (problem_detail 404, s)
      else (let (answer, s') = asked_session env text request reject now s in
          (dynamic_reply texts themes request at answer, s'))
