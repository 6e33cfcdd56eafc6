-- ===== src/Api/Dynamic/Page.antt =====
-- What the page of the dynamic handler shows, and when there is one.
use sablier.Api.Blocking.{has_one_target, is_no_target, is_target}
use sablier.Text.{is_empty, concat}
use sablier.Theme.Executed.{render-data_of}
use sablier.Api.{is_invalid, some}
use sablier.RunningHours.{LocalTime}
use sablier.Requests.{Environment, RequestError, Sablier}
use sablier.Blocking.{
  SessionAnswer, session, no_names, no_group, group_without_members, cancelled, waiting,
  request_session, request_session_group,
}
use sablier.Instance.{error}
use sablier.Session.Ready.{name_before_asym}
use sablier.Api.Dynamic.{
  DynamicRequest, insert_state, sort_states, dynamic_page, render_options, render_states, states_of,
  DynamicReply, page, dynamic_reply, problem_detail, rejected, group_not_found, instances_failed,
  request_timed_out, start_dynamic, asked_session, entry_state, instance_state,
}
use sablier.Session.{name_before, SessionState, session_is_ready, status_of, InstanceInfoWithError}
use sablier.Theme.{
  Texts, ThemeInstance, Themes, render, html, Rendered, theme_not_found, render_failed, exists,
  TemplateData,
}
use sablier.Prelude.{
  [], ◌∷◌, true, false, inl, inr, refl, arith, ℕ, List, ◌≡◌, Bool-cases, Bool, String, length,
  if◌then◌else◌, subst, keep_if, ◌⊎◌, ◌==◌, ◌||◌, ◌∙◌, Option, ap, lookup, none, ltb, List-cases,
  has_key,
}

-- No instance comes before the one ahead of it in the order of names.
abbrev pub AreInOrder : List ThemeInstance → Type 0
AreInOrder [] = Unit {0}
AreInOrder (x ∷ []) = Unit {0}
AreInOrder (x ∷ y ∷ ys) = (name_before y.name x.name ≡ false) × AreInOrder (y ∷ ys)

insert_state-AreInOrder :
    (x : ThemeInstance) (ys : List ThemeInstance) → AreInOrder ys → AreInOrder (insert_state x ys)
unfolding insert_state
insert_state-AreInOrder x [] sorted = tt
insert_state-AreInOrder x (y ∷ []) sorted = elim (Bool-cases (name_before y.name x.name)) [
  | inl after ↦ rw (after, insert_state) (name_before_asym y.name x.name after, tt)
  | inr first ↦ rw (first, insert_state) (first, tt)
]
insert_state-AreInOrder x (y ∷ z ∷ zs) sorted = elim (Bool-cases (name_before y.name x.name)) [
  | inr first ↦ rw (first, insert_state) (first, sorted)
  | inl after ↦ elim (Bool-cases (name_before z.name x.name)) [
    | inl later ↦
        let rest : AreInOrder (z ∷ insert_state x zs) =
          subst (λ b. AreInOrder (if b then z ∷ insert_state x zs else x ∷ z ∷ zs)) later
            (insert_state-AreInOrder x (z ∷ zs) sorted.1) in
        rw (after, later, insert_state) (sorted.0, rest)
    | inr here ↦
        rw (after, here, insert_state) (name_before_asym y.name x.name after, (here, sorted.1))
  ]
]

sort_states-AreInOrder : (xs : List ThemeInstance) → AreInOrder (sort_states xs)
unfolding sort_states
sort_states-AreInOrder [] = tt
sort_states-AreInOrder (x ∷ xs) =
    insert_state-AreInOrder x (sort_states xs) (sort_states-AreInOrder xs)

-- The instances that pass a test are as many after the sort as before it.
length-insert_state :
    (q : ThemeInstance → Bool) (x : ThemeInstance) (ys : List ThemeInstance)
    → length (keep_if q (insert_state x ys)) ≡ length (keep_if q (x ∷ ys))
unfolding insert_state
length-insert_state q x [] = refl
length-insert_state q x (y ∷ ys) = ground (arith, length-insert_state q x ys)

length-sort_states :
    (q : ThemeInstance → Bool) (xs : List ThemeInstance)
    → length (keep_if q (sort_states xs)) ≡ length (keep_if q xs)
unfolding sort_states
length-sort_states q [] = refl
length-sort_states q (x ∷ xs) =
    ground (arith, length-insert_state q x (sort_states xs), length-sort_states q xs)

-- What a page says of an entry of a session: of one with an error, its key and the error; of any other
-- what its instance says, with a message that is not empty as its error.
abbrev pub view_of : String → InstanceInfoWithError → ThemeInstance
view_of key v = elim v.error [
  | some e ↦ record {
    name = key;
    status = error;
    error = some e;
    current_replicas = 0;
    desired_replicas = 0;
  }
  | none ↦ record {
    name = v.instance_info.name;
    status = v.instance_info.status;
    error = if is_empty v.instance_info.message then none else some v.instance_info.message;
    current_replicas = v.instance_info.current_replicas;
    desired_replicas = v.instance_info.desired_replicas;
  }
]

abbrev pub views : SessionState → List ThemeInstance
views [] = []
views ((key, v) ∷ s) = view_of key v ∷ views s

states_of-views : (s : SessionState) → states_of s ≡ views s
unfolding states_of entry_state instance_state
states_of-views [] = refl
states_of-views ((key, v) ∷ s) = ap (λ xs. view_of key v ∷ xs) (states_of-views s)

-- The page of a session: what the template of its theme puts out, under a header that says whether the
-- session is ready. The template is given the texts of the request and, where details are asked for, the
-- instances of the session in the order of their names.
abbrev pub IsPageOf : Texts → Themes → DynamicRequest → ℕ → SessionState → String → String → Type 0
IsPageOf texts themes request at s status body =
    (status ≡ (if session_is_ready at s then "ready" else "not-ready"))
    × (instances : List ThemeInstance) × AreInOrder instances
    × ((q : ThemeInstance → Bool) → length (keep_if q instances) ≡ length (keep_if q (views s)))
    × (execute : TemplateData → Option String) × (lookup (concat request.theme ".html") themes
        ≡ some execute)
    × (execute (record {
      display_name = request.display_name;
      instance_states = if request.show_details then instances else [];
      session_duration = texts.humanize request.session_duration;
      refresh_frequency = texts.whole_seconds request.refresh_frequency;
      version = texts.version;
    })
        ≡ some body)

Rendered-cases :
    (r : Rendered)
    → ((body : String) × (r ≡ html body)) ⊎ ((r ≡ theme_not_found) ⊎ (r ≡ render_failed))
Rendered-cases (html body) = inl (body, refl)
Rendered-cases theme_not_found = inr (inl refl)
Rendered-cases render_failed = inr (inr refl)

html-IsPageOf :
    (texts : Texts) (themes : Themes) (request : DynamicRequest) (at : ℕ) (state : SessionState)
    (body : String)
    → render texts themes request.theme (render_options request state) ≡ html body
    → IsPageOf texts themes request at state (status_of at state) body
unfolding render_options render_states status_of
html-IsPageOf texts themes request at state body good =
    let (execute, found, put_out) =
      render-data_of texts themes request.theme (render_options request state) body good in
    (
      refl,
      render_states state,
      sort_states-AreInOrder (states_of state),
      (λ q.
          length-sort_states q (states_of state)
          ∙ ap (λ xs. length (keep_if q xs)) (states_of-views state)),
      execute,
      found,
      put_out,
    )

-- What the handler answers to an answer of the request for a session: its page, or a problem.
abbrev pub IsReplyTo : Texts → Themes → DynamicRequest → ℕ → SessionAnswer → DynamicReply → Type 0
IsReplyTo texts themes request at answer (page status body) =
    (state : SessionState) × (answer ≡ session state)
    × IsPageOf texts themes request at state status body
IsReplyTo texts themes request at answer (problem_detail n) = (n == 404 || n == 500) ≡ true

dynamic_page-IsReplyTo :
    (texts : Texts) (themes : Themes) (request : DynamicRequest) (at : ℕ) (state : SessionState)
    → IsReplyTo texts themes request at (session state) (dynamic_page texts themes request at state)
unfolding dynamic_page
dynamic_page-IsReplyTo texts themes request at state =
    elim (Rendered-cases (render texts themes request.theme (render_options request state))) [
      | inr (inl missing) ↦ rw (missing, dynamic_page) refl
      | inr (inr broken) ↦ rw (broken, dynamic_page) refl
      | inl (made, good) ↦
          rw (good, dynamic_page)
            (state, refl, html-IsPageOf texts themes request at state made good)
    ]

dynamic_reply-IsReplyTo :
    (texts : Texts) (themes : Themes) (request : DynamicRequest) (at : ℕ) (answer : SessionAnswer)
    → IsReplyTo texts themes request at answer (dynamic_reply texts themes request at answer)
unfolding dynamic_reply
dynamic_reply-IsReplyTo texts themes request at (session state) =
    dynamic_page-IsReplyTo texts themes request at state
dynamic_reply-IsReplyTo texts themes request at (rejected (group_not_found groups)) = refl
dynamic_reply-IsReplyTo texts themes request at (rejected no_names) = refl
dynamic_reply-IsReplyTo texts themes request at (rejected no_group) = refl
dynamic_reply-IsReplyTo texts themes request at (rejected group_without_members) = refl
dynamic_reply-IsReplyTo texts themes request at (rejected cancelled) = refl
dynamic_reply-IsReplyTo texts themes request at (rejected (instances_failed errors)) = refl
dynamic_reply-IsReplyTo texts themes request at (rejected (request_timed_out pending)) = refl
dynamic_reply-IsReplyTo texts themes request at waiting = refl

-- The session of a request: of its names, or of its group where it has none.
abbrev pub session_of {ℓ} :
    {W : Type ℓ}
    → Environment W
    → (RequestError → String)
    → DynamicRequest
    → Bool
    → LocalTime
    → Sablier W
    → SessionAnswer × Sablier W
session_of env text request reject now s =
    if ltb 0 (length request.names)
    then request_session env text request.names request.session_duration reject now s
    else request_session_group env text request.group request.session_duration now s

asked_session-session_of {ℓ} :
    {W : Type ℓ} (env : Environment W) (text : RequestError → String) (request : DynamicRequest)
    (reject : Bool) (now : LocalTime) (s : Sablier W)
    → asked_session env text request reject now s ≡ session_of env text request reject now s
unfolding asked_session
asked_session-session_of env text request reject now s = elim (List-cases request.names) [
  | inl none_given ↦ rw (asked_session, none_given) refl
  | inr (name, names, given) ↦
      let some_given : ltb 0 (length (name ∷ names)) ≡ true = ground arith in
      rw (asked_session, given, some_given) refl
]

-- A request with neither names nor a group, or with both, is answered with 400, and else one for a
-- theme that is not loaded with 404; neither changes anything. Any other leaves what the request for
-- the session leaves. It is answered with a problem of status 404 or 500, or with the page of that
-- session: what the template of the theme puts out for the texts of the request and, where details are
-- asked for, for the instances of the session in the order of their names, each with its state, its
-- message or its error; and a header that says whether the session is ready.
pub start_dynamic-IsReplyTo {ℓ} :
    {W : Type ℓ} (env : Environment W) (text : RequestError → String) (texts : Texts)
    (themes : Themes) (request : DynamicRequest) (reject : Bool) (now : LocalTime) (at : ℕ)
    (s : Sablier W)
    → ((has_one_target request.names request.group ≡ false)
        × (start_dynamic env text texts themes request reject now at s ≡ (problem_detail 400, s)))
      ⊎ (((has_one_target request.names request.group ≡ true)
            × (has_key (concat request.theme ".html") themes ≡ false)
            × (start_dynamic env text texts themes request reject now at s
                ≡ (problem_detail 404, s)))
          ⊎ ((has_one_target request.names request.group ≡ true)
              × (has_key (concat request.theme ".html") themes ≡ true)
              × ((start_dynamic env text texts themes request reject now at s).1
                  ≡ (session_of env text request reject now s).1)
              × IsReplyTo texts themes request at
                  (session_of env text request reject now s).0
                  (start_dynamic env text texts themes request reject now at s).0))
unfolding start_dynamic exists
start_dynamic-IsReplyTo env text texts themes request reject now at s =
    elim (Bool-cases (is_invalid request.names request.group)) [
      | inl bad ↦ inl (is_no_target request.names request.group bad, rw (start_dynamic, bad) refl)
      | inr good ↦ elim (Bool-cases (exists themes request.theme)) [
        | inr unknown ↦ inr (
            inl (
              is_target request.names request.group good,
              unknown,
              rw (start_dynamic, good, unknown) refl,
            ))
        | inl known ↦ inr (
            inr (
              is_target request.names request.group good,
              known,
              rw (start_dynamic, good, known)
                  (ap (λ r. r.1) (asked_session-session_of env text request reject now s)),
              rw (start_dynamic, good, known)
                  (subst
                    (λ r. IsReplyTo texts themes request at r.0 (
                      dynamic_reply texts themes request at
                        (asked_session env text request reject now s).0))
                    (asked_session-session_of env text request reject now s)
                    (dynamic_reply-IsReplyTo texts themes request at
                      (asked_session env text request reject now s).0)),
            ))
      ]
    ]
