-- ===== src/Blocking/Names.antt =====
-- Which instances a session has, and how long the polls wait.
use sablier.Dependencies.Graph.{has_key_after_insert}
use sablier.Requests.Safety.{is_running, instance_request-keeps_running}
use sablier.RunningHours.{LocalTime}
use sablier.Blocking.{
  request_session, request_each, cut_optional, rejected, no_names, info_with_error, session,
}
use sablier.Session.{InstanceInfoWithError, SessionState}
use sablier.Requests.{Environment, RequestError, Sablier, instance_request}
use sablier.Prelude.{
  [], ◌∷◌, true, false, inl, inr, refl, arith, ℕ, List, has_key, String, Bool, str_eq, ◌≡◌, ◌||◌,
  lookup, ◌⊎◌, insert, ◌∙◌, has_key-lookup,
}

-- Some requested name is `k`, with or without the marker.
abbrev pub is_requested : List String → String → Bool
is_requested [] k = false
is_requested (requested ∷ names) k = str_eq (cut_optional requested).0 k || is_requested names k

no_session : (k : String) → has_key {V = InstanceInfoWithError} k [] ≡ false
unfolding has_key
no_session k = refl

module _ {ℓ} {W : Type ℓ} (env : Environment W) (text : RequestError → String) where
  has_key-request_each :
      (names : List String) (duration : ℕ) (reject : Bool) (now : LocalTime) (st : SessionState)
      (s : Sablier W) (k : String)
      → has_key k (request_each env text names duration reject now st s).0
        ≡ has_key k st || is_requested names k
  unfolding request_each
  has_key-request_each [] duration reject now st s k = ground arith
  has_key-request_each (requested ∷ names) duration reject now st s k =
      let name = (cut_optional requested).0 in
      let r = instance_request env name duration reject now s in
      let v = info_with_error env text (cut_optional requested).1 r.0 in
      ground (
        arith,
        has_key-request_each names duration reject now (insert name v st) r.1 k,
        has_key_after_insert name k v st,
      )

  request_each-keeps_running :
      (names : List String) (duration : ℕ) (reject : Bool) (now : LocalTime) (st : SessionState)
      (s : Sablier W) (y : String)
      → is_running env y s.pending_starts ≡ true
      → lookup y (request_each env text names duration reject now st s).1.pending_starts
        ≡ lookup y s.pending_starts
  unfolding request_each
  request_each-keeps_running [] duration reject now st s y busy = refl
  request_each-keeps_running (requested ∷ names) duration reject now st s y busy =
      let name = (cut_optional requested).0 in
      let r = instance_request env name duration reject now s in
      let v = info_with_error env text (cut_optional requested).1 r.0 in
      let kept = instance_request-keeps_running env name duration reject now s y busy in
      request_each-keeps_running names duration reject now (insert name v st) r.1 y
        (ground (arith, kept, busy))
      ∙ kept

  -- A request for some names answers with a session of exactly these, markers cut off, and replaces no
  -- start that is running; a request for none is refused and changes nothing.
  pub request_session-names :
      (names : List String) (duration : ℕ) (reject : Bool) (now : LocalTime) (s : Sablier W)
      → ((names ≡ [])
          × (request_session env text names duration reject now s ≡ (rejected no_names, s)))
        ⊎ ((st : SessionState) × ((request_session env text names duration reject now s).0
              ≡ session st)
            × ((k : String) → has_key k st ≡ is_requested names k)
            × ((y : String)
                → is_running env y s.pending_starts ≡ true
                → lookup y (request_session env text names duration reject now s).1.pending_starts
                  ≡ lookup y s.pending_starts))
  unfolding request_session
  request_session-names [] duration reject now s = inl (refl, refl)
  request_session-names (name ∷ names) duration reject now s = inr (
    (request_each env text (name ∷ names) duration reject now [] s).0,
    refl,
    (λ k. ground (
      arith,
      has_key-request_each (name ∷ names) duration reject now [] s k,
      has_key-lookup {V = InstanceInfoWithError} k [],
      no_session k,
    )),
    (λ y busy. request_each-keeps_running (name ∷ names) duration reject now [] s y busy),
  )
