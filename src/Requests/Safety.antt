-- ===== src/Requests/Safety.antt =====
-- What a request may change: the sessions, and the starts that are running.
use sablier.Text.{is_empty}
use sablier.RunningHours.{LocalTime}
use sablier.Instance.{InstanceInfo, starting, is_status, ready}
use sablier.Requests.{
  Environment, register_start, fresh_start, Sablier, PendingStart, bare_info, found, running,
  missing, Progress, Fetched, request_start, consume_pending_error, refresh, store_session,
  instance_request, succeeded, failed, unreadable, Answer, refused, anti_affinity_hold, info_of,
  effective_duration, RequestError,
}
use sablier.Prelude.{
  some, none, true, false, inl, inr, arith, ℕ, String, ◌≡◌, Map, Bool, if◌then◌else◌, lookup, ◌&&◌,
  eq_iff, Option-cases, str_eq, lookup-insert, delete, lookup-delete, ◌⊎◌, Bool-cases, refl,
}

-- The store answers with what was put last, and stopping an instance is not its business.
pub record IsStore {ℓ} {W : Type ℓ} (env : Environment W) : Type ℓ where
  pub get_put :
      (info : InstanceInfo) (d : ℕ) (w : W) (name : String)
      → env.get_session name (env.put_session info d w).1 ≡ (
          if (env.put_session info d w).0 && str_eq info.name name
          then found info
          else env.get_session name w)
  pub get_delete :
      (gone : String) (w : W) (name : String)
      → env.get_session name (env.delete_session gone w).1 ≡ (
          if (env.delete_session gone w).0 && str_eq gone name
          then missing
          else env.get_session name w)
  pub get_stop :
      (stopped_name : String) (w : W) (name : String)
      → env.get_session name (env.stop_instance stopped_name w).1 ≡ env.get_session name w

pub Progress-cases : (p : Progress) → (p ≡ running) ⊎ ((p ≡ succeeded) ⊎ (p ≡ failed))
Progress-cases running = inl refl
Progress-cases succeeded = inr (inl refl)
Progress-cases failed = inr (inr refl)

pub Fetched-cases :
    (f : Fetched) → ((info : InstanceInfo) × (f ≡ found info)) ⊎ ((f ≡ missing) ⊎ (f ≡ unreadable))
Fetched-cases (found info) = inl (info, refl)
Fetched-cases missing = inr (inl refl)
Fetched-cases unreadable = inr (inr refl)

module _ {ℓ} {W : Type ℓ} (env : Environment W) where
  -- The start of `name` runs.
  abbrev pub is_running : String → Map PendingStart → Bool
  is_running name pending = elim (lookup name pending) [
    | none ↦ false
    | some ps ↦ elim ps.progress [ running ↦ true | succeeded ↦ false | failed ↦ false ]
  ]

  register_start-keeps :
      (name : String) (info : InstanceInfo) (s : Sablier W) (y : String)
      → is_running name s.pending_starts ≡ false
      → is_running y s.pending_starts ≡ true
      → lookup y (register_start env name info s).1.pending_starts ≡ lookup y s.pending_starts
  unfolding register_start
  register_start-keeps name info s y free busy = ground (
    arith,
    eq_iff name y,
    lookup-insert name y (record { progress = running; info = record info { status = starting } })
        (delete name s.pending_starts),
    lookup-delete name y s.pending_starts,
  )

  fresh_start-keeps :
      (name : String) (reject : Bool) (s : Sablier W) (y : String)
      → is_running name s.pending_starts ≡ false
      → is_running y s.pending_starts ≡ true
      → lookup y (fresh_start env name reject s).1.pending_starts ≡ lookup y s.pending_starts
  unfolding fresh_start
  fresh_start-keeps name reject s y free busy =
      elim (Option-cases (env.inspect_instance name s.world)) [
        | inl unknown ↦ ground (arith, register_start-keeps name (bare_info name) s y free busy)
        | inr (info, known) ↦ ground (arith, register_start-keeps name info s y free busy)
      ]

  request_start-keeps :
      (name : String) (reject : Bool) (s : Sablier W) (y : String)
      → is_running y s.pending_starts ≡ true
      → lookup y (request_start env name reject s).1.pending_starts ≡ lookup y s.pending_starts
  unfolding request_start
  request_start-keeps name reject s y busy = elim (Option-cases (lookup name s.pending_starts)) [
    | inl idle ↦ ground (arith, fresh_start-keeps name reject s y (ground arith) busy)
    | inr (ps, entry) ↦ elim (Progress-cases ps.progress) [
      | inl runs ↦ ground arith
      | inr (inl good) ↦
          let dropped = record s { pending_starts = delete name s.pending_starts } in
          ground (
            arith,
            eq_iff name y,
            lookup-delete name y s.pending_starts,
            lookup-delete name name s.pending_starts,
            fresh_start-keeps name reject dropped y,
          )
      | inr (inr bad) ↦ ground (arith, eq_iff name y, lookup-delete name y s.pending_starts)
    ]
  ]

  consume_pending_error-keeps :
      (name : String) (pending : Map PendingStart) (y : String)
      → is_running y pending ≡ true
      → lookup y (consume_pending_error env name pending).1 ≡ lookup y pending
  unfolding consume_pending_error
  consume_pending_error-keeps name pending y busy = elim (Option-cases (lookup name pending)) [
    | inl idle ↦ ground arith
    | inr (ps, entry) ↦ elim (Progress-cases ps.progress) [
      | inl runs ↦ ground arith
      | inr (inl good) ↦ ground (arith, eq_iff name y, lookup-delete name y pending)
      | inr (inr bad) ↦ ground (arith, eq_iff name y, lookup-delete name y pending)
    ]
  ]

  pub refresh-keeps :
      (name : String) (state : InstanceInfo) (now : ℕ) (s : Sablier W)
      → (refresh env name state now s).1
        ≡ record s { pending_starts = (consume_pending_error env name s.pending_starts).1 }
  unfolding refresh
  refresh-keeps name state now s =
      elim (Option-cases (consume_pending_error env name s.pending_starts).0) [
        | inl bad ↦ ground arith
        | inr (true, runs) ↦ ground arith
        | inr (false, over) ↦ elim (Option-cases (env.inspect_instance name s.world)) [
          | inl unknown ↦ ground arith
          | inr (info, known) ↦ ground arith
        ]
      ]

  store_session-keeps :
      (duration : ℕ) (now : LocalTime) (r : Answer × Sablier W)
      → (store_session env duration now r).1.pending_starts ≡ r.1.pending_starts
  unfolding store_session
  store_session-keeps duration now (refused e, s) = refl
  store_session-keeps duration now (info_of state, s) =
      elim (Bool-cases
        (env.put_session state (effective_duration env state duration now) s.world).0) [
          | inl stored ↦ ground arith
          | inr lost ↦ ground arith
        ]

  -- A request never replaces a start that is running, of its own instance or of another one.
  pub instance_request-keeps_running :
      (name : String) (duration : ℕ) (reject : Bool) (now : LocalTime) (s : Sablier W) (y : String)
      → is_running y s.pending_starts ≡ true
      → lookup y (instance_request env name duration reject now s).1.pending_starts
        ≡ lookup y s.pending_starts
  unfolding instance_request
  instance_request-keeps_running name duration reject now s y busy =
      elim (Bool-cases (is_empty name)) [
        | inl blank ↦ ground arith
        | inr named ↦ elim (Option-cases (anti_affinity_hold env s name)) [
          | inr (g, held) ↦ ground arith
          | inl free ↦ elim (Fetched-cases (env.get_session name s.world)) [
            | inl (state, here) ↦ elim (Bool-cases (is_status state.status ready)) [
              | inl up ↦ ground (arith, store_session-keeps duration now (info_of state, s))
              | inr down ↦ ground (
                arith,
                store_session-keeps duration now (refresh env name state now.instant s),
                refresh-keeps name state now.instant s,
                consume_pending_error-keeps name s.pending_starts y busy,
              )
            ]
            | inr (inl absent) ↦ ground (
              arith,
              store_session-keeps duration now (request_start env name reject s),
              request_start-keeps name reject s y busy,
            )
            | inr (inr broken) ↦ ground arith
          ]
        ]
      ]

pub Answer-cases :
    (a : Answer)
    → ((info : InstanceInfo) × (a ≡ info_of info)) ⊎ ((e : RequestError) × (a ≡ refused e))
Answer-cases (info_of info) = inl (info, refl)
Answer-cases (refused e) = inr (e, refl)
