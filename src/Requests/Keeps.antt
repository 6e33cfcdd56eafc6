-- ===== src/Requests/Keeps.antt =====
-- A request leaves the registries and the set of suppressed instances alone.
use sablier.Groups.{Registry}
use sablier.Instance.{is_status, ready}
use sablier.Requests.Safety.{Progress-cases, Fetched-cases, refresh-keeps}
use sablier.Text.{is_empty}
use sablier.RunningHours.{LocalTime}
use sablier.Requests.{
  Environment, store_session, fresh_start, request_start, instance_request, Answer, register_start,
  Sablier, refused, info_of, effective_duration, anti_affinity_hold, refresh,
}
use sablier.Prelude.{
  inl, inr, refl, arith, ℕ, String, Bool, ◌≡◌, Option-cases, Bool-cases, lookup, delete, List,
}

-- What only the watch and the reconciliations change.
abbrev pub registries {ℓ} : {W : Type ℓ} → Sablier W → Registry × Registry × List String
registries s = (s.groups, s.anti_affinity, s.suppressed)

module _ {ℓ} {W : Type ℓ} (env : Environment W) (default_duration : ℕ) (now : LocalTime) where
  store_session-registries :
      (duration : ℕ) (r : Answer × Sablier W)
      → registries (store_session env duration now r).1 ≡ registries r.1
  unfolding store_session
  store_session-registries duration (refused e, s) = refl
  store_session-registries duration (info_of state, s) =
      elim (Bool-cases
        (env.put_session state (effective_duration env state duration now) s.world).0) [
          | inl stored ↦ ground arith
          | inr lost ↦ ground arith
        ]

  fresh_start-registries :
      (name : String) (reject : Bool) (s : Sablier W)
      → registries (fresh_start env name reject s).1 ≡ registries s
  unfolding fresh_start register_start
  fresh_start-registries name reject s = elim (Option-cases (env.inspect_instance name s.world)) [
    | inl unknown ↦ ground arith
    | inr (info, known) ↦ ground arith
  ]

  request_start-registries :
      (name : String) (reject : Bool) (s : Sablier W)
      → registries (request_start env name reject s).1 ≡ registries s
  unfolding request_start
  request_start-registries name reject s = elim (Option-cases (lookup name s.pending_starts)) [
    | inl idle ↦ ground (arith, fresh_start-registries name reject s)
    | inr (ps, entry) ↦ elim (Progress-cases ps.progress) [
      | inl runs ↦ ground arith
      | inr (inl good) ↦ ground (
        arith,
        fresh_start-registries name reject
            (record s { pending_starts = delete name s.pending_starts }),
      )
      | inr (inr bad) ↦ ground arith
    ]
  ]

  pub instance_request-registries :
      (name : String) (reject : Bool) (s : Sablier W)
      → registries (instance_request env name default_duration reject now s).1 ≡ registries s
  unfolding instance_request
  instance_request-registries name reject s = elim (Bool-cases (is_empty name)) [
    | inl blank ↦ ground arith
    | inr named ↦ elim (Option-cases (anti_affinity_hold env s name)) [
      | inr (g, held) ↦ ground arith
      | inl free ↦ elim (Fetched-cases (env.get_session name s.world)) [
        | inl (state, here) ↦ elim (Bool-cases (is_status state.status ready)) [
          | inl up ↦ ground (arith, store_session-registries default_duration (info_of state, s))
          | inr down ↦ ground (
            arith,
            store_session-registries default_duration (refresh env name state now.instant s),
            refresh-keeps env name state now.instant s,
          )
        ]
        | inr (inl absent) ↦ ground (
          arith,
          store_session-registries default_duration (request_start env name reject s),
          request_start-registries name reject s,
        )
        | inr (inr broken) ↦ ground arith
      ]
    ]
  ]
