-- ===== src/Requests/Inspected.antt =====
-- What the provider says of an instance does not change with a request.
use sablier.Requests.Outcome.{request_start-world}
use sablier.Requests.Safety.{Fetched-cases}
use sablier.Text.{is_empty}
use sablier.RunningHours.{LocalTime}
use sablier.Instance.{InstanceInfo, is_status, ready}
use sablier.Requests.Safety.{refresh-keeps}
use sablier.Requests.{
  store_session, Environment, instance_request, Sablier, anti_affinity_hold, info_of, refresh,
  Answer, request_start, refused, effective_duration,
}
use sablier.Prelude.{inl, inr, refl, arith, ℕ, String, ◌≡◌, Bool, Bool-cases, Option-cases}

module _ {ℓ} {W : Type ℓ} (env : Environment W) where
  -- Storing a session is not the provider's business.
  abbrev pub IsInspectStable : Type ℓ
  IsInspectStable =
      (info : InstanceInfo) (d : ℕ) (w : W) (name : String)
      → env.inspect_instance name (env.put_session info d w).1 ≡ env.inspect_instance name w

  store_session-inspected :
      (duration : ℕ) (now : LocalTime) (r : Answer × Sablier W) (name : String)
      → IsInspectStable
      → env.inspect_instance name (store_session env duration now r).1.world
        ≡ env.inspect_instance name r.1.world
  unfolding store_session
  store_session-inspected duration now (refused e, s) name stable = refl
  store_session-inspected duration now (info_of state, s) name stable =
      let d = effective_duration env state duration now in
      elim (Bool-cases (env.put_session state d s.world).0) [
        | inl stored ↦ ground (arith, stable state d s.world name)
        | inr lost ↦ ground (arith, stable state d s.world name)
      ]

  pub instance_request-inspected :
      (asked : String) (duration : ℕ) (reject : Bool) (now : LocalTime) (s : Sablier W)
      (name : String)
      → IsInspectStable
      → env.inspect_instance name (instance_request env asked duration reject now s).1.world
        ≡ env.inspect_instance name s.world
  unfolding instance_request
  instance_request-inspected asked duration reject now s name stable =
      elim (Bool-cases (is_empty asked)) [
        | inl blank ↦ ground arith
        | inr named ↦ elim (Option-cases (anti_affinity_hold env s asked)) [
          | inr (g, held) ↦ ground arith
          | inl free ↦ elim (Fetched-cases (env.get_session asked s.world)) [
            | inl (state, here) ↦ elim (Bool-cases (is_status state.status ready)) [
              | inl up ↦
                  ground
                    (arith, store_session-inspected duration now (info_of state, s) name stable)
              | inr down ↦ ground (
                arith,
                store_session-inspected duration now (refresh env asked state now.instant s) name
                    stable,
                refresh-keeps env asked state now.instant s,
              )
            ]
            | inr (inl absent) ↦ ground (
              arith,
              store_session-inspected duration now (request_start env asked reject s) name stable,
              request_start-world env asked reject s,
            )
            | inr (inr broken) ↦ ground arith
          ]
        ]
      ]
