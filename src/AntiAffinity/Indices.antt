-- ===== src/AntiAffinity/Indices.antt =====
-- The registries are not what a reconciliation changes.
-- The two registries.
use sablier.Requests.Keeps.{instance_request-registries}
use sablier.Requests.Safety.{Fetched-cases, Answer-cases}
use sablier.AntiAffinity.{
  suppress, restore, reconcile_anti_affinity, apply_decision, apply_wish, desired_suppress,
}
use sablier.RunningHours.{LocalTime}
use sablier.Groups.{Registry}
use sablier.Requests.{Sablier, Environment, is_group_active, instance_request}
use sablier.Prelude.{[], ◌∷◌, false, inl, inr, refl, arith, ℕ, String, ◌≡◌, Bool-cases, Map, Bool}

abbrev pub indices {ℓ} : {W : Type ℓ} → Sablier W → Registry × Registry
indices s = (s.groups, s.anti_affinity)

module _ {ℓ} {W : Type ℓ} (env : Environment W) (default_duration : ℕ) (now : LocalTime) where
  suppress-indices :
      (name : String) (s : Sablier W)
      → indices (suppress env default_duration now name s) ≡ indices s
  unfolding suppress
  suppress-indices name s = elim (Fetched-cases (env.get_session name s.world)) [
    | inl (info, here) ↦ elim (Bool-cases (env.stop_instance name s.world).0) [
      | inl gone ↦ ground arith
      | inr left ↦ ground arith
    ]
    | inr (inl absent) ↦ ground arith
    | inr (inr broken) ↦ ground arith
  ]

  restore-indices :
      (name : String) (s : Sablier W)
      → indices (restore env default_duration now name s) ≡ indices s
  unfolding restore
  restore-indices name s =
      let kept = instance_request-registries env default_duration now name false s in
      elim (Answer-cases (instance_request env name default_duration false now s).0) [
        | inl (info, answered) ↦ ground (arith, kept)
        | inr (e, failed) ↦ ground (arith, kept)
      ]

  apply_decision-indices :
      (decision : Map Bool) (s : Sablier W)
      → indices (apply_decision env default_duration now decision s) ≡ indices s
  unfolding apply_decision apply_wish
  apply_decision-indices [] s = refl
  apply_decision-indices ((name, wanted) ∷ rest) s = ground (
    arith,
    apply_decision-indices rest (apply_wish env default_duration now name wanted s),
    suppress-indices name s,
    restore-indices name s,
  )

  -- A reconciliation leaves both registries alone.
  pub reconcile_anti_affinity-indices :
      (s : Sablier W) → indices (reconcile_anti_affinity env default_duration now s) ≡ indices s
  unfolding reconcile_anti_affinity
  reconcile_anti_affinity-indices s =
      apply_decision-indices (desired_suppress (is_group_active env s) s.anti_affinity) s
