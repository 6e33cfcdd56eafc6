-- ===== src/Docker/Containers/Status.antt =====
-- What the inspection of a container says of it.
use sablier.Labels.{populate_enabled_and_group}
use sablier.Prelude.Int.{ℤ}
use sablier.Instance.{InstanceInfo, is_status, ready, completed, stopped}
use sablier.Docker.Containers.{
  InspectResponse, state_info, restarts_on_success, running_info, status_info, restart_policy_mode,
  exited_info, is_zero_int, instance_inspect, Client,
}
use sablier.Prelude.{
  [], ◌∷◌, some, none, true, false, inl, inr, refl, Option, Bool, String, str_eq, ◌&&◌, not, ◌≡◌,
  if◌then◌else◌, Bool-cases, eq_iff, contains, subst, some-eq-some,
}

-- The health check, if there is one, passes.
abbrev pub passes : Option String → Bool
passes none = true
passes (some health) = str_eq health "healthy"

-- Docker would not start it again by itself.
abbrev pub has_ended : Bool → InspectResponse → Bool
unfolding restarts_on_success restart_policy_mode
has_ended honor spec = honor && not (restarts_on_success (restart_policy_mode spec.restart_policy))

-- The status that an inspection reports, for the container that Docker describes.
abbrev pub Reports : Bool → InspectResponse → InstanceInfo → Type 0
Reports honor spec info =
    let running = str_eq spec.state.status "running" in
    let exited = str_eq spec.state.status "exited" && is_zero_int spec.state.exit_code in
    (is_status info.status ready ≡ running && passes spec.state.health)
    × (is_status info.status completed ≡ exited && has_ended honor spec)
    × (is_status info.status stopped ≡ exited && not (has_ended honor spec))
    × (info.current_replicas ≡ (if is_status info.status ready then 1 else 0))
    × (info.desired_replicas ≡ 1)

running_info-Reports :
    (name : String) (health : Option String)
    → (is_status (running_info name health).status ready ≡ passes health)
      × (is_status (running_info name health).status completed ≡ false)
      × (is_status (running_info name health).status stopped ≡ false)
      × ((running_info name health).current_replicas
          ≡ (if is_status (running_info name health).status ready then 1 else 0))
      × ((running_info name health).desired_replicas ≡ 1)
unfolding running_info state_info
running_info-Reports name none = (refl, refl, refl, refl, refl)
running_info-Reports name (some health) = elim (Bool-cases (str_eq health "healthy")) [
  | inl healthy ↦ rw (healthy) (refl, refl, refl, refl, refl)
  | inr other ↦ rw (other) (elim (Bool-cases (str_eq health "unhealthy")) [
    | inl unhealthy ↦ rw (unhealthy) (refl, refl, refl, refl, refl)
    | inr unknown ↦ rw (unknown) (refl, refl, refl, refl, refl)
  ])
]

exited_info-Reports :
    (honor : Bool) (name : String) (spec : InspectResponse)
    → (is_status (exited_info honor name spec).status ready ≡ false)
      × (is_status (exited_info honor name spec).status completed
          ≡ is_zero_int spec.state.exit_code && has_ended honor spec)
      × (is_status (exited_info honor name spec).status stopped
          ≡ is_zero_int spec.state.exit_code && not (has_ended honor spec))
      × ((exited_info honor name spec).current_replicas
          ≡ (if is_status (exited_info honor name spec).status ready then 1 else 0))
      × ((exited_info honor name spec).desired_replicas ≡ 1)
unfolding exited_info state_info has_ended
exited_info-Reports honor name spec = elim (Bool-cases (is_zero_int spec.state.exit_code)) [
  | inr failed ↦ rw (failed) (refl, refl, refl, refl, refl)
  | inl good ↦ rw (good) (elim (Bool-cases (has_ended honor spec)) [
    | inl ended ↦ rw (ended) (refl, refl, refl, refl, refl)
    | inr wanted ↦ rw (wanted) (refl, refl, refl, refl, refl)
  ])
]

status_info-Reports :
    (honor : Bool) (name : String) (spec : InspectResponse)
    → Reports honor spec (status_info honor name spec)
unfolding status_info exited_info state_info running_info
status_info-Reports honor name spec = elim (Bool-cases (str_eq spec.state.status "running")) [
  | inl running ↦
      rw ((eq_iff spec.state.status "running").0 running)
        (running_info-Reports name spec.state.health)
  | inr not_running ↦ elim (Bool-cases (str_eq spec.state.status "exited")) [
    | inl exited ↦
        rw ((eq_iff spec.state.status "exited").0 exited) (exited_info-Reports honor name spec)
    | inr not_exited ↦
        rw (not_running, not_exited)
          (elim (Bool-cases
            (contains ("created" ∷ "paused" ∷ "restarting" ∷ "removing" ∷ []) spec.state.status)) [
              | inl early ↦ rw (early) (refl, refl, refl, refl, refl)
              | inr late ↦ rw (late) (elim (Bool-cases (str_eq spec.state.status "dead")) [
                | inl dead ↦ rw (dead) (refl, refl, refl, refl, refl)
                | inr unknown ↦ rw (unknown) (refl, refl, refl, refl, refl)
              ])
            ])
  ]
]

-- Every answer of the inspection reports the status of the container that Docker describes.
pub instance_inspect-Reports {ℓ} :
    {W : Type ℓ}
    → (client : Client W) (parse_duration : String → Option ℤ) (honor : Bool) (name : String)
      (w : W) (spec : InspectResponse) (info : InstanceInfo)
    → client.container_inspect name w ≡ some spec
    → instance_inspect client parse_duration honor name w ≡ some info
    → Reports honor spec info
unfolding instance_inspect populate_enabled_and_group
instance_inspect-Reports client parse_duration honor name w spec info known e =
    subst (Reports honor spec) (some-eq-some (rw (instance_inspect, known) at e))
      (status_info-Reports honor name spec)
