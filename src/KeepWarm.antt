-- ===== src/KeepWarm.antt =====
-- pkg/sablier/running_hours_watch.go and instance_expired.go: the instances that are kept warm in
-- their windows of running hours, and what follows when a session expires. The clock is read once for
-- a sweep, and the requests of the sweep read it as the sweep did.
use sablier.Watch.Loop.{trigger_anti_affinity_reconcile}
use sablier.Text.{is_empty}
use sablier.RunningHours.{LocalTime, running_hours_remaining, err, ok}
use sablier.Instance.{InstanceInfo, is_enabled}
use sablier.Requests.{Environment, Sablier, instance_request}
use sablier.Prelude.{
  [], ◌∷◌, some, none, true, false, inl, inr, refl, arith, suc, zero, ℕ, Bool, Option, String,
  if◌then◌else◌, List, not, ◌==◌,
}
pub mod Sweep
mod Tests

module _ {ℓ} {W : Type ℓ} (env : Environment W) where
  -- How long an inspected instance is to be kept warm.
  pub time_left : InstanceInfo → LocalTime → Option ℕ
  time_left info now =
      if is_empty info.running_hours
      then none
      else elim (running_hours_remaining info.running_hours info.running_days now) [
        | err e ↦ none
        | ok none ↦ none
        | ok (some remaining) ↦ if remaining == 0 then none else some remaining
      ]

  keep_warm : LocalTime → InstanceInfo → Sablier W → Sablier W
  unfolding time_left
  keep_warm now configured s =
      if not (is_enabled configured)
      then s
      else elim (env.inspect_instance configured.name s.world) [
        | none ↦ s
        | some info ↦ elim (time_left info now) [
          | none ↦ s
          | some remaining ↦ (instance_request env info.name remaining false now s).1
        ]
      ]

  keep_each_warm : LocalTime → List InstanceInfo → Sablier W → Sablier W
  unfolding keep_warm
  keep_each_warm now [] s = s
  keep_each_warm now (configured ∷ rest) s = keep_each_warm now rest (keep_warm now configured s)

  -- `none` is an error of the listing.
  pub reconcile_running_hours : Option (List InstanceInfo) → LocalTime → Sablier W → Sablier W
  unfolding keep_each_warm
  reconcile_running_hours none now s = s
  reconcile_running_hours (some instances) now s = keep_each_warm now instances s

  -- The callback of the store: with the check, only an instance that is enabled is stopped.
  stop_expired : Bool → String → W → W
  stop_expired verify_enabled key w =
      let halted = (env.stop_instance key w).1 in
      if not verify_enabled then halted else elim (env.inspect_instance key w) [
        | none ↦ w
        | some info ↦ if is_enabled info then halted else w
      ]

  -- The stop and the reconciliation run at the same time; here the stop comes first.
  pub on_instance_expired : ℕ → Bool → LocalTime → String → Sablier W → Sablier W
  unfolding stop_expired
  on_instance_expired default_duration verify_enabled now key s =
      trigger_anti_affinity_reconcile env default_duration now
        (record s { world = stop_expired verify_enabled key s.world })
