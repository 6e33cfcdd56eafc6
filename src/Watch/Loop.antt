-- ===== src/Watch/Loop.antt =====
-- pkg/sablier/group_watch.go and anti_affinity.go: GroupWatch in the run of the whole program. The
-- loop takes one event or one tick at a time; requests, ends of starts and changes of the world come
-- in between, in any order. A stream that is closed or lost is one without further events.
use sablier.Groups.{group_keys}
use sablier.AntiAffinity.{reconcile_anti_affinity}
use sablier.Watch.Rebuild.{reconcile_anti_affinity_registry}
use sablier.RunningHours.{LocalTime}
use sablier.Requests.{Environment, Sablier, instance_request, finish_start}
use sablier.Watch.{InstanceEvent, handle_group_event, reconcile_groups}
use sablier.Prelude.{
  [], ◌∷◌, some, none, true, false, inl, inr, refl, arith, suc, zero, ℕ, Option, List, Map, Bool,
  String, if◌then◌else◌, ltb, length,
}
pub mod Steps

-- One step of the program. A tick has what the provider lists: the groups and the names of instances.
pub data Step {ℓ} (W : Type ℓ) : Type ℓ where
  event_seen : InstanceEvent → LocalTime → Step W
  tick : Option (Map (List String)) → Option (List String) → LocalTime → Step W
  requested : String → ℕ → Bool → LocalTime → Step W
  start_ended : String → Bool → Step W
  -- sessions expire, workloads change
  world_changed : (W → W) → Step W

module _ {ℓ} {W : Type ℓ} (env : Environment W) (default_duration : ℕ) where
  has_anti_affinity : Sablier W → Bool
  has_anti_affinity s = ltb 0 (length (group_keys s.anti_affinity))

  rebuild_anti_affinity : Option (List String) → Sablier W → Sablier W
  rebuild_anti_affinity listed s = record s {
    anti_affinity =
        reconcile_anti_affinity_registry listed (λ name. env.inspect_instance name s.world)
          s.anti_affinity;
  }

  pub seed_anti_affinity : Option (List String) → LocalTime → Sablier W → Sablier W
  unfolding rebuild_anti_affinity
  seed_anti_affinity listed now s =
      reconcile_anti_affinity env default_duration now (rebuild_anti_affinity listed s)

  unfoldable pub trigger_anti_affinity_reconcile : LocalTime → Sablier W → Sablier W
  unfolding has_anti_affinity
  trigger_anti_affinity_reconcile now s =
      if has_anti_affinity s then reconcile_anti_affinity env default_duration now s else s

  watch_tick : Option (Map (List String)) → Option (List String) → LocalTime → Sablier W → Sablier W
  unfolding has_anti_affinity seed_anti_affinity
  watch_tick groups listed now s =
      let s' = record s { groups = reconcile_groups groups s.groups } in
      if has_anti_affinity s' then seed_anti_affinity listed now s' else s'

  pub take_step : Step W → Sablier W → Sablier W
  unfolding watch_tick
  take_step (event_seen event now) s = handle_group_event env default_duration now event s
  take_step (tick groups listed now) s = watch_tick groups listed now s
  take_step (requested name duration reject now) s =
      (instance_request env name duration reject now s).1
  take_step (start_ended name good) s = finish_start env name good s
  take_step (world_changed change) s = record s { world = change s.world }

  unfoldable pub run_steps : List (Step W) → Sablier W → Sablier W
  unfolding take_step
  run_steps [] s = s
  run_steps (step ∷ steps) s = run_steps steps (take_step step s)

  -- GroupWatch: the reconciliation of the start, then the steps.
  unfoldable pub group_watch : Option (Map (List String)) → List (Step W) → Sablier W → Sablier W
  unfolding run_steps
  group_watch groups steps s =
      run_steps steps (record s { groups = reconcile_groups groups s.groups })
