-- ===== src/Watch/Loop/Steps.antt =====
-- The groups that the watch keeps are those that the events and listings say.
use sablier.Requests.Keeps.{instance_request-registries}
use sablier.Watch.Reconcile.{reconcile_groups-HasUniqueKeys, is_member-reconcile_groups}
use sablier.Requests.Safety.{Progress-cases}
use sablier.AntiAffinity.Indices.{reconcile_anti_affinity-indices}
use sablier.Groups.Member.{is_member}
use sablier.Watch.Event.{
  is_member_after, EventType-cases, follow_groups-HasUniqueKeys, is_member-follow_groups,
}
use sablier.Groups.{sync, remove}
use sablier.Prelude.Sets.{IsUnique}
use sablier.RunningHours.{LocalTime}
use sablier.Watch.Loop.{
  Step, watch_tick, event_seen, seed_anti_affinity, tick, requested, start_ended,
  rebuild_anti_affinity, world_changed, take_step, run_steps,
}
use sablier.Watch.{handle_anti_affinity_event, InstanceEvent, reconcile_groups, handle_group_event}
use sablier.Requests.{Environment, finish_start, Sablier}
use sablier.Prelude.{
  [], ◌∷◌, some, none, inl, inr, arith, ℕ, List, String, Bool, if◌then◌else◌, ◌≡◌, Option, str_eq,
  Map, Option-cases, HasUniqueKeys, lookup, without, ◌∙◌, sym, ap, refl,
}

-- What a step says of the groups: the name of an event and its groups once each, listings with
-- each group once.
abbrev pub IsAdmissible {ℓ} : {W : Type ℓ} → List (Step W) → Type 0
IsAdmissible [] = Unit {0}
IsAdmissible (event_seen event now ∷ steps) = IsUnique event.info.groups × IsAdmissible steps
IsAdmissible (tick (some groups) listed now ∷ steps) = HasUniqueKeys groups × IsAdmissible steps
IsAdmissible (tick none listed now ∷ steps) = IsAdmissible steps
IsAdmissible (requested name duration reject now ∷ steps) = IsAdmissible steps
IsAdmissible (start_ended name good ∷ steps) = IsAdmissible steps
IsAdmissible (world_changed change ∷ steps) = IsAdmissible steps

-- Whether `x` is in group `g` after some steps, if it was before or not: the last event of `x` or
-- listing decides.
abbrev pub is_member_said {ℓ} : {W : Type ℓ} → List (Step W) → String → String → Bool → Bool
is_member_said [] x g was = was
is_member_said (event_seen event now ∷ steps) x g was =
    is_member_said steps x g (if str_eq event.info.name x then is_member_after event was g else was)
is_member_said (tick (some groups) listed now ∷ steps) x g was =
    is_member_said steps x g (is_member x g groups)
is_member_said (tick none listed now ∷ steps) x g was = is_member_said steps x g was
is_member_said (requested name duration reject now ∷ steps) x g was = is_member_said steps x g was
is_member_said (start_ended name good ∷ steps) x g was = is_member_said steps x g was
is_member_said (world_changed change ∷ steps) x g was = is_member_said steps x g was

module _ {ℓ} {W : Type ℓ} (env : Environment W) (default_duration : ℕ) where
  handle_anti_affinity_event-groups :
      (event : InstanceEvent) (now : LocalTime) (s : Sablier W)
      → (handle_anti_affinity_event env default_duration now event s).groups ≡ s.groups
  unfolding handle_anti_affinity_event
  handle_anti_affinity_event-groups event now s =
      let name = event.info.name in
      let r = (sync name event.info.anti_affinity s.anti_affinity).2 in
      let r' = (remove name s.anti_affinity).1 in
      let followed = record s { anti_affinity = r } in
      let forgotten = record s { anti_affinity = r'; suppressed = without name s.suppressed } in
      let kept = reconcile_anti_affinity-indices env default_duration now followed in
      let kept' = reconcile_anti_affinity-indices env default_duration now forgotten in
      elim (EventType-cases event.type) [
        | inl made ↦ ground (arith, kept, made)
        | inr (inl changed) ↦ ground (arith, kept, changed)
        | inr (inr (inl gone)) ↦ ground (arith, kept', gone)
        | inr (inr (inr unknown)) ↦ ground (arith, unknown)
      ]

  watch_tick-groups :
      (groups : Option (Map (List String))) (listed : Option (List String)) (now : LocalTime)
      (s : Sablier W)
      → (watch_tick env default_duration groups listed now s).groups
        ≡ reconcile_groups groups s.groups
  unfolding watch_tick seed_anti_affinity
  watch_tick-groups groups listed now s =
      let s' = record s { groups = reconcile_groups groups s.groups } in
      ground (
        arith,
        reconcile_anti_affinity-indices env default_duration now
            (rebuild_anti_affinity env default_duration listed s'),
      )

  finish_start-groups :
      (name : String) (good : Bool) (s : Sablier W)
      → (finish_start env name good s).groups ≡ s.groups
  unfolding finish_start
  finish_start-groups name good s = elim (Option-cases (lookup name s.pending_starts)) [
    | inl idle ↦ ground arith
    | inr (ps, entry) ↦ elim (Progress-cases ps.progress) [
      | inl runs ↦ ground arith
      | inr (inl over) ↦ ground arith
      | inr (inr bad) ↦ ground arith
    ]
  ]

  -- One step, and what it says of the groups.
  take_step-groups :
      (step : Step W) (steps : List (Step W)) (s : Sablier W)
      → HasUniqueKeys s.groups
      → IsAdmissible (step ∷ steps)
      → HasUniqueKeys (take_step env default_duration step s).groups
        × IsAdmissible steps
        × ((x g : String)
            → is_member_said (step ∷ steps) x g (is_member x g s.groups)
              ≡ is_member_said steps x g
                  (is_member x g (take_step env default_duration step s).groups))
  unfolding take_step handle_group_event reconcile_groups
  take_step-groups (event_seen event now) steps s u (once, ok) =
      let same = handle_anti_affinity_event-groups event now s in
      rw same (
        follow_groups-HasUniqueKeys event s.groups u,
        ok,
        λ x g.
            ap (is_member_said steps x g) (sym (is_member-follow_groups event s.groups x g u once)),
      )
  take_step-groups (tick (some groups) listed now) steps s u (once, ok) =
      rw (watch_tick-groups (some groups) listed now s) (
        reconcile_groups-HasUniqueKeys (some groups) s.groups u,
        ok,
        λ x g.
            ap (is_member_said steps x g)
              (sym (is_member-reconcile_groups groups s.groups x g once u)),
      )
  take_step-groups (tick none listed now) steps s u ok =
      rw (watch_tick-groups none listed now s)
        (reconcile_groups-HasUniqueKeys none s.groups u, ok, λ x g. refl)
  take_step-groups (requested name duration reject now) steps s u ok =
      rw (ap (λ t. t.0) (instance_request-registries env duration now name reject s))
        (u, ok, λ x g. refl)
  take_step-groups (start_ended name good) steps s u ok =
      rw (finish_start-groups name good s) (u, ok, λ x g. refl)
  take_step-groups (world_changed change) steps s u ok = (u, ok, λ x g. refl)

  -- In every run of the program that begins with each group kept once, and in which events and
  -- listings name each group once, the groups say of each instance what the last event of it or
  -- listing said, requests and starts in between whatever they are, and each group is kept once.
  pub run_steps-groups :
      (steps : List (Step W)) (s : Sablier W)
      → HasUniqueKeys s.groups
      → IsAdmissible steps
      → HasUniqueKeys (run_steps env default_duration steps s).groups
        × ((x g : String)
            → is_member x g (run_steps env default_duration steps s).groups
              ≡ is_member_said steps x g (is_member x g s.groups))
  unfolding run_steps
  run_steps-groups [] s u ok = (u, λ x g. refl)
  run_steps-groups (step ∷ steps) s u ok =
      let (u', ok', said) = take_step-groups step steps s u ok in
      let (u'', rest) = run_steps-groups steps (take_step env default_duration step s) u' ok' in
      (u'', λ x g. rest x g ∙ sym (said x g))
