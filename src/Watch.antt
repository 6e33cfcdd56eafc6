-- ===== src/Watch.antt =====
-- pkg/sablier/group_watch.go, and the events of anti_affinity.go: how both registries follow the
-- provider. The loop of GroupWatch takes one event or one tick at a time, so each is one step.
use sablier.Text.{is_empty}
use sablier.AntiAffinity.{reconcile_anti_affinity}
use sablier.RunningHours.{LocalTime}
use sablier.Requests.{Environment, Sablier}
use sablier.Groups.{Registry, sync, instance_snapshot, remove, groups_of, string_set}
use sablier.Instance.{InstanceInfo}
use sablier.Prelude.{
  [], ◌∷◌, some, none, true, false, inl, inr, refl, arith, suc, zero, ℕ, List, Map, Option, String,
  if◌then◌else◌, Bool, length, has_key, ◌==◌, keys, ◌&&◌, without, all, ltb, contains, ◌||◌,
}
pub mod Event
pub mod Reconcile
pub mod Rebuild
pub mod Loop
mod Tests

pub data EventType : Type 0 where
  created : EventType
  updated : EventType
  removed : EventType
  other_event : EventType

pub record InstanceEvent : Type 0 where
  pub type : EventType
  pub info : InstanceInfo

pub equal_string_slice_sets : List String → List String → Bool
equal_string_slice_sets a b = length a == length b && all (contains (string_set a)) b

-- The part of handleGroupEvent that is about the groups.
pub follow_groups : InstanceEvent → Registry → Registry
follow_groups event r =
    let name = event.info.name in
    let groups = event.info.groups in
    elim event.type [
      | created ↦ if length groups == 0 then r else (sync name groups r).2
      | updated ↦
          if equal_string_slice_sets (groups_of name r) groups
          then r
          else if length groups == 0
          then (remove name r).1
          else (sync name groups r).2
      | removed ↦ (remove name r).1
      | other_event ↦ r
    ]

sync_all : Map (List String) → Registry → Registry
sync_all [] r = r
sync_all ((name, groups) ∷ rest) r = sync_all rest (sync name groups r).2

-- The instances of the registry that the provider does not have any more are removed.
pub remove_unmanaged {ℓ} : {V : Type ℓ} → Map V → List String → Registry → Registry
remove_unmanaged managed [] r = r
remove_unmanaged managed (name ∷ names) r =
    let next = if has_key name managed then r else (remove name r).1 in
    remove_unmanaged managed names next

-- reconcileGroups: `none` is an error of the provider or a nil map.
pub reconcile_groups : Option (Map (List String)) → Registry → Registry
unfolding sync_all remove_unmanaged
reconcile_groups none r = r
reconcile_groups (some groups) r =
    let managed = instance_snapshot groups in
    let synced = sync_all managed r in
    remove_unmanaged managed (keys (instance_snapshot synced)) synced

module _ {ℓ} {W : Type ℓ} (env : Environment W) (default_duration : ℕ) (now : LocalTime) where
  pub handle_anti_affinity_event : InstanceEvent → Sablier W → Sablier W
  handle_anti_affinity_event event s =
      let name = event.info.name in
      let (added, left, r) = sync name event.info.anti_affinity s.anti_affinity in
      let followed = record s { anti_affinity = r } in
      let (dropped, r') = remove name s.anti_affinity in
      let forgotten = record s { anti_affinity = r'; suppressed = without name s.suppressed } in
      let follow =
        if ltb 0 (length added) || ltb 0 (length left)
        then reconcile_anti_affinity env default_duration now followed
        else followed in
      if is_empty name then s else elim event.type [
        | created ↦ follow
        | updated ↦ follow
        | removed ↦
            if ltb 0 (length dropped)
            then reconcile_anti_affinity env default_duration now forgotten
            else forgotten
        | other_event ↦ s
      ]

  pub handle_group_event : InstanceEvent → Sablier W → Sablier W
  unfolding handle_anti_affinity_event follow_groups
  handle_group_event event s =
      let s' = handle_anti_affinity_event event s in
      record s' { groups = follow_groups event s'.groups }
