-- ===== src/AntiAffinity.antt =====
-- pkg/sablier/anti_affinity.go: instances that back off from groups. A reconciliation holds its lock
-- throughout, so it is one step.
use sablier.RunningHours.{LocalTime}
use sablier.Groups.{Registry}
use sablier.Requests.{
  Environment, Sablier, instance_request, is_group_active, refused, info_of, missing, found,
  unreadable,
}
use sablier.Prelude.{
  [], ◌∷◌, some, none, true, false, inl, inr, refl, arith, suc, zero, ℕ, String, Bool, List, Map,
  if◌then◌else◌, contains, insert, ◌&&◌, has_key, not, without,
}
pub mod Desired
pub mod Suppressed
pub mod Indices
mod Tests

-- The groups of the registry that are active, each looked at once.
active_groups : (String → Bool) → Registry → List String
active_groups is_active [] = []
active_groups is_active ((g, ms) ∷ r) =
    let rest = active_groups is_active r in if is_active g then g ∷ rest else rest

-- The inner loop of the decision: the members of one group.
decide_members : Bool → List String → Map Bool → Map Bool
decide_members active [] desired = desired
decide_members active (m ∷ ms) desired =
    let next =
      if active
      then insert m true desired
      else if has_key m desired
      then desired
      else insert m false desired in
    decide_members active ms next

decide_groups : List String → Registry → Map Bool → Map Bool
unfolding decide_members
decide_groups active [] desired = desired
decide_groups active ((g, ms) ∷ r) desired =
    decide_groups active r (decide_members (contains active g) ms desired)

-- Which instances are to be suppressed, and which others back off from some group.
pub desired_suppress : (String → Bool) → Registry → Map Bool
unfolding active_groups decide_groups
desired_suppress is_active r = decide_groups (active_groups is_active r) r []

module _ {ℓ} {W : Type ℓ} (env : Environment W) (default_duration : ℕ) (now : LocalTime) where
  pub suppress : String → Sablier W → Sablier W
  suppress name s = elim (env.get_session name s.world) [
    | missing ↦ s
    | unreadable ↦ s
    | found info ↦
        let (gone, w1) = env.stop_instance name s.world in
        let w2 = (env.delete_session name w1).1 in
        let left = record s { world = w1 } in
        let forced = record s { world = w2; suppressed = name ∷ without name s.suppressed } in
        if gone then forced else left
  ]

  pub restore : String → Sablier W → Sablier W
  restore name s =
      let (answer, s') = instance_request env name default_duration false now s in
      elim answer [
        | refused e ↦ s'
        | info_of info ↦ record s' { suppressed = without name s'.suppressed }
      ]

  -- One round of the last loop: what differs from the decision is changed.
  apply_wish : String → Bool → Sablier W → Sablier W
  apply_wish name wanted s =
      let already = contains s.suppressed name in
      if wanted && not already
      then suppress name s
      else if not wanted && already
      then restore name s
      else s

  apply_decision : Map Bool → Sablier W → Sablier W
  unfolding apply_wish
  apply_decision [] s = s
  apply_decision ((name, wanted) ∷ rest) s = apply_decision rest (apply_wish name wanted s)

  pub reconcile_anti_affinity : Sablier W → Sablier W
  unfolding apply_decision
  reconcile_anti_affinity s =
      apply_decision (desired_suppress (is_group_active env s) s.anti_affinity) s
