-- ===== src/Watch/Event.antt =====
-- What one event does to the groups.
use sablier.Groups.Sync.{sync-Synced, is_member-remove}
use sablier.Groups.Member.{is_member, contains-string_set, contains-groups_of}
use sablier.Prelude.Sets.{IsUnique, subset_of_length}
use sablier.Groups.{Registry, string_set, groups_of}
use sablier.Watch.{
  equal_string_slice_sets, InstanceEvent, EventType, follow_groups, created, updated, removed,
  other_event,
}
use sablier.Prelude.{
  [], ◌∷◌, true, false, inl, inr, refl, arith, List, String, Bool, ◌≡◌, all, length, HasUniqueKeys,
  contains, if◌then◌else◌, ◌⊎◌, eq_iff, sym, ◌==◌, str_eq, ◌∙◌, Bool-cases,
}

all-contains :
    (a b : List String) (g : String)
    → all (contains a) b ≡ true
    → contains b g ≡ true
    → contains a g ≡ true
all-contains a [] g h held = cc
all-contains a (x ∷ xs) g h held = ground (arith, all-contains a xs g, eq_iff x g)

-- The comparison of lengths is enough where the second list has no repeats.
equal_string_slice_sets-contains :
    (a b : List String)
    → IsUnique b
    → equal_string_slice_sets a b ≡ true
    → (g : String) → contains a g ≡ contains b g
unfolding equal_string_slice_sets
equal_string_slice_sets-contains a b u h g = elim (Bool-cases (contains b g)) [
  | inl there ↦ into g there ∙ sym there
  | inr away ↦ elim (Bool-cases (contains a g)) [
    | inl here ↦ absurd (ground (arith, away, back g here))
    | inr nowhere ↦ nowhere ∙ sym away
  ]
]
  where
    into : (s : String) → contains b s ≡ true → contains a s ≡ true
    into s held =
        sym (contains-string_set a s) ∙ all-contains (string_set a) b s (ground arith) held

    back : (s : String) → contains a s ≡ true → contains b s ≡ true
    back = subset_of_length a b u into (ground arith)

-- Whether the instance of an event is to be in group `g`, if it was before or not.
abbrev pub is_member_after : InstanceEvent → Bool → String → Bool
is_member_after event was g = elim event.type [
  | created ↦ if length event.info.groups == 0 then was else contains event.info.groups g
  | updated ↦ contains event.info.groups g
  | removed ↦ false
  | other_event ↦ was
]

pub EventType-cases :
    (t : EventType) → (t ≡ created) ⊎ ((t ≡ updated) ⊎ ((t ≡ removed) ⊎ (t ≡ other_event)))
EventType-cases created = inl refl
EventType-cases updated = inr (inl refl)
EventType-cases removed = inr (inr (inl refl))
EventType-cases other_event = inr (inr (inr refl))

no_groups : (gs : List String) (g : String) → length gs ≡ 0 → contains gs g ≡ false
no_groups [] g h = refl
no_groups (x ∷ xs) g h = absurd (omega (arith, h))

-- After a creation or an update the instance is in exactly the groups of the event, and after its
-- removal in none, whichever way the handler takes; no other instance is moved. An instance that is
-- created without groups is left as it is. The groups of the event are listed once each.
pub is_member-follow_groups :
    (event : InstanceEvent) (r : Registry) (x g : String)
    → HasUniqueKeys r
    → IsUnique event.info.groups
    → is_member x g (follow_groups event r) ≡ (
        if str_eq event.info.name x
        then is_member_after event (is_member x g r) g
        else is_member x g r)
unfolding follow_groups
is_member-follow_groups event r x g u v =
    let name = event.info.name in
    let groups = event.info.groups in
    let synced = sync-Synced name groups r u in
    let dropped = is_member-remove name r u in
    elim (EventType-cases event.type) [
      | inl made ↦ ground (arith, made, synced.member x g, eq_iff name x)
      | inr (inl changed) ↦ elim (Bool-cases (equal_string_slice_sets (groups_of name r) groups)) [
        | inl same ↦ ground (
          arith,
          changed,
          same,
          eq_iff name x,
          equal_string_slice_sets-contains (groups_of name r) groups v same g,
          contains-groups_of name g r u,
        )
        | inr differ ↦ elim (Bool-cases (length groups == 0)) [
          | inl bare ↦
              ground
                (arith, changed, differ, bare, dropped.0 x g, eq_iff name x, no_groups groups g)
          | inr listed ↦ ground (arith, changed, differ, listed, synced.member x g, eq_iff name x)
        ]
      ]
      | inr (inr (inl gone)) ↦ ground (arith, gone, dropped.0 x g, eq_iff name x)
      | inr (inr (inr unknown)) ↦ ground (arith, unknown, eq_iff name x)
    ]

pub follow_groups-HasUniqueKeys :
    (event : InstanceEvent) (r : Registry) → HasUniqueKeys r → HasUniqueKeys (follow_groups event r)
unfolding follow_groups
follow_groups-HasUniqueKeys event r u =
    let name = event.info.name in
    let groups = event.info.groups in
    let synced = (sync-Synced name groups r u).unique in
    let dropped = (is_member-remove name r u).2 in
    elim (EventType-cases event.type) [
      | inl made ↦ elim (Bool-cases (length groups == 0)) [
        | inl bare ↦ rw (made, bare, follow_groups) u
        | inr listed ↦ rw (made, listed, follow_groups) synced
      ]
      | inr (inl changed) ↦ elim (Bool-cases (equal_string_slice_sets (groups_of name r) groups)) [
        | inl same ↦ rw (changed, same, follow_groups) u
        | inr differ ↦ elim (Bool-cases (length groups == 0)) [
          | inl bare ↦ rw (changed, differ, bare, follow_groups) dropped
          | inr listed ↦ rw (changed, differ, listed, follow_groups) synced
        ]
      ]
      | inr (inr (inl gone)) ↦ rw (gone, follow_groups) dropped
      | inr (inr (inr unknown)) ↦ rw (unknown, follow_groups) u
    ]
