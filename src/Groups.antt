-- ===== src/Groups.antt =====
-- pkg/sablier/group_registry.go: which instances belong to which group. The registry of
-- anti-affinities is a second one. Each method runs under the registry's lock, so it is one step; a
-- copy of a slice or a map is the value itself.
pub mod Member
pub mod Sync
pub mod Replace
mod Tests
use sablier.Prelude.{
  String, Bool, true, false, ◌&&◌, ◌||◌, not, List, [], ◌∷◌, ◌++◌, Option, none, some,
  if◌then◌else◌, ◌==◌, length, contains, without, Map, lookup, insert, delete, keys, str_eq,
}

abbrev pub Registry : Type 0
Registry = Map (List String)

abbrev pub new_group_registry : Registry
new_group_registry = []

-- The entry of a missing key is nil.
abbrev pub members : String → Registry → List String
members g r = elim (lookup g r) [ none ↦ [] | some ms ↦ ms ]

-- stringSet, as the list of its elements.
unfoldable pub string_set : List String → List String
string_set [] = []
string_set (s ∷ ss) = s ∷ without s (string_set ss)

slices_equal : List String → List String → Bool
slices_equal [] [] = true
slices_equal (x ∷ xs) (y ∷ ys) = str_eq x y && slices_equal xs ys
slices_equal _ _ = false

-- The loop of maps.EqualFunc over its first map.
entries_equal : Registry → Registry → Bool
unfolding slices_equal
entries_equal [] m = true
entries_equal ((g, ms) ∷ r) m =
    (elim (lookup g m) [ none ↦ false | some ns ↦ slices_equal ms ns ]) && entries_equal r m

maps_equal : Registry → Registry → Bool
unfolding entries_equal
maps_equal r m = length r == length m && entries_equal r m

-- Set: the previous registry if the content changed, and the new one.
pub set_groups : Registry → Registry → Option Registry × Registry
unfolding maps_equal
set_groups r groups = if maps_equal r groups then (none, r) else (some r, groups)

unfoldable pub get_group : String → Registry → Option (List String)
get_group g r = lookup g r

unfoldable pub group_keys : Registry → List String
group_keys r = keys r

unfoldable pub groups_of : String → Registry → List String
groups_of instance_name [] = []
groups_of instance_name ((g, ms) ∷ r) =
    let rest = groups_of instance_name r in if contains ms instance_name then g ∷ rest else rest

pub remove_from_group : String → String → Registry → Registry
remove_from_group instance_name g r = elim (without instance_name (members g r)) [
  | [] ↦ delete g r
  | m ∷ ms ↦ insert g (m ∷ ms) r
]

pub add_to_group : String → String → Registry → Registry
add_to_group instance_name g r = insert g (members g r ++ instance_name ∷ []) r

-- The first loop of Sync: the groups that are added, and the registry with them.
sync_add : String → List String → List String → Registry → List String × Registry
sync_add instance_name [] current r = ([], r)
sync_add instance_name (g ∷ desired) current r = elim (contains current g) [
  | true ↦ sync_add instance_name desired current r
  | false ↦
      let (added, r') = sync_add instance_name desired current (add_to_group instance_name g r) in
      (g ∷ added, r')
]

-- The second loop: the groups that are left, and the registry without them.
sync_remove : String → List String → List String → Registry → List String × Registry
sync_remove instance_name [] desired r = ([], r)
sync_remove instance_name (g ∷ current) desired r = elim (contains desired g) [
  | true ↦ sync_remove instance_name current desired r
  | false ↦
      let (removed, r') =
        sync_remove instance_name current desired (remove_from_group instance_name g r) in
      (g ∷ removed, r')
]

-- Sync: the groups added, the groups removed and the new registry.
pub sync : String → List String → Registry → List String × List String × Registry
sync instance_name new_groups r =
    let current = groups_of instance_name r in
    let desired = string_set new_groups in
    let (added, r1) = sync_add instance_name desired current r in
    let (removed, r2) = sync_remove instance_name current desired r1 in (added, removed, r2)

remove_all : String → List String → Registry → Registry
remove_all instance_name [] r = r
remove_all instance_name (g ∷ gs) r =
    remove_all instance_name gs (remove_from_group instance_name g r)

-- Remove: the groups that the instance was in, and the registry without it.
pub remove : String → Registry → List String × Registry
unfolding remove_all
remove instance_name r = let gs = groups_of instance_name r in (gs, remove_all instance_name gs r)

-- One group's members, each with the group appended to its list.
invert_group : String → List String → Map (List String) → Map (List String)
invert_group g [] out = out
invert_group g (m ∷ ms) out = invert_group g ms (insert m (members m out ++ g ∷ []) out)

invert_into : Registry → Map (List String) → Map (List String)
unfolding invert_group
invert_into [] out = out
invert_into ((g, ms) ∷ r) out = invert_into r (invert_group g ms out)

-- InstanceSnapshot: the inverse map, from instances to their groups.
pub instance_snapshot : Registry → Map (List String)
unfolding invert_into
instance_snapshot r = invert_into r []
