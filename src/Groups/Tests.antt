-- ===== src/Groups/Tests.antt =====
-- Runs of the registry.
use sablier.Groups.Sync.{Synced, sync-Synced}
use sablier.Prelude.{HasUniqueKeys, ◌∷◌, lookup, [], ◌≡◌, some, refl, has_key, keys}
use sablier.Groups.{Registry, get_group, sync, group_keys, groups_of, sync_add, string_set}

abbrev home : Registry
home = ("web", "a" ∷ "b" ∷ []) ∷ ("db", "b" ∷ []) ∷ []

home-HasUniqueKeys : HasUniqueKeys home
unfolding has_key
home-HasUniqueKeys = (refl, (refl, tt))

listed : (get_group "db" home ≡ some ("b" ∷ [])) × (group_keys home ≡ "web" ∷ "db" ∷ [])
unfolding get_group group_keys lookup keys
listed = (refl, refl)

moved : (sync "b" ("web" ∷ "new" ∷ []) home).0 ≡ "new" ∷ []
unfolding sync sync_add string_set groups_of
moved = refl

sync-Synced_example :
    Synced "b" ("web" ∷ "new" ∷ "web" ∷ []) home (sync "b" ("web" ∷ "new" ∷ "web" ∷ []) home)
sync-Synced_example = sync-Synced "b" ("web" ∷ "new" ∷ "web" ∷ []) home home-HasUniqueKeys
