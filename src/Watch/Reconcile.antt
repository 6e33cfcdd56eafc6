-- ===== src/Watch/Reconcile.antt =====
-- After a reconciliation the registry is the provider's.
use sablier.Groups.Replace.{instance_snapshot-HasUniqueKeys, contains-instance_snapshot}
use sablier.Groups.Sync.{sync-Synced, is_member-remove}
use sablier.Groups.Member.{is_member}
use sablier.Groups.{Registry, sync, members, instance_snapshot, remove}
use sablier.Watch.{reconcile_groups, sync_all, remove_unmanaged}
use sablier.Prelude.{
  [], ◌∷◌, some, false, inl, inr, refl, arith, String, Map, List, lookup, has_key, HasUniqueKeys,
  ◌≡◌, contains, if◌then◌else◌, eq_iff, ◌&&◌, has_key-lookup, keys, not, contains-keys, Bool-cases,
  Option, none,
}

sync_all-HasUniqueKeys :
    (wanted : Map (List String)) (r : Registry)
    → HasUniqueKeys r
    → HasUniqueKeys (sync_all wanted r)
unfolding sync_all
sync_all-HasUniqueKeys [] r u = u
sync_all-HasUniqueKeys ((name, groups) ∷ rest) r u =
    sync_all-HasUniqueKeys rest (sync name groups r).2 (sync-Synced name groups r u).unique

is_member-sync_all :
    (wanted : Map (List String)) (r : Registry) (x g : String)
    → HasUniqueKeys wanted
    → HasUniqueKeys r
    → is_member x g (sync_all wanted r)
      ≡ (if has_key x wanted then contains (members x wanted) g else is_member x g r)
unfolding sync_all lookup has_key
is_member-sync_all [] r x g u v = refl
is_member-sync_all ((name, groups) ∷ rest) r x g u v =
    let now = sync-Synced name groups r v in
    ground (
      arith,
      is_member-sync_all rest (sync name groups r).2 x g u.1 now.unique,
      now.member x g,
      u.0,
      eq_iff name x,
    )

pub is_member-remove_unmanaged {ℓ} :
    {V : Type ℓ} (managed : Map V) (names : List String) (r : Registry) (x g : String)
    → HasUniqueKeys r
    → is_member x g (remove_unmanaged managed names r)
      ≡ (if contains names x && not (has_key x managed) then false else is_member x g r)
unfolding remove_unmanaged
is_member-remove_unmanaged managed [] r x g v = ground arith
is_member-remove_unmanaged managed (name ∷ names) r x g v =
    let gone = is_member-remove name r v in
    elim (Bool-cases (has_key name managed)) [
      | inl kept ↦
          ground (arith, kept, is_member-remove_unmanaged managed names r x g v, eq_iff name x)
      | inr dropped ↦ ground (
        arith,
        dropped,
        is_member-remove_unmanaged managed names (remove name r).1 x g gone.2,
        gone.0 x g,
        eq_iff name x,
      )
    ]

-- Groups are listed only under a key.
pub unlisted :
    (x g : String) (m : Map (List String)) → has_key x m ≡ false → contains (members x m) g ≡ false
unlisted x g m h = ground (arith, h, has_key-lookup x m)

-- Once reconcileGroups has run with the groups of the provider, an instance is in a group exactly if
-- the provider says so, whatever the registry held before.
pub is_member-reconcile_groups :
    (groups : Map (List String)) (r : Registry) (x g : String)
    → HasUniqueKeys groups
    → HasUniqueKeys r
    → is_member x g (reconcile_groups (some groups) r) ≡ is_member x g groups
unfolding reconcile_groups
is_member-reconcile_groups groups r x g u v =
    let managed = instance_snapshot groups in
    let synced = sync_all managed r in
    let w = sync_all-HasUniqueKeys managed r v in
    ground (
      arith,
      is_member-remove_unmanaged managed (keys (instance_snapshot synced)) synced x g w,
      is_member-sync_all managed r x g (instance_snapshot-HasUniqueKeys groups) v,
      contains-keys x (instance_snapshot synced),
      contains-instance_snapshot synced x g w,
      contains-instance_snapshot groups x g u,
      unlisted x g (instance_snapshot synced),
      unlisted x g managed,
    )

remove_unmanaged-HasUniqueKeys {ℓ} :
    {V : Type ℓ} (managed : Map V) (names : List String) (r : Registry)
    → HasUniqueKeys r
    → HasUniqueKeys (remove_unmanaged managed names r)
unfolding remove_unmanaged
remove_unmanaged-HasUniqueKeys managed [] r u = u
remove_unmanaged-HasUniqueKeys managed (name ∷ names) r u =
    elim (Bool-cases (has_key name managed)) [
      | inl kept ↦ rw kept (remove_unmanaged-HasUniqueKeys managed names r u)
      | inr dropped ↦ rw dropped (
          remove_unmanaged-HasUniqueKeys managed names (remove name r).1
            (is_member-remove name r u).2)
    ]

pub reconcile_groups-HasUniqueKeys :
    (groups : Option (Map (List String))) (r : Registry)
    → HasUniqueKeys r
    → HasUniqueKeys (reconcile_groups groups r)
unfolding reconcile_groups
reconcile_groups-HasUniqueKeys none r u = u
reconcile_groups-HasUniqueKeys (some groups) r u =
    let synced = sync_all (instance_snapshot groups) r in
    remove_unmanaged-HasUniqueKeys (instance_snapshot groups) (keys (instance_snapshot synced))
      synced (sync_all-HasUniqueKeys (instance_snapshot groups) r u)
