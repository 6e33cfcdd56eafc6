-- ===== src/Watch/Rebuild.antt =====
-- pkg/sablier/anti_affinity.go: the index of anti-affinities, rebuilt from the provider's instances.
use sablier.Groups.Replace.{contains-instance_snapshot}
use sablier.Groups.Sync.{sync-Synced}
use sablier.Watch.Reconcile.{is_member-remove_unmanaged, unlisted}
use sablier.Dependencies.Graph.{has_key_after_insert}
use sablier.Groups.Member.{is_member}
use sablier.Watch.{remove_unmanaged}
use sablier.Groups.{Registry, sync, instance_snapshot}
use sablier.Instance.{InstanceInfo}
use sablier.Prelude.{
  [], ◌∷◌, some, none, true, false, inl, inr, refl, arith, List, String, Option, Map, Bool, insert,
  contains, has_key, HasUniqueKeys, keys, ◌≡◌, ◌||◌, if◌then◌else◌, Option-cases, eq_iff,
  contains-keys,
}

present_names : List String → Map Bool → Map Bool
present_names [] present = present
present_names (name ∷ names) present = present_names names (insert name true present)

sync_inspected : (String → Option InstanceInfo) → List String → Registry → Registry
sync_inspected inspect [] r = r
sync_inspected inspect (name ∷ names) r =
    sync_inspected inspect names
      (elim (inspect name) [ none ↦ r | some info ↦ (sync name info.anti_affinity r).2 ])

-- reconcileAntiAffinityRegistry: `none` is an error of the listing. Then nothing changes.
pub reconcile_anti_affinity_registry :
    Option (List String) → (String → Option InstanceInfo) → Registry → Registry
unfolding present_names sync_inspected
reconcile_anti_affinity_registry none inspect r = r
reconcile_anti_affinity_registry (some names) inspect r =
    let synced = sync_inspected inspect names r in
    remove_unmanaged (present_names names []) (keys (instance_snapshot synced)) synced

-- Of an instance that was listed: what it declares, or what the index had if it cannot be inspected.
abbrev pub declares : Option InstanceInfo → Bool → String → Bool
declares none before g = before
declares (some info) before g = contains info.anti_affinity g

has_key-present_names :
    (names : List String) (present : Map Bool) (x : String)
    → has_key x (present_names names present) ≡ contains names x || has_key x present
unfolding present_names
has_key-present_names [] present x = refl
has_key-present_names (name ∷ names) present x = ground (
  arith,
  has_key-present_names names (insert name true present) x,
  has_key_after_insert name x true present,
)

sync_inspected_lem :
    (inspect : String → Option InstanceInfo) (names : List String) (r : Registry)
    → HasUniqueKeys r
    → HasUniqueKeys (sync_inspected inspect names r)
      × ((x g : String)
          → is_member x g (sync_inspected inspect names r) ≡ (
              if contains names x
              then declares (inspect x) (is_member x g r) g
              else is_member x g r))
unfolding sync_inspected
sync_inspected_lem inspect [] r u = (u, λ x g. refl)
sync_inspected_lem inspect (name ∷ names) r u = elim (Option-cases (inspect name)) [
  | inl unknown ↦
      let (unique, later) = sync_inspected_lem inspect names r u in
      (rw unknown unique, λ x g. ground (arith, unknown, later x g, eq_iff name x))
  | inr (info, known) ↦
      let first = sync-Synced name info.anti_affinity r u in
      let (unique, later) =
        sync_inspected_lem inspect names (sync name info.anti_affinity r).2 first.unique in
      (rw known unique, λ x g. ground (arith, known, later x g, first.member x g, eq_iff name x))
]

-- After a rebuild of an index that keeps each group once, an instance backs off from a group exactly
-- if the provider lists it and its label says so now. One that is listed but cannot be inspected keeps
-- what the index had, and one that is not listed is gone from it.
pub is_member-reconcile_anti_affinity_registry :
    (names : List String) (inspect : String → Option InstanceInfo) (r : Registry) (x g : String)
    → HasUniqueKeys r
    → is_member x g (reconcile_anti_affinity_registry (some names) inspect r)
      ≡ (if contains names x then declares (inspect x) (is_member x g r) g else false)
unfolding reconcile_anti_affinity_registry has_key
is_member-reconcile_anti_affinity_registry names inspect r x g u =
    let synced = sync_inspected inspect names r in
    let (unique, member) = sync_inspected_lem inspect names r u in
    ground (
      arith,
      is_member-remove_unmanaged (present_names names []) (keys (instance_snapshot synced)) synced x
          g unique,
      has_key-present_names names [] x,
      member x g,
      contains-keys x (instance_snapshot synced),
      contains-instance_snapshot synced x g unique,
      unlisted x g (instance_snapshot synced),
    )
