-- ===== src/Kubernetes/Config.antt =====
-- pkg/provider/kubernetes/sablier_config.go: the configuration of a workload, from its labels and its
-- annotations, and the listing of the workloads that are enabled.
use sablier.Text.{strip_prefix, concat}
use sablier.Prelude.{
  [], ◌∷◌, some, none, true, false, inl, inr, refl, arith, suc, zero, ℕ, String, Map, List, insert,
  if◌then◌else◌, Option, is_some, contains, ◌++◌,
}
pub mod Precedence

abbrev pub config_prefix : String
config_prefix = "sablier."

abbrev pub public_prefix : String
public_prefix = "sablierapp.dev/"

-- A public key is copied to the key that it stands for.
copy_public_keys : Map String → Map String → Map String
copy_public_keys [] dst = dst
copy_public_keys ((k, v) ∷ src) dst = elim (strip_prefix public_prefix k) [
  | none ↦ copy_public_keys src dst
  | some name ↦ copy_public_keys src (insert (concat config_prefix name) v dst)
]

-- maps.Copy
copy_all : Map String → Map String → Map String
copy_all [] dst = dst
copy_all ((k, v) ∷ src) dst = copy_all src (insert k v dst)

copy_config_keys : Map String → Map String → Map String
copy_config_keys [] dst = dst
copy_config_keys ((k, v) ∷ src) dst =
    if is_some (strip_prefix config_prefix k)
    then copy_config_keys src (insert k v dst)
    else copy_config_keys src dst

unfoldable pub sablier_config : Map String → Map String → Map String
unfolding copy_public_keys copy_all copy_config_keys
sablier_config labels annotations =
    copy_public_keys annotations
      (copy_config_keys annotations (copy_public_keys labels (copy_all labels [])))

-- A workload with its namespace and its name.
pub record Workload : Type 0 where
  pub namespace : String
  pub name : String

-- The items found by one selector that are new, with the keys seen by then.
add_unseen : List Workload → List Workload → List String → List Workload × List String
add_unseen [] items seen = (items, seen)
add_unseen (w ∷ ws) items seen =
    let key = concat w.namespace (concat "/" w.name) in
    if contains seen key
    then add_unseen ws items seen
    else add_unseen ws (items ++ w ∷ []) (key ∷ seen)

-- listEnabled, on the answers of the two selectors: `none` is an error.
add_found : List (Option (List Workload)) → List Workload → List String → Option (List Workload)
unfolding add_unseen
add_found [] items seen = some items
add_found (none ∷ answers) items seen = none
add_found (some found ∷ answers) items seen =
    let (items', seen') = add_unseen found items seen in add_found answers items' seen'

unfoldable pub list_enabled : (String → Option (List Workload)) → Option (List Workload)
unfolding add_found
list_enabled list_by =
    add_found (list_by (concat public_prefix "enable=true") ∷ list_by "sablier.enable=true" ∷ []) []
      []
