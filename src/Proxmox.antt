-- ===== src/Proxmox.antt =====
-- pkg/provider/proxmoxlxc: the provider for LXC containers of Proxmox. Here are the tags (tags.go), the
-- scan of the nodes with its cache and the lookup of names (proxmox_lxc.go), and the listings
-- (container_list.go). What the client answers is a parameter. A method is one step.
use sablier.Groups.{members}
use sablier.Docker.{sort_names}
use sablier.Instance.{InstanceInfo, no_instance}
use sablier.Text.{strip_prefix, atoi, cut, is_empty, itoa, split}
use sablier.Prelude.Int.{ℤ, pos}
use sablier.Prelude.{
  [], ◌∷◌, some, none, true, false, inl, inr, refl, arith, suc, zero, ℕ, String, List, Option, Map,
  Bool, if◌then◌else◌, contains, insert, ◌>>=◌, lookup, str_eq, not, has_key, ◌&&◌, ◌++◌,
}
pub mod Tasks
pub mod Scan
mod Tests

pub record ContainerRef : Type 0 where
  pub node : String
  pub vmid : ℤ
  pub name : String

-- A container as a node lists it.
pub record Listed : Type 0 where
  pub vmid : ℕ
  pub name : String
  pub tags : String
  pub status : String

pub record Discovered : Type 0 where
  pub ref : ContainerRef
  pub tags : List String
  pub status : String

-- The calls of the client that a scan makes: the names of the nodes, and the containers of a node,
-- `none` where the node or its list cannot be read. The separator of tags is the client's too.
pub record Cluster : Type 0 where
  pub nodes : Option (List String)
  pub containers : String → Option (List Listed)
  pub tag_separator : ℕ

pub parse_tags : ℕ → String → List String
parse_tags separator tags = if is_empty tags then [] else split separator tags

abbrev pub has_sablier_tag : List String → Bool
has_sablier_tag tags = contains tags "sablier"

group_names : List String → List String
group_names [] = []
group_names (tag ∷ tags) =
    let rest = group_names tags in
    elim (strip_prefix "sablier-group-" tag) [
      | none ↦ rest
      | some group ↦ if is_empty group then rest else group ∷ rest
    ]

pub extract_groups : List String → List String
unfolding group_names
extract_groups tags = elim (group_names tags) [ [] ↦ "default" ∷ [] | g ∷ gs ↦ g ∷ gs ]

-- What a scan has gathered: the new cache, the names of managed containers, and the containers found.
pub record Gathered : Type 0 where
  pub cache : Map ContainerRef
  pub managed : Map ContainerRef
  pub discovered : List Discovered

abbrev pub ref_of : String → Listed → ContainerRef
ref_of node c = record { node = node; vmid = pos c.vmid; name = c.name }

-- One container. `none` is the error of a duplicate name.
scan_container : ℕ → String → Listed → Gathered → Option Gathered
unfolding parse_tags
scan_container separator node c g =
    let ref = ref_of node c in
    let cached = record g { cache = insert (itoa c.vmid) ref (insert c.name ref g.cache) } in
    let tags = parse_tags separator c.tags in
    if not (has_sablier_tag tags)
    then some cached
    else if has_key c.name g.managed
    then none
    else some (record cached {
      managed = insert c.name ref g.managed;
      discovered = g.discovered ++ record { ref = ref; tags = tags; status = c.status } ∷ [];
    })

scan_node : ℕ → String → List Listed → Gathered → Option Gathered
unfolding scan_container
scan_node separator node [] g = some g
scan_node separator node (c ∷ cs) g =
    scan_container separator node c g >>= (λ g'. scan_node separator node cs g')

-- A node that cannot be read is passed over.
scan_nodes : Cluster → List String → Gathered → Option Gathered
unfolding scan_node
scan_nodes cluster [] g = some g
scan_nodes cluster (node ∷ nodes) g = elim (cluster.containers node) [
  | none ↦ scan_nodes cluster nodes g
  | some cs ↦ scan_node cluster.tag_separator node cs g >>= (λ g'. scan_nodes cluster nodes g')
]

-- scanContainers: what it found, in order, and the cache. An error leaves the cache as it was.
pub scan_containers : Cluster → Map ContainerRef → Option (List Discovered) × Map ContainerRef
unfolding scan_nodes
scan_containers cluster cache = elim cluster.nodes [
  | none ↦ (none, cache)
  | some nodes ↦
      elim (scan_nodes cluster nodes (record { cache = []; managed = []; discovered = [] })) [
        | none ↦ (none, cache)
        | some g ↦ (some g.discovered, g.cache)
      ]
]

-- The reference of a VMID, if it lies on this node.
on_node : String → String → Map ContainerRef → Option ContainerRef
on_node node vmid cache = elim (lookup vmid cache) [
  | none ↦ none
  | some ref ↦ if str_eq ref.node node then some ref else none
]

-- A name with a slash, "node/vmid". Its parts are given.
resolve_vmid :
    Cluster → String → String → String → Map ContainerRef → Option ContainerRef × Map ContainerRef
unfolding on_node
resolve_vmid cluster name node vmid cache = elim (atoi vmid) [
  | none ↦ (none, cache)
  | some n ↦ elim (on_node node vmid cache) [
    | some ref ↦ (some ref, cache)
    | none ↦
        let (scanned, fresh) = scan_containers cluster cache in
        elim scanned [
          | none ↦ (none, fresh)
          | some found ↦ elim (on_node node vmid fresh) [
            | some ref ↦ (some ref, fresh)
            | none ↦ (some (record { node = node; vmid = n; name = name }), fresh)
          ]
        ]
  ]
]

pub resolve : Cluster → String → Map ContainerRef → Option ContainerRef × Map ContainerRef
unfolding resolve_vmid
resolve cluster name cache = elim (cut 47 name) [
  | some (node, vmid) ↦ resolve_vmid cluster name node vmid cache
  | none ↦ elim (lookup name cache) [
    | some ref ↦ (some ref, cache)
    | none ↦
        let (scanned, fresh) = scan_containers cluster cache in
        elim scanned [ none ↦ (none, fresh) | some found ↦ (lookup name fresh, fresh) ]
  ]
]

listed_instances : Bool → List Discovered → List InstanceInfo
listed_instances all [] = []
listed_instances all (d ∷ ds) =
    let rest = listed_instances all ds in
    if not all && not (str_eq d.status "running")
    then rest
    else record no_instance { name = d.ref.name; groups = extract_groups d.tags; enabled = "true" }
      ∷ rest

-- InstanceList; of a configuration only these three fields are set.
pub list_containers :
    Cluster → Bool → Map ContainerRef → Option (List InstanceInfo) × Map ContainerRef
unfolding listed_instances
list_containers cluster all cache =
    let (scanned, fresh) = scan_containers cluster cache in
    elim scanned [ none ↦ (none, fresh) | some ds ↦ (some (listed_instances all ds), fresh) ]

add_to_groups : String → List String → Map (List String) → Map (List String)
add_to_groups name [] groups = groups
add_to_groups name (g ∷ gs) groups =
    add_to_groups name gs (insert g (members g groups ++ name ∷ []) groups)

-- InstanceGroups
gather_groups : List Discovered → Map (List String) → Map (List String)
gather_groups [] groups = groups
gather_groups (d ∷ ds) groups =
    gather_groups ds (add_to_groups d.ref.name (extract_groups d.tags) groups)

sort_each : Map (List String) → Map (List String)
sort_each [] = []
sort_each ((g, names) ∷ rest) = (g, sort_names names) ∷ sort_each rest

pub container_groups : Cluster → Map ContainerRef → Option (Map (List String)) × Map ContainerRef
unfolding gather_groups sort_each add_to_groups
container_groups cluster cache =
    let (scanned, fresh) = scan_containers cluster cache in
    elim scanned [
      | none ↦ (none, fresh)
      | some ds ↦ (some (sort_each (gather_groups ds [])), fresh)
    ]
