-- ===== src/Proxmox/Tests.antt =====
-- A cluster of one node that can be read and one that cannot.
use sablier.Proxmox.Scan.{names_of, is_managed, listed_on, answers_to, scan_containers-Scanned}
use sablier.Prelude.Sets.{IsUnique}
use sablier.Instance.{ready, starting}
use sablier.Proxmox.Tasks.Ready.{IsOver, instance_inspect-ready}
use sablier.Text.{strip_prefix, cut, atoi, itoa, split}
use sablier.Prelude.Int.{pos}
use sablier.Proxmox.Tasks.{Client, instance_stop, instance_inspect, Provider, lxc_info}
use sablier.Proxmox.{
  Listed, Cluster, ContainerRef, extract_groups, resolve, list_containers, container_groups,
  scan_containers, Discovered,
}
use sablier.Prelude.{
  [], ◌∷◌, some, none, true, false, refl, Bool, if◌then◌else◌, ◌≡◌, str_eq, lookup, ◌⊎◌, delete,
  List, insert, String, has_key, contains, any,
}

abbrev web : Listed
web = record { vmid = 111; name = "web"; tags = "sablier;sablier-group-apps"; status = "running" }

abbrev plain : Listed
plain = record { vmid = 7; name = "plain"; tags = ""; status = "stopped" }

abbrev home : Cluster
home = record {
  nodes = some ("pve" ∷ "down" ∷ []);
  containers = λ node. if str_eq node "pve" then some (web ∷ plain ∷ []) else none;
  tag_separator = 59;
}

-- The world says whether the task of "web" runs still.
abbrev office : Client Bool
office = record {
  cluster = λ w. home;
  status = λ ref w. some "running";
  start = λ ref w. (some 1, w);
  stop = λ ref w. (true, w);
  interfaces = λ ref w. some (record { name = "eth0"; inet = "10.0.0.1"; inet6 = "" } ∷ []);
  ping = λ task w. some (record { is_running = w; is_failed = false; end_time = none });
  failure_message = λ ref task. "failed";
  status_message = λ status. status;
}

abbrev web_ref : ContainerRef
web_ref = record { node = "pve"; vmid = pos 111; name = "web" }

abbrev started : Bool → Provider Bool
started runs = record {
  cache = ("web", web_ref) ∷ [];
  pending_tasks = ("web", record { task = 1; failed_at = none }) ∷ [];
  world = runs;
}

group_of_web :
    extract_groups ("sablier" ∷ "sablier-group-apps" ∷ "sablier-group-" ∷ []) ≡ "apps" ∷ []
unfolding extract_groups strip_prefix
group_of_web = refl

unknown_vmid :
    (resolve home "pve/9" []).0 ≡ some (record { node = "pve"; vmid = pos 9; name = "pve/9" })
unfolding resolve cut atoi scan_containers itoa insert split lookup has_key
unknown_vmid = refl

nothing_listed : (list_containers (record home { nodes = none }) true []).0 ≡ none
unfolding list_containers scan_containers
nothing_listed = refl

no_groups : (container_groups (record home { nodes = none }) []).0 ≡ none
unfolding container_groups scan_containers
no_groups = refl

stop_forgets : (instance_stop office "web" (started true)).1.pending_tasks ≡ []
unfolding instance_stop resolve cut lookup delete
stop_forgets = refl

still_starting :
    (instance_inspect office "web" 5 (started true)).0 ≡ some (lxc_info "web" 0 starting)
unfolding instance_inspect resolve cut lookup
still_starting = refl

now_ready : (instance_inspect office "web" 5 (started false)).0 ≡ some (lxc_info "web" 1 ready)
unfolding instance_inspect resolve cut lookup delete
now_ready = refl

instance_inspect-ready_example :
    (ref : ContainerRef) × ((resolve home "web" (started false).cache).0 ≡ some ref)
    × IsOver office "web" ref (instance_inspect office "web" 5 (started false)).1
instance_inspect-ready_example =
    instance_inspect-ready office "web" 5 (started false) (lxc_info "web" 1 ready) now_ready refl

scan_containers-Scanned_example :
    (scan_containers home [] ≡ (none, []))
    ⊎ ((nodes : List String) × (found : List Discovered) × (home.nodes ≡ some nodes)
        × ((scan_containers home []).0 ≡ some found)
        × IsUnique (names_of found)
        × ((x : String)
            → contains (names_of found) x ≡ any (is_managed 59 x) (listed_on home nodes))
        × ((k : String)
            → has_key k (scan_containers home []).1 ≡ any (answers_to k) (listed_on home nodes)))
scan_containers-Scanned_example = scan_containers-Scanned home []
