-- ===== src/Lib.antt =====
-- Sablier: starts workloads on demand and stops them when their sessions expire.
--
-- The program's parts, how they interact, and the files that model them (paths are from the
-- repository's root):
--   TinyKv        pkg/tinykv: the key-value store with expiry behind the in-memory session store.
--                 Heap is the heap of timeouts (timeout_heap.go), Store the methods of the store,
--                 Expire the sweep expireFunc and the loop expireLoop, Snapshot the pair MarshalJSON
--                 and UnmarshalJSON (tinykv.go).
--   InMemory      pkg/store/inmemory/inmemory.go and pkg/sablier/session_record.go: the session store
--                 over TinyKv. It fills the parameter of Requests that a session store is.
--   Groups        pkg/sablier/group_registry.go: which instance is in which group. The index of
--                 anti-affinities is a second registry of the same type.
--   RunningHours  pkg/sablier/running_hours.go: the daily window in which an instance is kept warm.
--   Instance      pkg/sablier/instance.go and instance_config.go: the types of an instance.
--   Labels        the same files: what the sablier.* labels parse to, ParseGroups, ParseAntiAffinity,
--                 ScaleConfigFromLabels, InstanceConfigFromLabels, PopulateEnabledAndGroup.
--   Session       pkg/sablier/session.go: the answer to a session request.
--   Requests      pkg/sablier/instance_request.go: instanceRequest with requestStart and
--                 consumePendingError, and the hold of anti_affinity.go. It reads the window of
--                 RunningHours and the groups of Groups. The session store and the provider are the
--                 parameter Environment; IsStore says what is relied on of the store.
--   AntiAffinity  pkg/sablier/anti_affinity.go: the reconciliation, which suppresses instances and
--                 restores them through Requests.
--   Watch         pkg/sablier/group_watch.go: how events and reconciliations move the groups. Rebuild is
--                 the index of anti_affinity.go, rebuilt from the provider, and Loop the loop of
--                 GroupWatch among the other steps of the program.
--   KeepWarm      pkg/sablier/running_hours_watch.go and instance_expired.go: the sweep of the windows of
--                 running hours, and what follows an expiry.
--   Dependencies  pkg/sablier/instance_dependency.go: the graph of dependencies and the search for a
--                 cycle in it.
--   Starts        the same file: startWithDependencies, over the parameter Engine.
--   Blocking      pkg/sablier/session_request.go: requests for several instances, and the request that
--                 waits until they are ready, over Requests, Groups and Session.
--   Kubernetes    pkg/provider/kubernetes/parse_name.go, ClusterName of cnpgcluster.go, activeReplicas of
--                 instance_start.go: the names of workloads, with a delimiter of one character. Config
--                 is sablier_config.go, and Scale the starts and stops of workloads.
--   Docker        pkg/provider/docker/compose.go and container_depends_on.go: which containers a label
--                 of Docker Compose names as dependencies. It answers the calls of Dependencies.
--                 Containers is container_inspect.go, container_start.go, container_stop.go and
--                 container_scale.go.
--   Api           internal/api/start_blocking.go and start_poke.go: the handlers of the blocking and
--                 the poke strategy, over Blocking. Dynamic is start_dynamic.go, over Theme.
--   Theme         pkg/theme/render.go, list.go and types.go: which themes there are, and what a template
--                 is given.
--   Race          instance_request.go again: the critical sections of all requests and the goroutines of
--                 starts, in any order.
--   Proxmox       pkg/provider/proxmoxlxc: the scan of the nodes, the names it resolves (proxmox_lxc.go,
--                 tags.go, container_list.go), and Tasks, the starts, stops and inspections.
--   Systemd       pkg/provider/systemd: starts, stops, and the properties that a change of resources
--                 sends (unit_scale.go).
--   Metrics       pkg/metrics: what the recorder keeps (prom.go), and the gauges of groups (collector.go).
--   Discovery     pkg/sablier/autostop.go and autowarm.go: the scans for instances without a session.
--   Text          the functions of Go's strings and strconv that the parsers call.
--   Prelude       what the modules share: tests, lists, Go maps as association lists, sets, arrays,
--                 integers.
-- Every reading of the clock is an argument. A section under a lock is one step, and so is a whole
-- request, except in Race. Loops over lists and maps are structural recursion. The loops of the heap
-- and of the sweep run on fuel, one more than the length of the heap: each round is at another index or
-- shortens the heap. The recursions on names in Dependencies and Starts run on fuel too, one more than
-- the number of names: each level is at another name. A Go map is an association list, so its order of
-- iteration is one of those that Go allows. Error values keep their kind, not their text. Logs and
-- traces are left out, and so are the calls of Metrics by the other parts.
--
-- Not modelled: the other calls of the providers, the HTTP server and its other handlers, the files of
-- the themes, the configuration and the commands, which are input and output.
pub mod AntiAffinity
pub mod Api
pub mod Blocking
pub mod Dependencies
pub mod Discovery
pub mod Docker
pub mod Groups
pub mod InMemory
pub mod Instance
pub mod KeepWarm
pub mod Kubernetes
pub mod Labels
pub mod Metrics
pub mod Prelude
pub mod Proxmox
pub mod Race
pub mod Requests
pub mod RunningHours
pub mod Session
pub mod Starts
pub mod Systemd
pub mod Text
pub mod Theme
pub mod TinyKv
pub mod Watch
