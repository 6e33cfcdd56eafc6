-- ===== src/Proxmox/Tasks.antt =====
-- pkg/provider/proxmoxlxc/container_start.go, container_stop.go and container_inspect.go: the tasks that
-- start containers, and how an inspection follows them. An entry of the map of pending tasks is the
-- task and the time at which its failure was seen first.
use sablier.Text.{is_empty}
use sablier.Instance.{InstanceInfo, InstanceStatus, starting, no_instance, ready, error, stopped}
use sablier.Proxmox.{Cluster, ContainerRef, resolve}
use sablier.Prelude.{
  [], ◌∷◌, some, none, true, false, inl, inr, refl, arith, suc, zero, ℕ, Bool, String, Option, Map,
  List, if◌then◌else◌, insert, delete, lookup, str_eq, ltb, not, ◌+◌, ◌&&◌, ◌||◌,
}
pub mod Ready

pub record TaskView : Type 0 where
  pub is_running : Bool
  pub is_failed : Bool
  -- `none` is the zero time
  pub end_time : Option ℕ

pub record Interface : Type 0 where
  pub name : String
  pub inet : String
  pub inet6 : String

-- What the methods call of the client, over a world; a task is known by its number. `none` and false
-- are errors. A stop waits for its task. The two texts are those of the messages.
pub record Client {ℓ} (W : Type ℓ) : Type ℓ where
  pub cluster : W → Cluster
  pub status : ContainerRef → W → Option String
  pub start : ContainerRef → W → Option ℕ × W
  pub stop : ContainerRef → W → Bool × W
  pub interfaces : ContainerRef → W → Option (List Interface)
  pub ping : ℕ → W → Option TaskView
  pub failure_message : ContainerRef → ℕ → String
  pub status_message : String → String

pub record PendingTask : Type 0 where
  pub task : ℕ
  pub failed_at : Option ℕ

pub record Provider {ℓ} (W : Type ℓ) : Type ℓ where
  pub cache : Map ContainerRef
  pub pending_tasks : Map PendingTask
  pub world : W

-- failedTaskTTL, in nanoseconds
abbrev pub failed_task_ttl : ℕ
failed_task_ttl = 30_000_000_000

-- An InstanceInfo of one desired replica.
abbrev pub lxc_info : String → ℕ → InstanceStatus → InstanceInfo
lxc_info name current status = record no_instance {
  name = name;
  current_replicas = current;
  desired_replicas = 1;
  status = status;
}

-- What checkPendingTask finds: an answer while the task is not done, or the task.
pub data TaskCheck : Type 0 where
  not_done : InstanceInfo → TaskCheck
  done : PendingTask → TaskCheck

pub has_non_loopback_ip : List Interface → Bool
has_non_loopback_ip [] = false
has_non_loopback_ip (iface ∷ ifaces) =
    let rest = has_non_loopback_ip ifaces in
    if str_eq iface.name "lo"
    then rest
    else not (is_empty iface.inet && is_empty iface.inet6) || rest

-- When the failure of a task was seen first: before, or now.
failure_time : PendingTask → TaskView → ℕ → ℕ
failure_time pt view now = elim pt.failed_at [
  | some t ↦ t
  | none ↦ elim view.end_time [ some t ↦ t | none ↦ now ]
]

module _ {ℓ} {W : Type ℓ} (client : Client W) where
  check_pending_task : String → ContainerRef → PendingTask → ℕ → Provider W → TaskCheck × Provider W
  unfolding failure_time
  check_pending_task name ref pt now p =
      let starting_info = lxc_info ref.name 0 starting in
      let without_task = record p { pending_tasks = delete name p.pending_tasks } in
      elim (client.ping pt.task p.world) [
        | none ↦ (not_done starting_info, p)
        | some view ↦
            let failed_at = failure_time pt view now in
            let seen = record pt { failed_at = some failed_at } in
            if view.is_running
            then (not_done starting_info, p)
            else if view.is_failed
            then (if ltb (failed_at + failed_task_ttl) now then (done seen, without_task) else (
              not_done (record (lxc_info ref.name 0 error) {
                message = client.failure_message ref pt.task;
              }),
              record p { pending_tasks = insert name seen p.pending_tasks },
            ))
            else (done pt, without_task)
      ]

  -- The switch on the status of the container.
  info_of_status : ContainerRef → String → W → InstanceInfo
  unfolding has_non_loopback_ip
  info_of_status ref status w =
      if str_eq status "running"
      then elim (client.interfaces ref w) [
        | none ↦ lxc_info ref.name 1 ready
        | some ifaces ↦
            if has_non_loopback_ip ifaces
            then lxc_info ref.name 1 ready
            else lxc_info ref.name 0 starting
      ]
      else if str_eq status "stopped"
      then lxc_info ref.name 0 stopped
      else record (lxc_info ref.name 0 error) { message = client.status_message status }

  inspect_container : ContainerRef → Provider W → Option InstanceInfo × Provider W
  unfolding info_of_status
  inspect_container ref p = elim (client.status ref p.world) [
    | none ↦ (none, p)
    | some status ↦ (some (info_of_status ref status p.world), p)
  ]

  resolve_name : String → Provider W → Option ContainerRef × Provider W
  resolve_name name p =
      let (ref, cache) = resolve (client.cluster p.world) name p.cache in
      (ref, record p { cache = cache })

  -- The task is stored, and its progress is what inspections look at.
  submit_start : String → ContainerRef → Provider W → Bool × Provider W
  submit_start name ref p =
      let (task, w) = client.start ref p.world in
      let tried = record p { world = w } in
      elim task [
        | none ↦ (false, tried)
        | some t ↦ (
          true,
          record tried {
            pending_tasks = insert name (record { task = t; failed_at = none }) tried.pending_tasks;
          },
        )
      ]

  pub instance_start : String → Provider W → Bool × Provider W
  unfolding resolve_name submit_start
  instance_start name p =
      let (found, p') = resolve_name name p in
      elim found [
        | none ↦ (false, p')
        | some ref ↦ elim (client.status ref p'.world) [
          | none ↦ (false, p')
          | some status ↦ if str_eq status "running" then (true, p') else submit_start name ref p'
        ]
      ]

  -- A stop forgets the task of a start.
  unfoldable pub instance_stop : String → Provider W → Bool × Provider W
  unfolding resolve_name
  instance_stop name p =
      let (found, p') = resolve_name name p in
      let cleared = record p' { pending_tasks = delete name p'.pending_tasks } in
      elim found [
        | none ↦ (false, p')
        | some ref ↦ elim (client.status ref p'.world) [
          | none ↦ (false, p')
          | some status ↦ if str_eq status "stopped" then (true, cleared) else (
            (client.stop ref p'.world).0,
            record cleared { world = (client.stop ref p'.world).1 },
          )
        ]
      ]

  -- What follows a task that is done. One that failed long ago is started again.
  follow_task : String → ContainerRef → PendingTask → Provider W → Option InstanceInfo × Provider W
  unfolding inspect_container instance_start
  follow_task name ref pt p = elim pt.failed_at [
    | none ↦ inspect_container ref p
    | some t ↦
        let (started, p') = instance_start name p in
        if started then (some (lxc_info ref.name 0 starting), p') else inspect_container ref p'
  ]

  -- `none` is an error.
  unfoldable pub instance_inspect : String → ℕ → Provider W → Option InstanceInfo × Provider W
  unfolding follow_task check_pending_task
  instance_inspect name now p =
      let (found, p') = resolve_name name p in
      elim found [
        | none ↦ (none, p')
        | some ref ↦ elim (lookup name p'.pending_tasks) [
          | none ↦ inspect_container ref p'
          | some pt ↦
              let (check, p'') = check_pending_task name ref pt now p' in
              elim check [
                | not_done info ↦ (some info, p'')
                | done seen ↦ follow_task name ref seen p''
              ]
        ]
      ]
