-- ===== src/Docker/Containers.antt =====
-- pkg/provider/docker: the inspection of a container (container_inspect.go), its start, its stop, and
-- the update of its resources (container_start.go, container_stop.go, container_scale.go). The calls of
-- the Docker client are parameters, and so are units.RAMInBytes and parseCPUNano, which reads a
-- floating-point number.
pub mod Lifecycle
pub mod Status
mod Tests
use sablier.Instance.{error}
use sablier.Prelude.{◌>>=◌}
use sablier.Labels.{scale_config_from_labels, populate_enabled_and_group}
use sablier.Text.{parse_uint, itoa, is_empty, concat}
use sablier.Instance.{
  ResourceProfile, InstanceStatus, InstanceInfo, BlkioThrottleDevice, BlkioWeightDevice,
  no_instance, ready, starting, has_resources, completed, stopped,
}
use sablier.Prelude.Int.{ℤ, pos, negsuc}
use sablier.Prelude.{
  [], ◌∷◌, some, none, true, false, suc, ℕ, String, Option, Bool, List, Map, str_eq, if◌then◌else◌,
  ◌||◌, ◌==◌, not, contains, leb, ◌&&◌,
}

-- container.State, with its health if there is a health check
pub record ContainerState : Type 0 where
  pub status : String
  pub is_running : Bool
  pub is_paused : Bool
  pub exit_code : ℤ
  pub health : Option String

pub record InspectResponse : Type 0 where
  pub state : ContainerState
  pub restart_policy : Option String
  pub labels : Map String

pub record WeightDevice : Type 0 where
  pub path : String
  pub weight : ℕ

pub record ThrottleDevice : Type 0 where
  pub path : String
  pub rate : ℕ

pub record Resources : Type 0 where
  pub nano_cpus : ℤ
  pub memory : ℤ
  pub memory_swap : ℤ
  pub blkio_weight : ℕ
  pub blkio_weight_device : List WeightDevice
  pub blkio_device_read_bps : List ThrottleDevice
  pub blkio_device_write_bps : List ThrottleDevice
  pub blkio_device_read_iops : List ThrottleDevice
  pub blkio_device_write_iops : List ThrottleDevice

-- The methods of the client, over a world; a Bool says that a call succeeded. `wait` is
-- ContainerWait with the select on its answer.
pub record Client {ℓ} (W : Type ℓ) : Type ℓ where
  pub container_inspect : String → W → Option InspectResponse
  pub container_start : String → W → Bool × W
  pub container_stop : String → W → Bool × W
  pub container_wait : String → W → Bool × W
  pub container_pause : String → W → Bool × W
  pub container_unpause : String → W → Bool × W
  pub container_update : String → Resources → W → Bool × W
  pub ram_in_bytes : String → Option ℤ
  pub parse_cpu_nano : String → Option ℤ

restart_policy_mode : Option String → String
restart_policy_mode none = "no"
restart_policy_mode (some mode) = mode

restarts_on_success : String → Bool
restarts_on_success mode = str_eq mode "always" || str_eq mode "unless-stopped"

-- The fields that every branch of the inspection sets.
state_info : String → ℕ → InstanceStatus → String → InstanceInfo
state_info name current status message = record no_instance {
  name = name;
  current_replicas = current;
  desired_replicas = 1;
  status = status;
  message = message;
}

running_info : String → Option String → InstanceInfo
unfolding state_info
running_info name none = state_info name 1 ready ""
running_info name (some health) =
    if str_eq health "healthy"
    then state_info name 1 ready ""
    else if str_eq health "unhealthy"
    then state_info name 0 starting "container is running but not healthy yet"
    else state_info name 0 starting ""

pub is_zero_int : ℤ → Bool
is_zero_int (pos n) = n == 0
is_zero_int (negsuc n) = false

-- %d
int_text : ℤ → String
int_text (pos n) = itoa n
int_text (negsuc n) = concat "-" (itoa (suc n))

exited_info : Bool → String → InspectResponse → InstanceInfo
unfolding state_info is_zero_int int_text restart_policy_mode restarts_on_success
exited_info honor_restart_policy name spec =
    if not (is_zero_int spec.state.exit_code)
    then state_info name 0 error
        (concat "container exited with code \"" (concat (int_text spec.state.exit_code) "\""))
    else if honor_restart_policy
        && not (restarts_on_success (restart_policy_mode spec.restart_policy))
    then state_info name 0 completed ""
    else state_info name 0 stopped ""

-- The switch on the status.
status_info : Bool → String → InspectResponse → InstanceInfo
unfolding state_info running_info exited_info
status_info honor_restart_policy name spec =
    if contains ("created" ∷ "paused" ∷ "restarting" ∷ "removing" ∷ []) spec.state.status
    then state_info name 0 starting ""
    else if str_eq spec.state.status "running"
    then running_info name spec.state.health
    else if str_eq spec.state.status "exited"
    then exited_info honor_restart_policy name spec
    else if str_eq spec.state.status "dead"
    then state_info name 0 error "container in \"dead\" state cannot be restarted"
    else state_info name 0 error
        (concat "container status \"" (concat spec.state.status "\" not handled"))

-- A rate that cannot be read is skipped.
throttle_devices : (String → Option ℕ) → List BlkioThrottleDevice → List ThrottleDevice
throttle_devices parse_rate [] = []
throttle_devices parse_rate (d ∷ ds) =
    let rest = throttle_devices parse_rate ds in
    elim (parse_rate d.rate) [
      | none ↦ rest
      | some rate ↦ record { path = d.path; rate = rate } ∷ rest
    ]

weight_devices : List BlkioWeightDevice → List WeightDevice
weight_devices [] = []
weight_devices (d ∷ ds) = record { path = d.path; weight = d.weight } ∷ weight_devices ds

parse_iops_rate : String → Option ℕ
parse_iops_rate = parse_uint 64

module _ {ℓ} {W : Type ℓ} (client : Client W) where
  parse_bps_rate : String → Option ℕ
  parse_bps_rate s = elim (client.ram_in_bytes s) [
    | none ↦ none
    | some (negsuc n) ↦ none
    | some (pos n) ↦ some n
  ]

  -- A limit that is not given is zero.
  given_limit : (String → Option ℤ) → String → Option ℤ
  given_limit parse text = if is_empty text then some (pos 0) else parse text

  -- The resources of the update, or none for a value that cannot be read.
  pub resources_of : ResourceProfile → Option Resources
  unfolding given_limit throttle_devices weight_devices parse_iops_rate parse_bps_rate
  resources_of profile = do
    cpu ← given_limit client.parse_cpu_nano profile.cpu
    memory ← given_limit client.ram_in_bytes profile.memory
    some (record {
      nano_cpus = cpu;
      memory = memory;
      memory_swap = memory;
      blkio_weight = profile.blkio_weight;
      blkio_weight_device = weight_devices profile.blkio_weight_device;
      blkio_device_read_bps = throttle_devices parse_bps_rate profile.blkio_device_read_bps;
      blkio_device_write_bps = throttle_devices parse_bps_rate profile.blkio_device_write_bps;
      blkio_device_read_iops = throttle_devices parse_iops_rate profile.blkio_device_read_iops;
      blkio_device_write_iops = throttle_devices parse_iops_rate profile.blkio_device_write_iops;
    })

  pub apply_resources : String → ResourceProfile → W → Bool × W
  unfolding resources_of
  apply_resources name profile w = elim (resources_of profile) [
    | none ↦ (false, w)
    | some resources ↦ client.container_update name resources w
  ]

  docker_start : String → W → Bool × W
  docker_start name w = client.container_start name w

  docker_unpause : String → W → Bool × W
  unfolding docker_start
  docker_unpause name w = elim (client.container_inspect name w) [
    | none ↦ (false, w)
    | some spec ↦
        if not spec.state.is_paused then docker_start name w else client.container_unpause name w
  ]

  docker_stop : String → W → Bool × W
  docker_stop name w =
      let (is_stopped, w') = client.container_stop name w in
      let waited = client.container_wait name w' in if is_stopped then waited else (false, w')

  docker_pause : String → W → Bool × W
  docker_pause name w = client.container_pause name w

  -- InstanceStart, which is startSingle.
  pub instance_start : String → String → W → Bool × W
  unfolding apply_resources docker_unpause docker_start
  instance_start strategy name w = elim (client.container_inspect name w) [
    | none ↦ (false, w)
    | some spec ↦
        let sc = scale_config_from_labels spec.labels in
        if leb 1 sc.idle.replicas || has_resources sc.active
        then (if has_resources sc.active then apply_resources name sc.active w else (true, w))
        else if spec.state.is_running && not spec.state.is_paused
        then (true, w)
        else if str_eq strategy "pause"
        then docker_unpause name w
        else docker_start name w
  ]

  pub instance_stop : String → String → W → Bool × W
  unfolding apply_resources docker_pause docker_stop
  instance_stop strategy name w = elim (client.container_inspect name w) [
    | none ↦ (false, w)
    | some spec ↦
        let sc = scale_config_from_labels spec.labels in
        if leb 1 sc.idle.replicas
        then (if has_resources sc.idle then apply_resources name sc.idle w else (true, w))
        else if str_eq strategy "pause"
        then docker_pause name w
        else docker_stop name w
  ]

  pub instance_inspect : (String → Option ℤ) → Bool → String → W → Option InstanceInfo
  unfolding status_info
  instance_inspect parse_duration honor_restart_policy name w =
      elim (client.container_inspect name w) [
        | none ↦ none
        | some spec ↦ some (
            populate_enabled_and_group parse_duration (status_info honor_restart_policy name spec)
              spec.labels)
      ]
