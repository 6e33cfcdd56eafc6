-- ===== src/Instance.antt =====
-- pkg/sablier/instance.go and instance_config.go: what Sablier knows of an instance. The details that
-- one provider alone reports (the Docker, Swarm, Kubernetes and Podman fields) are left out: no code
-- modelled here reads them. Durations are in nanoseconds and may be negative.
use sablier.Text.{is_empty}
use sablier.Prelude.Int.{pos, ℤ, leb_ℤ, sub_ℕ}
use sablier.Prelude.{
  Bool, String, ℕ, [], true, List, ltb, not, if◌then◌else◌, false, none, length, Option, ◌||◌, ◌==◌,
  some, str_eq, ◌&&◌,
}

pub data InstanceStatus : Type 0 where
  unset : InstanceStatus
  stopped : InstanceStatus
  starting : InstanceStatus
  ready : InstanceStatus
  error : InstanceStatus
  completed : InstanceStatus
  not_ready : InstanceStatus

abbrev pub is_status : InstanceStatus → InstanceStatus → Bool
is_status ready ready = true
is_status starting starting = true
is_status stopped stopped = true
is_status error error = true
is_status completed completed = true
is_status not_ready not_ready = true
is_status unset unset = true
is_status _ _ = false

pub record BlkioWeightDevice : Type 0 where
  pub path : String
  pub weight : ℕ

pub record BlkioThrottleDevice : Type 0 where
  pub path : String
  pub rate : String

pub record ResourceProfile : Type 0 where
  pub replicas : ℕ
  pub cpu : String
  pub memory : String
  pub blkio_weight : ℕ
  pub blkio_weight_device : List BlkioWeightDevice
  pub blkio_device_read_bps : List BlkioThrottleDevice
  pub blkio_device_write_bps : List BlkioThrottleDevice
  pub blkio_device_read_iops : List BlkioThrottleDevice
  pub blkio_device_write_iops : List BlkioThrottleDevice

pub record ScaleConfig : Type 0 where
  pub idle : ResourceProfile
  pub active : ResourceProfile

pub record InstanceConfig : Type 0 where
  pub enabled : Bool
  pub groups : List String
  pub ready_after : ℤ
  pub ready_on_start : Bool
  pub running_hours : String
  pub running_days : String
  pub anti_affinity : List String
  pub scale : Option ScaleConfig

pub record InstanceInfo : Type 0 where
  pub name : String
  pub current_replicas : ℕ
  pub desired_replicas : ℕ
  pub status : InstanceStatus
  pub groups : List String
  pub enabled : String
  pub message : String
  pub ready_after : ℤ
  pub ready_at : Option ℕ
  pub running_hours : String
  pub running_days : String
  pub ready_on_start : Bool
  pub anti_affinity : List String
  pub scale_config : Option ScaleConfig
  pub config : Option InstanceConfig

-- The zero value, `InstanceInfo{}`.
abbrev pub no_instance : InstanceInfo
no_instance = record {
  name = "";
  current_replicas = 0;
  desired_replicas = 0;
  status = unset;
  groups = [];
  enabled = "";
  message = "";
  ready_after = pos 0;
  ready_at = none;
  running_hours = "";
  running_days = "";
  ready_on_start = false;
  anti_affinity = [];
  scale_config = none;
  config = none;
}

pub is_enabled : InstanceInfo → Bool
is_enabled info = elim info.config [
  | some config ↦ config.enabled
  | none ↦ str_eq info.enabled "true"
]

has_blkio_device_limits : ResourceProfile → Bool
has_blkio_device_limits r =
    ltb 0 (length r.blkio_weight_device)
    || ltb 0 (length r.blkio_device_read_bps)
    || ltb 0 (length r.blkio_device_write_bps)
    || ltb 0 (length r.blkio_device_read_iops)
    || ltb 0 (length r.blkio_device_write_iops)

unfoldable pub has_resources : ResourceProfile → Bool
unfolding has_blkio_device_limits
has_resources r =
    not (is_empty r.cpu)
    || not (is_empty r.memory)
    || not (r.blkio_weight == 0)
    || has_blkio_device_limits r

-- IsReady, at the time `now`.
unfoldable pub is_ready : ℕ → InstanceInfo → Bool
is_ready now info =
    if info.ready_on_start
    then true
    else if not (is_status info.status ready)
    then false
    else elim info.ready_at [
      | none ↦ true
      | some at ↦
          (leb_ℤ (pos 0) info.ready_after && leb_ℤ info.ready_after (pos 0))
          || leb_ℤ info.ready_after (sub_ℕ now at)
    ]
