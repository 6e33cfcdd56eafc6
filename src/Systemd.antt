-- ===== src/Systemd.antt =====
-- pkg/provider/systemd: starts and stops of units (unit_start.go, unit_stop.go), and the properties that
-- their resources become (unit_scale.go). The client is a parameter, and so are units.RAMInBytes and
-- parseCPUQuota, which reads a floating-point number.
pub mod Limits
pub mod Built
pub mod Resets
mod Tests
use sablier.Labels.{scale_config_from_labels}
use sablier.Text.{parse_uint, is_empty}
use sablier.Instance.{
  ResourceProfile, BlkioThrottleDevice, BlkioWeightDevice, ScaleConfig, has_resources,
}
use sablier.Prelude.Int.{ℤ, negsuc, pos}
use sablier.Prelude.{
  [], ◌∷◌, some, none, true, false, ℕ, String, List, ◌^◌, Option, ◌-◌, if◌then◌else◌, ◌++◌, Bool,
  keep_if, Map, not, ◌>>=◌, contains, leb, ◌==◌, ◌||◌, lookup, str_eq,
}

pub record DeviceLimit : Type 0 where
  pub path : String
  pub value : ℕ

pub data PropertyValue : Type 0 where
  amount : ℕ → PropertyValue
  devices : List DeviceLimit → PropertyValue

pub record Property : Type 0 where
  pub name : String
  pub value : PropertyValue

-- The methods of the client, over a world. A call of start or stop waits for its job; a Bool says
-- that it succeeded.
pub record Manager {ℓ} (W : Type ℓ) : Type ℓ where
  pub labels : String → W → Option (Map String)
  pub set_properties : String → List Property → W → Bool × W
  pub start_unit : String → W → Bool × W
  pub stop_unit : String → W → Bool × W
  pub ram_in_bytes : String → Option ℤ
  pub parse_cpu_quota : String → Option ℕ

-- math.MaxUint64: no limit
abbrev pub max_uint64 : ℕ
max_uint64 = 2 ^ 64 - 1

pub weight_devices : List BlkioWeightDevice → List DeviceLimit
weight_devices [] = []
weight_devices (d ∷ ds) = record { path = d.path; value = d.weight } ∷ weight_devices ds

one_amount : String → ℕ → List Property
one_amount name n = record { name = name; value = amount n } ∷ []

positive_memory : ℤ → Option (List Property)
unfolding one_amount
positive_memory (pos n) = if n == 0 then none else some (one_amount "MemoryMax" n)
positive_memory (negsuc n) = none

pub weight_property : ℕ → ℕ → List Property
unfolding one_amount
weight_property weight cleared =
    if not (weight == 0)
    then one_amount "IOWeight" weight
    else if not (cleared == 0)
    then one_amount "IOWeight" max_uint64
    else []

pub weight_device_property : List BlkioWeightDevice → List Property
unfolding weight_devices
weight_device_property [] = []
weight_device_property (d ∷ ds) =
    record { name = "IODeviceWeight"; value = devices (weight_devices (d ∷ ds)) } ∷ []

-- A list of limits that is not empty becomes a property.
pub device_property :
    String
    → (List BlkioThrottleDevice → Option (List DeviceLimit))
    → List BlkioThrottleDevice
    → Option (List Property)
device_property name limits_of [] = some []
device_property name limits_of (d ∷ ds) =
    limits_of (d ∷ ds) >>= (λ limits. some (record { name = name; value = devices limits } ∷ []))

named_if {ℓ} : {A : Type ℓ} → String → List A → List String
named_if name [] = []
named_if name (d ∷ ds) = name ∷ []

-- The names of the device properties that a profile sets.
pub device_properties : ResourceProfile → List String
unfolding named_if
device_properties profile =
    named_if "IODeviceWeight" profile.blkio_weight_device
    ++ named_if "IOReadBandwidthMax" profile.blkio_device_read_bps
    ++ named_if "IOWriteBandwidthMax" profile.blkio_device_write_bps
    ++ named_if "IOReadIOPSMax" profile.blkio_device_read_iops
    ++ named_if "IOWriteIOPSMax" profile.blkio_device_write_iops

abbrev pub device_property_names : List String
device_property_names =
    "IODeviceWeight" ∷ "IOReadBandwidthMax" ∷ "IOWriteBandwidthMax" ∷ "IOReadIOPSMax"
    ∷ "IOWriteIOPSMax" ∷ []

pub is_device_property : String → Bool
is_device_property name = contains device_property_names name

abbrev pub property_names : List Property → List String
property_names [] = []
property_names (p ∷ ps) = p.name ∷ property_names ps

-- An empty list takes back the limits of the devices.
pub reset_each : List String → List Property
reset_each [] = []
reset_each (name ∷ names) = record { name = name; value = devices [] } ∷ reset_each names

-- resetNames, in the order in which its names are looked at.
pub reset_names : List Property → ResourceProfile → List String
unfolding is_device_property device_properties
reset_names props clear =
    keep_if
      (λ name.
        contains (keep_if is_device_property (property_names props)) name
        || contains (device_properties clear) name)
      device_property_names

iops_devices : List BlkioThrottleDevice → Option (List DeviceLimit)
iops_devices [] = some []
iops_devices (d ∷ ds) =
    let rest = iops_devices ds in
    elim (parse_uint 64 d.rate) [
      | none ↦ none
      | some iops ↦ rest >>= (λ limits. some (record { path = d.path; value = iops } ∷ limits))
    ]

module _ {ℓ} {W : Type ℓ} (manager : Manager W) where
  bps_devices : List BlkioThrottleDevice → Option (List DeviceLimit)
  bps_devices [] = some []
  bps_devices (d ∷ ds) =
      let rest = bps_devices ds in
      elim (manager.ram_in_bytes d.rate) [
        | none ↦ none
        | some (negsuc n) ↦ none
        | some (pos rate) ↦
            rest >>= (λ limits. some (record { path = d.path; value = rate } ∷ limits))
      ]

  pub cpu_property : String → String → Option (List Property)
  unfolding one_amount
  cpu_property cpu cleared =
      if not (is_empty cpu)
      then manager.parse_cpu_quota cpu >>= (λ quota. some (one_amount "CPUQuotaPerSecUSec" quota))
      else if not (is_empty cleared)
      then some (one_amount "CPUQuotaPerSecUSec" max_uint64)
      else some []

  pub memory_property : String → String → Option (List Property)
  unfolding positive_memory
  memory_property memory cleared =
      if not (is_empty memory)
      then manager.ram_in_bytes memory >>= positive_memory
      else if not (is_empty cleared)
      then some (one_amount "MemoryMax" max_uint64)
      else some []

  -- `none` is the error of a value that cannot be read.
  pub build_properties : ResourceProfile → ResourceProfile → Option (List Property)
  unfolding cpu_property memory_property weight_property weight_device_property device_property
      bps_devices iops_devices
  build_properties profile clear = do
    cpu ← cpu_property profile.cpu clear.cpu
    memory ← memory_property profile.memory clear.memory
    read_bps ← device_property "IOReadBandwidthMax" bps_devices profile.blkio_device_read_bps
    write_bps ← device_property "IOWriteBandwidthMax" bps_devices profile.blkio_device_write_bps
    read_iops ← device_property "IOReadIOPSMax" iops_devices profile.blkio_device_read_iops
    write_iops ← device_property "IOWriteIOPSMax" iops_devices profile.blkio_device_write_iops
    some (
        cpu
        ++ memory
        ++ weight_property profile.blkio_weight clear.blkio_weight
        ++ weight_device_property profile.blkio_weight_device
        ++ read_bps
        ++ write_bps
        ++ read_iops
        ++ write_iops)

  -- The properties of the one call that applyResources makes, or none for no call.
  pub properties_to_set : ResourceProfile → ResourceProfile → Option (List Property)
  unfolding build_properties reset_names reset_each
  properties_to_set profile clear =
      build_properties profile clear
      >>= (λ props. some (reset_each (reset_names props clear) ++ props))

  apply_resources : String → ResourceProfile → ResourceProfile → W → Bool × W
  unfolding properties_to_set
  apply_resources name profile clear w = elim (properties_to_set profile clear) [
    | none ↦ (false, w)
    | some [] ↦ (true, w)
    | some (p ∷ ps) ↦ manager.set_properties name (p ∷ ps) w
  ]

  -- Only a unit that is enabled has a configuration.
  scale_config : String → W → Option ScaleConfig
  scale_config name w = elim (manager.labels name w) [
    | none ↦ none
    | some labels ↦ elim (lookup "sablier.enable" labels) [
      | none ↦ none
      | some enabled ↦
          if str_eq enabled "true" then some (scale_config_from_labels labels) else none
    ]
  ]

  pub instance_start : String → W → Bool × W
  unfolding scale_config apply_resources
  instance_start name w = elim (scale_config name w) [
    | none ↦ (false, w)
    | some sc ↦
        if has_resources sc.active || has_resources sc.idle
        then (let (applied, w') = apply_resources name sc.active sc.idle w in
            if applied then manager.start_unit name w' else (false, w'))
        else manager.start_unit name w
  ]

  pub instance_stop : String → W → Bool × W
  unfolding scale_config apply_resources
  instance_stop name w = elim (scale_config name w) [
    | none ↦ (false, w)
    | some sc ↦
        if leb 1 sc.idle.replicas
        then apply_resources name sc.idle sc.active w
        else manager.stop_unit name w
  ]
