-- ===== src/Systemd/Limits.antt =====
-- The limits of a unit, and what the properties that a profile becomes say of each.
use sablier.Prelude.Int.{ℤ, pos, negsuc}
use sablier.Text.{is_empty}
use sablier.Systemd.{
  PropertyValue, Manager, Property, bps_devices, devices, iops_devices, amount, weight_devices,
  max_uint64, cpu_property, memory_property, weight_property, weight_device_property,
  device_property, one_amount, positive_memory, DeviceLimit,
}
use sablier.Instance.{ResourceProfile, BlkioWeightDevice, BlkioThrottleDevice}
use sablier.Prelude.{
  [], ◌∷◌, some, none, true, false, inl, inr, refl, arith, ℕ, String, Bool, List, not,
  if◌then◌else◌, str_eq, ◌==◌, Option, ◌&&◌, ◌++◌, ◌≡◌, Bool-cases, Option-cases,
}

-- The limits of a unit, by the property that holds each.
pub data Limit : Type 0 where
  cpu_quota : Limit
  memory_max : Limit
  io_weight : Limit
  device_weight : Limit
  read_bandwidth : Limit
  write_bandwidth : Limit
  read_iops : Limit
  write_iops : Limit

abbrev pub limit_name : Limit → String
limit_name cpu_quota = "CPUQuotaPerSecUSec"
limit_name memory_max = "MemoryMax"
limit_name io_weight = "IOWeight"
limit_name device_weight = "IODeviceWeight"
limit_name read_bandwidth = "IOReadBandwidthMax"
limit_name write_bandwidth = "IOWriteBandwidthMax"
limit_name read_iops = "IOReadIOPSMax"
limit_name write_iops = "IOWriteIOPSMax"

-- Whether the value is a list of devices, to which systemd appends.
abbrev pub has_devices : Limit → Bool
has_devices cpu_quota = false
has_devices memory_max = false
has_devices io_weight = false
has_devices device_weight = true
has_devices read_bandwidth = true
has_devices write_bandwidth = true
has_devices read_iops = true
has_devices write_iops = true

abbrev pub has_any {ℓ} : {A : Type ℓ} → List A → Bool
has_any [] = false
has_any (x ∷ xs) = true

-- Whether a profile states a limit.
abbrev pub states : Limit → ResourceProfile → Bool
states cpu_quota r = not (is_empty r.cpu)
states memory_max r = not (is_empty r.memory)
states io_weight r = not (r.blkio_weight == 0)
states device_weight r = has_any r.blkio_weight_device
states read_bandwidth r = has_any r.blkio_device_read_bps
states write_bandwidth r = has_any r.blkio_device_write_bps
states read_iops r = has_any r.blkio_device_read_iops
states write_iops r = has_any r.blkio_device_write_iops

-- The value that lifts a limit.
abbrev pub no_limit : Limit → PropertyValue
no_limit l = if has_devices l then devices [] else amount max_uint64

-- The values that a list of properties gives to a name, in their order.
abbrev pub values : String → List Property → List PropertyValue
values name [] = []
values name (p ∷ ps) =
    let rest = values name ps in if str_eq p.name name then p.value ∷ rest else rest

abbrev pub as_value {ℓ} : {A : Type ℓ} → (A → PropertyValue) → Option A → List PropertyValue
as_value f none = []
as_value f (some x) = f x ∷ []

abbrev pub unsigned : Option ℤ → Option ℕ
unsigned none = none
unsigned (some (pos n)) = some n
unsigned (some (negsuc n)) = none

module _ {ℓ} {W : Type ℓ} (manager : Manager W) where
  -- The value of a limit in a profile that states it.
  unfoldable pub stated : Limit → ResourceProfile → List PropertyValue
  unfolding bps_devices iops_devices weight_devices
  stated cpu_quota r = as_value amount (manager.parse_cpu_quota r.cpu)
  stated memory_max r = as_value amount (unsigned (manager.ram_in_bytes r.memory))
  stated io_weight r = amount r.blkio_weight ∷ []
  stated device_weight r = devices (weight_devices r.blkio_weight_device) ∷ []
  stated read_bandwidth r = as_value devices (bps_devices manager r.blkio_device_read_bps)
  stated write_bandwidth r = as_value devices (bps_devices manager r.blkio_device_write_bps)
  stated read_iops r = as_value devices (iops_devices r.blkio_device_read_iops)
  stated write_iops r = as_value devices (iops_devices r.blkio_device_write_iops)

  -- What the changes of a limit come to, without the reset of the devices.
  abbrev pub built : Limit → ResourceProfile → ResourceProfile → List PropertyValue
  built l profile clear =
      if states l profile
      then stated l profile
      else if not (has_devices l) && states l clear
      then no_limit l ∷ []
      else []

  -- What is sent for a limit: a stated value, after a reset where systemd would append to what there
  -- is, or else the lifting of a limit that was stated before.
  abbrev pub wanted : Limit → ResourceProfile → ResourceProfile → List PropertyValue
  wanted l profile clear =
      if states l profile
      then (if has_devices l then no_limit l ∷ stated l profile else stated l profile)
      else if states l clear
      then no_limit l ∷ []
      else []

  pub cpu_property-values :
      (profile clear : ResourceProfile) (ps : List Property) (name : String)
      → cpu_property manager profile.cpu clear.cpu ≡ some ps
      → values name ps
        ≡ (if str_eq "CPUQuotaPerSecUSec" name then built cpu_quota profile clear else [])
  unfolding cpu_property one_amount stated
  cpu_property-values profile clear ps name e = elim (Bool-cases (is_empty profile.cpu)) [
    | inl unset ↦ ground (arith, e, unset)
    | inr set ↦ elim (Option-cases (manager.parse_cpu_quota profile.cpu)) [
      | inl bad ↦ absurd (ground (arith, e, set, bad))
      | inr (q, good) ↦ rw (built, set, good) (ground (arith, rw (set, good) at e))
    ]
  ]

  pub memory_property-values :
      (profile clear : ResourceProfile) (ps : List Property) (name : String)
      → memory_property manager profile.memory clear.memory ≡ some ps
      → values name ps ≡ (if str_eq "MemoryMax" name then built memory_max profile clear else [])
  unfolding memory_property one_amount positive_memory stated
  memory_property-values profile clear ps name e = elim (Bool-cases (is_empty profile.memory)) [
    | inl unset ↦ ground (arith, e, unset)
    | inr set ↦ elim (Option-cases (manager.ram_in_bytes profile.memory)) [
      | inl bad ↦ absurd (ground (arith, e, set, bad))
      | inr (pos n, good) ↦ rw (built, set, good) (ground (arith, rw (set, good) at e))
      | inr (negsuc n, good) ↦ absurd (ground (arith, rw (set, good) at e))
    ]
  ]

  pub weight_property-values :
      (profile clear : ResourceProfile) (name : String)
      → values name (weight_property profile.blkio_weight clear.blkio_weight)
        ≡ (if str_eq "IOWeight" name then built io_weight profile clear else [])
  unfolding weight_property one_amount stated
  weight_property-values profile clear name = elim (Bool-cases (profile.blkio_weight == 0)) [
    | inl unset ↦ rw (built, unset) (ground arith)
    | inr set ↦ rw (built, set) refl
  ]

pub weight_device_property-values :
    (ds : List BlkioWeightDevice) (name : String)
    → values name (weight_device_property ds) ≡ (
        if str_eq "IODeviceWeight" name
        then (if has_any ds then devices (weight_devices ds) ∷ [] else [])
        else [])
unfolding weight_device_property
weight_device_property-values [] name = ground arith
weight_device_property-values (d ∷ ds) name = ground arith

pub device_property-values :
    (limit : String) (limits_of : List BlkioThrottleDevice → Option (List DeviceLimit))
    (ds : List BlkioThrottleDevice) (ps : List Property) (name : String)
    → device_property limit limits_of ds ≡ some ps
    → values name ps ≡ (
        if str_eq limit name
        then (if has_any ds then as_value devices (limits_of ds) else [])
        else [])
unfolding device_property
device_property-values limit limits_of [] ps name e = ground (arith, e)
device_property-values limit limits_of (d ∷ ds) ps name e =
    elim (Option-cases (limits_of (d ∷ ds))) [
      | inl bad ↦ ground (arith, e, bad)
      | inr (limits, good) ↦ ground (arith, e, good)
    ]

pub values-append :
    (name : String) (ps qs : List Property)
    → values name (ps ++ qs) ≡ values name ps ++ values name qs
values-append name [] qs = refl
values-append name (p ∷ ps) qs = ground (arith, values-append name ps qs)
