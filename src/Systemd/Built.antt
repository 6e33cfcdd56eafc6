-- ===== src/Systemd/Built.antt =====
-- What buildProperties says of each limit.
use sablier.Instance.{ResourceProfile, BlkioThrottleDevice}
use sablier.Systemd.{
  device_property, Manager, build_properties, PropertyValue, Property, DeviceLimit, cpu_property,
  memory_property, devices, bps_devices, iops_devices, weight_property, weight_device_property,
}
use sablier.Prelude.{
  [], ◌∷◌, some, none, true, inl, inr, refl, arith, Option, ◌>>=◌, String, ◌≡◌, List, if◌then◌else◌,
  str_eq, ◌++◌, Option-cases, sym, some-eq-some, Bool-cases,
}
use mathlib.Core.List.{append-nil}
use sablier.Systemd.Limits.{
  Limit, has_any, stated, built, values, states, read_bandwidth, as_value, cpu_quota,
  write_bandwidth, limit_name, read_iops, memory_max, io_weight, write_iops, device_weight,
  values-append, cpu_property-values, memory_property-values, weight_property-values,
  weight_device_property-values, device_property-values, has_devices,
}

pub bind-some {ℓ κ} :
    {A : Type ℓ}
    → {B : Type κ} → (o : Option A) → {f : A → Option B} → {b : B} → (o >>= f) ≡ some b
    → (a : A) × (o ≡ some a) × (f a ≡ some b)
bind-some none e = absurd (ground (arith, e))
bind-some (some a) e = (a, refl, e)

-- The limits of a list of devices, if there are devices, can be read.
device_property-has_any :
    (limit : String) (limits_of : List BlkioThrottleDevice → Option (List DeviceLimit))
    (ds : List BlkioThrottleDevice) (ps : List Property)
    → device_property limit limits_of ds ≡ some ps
    → has_any (if has_any ds then as_value devices (limits_of ds) else []) ≡ has_any ds
unfolding device_property
device_property-has_any limit limits_of [] ps e = refl
device_property-has_any limit limits_of (d ∷ ds) ps e = elim (Option-cases (limits_of (d ∷ ds))) [
  | inl bad ↦ absurd (ground (arith, e, bad))
  | inr (limits, good) ↦ rw (good) refl
]

module _ {ℓ} {W : Type ℓ} (manager : Manager W) (profile clear : ResourceProfile) where
  -- The values of the properties of a profile, by name.
  abbrev at_name : Limit → String → List PropertyValue
  at_name l name = if str_eq (limit_name l) name then built manager l profile clear else []

  unpacked :
      (props : List Property)
      → build_properties manager profile clear ≡ some props
      → (cpu memory read_bps write_bps read_ops write_ops : List Property) × (cpu_property manager
            profile.cpu clear.cpu
          ≡ some cpu)
        × (memory_property manager profile.memory clear.memory ≡ some memory)
        × (device_property "IOReadBandwidthMax" (bps_devices manager) profile.blkio_device_read_bps
            ≡ some read_bps)
        × (device_property "IOWriteBandwidthMax"
              (bps_devices manager)
              profile.blkio_device_write_bps
            ≡ some write_bps)
        × (device_property "IOReadIOPSMax" iops_devices profile.blkio_device_read_iops
            ≡ some read_ops)
        × (device_property "IOWriteIOPSMax" iops_devices profile.blkio_device_write_iops
            ≡ some write_ops)
        × (cpu
              ++ memory
              ++ weight_property profile.blkio_weight clear.blkio_weight
              ++ weight_device_property profile.blkio_weight_device
              ++ read_bps
              ++ write_bps
              ++ read_ops
              ++ write_ops
            ≡ props)
  unfolding build_properties
  unpacked props e =
      let bps = bps_devices manager in
      let (cpu, is_cpu, e1) = bind-some (cpu_property manager profile.cpu clear.cpu) e in
      let (memory, is_memory, e2) =
        bind-some (memory_property manager profile.memory clear.memory) e1 in
      let (read_bps, is_read_bps, e3) =
        bind-some (device_property "IOReadBandwidthMax" bps profile.blkio_device_read_bps) e2 in
      let (write_bps, is_write_bps, e4) =
        bind-some (device_property "IOWriteBandwidthMax" bps profile.blkio_device_write_bps) e3 in
      let (read_ops, is_read_ops, e5) =
        bind-some (device_property "IOReadIOPSMax" iops_devices profile.blkio_device_read_iops)
          e4 in
      let (write_ops, is_write_ops, e6) =
        bind-some (device_property "IOWriteIOPSMax" iops_devices profile.blkio_device_write_iops)
          e5 in
      (
        cpu,
        memory,
        read_bps,
        write_bps,
        read_ops,
        write_ops,
        is_cpu,
        is_memory,
        is_read_bps,
        is_write_bps,
        is_read_ops,
        is_write_ops,
        some-eq-some e6,
      )

  all_values :
      (props : List Property) (name : String)
      → build_properties manager profile clear ≡ some props
      → values name props
        ≡ at_name cpu_quota name
          ++ at_name memory_max name
          ++ at_name io_weight name
          ++ at_name device_weight name
          ++ at_name read_bandwidth name
          ++ at_name write_bandwidth name
          ++ at_name read_iops name
          ++ at_name write_iops name
  unfolding build_properties stated
  all_values props name e =
      let (
        cpu, memory, read_bps, write_bps, read_ops, write_ops, is_cpu, is_memory, is_read_bps,
        is_write_bps, is_read_ops, is_write_ops, whole,
      ) =
        unpacked props e in
      rw
        (
          sym whole,
          values-append name _ write_ops,
          values-append name _ read_ops,
          values-append name _ write_bps,
          values-append name _ read_bps,
          values-append name _ (weight_device_property profile.blkio_weight_device),
          values-append name _ (weight_property profile.blkio_weight clear.blkio_weight),
          values-append name cpu memory,
          cpu_property-values manager profile clear cpu name is_cpu,
          memory_property-values manager profile clear memory name is_memory,
          weight_property-values manager profile clear name,
          weight_device_property-values profile.blkio_weight_device name,
          device_property-values "IOReadBandwidthMax" (bps_devices manager)
              profile.blkio_device_read_bps read_bps name is_read_bps,
          device_property-values "IOWriteBandwidthMax" (bps_devices manager)
              profile.blkio_device_write_bps write_bps name is_write_bps,
          device_property-values "IOReadIOPSMax" iops_devices profile.blkio_device_read_iops
              read_ops name is_read_ops,
          device_property-values "IOWriteIOPSMax" iops_devices profile.blkio_device_write_iops
              write_ops name is_write_ops,
        )
        refl

  -- The devices of a profile could be read, or it has none.
  IsReadable : Limit → Type 0
  IsReadable l = has_any (built manager l profile clear) ≡ states l profile

  devices-IsReadable :
      (props : List Property)
      → build_properties manager profile clear ≡ some props
      → IsReadable read_bandwidth
        × IsReadable write_bandwidth
        × IsReadable read_iops
        × IsReadable write_iops
  unfolding IsReadable build_properties stated
  devices-IsReadable props e =
      let (
        cpu, memory, read_bps, write_bps, read_ops, write_ops, is_cpu, is_memory, is_read_bps,
        is_write_bps, is_read_ops, is_write_ops, whole,
      ) =
        unpacked props e in
      (
        device_property-has_any "IOReadBandwidthMax" (bps_devices manager)
            profile.blkio_device_read_bps read_bps is_read_bps,
        device_property-has_any "IOWriteBandwidthMax" (bps_devices manager)
            profile.blkio_device_write_bps write_bps is_write_bps,
        device_property-has_any "IOReadIOPSMax" iops_devices profile.blkio_device_read_iops read_ops
            is_read_ops,
        device_property-has_any "IOWriteIOPSMax" iops_devices profile.blkio_device_write_iops
            write_ops is_write_ops,
      )

  pub build_properties-has_any :
      (props : List Property) (l : Limit)
      → build_properties manager profile clear ≡ some props
      → has_devices l ≡ true
      → has_any (built manager l profile clear) ≡ states l profile
  unfolding IsReadable stated
  build_properties-has_any props cpu_quota e many = absurd (ground (arith, many))
  build_properties-has_any props memory_max e many = absurd (ground (arith, many))
  build_properties-has_any props io_weight e many = absurd (ground (arith, many))
  build_properties-has_any props device_weight e many =
      elim (Bool-cases (has_any profile.blkio_weight_device)) [
        | inl some_device ↦ rw (stated, some_device) refl
        | inr no_device ↦ rw (stated, no_device) refl
      ]
  build_properties-has_any props read_bandwidth e many = (devices-IsReadable props e).0
  build_properties-has_any props write_bandwidth e many = (devices-IsReadable props e).1
  build_properties-has_any props read_iops e many = (devices-IsReadable props e).2
  build_properties-has_any props write_iops e many = (devices-IsReadable props e).3

  pub build_properties-values :
      (props : List Property) (l : Limit)
      → build_properties manager profile clear ≡ some props
      → values (limit_name l) props ≡ built manager l profile clear
  build_properties-values props cpu_quota e =
      let nil = append-nil (built manager cpu_quota profile clear) in
      rw (nil, nil, nil, nil, nil, nil, nil) at (all_values props (limit_name cpu_quota) e)
  build_properties-values props memory_max e =
      let nil = append-nil (built manager memory_max profile clear) in
      rw (nil, nil, nil, nil, nil, nil) at (all_values props (limit_name memory_max) e)
  build_properties-values props io_weight e =
      let nil = append-nil (built manager io_weight profile clear) in
      rw (nil, nil, nil, nil, nil) at (all_values props (limit_name io_weight) e)
  build_properties-values props device_weight e =
      let nil = append-nil (built manager device_weight profile clear) in
      rw (nil, nil, nil, nil) at (all_values props (limit_name device_weight) e)
  build_properties-values props read_bandwidth e =
      let nil = append-nil (built manager read_bandwidth profile clear) in
      rw (nil, nil, nil) at (all_values props (limit_name read_bandwidth) e)
  build_properties-values props write_bandwidth e =
      let nil = append-nil (built manager write_bandwidth profile clear) in
      rw (nil, nil) at (all_values props (limit_name write_bandwidth) e)
  build_properties-values props read_iops e =
      let nil = append-nil (built manager read_iops profile clear) in
      rw (nil) at (all_values props (limit_name read_iops) e)
  build_properties-values props write_iops e = all_values props (limit_name write_iops) e
