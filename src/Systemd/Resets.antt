-- ===== src/Systemd/Resets.antt =====
-- The properties that a change of resources sends, limit by limit.
use sablier.Instance.{ResourceProfile}
use sablier.Systemd.{
  reset_each, device_properties, Property, named_if, PropertyValue, property_names,
  device_property_names, devices, Manager, properties_to_set, reset_names, is_device_property,
  build_properties,
}
use sablier.Prelude.{
  [], ◌∷◌, inl, inr, refl, arith, String, List, Bool, contains, keep_if, ◌≡◌, if◌then◌else◌,
  Bool-cases, ◌&&◌, str_eq, eq_iff, ◌||◌, ◌++◌, ◌∙◌, contains-append, some, sym, some-eq-some,
}
use mathlib.Core.List.{append-nil}
use sablier.Systemd.Built.{bind-some, build_properties-values, build_properties-has_any}
use sablier.Systemd.Limits.{
  Limit, values, limit_name, has_any, has_devices, states, cpu_quota, memory_max, io_weight,
  device_weight, read_bandwidth, write_bandwidth, read_iops, write_iops, wanted, values-append,
}

-- The resets of the names that pass a test, name by name.
abbrev resets : (String → Bool) → String → List String → List PropertyValue
resets q name [] = []
resets q name (x ∷ xs) = (if str_eq x name && q x then devices [] ∷ [] else []) ++ resets q name xs

in_turn :
    (q : String → Bool) (name : String) (xs : List String)
    → values name (reset_each (keep_if q xs)) ≡ resets q name xs
unfolding reset_each
in_turn q name [] = refl
in_turn q name (x ∷ xs) = elim (Bool-cases (q x)) [
  | inl kept ↦ ground (arith, kept, in_turn q name xs)
  | inr dropped ↦ ground (arith, dropped, in_turn q name xs)
]

-- The resets that are sent for a limit.
values-reset_names :
    (q : String → Bool) (l : Limit)
    → values (limit_name l) (reset_each (keep_if q device_property_names))
      ≡ (if has_devices l && q (limit_name l) then devices [] ∷ [] else [])
unfolding reset_each
values-reset_names q cpu_quota = in_turn q (limit_name cpu_quota) device_property_names
values-reset_names q memory_max = in_turn q (limit_name memory_max) device_property_names
values-reset_names q io_weight = in_turn q (limit_name io_weight) device_property_names
values-reset_names q device_weight =
    in_turn q (limit_name device_weight) device_property_names ∙ append-nil _
values-reset_names q read_bandwidth =
    in_turn q (limit_name read_bandwidth) device_property_names ∙ append-nil _
values-reset_names q write_bandwidth =
    in_turn q (limit_name write_bandwidth) device_property_names ∙ append-nil _
values-reset_names q read_iops =
    in_turn q (limit_name read_iops) device_property_names ∙ append-nil _
values-reset_names q write_iops =
    in_turn q (limit_name write_iops) device_property_names ∙ append-nil _

contains-keep_if :
    (p : String → Bool) (xs : List String) (name : String)
    → contains (keep_if p xs) name ≡ contains xs name && p name
contains-keep_if p [] name = refl
contains-keep_if p (x ∷ xs) name = elim (Bool-cases (str_eq x name)) [
  | inl same ↦
      rw ((eq_iff x name).0 same) (ground (arith, contains-keep_if p xs name, eq_iff name name))
  | inr other ↦ ground (arith, contains-keep_if p xs name, other)
]

contains-property_names :
    (ps : List Property) (name : String)
    → contains (property_names ps) name ≡ has_any (values name ps)
contains-property_names [] name = refl
contains-property_names (p ∷ ps) name = ground (arith, contains-property_names ps name)

contains-named_if {ℓ} :
    {A : Type ℓ}
    → (s name : String) (xs : List A) → contains (named_if s xs) name ≡ str_eq s name && has_any xs
unfolding named_if
contains-named_if s name [] = ground arith
contains-named_if s name (x ∷ xs) = ground arith

in_device_properties :
    (clear : ResourceProfile) (name : String)
    → contains (device_properties clear) name
      ≡ (str_eq "IODeviceWeight" name && has_any clear.blkio_weight_device)
        || (str_eq "IOReadBandwidthMax" name && has_any clear.blkio_device_read_bps)
        || (str_eq "IOWriteBandwidthMax" name && has_any clear.blkio_device_write_bps)
        || (str_eq "IOReadIOPSMax" name && has_any clear.blkio_device_read_iops)
        || (str_eq "IOWriteIOPSMax" name && has_any clear.blkio_device_write_iops)
unfolding device_properties
in_device_properties clear name =
    rw
      (
        contains-append _ (named_if "IOWriteIOPSMax" clear.blkio_device_write_iops) name,
        contains-append _ (named_if "IOReadIOPSMax" clear.blkio_device_read_iops) name,
        contains-append _ (named_if "IOWriteBandwidthMax" clear.blkio_device_write_bps) name,
        contains-append _ (named_if "IOReadBandwidthMax" clear.blkio_device_read_bps) name,
        contains-named_if "IODeviceWeight" name clear.blkio_weight_device,
        contains-named_if "IOReadBandwidthMax" name clear.blkio_device_read_bps,
        contains-named_if "IOWriteBandwidthMax" name clear.blkio_device_write_bps,
        contains-named_if "IOReadIOPSMax" name clear.blkio_device_read_iops,
        contains-named_if "IOWriteIOPSMax" name clear.blkio_device_write_iops,
      )
      refl

contains-device_properties :
    (l : Limit) (clear : ResourceProfile)
    → contains (device_properties clear) (limit_name l) ≡ has_devices l && states l clear
contains-device_properties cpu_quota clear = in_device_properties clear "CPUQuotaPerSecUSec"
contains-device_properties memory_max clear = in_device_properties clear "MemoryMax"
contains-device_properties io_weight clear = in_device_properties clear "IOWeight"
contains-device_properties device_weight clear =
    ground (arith, in_device_properties clear "IODeviceWeight")
contains-device_properties read_bandwidth clear =
    ground (arith, in_device_properties clear "IOReadBandwidthMax")
contains-device_properties write_bandwidth clear =
    ground (arith, in_device_properties clear "IOWriteBandwidthMax")
contains-device_properties read_iops clear =
    ground (arith, in_device_properties clear "IOReadIOPSMax")
contains-device_properties write_iops clear =
    ground (arith, in_device_properties clear "IOWriteIOPSMax")

is_device_property-limit_name : (l : Limit) → is_device_property (limit_name l) ≡ has_devices l
unfolding is_device_property
is_device_property-limit_name cpu_quota = refl
is_device_property-limit_name memory_max = refl
is_device_property-limit_name io_weight = refl
is_device_property-limit_name device_weight = refl
is_device_property-limit_name read_bandwidth = refl
is_device_property-limit_name write_bandwidth = refl
is_device_property-limit_name read_iops = refl
is_device_property-limit_name write_iops = refl

module _ {ℓ} {W : Type ℓ} (manager : Manager W) where
  -- For each limit: the properties that applyResources sends say what is wanted of it, and no more.
  pub properties_to_set-values :
      (profile clear : ResourceProfile) (sent : List Property) (l : Limit)
      → properties_to_set manager profile clear ≡ some sent
      → values (limit_name l) sent ≡ wanted manager l profile clear
  unfolding properties_to_set reset_names
  properties_to_set-values profile clear sent l e =
      let (props, is_props, whole) = bind-some (build_properties manager profile clear) e in
      let names = contains-property_names props (limit_name l) in
      let listed = contains-keep_if is_device_property (property_names props) (limit_name l) in
      let cleared = contains-device_properties l clear in
      let in_props = build_properties-values manager profile clear props l is_props in
      let read = build_properties-has_any manager profile clear props l is_props in
      let reset =
        values-reset_names
          (λ name.
            contains (keep_if is_device_property (property_names props)) name
            || contains (device_properties clear) name)
          l in
      rw
        (
          sym (some-eq-some whole),
          values-append (limit_name l) (reset_each (reset_names props clear)) props,
          reset,
          in_props,
          listed,
          names,
          cleared,
          in_props,
          is_device_property-limit_name l,
        )
        (elim (Bool-cases (has_devices l)) [
          | inr scalar ↦ rw (scalar) refl
          | inl many ↦
              rw (read many, many)
                (elim (Bool-cases (states l profile)) [
                  | inl states_it ↦ rw (states_it) refl
                  | inr free ↦ rw (free) (elim (Bool-cases (states l clear)) [
                    | inl lifted ↦ rw (lifted) refl
                    | inr kept ↦ rw (kept) refl
                  ])
                ])
        ])
