-- ===== src/Labels.antt =====
-- The labels of an instance: ParseGroups, ParseAntiAffinity and ScaleConfigFromLabels of
-- pkg/sablier/instance.go, and InstanceConfigFromLabels of instance_config.go. The names of the labels
-- are those of labels.go.
use sablier.Prelude.Int.{ℤ, pos, negsuc}
use sablier.Instance.{
  BlkioWeightDevice, BlkioThrottleDevice, ScaleConfig, InstanceConfig, InstanceInfo, has_resources,
}
use sablier.Text.{split, trim_space, is_empty, parse_bool, parse_int, parse_uint, cut_last}
use sablier.RunningHours.{Parsed, parse_running_hours, parse_running_days, ok, err}
use sablier.Prelude.{
  ◌>>=◌, String, List, ℕ, Map, lookup, ◌∷◌, if◌then◌else◌, Option, [], not, ◌&&◌, str_eq, some,
  contains, ◌++◌, false, ltb, ◌||◌, none,
}
pub mod Names
pub mod Scale
pub mod Config
mod Tests

-- `labels[k]`: the empty text if the label is missing.
abbrev pub label : String → Map String → String
label k labels = elim (lookup k labels) [ none ↦ "" | some v ↦ v ]

-- The loop of ParseGroups and of ParseAntiAffinity. What it has seen is what it has put out.
collect_names : List String → List String → List String
collect_names [] out = out
collect_names (part ∷ parts) out =
    let p = trim_space part in
    let next = if not (is_empty p) && not (contains out p) then out ++ p ∷ [] else out in
    collect_names parts next

pub parse_groups : String → List String
unfolding collect_names
parse_groups value =
    if is_empty value
    then "default" ∷ []
    else elim (collect_names (split b',' value) []) [ [] ↦ "default" ∷ [] | g ∷ gs ↦ g ∷ gs ]

-- A nil result is the empty list.
pub parse_anti_affinity : String → List String
unfolding collect_names
parse_anti_affinity value = collect_names (split b',' value) []

-- A weight that is an unsigned 16-bit number from 10 to 1000.
weight_of : String → Option ℕ
weight_of v = do n ← parse_uint 16 v; if ltb n 10 || ltb 1000 n then none else some n

weight_device : String → Option BlkioWeightDevice
unfolding weight_of
weight_device entry = do
  (path, w) ← cut_last b':' (trim_space entry)
  n ← weight_of (trim_space w)
  if is_empty path then none else some (record { path = path; weight = n })

throttle_device : String → Option BlkioThrottleDevice
throttle_device entry = do
  (path, r) ← cut_last b':' (trim_space entry)
  let rate = trim_space r
  if is_empty path || is_empty rate then none else some (record { path = path; rate = rate })

-- The entries that parse, in order.
abbrev pub parsed_entries {ℓ} : {A : Type ℓ} → (String → Option A) → List String → List A
parsed_entries parse [] = []
parsed_entries parse (entry ∷ entries) = elim (parse entry) [
  | none ↦ parsed_entries parse entries
  | some a ↦ a ∷ parsed_entries parse entries
]

pub parse_weight_devices : String → List BlkioWeightDevice
unfolding weight_device
parse_weight_devices s = parsed_entries weight_device (split b',' s)

pub parse_throttle_devices : String → List BlkioThrottleDevice
unfolding throttle_device
parse_throttle_devices s = parsed_entries throttle_device (split b',' s)

-- The value of a replicas label: a 32-bit integer that is not negative, or else the default.
replicas_label : ℕ → String → Map String → ℕ
replicas_label default k labels = elim (lookup k labels) [
  | none ↦ default
  | some v ↦ elim (parse_int 31 v) [ some (pos n) ↦ n | some (negsuc n) ↦ default | none ↦ default ]
]

weight_label : String → Map String → ℕ
unfolding weight_of
weight_label k labels = elim (lookup k labels) [
  | none ↦ 0
  | some v ↦ elim (weight_of v) [ some n ↦ n | none ↦ 0 ]
]

weights_label : String → Map String → List BlkioWeightDevice
weights_label k labels =
    if is_empty (label k labels) then [] else parse_weight_devices (label k labels)

rates_label : String → Map String → List BlkioThrottleDevice
rates_label k labels =
    if is_empty (label k labels) then [] else parse_throttle_devices (label k labels)

pub scale_config_from_labels : Map String → ScaleConfig
unfolding replicas_label weight_label weights_label rates_label
scale_config_from_labels labels = record {
  idle = record {
    replicas = replicas_label 0 "sablier.idle.replicas" labels;
    cpu = label "sablier.idle.cpu" labels;
    memory = label "sablier.idle.memory" labels;
    blkio_weight = weight_label "sablier.idle.blkio-weight" labels;
    blkio_weight_device = weights_label "sablier.idle.blkio-weight-device" labels;
    blkio_device_read_bps = rates_label "sablier.idle.blkio-device-read-bps" labels;
    blkio_device_write_bps = rates_label "sablier.idle.blkio-device-write-bps" labels;
    blkio_device_read_iops = rates_label "sablier.idle.blkio-device-read-iops" labels;
    blkio_device_write_iops = rates_label "sablier.idle.blkio-device-write-iops" labels;
  };
  active = record {
    replicas = replicas_label 1 "sablier.active.replicas" labels;
    cpu = label "sablier.active.cpu" labels;
    memory = label "sablier.active.memory" labels;
    blkio_weight = weight_label "sablier.active.blkio-weight" labels;
    blkio_weight_device = weights_label "sablier.active.blkio-weight-device" labels;
    blkio_device_read_bps = rates_label "sablier.active.blkio-device-read-bps" labels;
    blkio_device_write_bps = rates_label "sablier.active.blkio-device-write-bps" labels;
    blkio_device_read_iops = rates_label "sablier.active.blkio-device-read-iops" labels;
    blkio_device_write_iops = rates_label "sablier.active.blkio-device-write-iops" labels;
  };
}

-- A text is kept where its parser takes it.
abbrev kept {ℓ} : {A : Type ℓ} → Parsed A → String → String
kept (ok a) v = v
kept (err e) v = ""

-- InstanceConfigFromLabels. `parse_duration` is Go's time.ParseDuration; the warnings are left out.
pub instance_config_from_labels : (String → Option ℤ) → Map String → InstanceConfig
instance_config_from_labels parse_duration labels =
    let enabled = str_eq (label "sablier.enable" labels) "true" in
    let after = label "sablier.ready-after" labels in
    let hours = label "sablier.running-hours" labels in
    let days = label "sablier.running-days" labels in
    let on_start = label "sablier.ready-on-start" labels in
    let affinity = label "sablier.anti-affinity" labels in
    let scale = scale_config_from_labels labels in
    record {
      enabled = enabled;
      groups = if enabled then parse_groups (label "sablier.group" labels) else [];
      ready_after =
          if is_empty after
          then pos 0
          else elim (parse_duration after) [ some d ↦ d | none ↦ pos 0 ];
      ready_on_start =
          if is_empty on_start
          then false
          else elim (parse_bool on_start) [ some b ↦ b | none ↦ false ];
      running_hours = if is_empty hours then "" else kept (parse_running_hours hours) hours;
      running_days = if is_empty days then "" else kept (parse_running_days days) days;
      anti_affinity = if is_empty affinity then [] else parse_anti_affinity affinity;
      scale =
          if ltb 0 scale.idle.replicas
            || has_resources scale.idle
            || ltb 1 scale.active.replicas
            || has_resources scale.active
          then some scale
          else none;
    }

-- PopulateEnabledAndGroup: the parsed labels, and the flat fields that mirror them.
unfoldable pub populate_enabled_and_group :
    (String → Option ℤ) → InstanceInfo → Map String → InstanceInfo
populate_enabled_and_group parse_duration info labels =
    let cfg = instance_config_from_labels parse_duration labels in
    record info {
      config = some cfg;
      enabled = label "sablier.enable" labels;
      groups = cfg.groups;
      ready_after = cfg.ready_after;
      running_hours = cfg.running_hours;
      running_days = cfg.running_days;
      ready_on_start = cfg.ready_on_start;
      anti_affinity = cfg.anti_affinity;
      scale_config = cfg.scale;
    }
