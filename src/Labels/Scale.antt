-- ===== src/Labels/Scale.antt =====
-- The bounds on what the scale labels give.
use sablier.Labels.{
  scale_config_from_labels, replicas_label, weight_of, weight_label, weight_device, throttle_device,
  weights_label, rates_label, parse_weight_devices, parse_throttle_devices, parsed_entries, label,
  pos, negsuc,
}
use sablier.Instance.{BlkioWeightDevice, BlkioThrottleDevice, ResourceProfile, has_resources}
use sablier.Prelude.{
  [], ◌∷◌, ℕ, String, Bool, Option, ◌<◌, Map, Option-cases, ◌==◌, ◌≡◌, not, List, arith, lookup,
  ◌||◌, some, true, all, leb, ◌≤◌, ◌&&◌, inl, ◌∷◌, inr, refl, Bool-cases, none, false,
}
use sablier.Text.{
  parse_int, is_empty, cut_last, split, parse_uint, trim_space, signed, parse_unsigned, sign_of,
}

parse_int_bound : (v : String) (n : ℕ) → parse_int 31 v ≡ some (pos n) → n < 2147483648
unfolding parse_int signed
parse_int_bound v n e = elim (Option-cases (parse_unsigned (sign_of v).1)) [
  | inl bad ↦ ground arith
  | inr (m, good) ↦ elim (Bool-cases (sign_of v).0) [
    | inl negative ↦ ground arith
    | inr positive ↦ ground arith
  ]
]

replicas_label_bound :
    (default : ℕ) (k : String) (labels : Map String)
    → default < 2
    → replicas_label default k labels < 2147483648
unfolding replicas_label
replicas_label_bound default k labels small = elim (Option-cases (lookup k labels)) [
  | inl missing ↦ ground arith
  | inr (v, given) ↦ elim (Option-cases (parse_int 31 v)) [
    | inl bad ↦ ground arith
    | inr (pos n, good) ↦ ground (arith, parse_int_bound v n good)
    | inr (negsuc n, good) ↦ ground arith
  ]
]

-- No weight, or one that the block I/O controller takes.
abbrev pub is_weight : ℕ → Bool
is_weight w = w == 0 || (leb 10 w && leb w 1000)

weight_of_bound : (v : String) (n : ℕ) → weight_of v ≡ some n → (10 ≤ n) × (n ≤ 1000)
unfolding weight_of
weight_of_bound v n e = elim (Option-cases (parse_uint 16 v)) [
  | inl bad ↦ ground arith
  | inr (m, good) ↦ ground arith
]

weight_label_bound : (k : String) (labels : Map String) → is_weight (weight_label k labels) ≡ true
unfolding weight_label
weight_label_bound k labels = elim (Option-cases (lookup k labels)) [
  | inl missing ↦ ground arith
  | inr (v, given) ↦ elim (Option-cases (weight_of v)) [
    | inl bad ↦ ground arith
    | inr (n, good) ↦ ground (arith, weight_of_bound v n good)
  ]
]

abbrev pub is_weight_device : BlkioWeightDevice → Bool
is_weight_device d = not (is_empty d.path) && leb 10 d.weight && leb d.weight 1000

abbrev pub is_throttle_device : BlkioThrottleDevice → Bool
is_throttle_device d = not (is_empty d.path) && not (is_empty d.rate)

weight_device_bound :
    (entry : String) (d : BlkioWeightDevice)
    → weight_device entry ≡ some d
    → is_weight_device d ≡ true
unfolding weight_device
weight_device_bound entry d e = elim (Option-cases (cut_last b':' (trim_space entry))) [
  | inl bad ↦ ground arith
  | inr ((path, w), cut) ↦ elim (Option-cases (weight_of (trim_space w))) [
    | inl bad ↦ ground arith
    | inr (n, good) ↦ ground (arith, weight_of_bound (trim_space w) n good)
  ]
]

throttle_device_bound :
    (entry : String) (d : BlkioThrottleDevice)
    → throttle_device entry ≡ some d
    → is_throttle_device d ≡ true
unfolding throttle_device
throttle_device_bound entry d e = elim (Option-cases (cut_last b':' (trim_space entry))) [
  | inl bad ↦ ground arith
  | inr ((path, r), cut) ↦ ground arith
]

all-parsed_entries {ℓ} :
    {A : Type ℓ} (parse : String → Option A) (p : A → Bool) (entries : List String)
    → ((entry : String) (a : A) → parse entry ≡ some a → p a ≡ true)
    → all p (parsed_entries parse entries) ≡ true
all-parsed_entries parse p [] good = refl
all-parsed_entries parse p (entry ∷ entries) good = elim (Option-cases (parse entry)) [
  | inl bad ↦ ground (arith, all-parsed_entries parse p entries good)
  | inr (a, ok) ↦ ground (arith, good entry a ok, all-parsed_entries parse p entries good)
]

weights_label_bound :
    (k : String) (labels : Map String) → all is_weight_device (weights_label k labels) ≡ true
unfolding weights_label parse_weight_devices
weights_label_bound k labels = ground (
  arith,
  all-parsed_entries weight_device is_weight_device (split b',' (label k labels))
      weight_device_bound,
)

rates_label_bound :
    (k : String) (labels : Map String) → all is_throttle_device (rates_label k labels) ≡ true
unfolding rates_label parse_throttle_devices
rates_label_bound k labels = ground (
  arith,
  all-parsed_entries throttle_device is_throttle_device (split b',' (label k labels))
      throttle_device_bound,
)

-- The replicas fit 32 bits, the weights are in range, and every device has a path and a value.
pub record IsBounded (r : ResourceProfile) : Type 0 where
  pub replicas : r.replicas < 2147483648
  pub weight : is_weight r.blkio_weight ≡ true
  pub weights : all is_weight_device r.blkio_weight_device ≡ true
  pub read_bps : all is_throttle_device r.blkio_device_read_bps ≡ true
  pub write_bps : all is_throttle_device r.blkio_device_write_bps ≡ true
  pub read_iops : all is_throttle_device r.blkio_device_read_iops ≡ true
  pub write_iops : all is_throttle_device r.blkio_device_write_iops ≡ true

-- Whatever the labels hold, both profiles are in bounds: replicas are a 32-bit number that is not
-- negative, block I/O weights are unset or from 10 to 1000, and every device has a path and a value.
pub scale_config_from_labels-IsBounded :
    (labels : Map String)
    → IsBounded (scale_config_from_labels labels).idle
      × IsBounded (scale_config_from_labels labels).active
unfolding scale_config_from_labels
scale_config_from_labels-IsBounded labels = (
  record {
    replicas = replicas_label_bound 0 _ labels (omega arith);
    weight = weight_label_bound _ labels;
    weights = weights_label_bound _ labels;
    read_bps = rates_label_bound _ labels;
    write_bps = rates_label_bound _ labels;
    read_iops = rates_label_bound _ labels;
    write_iops = rates_label_bound _ labels;
  },
  record {
    replicas = replicas_label_bound 1 _ labels (omega arith);
    weight = weight_label_bound _ labels;
    weights = weights_label_bound _ labels;
    read_bps = rates_label_bound _ labels;
    write_bps = rates_label_bound _ labels;
    read_iops = rates_label_bound _ labels;
    write_iops = rates_label_bound _ labels;
  },
)

replicas_label-unset :
    (default : ℕ) (k : String) (labels : Map String)
    → lookup k labels ≡ none
    → replicas_label default k labels ≡ default
unfolding replicas_label
replicas_label-unset default k labels missing = ground (arith, missing)

label-given : (k v : String) (labels : Map String) → lookup k labels ≡ some v → label k labels ≡ v
label-given k v labels given = ground (arith, given)

pub idle_replicas-unset :
    (labels : Map String)
    → lookup "sablier.idle.replicas" labels ≡ none
    → (scale_config_from_labels labels).idle.replicas ≡ 0
unfolding scale_config_from_labels
idle_replicas-unset labels missing = replicas_label-unset 0 "sablier.idle.replicas" labels missing

pub active_cpu-given :
    (labels : Map String) (cpu : String)
    → lookup "sablier.active.cpu" labels ≡ some cpu
    → (scale_config_from_labels labels).active.cpu ≡ cpu
unfolding scale_config_from_labels
active_cpu-given labels cpu given = label-given "sablier.active.cpu" cpu labels given

-- A limit of the CPU is a resource.
pub cpu-has_resources : (r : ResourceProfile) → is_empty r.cpu ≡ false → has_resources r ≡ true
unfolding has_resources
cpu-has_resources r set = rw (set) refl
