-- ===== src/Kubernetes.antt =====
-- pkg/provider/kubernetes/parse_name.go, with ClusterName of cnpgcluster.go and activeReplicas of
-- instance_start.go: the names of Kubernetes workloads. The delimiter is one character.
use sablier.Text.{atoi, split, concat}
use sablier.Prelude.Int.{ℤ, pos, negsuc}
use sablier.Prelude.{
  [], ◌∷◌, some, none, true, false, inl, inr, refl, arith, suc, zero, ℕ, String, if◌then◌else◌, ◌⊎◌,
  List, ltb, ◌%◌, ◌^◌, ◌-◌, Bool,
}
use Prim.Native.Char.{Char, code}
pub mod Names
pub mod Config
pub mod Scale
mod Tests

pub record ParsedName : Type 0 where
  pub original : String
  -- deployment, statefulset or cnpgcluster
  pub kind : String
  pub namespace : String
  pub name : String
  pub replicas : ℤ

pub data NameError : Type 0 where
  invalid_name : NameError
  invalid_replicas : NameError

-- The int32 with these 32 bits.
int32_of_bits : ℕ → ℤ
int32_of_bits m = if ltb m (2 ^ 31) then pos m else negsuc (2 ^ 32 - m - 1)

-- int32(n)
pub int32 : ℤ → ℤ
unfolding int32_of_bits
int32 (pos n) = int32_of_bits (n % 2 ^ 32)
int32 (negsuc n) = int32_of_bits (2 ^ 32 - 1 - n % 2 ^ 32)

parsed_name : String → String → String → String → String → NameError ⊎ ParsedName
unfolding int32
parsed_name original kind namespace name replicas = elim (atoi replicas) [
  | none ↦ inl invalid_replicas
  | some n ↦ inr (record {
    original = original;
    kind = kind;
    namespace = namespace;
    name = name;
    replicas = int32 n;
  })
]

-- ParseName on the parts of the name.
parse_parts : String → List String → NameError ⊎ ParsedName
unfolding parsed_name
parse_parts original [] = inl invalid_name
parse_parts original (a ∷ []) = inl invalid_name
parse_parts original (a ∷ b ∷ []) = inl invalid_name
parse_parts original (a ∷ b ∷ c ∷ []) = inl invalid_name
parse_parts original (kind ∷ namespace ∷ name ∷ replicas ∷ []) =
    parsed_name original kind namespace name replicas
parse_parts original (a ∷ b ∷ c ∷ d ∷ e ∷ rest) = inl invalid_name

pub parse_name : Char → String → NameError ⊎ ParsedName
unfolding parse_parts
parse_name delimiter name = parse_parts name (split (code delimiter) name)

-- The parts with the delimiter between them.
abbrev pub joined : Char → String → String → String → String → String
joined delimiter kind namespace name replicas = concat kind (
    String.◌∷◌ delimiter
      (concat namespace (String.◌∷◌ delimiter (concat name (String.◌∷◌ delimiter replicas)))))

pub workload_name : String → Char → String → String → ParsedName
workload_name kind delimiter namespace name = record {
  original = joined delimiter kind namespace name "1";
  kind = kind;
  namespace = namespace;
  name = name;
  replicas = pos 1;
}

pub deployment_name : Char → String → String → ParsedName
unfolding workload_name
deployment_name = workload_name "deployment"

pub stateful_set_name : Char → String → String → ParsedName
unfolding workload_name
stateful_set_name = workload_name "statefulset"

pub cluster_name : Char → String → String → ParsedName
unfolding workload_name
cluster_name = workload_name "cnpgcluster"

-- activeReplicas: the label decides, then a count in the name that is above one.
pub active_replicas : ℤ → Bool → ParsedName → ℤ
active_replicas active has_label parsed =
    if has_label
    then active
    else elim parsed.replicas [ pos n ↦ if ltb 1 n then pos n else active | negsuc n ↦ active ]
