-- ===== src/Kubernetes/Scale.antt =====
-- pkg/provider/kubernetes: starts and stops of workloads (instance_start.go, instance_stop.go,
-- workload_scale.go, resource_scale.go, statefulset_redis_operator.go, cnpgcluster_hibernate.go). The
-- calls of the Kubernetes client are parameters, and so is whether resource.ParseQuantity reads a text.
pub mod Keeps
pub mod Redis
mod Tests
use sablier.Prelude.{◌>>=◌}
use sablier.Kubernetes.Config.{sablier_config}
use sablier.Instance.{ResourceProfile}
use sablier.Labels.{scale_config_from_labels}
use sablier.Prelude.Int.{ℤ, pos}
use sablier.Text.{cut, is_empty}
use sablier.Kubernetes.{ParsedName, Char, active_replicas, parse_name}
use sablier.Prelude.{
  [], ◌∷◌, some, none, true, false, inl, inr, refl, arith, suc, zero, ℕ, Bool, String, List, Map,
  Option, ◌&&◌, str_eq, if◌then◌else◌, ◌||◌, not, has_key, leb,
}

pub record OwnerReference : Type 0 where
  pub is_controller : Bool
  pub kind : String
  pub api_version : String
  pub name : String

-- What is read of a deployment or of a stateful set.
pub record Workload : Type 0 where
  pub namespace : String
  pub labels : Map String
  pub annotations : Map String
  pub owner_references : List OwnerReference
  pub containers : List String

-- The limits of the first container in a patch.
pub record ResourcePatch : Type 0 where
  pub container_name : String
  pub cpu : Option String
  pub memory : Option String

-- The methods of the clients, over a world; a Bool says that a call succeeded. The kind, the namespace
-- and the name tell a workload.
pub record Client {ℓ} (W : Type ℓ) : Type ℓ where
  pub get : String → String → String → W → Option Workload
  pub get_scale : String → String → String → W → Bool
  pub update_scale : String → String → String → ℤ → W → Bool × W
  pub patch_resources : String → String → String → ResourcePatch → W → Bool × W
  pub parses_quantity : String → Bool
  -- the dynamic client is configured
  pub has_dynamic : Bool
  -- the value of the annotation of a Redis, or none to remove it
  pub patch_redis : String → String → Option String → W → Bool × W
  -- the value of the annotation of a CloudNativePG cluster
  pub patch_cluster : String → String → String → W → Bool × W

api_version_group : String → String
api_version_group api_version = elim (cut 47 api_version) [
  | some (before, after) ↦ before
  | none ↦ api_version
]

is_redis : OwnerReference → Bool
unfolding api_version_group
is_redis ref =
    ref.is_controller
    && str_eq ref.kind "Redis"
    && str_eq (api_version_group ref.api_version) "redis.redis.opstreelabs.in"

pub redis_operator_owner : List OwnerReference → Option String
unfolding is_redis
redis_operator_owner [] = none
redis_operator_owner (ref ∷ refs) =
    let rest = redis_operator_owner refs in if is_redis ref then some ref.name else rest

is_scalable : String → Bool
is_scalable kind = str_eq kind "deployment" || str_eq kind "statefulset"

module _ {ℓ} {W : Type ℓ} (client : Client W) where
  -- A patch that fails is only logged.
  pub set_redis_operator_skip_reconcile : Workload → Bool → W → W
  set_redis_operator_skip_reconcile ss skip w =
      if not client.has_dynamic then w else elim (redis_operator_owner ss.owner_references) [
        | none ↦ w
        | some owner ↦
            (client.patch_redis ss.namespace owner (if skip then some "true" else none) w).1
      ]

  cluster_hibernate : ParsedName → Bool → W → Bool × W
  cluster_hibernate config hibernate w =
      if not client.has_dynamic
      then (false, w)
      else client.patch_cluster config.namespace config.name (if hibernate then "on" else "off") w

  pub scale : ParsedName → ℤ → W → Bool × W
  unfolding is_scalable
  scale config replicas w =
      if is_scalable config.kind && client.get_scale config.kind config.namespace config.name w
      then client.update_scale config.kind config.namespace config.name replicas w
      else (false, w)

  -- A quantity that is given and cannot be read is an error.
  given_quantity : String → Option (Option String)
  given_quantity text =
      if is_empty text
      then some none
      else if client.parses_quantity text
      then some (some text)
      else none

  build_resource_patch : String → String → String → Option ResourcePatch
  unfolding given_quantity
  build_resource_patch container_name cpu memory = do
    cpu_limit ← given_quantity cpu
    memory_limit ← given_quantity memory
    some (record { container_name = container_name; cpu = cpu_limit; memory = memory_limit })

  patch_first_container : ParsedName → List String → String → String → W → Bool × W
  unfolding build_resource_patch
  patch_first_container config [] cpu memory w = (false, w)
  patch_first_container config (container ∷ containers) cpu memory w =
      elim (build_resource_patch container cpu memory) [
        | none ↦ (false, w)
        | some patch ↦ client.patch_resources config.kind config.namespace config.name patch w
      ]

  scale_resources : ParsedName → String → String → W → Bool × W
  unfolding is_scalable patch_first_container
  scale_resources config cpu memory w =
      if not (is_scalable config.kind)
      then (false, w)
      else elim (client.get config.kind config.namespace config.name w) [
        | none ↦ (false, w)
        | some workload ↦ patch_first_container config workload.containers cpu memory w
      ]

  pub get_workload_labels : ParsedName → W → Option (Map String)
  unfolding is_scalable
  get_workload_labels config w =
      if not (is_scalable config.kind)
      then none
      else elim (client.get config.kind config.namespace config.name w) [
        | none ↦ none
        | some workload ↦ some (sablier_config workload.labels workload.annotations)
      ]

  -- The replicas, and after them the limits of a profile that has some.
  pub scale_profile : ParsedName → ℤ → ResourceProfile → W → Bool × W
  unfolding scale scale_resources
  scale_profile parsed replicas profile w =
      let (is_scaled, w') = scale parsed replicas w in
      if is_scaled && not (is_empty profile.cpu && is_empty profile.memory)
      then scale_resources parsed profile.cpu profile.memory w'
      else (is_scaled, w')

  pub start_workload : ParsedName → W → Bool × W
  unfolding get_workload_labels scale_profile
  start_workload parsed w = elim (get_workload_labels parsed w) [
    | none ↦ (false, w)
    | some labels ↦
        let sc = scale_config_from_labels labels in
        let replicas =
          active_replicas (pos sc.active.replicas) (has_key "sablier.active.replicas" labels)
            parsed in
        scale_profile parsed replicas sc.active w
  ]

  -- The deferred step of a start of a stateful set.
  resume_redis : ParsedName → Bool × W → Bool × W
  unfolding set_redis_operator_skip_reconcile
  resume_redis parsed (started, w) =
      if started && str_eq parsed.kind "statefulset"
      then (elim (client.get "statefulset" parsed.namespace parsed.name w) [
        | none ↦ (started, w)
        | some ss ↦ (started, set_redis_operator_skip_reconcile ss false w)
      ])
      else (started, w)

  pub instance_start : Char → String → W → Bool × W
  unfolding resume_redis start_workload cluster_hibernate
  instance_start delimiter name w = elim (parse_name delimiter name) [
    | inl e ↦ (false, w)
    | inr parsed ↦
        if str_eq parsed.kind "cnpgcluster"
        then cluster_hibernate parsed false w
        else resume_redis parsed (start_workload parsed w)
  ]

  -- A scale to zero that fails takes the pause of the operator back.
  scale_to_zero : ParsedName → Workload → W → Bool × W
  unfolding scale set_redis_operator_skip_reconcile
  scale_to_zero parsed ss w =
      let paused = set_redis_operator_skip_reconcile ss true w in
      let (is_scaled, w') = scale parsed (pos 0) paused in
      if is_scaled then (true, w') else (false, set_redis_operator_skip_reconcile ss false w')

  -- Only a stateful set that a Redis owns is paused.
  pub stop_workload : ParsedName → W → Bool × W
  unfolding scale_to_zero scale
  stop_workload parsed w =
      if str_eq parsed.kind "statefulset"
      then (elim (client.get "statefulset" parsed.namespace parsed.name w) [
        | none ↦ scale parsed (pos 0) w
        | some ss ↦ elim (redis_operator_owner ss.owner_references) [
          | none ↦ scale parsed (pos 0) w
          | some owner ↦ scale_to_zero parsed ss w
        ]
      ])
      else scale parsed (pos 0) w

  pub instance_stop : Char → String → W → Bool × W
  unfolding stop_workload scale_profile cluster_hibernate get_workload_labels
  instance_stop delimiter name w = elim (parse_name delimiter name) [
    | inl e ↦ (false, w)
    | inr parsed ↦
        if str_eq parsed.kind "cnpgcluster"
        then cluster_hibernate parsed true w
        else elim (get_workload_labels parsed w) [
          | none ↦ (false, w)
          | some labels ↦
              let sc = scale_config_from_labels labels in
              if leb 1 sc.idle.replicas
              then scale_profile parsed (pos sc.idle.replicas) sc.idle w
              else stop_workload parsed w
        ]
  ]
