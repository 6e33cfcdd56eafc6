-- ===== src/Kubernetes/Scale/Tests.antt =====
-- A cluster with one stateful set, which a Redis owns.
use sablier.Text.{split, atoi, cut, strip_prefix}
use sablier.Labels.Scale.{idle_replicas-unset}
use sablier.Kubernetes.Config.{sablier_config}
use sablier.Prelude.Int.{pos}
use sablier.Kubernetes.{ParsedName, parse_name}
use sablier.Kubernetes.Scale.{Workload, Client, instance_stop, redis_operator_owner, instance_start}
use sablier.Prelude.{
  [], ◌∷◌, some, true, false, refl, Bool, ◌≡◌, is_some, if◌then◌else◌, lookup, insert,
}
use sablier.Kubernetes.Scale.Keeps.{IsCluster}
use sablier.Kubernetes.Scale.Redis.{IsIdleRedis, instance_stop-paused}

abbrev cache : Workload
cache = record {
  namespace = "apps";
  labels = ("sablier.enable", "true") ∷ [];
  annotations = [];
  owner_references =
      record {
        is_controller = true;
        kind = "Redis";
        api_version = "redis.redis.opstreelabs.in/v1beta2";
        name = "cache";
      }
      ∷ [];
  containers = "redis" ∷ [];
}

-- The world is whether the operator is paused.
abbrev cluster : Client Bool
cluster = record {
  get = λ kind namespace name w. some cache;
  get_scale = λ kind namespace name w. true;
  update_scale = λ kind namespace name n w. (true, w);
  patch_resources = λ kind namespace name patch w. (true, w);
  parses_quantity = λ v. true;
  has_dynamic = true;
  patch_redis = λ namespace owner value w. (true, is_some value);
  patch_cluster = λ namespace name value w. (true, w);
}

cluster-IsCluster : IsCluster cluster (λ namespace owner w. w)
cluster-IsCluster = record {
  patch_pauses = λ namespace owner value w. refl;
  scale_keeps_paused = λ kind namespace name r o n w. refl;
  resources_keep_paused = λ kind namespace name r o patch w. refl;
  scale_keeps = λ kind namespace name k r o n w. refl;
  resources_keep = λ kind namespace name k r o patch w. refl;
}

abbrev parsed_cache : ParsedName
parsed_cache = record {
  original = "statefulset_apps_cache_1";
  kind = "statefulset";
  namespace = "apps";
  name = "cache";
  replicas = pos 1;
}

cache-IsIdleRedis :
    IsIdleRedis cluster (λ namespace owner w. w) "_" "statefulset_apps_cache_1" cache "cache" false
unfolding parse_name redis_operator_owner sablier_config split atoi cut lookup strip_prefix insert
cache-IsIdleRedis = record {
  parsed = parsed_cache;
  is_parsed = refl;
  is_stateful_set = refl;
  is_found = refl;
  is_owned = refl;
  is_dynamic = refl;
  has_no_idle_replicas = idle_replicas-unset (sablier_config cache.labels cache.annotations) refl;
}

instance_stop-paused_example :
    ((instance_stop cluster "_" "statefulset_apps_cache_1" false).1
      ≡ (instance_stop cluster "_" "statefulset_apps_cache_1" false).0)
    × ((instance_start cluster "_" "statefulset_apps_cache_1" false).1 ≡ (
        if (instance_start cluster "_" "statefulset_apps_cache_1" false).0 then false else false))
instance_stop-paused_example =
    instance_stop-paused cluster (λ namespace owner w. w) cluster-IsCluster "_"
      "statefulset_apps_cache_1" cache "cache" false cache-IsIdleRedis
