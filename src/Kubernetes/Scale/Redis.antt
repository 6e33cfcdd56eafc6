-- ===== src/Kubernetes/Scale/Redis.antt =====
-- When the redis-operator of a stateful set is paused.
use sablier.Kubernetes.Scale.Keeps.{IsCluster, scale-Keeps, start_workload-Keeps}
use sablier.Kubernetes.Config.{sablier_config}
use sablier.Labels.{scale_config_from_labels}
use sablier.Prelude.Int.{pos}
use sablier.Kubernetes.{ParsedName, Char, parse_name}
use sablier.Kubernetes.Scale.{
  Client, scale, start_workload, is_scalable, get_workload_labels,
  set_redis_operator_skip_reconcile, scale_to_zero, instance_stop, instance_start, Workload,
  stop_workload, resume_redis, redis_operator_owner,
}
use sablier.Prelude.{
  inl, inr, refl, String, Bool, Option, ◌≡◌, Bool-cases, ◌∙◌, true, if◌then◌else◌, some, false,
  none, str_eq, ap,
}

module _ {ℓ} {W : Type ℓ} (client : Client W) (paused : String → String → W → Bool) where
  set_skip-paused :
      (laws : IsCluster client paused) (ss : Workload) (owner : String) (skip : Bool) (w : W)
      → client.has_dynamic ≡ true
      → redis_operator_owner ss.owner_references ≡ some owner
      → paused ss.namespace owner (set_redis_operator_skip_reconcile client ss skip w) ≡ skip
  unfolding set_redis_operator_skip_reconcile
  set_skip-paused laws ss owner true w dynamic owned =
      rw (set_redis_operator_skip_reconcile, dynamic, owned)
        (laws.patch_pauses ss.namespace owner (some "true") w)
  set_skip-paused laws ss owner false w dynamic owned =
      rw (set_redis_operator_skip_reconcile, dynamic, owned)
        (laws.patch_pauses ss.namespace owner none w)

  scale_to_zero-paused :
      (laws : IsCluster client paused) (parsed : ParsedName) (ss : Workload) (owner : String)
      (w : W)
      → client.has_dynamic ≡ true
      → redis_operator_owner ss.owner_references ≡ some owner
      → paused ss.namespace owner (scale_to_zero client parsed ss w).1
        ≡ (scale_to_zero client parsed ss w).0
  unfolding scale_to_zero
  scale_to_zero-paused laws parsed ss owner w dynamic owned =
      let before = set_redis_operator_skip_reconcile client ss true w in
      elim (Bool-cases (scale client parsed (pos 0) before).0) [
        | inl good ↦
            rw (scale_to_zero, good)
              ((scale-Keeps client paused laws parsed (pos 0) before).0 ss.namespace owner
                ∙ set_skip-paused laws ss owner true w dynamic owned)
        | inr bad ↦
            rw (scale_to_zero, bad)
              (set_skip-paused laws ss owner false (scale client parsed (pos 0) before).1 dynamic
                owned)
      ]

  -- A stateful set of a Redis, with no replicas when idle.
  pub record IsIdleRedis (delimiter : Char) (name : String) (ss : Workload) (owner : String) (w : W)
      : Type ℓ where
    pub parsed : ParsedName
    pub is_parsed : parse_name delimiter name ≡ inr parsed
    pub is_stateful_set : parsed.kind ≡ "statefulset"
    pub is_found : client.get "statefulset" parsed.namespace parsed.name w ≡ some ss
    pub is_owned : redis_operator_owner ss.owner_references ≡ some owner
    pub is_dynamic : client.has_dynamic ≡ true
    pub has_no_idle_replicas :
        (scale_config_from_labels (sablier_config ss.labels ss.annotations)).idle.replicas ≡ 0

  -- What its kind means for the tests.
  kind_tests :
      (kind : String)
      → kind ≡ "statefulset"
      → (str_eq kind "cnpgcluster" ≡ false)
        × (str_eq kind "statefulset" ≡ true)
        × (is_scalable kind ≡ true)
  unfolding is_scalable
  kind_tests kind e = rw (e) (refl, refl, refl)

  labels_of_redis :
      (delimiter : Char) (name : String) (ss : Workload) (owner : String) (w : W)
      (redis : IsIdleRedis delimiter name ss owner w)
      → get_workload_labels client redis.parsed w ≡ some (sablier_config ss.labels ss.annotations)
  unfolding get_workload_labels
  labels_of_redis delimiter name ss owner w redis =
      let (not_cluster, stateful, scalable) = kind_tests redis.parsed.kind redis.is_stateful_set in
      let found : client.get redis.parsed.kind redis.parsed.namespace redis.parsed.name w
          ≡ some ss =
        ap (λ k. client.get k redis.parsed.namespace redis.parsed.name w) redis.is_stateful_set
        ∙ redis.is_found in
      rw (get_workload_labels, scalable, found) refl

  stop_workload-redis :
      (parsed : ParsedName) (ss : Workload) (owner : String) (w : W)
      → str_eq parsed.kind "statefulset" ≡ true
      → client.get "statefulset" parsed.namespace parsed.name w ≡ some ss
      → redis_operator_owner ss.owner_references ≡ some owner
      → stop_workload client parsed w ≡ scale_to_zero client parsed ss w
  unfolding stop_workload
  stop_workload-redis parsed ss owner w stateful found owned =
      let unpaused = scale client parsed (pos 0) w in
      let owned_by : Workload → Option String → Bool × W =
        λ set o. elim o [ none ↦ unpaused | some name ↦ scale_to_zero client parsed set w ] in
      let fetched : Option Workload → Bool × W = λ g. elim g [
        | none ↦ unpaused
        | some set ↦ owned_by set (redis_operator_owner set.owner_references)
      ] in
      ap
        (λ b.
          if b then fetched (client.get "statefulset" parsed.namespace parsed.name w) else unpaused)
        stateful
      ∙ ap fetched found
      ∙ ap (owned_by ss) owned

  stop_of_redis :
      (delimiter : Char) (name : String) (ss : Workload) (owner : String) (w : W)
      (redis : IsIdleRedis delimiter name ss owner w)
      → instance_stop client delimiter name w ≡ scale_to_zero client redis.parsed ss w
  unfolding instance_stop
  stop_of_redis delimiter name ss owner w redis =
      let (not_cluster, stateful, scalable) = kind_tests redis.parsed.kind redis.is_stateful_set in
      rw
        (
          instance_stop,
          redis.is_parsed,
          not_cluster,
          labels_of_redis delimiter name ss owner w redis,
          redis.has_no_idle_replicas,
        )
        (stop_workload-redis redis.parsed ss owner w stateful redis.is_found redis.is_owned)

  start_of_redis :
      (delimiter : Char) (name : String) (ss : Workload) (owner : String) (w : W)
      (redis : IsIdleRedis delimiter name ss owner w)
      → instance_start client delimiter name w
        ≡ resume_redis client redis.parsed (start_workload client redis.parsed w)
  unfolding instance_start
  start_of_redis delimiter name ss owner w redis =
      let (not_cluster, stateful, scalable) = kind_tests redis.parsed.kind redis.is_stateful_set in
      rw (instance_start, redis.is_parsed, not_cluster) refl

  -- The operator of a Redis with no replicas when idle is paused after a stop exactly if the stop
  -- succeeded, and a start that succeeds ends the pause; one that fails leaves it as it was.
  pub instance_stop-paused :
      (laws : IsCluster client paused) (delimiter : Char) (name : String) (ss : Workload)
      (owner : String) (w : W) (redis : IsIdleRedis delimiter name ss owner w)
      → (paused ss.namespace owner (instance_stop client delimiter name w).1
          ≡ (instance_stop client delimiter name w).0)
        × (paused ss.namespace owner (instance_start client delimiter name w).1 ≡ (
            if (instance_start client delimiter name w).0
            then false
            else paused ss.namespace owner w))
  unfolding resume_redis
  instance_stop-paused laws delimiter name ss owner w redis =
      let (not_cluster, stateful, scalable) = kind_tests redis.parsed.kind redis.is_stateful_set in
      let (pauses, workloads) = start_workload-Keeps client paused laws redis.parsed w in
      let w' = (start_workload client redis.parsed w).1 in
      let found : client.get "statefulset" redis.parsed.namespace redis.parsed.name w' ≡ some ss =
        workloads "statefulset" redis.parsed.namespace redis.parsed.name ∙ redis.is_found in
      rw
        (
          stop_of_redis delimiter name ss owner w redis,
          start_of_redis delimiter name ss owner w redis,
        )
        (
          scale_to_zero-paused laws redis.parsed ss owner w redis.is_dynamic redis.is_owned,
          elim (Bool-cases (start_workload client redis.parsed w).0) [
            | inl good ↦
                rw (resume_redis, stateful, good, found, good)
                  (set_skip-paused laws ss owner false w' redis.is_dynamic redis.is_owned)
            | inr bad ↦ rw (resume_redis, bad) (pauses ss.namespace owner)
          ],
        )
