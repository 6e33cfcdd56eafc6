-- ===== src/Docker/Containers/Lifecycle.antt =====
-- What a stop and a later start leave of a container.
use sablier.Labels.{scale_config_from_labels}
use sablier.Instance.{ResourceProfile, has_resources}
use sablier.Docker.Containers.{
  InspectResponse, Client, apply_resources, docker_unpause, docker_stop, instance_start,
  docker_start, Resources, resources_of, instance_stop, docker_pause,
}
use sablier.Prelude.{
  some, none, true, false, inl, inr, refl, arith, Bool, String, ◌&&◌, Map, ◌≡◌, not, ap,
  Option-cases, Bool-cases, if◌then◌else◌, leb, ◌||◌, sym, ◌∙◌, subst, str_eq,
}

-- Running and not paused.
abbrev pub runs : InspectResponse → Bool
runs spec = spec.state.is_running && not spec.state.is_paused

module _ {ℓ} {W : Type ℓ} (client : Client W) where
  -- There is a container of the name, with these labels, and `b` says whether it runs.
  abbrev pub Leaves : String → Map String → Bool → W → Type 0
  Leaves name labels b w =
      (spec : InspectResponse) × (client.container_inspect name w ≡ some spec)
      × (spec.labels ≡ labels)
      × (runs spec ≡ b)

  -- What Docker documents of the calls that succeed, when nobody else changes the container.
  pub record IsDocker : Type ℓ where
    pub start_runs :
        (name : String) (spec : InspectResponse) (w w' : W)
        → client.container_inspect name w ≡ some spec
        → client.container_start name w ≡ (true, w')
        → Leaves name spec.labels true w'
    pub unpause_runs :
        (name : String) (spec : InspectResponse) (w w' : W)
        → client.container_inspect name w ≡ some spec
        → client.container_unpause name w ≡ (true, w')
        → Leaves name spec.labels true w'
    pub stop_rests :
        (name : String) (spec : InspectResponse) (w w' : W)
        → client.container_inspect name w ≡ some spec
        → client.container_stop name w ≡ (true, w')
        → Leaves name spec.labels false w'
    pub pause_rests :
        (name : String) (spec : InspectResponse) (w w' : W)
        → client.container_inspect name w ≡ some spec
        → client.container_pause name w ≡ (true, w')
        → Leaves name spec.labels false w'
    pub wait_keeps :
        (name : String) (w : W)
        → client.container_inspect name (client.container_wait name w).1
          ≡ client.container_inspect name w
    pub update_keeps :
        (name : String) (resources : Resources) (spec : InspectResponse) (w w' : W)
        → client.container_inspect name w ≡ some spec
        → client.container_update name resources w ≡ (true, w')
        → Leaves name spec.labels (runs spec) w'

  -- Whether the container of a name runs.
  abbrev pub at_work : String → W → Bool
  at_work name w = elim (client.container_inspect name w) [ none ↦ false | some spec ↦ runs spec ]

  Leaves-same :
      (name : String) (spec : InspectResponse) (w w' : W)
      → client.container_inspect name w ≡ some spec
      → w ≡ w'
      → Leaves name spec.labels (runs spec) w'
  unfolding Leaves
  Leaves-same name spec w w' known same = (spec, rw (same) at known, refl, refl)

  apply_resources-Leaves :
      (laws : IsDocker) (name : String) (profile : ResourceProfile) (spec : InspectResponse)
      (w w' : W)
      → client.container_inspect name w ≡ some spec
      → apply_resources client name profile w ≡ (true, w')
      → Leaves name spec.labels (runs spec) w'
  unfolding apply_resources
  apply_resources-Leaves laws name profile spec w w' known e =
      elim (Option-cases (resources_of client profile)) [
        | inl bad ↦ absurd (ground (arith, ap (λ p. p.0) (rw (apply_resources, bad) at e)))
        | inr (resources, good) ↦
            laws.update_keeps name resources spec w w' known (rw (apply_resources, good) at e)
      ]

  docker_unpause-Leaves :
      (laws : IsDocker) (name : String) (spec : InspectResponse) (w w' : W)
      → client.container_inspect name w ≡ some spec
      → docker_unpause client name w ≡ (true, w')
      → Leaves name spec.labels true w'
  unfolding docker_unpause docker_start
  docker_unpause-Leaves laws name spec w w' known e = elim (Bool-cases spec.state.is_paused) [
    | inl paused ↦ laws.unpause_runs name spec w w' known (rw (docker_unpause, known, paused) at e)
    | inr not_paused ↦
        laws.start_runs name spec w w' known (rw (docker_unpause, known, not_paused) at e)
  ]

  docker_stop-Leaves :
      (laws : IsDocker) (name : String) (spec : InspectResponse) (w w' : W)
      → client.container_inspect name w ≡ some spec
      → docker_stop client name w ≡ (true, w')
      → Leaves name spec.labels false w'
  unfolding docker_stop
  docker_stop-Leaves laws name spec w w' known e =
      let w1 = (client.container_stop name w).1 in
      elim (Bool-cases (client.container_stop name w).0) [
        | inl good ↦
            let (spec', known', labels, rests) =
              laws.stop_rests name spec w w1 known (ap (λ b. (b, w1)) good) in
            let waited : client.container_wait name w1 ≡ (true, w') = rw (docker_stop, good) at e in
            (
              spec',
              ap (client.container_inspect name) (sym (ap (λ p. p.1) waited))
                  ∙ laws.wait_keeps name w1
                  ∙ known',
              labels,
              rests,
            )
        | inr bad ↦ absurd (ground (arith, ap (λ p. p.0) (rw (docker_stop, bad) at e)))
      ]

  -- A start of a container that Sablier scales does not change whether it runs; any other makes it run.
  instance_start-Leaves :
      (laws : IsDocker) (strategy name : String) (spec : InspectResponse) (w w' : W)
      → client.container_inspect name w ≡ some spec
      → instance_start client strategy name w ≡ (true, w')
      → Leaves name spec.labels
          (if leb 1 (scale_config_from_labels spec.labels).idle.replicas
              || has_resources (scale_config_from_labels spec.labels).active
            then runs spec
            else true)
          w'
  unfolding instance_start docker_start
  instance_start-Leaves laws strategy name spec w w' known e =
      let sc = scale_config_from_labels spec.labels in
      elim (Bool-cases (has_resources sc.active)) [
        | inl active ↦ elim (Bool-cases (leb 1 sc.idle.replicas)) [
          | inl kept ↦ rw (kept) (
              apply_resources-Leaves laws name sc.active spec w w' known
                (rw (instance_start, known, kept, active) at e))
          | inr ended ↦
              rw (ended, active)
                (apply_resources-Leaves laws name sc.active spec w w' known
                  (rw (instance_start, known, ended, active) at e))
        ]
        | inr bare ↦ elim (Bool-cases (leb 1 sc.idle.replicas)) [
          | inl kept ↦ rw (kept) (
              Leaves-same name spec w w' known
                (ap (λ p. p.1) (rw (instance_start, known, kept, bare) at e)))
          | inr ended ↦
              rw (ended, bare)
                (elim (Bool-cases (runs spec)) [
                  | inl busy ↦
                      subst (λ b. Leaves name spec.labels b w') busy
                        (Leaves-same name spec w w' known
                          (ap (λ p. p.1) (rw (instance_start, known, ended, bare, busy) at e)))
                  | inr idle ↦ elim (Bool-cases (str_eq strategy "pause")) [
                    | inl pause ↦
                        docker_unpause-Leaves laws name spec w w' known
                          (rw (instance_start, known, ended, bare, idle, pause) at e)
                    | inr stop ↦
                        laws.start_runs name spec w w' known
                          (rw (instance_start, known, ended, bare, idle, stop) at e)
                  ]
                ])
        ]
      ]

  -- A stop of a container that is kept running when idle does not change whether it runs; any other ends
  -- its run.
  instance_stop-Leaves :
      (laws : IsDocker) (strategy name : String) (spec : InspectResponse) (w w' : W)
      → client.container_inspect name w ≡ some spec
      → instance_stop client strategy name w ≡ (true, w')
      → Leaves name spec.labels
          (if leb 1 (scale_config_from_labels spec.labels).idle.replicas then runs spec else false)
          w'
  unfolding instance_stop docker_pause
  instance_stop-Leaves laws strategy name spec w w' known e =
      let sc = scale_config_from_labels spec.labels in
      elim (Bool-cases (leb 1 sc.idle.replicas)) [
        | inl kept ↦ rw (kept) (elim (Bool-cases (has_resources sc.idle)) [
          | inl throttled ↦
              apply_resources-Leaves laws name sc.idle spec w w' known
                (rw (instance_stop, known, kept, throttled) at e)
          | inr bare ↦
              Leaves-same name spec w w' known
                (ap (λ p. p.1) (rw (instance_stop, known, kept, bare) at e))
        ])
        | inr ended ↦ rw (ended) (elim (Bool-cases (str_eq strategy "pause")) [
          | inl pause ↦
              laws.pause_rests name spec w w' known (rw (instance_stop, known, ended, pause) at e)
          | inr stop ↦
              docker_stop-Leaves laws name spec w w' known
                (rw (instance_stop, known, ended, stop) at e)
        ])
      ]

  -- Under Docker's laws, after a stop and a later start that both succeed, a container that is kept
  -- running when idle runs exactly if it ran before. Any other container runs exactly if its active
  -- profile has no resources: one that has some is stopped and not started again.
  pub instance_start-instance_stop :
      (laws : IsDocker) (strategy name : String) (spec : InspectResponse) (w w1 w2 : W)
      → client.container_inspect name w ≡ some spec
      → instance_stop client strategy name w ≡ (true, w1)
      → instance_start client strategy name w1 ≡ (true, w2)
      → at_work name w2 ≡ (
          if leb 1 (scale_config_from_labels spec.labels).idle.replicas
          then at_work name w
          else not (has_resources (scale_config_from_labels spec.labels).active))
  instance_start-instance_stop laws strategy name spec w w1 w2 known stopped started =
      let (spec1, known1, labels1, runs1) =
        instance_stop-Leaves laws strategy name spec w w1 known stopped in
      let (spec2, known2, labels2, runs2) =
        instance_start-Leaves laws strategy name spec1 w1 w2 known1 started in
      let sc = scale_config_from_labels spec.labels in
      rw (at_work, known, known2, runs2, labels1, runs1)
        (elim (Bool-cases (leb 1 sc.idle.replicas)) [
          | inl kept ↦ rw (kept) refl
          | inr ended ↦ rw (ended) (elim (Bool-cases (has_resources sc.active)) [
            | inl active ↦ rw (active) refl
            | inr bare ↦ rw (bare) refl
          ])
        ])
