-- ===== src/Kubernetes/Scale/Keeps.antt =====
-- What a change of scale or of resources leaves of the other workloads and of the pauses.
use sablier.Text.{is_empty}
use sablier.Labels.{scale_config_from_labels}
use sablier.Instance.{ResourceProfile}
use sablier.Prelude.Int.{ℤ}
use sablier.Kubernetes.{ParsedName}
use sablier.Kubernetes.Scale.{
  Client, scale, patch_first_container, scale_resources, scale_profile, start_workload,
  ResourcePatch, is_scalable, build_resource_patch, get_workload_labels,
}
use sablier.Prelude.{
  [], ◌∷◌, inl, inr, refl, String, Bool, Option, ◌≡◌, is_some, List, Bool-cases, Option-cases, ◌&&◌,
  not, ◌∙◌,
}

module _ {ℓ} {W : Type ℓ} (client : Client W) (paused : String → String → W → Bool) where
  -- What is relied on of the cluster: `paused` reads the annotation that the patch of a Redis writes,
  -- and no other call touches it, or the owner of a stateful set.
  pub record IsCluster : Type ℓ where
    pub patch_pauses :
        (namespace owner : String) (value : Option String) (w : W)
        → paused namespace owner (client.patch_redis namespace owner value w).1 ≡ is_some value
    pub scale_keeps_paused :
        (kind namespace name r o : String) (n : ℤ) (w : W)
        → paused r o (client.update_scale kind namespace name n w).1 ≡ paused r o w
    pub resources_keep_paused :
        (kind namespace name r o : String) (patch : ResourcePatch) (w : W)
        → paused r o (client.patch_resources kind namespace name patch w).1 ≡ paused r o w
    pub scale_keeps :
        (kind namespace name k r o : String) (n : ℤ) (w : W)
        → client.get k r o (client.update_scale kind namespace name n w).1 ≡ client.get k r o w
    pub resources_keep :
        (kind namespace name k r o : String) (patch : ResourcePatch) (w : W)
        → client.get k r o (client.patch_resources kind namespace name patch w).1
          ≡ client.get k r o w

  -- A change of the world that leaves the workloads and the pauses.
  abbrev pub Keeps : W → W → Type 0
  Keeps w w' =
      ((r o : String) → paused r o w' ≡ paused r o w)
      × ((k r o : String) → client.get k r o w' ≡ client.get k r o w)

  pub scale-Keeps :
      (laws : IsCluster) (parsed : ParsedName) (n : ℤ) (w : W) → Keeps w (scale client parsed n w).1
  unfolding scale
  scale-Keeps laws parsed n w =
      elim (Bool-cases
        (is_scalable parsed.kind && client.get_scale parsed.kind parsed.namespace parsed.name w)) [
          | inl good ↦
              rw (scale, good)
                (
                  λ r o. laws.scale_keeps_paused parsed.kind parsed.namespace parsed.name r o n w,
                  λ k r o. laws.scale_keeps parsed.kind parsed.namespace parsed.name k r o n w,
                )
          | inr bad ↦ rw (scale, bad) (λ r o. refl, λ k r o. refl)
        ]

  patch_first_container-Keeps :
      (laws : IsCluster) (parsed : ParsedName) (containers : List String) (cpu memory : String)
      (w : W)
      → Keeps w (patch_first_container client parsed containers cpu memory w).1
  unfolding patch_first_container
  patch_first_container-Keeps laws parsed [] cpu memory w = (λ r o. refl, λ k r o. refl)
  patch_first_container-Keeps laws parsed (c ∷ cs) cpu memory w =
      elim (Option-cases (build_resource_patch client c cpu memory)) [
        | inl bad ↦ rw (patch_first_container, bad) (λ r o. refl, λ k r o. refl)
        | inr (patch, good) ↦
            rw (patch_first_container, good)
              (
                λ r o.
                    laws.resources_keep_paused parsed.kind parsed.namespace parsed.name r o patch w,
                λ k r o. laws.resources_keep parsed.kind parsed.namespace parsed.name k r o patch w,
              )
      ]

  scale_resources-Keeps :
      (laws : IsCluster) (parsed : ParsedName) (cpu memory : String) (w : W)
      → Keeps w (scale_resources client parsed cpu memory w).1
  unfolding scale_resources
  scale_resources-Keeps laws parsed cpu memory w = elim (Bool-cases (is_scalable parsed.kind)) [
    | inr bad ↦ rw (scale_resources, bad) (λ r o. refl, λ k r o. refl)
    | inl good ↦ elim (Option-cases (client.get parsed.kind parsed.namespace parsed.name w)) [
      | inl missing ↦ rw (scale_resources, good, missing) (λ r o. refl, λ k r o. refl)
      | inr (workload, found) ↦
          rw (scale_resources, good, found)
            (patch_first_container-Keeps laws parsed workload.containers cpu memory w)
    ]
  ]

  scale_profile-Keeps :
      (laws : IsCluster) (parsed : ParsedName) (n : ℤ) (profile : ResourceProfile) (w : W)
      → Keeps w (scale_profile client parsed n profile w).1
  unfolding scale_profile
  scale_profile-Keeps laws parsed n profile w =
      let (pauses, workloads) = scale-Keeps laws parsed n w in
      let w' = (scale client parsed n w).1 in
      let (pauses', workloads') = scale_resources-Keeps laws parsed profile.cpu profile.memory w' in
      elim (Bool-cases
        ((scale client parsed n w).0 && not (is_empty profile.cpu && is_empty profile.memory))) [
          | inl more ↦
              rw (scale_profile, more)
                (λ r o. pauses' r o ∙ pauses r o, λ k r o. workloads' k r o ∙ workloads k r o)
          | inr done ↦ rw (scale_profile, done) (pauses, workloads)
        ]

  pub start_workload-Keeps :
      (laws : IsCluster) (parsed : ParsedName) (w : W) → Keeps w (start_workload client parsed w).1
  unfolding start_workload
  start_workload-Keeps laws parsed w = elim (Option-cases (get_workload_labels client parsed w)) [
    | inl missing ↦ rw (start_workload, missing) (λ r o. refl, λ k r o. refl)
    | inr (labels, found) ↦
        rw (start_workload, found)
          (scale_profile-Keeps laws parsed _ (scale_config_from_labels labels).active w)
  ]
