-- ===== src/Docker/Containers/Tests.antt =====
-- A host with one container, whose CPU is limited while it is in use.
use sablier.Text.{is_empty}
use sablier.Labels.Scale.{idle_replicas-unset, cpu-has_resources, active_cpu-given}
use sablier.Prelude.Int.{pos}
use sablier.Instance.{has_resources, InstanceInfo, ResourceProfile}
use sablier.Labels.{scale_config_from_labels, populate_enabled_and_group}
use sablier.Docker.Containers.{
  ContainerState, InspectResponse, Client, instance_stop, instance_start, instance_inspect,
  status_info, apply_resources, resources_of, given_limit,
}
use sablier.Prelude.{
  [], ◌∷◌, some, none, true, false, refl, Map, ap, ◌≡◌, String, sym, if◌then◌else◌, ◌∙◌, leb,
  lookup, some-eq-some, not, Bool-cases, inl, inr,
}
use sablier.Docker.Containers.Lifecycle.{IsDocker, instance_start-instance_stop, at_work, runs}
use sablier.Docker.Containers.Status.{instance_inspect-Reports, Reports}

abbrev busy : ContainerState
busy = record {
  status = "running";
  is_running = true;
  is_paused = false;
  exit_code = pos 0;
  health = some "healthy";
}

abbrev gone : ContainerState
gone = record {
  status = "exited";
  is_running = false;
  is_paused = false;
  exit_code = pos 0;
  health = none;
}

abbrev limited : Map String
limited = ("sablier.active.cpu", "2") ∷ []

abbrev web : InspectResponse
web = record { state = busy; restart_policy = some "always"; labels = limited }

-- The world is the container.
abbrev host : Client InspectResponse
host = record {
  container_inspect = λ name w. some w;
  container_start = λ name w. (true, record w { state = busy });
  container_stop = λ name w. (true, record w { state = gone });
  container_wait = λ name w. (true, w);
  container_pause =
      λ name w. (true, record w { state = record busy { status = "paused"; is_paused = true } });
  container_unpause = λ name w. (true, record w { state = busy });
  container_update = λ name resources w. (true, w);
  ram_in_bytes = λ v. some (pos 0);
  parse_cpu_nano = λ v. some (pos 2000000000);
}

host-IsDocker : IsDocker host
host-IsDocker = record {
  start_runs = λ name spec w w' known e. (
    w',
    refl,
    ap (λ p. p.1.labels) (sym e) ∙ ap (λ s. s.labels) (some-eq-some known),
    ap (λ p. runs p.1) (sym e),
  );
  unpause_runs = λ name spec w w' known e. (
    w',
    refl,
    ap (λ p. p.1.labels) (sym e) ∙ ap (λ s. s.labels) (some-eq-some known),
    ap (λ p. runs p.1) (sym e),
  );
  stop_rests = λ name spec w w' known e. (
    w',
    refl,
    ap (λ p. p.1.labels) (sym e) ∙ ap (λ s. s.labels) (some-eq-some known),
    ap (λ p. runs p.1) (sym e),
  );
  pause_rests = λ name spec w w' known e. (
    w',
    refl,
    ap (λ p. p.1.labels) (sym e) ∙ ap (λ s. s.labels) (some-eq-some known),
    ap (λ p. runs p.1) (sym e),
  );
  wait_keeps = λ name w. refl;
  update_keeps = λ name resources spec w w' known e. (
    w',
    refl,
    ap (λ p. p.1.labels) (sym e) ∙ ap (λ s. s.labels) (some-eq-some known),
    ap (λ p. runs p.1) (sym e) ∙ ap runs (some-eq-some known),
  );
}

-- Its configuration has no replicas when idle.
idle_web : (scale_config_from_labels limited).idle.replicas ≡ 0
unfolding lookup
idle_web = idle_replicas-unset limited refl

active_web : has_resources (scale_config_from_labels limited).active ≡ true
unfolding lookup
active_web =
    cpu-has_resources (scale_config_from_labels limited).active
      (ap is_empty (active_cpu-given limited "2" refl))

instance_stop-web : instance_stop host "stop" "web" web ≡ (true, record web { state = gone })
unfolding instance_stop
instance_stop-web = rw (idle_web) refl

apply_resources-host :
    (profile : ResourceProfile) (w : InspectResponse)
    → apply_resources host "web" profile w ≡ (true, w)
unfolding apply_resources resources_of given_limit
apply_resources-host profile w = elim (Bool-cases (is_empty profile.cpu)) [
  | inl cpu ↦ elim (Bool-cases (is_empty profile.memory)) [
    | inl memory ↦ rw (apply_resources, resources_of, given_limit, cpu, memory) refl
    | inr memory ↦ rw (apply_resources, resources_of, given_limit, cpu, memory) refl
  ]
  | inr cpu ↦ elim (Bool-cases (is_empty profile.memory)) [
    | inl memory ↦ rw (apply_resources, resources_of, given_limit, cpu, memory) refl
    | inr memory ↦ rw (apply_resources, resources_of, given_limit, cpu, memory) refl
  ]
]

instance_start-web :
    instance_start host "stop" "web" (record web { state = gone })
    ≡ (true, record web { state = gone })
unfolding instance_start
instance_start-web =
    rw (idle_web, active_web)
      (apply_resources-host (scale_config_from_labels limited).active (record web { state = gone }))

instance_start-instance_stop_example : at_work host "web" (record web { state = gone }) ≡ (
    if leb 1 (scale_config_from_labels limited).idle.replicas
    then at_work host "web" web
    else not (has_resources (scale_config_from_labels limited).active))
instance_start-instance_stop_example =
    instance_start-instance_stop host host-IsDocker "stop" "web" web web
      (record web { state = gone }) (record web { state = gone }) refl instance_stop-web
      instance_start-web

abbrev inspected : InstanceInfo
inspected = populate_enabled_and_group (λ v. none) (status_info true "web" web) limited

instance_inspect-web : instance_inspect host (λ v. none) true "web" web ≡ some inspected
unfolding instance_inspect
instance_inspect-web = refl

instance_inspect-Reports_example : Reports true web inspected
instance_inspect-Reports_example =
    instance_inspect-Reports host (λ v. none) true "web" web web inspected refl instance_inspect-web
