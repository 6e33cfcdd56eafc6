-- ===== src/Proxmox/Tasks/Ready.antt =====
-- An instance is reported ready only once its start is over.
use sablier.Text.{is_empty}
use sablier.Instance.{ready, InstanceInfo, starting}
use sablier.Proxmox.{ContainerRef, resolve}
use sablier.Proxmox.Tasks.{
  Client, info_of_status, inspect_container, resolve_name, instance_start, Provider, submit_start,
  Interface, has_non_loopback_ip, check_pending_task, PendingTask, not_done, done, failure_time,
  failed_task_ttl, TaskCheck, follow_task, instance_inspect, lxc_info,
}
use sablier.Prelude.{
  some, true, false, inl, inr, refl, arith, ◌≡◌, String, List, Option-cases, Bool-cases,
  some-eq-some, str_eq, ap, eq_iff, ◌∙◌, ℕ, lookup, none, lookup-delete, str_eq_refl, ltb, ◌+◌, ◌⊎◌,
  Bool, ◌∷◌, sym, any, [], not, ◌&&◌, ◌||◌,
}

-- Some interface other than "lo" has an address.
abbrev pub has_outer_address : List Interface → Bool
has_outer_address =
    any (λ i. not (str_eq i.name "lo") && (not (is_empty i.inet) || not (is_empty i.inet6)))

has_non_loopback_ip-has_outer_address :
    (ifaces : List Interface) → has_non_loopback_ip ifaces ≡ has_outer_address ifaces
unfolding has_non_loopback_ip
has_non_loopback_ip-has_outer_address [] = refl
has_non_loopback_ip-has_outer_address (i ∷ ifaces) =
    ground (arith, has_non_loopback_ip-has_outer_address ifaces)

-- The container runs, and has such an address if its interfaces can be read.
abbrev pub IsUp {ℓ} : {W : Type ℓ} → Client W → ContainerRef → W → Type 0
IsUp client ref w =
    (client.status ref w ≡ some "running")
    × ((ifaces : List Interface)
        → client.interfaces ref w ≡ some ifaces
        → has_outer_address ifaces ≡ true)

TaskCheck-cases :
    (c : TaskCheck)
    → ((info : InstanceInfo) × (c ≡ not_done info)) ⊎ ((pt : PendingTask) × (c ≡ done pt))
TaskCheck-cases (not_done info) = inl (info, refl)
TaskCheck-cases (done pt) = inr (pt, refl)

module _ {ℓ} {W : Type ℓ} (client : Client W) where
  info_of_status-ready :
      (ref : ContainerRef) (status : String) (w : W)
      → client.status ref w ≡ some status
      → (info_of_status client ref status w).status ≡ ready
      → IsUp client ref w
  unfolding info_of_status
  info_of_status-ready ref status w here up = elim (Bool-cases (str_eq status "running")) [
    | inl runs ↦
        let named : status ≡ "running" = (eq_iff status "running").0 runs in
        (
          here ∙ ap some named,
          λ ifaces read. elim (Bool-cases (has_non_loopback_ip ifaces)) [
            | inl address ↦ sym (has_non_loopback_ip-has_outer_address ifaces) ∙ address
            | inr none_yet ↦ absurd (ground (arith, up, runs, read, none_yet))
          ],
        )
    | inr other ↦ elim (Bool-cases (str_eq status "stopped")) [
      | inl still ↦ absurd (ground (arith, up, other, still))
      | inr odd ↦ absurd (ground (arith, up, other, odd))
    ]
  ]

  inspect_container-ready :
      (ref : ContainerRef) (p : Provider W) (info : InstanceInfo)
      → (inspect_container client ref p).0 ≡ some info
      → info.status ≡ ready
      → ((inspect_container client ref p).1 ≡ p) × IsUp client ref p.world
  unfolding inspect_container
  inspect_container-ready ref p info e up = elim (Option-cases (client.status ref p.world)) [
    | inl unread ↦ absurd (ground (arith, e, unread))
    | inr (status, here) ↦
        let same : info_of_status client ref status p.world ≡ info =
          some-eq-some (rw (here, inspect_container) at e) in
        (
          rw (here, inspect_container) refl,
          info_of_status-ready ref status p.world here (ap (λ t. t.status) same ∙ up),
        )
  ]

  resolve_name-keeps :
      (name : String) (p : Provider W)
      → (resolve_name client name p).1.pending_tasks ≡ p.pending_tasks
  unfolding resolve_name
  resolve_name-keeps name p = refl

  submit_start-fails :
      (name : String) (ref : ContainerRef) (p : Provider W)
      → (submit_start client name ref p).0 ≡ false
      → (submit_start client name ref p).1.pending_tasks ≡ p.pending_tasks
  unfolding submit_start
  submit_start-fails name ref p fails = elim (Option-cases (client.start ref p.world).0) [
    | inl refused ↦ rw (refused, submit_start) refl
    | inr (t, submitted) ↦ absurd (ground (arith, submitted, fails))
  ]

  -- A start that fails stores no task.
  instance_start-fails :
      (name : String) (p : Provider W)
      → (instance_start client name p).0 ≡ false
      → (instance_start client name p).1.pending_tasks ≡ p.pending_tasks
  unfolding instance_start
  instance_start-fails name p fails =
      let p' = (resolve_name client name p).1 in
      let kept = resolve_name-keeps name p in
      elim (Option-cases (resolve_name client name p).0) [
        | inl unknown ↦ rw (unknown, instance_start) kept
        | inr (ref, found) ↦ elim (Option-cases (client.status ref p'.world)) [
          | inl unread ↦ rw (found, unread, instance_start) kept
          | inr (status, read) ↦ elim (Bool-cases (str_eq status "running")) [
            | inl runs ↦ absurd (ground (arith, found, read, runs, fails))
            | inr down ↦
                rw (found, read, down, instance_start)
                  (submit_start-fails name ref p' (rw (found, read, down, instance_start) at fails)
                    ∙ kept)
          ]
        ]
      ]

  -- A task that is done has left the map, and one that is not makes nothing ready.
  check_pending_task-Checked :
      (name : String) (ref : ContainerRef) (pt : PendingTask) (now : ℕ) (p : Provider W)
      → ((info : InstanceInfo)
          → (check_pending_task client name ref pt now p).0 ≡ not_done info
          → ¬ (info.status ≡ ready))
        × ((seen : PendingTask)
            → (check_pending_task client name ref pt now p).0 ≡ done seen
            → lookup name (check_pending_task client name ref pt now p).1.pending_tasks ≡ none)
  unfolding check_pending_task
  check_pending_task-Checked name ref pt now p =
      let gone = lookup-delete name name p.pending_tasks in
      let itself = str_eq_refl name in
      elim (Option-cases (client.ping pt.task p.world)) [
        | inl silent ↦ (
          (λ info e up. ground (arith, silent, e, up)),
          λ seen e. absurd (ground (arith, silent, e)),
        )
        | inr (view, heard) ↦ elim (Bool-cases view.is_running) [
          | inl runs ↦ (
            (λ info e up. ground (arith, heard, runs, e, up)),
            λ seen e. absurd (ground (arith, heard, runs, e)),
          )
          | inr over ↦ elim (Bool-cases view.is_failed) [
            | inr good ↦ (
              (λ info e up. ground (arith, heard, over, good, e)),
              λ seen e. ground (arith, heard, over, good, gone, itself),
            )
            | inl bad ↦ elim (Bool-cases (ltb (failure_time pt view now + failed_task_ttl) now)) [
              | inl long_ago ↦ (
                (λ info e up. ground (arith, heard, over, bad, long_ago, e)),
                λ seen e. ground (arith, heard, over, bad, long_ago, gone, itself),
              )
              | inr lately ↦ (
                (λ info e up. ground (arith, heard, over, bad, lately, e, up)),
                λ seen e. absurd (ground (arith, heard, over, bad, lately, e)),
              )
            ]
          ]
        ]
      ]

  -- No start of `name` is pending, and its container is up.
  abbrev pub IsOver : String → ContainerRef → Provider W → Type 0
  IsOver name ref p = (lookup name p.pending_tasks ≡ none) × IsUp client ref p.world

  inspect_container-IsOver :
      (name : String) (ref : ContainerRef) (p : Provider W) (info : InstanceInfo)
      → lookup name p.pending_tasks ≡ none
      → (inspect_container client ref p).0 ≡ some info
      → info.status ≡ ready
      → IsOver name ref (inspect_container client ref p).1
  inspect_container-IsOver name ref p info none_left e up =
      let (same, is_up) = inspect_container-ready ref p info e up in rw same (none_left, is_up)

  follow_task-IsOver :
      (name : String) (ref : ContainerRef) (pt : PendingTask) (p : Provider W) (info : InstanceInfo)
      → lookup name p.pending_tasks ≡ none
      → (follow_task client name ref pt p).0 ≡ some info
      → info.status ≡ ready
      → IsOver name ref (follow_task client name ref pt p).1
  unfolding follow_task
  follow_task-IsOver name ref pt p info none_left e up = elim (Option-cases pt.failed_at) [
    | inl fine ↦
        rw (fine, follow_task)
          (inspect_container-IsOver name ref p info none_left (rw (fine, follow_task) at e) up)
    | inr (t, failed) ↦
        let p' = (instance_start client name p).1 in
        elim (Bool-cases (instance_start client name p).0) [
          | inl started ↦
              let same : lxc_info ref.name 0 starting ≡ info =
                some-eq-some (rw (failed, started, follow_task) at e) in
              absurd (ground (arith, ap (λ u. u.status) same, up))
          | inr refused ↦
              rw (failed, refused, follow_task)
                (inspect_container-IsOver name ref p' info
                  (ap (lookup name) (instance_start-fails name p refused) ∙ none_left)
                  (rw (failed, refused, follow_task) at e) up)
        ]
  ]

  -- An instance is reported ready only if, when the inspection is over, no start of it is pending, and
  -- the container that the lookup of its name finds runs and has an address on an interface other than
  -- its loopback, if its interfaces can be read.
  pub instance_inspect-ready :
      (name : String) (now : ℕ) (p : Provider W) (info : InstanceInfo)
      → (instance_inspect client name now p).0 ≡ some info
      → info.status ≡ ready
      → (ref : ContainerRef) × ((resolve (client.cluster p.world) name p.cache).0 ≡ some ref)
        × IsOver name ref (instance_inspect client name now p).1
  unfolding instance_inspect resolve_name
  instance_inspect-ready name now p info e up =
      let p' = (resolve_name client name p).1 in
      elim (Option-cases (resolve_name client name p).0) [
        | inl unknown ↦ absurd (ground (arith, unknown, e))
        | inr (ref, found) ↦ elim (Option-cases (lookup name p'.pending_tasks)) [
          | inl none_left ↦ (
            ref,
            found,
            rw (found, none_left, instance_inspect)
                (inspect_container-IsOver name ref p' info none_left
                  (rw (found, none_left, instance_inspect) at e) up),
          )
          | inr (pt, pending) ↦
              let checked = check_pending_task-Checked name ref pt now p' in
              let p'' = (check_pending_task client name ref pt now p').1 in
              elim (TaskCheck-cases (check_pending_task client name ref pt now p').0) [
                | inl (waiting, c) ↦
                    let same : waiting ≡ info =
                      some-eq-some (rw (found, pending, c, instance_inspect) at e) in
                    absurd (checked.0 waiting c (ap (λ u. u.status) same ∙ up))
                | inr (seen, c) ↦ (
                  ref,
                  found,
                  rw (found, pending, c, instance_inspect)
                      (follow_task-IsOver name ref seen p'' info (checked.1 seen c)
                        (rw (found, pending, c, instance_inspect) at e) up),
                )
              ]
        ]
      ]
