-- ===== src/Requests.antt =====
-- pkg/sablier/instance_request.go: a request for one instance. The session store and the provider are
-- parameters. A request is one step; the start that it dispatches runs in the background and ends in a
-- step of its own. Durations of sessions are not negative and names of groups not empty (an empty one
-- would read as no hold). Metrics, traces and logs are left out.
use sablier.Text.{is_empty}
use sablier.RunningHours.{LocalTime, running_hours_remaining, err, ok}
use sablier.Groups.{Registry, groups_of, members}
use sablier.Instance.{InstanceInfo, no_instance, starting, not_ready, is_status, ready, is_enabled}
use sablier.Prelude.{
  [], ◌∷◌, some, none, true, false, inl, inr, refl, arith, suc, zero, ℕ, String, List, Bool, Map,
  Option, if◌then◌else◌, any, lookup, insert, ◌&&◌, delete, not, ltb,
}
pub mod Safety
pub mod Outcome
pub mod Keeps
pub mod Inspected
pub mod Shelf
mod Tests

-- The answer of Store.Get: store.ErrKeyNotFound is `missing`, any other error `unreadable`.
pub data Fetched : Type 0 where
  found : InstanceInfo → Fetched
  missing : Fetched
  unreadable : Fetched

-- What Sablier calls of its store and its provider, over a world of sessions and workloads. A Bool
-- says that the call succeeded.
pub record Environment {ℓ} (W : Type ℓ) : Type ℓ where
  pub get_session : String → W → Fetched
  pub put_session : InstanceInfo → ℕ → W → Bool × W
  pub delete_session : String → W → Bool × W
  pub stop_instance : String → W → Bool × W
  pub inspect_instance : String → W → Option InstanceInfo
  -- fmt.Sprintf of the message that says which group holds the instance back
  pub hold_message : String → String

-- Whether the goroutine of a start has closed its channel, and whether it failed.
pub data Progress : Type 0 where
  running : Progress
  succeeded : Progress
  failed : Progress

pub record PendingStart : Type 0 where
  pub progress : Progress
  pub info : InstanceInfo

pub record Sablier {ℓ} (W : Type ℓ) : Type ℓ where
  pub groups : Registry
  pub anti_affinity : Registry
  pub suppressed : List String
  pub pending_starts : Map PendingStart
  pub world : W

pub data RequestError : Type 0 where
  empty_name : RequestError
  start_failed : RequestError
  inspect_failed : RequestError
  not_managed : RequestError
  store_failed : RequestError

pub data Answer : Type 0 where
  info_of : InstanceInfo → Answer
  refused : RequestError → Answer

-- InstanceInfo{Name: name, CurrentReplicas: 0, DesiredReplicas: 1}
abbrev pub bare_info : String → InstanceInfo
bare_info name = record no_instance { name = name; desired_replicas = 1 }

module _ {ℓ} {W : Type ℓ} (env : Environment W) where
  unfoldable pub is_live : W → String → Bool
  is_live w name = elim (env.get_session name w) [
    | found info ↦ true
    | missing ↦ false
    | unreadable ↦ false
  ]

  unfoldable pub is_group_active : Sablier W → String → Bool
  unfolding is_live
  is_group_active s group = any (is_live s.world) (members group s.groups)

  first_active : Sablier W → List String → Option String
  first_active s [] = none
  first_active s (g ∷ gs) = if is_group_active s g then some g else first_active s gs

  unfoldable pub anti_affinity_hold : Sablier W → String → Option String
  unfolding first_active
  anti_affinity_hold s name = first_active s (groups_of name s.anti_affinity)

  -- consumePendingError: whether a start is running, or its error, and the entries left.
  unfoldable pub consume_pending_error :
      String → Map PendingStart → (Option Bool) × Map PendingStart
  consume_pending_error name pending = elim (lookup name pending) [
    | none ↦ (some false, pending)
    | some ps ↦ elim ps.progress [
      | running ↦ (some true, pending)
      | succeeded ↦ (some false, delete name pending)
      | failed ↦ (none, delete name pending)
    ]
  ]

  -- The second critical section registers the start; no other request comes between the two.
  register_start : String → InstanceInfo → Sablier W → Answer × Sablier W
  register_start name info s =
      let starting_info = record info { status = starting } in
      (
        info_of starting_info,
        record s {
          pending_starts =
              insert name (record { progress = running; info = starting_info })
                (delete name s.pending_starts);
        },
      )

  fresh_start : String → Bool → Sablier W → Answer × Sablier W
  unfolding register_start
  fresh_start name reject_unlabeled s = elim (env.inspect_instance name s.world) [
    | none ↦
        if reject_unlabeled
        then (refused inspect_failed, s)
        else register_start name (bare_info name) s
    | some info ↦
        if reject_unlabeled && not (is_enabled info)
        then (refused not_managed, s)
        else register_start name info s
  ]

  unfoldable pub request_start : String → Bool → Sablier W → Answer × Sablier W
  unfolding fresh_start
  request_start name reject_unlabeled s =
      let dropped = record s { pending_starts = delete name s.pending_starts } in
      elim (lookup name s.pending_starts) [
        | none ↦ fresh_start name reject_unlabeled s
        | some ps ↦ elim ps.progress [
          | running ↦ (info_of ps.info, s)
          | failed ↦ (refused start_failed, dropped)
          | succeeded ↦ fresh_start name reject_unlabeled dropped
        ]
      ]

  -- The look at an instance that has a session and was not ready yet.
  pub refresh : String → InstanceInfo → ℕ → Sablier W → Answer × Sablier W
  refresh name state now s =
      let (pending, left) = consume_pending_error name s.pending_starts in
      let s' = record s { pending_starts = left } in
      elim pending [
        | none ↦ (refused start_failed, s')
        | some true ↦ (info_of state, s')
        | some false ↦ elim (env.inspect_instance name s.world) [
          | none ↦ (refused inspect_failed, s')
          | some info ↦ (
            info_of
                (if is_status info.status ready then record info { ready_at = some now } else info),
            s',
          )
        ]
      ]

  -- A window that is open extends the session to its end.
  pub effective_duration : InstanceInfo → ℕ → LocalTime → ℕ
  effective_duration state duration now =
      if is_empty state.running_hours
      then duration
      else elim (running_hours_remaining state.running_hours state.running_days now) [
        | err e ↦ duration
        | ok none ↦ duration
        | ok (some remaining) ↦ if ltb duration remaining then remaining else duration
      ]

  store_session : ℕ → LocalTime → Answer × Sablier W → Answer × Sablier W
  unfolding effective_duration
  store_session duration now (refused e, s) = (refused e, s)
  store_session duration now (info_of state, s) =
      let (stored, w) = env.put_session state (effective_duration state duration now) s.world in
      let s' = record s { world = w } in
      if stored then (info_of state, s') else (refused store_failed, s')

  pub held_info : String → String → InstanceInfo
  held_info name group = record (bare_info name) {
    status = not_ready;
    message = env.hold_message group;
  }

  -- The answer and the new state. A new session also triggers a reconciliation of anti-affinities in
  -- the background, which is a step of its own.
  unfoldable pub instance_request : String → ℕ → Bool → LocalTime → Sablier W → Answer × Sablier W
  unfolding store_session held_info
  instance_request name duration reject_unlabeled now s =
      if is_empty name then (refused empty_name, s) else elim (anti_affinity_hold s name) [
        | some group ↦ (info_of (held_info name group), s)
        | none ↦ elim (env.get_session name s.world) [
          | missing ↦ store_session duration now (request_start name reject_unlabeled s)
          | unreadable ↦ (refused store_failed, s)
          | found state ↦
              if is_status state.status ready
              then store_session duration now (info_of state, s)
              else store_session duration now (refresh name state now.instant s)
        ]
      ]

  -- The goroutine of a start ends: an error stays until it is read, a success clears the entry.
  unfoldable pub finish_start : String → Bool → Sablier W → Sablier W
  finish_start name good s = elim (lookup name s.pending_starts) [
    | none ↦ s
    | some ps ↦ elim ps.progress [
      | running ↦
          if good then record s { pending_starts = delete name s.pending_starts } else record s {
            pending_starts = insert name (record ps { progress = failed }) s.pending_starts;
          }
      | succeeded ↦ s
      | failed ↦ s
    ]
  ]
