-- ===== src/Discovery.antt =====
-- pkg/sablier/autostop.go and autowarm.go: what becomes of instances that run
-- without a session. The names that the provider lists are an argument; the stops of one scan, which
-- the program makes at the same time, are made in order.
use sablier.Instance.{is_status, ready}
use sablier.Requests.{Environment, Sablier, missing, found, unreadable, is_live}
use sablier.Prelude.{
  [], ◌∷◌, some, none, true, false, inl, inr, refl, arith, suc, zero, ℕ, List, String, Bool,
  keep_if, has_key, if◌then◌else◌, not, ◌||◌,
}
pub mod Unregistered
mod Tests

module _ {ℓ} {W : Type ℓ} (env : Environment W) where
  pub is_started_by_us : Sablier W → String → Bool
  is_started_by_us s name = has_key name s.pending_starts || is_live env s.world name

  -- The names whose session the store does not have. One that cannot be read is not among them.
  unregistered : W → List String → List String
  unregistered w [] = []
  unregistered w (name ∷ names) =
      let rest = unregistered w names in
      elim (env.get_session name w) [
        | missing ↦ name ∷ rest
        | found info ↦ rest
        | unreadable ↦ rest
      ]

  stop_each : List String → W → W
  stop_each [] w = w
  stop_each (name ∷ names) w = stop_each names (env.stop_instance name w).1

  -- The names that are stopped, and the world after it.
  pub stop_all_unregistered : List String → Sablier W → List String × Sablier W
  unfolding unregistered stop_each
  stop_all_unregistered running_names s =
      let names = unregistered s.world running_names in
      (names, record s { world = stop_each names s.world })

  seed_session : ℕ → String → W → W
  seed_session duration name w = elim (env.get_session name w) [
    | found info ↦ w
    | unreadable ↦ w
    | missing ↦ elim (env.inspect_instance name w) [
      | none ↦ w
      | some info ↦ if is_status info.status ready then (env.put_session info duration w).1 else w
    ]
  ]

  seed_each : ℕ → List String → W → W
  unfolding seed_session
  seed_each duration [] w = w
  seed_each duration (name ∷ names) w = seed_each duration names (seed_session duration name w)

  pub warm_all_unregistered : ℕ → List String → Sablier W → Sablier W
  unfolding seed_each
  warm_all_unregistered duration running_names s =
      let names = keep_if (λ name. not (is_started_by_us s name)) running_names in
      record s { world = seed_each duration names s.world }
