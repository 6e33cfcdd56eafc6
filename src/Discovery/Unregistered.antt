-- ===== src/Discovery/Unregistered.antt =====
-- Sessions survive both scans.
use sablier.Instance.{InstanceInfo}
use sablier.Requests.Safety.{IsStore, Fetched-cases}
use sablier.Discovery.{
  stop_all_unregistered, warm_all_unregistered, unregistered, stop_each, seed_session, seed_each,
  is_started_by_us,
}
use sablier.Requests.{Environment, Sablier, missing, found, Fetched, unreadable}
use sablier.Prelude.{
  [], ◌∷◌, some, true, inl, inr, refl, arith, ℕ, List, String, ◌≡◌, ◌∙◌, keep_if, Option-cases, not,
  eq_iff, ap, Bool, false,
}

module _ {ℓ} {W : Type ℓ} (env : Environment W) where
  abbrev pub is_absent : Fetched → Bool
  is_absent missing = true
  is_absent (found info) = false
  is_absent unreadable = false

  -- The listed names that have no session, in their order.
  abbrev pub without_session : W → List String → List String
  without_session w = keep_if (λ name. is_absent (env.get_session name w))

  -- One stop after the other.
  abbrev pub stopped_in_turn : List String → W → W
  stopped_in_turn [] w = w
  stopped_in_turn (name ∷ names) w = stopped_in_turn names (env.stop_instance name w).1

  unregistered-without_session :
      (w : W) (names : List String) → unregistered env w names ≡ without_session w names
  unfolding unregistered
  unregistered-without_session w [] = refl
  unregistered-without_session w (name ∷ names) =
      let rest = unregistered-without_session w names in
      elim (Fetched-cases (env.get_session name w)) [
        | inl (info, here) ↦ rw (unregistered, here) rest
        | inr (inl gone) ↦ rw (unregistered, gone) (ap (λ ns. name ∷ ns) rest)
        | inr (inr broken) ↦ rw (unregistered, broken) rest
      ]

  stop_each-stopped_in_turn :
      (names : List String) (w : W) → stop_each env names w ≡ stopped_in_turn names w
  unfolding stop_each
  stop_each-stopped_in_turn [] w = refl
  stop_each-stopped_in_turn (name ∷ names) w =
      stop_each-stopped_in_turn names (env.stop_instance name w).1

  get-stop_each :
      (names : List String) (w : W) (x : String)
      → IsStore env
      → env.get_session x (stop_each env names w) ≡ env.get_session x w
  unfolding stop_each
  get-stop_each [] w x laws = refl
  get-stop_each (name ∷ names) w x laws =
      get-stop_each names (env.stop_instance name w).1 x laws ∙ laws.get_stop name w x

  -- If the store keeps the laws of a session store, the scan calls the stop of exactly the listed
  -- instances that have no session, one after the other, and does nothing else: one whose session cannot
  -- be read is not stopped. It changes no session.
  pub stop_all_unregistered-session :
      (running_names : List String) (s : Sablier W) (x : String)
      → IsStore env
      → ((stop_all_unregistered env running_names s).1
          ≡ record s { world = stopped_in_turn (without_session s.world running_names) s.world })
        × (env.get_session x (stop_all_unregistered env running_names s).1.world
            ≡ env.get_session x s.world)
  unfolding stop_all_unregistered
  stop_all_unregistered-session running_names s x laws = (
    ap (λ w. record s { world = w })
        (stop_each-stopped_in_turn (unregistered env s.world running_names) s.world
          ∙ ap (λ names. stopped_in_turn names s.world)
              (unregistered-without_session s.world running_names)),
    get-stop_each (unregistered env s.world running_names) s.world x laws,
  )

  seed_session-kept :
      (duration : ℕ) (name : String) (w : W) (x : String) (info : InstanceInfo)
      → IsStore env
      → ((n : String) (v : W) (i : InstanceInfo) → env.inspect_instance n v ≡ some i → i.name ≡ n)
      → env.get_session x w ≡ found info
      → env.get_session x (seed_session env duration name w) ≡ found info
  unfolding seed_session
  seed_session-kept duration name w x info laws names held =
      elim (Fetched-cases (env.get_session name w)) [
        | inl (other, here) ↦ ground arith
        | inr (inr broken) ↦ ground arith
        | inr (inl gone) ↦ elim (Option-cases (env.inspect_instance name w)) [
          | inl unknown ↦ ground arith
          | inr (i, known) ↦
              ground (arith, laws.get_put i duration w x, names name w i known, eq_iff i.name x)
        ]
      ]

  seed_each-kept :
      (duration : ℕ) (names : List String) (w : W) (x : String) (info : InstanceInfo)
      → IsStore env
      → ((n : String) (v : W) (i : InstanceInfo) → env.inspect_instance n v ≡ some i → i.name ≡ n)
      → env.get_session x w ≡ found info
      → env.get_session x (seed_each env duration names w) ≡ found info
  unfolding seed_each
  seed_each-kept duration [] w x info laws own held = held
  seed_each-kept duration (name ∷ names) w x info laws own held =
      seed_each-kept duration names (seed_session env duration name w) x info laws own
        (seed_session-kept duration name w x info laws own held)

  -- Warming never touches a session that is there, where the provider answers with the instance that
  -- it is asked for.
  pub warm_all_unregistered-kept :
      (duration : ℕ) (running_names : List String) (s : Sablier W) (x : String)
      (info : InstanceInfo)
      → IsStore env
      → ((n : String) (v : W) (i : InstanceInfo) → env.inspect_instance n v ≡ some i → i.name ≡ n)
      → env.get_session x s.world ≡ found info
      → env.get_session x (warm_all_unregistered env duration running_names s).world ≡ found info
  unfolding warm_all_unregistered
  warm_all_unregistered-kept duration running_names s x info laws own held =
      seed_each-kept duration (keep_if (λ name. not (is_started_by_us env s name)) running_names)
        s.world x info laws own held
