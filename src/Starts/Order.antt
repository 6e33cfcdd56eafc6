-- ===== src/Starts/Order.antt =====
-- The starts are in order, each at most once, and never wait for themselves.
use sablier.Dependencies.Graph.{IsBelow}
use sablier.Starts.Log.{
  IsOrdered, has_met, has_started, all_met, is_finished, is_open, is_stuck, is_done, stuck_entry,
  wait-is_stuck, wait-shows, is_satisfied-shows, shows,
}
use sablier.Dependencies.{DependencyGraph, InstanceDependency}
use sablier.Starts.{
  Engine, Run, await_dependency, satisfy_dependency, Event, Outcome, done, met, is_satisfied,
  satisfy_each, failed, wait_for_dependency_condition,
}
use sablier.Prelude.{
  ◌∷◌, true, false, inl, inr, refl, arith, ℕ, List, String, ◌∙◌, ◌≡◌, Bool, Bool-cases, lookup,
  str_eq_refl,
}

module _ {ℓ} {W : Type ℓ} (engine : Engine W) (ticks : ℕ) (graph : DependencyGraph) where
  pub record Sound (run : Run W) : Type 0 where
    pub ordered : IsOrdered graph run.log
    pub finished :
        (n : String) → has_started n run.log ≡ true → is_finished (lookup n run.memo) ≡ true
    pub free : (n : String) → stuck_entry (lookup n run.memo) ≡ false

  pub record Later (old new : Run W) : Type 0 where
    pub met_kept :
        (dep : InstanceDependency) → has_met dep old.log ≡ true → has_met dep new.log ≡ true
    pub opens : (k : String) → is_open (lookup k new.memo) ≡ is_open (lookup k old.memo)
    pub known : IsBelow old.memo new.memo

  -- What a step from `run` that is to reach `goal` leaves.
  pub record Post (goal : List Event → Bool) (run : Run W) (r : Outcome × Run W) : Type 0 where
    pub sound : Sound r.1
    pub later : Later run r.1
    pub unstuck : is_stuck r.0 ≡ false
    pub reached : is_done r.0 ≡ true → goal r.1.log ≡ true

  pub trans_Later : {a b c : Run W} → Later a b → Later b c → Later a c
  trans_Later ab bc = record {
    met_kept = λ dep h. bc.met_kept dep (ab.met_kept dep h);
    opens = λ k. bc.opens k ∙ ab.opens k;
    known = λ k h. bc.known k (ab.known k h);
  }

  pub refl_Later : (run : Run W) → Later run run
  refl_Later run = record { met_kept = λ dep h. h; opens = λ k. refl; known = λ k h. h }

  -- A condition that is met goes to the log.
  log_met :
      (dep : InstanceDependency) (run : Run W) (w : W)
      → Sound run
      → shows dep.condition (engine.inspect_status dep.name w) ≡ true
      → Post (has_met dep) run (
        done,
        record run {
          world = w;
          log = met dep.name dep.condition (engine.inspect_status dep.name w) ∷ run.log;
        },
      )
  log_met dep run w sound shown = record {
    sound = record {
      ordered = (shown, sound.ordered);
      finished = sound.finished;
      free = sound.free;
    };
    later = record { met_kept = λ other h. ground (arith, h); opens = λ k. refl; known = λ k h. h };
    unstuck = refl;
    reached = λ h. ground (arith, str_eq_refl dep.name, str_eq_refl dep.condition);
  }

  await_dependency-Post :
      (dep : InstanceDependency) (run : Run W) (goal : List Event → Bool) (r : Outcome × Run W)
      → Post goal run r
      → Post (has_met dep) run (await_dependency engine ticks dep r)
  unfolding await_dependency
  await_dependency-Post dep run goal (failed e, next) post = record {
    sound = post.sound;
    later = post.later;
    unstuck = post.unstuck;
    reached = λ h. cc;
  }
  await_dependency-Post dep run goal (done, next) post =
      go (wait_for_dependency_condition engine ticks ticks dep.name dep.condition next.world)
        (wait-is_stuck engine ticks ticks dep.name dep.condition next.world)
        (wait-shows engine ticks ticks dep.name dep.condition next.world)
    where
      go :
          (answer : Outcome × W)
          → is_stuck answer.0 ≡ false
          → (answer.0 ≡ done → shows dep.condition (engine.inspect_status dep.name answer.1) ≡ true)
          → Post (has_met dep) run (elim answer.0 as (λ _. Outcome × Run W) [
            | done ↦ (
              done,
              record next {
                world = answer.1;
                log =
                    met dep.name dep.condition (engine.inspect_status dep.name answer.1) ∷ next.log;
              },
            )
            | failed e ↦ (failed e, record next { world = answer.1 })
          ])
      go (done, w) h shown =
          let logged = log_met dep next w post.sound (shown refl) in
          record {
            sound = logged.sound;
            later = trans_Later post.later logged.later;
            unstuck = refl;
            reached = logged.reached;
          }
      go (failed e, w) h shown = record {
        sound = record {
          ordered = post.sound.ordered;
          finished = post.sound.finished;
          free = post.sound.free;
        };
        later = record {
          met_kept = post.later.met_kept;
          opens = post.later.opens;
          known = post.later.known;
        };
        unstuck = h;
        reached = λ h. cc;
      }

  abbrev pub anything : List Event → Bool
  anything log = true

  pub satisfy_dependency-Post :
      (start_node : String → Run W → Outcome × Run W) (dep : InstanceDependency) (run : Run W)
      → Sound run
      → Post anything run (start_node dep.name run)
      → Post (has_met dep) run (satisfy_dependency engine ticks start_node dep run)
  unfolding satisfy_dependency
  satisfy_dependency-Post start_node dep run sound post =
      elim (Bool-cases (is_satisfied engine ticks dep run.world)) [
        | inl already ↦
            rw (already, satisfy_dependency)
              (log_met dep run run.world sound
                (is_satisfied-shows engine ticks dep run.world already))
        | inr wanted ↦
            rw (wanted, satisfy_dependency)
              (await_dependency-Post dep run anything (start_node dep.name run) post)
      ]

  join_Post :
      (dep : InstanceDependency) (deps : List InstanceDependency) (run next : Run W)
      (r : Outcome × Run W)
      → Post (has_met dep) run (done, next)
      → Post (all_met deps) next r
      → Post (all_met (dep ∷ deps)) run r
  join_Post dep deps run next r first rest = record {
    sound = rest.sound;
    later = trans_Later first.later rest.later;
    unstuck = rest.unstuck;
    reached = λ h. ground (arith, rest.reached h, rest.later.met_kept dep (first.reached refl));
  }

  pub continue_each :
      (start_node : String → Run W → Outcome × Run W) (dep : InstanceDependency)
      (deps : List InstanceDependency) (run : Run W) (r : Outcome × Run W)
      → Post (has_met dep) run r
      → ((next : Run W)
          → Sound next
          → Later run next
          → Post (all_met deps) next (satisfy_each engine ticks start_node deps next))
      → Post (all_met (dep ∷ deps)) run (elim r.0 as (λ _. Outcome × Run W) [
        | done ↦ satisfy_each engine ticks start_node deps r.1
        | failed e ↦ (failed e, r.1)
      ])
  continue_each start_node dep deps run (failed e, next) post rest = record {
    sound = post.sound;
    later = post.later;
    unstuck = post.unstuck;
    reached = λ h. cc;
  }
  continue_each start_node dep deps run (done, next) post rest =
      join_Post dep deps run next (satisfy_each engine ticks start_node deps next) post
        (rest next post.sound post.later)
