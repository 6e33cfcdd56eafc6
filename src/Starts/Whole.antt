-- ===== src/Starts/Whole.antt =====
-- startWithDependencies as a whole.
use sablier.Dependencies.Acyclic.{dependency_graph_cycle-Ends}
use sablier.Starts.Node.{IsRanked, satisfy_each-Post, start_dependency_node-Post}
use sablier.Dependencies.Cycle.{IsClosed, Ranked, Grown, Ends}
use sablier.Dependencies.Resolve.{
  HasNamedAnswers, Extends, EndsFor, resolve_dependency_graph-EndsFor,
}
use sablier.Starts.Log.{IsOrdered, all_met, is_done, is_stuck}
use sablier.Starts.Order.{Post}
use sablier.Dependencies.Graph.{missing_names, IsWalk, starts_at, has_repeat}
use sablier.Dependencies.{
  Colour, DependencyGraph, dependencies, Search, Resolved, resolve_dependency_graph,
  InstanceDependency, resolve_failed, cyclic, visited, acyclic, resolved, dependency_graph_cycle,
  search_out_of_fuel, resolve_out_of_fuel,
}
use sablier.Starts.{
  Engine, start_root, Outcome, Run, Event, started, failed, done, cannot_resolve,
  start_with_dependencies, out_of_fuel, satisfy_each, start_dependency_node,
}
use sablier.Prelude.{
  [], ◌∷◌, some, none, true, false, inl, inr, refl, arith, suc, ℕ, Map, List, String, contains,
  length, has_key, keep_if, ◌≡◌, Option, ◌&&◌, eq_iff, ◌⊎◌, Bool-cases, str_eq, has_key-lookup,
  lookup, str_eq_refl, length-keep_if,
}

contains-keep_if :
    (state : Map Colour) (names : List String) (x : String)
    → contains (keep_if (λ n. has_key n state) names) x ≡ contains names x && has_key x state
contains-keep_if state [] x = refl
contains-keep_if state (n ∷ names) x = ground (arith, contains-keep_if state names x, eq_iff n x)

no_key {ℓ} : (V : Type ℓ) (k : String) → has_key {V = V} k [] ≡ false
unfolding has_key
no_key V k = refl

module _ {ℓ} {W : Type ℓ} (engine : Engine W) (ticks : ℕ) (names : List String)
    (root : String) where
  abbrev fuel : ℕ
  fuel = suc (length names)

  length_unasked : (xs : List String) → missing_names {V = Option Outcome} xs [] ≡ length xs
  unfolding has_key
  length_unasked [] = refl
  length_unasked (x ∷ xs) = omega (arith, length_unasked xs)

  -- The graph has the provider's answers only, so its names are among `names`.
  graph_closed :
      (graph : DependencyGraph)
      → HasNamedAnswers engine.direct_dependencies names
      → Extends engine.direct_dependencies names [] graph
      → IsClosed graph names root
  graph_closed graph closed ext n d known dep = elim (Bool-cases (has_key n graph)) [
    | inr absent ↦ absurd (ground (arith, absent, dep, has_key-lookup n graph))
    | inl present ↦
        let (deps, said, entry, inner) = ext.answered n (nothing n) present in
        closed n deps known said d (ground (arith, entry, dep))
  ]
    where
      nothing : (k : String) → has_key {V = List InstanceDependency} k [] ≡ false
      nothing k = no_key (List InstanceDependency) k

  -- What a whole run may leave: the root is asked to start only as the last step, and only if all of
  -- its dependencies have met their conditions.
  pub record Completed (graph : DependencyGraph) (r : Outcome × Run W) : Type 0 where
    pub older : List Event
    pub ordered : IsOrdered graph older
    pub ending :
        ((r.1.log ≡ older) × (is_done r.0 ≡ false))
        ⊎ ((r.1.log ≡ started root ∷ older) × (all_met (dependencies graph root) older ≡ true))

  start_root-Completed :
      (graph : DependencyGraph) (run : Run W) (r : Outcome × Run W)
      → Post engine ticks graph (all_met (dependencies graph root)) run r
      → Completed graph (start_root engine ticks root r)
        × (is_stuck (start_root engine ticks root r).0 ≡ false)
  unfolding start_root
  start_root-Completed graph run (failed e, next) post = (
    record { older = next.log; ordered = post.sound.ordered; ending = inl (refl, refl) },
    post.unstuck,
  )
  start_root-Completed graph run (done, next) post = (
    record {
      older = next.log;
      ordered = post.sound.ordered;
      ending = inr (log_is, post.reached refl);
    },
    elim (Bool-cases (engine.start_instance root next.world).0) [
      | inl good ↦ ground (arith, good)
      | inr bad ↦ ground (arith, bad)
    ],
  )
    where
      log_is : (start_root engine ticks root (done, next)).1.log ≡ started root ∷ next.log
      log_is = elim (Bool-cases (engine.start_instance root next.world).0) [
        | inl good ↦ ground (arith, good)
        | inr bad ↦ ground (arith, bad)
      ]

  -- The part of a run that follows a search without a cycle.
  satisfy_root :
      (graph : DependencyGraph) (state : Map Colour) (run : Run W)
      → IsClosed graph names root
      → Ranked graph names root state
      → Grown graph names root [] state
      → lookup root state ≡ some visited
      → contains names root ≡ true
      → run.memo ≡ []
      → run.log ≡ []
      → Post engine ticks graph (all_met (dependencies graph root)) run (
          satisfy_each engine ticks
            (start_dependency_node engine ticks fuel graph)
            (dependencies graph root)
            run)
  satisfy_root graph state run closed ranked grown here known no_memo no_log =
      satisfy_each-Post engine ticks graph inside ranked.rank fuel
        (start_dependency_node engine ticks fuel graph)
        (start_dependency_node-Post engine ticks graph inside ranked.rank down fuel)
        (dependencies graph root) run
        (λ d dep. (
          (down root d
              (ground
                (arith, contains-keep_if state names root, known, here, has_key-lookup root state))
              dep).0,
          λ k busy. absurd (ground (arith, busy, no_memo, nothing k)),
        ))
        (ground
          (arith, no_memo, length_unasked inside, length-keep_if (λ n. has_key n state) names))
        (record {
          ordered = rw no_log tt;
          finished = λ n h. absurd (ground (arith, h, no_log));
          free = λ n. ground (arith, no_memo, nothing n);
        })
    where
      inside : List String
      inside = keep_if (λ n. has_key n state) names

      nothing : (k : String) → lookup {V = Option Outcome} k [] ≡ none
      nothing k = unfold lookup in refl

      down : IsRanked engine ticks graph inside ranked.rank
      down n d held dep =
          let was : lookup n state ≡ some visited =
            grown.finished n (no_key Colour n)
              (ground (arith, held, contains-keep_if state names n)) in
          let (next, lower) = ranked.descends n d was dep in
          (
            ground (
              arith,
              contains-keep_if state names d,
              next,
              has_key-lookup d state,
              closed n d (ground (arith, held, contains-keep_if state names n)) dep,
            ),
            lower,
          )

  -- How startWithDependencies may end.
  pub data Finished (r : Outcome × Run W) : Type 0 where
    unresolved :
        (n : String)
        → contains names n ≡ true
        → engine.direct_dependencies n ≡ none
        → r.1.log ≡ []
        → r.0 ≡ failed cannot_resolve
        → Finished r
    on_its_own :
        (graph : DependencyGraph) (path : List String)
        → Extends engine.direct_dependencies names [] graph
        → IsWalk graph path
        → starts_at root path ≡ true
        → has_repeat path ≡ true
        → r.1.log ≡ started root ∷ []
        → Finished r
    in_order :
        (graph : DependencyGraph)
        → Extends engine.direct_dependencies names [] graph
        → Completed graph r
        → is_stuck r.0 ≡ false
        → Finished r

  fresh_run : W → Run W
  fresh_run w = record { world = w; memo = []; log = [] }

  after_search :
      (graph : DependencyGraph) (w : W) (search : Search)
      → Extends engine.direct_dependencies names [] graph
      → IsClosed graph names root
      → contains names root ≡ true
      → Ends graph names root (str_eq root) [] search
      → Finished (elim search as (λ _. Outcome × Run W) [
        | cyclic path ↦ start_root engine ticks root (done, fresh_run w)
        | search_out_of_fuel ↦ (failed out_of_fuel, fresh_run w)
        | acyclic state ↦ start_root engine ticks root (
            satisfy_each engine ticks
              (start_dependency_node engine ticks fuel graph)
              (dependencies graph root)
              (fresh_run w))
      ])
  unfolding fresh_run
  after_search graph w (cyclic path) ext closed known (walk, starts, again) =
      on_its_own graph path ext walk starts again alone
    where
      alone : (start_root engine ticks root (done, fresh_run w)).1.log ≡ started root ∷ []
      alone =
          unfold start_root in
          elim (Bool-cases (engine.start_instance root w).0) [
            | inl good ↦ ground (arith, good)
            | inr bad ↦ ground (arith, bad)
          ]
  after_search graph w search_out_of_fuel ext closed known h = absurd h
  after_search graph w (acyclic state) ext closed known (grown, ranked, here) =
      let run = fresh_run w in
      let (completed, unstuck) =
        start_root-Completed graph run
          (satisfy_each engine ticks (start_dependency_node engine ticks fuel graph)
            (dependencies graph root) run)
          (satisfy_root graph state run closed ranked grown (here root (str_eq_refl root)) known
            refl refl) in
      in_order graph ext completed unstuck

  after_resolve :
      (w : W) (answer : Resolved)
      → HasNamedAnswers engine.direct_dependencies names
      → contains names root ≡ true
      → EndsFor engine.direct_dependencies names (str_eq root) [] answer
      → Finished (elim answer as (λ _. Outcome × Run W) [
        | resolve_failed ↦ (failed cannot_resolve, fresh_run w)
        | resolve_out_of_fuel ↦ (failed out_of_fuel, fresh_run w)
        | resolved graph ↦ elim (dependency_graph_cycle fuel root graph) as (λ _. Outcome × Run W) [
          | cyclic path ↦ start_root engine ticks root (done, fresh_run w)
          | search_out_of_fuel ↦ (failed out_of_fuel, fresh_run w)
          | acyclic state ↦ start_root engine ticks root (
              satisfy_each engine ticks
                (start_dependency_node engine ticks fuel graph)
                (dependencies graph root)
                (fresh_run w))
        ]
      ])
  unfolding fresh_run
  after_resolve w resolve_failed closed known (n, named, broken) =
      unresolved n named broken refl refl
  after_resolve w resolve_out_of_fuel closed known h = absurd h
  after_resolve w (resolved graph) closed known (ext, found) =
      let inside = graph_closed graph closed ext in
      after_search graph w (dependency_graph_cycle fuel root graph) ext inside known
        (dependency_graph_cycle-Ends graph names root inside known)

  -- startWithDependencies ends, with fuel for one more than the number of names that the provider's
  -- answers reach, and in one of three ways. The provider fails for one of these names: then nothing is
  -- started. The provider's graph has a cycle that the root reaches: then the root alone is asked to
  -- start. Or every dependency is asked to start at most once and only after each of its own
  -- dependencies has met its condition, as the status that the provider last gave of it shows, and the
  -- root last, only after all of its dependencies have; then no start waits for itself.
  pub start_with_dependencies-Finished :
      (w : W)
      → HasNamedAnswers engine.direct_dependencies names
      → contains names root ≡ true
      → Finished (start_with_dependencies engine ticks fuel root w)
  unfolding start_with_dependencies fresh_run
  start_with_dependencies-Finished w closed known =
      after_resolve w (resolve_dependency_graph fuel engine.direct_dependencies root []) closed
        known (resolve_dependency_graph-EndsFor engine.direct_dependencies names closed root known)
