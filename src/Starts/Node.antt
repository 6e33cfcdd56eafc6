-- ===== src/Starts/Node.antt =====
-- One node: its dependencies, then its own start.
use sablier.Dependencies.Graph.{
  has_key_after_insert, has_dependency, missing_names, missing_names-insert, missing_names-le,
}
use sablier.Starts.Log.{has_started, IsOrdered, has_met, is_stuck, is_open, all_met, is_finished}
use sablier.Starts.Order.{
  continue_each, Sound, Later, Post, anything, refl_Later, satisfy_dependency-Post,
}
use sablier.Dependencies.{DependencyGraph, InstanceDependency, dependencies}
use sablier.Starts.{
  Engine, close_result, Run, start_after, Outcome, ensure_dependency_started, Event, failed,
  started, cannot_start, done, satisfy_each, start_dependency_node, satisfy_dependency,
}
use sablier.Prelude.{
  ◌∷◌, some, none, true, false, inl, inr, refl, arith, ℕ, String, insert, lookup, List, ◌≡◌, eq_iff,
  Option, lookup-insert, str_eq, ◌||◌, Bool-cases, ◌∙◌, str_eq_refl, ◌⊎◌, contains, ◌<◌, suc,
  has_key-lookup, zero, sym, [],
}

Entry-cases :
    (entry : Option (Option Outcome))
    → (entry ≡ none) ⊎ ((entry ≡ some none) ⊎ ((o : Outcome) × (entry ≡ some (some o))))
Entry-cases none = inl refl
Entry-cases (some none) = inr (inl refl)
Entry-cases (some (some o)) = inr (inr (o, refl))

module _ {ℓ} {W : Type ℓ} (engine : Engine W) (ticks : ℕ) (graph : DependencyGraph) where
  -- The run in which the start of `node` is asked for.
  abbrev pub opened : String → Run W → Run W
  opened node run = record run { memo = insert node none run.memo }

  open_Sound :
      (node : String) (run : Run W)
      → Sound engine ticks graph run
      → lookup node run.memo ≡ none
      → Sound engine ticks graph (opened node run)
  open_Sound node run sound new = record {
    ordered = sound.ordered;
    finished = λ n h.
        ground (arith, new, eq_iff node n, lookup-insert node n none run.memo, sound.finished n h);
    free = λ n. ground (arith, lookup-insert node n none run.memo, sound.free n);
  }

  -- A finished node leaves the starts that were under way before as they were.
  close_Later :
      (node : String) (run next : Run W) (o : Outcome) (log : List Event) (w : W)
      → lookup node run.memo ≡ none
      → Later engine ticks graph (opened node run) next
      → ((dep : InstanceDependency) → has_met dep next.log ≡ true → has_met dep log ≡ true)
      → Later engine ticks graph run
          (record { world = w; memo = insert node (some o) next.memo; log = log })
  close_Later node run next o log w new later keep = record {
    met_kept = λ dep h. keep dep (later.met_kept dep h);
    opens = λ k. ground (
      arith,
      new,
      eq_iff node k,
      lookup-insert node k (some o) next.memo,
      later.opens k,
      lookup-insert node k none run.memo,
    );
    known = λ k h. ground (
      arith,
      h,
      has_key_after_insert node k (some o) next.memo,
      later.known k,
      has_key_after_insert node k none run.memo,
    );
  }

  close_Sound :
      (node : String) (next : Run W) (o : Outcome) (log : List Event) (w : W)
      → Sound engine ticks graph next
      → IsOrdered graph log
      → is_stuck o ≡ false
      → ((n : String) → has_started n log ≡ true → str_eq node n || has_started n next.log ≡ true)
      → Sound engine ticks graph
          (record { world = w; memo = insert node (some o) next.memo; log = log })
  close_Sound node next o log w sound ordered unstuck only = record {
    ordered = ordered;
    finished =
        λ n h. ground (arith, only n h, sound.finished n, lookup-insert node n (some o) next.memo);
    free = λ n. ground (arith, unstuck, sound.free n, lookup-insert node n (some o) next.memo);
  }

  -- While the start of `node` is under way it is not in the log.
  not_yet :
      (node : String) (run next : Run W)
      → Sound engine ticks graph next
      → Later engine ticks graph (opened node run) next
      → has_started node next.log ≡ false
  not_yet node run next sound later = elim (Bool-cases (has_started node next.log)) [
    | inr no_start ↦ no_start
    | inl early ↦ absurd (
        go (lookup node next.memo)
          (ground
            (arith, later.opens node, lookup-insert node node none run.memo, str_eq_refl node))
          (sound.finished node early))
  ]
    where
      go : (entry : Option (Option Outcome)) → is_open entry ≡ true → is_finished entry ≡ true → ⊥
      go none a b = cc
      go (some none) a b = cc
      go (some (some o)) a b = cc

  close_Post :
      (node : String) (run : Run W) (r : Outcome × Run W)
      → lookup node run.memo ≡ none
      → Post engine ticks graph (all_met (dependencies graph node)) (opened node run) r
      → Post engine ticks graph
          (anything engine ticks graph)
          run
          (close_result engine ticks node (start_after engine ticks node r))
  unfolding close_result start_after ensure_dependency_started
  close_Post node run (failed e, next) new post = record {
    sound =
        close_Sound node next (failed e) next.log next.world post.sound post.sound.ordered
          post.unstuck (λ n h. ground (arith, h));
    later = close_Later node run next (failed e) next.log next.world new post.later (λ dep h. h);
    unstuck = post.unstuck;
    reached = λ h. refl;
  }
  close_Post node run (done, next) new post =
      let w = (engine.start_instance node next.world).1 in
      let log = started node ∷ next.log in
      let late = not_yet node run next post.sound post.later in
      let ordered : IsOrdered graph log = (late, post.reached refl, post.sound.ordered) in
      elim (Bool-cases (engine.is_managed node)) [
        | inl managed ↦ rw managed (record {
          sound =
              close_Sound node next done next.log next.world post.sound post.sound.ordered refl
                (λ n h. ground (arith, h));
          later = close_Later node run next done next.log next.world new post.later (λ dep h. h);
          unstuck = refl;
          reached = λ h. refl;
        })
        | inr own ↦ elim (Bool-cases (engine.start_instance node next.world).0) [
          | inl good ↦
              rw (own, good)
                (record {
                  sound = close_Sound node next done log w post.sound ordered refl (λ n h. h);
                  later = close_Later node run next done log w new post.later (λ dep h. h);
                  unstuck = refl;
                  reached = λ h. refl;
                })
          | inr bad ↦
              rw (own, bad)
                (record {
                  sound =
                      close_Sound node next (failed cannot_start) log w post.sound ordered refl
                        (λ n h. h);
                  later =
                      close_Later node run next (failed cannot_start) log w new post.later
                        (λ dep h. h);
                  unstuck = refl;
                  reached = λ h. refl;
                })
        ]
      ]

  module _ (names : List String) (rank : String → ℕ) where
    -- The names of the graph are among `names`, and each ranks below those that depend on it.
    abbrev pub IsRanked : Type 0
    IsRanked =
        (n d : String)
        → contains names n ≡ true
        → has_dependency (dependencies graph n) d ≡ true
        → (contains names d ≡ true) × (rank d < rank n)

    -- Only starts that rank above `node` are under way.
    abbrev pub IsAbove : String → Run W → Type 0
    IsAbove node run = (k : String) → is_open (lookup k run.memo) ≡ true → rank node < rank k

    below_open :
        (node d : String) (run : Run W)
        → IsAbove node run
        → rank d < rank node
        → IsAbove d (opened node run)
    below_open node d run above lower k is_busy = elim (Bool-cases (str_eq node k)) [
      | inl this ↦ ground (arith, eq_iff node k, this, lower)
      | inr other ↦
          let old : rank node < rank k =
            above k (ground (arith, other, is_busy, lookup-insert node k none run.memo)) in
          omega (arith, old, lower)
    ]

    pub satisfy_each-Post :
        (fuel : ℕ) (start_node : String → Run W → Outcome × Run W)
        → ((n : String) (run : Run W)
            → contains names n ≡ true
            → missing_names names run.memo < fuel
            → Sound engine ticks graph run
            → IsAbove n run
            → Post engine ticks graph (anything engine ticks graph) run (start_node n run))
        → (deps : List InstanceDependency) (run : Run W)
        → ((d : String) → has_dependency deps d ≡ true → (contains names d ≡ true) × IsAbove d run)
        → missing_names names run.memo < fuel
        → Sound engine ticks graph run
        → Post engine ticks graph (all_met deps) run (satisfy_each engine ticks start_node deps run)
    unfolding satisfy_each
    satisfy_each-Post fuel start_node step [] run known enough sound = record {
      sound = sound;
      later = refl_Later engine ticks graph run;
      unstuck = refl;
      reached = λ h. refl;
    }
    satisfy_each-Post fuel start_node step (dep ∷ deps) run known enough sound =
        let (named, above) = known dep.name (ground (arith, str_eq_refl dep.name)) in
        continue_each engine ticks graph start_node dep deps run
          (satisfy_dependency engine ticks start_node dep run)
          (satisfy_dependency-Post engine ticks graph start_node dep run sound
            (step dep.name run named enough sound above))
          (λ next sound' later.
            satisfy_each-Post fuel start_node step deps next
              (λ d asked.
                let (named', above') = known d (ground (arith, asked)) in
                (named', λ k is_busy. above' k (sym (later.opens k) ∙ is_busy)))
              (omega (arith, missing_names-le names run.memo next.memo later.known, enough)) sound')

    -- Starting a node ends, with fuel for the names whose start nobody asked for yet. It keeps the log
    -- in order and never waits for a start that waits for it.
    pub start_dependency_node-Post :
        IsRanked
        → (fuel : ℕ) (node : String) (run : Run W) → contains names node ≡ true
        → missing_names names run.memo < fuel
        → Sound engine ticks graph run
        → IsAbove node run
        → Post engine ticks graph
            (anything engine ticks graph)
            run
            (start_dependency_node engine ticks fuel graph node run)
    unfolding start_dependency_node
    start_dependency_node-Post ranked zero node run named enough sound above =
        absurd (omega (arith, enough))
    start_dependency_node-Post ranked (suc fuel) node run named enough sound above =
        elim (Entry-cases (lookup node run.memo)) [
          | inl new ↦
              rw (new, start_dependency_node)
                (close_Post node run
                  (satisfy_each engine ticks (start_dependency_node engine ticks fuel graph)
                    (dependencies graph node) (opened node run))
                  new
                  (satisfy_each-Post fuel (start_dependency_node engine ticks fuel graph)
                    (start_dependency_node-Post ranked fuel) (dependencies graph node)
                    (opened node run)
                    (λ d dep.
                      let (known, lower) = ranked node d named dep in
                      (known, λ k is_busy. below_open node d run above lower k is_busy))
                    (omega (
                      arith,
                      enough,
                      missing_names-insert names node none run.memo named
                          (ground (arith, new, has_key-lookup node run.memo)),
                    ))
                    (open_Sound node run sound new)))
          | inr (inl busy) ↦ absurd (omega (arith, above node (ground (arith, busy))))
          | inr (inr (o, over)) ↦
              rw (over, start_dependency_node)
                (record {
                  sound = sound;
                  later = refl_Later engine ticks graph run;
                  unstuck = ground (arith, over, sound.free node);
                  reached = λ h. refl;
                })
        ]
