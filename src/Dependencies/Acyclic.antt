-- ===== src/Dependencies/Acyclic.antt =====
-- What the answer of the search says.
use sablier.Dependencies.Visit.{visit-Ends}
use sablier.Dependencies.Graph.{missing_names, IsWalk, starts_at, has_repeat}
use sablier.Dependencies.Cycle.{Ends, IsClosed, Ranked}
use sablier.Dependencies.{
  DependencyGraph, Search, dependency_graph_cycle, Colour, cyclic, visited, acyclic,
  search_out_of_fuel,
}
use sablier.Prelude.{
  [], ◌∷◌, some, none, true, false, inl, inr, refl, arith, suc, List, String, Map, has_key, lookup,
  str_eq, ◌≡◌, contains, length, ◌<◌, str_eq_refl, Bool-cases, eq_iff,
}

module _ (graph : DependencyGraph) (names : List String) (root : String) where
  -- From a visited node a walk only goes down.
  walk_descends :
      (state : Map Colour)
      → (ranked : Ranked graph names root state) (x : String) (rest : List String)
      → lookup x state ≡ some visited
      → IsWalk graph (x ∷ rest)
      → (y : String) → contains rest y ≡ true
      → ranked.rank y < ranked.rank x
  walk_descends state ranked x [] here walk y held = cc
  walk_descends state ranked x (z ∷ rest) here walk y held =
      let (next, lower) = ranked.descends x z here walk.0 in
      elim (Bool-cases (str_eq z y)) [
        | inl this ↦ ground (arith, eq_iff z y, this, lower)
        | inr other ↦
            let deeper =
              walk_descends state ranked z rest next walk.1 y (ground (arith, held, other)) in
            omega (arith, deeper, lower)
      ]

  no_repeat :
      (state : Map Colour)
      → (ranked : Ranked graph names root state) (x : String) (rest : List String)
      → lookup x state ≡ some visited
      → IsWalk graph (x ∷ rest)
      → has_repeat (x ∷ rest) ≡ false
  no_repeat state ranked x [] here walk = refl
  no_repeat state ranked x (z ∷ rest) here walk =
      let tail = no_repeat state ranked z rest (ranked.descends x z here walk.0).0 walk.1 in
      elim (Bool-cases (contains (z ∷ rest) x)) [
        | inl again ↦
            absurd (omega (arith, walk_descends state ranked x (z ∷ rest) here walk x again))
        | inr once ↦ ground (arith, once, tail)
      ]

  -- What the answer of the search says of the graph.
  abbrev pub Answers : Search → Type 0
  Answers (cyclic p) = IsWalk graph p × (starts_at root p ≡ true) × (has_repeat p ≡ true)
  Answers (acyclic state) =
      (p : List String) → IsWalk graph p → starts_at root p ≡ true → has_repeat p ≡ false
  Answers search_out_of_fuel = ⊥

  all_down :
      (state : Map Colour)
      → Ranked graph names root state
      → lookup root state ≡ some visited
      → (p : List String) → IsWalk graph p
      → starts_at root p ≡ true
      → has_repeat p ≡ false
  all_down state ranked here [] walk starts = refl
  all_down state ranked here (x ∷ rest) walk starts =
      no_repeat state ranked x rest (ground (arith, eq_iff x root, starts, here)) walk

  answer : (r : Search) → Ends graph names root (str_eq root) [] r → Answers r
  answer (cyclic p) h = h
  answer search_out_of_fuel h = h
  answer (acyclic state) (grown, ranked, done) =
      all_down state ranked (done root (str_eq_refl root))

  length_names : (xs : List String) → missing_names {V = Colour} xs [] ≡ length xs
  unfolding has_key
  length_names [] = refl
  length_names (x ∷ xs) = omega (arith, length_names xs)

  no_colour : (n : String) → lookup {V = Colour} n [] ≡ none
  unfolding lookup
  no_colour n = refl

  no_key : (n : String) → has_key {V = Colour} n [] ≡ false
  unfolding has_key
  no_key n = refl

  pub dependency_graph_cycle-Ends :
      IsClosed graph names root
      → contains names root ≡ true
      → Ends graph names root
          (str_eq root)
          []
          (dependency_graph_cycle (suc (length names)) root graph)
  unfolding dependency_graph_cycle
  dependency_graph_cycle-Ends closed known =
      visit-Ends graph names root closed (suc (length names)) [] root [] known
        (omega (arith, length_names names)) tt (str_eq_refl root)
        (λ n busy. absurd (ground (arith, busy, no_colour n))) (no_key root)
        (record {
          rank = λ n. 0;
          top = 0;
          ranked_below = λ n here. absurd (ground (arith, here, no_colour n));
          descends = λ n d here dep. absurd (ground (arith, here, no_colour n));
        })

  -- The search ends, with fuel for one more than the number of names in the graph. If it reports a
  -- cycle, its path is a walk along dependencies from the root that meets a node twice. If it reports
  -- none, no such walk from the root exists.
  pub dependency_graph_cycle-Answers :
      IsClosed graph names root
      → contains names root ≡ true
      → Answers (dependency_graph_cycle (suc (length names)) root graph)
  dependency_graph_cycle-Answers closed known =
      answer (dependency_graph_cycle (suc (length names)) root graph)
        (dependency_graph_cycle-Ends closed known)
