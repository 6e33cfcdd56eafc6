-- ===== src/Dependencies/Visit.antt =====
-- One visit of the search, from its invariant.
use sablier.Dependencies.Graph.{
  IsWalk, starts_at, missing_names, has_dependency, ends_at-append, has_key_after_insert,
  append-IsWalk, starts_at-append, missing_names-insert,
}
use sablier.Dependencies.Cycle.{IsClosed, Ranked, Ends, IsTrail, visit_each-Ends}
use sablier.Dependencies.{
  DependencyGraph, finish_visit, visit, Colour, Search, visiting, dependencies, visited, cyclic,
  acyclic, search_out_of_fuel, visit_each,
}
use sablier.Prelude.{
  [], ◌∷◌, some, true, false, inl, inr, arith, suc, zero, ℕ, List, String, Map, has_key, contains,
  lookup, ◌≡◌, ◌++◌, insert, lookup-insert, ◌<◌, str_eq, if◌then◌else◌, eq_iff, contains-append,
  ◌+◌, has_key-lookup, Bool-cases, str_eq_refl,
}

module _ (graph : DependencyGraph) (names : List String) (root : String) where
  -- The node that is finished ranks above all that were finished before.
  finish_Ranked :
      (node : String) (state : Map Colour)
      → Ranked graph names root state
      → lookup node state ≡ some visiting
      → ((d : String)
          → has_dependency (dependencies graph node) d ≡ true
          → lookup d state ≡ some visited)
      → Ranked graph names root (insert node visited state)
  finish_Ranked node state ranked busy done = record {
    rank = λ n. if str_eq node n then ranked.top else ranked.rank n;
    top = ranked.top + 1;
    ranked_below =
        λ n here. ground (arith, here, lookup-insert node n visited state, ranked.ranked_below n);
    descends = λ n d here dep. elim (Bool-cases (str_eq node n)) [
      | inl this ↦
          let below_it = done d (ground (arith, dep, eq_iff node n, this)) in
          (
            ground (arith, lookup-insert node d visited state, below_it),
            ground (arith, this, below_it, busy, eq_iff node d, ranked.ranked_below d below_it),
          )
      | inr other ↦
          let old : lookup n state ≡ some visited =
            ground (arith, here, other, lookup-insert node n visited state) in
          let (was, lower) = ranked.descends n d old dep in
          (
            ground (arith, lookup-insert node d visited state, was),
            ground (arith, other, was, busy, eq_iff node d, lower),
          )
    ];
  }

  finish_Ends :
      (node : String) (state : Map Colour) (r : Search)
      → has_key node state ≡ false
      → Ends graph names root
          (has_dependency (dependencies graph node))
          (insert node visiting state)
          r
      → Ends graph names root (str_eq node) state (finish_visit node r)
  unfolding finish_visit
  finish_Ends node state (cyclic p) fresh h = h
  finish_Ends node state search_out_of_fuel fresh h = h
  finish_Ends node state (acyclic new) fresh (grown, ranked, done) =
      let busy : lookup node new ≡ some visiting = ground (
        arith,
        grown.kept node,
        has_key_after_insert node node visiting state,
        str_eq_refl node,
        lookup-insert node node visiting state,
      ) in
      (
        record {
          kept = λ k held. ground (
            arith,
            held,
            fresh,
            eq_iff node k,
            lookup-insert node k visited new,
            grown.kept k,
            has_key_after_insert node k visiting state,
            lookup-insert node k visiting state,
          );
          finished = λ k unknown found. ground (
            arith,
            unknown,
            found,
            lookup-insert node k visited new,
            grown.finished k,
            has_key_after_insert node k visiting state,
            has_key_after_insert node k visited new,
          );
        },
        finish_Ranked node new ranked busy done,
        λ n this. ground (arith, this, lookup-insert node n visited new),
      )

  open_Ranked :
      (node : String) (state : Map Colour)
      → has_key node state ≡ false
      → Ranked graph names root state
      → Ranked graph names root (insert node visiting state)
  open_Ranked node state fresh ranked = record {
    rank = ranked.rank;
    top = ranked.top;
    ranked_below =
        λ n here. ground (arith, here, lookup-insert node n visiting state, ranked.ranked_below n);
    descends = λ n d here dep.
        let old : lookup n state ≡ some visited =
          ground (arith, here, lookup-insert node n visiting state) in
        let (was, lower) = ranked.descends n d old dep in
        (
          ground (
            arith,
            was,
            fresh,
            eq_iff node d,
            has_key-lookup node state,
            lookup-insert node d visiting state,
          ),
          lower,
        );
  }

  open_IsTrail :
      (path : List String) (node : String) (state : Map Colour)
      → IsWalk graph (path ++ node ∷ [])
      → starts_at root (path ++ node ∷ []) ≡ true
      → ((n : String) → lookup n state ≡ some visiting → contains path n ≡ true)
      → IsTrail graph names root (path ++ node ∷ []) node (insert node visiting state)
  open_IsTrail path node state walk starts open_nodes = record {
    walk = walk;
    starts = starts;
    ends = ends_at-append path node;
    open_nodes = λ n busy. ground (
      arith,
      busy,
      lookup-insert node n visiting state,
      open_nodes n,
      contains-append path (node ∷ []) n,
      eq_iff node n,
    );
  }

  pub visit-Ends :
      IsClosed graph names root
      → (fuel : ℕ) (path : List String) (node : String) (state : Map Colour)
      → contains names node ≡ true
      → missing_names names state < fuel
      → IsWalk graph (path ++ node ∷ [])
      → starts_at root (path ++ node ∷ []) ≡ true
      → ((n : String) → lookup n state ≡ some visiting → contains path n ≡ true)
      → has_key node state ≡ false
      → Ranked graph names root state
      → Ends graph names root (str_eq node) state (visit fuel graph path node state)
  unfolding visit
  visit-Ends closed zero path node state known enough walk starts open_nodes fresh ranked =
      absurd (omega (arith, enough))
  visit-Ends closed (suc fuel) path node state known enough walk starts open_nodes fresh ranked =
      let path' = path ++ node ∷ [] in
      let state' = insert node visiting state in
      finish_Ends node state
        (visit_each (visit fuel graph path') path' (dependencies graph node) state') fresh
        (visit_each-Ends graph names root fuel (visit fuel graph path') path' node
          (λ n next known' enough' trail dep fresh' ranked'.
            visit-Ends closed fuel path' n next known' enough'
              (append-IsWalk graph path' node n trail.walk trail.ends dep)
              (starts_at-append path' root n trail.starts) trail.open_nodes fresh' ranked')
          (dependencies graph node) state' (λ n dep. (closed node n known dep, dep))
          (omega (arith, missing_names-insert names node visiting state known fresh, enough))
          (open_IsTrail path node state walk starts open_nodes)
          (open_Ranked node state fresh ranked))
