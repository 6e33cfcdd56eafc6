-- ===== src/Dependencies/Cycle.antt =====
-- The invariant of the depth-first search for a cycle.
use sablier.Dependencies.Graph.{
  IsWalk, IsBelow, has_dependency, starts_at, missing_names, has_repeat, ends_at, missing_names-le,
  append-IsWalk, starts_at-append, has_repeat-append,
}
use sablier.Dependencies.{
  DependencyGraph, Colour, visit_each, visiting, Search, visited, InstanceDependency, dependencies,
  cyclic, acyclic, search_out_of_fuel,
}
use sablier.Prelude.{
  [], ◌∷◌, some, none, true, false, inl, inr, refl, arith, ℕ, Option, List, ◌≡◌, String, ◌⊎◌, Map,
  Bool, contains, lookup, has_key, ◌∙◌, Bool-cases, has_key-lookup, sym, ◌<◌, str_eq, str_eq_refl,
  eq_iff,
}

Colour-cases : (c : Option Colour) → (c ≡ none) ⊎ ((c ≡ some visiting) ⊎ (c ≡ some visited))
Colour-cases none = inl refl
Colour-cases (some visiting) = inr (inl refl)
Colour-cases (some visited) = inr (inr refl)

module _ (graph : DependencyGraph) (names : List String) (root : String) where
  -- Every dependency of a visited node is visited and ranks below it.
  pub record Ranked (state : Map Colour) : Type 0 where
    pub rank : String → ℕ
    pub top : ℕ
    pub ranked_below : (n : String) → lookup n state ≡ some visited → rank n < top
    pub descends :
        (n d : String)
        → lookup n state ≡ some visited
        → has_dependency (dependencies graph n) d ≡ true
        → (lookup d state ≡ some visited) × (rank d < rank n)

  -- Colours are kept, and what gets one is visited.
  pub record Grown (old new : Map Colour) : Type 0 where
    pub kept : (k : String) → has_key k old ≡ true → lookup k new ≡ lookup k old
    pub finished :
        (k : String) → has_key k old ≡ false → has_key k new ≡ true → lookup k new ≡ some visited

  abbrev pub Ends : (String → Bool) → Map Colour → Search → Type 0
  Ends asked old (cyclic p) = IsWalk graph p × (starts_at root p ≡ true) × (has_repeat p ≡ true)
  Ends asked old (acyclic new) =
      Grown old new × Ranked new × ((n : String) → asked n ≡ true → lookup n new ≡ some visited)
  Ends asked old search_out_of_fuel = ⊥

  -- The path to the node that is visited, which has every node that is being visited.
  pub record IsTrail (path : List String) (node : String) (state : Map Colour) : Type 0 where
    pub walk : IsWalk graph path
    pub starts : starts_at root path ≡ true
    pub ends : ends_at node path ≡ true
    pub open_nodes : (n : String) → lookup n state ≡ some visiting → contains path n ≡ true

  pub below : {old new : Map Colour} → Grown old new → IsBelow old new
  below {old} {new} grown k held =
      ground (arith, has_key-lookup k old, has_key-lookup k new, grown.kept k held, held)

  trans_Grown : {a b c : Map Colour} → Grown a b → Grown b c → Grown a c
  trans_Grown {a} {b} {c} ab bc = record {
    kept = λ k held. bc.kept k (below ab k held) ∙ ab.kept k held;
    finished = λ k fresh found. elim (Bool-cases (has_key k b)) [
      | inl early ↦ bc.kept k early ∙ ab.finished k fresh early
      | inr late ↦ bc.finished k late found
    ];
  }

  refl_Grown : (state : Map Colour) → Grown state state
  refl_Grown state = record {
    kept = λ k held. refl;
    finished = λ k fresh found. absurd (ground (arith, fresh, found));
  }

  pub Grown-IsTrail :
      {path : List String} {node : String} {old new : Map Colour}
      → IsTrail path node old
      → Grown old new
      → IsTrail path node new
  Grown-IsTrail {path} {node} {old} {new} trail grown = record {
    walk = trail.walk;
    starts = trail.starts;
    ends = trail.ends;
    open_nodes = λ n busy. elim (Bool-cases (has_key n old)) [
      | inl early ↦ trail.open_nodes n (sym (grown.kept n early) ∙ busy)
      | inr late ↦ absurd (ground (arith, busy, has_key-lookup n new, grown.finished n late))
    ];
  }

  continue_each :
      (visit_node : String → Map Colour → Search) (path : List String) (dep : InstanceDependency)
      (deps : List InstanceDependency) (state : Map Colour) (r : Search)
      → Ends (str_eq dep.name) state r
      → ((next : Map Colour)
          → Grown state next
          → Ranked next
          → Ends (has_dependency deps) next (visit_each visit_node path deps next))
      → Ends (has_dependency (dep ∷ deps)) state (elim r as (λ _. Search) [
        | cyclic p ↦ cyclic p
        | acyclic next ↦ visit_each visit_node path deps next
        | search_out_of_fuel ↦ search_out_of_fuel
      ])
  continue_each visit_node path dep deps state (cyclic p) h rest = h
  continue_each visit_node path dep deps state search_out_of_fuel h rest = h
  continue_each visit_node path dep deps state (acyclic next) (grown, ranked, found) rest =
      join (visit_each visit_node path deps next) (rest next grown ranked)
    where
      join :
          (r : Search)
          → Ends (has_dependency deps) next r
          → Ends (has_dependency (dep ∷ deps)) state r
      join (cyclic p) h = h
      join search_out_of_fuel h = h
      join (acyclic last) (grown', ranked', found') = (
        trans_Grown grown grown',
        ranked',
        λ n asked. elim (Bool-cases (str_eq dep.name n)) [
          | inl this ↦
              grown'.kept n (ground (arith, found n this, has_key-lookup n next)) ∙ found n this
          | inr other ↦ found' n (ground (arith, asked, other))
        ],
      )

  pub visit_each-Ends :
      (fuel : ℕ) (visit_node : String → Map Colour → Search) (path : List String) (node : String)
      → ((n : String) (state : Map Colour)
          → contains names n ≡ true
          → missing_names names state < fuel
          → IsTrail path node state
          → has_dependency (dependencies graph node) n ≡ true
          → has_key n state ≡ false
          → Ranked state
          → Ends (str_eq n) state (visit_node n state))
      → (deps : List InstanceDependency) (state : Map Colour)
      → ((n : String)
          → has_dependency deps n ≡ true
          → (contains names n ≡ true) × (has_dependency (dependencies graph node) n ≡ true))
      → missing_names names state < fuel
      → IsTrail path node state
      → Ranked state
      → Ends (has_dependency deps) state (visit_each visit_node path deps state)
  unfolding visit_each
  visit_each-Ends fuel visit_node path node step [] state known enough trail ranked =
      (refl_Grown state, ranked, λ n asked. cc)
  visit_each-Ends fuel visit_node path node step (dep ∷ deps) state known enough trail ranked =
      let here = known dep.name (ground (arith, str_eq_refl dep.name)) in
      let later =
        λ (n : String) (asked : has_dependency deps n ≡ true). known n (ground (arith, asked)) in
      let rest = λ (next : Map Colour) (grown : Grown state next) (ranked' : Ranked next).
        visit_each-Ends fuel visit_node path node step deps next later
          (omega (arith, missing_names-le names state next (below grown), enough))
          (Grown-IsTrail trail grown) ranked' in
      elim (Colour-cases (lookup dep.name state)) [
        | inr (inl busy) ↦
            rw (busy, visit_each)
              (
                append-IsWalk graph path node dep.name trail.walk trail.ends here.1,
                starts_at-append path root dep.name trail.starts,
                has_repeat-append path dep.name (trail.open_nodes dep.name busy),
              )
        | inr (inr done) ↦
            rw (done, visit_each)
              (continue_each visit_node path dep deps state (acyclic state)
                (refl_Grown state, ranked, λ n this. ground (arith, eq_iff dep.name n, this, done))
                rest)
        | inl fresh ↦
            rw (fresh, visit_each)
              (continue_each visit_node path dep deps state (visit_node dep.name state)
                (step dep.name state here.0 enough trail here.1
                  (ground (arith, fresh, has_key-lookup dep.name state)) ranked)
                rest)
      ]

  -- The names of the graph are among `names`.
  abbrev pub IsClosed : Type 0
  IsClosed =
      (n d : String)
      → contains names n ≡ true
      → has_dependency (dependencies graph n) d ≡ true
      → contains names d ≡ true
