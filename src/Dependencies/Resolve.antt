-- ===== src/Dependencies/Resolve.antt =====
-- The graph that the program builds from the provider's answers.
use sablier.Dependencies.Graph.{
  IsBelow, missing_names, has_dependency, has_key_after_insert, missing_names-le,
  missing_names-insert,
}
use sablier.Dependencies.{
  InstanceDependency, DependencyGraph, resolve_each, resolve_dependency_graph, Resolved, resolved,
  resolve_failed, resolve_out_of_fuel,
}
use sablier.Prelude.{
  [], ◌∷◌, some, none, true, false, inl, inr, refl, arith, suc, zero, ℕ, String, Option, List, Bool,
  contains, has_key, ◌≡◌, ◌∙◌, lookup, has_key-lookup, Bool-cases, insert, str_eq, ◌<◌, length,
  str_eq_refl, eq_iff, lookup-insert, Option-cases,
}

module _ (provider : String → Option (List InstanceDependency)) (names : List String) where
  -- The entries of `old` are kept, and every new entry is the provider's answer, all of it known.
  pub record Extends (old new : DependencyGraph) : Type 0 where
    pub kept : (k : String) → has_key k old ≡ true → lookup k new ≡ lookup k old
    pub answered :
        (k : String)
        → has_key k old ≡ false
        → has_key k new ≡ true
        → (deps : List InstanceDependency) × (provider k ≡ some deps)
          × (lookup k new ≡ some deps)
          × ((n : String) → has_dependency deps n ≡ true → has_key n new ≡ true)

  -- How a walk from the graph `old` ends that was asked for some names.
  abbrev pub EndsFor : (String → Bool) → DependencyGraph → Resolved → Type 0
  EndsFor asked old (resolved new) =
      Extends old new × ((n : String) → asked n ≡ true → has_key n new ≡ true)
  EndsFor asked old resolve_failed = (n : String) × (contains names n ≡ true) × (provider n ≡ none)
  EndsFor asked old resolve_out_of_fuel = ⊥

  below : {old new : DependencyGraph} → Extends old new → IsBelow old new
  below {old} {new} ext k held =
      ground (arith, has_key-lookup k old, has_key-lookup k new, ext.kept k held, held)

  trans_Extends : {a b c : DependencyGraph} → Extends a b → Extends b c → Extends a c
  trans_Extends {a} {b} {c} ab bc = record {
    kept = λ k held. bc.kept k (below ab k held) ∙ ab.kept k held;
    answered = λ k fresh found. elim (Bool-cases (has_key k b)) [
      | inl early ↦
          let (deps, said, entry, closed) = ab.answered k fresh early in
          (deps, said, bc.kept k early ∙ entry, λ n dep. below bc n (closed n dep))
      | inr late ↦ bc.answered k late found
    ];
  }

  refl_Extends : (g : DependencyGraph) → Extends g g
  refl_Extends g = record {
    kept = λ k held. refl;
    answered = λ k fresh found. absurd (ground (arith, fresh, found));
  }

  -- An entry that is put in before its dependencies are walked.
  insert-Extends :
      (name : String) (deps : List InstanceDependency) (old new : DependencyGraph)
      → has_key name old ≡ false
      → provider name ≡ some deps
      → Extends (insert name deps old) new
      → ((n : String) → has_dependency deps n ≡ true → has_key n new ≡ true)
      → Extends old new
  insert-Extends name deps old new fresh said ext closed = record {
    kept = λ k held. ground (
      arith,
      ext.kept k,
      has_key_after_insert name k deps old,
      lookup-insert name k deps old,
      eq_iff name k,
      fresh,
      held,
    );
    answered = λ k unknown found. elim (Bool-cases (str_eq name k)) [
      | inl this ↦ (
        deps,
        ground (arith, eq_iff name k, this, said),
        ground (
          arith,
          ext.kept k,
          has_key_after_insert name k deps old,
          lookup-insert name k deps old,
          this,
        ),
        closed,
      )
      | inr other ↦
          ext.answered k (ground (arith, has_key_after_insert name k deps old, other, unknown))
            found
    ];
  }

  continue_each :
      (resolve : String → DependencyGraph → Resolved) (dep : InstanceDependency)
      (deps : List InstanceDependency) (g : DependencyGraph) (r : Resolved)
      → EndsFor (str_eq dep.name) g r
      → ((g' : DependencyGraph)
          → Extends g g'
          → EndsFor (has_dependency deps) g' (resolve_each resolve deps g'))
      → EndsFor (has_dependency (dep ∷ deps)) g (elim r as (λ _. Resolved) [
        | resolved next ↦ resolve_each resolve deps next
        | resolve_failed ↦ resolve_failed
        | resolve_out_of_fuel ↦ resolve_out_of_fuel
      ])
  continue_each resolve dep deps g resolve_failed h rest = h
  continue_each resolve dep deps g resolve_out_of_fuel h rest = h
  continue_each resolve dep deps g (resolved next) (ext, found) rest =
      join (resolve_each resolve deps next) (rest next ext)
    where
      join :
          (r : Resolved)
          → EndsFor (has_dependency deps) next r
          → EndsFor (has_dependency (dep ∷ deps)) g r
      join (resolved last) (ext', found') = (
        trans_Extends ext ext',
        λ n asked. elim (Bool-cases (str_eq dep.name n)) [
          | inl this ↦ below ext' n (found n this)
          | inr other ↦ found' n (ground (arith, asked, other))
        ],
      )
      join resolve_failed h = h
      join resolve_out_of_fuel h = h

  resolve_each-EndsFor :
      (fuel : ℕ) (resolve : String → DependencyGraph → Resolved)
      → ((n : String) (g : DependencyGraph)
          → contains names n ≡ true
          → missing_names names g < fuel
          → EndsFor (str_eq n) g (resolve n g))
      → (deps : List InstanceDependency) (g : DependencyGraph)
      → ((n : String) → has_dependency deps n ≡ true → contains names n ≡ true)
      → missing_names names g < fuel
      → EndsFor (has_dependency deps) g (resolve_each resolve deps g)
  unfolding resolve_each
  resolve_each-EndsFor fuel resolve step [] g known enough = (refl_Extends g, λ n asked. cc)
  resolve_each-EndsFor fuel resolve step (dep ∷ deps) g known enough =
      continue_each resolve dep deps g (resolve dep.name g)
        (step dep.name g (known dep.name (ground (arith, str_eq_refl dep.name))) enough)
        (λ g' ext.
          resolve_each-EndsFor fuel resolve step deps g'
            (λ n asked. known n (ground (arith, asked)))
            (omega (arith, missing_names-le names g g' (below ext), enough)))

  -- The names that the provider's answers are about are among `names`.
  abbrev pub HasNamedAnswers : Type 0
  HasNamedAnswers =
      (n : String) (deps : List InstanceDependency)
      → contains names n ≡ true
      → provider n ≡ some deps
      → (d : String) → has_dependency deps d ≡ true
      → contains names d ≡ true

  with_entry :
      (name : String) (deps : List InstanceDependency) (g : DependencyGraph) (r : Resolved)
      → has_key name g ≡ false
      → provider name ≡ some deps
      → EndsFor (has_dependency deps) (insert name deps g) r
      → EndsFor (str_eq name) g r
  with_entry name deps g (resolved new) fresh said (ext, closed) = (
    insert-Extends name deps g new fresh said ext closed,
    λ n asked. below ext n (ground (arith, has_key_after_insert name n deps g, asked)),
  )
  with_entry name deps g resolve_failed fresh said h = h
  with_entry name deps g resolve_out_of_fuel fresh said h = h

  resolve-EndsFor :
      HasNamedAnswers
      → (fuel : ℕ) (name : String) (g : DependencyGraph) → contains names name ≡ true
      → missing_names names g < fuel
      → EndsFor (str_eq name) g (resolve_dependency_graph fuel provider name g)
  unfolding resolve_dependency_graph
  resolve-EndsFor closed zero name g known enough = absurd (omega (arith, enough))
  resolve-EndsFor closed (suc fuel) name g known enough = elim (Bool-cases (has_key name g)) [
    | inl old ↦
        rw (old, resolve_dependency_graph)
          (refl_Extends g, λ n asked. ground (arith, eq_iff name n, asked, old))
    | inr fresh ↦ elim (Option-cases (provider name)) [
      | inl broken ↦ rw (fresh, broken, resolve_dependency_graph) (name, known, broken)
      | inr (deps, said) ↦
          rw (fresh, said, resolve_dependency_graph)
            (with_entry name deps g
              (resolve_each (resolve_dependency_graph fuel provider) deps (insert name deps g))
              fresh said
              (resolve_each-EndsFor fuel (resolve_dependency_graph fuel provider)
                (resolve-EndsFor closed fuel) deps (insert name deps g)
                (closed name deps known said)
                (omega (arith, missing_names-insert names name deps g known fresh, enough))))
    ]
  ]

  length_names : (xs : List String) → missing_names {V = List InstanceDependency} xs [] ≡ length xs
  unfolding has_key
  length_names [] = refl
  length_names (x ∷ xs) = omega (arith, length_names xs)

  -- The resolution of the dependencies of `root` ends, with fuel for one more than the number of names
  -- that the provider's answers reach. It fails only where the provider fails for one of these. Else
  -- the graph has the root, and holds for each of its nodes exactly the provider's answer, whose names
  -- are nodes too.
  pub resolve_dependency_graph-EndsFor :
      HasNamedAnswers
      → (root : String) → contains names root ≡ true
      → EndsFor (str_eq root) [] (resolve_dependency_graph (suc (length names)) provider root [])
  resolve_dependency_graph-EndsFor closed root known =
      resolve-EndsFor closed (suc (length names)) root [] known (omega (arith, length_names names))
