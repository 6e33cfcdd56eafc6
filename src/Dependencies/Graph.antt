-- ===== src/Dependencies/Graph.antt =====
-- Walks in a dependency graph, and counts of the names that are not yet in a map.
use sablier.Dependencies.{DependencyGraph, InstanceDependency, dependencies}
use sablier.Prelude.{
  [], ◌∷◌, true, false, inl, inr, arith, ℕ, List, String, Map, Bool, ◌≡◌, ◌++◌, contains,
  if◌then◌else◌, has_key, ◌≤◌, str_eq, ◌||◌, eq_iff, str_eq_refl, ◌+◌, insert, contains-append,
  has_key-lookup, ◌<◌, lookup-insert, Bool-cases,
}

abbrev pub has_dependency : List InstanceDependency → String → Bool
has_dependency [] name = false
has_dependency (dep ∷ deps) name = str_eq dep.name name || has_dependency deps name

-- Each node of the walk depends on the next one.
abbrev pub IsWalk : DependencyGraph → List String → Type 0
IsWalk graph [] = Unit {0}
IsWalk graph (x ∷ []) = Unit {0}
IsWalk graph (x ∷ y ∷ rest) =
    (has_dependency (dependencies graph x) y ≡ true) × IsWalk graph (y ∷ rest)

-- Some node occurs twice.
abbrev pub has_repeat : List String → Bool
has_repeat [] = false
has_repeat (x ∷ xs) = contains xs x || has_repeat xs

abbrev pub starts_at : String → List String → Bool
starts_at root [] = false
starts_at root (x ∷ xs) = str_eq x root

abbrev pub ends_at : String → List String → Bool
ends_at node [] = false
ends_at node (x ∷ []) = str_eq x node
ends_at node (x ∷ y ∷ rest) = ends_at node (y ∷ rest)

pub append-IsWalk :
    (graph : DependencyGraph) (path : List String) (x y : String)
    → IsWalk graph path
    → ends_at x path ≡ true
    → has_dependency (dependencies graph x) y ≡ true
    → IsWalk graph (path ++ y ∷ [])
append-IsWalk graph [] x y walk ends edge = tt
append-IsWalk graph (a ∷ []) x y walk ends edge = (ground (arith, eq_iff a x, ends, edge), tt)
append-IsWalk graph (a ∷ b ∷ rest) x y walk ends edge =
    (walk.0, append-IsWalk graph (b ∷ rest) x y walk.1 ends edge)

pub ends_at-append : (path : List String) (y : String) → ends_at y (path ++ y ∷ []) ≡ true
ends_at-append [] y = str_eq_refl y
ends_at-append (a ∷ []) y = str_eq_refl y
ends_at-append (a ∷ b ∷ rest) y = ends_at-append (b ∷ rest) y

pub starts_at-append :
    (path : List String) (root y : String)
    → starts_at root path ≡ true
    → starts_at root (path ++ y ∷ []) ≡ true
starts_at-append [] root y h = cc
starts_at-append (a ∷ rest) root y h = h

pub has_repeat-append :
    (path : List String) (y : String) → contains path y ≡ true → has_repeat (path ++ y ∷ []) ≡ true
has_repeat-append [] y h = cc
has_repeat-append (a ∷ rest) y h =
    ground
      (arith, eq_iff a y, str_eq_refl y, contains-append rest (y ∷ []) a, has_repeat-append rest y)

-- How many of the names are no keys of the map.
abbrev pub missing_names {ℓ} : {V : Type ℓ} → List String → Map V → ℕ
missing_names [] m = 0
missing_names (name ∷ names) m =
    let rest = missing_names names m in if has_key name m then rest else rest + 1

-- The keys of one map are keys of another.
abbrev pub IsBelow {ℓ} : {V : Type ℓ} → Map V → Map V → Type 0
IsBelow m n = (key : String) → has_key key m ≡ true → has_key key n ≡ true

pub missing_names-le {ℓ} :
    {V : Type ℓ} (names : List String) (m n : Map V)
    → IsBelow m n
    → missing_names names n ≤ missing_names names m
missing_names-le [] m n below = omega arith
missing_names-le (name ∷ names) m n below =
    ground (arith, missing_names-le names m n below, below name)

pub has_key_after_insert {ℓ} :
    {V : Type ℓ} (k j : String) (v : V) (m : Map V)
    → has_key j (insert k v m) ≡ str_eq k j || has_key j m
has_key_after_insert k j v m =
    ground (arith, has_key-lookup j (insert k v m), has_key-lookup j m, lookup-insert k j v m)

pub missing_names-insert {ℓ} :
    {V : Type ℓ} (names : List String) (k : String) (v : V) (m : Map V)
    → contains names k ≡ true
    → has_key k m ≡ false
    → missing_names names (insert k v m) < missing_names names m
missing_names-insert [] k v m held new = cc
missing_names-insert (name ∷ names) k v m held new = elim (Bool-cases (str_eq name k)) [
  | inl this ↦ ground (
    arith,
    this,
    eq_iff name k,
    new,
    has_key_after_insert k name v m,
    str_eq_refl k,
    missing_names-le names m (insert k v m)
        (λ key old. ground (arith, has_key_after_insert k key v m, old)),
  )
  | inr other ↦ ground (
    arith,
    other,
    eq_iff name k,
    eq_iff k name,
    has_key_after_insert k name v m,
    missing_names-insert names k v m,
  )
]
