-- ===== src/Prelude/Maps.antt =====
-- A Go map with string keys, as an association list. `range` visits the entries in list order,
-- which stands for any of the orders that Go may choose.
use Prim.Native.String.{String}
use mathlib.Core.Path.{◌≡◌, refl}
use mathlib.Core.Bool.{Bool, true, false, ◌||◌}
use mathlib.Core.List.{List, [], ◌∷◌}
use mathlib.Core.Option.{Option, none, some}
use native.Mathlib.Omega.{arith}
use text.Mathlib.Text.{◌==◌ as str_eq}
use text.Mathlib.TextEquality.{eq_iff}
use mathlib.Core.Logic.{inl, inr}
use sablier.Prelude.Tests.{if◌then◌else◌, Bool-cases}
use sablier.Prelude.Lists.{contains}

abbrev pub Map {ℓ} : Type ℓ → Type ℓ
Map V = List (String × V)

module _ {ℓ} {V : Type ℓ} where
  unfoldable pub lookup : String → Map V → Option V
  lookup key [] = none
  lookup key ((name, entry) ∷ rest) = if str_eq name key then some entry else lookup key rest

  -- `m[k] = v`: an entry that is there keeps its place.
  unfoldable pub insert : String → V → Map V → Map V
  insert key new [] = (key, new) ∷ []
  insert key new ((name, old) ∷ rest) =
      if str_eq name key then (key, new) ∷ rest else (name, old) ∷ insert key new rest

  -- `delete(m, k)`
  unfoldable pub delete : String → Map V → Map V
  delete k [] = []
  delete k ((j, v) ∷ m) = let rest = delete k m in if str_eq j k then rest else (j, v) ∷ rest

  unfoldable pub keys : Map V → List String
  keys [] = []
  keys ((k, v) ∷ m) = k ∷ keys m

  -- `_, ok := m[k]`
  unfoldable pub has_key : String → Map V → Bool
  has_key k [] = false
  has_key k ((j, v) ∷ m) = str_eq j k || has_key k m

  pub lookup-insert :
      (key other : String) (new : V) (m : Map V)
      → lookup other (insert key new m) ≡ (if str_eq key other then some new else lookup other m)
  unfolding lookup insert
  lookup-insert key other new [] = refl
  lookup-insert key other new ((name, old) ∷ rest) = ground (
    arith,
    lookup-insert key other new rest,
    eq_iff key other,
    eq_iff name key,
    eq_iff name other,
  )

  pub lookup-delete :
      (k j : String) (m : Map V) → lookup j (delete k m) ≡ (if str_eq k j then none else lookup j m)
  unfolding lookup delete
  lookup-delete k j [] = ground arith
  lookup-delete k j ((i, v) ∷ m) =
      ground (arith, lookup-delete k j m, eq_iff i k, eq_iff i j, eq_iff k j)

  pub contains-keys : (k : String) (m : Map V) → contains (keys m) k ≡ has_key k m
  unfolding keys has_key
  contains-keys k [] = refl
  contains-keys k ((j, v) ∷ m) = ground (arith, contains-keys k m)

  abbrev pub is_some : Option V → Bool
  is_some none = false
  is_some (some v) = true

  pub has_key-lookup : (k : String) (m : Map V) → has_key k m ≡ is_some (lookup k m)
  unfolding has_key lookup
  has_key-lookup k [] = refl
  has_key-lookup k ((j, v) ∷ m) = ground (arith, has_key-lookup k m)

  -- No key twice, as in every Go map.
  abbrev pub HasUniqueKeys : Map V → Type 0
  HasUniqueKeys [] = Unit {0}
  HasUniqueKeys ((k, v) ∷ m) = (has_key k m ≡ false) × HasUniqueKeys m

  has_key-insert :
      (k j : String) (v : V) (m : Map V) → has_key j (insert k v m) ≡ str_eq k j || has_key j m
  unfolding has_key insert
  has_key-insert k j v [] = refl
  has_key-insert k j v ((i, w) ∷ m) =
      ground (arith, has_key-insert k j v m, eq_iff k j, eq_iff i k, eq_iff i j)

  has_key-delete : (k j : String) (m : Map V) → has_key j m ≡ false → has_key j (delete k m) ≡ false
  unfolding has_key delete
  has_key-delete k j [] h = refl
  has_key-delete k j ((i, w) ∷ m) h = ground (arith, has_key-delete k j m)

  pub insert-HasUniqueKeys :
      (k : String) (v : V) (m : Map V) → HasUniqueKeys m → HasUniqueKeys (insert k v m)
  unfolding insert has_key
  insert-HasUniqueKeys k v [] u = (refl, tt)
  insert-HasUniqueKeys k v ((j, w) ∷ m) u = elim (Bool-cases (str_eq j k)) [
    | inl this ↦ rw (this, insert) (ground (arith, u.0, eq_iff j k), u.1)
    | inr other ↦
        rw (other, insert)
          (
            ground (arith, u.0, has_key-insert k j v m, eq_iff k j, eq_iff j k),
            insert-HasUniqueKeys k v m u.1,
          )
  ]

  pub delete-HasUniqueKeys : (k : String) (m : Map V) → HasUniqueKeys m → HasUniqueKeys (delete k m)
  unfolding delete has_key
  delete-HasUniqueKeys k [] u = tt
  delete-HasUniqueKeys k ((j, w) ∷ m) u = elim (Bool-cases (str_eq j k)) [
    | inl this ↦ rw (this, delete) (delete-HasUniqueKeys k m u.1)
    | inr other ↦ rw (other, delete) (has_key-delete k j m u.0, delete-HasUniqueKeys k m u.1)
  ]

pub ruleset map_laws = (lookup-insert, lookup-delete)
