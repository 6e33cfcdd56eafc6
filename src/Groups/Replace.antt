-- ===== src/Groups/Replace.antt =====
-- Set, and the inverse map.
use sablier.Prelude.{
  ◌≡◌, refl, ◌∙◌, ◌⊎◌, String, true, false, ◌&&◌, ◌||◌, List, [], ◌∷◌, ◌++◌, none, some, arith,
  length, contains, contains-append, Map, lookup, insert, keys, has_key, has_key-lookup,
  contains-keys, HasUniqueKeys, lookup-insert, str_eq, eq_iff, Bool-cases, Option-cases, inl, inr,
  sym, insert-HasUniqueKeys,
}
use sablier.Prelude.Sets.{IsUnique, subset_of_length}
use sablier.Groups.{
  Registry, members, slices_equal, entries_equal, maps_equal, set_groups, invert_group, invert_into,
  instance_snapshot,
}
use sablier.Groups.Member.{is_member}

slices_equal-eq : (xs ys : List String) → slices_equal xs ys ≡ true → xs ≡ ys
unfolding slices_equal
slices_equal-eq [] [] h = refl
slices_equal-eq [] (y ∷ ys) h = cc
slices_equal-eq (x ∷ xs) [] h = cc
slices_equal-eq (x ∷ xs) (y ∷ ys) h = ground (arith, eq_iff x y, slices_equal-eq xs ys)

entries_equal-lookup :
    (r m : Registry)
    → entries_equal r m ≡ true
    → (g : String) (ms : List String) → lookup g r ≡ some ms
    → lookup g m ≡ some ms
unfolding entries_equal lookup
entries_equal-lookup [] m h g ms held = cc
entries_equal-lookup ((k, ns) ∷ r) m h g ms held = elim (Option-cases (lookup k m)) [
  | inl missing ↦ ground arith
  | inr (ls, here) ↦
      ground
        (arith, eq_iff k g, slices_equal-eq ns ls, entries_equal-lookup r m (ground arith) g ms)
]

keys-IsUnique : (r : Registry) → HasUniqueKeys r → IsUnique (keys r)
unfolding keys
keys-IsUnique [] u = tt
keys-IsUnique ((k, ms) ∷ r) u = (contains-keys k r ∙ u.0, keys-IsUnique r u.1)

length-keys : (r : Registry) → length (keys r) ≡ length r
unfolding keys
length-keys [] = refl
length-keys ((k, ms) ∷ r) = omega (arith, length-keys r)

-- `maps_equal` finds two maps equal only if they are.
maps_equal-lookup :
    (r m : Registry)
    → HasUniqueKeys r
    → maps_equal r m ≡ true
    → (g : String) → lookup g r ≡ lookup g m
unfolding maps_equal
maps_equal-lookup r m u h g = elim (Option-cases (lookup g r)) [
  | inr (ms, here) ↦ here ∙ sym (entries_equal-lookup r m entries g ms here)
  | inl missing ↦ elim (Option-cases (lookup g m)) [
    | inl absent ↦ missing ∙ sym absent
    | inr (ms, there) ↦ absurd (
        ground (
          arith,
          same g,
          contains-keys g m,
          contains-keys g r,
          has_key-lookup g m,
          has_key-lookup g r,
        ))
  ]
]
  where
    entries : entries_equal r m ≡ true
    entries = ground arith

    forth : (s : String) → contains (keys r) s ≡ true → contains (keys m) s ≡ true
    forth s held = elim (Option-cases (lookup s r)) [
      | inl none_there ↦ absurd (ground (arith, contains-keys s r, has_key-lookup s r))
      | inr (ms, here) ↦
          ground (
            arith,
            entries_equal-lookup r m entries s ms here,
            contains-keys s m,
            has_key-lookup s m,
          )
    ]

    same : (s : String) → contains (keys m) s ≡ true → contains (keys r) s ≡ true
    same =
        subset_of_length (keys m) (keys r) (keys-IsUnique r u) forth
          (ground (arith, length-keys r, length-keys m))

-- Set leaves a registry that answers for every group as the new map does. It hands back the old
-- registry, or nothing if the registry is as it was.
pub lookup-set_groups :
    (r groups : Registry)
    → HasUniqueKeys r
    → ((g : String) → lookup g (set_groups r groups).1 ≡ lookup g groups)
      × (((set_groups r groups).0 ≡ some r) ⊎ (set_groups r groups ≡ (none, r)))
unfolding set_groups
lookup-set_groups r groups u = elim (Bool-cases (maps_equal r groups)) [
  | inl same ↦
      (rw (same, set_groups) (maps_equal-lookup r groups u same), rw (same, set_groups) (inr refl))
  | inr changed ↦ (rw (changed, set_groups) (λ g. refl), rw (changed, set_groups) (inl refl))
]

contains-invert_group :
    (g : String) (ms : List String) (out : Map (List String)) (y h : String)
    → contains (members y (invert_group g ms out)) h
      ≡ contains (members y out) h || (contains ms y && str_eq g h)
unfolding invert_group
contains-invert_group g [] out y h = ground arith
contains-invert_group g (m ∷ ms) out y h = ground (
  arith,
  contains-invert_group g ms (insert m (members m out ++ g ∷ []) out) y h,
  lookup-insert m y (members m out ++ g ∷ []) out,
  eq_iff m y,
  contains-append (members m out) (g ∷ []) h,
  contains-append (members y out) (g ∷ []) h,
)

is_member-absent : (x g : String) (r : Registry) → has_key g r ≡ false → is_member x g r ≡ false
is_member-absent x g r h = ground (arith, has_key-lookup g r)

contains-invert_into :
    (r : Registry) (out : Map (List String)) (y h : String)
    → HasUniqueKeys r
    → contains (members y (invert_into r out)) h ≡ contains (members y out) h || is_member y h r
unfolding invert_into lookup
contains-invert_into [] out y h u = ground arith
contains-invert_into ((g, ms) ∷ r) out y h u = ground (
  arith,
  contains-invert_into r (invert_group g ms out) y h u.1,
  contains-invert_group g ms out y h,
  eq_iff g h,
  is_member-absent y g r,
)

-- InstanceSnapshot gives every instance exactly the groups that have it.
pub contains-instance_snapshot :
    (r : Registry) (x g : String)
    → HasUniqueKeys r
    → contains (members x (instance_snapshot r)) g ≡ is_member x g r
unfolding instance_snapshot lookup
contains-instance_snapshot r x g u = contains-invert_into r [] x g u

invert_group-HasUniqueKeys :
    (g : String) (ms : List String) (out : Map (List String))
    → HasUniqueKeys out
    → HasUniqueKeys (invert_group g ms out)
unfolding invert_group
invert_group-HasUniqueKeys g [] out u = u
invert_group-HasUniqueKeys g (m ∷ ms) out u =
    invert_group-HasUniqueKeys g ms (insert m (members m out ++ g ∷ []) out)
      (insert-HasUniqueKeys m (members m out ++ g ∷ []) out u)

invert_into-HasUniqueKeys :
    (r : Registry) (out : Map (List String)) → HasUniqueKeys out → HasUniqueKeys (invert_into r out)
unfolding invert_into
invert_into-HasUniqueKeys [] out u = u
invert_into-HasUniqueKeys ((g, ms) ∷ r) out u =
    invert_into-HasUniqueKeys r (invert_group g ms out) (invert_group-HasUniqueKeys g ms out u)

pub instance_snapshot-HasUniqueKeys : (r : Registry) → HasUniqueKeys (instance_snapshot r)
unfolding instance_snapshot
instance_snapshot-HasUniqueKeys r = invert_into-HasUniqueKeys r [] tt
