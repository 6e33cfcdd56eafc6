-- ===== src/Groups/Member.antt =====
-- Membership: which instance is in which group, and what one addition or removal does to it.
use sablier.Prelude.Sets.{IsUnique}
use sablier.Prelude.{
  ◌≡◌, refl, String, Bool, false, ◌&&◌, ◌||◌, List, [], ◌∷◌, ◌++◌, arith, if◌then◌else◌, contains,
  contains-append, contains-without, without, lookup, insert, delete, has_key, HasUniqueKeys,
  lookup-insert, lookup-delete, str_eq, eq_iff, Bool-cases, inl, inr,
}
use sablier.Groups.{Registry, members, groups_of, add_to_group, remove_from_group, string_set}

-- Whether instance `x` is in group `g`.
abbrev pub is_member : String → String → Registry → Bool
is_member x g r = contains (members g r) x

pub is_member-add_to_group :
    (x y g h : String) (r : Registry)
    → is_member y h (add_to_group x g r) ≡ is_member y h r || (str_eq x y && str_eq g h)
unfolding add_to_group
is_member-add_to_group x y g h r = ground (
  arith,
  lookup-insert g h (members g r ++ x ∷ []) r,
  eq_iff g h,
  contains-append (members g r) (x ∷ []) y,
  contains-append (members h r) (x ∷ []) y,
)

lookup-remove_from_group :
    (x g h : String) (r : Registry)
    → members h (remove_from_group x g r)
      ≡ (if str_eq g h then without x (members g r) else members h r)
unfolding remove_from_group
lookup-remove_from_group x g h r = go (without x (members g r))
  where
    go :
        (ms : List String)
        → members h (elim ms [ [] ↦ delete g r | n ∷ ns ↦ insert g (n ∷ ns) r ])
          ≡ (if str_eq g h then ms else members h r)
    go [] = ground (arith, lookup-delete g h r)
    go (n ∷ ns) = ground (arith, lookup-insert g h (n ∷ ns) r)

pub is_member-remove_from_group :
    (x y g h : String) (r : Registry)
    → is_member y h (remove_from_group x g r)
      ≡ (if str_eq x y && str_eq g h then false else is_member y h r)
is_member-remove_from_group x y g h r = ground (
  arith,
  lookup-remove_from_group x g h r,
  eq_iff g h,
  contains-without x y (members g r),
  contains-without x y (members h r),
)

pub contains-string_set :
    (xs : List String) (s : String) → contains (string_set xs) s ≡ contains xs s
unfolding string_set
contains-string_set [] s = refl
contains-string_set (x ∷ xs) s =
    ground (arith, contains-string_set xs s, contains-without x s (string_set xs))

contains-groups_of_absent :
    (x g : String) (r : Registry) → has_key g r ≡ false → contains (groups_of x r) g ≡ false
unfolding groups_of has_key
contains-groups_of_absent x g [] h = refl
contains-groups_of_absent x g ((k, ms) ∷ r) h = ground (arith, contains-groups_of_absent x g r)

-- GroupsOf lists exactly the groups that have the instance.
pub contains-groups_of :
    (x g : String) (r : Registry) → HasUniqueKeys r → contains (groups_of x r) g ≡ is_member x g r
unfolding groups_of lookup
contains-groups_of x g [] u = refl
contains-groups_of x g ((k, ms) ∷ r) u = elim (Bool-cases (str_eq k g)) [
  | inl this ↦ ground (arith, contains-groups_of_absent x k r u.0, eq_iff k g)
  | inr other ↦ ground (arith, contains-groups_of x g r u.1)
]

-- GroupsOf lists no group twice.
pub groups_of-IsUnique : (x : String) (r : Registry) → HasUniqueKeys r → IsUnique (groups_of x r)
unfolding groups_of
groups_of-IsUnique x [] u = tt
groups_of-IsUnique x ((k, ms) ∷ r) u = elim (Bool-cases (contains ms x)) [
  | inl inside ↦
      rw (inside, groups_of) (contains-groups_of_absent x k r u.0, groups_of-IsUnique x r u.1)
  | inr outside ↦ rw (outside, groups_of) (groups_of-IsUnique x r u.1)
]
