-- ===== src/AntiAffinity/Desired.antt =====
-- The decision: who is to be suppressed.
use sablier.Groups.{Registry}
use sablier.AntiAffinity.{desired_suppress, active_groups, decide_members, decide_groups}
use sablier.Prelude.{
  [], ◌∷◌, some, none, true, false, inl, inr, refl, arith, Bool, String, has_key, Option, contains,
  if◌then◌else◌, List, ◌≡◌, lookup, ◌&&◌, Map, ◌||◌, str_eq_refl, eq_iff, insert, Option-cases,
  lookup-insert, Bool-cases, has_key-lookup, HasUniqueKeys, insert-HasUniqueKeys,
}

contains-active_groups :
    (is_active : String → Bool) (r : Registry) (g : String)
    → contains (active_groups is_active r) g ≡ has_key g r && is_active g
unfolding active_groups has_key
contains-active_groups is_active [] g = refl
contains-active_groups is_active ((k, ms) ∷ r) g =
    ground (arith, contains-active_groups is_active r g, eq_iff k g)

-- Wanted by one more group, or known before.
abbrev join_wish : Bool → Bool → Option Bool → Option Bool
join_wish listed active old =
    if listed
    then (if active then some true else elim old [ none ↦ some false | some b ↦ some b ])
    else old

lookup-decide_members :
    (active : Bool) (ms : List String) (desired : Map Bool) (x : String)
    → lookup x (decide_members active ms desired)
      ≡ join_wish (contains ms x) active (lookup x desired)
unfolding decide_members
lookup-decide_members active [] desired x = refl
lookup-decide_members true (m ∷ ms) desired x = ground (
  arith,
  lookup-decide_members true ms (insert m true desired) x,
  lookup-insert m x true desired,
  eq_iff m x,
)
lookup-decide_members false (m ∷ ms) desired x = elim (Bool-cases (has_key m desired)) [
  | inl known ↦
      ground (arith, lookup-decide_members false ms desired x, has_key-lookup m desired, eq_iff m x)
  | inr fresh ↦ ground (
    arith,
    lookup-decide_members false ms (insert m false desired) x,
    lookup-insert m x false desired,
    has_key-lookup m desired,
    eq_iff m x,
  )
]

-- Instance `x` backs off from some group, or from some active one.
abbrev pub backs_off : String → Registry → Bool
backs_off x [] = false
backs_off x ((g, ms) ∷ r) = contains ms x || backs_off x r

abbrev pub has_active_antagonist : (String → Bool) → String → Registry → Bool
has_active_antagonist is_active x [] = false
has_active_antagonist is_active x ((g, ms) ∷ r) =
    (contains ms x && is_active g) || has_active_antagonist is_active x r

abbrev wish_of : Bool → Bool → Option Bool → Option Bool
wish_of listed active old =
    if active
    then some true
    else if listed
    then elim old [ none ↦ some false | some b ↦ some b ]
    else old

lookup-decide_groups :
    (active : List String) (r : Registry) (desired : Map Bool) (x : String)
    → lookup x (decide_groups active r desired)
      ≡ wish_of (backs_off x r) (has_active_antagonist (contains active) x r) (lookup x desired)
unfolding decide_groups
lookup-decide_groups active [] desired x = refl
lookup-decide_groups active ((g, ms) ∷ r) desired x = elim (Option-cases (lookup x desired)) [
  | inl new ↦ ground (
    arith,
    lookup-decide_groups active r (decide_members (contains active g) ms desired) x,
    lookup-decide_members (contains active g) ms desired x,
  )
  | inr (b, old) ↦ ground (
    arith,
    lookup-decide_groups active r (decide_members (contains active g) ms desired) x,
    lookup-decide_members (contains active g) ms desired x,
  )
]

has_active_antagonist-active_groups :
    (is_active : String → Bool) (r all_groups : Registry) (x : String)
    → ((g : String) → has_key g r ≡ true → has_key g all_groups ≡ true)
    → has_active_antagonist (contains (active_groups is_active all_groups)) x r
      ≡ has_active_antagonist is_active x r
unfolding has_key
has_active_antagonist-active_groups is_active [] all_groups x sub = refl
has_active_antagonist-active_groups is_active ((g, ms) ∷ r) all_groups x sub = ground (
  arith,
  contains-active_groups is_active all_groups g,
  sub g (ground (arith, str_eq_refl g)),
  has_active_antagonist-active_groups is_active r all_groups x
      (λ h held. sub h (ground (arith, held))),
)

antagonist_backs_off :
    (is_active : String → Bool) (r : Registry) (x : String)
    → has_active_antagonist is_active x r ≡ true
    → backs_off x r ≡ true
antagonist_backs_off is_active [] x h = h
antagonist_backs_off is_active ((g, ms) ∷ r) x h =
    ground (arith, h, antagonist_backs_off is_active r x)

-- The reconciliation decides on exactly the instances that back off from some group, and wants those
-- suppressed that back off from an active one.
pub lookup-desired_suppress :
    (is_active : String → Bool) (r : Registry) (x : String)
    → lookup x (desired_suppress is_active r)
      ≡ (if backs_off x r then some (has_active_antagonist is_active x r) else none)
unfolding desired_suppress lookup
lookup-desired_suppress is_active r x = ground (
  arith,
  lookup-decide_groups (active_groups is_active r) r [] x,
  has_active_antagonist-active_groups is_active r r x (λ g h. h),
  antagonist_backs_off is_active r x,
)

decide_members-HasUniqueKeys :
    (active : Bool) (ms : List String) (desired : Map Bool)
    → HasUniqueKeys desired
    → HasUniqueKeys (decide_members active ms desired)
unfolding decide_members
decide_members-HasUniqueKeys active [] desired u = u
decide_members-HasUniqueKeys true (m ∷ ms) desired u =
    decide_members-HasUniqueKeys true ms (insert m true desired)
      (insert-HasUniqueKeys m true desired u)
decide_members-HasUniqueKeys false (m ∷ ms) desired u = elim (Bool-cases (has_key m desired)) [
  | inl known ↦ rw (known, decide_members) (decide_members-HasUniqueKeys false ms desired u)
  | inr fresh ↦
      rw (fresh, decide_members)
        (decide_members-HasUniqueKeys false ms (insert m false desired)
          (insert-HasUniqueKeys m false desired u))
]

decide_groups-HasUniqueKeys :
    (active : List String) (r : Registry) (desired : Map Bool)
    → HasUniqueKeys desired
    → HasUniqueKeys (decide_groups active r desired)
unfolding decide_groups
decide_groups-HasUniqueKeys active [] desired u = u
decide_groups-HasUniqueKeys active ((g, ms) ∷ r) desired u =
    decide_groups-HasUniqueKeys active r (decide_members (contains active g) ms desired)
      (decide_members-HasUniqueKeys (contains active g) ms desired u)

pub desired_suppress-HasUniqueKeys :
    (is_active : String → Bool) (r : Registry) → HasUniqueKeys (desired_suppress is_active r)
unfolding desired_suppress
desired_suppress-HasUniqueKeys is_active r =
    decide_groups-HasUniqueKeys (active_groups is_active r) r [] tt
