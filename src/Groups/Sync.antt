-- ===== src/Groups/Sync.antt =====
-- Sync and Remove, seen through membership.
use sablier.Prelude.{
  ◌≡◌, refl, String, false, ◌&&◌, ◌||◌, not, List, [], ◌∷◌, arith, contains, if◌then◌else◌, str_eq,
  eq_iff, Bool-cases, inl, inr, HasUniqueKeys, insert-HasUniqueKeys, delete, insert,
  delete-HasUniqueKeys, without,
}
use sablier.Groups.{
  Registry, members, groups_of, add_to_group, remove_from_group, string_set, sync_add, sync_remove,
  sync, remove_all, remove,
}
use sablier.Groups.Member.{
  is_member, is_member-add_to_group, is_member-remove_from_group, contains-groups_of,
  contains-string_set,
}

add_to_group-HasUniqueKeys :
    (x g : String) (r : Registry) → HasUniqueKeys r → HasUniqueKeys (add_to_group x g r)
unfolding add_to_group
add_to_group-HasUniqueKeys x g r u = insert-HasUniqueKeys g _ r u

remove_from_group-HasUniqueKeys :
    (x g : String) (r : Registry) → HasUniqueKeys r → HasUniqueKeys (remove_from_group x g r)
unfolding remove_from_group
remove_from_group-HasUniqueKeys x g r u =
    elim (without x (members g r))
      as (λ ms. HasUniqueKeys (elim ms [ [] ↦ delete g r | n ∷ ns ↦ insert g (n ∷ ns) r ])) [
        | [] ↦ delete-HasUniqueKeys g r u
        | n ∷ ns ↦ insert-HasUniqueKeys g (n ∷ ns) r u
      ]

-- What one loop of Sync does: it changes `x` alone, in the groups of the first list that are not in
-- the second one, and returns these groups.
module _ (x : String) where
  sync_add-HasUniqueKeys :
      (gs current : List String) (r : Registry)
      → HasUniqueKeys r
      → HasUniqueKeys (sync_add x gs current r).1
  unfolding sync_add
  sync_add-HasUniqueKeys [] current r u = u
  sync_add-HasUniqueKeys (g ∷ gs) current r u = elim (Bool-cases (contains current g)) [
    | inl old ↦ rw (old, sync_add) (sync_add-HasUniqueKeys gs current r u)
    | inr new ↦
        rw (new, sync_add)
          (sync_add-HasUniqueKeys gs current (add_to_group x g r)
            (add_to_group-HasUniqueKeys x g r u))
  ]

  is_member-sync_add :
      (gs current : List String) (r : Registry) (y h : String)
      → is_member y h (sync_add x gs current r).1
        ≡ is_member y h r || (str_eq x y && (contains gs h && not (contains current h)))
  unfolding sync_add
  is_member-sync_add [] current r y h = ground arith
  is_member-sync_add (g ∷ gs) current r y h = ground (
    arith,
    is_member-sync_add gs current r y h,
    is_member-sync_add gs current (add_to_group x g r) y h,
    is_member-add_to_group x y g h r,
    eq_iff g h,
  )

  contains-sync_add :
      (gs current : List String) (r : Registry) (h : String)
      → contains (sync_add x gs current r).0 h ≡ contains gs h && not (contains current h)
  unfolding sync_add
  contains-sync_add [] current r h = refl
  contains-sync_add (g ∷ gs) current r h = ground (
    arith,
    contains-sync_add gs current r h,
    contains-sync_add gs current (add_to_group x g r) h,
    eq_iff g h,
  )

  sync_remove-HasUniqueKeys :
      (gs desired : List String) (r : Registry)
      → HasUniqueKeys r
      → HasUniqueKeys (sync_remove x gs desired r).1
  unfolding sync_remove
  sync_remove-HasUniqueKeys [] desired r u = u
  sync_remove-HasUniqueKeys (g ∷ gs) desired r u = elim (Bool-cases (contains desired g)) [
    | inl kept ↦ rw (kept, sync_remove) (sync_remove-HasUniqueKeys gs desired r u)
    | inr gone ↦
        rw (gone, sync_remove)
          (sync_remove-HasUniqueKeys gs desired (remove_from_group x g r)
            (remove_from_group-HasUniqueKeys x g r u))
  ]

  is_member-sync_remove :
      (gs desired : List String) (r : Registry) (y h : String)
      → is_member y h (sync_remove x gs desired r).1 ≡ (
          if str_eq x y && (contains gs h && not (contains desired h))
          then false
          else is_member y h r)
  unfolding sync_remove
  is_member-sync_remove [] desired r y h = ground arith
  is_member-sync_remove (g ∷ gs) desired r y h = ground (
    arith,
    is_member-sync_remove gs desired r y h,
    is_member-sync_remove gs desired (remove_from_group x g r) y h,
    is_member-remove_from_group x y g h r,
    eq_iff g h,
  )

  contains-sync_remove :
      (gs desired : List String) (r : Registry) (h : String)
      → contains (sync_remove x gs desired r).0 h ≡ contains gs h && not (contains desired h)
  unfolding sync_remove
  contains-sync_remove [] desired r h = refl
  contains-sync_remove (g ∷ gs) desired r h = ground (
    arith,
    contains-sync_remove gs desired r h,
    contains-sync_remove gs desired (remove_from_group x g r) h,
    eq_iff g h,
  )

-- What a call of Sync for `x` with the groups `new` leaves and returns.
pub record Synced (x : String) (new : List String) (r : Registry)
    (result : List String × List String × Registry) : Type 0 where
  pub member :
      (y g : String)
      → is_member y g result.2 ≡ (if str_eq x y then contains new g else is_member y g r)
  pub added : (g : String) → contains result.0 g ≡ contains new g && not (is_member x g r)
  pub removed : (g : String) → contains result.1 g ≡ is_member x g r && not (contains new g)
  pub unique : HasUniqueKeys result.2

-- Sync puts the instance in exactly the new groups, leaves every other instance where it was, and
-- returns exactly the groups in which that changed something.
pub sync-Synced :
    (x : String) (new : List String) (r : Registry)
    → HasUniqueKeys r
    → Synced x new r (sync x new r)
unfolding sync
sync-Synced x new r u =
    let current = groups_of x r in
    let desired = string_set new in
    let r1 = (sync_add x desired current r).1 in
    record {
      member = λ y g. ground (
        arith,
        is_member-sync_remove x current desired r1 y g,
        is_member-sync_add x desired current r y g,
        contains-groups_of x g r u,
        contains-string_set new g,
        eq_iff x y,
      );
      added = λ g. ground (
        arith,
        contains-sync_add x desired current r g,
        contains-groups_of x g r u,
        contains-string_set new g,
      );
      removed = λ g. ground (
        arith,
        contains-sync_remove x current desired r1 g,
        contains-groups_of x g r u,
        contains-string_set new g,
      );
      unique =
          sync_remove-HasUniqueKeys x current desired r1
            (sync_add-HasUniqueKeys x desired current r u);
    }

remove_all-HasUniqueKeys :
    (x : String) (gs : List String) (r : Registry)
    → HasUniqueKeys r
    → HasUniqueKeys (remove_all x gs r)
unfolding remove_all
remove_all-HasUniqueKeys x [] r u = u
remove_all-HasUniqueKeys x (g ∷ gs) r u =
    remove_all-HasUniqueKeys x gs (remove_from_group x g r)
      (remove_from_group-HasUniqueKeys x g r u)

is_member-remove_all :
    (x : String) (gs : List String) (r : Registry) (y h : String)
    → is_member y h (remove_all x gs r)
      ≡ (if str_eq x y && contains gs h then false else is_member y h r)
unfolding remove_all
is_member-remove_all x [] r y h = ground arith
is_member-remove_all x (g ∷ gs) r y h = ground (
  arith,
  is_member-remove_all x gs (remove_from_group x g r) y h,
  is_member-remove_from_group x y g h r,
  eq_iff g h,
)

-- Remove takes the instance out of every group, returns exactly the groups that it was in, and
-- leaves every other instance where it was.
pub is_member-remove :
    (x : String) (r : Registry)
    → HasUniqueKeys r
    → ((y g : String)
        → is_member y g (remove x r).1 ≡ (if str_eq x y then false else is_member y g r))
      × ((g : String) → contains (remove x r).0 g ≡ is_member x g r)
      × HasUniqueKeys (remove x r).1
unfolding remove
is_member-remove x r u = (
  (λ y g. ground (
    arith,
    is_member-remove_all x (groups_of x r) r y g,
    contains-groups_of x g r u,
    eq_iff x y,
  )),
  (λ g. contains-groups_of x g r u),
  remove_all-HasUniqueKeys x (groups_of x r) r u,
)
