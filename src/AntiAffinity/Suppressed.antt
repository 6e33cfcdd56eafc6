-- ===== src/AntiAffinity/Suppressed.antt =====
-- What a reconciliation does to the set of the instances that it holds down.
use sablier.Requests.Outcome.{is_live_lem}
use sablier.AntiAffinity.Desired.{
  backs_off, has_active_antagonist, lookup-desired_suppress, desired_suppress-HasUniqueKeys,
}
use sablier.Requests.Keeps.{instance_request-registries}
use sablier.Requests.Safety.{Fetched-cases, Answer-cases, IsStore}
use sablier.AntiAffinity.{
  suppress, restore, apply_decision, apply_wish, reconcile_anti_affinity, desired_suppress,
}
use sablier.RunningHours.{LocalTime}
use sablier.Requests.{Environment, instance_request, Sablier, is_group_active, is_live, missing}
use sablier.Prelude.{
  [], ◌∷◌, some, none, true, false, inl, inr, arith, ℕ, Bool, String, Option, if◌then◌else◌, lookup,
  contains, not, Map, ◌≡◌, HasUniqueKeys, ◌||◌, ◌⊎◌, str_eq, Bool-cases, contains-without, eq_iff,
  has_key-lookup, ◌&&◌,
}

-- A change of the set that the decision asks for.
abbrev pub is_asked_for : Bool → Bool → Option Bool → Bool
is_asked_for was is wish = elim wish [
  | none ↦ if was then is else not is
  | some true ↦ if was then is else true
  | some false ↦ if was then true else not is
]

module _ {ℓ} {W : Type ℓ} (env : Environment W) (default_duration : ℕ) (now : LocalTime) where
  contains-suppress :
      (name : String) (s : Sablier W) (x : String)
      → contains (suppress env default_duration now name s).suppressed x ≡ true
      → contains s.suppressed x || str_eq name x ≡ true
  unfolding suppress
  contains-suppress name s x h = elim (Fetched-cases (env.get_session name s.world)) [
    | inl (info, here) ↦ elim (Bool-cases (env.stop_instance name s.world).0) [
      | inl gone ↦ ground (arith, contains-without name x s.suppressed)
      | inr left ↦ ground arith
    ]
    | inr (inl absent) ↦ ground arith
    | inr (inr broken) ↦ ground arith
  ]

  suppress-keeps :
      (name : String) (s : Sablier W) (x : String)
      → contains s.suppressed x ≡ true
      → contains (suppress env default_duration now name s).suppressed x ≡ true
  unfolding suppress
  suppress-keeps name s x h = elim (Fetched-cases (env.get_session name s.world)) [
    | inl (info, here) ↦ elim (Bool-cases (env.stop_instance name s.world).0) [
      | inl gone ↦ ground (arith, contains-without name x s.suppressed, eq_iff name x)
      | inr left ↦ ground arith
    ]
    | inr (inl absent) ↦ ground arith
    | inr (inr broken) ↦ ground arith
  ]

  contains-restore :
      (name : String) (s : Sablier W) (x : String)
      → (contains (restore env default_duration now name s).suppressed x ≡ contains s.suppressed x)
        ⊎ ((str_eq name x ≡ true)
            × (contains (restore env default_duration now name s).suppressed x ≡ false))
  unfolding restore
  contains-restore name s x =
      elim (Answer-cases (instance_request env name default_duration false now s).0) [
        | inr (e, refused_it) ↦
            inl (ground (arith, instance_request-registries env default_duration now name false s))
        | inl (info, answered) ↦ elim (Bool-cases (str_eq name x)) [
          | inl this ↦ inr (
            this,
            ground (
              arith,
              this,
              instance_request-registries env default_duration now name false s,
              contains-without name x
                  (instance_request env name default_duration false now s).1.suppressed,
            ),
          )
          | inr other ↦ inl (
              ground (
                arith,
                other,
                instance_request-registries env default_duration now name false s,
                contains-without name x
                    (instance_request env name default_duration false now s).1.suppressed,
              ))
        ]
      ]

  apply_wish-asked :
      (name : String) (wanted : Bool) (s : Sablier W) (x : String)
      → is_asked_for
          (contains s.suppressed x)
          (contains (apply_wish env default_duration now name wanted s).suppressed x)
          (if str_eq name x then some wanted else none)
        ≡ true
  unfolding apply_wish
  apply_wish-asked name true s x =
      ground (arith, contains-suppress name s x, suppress-keeps name s x, eq_iff name x)
  apply_wish-asked name false s x = elim (contains-restore name s x) [
    | inl same ↦ ground (arith, eq_iff name x)
    | inr (this, gone) ↦ ground (arith, eq_iff name x)
  ]

  apply_decision-asked :
      (decision : Map Bool) (s : Sablier W) (x : String)
      → HasUniqueKeys decision
      → is_asked_for
          (contains s.suppressed x)
          (contains (apply_decision env default_duration now decision s).suppressed x)
          (lookup x decision)
        ≡ true
  unfolding apply_decision lookup
  apply_decision-asked [] s x u = ground arith
  apply_decision-asked ((name, wanted) ∷ rest) s x u =
      let next = apply_wish env default_duration now name wanted s in
      let first = apply_wish-asked name wanted s x in
      let others = apply_decision-asked rest next x u.1 in
      elim (Bool-cases (str_eq name x)) [
        | inl this ↦ ground (arith, this, first, others, u.0, has_key-lookup x rest, eq_iff name x)
        | inr other ↦ ground (arith, other, first, others)
      ]

  -- The set of suppressed instances changes only as the decision asks: an instance enters it only if
  -- one of the groups that it backs off from is active, leaves it only if it backs off from some group
  -- and none of these is active, and stays as it is if it backs off from no group.
  pub reconcile_anti_affinity-asked :
      (s : Sablier W) (x : String)
      → is_asked_for
          (contains s.suppressed x)
          (contains (reconcile_anti_affinity env default_duration now s).suppressed x)
          (if backs_off x s.anti_affinity
            then some (has_active_antagonist (is_group_active env s) x s.anti_affinity)
            else none)
        ≡ true
  unfolding reconcile_anti_affinity
  reconcile_anti_affinity-asked s x = ground (
    arith,
    lookup-desired_suppress (is_group_active env s) s.anti_affinity x,
    apply_decision-asked (desired_suppress (is_group_active env s) s.anti_affinity) s x
        (desired_suppress-HasUniqueKeys (is_group_active env s) s.anti_affinity),
  )

  -- Suppressing an instance that has a session, stops when told to and whose session can be deleted
  -- ends that session and records the instance. One without a session is left as it is. No other
  -- session and no other record changes.
  pub suppress-session :
      (name : String) (s : Sablier W) (x : String)
      → IsStore env
      → ((w : W) → (env.stop_instance name w).0 ≡ true)
      → ((w : W) → (env.delete_session name w).0 ≡ true)
      → (env.get_session x (suppress env default_duration now name s).world ≡ (
          if str_eq name x && is_live env s.world name then missing else env.get_session x s.world))
        × (contains (suppress env default_duration now name s).suppressed x
            ≡ contains s.suppressed x || (str_eq name x && is_live env s.world name))
  unfolding suppress
  suppress-session name s x laws stops deletes =
      let w1 = (env.stop_instance name s.world).1 in
      elim (Fetched-cases (env.get_session name s.world)) [
        | inl (info, here) ↦ (
          ground (
            arith,
            stops s.world,
            deletes w1,
            laws.get_delete name w1 x,
            laws.get_stop name s.world x,
            is_live_lem env s.world name,
          ),
          ground (
            arith,
            stops s.world,
            contains-without name x s.suppressed,
            eq_iff name x,
            is_live_lem env s.world name,
          ),
        )
        | inr (inl absent) ↦ (
          ground (arith, is_live_lem env s.world name),
          ground (arith, is_live_lem env s.world name),
        )
        | inr (inr broken) ↦ (
          ground (arith, is_live_lem env s.world name),
          ground (arith, is_live_lem env s.world name),
        )
      ]
