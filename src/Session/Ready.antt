-- ===== src/Session/Ready.antt =====
-- When a session is ready, what it waits for, and what it reports.
use sablier.Session.{
  InstanceInfoWithError, insert_by_name, sort_by_name, session_is_ready, pending_of,
  not_ready_instances, SessionState, status_of, instance_errors, is_pending, name_before,
}
use sablier.Prelude.{
  [], ◌∷◌, true, false, inl, inr, refl, arith, ℕ, List, String, ◌≡◌, Bool, length, Bool-cases,
  keep_if, subst, ◌||◌, not, ltb, if◌then◌else◌, ◌&&◌,
}

length-insert_by_name :
    (q : InstanceInfoWithError → Bool) (v : InstanceInfoWithError) (ws : List InstanceInfoWithError)
    → length (keep_if q (insert_by_name v ws)) ≡ length (keep_if q (v ∷ ws))
unfolding insert_by_name
length-insert_by_name q v [] = refl
length-insert_by_name q v (w ∷ ws) = ground (arith, length-insert_by_name q v ws)

length-sort_by_name :
    (q : InstanceInfoWithError → Bool) (vs : List InstanceInfoWithError)
    → length (keep_if q (sort_by_name vs)) ≡ length (keep_if q vs)
unfolding sort_by_name
length-sort_by_name q [] = refl
length-sort_by_name q (v ∷ vs) =
    ground (arith, length-insert_by_name q v (sort_by_name vs), length-sort_by_name q vs)

pub name_before_asym : (s t : String) → name_before s t ≡ true → name_before t s ≡ false
unfolding name_before
name_before_asym String.[] String.[] h = refl
name_before_asym String.[] (String.◌∷◌ d t) h = refl
name_before_asym (String.◌∷◌ c s) String.[] h = cc
name_before_asym (String.◌∷◌ c s) (String.◌∷◌ d t) h = ground (arith, name_before_asym s t)

-- No instance comes before the one ahead of it in the order of names.
abbrev pub IsSorted : List InstanceInfoWithError → Type 0
IsSorted [] = Unit {0}
IsSorted (v ∷ []) = Unit {0}
IsSorted (v ∷ w ∷ ws) =
    (name_before w.instance_info.name v.instance_info.name ≡ false) × IsSorted (w ∷ ws)

insert_by_name-IsSorted :
    (v : InstanceInfoWithError) (ws : List InstanceInfoWithError)
    → IsSorted ws
    → IsSorted (insert_by_name v ws)
unfolding insert_by_name
insert_by_name-IsSorted v [] sorted = tt
insert_by_name-IsSorted v (w ∷ []) sorted =
    elim (Bool-cases (name_before w.instance_info.name v.instance_info.name)) [
      | inl after ↦
          rw (after, insert_by_name)
            (name_before_asym w.instance_info.name v.instance_info.name after, tt)
      | inr first ↦ rw (first, insert_by_name) (first, tt)
    ]
insert_by_name-IsSorted v (w ∷ x ∷ ws) sorted =
    elim (Bool-cases (name_before w.instance_info.name v.instance_info.name)) [
      | inr first ↦ rw (first, insert_by_name) (first, sorted)
      | inl after ↦ elim (Bool-cases (name_before x.instance_info.name v.instance_info.name)) [
        | inl later ↦
            let rest : IsSorted (x ∷ insert_by_name v ws) =
              subst (λ b. IsSorted (if b then x ∷ insert_by_name v ws else v ∷ x ∷ ws)) later
                (insert_by_name-IsSorted v (x ∷ ws) sorted.1) in
            rw (after, later, insert_by_name) (sorted.0, rest)
        | inr here ↦
            rw (after, here, insert_by_name)
              (name_before_asym w.instance_info.name v.instance_info.name after, (here, sorted.1))
      ]
    ]

sort_by_name-IsSorted : (vs : List InstanceInfoWithError) → IsSorted (sort_by_name vs)
unfolding sort_by_name
sort_by_name-IsSorted [] = tt
sort_by_name-IsSorted (v ∷ vs) =
    insert_by_name-IsSorted v (sort_by_name vs) (sort_by_name-IsSorted vs)

-- Some entry of the session passes the test.
abbrev pub any_entry : (InstanceInfoWithError → Bool) → SessionState → Bool
any_entry q [] = false
any_entry q ((k, v) ∷ s) = q v || any_entry q s

ready_iff :
    (now : ℕ) (s : SessionState) → session_is_ready now s ≡ not (any_entry (is_pending now) s)
unfolding session_is_ready
ready_iff now [] = refl
ready_iff now ((k, v) ∷ s) = ground (arith, ready_iff now s)

keep-pending_of :
    (now : ℕ) (q : InstanceInfoWithError → Bool) (s : SessionState)
    → ltb 0 (length (keep_if q (pending_of now s))) ≡ any_entry (λ v. is_pending now v && q v) s
unfolding pending_of
keep-pending_of now q [] = refl
keep-pending_of now q ((k, v) ∷ s) = ground (arith, keep-pending_of now q s)

-- NotReadyInstances lists, in the order of names, exactly the gating instances that failed or are not
-- ready: a test finds one in the list exactly if it finds one in the session. A session is ready
-- exactly if the list is empty.
pub session_is_ready-not_ready_instances :
    (now : ℕ) (s : SessionState)
    → IsSorted (not_ready_instances now s)
      × ((q : InstanceInfoWithError → Bool)
          → ltb 0 (length (keep_if q (not_ready_instances now s)))
            ≡ any_entry (λ v. is_pending now v && q v) s)
      × (session_is_ready now s ≡ not (any_entry (is_pending now) s))
      × (status_of now s ≡ (if any_entry (is_pending now) s then "not-ready" else "ready"))
unfolding not_ready_instances status_of
session_is_ready-not_ready_instances now s = (
  sort_by_name-IsSorted (pending_of now s),
  (λ q. ground (arith, length-sort_by_name q (pending_of now s), keep-pending_of now q s)),
  ready_iff now s,
  ground (arith, ready_iff now s),
)

-- A ready session has no error to report.
pub instance_errors-session_is_ready :
    (now : ℕ) (s : SessionState) → session_is_ready now s ≡ true → instance_errors s ≡ []
unfolding session_is_ready instance_errors
instance_errors-session_is_ready now [] h = refl
instance_errors-session_is_ready now ((k, v) ∷ s) h =
    ground (arith, instance_errors-session_is_ready now s)
