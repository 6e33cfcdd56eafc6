-- ===== src/Race/Single.antt =====
-- At most one start of an instance runs, whatever the interleaving.
-- The goroutine has not done with the entry of its start.
use sablier.Instance.{InstanceInfo}
use sablier.Prelude.Arrays.{get_elem?-set, get_elem?-append_one}
use sablier.Race.{
  Start, Race, entry_of, move_start, is_done, calling, drop_entry, cleaning, closing, closed,
  dispatch, check_start, register_pending, Phase, call_returned, close_done, consume_error,
  clean_up, race_step, race_steps, RaceStep, no_starts, checks, registers, consumes, returns,
  cleans, closes,
}
use sablier.Prelude.{
  some, true, false, inl, inr, arith, ℕ, String, Bool, get_elem?, ◌≡◌, lookup, Option-cases,
  lookup-delete, eq_iff, str_eq, ◌++◌, ◌∷◌, [], Bool-cases, length, ◌==◌, lookup-insert, subst, ◌⊎◌,
  refl, List, set,
}

abbrev pub is_working : Start → Bool
is_working st = elim st.phase [
  | calling ↦ true
  | cleaning ↦ true
  | closing ↦ false
  | closed ↦ false
]

-- A start at work is the one that the entry of its name points to.
abbrev pub IsConsistent : Race → Type 0
IsConsistent r =
    (i : ℕ) (st : Start)
    → get_elem? r.starts i ≡ some st
    → is_working st ≡ true
    → lookup st.name r.entries ≡ some i

entry_of_lem :
    (name : String) (r : Race) (i : ℕ) (st : Start)
    → entry_of name r ≡ some (i, st)
    → (lookup name r.entries ≡ some i) × (get_elem? r.starts i ≡ some st)
unfolding entry_of
entry_of_lem name r i st e = elim (Option-cases (lookup name r.entries)) [
  | inl bare ↦ absurd (ground (arith, e, bare))
  | inr (j, here) ↦ elim (Option-cases (get_elem? r.starts j)) [
    | inl outside ↦ absurd (ground (arith, e, here, outside))
    | inr (st', inside) ↦ (ground (arith, e, here, inside), ground (arith, e, here, inside))
  ]
]

drop_entry-IsConsistent :
    (name : String) (r : Race) (i : ℕ) (st : Start)
    → (lookup name r.entries ≡ some i) × (get_elem? r.starts i ≡ some st)
    → is_working st ≡ false
    → IsConsistent r
    → IsConsistent (drop_entry name r)
drop_entry-IsConsistent name r i st (points, inside) idle h = λ j stj here works.
    let there : get_elem? r.starts j ≡ some stj = here in
    ground (
      arith,
      points,
      inside,
      there,
      idle,
      h j stj there works,
      eq_iff name stj.name,
      lookup-delete name stj.name r.entries,
    )

-- Moving on a start that is at work to where it is not needs its entry no more.
move_start-IsConsistent :
    (i : ℕ) (st st' : Start) (r : Race)
    → get_elem? r.starts i ≡ some st
    → st'.name ≡ st.name
    → (is_working st' ≡ true → is_working st ≡ true)
    → IsConsistent r
    → IsConsistent (move_start i st' r)
unfolding move_start
move_start-IsConsistent i st st' r here same less h = λ j stj there works.
    ground (
      arith,
      get_elem?-set r.starts i j st' st here,
      there,
      works,
      h i st here,
      h j stj,
      same,
      less,
    )

-- A start that is new and free of another at work under its name.
dispatch-IsConsistent :
    (name : String) (info : InstanceInfo) (r : Race)
    → ((j : ℕ) (st : Start)
        → get_elem? r.starts j ≡ some st
        → is_working st ≡ true
        → str_eq st.name name ≡ false)
    → IsConsistent r
    → IsConsistent (dispatch name info r).1
unfolding dispatch
dispatch-IsConsistent name info r free h = λ j stj here works.
    let new : Start = record { name = name; phase = calling; has_error = false; info = info } in
    let there : get_elem? (r.starts ++ new ∷ []) j ≡ some stj = here in
    elim (Bool-cases (length r.starts == j)) [
      | inl last ↦ ground (
        arith,
        last,
        there,
        get_elem?-append_one r.starts new j,
        lookup-insert name stj.name (length r.starts) r.entries,
        eq_iff name stj.name,
      )
      | inr before ↦ ground (
        arith,
        before,
        there,
        get_elem?-append_one r.starts new j,
        works,
        free j stj,
        h j stj,
        lookup-insert name stj.name (length r.starts) r.entries,
        eq_iff name stj.name,
        eq_iff stj.name name,
      )
    ]

-- A start at work is found by its name.
entry_of_working :
    (r : Race) (j : ℕ) (st : Start)
    → IsConsistent r
    → get_elem? r.starts j ≡ some st
    → is_working st ≡ true
    → entry_of st.name r ≡ some (j, st)
unfolding entry_of
entry_of_working r j st h there works = rw (h j st there works, there, entry_of) refl

check_start-IsConsistent :
    (name : String) (r : Race) → IsConsistent r → IsConsistent (check_start name r).1
unfolding check_start
check_start-IsConsistent name r h = elim (Option-cases (entry_of name r)) [
  | inl bare ↦ rw (bare, check_start) h
  | inr ((i, st), e) ↦ elim (Bool-cases (is_done st)) [
    | inl over ↦
        rw (e, over, check_start)
          (drop_entry-IsConsistent name r i st (entry_of_lem name r i st e) (ground (arith, over))
            h)
    | inr runs ↦ rw (e, runs, check_start) h
  ]
]

consume_error-IsConsistent :
    (name : String) (r : Race) → IsConsistent r → IsConsistent (consume_error name r).1
unfolding consume_error
consume_error-IsConsistent name r h = elim (Option-cases (entry_of name r)) [
  | inl bare ↦ rw (bare, consume_error) h
  | inr ((i, st), e) ↦ elim (Bool-cases (is_done st)) [
    | inl over ↦
        rw (e, over, consume_error)
          (drop_entry-IsConsistent name r i st (entry_of_lem name r i st e) (ground (arith, over))
            h)
    | inr runs ↦ rw (e, runs, consume_error) h
  ]
]

-- Nothing is at work under a name whose start is over, or that has none.
nothing_works :
    (name : String) (r : Race)
    → IsConsistent r
    → ((i : ℕ) (st : Start) → entry_of name r ≡ some (i, st) → is_done st ≡ true)
    → (j : ℕ) (st : Start) → get_elem? r.starts j ≡ some st
    → is_working st ≡ true
    → str_eq st.name name ≡ false
nothing_works name r h over j st there works = elim (Bool-cases (str_eq st.name name)) [
  | inr other ↦ other
  | inl same ↦
      let named : st.name ≡ name = (eq_iff st.name name).0 same in
      let found : entry_of name r ≡ some (j, st) =
        subst (λ n. entry_of n r ≡ some (j, st)) named (entry_of_working r j st h there works) in
      absurd (ground (arith, over j st found, works))
]

register_pending-IsConsistent :
    (name : String) (info : InstanceInfo) (r : Race)
    → IsConsistent r
    → IsConsistent (register_pending name info r).1
unfolding register_pending
register_pending-IsConsistent name info r h = elim (Option-cases (entry_of name r)) [
  | inl bare ↦
      rw (bare, register_pending)
        (dispatch-IsConsistent name info r
          (nothing_works name r h (λ i st e. absurd (ground (arith, bare, e)))) h)
  | inr ((i, st), e) ↦ elim (Bool-cases (is_done st)) [
    | inl over ↦
        rw (e, over, register_pending)
          (dispatch-IsConsistent name info (drop_entry name r)
            (nothing_works name r h (λ i' st' e'. ground (arith, e, e', over)))
            (drop_entry-IsConsistent name r i st (entry_of_lem name r i st e) (ground (arith, over))
              h))
    | inr runs ↦ rw (e, runs, register_pending) h
  ]
]

Phase-cases : (p : Phase) → (p ≡ calling) ⊎ ((p ≡ cleaning) ⊎ ((p ≡ closing) ⊎ (p ≡ closed)))
Phase-cases calling = inl refl
Phase-cases cleaning = inr (inl refl)
Phase-cases closing = inr (inr (inl refl))
Phase-cases closed = inr (inr (inr refl))

call_returned-IsConsistent :
    (i : ℕ) (good : Bool) (r : Race) → IsConsistent r → IsConsistent (call_returned i good r)
unfolding call_returned
call_returned-IsConsistent i good r h = elim (Option-cases (get_elem? r.starts i)) [
  | inl outside ↦ rw (outside, call_returned) h
  | inr (st, here) ↦ elim (Phase-cases st.phase) [
    | inl called ↦ elim (Bool-cases good) [
      | inl fine ↦
          rw (here, called, fine, call_returned)
            (move_start-IsConsistent i st (record st { phase = cleaning }) r here refl
              (λ e. ground (arith, called)) h)
      | inr bad ↦
          rw (here, called, bad, call_returned)
            (move_start-IsConsistent i st (record st { phase = closing; has_error = true }) r here
              refl (λ e. ground (arith, e)) h)
    ]
    | inr (inl p) ↦ rw (here, p, call_returned) h
    | inr (inr (inl p)) ↦ rw (here, p, call_returned) h
    | inr (inr (inr p)) ↦ rw (here, p, call_returned) h
  ]
]

close_done-IsConsistent : (i : ℕ) (r : Race) → IsConsistent r → IsConsistent (close_done i r)
unfolding close_done
close_done-IsConsistent i r h = elim (Option-cases (get_elem? r.starts i)) [
  | inl outside ↦ rw (outside, close_done) h
  | inr (st, here) ↦ elim (Phase-cases st.phase) [
    | inl p ↦ rw (here, p, close_done) h
    | inr (inl p) ↦ rw (here, p, close_done) h
    | inr (inr (inl p)) ↦
        rw (here, p, close_done)
          (move_start-IsConsistent i st (record st { phase = closed }) r here refl
            (λ e. ground (arith, e)) h)
    | inr (inr (inr p)) ↦ rw (here, p, close_done) h
  ]
]

clean_up-IsConsistent : (i : ℕ) (r : Race) → IsConsistent r → IsConsistent (clean_up i r)
unfolding clean_up
clean_up-IsConsistent i r h = elim (Option-cases (get_elem? r.starts i)) [
  | inl outside ↦ rw (outside, clean_up) h
  | inr (st, here) ↦ elim (Phase-cases st.phase) [
    | inl p ↦ rw (here, p, clean_up) h
    | inr (inl p) ↦
        let st' : Start = record st { phase = closing } in
        let moved = move_start i st' r in
        let consistent = move_start-IsConsistent i st st' r here refl (λ e. ground (arith, p)) h in
        let stored : get_elem? (set r.starts i st') i ≡ some st' =
          ground (arith, get_elem?-set r.starts i i st' st here) in
        elim (Option-cases (lookup st.name r.entries)) [
          | inl bare ↦ rw (here, p, bare, clean_up) consistent
          | inr (current, points) ↦ elim (Bool-cases (current == i)) [
            | inr other ↦ rw (here, p, points, other, clean_up) consistent
            | inl same ↦
                rw (here, p, points, same, clean_up)
                  (drop_entry-IsConsistent st.name moved i st'
                    ((ground (arith, points, same)), stored) refl consistent)
          ]
        ]
    | inr (inr (inl p)) ↦ rw (here, p, clean_up) h
    | inr (inr (inr p)) ↦ rw (here, p, clean_up) h
  ]
]

race_step-IsConsistent :
    (step : RaceStep) (r : Race) → IsConsistent r → IsConsistent (race_step step r)
unfolding race_step
race_step-IsConsistent (checks name) r h = check_start-IsConsistent name r h
race_step-IsConsistent (registers name info) r h = register_pending-IsConsistent name info r h
race_step-IsConsistent (consumes name) r h = consume_error-IsConsistent name r h
race_step-IsConsistent (returns i good) r h = call_returned-IsConsistent i good r h
race_step-IsConsistent (cleans i) r h = clean_up-IsConsistent i r h
race_step-IsConsistent (closes i) r h = close_done-IsConsistent i r h

race_steps-IsConsistent :
    (steps : List RaceStep) (r : Race) → IsConsistent r → IsConsistent (race_steps steps r)
unfolding race_steps
race_steps-IsConsistent [] r h = h
race_steps-IsConsistent (step ∷ steps) r h =
    race_steps-IsConsistent steps (race_step step r) (race_step-IsConsistent step r h)

-- However the sections of requests and the steps of the goroutines that they start are interleaved, a
-- start of these that is in the provider's call is the one that the entry of its instance points to, so
-- that no two of these goroutines are in the provider's call for the same instance. Starts of
-- dependencies are not among the steps.
pub race_steps-single :
    (steps : List RaceStep) (i : ℕ) (st : Start)
    → get_elem? (race_steps steps no_starts).starts i ≡ some st
    → st.phase ≡ calling
    → (lookup st.name (race_steps steps no_starts).entries ≡ some i)
      × ((j : ℕ) (other : Start)
          → get_elem? (race_steps steps no_starts).starts j ≡ some other
          → other.phase ≡ calling
          → other.name ≡ st.name
          → j ≡ i)
race_steps-single steps i st here calls =
    let h = race_steps-IsConsistent steps no_starts (λ k st' e w. absurd (ground (arith, e))) in
    let entry = h i st here (ground (arith, calls)) in
    (
      entry,
      λ j other there calls' same.
          ground (arith, entry, h j other there (ground (arith, calls')), same),
    )
