-- ===== src/Race.antt =====
-- pkg/sablier/instance_request.go: the starts in the background among the critical sections of all
-- requests. Each section under pendingMu is one step, and so are the end of the provider's call, the
-- clean-up after a success and the closing of the channel. The steps come in any order. In Requests a
-- request is one step; here nothing is assumed of what comes between its sections. The starts of
-- dependencies (depStarts of pkg/sablier/instance_dependency.go), which requestStart does not look at,
-- are not among the steps.
use sablier.Instance.{InstanceInfo}
use sablier.Prelude.{
  [], ◌∷◌, some, none, true, false, inl, inr, refl, arith, suc, zero, ℕ, String, Map, Bool, set,
  get_elem?, List, Option, delete, if◌then◌else◌, length, lookup, insert, ◌==◌, ◌++◌,
}
pub mod Single
mod Tests

-- Where the goroutine of a start is: in the provider's call, before the clean-up, before the close of
-- its channel, or past it.
pub data Phase : Type 0 where
  calling : Phase
  cleaning : Phase
  closing : Phase
  closed : Phase

-- A pendingStart and its goroutine.
pub record Start : Type 0 where
  pub name : String
  pub phase : Phase
  pub has_error : Bool
  pub info : InstanceInfo

-- The map of pending starts holds pointers, which are indices in the list of all starts so far.
pub record Race : Type 0 where
  pub entries : Map ℕ
  pub starts : List Start

-- What a critical section tells its request.
pub data Section : Type 0 where
  -- a start is running; this is its cached InstanceInfo
  joined : InstanceInfo → Section
  start_error : Section
  -- there is none
  go_on : Section
  -- the request has dispatched this start
  dispatched : ℕ → Section

-- The start that the entry of a name points to.
pub entry_of : String → Race → Option (ℕ × Start)
entry_of name r = elim (lookup name r.entries) [
  | none ↦ none
  | some i ↦ elim (get_elem? r.starts i) [ none ↦ none | some st ↦ some (i, st) ]
]

abbrev pub is_done : Start → Bool
is_done st = elim st.phase [ calling ↦ false | cleaning ↦ false | closing ↦ false | closed ↦ true ]

abbrev pub drop_entry : String → Race → Race
drop_entry name r = record r { entries = delete name r.entries }

-- The first critical section of requestStart. A go_on is followed by the inspection.
pub check_start : String → Race → Section × Race
unfolding entry_of
check_start name r = elim (entry_of name r) [
  | none ↦ (go_on, r)
  | some (i, st) ↦
      if is_done st
      then (if st.has_error then start_error else go_on, drop_entry name r)
      else (joined st.info, r)
]

dispatch : String → InstanceInfo → Race → Section × Race
dispatch name info r = (
  dispatched (length r.starts),
  record r {
    entries = insert name (length r.starts) r.entries;
    starts =
        r.starts ++ record { name = name; phase = calling; has_error = false; info = info } ∷ [];
  },
)

-- The second critical section, with the info that the inspection gave.
pub register_pending : String → InstanceInfo → Race → Section × Race
unfolding entry_of dispatch
register_pending name info r = elim (entry_of name r) [
  | none ↦ dispatch name info r
  | some (i, st) ↦
      if is_done st then dispatch name info (drop_entry name r) else (joined st.info, r)
]

-- consumePendingError: joined here is its pending=true.
pub consume_error : String → Race → Section × Race
unfolding entry_of
consume_error name r = elim (entry_of name r) [
  | none ↦ (go_on, r)
  | some (i, st) ↦
      if is_done st
      then (if st.has_error then start_error else go_on, drop_entry name r)
      else (joined st.info, r)
]

move_start : ℕ → Start → Race → Race
move_start i st r = record r { starts = set r.starts i st }

-- The provider's call of start `i` returns.
call_returned : ℕ → Bool → Race → Race
unfolding move_start
call_returned i good r = elim (get_elem? r.starts i) [
  | none ↦ r
  | some st ↦ elim st.phase [
    | calling ↦
        if good
        then move_start i (record st { phase = cleaning }) r
        else move_start i (record st { phase = closing; has_error = true }) r
    | cleaning ↦ r
    | closing ↦ r
    | closed ↦ r
  ]
]

-- The clean-up: the entry goes only if it is still that of this start.
clean_up : ℕ → Race → Race
unfolding move_start
clean_up i r = elim (get_elem? r.starts i) [
  | none ↦ r
  | some st ↦ elim st.phase [
    | calling ↦ r
    | cleaning ↦
        let moved = move_start i (record st { phase = closing }) r in
        elim (lookup st.name r.entries) [
          | none ↦ moved
          | some current ↦ if current == i then drop_entry st.name moved else moved
        ]
    | closing ↦ r
    | closed ↦ r
  ]
]

close_done : ℕ → Race → Race
unfolding move_start
close_done i r = elim (get_elem? r.starts i) [
  | none ↦ r
  | some st ↦ elim st.phase [
    | calling ↦ r
    | cleaning ↦ r
    | closing ↦ move_start i (record st { phase = closed }) r
    | closed ↦ r
  ]
]

pub data RaceStep : Type 0 where
  checks : String → RaceStep
  registers : String → InstanceInfo → RaceStep
  consumes : String → RaceStep
  returns : ℕ → Bool → RaceStep
  cleans : ℕ → RaceStep
  closes : ℕ → RaceStep

pub race_step : RaceStep → Race → Race
unfolding check_start register_pending consume_error call_returned clean_up close_done
race_step (checks name) r = (check_start name r).1
race_step (registers name info) r = (register_pending name info r).1
race_step (consumes name) r = (consume_error name r).1
race_step (returns i good) r = call_returned i good r
race_step (cleans i) r = clean_up i r
race_step (closes i) r = close_done i r

pub race_steps : List RaceStep → Race → Race
unfolding race_step
race_steps [] r = r
race_steps (step ∷ steps) r = race_steps steps (race_step step r)

abbrev pub no_starts : Race
no_starts = record { entries = []; starts = [] }
