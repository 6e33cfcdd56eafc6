-- ===== src/Api/Blocking.antt =====
-- What an answer of the blocking handler means.
-- The names that a request is about.
use sablier.Text.{is_empty}
use sablier.Session.{session_is_ready}
use sablier.Blocking.Waiting.{IsOf}
use sablier.Blocking.{SessionError, group_members}
use sablier.Api.{Reply, session_response, problem, no_reply, is_invalid}
use sablier.Requests.{Environment, RequestError, Sablier}
use sablier.Prelude.{
  [], ◌∷◌, true, false, inr, arith, ℕ, List, String, Bool, ◌⊎◌, ◌≡◌, ltb, not, length, ◌&&◌, ◌||◌,
}

abbrev pub target {ℓ} :
    {W : Type ℓ}
    → Environment W
    → (RequestError → String)
    → List String
    → String
    → Sablier W
    → SessionError ⊎ List String
target env text [] group s = group_members env text group s
target env text (name ∷ names) group s = inr (name ∷ names)

-- Exactly one of the two is given: some names, or a group.
abbrev pub has_one_target : List String → String → Bool
has_one_target names group =
    (ltb 0 (length names) && is_empty group) || (not (ltb 0 (length names)) && not (is_empty group))

pub is_invalid-has_one_target :
    (names : List String) (group : String)
    → is_invalid names group ≡ not (has_one_target names group)
unfolding is_invalid
is_invalid-has_one_target [] group = ground arith
is_invalid-has_one_target (name ∷ names) group = ground arith

pub is_target :
    (names : List String) (group : String)
    → is_invalid names group ≡ false
    → has_one_target names group ≡ true
is_target names group h = ground (arith, h, is_invalid-has_one_target names group)

pub is_no_target :
    (names : List String) (group : String)
    → is_invalid names group ≡ true
    → has_one_target names group ≡ false
is_no_target names group h = ground (arith, h, is_invalid-has_one_target names group)

-- What a reply says of the names: a session is ready and has exactly these, and a timeout and a
-- handler that waits on agree with the end of the wait. No reply about names is 400.
abbrev pub IsTrueOf : List String → Bool → Reply → Type 0
IsTrueOf names ended (session_response st) =
    (now : ℕ) × (session_is_ready now st ≡ true) × IsOf names st
IsTrueOf names ended no_reply = ended ≡ false
IsTrueOf names ended (problem status) = (status ≡ 504 → ended ≡ true) × ¬ (status ≡ 400)
