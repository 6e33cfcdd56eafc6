-- ===== src/Session.antt =====
-- pkg/sablier/session.go: what a request for a session answers with. A nil map of instances is an
-- empty one. Errors are their texts.
use sablier.Instance.{InstanceInfo, is_ready}
use sablier.Prelude.{
  [], ◌∷◌, some, none, true, false, inl, inr, refl, arith, suc, zero, ℕ, Map, Bool, String, List,
  Option, if◌then◌else◌, not, ◌==◌, ltb,
}
use Prim.Native.Char.{code}
pub mod Ready
mod Tests

pub record InstanceInfoWithError : Type 0 where
  pub instance_info : InstanceInfo
  pub error : Option String
  pub optional : Bool

abbrev pub SessionState : Type 0
SessionState = Map InstanceInfoWithError

-- The test that IsReady and NotReadyInstances share.
abbrev pub is_pending : ℕ → InstanceInfoWithError → Bool
is_pending now v =
    if v.optional
    then false
    else elim v.error [ some e ↦ true | none ↦ not (is_ready now v.instance_info) ]

pub session_is_ready : ℕ → SessionState → Bool
session_is_ready now [] = true
session_is_ready now ((k, v) ∷ s) = if is_pending now v then false else session_is_ready now s

-- Go's order of strings, on code points.
unfoldable pub name_before : String → String → Bool
name_before String.[] String.[] = false
name_before String.[] (String.◌∷◌ d t) = true
name_before (String.◌∷◌ c s) String.[] = false
name_before (String.◌∷◌ c s) (String.◌∷◌ d t) =
    let rest = name_before s t in if code c == code d then rest else ltb (code c) (code d)

insert_by_name : InstanceInfoWithError → List InstanceInfoWithError → List InstanceInfoWithError
unfolding name_before
insert_by_name v [] = v ∷ []
insert_by_name v (w ∷ ws) =
    if name_before w.instance_info.name v.instance_info.name
    then w ∷ insert_by_name v ws
    else v ∷ w ∷ ws

sort_by_name : List InstanceInfoWithError → List InstanceInfoWithError
sort_by_name [] = []
sort_by_name (v ∷ vs) = insert_by_name v (sort_by_name vs)

pending_of : ℕ → SessionState → List InstanceInfoWithError
pending_of now [] = []
pending_of now ((k, v) ∷ s) =
    let rest = pending_of now s in if is_pending now v then v ∷ rest else rest

pub not_ready_instances : ℕ → SessionState → List InstanceInfoWithError
unfolding pending_of
not_ready_instances now s = sort_by_name (pending_of now s)

-- The errors that InstanceErrors joins, each with its key. None is a nil error.
pub instance_errors : SessionState → List (String × String)
instance_errors [] = []
instance_errors ((k, v) ∷ s) =
    let rest = instance_errors s in
    if v.optional then rest else elim v.error [ some e ↦ (k, e) ∷ rest | none ↦ rest ]

unfoldable pub status_of : ℕ → SessionState → String
status_of now s = if session_is_ready now s then "ready" else "not-ready"
