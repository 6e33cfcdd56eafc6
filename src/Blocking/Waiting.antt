-- ===== src/Blocking/Waiting.antt =====
-- A request that waits answers truthfully, and its polls slow down.
use sablier.RunningHours.{LocalTime}
use native.Mathlib.Nat.{pow-suc}
use sablier.Blocking.Names.{is_requested, request_session-names}
use sablier.Session.{session_is_ready, SessionState, instance_errors, not_ready_instances}
use sablier.Prelude.Int.{ℤ}
use sablier.Requests.{Environment, RequestError, Sablier}
use sablier.Blocking.{
  delay_before, min, longest_delay, Wake, SessionAnswer, poll, blocking_first_recheck, deadline,
  session, caller_gone, rejected, instances_failed, request_timed_out, pos, negsuc, group_not_found,
  waiting, no_names, cancelled, no_group, group_without_members, judge, await_ready,
  request_ready_session, request_session,
}
use sablier.Prelude.{
  [], ◌∷◌, true, false, inl, inr, refl, arith, suc, zero, ℕ, String, List, ◌<◌, ◌≤◌, Bool, ◌≡◌, ◌*◌,
  ◌^◌, has_key, ◌⊎◌, Bool-cases, List-cases, sym,
}

double : (k : ℕ) → blocking_first_recheck * 2 ^ suc k ≡ blocking_first_recheck * 2 ^ k * 2
double k = omega (arith, pow-suc 2 k)

-- The polls double their delay from a tenth of a second up to the longest one: at least a nanosecond
-- passes between two of them, and never more than the longest delay.
pub delay_before_bounds :
    (frequency : ℤ) (k : ℕ)
    → (0 < delay_before frequency k)
      × (delay_before frequency k ≤ longest_delay frequency)
      × (delay_before frequency k ≡ min (blocking_first_recheck * 2 ^ k) (longest_delay frequency))
unfolding delay_before min longest_delay
delay_before_bounds (pos n) zero = (ground arith, ground arith, ground arith)
delay_before_bounds (negsuc n) zero = (ground arith, ground arith, ground arith)
delay_before_bounds (pos n) (suc k) =
    let (positive, short, same) = delay_before_bounds (pos n) k in
    (ground arith, ground arith, ground (arith, double k))
delay_before_bounds (negsuc n) (suc k) =
    let (positive, short, same) = delay_before_bounds (negsuc n) k in
    (ground arith, ground arith, ground (arith, double k))

-- The deadline, or the caller's leaving, is among the events.
abbrev pub has_end {ℓ} : {W : Type ℓ} → List (Wake W) → Bool
has_end [] = false
has_end (poll now others ∷ wakes) = has_end wakes
has_end (deadline late ∷ wakes) = true
has_end (caller_gone ∷ wakes) = true

-- A session of exactly the requested names.
abbrev pub IsOf : List String → SessionState → Type 0
IsOf names st = (k : String) → has_key k st ≡ is_requested names k

-- A request goes on with a session that is neither ready nor failed.
abbrev pub IsPending : SessionState → Type 0
IsPending st = (now : ℕ) × (session_is_ready now st ≡ false) × (instance_errors st ≡ [])

-- What an answer to a request that waits for `names` says; `ended` is whether the wait had an end.
abbrev pub IsHonest : List String → Bool → SessionAnswer → Type 0
IsHonest names ended waiting = ended ≡ false
IsHonest names ended (session st) = (now : ℕ) × (session_is_ready now st ≡ true) × IsOf names st
IsHonest names ended (rejected no_names) = names ≡ []
IsHonest names ended (rejected no_group) = ⊥
IsHonest names ended (rejected (group_not_found groups)) = ⊥
IsHonest names ended (rejected group_without_members) = ⊥
IsHonest names ended (rejected cancelled) = ended ≡ true
IsHonest names ended (rejected (instances_failed errors)) =
    (st : SessionState) × IsOf names st × (errors ≡ instance_errors st) × ¬ (errors ≡ [])
IsHonest names ended (rejected (request_timed_out pending)) =
    (st : SessionState) × (late : ℕ) × (ended ≡ true)
    × IsOf names st
    × IsPending st
    × (pending ≡ not_ready_instances late st)

module _ {ℓ} {W : Type ℓ} (env : Environment W) (text : RequestError → String) where
  -- An answer that is judged final is honest, and one that the wait goes on with is pending.
  abbrev IsJudged : List String → Bool → ℕ → SessionAnswer → Type 0
  IsJudged names ended now answer =
      ((final : SessionAnswer) × (judge env text now answer ≡ inl final)
        × IsHonest names ended final)
      ⊎ ((st : SessionState) × (judge env text now answer ≡ inr st) × IsOf names st × IsPending st)

  judge_session :
      (names : List String) (ended : Bool) (now : ℕ) (st : SessionState)
      → IsOf names st
      → IsJudged names ended now (session st)
  unfolding judge
  judge_session names ended now st same = elim (Bool-cases (session_is_ready now st)) [
    | inl ready ↦ inl (session st, rw ready refl, (now, ready, same))
    | inr unready ↦ elim (List-cases (instance_errors st)) [
      | inl fine ↦ inr (st, rw (unready, fine) refl, same, (now, unready, fine))
      | inr (e, es, failed) ↦ inl (
        rejected (instances_failed (e ∷ es)),
        rw (unready, failed) refl,
        (st, same, sym failed, (λ none_failed. cc)),
      )
    ]
  ]

  -- A request for some names, judged.
  request_session-IsJudged :
      (names : List String) (ended : Bool) (duration : ℕ) (reject : Bool) (now : LocalTime) (at : ℕ)
      (s : Sablier W)
      → IsJudged names ended at (request_session env text names duration reject now s).0
  unfolding judge
  request_session-IsJudged names ended duration reject now at s =
      elim (request_session-names env text names duration reject now s) [
        | inl (none_asked, e) ↦ rw e (inl (rejected no_names, refl, none_asked))
        | inr (st, e, same, kept) ↦ rw e (judge_session names ended at st same)
      ]

  await_ready-IsHonest :
      (names : List String) (duration : ℕ) (reject : Bool) (wakes : List (Wake W))
      (last : SessionState) (s : Sablier W)
      → IsOf names last
      → IsPending last
      → IsHonest names (has_end wakes) (await_ready env text names duration reject wakes last s).0
  unfolding await_ready
  await_ready-IsHonest names duration reject [] last s same pending = refl
  await_ready-IsHonest names duration reject (deadline late ∷ wakes) last s same pending =
      (last, late, refl, same, pending, refl)
  await_ready-IsHonest names duration reject (caller_gone ∷ wakes) last s same pending = refl
  await_ready-IsHonest names duration reject (poll now others ∷ wakes) last s same pending =
      let s' = (request_session env text names duration reject now (others s)).1 in
      elim (request_session-IsJudged names (has_end wakes) duration reject now now.instant
        (others s)) [
          | inl (final, e, honest) ↦ rw (e, await_ready, IsHonest) honest
          | inr (next, e, same', pending') ↦
              rw (e, await_ready, IsHonest)
                (await_ready-IsHonest names duration reject wakes next s' same' pending')
        ]

  -- Whatever happens while a request waits, its answer is true: a session is ready and has exactly the
  -- requested names, an error of instances lists the errors of such a session and is not empty, a
  -- timeout lists the pending ones of a session that was not ready and had no errors, a request for
  -- no names is the only one refused outright, and a request only waits on while neither the
  -- deadline passed nor the caller left.
  pub request_ready_session-IsHonest :
      (names : List String) (duration : ℕ) (reject : Bool) (now : LocalTime) (wakes : List (Wake W))
      (s : Sablier W)
      → IsHonest names
          (has_end wakes)
          (request_ready_session env text names duration reject now wakes s).0
  unfolding request_ready_session
  request_ready_session-IsHonest names duration reject now wakes s =
      let s' = (request_session env text names duration reject now s).1 in
      elim (request_session-IsJudged names (has_end wakes) duration reject now now.instant s) [
        | inl (final, e, honest) ↦ rw (e, request_ready_session, IsHonest) honest
        | inr (next, e, same, pending) ↦
            rw (e, request_ready_session, IsHonest)
              (await_ready-IsHonest names duration reject wakes next s' same pending)
      ]
