-- ===== src/KeepWarm/Sweep.antt =====
-- A sweep of the running hours makes exactly the requests of the windows that are open.
use mathlib.Core.Path.{fun_ext}
use sablier.RunningHours.Days.{
  running_hours_remaining_bounds, IsOpenFor, running_hours_remaining-IsOpenFor,
}
use sablier.Text.{is_empty}
use sablier.Requests.Inspected.{IsInspectStable, instance_request-inspected}
use sablier.RunningHours.Window.{IsRegular, Parsed-cases}
use sablier.KeepWarm.{time_left, keep_each_warm, keep_warm, reconcile_running_hours}
use sablier.Instance.{InstanceInfo, is_enabled}
use sablier.RunningHours.{LocalTime, day_length, running_hours_remaining, ok}
use sablier.Requests.{Environment, Sablier, instance_request}
use sablier.Prelude.{
  [], ◌∷◌, some, none, false, inl, inr, refl, arith, ℕ, List, String, ◌<◌, ◌≡◌, ◌≤◌, Bool-cases,
  Option-cases, ◌∙◌, ap, Option, ◌⊎◌, subst, true,
}

-- The instance has a window of running hours that is open, with time left to its end.
abbrev pub IsInWindow : InstanceInfo → LocalTime → ℕ → Type 0
IsInWindow info now left =
    (is_empty info.running_hours ≡ false)
    × (0 < left)
    × IsOpenFor info.running_hours info.running_days now left

-- The requests that a listing calls for: of each instance that is enabled, can be inspected and is in an
-- open window, the name that its inspection gives, with the time left; of no other instance any.
abbrev pub AreWanted :
    LocalTime → List InstanceInfo → (String → Option InstanceInfo) → List (String × ℕ) → Type 0
AreWanted now [] inspect asked = asked ≡ []
AreWanted now (configured ∷ rest) inspect asked =
    ((((is_enabled configured ≡ false)
        ⊎ ((inspect configured.name ≡ none)
            ⊎ ((info : InstanceInfo) × (inspect configured.name ≡ some info)
                × ((left : ℕ) → ¬ IsInWindow info now left)))))
      × AreWanted now rest inspect asked)
    ⊎ ((is_enabled configured ≡ true)
        × (info : InstanceInfo) × (left : ℕ) × (later : List (String × ℕ)) × (inspect
              configured.name
            ≡ some info)
        × IsInWindow info now left
        × (asked ≡ (info.name, left) ∷ later)
        × AreWanted now rest inspect later)

module _ {ℓ} {W : Type ℓ} (env : Environment W) where
  abbrev pub request_all : LocalTime → List (String × ℕ) → Sablier W → Sablier W
  request_all now [] s = s
  request_all now ((name, remaining) ∷ rest) s =
      request_all now rest (instance_request env name remaining false now s).1

  -- Requests for a time that is above zero and at most a day.
  abbrev pub IsBrief : List (String × ℕ) → Type 0
  IsBrief [] = Unit {0}
  IsBrief ((name, remaining) ∷ rest) = (0 < remaining) × (remaining ≤ day_length) × IsBrief rest

  -- What the provider answers now.
  abbrev pub inspected : W → String → Option InstanceInfo
  inspected w name = env.inspect_instance name w

  time_left-IsInWindow :
      (info : InstanceInfo) (now : LocalTime) (left : ℕ)
      → IsRegular now
      → time_left env info now ≡ some left
      → IsInWindow info now left × (left ≤ day_length)
  unfolding time_left
  time_left-IsInWindow info now left regular e = elim (Bool-cases (is_empty info.running_hours)) [
    | inl none_set ↦ absurd (ground arith)
    | inr set_hours ↦
        elim (Parsed-cases (running_hours_remaining info.running_hours info.running_days now)) [
          | inl (bad, failed) ↦ absurd (ground arith)
          | inr (none, shut) ↦ absurd (ground arith)
          | inr (some remaining, open_now) ↦
              let same : remaining ≡ left = ground arith in
              let (r, parsed, inside, on, until, above, short) =
                running_hours_remaining_bounds info.running_hours info.running_days now left regular
                  (open_now ∙ ap (λ n. ok (some n)) same) in
              ((set_hours, above, (r, parsed, inside, on, until)), short)
        ]
  ]

  IsInWindow-time_left :
      (info : InstanceInfo) (now : LocalTime) (left : ℕ)
      → IsRegular now
      → IsInWindow info now left
      → time_left env info now ≡ some left
  unfolding time_left
  IsInWindow-time_left info now left regular (set_hours, above, open_now) =
      rw
        (
          time_left,
          set_hours,
          running_hours_remaining-IsOpenFor info.running_hours info.running_days now left regular
              open_now,
        )
        (ground (arith, above))

  keep_each_warm-requests :
      (now : LocalTime) (instances : List InstanceInfo) (s : Sablier W)
      → IsInspectStable env
      → IsRegular now
      → (asked : List (String × ℕ)) × AreWanted now instances (inspected s.world) asked
        × (keep_each_warm env now instances s ≡ request_all now asked s)
        × IsBrief asked
  unfolding keep_each_warm keep_warm
  keep_each_warm-requests now [] s stable regular = ([], refl, refl, tt)
  keep_each_warm-requests now (configured ∷ rest) s stable regular =
      let (asked, are_wanted, same, brief) = keep_each_warm-requests now rest s stable regular in
      elim (Bool-cases (is_enabled configured)) [
        | inr disabled ↦ (asked, inl (inl disabled, are_wanted), rw disabled same, brief)
        | inl enabled ↦ elim (Option-cases (env.inspect_instance configured.name s.world)) [
          | inl unknown ↦
              (asked, inl (inr (inl unknown), are_wanted), rw (enabled, unknown) same, brief)
          | inr (info, known) ↦ elim (Option-cases (time_left env info now)) [
            | inl shut ↦ (
              asked,
              inl (
                inr (
                    inr (
                      info,
                      known,
                      λ left is_open_now.
                          ground
                            (arith, shut, IsInWindow-time_left info now left regular is_open_now),
                    )),
                are_wanted,
              ),
              rw (enabled, known, shut) same,
              brief,
            )
            | inr (remaining, open_now) ↦
                let s' = (instance_request env info.name remaining false now s).1 in
                let unchanged : inspected s'.world ≡ inspected s.world = fun_ext (λ name.
                  instance_request-inspected env info.name remaining false now s name stable) in
                let (later, are_wanted', same', brief') =
                  keep_each_warm-requests now rest s' stable regular in
                let (in_window, short) = time_left-IsInWindow info now remaining regular open_now in
                (
                  (info.name, remaining) ∷ later,
                  inr (
                    enabled,
                    info,
                    remaining,
                    later,
                    known,
                    in_window,
                    refl,
                    subst (λ f. AreWanted now rest f later) unchanged are_wanted',
                  ),
                  rw (enabled, known, open_now) same',
                  (in_window.1, short, brief'),
                )
          ]
        ]
      ]

  -- A sweep asks for exactly the instances that are enabled, can be inspected and are in an open
  -- window, in the order of the listing, each for the time that is left of its window, which is above
  -- zero and at most a day. A window is open if its hours parse, the minute of the reading lies in them,
  -- and the day on which it began is allowed. This holds if the parts of the reading of the clock agree
  -- and storing a session does not change what is inspected, which is what the provider says when the
  -- sweep begins.
  pub reconcile_running_hours-requests :
      (instances : List InstanceInfo) (now : LocalTime) (s : Sablier W)
      → IsInspectStable env
      → IsRegular now
      → (asked : List (String × ℕ)) × AreWanted now instances (inspected s.world) asked
        × (reconcile_running_hours env (some instances) now s ≡ request_all now asked s)
        × IsBrief asked
  unfolding reconcile_running_hours
  reconcile_running_hours-requests instances now s stable regular =
      keep_each_warm-requests now instances s stable regular
