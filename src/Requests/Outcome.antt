-- ===== src/Requests/Outcome.antt =====
-- What a request answers, and what it leaves in the store.
use sablier.Groups.Member.{is_member, contains-groups_of}
use sablier.RunningHours.Window.{Parsed-cases}
use sablier.Groups.{groups_of, members}
use sablier.Text.{is_empty}
use sablier.Requests.Safety.{IsStore, Progress-cases, Fetched-cases, refresh-keeps}
use sablier.Instance.{InstanceInfo, is_status, ready, not_ready}
use sablier.RunningHours.{LocalTime, running_hours_remaining, ok}
use sablier.Requests.{
  Environment, first_active, anti_affinity_hold, register_start, fresh_start, request_start, Answer,
  store_session, instance_request, effective_duration, Sablier, Fetched, info_of, refused,
  bare_info, is_group_active, found, held_info, refresh, is_live, missing, unreadable,
}
use sablier.Prelude.{
  [], ◌∷◌, some, none, true, false, inl, inr, refl, arith, ℕ, String, List, Bool, ◌≡◌, ◌≤◌, is_some,
  HasUniqueKeys, Option-cases, Bool-cases, ◌<◌, any, lookup, if◌then◌else◌, str_eq, contains,
  delete, eq_iff, ltb, ◌∙◌, sym,
}

module _ {ℓ} {W : Type ℓ} (env : Environment W) where
  first_active_lem :
      (s : Sablier W) (gs : List String)
      → (is_some (first_active env s gs) ≡ any (is_group_active env s) gs)
        × ((g : String)
            → first_active env s gs ≡ some g
            → (contains gs g ≡ true) × (is_group_active env s g ≡ true))
  unfolding first_active
  first_active_lem s [] = (refl, λ g e. absurd (ground arith))
  first_active_lem s (h ∷ gs) = elim (Bool-cases (is_group_active env s h)) [
    | inl active ↦ (ground arith, λ g e. (ground (arith, eq_iff h g), ground (arith, eq_iff h g)))
    | inr idle ↦ (
      ground (arith, (first_active_lem s gs).0),
      λ g e.
          let (listed, active) = (first_active_lem s gs).1 g (ground arith) in
          (ground arith, active),
    )
  ]

  -- A session that can be read.
  abbrev pub is_found : Fetched → Bool
  is_found (found info) = true
  is_found missing = false
  is_found unreadable = false

  pub is_live_lem : (w : W) (name : String) → is_live env w name ≡ is_found (env.get_session name w)
  unfolding is_live
  is_live_lem w name = go (env.get_session name w)
    where
      go :
          (f : Fetched)
          → elim f as (λ _. Bool) [ found info ↦ true | missing ↦ false | unreadable ↦ false ]
            ≡ is_found f
      go (found info) = refl
      go missing = refl
      go unreadable = refl

  -- Some member of the group has a session that can be read.
  abbrev pub has_live_member : Sablier W → String → Bool
  has_live_member s group =
      any (λ member. is_found (env.get_session member s.world)) (members group s.groups)

  any_live :
      (w : W) (names : List String)
      → any (is_live env w) names ≡ any (λ member. is_found (env.get_session member w)) names
  any_live w [] = refl
  any_live w (name ∷ names) = ground (arith, is_live_lem w name, any_live w names)

  is_group_active-has_live_member :
      (s : Sablier W) (g : String) → is_group_active env s g ≡ has_live_member s g
  unfolding is_group_active
  is_group_active-has_live_member s g = any_live s.world (members g s.groups)

  any_active :
      (s : Sablier W) (gs : List String)
      → any (is_group_active env s) gs ≡ any (has_live_member s) gs
  any_active s [] = refl
  any_active s (g ∷ gs) = ground (arith, is_group_active-has_live_member s g, any_active s gs)

  -- If the index of anti-affinity has unique keys and the name is not empty: a group that holds the name
  -- back is found exactly if one of the groups that the name backs off from has a member whose session
  -- can be read, and the group found is such a group. The request then answers that the instance of this
  -- name is not ready, with the message about the group, and changes nothing at all.
  pub instance_request-hold :
      (name : String) (duration : ℕ) (reject : Bool) (now : LocalTime) (s : Sablier W)
      → HasUniqueKeys s.anti_affinity
      → is_empty name ≡ false
      → (is_some (anti_affinity_hold env s name)
          ≡ any (has_live_member s) (groups_of name s.anti_affinity))
        × ((g : String)
            → anti_affinity_hold env s name ≡ some g
            → (is_member name g s.anti_affinity ≡ true)
              × (has_live_member s g ≡ true)
              × (info : InstanceInfo) × (instance_request env name duration reject now s
                  ≡ (info_of info, s))
              × (info.name ≡ name)
              × (info.status ≡ not_ready)
              × (info.message ≡ env.hold_message g))
  unfolding anti_affinity_hold instance_request held_info bare_info
  instance_request-hold name duration reject now s u named =
      let (some_active, which) = first_active_lem s (groups_of name s.anti_affinity) in
      (
        some_active ∙ any_active s (groups_of name s.anti_affinity),
        λ g e.
            let (listed, active) = which g e in
            (
              ground (arith, contains-groups_of name g s.anti_affinity u, listed),
              sym (is_group_active-has_live_member s g) ∙ active,
              held_info env name g,
              ground (arith, named, e),
              refl,
              refl,
              refl,
            ),
      )

  register_start-world :
      (name : String) (info : InstanceInfo) (s : Sablier W)
      → (register_start env name info s).1.world ≡ s.world
  unfolding register_start
  register_start-world name info s = refl

  fresh_start-world :
      (name : String) (reject : Bool) (s : Sablier W)
      → (fresh_start env name reject s).1.world ≡ s.world
  unfolding fresh_start
  fresh_start-world name reject s = elim (Option-cases (env.inspect_instance name s.world)) [
    | inl unknown ↦ ground (arith, register_start-world name (bare_info name) s)
    | inr (info, known) ↦ ground (arith, register_start-world name info s)
  ]

  pub request_start-world :
      (name : String) (reject : Bool) (s : Sablier W)
      → (request_start env name reject s).1.world ≡ s.world
  unfolding request_start
  request_start-world name reject s = elim (Option-cases (lookup name s.pending_starts)) [
    | inl idle ↦ ground (arith, fresh_start-world name reject s)
    | inr (ps, entry) ↦ elim (Progress-cases ps.progress) [
      | inl runs ↦ ground arith
      | inr (inl good) ↦ ground (
        arith,
        fresh_start-world name reject (record s { pending_starts = delete name s.pending_starts }),
      )
      | inr (inr bad) ↦ ground arith
    ]
  ]

  -- The session of `y` after an answer: that of the instance answered with, or the one before.
  abbrev pub session_after : Answer → W → String → Fetched
  session_after (info_of info) w y = if str_eq info.name y then found info else env.get_session y w
  session_after (refused e) w y = env.get_session y w

  store_session-session :
      (duration : ℕ) (now : LocalTime) (r : Answer × Sablier W) (y : String)
      → IsStore env
      → env.get_session y (store_session env duration now r).1.world
        ≡ session_after (store_session env duration now r).0 r.1.world y
  unfolding store_session
  store_session-session duration now (refused e, s) y laws = refl
  store_session-session duration now (info_of state, s) y laws =
      let d = effective_duration env state duration now in
      elim (Bool-cases (env.put_session state d s.world).0) [
        | inl stored ↦ ground (arith, laws.get_put state d s.world y)
        | inr lost ↦ ground (arith, laws.get_put state d s.world y)
      ]

  -- A request that is not held back keeps the instance that it answers with as the session of that
  -- name and leaves every other session. A request that is refused leaves all of them.
  pub instance_request-session :
      (name : String) (duration : ℕ) (reject : Bool) (now : LocalTime) (s : Sablier W) (y : String)
      → IsStore env
      → anti_affinity_hold env s name ≡ none
      → env.get_session y (instance_request env name duration reject now s).1.world
        ≡ session_after (instance_request env name duration reject now s).0 s.world y
  unfolding instance_request
  instance_request-session name duration reject now s y laws free =
      elim (Bool-cases (is_empty name)) [
        | inl blank ↦ ground arith
        | inr named ↦ elim (Fetched-cases (env.get_session name s.world)) [
          | inl (state, here) ↦ elim (Bool-cases (is_status state.status ready)) [
            | inl up ↦ ground (arith, store_session-session duration now (info_of state, s) y laws)
            | inr down ↦ ground (
              arith,
              store_session-session duration now (refresh env name state now.instant s) y laws,
              refresh-keeps env name state now.instant s,
            )
          ]
          | inr (inl absent) ↦ ground (
            arith,
            store_session-session duration now (request_start env name reject s) y laws,
            request_start-world name reject s,
          )
          | inr (inr broken) ↦ ground arith
        ]
      ]

  -- A session lasts at least as long as asked for. It lasts longer only up to the end of a window of
  -- running hours that is open.
  pub effective_duration_bounds :
      (state : InstanceInfo) (duration : ℕ) (now : LocalTime)
      → (duration ≤ effective_duration env state duration now)
        × (duration < effective_duration env state duration now
            → running_hours_remaining state.running_hours state.running_days now
              ≡ ok (some (effective_duration env state duration now)))
  unfolding effective_duration
  effective_duration_bounds state duration now = elim (Bool-cases (is_empty state.running_hours)) [
    | inl none_set ↦ (ground arith, λ h. absurd (ground arith))
    | inr set_hours ↦
        elim (Parsed-cases (running_hours_remaining state.running_hours state.running_days now)) [
          | inl (e, bad) ↦ (ground arith, λ h. absurd (ground arith))
          | inr (none, shut) ↦ (ground arith, λ h. absurd (ground arith))
          | inr (some left, open_now) ↦ elim (Bool-cases (ltb duration left)) [
            | inl longer ↦ (ground arith, λ h. ground arith)
            | inr shorter ↦ (ground arith, λ h. absurd (ground arith))
          ]
        ]
  ]
