-- ===== src/Labels/Config.antt =====
-- What InstanceConfigFromLabels promises to the code that reads the configuration.
use sablier.Labels.Names.{contains-parse_groups}
use sablier.RunningHours.Days.{running_hours_remaining_total}
use sablier.Prelude.Int.{ℤ}
use sablier.Text.{is_empty}
use sablier.Labels.{instance_config_from_labels, kept, scale_config_from_labels, label, err}
use sablier.Prelude.{
  String, Option, ◌≡◌, if◌then◌else◌, false, Map, List, Bool-cases, ℕ, ltb, length, inl, refl,
  arith, some, ◌⊎◌, inr, none, ◌≤◌, ◌||◌,
}
use sablier.Instance.{InstanceConfig, has_resources}
use sablier.RunningHours.{
  Parsed, ok, RunningHours, parse_running_hours, LocalTime, parse_running_days,
  running_hours_remaining,
}

kept_ok {ℓ} :
    {A : Type ℓ} (p : Parsed A) (v : String)
    → is_empty (kept p v) ≡ false
    → (a : A) × (p ≡ ok a) × (kept p v ≡ v)
kept_ok (ok a) v h = (a, refl, refl)
kept_ok (err e) v h = cc

-- The texts of the window are empty or parse.
abbrev pub HasValidWindow : InstanceConfig → Type 0
HasValidWindow cfg =
    (is_empty cfg.running_hours ≡ false
      → (r : RunningHours) × (parse_running_hours cfg.running_hours ≡ ok r))
    × (is_empty cfg.running_days ≡ false
        → (ds : List ℕ) × (parse_running_days cfg.running_days ≡ ok ds))

kept_valid {ℓ} :
    {A : Type ℓ} (parse : String → Parsed A) (v : String)
    → is_empty (if is_empty v then "" else kept (parse v) v) ≡ false
    → (a : A) × (parse (if is_empty v then "" else kept (parse v) v) ≡ ok a)
kept_valid parse v h = elim (Bool-cases (is_empty v)) [
  | inl blank ↦ ground arith
  | inr full ↦ let (a, parses, same) = kept_ok (parse v) v (ground arith) in (a, ground arith)
]

instance_config-HasValidWindow :
    (parse_duration : String → Option ℤ) (labels : Map String)
    → HasValidWindow (instance_config_from_labels parse_duration labels)
unfolding instance_config_from_labels
instance_config-HasValidWindow parse_duration labels = (
  kept_valid parse_running_hours (label "sablier.running-hours" labels),
  kept_valid parse_running_days (label "sablier.running-days" labels),
)

-- A window that InstanceConfigFromLabels keeps never fails later: runningHoursRemaining has an answer
-- for it at every time.
pub running_hours_remaining-instance_config_from_labels :
    (parse_duration : String → Option ℤ) (labels : Map String) (now : LocalTime)
    → is_empty (instance_config_from_labels parse_duration labels).running_hours ≡ false
    → (left : Option ℕ) × (running_hours_remaining
          (instance_config_from_labels parse_duration labels).running_hours
          (instance_config_from_labels parse_duration labels).running_days
          now
        ≡ ok left)
running_hours_remaining-instance_config_from_labels parse_duration labels now h =
    let cfg = instance_config_from_labels parse_duration labels in
    let valid = instance_config-HasValidWindow parse_duration labels in
    running_hours_remaining_total cfg.running_hours cfg.running_days now (valid.0 h) valid.1

-- An instance has groups exactly if it is enabled, and a scale configuration unless the labels ask
-- for no replica when idle, at most one when active, and no limits.
pub groups-instance_config_from_labels :
    (parse_duration : String → Option ℤ) (labels : Map String)
    → let cfg = instance_config_from_labels parse_duration labels in
      let scale = scale_config_from_labels labels in
      (ltb 0 (length cfg.groups) ≡ cfg.enabled)
      × ((cfg.scale ≡ some scale)
          ⊎ ((cfg.scale ≡ none)
              × (scale.idle.replicas ≡ 0)
              × (scale.active.replicas ≤ 1)
              × (has_resources scale.idle ≡ false)
              × (has_resources scale.active ≡ false)))
unfolding instance_config_from_labels
groups-instance_config_from_labels parse_duration labels =
    let value = label "sablier.group" labels in
    let scale = scale_config_from_labels labels in
    let (u, listed, some_group) = contains-parse_groups value in
    (
      ground (arith, some_group),
      elim (Bool-cases (
          ltb 0 scale.idle.replicas
          || has_resources scale.idle
          || ltb 1 scale.active.replicas
          || has_resources scale.active)) [
            | inl scaled ↦ inl (rw scaled refl)
            | inr plain ↦
                inr (rw plain refl, ground arith, ground arith, ground arith, ground arith)
          ],
    )
