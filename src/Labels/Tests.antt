-- ===== src/Labels/Tests.antt =====
-- Runs of the label parsers.
use sablier.Labels.Config.{running_hours_remaining-instance_config_from_labels}
use sablier.Text.{is_empty, split, trim_space, cut_last, parse_uint, atoi}
use sablier.Instance.{no_instance}
use sablier.Prelude.Int.{ℤ}
use sablier.RunningHours.{LocalTime, running_hours_remaining, ok, parse_running_hours, parse_clock}
use sablier.Labels.{
  parse_groups, parse_weight_devices, populate_enabled_and_group, instance_config_from_labels,
}
use sablier.Prelude.{Map, String, Option, ◌∷◌, ◌≡◌, ℕ, [], none, false, refl, lookup}

abbrev labels : Map String
labels =
    ("sablier.enable", "true")
    ∷ ("sablier.group", " web,db, web")
    ∷ ("sablier.idle.replicas", "1")
    ∷ ("sablier.running-hours", "22:00-06:00")
    ∷ ("sablier.running-days", "noday")
    ∷ []

abbrev no_duration : String → Option ℤ
no_duration v = none

two_groups : parse_groups " web,db, web" ≡ "web" ∷ "db" ∷ []
unfolding parse_groups split trim_space
two_groups = refl

devices :
    parse_weight_devices "/dev/sda:200, /dev/sdb:5,:70"
    ≡ record { path = "/dev/sda"; weight = 200 } ∷ []
unfolding parse_weight_devices split cut_last trim_space parse_uint
devices = refl

populated : (populate_enabled_and_group no_duration no_instance labels).groups ≡ "web" ∷ "db" ∷ []
unfolding populate_enabled_and_group instance_config_from_labels lookup parse_groups split
    trim_space
populated = refl

abbrev midnight_clock : LocalTime
midnight_clock = record { instant = 5; midnight = 5; hour = 0; minute = 0; weekday = λ t. 0 }

hours_kept : is_empty (instance_config_from_labels no_duration labels).running_hours ≡ false
unfolding instance_config_from_labels lookup parse_running_hours split parse_clock trim_space atoi
hours_kept = refl

running_hours_remaining-instance_config_from_labels_example :
    (left : Option ℕ) × (running_hours_remaining
        (instance_config_from_labels no_duration labels).running_hours
        (instance_config_from_labels no_duration labels).running_days
        midnight_clock
      ≡ ok left)
running_hours_remaining-instance_config_from_labels_example =
    running_hours_remaining-instance_config_from_labels no_duration labels midnight_clock hours_kept
