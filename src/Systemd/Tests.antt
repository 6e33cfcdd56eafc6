-- ===== src/Systemd/Tests.antt =====
-- A unit that keeps running with less of its disk while it is idle.

use sablier.Text.{parse_uint}
use sablier.Prelude.Int.{pos}
use sablier.Systemd.Limits.{values, limit_name, read_iops, wanted}
use sablier.Systemd.{
  Manager, properties_to_set, Property, property_names, devices, amount, max_uint64,
}
use sablier.Instance.{ResourceProfile}
use sablier.Prelude.{[], ◌∷◌, some, true, refl, List, String, ◌≡◌, ◌++◌}
use sablier.Systemd.Resets.{properties_to_set-values}

abbrev nothing : ResourceProfile
nothing = record {
  replicas = 1;
  cpu = "";
  memory = "";
  blkio_weight = 0;
  blkio_weight_device = [];
  blkio_device_read_bps = [];
  blkio_device_write_bps = [];
  blkio_device_read_iops = [];
  blkio_device_write_iops = [];
}

abbrev active : ResourceProfile
active = record nothing {
  cpu = "2";
  blkio_device_read_iops = record { path = "/dev/sda"; rate = "900" } ∷ [];
}

abbrev idle : ResourceProfile
idle = record nothing {
  memory = "64m";
  blkio_device_read_iops = record { path = "/dev/sda"; rate = "10" } ∷ [];
}

-- The world is what the manager was asked for.
abbrev host : Manager (List String)
host = record {
  labels = λ name w. some (
      ("sablier.enable", "true")
      ∷ ("sablier.idle.replicas", "1")
      ∷ ("sablier.idle.memory", "64m")
      ∷ []);
  set_properties = λ name props w. (true, property_names props ++ w);
  start_unit = λ name w. (true, name ∷ w);
  stop_unit = λ name w. (true, "stop" ∷ w);
  ram_in_bytes = λ v. some (pos 67108864);
  parse_cpu_quota = λ v. some 2000000;
}

abbrev sent : List Property
sent =
    record { name = "IOReadIOPSMax"; value = devices [] }
    ∷ record { name = "CPUQuotaPerSecUSec"; value = amount 2000000 }
    ∷ record { name = "MemoryMax"; value = amount max_uint64 }
    ∷ record {
      name = "IOReadIOPSMax";
      value = devices (record { path = "/dev/sda"; value = 900 } ∷ []);
    }
    ∷ []

properties_to_set_active : properties_to_set host active idle ≡ some sent
unfolding properties_to_set parse_uint
properties_to_set_active = refl

properties_to_set-values_example :
    values (limit_name read_iops) sent ≡ wanted host read_iops active idle
properties_to_set-values_example =
    properties_to_set-values host active idle sent read_iops properties_to_set_active
