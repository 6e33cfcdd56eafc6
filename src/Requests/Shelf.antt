-- ===== src/Requests/Shelf.antt =====
-- A concrete world: the map of its sessions, in which each instance is ready.
use sablier.Instance.{InstanceInfo, no_instance, ready}
use sablier.Requests.{Environment, missing, found}
use sablier.Prelude.{some, none, true, Map, lookup, insert, delete}

abbrev pub shelf : Environment (Map InstanceInfo)
shelf = record {
  get_session = λ name w. elim (lookup name w) [ none ↦ missing | some info ↦ found info ];
  put_session = λ info d w. (true, insert info.name info w);
  delete_session = λ name w. (true, delete name w);
  stop_instance = λ name w. (true, w);
  inspect_instance = λ name w. some (record no_instance { name = name; status = ready });
  hold_message = λ group. group;
}
