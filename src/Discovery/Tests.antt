-- ===== src/Discovery/Tests.antt =====
-- Runs of the scans, in a world that is the map of its sessions.
use sablier.Discovery.Unregistered.{
  stop_all_unregistered-session, warm_all_unregistered-kept, stopped_in_turn, without_session,
}
use sablier.Discovery.{stop_all_unregistered, warm_all_unregistered, is_started_by_us}
use sablier.Instance.{InstanceInfo, no_instance, ready}
use sablier.Requests.Safety.{IsStore}
use sablier.Requests.{Environment, Sablier, missing, found, is_live}
use sablier.Prelude.{
  [], ◌∷◌, some, none, true, refl, arith, String, lookup, Map, lookup-insert, ◌≡◌, lookup-delete,
  insert, delete, has_key,
}

abbrev shelf : Environment (Map InstanceInfo)
shelf = record {
  get_session = λ name w. elim (lookup name w) [ none ↦ missing | some info ↦ found info ];
  put_session = λ info d w. (true, insert info.name info w);
  delete_session = λ name w. (true, delete name w);
  stop_instance = λ name w. (true, w);
  inspect_instance = λ name w. some (record no_instance { name = name; status = ready });
  hold_message = λ group. group;
}

shelf-IsStore : IsStore shelf
shelf-IsStore = record {
  get_put = λ info d w name. ground (arith, lookup-insert info.name name info w);
  get_delete = λ gone w name. ground (arith, lookup-delete gone name w);
  get_stop = λ stopped_name w name. refl;
}

own_name :
    (n : String) (v : Map InstanceInfo) (i : InstanceInfo)
    → shelf.inspect_instance n v ≡ some i
    → i.name ≡ n
own_name n v i e = ground (arith, e)

abbrev web : InstanceInfo
web = record no_instance { name = "web" }

abbrev lone : Sablier (Map InstanceInfo)
lone = record {
  groups = [];
  anti_affinity = [];
  suppressed = [];
  pending_starts = [];
  world = ("web", web) ∷ [];
}

web_live : shelf.get_session "web" lone.world ≡ found web
unfolding lookup
web_live = refl

stopped_ones : (stop_all_unregistered shelf ("web" ∷ "db" ∷ []) lone).0 ≡ "db" ∷ []
unfolding stop_all_unregistered lookup
stopped_ones = refl

stop_all_unregistered-session_example :
    ((stop_all_unregistered shelf ("web" ∷ "db" ∷ []) lone).1 ≡ record lone {
      world =
          stopped_in_turn shelf (without_session shelf lone.world ("web" ∷ "db" ∷ [])) lone.world;
    })
    × (shelf.get_session "db" (stop_all_unregistered shelf ("web" ∷ "db" ∷ []) lone).1.world
        ≡ shelf.get_session "db" lone.world)
stop_all_unregistered-session_example =
    stop_all_unregistered-session shelf ("web" ∷ "db" ∷ []) lone "db" shelf-IsStore

warm_all_unregistered-kept_example :
    shelf.get_session "web" (warm_all_unregistered shelf 60 ("web" ∷ "db" ∷ []) lone).world
    ≡ found web
warm_all_unregistered-kept_example =
    warm_all_unregistered-kept shelf 60 ("web" ∷ "db" ∷ []) lone "web" web shelf-IsStore own_name
      web_live

web_ours : is_started_by_us shelf lone "web" ≡ true
unfolding is_started_by_us has_key is_live lookup
web_ours = refl
