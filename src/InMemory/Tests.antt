-- ===== src/InMemory/Tests.antt =====
-- Runs of the in-memory store.
use sablier.TinyKv.Store.{set_on_expire, range_entries, new}
use sablier.InMemory.Laws.{in_memory_environment, in_memory-IsStore}
use sablier.Requests.Safety.{IsStore}
use sablier.InMemory.{decode_record, on_expire, range_sessions, new_in_memory, new_session_record}
use sablier.Instance.{InstanceInfo, no_instance}
use sablier.Prelude.{[], ◌∷◌, none, true, refl, ◌≡◌, List, String}

abbrev web : InstanceInfo
web = record no_instance { name = "web" }

upgraded :
    decode_record (record {
      as_record = record { version = 0; instance_info = no_instance };
      as_instance = web;
    })
    ≡ new_session_record web
unfolding decode_record
upgraded = refl

listens : (on_expire new_in_memory).listening ≡ true
unfolding on_expire new_in_memory set_on_expire
listens = refl

nothing_yet : range_sessions (λ k. 5) new_in_memory ≡ []
unfolding range_sessions new_in_memory range_entries new
nothing_yet = refl

in_memory-IsStore_example :
    IsStore (
      in_memory_environment {P = List String}
        (λ name p. (true, name ∷ p))
        (λ name p. none)
        (λ g. g))
in_memory-IsStore_example =
    in_memory-IsStore {P = List String} (λ name p. (true, name ∷ p)) (λ name p. none) (λ g. g)
