-- ===== src/InMemory/Laws.antt =====
-- The in-memory store keeps what the clients of a session store rely on.
use sablier.Prelude.Int.{pos}
use sablier.TinyKv.Store.{get, delete_key}
use sablier.Requests.Safety.{IsStore}
use sablier.TinyKv.Store.View.{
  IsValid, view, put-view, delete_key-IsValid, delete_key-view, get-view,
}
use sablier.Requests.{Fetched, Environment, missing, found}
use sablier.Instance.{InstanceInfo}
use sablier.InMemory.{
  fetch, store_session, forget, SessionRecord, InMemory, World, new_session_record,
}
use sablier.Prelude.{
  some, none, true, inl, inr, refl, arith, ℕ, Option, String, Bool, ◌≡◌, if◌then◌else◌, str_eq, ◌∙◌,
  Option-cases,
}

-- What a fetch answers, as a view of the store.
abbrev pub fetched : Option SessionRecord → Fetched
fetched none = missing
fetched (some session) = found session.instance_info

pub fetch-view :
    (name : String) (now : ℕ) (kv : InMemory)
    → ((fetch name now kv).0 ≡ fetched (view kv now name))
      × ((fetch name now kv).1 ≡ (get name now kv).2)
unfolding fetch
fetch-view name now kv = elim (Option-cases (get name now kv).0) [
  | inl gone ↦ (ground (arith, gone, (get-view name now kv).0), ground (arith, gone))
  | inr (session, here) ↦ (ground (arith, here, (get-view name now kv).0), ground (arith, here))
]

-- Put, then Get at once: the instance that was put under its own name, and every other session as it
-- was. The call never panics and the store stays valid.
pub fetch-store_session :
    (info : InstanceInfo) (duration now : ℕ) (kv : InMemory)
    → IsValid kv
    → (kv' : InMemory) × (store_session info duration now kv ≡ some kv')
      × IsValid kv'
      × ((name : String)
          → (fetch name now kv').0
            ≡ (if str_eq info.name name then found info else (fetch name now kv).0))
unfolding store_session
fetch-store_session info duration now kv valid =
    let (kv', run, valid', shows) =
      put-view info.name (new_session_record info) (pos duration) now kv valid in
    (
      kv',
      run,
      valid',
      λ name.
          (fetch-view name now kv').0 ∙ ground (arith, shows name now, (fetch-view name now kv).0),
    )

pub fetch-forget :
    (gone : String) (now : ℕ) (kv : InMemory)
    → IsValid kv
    → IsValid (forget gone kv)
      × ((name : String)
          → (fetch name now (forget gone kv)).0
            ≡ (if str_eq gone name then missing else (fetch name now kv).0))
unfolding forget
fetch-forget gone now kv valid = (
  delete_key-IsValid gone kv valid,
  λ name.
      (fetch-view name now (delete_key gone kv)).0
      ∙ ground (arith, delete_key-view gone name now kv, (fetch-view name now kv).0),
)

module _ {ℓ} {P : Type ℓ} (stop : String → P → Bool × P)
    (inspect : String → P → Option InstanceInfo) (message : String → String) where
  -- The calls of Requests on the in-memory store and a provider.
  abbrev pub in_memory_environment : Environment (World P)
  in_memory_environment = record {
    get_session = λ name w. (fetch name w.now w.sessions).0;
    put_session = λ info d w.
        let put_in = fetch-store_session info d w.now w.sessions w.sessions_valid in
        (true, record w { sessions = put_in.0; sessions_valid = put_in.2 });
    delete_session = λ name w. (
      true,
      record w {
        sessions = forget name w.sessions;
        sessions_valid = (fetch-forget name w.now w.sessions w.sessions_valid).0;
      },
    );
    stop_instance =
        λ name w. let (good, p) = stop name w.provider in (good, record w { provider = p });
    inspect_instance = λ name w. inspect name w.provider;
    hold_message = message;
  }

  -- The in-memory store is a session store in the sense that the requests rely on.
  pub in_memory-IsStore : IsStore in_memory_environment
  in_memory-IsStore = record {
    get_put =
        λ info d w name. (fetch-store_session info d w.now w.sessions w.sessions_valid).3 name;
    get_delete = λ gone w name. (fetch-forget gone w.now w.sessions w.sessions_valid).1 name;
    get_stop = λ stopped_name w name. refl;
  }
