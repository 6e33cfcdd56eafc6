-- ===== src/InMemory.antt =====
-- pkg/store/inmemory/inmemory.go over TinyKv, and pkg/sablier/session_record.go: the store of sessions
-- that is kept in memory.
use sablier.Requests.{Fetched, missing, found}
use sablier.Prelude.Int.{pos}
use sablier.TinyKv.Store.View.{IsValid}
use sablier.TinyKv.Store.{Store, new, set_on_expire, delete_key, range_entries, second, get, put}
use sablier.Instance.{InstanceInfo}
use sablier.Prelude.{
  [], ◌∷◌, some, none, true, false, inl, inr, refl, arith, suc, zero, ℕ, if◌then◌else◌, String,
  List, ◌==◌, Option,
}
pub mod Laws
mod Tests

pub record SessionRecord : Type 0 where
  pub version : ℕ
  pub instance_info : InstanceInfo

abbrev pub session_record_version : ℕ
session_record_version = 1

abbrev pub new_session_record : InstanceInfo → SessionRecord
new_session_record info = record { version = session_record_version; instance_info = info }

-- A document as both decoders read it: as a record, whose version is 0 if it has none, and as the
-- bare instance of the time before versions.
pub record RecordDocument : Type 0 where
  pub as_record : SessionRecord
  pub as_instance : InstanceInfo

-- SessionRecord.UnmarshalJSON, on a document that both decoders take.
unfoldable pub decode_record : RecordDocument → SessionRecord
decode_record doc =
    if doc.as_record.version == 0 then new_session_record doc.as_instance else doc.as_record

abbrev pub InMemory : Type 0
InMemory = Store SessionRecord

-- NewInMemory
unfoldable pub new_in_memory : InMemory
new_in_memory = new (pos second) false

pub fetch : String → ℕ → InMemory → Fetched × InMemory
fetch name now kv =
    let (value, reported, kv') = get name now kv in
    elim value [ none ↦ (missing, kv') | some session ↦ (found session.instance_info, kv') ]

pub store_session : InstanceInfo → ℕ → ℕ → InMemory → Option InMemory
store_session info duration now kv = put info.name (new_session_record info) (pos duration) now kv

pub forget : String → InMemory → InMemory
forget name kv = delete_key name kv

infos : List (String × (SessionRecord × ℕ)) → List (InstanceInfo × ℕ)
infos [] = []
infos ((k, (session, expires_at)) ∷ rest) = (session.instance_info, expires_at) ∷ infos rest

-- Range: the instances and their deadlines that the callback sees.
unfoldable pub range_sessions : (String → ℕ) → InMemory → List (InstanceInfo × ℕ)
unfolding infos
range_sessions now kv = infos (range_entries now kv.kv)

-- OnExpire: the keys that the callback gets.
unfoldable pub on_expire : InMemory → InMemory
on_expire kv = set_on_expire kv

-- The store beside the provider, at one reading of the clock. A panic of the store would read as a
-- failed call; Laws shows that there is none.
pub record World {ℓ} (P : Type ℓ) : Type ℓ where
  pub sessions : InMemory
  pub sessions_valid : IsValid sessions
  pub now : ℕ
  pub provider : P
