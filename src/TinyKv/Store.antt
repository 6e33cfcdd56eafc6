-- ===== src/TinyKv/Store.antt =====
-- pkg/tinykv/tinykv.go: the map of entries, with the heap of their timeouts.
-- The mutex makes each method one step. A reading of the clock is an argument, one for each call of
-- time.Now that a method makes. `none` is a panic, as in the heap.
pub mod View
use sablier.Prelude.{
  ◌>>=◌, ℕ, zero, suc, ◌+◌, ◌*◌, ◌/◌, String, Bool, true, false, ◌&&◌, ◌||◌, not, List, [], ◌∷◌,
  Option, none, some, ltb, leb, ◌==◌, if◌then◌else◌, length, get_elem?, Map, lookup, insert, delete,
  keys,
}
use sablier.Prelude.Int.{ℤ, pos, negsuc, sub_ℕ, ltb_ℤ, leb_ℤ}
use sablier.TinyKv.Heap.{Timeout, new_timeout, expired, heap_push, heap_pop}

pub record Entry {ℓ} (T : Type ℓ) : Type ℓ where
  pub timeout : Option Timeout
  pub value : T

-- `listening` says whether an onExpire callback is set.
pub record Store {ℓ} (T : Type ℓ) : Type ℓ where
  pub listening : Bool
  pub stopped : Bool
  pub expiration_interval : ℕ
  pub kv : Map (Entry T)
  pub heap : List Timeout

abbrev pub second : ℕ
second = 1_000_000_000

abbrev pub default_interval : ℕ
default_interval = 20 * second

module _ {ℓ} {T : Type ℓ} where
  unfoldable pub new : ℤ → Bool → Store T
  new expiration listening = record {
    listening = listening;
    stopped = false;
    expiration_interval = elim expiration [
      | pos n ↦ if n == 0 then default_interval else n
      | negsuc n ↦ default_interval
    ];
    kv = [];
    heap = [];
  }

  unfoldable pub set_on_expire : Store T → Store T
  set_on_expire s = record s { listening = true }

  unfoldable pub stop : Store T → Store T
  stop s = record s { stopped = true }

  -- The calls of the callback, each shielded from the others' panics.
  unfoldable pub notify_expirations : Map T → Bool → List (String × T)
  notify_expirations gone listening = if listening then gone else []

  pub delete_key : String → Store T → Store T
  delete_key k s = record s { kv = delete k s.kv }

  unfoldable pub get : String → ℕ → Store T → Option T × List (String × T) × Store T
  unfolding notify_expirations
  get k now s = elim (lookup k s.kv) [
    | none ↦ (none, [], s)
    | some e ↦
        if expired e.timeout now
        then (
          none,
          notify_expirations ((k, e.value) ∷ []) s.listening,
          record s { kv = delete k s.kv },
        )
        else (some e.value, [], s)
  ]

  unfoldable pub stored_keys : Store T → List String
  stored_keys s = keys s.kv

  unfoldable pub values : Map (Entry T) → List T
  values [] = []
  values ((k, e) ∷ m) = e.value ∷ values m

  -- Range: what the callback sees, each entry tested at its own reading of the clock.
  unfoldable pub range_entries : (String → ℕ) → Map (Entry T) → List (String × (T × ℕ))
  range_entries now [] = []
  range_entries now ((k, e) ∷ m) =
      let rest = range_entries now m in
      elim e.timeout [
        | none ↦ rest
        | some to ↦ if ltb to.expires_at (now k) then rest else (k, (e.value, to.expires_at)) ∷ rest
      ]

  pub put : String → T → ℤ → ℕ → Store T → Option (Store T)
  put k v expires_after now s = do
    let to = new_timeout k expires_after now
    heap ← heap_push s.heap to
    some (record s { heap = heap; kv = insert k (record { timeout = some to; value = v }) s.kv })
