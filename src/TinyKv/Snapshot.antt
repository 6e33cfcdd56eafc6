-- ===== src/TinyKv/Snapshot.antt =====
-- pkg/tinykv/tinykv.go: the snapshot of a store, MarshalJSON and UnmarshalJSON. A document is what its
-- JSON says: for each key the value and the deadline, which both survive the encoding unchanged.
use sablier.Prelude.Int.{ℤ, sub_ℕ}
use sablier.TinyKv.Store.{Entry, Store, put}
use sablier.Prelude.{
  [], ◌∷◌, some, none, true, false, inl, inr, refl, arith, suc, zero, ℕ, Map, Option, String,
  if◌then◌else◌, ltb, ◌>>=◌,
}
pub mod Restore

-- The three readings of the clock that the restoring of one entry makes: for the test of the
-- deadline, for the time that is left, and when the entry is put.
pub record Readings : Type 0 where
  pub tested : ℕ
  pub measured : ℕ
  pub stored : ℕ

module _ {ℓ} {T : Type ℓ} where
  -- `none` is an error: an entry without a timeout has no encoding.
  unfoldable pub marshal : Map (Entry T) → Option (Map (T × ℕ))
  marshal [] = some []
  marshal ((k, e) ∷ kv) = do
    to ← e.timeout
    rest ← marshal kv
    some ((k, (e.value, to.expires_at)) ∷ rest)

  -- The entries that have not expired, each with the time that is left.
  minimal_entry : Readings → T × ℕ → Option (T × ℤ)
  minimal_entry now (value, expires_at) =
      if ltb now.tested expires_at then some (value, sub_ℕ expires_at now.measured) else none

  unfoldable pub unmarshal : (String → Readings) → Map (T × ℕ) → Store T → Option (Store T)
  unfolding minimal_entry
  unmarshal clock [] s = some s
  unmarshal clock ((k, saved) ∷ doc) s = elim (minimal_entry (clock k) saved) [
    | none ↦ unmarshal clock doc s
    | some (value, left) ↦ put k value left (clock k).stored s >>= λ s'. unmarshal clock doc s'
  ]
