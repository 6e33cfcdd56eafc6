-- ===== src/TinyKv/Snapshot/Restore.antt =====
-- What a store that is saved and read back shows.
use sablier.Prelude.Int.{sub_ℕ}
use sablier.TinyKv.Store.View.{IsValid, view, put-view}
use sablier.TinyKv.Heap.{Timeout, add_duration}
use sablier.TinyKv.Store.{Entry, Store}
use sablier.TinyKv.Snapshot.{Readings, marshal, unmarshal, minimal_entry}
use sablier.Prelude.{
  [], ◌∷◌, some, none, inl, inr, refl, arith, ℕ, Map, lookup, String, Option, if◌then◌else◌,
  HasUniqueKeys, ltb, ◌≡◌, str_eq_refl, eq_iff, Bool-cases, has_key-lookup, ◌∙◌, ap, str_eq,
}

module _ {ℓ} {T : Type ℓ} where
  -- The value that key `k` shows at `later` after the restoring: that of a live entry until its
  -- deadline, moved by the time between the two readings of the clock, or what it showed before.
  abbrev pub restored : Readings → ℕ → Option (Entry T) → Option T → Option T
  restored now later none old = old
  restored now later (some e) old = elim e.timeout [
    | none ↦ old
    | some to ↦
        if ltb now.tested to.expires_at
        then (if ltb (add_duration now.stored (sub_ℕ to.expires_at now.measured)) later
            then none
            else some e.value)
        else old
  ]

  abbrev pub HasTimeouts : Map (Entry T) → Type 0
  HasTimeouts [] = Unit {0}
  HasTimeouts ((k, e) ∷ kv) = ((to : Timeout) × (e.timeout ≡ some to)) × HasTimeouts kv

  tracked-HasTimeouts :
      (kv : Map (Entry T))
      → HasUniqueKeys kv
      → ((k : String) (e : Entry T) → lookup k kv ≡ some e → (to : Timeout) × (e.timeout ≡ some to))
      → HasTimeouts kv
  unfolding lookup
  tracked-HasTimeouts [] u timed = tt
  tracked-HasTimeouts ((k, e) ∷ kv) u timed = (
    timed k e (ground (arith, str_eq_refl k)),
    tracked-HasTimeouts kv u.1
        (λ j f held. timed j f (ground (arith, held, u.0, eq_iff k j, has_key-lookup j kv))),
  )

  restored_same :
      (now : Readings) (later : ℕ) (o : Option (Entry T)) (a b : Option T)
      → a ≡ b
      → restored now later o a ≡ restored now later o b
  restored_same now later o a b h = ap (restored now later o) h

  pub unmarshal-view :
      (clock : String → Readings) (kv : Map (Entry T)) (t : Store T)
      → HasUniqueKeys kv
      → HasTimeouts kv
      → IsValid t
      → (doc : Map (T × ℕ)) × (marshal kv ≡ some doc)
        × (t' : Store T) × (unmarshal clock doc t ≡ some t')
        × IsValid t'
        × ((k : String) (later : ℕ)
            → view t' later k ≡ restored (clock k) later (lookup k kv) (view t later k))
  unfolding marshal unmarshal minimal_entry lookup
  unmarshal-view clock [] t u timed valid = ([], refl, t, refl, valid, λ k later. refl)
  unmarshal-view clock ((j, e) ∷ kv) t u ((to, due), timed) valid =
      elim (Bool-cases (ltb (clock j).tested to.expires_at)) [
        | inr past ↦
            let (doc, saved, t', run, valid', shows) = unmarshal-view clock kv t u.1 timed valid in
            (
              (j, (e.value, to.expires_at)) ∷ doc,
              rw (due, saved) refl,
              t',
              ground (arith, past, run),
              valid',
              λ k later.
                  shows k later ∙ ground (arith, due, past, u.0, eq_iff j k, has_key-lookup j kv),
            )
        | inl due_later ↦
            let left = sub_ℕ to.expires_at (clock j).measured in
            let (t1, first, valid1, shows1) = put-view j e.value left (clock j).stored t valid in
            let (doc, saved, t', run, valid', shows) =
              unmarshal-view clock kv t1 u.1 timed valid1 in
            (
              (j, (e.value, to.expires_at)) ∷ doc,
              rw (due, saved) refl,
              t',
              ground (arith, due_later, first, run),
              valid',
              λ k later. shows k later ∙ elim (Bool-cases (str_eq j k)) [
                | inl this ↦ ground (
                  arith,
                  this,
                  shows1 k later,
                  due,
                  due_later,
                  u.0,
                  eq_iff j k,
                  has_key-lookup j kv,
                )
                | inr other ↦
                    restored_same (clock k) later (lookup k kv) (view t1 later k) (view t later k)
                      (shows1 k later ∙ ground (arith, other))
                    ∙ ground (arith, other)
              ],
            )
      ]

  -- A valid store can be saved. Read back into a valid store, it gives a valid store that shows each
  -- entry that was alive when it was read, with its value, until its deadline moved by the time that
  -- passes between the two readings of the clock; every other key shows what it showed before.
  pub unmarshal-marshal :
      (clock : String → Readings) (s t : Store T)
      → IsValid s
      → IsValid t
      → (doc : Map (T × ℕ)) × (marshal s.kv ≡ some doc)
        × (t' : Store T) × (unmarshal clock doc t ≡ some t')
        × IsValid t'
        × ((k : String) (later : ℕ)
            → view t' later k ≡ restored (clock k) later (lookup k s.kv) (view t later k))
  unmarshal-marshal clock s t saved_valid valid =
      unmarshal-view clock s.kv t saved_valid.unique
        (tracked-HasTimeouts s.kv saved_valid.unique
          (λ k e held. let (to, due, rest) = saved_valid.tracked k e held in (to, due)))
        valid
