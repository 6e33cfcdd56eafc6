-- ===== src/TinyKv/Expire/Unseen.antt =====
-- expireFunc takes out expired entries only, calls back for exactly those, and keeps the store valid.
use sablier.Prelude.{
  ℕ, suc, ◌≤◌, ◌≡◌, refl, ◌⊎◌, inl, inr, String, true, List, [], ◌∷◌, none, some, arith, ◌==◌,
  if◌then◌else◌, Option-cases, Bool-cases, length, Map, lookup, delete, lookup-delete, str_eq,
  eq_iff, is_some, HasUniqueKeys, delete-HasUniqueKeys, subst, sym, str_eq_refl,
}
use sablier.Prelude.Int.{ℤ, pos}
use sablier.TinyKv.Heap.{Timeout, expired}
use sablier.TinyKv.Store.{Entry, Store, notify_expirations}
use sablier.TinyKv.Store.View.{view, IsTracked, IsValid}
use sablier.TinyKv.Expire.{Clock, still_expired, confirm, delete_all, remaining_wait, expire_func}
use sablier.TinyKv.Expire.Sweep.{IsForward, FoundIn, Loop, sweep_ends}

module _ {ℓ} {T : Type ℓ} (clock : Clock) (kv : Map (Entry T)) where
  lookup-confirm :
      (k : String) (found : Map T)
      → lookup k (confirm clock kv found)
        ≡ (if still_expired clock kv k then lookup k found else none)
  unfolding confirm lookup
  lookup-confirm k [] = ground arith
  lookup-confirm k ((j, v) ∷ found) = elim (Bool-cases (str_eq j k)) [
    | inl this ↦
        let e : j ≡ k = (eq_iff j k).0 this in
        subst
          (λ x.
            lookup k (confirm clock kv ((x, v) ∷ found))
            ≡ (if still_expired clock kv k then lookup k ((x, v) ∷ found) else none))
          (sym e) (ground (arith, lookup-confirm k found, str_eq_refl k))
    | inr other ↦ ground (arith, lookup-confirm k found)
  ]

  lookup-delete_all :
      (k : String) (gone : Map T) (m : Map (Entry T))
      → lookup k (delete_all gone m) ≡ (if is_some (lookup k gone) then none else lookup k m)
  unfolding delete_all lookup
  lookup-delete_all k [] m = refl
  lookup-delete_all k ((j, v) ∷ gone) m =
      ground (arith, lookup-delete_all k gone (delete j m), lookup-delete j k m)

  delete_all-HasUniqueKeys :
      (gone : Map T) (m : Map (Entry T)) → HasUniqueKeys m → HasUniqueKeys (delete_all gone m)
  unfolding delete_all
  delete_all-HasUniqueKeys [] m u = u
  delete_all-HasUniqueKeys ((k, v) ∷ gone) m u =
      delete_all-HasUniqueKeys gone (delete k m) (delete-HasUniqueKeys k m u)

  -- What happens to the entry of a key: it stays, or it is gone because its deadline has passed.
  abbrev pub Fate : Map (Entry T) → Map T → String → Type ℓ
  Fate kv' gone k =
      ((lookup k kv' ≡ lookup k kv) × (lookup k gone ≡ none))
      ⊎ ((e : Entry T) × (lookup k kv ≡ some e)
          × (expired e.timeout (clock.at_key k) ≡ true)
          × (lookup k kv' ≡ none)
          × (lookup k gone ≡ some e.value))

  confirm-Fate :
      (k : String) (found : Map T)
      → FoundIn clock kv found
      → Fate (delete_all (confirm clock kv found) kv) (confirm clock kv found) k
  unfolding still_expired
  confirm-Fate k found sound = elim (Option-cases (lookup k (confirm clock kv found))) [
    | inl kept ↦ inl (ground (arith, lookup-delete_all k (confirm clock kv found) kv), kept)
    | inr (v, gone) ↦
        let (e, here, same) = sound k v (ground (arith, lookup-confirm k found)) in
        inr (
          e,
          here,
          ground (arith, lookup-confirm k found),
          ground (arith, lookup-delete_all k (confirm clock kv found) kv),
          ground arith,
        )
  ]

  confirm-IsTracked :
      (heap : List Timeout) (found : Map T)
      → Loop clock kv heap found
      → IsTracked (delete_all (confirm clock kv found) kv) heap
  unfolding still_expired
  confirm-IsTracked heap found v k e held =
      let (to, timed, rest) =
        v.swept k e (ground (arith, lookup-delete_all k (confirm clock kv found) kv)) in
      (
        to,
        timed,
        ground
            (arith, rest, lookup-delete_all k (confirm clock kv found) kv, lookup-confirm k found),
      )

-- What a sweep leaves behind: the interval, the new store and the calls of the callback.
abbrev pub Swept {ℓ} : {T : Type ℓ} → Clock → Store T → ℤ × Store T × List (String × T) → Type ℓ
Swept {T} clock s (i, s', calls) =
    IsValid s'
    × ((gone : Map T) × (calls ≡ notify_expirations gone s.listening)
        × ((k : String) → Fate clock s.kv s'.kv gone k))

module _ {ℓ} {T : Type ℓ} (clock : Clock) (s : Store T) where
  -- expireFunc ends on a valid store if the clock does not go back. The store stays valid; the entry
  -- of each key stays or is gone because its deadline has passed, and the callback is called with
  -- the keys and values that are gone and no others.
  pub expire_func-Fate :
      IsValid s
      → IsForward clock
      → (r : ℤ × Store T × List (String × T)) × (expire_func clock s ≡ some r) × Swept clock s r
  unfolding expire_func lookup
  expire_func-Fate valid forward = elim (Bool-cases (length s.heap == 0)) [
    | inl bare ↦ (
      (pos 0, s, []),
      rw (bare, expire_func) refl,
      (valid, ([], ground arith, λ k. inl (refl, refl))),
    )
    | inr full ↦
        let start : Loop clock s.kv s.heap [] = record {
          order = valid.order;
          sound = λ k v h. cc;
          swept = λ k e h. let (to, timed, c) = valid.tracked k e h in (to, timed, inl c);
        } in
        let (h, found, i, run, v) =
          sweep_ends clock s.kv forward (suc (length s.heap)) 0 s.heap [] (omega arith) start in
        let gone = confirm clock s.kv found in
        (
          (
            remaining_wait clock.until_end h i,
            record s { kv = delete_all gone s.kv; heap = h },
            notify_expirations gone s.listening,
          ),
          rw (full, run, expire_func) refl,
          (
            record {
              order = v.order;
              tracked = confirm-IsTracked clock s.kv h found v;
              unique = delete_all-HasUniqueKeys clock s.kv gone s.kv valid.unique;
            },
            (gone, refl, λ k. confirm-Fate clock s.kv k found v.sound),
          ),
        )
  ]

  -- A sweep cannot be noticed later: once the clock has passed its readings, the store shows for
  -- every key what it would have shown without the sweep.
  pub expire_func-view :
      IsValid s
      → IsForward clock
      → (r : ℤ × Store T × List (String × T)) × (expire_func clock s ≡ some r)
        × ((k : String) (later : ℕ) → clock.at_key k ≤ later → view r.1 later k ≡ view s later k)
  expire_func-view valid forward =
      let ((i, s', calls), run, (v, (gone, told, fate))) = expire_func-Fate valid forward in
      ((i, s', calls), run, λ k later h. ground (arith, fate k))
