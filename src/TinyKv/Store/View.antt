-- ===== src/TinyKv/Store/View.antt =====
-- What a client of the store can see: the live value of each key at each instant.
use mathlib.Core.List.{Perm, Permᴰ}
use mathlib.Core.Logic.{∥∥₁_elim}
use sablier.Prelude.{
  ℕ, ◌≤◌, ◌≡◌, refl, ◌∙◌, String, Bool, true, ◌&&◌, List, [], ◌∷◌, Option, none, some, arith, ltb,
  ◌==◌, if◌then◌else◌, Bool-cases, ◌⊎◌, inl, inr, any, Map, lookup, insert, lookup-insert,
  lookup-delete, str_eq, eq_iff, HasUniqueKeys, delete-HasUniqueKeys, has_key, false,
  insert-HasUniqueKeys,
}
use sablier.Prelude.Int.{ℤ}
use sablier.TinyKv.Heap.{Timeout, add_duration, new_timeout, expired}
use sablier.TinyKv.Heap.Order.{IsHeap}
use sablier.TinyKv.Heap.Push.{heap_push-IsHeap}
use sablier.TinyKv.Store.{
  Entry, Store, new, get, put, delete_key, range_entries, notify_expirations,
}

any-Permᴰ {ℓ} : {A : Type ℓ} (p : A → Bool) {xs ys : List A} → Permᴰ xs ys → any p xs ≡ any p ys
any-Permᴰ p Permᴰ.nil = refl
any-Permᴰ p (Permᴰ.cons x q) = ground (arith, any-Permᴰ p q)
any-Permᴰ p (Permᴰ.swap x y) = ground arith
any-Permᴰ p (Permᴰ.trans q r) = any-Permᴰ p q ∙ any-Permᴰ p r

pub any-perm {ℓ} : {A : Type ℓ} (p : A → Bool) {xs ys : List A} → Perm xs ys → any p xs ≡ any p ys
any-perm p q = ∥∥₁_elim q (Bool-set _ _) (any-Permᴰ p)
  where
    Bool-set : IsSet Bool
    Bool-set = hlevel

-- The heap has a timeout of this key with this deadline.
abbrev pub covers : String → ℕ → List Timeout → Bool
covers k t = any (λ to. str_eq to.key k && to.expires_at == t)

module _ {ℓ} {T : Type ℓ} where
  abbrev pub live : ℕ → Option (Entry T) → Option T
  live now none = none
  live now (some e) = if expired e.timeout now then none else some e.value

  abbrev pub view : Store T → ℕ → String → Option T
  view s now k = live now (lookup k s.kv)

  -- The entry of every key has a timeout, and that timeout waits in the heap.
  abbrev pub IsTracked : Map (Entry T) → List Timeout → Type ℓ
  IsTracked kv heap =
      (k : String) (e : Entry T)
      → lookup k kv ≡ some e
      → (to : Timeout) × (e.timeout ≡ some to) × (covers k to.expires_at heap ≡ true)

  pub record IsValid (s : Store T) : Type ℓ where
    pub order : IsHeap s.heap
    pub tracked : IsTracked s.kv s.heap
    pub unique : HasUniqueKeys s.kv

  pub new-IsValid : (expiration : ℤ) (listening : Bool) → IsValid (new expiration listening)
  unfolding new lookup
  new-IsValid expiration listening = record {
    order = λ c p q. absurd (omega arith);
    tracked = λ k e h. cc;
    unique = tt;
  }

  pub delete_key-IsValid : (k : String) (s : Store T) → IsValid s → IsValid (delete_key k s)
  unfolding delete_key
  delete_key-IsValid k s v = record {
    order = v.order;
    tracked = λ j e h. v.tracked j e (ground (arith, lookup-delete k j s.kv));
    unique = delete-HasUniqueKeys k s.kv v.unique;
  }

  -- Delete hides exactly the key.
  pub delete_key-view :
      (k j : String) (now : ℕ) (s : Store T)
      → view (delete_key k s) now j ≡ (if str_eq k j then none else view s now j)
  unfolding delete_key
  delete_key-view k j now s = rw (lookup-delete k j s.kv) (ground arith)

  put-IsTracked :
      (k : String) (e : Entry T) (to : Timeout) (h : List Timeout) (s : Store T)
      → e.timeout ≡ some to
      → to.key ≡ k
      → Perm h (to ∷ s.heap)
      → IsTracked s.kv s.heap
      → IsTracked (insert k e s.kv) h
  put-IsTracked k e to h s timed keyed same tracked j f held = elim (Bool-cases (str_eq k j)) [
    | inl here ↦ (
      to,
      ground (arith, lookup-insert k j e s.kv),
      any-perm (λ x. str_eq x.key j && x.expires_at == to.expires_at) same
          ∙ ground (arith, eq_iff to.key j, eq_iff k j),
    )
    | inr other ↦
        let (old, timed', kept) = tracked j f (ground (arith, lookup-insert k j e s.kv)) in
        (
          old,
          timed',
          any-perm (λ x. str_eq x.key j && x.expires_at == old.expires_at) same ∙ ground arith,
        )
  ]

  -- Put on a valid store ends in a valid store. From then on the key has the new value until its
  -- deadline has passed and none after it; every other key is as it was.
  pub put-view :
      (k : String) (v : T) (d : ℤ) (now : ℕ) (s : Store T)
      → IsValid s
      → (s' : Store T) × (put k v d now s ≡ some s')
        × IsValid s'
        × ((j : String) (later : ℕ)
            → view s' later j ≡ (
                if str_eq k j
                then (if ltb (add_duration now d) later then none else some v)
                else view s later j))
  unfolding put
  put-view k v d now s valid =
      let to = new_timeout k d now in
      let (h, run, order, same) = heap_push-IsHeap s.heap to valid.order in
      let e : Entry T = record { timeout = some to; value = v } in
      (
        record s { heap = h; kv = insert k e s.kv },
        rw run refl,
        record {
          order = order;
          tracked = put-IsTracked k e to h s refl refl same valid.tracked;
          unique = insert-HasUniqueKeys k e s.kv valid.unique;
        },
        (λ j later. rw (lookup-insert k j e s.kv) (ground arith)),
      )

  get-state :
      (k : String) (now : ℕ) (s : Store T)
      → ((get k now s).2 ≡ s) ⊎ ((get k now s).2 ≡ delete_key k s)
  unfolding get delete_key
  get-state k now s = ground arith

  get-IsValid : (k : String) (now : ℕ) (s : Store T) → IsValid s → IsValid (get k now s).2
  get-IsValid k now s v = elim (get-state k now s) [
    | inl same ↦ rw same v
    | inr gone ↦ rw gone (delete_key-IsValid k s v)
  ]

  -- Get answers with the view. What can be seen from that instant on is as it was, and a callback
  -- is made exactly for an entry that the call finds expired.
  pub get-view :
      (k : String) (now : ℕ) (s : Store T)
      → ((get k now s).0 ≡ view s now k)
        × ((j : String) (later : ℕ) → now ≤ later → view (get k now s).2 later j ≡ view s later j)
        × (IsValid s → IsValid (get k now s).2)
        × ((get k now s).1
            ≡ notify_expirations
                (elim (lookup k s.kv) [
                  | none ↦ []
                  | some e ↦ if expired e.timeout now then (k, e.value) ∷ [] else []
                ])
                s.listening)
  unfolding get
  get-view k now s = (
    ground arith,
    (λ j later h. ground (arith, lookup-delete k j s.kv, eq_iff k j)),
    get-IsValid k now s,
    ground arith,
  )

  -- What Range shows of an entry: nothing if it never expires or has expired, else its value and
  -- its deadline.
  abbrev pub shown : ℕ → Option (Entry T) → Option (T × ℕ)
  shown now none = none
  shown now (some e) = elim e.timeout [
    | none ↦ none
    | some to ↦ if ltb to.expires_at now then none else some (e.value, to.expires_at)
  ]

  range-absent :
      (now : String → ℕ) (k : String) (kv : Map (Entry T))
      → has_key k kv ≡ false
      → lookup k (range_entries now kv) ≡ none
  unfolding range_entries lookup has_key
  range-absent now k [] absent = refl
  range-absent now k ((j, e) ∷ kv) absent = ground (arith, range-absent now k kv)

  range-shown :
      (now : String → ℕ) (k : String) (kv : Map (Entry T))
      → HasUniqueKeys kv
      → lookup k (range_entries now kv) ≡ shown (now k) (lookup k kv)
  unfolding range_entries lookup
  range-shown now k [] unique = refl
  range-shown now k ((j, e) ∷ kv) unique = elim (Bool-cases (str_eq j k)) [
    | inl this ↦ ground (arith, range-absent now j kv unique.0, eq_iff j k)
    | inr other ↦ ground (arith, range-shown now k kv unique.1)
  ]

  -- Range on a valid store passes over exactly the live entries, each with its value and deadline.
  pub range-view :
      (now : String → ℕ) (s : Store T)
      → IsValid s
      → (k : String) → lookup k (range_entries now s.kv) ≡ shown (now k) (lookup k s.kv)
  range-view now s valid k = range-shown now k s.kv valid.unique
