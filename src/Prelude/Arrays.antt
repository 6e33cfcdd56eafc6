-- ===== src/Prelude/Arrays.antt =====
-- Lists read and written as arrays: the entry at an index, with a default past the end, and what a
-- write or an exchange does to the entries.
use mathlib.Core.Logic.{∥∥₁_elim}
use mathlib.Core.List.{Perm, Permᴰ, append-nil, perm_middle}
use mathlib.Core.List.Perm
use native.Mathlib.Nat.{ℕ_set}
use sablier.Prelude.{
  ℕ, zero, suc, ◌<◌, ◌≡◌, refl, ap, ◌∙◌, List, [], ◌∷◌, ◌++◌, some, arith, ◌==◌, if◌then◌else◌,
  length, get_elem?, set, take, length-set,
}

module _ {ℓ} {A : Type ℓ} where
  length-Permᴰ : {xs ys : List A} → Permᴰ xs ys → length xs ≡ length ys
  length-Permᴰ Permᴰ.nil = refl
  length-Permᴰ (Permᴰ.cons _ p) = ap suc (length-Permᴰ p)
  length-Permᴰ (Permᴰ.swap _ _) = refl
  length-Permᴰ (Permᴰ.trans p q) = length-Permᴰ p ∙ length-Permᴰ q

  pub length-perm : {xs ys : List A} → Perm xs ys → length xs ≡ length ys
  length-perm p = ∥∥₁_elim p (ℕ_set _ _) length-Permᴰ

  -- Appending puts the new entry among the old ones.
  pub append_one-perm : (xs : List A) (x : A) → Perm (xs ++ x ∷ []) (x ∷ xs)
  append_one-perm xs x = rw (append-nil xs) at (perm_middle {a = x} xs [])

module _ {ℓ} {A : Type ℓ} (d : A) where
  unfoldable pub at : List A → ℕ → A
  at [] i = d
  at (x ∷ xs) zero = x
  at (x ∷ xs) (suc i) = at xs i

  unfoldable pub exchange : List A → ℕ → ℕ → List A
  exchange xs i j = set (set xs i (at xs j)) j (at xs i)

  pub get_elem?-at : (xs : List A) (i : ℕ) → i < length xs → get_elem? xs i ≡ some (at xs i)
  unfolding at
  get_elem?-at [] i h = absurd (omega arith)
  get_elem?-at (x ∷ xs) zero h = refl
  get_elem?-at (x ∷ xs) (suc i) h = get_elem?-at xs i (omega arith)

  pub at-set :
      (xs : List A) (i j : ℕ) (v : A)
      → i < length xs
      → at (set xs i v) j ≡ (if i == j then v else at xs j)
  unfolding at
  at-set [] i j v h = absurd (omega arith)
  at-set (x ∷ xs) zero zero v h = refl
  at-set (x ∷ xs) zero (suc j) v h = ground arith
  at-set (x ∷ xs) (suc i) zero v h = ground arith
  at-set (x ∷ xs) (suc i) (suc j) v h = ground (arith, at-set xs i j v)

  pub at-append : (xs ys : List A) (i : ℕ) → i < length xs → at (xs ++ ys) i ≡ at xs i
  unfolding at
  at-append [] ys i h = absurd (omega arith)
  at-append (x ∷ xs) ys zero h = refl
  at-append (x ∷ xs) ys (suc i) h = at-append xs ys i (omega arith)

  pub at-take : (n : ℕ) (xs : List A) (i : ℕ) → i < n → at (take n xs) i ≡ at xs i
  unfolding at
  at-take zero xs i h = absurd (omega arith)
  at-take (suc n) [] i h = refl
  at-take (suc n) (x ∷ xs) zero h = refl
  at-take (suc n) (x ∷ xs) (suc i) h = at-take n xs i (omega arith)

  pub take-last : (n : ℕ) (xs : List A) → length xs ≡ suc n → take n xs ++ at xs n ∷ [] ≡ xs
  unfolding at
  take-last n [] h = absurd (omega arith)
  take-last zero (x ∷ []) h = refl
  take-last zero (x ∷ y ∷ xs) h = absurd (omega arith)
  take-last (suc n) (x ∷ xs) h = ap (◌∷◌ x) (take-last n xs (omega arith))

  -- A write trades the old entry for the new one.
  set-perm : (xs : List A) (i : ℕ) (v : A) → i < length xs → Perm (at xs i ∷ set xs i v) (v ∷ xs)
  unfolding at
  set-perm [] i v h = absurd (omega arith)
  set-perm (x ∷ xs) zero v h = Perm.swap v x xs
  set-perm (x ∷ xs) (suc i) v h =
      Perm.trans (Perm.swap x _ _)
        (Perm.trans (Perm.cons x (set-perm xs i v (omega arith))) (Perm.swap v x xs))

  pub length-exchange : (xs : List A) (i j : ℕ) → length (exchange xs i j) ≡ length xs
  unfolding exchange
  length-exchange xs i j = simp length-set

  module _ (xs : List A) (i j : ℕ) (hi : i < length xs) (hj : j < length xs) where
    pub at-exchange :
        (c : ℕ)
        → at (exchange xs i j) c ≡ (if j == c then at xs i else if i == c then at xs j else at xs c)
    unfolding exchange
    at-exchange c =
        rw
          (at-set (set xs i (at xs j)) j c (at xs i) (rw length-set hj), at-set xs i c (at xs j) hi)

    pub exchange-perm : Perm (exchange xs i j) xs
    unfolding exchange
    exchange-perm = Perm.cons_inv (Perm.trans first (set-perm xs i (at xs j) hi))
      where
        same : at (set xs i (at xs j)) j ≡ at xs j
        same = ground (arith, at-set xs i j (at xs j))

        first : Perm (at xs j ∷ set (set xs i (at xs j)) j (at xs i)) (at xs i ∷ set xs i (at xs j))
        first = rw same at (set-perm (set xs i (at xs j)) j (at xs i) (rw length-set hj))

module _ {ℓ} {A : Type ℓ} where
  pub get_elem?-set :
      (xs : List A) (i j : ℕ) (v w : A)
      → get_elem? xs i ≡ some w
      → get_elem? (set xs i v) j ≡ (if i == j then some v else get_elem? xs j)
  get_elem?-set [] i j v w h = absurd (ground (arith, h))
  get_elem?-set (x ∷ xs) zero zero v w h = refl
  get_elem?-set (x ∷ xs) zero (suc j) v w h = ground arith
  get_elem?-set (x ∷ xs) (suc i) zero v w h = ground arith
  get_elem?-set (x ∷ xs) (suc i) (suc j) v w h = ground (arith, get_elem?-set xs i j v w h)

  pub get_elem?-append_one :
      (xs : List A) (v : A) (j : ℕ)
      → get_elem? (xs ++ v ∷ []) j ≡ (if length xs == j then some v else get_elem? xs j)
  get_elem?-append_one [] v zero = refl
  get_elem?-append_one [] v (suc j) = ground arith
  get_elem?-append_one (x ∷ xs) v zero = ground arith
  get_elem?-append_one (x ∷ xs) v (suc j) = ground (arith, get_elem?-append_one xs v j)
