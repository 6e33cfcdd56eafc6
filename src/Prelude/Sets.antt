-- ===== src/Prelude/Sets.antt =====
-- Lists of texts seen as sets.
use sablier.Prelude.{
  ◌≤◌, ◌<◌, ◌≡◌, ◌∙◌, String, true, false, List, [], ◌∷◌, arith, length, contains, without,
  contains-without, length-keep_if, str_eq, eq_iff, Bool-cases, inl, inr, if◌then◌else◌,
}

-- No text twice.
abbrev pub IsUnique : List String → Type 0
IsUnique [] = Unit {0}
IsUnique (x ∷ xs) = (contains xs x ≡ false) × IsUnique xs

abbrev pub IsSubset : List String → List String → Type 0
IsSubset xs ys = (s : String) → contains xs s ≡ true → contains ys s ≡ true

length-without :
    (x : String) (xs : List String) → contains xs x ≡ true → length (without x xs) < length xs
length-without x [] h = cc
length-without x (y ∷ ys) h =
    ground (arith, length-without x ys, length-keep_if (λ z. if str_eq z x then false else true) ys)

pub without-IsUnique : (x : String) (xs : List String) → IsUnique xs → IsUnique (without x xs)
without-IsUnique x [] u = tt
without-IsUnique x (y ∷ ys) u = elim (Bool-cases (str_eq y x)) [
  | inl this ↦ rw this (without-IsUnique x ys u.1)
  | inr other ↦ rw other (ground (arith, contains-without x y ys, u.0), without-IsUnique x ys u.1)
]

-- A list with no text twice that lies in one that is no longer has all of its texts.
pub subset_of_length :
    (xs ys : List String) → IsUnique ys → IsSubset ys xs → length xs ≤ length ys → IsSubset xs ys
subset_of_length [] [] u sub short s h = h
subset_of_length (x ∷ xs) [] u sub short s h = absurd (omega arith)
subset_of_length xs (y ∷ ys) u sub short s h = elim (Bool-cases (str_eq y s)) [
  | inl this ↦ ground arith
  | inr other ↦
      let here : contains xs y ≡ true = sub y (ground (arith, eq_iff y y)) in
      let rest : IsSubset ys (without y xs) = λ z m. elim (Bool-cases (str_eq y z)) [
        | inl same ↦ ground (arith, eq_iff y z, u.0)
        | inr apart ↦ contains-without y z xs ∙ ground (arith, sub z)
      ] in
      let more =
        subset_of_length (without y xs) ys u.1 rest (omega (arith, length-without y xs here, short))
          s (contains-without y s xs ∙ ground arith) in
      ground (arith, more)
]
