-- ===== src/Text/Split.antt =====
-- A text is split into the pieces that were put together.
use sablier.Text.{split, push_first, concat}
use sablier.Prelude.{
  [], ◌∷◌, false, inl, inr, refl, arith, ℕ, String, List, Bool, ◌≡◌, ◌==◌, Bool-cases, ◌||◌, sym,
  ap,
}
use Prim.Native.Char.{Char, code}
use text.Mathlib.TextEquality.{Char-path}
use mathlib.Core.Path.{ap₂}

-- The character with code `n` is in the text.
abbrev pub has_code : ℕ → String → Bool
has_code n String.[] = false
has_code n (String.◌∷◌ c s) = code c == n || has_code n s

pub split-whole : (s : String) (n : ℕ) → has_code n s ≡ false → split n s ≡ s ∷ []
unfolding split push_first
split-whole String.[] n clean = refl
split-whole (String.◌∷◌ c s) n clean =
    let other : (code c == n) ≡ false = ground (arith, clean) in
    rw (other, split-whole s n (ground (arith, clean))) refl

pub split-concat :
    (s t : String) (d : Char)
    → has_code (code d) s ≡ false
    → split (code d) (concat s (String.◌∷◌ d t)) ≡ s ∷ split (code d) t
unfolding split push_first
split-concat String.[] t d clean = ground arith
split-concat (String.◌∷◌ c s) t d clean =
    let other : (code c == code d) ≡ false = ground (arith, clean) in
    rw (other, split-concat s t d (ground (arith, clean))) refl

-- The pieces of a split, each without the separator.
abbrev pub AreClean : ℕ → List String → Type 0
AreClean n [] = Unit {0}
AreClean n (s ∷ ss) = (has_code n s ≡ false) × AreClean n ss

abbrev pub join : Char → List String → String
join d [] = String.[]
join d (s ∷ []) = s
join d (s ∷ t ∷ ss) = concat s (String.◌∷◌ d (join d (t ∷ ss)))

-- There are pieces, each is clean, and joined they are the text.
abbrev pub IsSplitOf : Char → String → List String → Type 0
IsSplitOf d s [] = ⊥
IsSplitOf d s (p ∷ ps) = AreClean (code d) (p ∷ ps) × (join d (p ∷ ps) ≡ s)

separated :
    (d c : Char) (s : String) (ps : List String)
    → c ≡ d
    → IsSplitOf d s ps
    → IsSplitOf d (String.◌∷◌ c s) (String.[] ∷ ps)
separated d c s [] same h = absurd h
separated d c s (p ∷ ps) same (clean, joined) =
    ((refl, clean), ap₂ (λ x y. String.◌∷◌ x y) (sym same) joined)

pushed :
    (d c : Char) (s : String) (ps : List String)
    → (code c == code d) ≡ false
    → IsSplitOf d s ps
    → IsSplitOf d (String.◌∷◌ c s) (push_first c ps)
unfolding push_first
pushed d c s [] other h = absurd h
pushed d c s (p ∷ []) other ((clean, rest), joined) =
    ((ground (arith, other, clean), rest), ap (λ t. String.◌∷◌ c t) joined)
pushed d c s (p ∷ q ∷ ps) other ((clean, rest), joined) =
    ((ground (arith, other, clean), rest), ap (λ t. String.◌∷◌ c t) joined)

pub split-IsSplitOf : (d : Char) (s : String) → IsSplitOf d s (split (code d) s)
unfolding split
split-IsSplitOf d String.[] = ((refl, tt), refl)
split-IsSplitOf d (String.◌∷◌ c s) = elim (Bool-cases (code c == code d)) [
  | inl here ↦ rw here (
      separated d c s (split (code d) s) (Char-path c d (ground (arith, here)))
        (split-IsSplitOf d s))
  | inr other ↦ rw other (pushed d c s (split (code d) s) other (split-IsSplitOf d s))
]
