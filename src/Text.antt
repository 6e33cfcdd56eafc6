-- ===== src/Text.antt =====
-- The functions of Go's strings and strconv packages that the program parses its labels with, over
-- texts of code points. Separators are single ASCII characters, given by their code.
use Prim.Native.Char.{Char, code}
use sablier.Prelude.{
  ℕ, ◌+◌, ◌-◌, ◌*◌, ◌^◌, String, Bool, true, false, ◌&&◌, ◌||◌, List, [], ◌∷◌, Option, none, some,
  ltb, leb, ◌==◌, if◌then◌else◌, str_eq, suc, ◌/◌, ◌%◌, zero,
}
use sablier.Prelude.Int.{ℤ, pos, sub_ℕ}
pub mod Split

-- unicode.IsSpace
unfoldable pub is_space : Char → Bool
is_space c =
    let n = code c in
    (leb 9 n && leb n 13)
    || n == 32
    || n == 0x85
    || n == 0xa0
    || n == 0x1680
    || (leb 0x2000 n && leb n 0x200a)
    || n == 0x2028
    || n == 0x2029
    || n == 0x202f
    || n == 0x205f
    || n == 0x3000

abbrev pub is_empty : String → Bool
is_empty String.[] = true
is_empty (String.◌∷◌ c s) = false

unfoldable pub trim_left : String → String
unfolding is_space
trim_left String.[] = String.[]
trim_left (String.◌∷◌ c s) = let rest = trim_left s in if is_space c then rest else String.◌∷◌ c s

unfoldable pub trim_right : String → String
unfolding is_space
trim_right String.[] = String.[]
trim_right (String.◌∷◌ c s) =
    let rest = trim_right s in if is_empty rest && is_space c then String.[] else String.◌∷◌ c rest

-- strings.TrimSpace
unfoldable pub trim_space : String → String
unfolding trim_left trim_right
trim_space s = trim_right (trim_left s)

push_first : Char → List String → List String
push_first c [] = String.◌∷◌ c String.[] ∷ []
push_first c (part ∷ parts) = String.◌∷◌ c part ∷ parts

-- strings.Split
unfoldable pub split : ℕ → String → List String
unfolding push_first
split sep String.[] = String.[] ∷ []
split sep (String.◌∷◌ c s) =
    let rest = split sep s in if code c == sep then String.[] ∷ rest else push_first c rest

-- strings.CutLast, `none` if the separator does not occur
unfoldable pub cut_last : ℕ → String → Option (String × String)
cut_last sep String.[] = none
cut_last sep (String.◌∷◌ c s) = elim (cut_last sep s) [
  | some (before, after) ↦ some (String.◌∷◌ c before, after)
  | none ↦ if code c == sep then some (String.[], s) else none
]

-- strings.CutPrefix: the rest, and whether the prefix was there
unfoldable pub strip_prefix : String → String → Option String
strip_prefix String.[] s = some s
strip_prefix (String.◌∷◌ p prefix) String.[] = none
strip_prefix (String.◌∷◌ p prefix) (String.◌∷◌ c s) =
    let rest = strip_prefix prefix s in if code p == code c then rest else none

-- Decimal digits, most significant first.
unfoldable pub parse_digits : String → ℕ → Option ℕ
parse_digits String.[] acc = some acc
parse_digits (String.◌∷◌ c s) acc =
    let rest = parse_digits s (10 * acc + (code c - 48)) in
    if leb 48 (code c) && leb (code c) 57 then rest else none

unfoldable pub parse_unsigned : String → Option ℕ
unfolding parse_digits
parse_unsigned String.[] = none
parse_unsigned (String.◌∷◌ c s) = parse_digits (String.◌∷◌ c s) 0

-- strconv.ParseUint(s, 10, bits)
unfoldable pub parse_uint : ℕ → String → Option ℕ
unfolding parse_unsigned
parse_uint bits s = elim (parse_unsigned s) [
  | none ↦ none
  | some n ↦ if ltb n (2 ^ bits) then some n else none
]

unfoldable pub signed : Bool → ℕ → ℤ
signed negative n = if negative then sub_ℕ 0 n else pos n

unfoldable pub sign_of : String → Bool × String
sign_of String.[] = (false, String.[])
sign_of (String.◌∷◌ c s) =
    if code c == 45 then (true, s) else if code c == 43 then (false, s) else (false, String.◌∷◌ c s)

-- strconv.ParseInt(s, 10, bits + 1): the range is -2^bits to 2^bits - 1.
unfoldable pub parse_int : ℕ → String → Option ℤ
unfolding parse_unsigned signed sign_of
parse_int bits s =
    let (negative, digits) = sign_of s in
    elim (parse_unsigned digits) [
      | none ↦ none
      | some n ↦
          if (if negative then leb n (2 ^ bits) else ltb n (2 ^ bits))
          then some (signed negative n)
          else none
    ]

-- strconv.Atoi, on a 64-bit machine
unfoldable pub atoi : String → Option ℤ
unfolding parse_int
atoi s = parse_int 63 s

-- strconv.ParseBool
unfoldable pub parse_bool : String → Option Bool
parse_bool s =
    if str_eq s "1"
      || str_eq s "t"
      || str_eq s "T"
      || str_eq s "TRUE"
      || str_eq s "true"
      || str_eq s "True"
    then some true
    else if str_eq s "0"
        || str_eq s "f"
        || str_eq s "F"
        || str_eq s "FALSE"
        || str_eq s "false"
        || str_eq s "False"
    then some false
    else none

-- Whether two texts are equal up to the case of ASCII letters, the second in lower case.
unfoldable pub equal_lower : String → String → Bool
equal_lower String.[] String.[] = true
equal_lower String.[] (String.◌∷◌ d t) = false
equal_lower (String.◌∷◌ c s) String.[] = false
equal_lower (String.◌∷◌ c s) (String.◌∷◌ d t) =
    (if leb 65 (code c) && leb (code c) 90 then code c + 32 == code d else code c == code d)
    && equal_lower s t

-- The second text after the first.
abbrev pub concat : String → String → String
concat String.[] t = t
concat (String.◌∷◌ c s) t = String.◌∷◌ c (concat s t)

-- The character of a digit.
digit : ℕ → String → String
digit n s =
    if n == 0
    then String.◌∷◌ "0" s
    else if n == 1
    then String.◌∷◌ "1" s
    else if n == 2
    then String.◌∷◌ "2" s
    else if n == 3
    then String.◌∷◌ "3" s
    else if n == 4
    then String.◌∷◌ "4" s
    else if n == 5
    then String.◌∷◌ "5" s
    else if n == 6
    then String.◌∷◌ "6" s
    else if n == 7
    then String.◌∷◌ "7" s
    else if n == 8
    then String.◌∷◌ "8" s
    else String.◌∷◌ "9" s

-- The digits of `n` before a text. More fuel than `n` is enough.
digits_before : ℕ → ℕ → String → String
unfolding digit
digits_before zero n s = s
digits_before (suc fuel) n s =
    let rest = digits_before fuel (n / 10) (digit (n % 10) s) in
    if ltb n 10 then digit n s else rest

-- strconv.Itoa, on numbers that are not negative
unfoldable pub itoa : ℕ → String
unfolding digits_before
itoa n = digits_before (suc n) n ""

-- strings.Cut at a single character
unfoldable pub cut : ℕ → String → Option (String × String)
cut sep String.[] = none
cut sep (String.◌∷◌ c s) =
    let rest = cut sep s in
    if code c == sep
    then some (String.[], s)
    else elim rest [ some (before, after) ↦ some (String.◌∷◌ c before, after) | none ↦ none ]
