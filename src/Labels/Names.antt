-- ===== src/Labels/Names.antt =====
-- The lists of group names.
use sablier.Prelude.Sets.{IsUnique}
use sablier.Text.{split, trim_space, is_empty}
use sablier.Labels.{parse_anti_affinity, parse_groups, collect_names}
use sablier.Prelude.{
  String, List, Bool, any, contains, ◌∷◌, not, ◌≡◌, Bool-cases, ◌&&◌, false, ◌||◌, [], true, ◌⊎◌,
  str_eq, ◌++◌, ◌<◌, refl, arith, length, contains-append, inr, eq_iff, sym, inl,
}

-- Some part of the text between commas is `g`, up to the space around it, and is not empty.
abbrev pub is_listed : String → String → Bool
is_listed value g =
    any (λ part. not (is_empty (trim_space part)) && str_eq (trim_space part) g) (split b',' value)

append-IsUnique :
    (xs : List String) (s : String) → IsUnique xs → contains xs s ≡ false → IsUnique (xs ++ s ∷ [])
append-IsUnique [] s u h = (refl, tt)
append-IsUnique (x ∷ xs) s u h = (
  ground (arith, contains-append xs (s ∷ []) x, eq_iff x s, eq_iff s x, u.0, h),
  append-IsUnique xs s u.1 (ground (arith, h)),
)

collect_names-IsUnique :
    (parts out : List String) → IsUnique out → IsUnique (collect_names parts out)
unfolding collect_names
collect_names-IsUnique [] out u = u
collect_names-IsUnique (part ∷ parts) out u =
    elim (Bool-cases (not (is_empty (trim_space part)) && not (contains out (trim_space part)))) [
      | inr skipped ↦ rw (skipped, collect_names) (collect_names-IsUnique parts out u)
      | inl fresh ↦
          rw (fresh, collect_names)
            (collect_names-IsUnique parts (out ++ trim_space part ∷ [])
              (append-IsUnique out (trim_space part) u (ground arith)))
    ]

contains-collect_names :
    (parts out : List String) (g : String)
    → contains (collect_names parts out) g
      ≡ contains out g
        || any (λ part. not (is_empty (trim_space part)) && str_eq (trim_space part) g) parts
unfolding collect_names
contains-collect_names [] out g = ground arith
contains-collect_names (part ∷ parts) out g = ground (
  arith,
  contains-collect_names parts out g,
  contains-collect_names parts (out ++ trim_space part ∷ []) g,
  contains-append out (trim_space part ∷ []) g,
  eq_iff (trim_space part) g,
)

-- ParseAntiAffinity gives exactly the names that the value lists, each once.
pub contains-parse_anti_affinity :
    (value : String)
    → IsUnique (parse_anti_affinity value)
      × ((g : String) → contains (parse_anti_affinity value) g ≡ is_listed value g)
unfolding parse_anti_affinity
contains-parse_anti_affinity value =
    (collect_names-IsUnique (split b',' value) [] tt, contains-collect_names (split b',' value) [])

not_listed : (v : String) → is_empty v ≡ true → (g : String) → is_listed v g ≡ false
unfolding split trim_space
not_listed String.[] h g = refl
not_listed (String.◌∷◌ c s) h g = cc

-- ParseGroups gives exactly the names that the value lists, each once, or the group "default" alone
-- if it lists none. There is always a group.
pub contains-parse_groups :
    (value : String)
    → IsUnique (parse_groups value)
      × (((g : String) → contains (parse_groups value) g ≡ is_listed value g)
          ⊎ ((parse_groups value ≡ "default" ∷ []) × ((g : String) → is_listed value g ≡ false)))
      × (0 < length (parse_groups value))
unfolding parse_groups
contains-parse_groups value = elim (Bool-cases (is_empty value)) [
  | inl blank ↦ rw blank ((refl, tt), inr (refl, not_listed value blank), omega arith)
  | inr full ↦ rw full (
      go (collect_names (split b',' value) []) (collect_names-IsUnique (split b',' value) [] tt)
        (contains-collect_names (split b',' value) []))
]
  where
    go :
        (found : List String)
        → IsUnique found
        → ((g : String) → contains found g ≡ is_listed value g)
        → IsUnique (elim found as (λ _. List String) [ [] ↦ "default" ∷ [] | g ∷ gs ↦ g ∷ gs ])
          × (((g : String)
                → contains
                    (elim found as (λ _. List String) [ [] ↦ "default" ∷ [] | h ∷ hs ↦ h ∷ hs ])
                    g
                  ≡ is_listed value g)
              ⊎ ((elim found as (λ _. List String) [ [] ↦ "default" ∷ [] | h ∷ hs ↦ h ∷ hs ]
                    ≡ "default" ∷ [])
                  × ((g : String) → is_listed value g ≡ false)))
          × (0
              < length (elim found as (λ _. List String) [ [] ↦ "default" ∷ [] | h ∷ hs ↦ h ∷ hs ]))
    go [] u same = ((refl, tt), inr (refl, λ g. sym (same g)), omega arith)
    go (h ∷ hs) u same = (u, inl same, omega arith)
