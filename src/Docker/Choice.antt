-- ===== src/Docker/Choice.antt =====
-- Which container a dependency is resolved to.
use mathlib.Core.Path.{ap₂}
use sablier.Text.{strip_prefix}
use sablier.Session.Ready.{name_before_asym}
use sablier.Docker.{
  sort_names, insert_name, Container, container_names, find_compose_container, trim_prefix, some,
}
use sablier.Session.{name_before}
use sablier.Prelude.{
  [], ◌∷◌, true, false, inl, inr, refl, arith, List, String, ◌≡◌, contains, eq_iff, str_eq,
  Bool-cases, ◌||◌, ◌⊎◌, List-cases, str_eq_refl, subst, Option, keep_if, none, Option-cases, ap,
}

name_before-none :
    (r s t : String) → name_before r s ≡ false → name_before s t ≡ false → name_before r t ≡ false
unfolding name_before
name_before-none String.[] String.[] t a b = b
name_before-none String.[] (String.◌∷◌ d s) t a b = absurd (ground arith)
name_before-none (String.◌∷◌ c r) s String.[] a b = refl
name_before-none (String.◌∷◌ c r) String.[] (String.◌∷◌ e t) a b = absurd (ground arith)
name_before-none (String.◌∷◌ c r) (String.◌∷◌ d s) (String.◌∷◌ e t) a b =
    ground (arith, name_before-none r s t, a, b)

name_before_irrefl : (s : String) → name_before s s ≡ false
unfolding name_before
name_before_irrefl String.[] = refl
name_before_irrefl (String.◌∷◌ c s) = ground (arith, name_before_irrefl s)

contains-insert_name :
    (s : String) (ts : List String) (y : String)
    → contains (insert_name s ts) y ≡ str_eq s y || contains ts y
unfolding insert_name
contains-insert_name s [] y = ground arith
contains-insert_name s (t ∷ ts) y = ground (arith, contains-insert_name s ts y)

contains-sort_names : (ts : List String) (y : String) → contains (sort_names ts) y ≡ contains ts y
unfolding sort_names
contains-sort_names [] y = refl
contains-sort_names (t ∷ ts) y =
    ground (arith, contains-insert_name t (sort_names ts) y, contains-sort_names ts y)

-- Nothing in the list comes before its head.
abbrev HasLeastHead : List String → Type 0
HasLeastHead [] = Unit {0}
HasLeastHead (t ∷ ts) = (y : String) → contains (t ∷ ts) y ≡ true → name_before y t ≡ false

insert_name-HasLeastHead :
    (s : String) (ts : List String) → HasLeastHead ts → HasLeastHead (insert_name s ts)
unfolding insert_name
insert_name-HasLeastHead s [] h = λ y e. ground (arith, e, eq_iff s y, name_before_irrefl s)
insert_name-HasLeastHead s (t ∷ ts) h = elim (Bool-cases (name_before t s)) [
  | inl before ↦ rw before (λ y e. elim (Bool-cases (str_eq s y)) [
    | inl same ↦ ground (arith, same, eq_iff s y, name_before_asym t s before)
    | inr other ↦ h y (ground (arith, e, other, contains-insert_name s ts y))
  ])
  | inr after ↦ rw after (λ y e. elim (Bool-cases (str_eq s y)) [
    | inl same ↦ ground (arith, same, eq_iff s y, name_before_irrefl s)
    | inr other ↦ name_before-none y t s (h y (ground (arith, e, other))) after
  ])
]

sort_names-HasLeastHead : (ts : List String) → HasLeastHead (sort_names ts)
unfolding sort_names
sort_names-HasLeastHead [] = tt
sort_names-HasLeastHead (t ∷ ts) =
    insert_name-HasLeastHead t (sort_names ts) (sort_names-HasLeastHead ts)

-- The first name of a container, without its slash.
abbrev pub first_name : Container → Option String
first_name c = elim c.names [
  | [] ↦ none
  | name ∷ names ↦ elim (strip_prefix "/" name) [ some rest ↦ some rest | none ↦ some name ]
]

abbrev pub first_names : List Container → List String
first_names [] = []
first_names (c ∷ cs) =
    let rest = first_names cs in elim (first_name c) [ none ↦ rest | some name ↦ name ∷ rest ]

-- The names to choose from: those of the running containers, or all if none of these has a name.
abbrev pub candidates : List Container → List String
candidates cs = elim (first_names (keep_if (λ c. c.is_running) cs)) [
  | [] ↦ first_names cs
  | name ∷ names ↦ name ∷ names
]

all_names : (cs : List Container) → container_names false cs ≡ first_names cs
unfolding container_names trim_prefix
all_names [] = refl
all_names (c ∷ cs) = elim (List-cases c.names) [
  | inl bare ↦ rw (container_names, first_names, first_name, bare) (all_names cs)
  | inr (name, names, e) ↦ elim (Option-cases (strip_prefix "/" name)) [
    | inl whole ↦
        rw (container_names, trim_prefix, first_names, first_name, e, whole)
          (ap (λ ns. name ∷ ns) (all_names cs))
    | inr (rest, cut_off) ↦
        rw (container_names, trim_prefix, first_names, first_name, e, cut_off)
          (ap (λ ns. rest ∷ ns) (all_names cs))
  ]
]

running_names :
    (cs : List Container) → container_names true cs ≡ first_names (keep_if (λ c. c.is_running) cs)
unfolding container_names trim_prefix
running_names [] = refl
running_names (c ∷ cs) = elim (Bool-cases c.is_running) [
  | inr rests ↦ elim (List-cases c.names) [
    | inl bare ↦ rw (container_names, rests, bare) (running_names cs)
    | inr (name, names, e) ↦ rw (container_names, rests, e, rests) (running_names cs)
  ]
  | inl runs ↦ elim (List-cases c.names) [
    | inl bare ↦ rw (container_names, first_names, first_name, runs, bare) (running_names cs)
    | inr (name, names, e) ↦ elim (Option-cases (strip_prefix "/" name)) [
      | inl whole ↦
          rw (container_names, trim_prefix, first_names, first_name, runs, e, whole, runs)
            (ap (λ ns. name ∷ ns) (running_names cs))
      | inr (rest, cut_off) ↦
          rw (container_names, trim_prefix, first_names, first_name, runs, e, cut_off, runs)
            (ap (λ ns. rest ∷ ns) (running_names cs))
    ]
  ]
]

-- The code's own lists of names, running containers first.
names_of_code : List Container → List String
names_of_code cs = elim (container_names true cs) [
  | [] ↦ container_names false cs
  | name ∷ names ↦ name ∷ names
]

names_of_code-candidates : (cs : List Container) → names_of_code cs ≡ candidates cs
unfolding names_of_code
names_of_code-candidates cs =
    ap₂ (λ running every. elim running [ [] ↦ every | name ∷ names ↦ name ∷ names ])
      (running_names cs) (all_names cs)

-- The name chosen is one of the list before which none of it comes, or empty if the list is.
abbrev pub IsChoice : List String → String → Type 0
IsChoice names chosen =
    ((names ≡ []) × (chosen ≡ ""))
    ⊎ ((contains names chosen ≡ true)
        × ((y : String) → contains names y ≡ true → name_before y chosen ≡ false))

sort_names_lem :
    (ts : List String)
    → ((ts ≡ []) × (sort_names ts ≡ []))
      ⊎ ((n : String) × (ns : List String) × (sort_names ts ≡ n ∷ ns)
          × (contains ts n ≡ true)
          × ((y : String) → contains ts y ≡ true → name_before y n ≡ false))
sort_names_lem ts = elim (List-cases (sort_names ts)) [
  | inl bare ↦ elim (List-cases ts) [
    | inl same ↦ inl (same, bare)
    | inr (t, rest, e) ↦ absurd (ground (arith, contains-sort_names ts t, bare, e, str_eq_refl t))
  ]
  | inr (n, ns, e) ↦
      let least : HasLeastHead (n ∷ ns) = subst HasLeastHead e (sort_names-HasLeastHead ts) in
      inr (
        n,
        ns,
        e,
        ground (arith, contains-sort_names ts n, e, str_eq_refl n),
        λ y inside. least y (ground (arith, contains-sort_names ts y, e, inside)),
      )
]

chosen_by_code : (cs : List Container) → IsChoice (names_of_code cs) (find_compose_container cs)
unfolding find_compose_container names_of_code
chosen_by_code cs = elim (sort_names_lem (container_names true cs)) [
  | inr (n, ns, e, inside, least) ↦ elim (List-cases (container_names true cs)) [
    | inl none_running ↦ absurd (ground (arith, inside, none_running))
    | inr (r, rs, some_running) ↦
        let all : names_of_code cs ≡ container_names true cs =
          rw (some_running, names_of_code) refl in
        let first : find_compose_container cs ≡ n = rw (e, find_compose_container) refl in
        rw (all, first) (inr (inside, least))
  ]
  | inl (none_running, unsorted) ↦
      let all : names_of_code cs ≡ container_names false cs =
        rw (none_running, names_of_code) refl in
      elim (sort_names_lem (container_names false cs)) [
        | inl (no_names, empty) ↦
            let first : find_compose_container cs ≡ "" =
              rw (unsorted, find_compose_container, empty) refl in
            rw (all, first) (inl (no_names, refl))
        | inr (n, ns, e, inside, least) ↦
            let first : find_compose_container cs ≡ n =
              rw (unsorted, find_compose_container, e) refl in
            rw (all, first) (inr (inside, least))
      ]
]

-- A dependency is resolved to the least name, by the order of Go's strings, among the first names of the
-- running containers of its service, each without its slash, or among those of all of its containers if
-- no running one has a name; and to none exactly if none has a name.
pub find_compose_container-IsChoice :
    (cs : List Container) → IsChoice (candidates cs) (find_compose_container cs)
find_compose_container-IsChoice cs =
    subst (λ ns. IsChoice ns (find_compose_container cs)) (names_of_code-candidates cs)
      (chosen_by_code cs)
