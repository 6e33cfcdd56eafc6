-- ===== src/Kubernetes/Config/Precedence.antt =====
-- Which of the labels and annotations decides on a key.
use Prim.Native.Char.{code}
use mathlib.Core.Path.{ap₂}
use text.Mathlib.TextEquality.{Char-path}
-- The first value that there is.
use sablier.Kubernetes.Config.{
  config_prefix, copy_public_keys, public_prefix, copy_all, copy_config_keys, sablier_config,
}
use sablier.Text.{strip_prefix, concat}
use sablier.Prelude.{
  [], ◌∷◌, some, none, false, inl, inr, refl, arith, Option, String, Map, ◌≡◌, str_eq, sym,
  Bool-cases, lookup, some-eq-some, eq_iff, HasUniqueKeys, Option-cases, ◌==◌, ◌∙◌, insert, ap,
  lookup-insert, has_key-lookup, if◌then◌else◌, is_some,
}

abbrev pub or_else : Option String → Option String → Option String
or_else none o = o
or_else (some v) o = some v

strip_prefix-concat : (p s : String) → strip_prefix p (concat p s) ≡ some s
unfolding strip_prefix
strip_prefix-concat String.[] s = refl
strip_prefix-concat (String.◌∷◌ c p) s = ground (arith, strip_prefix-concat p s)

concat-strip_prefix : (p s t : String) → strip_prefix p s ≡ some t → concat p t ≡ s
unfolding strip_prefix
concat-strip_prefix String.[] s t e = sym (some-eq-some e)
concat-strip_prefix (String.◌∷◌ c p) String.[] t e = absurd (ground (arith, e))
concat-strip_prefix (String.◌∷◌ c p) (String.◌∷◌ d s) t e = elim (Bool-cases (code c == code d)) [
  | inl same ↦
      ap₂ (λ x y. String.◌∷◌ x y) (Char-path c d (ground (arith, same)))
        (concat-strip_prefix p s t (rw (same, strip_prefix) at e))
  | inr other ↦ absurd (ground (arith, e, other))
]

str_eq-concat : (p s t : String) → str_eq (concat p s) (concat p t) ≡ str_eq s t
str_eq-concat p s t = elim (Bool-cases (str_eq s t)) [
  | inl same ↦ ground (arith, same, eq_iff s t, eq_iff (concat p s) (concat p t))
  | inr other ↦ elim (Bool-cases (str_eq (concat p s) (concat p t))) [
    | inr apart ↦ apart ∙ sym other
    | inl together ↦
        let whole : concat p s ≡ concat p t = (eq_iff (concat p s) (concat p t)).0 together in
        let parts : s ≡ t =
          some-eq-some
            (sym (strip_prefix-concat p s) ∙ ap (strip_prefix p) whole ∙ strip_prefix-concat p t) in
        absurd (ground (arith, other, eq_iff s t, parts))
  ]
]

-- A key without the prefix is not one with it.
without_prefix : (p k t : String) → strip_prefix p k ≡ none → str_eq k (concat p t) ≡ false
without_prefix p k t bare = elim (Bool-cases (str_eq k (concat p t))) [
  | inr other ↦ other
  | inl same ↦
      let stripped : none ≡ some t =
        sym bare ∙ ap (strip_prefix p) ((eq_iff k (concat p t)).0 same) ∙ strip_prefix-concat p t in
      absurd (ground (arith, stripped))
]

-- The value under the public key for `k`, where there is one.
abbrev pub public_value : Map String → String → Option String
public_value src k = elim (strip_prefix config_prefix k) [
  | none ↦ none
  | some name ↦ lookup (concat public_prefix name) src
]

lookup-copy_public_keys :
    (src dst : Map String) (k : String)
    → HasUniqueKeys src
    → lookup k (copy_public_keys src dst) ≡ or_else (public_value src k) (lookup k dst)
unfolding copy_public_keys lookup strip_prefix
lookup-copy_public_keys [] dst k u = elim (Option-cases (strip_prefix config_prefix k)) [
  | inl bare ↦ rw bare refl
  | inr (name, known) ↦ rw known refl
]
lookup-copy_public_keys ((j, v) ∷ src) dst k (fresh, u) =
    elim (Option-cases (strip_prefix public_prefix j)) [
      | inl private ↦ elim (Option-cases (strip_prefix config_prefix k)) [
        | inl bare ↦ ground (arith, private, bare, lookup-copy_public_keys src dst k u)
        | inr (name, known) ↦ ground (
          arith,
          private,
          known,
          lookup-copy_public_keys src dst k u,
          without_prefix public_prefix j name private,
        )
      ]
      | inr (m, is_public) ↦
          let dst' = insert (concat config_prefix m) v dst in
          let written = concat-strip_prefix public_prefix j m is_public in
          elim (Option-cases (strip_prefix config_prefix k)) [
            | inl bare ↦ ground (
              arith,
              is_public,
              bare,
              lookup-copy_public_keys src dst' k u,
              lookup-insert (concat config_prefix m) k v dst,
              without_prefix config_prefix k m bare,
              eq_iff k (concat config_prefix m),
              eq_iff (concat config_prefix m) k,
            )
            | inr (name, known) ↦ ground (
              arith,
              is_public,
              known,
              fresh,
              written,
              lookup-copy_public_keys src dst' k u,
              lookup-insert (concat config_prefix m) k v dst,
              concat-strip_prefix config_prefix k name known,
              str_eq-concat public_prefix m name,
              str_eq-concat config_prefix m name,
              has_key-lookup j src,
              eq_iff m name,
            )
          ]
    ]

lookup-copy_all :
    (src dst : Map String) (k : String)
    → HasUniqueKeys src
    → lookup k (copy_all src dst) ≡ or_else (lookup k src) (lookup k dst)
unfolding copy_all lookup
lookup-copy_all [] dst k u = refl
lookup-copy_all ((j, v) ∷ src) dst k (fresh, u) = ground (
  arith,
  lookup-copy_all src (insert j v dst) k u,
  lookup-insert j k v dst,
  has_key-lookup j src,
  fresh,
  eq_iff j k,
)

lookup-copy_all_labels :
    (labels : Map String) (k : String)
    → HasUniqueKeys labels
    → lookup k (copy_all labels []) ≡ lookup k labels
unfolding lookup
lookup-copy_all_labels labels k u = ground (arith, lookup-copy_all labels [] k u)

-- The value of an annotation whose key has the prefix of the configuration.
abbrev pub config_value : Map String → String → Option String
config_value src k = if is_some (strip_prefix config_prefix k) then lookup k src else none

lookup-copy_config_keys :
    (src dst : Map String) (k : String)
    → HasUniqueKeys src
    → lookup k (copy_config_keys src dst) ≡ or_else (config_value src k) (lookup k dst)
unfolding copy_config_keys lookup
lookup-copy_config_keys [] dst k u = ground arith
lookup-copy_config_keys ((j, v) ∷ src) dst k (fresh, u) =
    elim (Bool-cases (is_some (strip_prefix config_prefix j))) [
      | inr foreign ↦ ground (arith, foreign, lookup-copy_config_keys src dst k u, eq_iff j k)
      | inl config ↦ ground (
        arith,
        config,
        lookup-copy_config_keys src (insert j v dst) k u,
        lookup-insert j k v dst,
        has_key-lookup j src,
        fresh,
        eq_iff j k,
      )
    ]

-- On each key of the configuration the annotations come before the labels, and in both a public key
-- before the one that it stands for. A key without the prefix of the configuration has the value of
-- its label. Labels and annotations have each key once.
pub lookup-sablier_config :
    (labels annotations : Map String) (k : String)
    → HasUniqueKeys labels
    → HasUniqueKeys annotations
    → lookup k (sablier_config labels annotations)
      ≡ or_else
          (public_value annotations k)
          (or_else (config_value annotations k) (or_else (public_value labels k) (lookup k labels)))
unfolding sablier_config
lookup-sablier_config labels annotations k u v =
    let copied = copy_all labels [] in
    let public = copy_public_keys labels copied in
    let annotated = copy_config_keys annotations public in
    rw
      (
        lookup-copy_public_keys annotations annotated k v,
        lookup-copy_config_keys annotations public k v,
        lookup-copy_public_keys labels copied k u,
        lookup-copy_all_labels labels k u,
      )
      refl
