-- ===== src/Kubernetes/Names.antt =====
-- The names that the program makes are names that it parses.
use sablier.Text.{split, atoi, concat}
use sablier.Prelude.Int.{ℤ, pos}
use sablier.Text.Split.{has_code, IsSplitOf, split-concat, split-IsSplitOf, split-whole}
use sablier.Kubernetes.{
  parse_name, ParsedName, parsed_name, parse_parts, joined, int32, int32_of_bits, workload_name,
}
use sablier.Prelude.{
  [], ◌∷◌, some, false, inl, inr, refl, arith, String, ◌≡◌, List, Option-cases, sym, ap, ◌∙◌,
}
use Prim.Native.Char.{Char, code}
use mathlib.Core.Logic.{◌↔◌}

-- The name is the kind, the namespace, the name and a number, none of them with the delimiter in it.
pub record IsParsed (d : Char) (text : String) (p : ParsedName) : Type 0 where
  pub digits : String
  pub number : ℤ
  pub original : p.original ≡ text
  pub parts : joined d p.kind p.namespace p.name digits ≡ text
  pub kind : has_code (code d) p.kind ≡ false
  pub namespace : has_code (code d) p.namespace ≡ false
  pub name : has_code (code d) p.name ≡ false
  pub last : has_code (code d) digits ≡ false
  pub parsed : atoi digits ≡ some number
  pub replicas : p.replicas ≡ int32 number

split-joined :
    (d : Char) (kind namespace name digits : String)
    → has_code (code d) kind ≡ false
    → has_code (code d) namespace ≡ false
    → has_code (code d) name ≡ false
    → has_code (code d) digits ≡ false
    → split (code d) (joined d kind namespace name digits) ≡ kind ∷ namespace ∷ name ∷ digits ∷ []
split-joined d kind namespace name digits k ns n l =
    rw
      (
        split-concat kind (concat namespace (String.◌∷◌ d (concat name (String.◌∷◌ d digits)))) d k,
        split-concat namespace (concat name (String.◌∷◌ d digits)) d ns,
        split-concat name digits d n,
        split-whole digits (code d) l,
      )
      refl

parsed_name_lem :
    (original kind namespace name digits : String) (p : ParsedName)
    → parsed_name original kind namespace name digits ≡ inr p
    → (number : ℤ) × (atoi digits ≡ some number)
      × (p ≡ record {
        original = original;
        kind = kind;
        namespace = namespace;
        name = name;
        replicas = int32 number;
      })
unfolding parsed_name
parsed_name_lem original kind namespace name digits p e = elim (Option-cases (atoi digits)) [
  | inl bad ↦ absurd (ground (arith, bad))
  | inr (number, good) ↦ (number, good, ground (arith, good))
]

parse_parts-IsParsed :
    (d : Char) (text : String) (parts : List String) (p : ParsedName)
    → IsSplitOf d text parts
    → parse_parts text parts ≡ inr p
    → IsParsed d text p
unfolding parse_parts
parse_parts-IsParsed d text [] p s e = absurd s
parse_parts-IsParsed d text (a ∷ []) p s e = absurd (ground arith)
parse_parts-IsParsed d text (a ∷ b ∷ []) p s e = absurd (ground arith)
parse_parts-IsParsed d text (a ∷ b ∷ c ∷ []) p s e = absurd (ground arith)
parse_parts-IsParsed d text (a ∷ b ∷ c ∷ f ∷ g ∷ rest) p s e = absurd (ground arith)
parse_parts-IsParsed d text (kind ∷ namespace ∷ name ∷ digits ∷ []) p
      ((k, (ns, (n, (l, all)))), whole) e =
    let (number, good, same) = parsed_name_lem text kind namespace name digits p e in
    rw same (record {
      digits = digits;
      number = number;
      original = refl;
      parts = whole;
      kind = k;
      namespace = ns;
      name = n;
      last = l;
      parsed = good;
      replicas = refl;
    })

parsed_name-again :
    (text digits : String) (number : ℤ) (p : ParsedName)
    → atoi digits ≡ some number
    → p.original ≡ text
    → p.replicas ≡ int32 number
    → parsed_name text p.kind p.namespace p.name digits ≡ inr p
unfolding parsed_name
parsed_name-again text digits number p good o r = rw (good, parsed_name, sym o, sym r) refl

-- A name is parsed into `p` exactly if it is the kind, the namespace and the name of `p` and a
-- number, with the delimiter between them and nowhere else, and the number cut to 32 bits is the
-- count of replicas of `p`.
pub parse_name-IsParsed :
    (d : Char) (text : String) (p : ParsedName) → (parse_name d text ≡ inr p) ↔ IsParsed d text p
unfolding parse_name parse_parts
parse_name-IsParsed d text p = (
  (λ e. parse_parts-IsParsed d text (split (code d) text) p (split-IsSplitOf d text) e),
  λ h.
      let parts : split (code d) text ≡ p.kind ∷ p.namespace ∷ p.name ∷ h.digits ∷ [] =
        ap (split (code d)) (sym h.parts)
        ∙ split-joined d p.kind p.namespace p.name h.digits h.kind h.namespace h.name h.last in
      rw parts (parsed_name-again text h.digits h.number p h.parsed h.original h.replicas),
)

one : atoi "1" ≡ some (pos 1)
unfolding atoi
one = refl

one_replica : int32 (pos 1) ≡ pos 1
unfolding int32 int32_of_bits
one_replica = refl

-- A name that the program makes for a workload is read back as it was made, if the delimiter is in
-- none of its parts.
pub parse_name-workload_name :
    (kind : String) (d : Char) (namespace name : String)
    → has_code (code d) kind ≡ false
    → has_code (code d) namespace ≡ false
    → has_code (code d) name ≡ false
    → has_code (code d) "1" ≡ false
    → parse_name d (workload_name kind d namespace name).original
      ≡ inr (workload_name kind d namespace name)
unfolding workload_name
parse_name-workload_name kind d namespace name k ns n l =
    (parse_name-IsParsed d (joined d kind namespace name "1")
        (workload_name kind d namespace name)).1
      (record {
        digits = "1";
        number = pos 1;
        original = refl;
        parts = refl;
        kind = k;
        namespace = ns;
        name = n;
        last = l;
        parsed = one;
        replicas = sym one_replica;
      })
