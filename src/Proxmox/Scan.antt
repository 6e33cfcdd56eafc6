-- ===== src/Proxmox/Scan.antt =====
-- What a scan caches and finds.
-- The containers of the nodes that can be read.
use sablier.Dependencies.Graph.{has_key_after_insert}
use sablier.Text.{itoa}
use sablier.Prelude.Sets.{IsUnique}
use sablier.Proxmox.{
  Cluster, Gathered, Listed, Discovered, scan_container, has_sablier_tag, parse_tags, ref_of,
  scan_node, scan_nodes, scan_containers, ContainerRef,
}
use sablier.Prelude.{
  [], ◌∷◌, some, none, false, inl, inr, refl, arith, ℕ, String, List, Bool, contains, any, has_key,
  ◌++◌, str_eq, ◌≡◌, ◌||◌, ap, ◌&&◌, contains-append, eq_iff, insert, Bool-cases, some-eq-some,
  subst, sym, ◌∙◌, Option-cases, Map, ◌⊎◌,
}

abbrev pub listed_on : Cluster → List String → List Listed
listed_on cluster [] = []
listed_on cluster (node ∷ nodes) =
    let rest = listed_on cluster nodes in
    elim (cluster.containers node) [ none ↦ rest | some cs ↦ cs ++ rest ]

-- A container answers to its name and to its VMID.
abbrev pub answers_to : String → Listed → Bool
answers_to k c = str_eq c.name k || str_eq (itoa c.vmid) k

abbrev pub is_managed : ℕ → String → Listed → Bool
is_managed separator x c = has_sablier_tag (parse_tags separator c.tags) && str_eq c.name x

abbrev pub names_of : List Discovered → List String
names_of [] = []
names_of (d ∷ ds) = d.ref.name ∷ names_of ds

names_of-append : (ds es : List Discovered) → names_of (ds ++ es) ≡ names_of ds ++ names_of es
names_of-append [] es = refl
names_of-append (d ∷ ds) es = ap (λ t. d.ref.name ∷ t) (names_of-append ds es)

IsUnique-append_one :
    (xs : List String) (x : String) → contains xs x ≡ false → IsUnique xs → IsUnique (xs ++ x ∷ [])
IsUnique-append_one [] x new u = (refl, tt)
IsUnique-append_one (y ∷ ys) x new (fresh, u) = (
  ground (arith, contains-append ys (x ∷ []) y, fresh, new, eq_iff x y, eq_iff y x),
  IsUnique-append_one ys x (ground (arith, new)) u,
)

any-append {ℓ} :
    {A : Type ℓ} (p : A → Bool) (xs ys : List A) → any p (xs ++ ys) ≡ any p xs || any p ys
any-append p [] ys = refl
any-append p (x ∷ xs) ys = ground (arith, any-append p xs ys)

-- The names of managed containers are those found, once each.
abbrev IsTidy : Gathered → Type 0
IsTidy g =
    ((x : String) → has_key x g.managed ≡ contains (names_of g.discovered) x)
    × IsUnique (names_of g.discovered)

-- What the containers `cs` add to what is gathered.
abbrev pub Adds : ℕ → List Listed → Gathered → Gathered → Type 0
Adds separator cs g g' =
    ((k : String) → has_key k g'.cache ≡ any (answers_to k) cs || has_key k g.cache)
    × ((x : String)
        → contains (names_of g'.discovered) x
          ≡ any (is_managed separator x) cs || contains (names_of g.discovered) x)
    × IsTidy g'

scan_container-Adds :
    (separator : ℕ) (node : String) (c : Listed) (g g' : Gathered)
    → IsTidy g
    → scan_container separator node c g ≡ some g'
    → Adds separator (c ∷ []) g g'
unfolding scan_container
scan_container-Adds separator node c g g' (same, u) e =
    let ref = ref_of node c in
    let tags = parse_tags separator c.tags in
    let cache = insert (itoa c.vmid) ref (insert c.name ref g.cache) in
    let cached : (k : String) → has_key k cache ≡ any (answers_to k) (c ∷ []) || has_key k g.cache =
      λ k. ground (
        arith,
        has_key_after_insert (itoa c.vmid) k ref (insert c.name ref g.cache),
        has_key_after_insert c.name k ref g.cache,
      ) in
    elim (Bool-cases (has_sablier_tag tags)) [
      | inr unmanaged ↦
          let result : record g { cache = cache } ≡ g' =
            some-eq-some (rw (unmanaged, scan_container) at e) in
          subst (Adds separator (c ∷ []) g) result
            (cached, (λ x. ground (arith, unmanaged)), (same, u))
      | inl tagged ↦ elim (Bool-cases (has_key c.name g.managed)) [
        | inl twice ↦ absurd (ground (arith, tagged, twice, e))
        | inr first ↦
            let d : Discovered = record { ref = ref; tags = tags; status = c.status } in
            let listed = names_of-append g.discovered (d ∷ []) in
            let result : record {
              cache = cache;
              managed = insert c.name ref g.managed;
              discovered = g.discovered ++ d ∷ [];
            }
                ≡ g' =
              some-eq-some (rw (tagged, first, scan_container) at e) in
            subst (Adds separator (c ∷ []) g) result (
              cached,
              (λ x. rw listed (
                  ground (arith, tagged, contains-append (names_of g.discovered) (c.name ∷ []) x))),
              (
                (λ x. rw listed (
                    ground (
                      arith,
                      same x,
                      has_key_after_insert c.name x ref g.managed,
                      contains-append (names_of g.discovered) (c.name ∷ []) x,
                    ))),
                rw listed (
                    IsUnique-append_one (names_of g.discovered) c.name (sym (same c.name) ∙ first)
                      u),
              ),
            )
      ]
    ]

Adds-append :
    (separator : ℕ) (cs ds : List Listed) (g h i : Gathered)
    → Adds separator cs g h
    → Adds separator ds h i
    → Adds separator (cs ++ ds) g i
Adds-append separator cs ds g h i (cached, found, tidy) (cached', found', tidy') = (
  (λ k. ground (arith, cached k, cached' k, any-append (answers_to k) cs ds)),
  (λ x. ground (arith, found x, found' x, any-append (is_managed separator x) cs ds)),
  tidy',
)

scan_node-Adds :
    (separator : ℕ) (node : String) (cs : List Listed) (g g' : Gathered)
    → IsTidy g
    → scan_node separator node cs g ≡ some g'
    → Adds separator cs g g'
unfolding scan_node
scan_node-Adds separator node [] g g' tidy e =
    subst (Adds separator [] g) (some-eq-some e) ((λ k. refl), (λ x. refl), tidy)
scan_node-Adds separator node (c ∷ cs) g g' tidy e =
    elim (Option-cases (scan_container separator node c g)) [
      | inl twice ↦ absurd (ground (arith, rw twice at e))
      | inr (h, one) ↦
          let first = scan_container-Adds separator node c g h tidy one in
          Adds-append separator (c ∷ []) cs g h g' first
            (scan_node-Adds separator node cs h g' first.2 (rw one at e))
    ]

scan_nodes-Adds :
    (cluster : Cluster) (nodes : List String) (g g' : Gathered)
    → IsTidy g
    → scan_nodes cluster nodes g ≡ some g'
    → Adds cluster.tag_separator (listed_on cluster nodes) g g'
unfolding scan_nodes
scan_nodes-Adds cluster [] g g' tidy e =
    subst (Adds cluster.tag_separator [] g) (some-eq-some e) ((λ k. refl), (λ x. refl), tidy)
scan_nodes-Adds cluster (node ∷ nodes) g g' tidy e = elim (Option-cases (cluster.containers node)) [
  | inl unread ↦
      rw (unread, listed_on)
        (scan_nodes-Adds cluster nodes g g' tidy (rw (unread, scan_nodes) at e))
  | inr (cs, read) ↦ elim (Option-cases (scan_node cluster.tag_separator node cs g)) [
    | inl twice ↦ absurd (ground (arith, rw (read, twice, scan_nodes) at e))
    | inr (h, one) ↦
        let first = scan_node-Adds cluster.tag_separator node cs g h tidy one in
        rw (read, listed_on)
          (Adds-append cluster.tag_separator cs (listed_on cluster nodes) g h g' first
            (scan_nodes-Adds cluster nodes h g' first.2 (rw (read, one, scan_nodes) at e)))
  ]
]

-- A scan that fails leaves the cache. One that succeeds finds exactly the names of the containers with
-- the tag of sablier on nodes that can be read, no two of them the same, and its cache answers to
-- exactly the names and the VMIDs of all containers on these nodes.
pub scan_containers-Scanned :
    (cluster : Cluster) (cache : Map ContainerRef)
    → (scan_containers cluster cache ≡ (none, cache))
      ⊎ ((nodes : List String) × (found : List Discovered) × (cluster.nodes ≡ some nodes)
          × ((scan_containers cluster cache).0 ≡ some found)
          × IsUnique (names_of found)
          × ((x : String)
              → contains (names_of found) x
                ≡ any (is_managed cluster.tag_separator x) (listed_on cluster nodes))
          × ((k : String)
              → has_key k (scan_containers cluster cache).1
                ≡ any (answers_to k) (listed_on cluster nodes)))
unfolding scan_containers has_key
scan_containers-Scanned cluster cache = elim (Option-cases cluster.nodes) [
  | inl unread ↦ inl (rw (unread, scan_containers) refl)
  | inr (nodes, read) ↦
      let nothing : Gathered = record { cache = []; managed = []; discovered = [] } in
      elim (Option-cases (scan_nodes cluster nodes nothing)) [
        | inl twice ↦ inl (rw (read, twice, scan_containers) refl)
        | inr (g, gathered) ↦
            let (cached, found, (same, u)) =
              scan_nodes-Adds cluster nodes nothing g ((λ x. refl), tt) gathered in
            inr (
              nodes,
              g.discovered,
              read,
              rw (read, gathered, scan_containers) refl,
              u,
              (λ x. ground (arith, found x)),
              (λ k. rw (read, gathered, scan_containers) (ground (arith, cached k))),
            )
      ]
]
