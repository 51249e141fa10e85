-- ===== src/Orchestrate/Topology/Degrees.antt =====
-- What the adjacency maps hold (orchestrate/topo.go).
use vagent.Common.{
  ℕ, suc, ◌+◌, ◌≡◌, refl, String, List, [], ◌∷◌, ◌++◌, none, some, arith, length, str_eq, eq_iff,
  if◌then◌else◌,
}
use vagent.Schema.{Types}
use vagent.Orchestrate.Node.{Node, update, node_of}
use vagent.Orchestrate.Topology.{add_deps, build_maps, build_dag_maps}

-- How often an ID stands in a list.
abbrev pub occurrences : String → List String → ℕ
occurrences x [] = 0
occurrences x (y ∷ ys) = let rest = occurrences x ys in if str_eq y x then suc rest else rest

pub occurrences-append :
    (x : String) (ys zs : List String)
    → occurrences x (ys ++ zs) ≡ occurrences x ys + occurrences x zs
occurrences-append x [] zs = omega arith
occurrences-append x (y ∷ ys) zs = ground (arith, occurrences-append x ys zs)

-- No two nodes share an ID.
abbrev pub HasDistinctIds : {T : Types} → List (Node T) → Type 0
HasDistinctIds {T} [] = Unit
HasDistinctIds {T} (n ∷ ns) = (node_of ns n.id ≡ none) × HasDistinctIds ns

occurrences-add_deps :
    (x d n : String) (ds : List String) (down : String → List String)
    → occurrences x (add_deps n ds down d)
      ≡ occurrences x (down d) + (if str_eq n x then occurrences d ds else 0)
unfolding add_deps
occurrences-add_deps x d n [] down = ground arith
occurrences-add_deps x d n (e ∷ ds) down = ground (
  arith,
  occurrences-add_deps x d n ds (update e (down e ++ n ∷ []) down),
  occurrences-append x (down e) (n ∷ []),
  eq_iff e d,
)

module _ {T : Types} where
  -- The dependencies of a node, none if there is no such node.
  abbrev pub deps_of : List (Node T) → String → List String
  deps_of ns x = elim (node_of ns x) [ none ↦ [] | some n ↦ n.deps ]

  occurrences-build_maps :
      (x d : String) (ns : List (Node T)) (down : String → List String) (degree : String → ℕ)
      → HasDistinctIds ns
      → occurrences x ((build_maps ns down degree).0 d)
        ≡ occurrences x (down d) + occurrences d (deps_of ns x)
  unfolding build_maps node_of
  occurrences-build_maps x d [] down degree h = omega arith
  occurrences-build_maps x d (n ∷ ns) down degree h = ground (
    arith,
    occurrences-build_maps x d ns (add_deps n.id n.deps down) (update n.id (length n.deps) degree)
        h.1,
    occurrences-add_deps x d n.id n.deps down,
    eq_iff n.id x,
  )

  degree-build_maps :
      (x : String) (ns : List (Node T)) (down : String → List String) (degree : String → ℕ)
      → HasDistinctIds ns
      → (build_maps ns down degree).1 x
        ≡ (elim (node_of ns x) [ none ↦ degree x | some n ↦ length n.deps ])
  unfolding build_maps node_of
  degree-build_maps x [] down degree h = refl
  degree-build_maps x (n ∷ ns) down degree h = ground (
    arith,
    degree-build_maps x ns (add_deps n.id n.deps down) (update n.id (length n.deps) degree) h.1,
    eq_iff n.id x,
  )

  -- When no two nodes share an ID, a node stands in the downstream list of `d` exactly as often as
  -- `d` stands among its dependencies, and its in-degree is the number of its dependencies.
  pub build_dag_maps_lem :
      (ns : List (Node T)) (x d : String)
      → HasDistinctIds ns
      → (occurrences x ((build_dag_maps ns).0 d) ≡ occurrences d (deps_of ns x))
        × ((build_dag_maps ns).1 x ≡ length (deps_of ns x))
  unfolding build_dag_maps
  build_dag_maps_lem ns x d h = (
    omega (arith, occurrences-build_maps x d ns (λ y. []) (λ y. 0) h),
    ground (arith, degree-build_maps x ns (λ y. []) (λ y. 0) h),
  )
