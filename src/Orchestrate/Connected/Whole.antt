-- ===== src/Orchestrate/Connected/Whole.antt =====
-- `checkConnected` on a graph whose references are valid (orchestrate/orchestrate.go).
use vagent.Common.{
  suc, ◌+◌, ◌≡◌, ◌≢◌, sym, ap, refl, inl, inr, String, str_eq, eq_iff, true, false, List, [], ◌∷◌,
  ◌++◌, none, some, length, length-map, ◌==◌, All, All-imply, arith, Bool-cases, Option-cases,
}
use vagent.Schema.{Types}
use vagent.Orchestrate.Node.{Node, update, node_of}
use vagent.Orchestrate.Topology.Degrees.{HasDistinctIds}
use vagent.Orchestrate.Validation.{has_id, ids}
use vagent.Orchestrate.Connected.{
  link, undirected, search_component, find_unvisited, connected, out_of_fuel, check_connected,
}
use vagent.Orchestrate.Connected.Edges.{dependent, undirected_edges}
use vagent.Orchestrate.Connected.Component.{
  unvisited, unvisited_visit, IsUnique, Linked, arrived, Linked-imply, edges, IsSearch,
  search_component-IsSearch, has_id-append, unvisited-All,
}

-- All edges lead into a list of IDs.
abbrev Inside : List String → (String → List String) → Type 0
Inside universe adj = (x y : String) → has_id (adj x) y ≡ true → has_id universe y ≡ true

update-Inside :
    (universe : List String) (x y : String) (adj : String → List String)
    → has_id universe y ≡ true
    → Inside universe adj
    → Inside universe (update x (adj x ++ y ∷ []) adj)
update-Inside universe x y adj there inside z w edge = elim (Bool-cases (str_eq x z)) [
  | inr other ↦ inside z w (ground (arith, other, edge))
  | inl this ↦ elim (Bool-cases (str_eq y w)) [
    | inl new ↦ rw (sym ((eq_iff y w).0 new)) there
    | inr old ↦ inside x w (ground (arith, this, old, edge, has_id-append (adj x) y w))
  ]
]

link-Inside :
    (universe : List String) (id : String) (deps : List String) (adj : String → List String)
    → has_id universe id ≡ true
    → All (λ d. has_id universe d ≡ true) deps
    → Inside universe adj
    → Inside universe (link id deps adj)
unfolding link
link-Inside universe id [] adj here known inside = inside
link-Inside universe id (d ∷ deps) adj here known inside =
    let adj₁ = update id (adj id ++ d ∷ []) adj in
    link-Inside universe id deps (update d (adj₁ d ++ id ∷ []) adj₁) here known.1
      (update-Inside universe d id adj₁ here (update-Inside universe id d adj known.0 inside))

unvisited_none : (xs : List String) → unvisited xs [] ≡ length xs
unfolding has_id
unvisited_none [] = refl
unvisited_none (x ∷ xs) = ap suc (unvisited_none xs)

module _ {T : Types} where
  undirected-Inside :
      (universe : List String) (ns : List (Node T)) (adj : String → List String)
      → All (λ n. has_id universe n.id ≡ true) ns
      → All (λ n. All (λ d. has_id universe d ≡ true) n.deps) ns
      → Inside universe adj
      → Inside universe (undirected ns adj)
  unfolding undirected
  undirected-Inside universe [] adj here known inside = inside
  undirected-Inside universe (n ∷ ns) adj here known inside =
      undirected-Inside universe ns (link n.id n.deps adj) here.1 known.1
        (link-Inside universe n.id n.deps adj here.0 known.0 inside)

  ids_here : (ns : List (Node T)) → All (λ n. has_id (ids ns) n.id ≡ true) ns
  unfolding has_id
  ids_here [] = tt
  ids_here (n ∷ ns) = (
    ground (arith, eq_iff n.id n.id),
    All-imply (λ m. has_id (ids ns) m.id ≡ true) (λ m. has_id (ids (n ∷ ns)) m.id ≡ true)
        (λ m h. ground (arith, h)) ns (ids_here ns),
  )

  has_id-none : (ns : List (Node T)) (x : String) → node_of ns x ≡ none → has_id (ids ns) x ≡ false
  unfolding has_id node_of
  has_id-none [] x h = refl
  has_id-none (n ∷ ns) x h = elim (Bool-cases (str_eq n.id x)) [
    | inl this ↦ absurd (ground (arith, h, this))
    | inr other ↦ ground (arith, other, has_id-none ns x (ground (arith, h, other)))
  ]

  ids-IsUnique : (ns : List (Node T)) → HasDistinctIds ns → IsUnique (ids ns)
  ids-IsUnique [] distinct = tt
  ids-IsUnique (n ∷ ns) distinct = (has_id-none ns n.id distinct.0, ids-IsUnique ns distinct.1)

  find_unvisited-All :
      (visited : List String) (ns : List (Node T))
      → find_unvisited visited ns ≡ none
      → All (λ n. has_id visited n.id ≡ true) ns
  unfolding find_unvisited
  find_unvisited-All visited [] h = tt
  find_unvisited-All visited (n ∷ ns) h = elim (Bool-cases (has_id visited n.id)) [
    | inl there ↦ (there, find_unvisited-All visited ns (ground (arith, h, there)))
    | inr missing ↦ absurd (ground (arith, h, missing))
  ]

  All-ids : (P : String → Type 0) (ns : List (Node T)) → All P (ids ns) → All (λ n. P n.id) ns
  All-ids P [] all = tt
  All-ids P (n ∷ ns) all = (all.0, All-ids P ns all.1)

  -- What the search of a valid graph visits, within the fuel.
  search_valid :
      (n : Node T) (ns : List (Node T))
      → HasDistinctIds (n ∷ ns)
      → All (λ m. All (λ d. has_id (ids (n ∷ ns)) d ≡ true) m.deps) (n ∷ ns)
      → let adj = undirected (n ∷ ns) (λ x. []) in
        (visited : List String) × (search_component adj (length (n ∷ ns)) (n.id ∷ []) (n.id ∷ [])
          ≡ some visited)
        × ((x : String) → has_id visited x ≡ true → Linked (dependent (n ∷ ns)) n.id x)
        × (unvisited (ids (n ∷ ns)) visited + length visited ≡ length (n ∷ ns))
  unfolding has_id
  search_valid n ns distinct known =
      let adj = undirected (n ∷ ns) (λ x. []) in
      let sound : (x y : String) → has_id (adj x) y ≡ true → dependent (n ∷ ns) x y ≡ true =
        undirected_edges (n ∷ ns) (λ x. []) in
      let universe = ids (n ∷ ns) in
      let inside =
        undirected-Inside universe (n ∷ ns) (λ x. []) (ids_here (n ∷ ns)) known (λ x y h. cc) in
      let unique = ids-IsUnique (n ∷ ns) distinct in
      let first = unvisited_visit universe n.id [] unique (ground (arith, eq_iff n.id n.id)) refl in
      let size = length-map (n ∷ ns) (λ m. m.id) in
      let at_start : (x : String) → has_id (n.id ∷ []) x ≡ true → Linked (edges adj) n.id x =
        λ x h. let same : n.id ≡ x = ground (arith, h, eq_iff n.id x) in rw (sym same) arrived in
      let begin : IsSearch adj n.id universe unique inside (n.id ∷ []) (n.id ∷ []) = record {
        linked = at_start;
        queued = at_start;
        counted = omega (arith, first, unvisited_none universe);
      } in
      let (visited, found, end) =
        search_component-IsSearch adj n.id universe unique inside (length (n ∷ ns)) (n.id ∷ [])
          (n.id ∷ []) begin (omega (arith, first, unvisited_none universe, size)) in
      (visited, found, λ x h. Linked-imply sound (end.linked x h), omega (arith, end.counted, size))

  -- In a graph with distinct IDs whose dependencies exist, the search ends within its fuel; when it
  -- finds the graph connected, a path leads from the first node to each node, each step from a node
  -- to one that it depends on or that depends on it.
  pub check_connected_lem :
      (n : Node T) (ns : List (Node T))
      → HasDistinctIds (n ∷ ns)
      → All (λ m. All (λ d. has_id (ids (n ∷ ns)) d ≡ true) m.deps) (n ∷ ns)
      → (check_connected (n ∷ ns) ≢ out_of_fuel)
        × (check_connected (n ∷ ns) ≡ connected
            → All (λ m. Linked (dependent (n ∷ ns)) n.id m.id) (n ∷ ns))
  unfolding check_connected
  check_connected_lem n [] distinct known = ((λ e. cc), (λ e. (arrived, tt)))
  check_connected_lem n (m ∷ ns) distinct known =
      let all = n ∷ m ∷ ns in
      let (visited, found, linked, counted) = search_valid n (m ∷ ns) distinct known in
      let Reached = λ (k : Node T). has_id visited k.id ≡ true in
      let reach =
        All-imply Reached (λ k. Linked (dependent all) n.id k.id) (λ k h. linked k.id h) all in
      elim (Bool-cases (length visited == length all)) [
        | inl full ↦ (
          λ e. absurd (ground (arith, found, full, e)),
          λ e. reach (
              All-ids (λ x. has_id visited x ≡ true) all
                (unvisited-All (ids all) visited (ground (arith, full, counted)))),
        )
        | inr partial ↦ elim (Option-cases (find_unvisited visited all)) [
          | inl none_left ↦ (
            λ e. absurd (ground (arith, found, partial, none_left, e)),
            λ e. reach (find_unvisited-All visited all none_left),
          )
          | inr (x, left) ↦ (
            λ e. absurd (ground (arith, found, partial, left, e)),
            λ e. absurd (ground (arith, found, partial, left, e)),
          )
        ]
      ]
