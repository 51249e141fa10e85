-- ===== src/Orchestrate/Cycle/Sound.antt =====
-- What a search that finds no cycle shows (orchestrate/dag.go, `detectCycle`): the order in which it
-- left the nodes puts every dependent before its dependencies.
use vagent.Common.{
  ℕ, zero, suc, ◌<◌, ◌≡◌, ◌≢◌, ◌∙◌, sym, refl, inl, inr, String, str_eq, eq_iff, List, [], ◌∷◌, map,
  ltb, length, arith, Bool-cases, if◌then◌else◌,
}
use vagent.Schema.{Types}
use vagent.Orchestrate.Node.{Node, update}
use vagent.Orchestrate.Topology.{add_deps, build_maps, build_dag_maps}
use vagent.Orchestrate.Topology.Degrees.{occurrences, HasDistinctIds, deps_of, build_dag_maps_lem}
use vagent.Orchestrate.Cycle.Steps.{
  Color-cases, finished_inj, visit_next-finished, visit-finished, visit_nodes-finished,
  visit-Advances,
}
use vagent.Orchestrate.Cycle.{
  Color, gray, black, Search, finished, adjacency, visit_next, visit, visit_nodes,
}

abbrev pub In : String → List String → Type 0
In x ys = 0 < occurrences x ys

-- Where the last occurrence of an ID stands, counted from the end.
abbrev pub position : String → List String → ℕ
position x [] = 0
position x (y ∷ ys) = if ltb 0 (occurrences x ys) then position x ys else length ys

module _ (adj : String → List String) where
  -- What follows an ID holds the IDs that it has edges to.
  abbrev pub IsOrdered : List String → Type 0
  IsOrdered [] = Unit
  IsOrdered (x ∷ xs) = ((y : String) → In y (adj x) → In y xs) × IsOrdered xs

  IsOrdered-closed :
      (order : List String) (x y : String)
      → IsOrdered order
      → In x order
      → In y (adj x)
      → In y order
  IsOrdered-closed [] x y ordered here edge = absurd (omega (arith, here))
  IsOrdered-closed (z ∷ zs) x y ordered here edge = elim (Bool-cases (ltb 0 (occurrences x zs))) [
    | inl later ↦
        let more = IsOrdered-closed zs x y ordered.1 (ground (arith, later)) edge in
        ground (arith, more)
    | inr last ↦
        let same : z ≡ x = ground (arith, here, last, eq_iff z x) in
        let more = ordered.0 y (rw same edge) in ground (arith, more)
  ]

  pub position-lt :
      (order : List String) (x : String) → In x order → position x order < length order
  position-lt [] x here = absurd (omega (arith, here))
  position-lt (z ∷ zs) x here = elim (Bool-cases (ltb 0 (occurrences x zs))) [
    | inl later ↦ let less = position-lt zs x (ground (arith, later)) in ground (arith, later, less)
    | inr last ↦ ground (arith, last)
  ]

  pub position_edge :
      (order : List String) (x y : String)
      → IsOrdered order
      → In x order
      → In y (adj x)
      → position y order < position x order
  position_edge [] x y ordered here edge = absurd (omega (arith, here))
  position_edge (z ∷ zs) x y ordered here edge = elim (Bool-cases (ltb 0 (occurrences x zs))) [
    | inl later ↦
        let there : In x zs = ground (arith, later) in
        let more = IsOrdered-closed zs x y ordered.1 there edge in
        let less = position_edge zs x y ordered.1 there edge in ground (arith, later, more, less)
    | inr last ↦
        let same : z ≡ x = ground (arith, here, last, eq_iff z x) in
        let more = ordered.0 y (rw same edge) in
        let less = position-lt zs y more in ground (arith, last, more, less)
  ]

  -- The black nodes stand in an order.
  abbrev pub Covers : (String → Color) → List String → Type 0
  Covers color order = ((x : String) → color x ≡ black → In x order) × IsOrdered order

  -- A larger order that holds the targets.
  abbrev pub Explores : (String → Color) → List String → List String → Type 0
  Explores color order targets =
      (order' : List String) × Covers color order'
      × ((x : String) → In x order → In x order')
      × ((x : String) → In x targets → In x order')

  Explores-none :
      {color color' : String → Color} (order : List String)
      → ((x : String) → color x ≡ color' x)
      → Covers color order
      → Explores color' order []
  Explores-none order same covers = (
    order,
    ((λ x h. covers.0 x (same x ∙ h)), covers.1),
    λ x here. here,
    λ x here. absurd (omega (arith, here)),
  )

  -- One target more, which the order in between holds.
  Explores-more :
      {color' : String → Color} (order order₁ : List String) (y : String) (targets : List String)
      → ((x : String) → In x order → In x order₁)
      → In y order₁
      → Explores color' order₁ targets
      → Explores color' order (y ∷ targets)
  Explores-more order order₁ y targets kept₁ held (order', covers', kept, all) = (
    order',
    covers',
    λ x here. kept x (kept₁ x here),
    λ x here. elim (Bool-cases (str_eq y x)) [
      | inl this ↦ rw (sym ((eq_iff y x).0 this)) (kept y held)
      | inr other ↦ all x (ground (arith, here, other))
    ],
  )

  abbrev Steps : (String → (String → Color) → Search) → Type 0
  Steps step =
      (x : String) (color color' : String → Color) (order : List String)
      → step x color ≡ finished color'
      → Covers color order
      → Explores color' order (x ∷ [])

  visit_next-Explores :
      (step : String → (String → Color) → Search)
      → Steps step
      → (nexts : List String) (color color' : String → Color) (order : List String)
      → visit_next step nexts color ≡ finished color'
      → Covers color order
      → Explores color' order nexts
  visit_next-Explores step steps [] color color' order done covers =
      Explores-none order (finished_inj color color' (unfold visit_next in done)) covers
  visit_next-Explores step steps (next ∷ rest) color color' order done covers =
      elim (visit_next-finished step next rest color color' done) [
        | inl (color₁, new, fine, more) ↦
            let (order₁, covers₁, kept₁, held) = steps next color color₁ order fine covers in
            Explores-more order order₁ next rest kept₁
              (held next (ground (arith, eq_iff next next)))
              (visit_next-Explores step steps rest color₁ color' order₁ more covers₁)
        | inr (old, more) ↦
            Explores-more order order next rest (λ x here. here) (covers.0 next old)
              (visit_next-Explores step steps rest color color' order more covers)
      ]

  visit-Explores : (fuel : ℕ) → Steps (visit adj fuel)
  visit-Explores zero id color color' order done covers = unfold visit in cc
  visit-Explores (suc fuel) id color color' order done covers =
      let (color₁, fine, same) = visit-finished adj fuel id color color' done in
      let (order₁, covers₁, kept, all) =
        visit_next-Explores (visit adj fuel) (visit-Explores fuel) (adj id) (update id gray color)
          color₁ order fine ((λ x h. covers.0 x (ground (arith, h))), covers.1) in
      (
        id ∷ order₁,
        (
          λ x h. elim (Bool-cases (str_eq id x)) [
            | inl this ↦ ground (arith, this)
            | inr other ↦ ground (arith, other, covers₁.0 x (ground (arith, other, h, same x)))
          ],
          (all, covers₁.1),
        ),
        λ x here. ground (arith, kept x here),
        λ x here. ground (arith, here),
      )

  pub visit_nodes-Explores :
      {T : Types} (fuel : ℕ) (ns : List (Node T)) (color color' : String → Color)
      (order : List String)
      → visit_nodes adj fuel ns color ≡ finished color'
      → ((x : String) → color x ≢ gray)
      → Covers color order
      → Explores color' order (map (λ n. n.id) ns)
  visit_nodes-Explores fuel [] color color' order done none_gray covers =
      Explores-none order (finished_inj color color' (unfold visit_nodes in done)) covers
  visit_nodes-Explores fuel (n ∷ ns) color color' order done none_gray covers =
      elim (visit_nodes-finished adj fuel n ns color color' done) [
        | inl (color₁, new, fine, more) ↦
            let (order₁, covers₁, kept₁, held) =
              visit-Explores fuel n.id color color₁ order fine covers in
            let (grays, whites) = visit-Advances adj fuel n.id color color₁ fine in
            Explores-more order order₁ n.id (map (λ n. n.id) ns) kept₁
              (held n.id (ground (arith, eq_iff n.id n.id)))
              (visit_nodes-Explores fuel ns color₁ color' order₁ more
                (λ x h. none_gray x (grays x h)) covers₁)
        | inr (old, more) ↦
            let left : color n.id ≡ black = elim (Color-cases (color n.id)) [
              | inl new ↦ absurd (old new)
              | inr (inl on_path) ↦ absurd (none_gray n.id on_path)
              | inr (inr black_now) ↦ black_now
            ] in
            Explores-more order order n.id (map (λ n. n.id) ns) (λ x here. here)
              (covers.0 n.id left)
              (visit_nodes-Explores fuel ns color color' order more none_gray covers)
      ]

module _ {T : Types} where
  adjacency-build_maps :
      (ns : List (Node T)) (adj : String → List String) (degree : String → ℕ)
      → adjacency ns adj ≡ (build_maps ns adj degree).0
  unfolding adjacency build_maps
  adjacency-build_maps [] adj degree = refl
  adjacency-build_maps (n ∷ ns) adj degree =
      adjacency-build_maps ns (add_deps n.id n.deps adj) (update n.id (length n.deps) degree)

  -- The edges of the search are the dependencies.
  pub occurrences-adjacency :
      (ns : List (Node T)) (x d : String)
      → HasDistinctIds ns
      → occurrences x (adjacency ns (λ y. []) d) ≡ occurrences d (deps_of ns x)
  unfolding build_dag_maps
  occurrences-adjacency ns x d distinct =
      rw (adjacency-build_maps ns (λ y. []) (λ y. 0)) (build_dag_maps_lem ns x d distinct).0
