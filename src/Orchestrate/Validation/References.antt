-- ===== src/Orchestrate/Validation/References.antt =====
-- What passes the validation of references (orchestrate/orchestrate.go): distinct IDs, and
-- dependencies that exist.
use vagent.Common.{
  ◌≡◌, refl, String, eq_iff, true, List, [], ◌∷◌, none, Option-cases, inl, inr, arith, All,
  Bool-cases,
}
use vagent.Schema.{Types}
use vagent.Orchestrate.Node.{Node, node_of}
use vagent.Orchestrate.Topology.Degrees.{HasDistinctIds}
use vagent.Orchestrate.Validation.{
  has_id, check_ids, check_deps, check_all_deps, ids, validate_references,
}

check_deps-All :
    (seen : List String) (id : String) (ds : List String)
    → check_deps seen id ds ≡ none
    → All (λ d. has_id seen d ≡ true) ds
unfolding check_deps
check_deps-All seen id [] h = tt
check_deps-All seen id (d ∷ ds) h = elim (Bool-cases (has_id seen d)) [
  | inl known ↦ (known, check_deps-All seen id ds (ground (arith, known)))
  | inr missing ↦ absurd (ground (arith, missing))
]

module _ {T : Types} where
  check_all_deps-All :
      (seen : List String) (ns : List (Node T))
      → check_all_deps seen ns ≡ none
      → All (λ n. All (λ d. has_id seen d ≡ true) n.deps) ns
  unfolding check_all_deps
  check_all_deps-All seen [] h = tt
  check_all_deps-All seen (n ∷ ns) h = elim (Option-cases (check_deps seen n.id n.deps)) [
    | inl fine ↦
        (check_deps-All seen n.id n.deps fine, check_all_deps-All seen ns (ground (arith, fine)))
    | inr (e, broke) ↦ absurd (ground (arith, broke))
  ]

  -- No node has an ID that was seen before.
  check_ids-absent :
      (seen : List String) (ns : List (Node T)) (x : String)
      → check_ids seen ns ≡ none
      → has_id seen x ≡ true
      → node_of ns x ≡ none
  unfolding check_ids node_of has_id
  check_ids-absent seen [] x h old = refl
  check_ids-absent seen (n ∷ ns) x h old = elim (Bool-cases (has_id seen n.id)) [
    | inl twice ↦ absurd (ground (arith, twice))
    | inr new ↦ ground (
      arith,
      new,
      eq_iff n.id x,
      check_ids-absent (n.id ∷ seen) ns x (ground (arith, new)) (ground (arith, old)),
    )
  ]

  check_ids-HasDistinctIds :
      (seen : List String) (ns : List (Node T)) → check_ids seen ns ≡ none → HasDistinctIds ns
  unfolding check_ids has_id
  check_ids-HasDistinctIds seen [] h = tt
  check_ids-HasDistinctIds seen (n ∷ ns) h = elim (Bool-cases (has_id seen n.id)) [
    | inl twice ↦ absurd (ground (arith, twice))
    | inr new ↦ (
      check_ids-absent (n.id ∷ seen) ns n.id (ground (arith, new))
          (ground (arith, eq_iff n.id n.id)),
      check_ids-HasDistinctIds (n.id ∷ seen) ns (ground (arith, new)),
    )
  ]

  -- A graph whose references pass the validation has no ID twice, and every dependency is the ID
  -- of a node.
  pub validate_references_lem :
      (ns : List (Node T))
      → validate_references ns ≡ none
      → HasDistinctIds ns × All (λ n. All (λ d. has_id (ids ns) d ≡ true) n.deps) ns
  unfolding validate_references
  validate_references_lem ns h = elim (Option-cases (check_ids [] ns)) [
    | inl fine ↦
        (check_ids-HasDistinctIds [] ns fine, check_all_deps-All (ids ns) ns (ground (arith, fine)))
    | inr (e, broke) ↦ absurd (ground (arith, broke))
  ]
