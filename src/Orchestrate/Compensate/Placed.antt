-- ===== src/Orchestrate/Compensate/Placed.antt =====
-- Counts of what is placed in a topological order (orchestrate/topo.go).
use vagent.Common.{
  ℕ, suc, ◌+◌, ◌≤◌, ◌<◌, ◌≡◌, ap, refl, inl, inr, String, str_eq, eq_iff, List, [], ◌∷◌, ◌++◌,
  length, ltb, All, arith, Bool-cases, if◌then◌else◌,
}
use vagent.Orchestrate.Topology.Degrees.{occurrences, occurrences-append}

-- The dependencies that are not in the order yet.
abbrev pub missing : List String → List String → ℕ
missing order [] = 0
missing order (d ∷ ds) =
    let rest = missing order ds in if ltb 0 (occurrences d order) then rest else suc rest

pub missing_append :
    (order : List String) (cur : String) (ds : List String)
    → occurrences cur order ≡ 0
    → missing (order ++ cur ∷ []) ds + occurrences cur ds ≡ missing order ds
missing_append order cur [] new = refl
missing_append order cur (d ∷ ds) new = ground (
  arith,
  new,
  missing_append order cur ds new,
  occurrences-append d order (cur ∷ []),
  eq_iff cur d,
  eq_iff d cur,
)

pub missing_none : (ds : List String) → missing [] ds ≡ length ds
missing_none [] = refl
missing_none (d ∷ ds) = ap suc (missing_none ds)

pub missing-All :
    (order ds : List String) → missing order ds ≡ 0 → All (λ d. 0 < occurrences d order) ds
missing-All order [] h = tt
missing-All order (d ∷ ds) h = ground (arith, h, missing-All order ds)

-- The IDs that are neither in the order nor in the queue.
abbrev pub unplaced : List String → List String → List String → ℕ
unplaced order queue [] = 0
unplaced order queue (x ∷ xs) =
    let rest = unplaced order queue xs in
    if ltb 0 (occurrences x queue + occurrences x order) then rest else suc rest

unplaced_le :
    (order queue : List String) (d : String) (xs : List String)
    → unplaced order (queue ++ d ∷ []) xs ≤ unplaced order queue xs
unplaced_le order queue d [] = omega arith
unplaced_le order queue d (x ∷ xs) =
    ground (arith, unplaced_le order queue d xs, occurrences-append x queue (d ∷ []))

pub unplaced_lt :
    (order queue : List String) (d : String) (xs : List String)
    → 0 < occurrences d xs
    → occurrences d queue + occurrences d order ≡ 0
    → unplaced order (queue ++ d ∷ []) xs < unplaced order queue xs
unplaced_lt order queue d [] here absent = absurd (omega (arith, here))
unplaced_lt order queue d (x ∷ xs) here absent = elim (Bool-cases (str_eq x d)) [
  | inl this ↦ ground (
    arith,
    this,
    absent,
    unplaced_le order queue d xs,
    occurrences-append x queue (d ∷ []),
    eq_iff x d,
    eq_iff d x,
  )
  | inr other ↦ ground (
    arith,
    other,
    unplaced_lt order queue d xs (ground (arith, here, other)) absent,
    occurrences-append x queue (d ∷ []),
  )
]

-- A node that moves from the front of the queue to the order stays placed.
pub unplaced_move :
    (order queue : List String) (cur : String) (xs : List String)
    → unplaced (order ++ cur ∷ []) queue xs ≡ unplaced order (cur ∷ queue) xs
unplaced_move order queue cur [] = refl
unplaced_move order queue cur (x ∷ xs) =
    ground (arith, unplaced_move order queue cur xs, occurrences-append x order (cur ∷ []))
