-- ===== src/Orchestrate/Connected/Component.antt =====
-- A graph that passes the check is one component (orchestrate/orchestrate.go, `checkConnected`).
use vagent.Common.{
  ℕ, zero, suc, ◌+◌, ◌≤◌, ◌≡◌, refl, sym, inl, inr, String, str_eq, eq_iff, Bool, true, false, ◌||◌,
  List, [], ◌∷◌, ◌++◌, some, length, length-append, All, arith, Bool-cases, if◌then◌else◌,
}
use vagent.Orchestrate.Validation.{has_id}
use vagent.Orchestrate.Connected.{visit_neighbors, search_component}

-- The IDs of a list that are not visited.
abbrev pub unvisited : List String → List String → ℕ
unvisited [] visited = 0
unvisited (x ∷ xs) visited =
    let rest = unvisited xs visited in if has_id visited x then rest else suc rest

-- No ID twice.
abbrev pub IsUnique : List String → Type 0
IsUnique [] = Unit
IsUnique (x ∷ xs) = (has_id xs x ≡ false) × IsUnique xs

unvisited_other :
    (xs : List String) (y : String) (visited : List String)
    → has_id xs y ≡ false
    → unvisited xs (y ∷ visited) ≡ unvisited xs visited
unfolding has_id
unvisited_other [] y visited h = refl
unvisited_other (x ∷ xs) y visited h =
    ground (arith, eq_iff x y, eq_iff y x, unvisited_other xs y visited (ground (arith, h)))

-- One visit more is one ID less.
pub unvisited_visit :
    (xs : List String) (y : String) (visited : List String)
    → IsUnique xs
    → has_id xs y ≡ true
    → has_id visited y ≡ false
    → unvisited xs visited ≡ suc (unvisited xs (y ∷ visited))
unfolding has_id
unvisited_visit [] y visited unique here new = cc
unvisited_visit (x ∷ xs) y visited unique here new = elim (Bool-cases (str_eq x y)) [
  | inl this ↦
      let same : x ≡ y = (eq_iff x y).0 this in
      let others = unvisited_other xs y visited (rw same at unique.0) in
      let fresh : has_id visited x ≡ false = rw same new in
      ground (arith, this, same, others, fresh, eq_iff y x)
  | inr other ↦
      let less = unvisited_visit xs y visited unique.1 (ground (arith, here, other)) new in
      ground (arith, other, less, eq_iff x y, eq_iff y x)
]

pub has_id-append :
    (xs : List String) (y x : String) → has_id (xs ++ y ∷ []) x ≡ (has_id xs x || str_eq y x)
unfolding has_id
has_id-append [] y x = ground arith
has_id-append (z ∷ xs) y x = ground (arith, has_id-append xs y x)

-- A path along edges.
pub data Linked (edge : String → String → Bool) (start : String) : String → Type 0 where
  arrived : Linked edge start start
  onward : {x : String} (y : String) → Linked edge start x → edge x y ≡ true → Linked edge start y

pub Linked-imply :
    {edge edge' : String → String → Bool} {start x : String}
    → ((x y : String) → edge x y ≡ true → edge' x y ≡ true)
    → Linked edge start x
    → Linked edge' start x
Linked-imply imply arrived = arrived
Linked-imply imply (onward {x} y l e) = onward y (Linked-imply imply l) (imply x y e)

-- The edges of an adjacency.
abbrev pub edges : (String → List String) → String → String → Bool
edges adj x y = has_id (adj x) y

module _ (adj : String → List String) (start : String) (universe : List String)
    (unique : IsUnique universe)
    (inside : (x y : String) → has_id (adj x) y ≡ true → has_id universe y ≡ true) where
  -- What is visited and what is queued is linked; the IDs are counted.
  pub record IsSearch (queue visited : List String) : Type 0 where
    pub linked : (x : String) → has_id visited x ≡ true → Linked (edges adj) start x
    pub queued : (x : String) → has_id queue x ≡ true → Linked (edges adj) start x
    pub counted : unvisited universe visited + length visited ≡ length universe

  IsSearch-neighbors :
      (cur : String) (ys queue visited : List String)
      → Linked (edges adj) start cur
      → ((y : String) → has_id ys y ≡ true → has_id (adj cur) y ≡ true)
      → IsSearch queue visited
      → let after = visit_neighbors ys queue visited in
        IsSearch after.0 after.1
        × (length after.0 + unvisited universe after.1 ≡ length queue + unvisited universe visited)
  unfolding visit_neighbors
  IsSearch-neighbors cur [] queue visited at near s = (s, refl)
  IsSearch-neighbors cur (y ∷ ys) queue visited at near s = elim (Bool-cases (has_id visited y)) [
    | inl old ↦
        rw old (IsSearch-neighbors cur ys queue visited at (λ z h. near z (ground (arith, h))) s)
    | inr new ↦
        let edge : has_id (adj cur) y ≡ true = near y (ground (arith, eq_iff y y)) in
        let there : Linked (edges adj) start y = onward y at edge in
        let less = unvisited_visit universe y visited unique (inside cur y edge) new in
        let next : IsSearch (queue ++ y ∷ []) (y ∷ visited) = record {
          linked = λ x h. elim (Bool-cases (str_eq y x)) [
            | inl this ↦ rw (sym ((eq_iff y x).0 this)) there
            | inr other ↦ s.linked x (ground (arith, h, other))
          ];
          queued = λ x h. elim (Bool-cases (str_eq y x)) [
            | inl this ↦ rw (sym ((eq_iff y x).0 this)) there
            | inr other ↦ s.queued x (ground (arith, h, other, has_id-append queue y x))
          ];
          counted = omega (arith, less, s.counted);
        } in
        let (after, same) =
          IsSearch-neighbors cur ys (queue ++ y ∷ []) (y ∷ visited) at
            (λ z h. near z (ground (arith, h))) next in
        rw new (after, omega (arith, same, less, length-append queue (y ∷ [])))
  ]

  pub search_component-IsSearch :
      (fuel : ℕ) (queue visited : List String)
      → IsSearch queue visited
      → length queue + unvisited universe visited ≤ fuel
      → (visited' : List String) × (search_component adj fuel queue visited ≡ some visited')
        × IsSearch [] visited'
  unfolding search_component
  search_component-IsSearch fuel [] visited s enough = (visited, refl, s)
  search_component-IsSearch zero (cur ∷ queue) visited s enough = absurd (omega (arith, enough))
  search_component-IsSearch (suc fuel) (cur ∷ queue) visited s enough =
      let rest : IsSearch queue visited = record {
        linked = s.linked;
        queued = λ x h. s.queued x (ground (arith, h));
        counted = s.counted;
      } in
      let (next, same) =
        IsSearch-neighbors cur (adj cur) queue visited
          (s.queued cur (ground (arith, eq_iff cur cur))) (λ y h. h) rest in
      let after = visit_neighbors (adj cur) queue visited in
      search_component-IsSearch fuel after.0 after.1 next (omega (arith, same, enough))

-- When as many IDs are visited as there are, all are.
pub unvisited-All :
    (xs visited : List String) → unvisited xs visited ≡ 0 → All (λ x. has_id visited x ≡ true) xs
unvisited-All [] visited h = tt
unvisited-All (x ∷ xs) visited h = ground (arith, h, unvisited-All xs visited)
