-- ===== src/Orchestrate/Dag/Order.antt =====
-- Counting nodes by status, and the dependencies of a node that are not settled yet
-- (orchestrate/dag.go).
use vagent.Common.{
  ℕ, suc, ◌+◌, ◌<◌, ◌≡◌, refl, String, Bool, true, false, List, [], ◌∷◌, none, some, arith, eq_iff,
  if◌then◌else◌, Bool-cases, inl, inr,
}
use vagent.Schema.{Types}
use vagent.Orchestrate.Node.{NodeStatus, pending, running, done, skipped, Node, update, node_of}
use vagent.Orchestrate.Topology.Degrees.{occurrences, HasDistinctIds}

abbrev pub is_settled : NodeStatus → Bool
is_settled done = true
is_settled skipped = true
is_settled _ = false

abbrev pub is_active : NodeStatus → Bool
is_active pending = true
is_active running = true
is_active _ = false

abbrev pub unsettled : (String → NodeStatus) → List String → ℕ
unsettled status [] = 0
unsettled status (d ∷ ds) =
    let rest = unsettled status ds in if is_settled (status d) then rest else suc rest

pub unsettled_keep :
    (x : String) (v : NodeStatus) (status : String → NodeStatus) (ds : List String)
    → is_settled v ≡ is_settled (status x)
    → unsettled (update x v status) ds ≡ unsettled status ds
unsettled_keep x v status [] h = refl
unsettled_keep x v status (d ∷ ds) h = ground (arith, unsettled_keep x v status ds h, eq_iff x d)

pub unsettled_settle :
    (x : String) (v : NodeStatus) (status : String → NodeStatus) (ds : List String)
    → is_settled (status x) ≡ false
    → is_settled v ≡ true
    → unsettled (update x v status) ds + occurrences x ds ≡ unsettled status ds
unsettled_settle x v status [] h k = refl
unsettled_settle x v status (d ∷ ds) h k =
    ground (arith, unsettled_settle x v status ds h k, eq_iff x d, eq_iff d x)

abbrev pub bit : Bool → ℕ
bit true = 1
bit false = 0

module _ {T : Types} (p : NodeStatus → Bool) where
  -- The nodes whose status passes a test.
  abbrev pub count_status : List (Node T) → (String → NodeStatus) → ℕ
  count_status [] status = 0
  count_status (n ∷ ns) status =
      let rest = count_status ns status in if p (status n.id) then suc rest else rest

  count_status-update_absent :
      (x : String) (v : NodeStatus) (status : String → NodeStatus) (ns : List (Node T))
      → node_of ns x ≡ none
      → count_status ns (update x v status) ≡ count_status ns status
  unfolding node_of
  count_status-update_absent x v status [] h = refl
  count_status-update_absent x v status (n ∷ ns) h =
      ground (arith, count_status-update_absent x v status ns, eq_iff x n.id, eq_iff n.id x)

  pub count_status-update :
      (x : String) (v : NodeStatus) (status : String → NodeStatus) (ns : List (Node T)) {m : Node T}
      → HasDistinctIds ns
      → node_of ns x ≡ some m
      → count_status ns (update x v status) + bit (p (status x))
        ≡ count_status ns status + bit (p v)
  unfolding node_of
  count_status-update x v status [] d h = cc
  count_status-update x v status (n ∷ ns) {m} d h = ground (
    arith,
    count_status-update x v status ns {m = m} d.1,
    count_status-update_absent x v status ns,
    eq_iff x n.id,
    eq_iff n.id x,
  )

  pub count_status-pos :
      (x : String) (status : String → NodeStatus) (ns : List (Node T)) {m : Node T}
      → node_of ns x ≡ some m
      → p (status x) ≡ true
      → 0 < count_status ns status
  unfolding node_of
  count_status-pos x status [] h k = cc
  count_status-pos x status (n ∷ ns) {m} h k =
      ground (arith, count_status-pos x status ns {m = m}, eq_iff n.id x)

  -- If a node passes the test, one is found.
  pub count_status_find :
      (status : String → NodeStatus) (ns : List (Node T))
      → HasDistinctIds ns
      → 0 < count_status ns status
      → (m : Node T) × (node_of ns m.id ≡ some m) × (p (status m.id) ≡ true)
  unfolding node_of
  count_status_find status [] d h = absurd (omega arith)
  count_status_find status (n ∷ ns) d h = elim (Bool-cases (p (status n.id))) [
    | inl here ↦ (n, ground (arith, eq_iff n.id n.id), here)
    | inr there ↦
        let (m, at, holds) = count_status_find status ns d.1 (ground arith) in
        (m, ground (arith, eq_iff n.id m.id), holds)
  ]
