-- ===== src/Orchestrate/Connected.antt =====
-- The check that a graph is one component (orchestrate/orchestrate.go, `checkConnected`). The set
-- `visited` is the list of its keys. The loop over the queue is on fuel.
pub mod Component
pub mod Edges
pub mod Whole
use vagent.Common.{
  ℕ, zero, suc, String, List, [], ◌∷◌, ◌++◌, Option, none, some, length, ◌==◌, if◌then◌else◌,
}
use vagent.Schema.{Types}
use vagent.Orchestrate.Node.{Node, update}
use vagent.Orchestrate.Validation.{has_id}

-- The inner loop of the undirected adjacency, both ways for each dependency.
unfoldable pub link : String → List String → (String → List String) → String → List String
link id [] adj = adj
link id (dep ∷ deps) adj =
    let adj₁ = update id (adj id ++ dep ∷ []) adj in
    link id deps (update dep (adj₁ dep ++ id ∷ []) adj₁)

unfoldable pub undirected :
    {T : Types} → List (Node T) → (String → List String) → String → List String
unfolding link
undirected [] adj = adj
undirected (n ∷ ns) adj = undirected ns (link n.id n.deps adj)

-- The loop over the neighbors: the queue and the visited IDs.
unfoldable pub visit_neighbors : List String → List String → List String → List String × List String
unfolding has_id
visit_neighbors [] queue visited = (queue, visited)
visit_neighbors (y ∷ ys) queue visited =
    let skip = visit_neighbors ys queue visited in
    let push = visit_neighbors ys (queue ++ y ∷ []) (y ∷ visited) in
    if has_id visited y then skip else push

-- The visited IDs in the end; `none` is out of fuel.
unfoldable pub search_component :
    (String → List String) → ℕ → List String → List String → Option (List String)
unfolding visit_neighbors
search_component adj fuel [] visited = some visited
search_component adj zero (cur ∷ queue) visited = none
search_component adj (suc fuel) (cur ∷ queue) visited =
    let after = visit_neighbors (adj cur) queue visited in search_component adj fuel after.0 after.1

unfoldable pub find_unvisited : {T : Types} → List String → List (Node T) → Option String
unfolding has_id
find_unvisited visited [] = none
find_unvisited visited (n ∷ ns) =
    let rest = find_unvisited visited ns in if has_id visited n.id then rest else some n.id

-- The answer, with the first node that was not reached.
pub data Connection : Type 0 where
  connected : Connection
  disconnected : String → Connection
  out_of_fuel : Connection

abbrev pub disconnection : Option String → Connection
disconnection none = connected
disconnection (some id) = disconnected id

unfoldable pub check_connected : {T : Types} → List (Node T) → Connection
unfolding search_component undirected find_unvisited
check_connected [] = connected
check_connected (n ∷ []) = connected
check_connected (n ∷ m ∷ ns) =
    elim (search_component (undirected (n ∷ m ∷ ns) (λ x. [])) (length (n ∷ m ∷ ns)) (n.id ∷ [])
      (n.id ∷ [])) [
        | none ↦ out_of_fuel
        | some visited ↦
            if length visited == length (n ∷ m ∷ ns)
            then connected
            else disconnection (find_unvisited visited (n ∷ m ∷ ns))
      ]
