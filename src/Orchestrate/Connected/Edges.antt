-- ===== src/Orchestrate/Connected/Edges.antt =====
-- The edges of the undirected adjacency are dependencies (orchestrate/orchestrate.go,
-- `checkConnected`).
use vagent.Common.{
  ◌≡◌, String, str_eq, eq_iff, Bool, true, false, ◌&&◌, ◌||◌, List, [], ◌∷◌, ◌++◌, arith,
}
use vagent.Schema.{Types}
use vagent.Orchestrate.Node.{Node, update}
use vagent.Orchestrate.Validation.{has_id}
use vagent.Orchestrate.Connected.{link, undirected}
use vagent.Orchestrate.Connected.Component.{has_id-append}

-- One of x and y is the ID, and the other is among the IDs that it depends on.
abbrev pub depend : String → List String → String → String → Bool
depend id deps x y = (str_eq id x && has_id deps y) || (str_eq id y && has_id deps x)

-- One of x and y is a node of the list, and the other is among its dependencies.
abbrev pub dependent : {T : Types} → List (Node T) → String → String → Bool
dependent [] x y = false
dependent (n ∷ ns) x y = depend n.id n.deps x y || dependent ns x y

update_edges :
    (adj : String → List String) (from to x y : String)
    → has_id (update from (adj from ++ to ∷ []) adj x) y ≡ true
    → (has_id (adj x) y || (str_eq from x && str_eq to y)) ≡ true
update_edges adj from to x y h = ground (arith, h, eq_iff from x, has_id-append (adj from) to y)

link_edges :
    (id : String) (deps : List String) (adj : String → List String) (x y : String)
    → has_id (link id deps adj x) y ≡ true
    → (has_id (adj x) y || depend id deps x y) ≡ true
unfolding link has_id
link_edges id [] adj x y h = ground (arith, h)
link_edges id (d ∷ deps) adj x y h =
    let adj₁ = update id (adj id ++ d ∷ []) adj in
    ground (
      arith,
      link_edges id deps (update d (adj₁ d ++ id ∷ []) adj₁) x y h,
      update_edges adj₁ d id x y,
      update_edges adj id d x y,
    )

pub undirected_edges :
    {T : Types} (ns : List (Node T)) (adj : String → List String) (x y : String)
    → has_id (undirected ns adj x) y ≡ true
    → (has_id (adj x) y || dependent ns x y) ≡ true
unfolding undirected
undirected_edges [] adj x y h = ground (arith, h)
undirected_edges (n ∷ ns) adj x y h =
    ground (arith, undirected_edges ns (link n.id n.deps adj) x y h, link_edges n.id n.deps adj x y)
