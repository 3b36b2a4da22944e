-- ===== src/Petgraph.antt =====
-- What armin-core/graph uses of the `petgraph` crate: a `StableDiGraph` of argument nodes and edges,
-- as an interface. The program only ever adds to the graph and replaces node weights, and the laws
-- say what the crate documents of a graph from which nothing was removed.
pub mod Listed
use armin.Prelude.{
  ℕ, ◌≡◌, ◌↔◌, ◌≢◌, String, Bool, Option, none, some, List, [], ◌∷◌, ◌++◌, map, Memᴰ, lookup,
  if◌then◌else◌, ◌==◌, ℕ_Eq,
}
use armin.Types.{ArgumentNode, ArgumentEdge}

pub data Direction : Type 0 where
  incoming outgoing : Direction

-- `EdgeReference`: an edge's index, end points and weight.
pub record EdgeReference : Type 0 where
  pub id : ℕ
  pub source : ℕ
  pub target : ℕ
  pub weight : ArgumentEdge

-- The end of an edge at which `edges_directed` looks for its node.
abbrev pub near : Direction → EdgeReference → ℕ
near Direction.incoming r = r.target
near Direction.outgoing r = r.source

-- The other end.
abbrev pub far : Direction → EdgeReference → ℕ
far Direction.incoming r = r.source
far Direction.outgoing r = r.target

-- The weight of one index is replaced (`graph[i] = w`).
abbrev pub reweigh : ℕ → ArgumentNode → List (ℕ × ArgumentNode) → List (ℕ × ArgumentNode)
reweigh i w [] = []
reweigh i w ((j, v) ∷ l) = (if j == i then (j, w) else (j, v)) ∷ reweigh i w l

pub record StableGraph : Type 1 where
  pub Graph : Type 0
  pub default : Graph
  pub add_node : Graph → ArgumentNode → Graph × ℕ
  pub add_edge : Graph → ℕ → ℕ → ArgumentEdge → Graph × ℕ
  -- `graph[i] = w`
  pub set_weight : Graph → ℕ → ArgumentNode → Graph
  -- `node_indices` and `edge_indices`, with what stands at each index
  pub node_references : Graph → List (ℕ × ArgumentNode)
  pub edge_references : Graph → List EdgeReference
  pub edges_directed : Graph → Direction → ℕ → List EdgeReference
  pub neighbors_directed : Graph → Direction → ℕ → List ℕ
  pub nodes-default : node_references default ≡ []
  pub edges-default : edge_references default ≡ []
  -- a new node has a new index, which comes last
  pub nodes-add_node :
      (g : Graph) (w : ArgumentNode)
      → node_references (add_node g w).0 ≡ node_references g ++ ((add_node g w).1, w) ∷ []
  pub fresh-add_node :
      (g : Graph) (w : ArgumentNode) → lookup (add_node g w).1 (node_references g) ≡ none
  pub edges-add_node :
      (g : Graph) (w : ArgumentNode) → edge_references (add_node g w).0 ≡ edge_references g
  -- `add_edge` panics unless both ends are there
  pub nodes-add_edge :
      (g : Graph) (a b : ℕ) (w : ArgumentEdge)
      → node_references (add_edge g a b w).0 ≡ node_references g
  pub edges-add_edge :
      (g : Graph) (a b : ℕ) (w : ArgumentEdge) {v u : ArgumentNode}
      → lookup a (node_references g) ≡ some v
      → lookup b (node_references g) ≡ some u
      → edge_references (add_edge g a b w).0
        ≡ edge_references g
          ++ record { id = (add_edge g a b w).1; source = a; target = b; weight = w } ∷ []
  pub nodes-set_weight :
      (g : Graph) (i : ℕ) (w : ArgumentNode)
      → node_references (set_weight g i w) ≡ reweigh i w (node_references g)
  pub edges-set_weight :
      (g : Graph) (i : ℕ) (w : ArgumentNode)
      → edge_references (set_weight g i w) ≡ edge_references g
  -- exactly the edges at the node, in an order that is left open
  pub mem-edges_directed :
      (g : Graph) (d : Direction) (i : ℕ) (r : EdgeReference)
      → Memᴰ r (edges_directed g d i) ↔ (Memᴰ r (edge_references g) × (near d r ≡ i))
  pub mem-neighbors_directed :
      (g : Graph) (d : Direction) (i j : ℕ)
      → Memᴰ j (neighbors_directed g d i)
        ↔ ((r : EdgeReference) × Memᴰ r (edge_references g) × (near d r ≡ i) × (j ≡ far d r))

module _ ⦃pg : StableGraph⦄ where
  -- `graph[i]`, and `graph.node_weight(i)`
  abbrev pub weight : pg.Graph → ℕ → Option ArgumentNode
  weight g i = lookup i (pg.node_references g)
