-- ===== src/Petgraph/Listed.antt =====
-- A graph that meets the interface: a list of nodes with their indices, and a list of edges.
use mathlib.Core.List.Memᴰ
use armin.Prelude.{
  sym, map, Memᴰ, ◌↔◌, ℕ, suc, ◌+◌, ◌≤◌, ◌≡◌, refl, List, [], ◌∷◌, ◌++◌, none, arith, lookup,
  length, select, Memᴰ-select, ◌==◌, nat_eq_iff, ℕ_Eq,
}
use armin.Types.{ArgumentNode}
use armin.Petgraph.{Direction, EdgeReference, StableGraph, near, far, reweigh}

pub record Listed : Type 0 where
  pub nodes : List (ℕ × ArgumentNode)
  pub edges : List EdgeReference

-- the first index above all that are in use
abbrev pub bound : List (ℕ × ArgumentNode) → ℕ
bound [] = 0
bound ((i, w) ∷ l) = suc (i + bound l)

pub lookup-bound : (i : ℕ) (l : List (ℕ × ArgumentNode)) → bound l ≤ i → lookup i l ≡ none
lookup-bound i [] h = refl
lookup-bound i ((j, w) ∷ l) h = ground (arith, lookup-bound i l)

abbrev pub listed_edges : Listed → Direction → ℕ → List EdgeReference
listed_edges g d i = select (λ r. near d r == i) g.edges

pub mem-listed_edges :
    (g : Listed) (d : Direction) (i : ℕ) (r : EdgeReference)
    → Memᴰ r (listed_edges g d i) ↔ (Memᴰ r g.edges × (near d r ≡ i))
mem-listed_edges g d i r =
    let (to, from) = Memᴰ-select (λ r. near d r == i) r g.edges in
    (λ m. ((to m).0, (nat_eq_iff _ _).0 (to m).1), λ (m, e). from (m, (nat_eq_iff _ _).1 e))

pub mem-listed_neighbors :
    (g : Listed) (d : Direction) (i j : ℕ)
    → Memᴰ j (map (far d) (listed_edges g d i))
      ↔ ((r : EdgeReference) × Memᴰ r g.edges × (near d r ≡ i) × (j ≡ far d r))
mem-listed_neighbors g d i j = (
  λ m.
      let (r, in_range, e) = Memᴰ.of_map (far d) (listed_edges g d i) m in
      let (edge, at) = (mem-listed_edges g d i r).0 in_range in (r, edge, at, sym e),
  λ (r, m, at, e). Memᴰ.cast e (Memᴰ.map (far d) ((mem-listed_edges g d i r).1 (m, at))),
)

instance abbrev pub listed : StableGraph
listed = record {
  Graph = Listed;
  default = record { nodes = []; edges = [] };
  add_node = λ g w. (record g { nodes = g.nodes ++ (bound g.nodes, w) ∷ [] }, bound g.nodes);
  add_edge = λ g a b w. (
    record g {
      edges = g.edges ++ record { id = length g.edges; source = a; target = b; weight = w } ∷ [];
    },
    length g.edges,
  );
  set_weight = λ g i w. record g { nodes = reweigh i w g.nodes };
  node_references = λ g. g.nodes;
  edge_references = λ g. g.edges;
  edges_directed = listed_edges;
  neighbors_directed = λ g d i. map (far d) (listed_edges g d i);
  nodes-default = refl;
  edges-default = refl;
  nodes-add_node = λ g w. refl;
  fresh-add_node = λ g w. lookup-bound (bound g.nodes) g.nodes (omega arith);
  edges-add_node = λ g w. refl;
  nodes-add_edge = λ g a b w. refl;
  edges-add_edge = λ g a b w p q. refl;
  nodes-set_weight = λ g i w. refl;
  edges-set_weight = λ g i w. refl;
  mem-neighbors_directed = mem-listed_neighbors;
  mem-edges_directed = mem-listed_edges;
}
