-- ===== src/Store/Consistent.antt =====
-- armin-core/graph/src/store.rs: what ties the fields of `GraphStoreInner` together.
pub mod Insert
pub mod Edges
pub mod Status
use mathlib.Core.List.Memᴰ
use armin.Prelude.{
  ℕ, ◌≡◌, refl, String, true, some, List, map, Memᴰ, arith, lookup, contains, unique, is_some,
  String_Eq, ℕ_Eq,
}
use armin.Types.{ArgumentNode}
use armin.Petgraph.{StableGraph, EdgeReference, weight}
use armin.Store.{GraphStoreInner, new}

module _ ⦃pg : StableGraph⦄ where
  abbrev pub edge_names : GraphStoreInner → List String
  edge_names s = map (λ r. r.weight.id) (pg.edge_references s.graph)

  pub record IsConsistent (s : GraphStoreInner) : Type 0 where
    -- the identifier map leads to the node with the identifier, and to every node
    pub ids_sound :
        (id : String) (i : ℕ)
        → lookup id s.id_to_node ≡ some i
        → (n : ArgumentNode) × (weight s.graph i ≡ some n) × (n.id ≡ id)
    pub ids_full :
        (i : ℕ) (n : ArgumentNode) → weight s.graph i ≡ some n → lookup n.id s.id_to_node ≡ some i
    -- an index stands for one node
    pub indices :
        (i : ℕ) (n : ArgumentNode)
        → Memᴰ (i, n) (pg.node_references s.graph)
        → weight s.graph i ≡ some n
    -- the insertion order names each node once
    pub order_ids : (id : String) → contains id s.node_order ≡ is_some (lookup id s.id_to_node)
    pub order_unique : unique s.node_order ≡ true
    -- the session list names each session once, and the sessions of all nodes
    pub sessions_unique : unique s.session_order ≡ true
    pub sessions_full :
        (i : ℕ) (n : ArgumentNode)
        → weight s.graph i ≡ some n
        → contains n.session_id s.session_order ≡ true
    -- an edge joins the nodes that it names
    pub edge_ends :
        (r : EdgeReference)
        → Memᴰ r (pg.edge_references s.graph)
        → (lookup r.weight.source_node_id s.id_to_node ≡ some r.source)
          × (lookup r.weight.target_node_id s.id_to_node ≡ some r.target)
    -- the edge map names each edge, and no two edges have one identifier
    pub edge_ids : (id : String) → contains id (edge_names s) ≡ is_some (lookup id s.id_to_edge)
    pub edge_unique : unique (edge_names s) ≡ true

  pub new-IsConsistent : IsConsistent new
  new-IsConsistent = record {
    ids_sound = λ id i h. cc;
    ids_full = λ i n h. absurd (ground (arith, pg.nodes-default));
    indices = λ i n m. absurd (Memᴰ.not-nil (rw pg.nodes-default at m));
    order_ids = λ id. refl;
    order_unique = refl;
    sessions_unique = refl;
    sessions_full = λ i n h. absurd (ground (arith, pg.nodes-default));
    edge_ends = λ r m. absurd (Memᴰ.not-nil (rw pg.edges-default at m));
    edge_ids = λ id. rw pg.edges-default;
    edge_unique = rw pg.edges-default;
  }
