-- ===== src/Store/Consistent/Edges.antt =====
-- armin-core/graph/src/store.rs, `add_edge` past its early return: the graph stays consistent.
use mathlib.Core.List.{map-append}
use armin.Prelude.{
  ℕ, ◌≡◌, inl, inr, none, some, [], ◌∷◌, ◌++◌, arith, lookup, lookup-insert, contains-append,
  unique-concat, String_Eq, ℕ_Eq, Memᴰ-concat,
}
use armin.Types.{ArgumentEdge}
use armin.Petgraph.{StableGraph, EdgeReference}
use armin.Store.{GraphStoreInner, insert_edge}
use armin.Store.Consistent.{IsConsistent, edge_names}

module _ ⦃pg : StableGraph⦄ (s : GraphStoreInner) (src tgt : ℕ) (edge : ArgumentEdge) where
  abbrev after : GraphStoreInner
  after = (insert_edge s src tgt edge).0

  abbrev reference : EdgeReference
  reference = record {
    id = (pg.add_edge s.graph src tgt edge).1;
    source = src;
    target = tgt;
    weight = edge;
  }

  pub insert_edge-IsConsistent :
      IsConsistent s
      → lookup edge.source_node_id s.id_to_node ≡ some src
      → lookup edge.target_node_id s.id_to_node ≡ some tgt
      → lookup edge.id s.id_to_edge ≡ none
      → IsConsistent after
  unfolding insert_edge
  insert_edge-IsConsistent h from to fresh = record {
    ids_sound = rw same_nodes h.ids_sound;
    ids_full = rw same_nodes h.ids_full;
    indices = rw same_nodes h.indices;
    order_ids = h.order_ids;
    order_unique = h.order_unique;
    sessions_unique = h.sessions_unique;
    sessions_full = rw same_nodes h.sessions_full;
    edge_ends = λ r m.
        elim ((Memᴰ-concat r reference (pg.edge_references s.graph)).0 (rw new_edges at m)) [
          | inl old ↦ h.edge_ends r old
          | inr e ↦ rw e (from, to)
        ];
    edge_ids = λ id. rw new_edges (
        rw map-append (
          ground (
            arith,
            h.edge_ids id,
            contains-append id (edge_names s) (edge.id ∷ []),
            lookup-insert edge.id id reference.id s.id_to_edge,
          )));
    edge_unique = rw new_edges (
        rw map-append (
          ground (arith, h.edge_unique, unique-concat (edge_names s) edge.id, h.edge_ids edge.id)));
  }
    where
      same_nodes : pg.node_references after.graph ≡ pg.node_references s.graph
      same_nodes = pg.nodes-add_edge s.graph src tgt edge

      new_edges : pg.edge_references after.graph ≡ pg.edge_references s.graph ++ reference ∷ []
      new_edges =
          let (v, at_src, _) = h.ids_sound edge.source_node_id src from in
          let (u, at_tgt, _) = h.ids_sound edge.target_node_id tgt to in
          pg.edges-add_edge s.graph src tgt edge at_src at_tgt
