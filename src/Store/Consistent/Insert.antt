-- ===== src/Store/Consistent/Insert.antt =====
-- armin-core/graph/src/store.rs, `add_node` past its early return: the graph stays consistent.

use armin.Prelude.{
  Memᴰ-concat, inl, inr, ℕ, ◌≡◌, String, true, none, some, List, [], ◌∷◌, arith, lookup, insert,
  lookup-insert, lookup-concat, contains, unique, contains-append, unique-concat, if◌then◌else◌,
  ◌==◌, String_Eq, ℕ_Eq, eq_iff, Bool-cases, ◌||◌,
}
use armin.Types.{ArgumentNode}
use armin.Text.{Unicode}
use armin.Petgraph.{StableGraph, weight}
use armin.Store.{GraphStoreInner, insert_node, track}
use armin.Store.Consistent.{IsConsistent}

pub track-unique :
    (order : List String) (sid : String) → unique order ≡ true → unique (track order sid) ≡ true
track-unique order sid h = ground (arith, unique-concat order sid)

pub contains-track :
    (order : List String) (sid x : String)
    → contains x (track order sid) ≡ (contains x order || (sid == x))
contains-track order sid x = ground (arith, contains-append x order (sid ∷ []), eq_iff sid x)

module _ ⦃pg : StableGraph⦄ ⦃u : Unicode⦄ (s : GraphStoreInner) (node : ArgumentNode) where
  abbrev after : GraphStoreInner
  after = (insert_node s node).0

  abbrev index : ℕ
  index = (pg.add_node s.graph node).1

  -- the new weight stands at the new index
  pub weight-insert_node :
      (j : ℕ)
      → weight after.graph j ≡ (elim (weight s.graph j) [
        | some w ↦ some w
        | none ↦ if index == j then some node else none
      ])
  unfolding insert_node
  weight-insert_node j = rw (pg.nodes-add_node s.graph node) (lookup-concat j index node _)

  pub insert_node-IsConsistent :
      lookup node.id s.id_to_node ≡ none → IsConsistent s → IsConsistent after
  unfolding insert_node
  insert_node-IsConsistent fresh h = record {
    ids_sound = λ id i e. ids_sound_after id i (e);
    ids_full = λ i n e. ground (
      arith,
      weight-insert_node i,
      h.ids_full i n,
      lookup-insert node.id n.id index s.id_to_node,
      eq_iff node.id n.id,
    );
    indices = λ i n m.
        elim ((Memᴰ-concat (i, n) (index, node) (pg.node_references s.graph)).0
          (rw (pg.nodes-add_node s.graph node) at m)) [
            | inl old ↦ ground (arith, weight-insert_node i, h.indices i n old)
            | inr new ↦
                ground (arith, weight-insert_node index, pg.fresh-add_node s.graph node, new)
          ];
    order_ids = λ id. ground (
      arith,
      h.order_ids id,
      contains-append id s.node_order (node.id ∷ []),
      lookup-insert node.id id index s.id_to_node,
    );
    order_unique =
        ground (arith, h.order_unique, unique-concat s.node_order node.id, h.order_ids node.id);
    sessions_unique = track-unique s.session_order node.session_id h.sessions_unique;
    sessions_full = λ i n e. ground (
      arith,
      weight-insert_node i,
      h.sessions_full i n,
      contains-track s.session_order node.session_id n.session_id,
      eq_iff node.session_id n.session_id,
    );
    edge_ends = λ r m.
        let ends = h.edge_ends r (rw (pg.edges-add_node s.graph node) at m) in
        ground (
          arith,
          ends,
          lookup-insert node.id r.weight.source_node_id index s.id_to_node,
          lookup-insert node.id r.weight.target_node_id index s.id_to_node,
          eq_iff node.id r.weight.source_node_id,
          eq_iff node.id r.weight.target_node_id,
        );
    edge_ids = λ id. rw (pg.edges-add_node s.graph node) (h.edge_ids id);
    edge_unique = rw (pg.edges-add_node s.graph node) h.edge_unique;
  }
    where
      ids_sound_after :
          (id : String) (i : ℕ)
          → lookup id (insert node.id index s.id_to_node) ≡ some i
          → (n : ArgumentNode) × (weight after.graph i ≡ some n) × (n.id ≡ id)
      ids_sound_after id i e = elim (Bool-cases (node.id == id)) [
        | inl same ↦ (
          node,
          ground (
            arith,
            weight-insert_node i,
            pg.fresh-add_node s.graph node,
            lookup-insert node.id id index s.id_to_node,
          ),
          (eq_iff node.id id).0 same,
        )
        | inr other ↦
            let (n, w, q) =
              h.ids_sound id i (ground (arith, lookup-insert node.id id index s.id_to_node)) in
            (n, ground (arith, weight-insert_node i), q)
      ]
