-- ===== src/Persistence/Open.antt =====
-- armin-core/graph/src/store.rs, `new_persistent`: the store that a database holds.
use mathlib.Core.List.{foldl}
use armin.Prelude.{String, Option, none, some, List, [], select, lookup, insert, is_some, String_Eq}
use armin.Types.{ArgumentNode, ArgumentEdge}
use armin.Text.{Unicode}
use armin.Petgraph.{StableGraph}
use armin.Store.{GraphStoreInner, new, get_node, insert_edge, track}
use armin.Store.Index.{index_node, node_text}
use armin.Persistence.{DbBackend, load_all_nodes, load_all_edges, load_node_order}
use armin.Persistence.Disk.{Bincode, Sled}
use armin.Persistence.Durable.{GraphStore}

module _ ⦃pg : StableGraph⦄ where
  -- the loop over the nodes: the graph and the map of identifiers
  unfoldable pub load_node : GraphStoreInner → ArgumentNode → GraphStoreInner
  load_node s node =
      let added = pg.add_node s.graph node in
      record s { graph = added.0; id_to_node = insert node.id added.1 s.id_to_node }

  -- the loop over the edges, which skips an edge with a missing end
  unfoldable pub load_edge : GraphStoreInner → ArgumentEdge → GraphStoreInner
  unfolding insert_edge
  load_edge s edge = elim (lookup edge.source_node_id s.id_to_node) [
    | none ↦ s
    | some src ↦ elim (lookup edge.target_node_id s.id_to_node) [
      | none ↦ s
      | some tgt ↦ (insert_edge s src tgt edge).0
    ]
  ]

  abbrev pub track_node : List String → Option ArgumentNode → List String
  track_node sessions none = sessions
  track_node sessions (some node) = track sessions node.session_id

  -- the loop over the order
  unfoldable pub load_session : GraphStoreInner → List String → String → List String
  load_session s sessions id = track_node sessions (get_node s id)

  -- the store from what was read
  unfoldable pub assemble :
      ⦃u : Unicode⦄ → List ArgumentNode → List ArgumentEdge → List String → GraphStoreInner
  unfolding load_node load_edge load_session index_node node_text
  assemble nodes edges loaded_order =
      let loaded = foldl load_edge (foldl load_node new nodes) edges in
      let node_order = select (λ id. is_some (lookup id loaded.id_to_node)) loaded_order in
      record loaded {
        node_order = node_order;
        session_order = foldl (load_session loaded) [] node_order;
        bm25 = foldl (λ index n. index_node index n.id (node_text n)) loaded.bm25 nodes;
      }

module _ ⦃pg : StableGraph⦄ ⦃u : Unicode⦄ ⦃b : Bincode⦄ ⦃sled : Sled⦄ where
  -- `none` where a value cannot be read or the migration fails
  unfoldable pub new_persistent : DbBackend → Option GraphStore
  unfolding load_all_nodes load_all_edges load_node_order assemble
  new_persistent db = elim (load_all_nodes db) [
    | none ↦ none
    | some nodes ↦ elim (load_all_edges db) [
      | none ↦ none
      | some edges ↦ elim (load_node_order db) [
        | none ↦ none
        | some (order, after) ↦
            some (record { inner = assemble nodes edges order; backend = some after })
      ]
    ]
  ]
