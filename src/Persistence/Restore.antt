-- ===== src/Persistence/Restore.antt =====
-- armin-core/graph/src/store.rs, `new_persistent`: a store is read back from its database as it was.
use mathlib.Core.List.{foldl}
use armin.Prelude.{
  ℕ, ◌^◌, ◌<◌, ◌≡◌, refl, ap, sym, ◌∙◌, subst, String, true, some, List, [], ◌++◌, Memᴰ, map,
  select, lookup, length, is_some, contains, unique, String_Eq, ℕ_Eq, arith,
}
use armin.Types.{ArgumentNode, ArgumentEdge}
use armin.Text.{Unicode}
use armin.Petgraph.{StableGraph, weight}
use armin.Store.{GraphStoreInner, new, get_node}
use armin.Store.Index.{index_node, node_text}
use armin.Store.Query.{all_edges}
use armin.Store.Consistent.{IsConsistent, new-IsConsistent}
use armin.Store.Writes.{get_node-lookup}
use armin.Store.Writes.Edges.{edge_names-all_edges}
use armin.Persistence.{DbBackend}
use armin.Persistence.Disk.{Bincode, Sled}
use armin.Persistence.Durable.{GraphStore, Method, call, fresh_store}
use armin.Persistence.Open.{load_edge, load_session, assemble, new_persistent}
use armin.Persistence.Rebuild.{
  nodes_by_id, edges_by_id, node_ids, edge_ids, strip, insert_all, load_node-strip, load_edge-strip,
  HasNodes, insert_all-HasNodes, HasEdges, load_edge-HasEdges,
}
use armin.Persistence.Mirror.{DiskWorks, Mirrors, edge_at}
use armin.Persistence.Keeps.{fresh_store-Kept, calls-Kept}
use armin.Persistence.ReadBack.{
  lookup-named, load_all_nodes_lem, load_all_edges_lem, load_node_order-same,
}
use armin.Persistence.Reopen.{
  lookup-edges_by_id, select-all, sessions-unique, sessions-full, AllJoined-edges,
}

module _ ⦃pg : StableGraph⦄ where
  -- a consistent store with the nodes, the edges and the order of the other
  pub record Restores (s t : GraphStoreInner) : Type 0 where
    pub consistent : IsConsistent t
    pub nodes : (id : String) → get_node t id ≡ get_node s id
    pub edges : (id : String) → edge_at t id ≡ edge_at s id
    pub order : t.node_order ≡ s.node_order

module _ ⦃pg : StableGraph⦄ ⦃u : Unicode⦄ (s : GraphStoreInner) (h : IsConsistent s)
    (nodes : List ArgumentNode) (edges : List ArgumentEdge) where
  abbrev loaded : GraphStoreInner
  loaded = foldl load_edge (insert_all new nodes) edges

  -- `assemble` past its loops
  abbrev finish : GraphStoreInner → GraphStoreInner
  finish l =
      let node_order = select (λ id. is_some (lookup id l.id_to_node)) s.node_order in
      record l {
        node_order = node_order;
        session_order = foldl (load_session l) [] node_order;
        bm25 = foldl (λ index n. index_node index n.id (node_text n)) l.bm25 nodes;
      }

  assemble-loaded : assemble nodes edges s.node_order ≡ finish (strip loaded)
  unfolding assemble
  assemble-loaded = ap finish (
      ap (λ l. foldl load_edge l edges) (load_node-strip new nodes)
      ∙ load_edge-strip (insert_all new nodes) edges)

  module _ (ids : unique (node_ids nodes) ≡ true)
      (nodes_at : (id : String) → lookup id (nodes_by_id nodes) ≡ get_node s id)
      (names : unique (edge_ids edges) ≡ true)
      (edges_at : (id : String) → lookup id (edges_by_id edges) ≡ edge_at s id) where
    all_nodes_in : HasNodes new nodes (insert_all new nodes)
    all_nodes_in = insert_all-HasNodes new nodes new-IsConsistent ids

    node_at : (id : String) → get_node (insert_all new nodes) id ≡ get_node s id
    node_at id = all_nodes_in.found id ∙ (unfold get_node in ground (arith, nodes_at id))

    no_edges : all_edges (insert_all new nodes) ≡ []
    no_edges = all_nodes_in.edges ∙ ap (map (λ r. r.weight)) pg.edges-default

    held : (e : ArgumentEdge) → Memᴰ e edges → Memᴰ e (all_edges s)
    held e m =
        (lookup-named e.id (all_edges s) e
          (sym (edges_at e.id) ∙ lookup-edges_by_id edges e names m)).0

    all_edges_in : HasEdges (insert_all new nodes) edges loaded
    all_edges_in =
        load_edge-HasEdges (insert_all new nodes) edges all_nodes_in.consistent
          (AllJoined-edges s h (insert_all new nodes) edges node_at held)
          (ap (λ l. unique (l ++ edge_ids edges))
              (edge_names-all_edges (pg.edge_references (insert_all new nodes).graph)
                ∙ ap edge_ids no_edges)
            ∙ names)

    loaded_at : (id : String) → get_node loaded id ≡ get_node s id
    loaded_at id = all_edges_in.nodes id ∙ node_at id

    loaded-contains :
        (id : String) → is_some (lookup id loaded.id_to_node) ≡ contains id s.node_order
    loaded-contains id =
        sym (get_node-lookup loaded all_edges_in.consistent id)
        ∙ ap is_some (loaded_at id)
        ∙ get_node-lookup s h id
        ∙ sym (h.order_ids id)

    same_order : select (λ id. is_some (lookup id loaded.id_to_node)) s.node_order ≡ s.node_order
    same_order =
        select-all (λ id. is_some (lookup id loaded.id_to_node)) s.node_order
          (λ id c. loaded-contains id ∙ c)

    sessions_of :
        (i : ℕ) (n : ArgumentNode)
        → weight loaded.graph i ≡ some n
        → contains n.session_id (finish (strip loaded)).session_order ≡ true
    sessions_of i n at =
        sessions-full (strip loaded) []
          (select (λ id. is_some (lookup id loaded.id_to_node)) s.node_order) n.id n
          (unfold get_node in (rw (all_edges_in.consistent.ids_full i n at) at))
          (ap (contains n.id) same_order
            ∙ sym (loaded-contains n.id)
            ∙ ap is_some (all_edges_in.consistent.ids_full i n at))

    finish_at : (id : String) → get_node (finish (strip loaded)) id ≡ get_node loaded id
    finish_at id = unfold get_node in refl

    finish-Restores : Restores s (finish (strip loaded))
    finish-Restores = record {
      consistent = record {
        ids_sound = all_edges_in.consistent.ids_sound;
        ids_full = all_edges_in.consistent.ids_full;
        indices = all_edges_in.consistent.indices;
        order_ids = λ id. ap (contains id) same_order ∙ sym (loaded-contains id);
        order_unique = ap unique same_order ∙ h.order_unique;
        sessions_unique =
            sessions-unique (strip loaded) []
              (select (λ id. is_some (lookup id loaded.id_to_node)) s.node_order) refl;
        sessions_full = sessions_of;
        edge_ends = all_edges_in.consistent.edge_ends;
        edge_ids = all_edges_in.consistent.edge_ids;
        edge_unique = all_edges_in.consistent.edge_unique;
      };
      nodes = λ id. finish_at id ∙ loaded_at id;
      edges = λ id.
          ap (λ l. lookup id (edges_by_id l)) (all_edges_in.all ∙ ap (λ l. l ++ edges) no_edges)
          ∙ edges_at id;
      order = same_order;
    }

module _ ⦃pg : StableGraph⦄ ⦃u : Unicode⦄ ⦃b : Bincode⦄ ⦃sled : Sled⦄ where
  pub record Reopens (db : DbBackend) (s : GraphStoreInner) : Type 0 where
    pub store : GraphStore
    pub opened : new_persistent db ≡ some store
    pub backend : store.backend ≡ some db
    pub restores : Restores s store.inner

  -- A database that mirrors a consistent store is opened, and gives a store with the same nodes, edges and
  -- order; opening it writes nothing.
  new_persistent-Reopens :
      (db : DbBackend) (s : GraphStoreInner) → IsConsistent s → Mirrors db s → Reopens db s
  unfolding new_persistent
  new_persistent-Reopens db s h m =
      let (nodes, read_nodes, ids, nodes_at) = load_all_nodes_lem db s m h in
      let (edges, read_edges, names, edges_at) = load_all_edges_lem db s m in
      record {
        store = record { inner = assemble nodes edges s.node_order; backend = some db };
        opened = rw (read_nodes, read_edges, load_node_order-same db s m, new_persistent) refl;
        backend = refl;
        restores =
            subst (Restores s) (sym (assemble-loaded s h nodes edges))
              (finish-Restores s h nodes edges ids nodes_at names edges_at);
      }

  -- Methods are called on a store whose database was made just before and accepts every write. Then,
  -- after fewer than 2^64 calls, opening that database gives a consistent store with the same
  -- nodes, edges and insertion order, and leaves the database as it is.
  pub new_persistent-call :
      (works : DiskWorks) (methods : List Method)
      → length methods < 2 ^ 64
      → (db : DbBackend) × ((foldl call fresh_store methods).backend ≡ some db)
        × Reopens db (foldl call fresh_store methods).inner
  new_persistent-call works methods small =
      let kept = calls-Kept works 0 fresh_store methods (ground arith) (fresh_store-Kept works) in
      (
        kept.db,
        kept.at,
        new_persistent-Reopens kept.db (foldl call fresh_store methods).inner kept.consistent
            kept.mirrors,
      )
