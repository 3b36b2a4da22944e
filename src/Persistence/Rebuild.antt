-- ===== src/Persistence/Rebuild.antt =====
-- armin-core/graph/src/store.rs, `new_persistent`: what the loops over the nodes and the edges build.
use mathlib.Core.List.{foldl, append_assoc, append-nil, map-append}
use armin.Prelude.{
  ◌≡◌, refl, ap, sym, ◌∙◌, inl, inr, String, true, false, none, some, List, [], ◌∷◌, ◌++◌, map,
  lookup, is_some, contains, contains-unique, contains-unique_behind, unique, String_Eq, ℕ_Eq,
  arith, eq_iff, Option-cases,
}
use armin.Types.{ArgumentNode, ArgumentEdge}
use armin.Text.{Unicode}
use armin.Petgraph.{StableGraph}
use armin.Store.{GraphStoreInner, get_node, insert_node, insert_edge}
use armin.Store.Index.{no_index}
use armin.Store.Query.{all_edges}
use armin.Store.Consistent.{IsConsistent, edge_names}
use armin.Store.Consistent.Insert.{insert_node-IsConsistent}
use armin.Store.Writes.{get_node-lookup}
use armin.Store.Writes.Nodes.{get_node-insert_node}
use armin.Store.Writes.Edges.{HasEdge, insert_edge-HasEdge, edge_names-all_edges}
use armin.Persistence.Open.{load_node, load_edge}

abbrev pub nodes_by_id : List ArgumentNode → List (String × ArgumentNode)
nodes_by_id = map (λ n. (n.id, n))

abbrev pub node_ids : List ArgumentNode → List String
node_ids = map (λ n. n.id)

abbrev pub edge_ids : List ArgumentEdge → List String
edge_ids = map (λ e. e.id)

abbrev pub edges_by_id : List ArgumentEdge → List (String × ArgumentEdge)
edges_by_id = map (λ e. (e.id, e))

is_some-nodes_by_id :
    (id : String) (nodes : List ArgumentNode)
    → is_some (lookup id (nodes_by_id nodes)) ≡ contains id (node_ids nodes)
is_some-nodes_by_id id [] = refl
is_some-nodes_by_id id (n ∷ nodes) = ground (arith, is_some-nodes_by_id id nodes)

module _ ⦃pg : StableGraph⦄ ⦃u : Unicode⦄ where
  -- the fields that the loops do not write
  abbrev pub strip : GraphStoreInner → GraphStoreInner
  strip s = record s { node_order = []; session_order = []; bm25 = no_index }

  abbrev pub insert_all : GraphStoreInner → List ArgumentNode → GraphStoreInner
  insert_all = foldl (λ s n. (insert_node s n).0)

  pub load_node-strip :
      (s : GraphStoreInner) (nodes : List ArgumentNode)
      → foldl load_node (strip s) nodes ≡ strip (insert_all s nodes)
  unfolding load_node insert_node
  load_node-strip s [] = refl
  load_node-strip s (n ∷ nodes) = load_node-strip (insert_node s n).0 nodes

  load_one-strip :
      (s : GraphStoreInner) (e : ArgumentEdge) → load_edge (strip s) e ≡ strip (load_edge s e)
  unfolding load_edge insert_edge
  load_one-strip s e = elim (Option-cases (lookup e.source_node_id s.id_to_node)) [
    | inl a ↦ rw (a, load_edge) refl
    | inr (src, a) ↦ elim (Option-cases (lookup e.target_node_id s.id_to_node)) [
      | inl b ↦ rw (a, b, load_edge) refl
      | inr (tgt, b) ↦ rw (a, b, load_edge) refl
    ]
  ]

  pub load_edge-strip :
      (s : GraphStoreInner) (edges : List ArgumentEdge)
      → foldl load_edge (strip s) edges ≡ strip (foldl load_edge s edges)
  load_edge-strip s [] = refl
  load_edge-strip s (e ∷ edges) =
      ap (λ t. foldl load_edge t edges) (load_one-strip s e) ∙ load_edge-strip (load_edge s e) edges

  -- the store with all nodes
  pub record HasNodes (s : GraphStoreInner) (nodes : List ArgumentNode) (t : GraphStoreInner)
      : Type 0 where
    pub consistent : IsConsistent t
    pub found :
        (id : String)
        → get_node t id
          ≡ (elim (lookup id (nodes_by_id nodes)) [ some n ↦ some n | none ↦ get_node s id ])
    pub edges : all_edges t ≡ all_edges s

  pub insert_all-HasNodes :
      (s : GraphStoreInner) (nodes : List ArgumentNode)
      → IsConsistent s
      → unique (s.node_order ++ node_ids nodes) ≡ true
      → HasNodes s nodes (insert_all s nodes)
  insert_all-HasNodes s [] h new_ids = record { consistent = h; found = λ id. refl; edges = refl }
  insert_all-HasNodes s (n ∷ nodes) h new_ids =
      let rest =
        insert_all-HasNodes (insert_node s n).0 nodes (insert_node-IsConsistent s n fresh h) (
          unfold insert_node in
          (ap unique (append_assoc s.node_order (n.id ∷ []) (node_ids nodes)) ∙ new_ids)) in
      record {
        consistent = rest.consistent;
        found = λ id.
            rest.found id
            ∙ ground (
              arith,
              get_node-insert_node s h n id fresh,
              is_some-nodes_by_id n.id nodes,
              contains-unique_behind n.id s.node_order (node_ids nodes) new_ids,
              eq_iff n.id id,
            );
        edges =
            rest.edges
            ∙ (unfold insert_node in ap (map (λ r. r.weight)) (pg.edges-add_node s.graph n));
      }
    where
      fresh : lookup n.id s.id_to_node ≡ none
      fresh =
          ground
            (arith, h.order_ids n.id, contains-unique n.id s.node_order (node_ids nodes) new_ids)

module _ ⦃pg : StableGraph⦄ where
  -- both ends of every edge are there
  abbrev pub AllJoined : GraphStoreInner → List ArgumentEdge → Type 0
  AllJoined s [] = Unit
  AllJoined s (e ∷ edges) =
      (is_some (get_node s e.source_node_id) ≡ true)
      × (is_some (get_node s e.target_node_id) ≡ true)
      × AllJoined s edges

  pub AllJoined-same :
      (s t : GraphStoreInner) (edges : List ArgumentEdge)
      → ((id : String) → get_node t id ≡ get_node s id)
      → AllJoined s edges
      → AllJoined t edges
  AllJoined-same s t [] same a = tt
  AllJoined-same s t (e ∷ edges) same (p, q, a) =
      (rw (same e.source_node_id) p, rw (same e.target_node_id) q, AllJoined-same s t edges same a)

  pub record HasEdges (s : GraphStoreInner) (edges : List ArgumentEdge) (t : GraphStoreInner)
      : Type 0 where
    pub consistent : IsConsistent t
    pub nodes : (id : String) → get_node t id ≡ get_node s id
    pub all : all_edges t ≡ all_edges s ++ edges

  load_one-HasEdge :
      (s : GraphStoreInner) (e : ArgumentEdge)
      → IsConsistent s
      → is_some (get_node s e.source_node_id) ≡ true
      → is_some (get_node s e.target_node_id) ≡ true
      → contains e.id (edge_names s) ≡ false
      → HasEdge s e (load_edge s e)
  unfolding load_edge
  load_one-HasEdge s e h p q fresh = elim (Option-cases (lookup e.source_node_id s.id_to_node)) [
    | inl a ↦ absurd (ground (arith, a, p, get_node-lookup s h e.source_node_id))
    | inr (src, a) ↦ elim (Option-cases (lookup e.target_node_id s.id_to_node)) [
      | inl b ↦ absurd (ground (arith, b, q, get_node-lookup s h e.target_node_id))
      | inr (tgt, b) ↦
          rw (a, b, load_edge)
            (insert_edge-HasEdge s h e src tgt a b (ground (arith, h.edge_ids e.id, fresh)))
    ]
  ]

  pub load_edge-HasEdges :
      (s : GraphStoreInner) (edges : List ArgumentEdge)
      → IsConsistent s
      → AllJoined s edges
      → unique (edge_names s ++ edge_ids edges) ≡ true
      → HasEdges s edges (foldl load_edge s edges)
  load_edge-HasEdges s [] h a new_ids = record {
    consistent = h;
    nodes = λ id. refl;
    all = sym (append-nil (all_edges s));
  }
  load_edge-HasEdges s (e ∷ edges) h (p, q, a) new_ids =
      let rest =
        load_edge-HasEdges (load_edge s e) edges one.consistent
          (AllJoined-same s (load_edge s e) edges one.nodes a)
          (ap (λ l. unique (l ++ edge_ids edges)) names
            ∙ ap unique (append_assoc (edge_names s) (e.id ∷ []) (edge_ids edges))
            ∙ new_ids) in
      record {
        consistent = rest.consistent;
        nodes = λ id. rest.nodes id ∙ one.nodes id;
        all = rest.all ∙ ap (λ l. l ++ edges) last ∙ append_assoc (all_edges s) (e ∷ []) edges;
      }
    where
      fresh : contains e.id (edge_names s) ≡ false
      fresh = contains-unique e.id (edge_names s) (edge_ids edges) new_ids

      one : HasEdge s e (load_edge s e)
      one = load_one-HasEdge s e h p q fresh

      last : all_edges (load_edge s e) ≡ all_edges s ++ e ∷ []
      last = one.edges ∙ rw fresh refl

      names : edge_names (load_edge s e) ≡ edge_names s ++ e.id ∷ []
      names =
          edge_names-all_edges (pg.edge_references (load_edge s e).graph)
          ∙ ap edge_ids last
          ∙ map-append (λ (n : ArgumentEdge). n.id) (all_edges s) (e ∷ [])
          ∙ ap (λ l. l ++ e.id ∷ []) (sym (edge_names-all_edges (pg.edge_references s.graph)))
