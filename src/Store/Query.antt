-- ===== src/Store/Query.antt =====
-- armin-core/graph/src/store.rs: the read-only methods of `GraphStore`.
-- A hash set is a list that is only searched.
pub mod OpenQuestions
use mathlib.Core.List.{filter_map, flat_map}
use armin.Prelude.{
  ℕ, ◌+◌, ◌*◌, String, Bool, not, ◌&&◌, ◌||◌, true, false, Option, none, some, List, [], ◌∷◌, ◌++◌,
  map, reverse, lookup, length, take, any, select, leb, if◌then◌else◌, ◌==◌, String_Eq, ℕ_Eq,
}
use armin.Types.{
  ArgumentNode, ArgumentEdge, GraphSnapshot, NodeType, NodeStatus, EdgeType, NodeType_Eq,
  NodeStatus_Eq, EdgeType_Eq,
}
use armin.Petgraph.{StableGraph, EdgeReference, Direction, weight}
use armin.Store.{GraphStoreInner, get_node}

-- `node_ids.contains(id)`, for the set of the nodes' identifiers
abbrev pub has_id : List ArgumentNode → String → Bool
has_id nodes id = any (λ (n : ArgumentNode). n.id == id) nodes

module _ ⦃pg : StableGraph⦄ where
  abbrev pub all_nodes : GraphStoreInner → List ArgumentNode
  all_nodes s = map (λ (e : ℕ × ArgumentNode). e.1) (pg.node_references s.graph)

  abbrev pub all_edges : GraphStoreInner → List ArgumentEdge
  all_edges s = map (λ r. r.weight) (pg.edge_references s.graph)

  unfoldable pub nodes_where : GraphStoreInner → ℕ → (ArgumentNode → Bool) → List ArgumentNode
  unfolding filter_map
  nodes_where s limit pred = take limit (select pred (filter_map (get_node s) s.node_order))

  unfoldable pub newest_nodes : GraphStoreInner → ℕ → List ArgumentNode
  unfolding filter_map
  newest_nodes s count = filter_map (get_node s) (take count (reverse s.node_order))

  abbrev pub touches : List ArgumentNode → ArgumentEdge → Bool
  touches nodes e = has_id nodes e.source_node_id || has_id nodes e.target_node_id

  abbrev pub within : List ArgumentNode → ArgumentEdge → Bool
  within nodes e = has_id nodes e.source_node_id && has_id nodes e.target_node_id

  unfoldable pub recent_touching : GraphStoreInner → ℕ → ℕ → GraphSnapshot
  unfolding newest_nodes
  recent_touching s node_count edge_count =
      let nodes = newest_nodes s node_count in
      record {
        nodes = nodes;
        edges = take edge_count (select (touches nodes) (reverse (all_edges s)));
      }

  unfoldable pub snapshot : GraphStoreInner → GraphSnapshot
  snapshot s = record { nodes = all_nodes s; edges = all_edges s }

  unfoldable pub snapshot_at_time : GraphStoreInner → ℕ → GraphSnapshot
  snapshot_at_time s max_time =
      let nodes = select (λ n. leb n.timestamp max_time) (all_nodes s) in
      record {
        nodes = nodes;
        edges = select (λ e. leb e.timestamp max_time && within nodes e) (all_edges s);
      }

  unfoldable pub last_n_nodes : GraphStoreInner → ℕ → List ArgumentNode
  unfolding filter_map
  last_n_nodes s n = filter_map (get_node s) (reverse (take n (reverse s.node_order)))

  -- the edges into the node with this identifier
  abbrev pub edges_into : GraphStoreInner → String → List ArgumentEdge
  edges_into s id = elim (lookup id s.id_to_node) [
    | none ↦ []
    | some i ↦ map (λ r. r.weight) (pg.edges_directed s.graph Direction.incoming i)
  ]

  -- `recent_snapshot`'s two loops, over the edges in the order in which they are met: an edge is
  -- taken unless its end points or its identifier rule it out, and the cap is tested after a push
  unfoldable pub gather :
      List ArgumentNode → ℕ → List ArgumentEdge → List ArgumentEdge → List ArgumentEdge
  gather nodes cap edges [] = edges
  gather nodes cap edges (e ∷ rest) = elim (within nodes e && not (any (λ x. x.id == e.id) edges)) [
    | false ↦ gather nodes cap edges rest
    | true ↦ elim (leb cap (length (edges ++ e ∷ []))) [
      | true ↦ edges ++ e ∷ []
      | false ↦ gather nodes cap (edges ++ e ∷ []) rest
    ]
  ]

  unfoldable pub recent_snapshot : GraphStoreInner → ℕ → ℕ → GraphSnapshot
  unfolding newest_nodes gather flat_map
  recent_snapshot s node_count edge_count =
      let nodes = newest_nodes s node_count in
      let near = take (node_count * 2) (reverse s.node_order) in
      record { nodes = nodes; edges = gather nodes edge_count [] (flat_map (edges_into s) near) }

  -- `edges_directed(idx, Incoming).any(|e| e.weight().edge_type == Resolves)`
  unfoldable pub is_resolved : GraphStoreInner → ℕ → Bool
  is_resolved s i =
      any (λ r. r.weight.edge_type == EdgeType.resolves)
        (pg.edges_directed s.graph Direction.incoming i)

  abbrev pub is_open : ArgumentNode → Bool
  is_open n = n.node_type == NodeType.open_item && n.status == NodeStatus.active

  -- the loop body of `open_questions`: what one identifier adds
  unfoldable pub open_question : GraphStoreInner → Option ℕ → List ArgumentNode
  unfolding is_resolved
  open_question s none = []
  open_question s (some i) = elim (weight s.graph i) [
    | none ↦ []
    | some n ↦ if is_open n && not (is_resolved s i) then n ∷ [] else []
  ]

  unfoldable pub open_questions_from :
      GraphStoreInner → ℕ → List ArgumentNode → List String → List ArgumentNode
  unfolding open_question
  open_questions_from s limit out [] = out
  open_questions_from s limit out (id ∷ ids) = elim (leb limit (length out)) [
    | true ↦ out
    | false ↦ open_questions_from s limit (out ++ open_question s (lookup id s.id_to_node)) ids
  ]

  unfoldable pub open_questions : GraphStoreInner → ℕ → List ArgumentNode
  unfolding open_questions_from
  open_questions s limit = open_questions_from s limit [] (reverse s.node_order)
