-- ===== src/Store.antt =====
-- armin-core/graph/src/store.rs: the graph behind `GraphStore`, and its operations that write.
-- Each method takes the lock for its whole body, so it is one function on the locked value; the
-- clock and the random identifiers that it reads are arguments. `GraphStore` with its database is in
-- Persistence.
pub mod Index
pub mod Query
pub mod Bfs
pub mod Walk
pub mod Consistent
pub mod Writes
use mathlib.Core.Option
use armin.Prelude.{
  contains, ℕ, ◌+◌, ◌-◌, String, Bool, Option, none, some, List, [], ◌∷◌, ◌++◌, lookup, insert,
  length, if◌then◌else◌, ◌==◌, String_Eq, ℕ_Eq,
}
use armin.Prelude.Results.{Result, ok, err, ◌>>=◌}
use armin.Types.{ArgumentNode, ArgumentEdge, NodeStatus, EdgeType, EdgeProvenance}
use armin.Petgraph.{StableGraph, weight}
use armin.Text.{Unicode}
use armin.Text.Sessions.{session_index}
use Index.{Bm25, no_index, index_node, node_text}

pub data StoreError : Type 0 where
  source_not_found target_not_found node_not_found : String → StoreError
  question_not_found resolver_not_found : String → StoreError

pub record GraphStoreInner ⦃pg : StableGraph⦄ : Type 0 where
  pub graph : pg.Graph
  pub id_to_node : List (String × ℕ)
  pub id_to_edge : List (String × ℕ)
  pub node_order : List String
  pub session_order : List String
  pub bm25 : Bm25

-- `if !order.contains(sid) { order.push(sid) }`
abbrev pub track : List String → String → List String
track order sid = if contains sid order then order else order ++ sid ∷ []

module _ ⦃pg : StableGraph⦄ where
  abbrev pub new : GraphStoreInner
  new = record {
    graph = pg.default;
    id_to_node = [];
    id_to_edge = [];
    node_order = [];
    session_order = [];
    bm25 = no_index;
  }

  -- a missing index, at which `graph[i]` would panic, is `none` too
  unfoldable pub get_node : GraphStoreInner → String → Option ArgumentNode
  unfolding Option.bind
  get_node s id = Option.bind (lookup id s.id_to_node) (weight s.graph)

  -- `add_node` past its early return
  unfoldable pub insert_node : ⦃u : Unicode⦄ → GraphStoreInner → ArgumentNode → GraphStoreInner × ℕ
  insert_node s node =
      let added = pg.add_node s.graph node in
      (
        record {
          graph = added.0;
          id_to_node = insert node.id added.1 s.id_to_node;
          id_to_edge = s.id_to_edge;
          node_order = s.node_order ++ node.id ∷ [];
          session_order = track s.session_order node.session_id;
          bm25 = index_node s.bm25 node.id (node_text node);
        },
        added.1,
      )

  unfoldable pub add_node : ⦃u : Unicode⦄ → GraphStoreInner → ArgumentNode → GraphStoreInner × ℕ
  add_node s node = elim (lookup node.id s.id_to_node) [
    | some existing ↦ (s, existing)
    | none ↦ insert_node s node
  ]

  abbrev pub ok_or : Option ℕ → StoreError → Result StoreError ℕ
  ok_or none e = err e
  ok_or (some i) e = ok i

  -- `add_edge` past its early return
  unfoldable pub insert_edge : GraphStoreInner → ℕ → ℕ → ArgumentEdge → GraphStoreInner × ℕ
  insert_edge s src tgt edge =
      let added = pg.add_edge s.graph src tgt edge in
      (record s { graph = added.0; id_to_edge = insert edge.id added.1 s.id_to_edge }, added.1)

  unfoldable pub add_edge : GraphStoreInner → ArgumentEdge → Result StoreError (GraphStoreInner × ℕ)
  unfolding insert_edge
  add_edge s edge = do
    src ← ok_or (lookup edge.source_node_id s.id_to_node) (source_not_found edge.source_node_id)
    tgt ← ok_or (lookup edge.target_node_id s.id_to_node) (target_not_found edge.target_node_id)
    elim (lookup edge.id s.id_to_edge) [
      | some existing ↦ ok (s, existing)
      | none ↦ ok (insert_edge s src tgt edge)
    ]

  -- `graph[idx].status = Invalidated`, where the index has a weight
  abbrev pub invalidate_at : GraphStoreInner → ℕ → Option ArgumentNode → GraphStoreInner
  invalidate_at s i none = s
  invalidate_at s i (some node) = record s {
    graph = pg.set_weight s.graph i (record node { status = NodeStatus.invalidated });
  }

  unfoldable pub invalidate_node : GraphStoreInner → String → Result StoreError GraphStoreInner
  invalidate_node s id = do
    i ← ok_or (lookup id s.id_to_node) (node_not_found id)
    ok (invalidate_at s i (weight s.graph i))

  abbrev pub resolves_edge : String → ℕ → String → String → String → ArgumentEdge
  resolves_edge uuid now question resolver reasoning = record {
    id = uuid;
    edge_type = EdgeType.resolves;
    source_node_id = resolver;
    target_node_id = question;
    reasoning = reasoning;
    timestamp = now;
    evidence_score = none;
    provenance = EdgeProvenance.extracted;
  }

  unfoldable pub resolve_question :
      GraphStoreInner
      → String
      → ℕ
      → String
      → String
      → String
      → Result StoreError (GraphStoreInner × ArgumentEdge)
  resolve_question s uuid now question resolver reasoning = do
    _ ← ok_or (lookup question s.id_to_node) (question_not_found question)
    _ ← ok_or (lookup resolver s.id_to_node) (resolver_not_found resolver)
    let edge = resolves_edge uuid now question resolver reasoning
    added ← add_edge s edge
    ok (added.0, edge)

  -- the session's position, which a new session takes at the end
  unfoldable pub register_session : GraphStoreInner → String → GraphStoreInner × ℕ
  register_session s sid = elim (session_index s.session_order sid) [
    | some i ↦ (s, i)
    | none ↦
        let order = s.session_order ++ sid ∷ [] in
        (record s { session_order = order }, length order - 1)
  ]
