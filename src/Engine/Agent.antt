-- ===== src/Engine/Agent.antt =====
-- armin-core/engine/src/routes.rs: the handlers with which an agent and a client write and ask.
-- The random identifiers and the clock are arguments; in a loop, functions of the round. An answer
-- that is not a bad request holds what its JSON shows.
pub mod Keeps
pub mod Settles
use Prim.Native.String.{◌++◌ as concat}
use mathlib.Core.List.{foldl}
use armin.Prelude.{
  ℕ, suc, ◌+◌, String, Option, none, some, List, [], ◌∷◌, ◌++◌, get_elem?, length, ltb,
  if◌then◌else◌,
}
use armin.Prelude.Results.{Result, ok, err}
use armin.Types.{ArgumentNode, ArgumentEdge, NodeType, NodeStatus, GraphSnapshot}
use armin.Types.Scratch.{DebtReport}
use armin.Text.{Unicode}
use armin.Petgraph.{StableGraph}
use armin.Store.{GraphStoreInner, StoreError, add_node, add_edge, invalidate_node, resolve_question}
use armin.Store.Bfs.{bfs_subgraph}
use armin.Scratch as Scratch
use armin.Debt.{compute_debt}
use armin.Engine.{EngineState, fetch_add}

pub record AgentDecisionRequest : Type 0 where
  pub label : String
  pub description : String
  pub session_id : String
  pub resolves : List String
  pub resolutions : List String
  pub files : List String
  pub commit : Option String
  pub agent_id : Option String

pub record AgentQuestionRequest : Type 0 where
  pub label : String
  pub description : String
  pub session_id : String
  pub files : List String
  pub commit : Option String
  pub agent_id : Option String

pub record AgentWriteResponse : Type 0 where
  pub node_id : String
  pub node_label : String
  pub edge_ids : List String

-- `unwrap_or`
abbrev pub unwrap_or {ℓ} : {A : Type ℓ} → Option A → A → A
unwrap_or none a = a
unwrap_or (some b) a = b

abbrev pub decision_node : AgentDecisionRequest → String → String → ℕ → ArgumentNode
decision_node req node_id event_id now = record {
  id = node_id;
  node_type = NodeType.decision;
  label = req.label;
  description = req.description;
  event_id = event_id;
  agent_id = unwrap_or req.agent_id "agent";
  session_id = req.session_id;
  timestamp = now;
  confidence = 10000;
  files = req.files;
  commit = req.commit;
  mention_count = 1;
  status = NodeStatus.active;
}

abbrev pub question_node : AgentQuestionRequest → String → String → ℕ → ArgumentNode
question_node req node_id event_id now = record {
  id = node_id;
  node_type = NodeType.open_item;
  label = req.label;
  description = req.description;
  event_id = event_id;
  agent_id = unwrap_or req.agent_id "agent";
  session_id = req.session_id;
  timestamp = now;
  confidence = 10000;
  files = req.files;
  commit = req.commit;
  mention_count = 1;
  status = NodeStatus.active;
}

-- the two counters of an agent's write
abbrev pub count_write : ⦃pg : StableGraph⦄ → EngineState → EngineState
count_write state = record state {
  metrics = record state.metrics {
    agent_writes = fetch_add state.metrics.agent_writes 1;
    nodes_added = fetch_add state.metrics.nodes_added 1;
  };
}

abbrev pub reasoning_at : AgentDecisionRequest → ℕ → String
reasoning_at req i =
    unwrap_or (get_elem? req.resolutions i)
      (concat "Decision '" (concat req.label "' resolves this"))

module _ ⦃pg : StableGraph⦄ where
  abbrev pub linked :
      GraphStoreInner
      → List String
      → Result StoreError (GraphStoreInner × ArgumentEdge)
      → GraphStoreInner × List String
  linked graph edge_ids (ok (after, edge)) = (after, edge_ids ++ edge.id ∷ [])
  linked graph edge_ids (err e) = (graph, edge_ids)

  -- the loop over the targets, from the round `i`
  unfoldable pub resolve_all :
      AgentDecisionRequest
      → String
      → (ℕ → String)
      → (ℕ → ℕ)
      → GraphStoreInner
      → List String
      → ℕ
      → List String
      → GraphStoreInner × List String
  unfolding resolve_question
  resolve_all req node_id uuids clock graph edge_ids i [] = (graph, edge_ids)
  resolve_all req node_id uuids clock graph edge_ids i (target ∷ targets) =
      let round =
        linked graph edge_ids
          (resolve_question graph (uuids i) (clock i) target node_id (reasoning_at req i)) in
      resolve_all req node_id uuids clock round.0 round.1 (suc i) targets

  unfoldable pub agent_decision :
      ⦃u : Unicode⦄
      → EngineState
      → AgentDecisionRequest
      → String
      → String
      → ℕ
      → (ℕ → String)
      → (ℕ → ℕ)
      → EngineState × AgentWriteResponse
  unfolding resolve_all fetch_add add_node
  agent_decision state req node_id event_id now uuids clock =
      let graph = (add_node state.graph (decision_node req node_id event_id now)).0 in
      let settled = resolve_all req node_id uuids clock graph [] 0 req.resolves in
      (
        record (count_write state) { graph = settled.0 },
        record { node_id = node_id; node_label = req.label; edge_ids = settled.1 },
      )

  unfoldable pub agent_question :
      ⦃u : Unicode⦄
      → EngineState
      → AgentQuestionRequest
      → String
      → String
      → ℕ
      → EngineState × AgentWriteResponse
  unfolding fetch_add add_node
  agent_question state req node_id event_id now = (
    record (count_write state) {
      graph = (add_node state.graph (question_node req node_id event_id now)).0;
    },
    record { node_id = node_id; node_label = req.label; edge_ids = [] },
  )

  -- `if let Err(e) = add_edge(edge) { warn!(..) }`
  abbrev pub edge_or_warn :
      GraphStoreInner → Result StoreError (GraphStoreInner × ℕ) → GraphStoreInner
  edge_or_warn graph (ok (after, i)) = after
  edge_or_warn graph (err e) = graph

  abbrev pub add_nodes : ⦃u : Unicode⦄ → GraphStoreInner → List ArgumentNode → GraphStoreInner
  add_nodes = foldl (λ graph node. (add_node graph node).0)

  abbrev pub add_edges : GraphStoreInner → List ArgumentEdge → GraphStoreInner
  add_edges = foldl (λ graph edge. edge_or_warn graph (add_edge graph edge))

  -- the answer is the numbers of nodes and edges
  unfoldable pub post_extraction :
      ⦃u : Unicode⦄ → EngineState → List ArgumentNode → List ArgumentEdge → EngineState × (ℕ × ℕ)
  unfolding fetch_add add_node add_edge
  post_extraction state nodes edges = (
    record state {
      graph = add_edges (add_nodes state.graph nodes) edges;
      metrics = record state.metrics {
        nodes_added = fetch_add state.metrics.nodes_added (length nodes);
        edges_added = fetch_add state.metrics.edges_added (length edges);
      };
    },
    (length nodes, length edges),
  )

  abbrev pub invalidated :
      EngineState
      → String
      → Result StoreError GraphStoreInner
      → EngineState × Result StoreError AgentWriteResponse
  invalidated state node_id (ok graph) = (
    record state { graph = graph },
    ok (record { node_id = node_id; node_label = "invalidated"; edge_ids = [] }),
  )
  invalidated state node_id (err e) = (state, err e)

  unfoldable pub invalidate :
      EngineState → String → EngineState × Result StoreError AgentWriteResponse
  unfolding invalidate_node
  invalidate state node_id = invalidated state node_id (invalidate_node state.graph node_id)

  abbrev pub resolved :
      EngineState
      → String
      → Result StoreError (GraphStoreInner × ArgumentEdge)
      → EngineState × Result StoreError AgentWriteResponse
  resolved state question_id (ok (graph, edge)) = (
    record state { graph = graph },
    ok (record {
      node_id = question_id;
      node_label = "question_resolved";
      edge_ids = edge.id ∷ [];
    }),
  )
  resolved state question_id (err e) = (state, err e)

  unfoldable pub resolve :
      EngineState
      → String
      → ℕ
      → String
      → String
      → String
      → EngineState × Result StoreError AgentWriteResponse
  unfolding resolve_question
  resolve state uuid now question_id resolver_node_id reasoning =
      resolved state question_id
        (resolve_question state.graph uuid now question_id resolver_node_id reasoning)

  abbrev pub max_depth : ℕ
  max_depth = 10

  unfoldable pub bfs : EngineState → List String → Option ℕ → GraphSnapshot
  unfolding bfs_subgraph
  bfs state seed_ids depth =
      let asked : ℕ = unwrap_or depth 3 in
      bfs_subgraph state.graph seed_ids (if ltb max_depth asked then max_depth else asked)

  unfoldable pub debt : EngineState → ℕ → EngineState × DebtReport
  unfolding compute_debt Scratch.snapshot
  debt state timestamp =
      let scratch = Scratch.snapshot state.scratch state.current_session_id in
      let report = compute_debt state.graph state.current_session_idx timestamp (some scratch) in
      (record state { prior_debt = some report }, report)
