-- ===== src/Engine/Agent/Keeps.antt =====
-- armin-core/engine/src/routes.rs: each handler of Agent is a run of the store's methods.
use mathlib.Core.List.{foldl}
use armin.Prelude.{ℕ, suc, refl, inl, inr, String, List, [], ◌∷◌}
use armin.Prelude.Results.{Result-cases}
use armin.Types.{ArgumentNode, ArgumentEdge}
use armin.Text.{Unicode}
use armin.Petgraph.{StableGraph}
use armin.Store.{GraphStoreInner, add_node, add_edge, invalidate_node, resolve_question}
use armin.Store.Writes.Runs.{Step, Run, here, next, added_node, added_edge, invalidated, resolved}
use armin.Engine.{EngineState}
use armin.Engine.Ready.{Run-trans, Advances, at_graph}
use armin.Engine.Reports as Reports
use mathlib.Core.List.{foldl}
use armin.Engine.Import.{
  Sha256, ImportRequest, import_node, handle_import, import, to_argument_nodes, parse_markdown,
}
use armin.Engine.Agent.{unwrap_or}
use armin.Engine.Agent.{
  AgentDecisionRequest, AgentQuestionRequest, decision_node, question_node, add_nodes, add_edges,
  edge_or_warn, linked, resolve_all, agent_decision, agent_question, post_extraction, invalidate,
  resolve, debt, reasoning_at,
}

module _ ⦃pg : StableGraph⦄ ⦃u : Unicode⦄ where
  abbrev pub one_step : {s t : GraphStoreInner} → Step s t → Run s t
  one_step st = next here st

  pub add_nodes-Run : (nodes : List ArgumentNode) (s : GraphStoreInner) → Run s (add_nodes s nodes)
  add_nodes-Run [] s = here
  add_nodes-Run (n ∷ nodes) s =
      Run-trans (one_step (added_node n refl)) (add_nodes-Run nodes (add_node s n).0)

  edge_or_warn-Run :
      (s : GraphStoreInner) (e : ArgumentEdge) → Run s (edge_or_warn s (add_edge s e))
  edge_or_warn-Run s e = elim (Result-cases (add_edge s e)) [
    | inl ((t, i), q) ↦ rw q (one_step (added_edge e i q))
    | inr (x, q) ↦ rw q here
  ]

  pub add_edges-Run : (edges : List ArgumentEdge) (s : GraphStoreInner) → Run s (add_edges s edges)
  add_edges-Run [] s = here
  add_edges-Run (e ∷ edges) s =
      Run-trans (edge_or_warn-Run s e) (add_edges-Run edges (edge_or_warn s (add_edge s e)))

  linked-Run :
      (s : GraphStoreInner) (ids : List String) (uuid : String) (now : ℕ)
      (question resolver reasoning : String)
      → Run s (linked s ids (resolve_question s uuid now question resolver reasoning)).0
  linked-Run s ids uuid now question resolver reasoning =
      elim (Result-cases (resolve_question s uuid now question resolver reasoning)) [
        | inl ((t, e), q) ↦ rw q (one_step (resolved uuid now question resolver reasoning q))
        | inr (x, q) ↦ rw q here
      ]

  pub resolve_all-Run :
      (req : AgentDecisionRequest) (node_id : String) (uuids : ℕ → String) (clock : ℕ → ℕ)
      (s : GraphStoreInner) (ids : List String) (i : ℕ) (targets : List String)
      → Run s (resolve_all req node_id uuids clock s ids i targets).0
  unfolding resolve_all
  resolve_all-Run req node_id uuids clock s ids i [] = here
  resolve_all-Run req node_id uuids clock s ids i (target ∷ targets) =
      let round =
        linked s ids (resolve_question s (uuids i) (clock i) target node_id (reasoning_at req i)) in
      Run-trans (linked-Run s ids (uuids i) (clock i) target node_id (reasoning_at req i))
        (resolve_all-Run req node_id uuids clock round.0 round.1 (suc i) targets)

  -- Every handler but `ingest` writes to the graph through its methods alone.
  pub agent_decision-Advances :
      (state : EngineState) (req : AgentDecisionRequest) (node_id event_id : String) (now : ℕ)
      (uuids : ℕ → String) (clock : ℕ → ℕ)
      → Advances state (agent_decision state req node_id event_id now uuids clock).0
  unfolding agent_decision
  agent_decision-Advances state req node_id event_id now uuids clock =
      at_graph
        (Run-trans (one_step (added_node (decision_node req node_id event_id now) refl))
          (resolve_all-Run req node_id uuids clock _ [] 0 req.resolves))
        refl

  pub agent_question-Advances :
      (state : EngineState) (req : AgentQuestionRequest) (node_id event_id : String) (now : ℕ)
      → Advances state (agent_question state req node_id event_id now).0
  unfolding agent_question
  agent_question-Advances state req node_id event_id now =
      at_graph (one_step (added_node (question_node req node_id event_id now) refl)) refl

  pub post_extraction-Advances :
      (state : EngineState) (nodes : List ArgumentNode) (edges : List ArgumentEdge)
      → Advances state (post_extraction state nodes edges).0
  unfolding post_extraction
  post_extraction-Advances state nodes edges =
      at_graph
        (Run-trans (add_nodes-Run nodes state.graph)
          (add_edges-Run edges (add_nodes state.graph nodes)))
        refl

  pub invalidate-Advances :
      (state : EngineState) (node_id : String) → Advances state (invalidate state node_id).0
  unfolding invalidate
  invalidate-Advances state node_id = elim (Result-cases (invalidate_node state.graph node_id)) [
    | inl (t, q) ↦ rw (q, invalidate) (at_graph (one_step (invalidated node_id q)) refl)
    | inr (x, q) ↦ rw (q, invalidate) (at_graph here refl)
  ]

  pub resolve-Advances :
      (state : EngineState) (uuid : String) (now : ℕ) (question resolver reasoning : String)
      → Advances state (resolve state uuid now question resolver reasoning).0
  unfolding resolve
  resolve-Advances state uuid now question resolver reasoning =
      elim (Result-cases (resolve_question state.graph uuid now question resolver reasoning)) [
        | inl ((t, e), q) ↦
            rw (q, resolve)
              (at_graph (one_step (resolved uuid now question resolver reasoning q)) refl)
        | inr (x, q) ↦ rw (q, resolve) (at_graph here refl)
      ]

  pub debt-Advances :
      (state : EngineState) (timestamp : ℕ) → Advances state (debt state timestamp).0
  unfolding debt
  debt-Advances state timestamp = at_graph here refl

  pub add_node-Advances :
      (state : EngineState) (node : ArgumentNode) → Advances state (Reports.add_node state node)
  unfolding Reports.add_node
  add_node-Advances state node = at_graph (one_step (added_node node refl)) refl

  pub add_edge-Advances :
      (state : EngineState) (edge : ArgumentEdge) → Advances state (Reports.add_edge state edge).0
  unfolding Reports.add_edge
  add_edge-Advances state edge = elim (Result-cases (add_edge state.graph edge)) [
    | inl ((t, i), q) ↦ rw (q, Reports.add_edge) (at_graph (one_step (added_edge edge i q)) refl)
    | inr (x, q) ↦ rw (q, Reports.add_edge) (at_graph here refl)
  ]

  import_nodes-Run :
      (nodes : List ArgumentNode) (s : GraphStoreInner) (k : ℕ)
      → Run s (foldl import_node (s, k) nodes).0
  unfolding import_node
  import_nodes-Run [] s k = here
  import_nodes-Run (n ∷ nodes) s k =
      Run-trans (one_step (added_node n refl)) (import_nodes-Run nodes (add_node s n).0 _)

  pub import-Advances :
      ⦃sha : Sha256⦄ (state : EngineState) (req : ImportRequest) (ts : ℕ)
      → Advances state (import state req ts).0
  unfolding import handle_import
  import-Advances state req ts =
      at_graph
        (import_nodes-Run
          (to_argument_nodes (parse_markdown req.content) (unwrap_or req.session_id "import") ts)
          state.graph 0)
        refl
