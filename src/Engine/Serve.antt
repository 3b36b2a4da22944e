-- ===== src/Engine/Serve.antt =====
-- armin-core/engine/src: any sequence of requests and batches, as calls on the engine's state.
use mathlib.Core.List.{foldl}
use armin.Prelude.{
  ℕ, ◌≤◌, ◌≡◌, refl, inl, inr, subst, String, Option, none, some, List, [], ◌∷◌, drop, length,
  length-append, length-drop, leb, arith, Bool-cases, Option-cases, String_Eq,
}
use armin.Types.{ArgumentNode, ArgumentEdge}
use armin.Text.{Unicode}
use armin.Petgraph.{StableGraph}
use armin.Store.Consistent.Insert.{track-unique}
use armin.Store.Consistent.Status.{register_session-IsConsistent}
use armin.Store.Writes.Sessions.{register_session_lem}
use armin.Scratch.Bounds.{IsBounded, record_edit-IsBounded, record_check-IsBounded}
use armin.Scratch.{ScratchInner}
use armin.Tools.{EventRecord, ToolClass, classify, record_as, record_tool_event, edit_of, check_of}
use armin.Engine.{
  EngineState, Channel, TrySend, sent, full, closed, try_send, ingest_queue_capacity, push_log,
  register_session, push_event_log,
}
use armin.Engine.Ready.{IsReady, Advances-IsReady}
use armin.Engine.Ingest.{
  IngestCounts, is_tool_event, settle, take_in, use_tool, enqueue, ingest_event, ingest,
}
use armin.Engine.Agent.{
  AgentDecisionRequest, AgentQuestionRequest, agent_decision, agent_question, post_extraction,
  invalidate, resolve, debt,
}
use armin.Engine.Agent.Keeps.{
  agent_decision-Advances, agent_question-Advances, post_extraction-Advances, import-Advances,
  add_node-Advances, add_edge-Advances, invalidate-Advances, resolve-Advances, debt-Advances,
}
use armin.Engine.Reports as Reports
use armin.Engine.Import.{Sha256, ImportRequest, import}
use armin.Engine.Worker.{Extractors, process_batch}
use armin.Engine.Worker.Commit.{process_batch-Advances}

-- what may be asked of the engine, and a batch of the worker
pub data Call ⦃pg : StableGraph⦄ : Type 0 where
  events_came : List EventRecord → Call
  decision_made : AgentDecisionRequest → String → String → ℕ → (ℕ → String) → (ℕ → ℕ) → Call
  question_asked : AgentQuestionRequest → String → String → ℕ → Call
  node_posted : ArgumentNode → Call
  edge_posted : ArgumentEdge → Call
  document_imported : ImportRequest → ℕ → Call
  extraction_posted : List ArgumentNode → List ArgumentEdge → Call
  node_invalidated : String → Call
  question_resolved : String → ℕ → String → String → String → Call
  debt_asked : ℕ → Call
  batch_processed : Extractors → (ℕ → String) → (ℕ → ℕ) → List EventRecord → ℕ → Call

record_tool_event-IsBounded :
    (s : ScratchInner) (e : EventRecord) → IsBounded s → IsBounded (record_tool_event s e)
unfolding record_tool_event
record_tool_event-IsBounded s e b = elim (Option-cases e.tool_name) [
  | inl q ↦ rw (q, record_tool_event) b
  | inr (tool, q) ↦ rw (q, record_tool_event) (as_class (classify tool e.text) tool)
]
  where
    as_class : (c : ToolClass) (tool : String) → IsBounded (record_as s e tool c)
    as_class ToolClass.read tool = b
    as_class ToolClass.write tool = record_edit-IsBounded s e.session_id (edit_of e tool) b
    as_class ToolClass.check tool = record_check-IsBounded s e.session_id (check_of e tool) b

length-push_log :
    (log : List EventRecord) (e : EventRecord) → length log ≤ 20 → length (push_log log e) ≤ 20
unfolding push_log
length-push_log log e h = elim (Bool-cases (leb 20 (length log))) [
  | inl t ↦ rw t (omega (arith, length-append (drop 1 log) (e ∷ []), length-drop 1 log))
  | inr f ↦ rw f (ground (arith, length-append log (e ∷ [])))
]

length-try_send :
    (c : Channel) (e : EventRecord)
    → length c.queue ≤ ingest_queue_capacity
    → length (try_send c e).0.queue ≤ ingest_queue_capacity
unfolding try_send
length-try_send c e h = ground (arith, length-append c.queue (e ∷ []))

module _ ⦃pg : StableGraph⦄ where
  take_in-IsReady :
      (state : EngineState) (e : EventRecord) → IsReady state → IsReady (take_in state e)
  unfolding take_in register_session push_event_log
  take_in-IsReady state e h = record {
    graph = register_session-IsConsistent state.graph h.graph e.session_id;
    scratch = h.scratch;
    log = length-push_log state.event_log e h.log;
    queue = h.queue;
    sessions = track-unique state.sessions e.session_id h.sessions;
    current = inr ((register_session_lem state.graph e.session_id).0);
  }

  use_tool-IsReady :
      (state : EngineState) (e : EventRecord) → IsReady state → IsReady (use_tool state e)
  unfolding use_tool
  use_tool-IsReady state e h = record {
    graph = h.graph;
    scratch = record_tool_event-IsBounded state.scratch e h.scratch;
    log = h.log;
    queue = h.queue;
    sessions = h.sessions;
    current = h.current;
  }

  fits :
      (c tx : Channel)
      → some c ≡ some tx
      → length c.queue ≤ ingest_queue_capacity
      → length tx.queue ≤ ingest_queue_capacity
  fits c tx e q =
      let same : c ≡ tx = cc in
      subst (λ (x : Channel). length x.queue ≤ ingest_queue_capacity) same q

  settle-IsReady :
      (state : EngineState) (k : IngestCounts) (c : Channel) (t : TrySend)
      → IsReady state
      → length c.queue ≤ ingest_queue_capacity
      → IsReady (settle state k c t).0
  settle-IsReady state k c sent h q = record {
    graph = h.graph;
    scratch = h.scratch;
    log = h.log;
    sessions = h.sessions;
    current = h.current;
    queue = λ tx e. fits c tx e q;
  }
  settle-IsReady state k c full h q = record {
    graph = h.graph;
    scratch = h.scratch;
    log = h.log;
    sessions = h.sessions;
    current = h.current;
    queue = λ tx e. fits c tx e q;
  }
  settle-IsReady state k c closed h q = record {
    graph = h.graph;
    scratch = h.scratch;
    log = h.log;
    sessions = h.sessions;
    current = h.current;
    queue = λ tx e. fits c tx e q;
  }

  enqueue-IsReady :
      (state : EngineState) (k : IngestCounts) (e : EventRecord)
      → IsReady state
      → IsReady (enqueue state k e).0
  unfolding enqueue
  enqueue-IsReady state k e h = at state.ingest_tx refl
    where
      at :
          (o : Option Channel)
          → state.ingest_tx ≡ o
          → IsReady
              (elim o as (λ _. EngineState × IngestCounts) [
                | none ↦ (state, k)
                | some tx ↦ settle state k (try_send tx e).0 (try_send tx e).1
              ]).0
      at none q = h
      at (some tx) q =
          settle-IsReady state k (try_send tx e).0 (try_send tx e).1 h
            (length-try_send tx e (h.queue tx q))

  ingest_event-IsReady :
      (state : EngineState) (k : IngestCounts) (e : EventRecord)
      → IsReady state
      → IsReady (ingest_event (state, k) e).0
  unfolding ingest_event
  ingest_event-IsReady state k e h = elim (Bool-cases (is_tool_event e)) [
    | inl t ↦
        rw (t, ingest_event) (use_tool-IsReady (take_in state e) e (take_in-IsReady state e h))
    | inr f ↦
        rw (f, ingest_event) (enqueue-IsReady (take_in state e) k e (take_in-IsReady state e h))
  ]

  ingest_events-IsReady :
      (events : List EventRecord) (state : EngineState) (k : IngestCounts)
      → IsReady state
      → IsReady (foldl ingest_event (state, k) events).0
  ingest_events-IsReady [] state k h = h
  ingest_events-IsReady (e ∷ events) state k h =
      let (next, k') = ingest_event (state, k) e in
      ingest_events-IsReady events next k' (ingest_event-IsReady state k e h)

module _ ⦃pg : StableGraph⦄ ⦃u : Unicode⦄ ⦃sha : Sha256⦄ where
  unfoldable pub serve : EngineState → Call → EngineState
  unfolding ingest agent_decision agent_question post_extraction invalidate resolve debt
      process_batch import Reports.add_node Reports.add_edge
  serve state (events_came events) = (ingest state events).0
  serve state (decision_made req node_id event_id now uuids clock) =
      (agent_decision state req node_id event_id now uuids clock).0
  serve state (question_asked req node_id event_id now) =
      (agent_question state req node_id event_id now).0
  serve state (node_posted node) = Reports.add_node state node
  serve state (edge_posted edge) = (Reports.add_edge state edge).0
  serve state (document_imported req ts) = (import state req ts).0
  serve state (extraction_posted nodes edges) = (post_extraction state nodes edges).0
  serve state (node_invalidated node_id) = (invalidate state node_id).0
  serve state (question_resolved uuid now question_id resolver_node_id reasoning) =
      (resolve state uuid now question_id resolver_node_id reasoning).0
  serve state (debt_asked timestamp) = (debt state timestamp).0
  serve state (batch_processed x uuids clock batch elapsed_ms) =
      process_batch x uuids clock state batch elapsed_ms

  serve-IsReady : (state : EngineState) (c : Call) → IsReady state → IsReady (serve state c)
  unfolding serve ingest
  serve-IsReady state (events_came events) h = ingest_events-IsReady events state _ h
  serve-IsReady state (decision_made req node_id event_id now uuids clock) h =
      Advances-IsReady (agent_decision-Advances state req node_id event_id now uuids clock) h
  serve-IsReady state (question_asked req node_id event_id now) h =
      Advances-IsReady (agent_question-Advances state req node_id event_id now) h
  serve-IsReady state (node_posted node) h = Advances-IsReady (add_node-Advances state node) h
  serve-IsReady state (edge_posted edge) h = Advances-IsReady (add_edge-Advances state edge) h
  serve-IsReady state (document_imported req ts) h =
      Advances-IsReady (import-Advances state req ts) h
  serve-IsReady state (extraction_posted nodes edges) h =
      Advances-IsReady (post_extraction-Advances state nodes edges) h
  serve-IsReady state (node_invalidated node_id) h =
      Advances-IsReady (invalidate-Advances state node_id) h
  serve-IsReady state (question_resolved uuid now question_id resolver_node_id reasoning) h =
      Advances-IsReady (resolve-Advances state uuid now question_id resolver_node_id reasoning) h
  serve-IsReady state (debt_asked timestamp) h = Advances-IsReady (debt-Advances state timestamp) h
  serve-IsReady state (batch_processed x uuids clock batch elapsed_ms) h =
      Advances-IsReady (process_batch-Advances x uuids clock state batch elapsed_ms) h

  -- Whatever is asked of the engine, and whatever the extractors answer: its graph stays consistent
  -- and its scratch bounded, it remembers at most 20 events and queues at most 2000, it lists each
  -- session once, and its current session stands in the graph's list at its current index.
  pub serve_all-IsReady :
      (calls : List Call) (state : EngineState) → IsReady state → IsReady (foldl serve state calls)
  serve_all-IsReady [] state h = h
  serve_all-IsReady (c ∷ calls) state h =
      serve_all-IsReady calls (serve state c) (serve-IsReady state c h)
