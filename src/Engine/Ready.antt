-- ===== src/Engine/Ready.antt =====
-- armin-core/engine/src: what holds of the engine's state between two calls.
use armin.Prelude.{
  ◌≡◌, ◌≤◌, ap, sym, ◌∙◌, ◌⊎◌, inl, inr, subst, true, some, [], length, unique, String_Eq,
}
use armin.Text.{Unicode}
use armin.Text.Sessions.{session_index}
use armin.Petgraph.{StableGraph}
use armin.Store.{GraphStoreInner}
use armin.Store.Consistent.{IsConsistent}
use armin.Store.Writes.Runs.{Run, here, next, Run-IsConsistent}
use armin.Store.Writes.Sessions.{Run-session_index}
use armin.Scratch.Bounds.{IsBounded}
use armin.Engine.{EngineState, Channel, ingest_queue_capacity}

module _ ⦃pg : StableGraph⦄ where
  pub record IsReady (state : EngineState) : Type 0 where
    pub graph : IsConsistent state.graph
    pub scratch : IsBounded state.scratch
    pub log : length state.event_log ≤ 20
    pub queue : (tx : Channel) → state.ingest_tx ≡ some tx → length tx.queue ≤ ingest_queue_capacity
    pub sessions : unique state.sessions ≡ true
    -- before the first session, or at the position of the current one in the graph's list
    pub current :
        (state.sessions ≡ [])
        ⊎ (session_index state.graph.session_order state.current_session_id
            ≡ some state.current_session_idx)

module _ ⦃pg : StableGraph⦄ ⦃u : Unicode⦄ where
  pub Run-trans : {s t v : GraphStoreInner} → Run s t → Run t v → Run s v
  Run-trans r here = r
  Run-trans r (next q st) = next (Run-trans r q) st

  -- a call that writes to the graph through its methods, and leaves the rest of the state alone but
  -- for the counters and the reports
  pub record Advances (s t : EngineState) : Type 0 where
    pub run : Run s.graph t.graph
    pub same_scratch : t.scratch ≡ s.scratch
    pub same_log : t.event_log ≡ s.event_log
    pub same_queue : t.ingest_tx ≡ s.ingest_tx
    pub same_sessions : t.sessions ≡ s.sessions
    pub same_idx : t.current_session_idx ≡ s.current_session_idx
    pub same_id : t.current_session_id ≡ s.current_session_id

  pub Advances-trans : {s t v : EngineState} → Advances s t → Advances t v → Advances s v
  Advances-trans a b = record {
    run = Run-trans a.run b.run;
    same_scratch = b.same_scratch ∙ a.same_scratch;
    same_log = b.same_log ∙ a.same_log;
    same_queue = b.same_queue ∙ a.same_queue;
    same_sessions = b.same_sessions ∙ a.same_sessions;
    same_idx = b.same_idx ∙ a.same_idx;
    same_id = b.same_id ∙ a.same_id;
  }

  pub Advances-IsReady : {s t : EngineState} → Advances s t → IsReady s → IsReady t
  Advances-IsReady {s} {t} a h = record {
    graph = Run-IsConsistent h.graph a.run;
    scratch = subst IsBounded (sym a.same_scratch) h.scratch;
    log = rw a.same_log h.log;
    queue = rw a.same_queue h.queue;
    sessions = rw a.same_sessions h.sessions;
    current = elim h.current [
      | inl none_yet ↦ inl (a.same_sessions ∙ none_yet)
      | inr at ↦ inr (
          rw (a.same_id, a.same_idx)
            (Run-session_index s.current_session_id s.current_session_idx h.graph a.run at))
    ];
  }

  -- a state with another graph, and another count or report
  pub at_graph :
      {s t : EngineState}
      → Run s.graph t.graph
      → t ≡ record s { graph = t.graph; metrics = t.metrics; prior_debt = t.prior_debt }
      → Advances s t
  at_graph {s} {t} r e = record {
    run = r;
    same_scratch = ap (λ (x : EngineState). x.scratch) e;
    same_log = ap (λ (x : EngineState). x.event_log) e;
    same_queue = ap (λ (x : EngineState). x.ingest_tx) e;
    same_sessions = ap (λ (x : EngineState). x.sessions) e;
    same_idx = ap (λ (x : EngineState). x.current_session_idx) e;
    same_id = ap (λ (x : EngineState). x.current_session_id) e;
  }
