-- ===== src/Engine/Ingest.antt =====
-- armin-core/engine/src/routes.rs, `ingest`, and `is_tool_event` of deterministic.rs.
pub mod Queue
use mathlib.Core.List.{foldl}
use armin.Prelude.{ℕ, ◌+◌, Bool, true, false, Option, none, some, List, [], ◌∷◌, if◌then◌else◌}
use armin.Petgraph.{StableGraph}
use armin.Tools.{EventRecord, EventKind, record_tool_event}
use armin.Engine.{
  EngineState, Channel, TrySend, sent, full, closed, try_send, fetch_add, register_session,
  push_event_log,
}

abbrev pub is_tool_call : EventKind → Bool
is_tool_call EventKind.tool_call = true
is_tool_call _ = false

abbrev pub is_tool_event : EventRecord → Bool
is_tool_event event = is_tool_call event.event_kind

-- the answer's counts
pub record IngestCounts : Type 0 where
  pub queued : ℕ
  pub dropped : ℕ

abbrev pub no_counts : IngestCounts
no_counts = record { queued = 0; dropped = 0 }

module _ ⦃pg : StableGraph⦄ where
  abbrev pub settle : EngineState → IngestCounts → Channel → TrySend → EngineState × IngestCounts
  settle state c tx sent = (
    record state {
      ingest_tx = some tx;
      metrics = record state.metrics {
        events_queued_for_llm = fetch_add state.metrics.events_queued_for_llm 1;
      };
    },
    record c { queued = c.queued + 1 },
  )
  settle state c tx full = (
    record state {
      ingest_tx = some tx;
      metrics = record state.metrics { events_dropped = fetch_add state.metrics.events_dropped 1 };
    },
    record c { dropped = c.dropped + 1 },
  )
  settle state c tx closed = (record state { ingest_tx = some tx }, c)

  unfoldable pub enqueue : EngineState → IngestCounts → EventRecord → EngineState × IngestCounts
  unfolding try_send fetch_add
  enqueue state c event = elim state.ingest_tx [
    | none ↦ (state, c)
    | some tx ↦ settle state c (try_send tx event).0 (try_send tx event).1
  ]

  -- the part of the loop body that every event goes through
  unfoldable pub take_in : EngineState → EventRecord → EngineState
  unfolding register_session push_event_log fetch_add
  take_in state event =
      let counted = record state {
        metrics = record state.metrics {
          events_ingested = fetch_add state.metrics.events_ingested 1;
        };
      } in
      push_event_log (register_session counted event.session_id).0 event

  unfoldable pub use_tool : EngineState → EventRecord → EngineState
  unfolding record_tool_event fetch_add
  use_tool state event = record state {
    metrics = record state.metrics { tool_events = fetch_add state.metrics.tool_events 1 };
    scratch = record_tool_event state.scratch event;
  }

  -- the loop body
  unfoldable pub ingest_event :
      EngineState × IngestCounts → EventRecord → EngineState × IngestCounts
  unfolding enqueue take_in use_tool
  ingest_event (state, c) event =
      let taken = take_in state event in
      if is_tool_event event then (use_tool taken event, c) else enqueue taken c event

  unfoldable pub ingest : EngineState → List EventRecord → EngineState × IngestCounts
  unfolding ingest_event
  ingest state events = foldl ingest_event (state, no_counts) events
