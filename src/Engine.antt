-- ===== src/Engine.antt =====
-- armin-core/engine/src: the engine that the coding agent talks to. Its state, and the bookkeeping of
-- sessions and recent events (state.rs, metrics.rs).
-- The clients of the language models are outside: the state holds whether they are there.
pub mod Config
pub mod Ready
pub mod Ingest
pub mod Agent
pub mod Worker
pub mod Serve
pub mod Reports
pub mod Import
pub mod Brief
use armin.Prelude.{
  ℕ, ◌+◌, ◌%◌, ◌^◌, String, Bool, true, false, Option, none, some, List, [], ◌∷◌, ◌++◌, drop,
  length, leb, contains, if◌then◌else◌, ◌==◌, String_Eq,
}
use armin.Types.Scratch.{DebtReport}
use armin.Petgraph.{StableGraph}
use armin.Store.{GraphStoreInner, track}
use armin.Store as Store
use armin.Scratch.{ScratchInner}
use armin.Tools.{EventRecord}
use Config.{EngineConfig}

pub record Metrics : Type 0 where
  pub started_at : ℕ
  pub events_ingested : ℕ
  pub tool_events : ℕ
  pub events_queued_for_llm : ℕ
  pub events_dropped : ℕ
  pub llm_batches : ℕ
  pub llm_events_extracted : ℕ
  pub llm_extraction_errors : ℕ
  pub deterministic_nodes : ℕ
  pub nodes_added : ℕ
  pub edges_added : ℕ
  pub agent_writes : ℕ
  pub queries : ℕ
  pub resolution_edges : ℕ
  pub last_batch_size : ℕ
  pub last_extraction_ms : ℕ
  pub jev_calls : ℕ
  pub jev_input_tokens : ℕ

-- `AtomicU64::fetch_add`, which wraps around
unfoldable pub fetch_add : ℕ → ℕ → ℕ
fetch_add a n = (a + n) % 2 ^ 64

-- `mpsc::channel`: what is sent and not received, and whether the receiver is gone
pub record Channel : Type 0 where
  pub queue : List EventRecord
  pub is_closed : Bool

abbrev pub ingest_queue_capacity : ℕ
ingest_queue_capacity = 2000

pub data TrySend : Type 0 where
  sent full closed : TrySend

-- `try_send`
unfoldable pub try_send : Channel → EventRecord → Channel × TrySend
try_send c event =
    if c.is_closed
    then (c, closed)
    else if leb ingest_queue_capacity (length c.queue)
    then (c, full)
    else (record c { queue = c.queue ++ event ∷ [] }, sent)

pub record EngineState ⦃pg : StableGraph⦄ : Type 0 where
  pub graph : GraphStoreInner
  pub has_extractor : Bool
  pub has_jev : Bool
  pub ingest_tx : Option Channel
  pub scratch : ScratchInner
  pub event_log : List EventRecord
  pub sessions : List String
  pub current_session_idx : ℕ
  pub current_session_id : String
  pub prior_debt : Option DebtReport
  pub config : EngineConfig
  pub metrics : Metrics

module _ ⦃pg : StableGraph⦄ where
  unfoldable pub register_session : EngineState → String → EngineState × ℕ
  register_session state session_id =
      let registered = Store.register_session state.graph session_id in
      (
        record state {
          sessions = track state.sessions session_id;
          graph = registered.0;
          current_session_idx = registered.1;
          current_session_id = session_id;
        },
        registered.1,
      )

-- `log.pop_front()` at 20 entries, and `log.push_back`
unfoldable pub push_log : List EventRecord → EventRecord → List EventRecord
push_log log event = (if leb 20 (length log) then drop 1 log else log) ++ event ∷ []

module _ ⦃pg : StableGraph⦄ where
  unfoldable pub push_event_log : EngineState → EventRecord → EngineState
  unfolding push_log
  push_event_log state event = record state { event_log = push_log state.event_log event }
