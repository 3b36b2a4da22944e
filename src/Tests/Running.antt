-- ===== src/Tests/Running.antt =====
-- The theorems on the engine at concrete inputs.
use mathlib.Core.List.{foldl}
use mathlib.Core.List.Memᴰ
use armin.Prelude.{
  ℕ, zero, suc, ◌+◌, ◌≡◌, ◌≢◌, refl, ap, sym, ◌∙◌, insert, inl, String, true, false, none, some,
  List, [], ◌∷◌, ◌++◌, take, length, contains, arith, eq_iff, String_Eq,
}
use armin.Types.{ArgumentNode, ArgumentEdge, NodeType}
use armin.Petgraph.Listed.{listed}
use armin.Store.{GraphStoreInner, add_node, insert_node, get_node, add_edge, resolve_question}
use armin.Store.Consistent.{IsConsistent}
use armin.Store.Writes.Nodes.{add_node-IsConsistent}
use armin.Store.Query.OpenQuestions.{IsUnresolved}
use armin.Scratch.{empty}
use armin.Scratch.Bounds.{empty-IsBounded}
use armin.Tools.{EventRecord, EventKind}
use armin.Engine.{EngineState, Metrics}
use armin.Engine.Config.{default_config}
use armin.Engine.Ready.{IsReady}
use armin.Engine.Ingest.{ingest}
use armin.Engine.Ingest.Queue.{prose_events, room_in, ingest-prose_events}
use armin.Engine.Agent.{AgentDecisionRequest, agent_decision, resolve_all}
use armin.Engine.Agent.Settles.{agent_decision-IsUnresolved}
use armin.Engine.Import.{Sha256, ImportRequest, handle_import}
use armin.Engine.Import.Again.{handle_import_lem}
use armin.Engine.Worker.{Signal, received, elapsed, batches}
use armin.Engine.Worker.Batches.{concat, events, AllFit, batches_lem}
use armin.Engine.Serve.{events_came, decision_made, debt_asked, serve, serve_all-IsReady}
use armin.Tests.{ascii, node, question, asked, asked-IsConsistent}

-- a digest that is the same for all
instance abbrev pub one_digest : Sha256
one_digest = record { digest = λ text. [] }

abbrev pub no_metrics : Metrics
no_metrics = record {
  started_at = 0;
  events_ingested = 0;
  tool_events = 0;
  events_queued_for_llm = 0;
  events_dropped = 0;
  llm_batches = 0;
  llm_events_extracted = 0;
  llm_extraction_errors = 0;
  deterministic_nodes = 0;
  nodes_added = 0;
  edges_added = 0;
  agent_writes = 0;
  queries = 0;
  resolution_edges = 0;
  last_batch_size = 0;
  last_extraction_ms = 0;
  jev_calls = 0;
  jev_input_tokens = 0;
}

-- an engine that was just started on a graph
abbrev pub started : GraphStoreInner → EngineState
started graph = record {
  graph = graph;
  has_extractor = true;
  has_jev = false;
  ingest_tx = some (record { queue = []; is_closed = false });
  scratch = empty;
  event_log = [];
  sessions = [];
  current_session_idx = 0;
  current_session_id = "";
  prior_debt = none;
  config = default_config;
  metrics = no_metrics;
}

started-IsReady : (graph : GraphStoreInner) → IsConsistent graph → IsReady (started graph)
started-IsReady graph h = record {
  graph = h;
  scratch = empty-IsBounded;
  log = omega arith;
  queue = λ tx e. ground (arith, e);
  sessions = refl;
  current = inl refl;
}

abbrev remark : EventRecord
remark = record {
  id = "event-7";
  session_id = "monday";
  agent_role = "assistant";
  start_time = 70;
  end_time = 71;
  text = "we keep the cache";
  event_kind = EventKind.utterance;
  tool_name = none;
  files = [];
  commit = none;
}

-- two open items, and a decision that settles the second
abbrev second : ArgumentNode
second = node "second" NodeType.open_item 12

abbrev both : GraphStoreInner
both = (add_node asked second).0

both-IsConsistent : IsConsistent both
both-IsConsistent = add_node-IsConsistent asked asked-IsConsistent second

abbrev settle_second : AgentDecisionRequest
settle_second = record {
  label = "no cache";
  description = "it costs more than it saves";
  session_id = "monday";
  resolves = "second" ∷ [];
  resolutions = [];
  files = [];
  commit = none;
  agent_id = none;
}

-- identifiers of one length each
abbrev strokes : ℕ → String
strokes zero = ""
strokes (suc n) = String.◌∷◌ "i" (strokes n)

strokes_distinct : (i j : ℕ) → strokes i ≡ strokes j → i ≡ j
strokes_distinct zero zero e = refl
strokes_distinct zero (suc j) e = cc
strokes_distinct (suc i) zero e = cc
strokes_distinct (suc i) (suc j) e = ap suc (strokes_distinct i j cc)

abbrev decided : EngineState
decided =
    (agent_decision (started both) settle_second "decision" "event-8" 80 strokes (λ i. 80 + i)).0

other_name : ◌≢◌ {A = String} "second" "question"
other_name e = ground (arith, eq_iff "second" "question", e)

question_left : IsUnresolved decided.graph question
unfolding agent_decision resolve_all add_node insert_node get_node insert add_edge resolve_question
question_left = record {
  there = refl;
  item = refl;
  active = refl;
  unresolved = λ e m k q.
      other_name (sym (ap (λ (x : ArgumentEdge). x.target_node_id) (Memᴰ.eq_of_singleton m)) ∙ q);
}

agent_decision-IsUnresolved_example : contains "question" settle_second.resolves ≡ false
unfolding add_node insert_node insert
agent_decision-IsUnresolved_example =
    agent_decision-IsUnresolved strokes strokes_distinct (started both) settle_second "decision"
      "event-8" 80 (λ i. 80 + i) both-IsConsistent (λ j le. refl) question question_left

serve_all-IsReady_example : IsReady (
    foldl serve (started asked) (
      events_came (remark ∷ [])
      ∷ decision_made settle_second "decision" "event-8" 80 strokes (λ i. 80 + i)
      ∷ debt_asked 90
      ∷ []))
serve_all-IsReady_example =
    serve_all-IsReady
      (events_came (remark ∷ [])
        ∷ decision_made settle_second "decision" "event-8" 80 strokes (λ i. 80 + i)
        ∷ debt_asked 90
        ∷ [])
      (started asked) (started-IsReady asked asked-IsConsistent)

ingest-prose_events_example :
    let r = ingest (started asked) (remark ∷ remark ∷ []) in
    let fitting = take (room_in []) (prose_events (remark ∷ remark ∷ [])) in
    (r.0.ingest_tx ≡ some (record { queue = [] ++ fitting; is_closed = false }))
    × (r.1.queued ≡ length fitting)
    × (r.1.queued + r.1.dropped ≡ length (prose_events (remark ∷ remark ∷ [])))
ingest-prose_events_example = ingest-prose_events (started asked) (remark ∷ remark ∷ []) [] refl

abbrev busy : List Signal
busy = received remark ∷ elapsed ∷ received remark ∷ received remark ∷ received remark ∷ []

batches_example : (concat (batches 2 [] busy) ≡ events busy) × AllFit 2 (batches 2 [] busy)
batches_example = batches_lem 2 busy

abbrev guide : ImportRequest
guide = record { content = "- never push to main\n- we use sled for storage"; session_id = none }

handle_import_example :
    let done = handle_import asked guide 95 in
    IsConsistent done.0
    × (length done.0.node_order ≡ length asked.node_order + done.1.imported)
    × (done.1.found ≡ done.1.rules + done.1.decisions + done.1.open_items)
    × ((later : ImportRequest) (ts' : ℕ)
        → later.content ≡ guide.content
        → ((handle_import done.0 later ts').0 ≡ done.0)
          × ((handle_import done.0 later ts').1.imported ≡ 0))
handle_import_example = handle_import_lem asked guide 95 asked-IsConsistent

guide_counts :
    (handle_import asked guide 95).1
    ≡ record { found = 2; imported = 1; rules = 1; decisions = 1; open_items = 0 }
unfolding handle_import insert_node insert
guide_counts = refl
