-- ===== src/Engine/Worker.antt =====
-- armin-core/engine/src/worker.rs: the background worker, which batches events and commits what an
-- extractor finds. The extractors are outside: their answers are arguments. What arrives while the
-- worker waits is a list of signals; the list's end is the closing of the channel.
pub mod Batches
pub mod Commit
use mathlib.Core.List.{foldl}
use armin.Prelude.{
  ℕ, suc, ◌+◌, ◌%◌, ◌^◌, String, Bool, true, false, not, ◌&&◌, Option, none, some, List, [], ◌∷◌,
  ◌++◌, map, select, length, any, leb, ltb, if◌then◌else◌, ◌==◌, String_Eq,
}
use armin.Prelude.Results.{Result, ok, err}
use armin.Types.{ArgumentNode, ArgumentEdge, GraphSnapshot}
use armin.Text.{Unicode}
use armin.Petgraph.{StableGraph}
use armin.Tools.{EventRecord}
use armin.Store.{GraphStoreInner, StoreError, add_node, add_edge, resolve_question}
use armin.Store.Query.{recent_snapshot, open_questions}
use armin.Engine.{EngineState, Metrics, fetch_add}
use armin.Engine.Agent.{add_nodes}

pub data Signal : Type 0 where
  received : EventRecord → Signal
  elapsed : Signal

-- The loop of `run`: the batches that are processed, in order. With no batch the worker waits for an
-- event with no deadline; with one, until the batch is full, the deadline has elapsed or the channel
-- is closed.
unfoldable pub batches : ℕ → List EventRecord → List Signal → List (List EventRecord)
batches batch_events [] [] = []
batches batch_events (b ∷ batch) [] = (b ∷ batch) ∷ []
batches batch_events [] (elapsed ∷ signals) = batches batch_events [] signals
batches batch_events [] (received ev ∷ signals) = batches batch_events (ev ∷ []) signals
batches batch_events (b ∷ batch) (elapsed ∷ signals) = (b ∷ batch) ∷ batches batch_events [] signals
batches batch_events (b ∷ batch) (received ev ∷ signals) =
    elim (leb batch_events (length (b ∷ batch ++ ev ∷ []))) [
      | true ↦ (b ∷ batch ++ ev ∷ []) ∷ batches batch_events [] signals
      | false ↦ batches batch_events (b ∷ batch ++ ev ∷ []) signals
    ]

pub record ExtractionResult : Type 0 where
  pub new_nodes : List ArgumentNode
  pub new_edges : List ArgumentEdge

-- `(id, label, description)`
abbrev pub Tuple : Type 0
Tuple = String × (String × String)

abbrev pub tuple : ArgumentNode → Tuple
tuple n = (n.id, (n.label, n.description))

-- `(question, answer, reasoning)`
abbrev pub Link : Type 0
Link = String × (String × String)

module _ ⦃pg : StableGraph⦄ where
  -- the loop body for one edge, and the number of edges that were added
  abbrev pub count_edge :
      GraphStoreInner × ℕ → Result StoreError (GraphStoreInner × ℕ) → GraphStoreInner × ℕ
  count_edge (graph, edges) (ok (after, i)) = (after, edges + 1)
  count_edge (graph, edges) (err e) = (graph, edges)

  unfoldable pub add_counted : GraphStoreInner × ℕ → ArgumentEdge → GraphStoreInner × ℕ
  unfolding add_edge
  add_counted (graph, edges) edge = count_edge (graph, edges) (add_edge graph edge)

  abbrev pub count_link :
      GraphStoreInner × ℕ → Result StoreError (GraphStoreInner × ArgumentEdge) → GraphStoreInner × ℕ
  count_link (graph, added) (ok (after, edge)) = (after, added + 1)
  count_link (graph, added) (err e) = (graph, added)

  -- the loop over the proposed links, from the round `i`
  unfoldable pub add_links :
      (ℕ → String) → (ℕ → ℕ) → GraphStoreInner × ℕ → ℕ → List Link → GraphStoreInner × ℕ
  unfolding resolve_question
  add_links uuids clock s i [] = s
  add_links uuids clock (graph, added) i ((question, (answer, reasoning)) ∷ links) =
      add_links uuids clock
        (count_link (graph, added)
          (resolve_question graph (uuids i) (clock i) question answer reasoning))
        (suc i) links

  abbrev pub is_nil {ℓ} : {A : Type ℓ} → List A → Bool
  is_nil [] = true
  is_nil (x ∷ xs) = false

  -- `extractor.link_resolutions` answers for the questions and the candidates; `none` is an error
  abbrev pub Linker : Type 0
  Linker = List Tuple → List Tuple → Option (List Link)

  abbrev pub add_proposed : (ℕ → String) → (ℕ → ℕ) → EngineState → Option (List Link) → EngineState
  add_proposed uuids clock state none = state
  add_proposed uuids clock state (some links) =
      let added = add_links uuids clock (state.graph, 0) 0 links in
      record state {
        graph = added.0;
        metrics = record state.metrics {
          resolution_edges =
              if ltb 0 added.1
              then fetch_add state.metrics.resolution_edges added.1
              else state.metrics.resolution_edges;
        };
      }

  unfoldable pub link_resolutions :
      Linker → (ℕ → String) → (ℕ → ℕ) → EngineState → List Tuple → EngineState
  unfolding add_links open_questions fetch_add
  link_resolutions linker uuids clock state answers =
      let questions = open_questions state.graph 25 in
      if is_nil questions
      then state
      else add_proposed uuids clock state (linker (map tuple questions) answers)

  unfoldable pub commit_metrics : Metrics → ℕ → ℕ → ℕ → ℕ → Metrics
  unfolding fetch_add
  commit_metrics m batch nodes edges elapsed_ms = record m {
    llm_batches = fetch_add m.llm_batches 1;
    llm_events_extracted = fetch_add m.llm_events_extracted batch;
    nodes_added = fetch_add m.nodes_added nodes;
    edges_added = fetch_add m.edges_added edges;
    last_batch_size = batch;
    last_extraction_ms = elapsed_ms;
  }

  unfoldable pub commit_result :
      ⦃u : Unicode⦄
      → Linker
      → (ℕ → String)
      → (ℕ → ℕ)
      → EngineState
      → ExtractionResult
      → List EventRecord
      → ℕ
      → Bool
      → EngineState
  unfolding add_counted link_resolutions commit_metrics add_node
  commit_result linker uuids clock state result batch elapsed_ms run_linker =
      let with_nodes = add_nodes state.graph result.new_nodes in
      let with_edges = foldl add_counted (with_nodes, 0) result.new_edges in
      let committed = record state {
        graph = with_edges.0;
        metrics =
            commit_metrics state.metrics (length batch) (length result.new_nodes) with_edges.1
              (elapsed_ms % 2 ^ 64);
      } in
      if run_linker && state.config.linker && ltb 0 (length result.new_nodes) && state.has_extractor
      then link_resolutions linker uuids clock committed (map tuple result.new_nodes)
      else committed

  abbrev pub count_error : EngineState → EngineState
  count_error state = record state {
    metrics = record state.metrics {
      llm_extraction_errors = fetch_add state.metrics.llm_extraction_errors 1;
    };
  }

  -- `extract_native_batch` and `extract_batch`; `none` is an error. The latter is given the events of
  -- the log that are not in the batch.
  pub record Extractors : Type 0 where
    pub native : List EventRecord → List ArgumentNode → Option ExtractionResult
    pub generative :
        List EventRecord → GraphSnapshot → List EventRecord → Option (List ExtractionResult)
    pub linker : Linker
    -- `jev.usage()` after the call: the numbers of calls and of input tokens
    pub usage : ℕ × ℕ

  abbrev pub history_outside : List EventRecord → List EventRecord → List EventRecord
  history_outside batch = select (λ e. not (any (λ (b : EventRecord). b.id == e.id) batch))

  abbrev pub joined : List ExtractionResult → ExtractionResult
  joined [] = record { new_nodes = []; new_edges = [] }
  joined (r ∷ rs) = record {
    new_nodes = r.new_nodes ++ (joined rs).new_nodes;
    new_edges = r.new_edges ++ (joined rs).new_edges;
  }

  abbrev pub note_usage : ℕ × ℕ → EngineState → EngineState
  note_usage (calls, tokens) state = record state {
    metrics = record state.metrics { jev_calls = calls; jev_input_tokens = tokens };
  }

  abbrev pub commit_native :
      ⦃u : Unicode⦄
      → Extractors
      → (ℕ → String)
      → (ℕ → ℕ)
      → EngineState
      → List EventRecord
      → ℕ
      → Option ExtractionResult
      → EngineState
  commit_native x uuids clock state batch elapsed_ms none = count_error state
  commit_native x uuids clock state batch elapsed_ms (some result) =
      commit_result x.linker uuids clock state result batch elapsed_ms false

  unfoldable pub process_batch_jev :
      ⦃u : Unicode⦄
      → Extractors
      → (ℕ → String)
      → (ℕ → ℕ)
      → EngineState
      → List EventRecord
      → ℕ
      → EngineState
  unfolding commit_result recent_snapshot fetch_add
  process_batch_jev x uuids clock state batch elapsed_ms = note_usage x.usage (
      commit_native x uuids clock state batch elapsed_ms
        (x.native batch (recent_snapshot state.graph 50 100).nodes))

  abbrev pub commit_joined :
      ⦃u : Unicode⦄
      → Extractors
      → (ℕ → String)
      → (ℕ → ℕ)
      → EngineState
      → List EventRecord
      → ℕ
      → Option (List ExtractionResult)
      → EngineState
  commit_joined x uuids clock state batch elapsed_ms none = count_error state
  commit_joined x uuids clock state batch elapsed_ms (some per_event) =
      commit_result x.linker uuids clock state (joined per_event) batch elapsed_ms true

  unfoldable pub process_batch_llm :
      ⦃u : Unicode⦄
      → Extractors
      → (ℕ → String)
      → (ℕ → ℕ)
      → EngineState
      → List EventRecord
      → ℕ
      → EngineState
  unfolding commit_result recent_snapshot fetch_add
  process_batch_llm x uuids clock state batch elapsed_ms =
      commit_joined x uuids clock state batch elapsed_ms (
        x.generative batch (recent_snapshot state.graph 50 100)
          (history_outside batch state.event_log))

  unfoldable pub process_batch :
      ⦃u : Unicode⦄
      → Extractors
      → (ℕ → String)
      → (ℕ → ℕ)
      → EngineState
      → List EventRecord
      → ℕ
      → EngineState
  unfolding process_batch_jev process_batch_llm
  process_batch x uuids clock state batch elapsed_ms =
      if is_nil batch
      then state
      else if state.has_jev
      then process_batch_jev x uuids clock state batch elapsed_ms
      else if state.has_extractor
      then process_batch_llm x uuids clock state batch elapsed_ms
      else state
