-- ===== src/Engine/Worker/Commit.antt =====
-- armin-core/engine/src/worker.rs: what a processed batch does to the state.
use mathlib.Core.List.{foldl}
use armin.Prelude.{
  ℕ, suc, refl, inl, inr, String, Bool, true, false, ◌&&◌, Option, none, some, List, [], ◌∷◌, map,
  length, ltb, if◌then◌else◌,
}
use armin.Prelude.Results.{Result-cases}
use armin.Types.{ArgumentEdge}
use armin.Text.{Unicode}
use armin.Petgraph.{StableGraph}
use armin.Tools.{EventRecord}
use armin.Store.{GraphStoreInner, add_edge, resolve_question}
use armin.Store.Query.{open_questions}
use armin.Store.Writes.Runs.{Run, here, added_edge, resolved}
use armin.Engine.{EngineState}
use armin.Engine.Ready.{Run-trans, Advances, Advances-trans, at_graph}
use armin.Engine.Agent.{add_nodes}
use armin.Engine.Agent.Keeps.{one_step, add_nodes-Run}
use armin.Engine.Worker.{
  ExtractionResult, Tuple, tuple, Link, Linker, Extractors, count_edge, add_counted, count_link,
  add_links, is_nil, add_proposed, link_resolutions, commit_result, commit_native, commit_joined,
  joined, process_batch_jev, process_batch_llm, process_batch,
}

module _ ⦃pg : StableGraph⦄ ⦃u : Unicode⦄ where
  count_edge-Run :
      (s : GraphStoreInner) (k : ℕ) (e : ArgumentEdge) → Run s (count_edge (s, k) (add_edge s e)).0
  count_edge-Run s k e = elim (Result-cases (add_edge s e)) [
    | inl ((t, i), q) ↦ rw q (one_step (added_edge e i q))
    | inr (x, q) ↦ rw q here
  ]

  add_counted-Run :
      (edges : List ArgumentEdge) (s : GraphStoreInner) (k : ℕ)
      → Run s (foldl add_counted (s, k) edges).0
  unfolding add_counted
  add_counted-Run [] s k = here
  add_counted-Run (e ∷ edges) s k =
      let round = count_edge (s, k) (add_edge s e) in
      Run-trans (count_edge-Run s k e) (add_counted-Run edges round.0 round.1)

  count_link-Run :
      (s : GraphStoreInner) (k : ℕ) (uuid : String) (now : ℕ) (question resolver reasoning : String)
      → Run s (count_link (s, k) (resolve_question s uuid now question resolver reasoning)).0
  count_link-Run s k uuid now question resolver reasoning =
      elim (Result-cases (resolve_question s uuid now question resolver reasoning)) [
        | inl ((t, e), q) ↦ rw q (one_step (resolved uuid now question resolver reasoning q))
        | inr (x, q) ↦ rw q here
      ]

  add_links-Run :
      (uuids : ℕ → String) (clock : ℕ → ℕ) (links : List Link) (s : GraphStoreInner) (k i : ℕ)
      → Run s (add_links uuids clock (s, k) i links).0
  unfolding add_links
  add_links-Run uuids clock [] s k i = here
  add_links-Run uuids clock ((question, (answer, reasoning)) ∷ links) s k i =
      let round =
        count_link (s, k) (resolve_question s (uuids i) (clock i) question answer reasoning) in
      Run-trans (count_link-Run s k (uuids i) (clock i) question answer reasoning)
        (add_links-Run uuids clock links round.0 round.1 (suc i))

  add_proposed-Advances :
      (uuids : ℕ → String) (clock : ℕ → ℕ) (state : EngineState) (links : Option (List Link))
      → Advances state (add_proposed uuids clock state links)
  add_proposed-Advances uuids clock state none = at_graph here refl
  add_proposed-Advances uuids clock state (some links) =
      at_graph (add_links-Run uuids clock links state.graph 0 0) refl

  either :
      {state s t : EngineState} (b : Bool)
      → Advances state s
      → Advances state t
      → Advances state (if b then s else t)
  either true h k = h
  either false h k = k

  link_resolutions-Advances :
      (linker : Linker) (uuids : ℕ → String) (clock : ℕ → ℕ) (state : EngineState)
      (answers : List Tuple)
      → Advances state (link_resolutions linker uuids clock state answers)
  unfolding link_resolutions
  link_resolutions-Advances linker uuids clock state answers =
      either (is_nil (open_questions state.graph 25)) (at_graph here refl) (
        add_proposed-Advances uuids clock state
          (linker (map tuple (open_questions state.graph 25)) answers))

  commit_result-Advances :
      (linker : Linker) (uuids : ℕ → String) (clock : ℕ → ℕ) (state : EngineState)
      (result : ExtractionResult) (batch : List EventRecord) (elapsed_ms : ℕ) (run_linker : Bool)
      → Advances state (commit_result linker uuids clock state result batch elapsed_ms run_linker)
  unfolding commit_result
  commit_result-Advances linker uuids clock state result batch elapsed_ms run_linker =
      let run =
        Run-trans (add_nodes-Run result.new_nodes state.graph)
          (add_counted-Run result.new_edges (add_nodes state.graph result.new_nodes) 0) in
      either
        (run_linker
          && state.config.linker
          && ltb 0 (length result.new_nodes)
          && state.has_extractor)
        (Advances-trans (at_graph run refl)
          (link_resolutions-Advances linker uuids clock _ (map tuple result.new_nodes)))
        (at_graph run refl)

  process_batch_jev-Advances :
      (x : Extractors) (uuids : ℕ → String) (clock : ℕ → ℕ) (state : EngineState)
      (batch : List EventRecord) (elapsed_ms : ℕ)
      → Advances state (process_batch_jev x uuids clock state batch elapsed_ms)
  unfolding process_batch_jev
  process_batch_jev-Advances x uuids clock state batch elapsed_ms =
      Advances-trans (native (x.native batch _)) (at_graph here refl)
    where
      native :
          (r : Option ExtractionResult)
          → Advances state (commit_native x uuids clock state batch elapsed_ms r)
      native none = at_graph here refl
      native (some result) =
          commit_result-Advances x.linker uuids clock state result batch elapsed_ms false

  process_batch_llm-Advances :
      (x : Extractors) (uuids : ℕ → String) (clock : ℕ → ℕ) (state : EngineState)
      (batch : List EventRecord) (elapsed_ms : ℕ)
      → Advances state (process_batch_llm x uuids clock state batch elapsed_ms)
  unfolding process_batch_llm
  process_batch_llm-Advances x uuids clock state batch elapsed_ms =
      joined_result (x.generative batch _ _)
    where
      joined_result :
          (r : Option (List ExtractionResult))
          → Advances state (commit_joined x uuids clock state batch elapsed_ms r)
      joined_result none = at_graph here refl
      joined_result (some per_event) =
          commit_result-Advances x.linker uuids clock state (joined per_event) batch elapsed_ms true

  pub process_batch-Advances :
      (x : Extractors) (uuids : ℕ → String) (clock : ℕ → ℕ) (state : EngineState)
      (batch : List EventRecord) (elapsed_ms : ℕ)
      → Advances state (process_batch x uuids clock state batch elapsed_ms)
  unfolding process_batch
  process_batch-Advances x uuids clock state batch elapsed_ms =
      either (is_nil batch) (at_graph here refl) (
        either state.has_jev (process_batch_jev-Advances x uuids clock state batch elapsed_ms) (
          either state.has_extractor
            (process_batch_llm-Advances x uuids clock state batch elapsed_ms) (at_graph here refl)))
