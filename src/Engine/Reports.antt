-- ===== src/Engine/Reports.antt =====
-- armin-core/engine/src/routes.rs: the handlers that read the graph and report on it, and the two
-- that add one node or one edge. The clock is an argument.
use armin.Prelude.{
  true, String, ap, ◌∙◌, refl, zero, suc, unique, arith, String_Eq, ℕ, ◌≡◌, ◌≢◌, ◌-◌, inl, inr,
  Option, none, some, List, [], ltb, if◌then◌else◌,
}
use armin.Prelude.Results.{Result, ok, err}
use armin.Types.{ArgumentNode, ArgumentEdge, GraphSnapshot}
use armin.Text.{Unicode}
use armin.Text.Sessions.{
  session_index, session_index-get_elem?, get_elem?-before, session_id_at_index,
  get_elem?-session_index,
}
use armin.Petgraph.{StableGraph}
use armin.Store.{GraphStoreInner, StoreError}
use armin.Store as Store
use armin.Store.Query.{snapshot_at_time, recent_touching}
use armin.Store.Query as Query
use armin.Diff.{GraphDiff, compute_diff}
use armin.Decisions.{Decision, extract_decisions}
use armin.Risks.{Risk, compute_risks}
use armin.Summary.Executive.{ExecutiveSummary, compute_summary, or_unknown}
use armin.Engine.{EngineState}
use armin.Engine.Agent.{unwrap_or}
use armin.Engine.Ready.{IsReady}

module _ ⦃pg : StableGraph⦄ where
  unfoldable pub snapshot : EngineState → Option ℕ → GraphSnapshot
  unfolding snapshot_at_time Query.snapshot
  snapshot state none = Query.snapshot state.graph
  snapshot state (some t) = snapshot_at_time state.graph t

  unfoldable pub recent : EngineState → Option ℕ → Option ℕ → GraphSnapshot
  unfolding recent_touching
  recent state nodes edges = recent_touching state.graph (unwrap_or nodes 50) (unwrap_or edges 100)

  unfoldable pub add_node : ⦃u : Unicode⦄ → EngineState → ArgumentNode → EngineState
  unfolding Store.add_node
  add_node state node = record state { graph = (Store.add_node state.graph node).0 }

  abbrev pub edge_added :
      EngineState
      → Result StoreError (GraphStoreInner × ℕ)
      → EngineState × Result StoreError (Unit {0})
  edge_added state (ok (graph, i)) = (record state { graph = graph }, ok tt)
  edge_added state (err e) = (state, err e)

  unfoldable pub add_edge : EngineState → ArgumentEdge → EngineState × Result StoreError (Unit {0})
  unfolding Store.add_edge
  add_edge state edge = edge_added state (Store.add_edge state.graph edge)

  unfoldable pub decisions : EngineState → List Decision
  unfolding extract_decisions
  decisions state = extract_decisions state.graph

  unfoldable pub risks : EngineState → ℕ → List Risk
  unfolding compute_risks
  risks state now = compute_risks state.graph state.current_session_idx now

  unfoldable pub summary : EngineState → ℕ → ExecutiveSummary
  unfolding compute_summary
  summary state now = compute_summary state.graph state.current_session_idx state.prior_debt now

  unfoldable pub diff : EngineState → ℕ → ℕ → GraphDiff
  unfolding compute_diff
  diff state from to = compute_diff state.graph from to

  -- the session before a position, as the summary looks it up
  abbrev before : List String → ℕ → Option String
  before order i = if ltb 0 i then session_id_at_index order (i - 1) else none

  before-session_index :
      (order : List String) (i : ℕ) (x p : String)
      → unique order ≡ true
      → session_index order x ≡ some i
      → before order i ≡ some p
      → (j : ℕ) × (session_index order p ≡ some j) × (i ≡ suc j)
  before-session_index order zero x p u at e = cc
  before-session_index order (suc j) x p u at e =
      (j, session_index-get_elem? order p j u (ground (arith, e)), refl)

  before-none :
      (order : List String) (i : ℕ) (x : String)
      → session_index order x ≡ some i
      → before order i ≡ none
      → i ≡ 0
  before-none order zero x at e = refl
  before-none order (suc j) x at e =
      ground (arith, e, get_elem?-before order j, get_elem?-session_index order x (suc j) at)

  -- Once a session has been seen, the summary of an engine that is ready names the current session.
  -- The prior session that it names stands directly before the current one in the graph's list, and
  -- it names none only if the current one is the first.
  summary-current :
      (state : EngineState) (now : ℕ)
      → IsReady state
      → state.sessions ≢ []
      → let report = summary state now in
        let order = state.graph.session_order in
        (report.session_id ≡ state.current_session_id)
        × ((prior : String)
            → report.prior_session_id ≡ some prior
            → (j : ℕ) × (session_index order prior ≡ some j)
              × (session_index order state.current_session_id ≡ some (suc j)))
        × (report.prior_session_id ≡ none → session_index order state.current_session_id ≡ some 0)
  unfolding summary compute_summary
  summary-current state now h seen = elim h.current [
    | inl none_yet ↦ absurd (seen none_yet)
    | inr at ↦
        let order = state.graph.session_order in
        (
          ap or_unknown
              (get_elem?-session_index order state.current_session_id state.current_session_idx at),
          λ prior e.
              let (j, there, next) =
                before-session_index order state.current_session_idx state.current_session_id prior
                  h.graph.sessions_unique at e in
              (j, there, at ∙ ap some next),
          λ e.
              at
              ∙ ap some (before-none order state.current_session_idx state.current_session_id at e),
        )
  ]
