-- ===== src/Engine/Agent/Settles.antt =====
-- armin-core/engine/src/routes.rs, `agent_decision`: the open items that a decision resolves.
use mathlib.Core.List.{map-append}
use armin.Prelude.{
  ℕ, suc, ◌≤◌, ◌≡◌, ◌≢◌, refl, sym, inl, inr, String, true, false, List, [], ◌∷◌, contains,
  contains-append, is_some, lookup, arith, String_Eq, ℕ_Eq, eq_iff, Bool-cases, Option-cases,
}
use armin.Types.{ArgumentNode, ArgumentEdge}
use armin.Text.{Unicode}
use armin.Petgraph.{StableGraph}
use armin.Store.{GraphStoreInner, add_node, insert_node, get_node, resolve_question, resolves_edge}
use armin.Store.Consistent.{IsConsistent, edge_names}
use armin.Store.Query.OpenQuestions.{IsUnresolved}
use armin.Store.Writes.Edges.{HasEdge, edge_names-all_edges}
use armin.Store.Writes.Nodes.{add_node-IsConsistent, get_node-add_node}
use armin.Store.Writes.Resolve.{resolve_question_lem}
use armin.Store.Writes.Runs.{resolve_question-add_edge, added_edge-HasEdge}
use armin.Engine.{EngineState}
use armin.Engine.Agent.{
  AgentDecisionRequest, decision_node, linked, resolve_all, reasoning_at, agent_decision,
}

module _ ⦃pg : StableGraph⦄ where
  -- the edge identifiers after an edge is added
  contains-HasEdge :
      (s t : GraphStoreInner) (e : ArgumentEdge) (id : String)
      → HasEdge s e t
      → contains id (edge_names s) ≡ false
      → e.id ≢ id
      → contains id (edge_names t) ≡ false
  contains-HasEdge s t e id has fresh other =
      rw (edge_names-all_edges (pg.edge_references t.graph), has.edges)
        (elim (Bool-cases (contains e.id (edge_names s))) [
          | inl known ↦ rw (known, ← edge_names-all_edges (pg.edge_references s.graph)) fresh
          | inr new ↦
              rw (new, map-append, ← edge_names-all_edges (pg.edge_references s.graph))
                (ground (
                  arith,
                  contains-append id (edge_names s) (e.id ∷ []),
                  fresh,
                  eq_iff e.id id,
                  other,
                ))
        ])

module _ ⦃pg : StableGraph⦄ ⦃u : Unicode⦄ (uuids : ℕ → String)
    (distinct : (i j : ℕ) → uuids i ≡ uuids j → i ≡ j) where
  edge_names-add_node :
      (s : GraphStoreInner) (n : ArgumentNode) → edge_names (add_node s n).0 ≡ edge_names s
  unfolding add_node insert_node
  edge_names-add_node s n = elim (Option-cases (lookup n.id s.id_to_node)) [
    | inr (i, e) ↦ rw (e, add_node) refl
    | inl e ↦ rw (e, add_node, pg.edges-add_node) refl
  ]

  -- no identifier from the round `i` on is in use
  abbrev pub IsFresh : GraphStoreInner → ℕ → Type 0
  IsFresh s i = (j : ℕ) → i ≤ j → contains (uuids j) (edge_names s) ≡ false

  -- the store after a round: an item that is still open was open, and is not the target
  record Settles (s t : GraphStoreInner) (target : String) (i : ℕ) : Type 0 where
    consistent : IsConsistent t
    nodes : (id : String) → get_node t id ≡ get_node s id
    shrinks : (n : ArgumentNode) → IsUnresolved t n → IsUnresolved s n × (n.id ≢ target)
    fresh : IsFresh t (suc i)

  round-Settles :
      (s : GraphStoreInner) (ids : List String) (i now : ℕ) (target node_id reasoning : String)
      → IsConsistent s
      → is_some (get_node s node_id) ≡ true
      → IsFresh s i
      → Settles s
          (linked s ids (resolve_question s (uuids i) now target node_id reasoning)).0
          target
          i
  round-Settles s ids i now target node_id reasoning h there fresh =
      elim (resolve_question_lem s h (uuids i) now target node_id reasoning
        (fresh i (omega arith))) [
          | inl (missing, fails) ↦ rw fails record {
            consistent = h;
            nodes = λ id. refl;
            shrinks = λ n open_one. (open_one, λ same. cc (open_one.there, missing, same));
            fresh = λ j le. fresh j (omega arith);
          }
          | inr (inl (_, missing, _)) ↦ absurd (ground (arith, missing, there))
          | inr (inr (_, _, (t, done, k, same, rest))) ↦
              let (index, added) =
                resolve_question-add_edge s t (uuids i) now target node_id reasoning _ done in
              let has =
                added_edge-HasEdge s t (resolves_edge (uuids i) now target node_id reasoning) index
                  h added in
              rw done record {
                consistent = k;
                nodes = same;
                shrinks = λ n open_one. (rest n).0 open_one;
                fresh = λ j le.
                    contains-HasEdge s t (resolves_edge (uuids i) now target node_id reasoning)
                      (uuids j) has (fresh j (omega arith))
                      (λ e. let same_round = distinct i j e in omega arith);
              }
        ]

  resolve_all-shrinks :
      (req : AgentDecisionRequest) (node_id : String) (clock : ℕ → ℕ) (s : GraphStoreInner)
      (ids : List String) (i : ℕ) (targets : List String)
      → IsConsistent s
      → is_some (get_node s node_id) ≡ true
      → IsFresh s i
      → (n : ArgumentNode) → IsUnresolved (resolve_all req node_id uuids clock s ids i targets).0 n
      → IsUnresolved s n × (contains n.id targets ≡ false)
  unfolding resolve_all
  resolve_all-shrinks req node_id clock s ids i [] h there fresh n left = (left, refl)
  resolve_all-shrinks req node_id clock s ids i (target ∷ targets) h there fresh n left =
      let reasoning = reasoning_at req i in
      let round = linked s ids (resolve_question s (uuids i) (clock i) target node_id reasoning) in
      let step = round-Settles s ids i (clock i) target node_id reasoning h there fresh in
      let (rest, other) =
        resolve_all-shrinks req node_id clock round.0 round.1 (suc i) targets step.consistent
          (rw (step.nodes node_id) there) step.fresh n left in
      let (before, not_this) = step.shrinks n rest in
      (before, ground (arith, other, eq_iff target n.id, λ (e : target ≡ n.id). not_this (sym e)))

  -- In a consistent graph, and with identifiers for the new edges that are distinct and not in use, a
  -- decision leaves no item open that it names as resolved.
  pub agent_decision-IsUnresolved :
      (state : EngineState) (req : AgentDecisionRequest) (node_id event_id : String) (now : ℕ)
      (clock : ℕ → ℕ)
      → IsConsistent state.graph
      → IsFresh state.graph 0
      → (n : ArgumentNode)
      → IsUnresolved (agent_decision state req node_id event_id now uuids clock).0.graph n
      → contains n.id req.resolves ≡ false
  unfolding agent_decision
  agent_decision-IsUnresolved state req node_id event_id now clock h fresh n left =
      let node = decision_node req node_id event_id now in
      let there = get_node-add_node state.graph h node node_id in
      (resolve_all-shrinks req node_id clock (add_node state.graph node).0 [] 0 req.resolves
        (add_node-IsConsistent state.graph h node) (ground (arith, there, eq_iff node_id node_id))
        (λ j le. rw (edge_names-add_node state.graph node) (fresh j le)) n left).1
