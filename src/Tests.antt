-- ===== src/Tests.antt =====
-- The theorems at concrete inputs: a small store, a small scratch, two snapshots.
mod Reports
mod Running
mod Reading
mod Ranking
mod Encoding
mod Durable
mod Judging
use Prim.Native.Char.{code}
use mathlib.Core.List.{flat_map}
use armin.Prelude.{
  ℕ, ◌++◌, ◌≡◌, ◌≢◌, ◌↔◌, ◌⊎◌, ◌≤◌, ◌<◌, refl, String, true, false, not, ◌||◌, none, some, List, [],
  ◌∷◌, Memᴰ, reverse, take, length, arith, insert, contains, is_some, if◌then◌else◌, ◌==◌,
  String_Eq, ℕ_Eq, leb, ◌&&◌,
}
use armin.Prelude.Results.{ok, err}
use armin.Types.{
  ArgumentNode, ArgumentEdge, GraphSnapshot, NodeType, NodeStatus, EdgeType, EdgeProvenance,
}
use armin.Types.Scratch.{ScratchEdit, ScratchCheck}
use armin.Petgraph.{StableGraph, EdgeReference, weight}
use armin.Petgraph.Listed.{listed}
use armin.Text.{Unicode}
use armin.Text.Sessions.{session_index, session_id_at_index}
use armin.Store.{
  GraphStoreInner, new, add_node, insert_node, add_edge, get_node, invalidate_node,
  resolve_question, resolves_edge, register_session, source_not_found, target_not_found,
  node_not_found, question_not_found, resolver_not_found,
}
use armin.Store.Query.{all_nodes, has_id, is_resolved, open_question, open_questions}
use armin.Store.Query.OpenQuestions.{IsUnresolved, found, open_questions_iff}
use armin.Store.Consistent.{IsConsistent, new-IsConsistent, edge_names}
use armin.Store.Writes.Nodes.{add_node-IsConsistent, get_node-add_node, invalidate_node_lem, dead}
use armin.Store.Writes.Edges.{HasEdge, add_edge_lem}
use armin.Store.Writes.Resolve.{resolve_question_lem}
use armin.Store.Writes.Runs.{Run, here, next, added_node, Ages, Run-IsConsistent, Run-Ages}
use armin.Store.Writes.Sessions.{Run-session_index}
use armin.Store.Bfs.{seed_indices, bfs_subgraph}
use armin.Store.Bfs.Reach.{Within, bfs_subgraph-nodes, bfs_subgraph-edges}
use armin.Diff.{has_edge_id, compute_graph_diff, compute_diff}
use armin.Diff.Patch.{compute_graph_diff-patch}
use armin.Diff.Time.{compute_diff-forward}
use armin.Scratch.{empty, record_edit, record_check, push, snapshot, Entry, edited, checked, run}
use armin.Scratch.Bounds.{IsBounded, run-IsBounded}
use armin.Scratch.Reads.{last_n, is_evicted, no_snapshot, snapshot-record_edit}

-- plain ASCII text in lower case
instance abbrev pub ascii : Unicode
ascii = record {
  is_whitespace = λ c. code c == 32;
  is_alphanumeric = λ c. leb 48 (code c) && leb (code c) 57 || leb 97 (code c) && leb (code c) 122;
  to_lowercase = λ t. t;
}

abbrev pub node : String → NodeType → ℕ → ArgumentNode
node id kind time = record {
  id = id;
  node_type = kind;
  label = id;
  description = "cache or not";
  event_id = "event-1";
  agent_id = "claude";
  session_id = "monday";
  timestamp = time;
  confidence = 9000;
  files = "src/cache.rs" ∷ [];
  commit = none;
  mention_count = 1;
  status = NodeStatus.active;
}

abbrev pub question : ArgumentNode
question = node "question" NodeType.open_item 10

abbrev pub answer : ArgumentNode
answer = node "answer" NodeType.decision 20

abbrev pub relates : ArgumentEdge
relates = record {
  id = "relates";
  edge_type = EdgeType.relates_to;
  source_node_id = "answer";
  target_node_id = "question";
  reasoning = "the answer is about the question";
  timestamp = 20;
  evidence_score = none;
  provenance = EdgeProvenance.extracted;
}

-- the question alone, and with its answer
abbrev pub asked : GraphStoreInner
asked = (add_node new question).0

abbrev pub answered : GraphStoreInner
answered = (add_node asked answer).0

pub asked-IsConsistent : IsConsistent asked
asked-IsConsistent = add_node-IsConsistent new new-IsConsistent question

pub answered-IsConsistent : IsConsistent answered
answered-IsConsistent = add_node-IsConsistent asked asked-IsConsistent answer

get_question : get_node asked "question" ≡ some question
unfolding get_node add_node insert_node insert
get_question = refl

two_steps : Run new answered
two_steps = next (next here (added_node question refl)) (added_node answer refl)

one_step : Run asked answered
one_step = next here (added_node answer refl)

pub monday_first : session_index asked.session_order "monday" ≡ some 0
unfolding add_node insert_node insert session_index
monday_first = refl

few_questions : length (found answered (reverse answered.node_order)) ≤ 5
unfolding add_node insert_node insert open_question is_resolved flat_map
few_questions = omega arith

new_edge : contains "uuid" (edge_names answered) ≡ false
unfolding add_node insert_node insert
new_edge = refl

Run-IsConsistent_example : IsConsistent answered
Run-IsConsistent_example = Run-IsConsistent new-IsConsistent two_steps

Run-Ages_example : (m : ArgumentNode) × (get_node answered "question" ≡ some m) × Ages question m
Run-Ages_example = Run-Ages "question" question asked-IsConsistent one_step get_question

Run-session_index_example : session_index answered.session_order "monday" ≡ some 0
Run-session_index_example = Run-session_index "monday" 0 asked-IsConsistent one_step monday_first

open_questions_iff_example :
    Memᴰ question (open_questions answered 5) ↔ IsUnresolved answered question
open_questions_iff_example =
    open_questions_iff answered answered-IsConsistent 5 question few_questions

resolve_question_example :
    (get_node answered "question" ≡ none)
      × (resolve_question answered "uuid" 30 "question" "answer" "done"
          ≡ err (question_not_found "question"))
    ⊎ (is_some (get_node answered "question") ≡ true)
      × (get_node answered "answer" ≡ none)
      × (resolve_question answered "uuid" 30 "question" "answer" "done"
          ≡ err (resolver_not_found "answer"))
    ⊎ (is_some (get_node answered "question") ≡ true)
      × (is_some (get_node answered "answer") ≡ true)
      × ((t : GraphStoreInner) × (resolve_question answered "uuid" 30 "question" "answer" "done"
            ≡ ok (t, resolves_edge "uuid" 30 "question" "answer" "done"))
          × IsConsistent t
          × ((id : String) → get_node t id ≡ get_node answered id)
          × ((n : ArgumentNode)
              → IsUnresolved t n ↔ (IsUnresolved answered n × (n.id ≢ "question"))))
resolve_question_example =
    resolve_question_lem answered answered-IsConsistent "uuid" 30 "question" "answer" "done"
      new_edge

add_edge_example :
    (get_node answered "answer" ≡ none)
      × (add_edge answered relates ≡ err (source_not_found "answer"))
    ⊎ (is_some (get_node answered "answer") ≡ true)
      × (get_node answered "question" ≡ none)
      × (add_edge answered relates ≡ err (target_not_found "question"))
    ⊎ (is_some (get_node answered "answer") ≡ true)
      × (is_some (get_node answered "question") ≡ true)
      × ((t : GraphStoreInner) × (i : ℕ) × (add_edge answered relates ≡ ok (t, i))
          × HasEdge answered relates t)
add_edge_example = add_edge_lem answered answered-IsConsistent relates

invalidate_node_example :
    ((get_node asked "question" ≡ none)
      × (invalidate_node asked "question" ≡ err (node_not_found "question")))
    ⊎ (is_some (get_node asked "question") ≡ true)
      × ((t : GraphStoreInner) × (invalidate_node asked "question" ≡ ok t)
          × IsConsistent t
          × ((id : String)
              → get_node t id ≡ (
                  if "question" == id
                  then (elim (get_node asked id) [ none ↦ none | some n ↦ some (dead n) ])
                  else get_node asked id)))
invalidate_node_example = invalidate_node_lem asked asked-IsConsistent "question"

bfs_subgraph-nodes_example : Memᴰ question (bfs_subgraph answered ("answer" ∷ []) 1).nodes ↔ (
    (j : ℕ) × Within answered.graph (seed_indices answered ("answer" ∷ [])) 1 j
    × (weight answered.graph j ≡ some question))
bfs_subgraph-nodes_example = bfs_subgraph-nodes answered ("answer" ∷ []) 1 question

bfs_subgraph-edges_example : Memᴰ relates (bfs_subgraph answered ("answer" ∷ []) 1).edges ↔ (
    (r : EdgeReference) × Memᴰ r (StableGraph.edge_references listed answered.graph)
    × (r.weight ≡ relates)
    × Within answered.graph (seed_indices answered ("answer" ∷ [])) 1 r.source
    × Within answered.graph (seed_indices answered ("answer" ∷ [])) 1 r.target)
bfs_subgraph-edges_example = bfs_subgraph-edges answered ("answer" ∷ []) 1 relates

compute_diff-forward_example :
    let d = compute_diff answered 10 20 in
    (d.removed.nodes ≡ [])
    × (d.removed.edges ≡ [])
    × (d.changed ≡ [])
    × ((n : ArgumentNode)
        → Memᴰ n d.added.nodes
          ↔ (Memᴰ n (all_nodes answered) × (10 < n.timestamp) × (n.timestamp ≤ 20)))
compute_diff-forward_example =
    compute_diff-forward answered answered-IsConsistent 10 20 (omega arith)

abbrev before_answer : GraphSnapshot
before_answer = record { nodes = question ∷ []; edges = [] }

abbrev after_answer : GraphSnapshot
after_answer = record { nodes = question ∷ answer ∷ []; edges = relates ∷ [] }

compute_graph_diff-patch_example :
    let d = compute_graph_diff before_answer after_answer in
    (has_id after_answer.nodes "answer" ≡ (
      has_id before_answer.nodes "answer" && not (has_id d.removed.nodes "answer")
      || has_id d.added.nodes "answer"))
    × (has_edge_id after_answer.edges "answer" ≡ (
        has_edge_id before_answer.edges "answer" && not (has_edge_id d.removed.edges "answer")
        || has_edge_id d.added.edges "answer"))
    × ((has_id before_answer.nodes "answer" && has_id d.added.nodes "answer") ≡ false)
    × ((has_id after_answer.nodes "answer" && has_id d.removed.nodes "answer") ≡ false)
compute_graph_diff-patch_example = compute_graph_diff-patch before_answer after_answer "answer"

abbrev pub fix : ScratchEdit
fix = record { event_id = "event-2"; tool = "Edit"; files = "src/cache.rs" ∷ []; timestamp = 30 }

abbrev pub test_run : ScratchCheck
test_run = record {
  event_id = "event-3";
  tool = "cargo test";
  files = "src/cache.rs" ∷ [];
  passed = true;
  timestamp = 40;
}

abbrev pub calls : List Entry
calls = edited "monday" fix ∷ checked "monday" test_run ∷ []

abbrev monday : String
monday = "monday"

abbrev tuesday : String
tuesday = "tuesday"

pub calls-IsBounded : IsBounded (run empty calls)
calls-IsBounded = run-IsBounded calls

run-IsBounded_example : IsBounded (run empty calls)
run-IsBounded_example = run-IsBounded calls

snapshot-record_edit_example : snapshot (record_edit (run empty calls) tuesday fix) tuesday ≡ (
    if tuesday == tuesday
    then record {
      edits = last_n 100 ((snapshot (run empty calls) tuesday).edits ++ fix ∷ []);
      checks = (snapshot (run empty calls) tuesday).checks;
    }
    else if is_evicted (run empty calls) tuesday tuesday
    then no_snapshot
    else snapshot (run empty calls) tuesday)
snapshot-record_edit_example =
    snapshot-record_edit (run empty calls) tuesday fix tuesday calls-IsBounded
