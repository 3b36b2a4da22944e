-- ===== src/Diff.antt =====
-- armin-core/graph/src/diff.rs: the difference of two snapshots, and `compute_diff` of store.rs.
-- A hash map over the nodes is an association list; its order of iteration is that of the list.
pub mod Patch
pub mod Time
use mathlib.Core.List.{foldl, flat_map}
use armin.Prelude.{
  ℕ, ◌+◌, ◌-◌, ◌≡◌, String, Bool, not, Option, none, some, List, [], ◌∷◌, ◌++◌, any, select, lookup,
  insert, ltb, if◌then◌else◌, ◌==◌, String_Eq, ℕ_Eq,
}
use armin.Types.{ArgumentNode, ArgumentEdge, GraphSnapshot, NodeType_Eq}
use armin.Petgraph.{StableGraph}
use armin.Store.{GraphStoreInner}
use armin.Store.Query.{has_id, snapshot_at_time}

pub record ChangedNode : Type 0 where
  pub node_id : String
  pub fields : List String

pub record GraphDiff : Type 0 where
  pub added : GraphSnapshot
  pub removed : GraphSnapshot
  pub changed : List ChangedNode

-- `edges.contains_key(id)`
abbrev pub has_edge_id : List ArgumentEdge → String → Bool
has_edge_id edges id = any (λ (e : ArgumentEdge). e.id == id) edges

-- the map from identifier to node, in which a later node replaces an earlier one
unfoldable pub by_id :
    List (String × ArgumentNode) → List ArgumentNode → List (String × ArgumentNode)
by_id m [] = m
by_id m (n ∷ nodes) = by_id (insert n.id n m) nodes

-- `if test { fields.push(name) }`
abbrev pub flag : Bool → String → List String
flag b name = if b then name ∷ [] else []

-- `|a - b| > 0.01`, in ten-thousandths
abbrev pub far_apart : ℕ → ℕ → Bool
far_apart a b = ltb 100 ((a - b) + (b - a))

unfoldable pub changed_fields : ArgumentNode → ArgumentNode → List String
changed_fields before after =
    flag (not (before.label == after.label)) "label"
    ++ flag (not (before.description == after.description)) "description"
    ++ flag (not (before.node_type == after.node_type)) "node_type"
    ++ flag (not (before.agent_id == after.agent_id)) "agent_id"
    ++ flag (far_apart before.confidence after.confidence) "confidence"

-- `if !fields.is_empty() { changed.push(..) }`
abbrev pub report : String → List String → List ChangedNode
report id [] = []
report id (f ∷ fields) = record { node_id = id; fields = f ∷ fields } ∷ []

-- the body of the loop over the map of the later nodes
unfoldable pub changed_at : List (String × ArgumentNode) → String × ArgumentNode → List ChangedNode
unfolding changed_fields
changed_at before (id, after) = elim (lookup id before) [
  | none ↦ []
  | some b ↦ report id (changed_fields b after)
]

unfoldable pub compute_graph_diff : GraphSnapshot → GraphSnapshot → GraphDiff
unfolding by_id changed_at flat_map
compute_graph_diff before after = record {
  added = record {
    nodes = select (λ n. not (has_id before.nodes n.id)) after.nodes;
    edges = select (λ e. not (has_edge_id before.edges e.id)) after.edges;
  };
  removed = record {
    nodes = select (λ n. not (has_id after.nodes n.id)) before.nodes;
    edges = select (λ e. not (has_edge_id after.edges e.id)) before.edges;
  };
  changed = flat_map (changed_at (by_id [] before.nodes)) (by_id [] after.nodes);
}

unfoldable pub compute_diff : ⦃pg : StableGraph⦄ → GraphStoreInner → ℕ → ℕ → GraphDiff
unfolding compute_graph_diff snapshot_at_time
compute_diff s from_time to_time =
    compute_graph_diff (snapshot_at_time s from_time) (snapshot_at_time s to_time)
