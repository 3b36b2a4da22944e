-- ===== src/Decisions.antt =====
-- armin-core/graph/src/decisions.rs: the decisions of the graph, with their status, their grounds and
-- the work that they block. A node that `graph[i]` would not find adds no text.
pub mod Order
pub mod Status
use Prim.Native.String.{◌++◌ as concat}
use mathlib.Core.List.{foldl, flat_map, filter_map}
use armin.Prelude.{
  ℕ, String, Bool, true, false, not, ◌&&◌, Option, none, some, List, [], ◌∷◌, ◌++◌, map, take, drop,
  if◌then◌else◌, ◌==◌, String_Eq,
}
use armin.Prelude.Sorted.{sort_desc}
use armin.Types.{ArgumentNode, EdgeType, NodeType, NodeStatus, NodeType_Eq, NodeStatus_Eq}
use armin.Text.Sessions.{session_short_name}
use armin.Petgraph.{StableGraph, Direction, EdgeReference, weight}
use armin.Store.{GraphStoreInner}
use armin.Store.Walk.{related_targets, downstream}
use armin.Summary.{sort}

pub record Decision : Type 0 where
  pub id : String
  pub label : String
  pub rationale : String
  pub status : String
  pub owner : Option String
  pub session_id : String
  pub timestamp : ℕ
  pub blocked_work : List String
  pub validation_criteria : List String

-- what the loop over the incoming edges collects
pub record Grounds : Type 0 where
  pub has_support : Bool
  pub has_contradiction : Bool
  pub is_superseded : Bool
  pub rationale_parts : List String

-- what the loop over the outgoing edges collects
pub record Outcome : Type 0 where
  pub has_resolution : Bool
  pub validation_criteria : List String
  pub blocked_work : List String

abbrev pub no_grounds : Grounds
no_grounds = record {
  has_support = false;
  has_contradiction = false;
  is_superseded = false;
  rationale_parts = [];
}

abbrev pub no_outcome : Outcome
no_outcome = record { has_resolution = false; validation_criteria = []; blocked_work = [] }

-- `Vec::dedup`
unfoldable pub dedup : List String → List String
dedup [] = []
dedup (x ∷ []) = x ∷ []
dedup (x ∷ y ∷ l) = let rest = dedup (y ∷ l) in if x == y then rest else x ∷ rest

-- `join("; ")`
unfoldable pub join_parts : List String → String
join_parts [] = ""
join_parts (x ∷ []) = x
join_parts (x ∷ y ∷ l) = concat x (concat "; " (join_parts (y ∷ l)))

-- `format!("{word} by {} ({}): {}", ..)` for the source of an edge
unfoldable pub by_source : List String → String → Option ArgumentNode → String → List String
unfolding session_short_name
by_source order word none reasoning = []
by_source order word (some src) reasoning =
    concat word (
      concat " by " (
        concat src.agent_id (
          concat " (" (concat (session_short_name order src.session_id) (concat "): " reasoning)))))
    ∷ []

-- the status, from the first test that holds
unfoldable pub status_of : Grounds → Outcome → String
status_of g o =
    if g.is_superseded
    then "Superseded"
    else if g.has_support && o.has_resolution
    then "Validated"
    else if g.has_contradiction && not o.has_resolution
    then "Blocked"
    else "Pending"

unfoldable pub rationale_of : List String → ArgumentNode → List String → String
unfolding join_parts session_short_name
rationale_of order n [] = concat "Decision made by " (
    concat n.agent_id
      (concat " in " (concat (session_short_name order n.session_id) (concat ": " n.description))))
rationale_of order n (p ∷ parts) = join_parts (p ∷ parts)

abbrev pub owner_of : ArgumentNode → Option String
owner_of n = if n.agent_id == "" then none else some n.agent_id

module _ ⦃pg : StableGraph⦄ where
  -- the first loop's body
  abbrev pub see_typed : List String → Grounds → EdgeType → Option ArgumentNode → String → Grounds
  see_typed order g EdgeType.relates_to src reasoning = record g {
    has_support = true;
    rationale_parts = g.rationale_parts ++ by_source order "Grounded" src reasoning;
  }
  see_typed order g EdgeType.refutes src reasoning = record g {
    has_contradiction = true;
    rationale_parts = g.rationale_parts ++ by_source order "Refuted" src reasoning;
  }
  see_typed order g EdgeType.supersedes src reasoning = record g {
    is_superseded = true;
    rationale_parts = g.rationale_parts ++ by_source order "Superseded" src reasoning;
  }
  see_typed order g EdgeType.resolves src reasoning = g

  unfoldable pub see_incoming : GraphStoreInner → Grounds → EdgeReference → Grounds
  unfolding by_source
  see_incoming s g r =
      see_typed s.session_order g r.weight.edge_type (weight s.graph r.source) r.weight.reasoning

  abbrev pub criterion : Option ArgumentNode → List String
  criterion none = []
  criterion (some tgt) =
      if tgt.node_type == NodeType.open_item
      then concat "Resolves open item: " tgt.label ∷ []
      else []

  abbrev pub label_of : Option ArgumentNode → List String
  label_of none = []
  label_of (some tgt) = tgt.label ∷ []

  -- the second loop's body
  abbrev pub see_target : Outcome → EdgeType → Option ArgumentNode → Outcome
  see_target o EdgeType.resolves tgt = record o {
    has_resolution = true;
    validation_criteria = o.validation_criteria ++ criterion tgt;
  }
  see_target o EdgeType.relates_to tgt = record o { blocked_work = o.blocked_work ++ label_of tgt }
  see_target o EdgeType.refutes tgt = o
  see_target o EdgeType.supersedes tgt = o

  unfoldable pub see_outgoing : GraphStoreInner → Outcome → EdgeReference → Outcome
  see_outgoing s o r = see_target o r.weight.edge_type (weight s.graph r.target)

  abbrev pub open_label : Option ArgumentNode → List String
  open_label none = []
  open_label (some n) = if n.node_type == NodeType.open_item then n.label ∷ [] else []

  abbrev pub behind_start : Option (List ℕ) → List ℕ
  behind_start none = []
  behind_start (some visited) = drop 1 visited

  unfoldable pub collect_downstream_supported : GraphStoreInner → ℕ → ℕ → List String
  unfolding downstream flat_map
  collect_downstream_supported s start depth =
      flat_map (λ i. open_label (weight s.graph i))
        (behind_start (downstream s.graph (related_targets s.graph) start depth))

  unfoldable pub grounds_of : GraphStoreInner → ℕ → Grounds
  unfolding see_incoming
  grounds_of s i =
      foldl (see_incoming s) no_grounds (pg.edges_directed s.graph Direction.incoming i)

  unfoldable pub outcome_of : GraphStoreInner → ℕ → Outcome
  unfolding see_outgoing
  outcome_of s i =
      foldl (see_outgoing s) no_outcome (pg.edges_directed s.graph Direction.outgoing i)

  -- the loop's body for a node that is not skipped
  unfoldable pub decision_of : GraphStoreInner → ℕ → ArgumentNode → Decision
  unfolding grounds_of outcome_of collect_downstream_supported status_of rationale_of dedup sort
  decision_of s i n =
      let g = grounds_of s i in
      let o = outcome_of s i in
      record {
        id = n.id;
        label = n.label;
        rationale = rationale_of s.session_order n g.rationale_parts;
        status = status_of g o;
        owner = owner_of n;
        session_id = n.session_id;
        timestamp = n.timestamp;
        blocked_work =
            take 10 (dedup (sort (o.blocked_work ++ collect_downstream_supported s i 2)));
        validation_criteria = o.validation_criteria;
      }

  unfoldable pub decisions_at : GraphStoreInner → ℕ × ArgumentNode → List Decision
  unfolding decision_of
  decisions_at s (i, n) =
      if n.node_type == NodeType.decision && not (n.status == NodeStatus.invalidated)
      then decision_of s i n ∷ []
      else []

  unfoldable pub extract_decisions : GraphStoreInner → List Decision
  unfolding decisions_at sort_desc flat_map
  extract_decisions s =
      sort_desc (λ (d : Decision). d.timestamp)
        (flat_map (decisions_at s) (pg.node_references s.graph))
