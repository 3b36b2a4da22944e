-- ===== src/Risks.antt =====
-- armin-core/graph/src/risks.rs: the nodes that the debt report names, ranked by their impact.
-- The impact, an `f32`, is a sum of whole numbers: 15 for each of at most four nodes downstream, and
-- the bonus. `clamp` and `round` keep it.
pub mod Ranking
use mathlib.Core.List.{foldl}
use armin.Prelude.{
  ℕ, ◌+◌, ◌-◌, ◌*◌, String, Bool, true, false, Option, none, some, List, [], ◌∷◌, ◌++◌, drop,
  length, lookup, contains, leb, ltb, if◌then◌else◌, ◌==◌, String_Eq,
}
use armin.Prelude.Sorted.{sort_desc}
use armin.Types.{ArgumentNode}
use armin.Types.Scratch.{DebtItem, DebtReport}
use armin.Text.Sessions.{session_index}
use armin.Petgraph.{StableGraph, weight}
use armin.Store.{GraphStoreInner}
use armin.Store.Walk.{all_targets, downstream}
use armin.Debt.{compute_debt}

pub record Risk : Type 0 where
  pub node_id : String
  pub label : String
  pub impact_score : ℕ
  pub validation_status : String
  pub debt_type : String
  pub session_id : String

-- the set of seen identifiers, and the results
pub record Ranked : Type 0 where
  pub seen_nodes : List String
  pub results : List Risk

-- for the session's position and the current one
abbrev pub recency_bonus : Option ℕ → ℕ → ℕ
recency_bonus none current = 0
recency_bonus (some si) current = if leb (current - 1) si then 20 else 5

abbrev pub at_most : ℕ → ℕ → ℕ
at_most m n = if ltb m n then m else n

-- `clamp(5.0, 100.0)`
abbrev pub clamped : ℕ → ℕ
clamped n = if ltb n 5 then 5 else at_most 100 n

unfoldable pub impact : ℕ → ℕ → ℕ
impact downstream bonus = clamped (15 * at_most 4 downstream + bonus)

unfoldable pub validation_status_of : String → String
validation_status_of debt_type =
    if debt_type == "UnsupportedClaim" then "Partial" else "Unvalidated"

module _ ⦃pg : StableGraph⦄ where
  abbrev pub count_visited : Option (List ℕ) → ℕ
  count_visited none = 0
  count_visited (some visited) = length (drop 1 visited)

  unfoldable pub bfs_downstream_count : GraphStoreInner → ℕ → ℕ → ℕ
  unfolding downstream
  bfs_downstream_count s start depth =
      count_visited (downstream s.graph (all_targets s.graph) start depth)

  unfoldable pub risk_of : GraphStoreInner → ℕ → DebtItem → ℕ → ArgumentNode → Risk
  unfolding bfs_downstream_count impact validation_status_of session_index
  risk_of s current item i n = record {
    node_id = n.id;
    label = n.label;
    impact_score =
        impact (bfs_downstream_count s i 3)
          (recency_bonus (session_index s.session_order n.session_id) current);
    validation_status = validation_status_of item.debt_type;
    debt_type = item.debt_type;
    session_id = n.session_id;
  }

  -- `continue` for an identifier that is not there
  abbrev pub risk_at : GraphStoreInner → ℕ → DebtItem → Option ℕ → List Risk
  risk_at s current item none = []
  risk_at s current item (some i) = elim (weight s.graph i) [
    | none ↦ []
    | some n ↦ risk_of s current item i n ∷ []
  ]

  -- the inner loop's body
  unfoldable pub rank_node : GraphStoreInner → ℕ → DebtItem → Ranked → String → Ranked
  unfolding risk_of
  rank_node s current item ranked node_id =
      if contains node_id ranked.seen_nodes then ranked else record {
        seen_nodes = node_id ∷ ranked.seen_nodes;
        results = ranked.results ++ risk_at s current item (lookup node_id s.id_to_node);
      }

  -- the outer loop's body
  unfoldable pub rank_item : GraphStoreInner → ℕ → Ranked → DebtItem → Ranked
  unfolding rank_node
  rank_item s current ranked item = foldl (rank_node s current item) ranked item.node_ids

  unfoldable pub compute_risks_from_debt : GraphStoreInner → ℕ → DebtReport → List Risk
  unfolding rank_item sort_desc
  compute_risks_from_debt s current debt =
      sort_desc (λ (r : Risk). r.impact_score)
        (foldl (rank_item s current) (record { seen_nodes = []; results = [] }) debt.items).results

  unfoldable pub compute_risks : GraphStoreInner → ℕ → ℕ → List Risk
  unfolding compute_debt compute_risks_from_debt
  compute_risks s current now = compute_risks_from_debt s current (compute_debt s current now none)
