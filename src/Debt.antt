-- ===== src/Debt.antt =====
-- armin-core/graph/src/debt.rs: what the store and a session's scratch leave undone.
-- The latest checks are a hash map: an association list, whose order of iteration is that of the list.
pub mod Unresolved
pub mod Checks
pub mod Failures
pub mod Changes
use Prim.Native.String.{◌++◌ as concat}
use mathlib.Core.List.{foldl, flat_map}
use armin.Prelude.{
  ℕ, ◌+◌, ◌-◌, String, Bool, true, false, not, ◌&&◌, ◌||◌, Option, none, some, List, [], ◌∷◌, ◌++◌,
  map, any, select, lookup, insert, contains, take, leb, if◌then◌else◌, ◌==◌, String_Eq, ℕ_Eq,
}
use armin.Types.{
  ArgumentNode, EdgeType, NodeType, NodeStatus, EdgeType_Eq, NodeType_Eq, NodeStatus_Eq,
}
use armin.Types.Scratch.{ScratchEdit, ScratchCheck, ScratchSnapshot, DebtItem, DebtReport}
use armin.Text.Sessions.{session_index}
use armin.Petgraph.{StableGraph, Direction}
use armin.Store.{GraphStoreInner}
use armin.Store.Query.{is_resolved}

unfoldable pub severity_score : String → ℕ
severity_score severity = if severity == "High" then 3 else if severity == "Medium" then 2 else 1

abbrev pub files_overlap : List String → List String → Bool
files_overlap a b = any (λ f. contains f b) a

abbrev pub is_empty {ℓ} : {A : Type ℓ} → List A → Bool
is_empty [] = true
is_empty (x ∷ xs) = false

-- `join(", ")`
unfoldable pub join : List String → String
join [] = ""
join (x ∷ []) = x
join (x ∷ y ∷ xs) = concat x (concat ", " (join (y ∷ xs)))

abbrev pub age_of : List String → ℕ → String → ℕ
age_of order current sid = elim (session_index order sid) [ none ↦ 0 | some m ↦ current - m ]

abbrev pub unresolved_item : List String → ℕ → ArgumentNode → DebtItem
unresolved_item order current n = record {
  debt_type = "UnresolvedOpenItem";
  node_ids = n.id ∷ [];
  description =
      concat "Open item '"
        (concat n.label (concat "' raised by " (concat n.agent_id " has not been resolved")));
  severity = if leb 1 (age_of order current n.session_id) then "High" else "Medium";
}

abbrev pub covers : ScratchEdit → ScratchCheck → Bool
covers edit c = leb edit.timestamp c.timestamp && files_overlap c.files edit.files

abbrev pub unverified_item : ScratchEdit → DebtItem
unverified_item edit = record {
  debt_type = "UnverifiedChange";
  node_ids = edit.event_id ∷ [];
  description = concat "Edited '" (
      concat (join (take 3 edit.files))
        (concat "' via " (concat edit.tool " — no test/lint/build run covered it afterwards")));
  severity = "Medium";
}

-- the loop body of the second detector
unfoldable pub unverified_change : List ScratchCheck → ScratchEdit → List DebtItem
unverified_change checks edit =
    if is_empty edit.files || any (covers edit) checks then [] else unverified_item edit ∷ []

-- the inner loop body of the map of the latest checks
unfoldable pub see_file :
    ScratchCheck → List (String × ScratchCheck) → String → List (String × ScratchCheck)
see_file check latest f = elim (lookup f latest) [
  | none ↦ insert f check latest
  | some prev ↦ if leb check.timestamp prev.timestamp then latest else insert f check latest
]

unfoldable pub see_check :
    List (String × ScratchCheck) → ScratchCheck → List (String × ScratchCheck)
unfolding see_file
see_check latest check = foldl (see_file check) latest check.files

abbrev pub is_fixed : List ScratchEdit → ScratchCheck → Bool
is_fixed edits c =
    any (λ (e : ScratchEdit). leb c.timestamp e.timestamp && files_overlap e.files c.files) edits

abbrev pub failed_item : ScratchCheck → DebtItem
failed_item check = record {
  debt_type = "FailedVerification";
  node_ids = check.event_id ∷ [];
  description = concat "Check '" (
      concat check.tool
        (concat "' on '" (concat (join (take 3 check.files)) "' failed — no fix attempted since")));
  severity = "High";
}

-- the third detector's loop over the latest checks; an event is reported once
unfoldable pub failed_checks :
    List ScratchEdit → List String → List (String × ScratchCheck) → List DebtItem
failed_checks edits reported [] = []
failed_checks edits reported ((f, c) ∷ latest) = elim (c.passed || contains c.event_id reported) [
  | true ↦ failed_checks edits reported latest
  | false ↦
      let rest = failed_checks edits (c.event_id ∷ reported) latest in
      if is_fixed edits c then rest else failed_item c ∷ rest
]

abbrev pub violation_item : ScratchCheck → ArgumentNode → DebtItem
violation_item check rule = record {
  debt_type = "RuleViolation";
  node_ids = rule.id ∷ check.event_id ∷ [];
  description = concat "Check '" (
      concat check.tool
        (concat "' failed on files under rule '" (concat rule.label "' — possible violation")));
  severity = "High";
}

-- the fourth detector's inner loop, up to its `break`
unfoldable pub first_violation : ScratchCheck → List ArgumentNode → List DebtItem
first_violation check [] = []
first_violation check (rule ∷ rules) =
    let rest = first_violation check rules in
    if not (is_empty rule.files) && files_overlap rule.files check.files
    then violation_item check rule ∷ []
    else rest

unfoldable pub rule_violation : List ArgumentNode → ScratchCheck → List DebtItem
unfolding first_violation
rule_violation rules check =
    if check.passed || is_empty check.files then [] else first_violation check rules

abbrev pub total : List DebtItem → ℕ
total [] = 0
total (i ∷ items) = severity_score i.severity + total items

abbrev pub report : List DebtItem → ℕ → DebtReport
report items timestamp = record { items = items; total_score = total items; timestamp = timestamp }

module _ ⦃pg : StableGraph⦄ where
  -- the loop body of the first detector
  unfoldable pub unresolved_at : GraphStoreInner → ℕ → ℕ × ArgumentNode → List DebtItem
  unfolding is_resolved
  unresolved_at s current (i, n) =
      if n.node_type == NodeType.open_item
        && not (n.status == NodeStatus.invalidated)
        && not (is_resolved s i)
      then unresolved_item s.session_order current n ∷ []
      else []

  abbrev pub rules_of : GraphStoreInner → List ArgumentNode
  rules_of s =
      select (λ n. n.node_type == NodeType.rule && n.status == NodeStatus.active)
        (map (λ (e : ℕ × ArgumentNode). e.1) (pg.node_references s.graph))

  -- the first detector, and the three that read the scratch
  unfoldable pub unresolved_items : GraphStoreInner → ℕ → List DebtItem
  unfolding unresolved_at flat_map
  unresolved_items s current = flat_map (unresolved_at s current) (pg.node_references s.graph)

  unfoldable pub scratch_items : GraphStoreInner → ScratchSnapshot → List DebtItem
  unfolding unverified_change see_check failed_checks rule_violation flat_map
  scratch_items s scratch =
      flat_map (unverified_change scratch.checks) scratch.edits
      ++ failed_checks scratch.edits [] (foldl see_check [] scratch.checks)
      ++ flat_map (rule_violation (rules_of s)) scratch.checks

  unfoldable pub compute_debt : GraphStoreInner → ℕ → ℕ → Option ScratchSnapshot → DebtReport
  unfolding unresolved_items scratch_items
  compute_debt s current timestamp none = report (unresolved_items s current) timestamp
  compute_debt s current timestamp (some scratch) =
      report (unresolved_items s current ++ scratch_items s scratch) timestamp
