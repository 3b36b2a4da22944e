-- ===== src/Tests/Ranking.antt =====
-- The theorems on decisions, risks and the summary at concrete inputs.
use mathlib.Core.List.{flat_map}
use armin.Prelude.{
  ◌==◌, ◌||◌, ℕ_Eq, List, false, reverse, take, none, ℕ, ◌≡◌, ◌≢◌, ◌≤◌, ◌↔◌, refl, inr, String,
  true, ◌&&◌, [], ◌∷◌, Memᴰ, map, contains, unique, String_Eq, arith,
}
use armin.Prelude.Sorted.{IsDescending, with_key}
use armin.Types.{EdgeType}
use armin.Types.Scratch.{DebtReport}
use armin.Petgraph.{Direction}
use armin.Petgraph.Listed.{listed}
use armin.Debt.{compute_debt}
use armin.Decisions.{Decision, decision_of, decisions_at, extract_decisions}
use armin.Decisions.Order.{IsReported, extract_decisions_lem}
use armin.Decisions.Status.{EdgeAt, decision_of-status}
use armin.Risks.{Risk, compute_risks_from_debt}
use armin.Risks.Ranking.{named, is_known, compute_risks_from_debt_lem}
use armin.Engine.Brief.{choose_decisions}
use armin.Engine.Brief.Text.{build_brief, node_count}
use armin.Engine.Brief.Text.Empty.{has_nothing, build_brief-empty}
use armin.Engine.Brief.Oldest.{choose_decisions-pending}
use armin.Engine.{EngineState}
use armin.Engine.Ready.{IsReady}
use armin.Scratch.Bounds.{empty-IsBounded}
use armin.Tests.{asked, asked-IsConsistent, answer, answered, answered-IsConsistent, monday_first}
use armin.Tests.Running.{started}

extract_decisions_example :
    IsDescending (λ (d : Decision). d.timestamp) (extract_decisions answered)
    × ((d : Decision) → Memᴰ d (extract_decisions answered) ↔ IsReported answered d)
    × ((time : ℕ)
        → with_key (λ (d : Decision). d.timestamp) time (extract_decisions answered)
          ≡ with_key
              (λ (d : Decision). d.timestamp)
              time
              (flat_map (decisions_at answered) (listed.node_references answered.graph)))
extract_decisions_example = extract_decisions_lem answered

decision_of-status_example :
    let st = (decision_of answered 1 answer).status in
    let superseded = EdgeAt answered Direction.incoming 1 EdgeType.supersedes in
    let supported = EdgeAt answered Direction.incoming 1 EdgeType.relates_to in
    let refuted = EdgeAt answered Direction.incoming 1 EdgeType.refutes in
    let resolves = EdgeAt answered Direction.outgoing 1 EdgeType.resolves in
    ((st ≡ "Superseded") ↔ superseded)
    × ((st ≡ "Validated") ↔ ((¬ superseded) × supported × resolves))
    × ((st ≡ "Blocked") ↔ ((¬ superseded) × refuted × (¬ resolves)))
    × ((st ≡ "Pending")
        ↔ ((¬ superseded) × (¬ (supported × resolves)) × (¬ (refuted × (¬ resolves)))))
decision_of-status_example = decision_of-status answered 1 answer

abbrev owed : DebtReport
owed = compute_debt answered 0 30 none

compute_risks_from_debt_example :
    let risks = compute_risks_from_debt answered 0 owed in
    IsDescending (λ (r : Risk). r.impact_score) risks
    × (unique (map (λ (r : Risk). r.node_id) risks) ≡ true)
    × ((id : String)
        → contains id (map (λ (r : Risk). r.node_id) risks)
          ≡ (contains id (named owed.items) && is_known answered id))
    × ((r : Risk) → Memᴰ r risks → (5 ≤ r.impact_score) × (r.impact_score ≤ 80))
compute_risks_from_debt_example = compute_risks_from_debt_lem answered answered-IsConsistent 0 owed

abbrev on_monday : EngineState
on_monday = record (started asked) { sessions = "monday" ∷ []; current_session_id = "monday" }

on_monday-IsReady : IsReady on_monday
on_monday-IsReady = record {
  graph = asked-IsConsistent;
  scratch = empty-IsBounded;
  log = omega arith;
  queue = λ tx e. ground (arith, e);
  sessions = refl;
  current = inr monday_first;
}

on_monday-seen : on_monday.sessions ≢ []
on_monday-seen e = cc

abbrev pending : String → ℕ → Decision
pending label time = record {
  id = label;
  label = label;
  rationale = "";
  status = "Pending";
  owner = none;
  session_id = "monday";
  timestamp = time;
  blocked_work = [];
  validation_criteria = [];
}

-- newest first, as `extract_decisions` returns them
abbrev seven : List Decision
seven =
    pending "g" 7
    ∷ pending "f" 6
    ∷ pending "e" 5
    ∷ pending "d" 4
    ∷ pending "c" 3
    ∷ pending "b" 2
    ∷ pending "a" 1
    ∷ []

choose_decisions-pending_example : choose_decisions seven ≡ take 6 (reverse seven)
choose_decisions-pending_example = choose_decisions-pending seven refl refl

newest_left_out : contains "g" (map (λ (d : Decision). d.label) (choose_decisions seven)) ≡ false
unfolding choose_decisions
newest_left_out = refl

build_brief-empty_example : (build_brief (started answered) 40 ("src/cache.rs" ∷ []) == "") ≡ (
    node_count (started answered) == 0 || has_nothing (started answered) 40 ("src/cache.rs" ∷ []))
build_brief-empty_example = build_brief-empty (started answered) 40 ("src/cache.rs" ∷ [])
