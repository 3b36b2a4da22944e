-- ===== src/Summary/Executive.antt =====
-- armin-core/graph/src/summary.rs, `compute_summary`. The clock is an argument.
use armin.Prelude.{ℕ, ◌-◌, String, Option, none, some, List, length, ltb, if◌then◌else◌}
use armin.Types.Scratch.{DebtReport}
use armin.Text.Sessions.{session_id_at_index}
use armin.Petgraph.{StableGraph}
use armin.Store.{GraphStoreInner}
use armin.Debt.{compute_debt}
use armin.Decisions.{Decision, extract_decisions}
use armin.Risks.{Risk, compute_risks_from_debt}
use armin.Summary.{DebtDelta, compute_debt_delta}

pub record ExecutiveSummary : Type 0 where
  pub decisions : List Decision
  pub risks : List Risk
  pub debt_delta : DebtDelta
  pub session_id : String
  pub prior_session_id : Option String
  pub generated_at : ℕ

abbrev pub delta_from : DebtReport → Option DebtReport → DebtDelta
delta_from current none = record { new = length current.items; resolved = 0; persisted = 0 }
delta_from current (some prior) = compute_debt_delta current prior

abbrev pub or_unknown : Option String → String
or_unknown none = "Unknown"
or_unknown (some sid) = sid

module _ ⦃pg : StableGraph⦄ where
  unfoldable pub compute_summary : GraphStoreInner → ℕ → Option DebtReport → ℕ → ExecutiveSummary
  unfolding extract_decisions compute_debt compute_risks_from_debt compute_debt_delta
      session_id_at_index
  compute_summary s current prior_debt now =
      let current_debt = compute_debt s current now none in
      record {
        decisions = extract_decisions s;
        risks = compute_risks_from_debt s current current_debt;
        debt_delta = delta_from current_debt prior_debt;
        session_id = or_unknown (session_id_at_index s.session_order current);
        prior_session_id =
            if ltb 0 current then session_id_at_index s.session_order (current - 1) else none;
        generated_at = now;
      }
