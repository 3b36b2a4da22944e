-- ===== src/Types/Scratch.antt =====
-- armin-core/graph/src/types.rs: a session's recent edits and checks, and the debt report.
use armin.Prelude.{ℕ, String, Bool, List}

pub record ScratchEdit : Type 0 where
  pub event_id : String
  pub tool : String
  pub files : List String
  pub timestamp : ℕ

pub record ScratchCheck : Type 0 where
  pub event_id : String
  pub tool : String
  pub files : List String
  pub passed : Bool
  pub timestamp : ℕ

pub record ScratchSnapshot : Type 0 where
  pub edits : List ScratchEdit
  pub checks : List ScratchCheck

pub record DebtItem : Type 0 where
  pub debt_type : String
  pub node_ids : List String
  pub description : String
  pub severity : String

pub record DebtReport : Type 0 where
  pub items : List DebtItem
  pub total_score : ℕ
  pub timestamp : ℕ
