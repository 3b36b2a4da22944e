-- ===== src/Engine/Brief.antt =====
-- armin-core/engine/src/brief.rs, `build_brief`: the decisions that a brief shows.
pub mod Oldest
pub mod Text
use armin.Prelude.{
  ℕ, String, Bool, true, false, not, List, [], ◌∷◌, ◌++◌, any, select, reverse, take, length, leb,
  ◌==◌, String_Eq,
}
use armin.Decisions.{Decision}

abbrev pub max_decisions : ℕ
max_decisions = 6

abbrev pub is_decided : Decision → Bool
is_decided d = not (d.status == "Pending")

-- the loop that fills the list up, with its `break`
unfoldable pub fill : List Decision → List Decision → List Decision
fill chosen [] = chosen
fill chosen (d ∷ l) = elim (leb max_decisions (length chosen)) [
  | true ↦ chosen
  | false ↦ elim (any (λ (c : Decision). c.label == d.label) chosen) [
    | true ↦ fill chosen l
    | false ↦ fill (chosen ++ d ∷ []) l
  ]
]

unfoldable pub choose_decisions : List Decision → List Decision
unfolding fill
choose_decisions decisions =
    take max_decisions (fill (select is_decided decisions) (reverse decisions))
