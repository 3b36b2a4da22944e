-- ===== src/Jev/Choices.antt =====
-- armin-core/extraction/src/jev.rs, `build_native_nodes`: the type that an answer chooses.

use armin.Prelude.{
  ℕ, Option-cases, ◌≤◌, ◌≡◌, ◌⊎◌, refl, ap, sym, ◌∙◌, inl, inr, String, Option, none, some, List,
  lookup, String_Eq, arith, eq_iff,
}
use armin.Types.{NodeType}
use armin.Engine.Config.{JevNativeConfig}
use armin.Jev.{JevAnswer, choice_answer, noul_answer, score_answer, or_zero, chosen, kept_type}

-- the service's answer chooses a type, with a probability that is not below the threshold; an option
-- that has no probability has 0
pub record Chooses (threshold : ℕ) (answer : Option JevAnswer) (t : NodeType) (p : ℕ) : Type 0 where
  pub choice : String
  pub probabilities : List (String × ℕ)
  pub confidence : ℕ
  pub answered : answer ≡ some (choice_answer choice probabilities confidence)
  pub kind :
      ((choice ≡ "Decision") × (t ≡ NodeType.decision))
      ⊎ ((choice ≡ "OpenItem") × (t ≡ NodeType.open_item))
  pub probability :
      (lookup choice probabilities ≡ some p) ⊎ ((lookup choice probabilities ≡ none) × (p ≡ 0))
  pub passes : threshold ≤ p

kept_type-kind :
    (cfg : JevNativeConfig) (choice : String) (q : ℕ) (t : NodeType) (p : ℕ)
    → kept_type cfg (some (choice, q)) ≡ some (t, p)
    → (((choice ≡ "Decision") × (t ≡ NodeType.decision))
        ⊎ ((choice ≡ "OpenItem") × (t ≡ NodeType.open_item)))
      × (cfg.decision_threshold ≤ p)
      × (q ≡ p)
kept_type-kind cfg choice q t p e =
    ground (arith, e, eq_iff choice "Decision", eq_iff choice "OpenItem", eq_iff choice "noise")

pub kept_type-Chooses :
    (cfg : JevNativeConfig) (answer : Option JevAnswer) (t : NodeType) (p : ℕ)
    → kept_type cfg (chosen answer) ≡ some (t, p)
    → Chooses cfg.decision_threshold answer t p
kept_type-Chooses cfg none t p e = absurd (ground (arith, e))
kept_type-Chooses cfg (some (noul_answer noul)) t p e = absurd (ground (arith, e))
kept_type-Chooses cfg (some (score_answer score)) t p e = absurd (ground (arith, e))
kept_type-Chooses cfg (some (choice_answer choice probabilities confidence)) t p e =
    let (kind, passes, same) =
      kept_type-kind cfg choice (or_zero (lookup choice probabilities)) t p e in
    record {
      choice = choice;
      probabilities = probabilities;
      confidence = confidence;
      answered = refl;
      kind = kind;
      probability = elim (Option-cases (lookup choice probabilities)) [
        | inl o ↦ inr (o, sym same ∙ ap or_zero o)
        | inr (q, o) ↦ inl (o ∙ ap some (sym (ap or_zero o) ∙ same))
      ];
      passes = passes;
    }
