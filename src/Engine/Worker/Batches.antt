-- ===== src/Engine/Worker/Batches.antt =====
-- armin-core/engine/src/worker.rs, `run`: how the events are batched.
use mathlib.Core.List.{append_assoc}
use armin.Prelude.{
  ℕ, ◌+◌, ◌≤◌, ◌≡◌, refl, ap, ◌∙◌, inl, inr, List, [], ◌∷◌, ◌++◌, length, length-append, leb, ltb,
  if◌then◌else◌, arith, Bool-cases,
}
use armin.Tools.{EventRecord}
use armin.Engine.Worker.{Signal, received, elapsed, batches}

-- the events among the signals
abbrev pub events : List Signal → List EventRecord
events [] = []
events (received ev ∷ signals) = ev ∷ events signals
events (elapsed ∷ signals) = events signals

abbrev pub concat : List (List EventRecord) → List EventRecord
concat [] = []
concat (b ∷ bs) = b ++ concat bs

-- the bound on a batch: the first event is not counted against the limit
abbrev pub limit : ℕ → ℕ
limit n = if ltb n 2 then 2 else n

abbrev pub AllFit : ℕ → List (List EventRecord) → Type 0
AllFit n [] = Unit
AllFit n (b ∷ bs) = (1 ≤ length b) × (length b ≤ limit n) × AllFit n bs

concat-batches :
    (n : ℕ) (batch : List EventRecord) (signals : List Signal)
    → concat (batches n batch signals) ≡ batch ++ events signals
unfolding batches
concat-batches n [] [] = refl
concat-batches n (b ∷ batch) [] = refl
concat-batches n [] (elapsed ∷ signals) = concat-batches n [] signals
concat-batches n [] (received ev ∷ signals) = concat-batches n (ev ∷ []) signals
concat-batches n (b ∷ batch) (elapsed ∷ signals) =
    ap (λ x. (b ∷ batch) ++ x) (concat-batches n [] signals)
concat-batches n (b ∷ batch) (received ev ∷ signals) =
    elim (Bool-cases (leb n (length (b ∷ batch ++ ev ∷ [])))) [
      | inl full ↦
          rw (full, batches)
            (ap (λ x. (b ∷ batch ++ ev ∷ []) ++ x) (concat-batches n [] signals)
              ∙ append_assoc (b ∷ batch) (ev ∷ []) (events signals))
      | inr room ↦
          rw (room, batches)
            (concat-batches n (b ∷ batch ++ ev ∷ []) signals
              ∙ append_assoc (b ∷ batch) (ev ∷ []) (events signals))
    ]

batches-AllFit :
    (n : ℕ) (batch : List EventRecord) (signals : List Signal)
    → length batch + 1 ≤ limit n
    → AllFit n (batches n batch signals)
unfolding batches
batches-AllFit n [] [] h = tt
batches-AllFit n (b ∷ batch) [] h = (omega arith, omega arith, tt)
batches-AllFit n [] (elapsed ∷ signals) h = batches-AllFit n [] signals h
batches-AllFit n [] (received ev ∷ signals) h = batches-AllFit n (ev ∷ []) signals (ground arith)
batches-AllFit n (b ∷ batch) (elapsed ∷ signals) h =
    (omega arith, omega arith, batches-AllFit n [] signals (ground arith))
batches-AllFit n (b ∷ batch) (received ev ∷ signals) h =
    let grown = length-append (b ∷ batch) (ev ∷ []) in
    elim (Bool-cases (leb n (length (b ∷ batch ++ ev ∷ [])))) [
      | inl full ↦
          rw (full, batches)
            (omega (arith, grown), omega (arith, grown), batches-AllFit n [] signals (ground arith))
      | inr room ↦
          rw (room, batches)
            (batches-AllFit n (b ∷ batch ++ ev ∷ []) signals (ground (arith, grown)))
    ]

-- Whatever arrives and however the deadlines fall, the batches together are all the events, each once
-- and in order; and each batch has at least one event and at most `batch_events`, or two if that is
-- fewer than two.
pub batches_lem :
    (n : ℕ) (signals : List Signal)
    → (concat (batches n [] signals) ≡ events signals) × AllFit n (batches n [] signals)
batches_lem n signals = (concat-batches n [] signals, batches-AllFit n [] signals (ground arith))
