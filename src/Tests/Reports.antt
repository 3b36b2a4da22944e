-- ===== src/Tests/Reports.antt =====
-- The theorems on debt and tool calls at concrete inputs.
use Prim.Native.String.{◌++◌ as concat}
use mathlib.Core.List.{foldl}
use mathlib.Core.List.Memᴰ
use armin.Prelude.{
  ◌≡◌, ◌≤◌, ◌↔◌, refl, sym, ◌∙◌, String, true, false, none, some, [], ◌∷◌, Memᴰ, contains,
  String_Eq,
}
use armin.Types.{ArgumentNode}
use armin.Types.Scratch.{ScratchEdit, ScratchCheck, DebtItem}
use armin.Petgraph.Listed.{listed}
use armin.Store.Query.OpenQuestions.{IsUnresolved}
use armin.Scratch.{empty, run, snapshot}
use armin.Debt.{compute_debt, see_check, files_overlap, failed_item, failed_checks}
use armin.Debt.Unresolved.{compute_debt-IsUnresolved}
use armin.Debt.Failures.{IsLatest, IsUnfixed, failed_checks_lem}
use armin.Debt.Changes.{IsUnverified}
use armin.Summary.{compute_debt_delta}
use armin.Summary.Delta.{Counts, Stands, compute_debt_delta_lem}
use armin.Tools.{EventRecord, EventKind, ToolClass, classify, check_passed, record_tool_event}
use armin.Tools.Clears.{record_tool_event-IsUnverified}
use armin.Tools.Outcome.{check_passed-append}
use armin.Tests.{answered, answered-IsConsistent, ascii, fix, test_run, calls, calls-IsBounded}

compute_debt-IsUnresolved_example :
    ((item : DebtItem) × Memᴰ item (compute_debt answered 0 30 none).items
      × (item.node_ids ≡ "question" ∷ []))
    ↔ ((n : ArgumentNode) × (n.id ≡ "question") × IsUnresolved answered n)
compute_debt-IsUnresolved_example =
    compute_debt-IsUnresolved answered answered-IsConsistent 0 30 "question"

abbrev broken : ScratchCheck
broken = record test_run { event_id = "event-4"; passed = false; timestamp = 50 }

one_check :
    (c d : ScratchCheck)
    → Memᴰ c (broken ∷ [])
    → Memᴰ d (broken ∷ [])
    → c.event_id ≡ d.event_id
    → c ≡ d
one_check c d m n e = Memᴰ.eq_of_singleton m ∙ sym (Memᴰ.eq_of_singleton n)

failed_checks_example :
    let items = failed_checks (fix ∷ []) [] (foldl see_check [] (broken ∷ [])) in
    ((item : DebtItem)
      → Memᴰ item items
      → (f : String) × (c : ScratchCheck) × IsLatest (broken ∷ []) f c
        × IsUnfixed (fix ∷ []) c
        × (item ≡ failed_item c))
    × ((f : String) (c : ScratchCheck)
        → IsLatest (broken ∷ []) f c
        → ((x : ScratchCheck)
            → Memᴰ x (broken ∷ [])
            → contains f x.files ≡ true
            → c.timestamp ≤ x.timestamp
            → x ≡ c)
        → IsUnfixed (fix ∷ []) c
        → Memᴰ (failed_item c) items)
failed_checks_example = failed_checks_lem (fix ∷ []) (broken ∷ []) one_check

abbrev tested : EventRecord
tested = record {
  id = "event-5";
  session_id = "monday";
  agent_role = "agent";
  start_time = 60;
  end_time = 61;
  text = "cargo test: 5 passed, 0 failed";
  event_kind = EventKind.tool_call;
  tool_name = some "Bash";
  files = "src/cache.rs" ∷ [];
  commit = none;
}

tested-check : classify "Bash" "cargo test: 5 passed, 0 failed" ≡ ToolClass.check
unfolding classify
tested-check = refl

record_tool_event-IsUnverified_example :
    let now = snapshot (record_tool_event (run empty calls) tested) "monday" in
    (now.edits ≡ (snapshot (run empty calls) "monday").edits)
    × ((e : ScratchEdit)
        → e.timestamp ≤ 61
        → files_overlap ("src/cache.rs" ∷ []) e.files ≡ true
        → ¬ IsUnverified now.checks e)
record_tool_event-IsUnverified_example =
    record_tool_event-IsUnverified (run empty calls) tested "Bash" calls-IsBounded refl tested-check

check_passed-append_example : check_passed (concat "1" (concat "0 failed" "")) ≡ true
check_passed-append_example = check_passed-append "1" ""

compute_debt_delta_example :
    let now = compute_debt answered 0 30 none in
    let before = compute_debt answered 0 20 none in
    let d = compute_debt_delta now before in
    Counts (λ i. Memᴰ i now.items × (¬ Stands before i)) d.new
    × Counts (λ i. Memᴰ i before.items × (¬ Stands now i)) d.resolved
    × Counts (λ i. Memᴰ i now.items × Stands before i) d.persisted
compute_debt_delta_example =
    compute_debt_delta_lem (compute_debt answered 0 30 none) (compute_debt answered 0 20 none)
