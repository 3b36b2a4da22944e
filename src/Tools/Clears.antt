-- ===== src/Tools/Clears.antt =====
-- armin-core/engine/src/toolclass.rs, `record_tool_event`, together with the second detector of
-- armin-core/graph/src/debt.rs: a check settles the edits of its files.
use mathlib.Core.List.Memᴰ
use armin.Prelude.{
  ◌≡◌, ◌≤◌, refl, sym, ap, ◌∙◌, subst, inl, inr, String, true, some, List, [], ◌∷◌, ◌++◌, Memᴰ, ltb,
  length, ◌==◌, String_Eq, eq_iff, Bool-cases,
}
use armin.Types.Scratch.{ScratchEdit, ScratchSnapshot}
use armin.Scratch.{ScratchInner, max_entries, push, record_check, snapshot}
use armin.Scratch.Bounds.{IsBounded}
use armin.Scratch.Reads.{snapshot-record_check}
use armin.Debt.{files_overlap}
use armin.Debt.Changes.{IsUnverified}
use armin.Tools.{EventRecord, ToolClass, classify, check_of, record_tool_event}

mem-push {ℓ} : {A : Type ℓ} (x : A) (l : List A) → Memᴰ x (push x l)
unfolding push
mem-push x [] = Memᴰ.head refl
mem-push x (y ∷ l) = elim (Bool-cases (ltb max_entries (length (y ∷ l ++ x ∷ [])))) [
  | inl over ↦ rw over (Memᴰ.append_right l (Memᴰ.head refl))
  | inr fits ↦ rw fits (Memᴰ.tail (Memᴰ.append_right l (Memᴰ.head refl)))
]

-- In a bounded scratch, an event whose tool and text are classed as a check leaves its session's
-- edits as they were, and after it no edit of a file of the event, stamped not after it, is unverified.
pub record_tool_event-IsUnverified :
    (s : ScratchInner) (event : EventRecord) (tool : String)
    → IsBounded s
    → event.tool_name ≡ some tool
    → classify tool event.text ≡ ToolClass.check
    → let now = snapshot (record_tool_event s event) event.session_id in
      (now.edits ≡ (snapshot s event.session_id).edits)
      × ((e : ScratchEdit)
          → e.timestamp ≤ event.end_time
          → files_overlap event.files e.files ≡ true
          → ¬ IsUnverified now.checks e)
unfolding record_tool_event
record_tool_event-IsUnverified s event tool b named kind =
    let done : record_tool_event s event ≡ record_check s event.session_id (check_of event tool) =
      rw (named, kind, record_tool_event) refl in
    let reads = snapshot-record_check s event.session_id (check_of event tool) event.session_id b in
    let self : (event.session_id == event.session_id) ≡ true =
      (eq_iff event.session_id event.session_id).1 refl in
    let before = snapshot s event.session_id in
    let now : snapshot (record_tool_event s event) event.session_id
        ≡ record { edits = before.edits; checks = push (check_of event tool) before.checks } =
      ap (λ t. snapshot t event.session_id) done ∙ (rw self at reads) in
    (
      ap (λ (t : ScratchSnapshot). t.edits) now,
      λ e le meet u.
          let here =
            subst (Memᴰ (check_of event tool)) (sym (ap (λ (t : ScratchSnapshot). t.checks) now))
              (mem-push (check_of event tool) _) in
          cc (u.unchecked (check_of event tool) here le, meet),
    )
