-- ===== src/Debt/Failures.antt =====
-- armin-core/graph/src/debt.rs, the third detector: which failed checks it reports.
use mathlib.Core.List.{foldl}
use mathlib.Core.List.Memᴰ
use armin.Prelude.{
  ◌≡◌, ◌≤◌, refl, ap, sym, ◌∙◌, subst, inl, inr, String, true, false, ◌&&◌, ◌||◌, some, List, [],
  ◌∷◌, Memᴰ, any_iff, lookup, contains, leb, arith, ◌==◌, String_Eq, eq_iff, Bool-cases,
}
use armin.Types.Scratch.{ScratchEdit, ScratchCheck, DebtItem}
use armin.Debt.{see_check, is_fixed, files_overlap, failed_item, failed_checks}
use armin.Debt.Checks.{
  see_checks_sound, see_checks-full, see_checks-unique, lookup_of_mem, mem_of_lookup,
}

-- no check of the file is later
pub record IsLatest (checks : List ScratchCheck) (f : String) (c : ScratchCheck) : Type 0 where
  pub here : Memᴰ c checks
  pub on : contains f c.files ≡ true
  pub last :
      (x : ScratchCheck) → Memᴰ x checks → contains f x.files ≡ true → x.timestamp ≤ c.timestamp

-- a failed check, with no edit of its files since
pub record IsUnfixed (edits : List ScratchEdit) (c : ScratchCheck) : Type 0 where
  pub failed : c.passed ≡ false
  pub unfixed :
      (e : ScratchEdit)
      → Memᴰ e edits
      → c.timestamp ≤ e.timestamp
      → files_overlap e.files c.files ≡ false

lookup-IsLatest :
    (checks : List ScratchCheck) (f : String) (c : ScratchCheck)
    → lookup f (foldl see_check [] checks) ≡ some c
    → IsLatest checks f c
lookup-IsLatest checks f c at = elim (see_checks_sound f checks [] c at) [
  | inl none_yet ↦ cc
  | inr (mem, on) ↦ record {
    here = mem;
    on = on;
    last = λ x m q.
        let (d, there, le) = see_checks-full f checks [] x m q in ground (arith, there, le, at);
  }
]

is_fixed-IsUnfixed :
    (edits : List ScratchEdit) (c : ScratchCheck)
    → c.passed ≡ false
    → is_fixed edits c ≡ false
    → IsUnfixed edits c
is_fixed-IsUnfixed edits c failed left_open = record {
  failed = failed;
  unfixed = λ e m le. elim (Bool-cases (files_overlap e.files c.files)) [
    | inr apart ↦ apart
    | inl meet ↦ absurd (
        cc (
          (any_iff
                (λ (x : ScratchEdit). leb c.timestamp x.timestamp && files_overlap x.files c.files)
                edits).1
              (e, m, ground (arith, le, meet)),
          left_open,
        ))
  ];
}

IsUnfixed-is_fixed :
    (edits : List ScratchEdit) (c : ScratchCheck) → IsUnfixed edits c → is_fixed edits c ≡ false
IsUnfixed-is_fixed edits c u = elim (Bool-cases (is_fixed edits c)) [
  | inr apart ↦ apart
  | inl met ↦
      let (e, m, q) =
        (any_iff (λ (x : ScratchEdit). leb c.timestamp x.timestamp && files_overlap x.files c.files)
            edits).0
          met in
      absurd (ground (arith, q, u.unfixed e m))
]

failed_checks_sound :
    (edits : List ScratchEdit) (reported : List String) (latest : List (String × ScratchCheck))
    (item : DebtItem)
    → Memᴰ item (failed_checks edits reported latest)
    → (f : String) × (c : ScratchCheck) × Memᴰ (f, c) latest
      × IsUnfixed edits c
      × (item ≡ failed_item c)
unfolding failed_checks
failed_checks_sound edits reported [] item m = absurd (Memᴰ.not-nil m)
failed_checks_sound edits reported ((f, c) ∷ latest) item m =
    elim (Bool-cases (c.passed || contains c.event_id reported)) [
      | inl skip ↦
          let (g, d, k, u, e) =
            failed_checks_sound edits reported latest item (rw (skip, failed_checks) at m) in
          (g, d, Memᴰ.tail k, u, e)
      | inr new ↦ elim (Bool-cases (is_fixed edits c)) [
        | inl done ↦
            let (g, d, k, u, e) =
              failed_checks_sound edits (c.event_id ∷ reported) latest item
                (rw (new, done, failed_checks) at m) in
            (g, d, Memᴰ.tail k, u, e)
        | inr left_open ↦ elim (Memᴰ.cases_cons (rw (new, left_open, failed_checks) at m)) [
          | inl e ↦ (f, c, Memᴰ.head refl, is_fixed-IsUnfixed edits c (ground arith) left_open, e)
          | inr r ↦
              let (g, d, k, u, e) =
                failed_checks_sound edits (c.event_id ∷ reported) latest item r in
              (g, d, Memᴰ.tail k, u, e)
        ]
      ]
    ]

-- an event that is not reported and stands for one check is reported
failed_checks_complete :
    (edits : List ScratchEdit) (reported : List String) (latest : List (String × ScratchCheck))
    (f : String) (c : ScratchCheck)
    → ((g : String) (d : ScratchCheck) → Memᴰ (g, d) latest → c.event_id ≡ d.event_id → c ≡ d)
    → Memᴰ (f, c) latest
    → IsUnfixed edits c
    → contains c.event_id reported ≡ false
    → Memᴰ (failed_item c) (failed_checks edits reported latest)
unfolding failed_checks
failed_checks_complete edits reported [] f c one m u new = absurd (Memᴰ.not-nil m)
failed_checks_complete edits reported ((g, d) ∷ latest) f c one m u new =
    let rest =
      λ (seen : List String) (r : Memᴰ (f, c) latest) (k : contains c.event_id seen ≡ false).
        failed_checks_complete edits seen latest f c (λ x y n. one x y (Memᴰ.tail n)) r u k in
    let left_open = IsUnfixed-is_fixed edits c u in
    elim (Bool-cases (d.event_id == c.event_id)) [
      | inl same ↦
          let is_d : c ≡ d =
            one g d (Memᴰ.head refl) (sym ((eq_iff d.event_id c.event_id).0 same)) in
          let alone : failed_checks edits reported ((g, c) ∷ latest)
              ≡ failed_item c ∷ failed_checks edits (c.event_id ∷ reported) latest =
            rw (u.failed, new, left_open, failed_checks) refl in
          subst (λ x. Memᴰ (failed_item c) (failed_checks edits reported ((g, x) ∷ latest))) is_d
            (subst (Memᴰ (failed_item c)) (sym alone) (Memᴰ.head refl))
      | inr other ↦
          let r : Memᴰ (f, c) latest = elim (Memᴰ.cases_cons m) [
            | inr r ↦ r
            | inl e ↦ absurd (
                ground (
                  arith,
                  ap (λ (p : String × ScratchCheck). p.1.event_id) e,
                  eq_iff d.event_id c.event_id,
                ))
          ] in
          elim (Bool-cases (d.passed || contains d.event_id reported)) [
            | inl skip ↦ rw (skip, failed_checks) (rest reported r new)
            | inr fresh ↦ elim (Bool-cases (is_fixed edits d)) [
              | inl done ↦
                  rw (fresh, done, failed_checks) (rest (d.event_id ∷ reported) r (ground arith))
              | inr left ↦
                  rw (fresh, left, failed_checks)
                    (Memᴰ.tail (rest (d.event_id ∷ reported) r (ground arith)))
            ]
          ]
    ]

-- If no two checks have one event identifier, then every `FailedVerification` item is that of a
-- check that failed, is a latest one of some file and has no edit of its files since; and every
-- failed check with no edit of its files since that is the only latest one of some file has its item.
pub failed_checks_lem :
    (edits : List ScratchEdit) (checks : List ScratchCheck)
    → ((c d : ScratchCheck) → Memᴰ c checks → Memᴰ d checks → c.event_id ≡ d.event_id → c ≡ d)
    → let items = failed_checks edits [] (foldl see_check [] checks) in
      ((item : DebtItem)
        → Memᴰ item items
        → (f : String) × (c : ScratchCheck) × IsLatest checks f c
          × IsUnfixed edits c
          × (item ≡ failed_item c))
      × ((f : String) (c : ScratchCheck)
          → IsLatest checks f c
          → ((x : ScratchCheck)
              → Memᴰ x checks
              → contains f x.files ≡ true
              → c.timestamp ≤ x.timestamp
              → x ≡ c)
          → IsUnfixed edits c
          → Memᴰ (failed_item c) items)
failed_checks_lem edits checks distinct =
    let latest = foldl see_check [] checks in
    let of_mem = λ (g : String) (d : ScratchCheck) (k : Memᴰ (g, d) latest).
      lookup-IsLatest checks g d (lookup_of_mem g d latest (see_checks-unique checks [] refl) k) in
    (
      λ item m.
          let (f, c, k, u, e) = failed_checks_sound edits [] latest item m in
          (f, c, of_mem f c k, u, e),
      λ f c l only u.
          let (d, there, le) = see_checks-full f checks [] c l.here l.on in
          let at_d = lookup-IsLatest checks f d there in
          let same : d ≡ c = only d at_d.here at_d.on le in
          failed_checks_complete edits [] latest f c
            (λ g x k. distinct c x l.here (of_mem g x k).here)
            (mem_of_lookup f c latest (there ∙ ap some same)) u refl,
    )
