-- ===== src/Debt/Changes.antt =====
-- armin-core/graph/src/debt.rs, the second and the fourth detector: edits that no check covered, and
-- rules on files whose check failed.
use mathlib.Core.List.{flat_map}
use mathlib.Core.List.Memᴰ
use armin.Prelude.{
  ◌≡◌, ◌≤◌, ◌↔◌, refl, subst, inl, inr, ◌⊎◌, Bool, true, false, not, ◌&&◌, ◌||◌, List, [], ◌∷◌,
  Memᴰ, any, any_iff, arith, Bool-cases, Memᴰ-flat_map, String, String_Eq,
}
use armin.Types.{ArgumentNode}
use armin.Types.Scratch.{ScratchEdit, ScratchCheck, DebtItem}
use armin.Debt.{
  covers, files_overlap, is_empty, unverified_item, unverified_change, violation_item,
  first_violation, rule_violation,
}

-- an edit of some file, with no check of its files since
pub record IsUnverified (checks : List ScratchCheck) (e : ScratchEdit) : Type 0 where
  pub touched : is_empty e.files ≡ false
  pub unchecked :
      (c : ScratchCheck)
      → Memᴰ c checks
      → e.timestamp ≤ c.timestamp
      → files_overlap c.files e.files ≡ false

covers-IsUnverified :
    (checks : List ScratchCheck) (e : ScratchEdit)
    → (is_empty e.files || any (covers e) checks) ≡ false
    → IsUnverified checks e
covers-IsUnverified checks e h = record {
  touched = ground arith;
  unchecked = λ c m le. elim (Bool-cases (files_overlap c.files e.files)) [
    | inr apart ↦ apart
    | inl meet ↦
        absurd (ground (arith, h, (any_iff (covers e) checks).1 (c, m, ground (arith, le, meet))))
  ];
}

IsUnverified-covers :
    (checks : List ScratchCheck) (e : ScratchEdit)
    → IsUnverified checks e
    → (is_empty e.files || any (covers e) checks) ≡ false
IsUnverified-covers checks e u = elim (Bool-cases (any (covers e) checks)) [
  | inr none_covers ↦ ground (arith, u.touched)
  | inl met ↦
      let (c, m, q) = (any_iff (covers e) checks).0 met in
      absurd (ground (arith, q, u.unchecked c m))
]

-- The `UnverifiedChange` items are exactly those of the edits of some file whose files no check
-- covered since.
unverified_change_iff :
    (checks : List ScratchCheck) (edits : List ScratchEdit) (item : DebtItem)
    → Memᴰ item (flat_map (unverified_change checks) edits)
      ↔ ((e : ScratchEdit) × Memᴰ e edits × IsUnverified checks e × (item ≡ unverified_item e))
unfolding unverified_change
unverified_change_iff checks edits item =
    let found = Memᴰ-flat_map (unverified_change checks) item edits in
    (
      λ m.
          let (e, here, k) = found.0 m in
          elim (Bool-cases (is_empty e.files || any (covers e) checks)) [
            | inl t ↦ absurd (Memᴰ.not-nil (rw t at k))
            | inr f ↦ (e, here, covers-IsUnverified checks e f, Memᴰ.eq_of_singleton (rw f at k))
          ],
      λ (e, here, u, same). found.1 (e, here, rw (IsUnverified-covers checks e u) (Memᴰ.head same)),
    )

-- the first rule with a file in common, if there is one
abbrev pub applies : ScratchCheck → ArgumentNode → Bool
applies check rule = not (is_empty rule.files) && files_overlap rule.files check.files

first_violation-none :
    (check : ScratchCheck) (rules : List ArgumentNode)
    → any (applies check) rules ≡ false
    → first_violation check rules ≡ []
unfolding first_violation
first_violation-none check [] h = refl
first_violation-none check (r ∷ rules) h = ground (arith, first_violation-none check rules)

first_violation-some :
    (check : ScratchCheck) (rules : List ArgumentNode)
    → any (applies check) rules ≡ true
    → (r : ArgumentNode) × Memᴰ r rules
      × (applies check r ≡ true)
      × (first_violation check rules ≡ violation_item check r ∷ [])
unfolding first_violation
first_violation-some check [] h = cc
first_violation-some check (r ∷ rules) h = elim (Bool-cases (applies check r)) [
  | inl t ↦ (r, Memᴰ.head refl, t, rw (t, first_violation) refl)
  | inr f ↦
      let (x, m, q, e) = first_violation-some check rules (ground arith) in
      (x, Memᴰ.tail m, q, rw (f, first_violation) e)
]

List-cases : (l : List String) → (l ≡ []) ⊎ (is_empty l ≡ false)
List-cases [] = inl refl
List-cases (x ∷ l) = inr refl

overlap_nil : (files : List String) → files_overlap files [] ≡ false
overlap_nil [] = refl
overlap_nil (f ∷ files) = overlap_nil files

-- A check adds one `RuleViolation` item, with a rule that shares a file with it, if it failed and
-- there is such a rule, and none otherwise.
rule_violation_lem :
    (rules : List ArgumentNode) (check : ScratchCheck)
    → (((check.passed || not (any (applies check) rules)) ≡ true)
        × (rule_violation rules check ≡ []))
      ⊎ ((r : ArgumentNode) × (check.passed ≡ false)
          × Memᴰ r rules
          × (files_overlap r.files check.files ≡ true)
          × (rule_violation rules check ≡ violation_item check r ∷ []))
unfolding rule_violation
rule_violation_lem rules check = elim (Bool-cases (any (applies check) rules)) [
  | inr f ↦ inl (rw f (ground arith), ground (arith, first_violation-none check rules f))
  | inl t ↦ elim (Bool-cases check.passed) [
    | inl passed ↦ inl (ground arith, rw passed refl)
    | inr failed ↦
        let (r, m, q, e) = first_violation-some check rules t in
        let meet : files_overlap r.files check.files ≡ true = ground arith in
        let some_file : is_empty check.files ≡ false = elim (List-cases check.files) [
          | inl none_there ↦ absurd (
              cc (subst (λ l. files_overlap r.files l ≡ true) none_there meet, overlap_nil r.files))
          | inr there ↦ there
        ] in
        let guard : (check.passed || is_empty check.files) ≡ false =
          ground (arith, failed, some_file) in
        inr (r, failed, m, meet, rw guard e)
  ]
]
