-- ===== src/Engine/Brief/Oldest.antt =====
-- armin-core/engine/src/brief.rs, `build_brief`: which pending decisions a brief shows.
use mathlib.Core.List.{append_assoc, append-nil}
use armin.Prelude.{
  ℕ, zero, suc, ◌+◌, ◌≡◌, refl, ap, sym, ◌∙◌, subst, String, true, false, List, [], ◌∷◌, ◌++◌, map,
  any, select, reverse, take, length, length-append, length-take, take_of_length-le, contains,
  contains-unique, unique, leb, ◌==◌, String_Eq, arith, eq_iff,
}
use armin.Decisions.{Decision}
use armin.Engine.Brief.{is_decided, fill, choose_decisions}

abbrev pub labels : List Decision → List String
labels = map (λ (d : Decision). d.label)

any-label :
    (x : String) (l : List Decision)
    → any (λ (c : Decision). c.label == x) l ≡ contains x (labels l)
any-label x [] = refl
any-label x (d ∷ l) = ground (arith, any-label x l, eq_iff d.label x, eq_iff x d.label)

labels-concat : (l : List Decision) (d : Decision) → labels (l ++ d ∷ []) ≡ labels l ++ d.label ∷ []
labels-concat [] d = refl
labels-concat (x ∷ l) d = ap (λ m. x.label ∷ m) (labels-concat l d)

-- no entry's label is among some labels, nor that of an earlier entry
abbrev AllNew : List String → List Decision → Type 0
AllNew known [] = Unit
AllNew known (d ∷ l) = (contains d.label known ≡ false) × AllNew (known ++ d.label ∷ []) l

-- there is room for `n` more
fill-AllNew :
    (n : ℕ) (chosen l : List Decision)
    → length chosen + n ≡ 6
    → AllNew (labels chosen) l
    → fill chosen l ≡ chosen ++ take n l
unfolding fill
fill-AllNew zero chosen [] room new = sym (append-nil chosen)
fill-AllNew (suc n) chosen [] room new = sym (append-nil chosen)
fill-AllNew zero chosen (d ∷ l) room new =
    let full : leb 6 (length chosen) ≡ true = ground (arith, room) in
    rw (full, fill) (sym (append-nil chosen))
fill-AllNew (suc n) chosen (d ∷ l) room new =
    let space : leb 6 (length chosen) ≡ false = ground (arith, room) in
    rw (space, any-label d.label chosen ∙ new.0, fill)
      (fill-AllNew n (chosen ++ d ∷ []) l (omega (arith, room, length-append chosen (d ∷ [])))
          (subst (λ k. AllNew k l) (sym (labels-concat chosen d)) new.1)
        ∙ append_assoc chosen (d ∷ []) (take n l))

AllNew-unique :
    (known : List String) (l : List Decision) → unique (known ++ labels l) ≡ true → AllNew known l
AllNew-unique known [] h = tt
AllNew-unique known (d ∷ l) h = (
  contains-unique d.label known (labels l) h,
  AllNew-unique (known ++ d.label ∷ []) l
      (ap unique (append_assoc known (d.label ∷ []) (labels l)) ∙ h),
)

-- If all decisions are pending and no two have one label, a brief shows the last six of the list, the
-- last one first.
pub choose_decisions-pending :
    (decisions : List Decision)
    → select is_decided decisions ≡ []
    → unique (map (λ (d : Decision). d.label) (reverse decisions)) ≡ true
    → choose_decisions decisions ≡ take 6 (reverse decisions)
unfolding choose_decisions
choose_decisions-pending decisions pending new = rw pending (
    ap (take 6)
      (fill-AllNew 6 [] (reverse decisions) refl (AllNew-unique [] (reverse decisions) new))
    ∙ take_of_length-le 6 (take 6 (reverse decisions))
        (omega (arith, length-take 6 (reverse decisions))))
