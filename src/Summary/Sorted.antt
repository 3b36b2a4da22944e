-- ===== src/Summary/Sorted.antt =====
-- armin-core/graph/src/summary.rs: what the sorting of a debt item's identifiers makes equal.
use Prim.Native.String.compare
use Prim.Native.String.{compare as order}
use Prim.Native.Nat.{Ordering}
use text.Mathlib.TextEquality.{path_by_compare}
use mathlib.Core.List.{Permᴰ}
use mathlib.Core.List.Permᴰ
use armin.Prelude.{
  ◌≡◌, refl, ap, sym, subst, ◌∙◌, ◌↔◌, inl, inr, String, true, false, List, [], ◌∷◌, arith,
  Bool-cases,
}
use armin.Types.Scratch.{DebtItem}
use armin.Summary.{DebtKey, str_le, sorted_insert, sort, debt_key}

str_le_total : (a b : String) → str_le a b ≡ false → str_le b a ≡ true
str_le_total String.[] String.[] h = cc
str_le_total String.[] (String.◌∷◌ d t) h = ground (arith, compare.nil-cons d t)
str_le_total (String.◌∷◌ c s) String.[] h = ground (arith, compare.nil-cons c s)
str_le_total (String.◌∷◌ c s) (String.◌∷◌ d t) h =
    ground (arith, compare.cons-cons c d s t, compare.cons-cons d c t s, str_le_total s t)

compare-eq : (a b : String) → str_le a b ≡ true → str_le b a ≡ true → order a b ≡ Ordering.eq
compare-eq String.[] String.[] h k = refl
compare-eq String.[] (String.◌∷◌ d t) h k = ground (arith, compare.cons-nil d t)
compare-eq (String.◌∷◌ c s) String.[] h k = ground (arith, compare.cons-nil c s)
compare-eq (String.◌∷◌ c s) (String.◌∷◌ d t) h k =
    ground (arith, compare.cons-cons c d s t, compare.cons-cons d c t s, compare-eq s t)

str_le_trans : (a b c : String) → str_le a b ≡ true → str_le b c ≡ true → str_le a c ≡ true
str_le_trans String.[] b String.[] h k = refl
str_le_trans String.[] b (String.◌∷◌ e u) h k = ground (arith, compare.nil-cons e u)
str_le_trans (String.◌∷◌ c s) String.[] z h k = ground (arith, compare.cons-nil c s)
str_le_trans (String.◌∷◌ c s) (String.◌∷◌ d t) String.[] h k = ground (arith, compare.cons-nil d t)
str_le_trans (String.◌∷◌ c s) (String.◌∷◌ d t) (String.◌∷◌ e u) h k = ground (
  arith,
  compare.cons-cons c d s t,
  compare.cons-cons d e t u,
  compare.cons-cons c e s u,
  str_le_trans s t u,
)

str_le_antisym : (a b : String) → str_le a b ≡ true → str_le b a ≡ true → a ≡ b
str_le_antisym a b h k = path_by_compare a b (compare-eq a b h k)

sorted_insert_comm :
    (x y : String) (l : List String)
    → sorted_insert x (sorted_insert y l) ≡ sorted_insert y (sorted_insert x l)
unfolding sorted_insert
sorted_insert_comm x y [] = ground (arith, str_le_total x y, str_le_total y x, str_le_antisym x y)
sorted_insert_comm x y (z ∷ l) = ground (
  arith,
  sorted_insert_comm x y l,
  str_le_total x y,
  str_le_total y x,
  str_le_antisym x y,
  str_le_trans x y z,
  str_le_trans y x z,
)

sort-perm : {l m : List String} → Permᴰ l m → sort l ≡ sort m
unfolding sort
sort-perm Permᴰ.nil = refl
sort-perm (Permᴰ.cons e p) = λ i. sorted_insert (e i) (sort-perm p i)
sort-perm (Permᴰ.swap {a} {b} {l = l} e f) =
    sorted_insert_comm a b (sort l) ∙ (λ i. sorted_insert (f i) (sorted_insert (e i) (sort l)))
sort-perm (Permᴰ.trans p q) = sort-perm p ∙ sort-perm q

perm-sorted_insert : (x : String) (l : List String) → Permᴰ (x ∷ l) (sorted_insert x l)
unfolding sorted_insert
perm-sorted_insert x [] = Permᴰ.refl (x ∷ [])
perm-sorted_insert x (y ∷ l) = elim (Bool-cases (str_le x y)) [
  | inl t ↦ rw t (Permᴰ.refl (x ∷ y ∷ l))
  | inr t ↦ rw t (Permᴰ.trans (Permᴰ.swap refl refl) (Permᴰ.cons refl (perm-sorted_insert x l)))
]

perm-sort : (l : List String) → Permᴰ l (sort l)
unfolding sort
perm-sort [] = Permᴰ.nil
perm-sort (x ∷ l) = Permᴰ.trans (Permᴰ.cons refl (perm-sort l)) (perm-sorted_insert x (sort l))

-- two items of one type, whose identifiers are the same but for their order
abbrev pub Same : DebtItem → DebtItem → Type 0
Same i j = (i.debt_type ≡ j.debt_type) × Permᴰ i.node_ids j.node_ids

pub debt_key-Same : (i j : DebtItem) → (debt_key i ≡ debt_key j) ↔ Same i j
unfolding debt_key
debt_key-Same i j = (
  λ e. (
    ap (λ (k : DebtKey). k.debt_type) e,
    Permᴰ.trans (perm-sort i.node_ids) (
        subst (λ l. Permᴰ l j.node_ids) (sym (ap (λ (k : DebtKey). k.ids) e))
          (Permᴰ.symm (perm-sort j.node_ids))),
  ),
  λ (t, p). λ n. record { debt_type = t n; ids = sort-perm p n },
)
