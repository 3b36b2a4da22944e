-- ===== src/Hook/Transcript/Lines.antt =====
-- armin-core/hook/src/transcript.rs: a file's lines, as `read_until` returns them.
use mathlib.Core.List.{append_assoc}
use armin.Prelude.{
  ℕ, zero, suc, ◌+◌, ◌≤◌, ◌≡◌, refl, ap, sym, ◌∙◌, ◌≢◌, inl, inr, List, [], ◌∷◌, ◌++◌, length, drop,
  ◌==◌, ℕ_Eq, arith, Bool-cases, nat_eq_iff,
}
use armin.Hook.Transcript.{Bytes, newline, push_byte, split_lines}

-- a line feed at the end and nowhere else
abbrev pub IsLine : Bytes → Type 0
IsLine [] = ⊥
IsLine (b ∷ []) = b ≡ newline
IsLine (b ∷ c ∷ l) = (b ≢ newline) × IsLine (c ∷ l)

abbrev pub AllLines : List Bytes → Type 0
AllLines [] = Unit
AllLines (l ∷ ls) = IsLine l × AllLines ls

abbrev pub concat : List Bytes → Bytes
concat [] = []
concat (l ∷ ls) = l ++ concat ls

pub push_byte-newline : (p : List Bytes × Bytes) → push_byte newline p ≡ ((newline ∷ []) ∷ p.0, p.1)
push_byte-newline ([], tail) = refl
push_byte-newline (l ∷ ls, tail) = refl

pub push_byte-other :
    (b : ℕ) (l : Bytes) (ls : List Bytes) (tail : Bytes)
    → b ≢ newline
    → push_byte b (l ∷ ls, tail) ≡ ((b ∷ l) ∷ ls, tail)
push_byte-other b l ls tail h = ground (arith, h)

pub split_lines-line :
    (l rest : Bytes)
    → IsLine l
    → split_lines (l ++ rest) ≡ (l ∷ (split_lines rest).0, (split_lines rest).1)
unfolding split_lines
split_lines-line [] rest h = elim h [ ]
split_lines-line (b ∷ []) rest h = rw h (push_byte-newline (split_lines rest))
split_lines-line (b ∷ c ∷ l) rest h =
    rw (split_lines-line (c ∷ l) rest h.1)
      (push_byte-other b (c ∷ l) (split_lines rest).0 (split_lines rest).1 h.0)

-- the lines of a file are lines, and with what is left they make it up
pub push_byte-AllLines :
    (b : ℕ) (p : List Bytes × Bytes) → AllLines p.0 → AllLines (push_byte b p).0
push_byte-AllLines b ([], tail) h = elim (Bool-cases (b == newline)) [
  | inl e ↦ rw e ((nat_eq_iff b newline).0 e, tt)
  | inr e ↦ rw e tt
]
push_byte-AllLines b ([] ∷ ls, tail) h = absurd h.0
push_byte-AllLines b ((c ∷ l) ∷ ls, tail) h = elim (Bool-cases (b == newline)) [
  | inl e ↦ rw e ((nat_eq_iff b newline).0 e, h)
  | inr e ↦ rw e ((λ q. cc ((nat_eq_iff b newline).1 q, e), h.0), h.1)
]

pub concat-push_byte :
    (b : ℕ) (p : List Bytes × Bytes)
    → concat (push_byte b p).0 ++ (push_byte b p).1 ≡ b ∷ (concat p.0 ++ p.1)
concat-push_byte b ([], tail) = elim (Bool-cases (b == newline)) [
  | inl e ↦ rw e refl
  | inr e ↦ rw e refl
]
concat-push_byte b (l ∷ ls, tail) = elim (Bool-cases (b == newline)) [
  | inl e ↦ rw e refl
  | inr e ↦ rw e refl
]

pub split_lines-AllLines : (bs : Bytes) → AllLines (split_lines bs).0
unfolding split_lines
split_lines-AllLines [] = tt
split_lines-AllLines (b ∷ bs) = push_byte-AllLines b (split_lines bs) (split_lines-AllLines bs)

pub concat-split_lines : (bs : Bytes) → concat (split_lines bs).0 ++ (split_lines bs).1 ≡ bs
unfolding split_lines
concat-split_lines [] = refl
concat-split_lines (b ∷ bs) =
    concat-push_byte b (split_lines bs) ∙ ap (◌∷◌ b) (concat-split_lines bs)

pub split_lines-lines :
    (ls : List Bytes) (rest : Bytes)
    → AllLines ls
    → (split_lines (concat ls ++ rest)).0 ≡ ls ++ (split_lines rest).0
split_lines-lines [] rest h = refl
split_lines-lines (l ∷ ls) rest h =
    rw (append_assoc l (concat ls) rest, split_lines-line l (concat ls ++ rest) h.0)
      (ap (◌∷◌ l) (split_lines-lines ls rest h.1))

pub drop_append : (xs ys : Bytes) → drop (length xs) (xs ++ ys) ≡ ys
drop_append [] ys = refl
drop_append (x ∷ xs) ys = drop_append xs ys

pub drop_nil : (n : ℕ) → drop {A = ℕ} n [] ≡ []
drop_nil zero = refl
drop_nil (suc n) = refl

pub drop_sum : (m n : ℕ) (xs : Bytes) → drop (m + n) xs ≡ drop n (drop m xs)
drop_sum zero n xs = let e : 0 + n ≡ n = omega arith in ap (λ (k : ℕ). drop k xs) e
drop_sum (suc m) n [] = drop_nil (suc m + n) ∙ sym (drop_nil n)
drop_sum (suc m) n (x ∷ xs) =
    let e : suc m + n ≡ suc (m + n) = omega arith in
    ap (λ (k : ℕ). drop k (x ∷ xs)) e ∙ drop_sum m n xs

pub drop-append_le : (n : ℕ) (xs ys : Bytes) → n ≤ length xs → drop n (xs ++ ys) ≡ drop n xs ++ ys
drop-append_le zero xs ys h = refl
drop-append_le (suc n) [] ys h = absurd (omega arith)
drop-append_le (suc n) (x ∷ xs) ys h = drop-append_le n xs ys (omega arith)

pub concat-append : (ls ms : List Bytes) → concat (ls ++ ms) ≡ concat ls ++ concat ms
concat-append [] ms = refl
concat-append (l ∷ ls) ms =
    ap (λ x. l ++ x) (concat-append ls ms) ∙ sym (append_assoc l (concat ls) (concat ms))

pub AllLines-left : (ls ms : List Bytes) → AllLines (ls ++ ms) → AllLines ls
AllLines-left [] ms h = tt
AllLines-left (l ∷ ls) ms h = (h.0, AllLines-left ls ms h.1)

pub nil_of_append : (xs ys : List Bytes) → xs ++ ys ≡ xs → ys ≡ []
nil_of_append [] ys e = e
nil_of_append (x ∷ xs) ys e = nil_of_append xs ys (cc e)

pub tail-no_lines : (bs : Bytes) → (split_lines (split_lines bs).1).0 ≡ []
tail-no_lines bs = nil_of_append (split_lines bs).0 _ (
    sym (split_lines-lines (split_lines bs).0 (split_lines bs).1 (split_lines-AllLines bs))
    ∙ ap (λ x. (split_lines x).0) (concat-split_lines bs))

-- the bytes behind the start, in the lines that a read took and the rest
pub rest_of :
    (bs : Bytes) (taken left : List Bytes)
    → (split_lines bs).0 ≡ taken ++ left
    → bs ≡ concat taken ++ (concat left ++ (split_lines bs).1)
rest_of bs taken left e =
    sym (concat-split_lines bs)
    ∙ ap (λ ls. concat ls ++ (split_lines bs).1) e
    ∙ ap (λ x. x ++ (split_lines bs).1) (concat-append taken left)
    ∙ append_assoc (concat taken) (concat left) (split_lines bs).1
