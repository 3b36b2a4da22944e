-- ===== src/Summary/Delta.antt =====
-- armin-core/graph/src/summary.rs, `compute_debt_delta`: what its three counts count.
use mathlib.Core.List.Memᴰ
use armin.Prelude.{
  ℕ, suc, ◌≡◌, ◌↔◌, refl, ap, sym, ◌∙◌, inl, inr, Bool, true, not, List, [], ◌∷◌, Memᴰ, map, select,
  length, contains, arith, Bool-cases,
}
use armin.Types.Scratch.{DebtItem, DebtReport}
use armin.Summary.{
  DebtKey, DebtKey_Eq, key_eq_iff, distinct, debt_key, keys_of, difference, intersection,
  compute_debt_delta,
}
use armin.Summary.Sorted.{Same, debt_key-Same}

-- an item of the report that is the same as this one
abbrev pub Stands : DebtReport → DebtItem → Type 0
Stands r i = (j : DebtItem) × Memᴰ j r.items × Same j i

-- no two of the items are the same
abbrev pub IsApart : List DebtItem → Type 0
IsApart [] = Unit
IsApart (i ∷ l) = ((j : DebtItem) → Memᴰ j l → ¬ Same j i) × IsApart l

-- how many items there are of which `P` holds, where items that are the same count once: the
-- number of representatives
pub record Counts (P : DebtItem → Type 0) (n : ℕ) : Type 0 where
  pub items : List DebtItem
  pub many : length items ≡ n
  pub apart : IsApart items
  pub sound : (i : DebtItem) → Memᴰ i items → P i
  pub complete : (i : DebtItem) → P i → (j : DebtItem) × Memᴰ j items × Same j i

Counts-iff :
    {P Q : DebtItem → Type 0} {n : ℕ} → ((i : DebtItem) → P i ↔ Q i) → Counts P n → Counts Q n
Counts-iff same c = record {
  items = c.items;
  many = c.many;
  apart = c.apart;
  sound = λ i m. (same i).0 (c.sound i m);
  complete = λ i q. c.complete i ((same i).1 q);
}

contains-distinct : (k : DebtKey) (l : List DebtKey) → contains k (distinct l) ≡ contains k l
unfolding distinct
contains-distinct k [] = refl
contains-distinct k (x ∷ l) =
    ground (arith, contains-distinct k l, contains-distinct x l, key_eq_iff x k, key_eq_iff k x)

contains-key :
    (i : DebtItem) (l : List DebtItem)
    → (contains (debt_key i) (map debt_key l) ≡ true) ↔ ((j : DebtItem) × Memᴰ j l × Same j i)
contains-key i [] = (λ h. cc, λ (j, m, s). absurd (Memᴰ.not-nil m))
contains-key i (x ∷ l) = (
  λ h. elim (Bool-cases (contains (debt_key i) (map debt_key l))) [
    | inl t ↦ let (j, m, s) = (contains-key i l).0 t in (j, Memᴰ.tail m, s)
    | inr t ↦ (
      x,
      Memᴰ.head refl,
      (debt_key-Same x i).0 (ground (arith, t, h, key_eq_iff (debt_key x) (debt_key i))),
    )
  ],
  λ (j, m, s). elim (Memᴰ.cases_cons m) [
    | inl e ↦
        let same : debt_key x ≡ debt_key i = ap debt_key (sym e) ∙ (debt_key-Same j i).1 s in
        ground (arith, same, key_eq_iff (debt_key x) (debt_key i))
    | inr r ↦ let there = (contains-key i l).1 (j, r, s) in ground (arith, there)
  ],
)

module _ (p : DebtKey → Bool) where
  -- the items that are counted where the keys of `l` that pass are
  abbrev Passes : List DebtItem → DebtItem → Type 0
  Passes l i = Memᴰ i l × (p (debt_key i) ≡ true)

  -- the representative of an item is that of the items that are the same
  complete-Same :
      (l : List DebtItem) (n : ℕ) (c : Counts (Passes l) n) (i j : DebtItem)
      → Memᴰ j l
      → debt_key j ≡ debt_key i
      → p (debt_key i) ≡ true
      → (k : DebtItem) × Memᴰ k c.items × Same k i
  complete-Same l n c i j m e t =
      let (k, at, s) = c.complete j (m, ap p e ∙ t) in
      (k, at, (debt_key-Same k i).0 ((debt_key-Same k j).1 s ∙ e))

  Counts-select :
      (l : List DebtItem) → Counts (Passes l) (length (select p (distinct (map debt_key l))))
  unfolding distinct
  Counts-select [] = record {
    items = [];
    many = refl;
    apart = tt;
    sound = λ i m. absurd (Memᴰ.not-nil m);
    complete = λ i (m, t). absurd (Memᴰ.not-nil m);
  }
  Counts-select (x ∷ l) =
      let c = Counts-select l in
      let n = length (select p (distinct (map debt_key l))) in
      let later : (i : DebtItem) → Memᴰ i c.items → Passes (x ∷ l) i =
        λ i m. let (at, t) = c.sound i m in (Memᴰ.tail at, t) in
      let known = contains-distinct (debt_key x) (map debt_key l) in
      elim (Bool-cases (contains (debt_key x) (distinct (map debt_key l)))) [
        | inl t ↦ rw t (record {
          items = c.items;
          many = c.many;
          apart = c.apart;
          sound = later;
          complete = λ i (m, u). elim (Memᴰ.cases_cons m) [
            | inr r ↦ c.complete i (r, u)
            | inl e ↦
                let (j, at, s) = (contains-key x l).0 (sym known ∙ t) in
                complete-Same l n c i j at ((debt_key-Same j x).1 s ∙ ap debt_key (sym e)) u
          ];
        })
        | inr t ↦ elim (Bool-cases (p (debt_key x))) [
          | inl passes ↦
              rw (t, passes)
                (record {
                  items = x ∷ c.items;
                  many = ap suc c.many;
                  apart = (
                    λ j m s.
                        let there = (contains-key x l).1 (j, (c.sound j m).0, s) in
                        absurd (ground (arith, there, known, t)),
                    c.apart,
                  );
                  sound = λ i m. elim (Memᴰ.cases_cons m) [
                    | inl e ↦ (Memᴰ.head e, ap (λ y. p (debt_key y)) e ∙ passes)
                    | inr r ↦ later i r
                  ];
                  complete = λ i (m, u). elim (Memᴰ.cases_cons m) [
                    | inl e ↦ (x, Memᴰ.head refl, (debt_key-Same x i).0 (ap debt_key (sym e)))
                    | inr r ↦ let (k, at, s) = c.complete i (r, u) in (k, Memᴰ.tail at, s)
                  ];
                })
          | inr fails ↦
              rw (t, fails)
                (record {
                  items = c.items;
                  many = c.many;
                  apart = c.apart;
                  sound = later;
                  complete = λ i (m, u). elim (Memᴰ.cases_cons m) [
                    | inl e ↦
                        absurd (ground (arith, ap (λ (y : DebtItem). p (debt_key y)) e, fails, u))
                    | inr r ↦ c.complete i (r, u)
                  ];
                })
        ]
      ]

module _ (r other : DebtReport) where
  -- an item of one report that stands in the other, or does not
  Stands-iff : (i : DebtItem) → (contains (debt_key i) (keys_of other) ≡ true) ↔ Stands other i
  Stands-iff i =
      let known = contains-distinct (debt_key i) (map debt_key other.items) in
      (
        λ h. (contains-key i other.items).0 (sym known ∙ h),
        λ s. known ∙ (contains-key i other.items).1 s,
      )

  Counts-difference :
      Counts
        (λ i. Memᴰ i r.items × (¬ Stands other i))
        (length (difference (keys_of r) (keys_of other)))
  Counts-difference =
      Counts-iff
        (λ i. (
          λ (m, t). (m, λ s. let there = (Stands-iff i).1 s in ground (arith, there, t)),
          λ (m, none_there). (
            m,
            elim (Bool-cases (contains (debt_key i) (keys_of other))) [
              | inl t ↦ absurd (none_there ((Stands-iff i).0 t))
              | inr t ↦ ground (arith, t)
            ],
          ),
        ))
        (Counts-select (λ k. not (contains k (keys_of other))) r.items)

  Counts-intersection :
      Counts
        (λ i. Memᴰ i r.items × Stands other i)
        (length (intersection (keys_of r) (keys_of other)))
  Counts-intersection =
      Counts-iff (λ i. (λ (m, t). (m, (Stands-iff i).0 t), λ (m, s). (m, (Stands-iff i).1 s)))
        (Counts-select (λ k. contains k (keys_of other)) r.items)

-- Two items are the same if they have one type and the same identifiers in whatever order. Then, with
-- items that are the same counted once, `new` counts the items of the current report that do not
-- stand in the prior one, `resolved` those of the prior one that do not stand in the current one, and
-- `persisted` those of the current one that stand in the prior one.
pub compute_debt_delta_lem :
    (current prior : DebtReport)
    → let d = compute_debt_delta current prior in
      Counts (λ i. Memᴰ i current.items × (¬ Stands prior i)) d.new
      × Counts (λ i. Memᴰ i prior.items × (¬ Stands current i)) d.resolved
      × Counts (λ i. Memᴰ i current.items × Stands prior i) d.persisted
unfolding compute_debt_delta
compute_debt_delta_lem current prior = (
  Counts-difference current prior,
  Counts-difference prior current,
  Counts-intersection current prior,
)
