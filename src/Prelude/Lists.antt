-- ===== src/Prelude/Lists.antt =====
-- Lists under Boolean predicates and native numbers.
use Prim.Native.Nat.{ℕ, zero, suc, ◌+◌, ◌-◌, ◌≤◌, min}
use mathlib.Core.Path.{◌≡◌, refl, ap, sym, ◌∙◌, subst}
use mathlib.Core.Logic.{◌↔◌, ◌⊎◌, inl, inr, ⊎_elim}
use mathlib.Core.Bool.{Bool, true, false, ◌||◌}
use mathlib.Core.List.{List, [], ◌∷◌, ◌++◌, Memᴰ, map, flat_map, filter_map, reverse, reverse-cons}
use mathlib.Core.List.Memᴰ
use mathlib.Core.Option.{Option, none, some}
use native.Mathlib.Omega.{arith}
use armin.Prelude.Tests.{if◌then◌else◌, Bool-cases, Option-cases}

module _ {ℓ} {A : Type ℓ} where
  abbrev pub length : List A → ℕ
  length [] = 0
  length (x ∷ xs) = suc (length xs)

  abbrev pub get_elem? : List A → ℕ → Option A
  get_elem? [] i = none
  get_elem? (x ∷ xs) zero = some x
  get_elem? (x ∷ xs) (suc i) = get_elem? xs i

  abbrev pub take : ℕ → List A → List A
  take zero xs = []
  take (suc n) [] = []
  take (suc n) (x ∷ xs) = x ∷ take n xs

  abbrev pub drop : ℕ → List A → List A
  drop zero xs = xs
  drop (suc n) [] = []
  drop (suc n) (x ∷ xs) = drop n xs

  -- `iter().any(p)`
  abbrev pub any : (A → Bool) → List A → Bool
  any p [] = false
  any p (x ∷ xs) = p x || any p xs

  -- `iter().filter(p)`; the library's `filter` goes by a decision
  abbrev pub select : (A → Bool) → List A → List A
  select p [] = []
  select p (x ∷ xs) = if p x then x ∷ select p xs else select p xs

module _ {ℓ} {A : Type ℓ} where
  pub length-append : (xs ys : List A) → length (xs ++ ys) ≡ length xs + length ys
  length-append [] ys = omega arith
  length-append (x ∷ xs) ys = omega (arith, length-append xs ys)

  pub length-take : (n : ℕ) (xs : List A) → length (take n xs) ≡ min n (length xs)
  length-take zero xs = omega arith
  length-take (suc n) [] = omega arith
  length-take (suc n) (x ∷ xs) = omega (arith, length-take n xs)

  pub length-drop : (n : ℕ) (xs : List A) → length (drop n xs) ≡ length xs - n
  length-drop zero xs = omega arith
  length-drop (suc n) [] = omega arith
  length-drop (suc n) (x ∷ xs) = omega (arith, length-drop n xs)

  pub take_of_length-le : (k : ℕ) (l : List A) → length l ≤ k → take k l ≡ l
  take_of_length-le zero [] short = refl
  take_of_length-le zero (x ∷ l) short = absurd (omega arith)
  take_of_length-le (suc k) [] short = refl
  take_of_length-le (suc k) (x ∷ l) short = ap (◌∷◌ x) (take_of_length-le k l (omega arith))

  pub length-select-le : (p : A → Bool) (xs : List A) → length (select p xs) ≤ length xs
  length-select-le p [] = omega arith
  length-select-le p (x ∷ xs) = ground (arith, length-select-le p xs)

  pub Memᴰ-cons : (a x : A) (xs : List A) → Memᴰ a (x ∷ xs) ↔ ((a ≡ x) ⊎ Memᴰ a xs)
  Memᴰ-cons a x xs = (Memᴰ.cases_cons, ⊎_elim Memᴰ.head Memᴰ.tail)

  pub Memᴰ-append : (a : A) (xs ys : List A) → Memᴰ a (xs ++ ys) ↔ (Memᴰ a xs ⊎ Memᴰ a ys)
  Memᴰ-append a xs ys = (Memᴰ.append_cases xs, ⊎_elim (Memᴰ.append_left ys) (Memᴰ.append_right xs))

  pub Memᴰ-concat : (a x : A) (xs : List A) → Memᴰ a (xs ++ x ∷ []) ↔ (Memᴰ a xs ⊎ (a ≡ x))
  Memᴰ-concat a x xs = (
    λ m. ⊎_elim inl (λ last. inr (Memᴰ.eq_of_singleton last)) (Memᴰ.append_cases xs m),
    ⊎_elim (Memᴰ.append_left _) (λ e. Memᴰ.append_right xs (Memᴰ.head e)),
  )

  pub Memᴰ-select :
      (p : A → Bool) (a : A) (xs : List A) → Memᴰ a (select p xs) ↔ (Memᴰ a xs × (p a ≡ true))
  Memᴰ-select p a [] = (λ m. absurd (Memᴰ.not-nil m), λ m. absurd (Memᴰ.not-nil m.0))
  Memᴰ-select p a (x ∷ xs) = elim (Bool-cases (p x)) [
    | inl e ↦ rw e (
      λ m.
          ⊎_elim (λ q. (Memᴰ.head q, ap p q ∙ e))
            (λ r. let h = (Memᴰ-select p a xs).0 r in (Memᴰ.tail h.0, h.1)) (Memᴰ.cases_cons m),
      λ m.
          ⊎_elim (λ q. Memᴰ.head q) (λ r. Memᴰ.tail ((Memᴰ-select p a xs).1 (r, m.1)))
            (Memᴰ.cases_cons m.0),
    )
    | inr e ↦ rw e (
      λ m. let h = (Memᴰ-select p a xs).0 m in (Memᴰ.tail h.0, h.1),
      λ m.
          ⊎_elim (λ q. absurd (cc (ap p q))) (λ r. (Memᴰ-select p a xs).1 (r, m.1))
            (Memᴰ.cases_cons m.0),
    )
  ]

  pub any_iff :
      (p : A → Bool) (xs : List A) → (any p xs ≡ true) ↔ ((x : A) × Memᴰ x xs × (p x ≡ true))
  any_iff p [] = (λ h. cc, λ (x, m, q). absurd (Memᴰ.not-nil m))
  any_iff p (x ∷ xs) = (
    λ h. elim (Bool-cases (p x)) [
      | inl e ↦ (x, Memᴰ.head refl, e)
      | inr e ↦ let (y, m, q) = (any_iff p xs).0 (rw e at h) in (y, Memᴰ.tail m, q)
    ],
    λ (y, m, q). elim (Memᴰ.cases_cons m) [
      | inl e ↦ rw (← e, q) refl
      | inr r ↦ ground (arith, (any_iff p xs).1 (y, r, q))
    ],
  )

  pub Memᴰ-reverse : (a : A) (xs : List A) → Memᴰ a (reverse xs) ↔ Memᴰ a xs
  Memᴰ-reverse a [] = (λ m. m, λ m. m)
  Memᴰ-reverse a (x ∷ xs) = rw (reverse-cons x xs) (
    λ m.
        ⊎_elim (λ r. Memᴰ.tail ((Memᴰ-reverse a xs).0 r)) Memᴰ.head
          ((Memᴰ-concat a x (reverse xs)).0 m),
    λ m.
        (Memᴰ-concat a x (reverse xs)).1
          (⊎_elim inr (λ r. inl ((Memᴰ-reverse a xs).1 r)) (Memᴰ.cases_cons m)),
  )

module _ {ℓ κ} {A : Type ℓ} {B : Type κ} where
  pub mem-map :
      (f : A → B) (b : B) (xs : List A) → Memᴰ b (map f xs) → (a : A) × Memᴰ a xs × (b ≡ f a)
  mem-map f b [] m = absurd (Memᴰ.not-nil m)
  mem-map f b (x ∷ xs) m = elim (Memᴰ.cases_cons m) [
    | inl e ↦ (x, Memᴰ.head refl, e)
    | inr r ↦ let (a, n, q) = mem-map f b xs r in (a, Memᴰ.tail n, q)
  ]

  pub Memᴰ-flat_map :
      (f : A → List B) (b : B) (xs : List A)
      → Memᴰ b (flat_map f xs) ↔ ((a : A) × Memᴰ a xs × Memᴰ b (f a))
  unfolding flat_map
  Memᴰ-flat_map f b [] = (λ m. absurd (Memᴰ.not-nil m), λ (a, m, _). absurd (Memᴰ.not-nil m))
  Memᴰ-flat_map f b (x ∷ xs) = (
    λ m. elim (Memᴰ.append_cases (f x) m) [
      | inl h ↦ (x, Memᴰ.head refl, h)
      | inr r ↦ let (a, n, k) = (Memᴰ-flat_map f b xs).0 r in (a, Memᴰ.tail n, k)
    ],
    λ (a, m, n). elim (Memᴰ.cases_cons m) [
      | inl e ↦ Memᴰ.append_left _ (subst (λ y. Memᴰ b (f y)) e n)
      | inr r ↦ Memᴰ.append_right (f x) ((Memᴰ-flat_map f b xs).1 (a, r, n))
    ],
  )

  pub Memᴰ-filter_map :
      (f : A → Option B) (b : B) (xs : List A)
      → Memᴰ b (filter_map f xs) ↔ ((a : A) × Memᴰ a xs × (f a ≡ some b))
  unfolding filter_map
  Memᴰ-filter_map f b [] = (λ m. absurd (Memᴰ.not-nil m), λ (a, m, _). absurd (Memᴰ.not-nil m))
  Memᴰ-filter_map f b (x ∷ xs) = elim (Option-cases (f x)) [
    | inl e ↦
        rw (e, filter_map)
          (
            λ m. let (a, n, k) = (Memᴰ-filter_map f b xs).0 m in (a, Memᴰ.tail n, k),
            λ (a, m, k). elim (Memᴰ.cases_cons m) [
              | inl q ↦ absurd (cc (ap f q, e, k))
              | inr r ↦ (Memᴰ-filter_map f b xs).1 (a, r, k)
            ],
          )
    | inr (c, e) ↦
        rw (e, filter_map)
          (
            λ m. elim (Memᴰ.cases_cons m) [
              | inl q ↦ (x, Memᴰ.head refl, e ∙ ap some (sym q))
              | inr r ↦ let (a, n, k) = (Memᴰ-filter_map f b xs).0 r in (a, Memᴰ.tail n, k)
            ],
            λ (a, m, k). elim (Memᴰ.cases_cons m) [
              | inl q ↦ Memᴰ.head (cc (ap f q, e, k))
              | inr r ↦ Memᴰ.tail ((Memᴰ-filter_map f b xs).1 (a, r, k))
            ],
          )
  ]

  pub flat_map-nil :
      (f : A → List B) (xs : List A) → ((x : A) → Memᴰ x xs → f x ≡ []) → flat_map f xs ≡ []
  unfolding flat_map
  flat_map-nil f [] h = refl
  flat_map-nil f (x ∷ xs) h =
      rw (h x (Memᴰ.head refl)) (flat_map-nil f xs (λ y m. h y (Memᴰ.tail m)))

pub select-nil {ℓ} :
    {A : Type ℓ} (p : A → Bool) (xs : List A)
    → ((x : A) → Memᴰ x xs → p x ≡ false)
    → select p xs ≡ []
select-nil p [] h = refl
select-nil p (x ∷ xs) h = rw (h x (Memᴰ.head refl)) (select-nil p xs (λ y m. h y (Memᴰ.tail m)))
