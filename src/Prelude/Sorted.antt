-- ===== src/Prelude/Sorted.antt =====
-- `sort_by` with a comparison of numbers, larger ones first: a stable sort.
use Prim.Native.Nat.{ℕ, ◌≤◌}
use mathlib.Core.Path.{◌≡◌, refl}
use mathlib.Core.Logic.{◌↔◌, inl, inr}
use mathlib.Core.List.{List, [], ◌∷◌, Memᴰ}
use mathlib.Core.List.Memᴰ
use native.Mathlib.Omega.{arith}
use armin.Prelude.Tests.{if◌then◌else◌, leb, ◌==◌, ℕ_Eq, nat_eq_iff, Bool-cases}
use armin.Prelude.Lists.{select}

module _ {ℓ} {A : Type ℓ} (key : A → ℕ) where
  unfoldable pub place : A → List A → List A
  place x [] = x ∷ []
  place x (y ∷ l) = let rest = place x l in if leb (key y) (key x) then x ∷ y ∷ l else y ∷ rest

  unfoldable pub sort_desc : List A → List A
  unfolding place
  sort_desc [] = []
  sort_desc (x ∷ l) = place x (sort_desc l)

  -- no entry is above an earlier one
  abbrev pub AllBelow : ℕ → List A → Type 0
  AllBelow k [] = Unit
  AllBelow k (y ∷ l) = (key y ≤ k) × AllBelow k l

  abbrev pub IsDescending : List A → Type 0
  IsDescending [] = Unit
  IsDescending (x ∷ l) = AllBelow (key x) l × IsDescending l

  AllBelow-trans : (j k : ℕ) (l : List A) → j ≤ k → AllBelow j l → AllBelow k l
  AllBelow-trans j k [] le h = tt
  AllBelow-trans j k (y ∷ l) le h = (omega (arith, h.0), AllBelow-trans j k l le h.1)

  place-AllBelow : (k : ℕ) (x : A) (l : List A) → key x ≤ k → AllBelow k l → AllBelow k (place x l)
  unfolding place
  place-AllBelow k x [] le h = (le, tt)
  place-AllBelow k x (y ∷ l) le h = elim (Bool-cases (leb (key y) (key x))) [
    | inl t ↦ rw t (le, h)
    | inr f ↦ rw f (h.0, place-AllBelow k x l le h.1)
  ]

  place-IsDescending : (x : A) (l : List A) → IsDescending l → IsDescending (place x l)
  unfolding place
  place-IsDescending x [] h = (tt, tt)
  place-IsDescending x (y ∷ l) h = elim (Bool-cases (leb (key y) (key x))) [
    | inl t ↦
        let le : key y ≤ key x = ground arith in
        rw t ((le, AllBelow-trans (key y) (key x) l le h.0), h)
    | inr f ↦ rw f (place-AllBelow (key y) x l (ground arith) h.0, place-IsDescending x l h.1)
  ]

  pub sort_desc-IsDescending : (l : List A) → IsDescending (sort_desc l)
  unfolding sort_desc
  sort_desc-IsDescending [] = tt
  sort_desc-IsDescending (x ∷ l) = place-IsDescending x (sort_desc l) (sort_desc-IsDescending l)

  Memᴰ-place : (a x : A) (l : List A) → Memᴰ a (place x l) ↔ Memᴰ a (x ∷ l)
  unfolding place
  Memᴰ-place a x [] = (λ m. m, λ m. m)
  Memᴰ-place a x (y ∷ l) = elim (Bool-cases (leb (key y) (key x))) [
    | inl t ↦ rw t (λ m. m, λ m. m)
    | inr f ↦
        let (to, from) = Memᴰ-place a x l in
        rw f (
          λ m. elim (Memᴰ.cases_cons m) [
            | inl e ↦ Memᴰ.tail (Memᴰ.head e)
            | inr r ↦ elim (Memᴰ.cases_cons (to r)) [
              | inl e ↦ Memᴰ.head e
              | inr s ↦ Memᴰ.tail (Memᴰ.tail s)
            ]
          ],
          λ m. elim (Memᴰ.cases_cons m) [
            | inl e ↦ Memᴰ.tail (from (Memᴰ.head e))
            | inr r ↦ elim (Memᴰ.cases_cons r) [
              | inl e ↦ Memᴰ.head e
              | inr s ↦ Memᴰ.tail (from (Memᴰ.tail s))
            ]
          ],
        )
  ]

  -- sorting loses nothing and adds nothing
  pub Memᴰ-sort_desc : (a : A) (l : List A) → Memᴰ a (sort_desc l) ↔ Memᴰ a l
  unfolding sort_desc
  Memᴰ-sort_desc a [] = (λ m. m, λ m. m)
  Memᴰ-sort_desc a (x ∷ l) =
      let (to, from) = Memᴰ-sort_desc a l in
      let (out, back) = Memᴰ-place a x (sort_desc l) in
      (
        λ m. elim (Memᴰ.cases_cons (out m)) [ inl e ↦ Memᴰ.head e | inr r ↦ Memᴰ.tail (to r) ],
        λ m. elim (Memᴰ.cases_cons m) [
          | inl e ↦ back (Memᴰ.head e)
          | inr r ↦ back (Memᴰ.tail (from r))
        ],
      )

  -- the entries with one key
  abbrev pub with_key : ℕ → List A → List A
  with_key k = select (λ a. key a == k)

  with_key-place : (k : ℕ) (x : A) (l : List A) → with_key k (place x l) ≡ with_key k (x ∷ l)
  unfolding place
  with_key-place k x [] = refl
  with_key-place k x (y ∷ l) =
      ground (arith, with_key-place k x l, nat_eq_iff (key x) k, nat_eq_iff (key y) k)

  -- entries with the same key stay in their order, and there are as many of them
  pub with_key-sort_desc : (k : ℕ) (l : List A) → with_key k (sort_desc l) ≡ with_key k l
  unfolding sort_desc
  with_key-sort_desc k [] = refl
  with_key-sort_desc k (x ∷ l) =
      ground (arith, with_key-place k x (sort_desc l), with_key-sort_desc k l)
