-- ===== src/Prelude/Members.antt =====
-- Membership of an identifier in a list, as the code tests it.
use mathlib.Core.Path.{◌≡◌, refl}
use mathlib.Core.Logic.{◌↔◌}
use mathlib.Core.Bool.{Bool, true, false, not, ◌&&◌, ◌||◌}
use mathlib.Core.Option.{Option, none, some}
use mathlib.Core.List.{List, [], ◌∷◌, ◌++◌, Memᴰ}
use mathlib.Core.List.Memᴰ
use native.Mathlib.Omega.{arith}
use armin.Prelude.Tests.{Eq, ◌==◌}
use armin.Prelude.Lists.{Memᴰ-cons}

abbrev pub is_some {ℓ} : {A : Type ℓ} → Option A → Bool
is_some none = false
is_some (some a) = true

module _ {ℓ} {A : Type ℓ} ⦃e : Eq A⦄ where
  -- `list.contains(&x)`
  abbrev pub contains : A → List A → Bool
  contains x [] = false
  contains x (y ∷ l) = y == x || contains x l

  -- no entry stands twice
  abbrev pub unique : List A → Bool
  unique [] = true
  unique (x ∷ l) = not (contains x l) && unique l

  pub contains-append :
      (x : A) (l m : List A) → contains x (l ++ m) ≡ (contains x l || contains x m)
  contains-append x [] m = refl
  contains-append x (y ∷ l) m = ground (arith, contains-append x l m)

  pub unique-concat : (l : List A) (x : A) → unique (l ++ x ∷ []) ≡ (unique l && not (contains x l))
  unique-concat [] x = refl
  unique-concat (y ∷ l) x =
      ground (arith, unique-concat l x, contains-append y l (x ∷ []), e.beq_iff x y, e.beq_iff y x)

  pub contains_iff : (x : A) (l : List A) → (contains x l ≡ true) ↔ Memᴰ x l
  contains_iff x [] = (λ h. cc, λ m. absurd (Memᴰ.not-nil m))
  contains_iff x (y ∷ l) = ground (arith, contains_iff x l, e.beq_iff y x, Memᴰ-cons x y l)

  -- what stands in a list without repetition stands neither before nor behind its place
  pub contains-unique :
      (x : A) (known rest : List A) → unique (known ++ x ∷ rest) ≡ true → contains x known ≡ false
  contains-unique x [] rest h = refl
  contains-unique x (y ∷ known) rest h = ground (
    arith,
    contains-unique x known rest,
    contains-append y known (x ∷ rest),
    e.beq_iff y x,
    e.beq_iff x y,
  )

  pub contains-unique_behind :
      (x : A) (known rest : List A) → unique (known ++ x ∷ rest) ≡ true → contains x rest ≡ false
  contains-unique_behind x [] rest h = ground arith
  contains-unique_behind x (y ∷ known) rest h = ground (arith, contains-unique_behind x known rest)
