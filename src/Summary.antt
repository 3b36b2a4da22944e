-- ===== src/Summary.antt =====
-- armin-core/graph/src/summary.rs, `compute_debt_delta`: what changed between two debt reports.
-- A hash set is a list without repetition.
pub mod Sorted
pub mod Delta
pub mod Executive
use Prim.Native.Nat.{Ordering}
use Prim.Native.String.{compare}
use armin.Prelude.{
  ℕ, ◌≡◌, ◌↔◌, ap, refl, String, Bool, true, false, not, ◌&&◌, List, [], ◌∷◌, map, select, length,
  contains, arith, if◌then◌else◌, ◌==◌, Eq, String_Eq, eq_iff,
}
use armin.Types.Scratch.{DebtItem, DebtReport}

pub record DebtDelta : Type 0 where
  pub new : ℕ
  pub resolved : ℕ
  pub persisted : ℕ

abbrev pub str_le : String → String → Bool
str_le a b = elim (compare a b) [ Ordering.gt ↦ false | _ ↦ true ]

-- `sort()`
unfoldable pub sorted_insert : String → List String → List String
sorted_insert x [] = x ∷ []
sorted_insert x (y ∷ l) = let rest = sorted_insert x l in if str_le x y then x ∷ y ∷ l else y ∷ rest

unfoldable pub sort : List String → List String
unfolding sorted_insert
sort [] = []
sort (x ∷ l) = sorted_insert x (sort l)

-- the type of an item and its sorted identifiers
pub record DebtKey : Type 0 where
  pub debt_type : String
  pub ids : List String

abbrev pub ids_eq : List String → List String → Bool
ids_eq [] [] = true
ids_eq (a ∷ l) (b ∷ m) = a == b && ids_eq l m
ids_eq _ _ = false

pub ids_eq_iff : (l m : List String) → (ids_eq l m ≡ true) ↔ (l ≡ m)
ids_eq_iff [] [] = (λ h. refl, λ h. refl)
ids_eq_iff [] (b ∷ m) = ground arith
ids_eq_iff (a ∷ l) [] = ground arith
ids_eq_iff (a ∷ l) (b ∷ m) = ground (arith, eq_iff a b, ids_eq_iff l m)

abbrev pub key_eq : DebtKey → DebtKey → Bool
key_eq a b = a.debt_type == b.debt_type && ids_eq a.ids b.ids

pub key_eq_iff : (a b : DebtKey) → (key_eq a b ≡ true) ↔ (a ≡ b)
key_eq_iff a b = ground (arith, eq_iff a.debt_type b.debt_type, ids_eq_iff a.ids b.ids)

instance abbrev pub DebtKey_Eq : Eq DebtKey
DebtKey_Eq = record { beq = key_eq; beq_iff = key_eq_iff }

unfoldable pub debt_key : DebtItem → DebtKey
unfolding sort
debt_key i = record { debt_type = i.debt_type; ids = sort i.node_ids }

-- `collect()` into a set
unfoldable pub distinct : List DebtKey → List DebtKey
distinct [] = []
distinct (k ∷ l) = let rest = distinct l in if contains k rest then rest else k ∷ rest

abbrev pub keys_of : DebtReport → List DebtKey
keys_of r = distinct (map debt_key r.items)

abbrev pub difference : List DebtKey → List DebtKey → List DebtKey
difference a b = select (λ k. not (contains k b)) a

abbrev pub intersection : List DebtKey → List DebtKey → List DebtKey
intersection a b = select (λ k. contains k b) a

unfoldable pub compute_debt_delta : DebtReport → DebtReport → DebtDelta
unfolding distinct debt_key
compute_debt_delta current prior = record {
  new = length (difference (keys_of current) (keys_of prior));
  resolved = length (difference (keys_of prior) (keys_of current));
  persisted = length (intersection (keys_of current) (keys_of prior));
}
