-- ===== src/Text/Sessions.antt =====
-- armin-core/graph/src/utils.rs: positions in the insertion-ordered session list.
use armin.Prelude.{
  contains, unique, is_some, refl, zero, ◌≡◌, ◌++◌, arith, length, eq_iff, ℕ, suc, String, Option,
  none, some, List, [], ◌∷◌, get_elem?, ltb, true, false, ◌+◌, ◌/◌, ◌%◌, if◌then◌else◌, ◌==◌,
  String_Eq,
}
use mathlib.Core.Option
use Prim.Native.String.{char_at, ◌++◌ as concat}

-- `iter().position(|s| s == x)`
unfoldable pub session_index : List String → String → Option ℕ
session_index [] x = none
session_index (s ∷ l) x = if s == x then some 0 else Option.map suc (session_index l x)

-- the decimal digits of a number; the fuel is any number that is not below it
unfoldable pub decimal : ℕ → ℕ → String
decimal zero n = String.◌∷◌ (char_at "0123456789" n) ""
decimal (suc fuel) n = elim (ltb n 10) [
  | true ↦ String.◌∷◌ (char_at "0123456789" n) ""
  | false ↦ concat (decimal fuel (n / 10)) (String.◌∷◌ (char_at "0123456789" (n % 10)) "")
]

unfoldable pub session_short_name : List String → String → String
unfolding session_index decimal
session_short_name sessions sid = elim (session_index sessions sid) [
  | none ↦ sid
  | some i ↦ concat "S" (decimal (i + 1) (i + 1))
]

unfoldable pub session_id_at_index : List String → ℕ → Option String
session_id_at_index = get_elem?

pub session_index-append :
    (l m : List String) (x : String) (i : ℕ)
    → session_index l x ≡ some i
    → session_index (l ++ m) x ≡ some i
unfolding session_index
session_index-append [] m x i h = cc
session_index-append (s ∷ l) m x zero h = ground (arith, session_index-append l m x)
session_index-append (s ∷ l) m x (suc i) h = ground (arith, session_index-append l m x i)

pub session_index-concat :
    (l : List String) (x : String)
    → session_index l x ≡ none
    → session_index (l ++ x ∷ []) x ≡ some (length l)
unfolding session_index
session_index-concat [] x h = ground (arith, eq_iff x x)
session_index-concat (s ∷ l) x h = ground (arith, session_index-concat l x)

-- the session at its position
pub get_elem?-session_index :
    (l : List String) (x : String) (i : ℕ)
    → session_index l x ≡ some i
    → session_id_at_index l i ≡ some x
unfolding session_index session_id_at_index
get_elem?-session_index [] x i h = cc
get_elem?-session_index (s ∷ l) x zero h = ground (arith, get_elem?-session_index l x, eq_iff s x)
get_elem?-session_index (s ∷ l) x (suc i) h = ground (arith, get_elem?-session_index l x i)

contains-get_elem? :
    (l : List String) (x : String) (i : ℕ) → session_id_at_index l i ≡ some x → contains x l ≡ true
unfolding session_id_at_index
contains-get_elem? [] x i h = cc
contains-get_elem? (s ∷ l) x zero h = ground (arith, eq_iff s x)
contains-get_elem? (s ∷ l) x (suc i) h = ground (arith, contains-get_elem? l x i)

-- in a list without repetition, a session stands where it is found
pub session_index-get_elem? :
    (l : List String) (x : String) (i : ℕ)
    → unique l ≡ true
    → session_id_at_index l i ≡ some x
    → session_index l x ≡ some i
unfolding session_index session_id_at_index
session_index-get_elem? [] x i u h = cc
session_index-get_elem? (s ∷ l) x zero u h = ground (arith, eq_iff s x)
session_index-get_elem? (s ∷ l) x (suc i) u h =
    ground (arith, session_index-get_elem? l x i, contains-get_elem? l x i h, eq_iff s x)

-- before a session there is another, or it is the first
pub get_elem?-before :
    (l : List String) (i : ℕ)
    → is_some (session_id_at_index l (suc i)) ≡ true
    → is_some (session_id_at_index l i) ≡ true
unfolding session_id_at_index
get_elem?-before [] i h = cc
get_elem?-before (s ∷ l) zero h = refl
get_elem?-before (s ∷ l) (suc i) h = get_elem?-before l i h
