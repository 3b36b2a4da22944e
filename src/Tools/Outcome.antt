-- ===== src/Tools/Outcome.antt =====
-- armin-core/engine/src/toolclass.rs, `check_passed`: an all-clear phrase anywhere in a text decides.
use Prim.Native.String.{◌++◌ as concat}
use text.Mathlib.TextLemmas.{nil-append, cons-append}
use armin.Prelude.{◌≡◌, refl, ap, ◌∙◌, String, true, arith, ℕ_Eq, nat_eq_iff}
use Prim.Native.Char.{code}
use armin.Tools.{to_ascii_lowercase, lower_char, has_prefix, contains_text, check_passed}

to_ascii_lowercase-append :
    (a b : String)
    → to_ascii_lowercase (concat a b) ≡ concat (to_ascii_lowercase a) (to_ascii_lowercase b)
unfolding to_ascii_lowercase
to_ascii_lowercase-append String.[] b = rw (nil-append b, nil-append (to_ascii_lowercase b)) refl
to_ascii_lowercase-append (String.◌∷◌ c a) b =
    rw (cons-append c a b, cons-append (lower_char c) (to_ascii_lowercase a) (to_ascii_lowercase b))
      (ap (String.◌∷◌ (lower_char c)) (to_ascii_lowercase-append a b))

has_prefix-append : (p b : String) → has_prefix p (concat p b) ≡ true
unfolding has_prefix
has_prefix-append String.[] b = refl
has_prefix-append (String.◌∷◌ c p) b =
    rw (cons-append c p b) (ground (arith, has_prefix-append p b, nat_eq_iff (code c) (code c)))

contains_text-prefix : (p t : String) → has_prefix p t ≡ true → contains_text p t ≡ true
unfolding contains_text
contains_text-prefix p String.[] h = h
contains_text-prefix p (String.◌∷◌ c t) h = ground arith

contains_text-append : (p a b : String) → contains_text p (concat a (concat p b)) ≡ true
unfolding contains_text
contains_text-append p String.[] b =
    rw (nil-append (concat p b)) (contains_text-prefix p (concat p b) (has_prefix-append p b))
contains_text-append p (String.◌∷◌ c a) b =
    rw (cons-append c a (concat p b)) (ground (arith, contains_text-append p a b))

-- A check whose output has `0 failed` anywhere counts as passed, whatever stands around it: a digit
-- before it too, as in `10 failed`.
pub check_passed-append : (a b : String) → check_passed (concat a (concat "0 failed" b)) ≡ true
unfolding check_passed
check_passed-append a b =
    rw (lowered, contains_text-append "0 failed" (to_ascii_lowercase a) (to_ascii_lowercase b)) refl
  where
    phrase : to_ascii_lowercase "0 failed" ≡ "0 failed"
    phrase = unfold to_ascii_lowercase in refl

    lowered :
        to_ascii_lowercase (concat a (concat "0 failed" b))
        ≡ concat (to_ascii_lowercase a) (concat "0 failed" (to_ascii_lowercase b))
    lowered =
        to_ascii_lowercase-append a (concat "0 failed" b)
        ∙ ap (concat (to_ascii_lowercase a)) (
            to_ascii_lowercase-append "0 failed" b
            ∙ ap (λ x. concat x (to_ascii_lowercase b)) phrase)
