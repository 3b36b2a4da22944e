-- ===== src/Jev/Client/Shortens.antt =====
-- armin-core/extraction/src/jev.rs, `normalize_jev_base` and `JevClient::new`: what a base loses.
use Prim.Native.Char.{Char, code}
use Prim.Native.String.compare
use Prim.Native.String.{◌++◌ as concat}
use text.Mathlib.TextLemmas.{nil-append, cons-append, append_assoc, append-nil}
use armin.Prelude.{
  ◌≡◌, refl, ap, sym, ◌∙◌, ◌≢◌, ◌⊎◌, eq_iff, inl, inr, String, Bool, true, false, ◌&&◌, ◌==◌,
  String_Eq, ℕ_Eq, arith, Bool-cases,
}
use armin.Engine.Import.{trim_end_by}
use armin.Jev.Client.{trim_slashes, without_suffix}

abbrev pub is_slash : Char → Bool
is_slash c = code c == b'/'

-- the text is the prefix that `trim_end_by` leaves, and characters that pass the test
abbrev pub AllPass : (Char → Bool) → String → Type 0
AllPass p String.[] = Unit
AllPass p (String.◌∷◌ c s) = (p c ≡ true) × AllPass p s

cons-ne-nil : (c : Char) (s : String) → String.◌∷◌ c s ≢ ""
cons-ne-nil c s e = absurd (ground (arith, compare.cons-nil c s, (eq_iff (String.◌∷◌ c s) "").1 e))

trim_end_by-rest :
    (p : Char → Bool) (s : String)
    → (rest : String) × (s ≡ concat (trim_end_by p s) rest) × AllPass p rest
unfolding trim_end_by
trim_end_by-rest p String.[] = ("", refl, tt)
trim_end_by-rest p (String.◌∷◌ c s) =
    let (rest, e, all) = trim_end_by-rest p s in
    elim (Bool-cases (trim_end_by p s == "" && p c)) [
      | inl t ↦
          let nothing : trim_end_by p s ≡ "" =
            (eq_iff (trim_end_by p s) "").0 (ground (arith, t)) in
          rw (t, trim_end_by)
            (
              String.◌∷◌ c rest,
              ap (String.◌∷◌ c) (e ∙ ap (λ x. concat x rest) nothing ∙ nil-append rest)
                  ∙ sym (nil-append (String.◌∷◌ c rest)),
              (ground (arith, t), all),
            )
      | inr t ↦
          rw (t, trim_end_by)
            (rest, ap (String.◌∷◌ c) e ∙ sym (cons-append c (trim_end_by p s) rest), all)
    ]

-- what is left ends in no character that passes the test
trim_end_by-last :
    (p : Char → Bool) (s t : String) (c : Char)
    → trim_end_by p s ≡ concat t (String.◌∷◌ c String.[])
    → p c ≡ false
unfolding trim_end_by
trim_end_by-last p String.[] String.[] c e =
    absurd (cons-ne-nil c "" (sym (e ∙ nil-append (String.◌∷◌ c String.[]))))
trim_end_by-last p String.[] (String.◌∷◌ d t) c e =
    absurd (cons-ne-nil d _ (sym (e ∙ cons-append d t (String.◌∷◌ c String.[]))))
trim_end_by-last p (String.◌∷◌ b s) String.[] c e =
    elim (Bool-cases (trim_end_by p s == "" && p b)) [
      | inl u ↦ absurd (
          cons-ne-nil c "" (sym ((rw (u, trim_end_by) at e) ∙ nil-append (String.◌∷◌ c String.[]))))
      | inr u ↦
          let only = (rw (u, trim_end_by) at e) ∙ nil-append (String.◌∷◌ c String.[]) in
          ground (arith, only, u, eq_iff (trim_end_by p s) "")
    ]
trim_end_by-last p (String.◌∷◌ b s) (String.◌∷◌ d t) c e =
    elim (Bool-cases (trim_end_by p s == "" && p b)) [
      | inl u ↦ absurd (
          cons-ne-nil d _
            (sym ((rw (u, trim_end_by) at e) ∙ cons-append d t (String.◌∷◌ c String.[]))))
      | inr u ↦
          trim_end_by-last p s t c
            (let both = (rw (u, trim_end_by) at e) ∙ cons-append d t (String.◌∷◌ c String.[]) in cc)
    ]

-- a text that is not the suffix ends in it only if what is behind its first character does
ends :
    (p : String) (c : Char) (s : String)
    → (String.◌∷◌ c s == p) ≡ false
    → ((t : String) → s ≢ concat t p)
    → (t : String) → String.◌∷◌ c s ≢ concat t p
ends p c s f no_one String.[] e =
    absurd (ground (arith, f, (eq_iff (String.◌∷◌ c s) p).1 (e ∙ nil-append p)))
ends p c s f no_one (String.◌∷◌ d t) e = no_one t (let both = e ∙ cons-append d t p in cc)

without_suffix-rest :
    (p s : String)
    → p ≢ ""
    → (rest : String) × (s ≡ concat (without_suffix p s) rest)
      × (((rest ≡ "") × ((t : String) → s ≢ concat t p)) ⊎ (rest ≡ p))
unfolding without_suffix
without_suffix-rest p String.[] filled = ("", refl, inl (refl, empty))
  where
    empty : (t : String) → "" ≢ concat t p
    empty String.[] e = filled (sym (e ∙ nil-append p))
    empty (String.◌∷◌ d t) e = cons-ne-nil d (concat t p) (sym (e ∙ cons-append d t p))
without_suffix-rest p (String.◌∷◌ c s) filled = elim (Bool-cases (String.◌∷◌ c s == p)) [
  | inl t ↦
      rw (t, without_suffix)
        (String.◌∷◌ c s, sym (nil-append (String.◌∷◌ c s)), inr ((eq_iff (String.◌∷◌ c s) p).0 t))
  | inr f ↦
      let (rest, e, one) = without_suffix-rest p s filled in
      rw (f, without_suffix)
        (
          rest,
          ap (String.◌∷◌ c) e ∙ sym (cons-append c (without_suffix p s) rest),
          elim one [
            | inr same ↦ inr same
            | inl (nothing, no_one) ↦ inl (nothing, ends p c s f no_one)
          ],
        )
]

-- The base without the slashes, the `/v1` and the slashes that it ends in; where no `/v1` goes, what
-- is left does not end in one.
pub record Shortens (base short : String) : Type 0 where
  pub first : String
  pub version : String
  pub last : String
  pub whole : base ≡ concat short (concat first (concat version last))
  pub slashes : AllPass is_slash first × AllPass is_slash last
  pub one : ((version ≡ "") × ((t : String) → short ≢ concat t "/v1")) ⊎ (version ≡ "/v1")

trim_end_by-again :
    (p : Char → Bool) (s : String) → trim_end_by p (trim_end_by p s) ≡ trim_end_by p s
unfolding trim_end_by
trim_end_by-again p String.[] = refl
trim_end_by-again p (String.◌∷◌ c s) = elim (Bool-cases (trim_end_by p s == "" && p c)) [
  | inl t ↦ rw (t, trim_end_by) refl
  | inr t ↦ rw (t, trim_end_by) (rw (trim_end_by-again p s, t) refl)
]

pub shorten : (b : String) → Shortens b (trim_slashes (without_suffix "/v1" (trim_slashes b)))
unfolding trim_slashes
shorten b =
    let outer = trim_slashes b in
    let inner = without_suffix "/v1" outer in
    let (last, e, all) = trim_end_by-rest is_slash b in
    let (version, e', one) = without_suffix-rest "/v1" outer (cons-ne-nil _ _) in
    let (first, e'', all') = trim_end_by-rest is_slash inner in
    record {
      first = first;
      version = version;
      last = last;
      whole =
          e
          ∙ ap (λ x. concat x last) (e' ∙ ap (λ x. concat x version) e'')
          ∙ append_assoc (concat (trim_end_by is_slash inner) first) version last
          ∙ append_assoc (trim_end_by is_slash inner) first (concat version last);
      slashes = (all', all);
      one = elim one [
        | inr v ↦ inr v
        | inl (nothing, no_one) ↦ inl (
          nothing,
          λ t q.
              let same : outer ≡ inner = e' ∙ ap (concat inner) nothing ∙ append-nil inner in
              no_one t
                (sym (ap (trim_end_by is_slash) (sym same) ∙ trim_end_by-again is_slash b) ∙ q),
        )
      ];
    }

pub trim_slashes-last : (s t : String) → trim_slashes s ≢ concat t "/"
unfolding trim_slashes
trim_slashes-last s t e = let last = trim_end_by-last is_slash s t _ e in cc
