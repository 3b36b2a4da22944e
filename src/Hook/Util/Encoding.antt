-- ===== src/Hook/Util/Encoding.antt =====
-- armin-core/hook/src/util.rs, `percent_encode`: what a decoder of query strings makes of it.
use armin.Prelude.{
  ℕ, ◌+◌, ◌-◌, ◌*◌, ◌/◌, ◌%◌, ◌<◌, ◌≡◌, refl, ap, ◌∙◌, inl, inr, true, false, ◌&&◌, Option, none,
  some, List, [], ◌∷◌, leb, if◌then◌else◌, ◌==◌, ℕ_Eq, arith, Bool-cases,
}
use armin.Hook.Util.{is_unreserved, upper_hex, percent_encode}

-- where a decoder stands: between two bytes, behind a percent sign, or behind its first digit
pub data Place : Type 0 where
  between : Place
  behind_sign : Place
  behind_digit : ℕ → Place

abbrev digit_value : ℕ → Option ℕ
digit_value c =
    if leb b'0' c && leb c b'9'
    then some (c - b'0')
    else if leb b'A' c && leb c b'F'
    then some (c - b'A' + 10)
    else if leb b'a' c && leb c b'f'
    then some (c - b'a' + 10)
    else none

abbrev and_then : Option ℕ → (ℕ → Option (List ℕ)) → Option (List ℕ)
and_then none f = none
and_then (some n) f = f n

abbrev consed : ℕ → Option (List ℕ) → Option (List ℕ)
consed b none = none
consed b (some bs) = some (b ∷ bs)

-- the decoding of RFC 3986; `none` for a sign that two digits do not follow
unfoldable pub decode : Place → List ℕ → Option (List ℕ)
decode between [] = some []
decode between (c ∷ cs) = elim (c == b'%') [
  | true ↦ decode behind_sign cs
  | false ↦ consed c (decode between cs)
]
decode behind_sign [] = none
decode behind_sign (c ∷ cs) = and_then (digit_value c) (λ h. decode (behind_digit h) cs)
decode (behind_digit h) [] = none
decode (behind_digit h) (c ∷ cs) =
    and_then (digit_value c) (λ l. consed (h * 16 + l) (decode between cs))

abbrev pub AllBytes : List ℕ → Type 0
AllBytes [] = Unit
AllBytes (b ∷ bs) = (b < 256) × AllBytes bs

digit_value-upper_hex : (d : ℕ) → d < 16 → digit_value (upper_hex d) ≡ some d
digit_value-upper_hex d h = ground arith

unreserved-sign : (b : ℕ) → is_unreserved b ≡ true → (b == b'%') ≡ false
unreserved-sign b h = ground arith

decode-plain :
    (b : ℕ) (cs : List ℕ)
    → (b == b'%') ≡ false
    → decode between (b ∷ cs) ≡ consed b (decode between cs)
unfolding decode
decode-plain b cs h = rw (h, decode) refl

decode-escaped :
    (x y h l : ℕ) (cs : List ℕ)
    → digit_value x ≡ some h
    → digit_value y ≡ some l
    → decode between (b'%' ∷ x ∷ y ∷ cs) ≡ consed (h * 16 + l) (decode between cs)
unfolding decode
decode-escaped x y h l cs p q =
    ap (λ o. and_then o (λ d. decode (behind_digit d) (y ∷ cs))) p
    ∙ ap (λ o. and_then o (λ d. consed (h * 16 + d) (decode between cs))) q

-- A text that is encoded for a query string decodes to its bytes again.
pub decode-percent_encode :
    (bs : List ℕ) → AllBytes bs → decode between (percent_encode bs) ≡ some bs
unfolding decode percent_encode
decode-percent_encode [] h = refl
decode-percent_encode (b ∷ bs) h = elim (Bool-cases (is_unreserved b)) [
  | inl plain ↦
      rw (plain, percent_encode)
        (decode-plain b (percent_encode bs) (unreserved-sign b plain)
          ∙ ap (consed b) (decode-percent_encode bs h.1))
  | inr other ↦
      rw (other, percent_encode)
        (decode-escaped (upper_hex (b / 16)) (upper_hex (b % 16)) (b / 16) (b % 16)
            (percent_encode bs) (digit_value-upper_hex (b / 16) (omega (arith, h.0)))
            (digit_value-upper_hex (b % 16) (omega arith))
          ∙ ap (consed (b / 16 * 16 + b % 16)) (decode-percent_encode bs h.1)
          ∙ ap (λ x. some (x ∷ bs)) (omega arith))
]
