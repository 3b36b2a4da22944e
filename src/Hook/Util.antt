-- ===== src/Hook/Util.antt =====
-- armin-core/hook/src/util.rs: hashing, slugs, encoding and truncation. Bytes are numbers.
pub mod Encoding
pub mod Bound
use Prim.Native.Char.{Char, code, len_utf8}
use Prim.Native.Nat.{bit_xor}
use Prim.Native.String.{len, slice, char_at, ◌++◌ as concat}
use mathlib.Core.List.{foldl}
use armin.Prelude.{
  ℕ, zero, suc, ◌+◌, ◌-◌, ◌*◌, ◌/◌, ◌%◌, ◌^◌, String, Bool, true, false, not, ◌&&◌, ◌||◌, List, [],
  ◌∷◌, leb, ltb, if◌then◌else◌, ◌==◌, String_Eq, ℕ_Eq,
}
use armin.Tools.{lower_char}

-- the hash loop, `hash ^= b` and `wrapping_mul`
abbrev pub fnv_step : ℕ → ℕ → ℕ
fnv_step hash b = (bit_xor hash b * 1099511628211) % 2 ^ 64

unfoldable pub fnv64 : List ℕ → ℕ
fnv64 = foldl fnv_step 14695981039346656037

-- the eight lower hex digits, the first one first; the count is that of the digits
abbrev pub hex_digits : ℕ → ℕ → String
hex_digits zero n = ""
hex_digits (suc k) n =
    concat (hex_digits k (n / 16)) (String.◌∷◌ (char_at "0123456789abcdef" (n % 16)) "")

unfoldable pub short_hash : List ℕ → String
unfolding fnv64
short_hash bytes = hex_digits 8 (fnv64 bytes % 2 ^ 32)

abbrev pub is_ascii_alphanumeric : Char → Bool
is_ascii_alphanumeric c =
    leb b'0' (code c) && leb (code c) b'9'
    || leb b'a' (code c) && leb (code c) b'z'
    || leb b'A' (code c) && leb (code c) b'Z'

abbrev pub dash : Char
dash = char_at "-" 0

-- the loop over the characters, from the flag `last_dash`
unfoldable pub slug_chars : Bool → String → String
unfolding lower_char
slug_chars last_dash String.[] = ""
slug_chars last_dash (String.◌∷◌ c s) = elim (is_ascii_alphanumeric c) [
  | true ↦ String.◌∷◌ (lower_char c) (slug_chars false s)
  | false ↦ elim last_dash [
    | true ↦ slug_chars true s
    | false ↦ String.◌∷◌ dash (slug_chars true s)
  ]
]

-- `while out.ends_with('-') { out.pop(); }`
unfoldable pub pop_dashes : String → String
pop_dashes String.[] = ""
pop_dashes (String.◌∷◌ c s) =
    let rest = pop_dashes s in if rest == "" && code c == b'-' then "" else String.◌∷◌ c rest

unfoldable pub slugify : String → String
unfolding slug_chars pop_dashes
slugify s = pop_dashes (slug_chars true s)

abbrev pub is_unreserved : ℕ → Bool
is_unreserved b =
    leb b'A' b && leb b b'Z'
    || leb b'a' b && leb b b'z'
    || leb b'0' b && leb b b'9'
    || b == b'-'
    || b == b'.'
    || b == b'_'
    || b == b'~'

-- one digit of `{b:02X}`
abbrev pub upper_hex : ℕ → ℕ
upper_hex d = if ltb d 10 then b'0' + d else b'A' + (d - 10)

unfoldable pub percent_encode : List ℕ → List ℕ
percent_encode [] = []
percent_encode (b ∷ bs) =
    let rest = percent_encode bs in
    if is_unreserved b then b ∷ rest else b'%' ∷ upper_hex (b / 16) ∷ upper_hex (b % 16) ∷ rest

-- `s.is_char_boundary(i)`
unfoldable pub is_char_boundary : String → ℕ → Bool
is_char_boundary s zero = true
is_char_boundary String.[] (suc i) = false
is_char_boundary (String.◌∷◌ c s) (suc i) =
    let behind = is_char_boundary s (suc i - len_utf8 c) in
    if ltb (suc i) (len_utf8 c) then false else behind

-- `while end > 0 && !s.is_char_boundary(end) { end -= 1; }`
unfoldable pub floor_boundary : String → ℕ → ℕ
unfolding is_char_boundary
floor_boundary s zero = 0
floor_boundary s (suc end) =
    let lower = floor_boundary s end in if is_char_boundary s (suc end) then suc end else lower

unfoldable pub truncate : String → ℕ → String
unfolding floor_boundary
truncate s max = if leb (len s) max then s else concat (slice s 0 (floor_boundary s max)) "…"
