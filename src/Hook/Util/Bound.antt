-- ===== src/Hook/Util/Bound.antt =====
-- armin-core/hook/src/util.rs, `truncate`: what stays of a text, and how long it can be.
use Prim.Native.Char.{Char, len_utf8}
use Prim.Native.Nat.{Ordering, compare}
use Prim.Native.String.{len, slice, fits, ◌++◌ as concat}
use Prim.Native.String.slice
use Prim.Native.String.len
use text.Mathlib.TextEquality.{slice-prefix}
use text.Mathlib.TextPositions.{len-append}
use armin.Prelude.{
  ℕ, zero, suc, ◌+◌, ◌-◌, ◌≤◌, ◌<◌, ◌≡◌, refl, inl, inr, String, leb, arith, Bool-cases,
}
use armin.Hook.Util.{floor_boundary, truncate}

slice-nil : (k : ℕ) → slice "" 0 k ≡ ""
slice-nil k = λ j. slice.nil 0 k j

slice-cons :
    (c : Char) (s : String) (k : ℕ)
    → slice (String.◌∷◌ c s) 0 k ≡ fits (compare (len_utf8 c) k) c (slice s 0 (k - len_utf8 c))
slice-cons c s k = λ j. slice.cons-zero c s k j

len-cons : (c : Char) (s : String) → len (String.◌∷◌ c s) ≡ len_utf8 c + len s
len-cons c s = λ j. len.cons c s j

len-nil : len "" ≡ 0
len-nil = λ j. len.nil j

len-fits_le :
    (o : Ordering) (c : Char) (s : String) (k : ℕ)
    → compare (len_utf8 c) k ≡ o
    → len s ≤ k - len_utf8 c
    → len (fits o c s) ≤ k
len-fits_le Ordering.lt c s k e h = ground (arith, len-cons c s)
len-fits_le Ordering.eq c s k e h = ground (arith, len-cons c s)
len-fits_le Ordering.gt c s k e h = ground (arith, len-nil)

len-slice_le : (s : String) (k : ℕ) → len (slice s 0 k) ≤ k
len-slice_le String.[] k = rw (slice-nil k) (omega (arith, len-nil))
len-slice_le (String.◌∷◌ c s) k =
    rw (slice-cons c s k)
      (len-fits_le (compare (len_utf8 c) k) c _ k refl (len-slice_le s (k - len_utf8 c)))

floor_boundary_le : (s : String) (k : ℕ) → floor_boundary s k ≤ k
unfolding floor_boundary
floor_boundary_le s zero = omega arith
floor_boundary_le s (suc k) = ground (arith, floor_boundary_le s k)

-- A text that fits is kept. Any other is cut to its beginning of at most `max` bytes, and an ellipsis
-- is put behind it; the result has at most `max` and three bytes.
pub truncate_lem :
    (s : String) (max : ℕ)
    → ((len s ≤ max) → (truncate s max ≡ s))
      × ((max < len s)
          → (kept : String) × (truncate s max ≡ concat kept "…")
            × ((rest : String) × (concat kept rest ≡ s))
            × (len kept ≤ max))
      × (len (truncate s max) ≤ max + 3)
unfolding truncate
truncate_lem s max = elim (Bool-cases (leb (len s) max)) [
  | inl fits_in ↦
      rw fits_in (λ h. refl, λ over. absurd (ground (arith, fits_in)), ground (arith, fits_in))
  | inr long ↦ rw long (
    λ h. absurd (ground (arith, long)),
    λ over. (kept, refl, slice-prefix s (floor_boundary s max), short),
    omega (arith, short, len-append kept "…", dots),
  )
]
  where
    kept : String
    kept = slice s 0 (floor_boundary s max)

    short : len kept ≤ max
    short = omega (arith, len-slice_le s (floor_boundary s max), floor_boundary_le s max)

    dots : len "…" ≡ 3
    dots = refl
