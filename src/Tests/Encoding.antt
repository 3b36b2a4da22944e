-- ===== src/Tests/Encoding.antt =====
-- The theorems on the helpers of the hook at concrete inputs.
use Prim.Native.String.{len, ◌++◌ as concat}
use armin.Prelude.{ℕ, ◌+◌, ◌≡◌, ◌≤◌, ◌<◌, refl, String, some, List, [], ◌∷◌, arith}
use armin.Hook.Util.{percent_encode, truncate, fnv64, slugify}
use armin.Hook.Util.Encoding.{decode, between, AllBytes, decode-percent_encode}
use armin.Hook.Util.Bound.{truncate_lem}

-- `a/b c`
abbrev path : List ℕ
path = 97 ∷ 47 ∷ 98 ∷ 32 ∷ 99 ∷ []

path-AllBytes : AllBytes path
path-AllBytes = (omega arith, (omega arith, (omega arith, (omega arith, (omega arith, tt)))))

decode-percent_encode_example : decode between (percent_encode path) ≡ some path
decode-percent_encode_example = decode-percent_encode path path-AllBytes

truncate_example :
    ((len "héllo" ≤ 3) → (truncate "héllo" 3 ≡ "héllo"))
    × ((3 < len "héllo")
        → (kept : String) × (truncate "héllo" 3 ≡ concat kept "…")
          × ((rest : String) × (concat kept rest ≡ "héllo"))
          × (len kept ≤ 3))
    × (len (truncate "héllo" 3) ≤ 3 + 3)
truncate_example = truncate_lem "héllo" 3

six_bytes : len (truncate "héllo" 3) ≡ 6
unfolding truncate
six_bytes = refl

hash_of_a : fnv64 (97 ∷ []) ≡ 12638187200555641996
unfolding fnv64
hash_of_a = refl

slug_of_url : slugify "https://github.com/a/b.git" ≡ "https-github-com-a-b-git"
unfolding slugify
slug_of_url = refl
