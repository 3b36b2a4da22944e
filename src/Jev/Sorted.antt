-- ===== src/Jev/Sorted.antt =====
-- armin-core/extraction/src/jev.rs, `candidate_pairs`: the candidates are sorted by time.
use mathlib.Core.List.Memᴰ
use armin.Prelude.{
  ℕ, ◌≤◌, ◌≡◌, ◌⊎◌, ◌↔◌, inl, inr, List, [], ◌∷◌, Memᴰ, Memᴰ-cons, String_Eq, ℕ_Eq, arith,
  Bool-cases,
}
use armin.Types.{ArgumentNode}
use armin.Jev.Pairs.{not_after, place_node, sort_nodes}

-- no node is stamped before an earlier one
abbrev pub AllAfter : ℕ → List ArgumentNode → Type 0
AllAfter t [] = Unit
AllAfter t (a ∷ l) = (t ≤ a.timestamp) × AllAfter t l

abbrev pub IsChronological : List ArgumentNode → Type 0
IsChronological [] = Unit
IsChronological (a ∷ l) = AllAfter a.timestamp l × IsChronological l

AllAfter-trans : (s t : ℕ) (l : List ArgumentNode) → s ≤ t → AllAfter t l → AllAfter s l
AllAfter-trans s t [] le h = tt
AllAfter-trans s t (a ∷ l) le h = (omega (arith, h.0), AllAfter-trans s t l le h.1)

pub AllAfter-mem :
    (t : ℕ) (l : List ArgumentNode) (a : ArgumentNode) → AllAfter t l → Memᴰ a l → t ≤ a.timestamp
AllAfter-mem t [] a h m = absurd (Memᴰ.not-nil m)
AllAfter-mem t (b ∷ l) a h m = elim (Memᴰ.cases_cons m) [
  | inl e ↦ rw e h.0
  | inr r ↦ AllAfter-mem t l a h.1 r
]

place_node-AllAfter :
    (t : ℕ) (a : ArgumentNode) (l : List ArgumentNode)
    → t ≤ a.timestamp
    → AllAfter t l
    → AllAfter t (place_node a l)
unfolding place_node
place_node-AllAfter t a [] le h = (le, tt)
place_node-AllAfter t a (b ∷ l) le h = elim (Bool-cases (not_after a b)) [
  | inl p ↦ rw (p, place_node) (le, h)
  | inr p ↦ rw (p, place_node) (h.0, place_node-AllAfter t a l le h.1)
]

place_node-IsChronological :
    (a : ArgumentNode) (l : List ArgumentNode)
    → IsChronological l
    → IsChronological (place_node a l)
unfolding place_node
place_node-IsChronological a [] h = (tt, tt)
place_node-IsChronological a (b ∷ l) h = elim (Bool-cases (not_after a b)) [
  | inl p ↦
      let le : a.timestamp ≤ b.timestamp = ground (arith, p) in
      rw (p, place_node) ((le, AllAfter-trans a.timestamp b.timestamp l le h.0), h)
  | inr p ↦
      let le : b.timestamp ≤ a.timestamp = ground (arith, p) in
      rw (p, place_node)
        (place_node-AllAfter b.timestamp a l le h.0, place_node-IsChronological a l h.1)
]

pub sort_nodes-IsChronological : (l : List ArgumentNode) → IsChronological (sort_nodes l)
unfolding sort_nodes
sort_nodes-IsChronological [] = tt
sort_nodes-IsChronological (a ∷ l) =
    place_node-IsChronological a (sort_nodes l) (sort_nodes-IsChronological l)

mem-place_node :
    (x a : ArgumentNode) (l : List ArgumentNode) → Memᴰ x (place_node a l) ↔ ((x ≡ a) ⊎ Memᴰ x l)
unfolding place_node
mem-place_node x a [] = Memᴰ-cons x a []
mem-place_node x a (b ∷ l) = elim (Bool-cases (not_after a b)) [
  | inl p ↦ rw (p, place_node) (Memᴰ-cons x a (b ∷ l))
  | inr p ↦
      let (to, from) = mem-place_node x a l in
      rw (p, place_node)
        (
          λ m. elim ((Memᴰ-cons x b (place_node a l)).0 m) [
            | inl e ↦ inr (Memᴰ.head e)
            | inr r ↦ elim (to r) [ inl e ↦ inl e | inr s ↦ inr (Memᴰ.tail s) ]
          ],
          λ m. elim m [
            | inl e ↦ Memᴰ.tail (from (inl e))
            | inr r ↦ elim ((Memᴰ-cons x b l).0 r) [
              | inl e ↦ Memᴰ.head e
              | inr s ↦ Memᴰ.tail (from (inr s))
            ]
          ],
        )
]

pub mem-sort_nodes : (x : ArgumentNode) (l : List ArgumentNode) → Memᴰ x (sort_nodes l) ↔ Memᴰ x l
unfolding sort_nodes
mem-sort_nodes x [] = (λ m. m, λ m. m)
mem-sort_nodes x (a ∷ l) =
    let (to, from) = mem-sort_nodes x l in
    let (out, back) = mem-place_node x a (sort_nodes l) in
    (
      λ m. elim (out m) [ inl e ↦ Memᴰ.head e | inr r ↦ Memᴰ.tail (to r) ],
      λ m. elim ((Memᴰ-cons x a l).0 m) [ inl e ↦ back (inl e) | inr r ↦ back (inr (from r)) ],
    )
