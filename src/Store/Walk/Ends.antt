-- ===== src/Store/Walk/Ends.antt =====
-- armin-core/graph/src/decisions.rs and risks.rs: the walk ends.
use mathlib.Core.List.{foldl}
use mathlib.Core.List.Memᴰ
use armin.Prelude.{
  ℕ, zero, suc, ◌+◌, ◌≤◌, ◌<◌, ◌≡◌, refl, ap, sym, inl, inr, Bool, false, not, some, List, [], ◌∷◌,
  ◌++◌, map, Memᴰ, Memᴰ-select, length, length-append, select, contains, contains-append, leb, ℕ_Eq,
  arith, nat_eq_iff, Bool-cases,
}
use armin.Petgraph.{StableGraph, Direction, EdgeReference}
use armin.Store.Walk.{Walk, visit, walk, all_targets, related_targets, walk_fuel, downstream}

-- the nodes of a list that are not visited
abbrev unvisited : List ℕ → List ℕ → List ℕ
unvisited visited = select (λ j. not (contains j visited))

length-unvisited_le :
    (all visited : List ℕ) (j : ℕ)
    → length (unvisited (visited ++ j ∷ []) all) ≤ length (unvisited visited all)
length-unvisited_le [] visited j = omega arith
length-unvisited_le (x ∷ all) visited j =
    ground (arith, length-unvisited_le all visited j, contains-append x visited (j ∷ []))

length-unvisited_lt :
    (all visited : List ℕ) (j : ℕ)
    → Memᴰ j all
    → contains j visited ≡ false
    → length (unvisited (visited ++ j ∷ []) all) < length (unvisited visited all)
length-unvisited_lt [] visited j m new = absurd (Memᴰ.not-nil m)
length-unvisited_lt (x ∷ all) visited j m new = elim (Memᴰ.cases_cons m) [
  | inl e ↦ ground (
    arith,
    e,
    new,
    length-unvisited_le all visited j,
    contains-append x visited (j ∷ []),
    nat_eq_iff j x,
  )
  | inr r ↦
      ground (arith, length-unvisited_lt all visited j r new, contains-append x visited (j ∷ []))
]

-- what is to be done: the queue, and the nodes that may still join it
abbrev measure : List ℕ → List (ℕ × ℕ) → List ℕ → ℕ
measure all queue visited = length queue + length (unvisited visited all)

visit-measure :
    (all : List ℕ) (d : ℕ) (w : Walk) (j : ℕ)
    → Memᴰ j all
    → measure all (visit d w j).queue (visit d w j).visited ≤ measure all w.queue w.visited
unfolding visit
visit-measure all d w j m = elim (Bool-cases (contains j w.visited)) [
  | inl known ↦ rw (known, visit) (omega arith)
  | inr new ↦
      rw (new, visit)
        (omega
          (arith, length-unvisited_lt all w.visited j m new, length-append w.queue ((j, d) ∷ [])))
]

visits-measure :
    (all : List ℕ) (d : ℕ) (js : List ℕ) (w : Walk)
    → ((j : ℕ) → Memᴰ j js → Memᴰ j all)
    → let v = foldl (visit d) w js in measure all v.queue v.visited ≤ measure all w.queue w.visited
visits-measure all d [] w h = omega arith
visits-measure all d (j ∷ js) w h = omega (
  arith,
  visit-measure all d w j (h j (Memᴰ.head refl)),
  visits-measure all d js (visit d w j) (λ k m. h k (Memᴰ.tail m)),
)

walk_total :
    (targets : ℕ → List ℕ) (all : List ℕ)
    → ((i j : ℕ) → Memᴰ j (targets i) → Memᴰ j all)
    → (depth fuel : ℕ) (queue : List (ℕ × ℕ)) (visited : List ℕ) → measure all queue visited < fuel
    → (found : List ℕ) × (walk targets depth fuel queue visited ≡ some found)
unfolding walk
walk_total targets all within depth zero queue visited h = absurd (omega arith)
walk_total targets all within depth (suc fuel) [] visited h = (visited, refl)
walk_total targets all within depth (suc fuel) ((i, d) ∷ queue) visited h =
    elim (Bool-cases (leb depth d)) [
      | inl deep ↦
          rw (deep, walk) (walk_total targets all within depth fuel queue visited (omega arith))
      | inr near ↦
          let start : Walk = record { queue = queue; visited = visited } in
          let w = foldl (visit (d + 1)) start (targets i) in
          let less = visits-measure all (d + 1) (targets i) start (within i) in
          rw (near, walk)
            (walk_total targets all within depth fuel w.queue w.visited (omega (arith, less)))
    ]

length-select_le : (p : ℕ → Bool) (l : List ℕ) → length (select p l) ≤ length l
length-select_le p [] = omega arith
length-select_le p (x ∷ l) = ground (arith, length-select_le p l)

module _ ⦃pg : StableGraph⦄ (g : pg.Graph) where
  abbrev ends : List ℕ
  ends = map (λ r. r.target) (pg.edge_references g)

  length-ends :
      (rs : List EdgeReference) → length (map (λ (r : EdgeReference). r.target) rs) ≡ length rs
  length-ends [] = refl
  length-ends (r ∷ rs) = ap suc (length-ends rs)

  all_targets-ends : (i j : ℕ) → Memᴰ j (all_targets g i) → Memᴰ j ends
  all_targets-ends i j m =
      let (r, k, e) = Memᴰ.of_map _ _ m in
      Memᴰ.cast (sym e) (Memᴰ.map _ ((pg.mem-edges_directed g Direction.outgoing i r).0 k).0)

  related_targets-ends : (i j : ℕ) → Memᴰ j (related_targets g i) → Memᴰ j ends
  related_targets-ends i j m =
      let (r, k, e) = Memᴰ.of_map _ _ m in
      Memᴰ.cast (sym e) (
        Memᴰ.map _
          ((pg.mem-edges_directed g Direction.outgoing i r).0 ((Memᴰ-select _ r _).0 k).0).0)

  downstream_total :
      (targets : ℕ → List ℕ) (start depth : ℕ)
      → ((i j : ℕ) → Memᴰ j (targets i) → Memᴰ j ends)
      → (found : List ℕ) × (downstream g targets start depth ≡ some found)
  unfolding downstream
  downstream_total targets start depth within =
      walk_total targets ends within depth (walk_fuel g) ((start, 0) ∷ []) (start ∷ []) (
        omega (
          arith,
          length-ends (pg.edge_references g),
          length-select_le (λ j. not (contains j (start ∷ []))) ends,
        ))

  -- Both walks end with an answer, from every node and to every depth: a round for each edge, one for
  -- the start and one to end are rounds enough.
  pub downstream-targets_total :
      (start depth : ℕ)
      → ((found : List ℕ) × (downstream g (all_targets g) start depth ≡ some found))
        × ((found : List ℕ) × (downstream g (related_targets g) start depth ≡ some found))
  downstream-targets_total start depth = (
    downstream_total (all_targets g) start depth all_targets-ends,
    downstream_total (related_targets g) start depth related_targets-ends,
  )
