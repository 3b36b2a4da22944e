-- ===== src/Store/Walk.antt =====
-- armin-core/graph/src: the breadth-first walk that decisions.rs and risks.rs share, up to a depth
-- from one node, with a queue of nodes and their depths. Fuel bounds the rounds; `none` is its end.
pub mod Ends
use mathlib.Core.List.{foldl}
use armin.Prelude.{
  ℕ, zero, suc, ◌+◌, true, false, Option, none, some, List, [], ◌∷◌, ◌++◌, map, length, select,
  contains, leb, if◌then◌else◌, ◌==◌, ℕ_Eq,
}
use armin.Types.{EdgeType, EdgeType_Eq}
use armin.Petgraph.{StableGraph, Direction, EdgeReference}

-- the queue, and the nodes that were visited, in the order in which they were
pub record Walk : Type 0 where
  pub queue : List (ℕ × ℕ)
  pub visited : List ℕ

-- `if visited.insert(tgt) { queue.push_back((tgt, d + 1)) }`
unfoldable pub visit : ℕ → Walk → ℕ → Walk
visit depth w j =
    if contains j w.visited
    then w
    else record { queue = w.queue ++ (j, depth) ∷ []; visited = w.visited ++ j ∷ [] }

-- the loop, which ends with what was visited
unfoldable pub walk : (ℕ → List ℕ) → ℕ → ℕ → List (ℕ × ℕ) → List ℕ → Option (List ℕ)
unfolding visit
walk targets depth zero queue visited = none
walk targets depth (suc fuel) [] visited = some visited
walk targets depth (suc fuel) ((i, d) ∷ queue) visited = elim (leb depth d) [
  | true ↦ walk targets depth fuel queue visited
  | false ↦
      let w = foldl (visit (d + 1)) (record { queue = queue; visited = visited }) (targets i) in
      walk targets depth fuel w.queue w.visited
]

module _ ⦃pg : StableGraph⦄ where
  -- the targets of the edges out of a node
  abbrev pub all_targets : pg.Graph → ℕ → List ℕ
  all_targets g i = map (λ r. r.target) (pg.edges_directed g Direction.outgoing i)

  -- the targets of its `RelatesTo` edges
  abbrev pub related_targets : pg.Graph → ℕ → List ℕ
  related_targets g i =
      map (λ r. r.target)
        (select (λ r. r.weight.edge_type == EdgeType.relates_to)
          (pg.edges_directed g Direction.outgoing i))

  -- rounds enough: one for each edge, one for the start and one to end
  abbrev pub walk_fuel : pg.Graph → ℕ
  walk_fuel g = suc (suc (length (pg.edge_references g)))

  -- the walk from one node; what it visits behind the start
  unfoldable pub downstream : pg.Graph → (ℕ → List ℕ) → ℕ → ℕ → Option (List ℕ)
  unfolding walk
  downstream g targets start depth = walk targets depth (walk_fuel g) ((start, 0) ∷ []) (start ∷ [])
