-- ===== src/Store/Bfs.antt =====
-- armin-core/graph/src/store.rs, `bfs_subgraph`: the neighbourhood of some seeds, up to a depth.
-- The set of visited nodes is a list without repetition, in the order of insertion; the code's
-- order of iteration over it is left open, and the theorems speak of membership only.
pub mod Reach
use mathlib.Core.List.{foldl, filter_map, flat_map}
use armin.Prelude.{
  ℕ, zero, suc, String, Option, List, [], ◌∷◌, ◌++◌, map, lookup, contains, select, if◌then◌else◌,
  String_Eq, ℕ_Eq,
}
use armin.Types.{GraphSnapshot}
use armin.Petgraph.{StableGraph, Direction, weight}
use armin.Store.{GraphStoreInner}

pub record Search : Type 0 where
  pub visited : List ℕ
  pub frontier : List ℕ

-- `visited.insert(i)`, with a push where it was new
unfoldable pub offer : Search → ℕ → Search
offer s i =
    if contains i s.visited
    then s
    else record { visited = s.visited ++ i ∷ []; frontier = s.frontier ++ i ∷ [] }

module _ ⦃pg : StableGraph⦄ where
  -- the inner loop over the neighbours of one node
  unfoldable pub expand : pg.Graph → Search → ℕ → Search
  unfolding offer
  expand g s i =
      foldl offer s (
        pg.neighbors_directed g Direction.incoming i
        ++ pg.neighbors_directed g Direction.outgoing i)

  -- one round of the outer loop: the frontier's neighbours, with a new frontier
  unfoldable pub round : pg.Graph → Search → Search
  unfolding expand
  round g s = foldl (expand g) (record { visited = s.visited; frontier = [] }) s.frontier

  unfoldable pub rounds : pg.Graph → ℕ → Search → Search
  unfolding round
  rounds g zero s = s
  rounds g (suc depth) s = round g (rounds g depth s)

  -- `visited.extend(frontier)`: the seeds, each once
  unfoldable pub start : List ℕ → Search
  unfolding offer
  start seeds = record {
    visited = (foldl offer (record { visited = []; frontier = [] }) seeds).visited;
    frontier = seeds;
  }

  unfoldable pub seed_indices : GraphStoreInner → List String → List ℕ
  unfolding filter_map
  seed_indices s = filter_map (λ id. lookup id s.id_to_node)

  unfoldable pub bfs_subgraph : GraphStoreInner → List String → ℕ → GraphSnapshot
  unfolding rounds start seed_indices filter_map flat_map
  bfs_subgraph s seed_ids depth =
      let visited = (rounds s.graph depth (start (seed_indices s seed_ids))).visited in
      record {
        nodes = filter_map (weight s.graph) visited;
        edges =
            map (λ r. r.weight)
              (select (λ r. contains r.target visited)
                (flat_map (pg.edges_directed s.graph Direction.outgoing) visited));
      }
