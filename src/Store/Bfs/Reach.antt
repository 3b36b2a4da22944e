-- ===== src/Store/Bfs/Reach.antt =====
-- armin-core/graph/src/store.rs, `bfs_subgraph`: it finds exactly what few enough hops reach.
use mathlib.Core.List.{foldl}
use mathlib.Core.List.Memᴰ
use armin.Prelude.{
  ℕ, zero, suc, ◌≡◌, refl, sym, ◌↔◌, ◌⊎◌, inl, inr, String, some, List, [], ◌∷◌, ◌++◌, Memᴰ, arith,
  contains, contains_iff, Memᴰ-cons, Memᴰ-concat, Memᴰ-select, Memᴰ-flat_map, Memᴰ-filter_map,
  subst, String_Eq, ℕ_Eq, Bool-cases,
}
use armin.Types.{ArgumentNode, ArgumentEdge}
use armin.Petgraph.{StableGraph, EdgeReference, Direction, weight}
use armin.Store.{GraphStoreInner}
use armin.Store.Bfs.{Search, offer, expand, round, rounds, start, seed_indices, bfs_subgraph}

-- `offer` over a list: what it visits, and that what is new joins the frontier
visited-offers :
    (xs : List ℕ) (s : Search) (j : ℕ)
    → Memᴰ j (foldl offer s xs).visited ↔ (Memᴰ j s.visited ⊎ Memᴰ j xs)
unfolding offer
visited-offers [] s j = (inl, λ m. elim m [ inl a ↦ a | inr b ↦ absurd (Memᴰ.not-nil b) ])
visited-offers (x ∷ xs) s j = ground (
  arith,
  visited-offers xs (offer s x) j,
  contains_iff x s.visited,
  Memᴰ-concat j x s.visited,
  Memᴰ-cons j x xs,
  λ (e : j ≡ x) (m : Memᴰ x s.visited). Memᴰ.cast e m,
)

-- What one search state passes on to a later one: what is newly visited is in the frontier.
record Grows (s t : Search) : Type 0 where
  keeps : (j : ℕ) → Memᴰ j s.visited → Memᴰ j t.visited
  queued : (j : ℕ) → Memᴰ j s.frontier → Memᴰ j t.frontier
  fresh : (j : ℕ) → Memᴰ j t.visited → Memᴰ j s.visited ⊎ Memᴰ j t.frontier
  seen : (j : ℕ) → Memᴰ j t.frontier → Memᴰ j s.frontier ⊎ Memᴰ j t.visited

Grows-trans : {s t v : Search} → Grows s t → Grows t v → Grows s v
Grows-trans a b = record {
  keeps = λ j m. b.keeps j (a.keeps j m);
  queued = λ j m. b.queued j (a.queued j m);
  fresh = λ j m. elim (b.fresh j m) [
    | inr q ↦ inr q
    | inl v ↦ elim (a.fresh j v) [ inl u ↦ inl u | inr q ↦ inr (b.queued j q) ]
  ];
  seen = λ j m. elim (b.seen j m) [
    | inr v ↦ inr v
    | inl q ↦ elim (a.seen j q) [ inl u ↦ inl u | inr v ↦ inr (b.keeps j v) ]
  ];
}

Grows-refl : (s : Search) → Grows s s
Grows-refl s = record {
  keeps = λ j m. m;
  queued = λ j m. m;
  fresh = λ j m. inl m;
  seen = λ j m. inl m;
}

-- a loop whose body grows the state grows it
Grows-foldl :
    {f : Search → ℕ → Search}
    → ((s : Search) (x : ℕ) → Grows s (f s x))
    → (xs : List ℕ) (s : Search) → Grows s (foldl f s xs)
Grows-foldl step [] s = Grows-refl s
Grows-foldl {f} step (x ∷ xs) s = Grows-trans (step s x) (Grows-foldl step xs (f s x))

offer-Grows : (s : Search) (x : ℕ) → Grows s (offer s x)
unfolding offer
offer-Grows s x = elim (Bool-cases (contains x s.visited)) [
  | inl e ↦ rw (e, offer) (Grows-refl s)
  | inr e ↦
      rw (e, offer)
        record {
          keeps = λ j m. Memᴰ.append_left _ m;
          queued = λ j m. Memᴰ.append_left _ m;
          fresh = λ j m. elim (Memᴰ.append_cases s.visited m) [
            | inl old ↦ inl old
            | inr new ↦ inr (Memᴰ.append_right s.frontier new)
          ];
          seen = λ j m. elim (Memᴰ.append_cases s.frontier m) [
            | inl old ↦ inl old
            | inr new ↦ inr (Memᴰ.append_right s.visited new)
          ];
        }
]

module _ ⦃pg : StableGraph⦄ (g : pg.Graph) where
  -- one hop, along an edge or against it
  pub data Adjacent (i j : ℕ) : Type 0 where
    against :
        (r : EdgeReference)
        → Memᴰ r (pg.edge_references g)
        → r.target ≡ i
        → j ≡ r.source
        → Adjacent i j
    along :
        (r : EdgeReference)
        → Memᴰ r (pg.edge_references g)
        → r.source ≡ i
        → j ≡ r.target
        → Adjacent i j

  -- at most so many hops from a seed
  abbrev pub Within : List ℕ → ℕ → ℕ → Type 0
  Within seeds zero j = Memᴰ j seeds
  Within seeds (suc d) j = Within seeds d j ⊎ ((i : ℕ) × Within seeds d i × Adjacent i j)

  expand-Grows : (s : Search) (i : ℕ) → Grows s (expand g s i)
  unfolding expand
  expand-Grows s i =
      Grows-foldl offer-Grows
        (pg.neighbors_directed g Direction.incoming i
          ++ pg.neighbors_directed g Direction.outgoing i)
        s

  visited-expand :
      (s : Search) (i j : ℕ) → Memᴰ j (expand g s i).visited ↔ (Memᴰ j s.visited ⊎ Adjacent i j)
  unfolding expand
  visited-expand s i j =
      let from = pg.mem-neighbors_directed g Direction.incoming i j in
      let to = pg.mem-neighbors_directed g Direction.outgoing i j in
      let here =
        visited-offers
          (pg.neighbors_directed g Direction.incoming i
            ++ pg.neighbors_directed g Direction.outgoing i)
          s j in
      (
        λ m. elim (here.0 m) [
          | inl v ↦ inl v
          | inr n ↦ elim (Memᴰ.append_cases _ n) [
            | inl a ↦ let (r, e, p, q) = from.0 a in inr (against r e p q)
            | inr b ↦ let (r, e, p, q) = to.0 b in inr (along r e p q)
          ]
        ],
        λ m. elim m [
          | inl v ↦ here.1 (inl v)
          | inr (against r e p q) ↦ here.1 (inr (Memᴰ.append_left _ (from.1 (r, e, p, q))))
          | inr (along r e p q) ↦ here.1 (inr (Memᴰ.append_right _ (to.1 (r, e, p, q))))
        ],
      )

  visited-expands :
      (xs : List ℕ) (s : Search) (j : ℕ)
      → Memᴰ j (foldl (expand g) s xs).visited
        ↔ (Memᴰ j s.visited ⊎ ((i : ℕ) × Memᴰ i xs × Adjacent i j))
  visited-expands [] s j =
      (inl, λ m. elim m [ inl a ↦ a | inr (i, b, _) ↦ absurd (Memᴰ.not-nil b) ])
  visited-expands (x ∷ xs) s j =
      let rest = visited-expands xs (expand g s x) j in
      let first = visited-expand s x j in
      (
        λ m. elim (rest.0 m) [
          | inl v ↦ elim (first.0 v) [ inl u ↦ inl u | inr a ↦ inr (x, Memᴰ.head refl, a) ]
          | inr (i, n, a) ↦ inr (i, Memᴰ.tail n, a)
        ],
        λ m. elim m [
          | inl v ↦ rest.1 (inl (first.1 (inl v)))
          | inr (i, n, a) ↦ elim (Memᴰ.cases_cons n) [
            | inl e ↦ rest.1 (inl (first.1 (inr (subst (λ k. Adjacent k j) e a))))
            | inr r ↦ rest.1 (inr (i, r, a))
          ]
        ],
      )

  -- The state after `d` rounds: it has visited what lies within `d` hops, and what is not in the
  -- frontier has no neighbour that is not visited.
  record Covers (seeds : List ℕ) (d : ℕ) (s : Search) : Type 0 where
    reached : (j : ℕ) → Memᴰ j s.visited ↔ Within seeds d j
    closed : (i j : ℕ) → Memᴰ i s.visited → Adjacent i j → Memᴰ i s.frontier ⊎ Memᴰ j s.visited
    inside : (i : ℕ) → Memᴰ i s.frontier → Memᴰ i s.visited

  round-Covers :
      (seeds : List ℕ) (d : ℕ) (s : Search) → Covers seeds d s → Covers seeds (suc d) (round g s)
  unfolding round
  round-Covers seeds d s c =
      let blank : Search = record { visited = s.visited; frontier = [] } in
      let grows = Grows-foldl expand-Grows s.frontier blank in
      let found = λ (j : ℕ). visited-expands s.frontier blank j in
      record {
        reached = λ j. (
          λ m. elim ((found j).0 m) [
            | inl v ↦ inl ((c.reached j).0 v)
            | inr (i, f, a) ↦ inr (i, (c.reached i).0 (c.inside i f), a)
          ],
          λ w. elim w [
            | inl v ↦ (found j).1 (inl ((c.reached j).1 v))
            | inr (i, v, a) ↦ elim (c.closed i j ((c.reached i).1 v) a) [
              | inl f ↦ (found j).1 (inr (i, f, a))
              | inr u ↦ (found j).1 (inl u)
            ]
          ],
        );
        closed = λ i j m a. elim (grows.fresh i m) [
          | inr q ↦ inl q
          | inl v ↦ elim (c.closed i j v a) [
            | inl f ↦ inr ((found j).1 (inr (i, f, a)))
            | inr u ↦ inr ((found j).1 (inl u))
          ]
        ];
        inside = λ i m. elim (grows.seen i m) [
          | inl none_yet ↦ absurd (Memᴰ.not-nil none_yet)
          | inr v ↦ v
        ];
      }

  start-Covers : (seeds : List ℕ) → Covers seeds 0 (start seeds)
  unfolding start
  start-Covers seeds =
      let found = λ (j : ℕ). visited-offers seeds (record { visited = []; frontier = [] }) j in
      record {
        reached = λ j. (
          λ m. elim ((found j).0 m) [ inl none_yet ↦ absurd (Memᴰ.not-nil none_yet) | inr k ↦ k ],
          λ w. (found j).1 (inr w),
        );
        closed = λ i j m a. elim ((found i).0 m) [
          | inl none_yet ↦ absurd (Memᴰ.not-nil none_yet)
          | inr k ↦ inl k
        ];
        inside = λ i m. (found i).1 (inr m);
      }

  rounds-Covers : (seeds : List ℕ) (d : ℕ) → Covers seeds d (rounds g d (start seeds))
  unfolding rounds
  rounds-Covers seeds zero = start-Covers seeds
  rounds-Covers seeds (suc d) =
      round-Covers seeds d (rounds g d (start seeds)) (rounds-Covers seeds d)

module _ ⦃pg : StableGraph⦄ (s : GraphStoreInner) (seed_ids : List String) (depth : ℕ) where
  abbrev visited : List ℕ
  visited = (rounds s.graph depth (start (seed_indices s seed_ids))).visited

  -- `bfs_subgraph` returns the nodes that lie within `depth` hops, in either direction, of a seed
  -- that is in the store, and no other node.
  pub bfs_subgraph-nodes :
      (n : ArgumentNode)
      → Memᴰ n (bfs_subgraph s seed_ids depth).nodes
        ↔ ((j : ℕ) × Within s.graph (seed_indices s seed_ids) depth j × (weight s.graph j ≡ some n))
  unfolding bfs_subgraph
  bfs_subgraph-nodes n =
      let covers = rounds-Covers s.graph (seed_indices s seed_ids) depth in
      let found = Memᴰ-filter_map (weight s.graph) n visited in
      (
        λ m. let (j, v, w) = found.0 m in (j, (covers.reached j).0 v, w),
        λ (j, r, w). found.1 (j, (covers.reached j).1 r, w),
      )

  -- `bfs_subgraph` returns exactly the edges of the store that join two nodes within reach.
  pub bfs_subgraph-edges :
      (e : ArgumentEdge)
      → Memᴰ e (bfs_subgraph s seed_ids depth).edges ↔ (
          (r : EdgeReference) × Memᴰ r (pg.edge_references s.graph)
          × (r.weight ≡ e)
          × Within s.graph (seed_indices s seed_ids) depth r.source
          × Within s.graph (seed_indices s seed_ids) depth r.target)
  unfolding bfs_subgraph
  bfs_subgraph-edges e =
      let covers = rounds-Covers s.graph (seed_indices s seed_ids) depth in
      let out = pg.edges_directed s.graph Direction.outgoing in
      (
        λ m.
            let (r, k, same) = Memᴰ.of_map (λ r. r.weight) _ m in
            let (found, to) = (Memᴰ-select _ r _).0 k in
            let (i, v, at) = (Memᴰ-flat_map out r visited).0 found in
            let (edge, from) = (pg.mem-edges_directed s.graph Direction.outgoing i r).0 at in
            (
              r,
              edge,
              same,
              (covers.reached r.source).0 (Memᴰ.cast from v),
              (covers.reached r.target).0 ((contains_iff r.target visited).0 to),
            ),
        λ (r, edge, same, from, to).
            let at = (pg.mem-edges_directed s.graph Direction.outgoing r.source r).1 (edge, refl) in
            let found =
              (Memᴰ-flat_map out r visited).1 (r.source, (covers.reached r.source).1 from, at) in
            let k =
              (Memᴰ-select (λ r. contains r.target visited) r _).1
                (found, (contains_iff r.target visited).1 ((covers.reached r.target).1 to)) in
            Memᴰ.cast (sym same) (Memᴰ.map (λ r. r.weight) k),
      )
