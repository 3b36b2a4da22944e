-- ===== src/Decisions/Order.antt =====
-- armin-core/graph/src/decisions.rs, `extract_decisions`: which decisions it returns, and their order.
use mathlib.Core.List.{flat_map}
use mathlib.Core.List.Memᴰ
use armin.Prelude.{
  ℕ, ◌≡◌, ◌≢◌, ◌↔◌, inl, inr, not, ◌&&◌, Memᴰ, Memᴰ-flat_map, ◌==◌, arith, Bool-cases,
}
use armin.Prelude.Sorted.{
  IsDescending, with_key, sort_desc-IsDescending, Memᴰ-sort_desc, with_key-sort_desc,
}
use armin.Types.{
  ArgumentNode, NodeType, NodeStatus, NodeType_Eq, NodeStatus_Eq, node_type_eq_iff,
  node_status_eq_iff,
}
use armin.Petgraph.{StableGraph}
use armin.Store.{GraphStoreInner}
use armin.Decisions.{Decision, decision_of, decisions_at, extract_decisions}

module _ ⦃pg : StableGraph⦄ (s : GraphStoreInner) where
  -- a decision that is not invalidated, and what is reported of it
  pub record IsReported (d : Decision) : Type 0 where
    pub index : ℕ
    pub node : ArgumentNode
    pub there : Memᴰ (index, node) (pg.node_references s.graph)
    pub decides : node.node_type ≡ NodeType.decision
    pub valid : node.status ≢ NodeStatus.invalidated
    pub same : d ≡ decision_of s index node

  decisions_at-IsReported :
      (i : ℕ) (n : ArgumentNode) (d : Decision)
      → Memᴰ (i, n) (pg.node_references s.graph)
      → Memᴰ d (decisions_at s (i, n))
      → IsReported d
  unfolding decisions_at
  decisions_at-IsReported i n d here m =
      elim (Bool-cases
        (n.node_type == NodeType.decision && not (n.status == NodeStatus.invalidated))) [
          | inr f ↦ absurd (Memᴰ.not-nil (rw f at m))
          | inl t ↦ record {
            index = i;
            node = n;
            there = here;
            decides = (node_type_eq_iff _ _).0 (ground arith);
            valid =
                λ e. ground (arith, t, (node_status_eq_iff n.status NodeStatus.invalidated).1 e);
            same = Memᴰ.eq_of_singleton (rw t at m);
          }
        ]

  IsReported-decisions_at :
      (d : Decision) (h : IsReported d) → Memᴰ d (decisions_at s (h.index, h.node))
  unfolding decisions_at
  IsReported-decisions_at d h = elim (Bool-cases (h.node.status == NodeStatus.invalidated)) [
    | inl t ↦ absurd (h.valid ((node_status_eq_iff _ _).0 t))
    | inr f ↦ rw (h.decides, f) (Memᴰ.head h.same)
  ]

  -- The report has a decision for exactly the decision nodes that are not invalidated, newest first;
  -- those with one time stamp are in the order of the graph's nodes.
  pub extract_decisions_lem :
      IsDescending (λ (d : Decision). d.timestamp) (extract_decisions s)
      × ((d : Decision) → Memᴰ d (extract_decisions s) ↔ IsReported d)
      × ((time : ℕ)
          → with_key (λ (d : Decision). d.timestamp) time (extract_decisions s)
            ≡ with_key
                (λ (d : Decision). d.timestamp)
                time
                (flat_map (decisions_at s) (pg.node_references s.graph)))
  unfolding extract_decisions
  extract_decisions_lem = (
    sort_desc-IsDescending (λ (x : Decision). x.timestamp)
        (flat_map (decisions_at s) (pg.node_references s.graph)),
    λ d.
        let (unsorted, resorted) =
          Memᴰ-sort_desc (λ (x : Decision). x.timestamp) d
            (flat_map (decisions_at s) (pg.node_references s.graph)) in
        let (from, into) = Memᴰ-flat_map (decisions_at s) d (pg.node_references s.graph) in
        (
          λ m. let ((i, n), here, k) = from (unsorted m) in decisions_at-IsReported i n d here k,
          λ h. resorted (into ((h.index, h.node), h.there, IsReported-decisions_at d h)),
        ),
    λ time.
        with_key-sort_desc (λ (x : Decision). x.timestamp) time
          (flat_map (decisions_at s) (pg.node_references s.graph)),
  )
