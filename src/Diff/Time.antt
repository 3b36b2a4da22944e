-- ===== src/Diff/Time.antt =====
-- armin-core/graph/src/store.rs, `compute_diff`: the difference between two moments of one graph.

use armin.Prelude.{
  ℕ, String, ◌≡◌, refl, inl, inr, ◌↔◌, ◌≤◌, ◌<◌, ap, Bool, true, false, not, ◌&&◌, List, [], Memᴰ,
  any, any_iff, select, leb, ◌==◌, String_Eq, eq_iff, arith, Bool-cases, Memᴰ-select, mem-map,
  select-nil,
}
use armin.Types.{ArgumentNode, ArgumentEdge}
use armin.Petgraph.{StableGraph}
use armin.Store.{GraphStoreInner}
use armin.Store.Consistent.{IsConsistent}
use armin.Store.Query.{has_id, within, all_nodes, all_edges, snapshot_at_time}
use armin.Diff.{compute_graph_diff, compute_diff}
use armin.Diff.Patch.{changed-nil}

-- a member of a selection is in every selection by a weaker test
has-weaker {ℓ} :
    {A : Type ℓ} (same : A → A → Bool)
    → ((a : A) → same a a ≡ true)
    → (p q : A → Bool) → ((a : A) → p a ≡ true → q a ≡ true)
    → (a : A) (xs : List A) → Memᴰ a (select p xs)
    → any (λ x. same x a) (select q xs) ≡ true
has-weaker same same_refl p q weaker a xs m =
    let (n, e) = (Memᴰ-select p a xs).0 m in
    (any_iff (λ x. same x a) (select q xs)).1
      (a, (Memᴰ-select q a xs).1 (n, weaker a e), same_refl a)

abbrev same_node : ArgumentNode → ArgumentNode → Bool
same_node a b = a.id == b.id

abbrev same_edge : ArgumentEdge → ArgumentEdge → Bool
same_edge a b = a.id == b.id

module _ ⦃pg : StableGraph⦄ (s : GraphStoreInner) (h : IsConsistent s) where
  one_node :
      (n m : ArgumentNode) → Memᴰ n (all_nodes s) → Memᴰ m (all_nodes s) → n.id ≡ m.id → n ≡ m
  one_node n m in_n in_m e =
      let ((i, a), mem_a, p) =
        mem-map (λ (x : ℕ × ArgumentNode). x.1) n (pg.node_references s.graph) in_n in
      let ((j, b), mem_b, q) =
        mem-map (λ (x : ℕ × ArgumentNode). x.1) m (pg.node_references s.graph) in_m in
      let at_i = h.indices i a mem_a in
      let at_j = h.indices j b mem_b in
      let key_a = h.ids_full i a at_i in
      let key_b = h.ids_full j b at_j in cc (e, p, q, at_i, at_j, key_a, key_b)

  -- the nodes that the later snapshot adds
  added_iff :
      (from_time to_time : ℕ) (n : ArgumentNode)
      → let d = compute_diff s from_time to_time in
        Memᴰ n d.added.nodes
        ↔ (Memᴰ n (all_nodes s) × (from_time < n.timestamp) × (n.timestamp ≤ to_time))
  unfolding compute_diff compute_graph_diff snapshot_at_time
  added_iff from_time to_time n =
      let until = λ (t : ℕ) (x : ArgumentNode). leb x.timestamp t in
      let before = select (until from_time) (all_nodes s) in
      let new_one = λ (x : ArgumentNode). not (has_id before x.id) in
      (
        λ m.
            let (m_after, fresh) =
              (Memᴰ-select new_one n (select (until to_time) (all_nodes s))).0 m in
            let (m_all, le_to) = (Memᴰ-select (until to_time) n (all_nodes s)).0 m_after in
            let late : until from_time n ≡ false = elim (Bool-cases (until from_time n)) [
              | inr e ↦ e
              | inl e ↦
                  let known = (any_iff (λ x. x.id == n.id) before).1 (
                    n,
                    (Memᴰ-select (until from_time) n (all_nodes s)).1 (m_all, e),
                    (eq_iff n.id n.id).1 refl,
                  ) in
                  ground (arith, known, fresh)
            ] in
            (m_all, ground arith, ground arith),
        λ (m_all, gt_from, le_to).
            let fresh : has_id before n.id ≡ false = elim (Bool-cases (has_id before n.id)) [
              | inr e ↦ e
              | inl e ↦
                  let (x, m_before, same) = (any_iff (λ x. x.id == n.id) before).0 e in
                  let (x_all, early) = (Memᴰ-select (until from_time) x (all_nodes s)).0 m_before in
                  let is_n = one_node x n x_all m_all ((eq_iff x.id n.id).0 same) in
                  let stamp = ap (λ (y : ArgumentNode). y.timestamp) is_n in
                  absurd (ground (arith, stamp, early, gt_from))
            ] in
            (Memᴰ-select new_one n (select (until to_time) (all_nodes s))).1 (
              (Memᴰ-select (until to_time) n (all_nodes s)).1 (m_all, ground arith),
              ground (arith, fresh),
            ),
      )

  abbrev early : ℕ → ArgumentNode → Bool
  early t n = leb n.timestamp t

  abbrev edge_by : ℕ → ArgumentEdge → Bool
  edge_by t e = leb e.timestamp t && within (select (early t) (all_nodes s)) e

  early-le : (a b : ℕ) (n : ArgumentNode) → a ≤ b → early a n ≡ true → early b n ≡ true
  early-le a b n le e = ground arith

  has_id-le :
      (a b : ℕ) (id : String)
      → a ≤ b
      → has_id (select (early a) (all_nodes s)) id ≡ true
      → has_id (select (early b) (all_nodes s)) id ≡ true
  has_id-le a b id le known =
      let (x, m, q) =
        (any_iff (λ (y : ArgumentNode). y.id == id) (select (early a) (all_nodes s))).0 known in
      let (m_all, e) = (Memᴰ-select (early a) x (all_nodes s)).0 m in
      (any_iff (λ (y : ArgumentNode). y.id == id) (select (early b) (all_nodes s))).1
        (x, (Memᴰ-select (early b) x (all_nodes s)).1 (m_all, early-le a b x le e), q)

  edge_by-le : (a b : ℕ) (e : ArgumentEdge) → a ≤ b → edge_by a e ≡ true → edge_by b e ≡ true
  edge_by-le a b e le h =
      ground (arith, has_id-le a b e.source_node_id le, has_id-le a b e.target_node_id le)

  -- In a consistent store, and from an earlier moment to a later one, the difference removes no
  -- node and no edge and reports no changed node, and it adds exactly the nodes stamped after the
  -- first moment and not after the second.
  pub compute_diff-forward :
      (from_time to_time : ℕ)
      → from_time ≤ to_time
      → let d = compute_diff s from_time to_time in
        (d.removed.nodes ≡ [])
        × (d.removed.edges ≡ [])
        × (d.changed ≡ [])
        × ((n : ArgumentNode)
            → Memᴰ n d.added.nodes
              ↔ (Memᴰ n (all_nodes s) × (from_time < n.timestamp) × (n.timestamp ≤ to_time)))
  unfolding compute_diff compute_graph_diff snapshot_at_time
  compute_diff-forward from_time to_time le = (
    select-nil _ _ (λ b m. rw (
        has-weaker same_node (λ n. (eq_iff n.id n.id).1 refl) (early from_time) (early to_time)
          (λ n. early-le from_time to_time n le) b (all_nodes s) m)),
    select-nil _ _ (λ e m. rw (
        has-weaker same_edge (λ x. (eq_iff x.id x.id).1 refl) (edge_by from_time) (edge_by to_time)
          (λ x. edge_by-le from_time to_time x le) e (all_edges s) m)),
    changed-nil (snapshot_at_time s from_time) (snapshot_at_time s to_time) (λ b a m_b m_a.
        one_node b a (((Memᴰ-select (early from_time) b (all_nodes s)).0 m_b).0)
          (((Memᴰ-select (early to_time) a (all_nodes s)).0 m_a).0)),
    added_iff from_time to_time,
  )
