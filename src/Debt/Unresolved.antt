-- ===== src/Debt/Unresolved.antt =====
-- armin-core/graph/src/debt.rs, the first detector: the items that are left open.
use mathlib.Core.List.Memᴰ
use armin.Prelude.{
  ℕ, ◌≡◌, ◌↔◌, refl, ap, sym, subst, inl, inr, String, false, not, ◌&&◌, none, some, List, [], ◌∷◌,
  Memᴰ, lookup, arith, ◌==◌, String_Eq, ℕ_Eq, nat_eq_iff, Bool-cases, Option-cases, Memᴰ-flat_map,
}
use armin.Types.{ArgumentNode, NodeType, NodeStatus, NodeType_Eq, NodeStatus_Eq}
use armin.Types.Scratch.{DebtItem}
use armin.Petgraph.{StableGraph}
use armin.Store.{GraphStoreInner, get_node}
use armin.Store.Consistent.{IsConsistent}
use armin.Store.Query.{is_resolved}
use armin.Store.Query.OpenQuestions.{IsUnresolved, is_resolved_iff, open_at}
use armin.Debt.{unresolved_item, unresolved_at, unresolved_items, compute_debt}

mem_of_lookup :
    (i : ℕ) (n : ArgumentNode) (l : List (ℕ × ArgumentNode)) → lookup i l ≡ some n → Memᴰ (i, n) l
mem_of_lookup i n [] h = cc
mem_of_lookup i n ((j, w) ∷ l) h = elim (Bool-cases (j == i)) [
  | inl e ↦ Memᴰ.head (ground (arith, nat_eq_iff j i))
  | inr e ↦ Memᴰ.tail (mem_of_lookup i n l (ground arith))
]

module _ ⦃pg : StableGraph⦄ (s : GraphStoreInner) (h : IsConsistent s) where
  unresolved_at-IsUnresolved :
      (current i : ℕ) (n : ArgumentNode) (item : DebtItem)
      → Memᴰ (i, n) (pg.node_references s.graph)
      → Memᴰ item (unresolved_at s current (i, n))
      → (item ≡ unresolved_item s.session_order current n) × IsUnresolved s n
  unfolding unresolved_at
  unresolved_at-IsUnresolved current i n item here m =
      let at = h.indices i n here in
      let key = h.ids_full i n at in
      elim (Bool-cases (
        n.node_type == NodeType.open_item
        && not (n.status == NodeStatus.invalidated)
        && not (is_resolved s i))) [
          | inl t ↦
              (Memᴰ.eq_of_singleton (rw t at m), open_at s h n.id i n key at refl (ground arith))
          | inr f ↦ absurd (Memᴰ.not-nil (rw f at m))
        ]

  IsUnresolved-unresolved_at :
      (current : ℕ) (n : ArgumentNode)
      → IsUnresolved s n
      → (i : ℕ) × Memᴰ (i, n) (pg.node_references s.graph)
        × Memᴰ (unresolved_item s.session_order current n) (unresolved_at s current (i, n))
  unfolding unresolved_at get_node
  IsUnresolved-unresolved_at current n u = elim (Option-cases (lookup n.id s.id_to_node)) [
    | inl e ↦ absurd (ground (arith, e, u.there))
    | inr (i, e) ↦
        let free : is_resolved s i ≡ false = elim (Bool-cases (is_resolved s i)) [
          | inr f ↦ f
          | inl t ↦
              let (edge, mem, kind, q) = (is_resolved_iff s h n.id i e).0 t in
              absurd (u.unresolved edge mem kind q)
        ] in
        let alone : unresolved_at s current (i, n)
            ≡ unresolved_item s.session_order current n ∷ [] =
          rw (free, u.item, u.active) refl in
        (
          i,
          mem_of_lookup i n _ (ground (arith, e, u.there)),
          subst (Memᴰ (unresolved_item s.session_order current n)) (sym alone) (Memᴰ.head refl),
        )
  ]

  -- In a consistent store the debt report without a scratch has an entry for an identifier exactly
  -- if it is that of an active open item that no `Resolves` edge points to.
  pub compute_debt-IsUnresolved :
      (current timestamp : ℕ) (id : String)
      → ((item : DebtItem) × Memᴰ item (compute_debt s current timestamp none).items
          × (item.node_ids ≡ id ∷ []))
        ↔ ((n : ArgumentNode) × (n.id ≡ id) × IsUnresolved s n)
  unfolding compute_debt unresolved_items
  compute_debt-IsUnresolved current timestamp id =
      let found = λ (item : DebtItem).
        Memᴰ-flat_map (unresolved_at s current) item (pg.node_references s.graph) in
      (
        λ (item, m, named).
            let ((i, n), here, k) = (found item).0 m in
            let (same, u) = unresolved_at-IsUnresolved current i n item here k in
            (n, cc (named, ap (λ (x : DebtItem). x.node_ids) same), u),
        λ (n, named, u).
            let (i, here, k) = IsUnresolved-unresolved_at current n u in
            (
              unresolved_item s.session_order current n,
              (found _).1 ((i, n), here, k),
              ap (λ x. x ∷ []) named,
            ),
      )
