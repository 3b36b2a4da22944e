-- ===== src/Store/Writes/Nodes.antt =====
-- armin-core/graph/src/store.rs, `add_node`, `invalidate_node` and `get_node`.

use armin.Prelude.{
  ℕ, ◌≡◌, refl, ◌⊎◌, inl, inr, String, true, none, some, arith, lookup, lookup-insert, is_some,
  if◌then◌else◌, ◌==◌, String_Eq, ℕ_Eq, eq_iff, nat_eq_iff, Option-cases, not, ◌&&◌,
}
use armin.Prelude.Results.{ok, err}
use armin.Types.{ArgumentNode, NodeStatus}
use armin.Text.{Unicode}
use armin.Petgraph.{StableGraph, weight}
use armin.Store.{
  GraphStoreInner, add_node, insert_node, get_node, invalidate_node, invalidate_at, node_not_found,
}
use armin.Store.Consistent.{IsConsistent}
use armin.Store.Consistent.Insert.{insert_node-IsConsistent, weight-insert_node}
use armin.Store.Consistent.Status.{invalidate_at-IsConsistent, lookup-reweigh}
use armin.Store.Writes.{get_node-lookup}

abbrev pub dead : ArgumentNode → ArgumentNode
dead n = record n { status = NodeStatus.invalidated }

module _ ⦃pg : StableGraph⦄ ⦃u : Unicode⦄ (s : GraphStoreInner) (h : IsConsistent s) where
  -- Adding a node keeps a consistent store consistent.
  pub add_node-IsConsistent : (n : ArgumentNode) → IsConsistent (add_node s n).0
  unfolding add_node
  add_node-IsConsistent n = elim (Option-cases (lookup n.id s.id_to_node)) [
    | inl e ↦ rw (e, add_node) (insert_node-IsConsistent s n e h)
    | inr (i, e) ↦ rw (e, add_node) h
  ]

  pub get_node-insert_node :
      (n : ArgumentNode) (id : String)
      → lookup n.id s.id_to_node ≡ none
      → get_node (insert_node s n).0 id ≡ (if n.id == id then some n else get_node s id)
  unfolding get_node
  get_node-insert_node n id fresh = elim (Option-cases (lookup id s.id_to_node)) [
    | inl e ↦ ground (arith, e, ids_after, at_index, pg.fresh-add_node s.graph n, eq_iff n.id id)
    | inr (i, e) ↦
        let (w, at, q) = h.ids_sound id i e in
        ground (arith, e, at, ids_after, weight-insert_node s n i, eq_iff n.id id)
  ]
    where
      index : ℕ
      index = (pg.add_node s.graph n).1

      ids_after :
          lookup id (insert_node s n).0.id_to_node
          ≡ (if n.id == id then some index else lookup id s.id_to_node)
      ids_after = unfold insert_node in lookup-insert n.id id index s.id_to_node

      at_index : weight (insert_node s n).0.graph index ≡ (elim (weight s.graph index) [
        | some w ↦ some w
        | none ↦ if index == index then some n else none
      ])
      at_index = weight-insert_node s n index

  -- After `add_node` a node is found under its identifier: the new one if the identifier was free,
  -- the old one otherwise; and every other identifier leads where it led before.
  pub get_node-add_node :
      (n : ArgumentNode) (id : String)
      → get_node (add_node s n).0 id
        ≡ (if n.id == id && not (is_some (get_node s id)) then some n else get_node s id)
  unfolding add_node
  get_node-add_node n id = elim (Option-cases (lookup n.id s.id_to_node)) [
    | inl e ↦
        rw (e, add_node)
          (ground (arith, e, get_node-insert_node n id e, get_node-lookup s h id, eq_iff n.id id))
    | inr (i, e) ↦ rw (e, add_node) (ground (arith, e, get_node-lookup s h id, eq_iff n.id id))
  ]

  -- Adding a node whose identifier is taken changes nothing, and returns the index that it has; so
  -- adding one node twice is adding it once.
  add_node-again : (n m : ArgumentNode) → n.id ≡ m.id → add_node (add_node s n).0 m ≡ add_node s n
  unfolding add_node insert_node
  add_node-again n m same =
      ground
        (arith, lookup-insert n.id m.id (pg.add_node s.graph n).1 s.id_to_node, eq_iff n.id m.id)

module _ ⦃pg : StableGraph⦄ (s : GraphStoreInner) (h : IsConsistent s) where
  pub get_node-invalidate_at :
      (key id : String) (i : ℕ)
      → lookup key s.id_to_node ≡ some i
      → get_node (invalidate_at s i (weight s.graph i)) id ≡ (
          if key == id
          then (elim (get_node s id) [ none ↦ none | some n ↦ some (dead n) ])
          else get_node s id)
  unfolding get_node
  get_node-invalidate_at key id i e =
      let (n, at, q) = h.ids_sound key i e in
      elim (Option-cases (lookup id s.id_to_node)) [
        | inl none_at ↦ rw at (ground (arith, none_at, eq_iff key id))
        | inr (j, at_j) ↦
            let (m, at', q') = h.ids_sound id j at_j in
            rw (at, at_j, pg.nodes-set_weight s.graph i (dead n))
              (ground (
                arith,
                at,
                at',
                q,
                q',
                at_j,
                lookup-reweigh i j (dead n) (pg.node_references s.graph),
                eq_iff key id,
                nat_eq_iff i j,
              ))
      ]

  -- Either no node has the identifier, and invalidating it fails with that identifier in the error;
  -- or one has it, and it succeeds, changes that node's status and nothing else that `get_node` shows,
  -- and keeps the store consistent.
  pub invalidate_node_lem :
      (key : String)
      → ((get_node s key ≡ none) × (invalidate_node s key ≡ err (node_not_found key)))
        ⊎ (is_some (get_node s key) ≡ true)
          × ((t : GraphStoreInner) × (invalidate_node s key ≡ ok t)
              × IsConsistent t
              × ((id : String)
                  → get_node t id ≡ (
                      if key == id
                      then (elim (get_node s id) [ none ↦ none | some n ↦ some (dead n) ])
                      else get_node s id)))
  unfolding invalidate_node
  invalidate_node_lem key = elim (Option-cases (lookup key s.id_to_node)) [
    | inl e ↦ inl (ground (arith, e, get_node-lookup s h key), ground (arith, e))
    | inr (i, e) ↦ inr (
      ground (arith, e, get_node-lookup s h key),
      (
        invalidate_at s i (weight s.graph i),
        rw (e, invalidate_node) refl,
        invalidate_at-IsConsistent s h i (weight s.graph i) refl,
        λ id. get_node-invalidate_at key id i e,
      ),
    )
  ]
