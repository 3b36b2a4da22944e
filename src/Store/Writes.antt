-- ===== src/Store/Writes.antt =====
-- armin-core/graph/src/store.rs: what the writing methods of `GraphStore` do to a consistent store.
pub mod Nodes
pub mod Edges
pub mod Runs
pub mod Sessions
pub mod Resolve
use armin.Prelude.{
  ◌≡◌, refl, String, Bool, Option, none, some, arith, lookup, is_some, String_Eq, ℕ_Eq, ◌⊎◌, inl,
  inr, Option-cases,
}
use armin.Types.{ArgumentNode}
use armin.Petgraph.{StableGraph, weight}
use armin.Store.{GraphStoreInner, get_node}
use armin.Store.Consistent.{IsConsistent}
use mathlib.Core.Option

module _ ⦃pg : StableGraph⦄ (s : GraphStoreInner) (h : IsConsistent s) (id : String) where
  -- a node is found exactly if its identifier is in the map, so `graph[idx]` does not panic
  pub get_node-lookup : is_some (get_node s id) ≡ is_some (lookup id s.id_to_node)
  unfolding get_node
  get_node-lookup = elim (Option-cases (lookup id s.id_to_node)) [
    | inl e ↦ rw e refl
    | inr (i, e) ↦ let (n, w, q) = h.ids_sound id i e in ground (arith, w)
  ]

  -- the node that is found has the identifier
  pub get_node-id : (n : ArgumentNode) → get_node s id ≡ some n → n.id ≡ id
  unfolding get_node
  get_node-id n e = elim (Option-cases (lookup id s.id_to_node)) [
    | inl q ↦ absurd (ground (arith, q))
    | inr (i, q) ↦ let (m, w, p) = h.ids_sound id i q in ground (arith, w)
  ]

module _ ⦃pg : StableGraph⦄ (s t : GraphStoreInner) where
  -- reading a node depends on the identifier map and the node weights alone
  pub get_node-same :
      t.id_to_node ≡ s.id_to_node
      → pg.node_references t.graph ≡ pg.node_references s.graph
      → (id : String) → get_node t id ≡ get_node s id
  unfolding get_node
  get_node-same p q id = λ i. Option.bind (lookup id (p i)) (λ j. lookup j (q i))
