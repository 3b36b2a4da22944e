-- ===== src/Diff/Patch.antt =====
-- armin-core/graph/src/diff.rs: the difference leads from the one snapshot to the other.
use mathlib.Core.List.Memᴰ
use armin.Prelude.{
  ◌≡◌, ◌⊎◌, inl, inr, refl, sym, ap, ◌∙◌, subst, String, Bool, false, not, ◌&&◌, ◌||◌, some, List,
  [], ◌∷◌, Memᴰ, any, select, lookup, insert, ◌==◌, String_Eq, ℕ_Eq, eq_iff, arith, Bool-cases,
  Option-cases, flat_map-nil,
}
use armin.Types.{ArgumentNode, ArgumentEdge, GraphSnapshot, NodeType_Eq, node_type_eq_iff}
use armin.Store.Query.{has_id}
use armin.Diff.{has_edge_id, by_id, changed_fields, changed_at, compute_graph_diff}

-- the identifiers of a selection that goes by identifiers
any-select {ℓ} :
    {A : Type ℓ} (p : String → Bool) (key : A → String) (id : String) (xs : List A)
    → any (λ x. key x == id) (select (λ x. p (key x)) xs) ≡ (any (λ x. key x == id) xs && p id)
any-select p key id [] = refl
any-select p key id (x ∷ xs) = elim (Bool-cases (key x == id)) [
  | inl e ↦ ground (arith, any-select p key id xs, ap p ((eq_iff (key x) id).0 e))
  | inr e ↦ ground (arith, any-select p key id xs)
]

-- Taking the removed nodes and edges away from the earlier snapshot and adding the added ones gives
-- the identifiers of the later snapshot, and nothing is both added and already there, or removed
-- and still there.
pub compute_graph_diff-patch :
    (before after : GraphSnapshot) (id : String)
    → let d = compute_graph_diff before after in
      (has_id after.nodes id
        ≡ (has_id before.nodes id && not (has_id d.removed.nodes id) || has_id d.added.nodes id))
      × (has_edge_id after.edges id ≡ (
          has_edge_id before.edges id && not (has_edge_id d.removed.edges id)
          || has_edge_id d.added.edges id))
      × ((has_id before.nodes id && has_id d.added.nodes id) ≡ false)
      × ((has_id after.nodes id && has_id d.removed.nodes id) ≡ false)
unfolding compute_graph_diff
compute_graph_diff-patch before after id = ground (
  arith,
  any-select (λ x. not (has_id before.nodes x)) (λ (n : ArgumentNode). n.id) id after.nodes,
  any-select (λ x. not (has_id after.nodes x)) (λ (n : ArgumentNode). n.id) id before.nodes,
  any-select (λ x. not (has_edge_id before.edges x)) (λ (e : ArgumentEdge). e.id) id after.edges,
  any-select (λ x. not (has_edge_id after.edges x)) (λ (e : ArgumentEdge). e.id) id before.edges,
)

changed_fields_refl : (n : ArgumentNode) → changed_fields n n ≡ []
unfolding changed_fields
changed_fields_refl n = ground (
  arith,
  eq_iff n.label n.label,
  eq_iff n.description n.description,
  node_type_eq_iff n.node_type n.node_type,
  eq_iff n.agent_id n.agent_id,
)

-- an insertion adds its own entry at most
mem-insert :
    (k id : String) (v n : ArgumentNode) (m : List (String × ArgumentNode))
    → Memᴰ (id, n) (insert k v m)
    → ((id ≡ k) × (n ≡ v)) ⊎ Memᴰ (id, n) m
unfolding insert
mem-insert k id v n [] h = inl (ground (arith, Memᴰ.eq_of_singleton h))
mem-insert k id v n ((j, w) ∷ m) h = elim (Bool-cases (j == k)) [
  | inl e ↦ elim (Memᴰ.cases_cons (rw (e, insert) at h)) [
    | inl q ↦ inl (ground (arith, q))
    | inr r ↦ inr (Memᴰ.tail r)
  ]
  | inr e ↦ elim (Memᴰ.cases_cons (rw (e, insert) at h)) [
    | inl q ↦ inr (Memᴰ.head q)
    | inr r ↦ elim (mem-insert k id v n m r) [ inl q ↦ inl q | inr t ↦ inr (Memᴰ.tail t) ]
  ]
]

-- the map's entries are nodes of the list, under their identifiers
mem-by_id :
    (id : String) (n : ArgumentNode) (nodes : List ArgumentNode) (m : List (String × ArgumentNode))
    → Memᴰ (id, n) (by_id m nodes)
    → (Memᴰ n nodes × (n.id ≡ id)) ⊎ Memᴰ (id, n) m
unfolding by_id
mem-by_id id n [] m h = inr h
mem-by_id id n (x ∷ nodes) m h = elim (mem-by_id id n nodes (insert x.id x m) h) [
  | inl (k, q) ↦ inl (Memᴰ.tail k, q)
  | inr r ↦ elim (mem-insert x.id id x n m r) [
    | inl (a, b) ↦ inl (Memᴰ.head b, ap (λ (y : ArgumentNode). y.id) b ∙ sym a)
    | inr t ↦ inr t
  ]
]

pub mem-nodes_by_id :
    (id : String) (n : ArgumentNode) (nodes : List ArgumentNode)
    → Memᴰ (id, n) (by_id [] nodes)
    → Memᴰ n nodes × (n.id ≡ id)
mem-nodes_by_id id n nodes h = elim (mem-by_id id n nodes [] h) [
  | inl r ↦ r
  | inr none_yet ↦ absurd (Memᴰ.not-nil none_yet)
]

mem-lookup :
    (id : String) (n : ArgumentNode) (m : List (String × ArgumentNode))
    → lookup id m ≡ some n
    → Memᴰ (id, n) m
mem-lookup id n [] h = cc
mem-lookup id n ((j, w) ∷ m) h = elim (Bool-cases (j == id)) [
  | inl e ↦ Memᴰ.head (ground (arith, eq_iff j id))
  | inr e ↦ Memᴰ.tail (mem-lookup id n m (ground arith))
]

pub lookup-by_id :
    (id : String) (n : ArgumentNode) (nodes : List ArgumentNode)
    → lookup id (by_id [] nodes) ≡ some n
    → Memᴰ n nodes × (n.id ≡ id)
lookup-by_id id n nodes h = mem-nodes_by_id id n nodes (mem-lookup id n _ h)

-- Two snapshots in which equal identifiers mean equal nodes differ in no node.
pub changed-nil :
    (before after : GraphSnapshot)
    → ((b a : ArgumentNode) → Memᴰ b before.nodes → Memᴰ a after.nodes → b.id ≡ a.id → b ≡ a)
    → (compute_graph_diff before after).changed ≡ []
unfolding compute_graph_diff changed_at
changed-nil before after one =
    flat_map-nil (changed_at (by_id [] before.nodes)) (by_id [] after.nodes) λ (id, a) m.
      elim (Option-cases (lookup id (by_id [] before.nodes))) [
        | inl e ↦ rw (e, changed_at)
        | inr (b, e) ↦
            let (in_before, p) = lookup-by_id id b before.nodes e in
            let (in_after, q) = mem-nodes_by_id id a after.nodes m in
            let none_differ : changed_fields b a ≡ [] =
              subst (λ x. changed_fields b x ≡ []) (one b a in_before in_after (p ∙ sym q))
                (changed_fields_refl b) in
            rw (e, none_differ, changed_at)
      ]
