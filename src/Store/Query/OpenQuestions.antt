-- ===== src/Store/Query/OpenQuestions.antt =====
-- armin-core/graph/src/store.rs, `open_questions`: which open items it returns, and in what order.
use mathlib.Core.List.{append-nil, append_assoc, flat_map}
use mathlib.Core.List.Memᴰ
use armin.Prelude.{
  ℕ, zero, suc, ◌+◌, ◌≤◌, ◌<◌, ◌≡◌, refl, sym, ◌∙◌, ◌↔◌, ◌≢◌, ◌⊎◌, inl, inr, String, true, false,
  Option, none, some, List, [], ◌∷◌, ◌++◌, Memᴰ, reverse, arith, lookup, contains, ◌==◌, length,
  length-append, take, subst, String_Eq, ℕ_Eq, Option-cases, Bool-cases, any_iff, Memᴰ-flat_map,
  Memᴰ-reverse, take_of_length-le, contains_iff, not, ◌&&◌,
}
use armin.Types.{
  ArgumentNode, ArgumentEdge, NodeType, NodeStatus, EdgeType, NodeType_Eq, NodeStatus_Eq,
  EdgeType_Eq, edge_type_eq_iff, node_type_eq_iff, node_status_eq_iff,
}
use armin.Petgraph.{StableGraph, Direction, weight}
use armin.Store.{GraphStoreInner, get_node}
use armin.Store.Consistent.{IsConsistent}
use armin.Store.Query.{
  all_edges, is_resolved, is_open, open_question, open_questions, open_questions_from,
}
use armin.Store.Writes.{get_node-lookup}

module _ ⦃pg : StableGraph⦄ (s : GraphStoreInner) where
  open_question-cases :
      (o : Option ℕ)
      → (open_question s o ≡ []) ⊎ ((n : ArgumentNode) × (open_question s o ≡ n ∷ []))
  unfolding open_question
  open_question-cases none = inl refl
  open_question-cases (some i) = elim (Option-cases (weight s.graph i)) [
    | inl e ↦ inl (rw (e, open_question) refl)
    | inr (n, e) ↦ elim (Bool-cases (is_open n && not (is_resolved s i))) [
      | inl t ↦ inr (n, rw (e, t, open_question) refl)
      | inr f ↦ inl (rw (e, f, open_question) refl)
    ]
  ]

  -- what the loop finds, with no limit
  abbrev pub found : List String → List ArgumentNode
  found = flat_map (λ id. open_question s (lookup id s.id_to_node))

  open_questions_from-step :
      (limit : ℕ) (out : List ArgumentNode) (id : String) (ids : List String)
      → length out < limit
      → open_questions_from s limit out (id ∷ ids)
        ≡ open_questions_from s limit (out ++ open_question s (lookup id s.id_to_node)) ids
  unfolding open_questions_from
  open_questions_from-step limit out id ids h = ground arith

  open_questions_from-take :
      (limit k : ℕ) (out : List ArgumentNode) (ids : List String)
      → length out + k ≡ limit
      → open_questions_from s limit out ids ≡ out ++ take k (found ids)
  unfolding open_questions_from flat_map
  open_questions_from-take limit zero out [] e = sym (append-nil out)
  open_questions_from-take limit (suc k) out [] e = sym (append-nil out)
  open_questions_from-take limit zero out (id ∷ ids) e = ground (arith, append-nil out)
  open_questions_from-take limit (suc k) out (id ∷ ids) e =
      open_questions_from-step limit out id ids (omega arith)
      ∙ elim (open_question-cases (lookup id s.id_to_node)) [
        | inl q ↦ rw (q, append-nil out) (open_questions_from-take limit (suc k) out ids e)
        | inr (n, q) ↦ rw q (
            open_questions_from-take limit k (out ++ n ∷ []) ids
              (omega (arith, length-append out (n ∷ [])))
            ∙ append_assoc out (n ∷ []) (take k (found ids)))
      ]

  -- `open_questions` returns the first `limit` of the unresolved open items, newest first.
  open_questions-take :
      (limit : ℕ) → open_questions s limit ≡ take limit (found (reverse s.node_order))
  unfolding open_questions
  open_questions-take limit =
      open_questions_from-take limit limit [] (reverse s.node_order) (omega arith)

-- an active open item of the store that no edge resolves
pub record IsUnresolved ⦃pg : StableGraph⦄ (s : GraphStoreInner) (n : ArgumentNode) : Type 0 where
  pub there : get_node s n.id ≡ some n
  pub item : n.node_type ≡ NodeType.open_item
  pub active : n.status ≡ NodeStatus.active
  pub unresolved :
      (e : ArgumentEdge)
      → Memᴰ e (all_edges s)
      → e.edge_type ≡ EdgeType.resolves
      → e.target_node_id ≢ n.id

module _ ⦃pg : StableGraph⦄ (s : GraphStoreInner) (h : IsConsistent s) where
  -- two identifiers of one index are one
  one_name :
      (id id' : String) (i : ℕ)
      → lookup id s.id_to_node ≡ some i
      → lookup id' s.id_to_node ≡ some i
      → id' ≡ id
  one_name id id' i p q =
      let (n, w, a) = h.ids_sound id i p in let (m, v, b) = h.ids_sound id' i q in ground arith

  -- the code's test of the edges at a node, as a statement about the edges that name it
  pub is_resolved_iff :
      (id : String) (i : ℕ)
      → lookup id s.id_to_node ≡ some i
      → (is_resolved s i ≡ true) ↔ (
          (e : ArgumentEdge) × Memᴰ e (all_edges s)
          × (e.edge_type ≡ EdgeType.resolves)
          × (e.target_node_id ≡ id))
  unfolding is_resolved
  is_resolved_iff id i at = (
    λ q.
        let (r, m, t) = (any_iff (λ r. r.weight.edge_type == EdgeType.resolves) _).0 q in
        let (edge, here) = (pg.mem-edges_directed s.graph Direction.incoming i r).0 m in
        (
          r.weight,
          Memᴰ.map _ edge,
          (edge_type_eq_iff _ _).0 t,
          one_name id r.weight.target_node_id i at (
              subst (λ j. lookup r.weight.target_node_id s.id_to_node ≡ some j) here
                (h.edge_ends r edge).1),
        ),
    λ (e, m, t, named).
        let (r, edge, same) = Memᴰ.of_map _ _ m in
        (any_iff (λ r. r.weight.edge_type == EdgeType.resolves) _).1 (
          r,
          (pg.mem-edges_directed s.graph Direction.incoming i r).1
              (edge, cc (at, (h.edge_ends r edge).1, same, named)),
          cc (same, t),
        ),
  )

  pub open_at :
      (id : String) (i : ℕ) (k : ArgumentNode)
      → lookup id s.id_to_node ≡ some i
      → weight s.graph i ≡ some k
      → k.id ≡ id
      → (is_open k && not (is_resolved s i)) ≡ true
      → IsUnresolved s k
  unfolding get_node
  open_at id i k e w named t =
      let free : is_resolved s i ≡ false = ground arith in
      record {
        there = subst (λ x. get_node s x ≡ some k) (sym named) (ground (arith, e, w));
        item = (node_type_eq_iff k.node_type NodeType.open_item).0 (ground arith);
        active = (node_status_eq_iff k.status NodeStatus.active).0 (ground arith);
        unresolved =
            λ edge mem kind q. cc ((is_resolved_iff id i e).1 (edge, mem, kind, q ∙ named), free);
      }

  open_question-IsUnresolved :
      (id : String) (n : ArgumentNode)
      → Memᴰ n (open_question s (lookup id s.id_to_node))
      → (n.id ≡ id) × IsUnresolved s n
  unfolding open_question get_node
  open_question-IsUnresolved id n m = elim (Option-cases (lookup id s.id_to_node)) [
    | inl e ↦ absurd (Memᴰ.not-nil (rw (e, open_question) at m))
    | inr (i, e) ↦
        let (k, w, named) = h.ids_sound id i e in
        elim (Bool-cases (is_open k && not (is_resolved s i))) [
          | inr f ↦ absurd (Memᴰ.not-nil (rw (e, w, f, open_question) at m))
          | inl t ↦
              let same : n ≡ k = Memᴰ.eq_of_singleton (rw (e, w, t, open_question) at m) in
              subst (λ x. (x.id ≡ id) × IsUnresolved s x) (sym same)
                (named, open_at id i k e w named t)
        ]
  ]

  IsUnresolved-open_question :
      (n : ArgumentNode) → IsUnresolved s n → Memᴰ n (open_question s (lookup n.id s.id_to_node))
  unfolding open_question get_node
  IsUnresolved-open_question n u = elim (Option-cases (lookup n.id s.id_to_node)) [
    | inl e ↦ absurd (ground (arith, e, u.there))
    | inr (i, e) ↦
        let (k, w, named) = h.ids_sound n.id i e in
        let same : k ≡ n = ground (arith, e, w, u.there) in
        let free : is_resolved s i ≡ false = elim (Bool-cases (is_resolved s i)) [
          | inr f ↦ f
          | inl t ↦
              let (edge, mem, kind, q) = (is_resolved_iff n.id i e).0 t in
              absurd (u.unresolved edge mem kind q)
        ] in
        let alone : open_question s (lookup n.id s.id_to_node) ≡ n ∷ [] =
          ground (arith, e, w, same, free, u.item, u.active) in
        subst (Memᴰ n) (sym alone) (Memᴰ.head refl)
  ]

  listed : (n : ArgumentNode) → get_node s n.id ≡ some n → contains n.id s.node_order ≡ true
  listed n there = ground (arith, h.order_ids n.id, get_node-lookup s h n.id, there)

  -- With room for all of them, `open_questions` returns exactly the active open items that no
  -- `Resolves` edge points to.
  pub open_questions_iff :
      (limit : ℕ) (n : ArgumentNode)
      → length (found s (reverse s.node_order)) ≤ limit
      → Memᴰ n (open_questions s limit) ↔ IsUnresolved s n
  open_questions_iff limit n room =
      rw
        (open_questions-take s limit, take_of_length-le limit (found s (reverse s.node_order)) room)
        (
          λ m.
              let (id, _, k) =
                (Memᴰ-flat_map (λ id. open_question s (lookup id s.id_to_node)) n
                    (reverse s.node_order)).0
                  m in
              (open_question-IsUnresolved id n k).1,
          λ u.
              (Memᴰ-flat_map (λ id. open_question s (lookup id s.id_to_node)) n
                  (reverse s.node_order)).1
                (
                  n.id,
                  (Memᴰ-reverse n.id s.node_order).1
                      ((contains_iff n.id s.node_order).0 (listed n u.there)),
                  IsUnresolved-open_question n u,
                ),
        )
