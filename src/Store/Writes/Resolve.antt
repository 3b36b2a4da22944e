-- ===== src/Store/Writes/Resolve.antt =====
-- armin-core/graph/src/store.rs, `resolve_question`: it settles its question and no other.

use armin.Prelude.{
  ℕ, ◌≡◌, ◌≢◌, refl, ap, sym, ◌∙◌, ◌↔◌, ◌⊎◌, inl, inr, String, true, false, none, [], ◌∷◌, ◌++◌,
  arith, lookup, contains, is_some, Memᴰ-concat, String_Eq, ℕ_Eq, Option-cases,
}
use armin.Prelude.Results.{ok, err}
use armin.Types.{ArgumentNode, ArgumentEdge, EdgeType}
use armin.Petgraph.{StableGraph}
use armin.Store.{
  GraphStoreInner, question_not_found, resolver_not_found, get_node, resolve_question,
  resolves_edge,
}
use armin.Store.Consistent.{IsConsistent, edge_names}
use armin.Store.Query.{all_edges}
use armin.Store.Query.OpenQuestions.{IsUnresolved}
use armin.Store.Writes.{get_node-lookup}
use armin.Store.Writes.Edges.{HasEdge, add_edge_lem}

module _ ⦃pg : StableGraph⦄ (s : GraphStoreInner) (h : IsConsistent s) where
  -- what a `Resolves` edge between two nodes does to the open items
  HasEdge-IsUnresolved :
      (e : ArgumentEdge) (t : GraphStoreInner)
      → HasEdge s e t
      → contains e.id (edge_names s) ≡ false
      → e.edge_type ≡ EdgeType.resolves
      → (n : ArgumentNode) → IsUnresolved t n ↔ (IsUnresolved s n × (n.id ≢ e.target_node_id))
  HasEdge-IsUnresolved e t has fresh kind n = (
    λ u. (
      record {
        there = sym (has.nodes n.id) ∙ u.there;
        item = u.item;
        active = u.active;
        unresolved = λ x m. u.unresolved x (rw edges ((Memᴰ-concat x e (all_edges s)).1 (inl m)));
      },
      λ q. u.unresolved e (rw edges ((Memᴰ-concat e e (all_edges s)).1 (inr refl))) kind (sym q),
    ),
    λ (u, other). record {
      there = has.nodes n.id ∙ u.there;
      item = u.item;
      active = u.active;
      unresolved = λ x m k q. elim ((Memᴰ-concat x e (all_edges s)).0 (rw edges at m)) [
        | inl old ↦ u.unresolved x old k q
        | inr new ↦ other (sym q ∙ ap (λ (y : ArgumentEdge). y.target_node_id) new)
      ];
    },
  )
    where
      edges : all_edges t ≡ all_edges s ++ e ∷ []
      edges = has.edges ∙ rw fresh refl

  -- With a new edge identifier one of three holds: the question is not there, and `resolve_question`
  -- fails with its identifier; the question is there and the resolver is not, and it fails with the
  -- resolver's; or both are there, and it succeeds and leaves the store consistent, with the same
  -- nodes, the question not open any more, and every other open item exactly as open as it was.
  pub resolve_question_lem :
      (uuid : String) (now : ℕ) (question resolver reasoning : String)
      → contains uuid (edge_names s) ≡ false
      → (get_node s question ≡ none)
          × (resolve_question s uuid now question resolver reasoning
              ≡ err (question_not_found question))
        ⊎ (is_some (get_node s question) ≡ true)
          × (get_node s resolver ≡ none)
          × (resolve_question s uuid now question resolver reasoning
              ≡ err (resolver_not_found resolver))
        ⊎ (is_some (get_node s question) ≡ true)
          × (is_some (get_node s resolver) ≡ true)
          × ((t : GraphStoreInner) × (resolve_question s uuid now question resolver reasoning
                ≡ ok (t, resolves_edge uuid now question resolver reasoning))
              × IsConsistent t
              × ((id : String) → get_node t id ≡ get_node s id)
              × ((n : ArgumentNode) → IsUnresolved t n ↔ (IsUnresolved s n × (n.id ≢ question))))
  unfolding resolve_question
  resolve_question_lem uuid now question resolver reasoning fresh =
      let e = resolves_edge uuid now question resolver reasoning in
      elim (Option-cases (lookup question s.id_to_node)) [
        | inl a ↦ inl (ground (arith, a, get_node-lookup s h question), rw a refl)
        | inr (i, a) ↦ elim (Option-cases (lookup resolver s.id_to_node)) [
          | inl b ↦ inr (
              inl (
                ground (arith, a, get_node-lookup s h question),
                ground (arith, b, get_node-lookup s h resolver),
                rw (a, b) refl,
              ))
          | inr (j, b) ↦ elim (add_edge_lem s h e) [
            | inl (missing, _) ↦ absurd (ground (arith, missing, b, get_node-lookup s h resolver))
            | inr (inl (_, missing, _)) ↦
                absurd (ground (arith, missing, a, get_node-lookup s h question))
            | inr (inr (_, _, (t, k, done, has))) ↦ inr (
                inr (
                  ground (arith, a, get_node-lookup s h question),
                  ground (arith, b, get_node-lookup s h resolver),
                  (
                    t,
                    rw (a, b, done) refl,
                    has.consistent,
                    has.nodes,
                    HasEdge-IsUnresolved e t has fresh refl,
                  ),
                ))
          ]
        ]
      ]
