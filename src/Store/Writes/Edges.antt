-- ===== src/Store/Writes/Edges.antt =====
-- armin-core/graph/src/store.rs, `add_edge`: its errors and what it does to a consistent store.
use mathlib.Core.List.{map-append}
use armin.Prelude.{
  List, map, ap, ℕ, ◌≡◌, refl, ◌⊎◌, inl, inr, String, true, none, some, [], ◌∷◌, ◌++◌, arith,
  lookup, contains, is_some, if◌then◌else◌, String_Eq, ℕ_Eq, Option-cases,
}
use armin.Prelude.Results.{ok, err}
use armin.Types.{ArgumentEdge}
use armin.Petgraph.{StableGraph, EdgeReference}
use armin.Store.{
  GraphStoreInner, add_edge, insert_edge, get_node, source_not_found, target_not_found,
}
use armin.Store.Query.{all_edges}
use armin.Store.Consistent.{IsConsistent, edge_names}
use armin.Store.Consistent.Edges.{insert_edge-IsConsistent}
use armin.Store.Writes.{get_node-lookup, get_node-same}

pub edge_names-all_edges :
    ⦃pg : StableGraph⦄ (rs : List EdgeReference)
    → map (λ (r : EdgeReference). r.weight.id) rs
      ≡ map (λ (e : ArgumentEdge). e.id) (map (λ (r : EdgeReference). r.weight) rs)
edge_names-all_edges [] = refl
edge_names-all_edges (r ∷ rs) = ap (λ l. r.weight.id ∷ l) (edge_names-all_edges rs)

module _ ⦃pg : StableGraph⦄ (s : GraphStoreInner) where
  -- The store with the edge: consistent, with the same nodes, and with the edge last unless an
  -- edge has its identifier.
  pub record HasEdge (e : ArgumentEdge) (t : GraphStoreInner) : Type 0 where
    pub consistent : IsConsistent t
    pub edges :
        all_edges t ≡ (if contains e.id (edge_names s) then all_edges s else all_edges s ++ e ∷ [])
    pub nodes : (id : String) → get_node t id ≡ get_node s id
    pub sessions : t.session_order ≡ s.session_order

module _ ⦃pg : StableGraph⦄ (s : GraphStoreInner) (h : IsConsistent s) where
  pub insert_edge-HasEdge :
      (e : ArgumentEdge) (src tgt : ℕ)
      → lookup e.source_node_id s.id_to_node ≡ some src
      → lookup e.target_node_id s.id_to_node ≡ some tgt
      → lookup e.id s.id_to_edge ≡ none
      → HasEdge s e (insert_edge s src tgt e).0
  unfolding insert_edge
  insert_edge-HasEdge e src tgt from to fresh =
      let (v, at_src, _) = h.ids_sound e.source_node_id src from in
      let (u, at_tgt, _) = h.ids_sound e.target_node_id tgt to in
      record {
        consistent = insert_edge-IsConsistent s src tgt e h from to fresh;
        edges =
            rw (pg.edges-add_edge s.graph src tgt e at_src at_tgt, map-append)
              (ground (arith, h.edge_ids e.id));
        nodes =
            get_node-same s (insert_edge s src tgt e).0 refl (pg.nodes-add_edge s.graph src tgt e);
        sessions = refl;
      }

  -- Adding an edge to a consistent store fails if its source or else its target is not there, with
  -- that identifier in the error. Otherwise it succeeds: the store is consistent, has the same
  -- nodes and sessions, and has the edge last, unless an edge had its identifier already.
  pub add_edge_lem :
      (e : ArgumentEdge)
      → (get_node s e.source_node_id ≡ none)
          × (add_edge s e ≡ err (source_not_found e.source_node_id))
        ⊎ (is_some (get_node s e.source_node_id) ≡ true)
          × (get_node s e.target_node_id ≡ none)
          × (add_edge s e ≡ err (target_not_found e.target_node_id))
        ⊎ (is_some (get_node s e.source_node_id) ≡ true)
          × (is_some (get_node s e.target_node_id) ≡ true)
          × ((t : GraphStoreInner) × (i : ℕ) × (add_edge s e ≡ ok (t, i)) × HasEdge s e t)
  unfolding add_edge
  add_edge_lem e = elim (Option-cases (lookup e.source_node_id s.id_to_node)) [
    | inl a ↦ inl (ground (arith, a, get_node-lookup s h e.source_node_id), rw a refl)
    | inr (src, a) ↦ elim (Option-cases (lookup e.target_node_id s.id_to_node)) [
      | inl b ↦ inr (
          inl (
            ground (arith, a, get_node-lookup s h e.source_node_id),
            ground (arith, b, get_node-lookup s h e.target_node_id),
            rw (a, b) refl,
          ))
      | inr (tgt, b) ↦ inr (
          inr (
            ground (arith, a, get_node-lookup s h e.source_node_id),
            ground (arith, b, get_node-lookup s h e.target_node_id),
            elim (Option-cases (lookup e.id s.id_to_edge)) [
              | inr (i, c) ↦ (
                s,
                i,
                rw (a, b, c) refl,
                record {
                  consistent = h;
                  edges = ground (arith, h.edge_ids e.id);
                  nodes = λ id. refl;
                  sessions = refl;
                },
              )
              | inl c ↦ (
                (insert_edge s src tgt e).0,
                (insert_edge s src tgt e).1,
                rw (a, b, c) refl,
                insert_edge-HasEdge e src tgt a b c,
              )
            ],
          ))
    ]
  ]
