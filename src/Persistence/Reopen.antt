-- ===== src/Persistence/Reopen.antt =====
-- armin-core/graph/src/store.rs, `new_persistent`: the sessions of the nodes that were read, and the edges.
use mathlib.Core.List.{foldl}
use mathlib.Core.List.Memᴰ
use armin.Prelude.{
  ◌≡◌, refl, ap, ◌∙◌, inl, inr, String, Bool, true, some, List, [], ◌∷◌, Memᴰ, Memᴰ-cons, mem-map,
  select, lookup, is_some, contains, contains-append, unique, unique-concat, ◌==◌, String_Eq, ℕ_Eq,
  arith, eq_iff, Option-cases, Bool-cases,
}
use armin.Types.{ArgumentNode, ArgumentEdge}
use armin.Petgraph.{StableGraph, EdgeReference}
use armin.Store.{GraphStoreInner, get_node}
use armin.Store.Query.{all_edges}
use armin.Store.Consistent.{IsConsistent}
use armin.Store.Writes.{get_node-lookup}
use armin.Persistence.Open.{load_session}
use armin.Persistence.Rebuild.{edges_by_id, edge_ids, AllJoined}

contains-edge_ids :
    (edges : List ArgumentEdge) (e : ArgumentEdge)
    → Memᴰ e edges
    → contains e.id (edge_ids edges) ≡ true
contains-edge_ids [] e m = absurd (Memᴰ.not-nil m)
contains-edge_ids (d ∷ edges) e m =
    ground (arith, (Memᴰ-cons e d edges).0 m, contains-edge_ids edges e, eq_iff d.id e.id)

pub lookup-edges_by_id :
    (edges : List ArgumentEdge) (e : ArgumentEdge)
    → unique (edge_ids edges) ≡ true
    → Memᴰ e edges
    → lookup e.id (edges_by_id edges) ≡ some e
lookup-edges_by_id [] e all_new m = absurd (Memᴰ.not-nil m)
lookup-edges_by_id (d ∷ edges) e all_new m = ground (
  arith,
  (Memᴰ-cons e d edges).0 m,
  lookup-edges_by_id edges e (ground arith),
  contains-edge_ids edges e,
  eq_iff d.id e.id,
)

pub select-all :
    (p : String → Bool) (l : List String)
    → ((x : String) → contains x l ≡ true → p x ≡ true)
    → select p l ≡ l
select-all p [] all = refl
select-all p (x ∷ l) all =
    ground (arith, all x, select-all p l (λ y c. all y (ground arith)), eq_iff x x)

module _ ⦃pg : StableGraph⦄ where
  -- the sessions of the nodes that were read
  pub sessions-unique :
      (s : GraphStoreInner) (sessions ids : List String)
      → unique sessions ≡ true
      → unique (foldl (load_session s) sessions ids) ≡ true
  unfolding load_session
  sessions-unique s sessions [] all_new = all_new
  sessions-unique s sessions (id ∷ ids) all_new =
      sessions-unique s (load_session s sessions id) ids (elim (Option-cases (get_node s id)) [
        | inl e ↦ rw e all_new
        | inr (n, e) ↦ rw e (ground (arith, unique-concat sessions n.session_id, all_new))
      ])

  sessions-kept :
      (s : GraphStoreInner) (sessions ids : List String) (sid : String)
      → contains sid sessions ≡ true
      → contains sid (foldl (load_session s) sessions ids) ≡ true
  unfolding load_session
  sessions-kept s sessions [] sid has = has
  sessions-kept s sessions (id ∷ ids) sid has =
      sessions-kept s (load_session s sessions id) ids sid (elim (Option-cases (get_node s id)) [
        | inl e ↦ rw e has
        | inr (n, e) ↦ rw e (ground (arith, contains-append sid sessions (n.session_id ∷ []), has))
      ])

  pub sessions-full :
      (s : GraphStoreInner) (sessions ids : List String) (id : String) (n : ArgumentNode)
      → get_node s id ≡ some n
      → contains id ids ≡ true
      → contains n.session_id (foldl (load_session s) sessions ids) ≡ true
  unfolding load_session
  sessions-full s sessions [] id n at has = absurd (ground arith)
  sessions-full s sessions (j ∷ ids) id n at has = elim (Bool-cases (j == id)) [
    | inl p ↦ sessions-kept s (load_session s sessions j) ids n.session_id (
        let same : j ≡ id = ground (arith, p, eq_iff j id) in
        rw (ap (get_node s) same ∙ at) (
          ground (
            arith,
            contains-append n.session_id sessions (n.session_id ∷ []),
            eq_iff n.session_id n.session_id,
          )))
    | inr p ↦ sessions-full s (load_session s sessions j) ids id n at (ground arith)
  ]

  module _ (s : GraphStoreInner) (h : IsConsistent s) where
    joined :
        (e : ArgumentEdge)
        → Memᴰ e (all_edges s)
        → (is_some (get_node s e.source_node_id) ≡ true)
          × (is_some (get_node s e.target_node_id) ≡ true)
    joined e m =
        let (r, n, q) =
          mem-map (λ (r : EdgeReference). r.weight) e (pg.edge_references s.graph) m in
        let (from, to) = h.edge_ends r n in
        (
          get_node-lookup s h e.source_node_id
              ∙ ap (λ (d : ArgumentEdge). is_some (lookup d.source_node_id s.id_to_node)) q
              ∙ ap is_some from,
          get_node-lookup s h e.target_node_id
              ∙ ap (λ (d : ArgumentEdge). is_some (lookup d.target_node_id s.id_to_node)) q
              ∙ ap is_some to,
        )

    pub AllJoined-edges :
        (t : GraphStoreInner) (edges : List ArgumentEdge)
        → ((id : String) → get_node t id ≡ get_node s id)
        → ((e : ArgumentEdge) → Memᴰ e edges → Memᴰ e (all_edges s))
        → AllJoined t edges
    AllJoined-edges t [] same held = tt
    AllJoined-edges t (e ∷ edges) same held =
        let (p, q) = joined e (held e (Memᴰ.head refl)) in
        (
          rw (same e.source_node_id) p,
          rw (same e.target_node_id) q,
          AllJoined-edges t edges same (λ d m. held d ((Memᴰ-cons d e edges).1 (inr m))),
        )
