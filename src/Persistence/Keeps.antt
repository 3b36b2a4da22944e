-- ===== src/Persistence/Keeps.antt =====
-- armin-core/graph/src/store.rs: each method of a `GraphStore` writes to the database what it changes.
use mathlib.Core.List.{foldl}
use armin.Prelude.{
  ℕ, suc, ◌+◌, ◌^◌, ◌<◌, ◌≤◌, ◌≡◌, refl, ap, sym, ◌∙◌, subst, inl, inr, String, none, some, List,
  [], ◌∷◌, lookup, length, length-append, if◌then◌else◌, ◌==◌, String_Eq, ℕ_Eq, arith, eq_iff,
  Option-cases,
}
use armin.Prelude.Results.{Result, ok, err}
use armin.Types.{ArgumentNode, ArgumentEdge}
use armin.Text.{Unicode}
use armin.Text.Sessions.{session_index}
use armin.Petgraph.{StableGraph, weight}
use armin.Store.{
  GraphStoreInner, StoreError, new, get_node, insert_node, insert_edge, invalidate_at,
  resolves_edge,
}
use armin.Store as Store
use armin.Store.Consistent.{IsConsistent, new-IsConsistent}
use armin.Store.Consistent.Insert.{insert_node-IsConsistent}
use armin.Store.Consistent.Status.{invalidate_at-IsConsistent, register_session-IsConsistent}
use armin.Store.Writes.Edges.{insert_edge-HasEdge}
use armin.Store.Writes.Nodes.{dead, get_node-invalidate_at}
use armin.Persistence.{DbBackend, no_database, persist_status, store_node, or_warn}
use armin.Persistence.Disk.{Bincode, Sled}
use armin.Persistence.Durable.{
  GraphStore, Method, node_added, edge_posted, node_dropped, question_resolved, session_seen,
  add_node, add_edge, invalidate_node, resolve_question, register_session, call, or_same, first,
  resolution_added, fresh_store,
}
use armin.Persistence.Mirror.{
  DiskWorks, Mirrors, StoresNode, store_node-StoresNode, persist_node-Mirrors, persist_edge-Mirrors,
  no_database-Mirrors,
}

same_store :
    ⦃pg : StableGraph⦄ ⦃b : Bincode⦄ ⦃sled : Sled⦄ (store : GraphStore) (edge : ArgumentEdge)
    (r : Result StoreError (GraphStore × ℕ))
    → or_same store (first r) ≡ or_same store (first (resolution_added edge r))
same_store store edge (ok (after, i)) = refl
same_store store edge (err e) = refl

module _ ⦃pg : StableGraph⦄ ⦃b : Bincode⦄ ⦃sled : Sled⦄ (works : DiskWorks) where
  -- a consistent store of at most `k` nodes, which its database mirrors
  pub record Kept (k : ℕ) (store : GraphStore) : Type 0 where
    pub db : DbBackend
    pub at : store.backend ≡ some db
    pub consistent : IsConsistent store.inner
    pub mirrors : Mirrors db store.inner
    pub short : length store.inner.node_order ≤ k

  pub fresh_store-Kept : Kept 0 fresh_store
  fresh_store-Kept = record {
    db = no_database;
    at = refl;
    consistent = new-IsConsistent;
    mirrors = no_database-Mirrors;
    short = omega arith;
  }

  weaken : {j k : ℕ} {store : GraphStore} → j ≤ k → Kept j store → Kept k store
  weaken le h = record {
    db = h.db;
    at = h.at;
    consistent = h.consistent;
    mirrors = h.mirrors;
    short = ground (arith, h.short, le);
  }

  module _ (k : ℕ) (store : GraphStore) (h : Kept k store) where
    more : {after : GraphStore} → Kept k after → Kept (suc k) after
    more = weaken (omega arith)

    add_node-Kept :
        ⦃u : Unicode⦄ → k < 2 ^ 64 → (n : ArgumentNode) → Kept (suc k) (add_node store n).0
    unfolding add_node insert_node
    add_node-Kept small n = elim (Option-cases (lookup n.id store.inner.id_to_node)) [
      | inr (i, e) ↦ rw (e, Store.add_node) (more h)
      | inl e ↦
          rw (e, h.at, Store.add_node)
            (record {
              db = _;
              at = refl;
              consistent = insert_node-IsConsistent store.inner n e h.consistent;
              mirrors =
                  persist_node-Mirrors works h.db store.inner h.mirrors n h.consistent e
                    (ground (arith, h.short));
              short = ground (arith, length-append store.inner.node_order (n.id ∷ []), h.short);
            })
    ]

    add_edge-Kept : (e : ArgumentEdge) → Kept k (or_same store (first (add_edge store e)))
    unfolding add_edge Store.add_edge
    add_edge-Kept e = elim (Option-cases (lookup e.source_node_id store.inner.id_to_node)) [
      | inl p ↦ rw p h
      | inr (src, p) ↦ elim (Option-cases (lookup e.target_node_id store.inner.id_to_node)) [
        | inl q ↦ rw (p, q) h
        | inr (tgt, q) ↦ elim (Option-cases (lookup e.id store.inner.id_to_edge)) [
          | inr (i, r) ↦ rw (p, q, r, r) h
          | inl r ↦
              rw (p, q, r, h.at, r)
                (record {
                  db = _;
                  at = refl;
                  consistent =
                      (insert_edge-HasEdge store.inner h.consistent e src tgt p q r).consistent;
                  mirrors =
                      persist_edge-Mirrors works h.db store.inner h.mirrors e src tgt h.consistent p
                        q r;
                  short = unfold insert_edge in h.short;
                })
        ]
      ]
    ]

    invalidate_at-Mirrors :
        (id : String) (i : ℕ) (n : ArgumentNode)
        → lookup id store.inner.id_to_node ≡ some i
        → weight store.inner.graph i ≡ some n
        → n.id ≡ id
        → Mirrors
            (persist_status h.db (get_node (invalidate_at store.inner i (some n)) id))
            (invalidate_at store.inner i (some n))
    unfolding persist_status
    invalidate_at-Mirrors id i n at_id at_i same = rw found (record {
      nodes = λ j. st.nodes j ∙ ground (arith, found_at j, there, same, eq_iff id j);
      edges = λ j.
          ap (λ t. lookup j (sled.iter_ids t)) st.edges
          ∙ h.mirrors.edges j
          ∙ rw (pg.edges-set_weight store.inner.graph i (dead n)) refl;
      order = ap sled.iter_order st.order ∙ h.mirrors.order;
      legacy = st.legacy;
    })
      where
        after : GraphStoreInner
        after = invalidate_at store.inner i (some n)

        found_at :
            (j : String)
            → get_node after j ≡ (
                if id == j
                then (elim (get_node store.inner j) [ none ↦ none | some m ↦ some (dead m) ])
                else get_node store.inner j)
        found_at j =
            ap (λ o. get_node (invalidate_at store.inner i o) j) (sym at_i)
            ∙ get_node-invalidate_at store.inner h.consistent id j i at_id

        there : get_node store.inner id ≡ some n
        there = unfold get_node in (rw (at_id, at_i) refl)

        found : get_node after id ≡ some (dead n)
        found = found_at id ∙ ground (arith, there, eq_iff id id)

        st :
            StoresNode works h.db store.inner h.mirrors
              (dead n)
              (or_warn h.db (store_node h.db (dead n)))
        st = store_node-StoresNode works h.db store.inner h.mirrors (dead n)

    invalidate_node-Kept : (id : String) → Kept k (or_same store (invalidate_node store id))
    unfolding invalidate_node Store.invalidate_node
    invalidate_node-Kept id = elim (Option-cases (lookup id store.inner.id_to_node)) [
      | inl e ↦ rw e h
      | inr (i, e) ↦
          let (n, at_i, same) = h.consistent.ids_sound id i e in
          rw (e, at_i, h.at)
            (record {
              db = _;
              at = refl;
              consistent = invalidate_at-IsConsistent store.inner h.consistent i (some n) at_i;
              mirrors = invalidate_at-Mirrors id i n e at_i same;
              short = h.short;
            })
    ]

    resolve_question-Kept :
        (uuid : String) (now : ℕ) (question resolver reasoning : String)
        → Kept k
            (or_same store (first (resolve_question store uuid now question resolver reasoning)))
    unfolding resolve_question
    resolve_question-Kept uuid now question resolver reasoning =
        elim (Option-cases (lookup question store.inner.id_to_node)) [
          | inl p ↦ rw (p, resolve_question) h
          | inr (q, p) ↦ elim (Option-cases (lookup resolver store.inner.id_to_node)) [
            | inl p' ↦ rw (p, p', resolve_question) h
            | inr (r, p') ↦
                let edge = resolves_edge uuid now question resolver reasoning in
                rw (p, p', resolve_question)
                  (subst (Kept k) (same_store store edge (add_edge store edge))
                    (add_edge-Kept edge))
          ]
        ]

    register_session-Kept : (sid : String) → Kept k (register_session store sid).0
    unfolding register_session Store.register_session get_node
    register_session-Kept sid = elim (Option-cases (session_index store.inner.session_order sid)) [
      | inr (i, e) ↦ rw (e, Store.register_session) h
      | inl e ↦
          rw (e, Store.register_session)
            (record {
              db = h.db;
              at = h.at;
              consistent =
                  subst IsConsistent (rw (e, Store.register_session) refl)
                    (register_session-IsConsistent store.inner h.consistent sid);
              mirrors = record {
                nodes = h.mirrors.nodes;
                edges = h.mirrors.edges;
                order = h.mirrors.order;
                legacy = h.mirrors.legacy;
              };
              short = h.short;
            })
    ]

    pub call-Kept :
        ⦃u : Unicode⦄ → k < 2 ^ 64 → (method : Method) → Kept (suc k) (call store method)
    unfolding call
    call-Kept small (node_added n) = add_node-Kept small n
    call-Kept small (edge_posted e) = more (add_edge-Kept e)
    call-Kept small (node_dropped id) = more (invalidate_node-Kept id)
    call-Kept small (question_resolved uuid now question resolver reasoning) =
        more (resolve_question-Kept uuid now question resolver reasoning)
    call-Kept small (session_seen sid) = more (register_session-Kept sid)

  pub calls-Kept :
      ⦃u : Unicode⦄ (k : ℕ) (store : GraphStore) (methods : List Method)
      → length methods + k < 2 ^ 64
      → Kept k store
      → Kept (length methods + k) (foldl call store methods)
  calls-Kept k store [] small h = weaken (ground arith) h
  calls-Kept k store (m ∷ methods) small h =
      subst (λ j. Kept j (foldl call store (m ∷ methods))) (ground arith)
        (calls-Kept (suc k) (call store m) methods (ground arith)
          (call-Kept k store h (ground arith) m))
