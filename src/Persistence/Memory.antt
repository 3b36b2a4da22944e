-- ===== src/Persistence/Memory.antt =====
-- armin-core/graph/src/store.rs: the store in memory beside its database.
use mathlib.Core.List.{foldl}
use armin.Prelude.{
  ℕ, ◌≡◌, refl, ap, sym, ◌∙◌, inl, inr, String, List, [], ◌∷◌, lookup, String_Eq, Option-cases,
}
use armin.Prelude.Results.{Result, ok, err, ◌>>=◌}
use armin.Types.{ArgumentEdge}
use armin.Text.{Unicode}
use armin.Petgraph.{StableGraph}
use armin.Store.{GraphStoreInner, StoreError, resolves_edge}
use armin.Store as Store
use armin.Persistence.Disk.{Bincode, Sled}
use armin.Persistence.Durable.{
  GraphStore, Method, node_added, edge_posted, node_dropped, question_resolved, session_seen,
  add_node, add_edge, invalidate_node, resolve_question, register_session, call, or_same, first,
  resolution_added, edge_added, node_invalidated,
}

module _ ⦃pg : StableGraph⦄ where
  abbrev inner_of :
      ⦃b : Bincode⦄
      → ⦃sled : Sled⦄ → Result StoreError GraphStore
      → Result StoreError GraphStoreInner
  inner_of (ok store) = ok store.inner
  inner_of (err e) = err e

  abbrev kept : GraphStoreInner → Result StoreError GraphStoreInner → GraphStoreInner
  kept s (ok t) = t
  kept s (err e) = s

  abbrev state {ℓ} :
      {A : Type ℓ} → Result StoreError (GraphStoreInner × A) → Result StoreError GraphStoreInner
  state (ok (t, a)) = ok t
  state (err e) = err e

  -- a method of a store that has no database
  unfoldable pub memory_call : ⦃u : Unicode⦄ → GraphStoreInner → Method → GraphStoreInner
  memory_call s (node_added node) = (Store.add_node s node).0
  memory_call s (edge_posted edge) = kept s (state (Store.add_edge s edge))
  memory_call s (node_dropped id) = kept s (Store.invalidate_node s id)
  memory_call s (question_resolved uuid now question resolver reasoning) =
      kept s (state (Store.resolve_question s uuid now question resolver reasoning))
  memory_call s (session_seen sid) = (Store.register_session s sid).0

module _ ⦃pg : StableGraph⦄ ⦃b : Bincode⦄ ⦃sled : Sled⦄ where
  inner-add_edge :
      (store : GraphStore) (edge : ArgumentEdge) (r : Result StoreError (GraphStoreInner × ℕ))
      → (or_same store (first (edge_added store edge r))).inner ≡ kept store.inner (state r)
  inner-add_edge store edge (ok (s, i)) = refl
  inner-add_edge store edge (err e) = refl

  or_same-inner :
      (store : GraphStore) (r : Result StoreError GraphStore)
      → (or_same store r).inner ≡ kept store.inner (inner_of r)
  or_same-inner store (ok after) = refl
  or_same-inner store (err e) = refl

  inner_of-resolution :
      (store : GraphStore) (edge : ArgumentEdge) (r : Result StoreError (GraphStoreInner × ℕ))
      → inner_of (first (resolution_added edge (edge_added store edge r)))
        ≡ state (r >>= (λ added. ok (added.0, edge)))
  inner_of-resolution store edge (ok (s, i)) = refl
  inner_of-resolution store edge (err e) = refl

  inner_of-add_edge :
      (store : GraphStore) (edge : ArgumentEdge)
      → inner_of (first (resolution_added edge (add_edge store edge)))
        ≡ state (Store.add_edge store.inner edge >>= (λ added. ok (added.0, edge)))
  unfolding add_edge
  inner_of-add_edge store edge = inner_of-resolution store edge (Store.add_edge store.inner edge)

  inner_of-resolve_question :
      (store : GraphStore) (uuid : String) (now : ℕ) (question resolver reasoning : String)
      → inner_of (first (resolve_question store uuid now question resolver reasoning))
        ≡ state (Store.resolve_question store.inner uuid now question resolver reasoning)
  unfolding resolve_question Store.resolve_question
  inner_of-resolve_question store uuid now question resolver reasoning =
      elim (Option-cases (lookup question store.inner.id_to_node)) [
        | inl p ↦ rw (p, resolve_question) refl
        | inr (q, p) ↦ elim (Option-cases (lookup resolver store.inner.id_to_node)) [
          | inl p' ↦ rw (p, p', resolve_question) refl
          | inr (r, p') ↦
              let edge = resolves_edge uuid now question resolver reasoning in
              let durable : resolve_question store uuid now question resolver reasoning
                  ≡ resolution_added edge (add_edge store edge) =
                rw (p, p', resolve_question) refl in
              let memory : Store.resolve_question store.inner uuid now question resolver reasoning
                  ≡ (Store.add_edge store.inner edge >>= (λ added. ok (added.0, edge))) =
                rw (p, p', Store.resolve_question) refl in
              ap (λ r. inner_of (first r)) durable
              ∙ inner_of-add_edge store edge
              ∙ ap state (sym memory)
        ]
      ]

  inner-invalidate_node :
      (store : GraphStore) (id : String) (r : Result StoreError GraphStoreInner)
      → (or_same store (node_invalidated store id r)).inner ≡ kept store.inner r
  inner-invalidate_node store id (ok s) = refl
  inner-invalidate_node store id (err e) = refl

  inner-call :
      ⦃u : Unicode⦄ (store : GraphStore) (method : Method)
      → (call store method).inner ≡ memory_call store.inner method
  unfolding call memory_call add_edge invalidate_node
  inner-call store (node_added node) = unfold add_node in refl
  inner-call store (edge_posted edge) = inner-add_edge store edge (Store.add_edge store.inner edge)
  inner-call store (node_dropped id) =
      inner-invalidate_node store id (Store.invalidate_node store.inner id)
  inner-call store (question_resolved uuid now question resolver reasoning) =
      or_same-inner store (first (resolve_question store uuid now question resolver reasoning))
      ∙ ap (kept store.inner) (inner_of-resolve_question store uuid now question resolver reasoning)
  inner-call store (session_seen sid) = unfold register_session in refl

  -- Whatever the database does, a failing write or a lost one included, the methods change the store
  -- in memory as they change one without a database.
  pub inner-foldl-call :
      ⦃u : Unicode⦄ (store : GraphStore) (methods : List Method)
      → (foldl call store methods).inner ≡ foldl memory_call store.inner methods
  inner-foldl-call store [] = refl
  inner-foldl-call store (m ∷ methods) =
      inner-foldl-call (call store m) methods
      ∙ ap (λ s. foldl memory_call s methods) (inner-call store m)
