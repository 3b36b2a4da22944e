-- ===== src/Persistence/Durable.antt =====
-- armin-core/graph/src/store.rs: `GraphStore` with its database, and the writes of its methods. A write
-- that fails is logged, and the call goes on.

use armin.Prelude.{ℕ, String, Option, none, some, lookup, is_some, if◌then◌else◌, String_Eq}
use armin.Prelude.Results.{Result, ok, err}
use armin.Types.{ArgumentNode, ArgumentEdge}
use armin.Text.{Unicode}
use armin.Petgraph.{StableGraph}
use armin.Store.{
  GraphStoreInner, StoreError, new, get_node, question_not_found, resolver_not_found, resolves_edge,
  ok_or,
}
use armin.Store as Store
use armin.Persistence.{DbBackend, no_database, persist_node, persist_edge, persist_status}
use armin.Persistence.Disk.{Bincode, Sled}

-- a method, with its arguments
pub data Method : Type 0 where
  node_added : ArgumentNode → Method
  edge_posted : ArgumentEdge → Method
  node_dropped : String → Method
  question_resolved : String → ℕ → String → String → String → Method
  session_seen : String → Method

module _ ⦃pg : StableGraph⦄ ⦃b : Bincode⦄ ⦃sled : Sled⦄ where
  pub record GraphStore : Type 0 where
    pub inner : GraphStoreInner
    pub backend : Option DbBackend

  -- `if let Some(ref backend) = self.backend`
  abbrev pub write : (DbBackend → DbBackend) → Option DbBackend → Option DbBackend
  write f none = none
  write f (some db) = some (f db)

  unfoldable pub add_node : ⦃u : Unicode⦄ → GraphStore → ArgumentNode → GraphStore × ℕ
  unfolding Store.add_node persist_node
  add_node store node =
      let added = Store.add_node store.inner node in
      let existed = is_some (lookup node.id store.inner.id_to_node) in
      (
        record {
          inner = added.0;
          backend =
              if existed then store.backend else write (λ db. persist_node db node) store.backend;
        },
        added.1,
      )

  abbrev pub edge_added :
      GraphStore
      → ArgumentEdge
      → Result StoreError (GraphStoreInner × ℕ)
      → Result StoreError (GraphStore × ℕ)
  edge_added store edge (err e) = err e
  edge_added store edge (ok (inner, i)) = ok (
    record {
      inner = inner;
      backend =
          if is_some (lookup edge.id store.inner.id_to_edge)
          then store.backend
          else write (λ db. persist_edge db edge) store.backend;
    },
    i,
  )

  unfoldable pub add_edge : GraphStore → ArgumentEdge → Result StoreError (GraphStore × ℕ)
  unfolding Store.add_edge persist_edge
  add_edge store edge = edge_added store edge (Store.add_edge store.inner edge)

  abbrev pub node_invalidated :
      GraphStore → String → Result StoreError GraphStoreInner → Result StoreError GraphStore
  node_invalidated store id (err e) = err e
  node_invalidated store id (ok inner) = ok (record {
    inner = inner;
    backend = write (λ db. persist_status db (get_node inner id)) store.backend;
  })

  unfoldable pub invalidate_node : GraphStore → String → Result StoreError GraphStore
  unfolding Store.invalidate_node persist_status
  invalidate_node store id = node_invalidated store id (Store.invalidate_node store.inner id)

  abbrev pub resolution_added :
      ArgumentEdge
      → Result StoreError (GraphStore × ℕ)
      → Result StoreError (GraphStore × ArgumentEdge)
  resolution_added edge (err e) = err e
  resolution_added edge (ok (store, i)) = ok (store, edge)

  unfoldable pub resolve_question :
      GraphStore
      → String
      → ℕ
      → String
      → String
      → String
      → Result StoreError (GraphStore × ArgumentEdge)
  resolve_question store uuid now question resolver reasoning =
      elim (lookup question store.inner.id_to_node) [
        | none ↦ err (question_not_found question)
        | some q ↦ elim (lookup resolver store.inner.id_to_node) [
          | none ↦ err (resolver_not_found resolver)
          | some r ↦
              let edge = resolves_edge uuid now question resolver reasoning in
              resolution_added edge (add_edge store edge)
        ]
      ]

  unfoldable pub register_session : GraphStore → String → GraphStore × ℕ
  unfolding Store.register_session
  register_session store sid =
      let registered = Store.register_session store.inner sid in
      (record store { inner = registered.0 }, registered.1)

  abbrev pub or_same : GraphStore → Result StoreError GraphStore → GraphStore
  or_same store (ok after) = after
  or_same store (err e) = store

  abbrev pub first {ℓ} :
      {A : Type ℓ} → Result StoreError (GraphStore × A) → Result StoreError GraphStore
  first (ok (store, a)) = ok store
  first (err e) = err e

  -- a call, which leaves the store as it was where it fails
  unfoldable pub call : ⦃u : Unicode⦄ → GraphStore → Method → GraphStore
  unfolding add_node add_edge invalidate_node resolve_question register_session
  call store (node_added node) = (add_node store node).0
  call store (edge_posted edge) = or_same store (first (add_edge store edge))
  call store (node_dropped id) = or_same store (invalidate_node store id)
  call store (question_resolved uuid now question resolver reasoning) =
      or_same store (first (resolve_question store uuid now question resolver reasoning))
  call store (session_seen sid) = (register_session store sid).0

  -- a store that was just opened where there was no database
  abbrev pub fresh_store : GraphStore
  fresh_store = record { inner = new; backend = some no_database }
