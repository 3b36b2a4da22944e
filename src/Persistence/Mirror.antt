-- ===== src/Persistence/Mirror.antt =====
-- armin-core/graph/src/store.rs: what the database of a `GraphStore` holds while its methods run.
use mathlib.Core.List.{map-append}
use mathlib.Core.Option
use armin.Prelude.{
  ℕ, suc, ◌+◌, ◌^◌, ◌<◌, ◌≤◌, ◌≡◌, refl, ap, sym, ◌∙◌, inl, inr, String, true, false, Option, none,
  some, List, [], ◌∷◌, ◌++◌, map, any, lookup, is_some, contains, leb, length, if◌then◌else◌, ◌==◌,
  String_Eq, ℕ_Eq, arith, eq_iff, Option-cases,
}
use armin.Types.{ArgumentNode, ArgumentEdge}
use armin.Text.{Unicode}
use armin.Petgraph.{StableGraph}
use armin.Store.{GraphStoreInner, new, get_node, insert_node, insert_edge}
use armin.Store.Query.{all_edges}
use armin.Store.Consistent.{IsConsistent, edge_names}
use armin.Store.Writes.Nodes.{get_node-insert_node}
use armin.Store.Writes.Edges.{HasEdge, insert_edge-HasEdge, edge_names-all_edges}
use armin.Persistence.{
  DbBackend, no_database, persist_node, persist_edge, store_node, store_edge, append_node_order,
  append_node_order_at, last_key, next_index, or_warn,
}
use armin.Persistence.Disk.{Bincode, Sled}

abbrev pub edge_at : ⦃pg : StableGraph⦄ → GraphStoreInner → String → Option ArgumentEdge
edge_at s id = lookup id (map (λ (e : ArgumentEdge). (e.id, e)) (all_edges s))

abbrev pub numbered {ℓ} : {A : Type ℓ} → ℕ → List A → List (ℕ × A)
numbered i [] = []
numbered i (a ∷ rest) = (i, a) ∷ numbered (suc i) rest

pub numbered-append {ℓ} :
    {A : Type ℓ} (i : ℕ) (l : List A) (a : A)
    → numbered i l ++ (length l + i, a) ∷ [] ≡ numbered i (l ++ a ∷ [])
numbered-append i [] a = let same : 0 + i ≡ i = omega arith in ap (λ k. (k, a) ∷ []) same
numbered-append i (x ∷ l) a = ground (arith, numbered-append (suc i) l a)

next_index-numbered {ℓ} :
    {A : Type ℓ} (i : ℕ) (l : List A)
    → 0 < length l
    → length l + i < 2 ^ 64
    → next_index (last_key (numbered i l)) ≡ length l + i
next_index-numbered i [] some_id small = absurd (ground arith)
next_index-numbered i (x ∷ []) some_id small = ground arith
next_index-numbered i (x ∷ y ∷ l) some_id small =
    next_index-numbered (suc i) (y ∷ l) (ground arith) (ground arith) ∙ ground arith

pub numbered-above {ℓ} :
    {A : Type ℓ} (i k : ℕ) (l : List A)
    → length l + i ≤ k
    → any (λ e. leb k e.0) (numbered i l) ≡ false
numbered-above i k [] small = refl
numbered-above i k (x ∷ l) small = ground (arith, numbered-above (suc i) k l (ground arith))

length-map {ℓ} : {A B : Type ℓ} (f : A → B) (l : List A) → length (map f l) ≡ length l
length-map f [] = refl
length-map f (x ∷ l) = ground (arith, length-map f l)

lookup-last :
    (l : List ArgumentEdge) (e : ArgumentEdge) (id : String)
    → contains e.id (map (λ (d : ArgumentEdge). d.id) l) ≡ false
    → lookup id (map (λ (d : ArgumentEdge). (d.id, d)) (l ++ e ∷ []))
      ≡ (if e.id == id then some e else lookup id (map (λ (d : ArgumentEdge). (d.id, d)) l))
lookup-last [] e id fresh = ground (arith, eq_iff e.id id)
lookup-last (d ∷ l) e id fresh =
    ground (arith, lookup-last l e id, eq_iff e.id id, eq_iff d.id id, eq_iff e.id d.id)

module _ ⦃b : Bincode⦄ ⦃sled : Sled⦄ where
  -- every insertion succeeds
  pub record DiskWorks : Type 0 where
    pub ids : (t : sled.IdTree) (k : String) (v : b.Bytes) → is_some (sled.insert_id t k v) ≡ true
    pub order : (t : sled.OrderTree) (k : ℕ) (v : b.Bytes) → is_some (sled.insert_at t k v) ≡ true

module _ ⦃pg : StableGraph⦄ ⦃b : Bincode⦄ ⦃sled : Sled⦄ where
  -- the database holds the store's nodes, edges and order
  pub record Mirrors (db : DbBackend) (s : GraphStoreInner) : Type 0 where
    pub nodes :
        (id : String) → lookup id (sled.iter_ids db.nodes) ≡ Option.map b.node_bytes (get_node s id)
    pub edges :
        (id : String) → lookup id (sled.iter_ids db.edges) ≡ Option.map b.edge_bytes (edge_at s id)
    pub order : sled.iter_order db.order ≡ numbered 0 (map b.id_bytes s.node_order)
    pub legacy : db.node_order ≡ none

  pub no_database-Mirrors : Mirrors no_database new
  unfolding get_node
  no_database-Mirrors = record {
    nodes = λ id. rw sled.iter-no_ids refl;
    edges = λ id. rw (sled.iter-no_ids, pg.edges-default) refl;
    order = sled.iter-no_order;
    legacy = refl;
  }

  -- `append_node_order` on a disk that works
  record AppendsOrder (db : DbBackend) (bytes : List b.Bytes) (after : DbBackend) : Type 0 where
    pub nodes : after.nodes ≡ db.nodes
    pub edges : after.edges ≡ db.edges
    pub order : sled.iter_order after.order ≡ numbered 0 bytes
    pub legacy : after.node_order ≡ db.node_order

  next_key :
      (bytes : List b.Bytes)
      → length bytes < 2 ^ 64
      → next_index (last_key (numbered 0 bytes)) ≡ length bytes + 0
  next_key [] small = ground arith
  next_key (x ∷ bytes) small = next_index-numbered 0 (x ∷ bytes) (ground arith) (ground arith)

  append_node_order-AppendsOrder :
      (works : DiskWorks) (db : DbBackend) (bytes : List b.Bytes) (id : String)
      → sled.iter_order db.order ≡ numbered 0 bytes
      → length bytes < 2 ^ 64
      → AppendsOrder db (bytes ++ b.id_bytes id ∷ []) (or_warn db (append_node_order db id))
  unfolding append_node_order append_node_order_at
  append_node_order-AppendsOrder works db bytes id held small =
      rw (held, next_key bytes small)
        (elim (Option-cases (sled.insert_at db.order (length bytes + 0) (b.id_bytes id))) [
          | inl e ↦
              absurd (ground (arith, works.order db.order (length bytes + 0) (b.id_bytes id), e))
          | inr (t, e) ↦ rw e (record {
            nodes = refl;
            edges = refl;
            order =
                sled.iter-insert_at db.order t (length bytes + 0) (b.id_bytes id) e
                  (rw held (numbered-above 0 (length bytes + 0) bytes (ground arith)))
                ∙ rw held (numbered-append 0 bytes (b.id_bytes id));
            legacy = refl;
          })
        ])

  module _ (works : DiskWorks) (db : DbBackend) (s : GraphStoreInner) (m : Mirrors db s) where
    -- `store_node` on a disk that works
    pub record StoresNode (n : ArgumentNode) (after : DbBackend) : Type 0 where
      pub nodes :
          (id : String)
          → lookup id (sled.iter_ids after.nodes) ≡ (
              if n.id == id then some (b.node_bytes n) else Option.map b.node_bytes (get_node s id))
      pub edges : after.edges ≡ db.edges
      pub order : after.order ≡ db.order
      pub legacy : after.node_order ≡ none

    pub store_node-StoresNode : (n : ArgumentNode) → StoresNode n (or_warn db (store_node db n))
    unfolding store_node
    store_node-StoresNode n = elim (Option-cases (sled.insert_id db.nodes n.id (b.node_bytes n))) [
      | inl e ↦ absurd (ground (arith, works.ids db.nodes n.id (b.node_bytes n), e))
      | inr (t, e) ↦ rw e (record {
        nodes = λ id.
            sled.lookup-insert_id db.nodes t n.id (b.node_bytes n) e id ∙ rw (m.nodes id) refl;
        edges = refl;
        order = refl;
        legacy = m.legacy;
      })
    ]

    pub persist_node-Mirrors :
        ⦃u : Unicode⦄ (n : ArgumentNode)
        → IsConsistent s
        → lookup n.id s.id_to_node ≡ none
        → length s.node_order < 2 ^ 64
        → Mirrors (persist_node db n) (insert_node s n).0
    unfolding persist_node append_node_order insert_node
    persist_node-Mirrors n h fresh small =
        let stored = or_warn db (store_node db n) in
        let st = store_node-StoresNode n in
        let ap_order =
          append_node_order-AppendsOrder works stored (map b.id_bytes s.node_order) n.id
            (ap sled.iter_order st.order ∙ m.order)
            (ground (arith, length-map b.id_bytes s.node_order)) in
        record {
          nodes = λ id. rw ap_order.nodes (st.nodes id ∙ sym (node_at id));
          edges = λ id. rw (ap_order.edges, st.edges) (m.edges id ∙ sym (edges_kept id));
          order =
              ap_order.order
              ∙ ap (numbered 0) (sym (map-append b.id_bytes s.node_order (n.id ∷ [])));
          legacy = ap_order.legacy ∙ st.legacy;
        }
      where
        node_at :
            (id : String)
            → Option.map b.node_bytes (get_node (insert_node s n).0 id) ≡ (
                if n.id == id
                then some (b.node_bytes n)
                else Option.map b.node_bytes (get_node s id))
        node_at id = rw (get_node-insert_node s h n id fresh) (ground arith)

        edges_kept :
            (id : String)
            → Option.map b.edge_bytes (edge_at (insert_node s n).0 id)
              ≡ Option.map b.edge_bytes (edge_at s id)
        edges_kept id = rw (pg.edges-add_node s.graph n) refl

    pub persist_edge-Mirrors :
        (e : ArgumentEdge) (src tgt : ℕ)
        → IsConsistent s
        → lookup e.source_node_id s.id_to_node ≡ some src
        → lookup e.target_node_id s.id_to_node ≡ some tgt
        → lookup e.id s.id_to_edge ≡ none
        → Mirrors (persist_edge db e) (insert_edge s src tgt e).0
    unfolding persist_edge store_edge
    persist_edge-Mirrors e src tgt h from to fresh =
        elim (Option-cases (sled.insert_id db.edges e.id (b.edge_bytes e))) [
          | inl q ↦ absurd (ground (arith, works.ids db.edges e.id (b.edge_bytes e), q))
          | inr (t, q) ↦ rw q (record {
            nodes = λ id. m.nodes id ∙ ap (Option.map b.node_bytes) (sym (has.nodes id));
            edges = λ id.
                sled.lookup-insert_id db.edges t e.id (b.edge_bytes e) q id
                ∙ rw (m.edges id) (sym (at id));
            order = m.order ∙ (unfold insert_edge in refl);
            legacy = m.legacy;
          })
        ]
      where
        has : HasEdge s e (insert_edge s src tgt e).0
        has = insert_edge-HasEdge s h e src tgt from to fresh

        free : contains e.id (edge_names s) ≡ false
        free = h.edge_ids e.id ∙ ap is_some fresh

        old : contains e.id (map (λ (d : ArgumentEdge). d.id) (all_edges s)) ≡ false
        old = ap (contains e.id) (sym (edge_names-all_edges (pg.edge_references s.graph))) ∙ free

        last : all_edges (insert_edge s src tgt e).0 ≡ all_edges s ++ e ∷ []
        last = has.edges ∙ rw free refl

        at :
            (id : String)
            → Option.map b.edge_bytes (edge_at (insert_edge s src tgt e).0 id) ≡ (
                if e.id == id
                then some (b.edge_bytes e)
                else Option.map b.edge_bytes (edge_at s id))
        at id = rw last (ground (arith, lookup-last (all_edges s) e id old))
