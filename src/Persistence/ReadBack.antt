-- ===== src/Persistence/ReadBack.antt =====
-- armin-core/graph/src/persistence.rs, `load_all_nodes`, `load_all_edges` and `load_node_order`: a tree
-- of written values is read as these values.
use mathlib.Core.Option
use armin.Prelude.{
  ℕ, suc, ◌≡◌, refl, ap, sym, ◌∙◌, inl, inr, String, true, Option, none, some, List, [], ◌∷◌, Memᴰ,
  Memᴰ-cons, map, lookup, is_some, contains, unique, ◌==◌, String_Eq, arith, eq_iff, Option-cases,
  Bool-cases,
}
use armin.Persistence.{
  DbBackend, loaded_order, load_legacy, read_all, load_all_nodes, load_all_edges, load_node_order,
}
use armin.Persistence.Disk.{Bincode, Sled}
use armin.Types.{ArgumentNode, ArgumentEdge}
use armin.Petgraph.{StableGraph}
use armin.Store.{GraphStoreInner, get_node}
use armin.Store.Query.{all_edges}
use armin.Store.Consistent.{IsConsistent}
use armin.Store.Writes.{get_node-id}
use armin.Persistence.Rebuild.{nodes_by_id, node_ids, edge_ids, edges_by_id}
use armin.Persistence.Mirror.{Mirrors, edge_at, numbered}

abbrev pub keys {ℓ} : {B : Type ℓ} → List (String × B) → List String
keys = map (λ e. e.0)

is_some-lookup {ℓ} :
    {B : Type ℓ} (k : String) (entries : List (String × B))
    → is_some (lookup k entries) ≡ contains k (keys entries)
is_some-lookup k [] = refl
is_some-lookup k ((j, v) ∷ entries) = ground (arith, is_some-lookup k entries)

keys-named {ℓ} :
    {A : Type ℓ} (name : A → String) (l : List A) → keys (map (λ a. (name a, a)) l) ≡ map name l
keys-named name [] = refl
keys-named name (a ∷ l) = ap (λ t. name a ∷ t) (keys-named name l)

module _ {ℓ} {B A : Type ℓ} (of : B → Option A) (to : A → B)
    (of-to : (a : A) → of (to a) ≡ some a) where
  pub read_all-numbered : (i : ℕ) (l : List A) → read_all of (numbered i (map to l)) ≡ some l
  read_all-numbered i [] = refl
  read_all-numbered i (a ∷ l) = rw (of-to a, read_all-numbered (suc i) l) refl

  module _ (name : A → String) (at : String → Option A)
      (at-name : (k : String) (a : A) → at k ≡ some a → name a ≡ k) where
    -- the values that a tree holds
    pub record ReadBack (entries : List (String × B)) (l : List A) : Type ℓ where
      pub read : read_all of entries ≡ some l
      pub names : map name l ≡ keys entries
      pub found :
          (id : String)
          → contains id (keys entries) ≡ true
          → lookup id (map (λ a. (name a, a)) l) ≡ at id

    read_all-ReadBack :
        (entries : List (String × B))
        → unique (keys entries) ≡ true
        → ((k : String)
            → contains k (keys entries) ≡ true
            → lookup k entries ≡ Option.map to (at k))
        → (l : List A) × ReadBack entries l
    read_all-ReadBack [] all_new held =
        ([], record { read = refl; names = refl; found = λ id c. absurd (ground arith) })
    read_all-ReadBack ((k, v) ∷ entries) all_new held =
        let (l, rest) =
          read_all-ReadBack entries (ground arith)
            (λ j c. ground (arith, held j, c, all_new, eq_iff k j)) in
        elim (Option-cases (at k)) [
          | inl e ↦ absurd (ground (arith, held k, eq_iff k k, e))
          | inr (a, e) ↦ (
            a ∷ l,
            record {
              read = unfold read_all in ground (arith, ap of (value a e) ∙ of-to a, rest.read);
              names = ground (arith, at-name k a e, rest.names);
              found = λ id c. ground (arith, at-name k a e, rest.found id, c, e, eq_iff k id);
            },
          )
        ]
      where
        value : (a : A) → at k ≡ some a → v ≡ to a
        value a e = ground (arith, held k, eq_iff k k, e)

    -- a tree with the value of `at` under each key is read as a list of these values
    pub record HoldsAll (entries : List (String × B)) (l : List A) : Type ℓ where
      pub read : read_all of entries ≡ some l
      pub names : unique (map name l) ≡ true
      pub found : (id : String) → lookup id (map (λ a. (name a, a)) l) ≡ at id

    pub read_all-HoldsAll :
        (entries : List (String × B))
        → unique (keys entries) ≡ true
        → ((k : String) → lookup k entries ≡ Option.map to (at k))
        → (l : List A) × HoldsAll entries l
    read_all-HoldsAll entries all_new held =
        let (l, back) = read_all-ReadBack entries all_new (λ k c. held k) in
        (
          l,
          record {
            read = back.read;
            names = rw back.names all_new;
            found = λ id. elim (Bool-cases (contains id (keys entries))) [
              | inr c ↦ ground (
                arith,
                c,
                held id,
                is_some-lookup id entries,
                is_some-lookup id (map (λ a. (name a, a)) l),
                ap (contains id) (keys-named name l ∙ back.names),
              )
              | inl c ↦ back.found id c
            ];
          },
        )

pub load_node_order-numbered :
    ⦃b : Bincode⦄ ⦃sled : Sled⦄ (db : DbBackend) (ids : List String)
    → sled.iter_order db.order ≡ numbered 0 (map b.id_bytes ids)
    → db.node_order ≡ none
    → load_node_order db ≡ some (ids, db)
unfolding load_node_order
load_node_order-numbered ⦃b⦄ ⦃sled⦄ db [] held legacy =
    rw (held, load_node_order) (ap (load_legacy db) legacy)
load_node_order-numbered ⦃b⦄ ⦃sled⦄ db (id ∷ ids) held legacy =
    rw (held, load_node_order)
      (ap (loaded_order db) (read_all-numbered b.id_of b.id_bytes b.id_of-id_bytes 0 (id ∷ ids)))

pub lookup-named :
    (k : String) (l : List ArgumentEdge) (e : ArgumentEdge)
    → lookup k (edges_by_id l) ≡ some e
    → Memᴰ e l × (e.id ≡ k)
lookup-named k [] e at = absurd (ground (arith, at))
lookup-named k (d ∷ l) e at = elim (Bool-cases (d.id == k)) [
  | inl p ↦
      let same : d ≡ e = ground (arith, at, p) in
      ((Memᴰ-cons e d l).1 (inl (sym same)), ground (arith, p, same, eq_iff d.id k))
  | inr p ↦
      let (m, q) = lookup-named k l e (ground (arith, at, p)) in ((Memᴰ-cons e d l).1 (inr m), q)
]

module _ ⦃pg : StableGraph⦄ ⦃b : Bincode⦄ ⦃sled : Sled⦄ (db : DbBackend) (s : GraphStoreInner)
    (m : Mirrors db s) where
  pub load_all_nodes_lem :
      IsConsistent s
      → (nodes : List ArgumentNode) × (load_all_nodes db ≡ some nodes)
        × (unique (node_ids nodes) ≡ true)
        × ((id : String) → lookup id (nodes_by_id nodes) ≡ get_node s id)
  unfolding load_all_nodes
  load_all_nodes_lem h =
      let (l, all) =
        read_all-HoldsAll b.node_of b.node_bytes b.node_of-node_bytes (λ n. n.id) (get_node s)
          (get_node-id s h) (sled.iter_ids db.nodes) (sled.unique-keys db.nodes) m.nodes in
      (l, all.read, all.names, all.found)

  pub load_all_edges_lem :
      (edges : List ArgumentEdge) × (load_all_edges db ≡ some edges)
      × (unique (edge_ids edges) ≡ true)
      × ((id : String) → lookup id (edges_by_id edges) ≡ edge_at s id)
  unfolding load_all_edges
  load_all_edges_lem =
      let (l, all) =
        read_all-HoldsAll b.edge_of b.edge_bytes b.edge_of-edge_bytes (λ e. e.id) (edge_at s)
          (λ k e at. (lookup-named k (all_edges s) e at).1) (sled.iter_ids db.edges)
          (sled.unique-keys db.edges) m.edges in
      (l, all.read, all.names, all.found)

  pub load_node_order-same : load_node_order db ≡ some (s.node_order, db)
  unfolding load_node_order
  load_node_order-same = load_node_order-numbered db s.node_order m.order m.legacy
