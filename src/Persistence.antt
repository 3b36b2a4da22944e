-- ===== src/Persistence.antt =====
-- armin-core/graph/src/persistence.rs, and what armin-core/graph/src/store.rs does with it: a store
-- that writes each change to a database, and `new_persistent`, which loads one.
pub mod Disk
pub mod Durable
pub mod Open
pub mod Mirror
pub mod Keeps
pub mod ReadBack
pub mod Rebuild
pub mod Reopen
pub mod Restore
pub mod Memory
pub mod Migrate
use mathlib.Core.List.{foldl, filter_map}
use armin.Prelude.{
  ℕ, suc, ◌+◌, ◌%◌, ◌^◌, String, Option, none, some, List, [], ◌∷◌, ◌++◌, map, select, lookup,
  insert, is_some, contains, if◌then◌else◌, String_Eq,
}
use armin.Prelude.Results.{Result, ok, err}
use armin.Types.{ArgumentNode, ArgumentEdge}
use armin.Text.{Unicode}
use armin.Petgraph.{StableGraph, weight}
use armin.Store.{GraphStoreInner, StoreError, new, get_node, insert_edge, track}
use armin.Store as Store
use armin.Store.Index.{Bm25, no_index, index_node, node_text}
use Disk.{Bincode, Sled}

-- the values of a tree, read one by one
abbrev pub read_all {ℓ κ μ} :
    {K : Type ℓ} {B : Type κ} {A : Type μ} → (B → Option A) → List (K × B) → Option (List A)
read_all of [] = some []
read_all of ((k, v) ∷ entries) = elim (of v) [
  | none ↦ none
  | some a ↦ elim (read_all of entries) [ none ↦ none | some rest ↦ some (a ∷ rest) ]
]

abbrev pub last_key {ℓ} : {B : Type ℓ} → List (ℕ × B) → Option ℕ
last_key [] = none
last_key ((k, v) ∷ []) = some k
last_key (e ∷ f ∷ entries) = last_key (f ∷ entries)

-- the key behind the last one
abbrev pub next_index : Option ℕ → ℕ
next_index none = 0
next_index (some key) = (key + 1) % 2 ^ 64

module _ ⦃b : Bincode⦄ ⦃sled : Sled⦄ where
  -- the trees, and the legacy blob of the meta tree
  pub record DbBackend : Type 0 where
    pub nodes : sled.IdTree
    pub edges : sled.IdTree
    pub order : sled.OrderTree
    pub node_order : Option b.Bytes

  -- `open` where there was no database
  abbrev pub no_database : DbBackend
  no_database = record {
    nodes = sled.no_ids;
    edges = sled.no_ids;
    order = sled.no_order;
    node_order = none;
  }

  unfoldable pub load_all_nodes : DbBackend → Option (List ArgumentNode)
  load_all_nodes db = read_all b.node_of (sled.iter_ids db.nodes)

  unfoldable pub load_all_edges : DbBackend → Option (List ArgumentEdge)
  load_all_edges db = read_all b.edge_of (sled.iter_ids db.edges)

  abbrev pub with_order : DbBackend → Option sled.OrderTree → Option DbBackend
  with_order db none = none
  with_order db (some order) = some (record db { order = order })

  unfoldable pub append_node_order_at : DbBackend → ℕ → String → Option DbBackend
  append_node_order_at db idx node_id =
      with_order db (sled.insert_at db.order idx (b.id_bytes node_id))

  unfoldable pub append_node_order : DbBackend → String → Option DbBackend
  unfolding append_node_order_at
  append_node_order db node_id =
      append_node_order_at db (next_index (last_key (sled.iter_order db.order))) node_id

  -- the migration's loop, from the position `i`
  unfoldable pub migrate : DbBackend → ℕ → List String → Option DbBackend
  unfolding append_node_order_at
  migrate db i [] = some db
  migrate db i (id ∷ legacy) = elim (append_node_order_at db i id) [
    | none ↦ none
    | some after ↦ migrate after (suc i) legacy
  ]

  abbrev pub migrated : List String → Option DbBackend → Option (List String × DbBackend)
  migrated legacy none = none
  migrated legacy (some db) = some (legacy, record db { node_order = none })

  abbrev pub move_legacy : DbBackend → Option (List String) → Option (List String × DbBackend)
  move_legacy db none = none
  move_legacy db (some []) = some ([], db)
  move_legacy db (some (id ∷ legacy)) = migrated (id ∷ legacy) (migrate db 0 (id ∷ legacy))

  -- the order of the former format, one blob
  abbrev pub load_legacy : DbBackend → Option b.Bytes → Option (List String × DbBackend)
  load_legacy db none = some ([], db)
  load_legacy db (some blob) = move_legacy db (b.ids_of blob)

  abbrev pub loaded_order : DbBackend → Option (List String) → Option (List String × DbBackend)
  loaded_order db none = none
  loaded_order db (some ids) = some (ids, db)

  unfoldable pub load_node_order : DbBackend → Option (List String × DbBackend)
  unfolding migrate
  load_node_order db = elim (sled.iter_order db.order) [
    | [] ↦ load_legacy db db.node_order
    | e ∷ entries ↦ loaded_order db (read_all b.id_of (e ∷ entries))
  ]

  abbrev pub with_nodes : DbBackend → Option sled.IdTree → Option DbBackend
  with_nodes db none = none
  with_nodes db (some nodes) = some (record db { nodes = nodes })

  unfoldable pub store_node : DbBackend → ArgumentNode → Option DbBackend
  store_node db node = with_nodes db (sled.insert_id db.nodes node.id (b.node_bytes node))

  abbrev pub with_edges : DbBackend → Option sled.IdTree → Option DbBackend
  with_edges db none = none
  with_edges db (some edges) = some (record db { edges = edges })

  unfoldable pub store_edge : DbBackend → ArgumentEdge → Option DbBackend
  store_edge db edge = with_edges db (sled.insert_id db.edges edge.id (b.edge_bytes edge))

  -- `if let Err(e) = .. { warn!(..) }`
  abbrev pub or_warn : DbBackend → Option DbBackend → DbBackend
  or_warn db none = db
  or_warn db (some after) = after

  -- what `add_node` and `add_edge` write
  unfoldable pub persist_node : DbBackend → ArgumentNode → DbBackend
  unfolding store_node append_node_order
  persist_node db node =
      let stored = or_warn db (store_node db node) in
      or_warn stored (append_node_order stored node.id)

  unfoldable pub persist_edge : DbBackend → ArgumentEdge → DbBackend
  unfolding store_edge
  persist_edge db edge = or_warn db (store_edge db edge)

  -- what `invalidate_node` writes: the node as it is now
  unfoldable pub persist_status : DbBackend → Option ArgumentNode → DbBackend
  unfolding store_node
  persist_status db none = db
  persist_status db (some node) = or_warn db (store_node db node)
