-- ===== src/Persistence/Disk.antt =====
-- What armin-core/graph/src/persistence.rs uses of the crates `sled` and `bincode`, as interfaces with
-- what they document. A tree of nodes or edges has identifiers' bytes as keys, the tree of the order
-- big-endian numbers of 64 bits, whose order is that of the numbers. An insertion may fail (`none`);
-- that reading a tree fails is left out.
use armin.Prelude.{
  ℕ, ◌≡◌, String, false, true, Option, some, List, [], ◌∷◌, ◌++◌, map, any, lookup, unique, leb,
  if◌then◌else◌, ◌==◌, String_Eq,
}
use armin.Types.{ArgumentNode, ArgumentEdge}

pub record Bincode : Type 1 where
  pub Bytes : Type 0
  pub node_bytes : ArgumentNode → Bytes
  pub edge_bytes : ArgumentEdge → Bytes
  pub id_bytes : String → Bytes
  -- `deserialize`
  pub node_of : Bytes → Option ArgumentNode
  pub edge_of : Bytes → Option ArgumentEdge
  pub id_of : Bytes → Option String
  pub ids_of : Bytes → Option (List String)
  pub node_of-node_bytes : (n : ArgumentNode) → node_of (node_bytes n) ≡ some n
  pub edge_of-edge_bytes : (e : ArgumentEdge) → edge_of (edge_bytes e) ≡ some e
  pub id_of-id_bytes : (id : String) → id_of (id_bytes id) ≡ some id

pub record Sled ⦃b : Bincode⦄ : Type 1 where
  pub IdTree : Type 0
  pub OrderTree : Type 0
  -- a tree that was just made
  pub no_ids : IdTree
  pub no_order : OrderTree
  pub insert_id : IdTree → String → b.Bytes → Option IdTree
  pub insert_at : OrderTree → ℕ → b.Bytes → Option OrderTree
  pub iter_ids : IdTree → List (String × b.Bytes)
  pub iter_order : OrderTree → List (ℕ × b.Bytes)
  pub iter-no_ids : iter_ids no_ids ≡ []
  pub iter-no_order : iter_order no_order ≡ []
  -- a key has one value, the latest that was inserted
  pub unique-keys : (t : IdTree) → unique (map (λ (e : String × b.Bytes). e.0) (iter_ids t)) ≡ true
  pub lookup-insert_id :
      (t t' : IdTree) (k : String) (v : b.Bytes)
      → insert_id t k v ≡ some t'
      → (j : String) → lookup j (iter_ids t') ≡ (if k == j then some v else lookup j (iter_ids t))
  -- keys are iterated over in ascending order, so that a new greatest key comes last
  pub iter-insert_at :
      (t t' : OrderTree) (k : ℕ) (v : b.Bytes)
      → insert_at t k v ≡ some t'
      → any (λ (e : ℕ × b.Bytes). leb k e.0) (iter_order t) ≡ false
      → iter_order t' ≡ iter_order t ++ (k, v) ∷ []
