-- ===== src/Tests/Durable.antt =====
-- The theorems on the database at concrete inputs: an association list as a tree, and values that are
-- their own bytes.
use mathlib.Core.List.{foldl}
use armin.Prelude.{
  ℕ, ◌≡◌, refl, ap, sym, ◌∙◌, String, true, false, Option, none, some, List, [], ◌∷◌, ◌++◌, map,
  any, lookup, lookup-insert, insert, contains, unique, leb, if◌then◌else◌, ◌==◌, String_Eq, ℕ_Eq,
  arith, eq_iff, nat_eq_iff,
}
use armin.Types.{ArgumentNode, ArgumentEdge}
use armin.Petgraph.Listed.{listed}
use armin.Persistence.{DbBackend, no_database, load_node_order}
use armin.Persistence.Disk.{Bincode, Sled}
use armin.Persistence.Durable.{
  Method, node_added, edge_posted, node_dropped, question_resolved, session_seen, call, fresh_store,
}
use armin.Persistence.Mirror.{DiskWorks}
use armin.Persistence.Restore.{Reopens, new_persistent-call}
use armin.Persistence.Memory.{memory_call, inner-foldl-call}
use armin.Persistence.Migrate.{load_node_order-again}
use armin.Tests.{ascii, question, answer, relates}

data Blob : Type 0 where
  node_blob : ArgumentNode → Blob
  edge_blob : ArgumentEdge → Blob
  id_blob : String → Blob
  ids_blob : List String → Blob

abbrev a_node : Blob → Option ArgumentNode
a_node (node_blob n) = some n
a_node _ = none

abbrev an_edge : Blob → Option ArgumentEdge
an_edge (edge_blob e) = some e
an_edge _ = none

abbrev an_id : Blob → Option String
an_id (id_blob id) = some id
an_id _ = none

abbrev some_ids : Blob → Option (List String)
some_ids (ids_blob ids) = some ids
some_ids _ = none

instance abbrev plain : Bincode
plain = record {
  Bytes = Blob;
  node_bytes = node_blob;
  edge_bytes = edge_blob;
  id_bytes = id_blob;
  node_of = a_node;
  edge_of = an_edge;
  id_of = an_id;
  ids_of = some_ids;
  node_of-node_bytes = λ n. refl;
  edge_of-edge_bytes = λ e. refl;
  id_of-id_bytes = λ id. refl;
}

contains-insert :
    (j k : String) (v : Blob) (t : List (String × Blob))
    → contains j (map (λ (e : String × Blob). e.0) (insert k v t))
      ≡ (if k == j then true else contains j (map (λ (e : String × Blob). e.0) t))
unfolding insert
contains-insert j k v [] = ground arith
contains-insert j k v ((i, w) ∷ t) =
    ground (arith, contains-insert j k v t, eq_iff i k, eq_iff i j, eq_iff k j)

unique-insert :
    (k : String) (v : Blob) (t : List (String × Blob))
    → unique (map (λ (e : String × Blob). e.0) t) ≡ true
    → unique (map (λ (e : String × Blob). e.0) (insert k v t)) ≡ true
unfolding insert
unique-insert k v [] all_new = refl
unique-insert k v ((i, w) ∷ t) all_new =
    ground (arith, all_new, unique-insert k v t, contains-insert i k v t, eq_iff i k, eq_iff k i)

insert-last :
    (k : ℕ) (v : Blob) (t : List (ℕ × Blob))
    → any (λ (e : ℕ × Blob). leb k e.0) t ≡ false
    → insert k v t ≡ t ++ (k, v) ∷ []
unfolding insert
insert-last k v [] above = refl
insert-last k v ((i, w) ∷ t) above = ground (arith, above, insert-last k v t, nat_eq_iff i k)

abbrev value_or {ℓ} : {A : Type ℓ} → A → Option A → A
value_or a none = a
value_or a (some b) = b

abbrev Tree : Type 0
Tree = (t : List (String × Blob)) × (unique (map (λ (e : String × Blob). e.0) t) ≡ true)

instance abbrev lists : Sled
lists = record {
  IdTree = Tree;
  OrderTree = List (ℕ × Blob);
  no_ids = ([], refl);
  no_order = [];
  insert_id = λ t k v. some (insert k v t.0, unique-insert k v t.0 t.1);
  insert_at = λ t k v. some (insert k v t);
  iter_ids = λ t. t.0;
  iter_order = λ t. t;
  iter-no_ids = refl;
  iter-no_order = refl;
  unique-keys = λ t. t.1;
  lookup-insert_id = λ t t' k v e j.
      ap (λ (o : Option Tree). lookup j (value_or t o).0) (sym e) ∙ lookup-insert k j v t.0;
  iter-insert_at = λ t t' k v e above. ap (value_or t) (sym e) ∙ insert-last k v t above;
}

lists-DiskWorks : DiskWorks
lists-DiskWorks = record { ids = λ t k v. refl; order = λ t k v. refl }

abbrev methods : List Method
methods =
    session_seen "monday"
    ∷ node_added question
    ∷ node_added answer
    ∷ node_added question
    ∷ edge_posted relates
    ∷ question_resolved "uuid" 30 "question" "answer" "measured"
    ∷ node_dropped "question"
    ∷ node_dropped "nothing"
    ∷ []

new_persistent-call_example :
    (db : DbBackend) × ((foldl call fresh_store methods).backend ≡ some db)
    × Reopens db (foldl call fresh_store methods).inner
new_persistent-call_example = new_persistent-call lists-DiskWorks methods (omega arith)

inner-foldl-call_example :
    (foldl call fresh_store methods).inner ≡ foldl memory_call fresh_store.inner methods
inner-foldl-call_example = inner-foldl-call fresh_store methods

-- a database of the former format
abbrev former : DbBackend
former = record no_database { node_order = some (ids_blob ("question" ∷ "answer" ∷ [])) }

load_node_order-again_example :
    (after : DbBackend) × (load_node_order former ≡ some ("question" ∷ "answer" ∷ [], after))
    × (load_node_order after ≡ some ("question" ∷ "answer" ∷ [], after))
    × (after.nodes ≡ former.nodes)
    × (after.edges ≡ former.edges)
load_node_order-again_example =
    load_node_order-again lists-DiskWorks former (ids_blob ("question" ∷ "answer" ∷ [])) "question"
      ("answer" ∷ []) refl refl refl
