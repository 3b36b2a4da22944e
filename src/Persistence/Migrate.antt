-- ===== src/Persistence/Migrate.antt =====
-- armin-core/graph/src/persistence.rs, `load_node_order`: the order of a database of the former format.
use mathlib.Core.List.{append_assoc, append-nil, map-append}
use armin.Prelude.{
  ℕ, suc, ◌+◌, ◌≡◌, refl, ap, sym, ◌∙◌, inl, inr, String, Option, none, some, List, [], ◌∷◌, ◌++◌,
  map, length, length-append, arith, Option-cases,
}
use armin.Persistence.{
  DbBackend, migrate, append_node_order_at, load_node_order, load_legacy, move_legacy, migrated,
}
use armin.Persistence.Disk.{Bincode, Sled}
use armin.Persistence.Mirror.{DiskWorks, numbered, numbered-append, numbered-above}
use armin.Persistence.ReadBack.{load_node_order-numbered}

module _ ⦃b : Bincode⦄ ⦃sled : Sled⦄ (works : DiskWorks) where
  -- the identifiers at the positions that follow those of `done`
  record Migrated (before : DbBackend) (done ids : List String) (result : Option DbBackend)
      : Type 0 where
    pub db : DbBackend
    pub at : result ≡ some db
    pub nodes : db.nodes ≡ before.nodes
    pub edges : db.edges ≡ before.edges
    pub order : sled.iter_order db.order ≡ numbered 0 (map b.id_bytes (done ++ ids))

  migrate-Migrated :
      (db : DbBackend) (done ids : List String) (i : ℕ)
      → i ≡ length (map b.id_bytes done) + 0
      → sled.iter_order db.order ≡ numbered 0 (map b.id_bytes done)
      → Migrated db done ids (migrate db i ids)
  unfolding migrate append_node_order_at
  migrate-Migrated db done [] i next held = record {
    db = db;
    at = refl;
    nodes = refl;
    edges = refl;
    order = held ∙ ap (λ l. numbered 0 (map b.id_bytes l)) (sym (append-nil done));
  }
  migrate-Migrated db done (id ∷ ids) i next held =
      elim (Option-cases (sled.insert_at db.order i (b.id_bytes id))) [
        | inl e ↦ absurd (ground (arith, works.order db.order i (b.id_bytes id), e))
        | inr (t, e) ↦
            let rest =
              migrate-Migrated (record db { order = t }) (done ++ id ∷ []) ids (suc i) later
                (after t e) in
            record {
              db = rest.db;
              at = rw (e, migrate) rest.at;
              nodes = rest.nodes;
              edges = rest.edges;
              order =
                  rest.order
                  ∙ ap (λ l. numbered 0 (map b.id_bytes l)) (append_assoc done (id ∷ []) ids);
            }
      ]
    where
      later : suc i ≡ length (map b.id_bytes (done ++ id ∷ [])) + 0
      later =
          rw
            (
              map-append b.id_bytes done (id ∷ []),
              length-append (map b.id_bytes done) (b.id_bytes id ∷ []),
            )
            (ground (arith, next))

      after :
          (t : sled.OrderTree)
          → sled.insert_at db.order i (b.id_bytes id) ≡ some t
          → sled.iter_order t ≡ numbered 0 (map b.id_bytes (done ++ id ∷ []))
      after t e =
          sled.iter-insert_at db.order t i (b.id_bytes id) e
            (rw held (numbered-above 0 i (map b.id_bytes done) (ground arith)))
          ∙ rw held (
              rw next (numbered-append 0 (map b.id_bytes done) (b.id_bytes id))
              ∙ ap (numbered 0) (sym (map-append b.id_bytes done (id ∷ []))))

  -- Loading the order of a database whose order is empty and that has the list of the former format
  -- gives that list, and stores it in the new format: loading it again gives the same list and
  -- changes nothing more. This holds where every write succeeds and the list's bytes are read.
  pub load_node_order-again :
      (db : DbBackend) (blob : b.Bytes) (id : String) (ids : List String)
      → sled.iter_order db.order ≡ []
      → db.node_order ≡ some blob
      → b.ids_of blob ≡ some (id ∷ ids)
      → (after : DbBackend) × (load_node_order db ≡ some (id ∷ ids, after))
        × (load_node_order after ≡ some (id ∷ ids, after))
        × (after.nodes ≡ db.nodes)
        × (after.edges ≡ db.edges)
  unfolding load_node_order
  load_node_order-again db blob id ids empty at read = (
    after,
    rw (empty, load_node_order)
        (ap (load_legacy db) at ∙ ap (move_legacy db) read ∙ ap (migrated (id ∷ ids)) m.at),
    load_node_order-numbered after (id ∷ ids) m.order refl,
    m.nodes,
    m.edges,
  )
    where
      m : Migrated db [] (id ∷ ids) (migrate db 0 (id ∷ ids))
      m = migrate-Migrated db [] (id ∷ ids) 0 (ground arith) empty

      after : DbBackend
      after = record m.db { node_order = none }
