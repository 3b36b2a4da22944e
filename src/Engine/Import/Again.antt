-- ===== src/Engine/Import/Again.antt =====
-- armin-core/engine/src/import.rs, `handle_import`: what an import does to the graph, and doing it again.
use mathlib.Core.List.{foldl}
use armin.Prelude.{
  ℕ, ◌+◌, ◌≡◌, refl, ap, ◌∙◌, inl, inr, String, Bool, true, List, [], ◌∷◌, map, length,
  length-append, is_some, lookup, if◌then◌else◌, String_Eq, arith, eq_iff, Option-cases,
}
use armin.Types.{ArgumentNode, NodeType, NodeType_Eq}
use armin.Text.{Unicode}
use armin.Petgraph.{StableGraph}
use armin.Store.{GraphStoreInner, add_node, insert_node, get_node}
use armin.Store.Consistent.{IsConsistent}
use armin.Store.Writes.Nodes.{add_node-IsConsistent, get_node-add_node}
use armin.Store.Writes.{get_node-lookup}
use armin.Engine.Import.{
  ImportNode, ImportRequest, Sha256, stable_id, argument_node, to_argument_nodes, parse_markdown,
  count_type, import_node, handle_import,
}
use armin.Engine.Agent.{unwrap_or}

-- every entry is of one of the three types
count_types :
    (parsed : List ImportNode)
    → length parsed
      ≡ count_type NodeType.rule parsed
        + count_type NodeType.decision parsed
        + count_type NodeType.open_item parsed
count_types [] = refl
count_types (n ∷ parsed) = ground (arith, count_types parsed)

module _ ⦃pg : StableGraph⦄ ⦃u : Unicode⦄ where
  abbrev is_known : GraphStoreInner → String → Bool
  is_known s id = is_some (get_node s id)

  add_node-known :
      (s : GraphStoreInner) (n : ArgumentNode)
      → IsConsistent s
      → is_known s n.id ≡ true
      → (add_node s n).0 ≡ s
  unfolding add_node
  add_node-known s n h known = elim (Option-cases (lookup n.id s.id_to_node)) [
    | inl e ↦ absurd (ground (arith, e, known, get_node-lookup s h n.id))
    | inr (i, e) ↦ rw (e, add_node) refl
  ]

  import_node-known :
      (s : GraphStoreInner) (k : ℕ) (n : ArgumentNode)
      → IsConsistent s
      → is_known s n.id ≡ true
      → import_node (s, k) n ≡ (s, k)
  unfolding import_node
  import_node-known s k n h known = rw (known, add_node-known s n h known) refl

  length-add_node :
      (s : GraphStoreInner) (n : ArgumentNode)
      → IsConsistent s
      → length (add_node s n).0.node_order
        ≡ length s.node_order + (if is_known s n.id then 0 else 1)
  unfolding add_node insert_node
  length-add_node s n h = elim (Option-cases (lookup n.id s.id_to_node)) [
    | inl e ↦
        rw (e, add_node)
          (ground (arith, e, get_node-lookup s h n.id, length-append s.node_order (n.id ∷ [])))
    | inr (i, e) ↦ rw (e, add_node) (ground (arith, e, get_node-lookup s h n.id))
  ]

  is_known-add_node :
      (s : GraphStoreInner) (n : ArgumentNode) (id : String)
      → IsConsistent s
      → is_known s id ≡ true
      → is_known (add_node s n).0 id ≡ true
  is_known-add_node s n id h known = ground (arith, get_node-add_node s h n id, known)

  is_known-added :
      (s : GraphStoreInner) (n : ArgumentNode)
      → IsConsistent s
      → is_known (add_node s n).0 n.id ≡ true
  is_known-added s n h = ground (arith, get_node-add_node s h n n.id, eq_iff n.id n.id)

  -- what the loop keeps, and what it counts
  record Imported (s t : GraphStoreInner) (added : ℕ) : Type 0 where
    consistent : IsConsistent t
    keeps : (id : String) → is_known s id ≡ true → is_known t id ≡ true
    grows : length t.node_order ≡ length s.node_order + added

  module _ ⦃sha : Sha256⦄ (session : String) (ts : ℕ) where
    abbrev import_all : GraphStoreInner × ℕ → List ImportNode → GraphStoreInner × ℕ
    import_all r parsed = foldl import_node r (map (argument_node session ts) parsed)

    import_all-Imported :
        (s : GraphStoreInner) (k : ℕ) (parsed : List ImportNode)
        → IsConsistent s
        → (added : ℕ) × ((import_all (s, k) parsed).1 ≡ k + added)
          × Imported s (import_all (s, k) parsed).0 added
    unfolding import_node
    import_all-Imported s k [] h =
        (0, omega arith, record { consistent = h; keeps = λ id q. q; grows = omega arith })
    import_all-Imported s k (n ∷ parsed) h =
        let node = argument_node session ts n in
        let known = is_known s node.id in
        let (added, counted, i) =
          import_all-Imported (add_node s node).0 (if known then k else k + 1) parsed
            (add_node-IsConsistent s h node) in
        (
          (if known then 0 else 1) + added,
          ground (arith, counted),
          record {
            consistent = i.consistent;
            keeps = λ id q. i.keeps id (is_known-add_node s node id h q);
            grows = ground (arith, i.grows, length-add_node s node h);
          },
        )

    -- after the import every entry's identifier is known
    abbrev AllKnown : GraphStoreInner → List ImportNode → Type 0
    AllKnown s [] = Unit
    AllKnown s (n ∷ parsed) = (is_known s (stable_id n.description) ≡ true) × AllKnown s parsed

    AllKnown-keeps :
        (s t : GraphStoreInner) (parsed : List ImportNode)
        → ((id : String) → is_known s id ≡ true → is_known t id ≡ true)
        → AllKnown s parsed
        → AllKnown t parsed
    AllKnown-keeps s t [] keeps a = tt
    AllKnown-keeps s t (n ∷ parsed) keeps a = (keeps _ a.0, AllKnown-keeps s t parsed keeps a.1)

    import_all-AllKnown :
        (s : GraphStoreInner) (k : ℕ) (parsed : List ImportNode)
        → IsConsistent s
        → AllKnown (import_all (s, k) parsed).0 parsed
    unfolding import_node argument_node
    import_all-AllKnown s k [] h = tt
    import_all-AllKnown s k (n ∷ parsed) h =
        let node = argument_node session ts n in
        let next : ℕ = if is_known s node.id then k else k + 1 in
        let still = add_node-IsConsistent s h node in
        let (added, counted, i) = import_all-Imported (add_node s node).0 next parsed still in
        (
          i.keeps node.id (is_known-added s node h),
          import_all-AllKnown (add_node s node).0 next parsed still,
        )

    -- an import of what is known changes nothing
    import_all-known :
        (s : GraphStoreInner) (k : ℕ) (parsed : List ImportNode)
        → IsConsistent s
        → AllKnown s parsed
        → import_all (s, k) parsed ≡ (s, k)
    unfolding argument_node
    import_all-known s k [] h a = refl
    import_all-known s k (n ∷ parsed) h a =
        ap (λ r. import_all r parsed) (import_node-known s k (argument_node session ts n) h a.0)
        ∙ import_all-known s k parsed h a.1

module _ ⦃pg : StableGraph⦄ ⦃u : Unicode⦄ ⦃sha : Sha256⦄ where
  -- An import into a consistent graph leaves it consistent, and adds as many nodes as it says were
  -- imported; what it found is the rules, the decisions and the open items. Importing the same text
  -- again, at whatever time and for whatever session, imports nothing and leaves the graph as it is.
  pub handle_import_lem :
      (s : GraphStoreInner) (req : ImportRequest) (ts : ℕ)
      → IsConsistent s
      → let done = handle_import s req ts in
        IsConsistent done.0
        × (length done.0.node_order ≡ length s.node_order + done.1.imported)
        × (done.1.found ≡ done.1.rules + done.1.decisions + done.1.open_items)
        × ((later : ImportRequest) (ts' : ℕ)
            → later.content ≡ req.content
            → ((handle_import done.0 later ts').0 ≡ done.0)
              × ((handle_import done.0 later ts').1.imported ≡ 0))
  unfolding handle_import to_argument_nodes
  handle_import_lem s req ts h =
      let parsed = parse_markdown req.content in
      let session = unwrap_or req.session_id "import" in
      let (added, counted, i) = import_all-Imported session ts s 0 parsed h in
      let all = import_all-AllKnown session ts s 0 parsed h in
      (
        i.consistent,
        omega (arith, i.grows, counted),
        count_types parsed,
        λ later ts' same.
            let again =
              import_all-known (unwrap_or later.session_id "import") ts'
                (import_all session ts (s, 0) parsed).0 0 parsed i.consistent all in
            rw same (ap (λ x. x.0) again, ap (λ x. x.1) again),
      )
