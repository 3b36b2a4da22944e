-- ===== src/Decisions/Status.antt =====
-- armin-core/graph/src/decisions.rs, `extract_decisions`: what the status says of the graph's edges.
use mathlib.Core.List.{foldl}
use armin.Prelude.{
  ℕ, ◌≡◌, ◌↔◌, refl, sym, ap, ◌∙◌, String, Bool, true, false, not, ◌&&◌, ◌||◌, Option, List, [],
  ◌∷◌, Memᴰ, any, ◌==◌, String_Eq, arith, if◌then◌else◌, any_iff,
}
use armin.Types.{ArgumentNode, EdgeType, EdgeType_Eq, edge_type_eq_iff}
use armin.Petgraph.{StableGraph, Direction, EdgeReference, weight, near}
use armin.Store.{GraphStoreInner}
use armin.Decisions.{
  Grounds, Outcome, no_grounds, no_outcome, see_typed, see_incoming, see_target, see_outgoing,
  grounds_of, outcome_of, status_of, decision_of,
}

abbrev has_type : EdgeType → List EdgeReference → Bool
has_type t = any (λ (r : EdgeReference). r.weight.edge_type == t)

-- the number of a status in the order of the tests
abbrev place_of : String → ℕ
place_of st =
    if st == "Superseded"
    then 0
    else if st == "Validated"
    then 1
    else if st == "Blocked"
    then 2
    else 3

abbrev ladder : Bool → Bool → Bool → Bool → String
ladder superseded support contradiction resolution =
    if superseded
    then "Superseded"
    else if support && resolution
    then "Validated"
    else if contradiction && not resolution
    then "Blocked"
    else "Pending"

abbrev number : Bool → Bool → Bool → Bool → ℕ
number superseded support contradiction resolution =
    if superseded
    then 0
    else if support && resolution
    then 1
    else if contradiction && not resolution
    then 2
    else 3

place_of-ladder : (a b c d : Bool) → place_of (ladder a b c d) ≡ number a b c d
place_of-ladder true b c d = refl
place_of-ladder false true c true = refl
place_of-ladder false true true false = refl
place_of-ladder false true false false = refl
place_of-ladder false false true true = refl
place_of-ladder false false false true = refl
place_of-ladder false false true false = refl
place_of-ladder false false false false = refl

ladder-number :
    (a b c d : Bool)
    → ((number a b c d ≡ 0) → (ladder a b c d ≡ "Superseded"))
      × ((number a b c d ≡ 1) → (ladder a b c d ≡ "Validated"))
      × ((number a b c d ≡ 2) → (ladder a b c d ≡ "Blocked"))
      × ((number a b c d ≡ 3) → (ladder a b c d ≡ "Pending"))
ladder-number a b c d = ground arith

-- the four flags decide the status
status_of_iff :
    (g : Grounds) (o : Outcome)
    → let n = number g.is_superseded g.has_support g.has_contradiction o.has_resolution in
      ((status_of g o ≡ "Superseded") ↔ (n ≡ 0))
      × ((status_of g o ≡ "Validated") ↔ (n ≡ 1))
      × ((status_of g o ≡ "Blocked") ↔ (n ≡ 2))
      × ((status_of g o ≡ "Pending") ↔ (n ≡ 3))
unfolding status_of
status_of_iff g o =
    let place =
      sym (place_of-ladder g.is_superseded g.has_support g.has_contradiction o.has_resolution) in
    let (a, b, c, d) =
      ladder-number g.is_superseded g.has_support g.has_contradiction o.has_resolution in
    (
      (λ e. place ∙ ap place_of e, a),
      (λ e. place ∙ ap place_of e, b),
      (λ e. place ∙ ap place_of e, c),
      (λ e. place ∙ ap place_of e, d),
    )

both_ways : {A B C : Type 0} → A ↔ B → B ↔ C → A ↔ C
both_ways f g = (λ a. g.0 (f.0 a), λ c. f.1 (g.1 c))

-- the number in terms of what the flags stand for
number_iff :
    {A B C D : Type 0} (a b c d : Bool)
    → ((a ≡ true) ↔ A)
    → ((b ≡ true) ↔ B)
    → ((c ≡ true) ↔ C)
    → ((d ≡ true) ↔ D)
    → let n = number a b c d in
      ((n ≡ 0) ↔ A)
      × ((n ≡ 1) ↔ ((¬ A) × B × D))
      × ((n ≡ 2) ↔ ((¬ A) × C × (¬ D)))
      × ((n ≡ 3) ↔ ((¬ A) × (¬ (B × D)) × (¬ (C × (¬ D)))))
number_iff a b c d p q r t = ground (arith, p, q, r, t)

module _ ⦃pg : StableGraph⦄ (s : GraphStoreInner) where
  see_typed-flags :
      (g : Grounds) (t : EdgeType) (src : Option ArgumentNode) (reasoning : String)
      → let v = see_typed s.session_order g t src reasoning in
        (v.has_support ≡ (g.has_support || (t == EdgeType.relates_to)))
        × (v.has_contradiction ≡ (g.has_contradiction || (t == EdgeType.refutes)))
        × (v.is_superseded ≡ (g.is_superseded || (t == EdgeType.supersedes)))
  see_typed-flags g t src reasoning = ground arith

  grounds-flags :
      (g : Grounds) (rs : List EdgeReference)
      → let v = foldl (see_incoming s) g rs in
        (v.has_support ≡ (g.has_support || has_type EdgeType.relates_to rs))
        × (v.has_contradiction ≡ (g.has_contradiction || has_type EdgeType.refutes rs))
        × (v.is_superseded ≡ (g.is_superseded || has_type EdgeType.supersedes rs))
  unfolding see_incoming
  grounds-flags g [] = ground arith
  grounds-flags g (r ∷ rs) = ground (
    arith,
    see_typed-flags g r.weight.edge_type (weight s.graph r.source) r.weight.reasoning,
    grounds-flags (see_incoming s g r) rs,
  )

  see_target-flag :
      (o : Outcome) (t : EdgeType) (tgt : Option ArgumentNode)
      → (see_target o t tgt).has_resolution ≡ (o.has_resolution || (t == EdgeType.resolves))
  see_target-flag o t tgt = ground arith

  outcome-flag :
      (o : Outcome) (rs : List EdgeReference)
      → (foldl (see_outgoing s) o rs).has_resolution
        ≡ (o.has_resolution || has_type EdgeType.resolves rs)
  unfolding see_outgoing
  outcome-flag o [] = ground arith
  outcome-flag o (r ∷ rs) = ground (
    arith,
    see_target-flag o r.weight.edge_type (weight s.graph r.target),
    outcome-flag (see_outgoing s o r) rs,
  )

  -- an edge of the graph at a node
  abbrev pub EdgeAt : Direction → ℕ → EdgeType → Type 0
  EdgeAt d i t =
      (r : EdgeReference) × Memᴰ r (pg.edge_references s.graph)
      × (near d r ≡ i)
      × (r.weight.edge_type ≡ t)

  EdgeAt_iff :
      (d : Direction) (i : ℕ) (t : EdgeType)
      → (has_type t (pg.edges_directed s.graph d i) ≡ true) ↔ EdgeAt d i t
  EdgeAt_iff d i t =
      let (to, from) =
        any_iff (λ (r : EdgeReference). r.weight.edge_type == t) (pg.edges_directed s.graph d i) in
      (
        λ e.
            let (r, m, k) = to e in
            let (edge, at) = (pg.mem-edges_directed s.graph d i r).0 m in
            (r, edge, at, (edge_type_eq_iff _ _).0 k),
        λ (r, edge, at, k).
            from
              (r, (pg.mem-edges_directed s.graph d i r).1 (edge, at), (edge_type_eq_iff _ _).1 k),
      )

  -- A decision is Superseded if a Supersedes edge points to it; otherwise it is Validated if a
  -- RelatesTo edge points to it and a Resolves edge leaves it, and Blocked if a Refutes edge points to
  -- it and no Resolves edge leaves it; otherwise it is Pending.
  pub decision_of-status :
      (i : ℕ) (n : ArgumentNode)
      → let st = (decision_of s i n).status in
        let superseded = EdgeAt Direction.incoming i EdgeType.supersedes in
        let supported = EdgeAt Direction.incoming i EdgeType.relates_to in
        let refuted = EdgeAt Direction.incoming i EdgeType.refutes in
        let resolves = EdgeAt Direction.outgoing i EdgeType.resolves in
        ((st ≡ "Superseded") ↔ superseded)
        × ((st ≡ "Validated") ↔ ((¬ superseded) × supported × resolves))
        × ((st ≡ "Blocked") ↔ ((¬ superseded) × refuted × (¬ resolves)))
        × ((st ≡ "Pending")
            ↔ ((¬ superseded) × (¬ (supported × resolves)) × (¬ (refuted × (¬ resolves)))))
  unfolding decision_of grounds_of outcome_of
  decision_of-status i n =
      let flags = grounds-flags no_grounds (pg.edges_directed s.graph Direction.incoming i) in
      let resolution = outcome-flag no_outcome (pg.edges_directed s.graph Direction.outgoing i) in
      let (w, x, y, z) = status_of_iff (grounds_of s i) (outcome_of s i) in
      let (a, b, c, d) =
        number_iff (grounds_of s i).is_superseded (grounds_of s i).has_support
          (grounds_of s i).has_contradiction (outcome_of s i).has_resolution
          (rw flags.2 (EdgeAt_iff Direction.incoming i EdgeType.supersedes))
          (rw flags.0 (EdgeAt_iff Direction.incoming i EdgeType.relates_to))
          (rw flags.1 (EdgeAt_iff Direction.incoming i EdgeType.refutes))
          (rw resolution (EdgeAt_iff Direction.outgoing i EdgeType.resolves)) in
      (both_ways w a, both_ways x b, both_ways y c, both_ways z d)
