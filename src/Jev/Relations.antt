-- ===== src/Jev/Relations.antt =====
-- armin-core/extraction/src/jev.rs, `edge_from_answer`: what an answer says of an edge.
use Prim.Native.String.{◌++◌ as concat}
use armin.Prelude.{
  ℕ, Option-cases, ◌≤◌, ◌≡◌, ◌⊎◌, refl, ap, sym, ◌∙◌, subst, inl, inr, String, ◌||◌, Option, none,
  some, List, lookup, leb, ltb, if◌then◌else◌, ◌==◌, String_Eq, arith, eq_iff, Bool-cases,
}
use armin.Types.{ArgumentNode, ArgumentEdge, EdgeProvenance, EdgeType, EdgeType_Eq}
use armin.Engine.Config.{JevNativeConfig}
use armin.Jev.{JevAnswer, choice_answer, noul_answer, score_answer, or_zero}
use armin.Jev.Pairs.{
  FormatFloat, Pair, Relation, map_relation, latest, judged_edge, edge_from_answer,
}

-- how an option names a relation, between `later_` or `earlier_` and the other of the two
abbrev pub verb : EdgeType → String
verb EdgeType.supersedes = "supersedes"
verb EdgeType.refutes = "refutes"
verb EdgeType.resolves = "resolves"
verb EdgeType.relates_to = "relates"

-- the option says of the two nodes what the edge says
abbrev pub Says : String → ArgumentNode → ArgumentNode → EdgeType → String → String → Type 0
Says choice earlier later t source target =
    ((choice ≡ concat "later_" (concat (verb t) "_earlier"))
      × (source ≡ later.id)
      × (target ≡ earlier.id))
    ⊎ ((choice ≡ concat "earlier_" (concat (verb t) "_later"))
        × (source ≡ earlier.id)
        × (target ≡ later.id))

-- the service's answer chooses the relation of an edge, with a probability that is not below the
-- threshold; an option that has no probability has 0
pub record Relates (threshold : ℕ) (answer : Option JevAnswer) (p : Pair) (e : ArgumentEdge)
    : Type 0 where
  pub choice : String
  pub probabilities : List (String × ℕ)
  pub confidence : ℕ
  pub answered : answer ≡ some (choice_answer choice probabilities confidence)
  pub says : Says choice p.0 p.1.0 e.edge_type e.source_node_id e.target_node_id
  pub stamped : e.timestamp ≡ latest p.0.timestamp p.1.0.timestamp
  pub probability : ℕ
  pub probable :
      (lookup choice probabilities ≡ some probability)
      ⊎ ((lookup choice probabilities ≡ none) × (probability ≡ 0))
  pub passes : threshold ≤ probability
  pub provenance : e.provenance ≡ (
      if leb 8000 probability
      then EdgeProvenance.extracted
      else EdgeProvenance.inferred probability)

some_relation : (q r : Relation) → ◌≡◌ {A = Option Relation} (some q) (some r) → q ≡ r
some_relation q r e = ap (λ (o : Option Relation). elim o [ none ↦ q | some x ↦ x ]) e

some_edge : (d e : ArgumentEdge) → ◌≡◌ {A = Option ArgumentEdge} (some d) (some e) → d ≡ e
some_edge d e q = ap (λ (o : Option ArgumentEdge). elim o [ none ↦ d | some x ↦ x ]) q

abbrev SaysRelation : String → ArgumentNode → ArgumentNode → Relation → Type 0
SaysRelation choice a b r = Says choice a b r.0 r.1.0.id r.1.1.id

-- one test of `map_relation`
says_or :
    (choice : String) (a b : ArgumentNode) (r : Relation) (option : String) (found : Relation)
    (rest : Option Relation)
    → SaysRelation option a b found
    → (rest ≡ some r → SaysRelation choice a b r)
    → (if choice == option then some found else rest) ≡ some r
    → SaysRelation choice a b r
says_or choice a b r option found rest says later e = elim (Bool-cases (choice == option)) [
  | inr t ↦ later (rw t at e)
  | inl t ↦
      let same : choice ≡ option = (eq_iff choice option).0 t in
      subst (SaysRelation choice a b) (some_relation found r (rw t at e))
        (subst (λ c. SaysRelation c a b found) (sym same) says)
]

map_relation-Says :
    (choice : String) (a b : ArgumentNode) (r : Relation)
    → map_relation choice a b ≡ some r
    → SaysRelation choice a b r
map_relation-Says choice a b r =
    (says_or choice a b r "later_supersedes_earlier" (EdgeType.supersedes, (b, a)) _
      (inl (refl, refl, refl))
      (says_or choice a b r "later_refutes_earlier" (EdgeType.refutes, (b, a)) _
        (inl (refl, refl, refl))
        (says_or choice a b r "later_resolves_earlier" (EdgeType.resolves, (b, a)) _
          (inl (refl, refl, refl))
          (says_or choice a b r "later_relates_earlier" (EdgeType.relates_to, (b, a)) _
            (inl (refl, refl, refl))
            (says_or choice a b r "earlier_supersedes_later" (EdgeType.supersedes, (a, b)) _
              (inr (refl, refl, refl))
              (says_or choice a b r "earlier_refutes_later" (EdgeType.refutes, (a, b)) _
                (inr (refl, refl, refl))
                (says_or choice a b r "earlier_resolves_later" (EdgeType.resolves, (a, b)) _
                  (inr (refl, refl, refl))
                  (says_or choice a b r "earlier_relates_later" (EdgeType.relates_to, (a, b)) _
                    (inr (refl, refl, refl)) (λ e. absurd (ground (arith, e)))))))))))

module _ (cfg : JevNativeConfig) where
  judged_edge-Relates :
      ⦃f : FormatFloat⦄ (k : ℕ) (uuid : String) (p : Pair) (choice : String)
      (probabilities : List (String × ℕ)) (confidence : ℕ) (o : Option Relation) (e : ArgumentEdge)
      → let n = or_zero (lookup choice probabilities) in
        cfg.edge_threshold ≤ n
        → map_relation choice p.0 p.1.0 ≡ o
        → judged_edge k uuid p.0 p.1.0 choice n o ≡ some e
        → Relates cfg.edge_threshold (some (choice_answer choice probabilities confidence)) p e
  judged_edge-Relates k uuid p choice probabilities confidence none e le r q =
      absurd (ground (arith, q))
  judged_edge-Relates k uuid p choice probabilities confidence (some (t, (s, d))) e le r q =
      record {
        choice = choice;
        probabilities = probabilities;
        confidence = confidence;
        answered = refl;
        says =
            subst
              (λ (x : ArgumentEdge).
                Says choice p.0 p.1.0 x.edge_type x.source_node_id x.target_node_id)
              (some_edge _ e q) (map_relation-Says choice p.0 p.1.0 (t, (s, d)) r);
        stamped = ground (arith, q);
        probability = or_zero (lookup choice probabilities);
        probable = elim (Option-cases (lookup choice probabilities)) [
          | inl o ↦ inr (o, ap or_zero o)
          | inr (n, o) ↦ inl (o ∙ ap some (sym (ap or_zero o)))
        ];
        passes = le;
        provenance = ground (arith, q);
      }

  pub edge_from_answer-Relates :
      ⦃f : FormatFloat⦄ (k : ℕ) (uuid : String) (p : Pair) (answer : Option JevAnswer)
      (e : ArgumentEdge)
      → edge_from_answer k uuid p.0 p.1.0 answer cfg ≡ some e
      → Relates cfg.edge_threshold answer p e
  unfolding edge_from_answer
  edge_from_answer-Relates k uuid p none e q = absurd (ground (arith, q))
  edge_from_answer-Relates k uuid p (some (noul_answer noul)) e q = absurd (ground (arith, q))
  edge_from_answer-Relates k uuid p (some (score_answer score)) e q = absurd (ground (arith, q))
  edge_from_answer-Relates k uuid p (some (choice_answer choice probabilities confidence)) e q =
      let n = or_zero (lookup choice probabilities) in
      elim (Bool-cases (choice == "none" || ltb n cfg.edge_threshold)) [
        | inl t ↦ absurd (ground (arith, q, t))
        | inr t ↦
            judged_edge-Relates k uuid p choice probabilities confidence
              (map_relation choice p.0 p.1.0) e (ground (arith, t)) refl (rw t at q)
      ]
