-- ===== src/Jev/Edges.antt =====
-- armin-core/extraction/src/jev.rs, `edge_from_answer` over the pairs of a batch: where the edges are from.
use mathlib.Core.List.Memᴰ
use armin.Prelude.{
  ℕ, suc, ◌+◌, ◌*◌, ◌/◌, ◌%◌, get_elem?, ◌≡◌, refl, ap, sym, ◌∙◌, subst, inl, inr, String, Bool,
  false, ◌||◌, Option, none, some, List, [], ◌∷◌, ◌++◌, Memᴰ, Memᴰ-concat, any, lookup, String_Eq,
  arith, eq_iff, Bool-cases,
}
use armin.Prelude.Results.{Result, ok, err, Result-cases}
use armin.Types.{ArgumentNode, ArgumentEdge, EdgeType_Eq, edge_type_eq_iff}
use armin.Text.{Unicode}
use armin.Tools.{EventRecord}
use armin.Engine.Config.{JevNativeConfig}
use armin.Engine.Worker.{ExtractionResult}
use armin.Jev.{Answers}
use armin.Jev.Requests.{requests, get_elem?-chunks_from}
use armin.Jev.Relations.{Relates, edge_from_answer-Relates}
use armin.Jev.Nodes.{FindsSources, scan-FindsSources}
use armin.Jev.Pairs.{FormatFloat, Pair, edge_from_answer, candidate_pairs}
use armin.Jev.Batch.{
  Replies, FoundEdges, edge_key, same_key, push_edge, relation_key, chunk_edges, judge_chunks,
  chunks_from, judged, paired, scan_events, extract_native_batch,
}

-- The edge of a pair: the service's answer, to the request that asks about the pair with its number
-- there, chooses it. The pairs are asked about in order, fifteen in a request, from the request `base`.
pub record IsJudged (replies : Replies) (base : ℕ) (cfg : JevNativeConfig) (pairs : List Pair)
    (e : ArgumentEdge) : Type 0 where
  pub pair : Pair
  pub index : ℕ
  pub answers : Answers
  pub pair_at : get_elem? pairs index ≡ some pair
  pub asked : replies (base + index / 15) ≡ ok answers
  pub relates : Relates cfg.edge_threshold (lookup (relation_key (index % 15)) answers) pair e

same-same_key :
    (d e : ArgumentEdge) → same_key (edge_key d) (edge_key e) ≡ same_key (edge_key e) (edge_key d)
same-same_key d e = ground (
  arith,
  eq_iff d.source_node_id e.source_node_id,
  eq_iff e.source_node_id d.source_node_id,
  eq_iff d.target_node_id e.target_node_id,
  eq_iff e.target_node_id d.target_node_id,
  edge_type_eq_iff d.edge_type e.edge_type,
  edge_type_eq_iff e.edge_type d.edge_type,
)

-- no two edges have one source, one target and one type
abbrev pub HasNoTwins : List ArgumentEdge → Type 0
HasNoTwins [] = Unit
HasNoTwins (d ∷ edges) =
    (any (λ e. same_key (edge_key d) (edge_key e)) edges ≡ false) × HasNoTwins edges

any-concat {ℓ} :
    {A : Type ℓ} (p : A → Bool) (l : List A) (x : A) → any p (l ++ x ∷ []) ≡ (any p l || p x)
any-concat p [] x = ground arith
any-concat p (y ∷ l) x = ground (arith, any-concat p l x)

HasNoTwins-push :
    (edges : List ArgumentEdge) (e : ArgumentEdge)
    → HasNoTwins edges
    → any (λ d. same_key (edge_key e) (edge_key d)) edges ≡ false
    → HasNoTwins (edges ++ e ∷ [])
HasNoTwins-push [] e h fresh = (refl, tt)
HasNoTwins-push (d ∷ edges) e h fresh = (
  any-concat (λ x. same_key (edge_key d) (edge_key x)) edges e
      ∙ ground (arith, h.0, fresh, same-same_key d e),
  HasNoTwins-push edges e h.1 (ground (arith, fresh)),
)

module _ (replies : Replies) (base : ℕ) (cfg : JevNativeConfig) (pairs : List Pair) where
  pub record HasPairs (found : FoundEdges) : Type 0 where
    pub keys :
        (e : ArgumentEdge)
        → any (same_key (edge_key e)) found.0
          ≡ any (λ d. same_key (edge_key e) (edge_key d)) found.1
    pub twins : HasNoTwins found.1
    pub judged : (e : ArgumentEdge) → Memᴰ e found.1 → IsJudged replies base cfg pairs e

  -- the request that asks about a pair, and the pair's number there
  pub record IsAsked (calls k : ℕ) (p : Pair) : Type 0 where
    pub index : ℕ
    pub pair_at : get_elem? pairs index ≡ some p
    pub request : calls ≡ base + index / 15
    pub number : k ≡ index % 15

  push_edge-HasPairs :
      (found : FoundEdges) (o : Option ArgumentEdge)
      → ((e : ArgumentEdge) → o ≡ some e → IsJudged replies base cfg pairs e)
      → HasPairs found
      → HasPairs (push_edge found o)
  push_edge-HasPairs (keys, edges) none good h = h
  push_edge-HasPairs (keys, edges) (some e) good h =
      elim (Bool-cases (any (same_key (edge_key e)) keys)) [
        | inl t ↦ rw t h
        | inr t ↦ rw t (record {
          keys = λ d.
              ground
                (arith, any-concat (λ x. same_key (edge_key d) (edge_key x)) edges e, h.keys d);
          twins = HasNoTwins-push edges e h.twins (sym (h.keys e) ∙ t);
          judged = λ d m. elim ((Memᴰ-concat d e edges).0 m) [
            | inl r ↦ h.judged d r
            | inr q ↦ good d (ap some (sym q))
          ];
        })
      ]

  chunk_edges-HasPairs :
      ⦃f : FormatFloat⦄ (uuids : ℕ → ℕ → String) (calls : ℕ) (answers : Answers) (k : ℕ)
      (found : FoundEdges) (chunk : List Pair)
      → replies calls ≡ ok answers
      → ((i : ℕ) (p : Pair) → get_elem? chunk i ≡ some p → IsAsked calls (k + i) p)
      → HasPairs found
      → HasPairs (chunk_edges replies uuids cfg calls answers k found chunk)
  unfolding chunk_edges
  chunk_edges-HasPairs uuids calls answers k found [] reply at h = h
  chunk_edges-HasPairs uuids calls answers k found (p ∷ chunk) reply at h =
      let edge =
        edge_from_answer k (uuids calls k) p.0 p.1.0 (lookup (relation_key k) answers) cfg in
      chunk_edges-HasPairs uuids calls answers (suc k) (push_edge found edge) chunk reply
        (λ i q e.
          let next : k + suc i ≡ suc k + i = omega arith in
          subst (λ n. IsAsked calls n q) next (at (suc i) q e))
        (push_edge-HasPairs found edge
          (λ e q.
            let a = at 0 p refl in
            let here : k ≡ a.index % 15 = omega (arith, a.number) in
            record {
              pair = p;
              index = a.index;
              answers = answers;
              pair_at = a.pair_at;
              asked = ap replies (sym a.request) ∙ reply;
              relates =
                  subst (λ n. Relates cfg.edge_threshold (lookup (relation_key n) answers) p e) here
                    (edge_from_answer-Relates cfg k (uuids calls k) p
                      (lookup (relation_key k) answers) e q);
            })
          h)

  abbrev FindsPairs : Result String (ℕ × FoundEdges) → Type 0
  FindsPairs (err e) = Unit
  FindsPairs (ok (calls, found)) = HasPairs found

  judge_chunks-FindsPairs :
      ⦃f : FormatFloat⦄ (uuids : ℕ → ℕ → String) (chunks : List (List Pair)) (calls : ℕ)
      (found : FoundEdges)
      → ((c : ℕ) (chunk : List Pair)
          → get_elem? chunks c ≡ some chunk
          → (k : ℕ) (p : Pair) → get_elem? chunk k ≡ some p
          → IsAsked (calls + c) k p)
      → HasPairs found
      → FindsPairs (judge_chunks replies uuids cfg chunks (calls, found))
  unfolding judge_chunks
  judge_chunks-FindsPairs uuids [] calls found at h = h
  judge_chunks-FindsPairs uuids (chunk ∷ chunks) calls found at h =
      elim (Result-cases (replies calls)) [
        | inr (x, r) ↦ rw (r, judge_chunks) tt
        | inl (answers, r) ↦
            rw (r, judge_chunks)
              (judge_chunks-FindsPairs uuids chunks (suc calls)
                (chunk_edges replies uuids cfg calls answers 0 found chunk)
                (λ c l e k p q.
                  let next : calls + suc c ≡ suc calls + c = omega arith in
                  subst (λ n. IsAsked n k p) next (at (suc c) l e k p q))
                (chunk_edges-HasPairs uuids calls answers 0 found chunk r
                  (λ i p e.
                    let first : calls + 0 ≡ calls = omega arith in
                    let here : i ≡ 0 + i = omega arith in
                    subst (λ n. IsAsked calls n p) here
                      (subst (λ n. IsAsked n i p) first (at 0 chunk refl i p e)))
                  h))
      ]

  -- the requests about all pairs
  pub judge_pairs-FindsPairs :
      ⦃f : FormatFloat⦄ (uuids : ℕ → ℕ → String)
      → FindsPairs (judge_chunks replies uuids cfg (chunks_from 15 [] pairs) (base, ([], [])))
  judge_pairs-FindsPairs uuids =
      judge_chunks-FindsPairs uuids (chunks_from 15 [] pairs) base ([], [])
        (λ c chunk e k p q.
          let (at, lt) = get_elem?-chunks_from [] pairs c chunk k p (omega arith) e q in
          record {
            index = c * 15 + k;
            pair_at = at;
            request = omega (arith, lt);
            number = omega (arith, lt);
          })
        (record { keys = λ e. refl; twins = tt; judged = λ e m. absurd (Memᴰ.not-nil m) })

module _ ⦃u : Unicode⦄ (replies : Replies) (batch : List EventRecord)
    (recent_nodes : List ArgumentNode) (cfg : JevNativeConfig) where
  -- the edges are of pairs of the nodes, which are asked about after the scan
  abbrev pub JudgedEdges : List ArgumentNode → List ArgumentEdge → Type 0
  JudgedEdges nodes edges =
      ((e : ArgumentEdge)
        → Memᴰ e edges
        → IsJudged replies (requests cfg batch) cfg
            (candidate_pairs nodes recent_nodes cfg.edge_min_overlap) e)
      × HasNoTwins edges

  abbrev GivesJudged : Result String ExtractionResult → Type 0
  GivesJudged (err e) = Unit
  GivesJudged (ok r) = JudgedEdges r.new_nodes r.new_edges

  judged-GivesJudged :
      ⦃f : FormatFloat⦄ (nodes : List ArgumentNode) (o : Result String (ℕ × FoundEdges))
      → FindsPairs replies
          (requests cfg batch)
          cfg
          (candidate_pairs nodes recent_nodes cfg.edge_min_overlap)
          o
      → GivesJudged (judged nodes o)
  judged-GivesJudged nodes (err e) h = tt
  judged-GivesJudged nodes (ok (calls, found)) h = (h.judged, h.twins)

  paired-GivesJudged :
      ⦃f : FormatFloat⦄ (uuids : ℕ → ℕ → String)
      (o : Result String (ℕ × (List String × List ArgumentNode)))
      → FindsSources replies cfg batch batch o
      → GivesJudged (paired replies uuids recent_nodes cfg o)
  paired-GivesJudged uuids (err e) h = tt
  paired-GivesJudged uuids (ok (calls, (seen, nodes))) h =
      let pairs = candidate_pairs nodes recent_nodes cfg.edge_min_overlap in
      judged-GivesJudged nodes
        (judge_chunks replies uuids cfg (chunks_from 15 [] pairs) (calls, ([], [])))
        (subst
          (λ n.
            FindsPairs replies (requests cfg batch) cfg pairs
              (judge_chunks replies uuids cfg (chunks_from 15 [] pairs) (n, ([], []))))
          (sym h.0) (judge_pairs-FindsPairs replies (requests cfg batch) cfg pairs uuids))

-- Each edge that a batch gives is that of a candidate pair, about which the service was asked after
-- the scan of the events, in the order of the pairs and fifteen in a request: the answer about the
-- pair names the edge's type and which of its nodes the edge is from and to, with a probability that
-- is not below the threshold; the edge is stamped with the later of the nodes' time stamps, and is
-- called extracted from a probability of 0.8 on; and no two edges have the same source, target and
-- type.
pub extract_native_batch-HasPairs :
    ⦃u : Unicode⦄ ⦃f : FormatFloat⦄ (replies : Replies) (uuids : ℕ → ℕ → String)
    (batch : List EventRecord) (recent_nodes : List ArgumentNode) (cfg : JevNativeConfig)
    (r : ExtractionResult)
    → extract_native_batch replies uuids batch recent_nodes cfg ≡ ok r
    → JudgedEdges replies batch recent_nodes cfg r.new_nodes r.new_edges
unfolding extract_native_batch
extract_native_batch-HasPairs ⦃u⦄ ⦃f⦄ replies uuids batch recent_nodes cfg r e =
    subst (GivesJudged replies batch recent_nodes cfg) e (
      paired-GivesJudged replies batch recent_nodes cfg uuids
        (scan_events replies cfg batch (0, ([], []))) (scan-FindsSources replies cfg batch))
