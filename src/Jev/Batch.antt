-- ===== src/Jev/Batch.antt =====
-- armin-core/extraction/src/jev.rs, `extract_native_batch`: a scan of each event's sentences, and then
-- the judgement of pairs, fifteen in a request. The requests' answers are a function of their number.
use Prim.Native.String.{◌++◌ as concat}
use armin.Prelude.{
  ℕ, suc, String, Bool, true, false, ◌&&◌, Option, none, some, List, [], ◌∷◌, ◌++◌, any, lookup,
  length, leb, if◌then◌else◌, ◌==◌, String_Eq,
}
use armin.Prelude.Results.{Result, ok, err}
use armin.Types.{ArgumentNode, ArgumentEdge, EdgeType, EdgeType_Eq}
use armin.Text.{Unicode}
use armin.Text.Sessions.{decimal}
use armin.Tools.{EventRecord}
use armin.Engine.Config.{JevNativeConfig}
use armin.Engine.Worker.{ExtractionResult}
use armin.Jev.{Answers, split_sentences, build_native_nodes}
use armin.Jev.Pairs.{FormatFloat, Pair, candidate_pairs, edge_from_answer}

-- `pairs.chunks(n)`, with the chunk that is not full yet
unfoldable pub chunks_from {ℓ} : {A : Type ℓ} → ℕ → List A → List A → List (List A)
chunks_from n [] [] = []
chunks_from n (a ∷ chunk) [] = (a ∷ chunk) ∷ []
chunks_from n chunk (b ∷ rest) = elim (leb n (length (chunk ++ b ∷ []))) [
  | true ↦ (chunk ++ b ∷ []) ∷ chunks_from n [] rest
  | false ↦ chunks_from n (chunk ++ b ∷ []) rest
]

abbrev pub EdgeKey : Type 0
EdgeKey = String × (String × EdgeType)

abbrev pub edge_key : ArgumentEdge → EdgeKey
edge_key e = (e.source_node_id, (e.target_node_id, e.edge_type))

abbrev pub same_key : EdgeKey → EdgeKey → Bool
same_key (s, (t, k)) (s', (t', k')) = s == s' && t == t' && k == k'

-- the edges that were found, with their keys
abbrev pub FoundEdges : Type 0
FoundEdges = List EdgeKey × List ArgumentEdge

abbrev pub push_edge : FoundEdges → Option ArgumentEdge → FoundEdges
push_edge found none = found
push_edge (keys, edges) (some edge) =
    if any (same_key (edge_key edge)) keys
    then (keys, edges)
    else (edge_key edge ∷ keys, edges ++ edge ∷ [])

abbrev pub relation_key : ℕ → String
relation_key k = concat "p" (concat (decimal k k) "_relation")

-- what the service answers, request by request
abbrev pub Replies : Type 0
Replies = ℕ → Result String Answers

module _ ⦃u : Unicode⦄ (replies : Replies) (cfg : JevNativeConfig) where
  abbrev pub scanned :
      EventRecord
      → List String
      → ℕ
      → List String × List ArgumentNode
      → Result String Answers
      → Result String (ℕ × (List String × List ArgumentNode))
  scanned event sentences calls found (err e) = err e
  scanned event sentences calls found (ok answers) =
      ok (suc calls, build_native_nodes event answers cfg 0 found sentences)

  -- one event: the number of requests so far, the sentences that were seen, and the nodes
  unfoldable pub scan_event :
      EventRecord
      → ℕ × (List String × List ArgumentNode)
      → Result String (ℕ × (List String × List ArgumentNode))
  unfolding split_sentences build_native_nodes
  scan_event event (calls, found) =
      elim (split_sentences event.text cfg.min_sentence_words cfg.max_sentences_per_event) [
        | [] ↦ ok (calls, found)
        | s ∷ sentences ↦ scanned event (s ∷ sentences) calls found (replies calls)
      ]

  unfoldable pub scan_events :
      List EventRecord
      → ℕ × (List String × List ArgumentNode)
      → Result String (ℕ × (List String × List ArgumentNode))
  unfolding scan_event
  scan_events [] state = ok state
  scan_events (event ∷ batch) state = elim (scan_event event state) [
    | err e ↦ err e
    | ok after ↦ scan_events batch after
  ]

module _ ⦃f : FormatFloat⦄ (replies : Replies) (uuids : ℕ → ℕ → String)
    (cfg : JevNativeConfig) where
  -- the loop over a chunk, from its pair `k`
  unfoldable pub chunk_edges : ℕ → Answers → ℕ → FoundEdges → List Pair → FoundEdges
  unfolding edge_from_answer decimal
  chunk_edges calls answers k found [] = found
  chunk_edges calls answers k found ((earlier, (later, overlap)) ∷ chunk) =
      chunk_edges calls answers (suc k)
        (push_edge found
          (edge_from_answer k (uuids calls k) earlier later (lookup (relation_key k) answers) cfg))
        chunk

  unfoldable pub judge_chunks : List (List Pair) → ℕ × FoundEdges → Result String (ℕ × FoundEdges)
  unfolding chunk_edges
  judge_chunks [] state = ok state
  judge_chunks (chunk ∷ chunks) (calls, found) = elim (replies calls) [
    | err e ↦ err e
    | ok answers ↦ judge_chunks chunks (suc calls, chunk_edges calls answers 0 found chunk)
  ]

module _ ⦃u : Unicode⦄ ⦃f : FormatFloat⦄ where
  abbrev pub judged :
      List ArgumentNode → Result String (ℕ × FoundEdges) → Result String ExtractionResult
  judged nodes (err e) = err e
  judged nodes (ok (calls, (keys, edges))) = ok (record { new_nodes = nodes; new_edges = edges })

  abbrev pub paired :
      Replies
      → (ℕ → ℕ → String)
      → List ArgumentNode
      → JevNativeConfig
      → Result String (ℕ × (List String × List ArgumentNode))
      → Result String ExtractionResult
  paired replies uuids recent_nodes cfg (err e) = err e
  paired replies uuids recent_nodes cfg (ok (calls, (seen, nodes))) = judged nodes (
      judge_chunks replies uuids cfg
        (chunks_from 15 [] (candidate_pairs nodes recent_nodes cfg.edge_min_overlap))
        (calls, ([], [])))

  unfoldable pub extract_native_batch :
      Replies
      → (ℕ → ℕ → String)
      → List EventRecord
      → List ArgumentNode
      → JevNativeConfig
      → Result String ExtractionResult
  unfolding scan_events candidate_pairs chunks_from judge_chunks
  extract_native_batch replies uuids batch recent_nodes cfg =
      paired replies uuids recent_nodes cfg (scan_events replies cfg batch (0, ([], [])))
