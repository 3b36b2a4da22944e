-- ===== src/Jev/Nodes.antt =====
-- armin-core/extraction/src/jev.rs, `build_native_nodes` over a batch of events: where the nodes are from.
use mathlib.Core.List.{append-nil, append_assoc}
use mathlib.Core.List.Memᴰ
use armin.Prelude.{
  ℕ, ◌+◌, get_elem?, ◌≤◌, ◌≡◌, refl, ap, sym, ◌∙◌, subst, inl, inr, String, List, [], ◌∷◌, ◌++◌,
  Memᴰ, String_Eq, arith,
}
use armin.Prelude.Results.{Result, ok, err, Result-cases}
use armin.Types.{ArgumentNode}
use armin.Text.{Unicode, split_whitespace}
use armin.Tools.{EventRecord}
use armin.Engine.Config.{JevNativeConfig}
use armin.Engine.Worker.{ExtractionResult}
use armin.Jev.Requests.{requests, request_count, sentences_of, requests-concat, get_elem?-Memᴰ}
use armin.Jev.Kept.{Judgement, HasSources, build_native_nodes-HasSources}
use armin.Jev.Sentences.{IsSentence, split_sentences_lem}
use armin.Jev.Pairs.{FormatFloat, candidate_pairs}
use armin.Jev.Batch.{
  Replies, FoundEdges, judged, scan_event, scan_events, paired, judge_chunks, chunks_from,
  extract_native_batch,
}

module _ ⦃u : Unicode⦄ (replies : Replies) (cfg : JevNativeConfig) (batch : List EventRecord) where
  abbrev Sources : List String → List ArgumentNode → Type 0
  Sources = HasSources replies cfg batch

  -- what a scan of these events that succeeds has found, and how many requests it has made
  abbrev pub FindsSources :
      List EventRecord → Result String (ℕ × (List String × List ArgumentNode)) → Type 0
  FindsSources events (err e) = Unit
  FindsSources events (ok (calls, (seen, nodes))) =
      (calls ≡ requests cfg events) × Sources seen nodes

  scan_event-FindsSources :
      (earlier : List EventRecord) (event : EventRecord) (later : List EventRecord) (calls : ℕ)
      (found : List String × List ArgumentNode)
      → batch ≡ earlier ++ event ∷ later
      → calls ≡ requests cfg earlier
      → Sources found.0 found.1
      → FindsSources (earlier ++ event ∷ []) (scan_event replies cfg event (calls, found))
  unfolding scan_event
  scan_event-FindsSources earlier event later calls found at count h =
      go (sentences_of cfg event) refl
    where
      go :
          (sentences : List String)
          → sentences_of cfg event ≡ sentences
          → FindsSources (earlier ++ event ∷ []) (scan_event replies cfg event (calls, found))
      go [] e =
          rw (e, scan_event)
            (
              let one : request_count (sentences_of cfg event) ≡ 0 = ap request_count e in
                  omega (arith, count, one, requests-concat cfg earlier event),
              h,
            )
      go (s ∷ sentences) e = elim (Result-cases (replies calls)) [
        | inr (x, r) ↦ rw (e, r, scan_event) tt
        | inl (answers, r) ↦
            rw (e, r, scan_event)
              (
                let one : request_count (sentences_of cfg event) ≡ 1 = ap request_count e in
                    omega (arith, count, one, requests-concat cfg earlier event),
                build_native_nodes-HasSources replies cfg batch event answers 0 found
                    (s ∷ sentences)
                    (record {
                      earlier = earlier;
                      later = later;
                      event_at = at;
                      asked = ap replies (sym count) ∙ r;
                    })
                    (λ k x q.
                      let first : 0 + k ≡ k = omega arith in
                      ap (get_elem? (sentences_of cfg event)) first ∙ ap (λ l. get_elem? l k) e ∙ q)
                    h,
              )
      ]

  after_scan :
      (scanned events : List EventRecord)
      (o : Result String (ℕ × (List String × List ArgumentNode)))
      → FindsSources scanned o
      → ((calls : ℕ) (found : List String × List ArgumentNode)
          → calls ≡ requests cfg scanned
          → Sources found.0 found.1
          → FindsSources batch (scan_events replies cfg events (calls, found)))
      → FindsSources batch
          (elim o [ err e ↦ err e | ok after ↦ scan_events replies cfg events after ])
  after_scan scanned events (err e) h rest = tt
  after_scan scanned events (ok (calls, found)) h rest = rest calls found h.0 h.1

  scan_events-FindsSources :
      (earlier events : List EventRecord) (calls : ℕ) (found : List String × List ArgumentNode)
      → batch ≡ earlier ++ events
      → calls ≡ requests cfg earlier
      → Sources found.0 found.1
      → FindsSources batch (scan_events replies cfg events (calls, found))
  unfolding scan_events
  scan_events-FindsSources earlier [] calls found at count h =
      (count ∙ ap (requests cfg) (sym (at ∙ append-nil earlier)), h)
  scan_events-FindsSources earlier (event ∷ events) calls found at count h =
      after_scan (earlier ++ event ∷ []) events (scan_event replies cfg event (calls, found))
        (scan_event-FindsSources earlier event events calls found at count h)
        (λ calls' found' count' k.
          scan_events-FindsSources (earlier ++ event ∷ []) events calls' found'
            (at ∙ sym (append_assoc earlier (event ∷ []) events)) count' k)

  -- the whole scan
  pub scan-FindsSources : FindsSources batch (scan_events replies cfg batch (0, ([], [])))
  scan-FindsSources =
      scan_events-FindsSources [] batch 0 ([], []) refl refl
        record {
          judgements = [];
          nodes_of = refl;
          wordings = λ x. refl;
          distinct = refl;
          kept = λ j m. absurd (Memᴰ.not-nil m);
        }

  abbrev FromBatch : Result String ExtractionResult → Type 0
  FromBatch (err e) = Unit
  FromBatch (ok r) = (seen : List String) × Sources seen r.new_nodes

  judged-FromBatch :
      ⦃f : FormatFloat⦄ (seen : List String) (nodes : List ArgumentNode)
      (o : Result String (ℕ × FoundEdges))
      → Sources seen nodes
      → FromBatch (judged nodes o)
  judged-FromBatch seen nodes (err e) h = tt
  judged-FromBatch seen nodes (ok (calls, found)) h = (seen, h)

  paired-FromBatch :
      ⦃f : FormatFloat⦄ (uuids : ℕ → ℕ → String) (recent_nodes : List ArgumentNode)
      (o : Result String (ℕ × (List String × List ArgumentNode)))
      → FindsSources batch o
      → FromBatch (paired replies uuids recent_nodes cfg o)
  paired-FromBatch uuids recent_nodes (err e) h = tt
  paired-FromBatch uuids recent_nodes (ok (calls, (seen, nodes))) h =
      judged-FromBatch seen nodes
        (judge_chunks replies uuids cfg
          (chunks_from 15 [] (candidate_pairs nodes recent_nodes cfg.edge_min_overlap))
          (calls, ([], [])))
        h.1

-- Each node that a batch gives comes from a sentence of one of its events, and the service's answer
-- to the request about that event says of the sentence at that place that it is a decision or an open
-- item, which is the node's type, with a probability that is not below the threshold; requests are
-- counted over the earlier events that have a sentence. The sentence is a run of the event's words,
-- and no two of these sentences have the same wording, which leaves out case and punctuation. A limit
-- of at least one sentence to an event is asked for.
pub extract_native_batch-HasSources :
    ⦃u : Unicode⦄ ⦃f : FormatFloat⦄ (replies : Replies) (uuids : ℕ → ℕ → String)
    (batch : List EventRecord) (recent_nodes : List ArgumentNode) (cfg : JevNativeConfig)
    (r : ExtractionResult)
    → 1 ≤ cfg.max_sentences_per_event
    → extract_native_batch replies uuids batch recent_nodes cfg ≡ ok r
    → (seen : List String) × (sources : HasSources replies cfg batch seen r.new_nodes)
      × ((j : Judgement)
          → Memᴰ j sources.judgements
          → IsSentence (split_whitespace j.event.text) cfg.min_sentence_words j.sentence)
unfolding extract_native_batch
extract_native_batch-HasSources ⦃u⦄ ⦃f⦄ replies uuids batch recent_nodes cfg r some_out e =
    let (seen, sources) = subst (FromBatch replies cfg batch) e (
      paired-FromBatch replies cfg batch uuids recent_nodes
        (scan_events replies cfg batch (0, ([], []))) (scan-FindsSources replies cfg batch)) in
    (
      seen,
      sources,
      λ j m.
          (split_sentences_lem j.event.text cfg.min_sentence_words cfg.max_sentences_per_event
              some_out).0
            j.sentence
            (get_elem?-Memᴰ (sentences_of cfg j.event) j.index j.sentence
              (sources.kept j m).sentence_at),
    )
