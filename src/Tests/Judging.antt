-- ===== src/Tests/Judging.antt =====
-- The theorems on the Jev extraction at concrete inputs: one event of two sentences.
use armin.Prelude.{
  contains, ◌||◌, ◌≤◌, ◌==◌, String_Eq, ℕ, ◌<◌, ◌≡◌, ◌⊎◌, refl, String, true, false, none, some,
  List, [], ◌∷◌, Memᴰ, take, insert, if◌then◌else◌, ℕ_Eq, length, arith,
}
use armin.Prelude.Results.{Result, ok, err}
use armin.Types.{ArgumentNode}
use armin.Text.{split_whitespace}
use armin.Text.Sessions.{decimal}
use armin.Tools.{EventRecord, EventKind, lower_char, to_ascii_lowercase}
use armin.Engine.Config.{JevNativeConfig, Env}
use armin.Engine.Import.{join_words, trim_start_by, trim_end_by}
use armin.Engine.Worker.{ExtractionResult}
use armin.Jev.{
  choice_answer, split_sentences, split_words, has_words, is_full, ends_sentence,
  build_native_nodes, normalized, lower_kept, native_node, label_of, truncate_for_log, take_chars,
  char_count,
}
use armin.Jev.Pairs.{
  overlap_of, FormatFloat, Pair, candidate_pairs, edge_from_answer, sort_nodes, place_node,
  pairs_of, pairs_with, content_tokens, add_tokens, to_set,
}
use armin.Jev.Batch.{
  Replies, extract_native_batch, scan_events, scan_event, judge_chunks, chunk_edges, chunks_from,
}
use armin.Jev.Sentences.{IsSentence}
use armin.Jev.Kept.{Judgement, HasSources}
use armin.Jev.Nodes.{extract_native_batch-HasSources}
use armin.Jev.Edges.{JudgedEdges, extract_native_batch-HasPairs}
use armin.Jev.Chronological.{IsPaired, IsJoined, tokens_of, candidate_pairs_lem}
use armin.Jev.Client.{
  JevClient, openrouter, Reply, reply, exhausted_retries, ask, client_from_env, new_client,
  resolve_provider, normalize_jev_base, without_suffix, trim_slashes,
}
use armin.Jev.Client.Retries.{is_final, verdict, waits, ask_lem}
use armin.Jev.Client.FromEnv.{IsFor, client_from_env_lem}
use armin.Tests.{ascii, question, answer}

instance abbrev rounded : FormatFloat
rounded = record { two_places = λ p. "0.90" }

abbrev said : EventRecord
said = record {
  id = "event-7";
  session_id = "monday";
  agent_role = "assistant";
  start_time = 30;
  end_time = 31;
  text = "we keep one cache. should the cache expire?";
  event_kind = EventKind.utterance;
  tool_name = none;
  files = [];
  commit = none;
}

abbrev short_sentences : JevNativeConfig
short_sentences = record {
  decision_threshold = 6500;
  edge_threshold = 7000;
  edge_min_overlap = 1;
  min_sentence_words = 2;
  max_sentences_per_event = 5;
}

abbrev replies : Replies
replies calls =
    if calls == 0
    then ok (
        ("s0_type", choice_answer "Decision" (("Decision", 9000) ∷ []) 9000)
        ∷ ("s1_type", choice_answer "OpenItem" (("OpenItem", 8000) ∷ []) 8000)
        ∷ [])
    else ok (
        (
          "p0_relation",
          choice_answer "later_relates_earlier" (("later_relates_earlier", 9000) ∷ []) 9000,
        )
        ∷ [])

abbrev uuids : ℕ → ℕ → String
uuids calls k = "uuid"

abbrev found : Result String ExtractionResult → ExtractionResult
found (ok r) = r
found (err e) = record { new_nodes = []; new_edges = [] }

abbrev extracted : ExtractionResult
extracted = found (extract_native_batch replies uuids (said ∷ []) [] short_sentences)

extracts : extract_native_batch replies uuids (said ∷ []) [] short_sentences ≡ ok extracted
unfolding extract_native_batch scan_events scan_event judge_chunks chunk_edges chunks_from
    candidate_pairs sort_nodes place_node pairs_of pairs_with content_tokens add_tokens to_set
    edge_from_answer build_native_nodes normalized lower_kept lower_char native_node label_of
    truncate_for_log take_chars char_count split_sentences split_words has_words is_full
    ends_sentence split_whitespace join_words decimal insert
extracts = refl

-- both sentences are kept, and they are related
two_nodes_and_an_edge : (length extracted.new_nodes ≡ 2) × (length extracted.new_edges ≡ 1)
unfolding extract_native_batch scan_events scan_event judge_chunks chunk_edges chunks_from
    candidate_pairs sort_nodes place_node pairs_of pairs_with content_tokens add_tokens to_set
    edge_from_answer build_native_nodes normalized lower_kept lower_char native_node label_of
    truncate_for_log take_chars char_count split_sentences split_words has_words is_full
    ends_sentence split_whitespace join_words decimal insert
two_nodes_and_an_edge = (refl, refl)

extract_native_batch-HasSources_example :
    (seen : List String) × (sources : HasSources replies short_sentences
      (said ∷ [])
      seen
      extracted.new_nodes)
    × ((j : Judgement)
        → Memᴰ j sources.judgements
        → IsSentence (split_whitespace j.event.text) 2 j.sentence)
extract_native_batch-HasSources_example =
    extract_native_batch-HasSources replies uuids (said ∷ []) [] short_sentences extracted
      (omega arith) extracts

extract_native_batch-HasPairs_example :
    JudgedEdges replies (said ∷ []) [] short_sentences extracted.new_nodes extracted.new_edges
extract_native_batch-HasPairs_example =
    extract_native_batch-HasPairs replies uuids (said ∷ []) [] short_sentences extracted extracts

candidate_pairs_example :
    ((p : Pair)
      → Memᴰ p (candidate_pairs (answer ∷ []) (question ∷ []) 1)
      → IsPaired
          (tokens_of (answer ∷ []) (question ∷ []) 1)
          ("answer" ∷ [])
          1
          (question ∷ answer ∷ [])
          p)
    × ((a b : ArgumentNode)
        → Memᴰ a (question ∷ answer ∷ [])
        → Memᴰ b (question ∷ answer ∷ [])
        → (a.id == b.id) ≡ false
        → (contains a.id ("answer" ∷ []) || contains b.id ("answer" ∷ [])) ≡ true
        → 1 ≤ overlap_of (tokens_of (answer ∷ []) (question ∷ []) 1) a b
        → 1 ≤ overlap_of (tokens_of (answer ∷ []) (question ∷ []) 1) b a
        → IsJoined
            (tokens_of (answer ∷ []) (question ∷ []) 1)
            ("answer" ∷ [])
            1
            (candidate_pairs (answer ∷ []) (question ∷ []) 1)
            a
            b)
candidate_pairs_example = candidate_pairs_lem (answer ∷ []) (question ∷ []) 1

abbrev a_client : JevClient
a_client = record {
  provider = openrouter;
  api_key = "key";
  base_url = "https://openrouter.ai/api";
  model = "jev-latest";
  calls = 0;
  input_tokens = 0;
  output_tokens = 0;
}

-- busy, then a response that nobody can read
abbrev network : ℕ → Reply
network attempt = if attempt == 0 then reply 529 "busy" none else reply 200 "?" none

ask_example :
    ((k : ℕ) × (k < 3)
      × ((i : ℕ) → i < k → is_final (network i) ≡ false)
      × (is_final (network k) ≡ true)
      × (ask network a_client ≡ (take k waits, verdict a_client (network k))))
    ⊎ (((i : ℕ) → i < 3 → is_final (network i) ≡ false)
        × (ask network a_client ≡ (waits, (a_client, err exhausted_retries))))
ask_example = ask_lem network a_client

abbrev relay : Env
relay name = if name == "OPENROUTER_API_KEY" then some "key" else none

default_client : client_from_env relay ≡ ok a_client
unfolding client_from_env resolve_provider normalize_jev_base without_suffix trim_slashes new_client
    trim_start_by trim_end_by to_ascii_lowercase
default_client = refl

client_from_env_example : IsFor relay a_client
client_from_env_example = client_from_env_lem relay a_client default_client
