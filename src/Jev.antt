-- ===== src/Jev.antt =====
-- armin-core/extraction/src/jev.rs: the extraction that keeps sentences of the events word by word, and
-- asks the Jev service of which type each is and how two of them relate. What the service answers is
-- an argument, and so is how a probability, a number of ten-thousandths, is printed. The texts of the
-- requests are left out.
pub mod Pairs
pub mod Batch
pub mod Client
pub mod Requests
pub mod Choices
pub mod Relations
pub mod Kept
pub mod Sorted
pub mod Sentences
pub mod Nodes
pub mod Chronological
pub mod Edges
use Prim.Native.Char.{Char, code}
use Prim.Native.String.{◌++◌ as concat}
use mathlib.Core.List.{foldl}
use armin.Prelude.{
  ℕ, zero, suc, ◌+◌, String, Bool, true, false, not, ◌&&◌, ◌||◌, Option, none, some, List, [], ◌∷◌,
  ◌++◌, map, take, select, contains, lookup, length, leb, ltb, if◌then◌else◌, ◌==◌, String_Eq, ℕ_Eq,
}
use armin.Types.{ArgumentNode, ArgumentEdge, NodeType, NodeStatus, EdgeType, EdgeProvenance}
use armin.Text.{Unicode, split_whitespace}
use armin.Text.Sessions.{decimal}
use armin.Tools.{EventRecord, lower_char}
use armin.Engine.Config.{JevNativeConfig}
use armin.Engine.Import.{join_words, is_ascii_alphanumeric}

pub data JevAnswer : Type 0 where
  choice_answer : (choice : String) (probabilities : List (String × ℕ)) (confidence : ℕ) → JevAnswer
  noul_answer : (noul : ℕ) → JevAnswer
  score_answer : (score : ℕ) → JevAnswer

abbrev pub Answers : Type 0
Answers = List (String × JevAnswer)

abbrev pub or_zero : Option ℕ → ℕ
or_zero none = 0
or_zero (some p) = p

-- the option that was selected, and its probability
abbrev pub choice_probability : JevAnswer → Option (String × ℕ)
choice_probability (choice_answer choice probabilities confidence) =
    some (choice, or_zero (lookup choice probabilities))
choice_probability (noul_answer noul) = none
choice_probability (score_answer score) = none

-- `answers.get(key)`, and `choice_probability` where there is an answer
abbrev pub chosen : Option JevAnswer → Option (String × ℕ)
chosen none = none
chosen (some answer) = choice_probability answer

abbrev pub is_mark : Char → Bool
is_mark c = contains (code c) (b'.' ∷ b'!' ∷ b'?' ∷ [])

-- `word.ends_with('.') || word.ends_with('!') || word.ends_with('?')`
unfoldable pub ends_sentence : String → Bool
ends_sentence String.[] = false
ends_sentence (String.◌∷◌ c s) = let rest = ends_sentence s in if s == "" then is_mark c else rest

-- `s.chars().take(max)`, and whether there are more
unfoldable pub take_chars : ℕ → String → String
take_chars zero s = ""
take_chars (suc n) String.[] = ""
take_chars (suc n) (String.◌∷◌ c s) = String.◌∷◌ c (take_chars n s)

unfoldable pub char_count : String → ℕ
char_count String.[] = 0
char_count (String.◌∷◌ c s) = suc (char_count s)

unfoldable pub truncate_for_log : String → ℕ → String
unfolding take_chars char_count
truncate_for_log s max = if leb (char_count s) max then s else concat (take_chars max s) "…"

abbrev pub parse_node_type : String → Option NodeType
parse_node_type choice =
    if choice == "Decision"
    then some NodeType.decision
    else if choice == "OpenItem"
    then some NodeType.open_item
    else none

-- the type that an answer gives a sentence, with its probability, where both pass
abbrev pub with_probability : ℕ → Option NodeType → Option (NodeType × ℕ)
with_probability p none = none
with_probability p (some t) = some (t, p)

abbrev pub kept_type : JevNativeConfig → Option (String × ℕ) → Option (NodeType × ℕ)
kept_type cfg none = none
kept_type cfg (some (choice, p)) =
    if choice == "noise" || ltb p cfg.decision_threshold
    then none
    else with_probability p (parse_node_type choice)

-- `p.clamp(0.1, 0.95)`
abbrev pub clamped : ℕ → ℕ
clamped p = if ltb p 1000 then 1000 else if ltb 9500 p then 9500 else p

abbrev pub stop_words : List String
stop_words =
    "the" ∷ "a" ∷ "an" ∷ "and" ∷ "or" ∷ "of" ∷ "to" ∷ "in" ∷ "for" ∷ "on" ∷ "with" ∷ "at" ∷ "by"
    ∷ "from" ∷ "as" ∷ "is" ∷ "are" ∷ "was" ∷ "were" ∷ "be" ∷ "been" ∷ "being" ∷ "this" ∷ "that"
    ∷ "these" ∷ "those" ∷ "it" ∷ "its" ∷ "they" ∷ "them" ∷ "their" ∷ "we" ∷ "our" ∷ "you" ∷ "your"
    ∷ "i" ∷ "me" ∷ "my" ∷ "he" ∷ "she" ∷ "his" ∷ "her" ∷ "will" ∷ "would" ∷ "should" ∷ "could"
    ∷ "can" ∷ "may" ∷ "might" ∷ "shall" ∷ "must" ∷ "do" ∷ "does" ∷ "did" ∷ "not" ∷ "no" ∷ "nor"
    ∷ "so" ∷ "than" ∷ "too" ∷ "very" ∷ "just" ∷ "because" ∷ "but" ∷ "if" ∷ "while" ∷ "about"
    ∷ "what" ∷ "which" ∷ "who" ∷ "whom" ∷ "when" ∷ "where" ∷ "why" ∷ "how" ∷ "all" ∷ "any" ∷ "both"
    ∷ "each" ∷ "few" ∷ "more" ∷ "most" ∷ "other" ∷ "some" ∷ "such" ∷ "only" ∷ "own" ∷ "same"
    ∷ "then" ∷ "once" ∷ "here" ∷ "there" ∷ "also" ∷ "into" ∷ "out" ∷ "up" ∷ "down" ∷ "over"
    ∷ "under" ∷ "again" ∷ "further" ∷ "against" ∷ "between" ∷ "through" ∷ "during" ∷ "before"
    ∷ "after" ∷ "above" ∷ "below" ∷ []

module _ ⦃u : Unicode⦄ where
  -- a sentence joins the list if it has words enough
  unfoldable pub has_words : ℕ → String → Bool
  unfolding split_whitespace
  has_words min_words sentence = leb min_words (length (split_whitespace sentence))

  -- behind the loop
  abbrev pub last_sentence : ℕ → List String → List String → List String
  last_sentence min_words out [] = out
  last_sentence min_words out (w ∷ current) =
      if has_words min_words (join_words (w ∷ current))
      then out ++ join_words (w ∷ current) ∷ []
      else out

  unfoldable pub is_full : ℕ → List String → Bool
  is_full max_out out = leb max_out (length out)

  -- the loop over the words
  unfoldable pub split_words : ℕ → ℕ → List String → List String → List String → List String
  split_words min_words max_out out current [] = last_sentence min_words out current
  split_words min_words max_out out current (word ∷ words) = elim (ends_sentence word) [
    | false ↦ split_words min_words max_out out (current ++ word ∷ []) words
    | true ↦ elim (has_words min_words (join_words (current ++ word ∷ []))) [
      | false ↦ split_words min_words max_out out [] words
      | true ↦ elim (is_full max_out (out ++ join_words (current ++ word ∷ []) ∷ [])) [
        | true ↦ out ++ join_words (current ++ word ∷ []) ∷ []
        | false ↦
            split_words min_words max_out (out ++ join_words (current ++ word ∷ []) ∷ []) [] words
      ]
    ]
  ]

  unfoldable pub split_sentences : String → ℕ → ℕ → List String
  unfolding split_words split_whitespace
  split_sentences text min_words max_out =
      split_words min_words max_out [] [] (split_whitespace text)

  -- the characters that `normalized` keeps, of which only ASCII letters have a lower case
  unfoldable pub lower_kept : String → String
  unfolding lower_char
  lower_kept String.[] = ""
  lower_kept (String.◌∷◌ c s) =
      let rest = lower_kept s in
      if is_ascii_alphanumeric c || u.is_whitespace c then String.◌∷◌ (lower_char c) rest else rest

  unfoldable pub normalized : String → String
  unfolding lower_kept split_whitespace join_words
  normalized s = join_words (split_whitespace (lower_kept s))

  unfoldable pub label_of : String → String
  unfolding split_whitespace join_words
  label_of sentence =
      let words = split_whitespace sentence in
      if ltb 12 (length words) then concat (join_words (take 12 words)) "…" else sentence

  unfoldable pub native_node : EventRecord → ℕ → String → NodeType → ℕ → ArgumentNode
  unfolding label_of truncate_for_log decimal
  native_node event i sentence node_type p = record {
    id = concat (concat "jev-" event.id) (concat "-s" (decimal i i));
    node_type = node_type;
    label = label_of sentence;
    description = truncate_for_log sentence 400;
    event_id = event.id;
    agent_id = "jev-native";
    session_id = event.session_id;
    timestamp = event.end_time;
    confidence = clamped p;
    files = event.files;
    commit = event.commit;
    mention_count = 1;
    status = NodeStatus.active;
  }

  abbrev pub type_key : ℕ → String
  type_key i = concat "s" (concat (decimal i i) "_type")

  -- a sentence whose type passed: the sentences that were seen, and the nodes
  abbrev pub keep_sentence :
      EventRecord
      → ℕ
      → String
      → List String × List ArgumentNode
      → Option (NodeType × ℕ)
      → List String × List ArgumentNode
  keep_sentence event i sentence (seen, nodes) none = (seen, nodes)
  keep_sentence event i sentence (seen, nodes) (some (node_type, p)) =
      if normalized sentence == "" || contains (normalized sentence) seen
      then (seen, nodes)
      else (normalized sentence ∷ seen, nodes ++ native_node event i sentence node_type p ∷ [])

  -- the loop over the sentences, from the one at `i`
  unfoldable pub build_native_nodes :
      EventRecord
      → Answers
      → JevNativeConfig
      → ℕ
      → List String × List ArgumentNode
      → List String
      → List String × List ArgumentNode
  unfolding normalized native_node decimal
  build_native_nodes event answers cfg i found [] = found
  build_native_nodes event answers cfg i found (sentence ∷ sentences) =
      build_native_nodes event answers cfg (suc i)
        (keep_sentence event i sentence found
          (kept_type cfg (chosen (lookup (type_key i) answers))))
        sentences
