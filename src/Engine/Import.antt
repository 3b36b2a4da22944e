-- ===== src/Engine/Import.antt =====
-- armin-core/engine/src/import.rs: the import of a project's documents, line by line, and the handler
-- in routes.rs. `sha2` is an interface; the clock is an argument.
pub mod Again
use Prim.Native.Char.{Char, code}
use Prim.Native.String.{len, char_at, ◌++◌ as concat}
use mathlib.Core.List.{foldl}
use armin.Prelude.{
  ℕ, ◌+◌, ◌/◌, ◌%◌, String, Bool, true, false, not, ◌&&◌, ◌||◌, Option, none, some, List, [], ◌∷◌,
  ◌++◌, map, any, take, select, contains, is_some, length, leb, ltb, if◌then◌else◌, ◌==◌, String_Eq,
  ℕ_Eq,
}
use armin.Types.{ArgumentNode, NodeType, NodeStatus, NodeType_Eq}
use armin.Text.{Unicode, split_whitespace}
use armin.Tools.{has_prefix, contains_text, mentions}
use armin.Petgraph.{StableGraph}
use armin.Store.{GraphStoreInner, add_node, get_node}
use armin.Engine.{EngineState, fetch_add}
use armin.Engine.Agent.{unwrap_or}

pub record ImportNode : Type 0 where
  pub node_type : NodeType
  pub label : String
  pub description : String

pub record ImportRequest : Type 0 where
  pub content : String
  pub session_id : Option String

pub record ImportResponse : Type 0 where
  pub found : ℕ
  pub imported : ℕ
  pub rules : ℕ
  pub decisions : ℕ
  pub open_items : ℕ

pub record Sha256 : Type 0 where
  -- the bytes of the digest of a text's UTF-8
  pub digest : String → List ℕ

-- `trim_start_matches(p)` and `trim_end_matches(p)`
unfoldable pub trim_start_by : (Char → Bool) → String → String
trim_start_by p String.[] = ""
trim_start_by p (String.◌∷◌ c s) =
    let rest = trim_start_by p s in if p c then rest else String.◌∷◌ c s

unfoldable pub trim_end_by : (Char → Bool) → String → String
trim_end_by p String.[] = ""
trim_end_by p (String.◌∷◌ c s) =
    let rest = trim_end_by p s in if rest == "" && p c then "" else String.◌∷◌ c rest

-- the characters that pass a test
unfoldable pub keep_chars : (Char → Bool) → String → String
keep_chars p String.[] = ""
keep_chars p (String.◌∷◌ c s) = let rest = keep_chars p s in if p c then String.◌∷◌ c rest else rest

-- a character is one of some bytes
abbrev pub one_of : List ℕ → Char → Bool
one_of codes c = contains (code c) codes

abbrev pub is_digit : Char → Bool
is_digit c = leb b'0' (code c) && leb (code c) b'9'

abbrev pub is_ascii_alphanumeric : Char → Bool
is_ascii_alphanumeric c =
    is_digit c || leb b'a' (code c) && leb (code c) b'z' || leb b'A' (code c) && leb (code c) b'Z'

abbrev pub first_is : (Char → Bool) → String → Bool
first_is p String.[] = false
first_is p (String.◌∷◌ c s) = p c

-- `content.split('\n')`: the first piece, and those behind it
unfoldable pub pieces : String → String × List String
pieces String.[] = ("", [])
pieces (String.◌∷◌ c s) =
    let rest = pieces s in
    if code c == b'\n' then ("", rest.0 ∷ rest.1) else (String.◌∷◌ c rest.0, rest.1)

-- `strip_suffix('\r')`
unfoldable pub strip_cr : String → String
strip_cr String.[] = ""
strip_cr (String.◌∷◌ c s) =
    let rest = strip_cr s in if code c == b'\r' && s == "" then "" else String.◌∷◌ c rest

-- `content.lines()`
abbrev pub ended_lines : String → List String → List String
ended_lines w [] = if w == "" then [] else w ∷ []
ended_lines w (v ∷ ls) = strip_cr w ∷ ended_lines v ls

unfoldable pub lines : String → List String
unfolding pieces strip_cr
lines content = ended_lines (pieces content).0 (pieces content).1

-- `words.join(" ")`
unfoldable pub join_words : List String → String
join_words [] = ""
join_words (w ∷ []) = w
join_words (w ∷ v ∷ ws) = concat w (concat " " (join_words (v ∷ ws)))

abbrev pub rule_markers : List String
rule_markers =
    "must" ∷ "must not" ∷ "never" ∷ "always" ∷ "do not" ∷ "don't " ∷ "avoid " ∷ "required"
    ∷ "has to" ∷ "only use" ∷ "no third-party" ∷ "forbidden" ∷ "prohibited" ∷ "should be" ∷ "keep "
    ∷ "use " ∷ "prefer " ∷ "make sure" ∷ "ensure " ∷ "needs to" ∷ "mandatory"
    ∷ "standard library only" ∷ []

abbrev pub decision_markers : List String
decision_markers =
    "we use" ∷ "we chose" ∷ "we decided" ∷ "we do" ∷ "uses " ∷ "instead of" ∷ "over " ∷ "chosen"
    ∷ "decided" ∷ "settled" ∷ "picked" ∷ "committed to" ∷ "the project uses" ∷ "convention:"
    ∷ "pattern:" ∷ "architecture:" ∷ []

-- one byte as `{b:02x}`
abbrev pub hex_byte : ℕ → String
hex_byte b =
    String.◌∷◌ (char_at "0123456789abcdef" (b / 16))
      (String.◌∷◌ (char_at "0123456789abcdef" (b % 16)) "")

abbrev pub hex : List ℕ → String
hex [] = ""
hex (b ∷ bs) = concat (hex_byte b) (hex bs)

module _ ⦃u : Unicode⦄ where
  abbrev pub trim : String → String
  trim s = trim_end_by u.is_whitespace (trim_start_by u.is_whitespace s)

  unfoldable pub make_node : NodeType → String → ImportNode
  unfolding split_whitespace join_words
  make_node node_type text =
      let words = split_whitespace text in
      record {
        node_type = node_type;
        label = if ltb 12 (length words) then concat (join_words (take 12 words)) "…" else text;
        description = text;
      }

  -- the text that a line is judged by
  unfoldable pub line_text : String → String
  unfolding trim_start_by trim_end_by keep_chars
  line_text line =
      let bare = trim_start_by (one_of (b'-' ∷ b'*' ∷ b'+' ∷ b'>' ∷ [])) (trim line) in
      let unnumbered = trim_start_by (λ c. is_digit c || one_of (b'.' ∷ b')' ∷ []) c) bare in
      let sentence = trim_end_by (one_of (b'.' ∷ b';' ∷ [])) (trim unnumbered) in
      keep_chars (λ c. not (one_of (b'*' ∷ b'_' ∷ b'`' ∷ []) c)) sentence

  abbrev pub is_question : String → Bool
  is_question lowered =
      contains_text "?" lowered
      || has_prefix "todo" lowered
      || has_prefix "tbd" lowered
      || has_prefix "open question" lowered

  unfoldable pub classify_text : String → Option ImportNode
  unfolding make_node contains_text has_prefix
  classify_text text =
      let lowered = u.to_lowercase text in
      if ltb (len text) 8
      then none
      else if has_prefix "|" text || has_prefix "```" text || has_prefix "#" text
      then none
      else if is_question lowered
      then some (make_node NodeType.open_item text)
      else if mentions lowered decision_markers
      then some (make_node NodeType.decision text)
      else if mentions lowered rule_markers
      then some (make_node NodeType.rule text)
      else none

  unfoldable pub classify_line : String → Option ImportNode
  unfolding line_text classify_text
  classify_line line = classify_text (line_text line)

  abbrev pub is_list_item : String → Bool
  is_list_item trimmed =
      first_is (λ c. one_of (b'-' ∷ b'*' ∷ b'+' ∷ b'>' ∷ []) c || is_digit c) trimmed

  abbrev pub push_found : List ImportNode → Option ImportNode → List ImportNode
  push_found out none = out
  push_found out (some n) = out ++ n ∷ []

  -- the loop body: whether the line is in a code fence, and what was found
  unfoldable pub parse_line : Bool × List ImportNode → String → Bool × List ImportNode
  unfolding classify_line has_prefix trim_start_by trim_end_by
  parse_line (in_code_fence, out) line =
      let trimmed = trim line in
      if has_prefix "```" trimmed
      then (not in_code_fence, out)
      else if in_code_fence || trimmed == "" || not (is_list_item trimmed)
      then (in_code_fence, out)
      else (in_code_fence, push_found out (classify_line trimmed))

  unfoldable pub parse_markdown : String → List ImportNode
  unfolding parse_line lines
  parse_markdown content = (foldl parse_line (false, []) (lines content)).1

module _ ⦃u : Unicode⦄ ⦃sha : Sha256⦄ where
  unfoldable pub stable_id : String → String
  unfolding trim_start_by trim_end_by keep_chars
  stable_id text =
      let normalized =
        keep_chars (λ c. is_ascii_alphanumeric c || u.is_whitespace c) (u.to_lowercase text) in
      concat "imp-" (hex (take 8 (sha.digest (trim normalized))))

  unfoldable pub argument_node : String → ℕ → ImportNode → ArgumentNode
  unfolding stable_id
  argument_node session_id timestamp n = record {
    id = stable_id n.description;
    node_type = n.node_type;
    label = n.label;
    description = n.description;
    event_id = concat session_id "-import";
    agent_id = "import";
    session_id = session_id;
    timestamp = timestamp;
    confidence = 10000;
    files = [];
    commit = none;
    mention_count = 1;
    status = NodeStatus.active;
  }

  unfoldable pub to_argument_nodes : List ImportNode → String → ℕ → List ArgumentNode
  unfolding argument_node
  to_argument_nodes parsed session_id timestamp = map (argument_node session_id timestamp) parsed

abbrev pub count_type : NodeType → List ImportNode → ℕ
count_type t parsed = length (select (λ (n : ImportNode). n.node_type == t) parsed)

module _ ⦃pg : StableGraph⦄ ⦃u : Unicode⦄ where
  -- the loop body: the graph, and the number of nodes that were new
  unfoldable pub import_node : GraphStoreInner × ℕ → ArgumentNode → GraphStoreInner × ℕ
  unfolding add_node get_node
  import_node (graph, imported) node =
      let existed = is_some (get_node graph node.id) in
      ((add_node graph node).0, if existed then imported else imported + 1)

  unfoldable pub handle_import :
      ⦃sha : Sha256⦄ → GraphStoreInner → ImportRequest → ℕ → GraphStoreInner × ImportResponse
  unfolding parse_markdown to_argument_nodes import_node
  handle_import graph req ts =
      let parsed = parse_markdown req.content in
      let done =
        foldl import_node (graph, 0)
          (to_argument_nodes parsed (unwrap_or req.session_id "import") ts) in
      (
        done.0,
        record {
          found = length parsed;
          imported = done.1;
          rules = count_type NodeType.rule parsed;
          decisions = count_type NodeType.decision parsed;
          open_items = count_type NodeType.open_item parsed;
        },
      )

  unfoldable pub import :
      ⦃sha : Sha256⦄ → EngineState → ImportRequest → ℕ → EngineState × ImportResponse
  unfolding handle_import fetch_add
  import state req ts =
      let (graph, resp) = handle_import state.graph req ts in
      (
        record state {
          graph = graph;
          metrics = record state.metrics {
            nodes_added = fetch_add state.metrics.nodes_added resp.imported;
          };
        },
        resp,
      )
