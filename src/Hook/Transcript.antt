-- ===== src/Hook/Transcript.antt =====
-- armin-core/hook/src/transcript.rs: the incremental reader of session transcripts.
-- A file is its bytes. `serde_json` is an interface: what it reads a line as. A read that fails
-- halfway is not modelled; a file that cannot be opened is.
pub mod Lines
pub mod Resume
use mathlib.Core.List.{flat_map}
use armin.Prelude.{
  ℕ, ◌+◌, String, Bool, true, false, not, ◌&&◌, ◌||◌, Option, none, some, List, [], ◌∷◌, ◌++◌,
  length, drop, ltb, leb, if◌then◌else◌, ◌==◌, String_Eq, ℕ_Eq,
}
use armin.Text.{Unicode, is_blank}

abbrev pub Bytes : Type 0
Bytes = List ℕ

-- `serde_json::Value`
mutual
  pub data Value : Type 0 where
    null : Value
    boolean : Bool → Value
    number : ℕ → Value
    string : String → Value
    array : Values → Value
    object : Fields → Value

  pub data Values : Type 0 where
    no_values : Values
    value_then : Value → Values → Values

  pub data Fields : Type 0 where
    no_fields : Fields
    field_then : String → Value → Fields → Fields

pub record Message : Type 0 where
  pub content : Value

pub record Entry : Type 0 where
  pub kind : String
  pub message : Option Message
  pub is_sidechain : Bool

pub record SerdeJson : Type 0 where
  -- `serde_json::from_slice::<Entry>(line)`
  pub from_slice : Bytes → Option Entry

pub record TranscriptTail : Type 0 where
  pub texts : List String
  pub new_cursor : ℕ
  pub reset : Bool

abbrev pub get_field : String → Fields → Option Value
get_field k no_fields = none
get_field k (field_then j v m) = if j == k then some v else get_field k m

-- `value.get(k).and_then(|v| v.as_str())`
abbrev pub as_str : Option Value → Option String
as_str (some (string s)) = some s
as_str _ = none

abbrev pub get_str : String → Value → Option String
get_str k (object m) = as_str (get_field k m)
get_str k _ = none

abbrev pub is_text : Option String → Bool
is_text none = false
is_text (some t) = t == "text"

-- the line feed, and `{`
abbrev pub newline : ℕ
newline = 10

abbrev pub brace : ℕ
brace = 123

abbrev pub starts_with_brace : Bytes → Bool
starts_with_brace [] = false
starts_with_brace (b ∷ line) = b == brace

module _ ⦃u : Unicode⦄ where
  abbrev pub keep_text : Option String → List String
  keep_text none = []
  keep_text (some t) = if is_blank t then [] else t ∷ []

  -- the loop body for one block
  unfoldable pub block_text : Value → List String
  block_text block = if is_text (get_str "type" block) then keep_text (get_str "text" block) else []

  abbrev pub block_texts : Values → List String
  block_texts no_values = []
  block_texts (value_then b bs) = block_text b ++ block_texts bs

  unfoldable pub texts_from_content : Value → List String
  unfolding block_text
  texts_from_content (string s) = keep_text (some s)
  texts_from_content (array blocks) = block_texts blocks
  texts_from_content _ = []

  abbrev pub message_texts : Option Message → List String
  message_texts none = []
  message_texts (some m) = texts_from_content m.content

  abbrev pub entry_texts : Option Entry → Option (List String)
  entry_texts none = none
  entry_texts (some e) =
      if e.is_sidechain || not (e.kind == "assistant") then none else some (message_texts e.message)

  -- what a line adds; `none` where the loop goes on with no look at the limit
  unfoldable pub line_texts : ⦃j : SerdeJson⦄ → Bytes → Option (List String)
  unfolding texts_from_content
  line_texts ⦃j⦄ line = if starts_with_brace line then entry_texts (j.from_slice line) else none

-- what `read_until(b'\n')` returns, call by call: the complete lines, and what is left
abbrev pub push_byte : ℕ → List Bytes × Bytes → List Bytes × Bytes
push_byte b ([], tail) = if b == newline then ((b ∷ []) ∷ [], tail) else ([], b ∷ tail)
push_byte b (l ∷ ls, tail) =
    if b == newline then ((b ∷ []) ∷ l ∷ ls, tail) else ((b ∷ l) ∷ ls, tail)

unfoldable pub split_lines : Bytes → List Bytes × Bytes
split_lines [] = ([], [])
split_lines (b ∷ bs) = push_byte b (split_lines bs)

module _ ⦃u : Unicode⦄ ⦃j : SerdeJson⦄ where
  -- the loop over the complete lines
  unfoldable pub read_lines : ℕ → Bool → List String → ℕ → List Bytes → TranscriptTail
  unfolding line_texts
  read_lines max_texts reset texts offset [] = record {
    texts = texts;
    new_cursor = offset;
    reset = reset;
  }
  read_lines max_texts reset texts offset (line ∷ lines) = elim (line_texts line) [
    | none ↦ read_lines max_texts reset texts (offset + length line) lines
    | some ts ↦ elim (leb max_texts (length (texts ++ ts))) [
      | true ↦ record { texts = texts ++ ts; new_cursor = offset + length line; reset = reset }
      | false ↦ read_lines max_texts reset (texts ++ ts) (offset + length line) lines
    ]
  ]

  unfoldable pub read_new : Option Bytes → ℕ → ℕ → Option TranscriptTail
  unfolding split_lines read_lines
  read_new none cursor max_texts = none
  read_new (some file) cursor max_texts =
      let reset = ltb (length file) cursor in
      let offset : ℕ = if reset then 0 else cursor in
      some (read_lines max_texts reset [] offset (split_lines (drop offset file)).0)
