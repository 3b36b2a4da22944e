-- ===== src/Tools.antt =====
-- armin-core/engine/src/toolclass.rs: what kind of tool call an event is, whether a check passed, and
-- what the call leaves in the session's scratch. The event is that of armin-core/ingest/src/lib.rs.
pub mod Clears
pub mod Outcome
use Prim.Native.Char.{Char, code}
use Prim.Native.String.{char_at}
use armin.Prelude.{
  ℕ, ◌-◌, String, Bool, true, false, ◌&&◌, ◌||◌, Option, none, some, List, [], ◌∷◌, any, contains,
  leb, if◌then◌else◌, ◌==◌, String_Eq, ℕ_Eq,
}
use armin.Types.Scratch.{ScratchEdit, ScratchCheck}
use armin.Scratch.{ScratchInner, record_edit, record_check}

pub data EventKind : Type 0 where
  utterance tool_call user_prompt : EventKind

pub record EventRecord : Type 0 where
  pub id : String
  pub session_id : String
  pub agent_role : String
  pub start_time : ℕ
  pub end_time : ℕ
  pub text : String
  pub event_kind : EventKind
  pub tool_name : Option String
  pub files : List String
  pub commit : Option String

pub data ToolClass : Type 0 where
  read write check : ToolClass

abbrev pub write_tools : List String
write_tools =
    "edit" ∷ "write" ∷ "multiedit" ∷ "apply_patch" ∷ "applypatch" ∷ "patch" ∷ "create_file"
    ∷ "replace" ∷ "str_replace" ∷ "move" ∷ "remove" ∷ "rm" ∷ "delete" ∷ "notebook_edit"
    ∷ "insert_content" ∷ "search_and_replace" ∷ []

abbrev pub check_tools : List String
check_tools =
    "test" ∷ "run_tests" ∷ "lint" ∷ "typecheck" ∷ "type_check" ∷ "build" ∷ "compile" ∷ "diagnostics"
    ∷ []

abbrev pub check_commands : List String
check_commands =
    "cargo test" ∷ "cargo build" ∷ "cargo check" ∷ "cargo clippy" ∷ "npm test" ∷ "npm run"
    ∷ "npx tsc" ∷ "tsc " ∷ "pytest" ∷ "python -m pytest" ∷ "go test" ∷ "go build" ∷ "go vet"
    ∷ "make test" ∷ "make check" ∷ "ruff" ∷ "eslint" ∷ "prettier --check" ∷ "bun test" ∷ "bunx tsc"
    ∷ "vitest" ∷ "jest" ∷ []

abbrev pub read_commands : List String
read_commands =
    "ls" ∷ "cat " ∷ "head " ∷ "tail " ∷ "grep" ∷ "rg " ∷ "rg/" ∷ "find " ∷ "wc " ∷ "which "
    ∷ "git status" ∷ "git log" ∷ "git diff" ∷ "git show" ∷ "git branch" ∷ "echo " ∷ "pwd" ∷ []

abbrev pub zero_failures : List String
zero_failures = "0 failed" ∷ "0 failures" ∷ "0 failing" ∷ "all tests passed" ∷ "no failures" ∷ []

abbrev pub hard_fail : List String
hard_fail =
    "failed" ∷ "failure" ∷ "error[" ∷ "error:" ∷ "assertionerror" ∷ "compilation error"
    ∷ "does not compile" ∷ "✗" ∷ []

-- `char::to_ascii_lowercase` and `str::to_ascii_lowercase`
unfoldable pub lower_char : Char → Char
lower_char c =
    if leb 65 (code c) && leb (code c) 90
    then char_at "abcdefghijklmnopqrstuvwxyz" (code c - 65)
    else c

unfoldable pub to_ascii_lowercase : String → String
unfolding lower_char
to_ascii_lowercase String.[] = String.[]
to_ascii_lowercase (String.◌∷◌ c s) = String.◌∷◌ (lower_char c) (to_ascii_lowercase s)

-- `text.starts_with(p)` and `text.contains(p)`
unfoldable pub has_prefix : String → String → Bool
has_prefix String.[] t = true
has_prefix (String.◌∷◌ a p) String.[] = false
has_prefix (String.◌∷◌ a p) (String.◌∷◌ b t) = code a == code b && has_prefix p t

unfoldable pub contains_text : String → String → Bool
unfolding has_prefix
contains_text p String.[] = has_prefix p String.[]
contains_text p (String.◌∷◌ c t) = has_prefix p (String.◌∷◌ c t) || contains_text p t

-- `list.iter().any(|p| text.contains(p))`
abbrev pub mentions : String → List String → Bool
mentions text = any (λ p. contains_text p text)

abbrev pub is_shell : String → Bool
is_shell name = name == "bash" || name == "shell" || name == "terminal" || name == "run_command"

unfoldable pub classify : String → String → ToolClass
unfolding to_ascii_lowercase contains_text
classify tool text =
    let name = to_ascii_lowercase tool in
    let lowered = to_ascii_lowercase text in
    if contains name write_tools
    then ToolClass.write
    else if contains name check_tools
    then ToolClass.check
    else if is_shell name
    then (if mentions lowered check_commands
        then ToolClass.check
        else if mentions lowered read_commands
        then ToolClass.read
        else ToolClass.write)
    else ToolClass.read

unfoldable pub check_passed : String → Bool
unfolding to_ascii_lowercase contains_text
check_passed text =
    let lowered = to_ascii_lowercase text in
    if mentions lowered zero_failures
    then true
    else if mentions lowered hard_fail
    then false
    else true

abbrev pub edit_of : EventRecord → String → ScratchEdit
edit_of event tool = record {
  event_id = event.id;
  tool = tool;
  files = event.files;
  timestamp = event.end_time;
}

abbrev pub check_of : EventRecord → String → ScratchCheck
check_of event tool = record {
  event_id = event.id;
  tool = tool;
  files = event.files;
  passed = check_passed event.text;
  timestamp = event.end_time;
}

abbrev pub record_as : ScratchInner → EventRecord → String → ToolClass → ScratchInner
record_as scratch event tool ToolClass.read = scratch
record_as scratch event tool ToolClass.write =
    record_edit scratch event.session_id (edit_of event tool)
record_as scratch event tool ToolClass.check =
    record_check scratch event.session_id (check_of event tool)

unfoldable pub record_tool_event : ScratchInner → EventRecord → ScratchInner
unfolding classify
record_tool_event scratch event = elim event.tool_name [
  | none ↦ scratch
  | some tool ↦ record_as scratch event tool (classify tool event.text)
]
