-- ===== src/Engine/Brief/Text.antt =====
-- armin-core/engine/src/brief.rs, `build_brief`: the text of a brief, section by section; and `brief` of
-- routes.rs.
pub mod Empty
use Prim.Native.Char.{code}
use Prim.Native.String.{◌++◌ as concat}
use armin.Prelude.{
  ℕ, zero, suc, ◌-◌, ◌^◌, String, Bool, true, false, not, ◌&&◌, ◌||◌, Option, none, some, List, [],
  ◌∷◌, ◌++◌, map, any, select, take, length, leb, if◌then◌else◌, ◌==◌, String_Eq, ℕ_Eq,
}
use armin.Types.{ArgumentNode, NodeType, NodeStatus, NodeType_Eq, NodeStatus_Eq}
use armin.Types.Scratch.{DebtItem, DebtReport}
use armin.Text.{Unicode}
use armin.Text.Sessions.{decimal}
use armin.Tools.{to_ascii_lowercase}
use armin.Petgraph.{StableGraph}
use armin.Store.Query.{nodes_where}
use armin.Scratch.{snapshot}
use armin.Debt.{compute_debt}
use armin.Decisions.{Decision, extract_decisions}
use armin.Engine.{EngineState}
use armin.Engine.Import.{trim, trim_start_by, trim_end_by}
use armin.Engine.Brief.{choose_decisions}
use armin.Jev.{take_chars, char_count}

unfoldable pub truncate_text : String → String
unfolding take_chars char_count
truncate_text s = if leb (char_count s) 110 then s else concat (take_chars 110 s) "…"

-- `lines.join("\n")`
unfoldable pub join_lines : List String → String
join_lines [] = ""
join_lines (l ∷ []) = l
join_lines (l ∷ m ∷ lines) = concat l (concat "\n" (join_lines (m ∷ lines)))

-- a section, unless it has no line
abbrev pub section : String → ℕ → List String → List String
section name count [] = []
section name count (l ∷ lines) =
    concat (concat name (concat " (" (decimal count count)))
      (concat "):\n" (join_lines (l ∷ lines)))
    ∷ []

abbrev pub item_line : String → String
item_line text = concat "- " (truncate_text text)

abbrev pub marked_line : String → String → String
marked_line mark text = concat (concat "- [" mark) (concat "] " (truncate_text text))

-- `debt_type.eq_ignore_ascii_case(kind)`
abbrev pub has_type : String → DebtItem → Bool
has_type kind item = to_ascii_lowercase item.debt_type == to_ascii_lowercase kind

abbrev pub is_failing : DebtItem → Bool
is_failing item = has_type "FailedVerification" item || has_type "RuleViolation" item

-- `text.ends_with(p)`
unfoldable pub has_suffix : String → String → Bool
has_suffix p String.[] = p == ""
has_suffix p (String.◌∷◌ c t) = let rest = has_suffix p t in String.◌∷◌ c t == p || rest

abbrev pub is_rule : ArgumentNode → Bool
is_rule n = n.node_type == NodeType.rule

abbrev pub is_active_rule : ArgumentNode → Bool
is_active_rule n = is_rule n && n.status == NodeStatus.active

abbrev pub same_file : String → String → Bool
same_file f a = a == f || has_suffix a f || has_suffix f a

abbrev pub is_binding : List String → ArgumentNode → Bool
is_binding active_files n =
    n.status == NodeStatus.active
    && (is_rule n || n.node_type == NodeType.decision)
    && any (λ f. any (same_file f) active_files) n.files

-- a stable sort by a key of two values, rules first
abbrev pub rules_first : List ArgumentNode → List ArgumentNode
rules_first nodes = select is_rule nodes ++ select (λ n. not (is_rule n)) nodes

abbrev pub binding_line : ArgumentNode → String
binding_line n = marked_line (if is_rule n then "Rule" else "Decision") n.label

abbrev pub decision_line : Decision → String
decision_line d = marked_line d.status d.label

abbrev pub debt_lines : ℕ → List DebtItem → List String
debt_lines limit items = map (λ (i : DebtItem). item_line i.description) (take limit items)

module _ ⦃pg : StableGraph⦄ where
  unfoldable pub decision_section : List Decision → List String
  unfolding choose_decisions truncate_text join_lines decimal
  decision_section decisions =
      section "Decisions" (length decisions) (map decision_line (choose_decisions decisions))

  unfoldable pub rule_section : EngineState → List String
  unfolding nodes_where truncate_text join_lines decimal
  rule_section state =
      let rules = nodes_where state.graph 3 is_active_rule in
      section "Rules" (length rules) (map (λ (n : ArgumentNode). item_line n.label) rules)

  unfoldable pub debt_section : String → ℕ → List DebtItem → List String
  unfolding truncate_text join_lines decimal
  debt_section name limit items = section name (length items) (debt_lines limit items)

  -- no file is active: nothing binds
  unfoldable pub binding_section : EngineState → List String → List String
  unfolding nodes_where truncate_text join_lines decimal has_suffix
  binding_section state [] = []
  binding_section state (f ∷ active_files) =
      let binding =
        take 5
          (rules_first (nodes_where state.graph (2 ^ 64 - 1) (is_binding (f ∷ active_files)))) in
      section "Binding here" (length binding) (map binding_line binding)

  abbrev pub debt_items : EngineState → ℕ → List DebtItem
  debt_items state now =
      (compute_debt state.graph state.current_session_idx now
        (some (snapshot state.scratch state.current_session_id))).items

  unfoldable pub brief_sections : EngineState → ℕ → List String → List String
  unfolding decision_section rule_section debt_section binding_section compute_debt
      extract_decisions to_ascii_lowercase snapshot
  brief_sections state now active_files =
      let items = debt_items state now in
      decision_section (extract_decisions state.graph)
      ++ (rule_section state
          ++ (debt_section "Open items" 3 (select (has_type "UnresolvedOpenItem") items)
              ++ (binding_section state active_files
                  ++ (debt_section "Unverified edits" 3 (select (has_type "UnverifiedChange") items)
                      ++ debt_section "Failing checks" 2 (select is_failing items)))))

  abbrev pub framed : ℕ → ℕ → List String → String
  framed node_count edges [] = ""
  framed node_count edges (s ∷ sections) =
      concat
        (concat (concat "<reasoning-state nodes=\"" (decimal node_count node_count))
          (concat "\" edges=\"" (decimal edges edges)))
        (concat (concat "\">\n" (join_lines (s ∷ sections))) "\n</reasoning-state>")

  abbrev pub node_count : EngineState → ℕ
  node_count state = length (pg.node_references state.graph.graph)

  unfoldable pub build_brief : EngineState → ℕ → List String → String
  unfolding brief_sections join_lines decimal
  build_brief state now active_files =
      if node_count state == 0
      then ""
      else framed (node_count state) (length (pg.edge_references state.graph.graph))
          (brief_sections state now active_files)

-- `f.split(',')`: the first piece, and those behind it
unfoldable pub comma_pieces : String → String × List String
comma_pieces String.[] = ("", [])
comma_pieces (String.◌∷◌ c s) =
    let rest = comma_pieces s in
    if code c == b',' then ("", rest.0 ∷ rest.1) else (String.◌∷◌ c rest.0, rest.1)

module _ ⦃pg : StableGraph⦄ ⦃u : Unicode⦄ where
  abbrev pub active_files_of : Option String → List String
  active_files_of none = []
  active_files_of (some files) =
      let pieces = comma_pieces files in
      select (λ p. not (p == "")) (map trim (pieces.0 ∷ pieces.1))

  -- the brief, and whether it is empty
  unfoldable pub brief : EngineState → ℕ → Option String → String × Bool
  unfolding build_brief comma_pieces trim_start_by trim_end_by
  brief state now files =
      let text = build_brief state now (active_files_of files) in (text, text == "")
