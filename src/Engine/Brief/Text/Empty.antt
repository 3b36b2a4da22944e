-- ===== src/Engine/Brief/Text/Empty.antt =====
-- armin-core/engine/src/brief.rs, `build_brief`: when there is nothing to say.
use Prim.Native.String.compare
use Prim.Native.String.{◌++◌ as concat}
use text.Mathlib.TextLemmas.{cons-append}
use mathlib.Core.List.{filter_map, reverse-cons}
use armin.Prelude.{
  ℕ, suc, ◌-◌, ◌^◌, ◌≡◌, refl, ap, sym, ◌∙◌, inl, inr, String, Bool, true, false, not, ◌&&◌, ◌||◌,
  List, [], ◌∷◌, ◌++◌, map, any, select, take, reverse, length, leb, ◌==◌, String_Eq, ℕ_Eq, arith,
  Bool-cases,
}
use armin.Types.{ArgumentNode}
use armin.Text.Sessions.{decimal}
use armin.Types.Scratch.{DebtItem}
use armin.Petgraph.{StableGraph}
use armin.Store.{get_node}
use armin.Store.Query.{nodes_where}
use armin.Decisions.{Decision, extract_decisions}
use armin.Engine.{EngineState}
use armin.Engine.Brief.{choose_decisions, fill, is_decided}
use armin.Engine.Brief.Text.{
  section, has_type, is_failing, is_active_rule, is_binding, is_rule, rules_first, decision_section,
  rule_section, debt_section, debt_items, binding_section, binding_line, decision_line, item_line,
  brief_sections, framed, join_lines, node_count, build_brief,
}

abbrev pub is_nil {ℓ} : {A : Type ℓ} → List A → Bool
is_nil [] = true
is_nil (a ∷ l) = false

is_nil-append {ℓ} : {A : Type ℓ} (l m : List A) → is_nil (l ++ m) ≡ (is_nil l && is_nil m)
is_nil-append [] m = refl
is_nil-append (a ∷ l) m = refl

is_nil-both {ℓ} :
    {A : Type ℓ} {a b : Bool} (l m : List A)
    → is_nil l ≡ a
    → is_nil m ≡ b
    → is_nil (l ++ m) ≡ (a && b)
is_nil-both l m p q = is_nil-append l m ∙ (λ i. p i && q i)

is_nil-map {ℓ} : {A B : Type ℓ} (f : A → B) (l : List A) → is_nil (map f l) ≡ is_nil l
is_nil-map f [] = refl
is_nil-map f (a ∷ l) = refl

is_nil-take {ℓ} : {A : Type ℓ} (n : ℕ) (l : List A) → is_nil (take (suc n) l) ≡ is_nil l
is_nil-take n [] = refl
is_nil-take n (a ∷ l) = refl

is_nil-section :
    (name : String) (count : ℕ) (lines : List String)
    → is_nil (section name count lines) ≡ is_nil lines
is_nil-section name count [] = refl
is_nil-section name count (l ∷ lines) = refl

-- the list does not shrink
is_nil-fill : (c : Decision) (chosen l : List Decision) → is_nil (fill (c ∷ chosen) l) ≡ false
unfolding fill
is_nil-fill c chosen [] = refl
is_nil-fill c chosen (d ∷ l) = elim (Bool-cases (leb 6 (length (c ∷ chosen)))) [
  | inl t ↦ rw (t, fill) refl
  | inr t ↦ elim (Bool-cases (any (λ (x : Decision). x.label == d.label) (c ∷ chosen))) [
    | inl u ↦ rw (t, u, fill) (is_nil-fill c chosen l)
    | inr u ↦ rw (t, u, fill) (is_nil-fill c (chosen ++ d ∷ []) l)
  ]
]

is_nil-fill_from : (chosen l : List Decision) → is_nil (fill chosen l) ≡ (is_nil chosen && is_nil l)
unfolding fill
is_nil-fill_from [] [] = refl
is_nil-fill_from [] (d ∷ l) = is_nil-fill d [] l
is_nil-fill_from (c ∷ chosen) l = is_nil-fill c chosen l

is_nil-reverse : (l : List Decision) → is_nil (reverse l) ≡ is_nil l
is_nil-reverse [] = refl
is_nil-reverse (d ∷ l) =
    ap is_nil (reverse-cons d l) ∙ is_nil-append (reverse l) (d ∷ []) ∙ ground arith

is_nil-choose_decisions : (l : List Decision) → is_nil (choose_decisions l) ≡ is_nil l
unfolding choose_decisions
is_nil-choose_decisions [] = refl
is_nil-choose_decisions (d ∷ l) =
    is_nil-take 5 (fill (select is_decided (d ∷ l)) (reverse (d ∷ l)))
    ∙ is_nil-fill_from (select is_decided (d ∷ l)) (reverse (d ∷ l))
    ∙ ground (arith, is_nil-reverse (d ∷ l))

is_nil-rules_first : (l : List ArgumentNode) → is_nil (rules_first l) ≡ is_nil l
is_nil-rules_first [] = refl
is_nil-rules_first (n ∷ l) = elim (Bool-cases (is_rule n)) [
  | inl t ↦ rw t refl
  | inr t ↦
      rw t (is_nil-append (select is_rule l) (n ∷ select (λ m. not (is_rule m)) l) ∙ ground arith)
]

select-none :
    (p : ArgumentNode → Bool) (l : List ArgumentNode)
    → ((n : ArgumentNode) → p n ≡ false)
    → select p l ≡ []
select-none p [] no_one = refl
select-none p (n ∷ l) no_one = ground (arith, no_one n, select-none p l no_one)

any-none : (l : List String) → any (λ f. false) l ≡ false
any-none [] = refl
any-none (f ∷ l) = any-none l

module _ ⦃pg : StableGraph⦄ (state : EngineState) (now : ℕ) (active_files : List String) where
  abbrev pub rules : List ArgumentNode
  rules = nodes_where state.graph 3 is_active_rule

  abbrev pub binding : List ArgumentNode
  binding = nodes_where state.graph (2 ^ 64 - 1) (is_binding active_files)

  abbrev pub items_of : (DebtItem → Bool) → List DebtItem
  items_of p = select p (debt_items state now)

  -- nothing that a section would show
  abbrev pub has_nothing : Bool
  has_nothing =
      is_nil (extract_decisions state.graph)
      && (is_nil rules
          && (is_nil (items_of (has_type "UnresolvedOpenItem"))
              && (is_nil binding
                  && (is_nil (items_of (has_type "UnverifiedChange"))
                      && is_nil (items_of is_failing)))))

is_nil-debt_section :
    ⦃pg : StableGraph⦄ (name : String) (limit : ℕ) (items : List DebtItem)
    → is_nil (debt_section name (suc limit) items) ≡ is_nil items
unfolding debt_section
is_nil-debt_section name limit [] = refl
is_nil-debt_section name limit (i ∷ items) = refl

concat-filled : (a b : String) → (a == "") ≡ false → (concat a b == "") ≡ false
concat-filled String.[] b e = absurd (ground (arith, e))
concat-filled (String.◌∷◌ c a) b e =
    ap (λ t. t == "") (cons-append c a b) ∙ rw (compare.cons-nil c (concat a b)) refl

starts_filled : (a b c : String) → (a == "") ≡ false → (concat (concat a b) c == "") ≡ false
starts_filled a b c e = concat-filled (concat a b) c (concat-filled a b e)

module _ ⦃pg : StableGraph⦄ (state : EngineState) where
  is_nil-binding_section :
      (active_files : List String)
      → is_nil (binding_section state active_files) ≡ is_nil (binding state 0 active_files)
  unfolding binding_section nodes_where
  is_nil-binding_section [] = sym (
      ap is_nil (
        ap (take (2 ^ 64 - 1)) (
          select-none (is_binding []) (filter_map (get_node state.graph) state.graph.node_order)
            (λ n. rw (any-none n.files) (ground arith))))
      ∙ refl)
  is_nil-binding_section (f ∷ files) =
      let nodes = nodes_where state.graph (2 ^ 64 - 1) (is_binding (f ∷ files)) in
      is_nil-section "Binding here" (length (take 5 (rules_first nodes)))
        (map binding_line (take 5 (rules_first nodes)))
      ∙ is_nil-map binding_line (take 5 (rules_first nodes))
      ∙ is_nil-take 4 (rules_first nodes)
      ∙ is_nil-rules_first nodes

  is_nil-brief_sections :
      (now : ℕ) (active_files : List String)
      → is_nil (brief_sections state now active_files) ≡ has_nothing state now active_files
  unfolding brief_sections decision_section rule_section
  is_nil-brief_sections now active_files =
      is_nil-both (decision_section (extract_decisions state.graph)) _
        (decisions_shown (extract_decisions state.graph))
        (is_nil-both (rule_section state) _ rules_shown (
          is_nil-both
            (debt_section "Open items" 3
              (items_of state now active_files (has_type "UnresolvedOpenItem")))
            _
            (is_nil-debt_section "Open items" 2
              (items_of state now active_files (has_type "UnresolvedOpenItem")))
            (is_nil-both (binding_section state active_files) _
              (is_nil-binding_section active_files)
              (is_nil-both
                (debt_section "Unverified edits" 3
                  (items_of state now active_files (has_type "UnverifiedChange")))
                _
                (is_nil-debt_section "Unverified edits" 2
                  (items_of state now active_files (has_type "UnverifiedChange")))
                (is_nil-debt_section "Failing checks" 1
                  (items_of state now active_files is_failing))))))
    where
      decisions_shown : (l : List Decision) → is_nil (decision_section l) ≡ is_nil l
      decisions_shown l =
          is_nil-section "Decisions" (length l) (map decision_line (choose_decisions l))
          ∙ is_nil-map decision_line (choose_decisions l)
          ∙ is_nil-choose_decisions l

      rules_shown : is_nil (rule_section state) ≡ is_nil (rules state now active_files)
      rules_shown =
          is_nil-section "Rules" (length (rules state now active_files))
            (map (λ (n : ArgumentNode). item_line n.label) (rules state now active_files))
          ∙ is_nil-map (λ (n : ArgumentNode). item_line n.label) (rules state now active_files)

  is_nil-framed :
      (nodes edges : ℕ) (sections : List String)
      → (framed nodes edges sections == "") ≡ is_nil sections
  is_nil-framed nodes edges [] = refl
  is_nil-framed nodes edges (s ∷ sections) =
      starts_filled (concat "<reasoning-state nodes=\"" (decimal nodes nodes))
        (concat "\" edges=\"" (decimal edges edges))
        (concat (concat "\">\n" (join_lines (s ∷ sections))) "\n</reasoning-state>")
        (concat-filled "<reasoning-state nodes=\"" (decimal nodes nodes) refl)

  -- The brief is empty exactly if the graph has no node, or there is nothing to show: no decision, no
  -- active rule, no open item, no active rule or decision that covers an active file, no unverified edit
  -- and no failing check.
  pub build_brief-empty :
      (now : ℕ) (active_files : List String)
      → (build_brief state now active_files == "")
        ≡ (node_count state == 0 || has_nothing state now active_files)
  unfolding build_brief
  build_brief-empty now active_files = elim (Bool-cases (node_count state == 0)) [
    | inl t ↦ rw (t, build_brief) refl
    | inr t ↦
        rw (t, build_brief)
          (is_nil-framed (node_count state) (length (pg.edge_references state.graph.graph))
              (brief_sections state now active_files)
            ∙ is_nil-brief_sections now active_files)
  ]
