-- ===== src/Jev/Pairs.antt =====
-- armin-core/extraction/src/jev.rs: which two nodes are judged together, and the edge of a judgement.
use Prim.Native.String.{◌++◌ as concat, compare}
use Prim.Native.Nat.{Ordering}
use mathlib.Core.List.{foldl}
use armin.Prelude.{
  ℕ, String, Bool, true, false, not, ◌&&◌, ◌||◌, Option, none, some, List, [], ◌∷◌, ◌++◌, map,
  select, contains, lookup, insert, length, leb, ltb, if◌then◌else◌, ◌==◌, String_Eq, ℕ_Eq,
}
use armin.Types.{ArgumentNode, ArgumentEdge, EdgeType, EdgeProvenance}
use armin.Text.{Unicode, split_whitespace}
use armin.Text.Sessions.{decimal}
use armin.Engine.Config.{JevNativeConfig}
use armin.Jev.{JevAnswer, chosen, normalized, stop_words}

-- how a probability is printed, `{p:.2}`
pub record FormatFloat : Type 0 where
  pub two_places : ℕ → String

-- collecting into a set
unfoldable pub to_set : List String → List String
to_set [] = []
to_set (w ∷ ws) = let rest = to_set ws in if contains w rest then rest else w ∷ rest

abbrev pub id_leb : String → String → Bool
id_leb a b = elim (compare a b) [ Ordering.gt ↦ false | _ ↦ true ]

-- the comparison of `sort_by`: by time stamp, then by identifier
abbrev pub not_after : ArgumentNode → ArgumentNode → Bool
not_after a b = ltb a.timestamp b.timestamp || a.timestamp == b.timestamp && id_leb a.id b.id

-- a stable sort
unfoldable pub place_node : ArgumentNode → List ArgumentNode → List ArgumentNode
place_node a [] = a ∷ []
place_node a (b ∷ nodes) =
    let rest = place_node a nodes in if not_after a b then a ∷ b ∷ nodes else b ∷ rest

unfoldable pub sort_nodes : List ArgumentNode → List ArgumentNode
unfolding place_node
sort_nodes [] = []
sort_nodes (a ∷ nodes) = place_node a (sort_nodes nodes)

abbrev pub Tokens : Type 0
Tokens = List (String × List String)

-- `tokens[id]`, which every candidate has
abbrev pub or_no_tokens : Option (List String) → List String
or_no_tokens none = []
or_no_tokens (some tokens) = tokens

-- `a.intersection(&b).count()`
abbrev pub shared : List String → List String → ℕ
shared a b = length (select (λ w. contains w b) a)

abbrev pub overlap_of : Tokens → ArgumentNode → ArgumentNode → ℕ
overlap_of tokens a b =
    shared (or_no_tokens (lookup a.id tokens)) (or_no_tokens (lookup b.id tokens))

abbrev pub Pair : Type 0
Pair = ArgumentNode × (ArgumentNode × ℕ)

abbrev pub is_pair : Tokens → List String → ℕ → ArgumentNode → ArgumentNode → Bool
is_pair tokens new_ids min_overlap a b =
    not (a.id == b.id)
    && (contains a.id new_ids || contains b.id new_ids)
    && leb min_overlap (overlap_of tokens a b)

-- the inner loop, and the outer one
unfoldable pub pairs_with : Tokens → List String → ℕ → ArgumentNode → List ArgumentNode → List Pair
pairs_with tokens new_ids min_overlap a [] = []
pairs_with tokens new_ids min_overlap a (b ∷ later) =
    let rest = pairs_with tokens new_ids min_overlap a later in
    if is_pair tokens new_ids min_overlap a b then (a, (b, overlap_of tokens a b)) ∷ rest else rest

unfoldable pub pairs_of : Tokens → List String → ℕ → List ArgumentNode → List Pair
unfolding pairs_with
pairs_of tokens new_ids min_overlap [] = []
pairs_of tokens new_ids min_overlap (a ∷ later) =
    pairs_with tokens new_ids min_overlap a later ++ pairs_of tokens new_ids min_overlap later

module _ ⦃u : Unicode⦄ where
  unfoldable pub content_tokens : String → List String
  unfolding normalized split_whitespace to_set
  content_tokens text =
      to_set (select (λ w. not (contains w stop_words)) (split_whitespace (normalized text)))

  -- one entry of the map of tokens
  unfoldable pub add_tokens : Tokens → ArgumentNode → Tokens
  unfolding content_tokens
  add_tokens tokens n =
      insert n.id (content_tokens (concat n.label (concat " " n.description))) tokens

  unfoldable pub candidate_pairs : List ArgumentNode → List ArgumentNode → ℕ → List Pair
  unfolding sort_nodes add_tokens pairs_of
  candidate_pairs new_nodes recent_nodes min_overlap =
      let candidates = sort_nodes (recent_nodes ++ new_nodes) in
      pairs_of (foldl add_tokens [] candidates) (map (λ n. n.id) new_nodes) min_overlap candidates

abbrev pub Relation : Type 0
Relation = EdgeType × (ArgumentNode × ArgumentNode)

abbrev pub map_relation : String → ArgumentNode → ArgumentNode → Option Relation
map_relation choice earlier later =
    if choice == "later_supersedes_earlier"
    then some (EdgeType.supersedes, (later, earlier))
    else if choice == "later_refutes_earlier"
    then some (EdgeType.refutes, (later, earlier))
    else if choice == "later_resolves_earlier"
    then some (EdgeType.resolves, (later, earlier))
    else if choice == "later_relates_earlier"
    then some (EdgeType.relates_to, (later, earlier))
    else if choice == "earlier_supersedes_later"
    then some (EdgeType.supersedes, (earlier, later))
    else if choice == "earlier_refutes_later"
    then some (EdgeType.refutes, (earlier, later))
    else if choice == "earlier_resolves_later"
    then some (EdgeType.resolves, (earlier, later))
    else if choice == "earlier_relates_later"
    then some (EdgeType.relates_to, (earlier, later))
    else none

abbrev pub latest : ℕ → ℕ → ℕ
latest a b = if leb a b then b else a

module _ ⦃f : FormatFloat⦄ where
  abbrev pub judged_edge :
      ℕ → String → ArgumentNode → ArgumentNode → String → ℕ → Option Relation → Option ArgumentEdge
  judged_edge pair_index uuid earlier later choice p none = none
  judged_edge pair_index uuid earlier later choice p (some (edge_type, (source, target))) =
      some (record {
        id = concat (concat "jev-e" (decimal pair_index pair_index)) (concat "-" uuid);
        edge_type = edge_type;
        source_node_id = source.id;
        target_node_id = target.id;
        reasoning =
            concat (concat "jev-native: " choice) (concat " (p=" (concat (f.two_places p) ")"));
        timestamp = latest earlier.timestamp later.timestamp;
        evidence_score = none;
        provenance = if leb 8000 p then EdgeProvenance.extracted else EdgeProvenance.inferred p;
      })

  abbrev pub chosen_edge :
      ℕ
      → String
      → ArgumentNode
      → ArgumentNode
      → JevNativeConfig
      → Option (String × ℕ)
      → Option ArgumentEdge
  chosen_edge pair_index uuid earlier later cfg none = none
  chosen_edge pair_index uuid earlier later cfg (some (choice, p)) =
      if choice == "none" || ltb p cfg.edge_threshold
      then none
      else judged_edge pair_index uuid earlier later choice p (map_relation choice earlier later)

  unfoldable pub edge_from_answer :
      ℕ
      → String
      → ArgumentNode
      → ArgumentNode
      → Option JevAnswer
      → JevNativeConfig
      → Option ArgumentEdge
  unfolding decimal
  edge_from_answer pair_index uuid earlier later answer cfg =
      chosen_edge pair_index uuid earlier later cfg (chosen answer)
