-- ===== src/Store/Index.antt =====
-- armin-core/graph/src/store.rs, `index_node`: the incremental BM25 index of the node texts.
use Prim.Native.String.{◌++◌ as concat}
use mathlib.Core.List.{foldl}
use armin.Prelude.{ℕ, ◌+◌, String, none, some, List, [], ◌∷◌, map, lookup, insert, String_Eq}
use armin.Types.{ArgumentNode}
use armin.Text.{Unicode, tokenize}

pub record Bm25 : Type 0 where
  -- node identifier → term → frequency
  pub tf : List (String × List (String × ℕ))
  -- term → the number of texts that hold it
  pub df : List (String × ℕ)
  pub total_len : ℕ

abbrev pub no_index : Bm25
no_index = record { tf = []; df = []; total_len = 0 }

-- `map.get(k).unwrap_or(&0)`
abbrev pub count_of : String → List (String × ℕ) → ℕ
count_of t m = elim (lookup t m) [ none ↦ 0 | some n ↦ n ]

-- `*map.entry(t).or_insert(0) += 1`
unfoldable pub bump : List (String × ℕ) → String → List (String × ℕ)
bump m t = insert t (count_of t m + 1) m

-- `map.values().sum()`
abbrev pub values_sum : List (String × ℕ) → ℕ
values_sum [] = 0
values_sum ((t, n) ∷ m) = n + values_sum m

unfoldable pub term_frequencies : List String → List (String × ℕ)
unfolding bump
term_frequencies = foldl bump []

module _ ⦃u : Unicode⦄ where
  -- the text that is indexed for a node
  unfoldable pub node_text : ArgumentNode → String
  node_text n = u.to_lowercase (concat n.label (concat " " n.description))

  unfoldable pub index_node : Bm25 → String → String → Bm25
  unfolding term_frequencies bump
  index_node b node_id text =
      let tf : List (String × ℕ) = term_frequencies (tokenize text) in
      record {
        tf = insert node_id tf b.tf;
        df = foldl bump b.df (map (λ e. e.0) tf);
        total_len = b.total_len + values_sum tf;
      }
