-- ===== src/Engine/Config.antt =====
-- armin-core/engine/src/state.rs: the settings of the extraction pipeline, and `from_env`; with
-- `JevNativeConfig` of armin-core/extraction/src/jev.rs, whose probabilities are in ten-thousandths.
-- The environment is a function from names to values; `parse::<f64>` is an interface.
use Prim.Native.Char.{Char, code}
use armin.Prelude.{
  ℕ, ◌+◌, ◌-◌, ◌*◌, ◌/◌, ◌^◌, ◌≤◌, ◌<◌, ◌≡◌, refl, inl, inr, String, Bool, true, not, ◌&&◌, Option,
  none, some, leb, ltb, is_some, if◌then◌else◌, ◌==◌, String_Eq, ℕ_Eq, arith, Bool-cases,
  Option-cases,
}
use armin.Tools.{to_ascii_lowercase}

pub data ExtractionMode : Type 0 where
  jev llm : ExtractionMode

pub record JevNativeConfig : Type 0 where
  pub decision_threshold : ℕ
  pub edge_threshold : ℕ
  pub edge_min_overlap : ℕ
  pub min_sentence_words : ℕ
  pub max_sentences_per_event : ℕ

pub record EngineConfig : Type 0 where
  pub batch_ms : ℕ
  pub batch_events : ℕ
  pub min_words : ℕ
  pub deterministic_tools : Bool
  pub linker : Bool
  pub extraction_mode : ExtractionMode
  pub jev_native : JevNativeConfig

abbrev pub default_jev_native : JevNativeConfig
default_jev_native = record {
  decision_threshold = 6500;
  edge_threshold = 7000;
  edge_min_overlap = 1;
  min_sentence_words = 6;
  max_sentences_per_event = 12;
}

abbrev pub default_config : EngineConfig
default_config = record {
  batch_ms = 15000;
  batch_events = 10;
  min_words = 5;
  deterministic_tools = true;
  linker = true;
  extraction_mode = jev;
  jev_native = default_jev_native;
}

-- `parse::<u64>` and `parse::<usize>`: digits, at least one, after an optional plus
abbrev pub digit : Char → Option ℕ
digit c = if leb b'0' (code c) && leb (code c) b'9' then some (code c - b'0') else none

abbrev pub add_digit : Option ℕ → ℕ → Option ℕ
add_digit none n = none
add_digit (some d) n = if ltb (n * 10 + d) (2 ^ 64) then some (n * 10 + d) else none

unfoldable pub parse_digits : ℕ → String → Option ℕ
parse_digits n String.[] = some n
parse_digits n (String.◌∷◌ c s) = elim (add_digit (digit c) n) [
  | none ↦ none
  | some m ↦ parse_digits m s
]

unfoldable pub parse : String → Option ℕ
unfolding parse_digits
parse String.[] = none
parse (String.◌∷◌ c String.[]) = parse_digits 0 (String.◌∷◌ c String.[])
parse (String.◌∷◌ c (String.◌∷◌ d s)) =
    if code c == b'+'
    then parse_digits 0 (String.◌∷◌ d s)
    else parse_digits 0 (String.◌∷◌ c (String.◌∷◌ d s))

pub record ParseFloat : Type 0 where
  -- the nearest number of ten-thousandths, after `clamp(0.0, 1.0)`
  pub parse_unit : String → Option ℕ
  pub parse_unit-le : (s : String) (n : ℕ) → parse_unit s ≡ some n → n ≤ 10000

abbrev pub Env : Type 0
Env = String → Option String

-- `if let Ok(v) = var { if let Ok(n) = parse(v) { .. } }`
abbrev pub or_else : Option ℕ → ℕ → ℕ
or_else none n = n
or_else (some m) n = m

abbrev pub parsed : (String → Option ℕ) → Option String → Option ℕ
parsed p none = none
parsed p (some v) = p v

abbrev pub at_least : ℕ → ℕ → ℕ
at_least m n = if ltb n m then m else n

abbrev pub at_least? : ℕ → Option ℕ → Option ℕ
at_least? m none = none
at_least? m (some n) = some (at_least m n)

abbrev pub or_empty : Option String → String
or_empty none = ""
or_empty (some s) = s

unfoldable pub mode_from_env : Env → ExtractionMode
unfolding to_ascii_lowercase
mode_from_env env =
    if to_ascii_lowercase (or_empty (env "ARMIN_EXTRACTION_MODE")) == "llm" then llm else jev

unfoldable pub jev_from_env : ⦃f : ParseFloat⦄ → Env → JevNativeConfig
unfolding parse
jev_from_env ⦃f⦄ env = record {
  decision_threshold =
      or_else (parsed f.parse_unit (env "ARMIN_JEV_DECISION_THRESHOLD"))
        default_jev_native.decision_threshold;
  edge_threshold =
      or_else (parsed f.parse_unit (env "ARMIN_JEV_EDGE_THRESHOLD"))
        default_jev_native.edge_threshold;
  edge_min_overlap =
      or_else (parsed parse (env "ARMIN_JEV_EDGE_MIN_OVERLAP")) default_jev_native.edge_min_overlap;
  min_sentence_words =
      or_else (parsed parse (env "ARMIN_JEV_MIN_SENTENCE_WORDS"))
        default_jev_native.min_sentence_words;
  max_sentences_per_event =
      or_else (at_least? 1 (parsed parse (env "ARMIN_JEV_MAX_SENTENCES")))
        default_jev_native.max_sentences_per_event;
}

-- the batch is halved for a high budget, unless the caller pinned it
abbrev pub halved : Env → ℕ → ℕ
halved env n =
    if or_empty (env "ARMIN_EXTRACT_BUDGET") == "high" && not (is_some (env "ARMIN_BATCH_EVENTS"))
    then at_least 3 (n / 2)
    else n

unfoldable pub from_env : ⦃f : ParseFloat⦄ → Env → EngineConfig
unfolding parse mode_from_env jev_from_env
from_env env = record {
  batch_ms = or_else (parsed parse (env "ARMIN_BATCH_MS")) default_config.batch_ms;
  batch_events =
      halved env (
        or_else (at_least? 1 (parsed parse (env "ARMIN_BATCH_EVENTS")))
          default_config.batch_events);
  min_words = or_else (parsed parse (env "ARMIN_MIN_WORDS")) default_config.min_words;
  deterministic_tools = not (is_some (env "ARMIN_NO_DETERMINISTIC"));
  linker = not (is_some (env "ARMIN_NO_LINKER"));
  extraction_mode = mode_from_env env;
  jev_native = jev_from_env env;
}

parse_digits-lt : (n m : ℕ) (s : String) → n < 2 ^ 64 → parse_digits n s ≡ some m → m < 2 ^ 64
unfolding parse_digits
parse_digits-lt n m String.[] h e = ground arith
parse_digits-lt n m (String.◌∷◌ c s) h e = elim (Option-cases (add_digit (digit c) n)) [
  | inl q ↦ cc (rw (q, parse_digits) at e)
  | inr (k, q) ↦ parse_digits-lt k m s (ground (arith, q)) (rw (q, parse_digits) at e)
]

parse-lt : (s : String) (m : ℕ) → parse s ≡ some m → m < 2 ^ 64
unfolding parse
parse-lt String.[] m e = cc
parse-lt (String.◌∷◌ c String.[]) m e = parse_digits-lt 0 m (String.◌∷◌ c String.[]) (omega arith) e
parse-lt (String.◌∷◌ c (String.◌∷◌ d s)) m e = elim (Bool-cases (code c == b'+')) [
  | inl plus ↦ parse_digits-lt 0 m (String.◌∷◌ d s) (omega arith) (rw plus at e)
  | inr other ↦ parse_digits-lt 0 m (String.◌∷◌ c (String.◌∷◌ d s)) (omega arith) (rw other at e)
]

parsed-lt : (v : Option String) (m : ℕ) → parsed parse v ≡ some m → m < 2 ^ 64
parsed-lt none m e = cc
parsed-lt (some s) m e = parse-lt s m e

parsed-le :
    ⦃f : ParseFloat⦄
    → (v : Option String) (d : ℕ) → d ≤ 10000
    → or_else (parsed f.parse_unit v) d ≤ 10000
parsed-le ⦃f⦄ none d h = h
parsed-le ⦃f⦄ (some s) d h = elim (Option-cases (f.parse_unit s)) [
  | inl e ↦ rw e h
  | inr (n, e) ↦ rw e (f.parse_unit-le s n e)
]

or_else-range :
    (o : Option ℕ) (d : ℕ)
    → ((m : ℕ) → o ≡ some m → m < 2 ^ 64)
    → 1 ≤ d
    → d < 2 ^ 64
    → (1 ≤ or_else (at_least? 1 o) d) × (or_else (at_least? 1 o) d < 2 ^ 64)
or_else-range none d h lo hi = (lo, hi)
or_else-range (some m) d h lo hi = let lt = h m refl in ground arith

-- Whatever the environment holds, but for a threshold that reads as NaN: a batch and the sentences of
-- an event are allowed at least one entry and fit in 64 bits, and the two thresholds are
-- probabilities.
from_env_bounds :
    ⦃f : ParseFloat⦄ (env : Env)
    → let c = from_env env in
      (1 ≤ c.batch_events)
      × (c.batch_events < 2 ^ 64)
      × (1 ≤ c.jev_native.max_sentences_per_event)
      × (c.jev_native.max_sentences_per_event < 2 ^ 64)
      × (c.jev_native.decision_threshold ≤ 10000)
      × (c.jev_native.edge_threshold ≤ 10000)
unfolding from_env jev_from_env
from_env_bounds env =
    let batch =
      or_else-range (parsed parse (env "ARMIN_BATCH_EVENTS")) 10
        (parsed-lt (env "ARMIN_BATCH_EVENTS")) (omega arith) (omega arith) in
    let sentences =
      or_else-range (parsed parse (env "ARMIN_JEV_MAX_SENTENCES")) 12
        (parsed-lt (env "ARMIN_JEV_MAX_SENTENCES")) (omega arith) (omega arith) in
    (
      ground (arith, batch),
      ground (arith, batch),
      sentences.0,
      sentences.1,
      parsed-le (env "ARMIN_JEV_DECISION_THRESHOLD") 6500 (omega arith),
      parsed-le (env "ARMIN_JEV_EDGE_THRESHOLD") 7000 (omega arith),
    )
