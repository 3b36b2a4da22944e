-- ===== src/Tests/Reading.antt =====
-- The theorems on transcripts, settings and walks at concrete inputs.
use armin.Prelude.{
  ℕ, ◌≤◌, ◌≡◌, ◌⊎◌, false, none, some, List, [], ◌∷◌, ◌++◌, drop, length, if◌then◌else◌, ◌==◌,
  String_Eq, arith,
}
use armin.Petgraph.Listed.{listed}
use armin.Store.Walk.{all_targets, related_targets, downstream}
use armin.Store.Walk.Ends.{downstream-targets_total}
use armin.Hook.Transcript.{Bytes, string, SerdeJson, TranscriptTail, read_new}
use armin.Hook.Transcript.Resume.{prose, read_new-prose}
use armin.Engine.Config.{ParseFloat}
use armin.Tests.{ascii, answered}

-- every line that starts as an object is an assistant's message
instance abbrev pub one_message : SerdeJson
one_message = record {
  from_slice = λ line. some (record {
    kind = "assistant";
    message = some (record { content = string "done" });
    is_sidechain = false;
  });
}

-- two complete lines and the start of a third
abbrev transcript : Bytes
transcript = 123 ∷ 10 ∷ 123 ∷ 125 ∷ 10 ∷ 123 ∷ []

read_new-prose_example :
    (t : TranscriptTail) × (read_new (some transcript) 2 8 ≡ some t)
    × (t.reset ≡ false)
    × (2 ≤ t.new_cursor)
    × (t.new_cursor ≤ 6)
    × (t.texts ++ prose (drop t.new_cursor (transcript ++ 10 ∷ []))
        ≡ prose (drop 2 (transcript ++ 10 ∷ [])))
    × ((8 ≤ length t.texts) ⊎ (prose (drop t.new_cursor transcript) ≡ []))
read_new-prose_example = read_new-prose transcript (10 ∷ []) 2 8

-- a reader that takes `1` only
instance abbrev pub only_one : ParseFloat
only_one = record {
  parse_unit = λ s. if s == "1" then some 10000 else none;
  parse_unit-le = λ s n e. ground arith;
}

downstream-targets_total_example :
    ((found : List ℕ) × (downstream answered.graph (all_targets answered.graph) 0 3 ≡ some found))
    × ((found : List ℕ) × (downstream answered.graph (related_targets answered.graph) 0 3
          ≡ some found))
downstream-targets_total_example = downstream-targets_total answered.graph 0 3
