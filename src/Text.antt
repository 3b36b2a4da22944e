-- ===== src/Text.antt =====
-- armin-core/graph/src/utils.rs: the tokens of a text (`tokenize`) and the session list.
-- The Unicode tables of Rust's `char` and `str` are an interface; the code calls them and no more.
pub mod Sessions
use Prim.Native.Char.{Char}
use Prim.Native.String.{String}
use armin.Prelude.{
  Bool, true, not, ◌&&◌, List, [], ◌∷◌, map, any, select, if◌then◌else◌, ◌==◌, String_Eq, contains,
}

pub record Unicode : Type 0 where
  pub is_whitespace : Char → Bool
  pub is_alphanumeric : Char → Bool
  pub to_lowercase : String → String

abbrev pub stopwords : List String
stopwords =
    "the" ∷ "a" ∷ "an" ∷ "is" ∷ "are" ∷ "was" ∷ "were" ∷ "be" ∷ "been" ∷ "being" ∷ "have" ∷ "has"
    ∷ "had" ∷ "do" ∷ "does" ∷ "did" ∷ "will" ∷ "would" ∷ "could" ∷ "should" ∷ "may" ∷ "might"
    ∷ "shall" ∷ "can" ∷ "to" ∷ "of" ∷ "in" ∷ "for" ∷ "on" ∷ "with" ∷ "at" ∷ "by" ∷ "from" ∷ "as"
    ∷ "into" ∷ "through" ∷ "during" ∷ "before" ∷ "after" ∷ "above" ∷ "below" ∷ "between" ∷ "under"
    ∷ "again" ∷ "further" ∷ "then" ∷ "once" ∷ "here" ∷ "there" ∷ "when" ∷ "where" ∷ "why" ∷ "how"
    ∷ "all" ∷ "each" ∷ "few" ∷ "more" ∷ "most" ∷ "other" ∷ "some" ∷ "such" ∷ "no" ∷ "nor" ∷ "not"
    ∷ "only" ∷ "own" ∷ "same" ∷ "so" ∷ "than" ∷ "too" ∷ "very" ∷ "just" ∷ "because" ∷ "but" ∷ "and"
    ∷ "or" ∷ "if" ∷ "while" ∷ "about" ∷ "what" ∷ "which" ∷ "who" ∷ "whom" ∷ "this" ∷ "that"
    ∷ "these" ∷ "those" ∷ "it" ∷ "its" ∷ "they" ∷ "them" ∷ "their" ∷ "we" ∷ "our" ∷ "you" ∷ "your"
    ∷ "he" ∷ "she" ∷ "his" ∷ "her" ∷ "i" ∷ "me" ∷ "my" ∷ []

-- a word is kept unless it is empty
abbrev push_word : String → List String → List String
push_word w ws = if w == "" then ws else w ∷ ws

module _ ⦃u : Unicode⦄ where
  -- the word at the front, and the words behind it
  words : String → String × List String
  words String.[] = ("", [])
  words (String.◌∷◌ c s) =
      let (w, ws) = words s in
      if u.is_whitespace c then ("", push_word w ws) else (String.◌∷◌ c w, ws)

  -- `text.trim().is_empty()`
  abbrev pub is_blank : String → Bool
  is_blank String.[] = true
  is_blank (String.◌∷◌ c s) = u.is_whitespace c && is_blank s

  unfoldable pub split_whitespace : String → List String
  unfolding words
  split_whitespace s = let (w, ws) = words s in push_word w ws

  keep_alphanumeric : String → String
  keep_alphanumeric String.[] = ""
  keep_alphanumeric (String.◌∷◌ c s) =
      if u.is_alphanumeric c then String.◌∷◌ c (keep_alphanumeric s) else keep_alphanumeric s

  unfoldable pub tokenize : String → List String
  unfolding split_whitespace keep_alphanumeric
  tokenize text =
      select (λ w. not (w == "") && not (contains w stopwords))
        (map (λ w. u.to_lowercase (keep_alphanumeric w)) (split_whitespace text))
