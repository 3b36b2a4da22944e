-- ===== src/Jev/Sentences.antt =====
-- armin-core/extraction/src/jev.rs, `split_sentences`: a sentence is a run of the text's words.
use mathlib.Core.List.{append_assoc}
use mathlib.Core.List.Memᴰ
use armin.Prelude.{
  ℕ, ◌≤◌, ◌<◌, ◌+◌, ◌≡◌, refl, ap, sym, ◌∙◌, inl, inr, String, true, List, [], ◌∷◌, ◌++◌, Memᴰ,
  Memᴰ-concat, length, length-append, arith, Bool-cases,
}
use armin.Text.{Unicode, split_whitespace}
use armin.Engine.Import.{join_words}
use armin.Jev.{split_sentences, split_words, has_words, is_full, last_sentence, ends_sentence}

-- words that stand together in a text's words
pub record IsRun (ws all : List String) : Type 0 where
  pub before : List String
  pub after : List String
  pub at : all ≡ before ++ (ws ++ after)

module _ ⦃u : Unicode⦄ (all : List String) (min_words : ℕ) where
  -- a run of words of the text that has words enough
  pub record IsSentence (sentence : String) : Type 0 where
    pub words : List String
    pub run : IsRun words all
    pub joined : sentence ≡ join_words words
    pub enough : has_words min_words sentence ≡ true

  abbrev pub AllSentences : List String → Type 0
  AllSentences out = (s : String) → Memᴰ s out → IsSentence s

  AllSentences-push :
      (out ws : List String)
      → AllSentences out
      → IsRun ws all
      → has_words min_words (join_words ws) ≡ true
      → AllSentences (out ++ join_words ws ∷ [])
  AllSentences-push out ws h run enough s m = elim ((Memᴰ-concat s (join_words ws) out).0 m) [
    | inl r ↦ h s r
    | inr e ↦ record { words = ws; run = run; joined = e; enough = rw e enough }
  ]

  last_sentence-AllSentences :
      (out current : List String)
      → AllSentences out
      → IsRun current all
      → AllSentences (last_sentence min_words out current)
  last_sentence-AllSentences out [] h run = h
  last_sentence-AllSentences out (w ∷ current) h run =
      elim (Bool-cases (has_words min_words (join_words (w ∷ current)))) [
        | inl t ↦ rw t (AllSentences-push out (w ∷ current) h run t)
        | inr f ↦ rw f h
      ]

  module _ (max_out : ℕ) where
    split_words-AllSentences :
        (done out current words : List String)
        → all ≡ done ++ (current ++ words)
        → AllSentences out
        → AllSentences (split_words min_words max_out out current words)
    unfolding split_words
    split_words-AllSentences done out current [] at h =
        last_sentence-AllSentences out current h (record { before = done; after = []; at = at })
    split_words-AllSentences done out current (w ∷ words) at h =
        elim (Bool-cases (ends_sentence w)) [
          | inr f ↦
              rw (f, split_words)
                (split_words-AllSentences done out (current ++ w ∷ []) words longer h)
          | inl t ↦ elim (Bool-cases (has_words min_words (join_words (current ++ w ∷ [])))) [
            | inr g ↦
                rw (t, g, split_words)
                  (split_words-AllSentences (done ++ (current ++ w ∷ [])) out [] words past h)
            | inl g ↦
                elim (Bool-cases (is_full max_out (out ++ join_words (current ++ w ∷ []) ∷ []))) [
                  | inl k ↦ rw (t, g, k, split_words) (pushed g)
                  | inr k ↦
                      rw (t, g, k, split_words)
                        (split_words-AllSentences (done ++ (current ++ w ∷ []))
                          (out ++ join_words (current ++ w ∷ []) ∷ []) [] words past (pushed g))
                ]
          ]
        ]
      where
        longer : all ≡ done ++ ((current ++ w ∷ []) ++ words)
        longer = at ∙ ap (λ l. done ++ l) (sym (append_assoc current (w ∷ []) words))

        past : all ≡ (done ++ (current ++ w ∷ [])) ++ words
        past = longer ∙ sym (append_assoc done (current ++ w ∷ []) words)

        pushed :
            has_words min_words (join_words (current ++ w ∷ [])) ≡ true
            → AllSentences (out ++ join_words (current ++ w ∷ []) ∷ [])
        pushed g =
            AllSentences-push out (current ++ w ∷ []) h
              (record { before = done; after = words; at = longer }) g

    length-last_sentence :
        (out current : List String) → length (last_sentence min_words out current) ≤ length out + 1
    length-last_sentence out [] = ground arith
    length-last_sentence out (w ∷ current) =
        ground (arith, length-append out (join_words (w ∷ current) ∷ []))

    length-split_words :
        (out current words : List String)
        → length out < max_out
        → length (split_words min_words max_out out current words) ≤ max_out
    unfolding split_words
    length-split_words out current [] small = ground (arith, length-last_sentence out current)
    length-split_words out current (w ∷ words) small = elim (Bool-cases (ends_sentence w)) [
      | inr f ↦ rw (f, split_words) (length-split_words out (current ++ w ∷ []) words small)
      | inl t ↦ elim (Bool-cases (has_words min_words (join_words (current ++ w ∷ [])))) [
        | inr g ↦ rw (t, g, split_words) (length-split_words out [] words small)
        | inl g ↦ elim (Bool-cases (is_full max_out (out ++ join_words (current ++ w ∷ []) ∷ []))) [
          | inl k ↦
              rw (t, g, k, split_words)
                (ground (arith, length-append out (join_words (current ++ w ∷ []) ∷ [])))
          | inr k ↦
              rw (t, g, k, split_words)
                (length-split_words (out ++ join_words (current ++ w ∷ []) ∷ []) [] words
                  (unfold is_full in ground arith))
        ]
      ]
    ]

-- Every sentence that `split_sentences` returns is a run of the text's words, joined by blanks, and has
-- the least number of words; and there are at most as many as the limit, if it is at least one.
pub split_sentences_lem :
    ⦃u : Unicode⦄ (text : String) (min_words max_out : ℕ)
    → 1 ≤ max_out
    → AllSentences (split_whitespace text) min_words (split_sentences text min_words max_out)
      × (length (split_sentences text min_words max_out) ≤ max_out)
unfolding split_sentences
split_sentences_lem text min_words max_out some_out = (
  split_words-AllSentences (split_whitespace text) min_words max_out [] [] []
      (split_whitespace text) refl (λ s m. absurd (Memᴰ.not-nil m)),
  length-split_words (split_whitespace text) min_words max_out [] [] (split_whitespace text)
      (ground arith),
)
