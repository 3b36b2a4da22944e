-- ===== src/Jev/Kept.antt =====
-- armin-core/extraction/src/jev.rs, `build_native_nodes`: the sentences that are kept, and the nodes of one event.
use mathlib.Core.List.{map-append}
use armin.Prelude.{
  ℕ, suc, ◌+◌, get_elem?, ◌≡◌, refl, ap, sym, ◌∙◌, subst, inl, inr, String, true, false, Option,
  none, some, List, [], ◌∷◌, ◌++◌, Memᴰ, Memᴰ-concat, map, lookup, contains, contains-append,
  unique, unique-concat, ◌==◌, String_Eq, arith, eq_iff, Bool-cases,
}
use armin.Prelude.Results.{ok}
use armin.Types.{ArgumentNode, NodeType}
use armin.Text.{Unicode}
use armin.Tools.{EventRecord}
use armin.Engine.Config.{JevNativeConfig}
use armin.Jev.{
  Answers, chosen, kept_type, keep_sentence, type_key, normalized, native_node, build_native_nodes,
}
use armin.Jev.Requests.{requests, sentences_of}
use armin.Jev.Choices.{Chooses, kept_type-Chooses}
use armin.Jev.Batch.{Replies}

-- a sentence of an event, at its position, with its type and the type's probability
pub record Judgement : Type 0 where
  pub event : EventRecord
  pub index : ℕ
  pub sentence : String
  pub kind : NodeType
  pub probability : ℕ

module _ ⦃u : Unicode⦄ (replies : Replies) (cfg : JevNativeConfig) (batch : List EventRecord) where
  abbrev pub node_of : Judgement → ArgumentNode
  node_of j = native_node j.event j.index j.sentence j.kind j.probability

  abbrev pub wording : Judgement → String
  wording j = normalized j.sentence

  -- what the service answered to the request about this event of the batch
  pub record IsAnswered (event : EventRecord) (answers : Answers) : Type 0 where
    pub earlier : List EventRecord
    pub later : List EventRecord
    pub event_at : batch ≡ earlier ++ event ∷ later
    pub asked : replies (requests cfg earlier) ≡ ok answers

  -- the sentence is one of an event of the batch, and the answer about it chooses the type
  pub record IsKept (j : Judgement) : Type 0 where
    pub answers : Answers
    pub event_in : IsAnswered j.event answers
    pub sentence_at : get_elem? (sentences_of cfg j.event) j.index ≡ some j.sentence
    pub chooses :
        Chooses cfg.decision_threshold (lookup (type_key j.index) answers) j.kind j.probability
    pub worded : (wording j == "") ≡ false

  -- the nodes are those of judgements, no two of which have one wording
  pub record HasSources (seen : List String) (nodes : List ArgumentNode) : Type 0 where
    pub judgements : List Judgement
    pub nodes_of : nodes ≡ map node_of judgements
    pub wordings : (x : String) → contains x seen ≡ contains x (map wording judgements)
    pub distinct : unique (map wording judgements) ≡ true
    pub kept : (j : Judgement) → Memᴰ j judgements → IsKept j

  HasSources-push :
      (seen : List String) (nodes : List ArgumentNode) (j : Judgement)
      → HasSources seen nodes
      → contains (wording j) seen ≡ false
      → IsKept j
      → HasSources (wording j ∷ seen) (nodes ++ node_of j ∷ [])
  HasSources-push seen nodes j h fresh kept = record {
    judgements = h.judgements ++ j ∷ [];
    nodes_of =
        ap (λ l. l ++ node_of j ∷ []) h.nodes_of ∙ sym (map-append node_of h.judgements (j ∷ []));
    wordings = λ x. rw (map-append wording h.judgements (j ∷ [])) (
        ground (
          arith,
          h.wordings x,
          contains-append x (map wording h.judgements) (wording j ∷ []),
          eq_iff (wording j) x,
        ));
    distinct = rw (map-append wording h.judgements (j ∷ [])) (
        ground (
          arith,
          unique-concat (map wording h.judgements) (wording j),
          h.distinct,
          h.wordings (wording j),
          fresh,
        ));
    kept = λ k m. elim ((Memᴰ-concat k j h.judgements).0 m) [
      | inl r ↦ h.kept k r
      | inr e ↦ subst IsKept (sym e) kept
    ];
  }

  keep_sentence-HasSources :
      (event : EventRecord) (answers : Answers) (i : ℕ) (sentence : String) (seen : List String)
      (nodes : List ArgumentNode)
      → IsAnswered event answers
      → get_elem? (sentences_of cfg event) i ≡ some sentence
      → HasSources seen nodes
      → let answer = lookup (type_key i) answers in
        let found = keep_sentence event i sentence (seen, nodes) (kept_type cfg (chosen answer)) in
        HasSources found.0 found.1
  keep_sentence-HasSources event answers i sentence seen nodes event_in sentence_at h =
      go (kept_type cfg (chosen (lookup (type_key i) answers))) refl
    where
      go :
          (o : Option (NodeType × ℕ))
          → kept_type cfg (chosen (lookup (type_key i) answers)) ≡ o
          → HasSources
              (keep_sentence event i sentence (seen, nodes) o).0
              (keep_sentence event i sentence (seen, nodes) o).1
      go none e = h
      go (some (t, p)) e = elim (Bool-cases (normalized sentence == "")) [
        | inl a ↦ rw a h
        | inr a ↦ elim (Bool-cases (contains (normalized sentence) seen)) [
          | inl c ↦ rw (a, c) h
          | inr c ↦
              rw (a, c)
                (HasSources-push seen nodes
                  (record {
                    event = event;
                    index = i;
                    sentence = sentence;
                    kind = t;
                    probability = p;
                  })
                  h c
                  (record {
                    answers = answers;
                    event_in = event_in;
                    sentence_at = sentence_at;
                    chooses = kept_type-Chooses cfg (lookup (type_key i) answers) t p e;
                    worded = a;
                  }))
        ]
      ]

  pub build_native_nodes-HasSources :
      (event : EventRecord) (answers : Answers) (i : ℕ) (found : List String × List ArgumentNode)
      (sentences : List String)
      → IsAnswered event answers
      → ((k : ℕ) (s : String)
          → get_elem? sentences k ≡ some s
          → get_elem? (sentences_of cfg event) (i + k) ≡ some s)
      → HasSources found.0 found.1
      → HasSources
          (build_native_nodes event answers cfg i found sentences).0
          (build_native_nodes event answers cfg i found sentences).1
  unfolding build_native_nodes
  build_native_nodes-HasSources event answers i found [] event_in at h = h
  build_native_nodes-HasSources event answers i found (s ∷ sentences) event_in at h =
      let here : i + 0 ≡ i = omega arith in
      build_native_nodes-HasSources event answers (suc i)
        (keep_sentence event i s found (kept_type cfg (chosen (lookup (type_key i) answers))))
        sentences event_in
        (λ k x e.
          let next : suc i + k ≡ i + suc k = omega arith in
          ap (get_elem? (sentences_of cfg event)) next ∙ at (suc k) x e)
        (keep_sentence-HasSources event answers i s found.0 found.1 event_in
          (ap (get_elem? (sentences_of cfg event)) (sym here) ∙ at 0 s refl) h)
