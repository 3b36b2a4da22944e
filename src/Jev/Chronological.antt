-- ===== src/Jev/Chronological.antt =====
-- armin-core/extraction/src/jev.rs, `candidate_pairs`: which pairs there are, and in which order a pair is.
use mathlib.Core.List.{foldl}
use mathlib.Core.List.Memᴰ
use armin.Prelude.{
  ℕ, ◌≤◌, ◌≡◌, ◌⊎◌, refl, ap, sym, ◌∙◌, subst, inl, inr, String, Bool, true, false, List, [], ◌∷◌,
  ◌++◌, Memᴰ, map, if◌then◌else◌, ◌==◌, contains, ◌||◌, String_Eq, ℕ_Eq, arith, eq_iff,
}
use armin.Types.{ArgumentNode}
use armin.Text.{Unicode}
use armin.Jev.Pairs.{
  Tokens, Pair, sort_nodes, is_pair, overlap_of, pairs_with, pairs_of, add_tokens, candidate_pairs,
}
use armin.Jev.Sorted.{IsChronological, AllAfter-mem, sort_nodes-IsChronological, mem-sort_nodes}

module _ (tokens : Tokens) (new_ids : List String) (min_overlap : ℕ) where
  -- a pair that was found among some nodes
  record IsTested (nodes : List ArgumentNode) (p : Pair) : Type 0 where
    pub earlier : Memᴰ p.0 nodes
    pub later : Memᴰ p.1.0 nodes
    pub order : p.0.timestamp ≤ p.1.0.timestamp
    pub test : is_pair tokens new_ids min_overlap p.0 p.1.0 ≡ true
    pub overlap : p.1.1 ≡ overlap_of tokens p.0 p.1.0

  record IsWith (a : ArgumentNode) (nodes : List ArgumentNode) (p : Pair) : Type 0 where
    pub earlier : p.0 ≡ a
    pub later : Memᴰ p.1.0 nodes
    pub test : is_pair tokens new_ids min_overlap a p.1.0 ≡ true
    pub overlap : p.1.1 ≡ overlap_of tokens a p.1.0

  pairs_with-IsWith :
      (a : ArgumentNode) (nodes : List ArgumentNode) (p : Pair)
      → Memᴰ p (pairs_with tokens new_ids min_overlap a nodes)
      → IsWith a nodes p
  unfolding pairs_with
  pairs_with-IsWith a [] p m = absurd (Memᴰ.not-nil m)
  pairs_with-IsWith a (b ∷ nodes) p m =
      let rest = pairs_with-IsWith a nodes p in
      go (is_pair tokens new_ids min_overlap a b) refl rest m
    where
      wider : IsWith a nodes p → IsWith a (b ∷ nodes) p
      wider w = record {
        earlier = w.earlier;
        later = Memᴰ.tail w.later;
        test = w.test;
        overlap = w.overlap;
      }

      go :
          (t : Bool)
          → is_pair tokens new_ids min_overlap a b ≡ t
          → (Memᴰ p (pairs_with tokens new_ids min_overlap a nodes) → IsWith a nodes p)
          → Memᴰ p (
              if t
              then (a, (b, overlap_of tokens a b)) ∷ pairs_with tokens new_ids min_overlap a nodes
              else pairs_with tokens new_ids min_overlap a nodes)
          → IsWith a (b ∷ nodes) p
      go true e rest m = elim (Memᴰ.cases_cons m) [
        | inl q ↦ record {
          earlier = ap (λ (p : Pair). p.0) q;
          later = Memᴰ.head (ap (λ (p : Pair). p.1.0) q);
          test = ap (λ (p : Pair). is_pair tokens new_ids min_overlap a p.1.0) q ∙ e;
          overlap =
              ap (λ (p : Pair). p.1.1) q ∙ ap (λ (p : Pair). overlap_of tokens a p.1.0) (sym q);
        }
        | inr r ↦ wider (rest r)
      ]
      go false e rest m = wider (rest m)

  pairs_of-IsTested :
      (nodes : List ArgumentNode) (p : Pair)
      → IsChronological nodes
      → Memᴰ p (pairs_of tokens new_ids min_overlap nodes)
      → IsTested nodes p
  unfolding pairs_of
  pairs_of-IsTested [] p h m = absurd (Memᴰ.not-nil m)
  pairs_of-IsTested (a ∷ nodes) p h m =
      elim (Memᴰ.append_cases (pairs_with tokens new_ids min_overlap a nodes) m) [
        | inl q ↦
            let w = pairs_with-IsWith a nodes p q in
            record {
              earlier = Memᴰ.head w.earlier;
              later = Memᴰ.tail w.later;
              order = rw w.earlier (AllAfter-mem a.timestamp nodes p.1.0 h.0 w.later);
              test = rw w.earlier w.test;
              overlap = rw w.earlier w.overlap;
            }
        | inr q ↦
            let r = pairs_of-IsTested nodes p h.1 q in
            record {
              earlier = Memᴰ.tail r.earlier;
              later = Memᴰ.tail r.later;
              order = r.order;
              test = r.test;
              overlap = r.overlap;
            }
      ]

  pairs_with-all :
      (a b : ArgumentNode) (nodes : List ArgumentNode)
      → Memᴰ b nodes
      → is_pair tokens new_ids min_overlap a b ≡ true
      → Memᴰ (a, (b, overlap_of tokens a b)) (pairs_with tokens new_ids min_overlap a nodes)
  unfolding pairs_with
  pairs_with-all a b [] m test = absurd (Memᴰ.not-nil m)
  pairs_with-all a b (c ∷ nodes) m test =
      go (is_pair tokens new_ids min_overlap a c) refl (Memᴰ.cases_cons m)
        (λ r. pairs_with-all a b nodes r test)
    where
      go :
          (t : Bool)
          → is_pair tokens new_ids min_overlap a c ≡ t
          → (b ≡ c) ⊎ Memᴰ b nodes
          → (Memᴰ b nodes
              → Memᴰ
                  (a, (b, overlap_of tokens a b))
                  (pairs_with tokens new_ids min_overlap a nodes))
          → Memᴰ
              (a, (b, overlap_of tokens a b))
              (if t
                then (a, (c, overlap_of tokens a c)) ∷ pairs_with tokens new_ids min_overlap a nodes
                else pairs_with tokens new_ids min_overlap a nodes)
      go true e (inl q) rest =
          Memᴰ.head (ap (λ (x : ArgumentNode). (a, (x, overlap_of tokens a x))) q)
      go true e (inr r) rest = Memᴰ.tail (rest r)
      go false e (inl q) rest =
          absurd (cc (sym test ∙ ap (is_pair tokens new_ids min_overlap a) q ∙ e))
      go false e (inr r) rest = rest r

  -- the pair of two nodes, in the one order or in the other
  abbrev pub IsJoined : List Pair → ArgumentNode → ArgumentNode → Type 0
  IsJoined pairs a b =
      Memᴰ (a, (b, overlap_of tokens a b)) pairs ⊎ Memᴰ (b, (a, overlap_of tokens b a)) pairs

  pairs_of-IsJoined :
      (a b : ArgumentNode) (nodes : List ArgumentNode)
      → is_pair tokens new_ids min_overlap a b ≡ true
      → is_pair tokens new_ids min_overlap b a ≡ true
      → Memᴰ a nodes
      → Memᴰ b nodes
      → IsJoined (pairs_of tokens new_ids min_overlap nodes) a b
  unfolding pairs_of
  pairs_of-IsJoined a b [] t s m n = absurd (Memᴰ.not-nil m)
  pairs_of-IsJoined a b (c ∷ nodes) t s m n = elim (Memᴰ.cases_cons m) [
    | inl p ↦ elim (Memᴰ.cases_cons n) [
      | inl q ↦
          absurd (ground (arith, t, ap (λ (x : ArgumentNode). x.id) (p ∙ sym q), eq_iff a.id b.id))
      | inr r ↦ inl (
          Memᴰ.append_left _ (
            subst
              (λ x.
                Memᴰ (a, (b, overlap_of tokens a b))
                  (pairs_with tokens new_ids min_overlap x nodes))
              p (pairs_with-all a b nodes r t)))
    ]
    | inr k ↦ elim (Memᴰ.cases_cons n) [
      | inl q ↦ inr (
          Memᴰ.append_left _ (
            subst
              (λ x.
                Memᴰ (b, (a, overlap_of tokens b a))
                  (pairs_with tokens new_ids min_overlap x nodes))
              q (pairs_with-all b a nodes k s)))
      | inr r ↦ elim (pairs_of-IsJoined a b nodes t s k r) [
        | inl j ↦ inl (Memᴰ.append_right (pairs_with tokens new_ids min_overlap c nodes) j)
        | inr j ↦ inr (Memᴰ.append_right (pairs_with tokens new_ids min_overlap c nodes) j)
      ]
    ]
  ]

module _ (tokens : Tokens) (new_ids : List String) (min_overlap : ℕ) where
  -- two nodes, of which one is new at least, that share words enough
  pub record IsPaired (nodes : List ArgumentNode) (p : Pair) : Type 0 where
    pub earlier : Memᴰ p.0 nodes
    pub later : Memᴰ p.1.0 nodes
    pub order : p.0.timestamp ≤ p.1.0.timestamp
    pub distinct : (p.0.id == p.1.0.id) ≡ false
    pub fresh : (contains p.0.id new_ids || contains p.1.0.id new_ids) ≡ true
    pub overlap : p.1.1 ≡ overlap_of tokens p.0 p.1.0
    pub enough : min_overlap ≤ p.1.1

  is_pair-parts :
      (a b : ArgumentNode)
      → is_pair tokens new_ids min_overlap a b ≡ true
      → ((a.id == b.id) ≡ false)
        × ((contains a.id new_ids || contains b.id new_ids) ≡ true)
        × (min_overlap ≤ overlap_of tokens a b)
  is_pair-parts a b t = ground (arith, t)

  parts-is_pair :
      (a b : ArgumentNode)
      → (a.id == b.id) ≡ false
      → (contains a.id new_ids || contains b.id new_ids) ≡ true
      → min_overlap ≤ overlap_of tokens a b
      → is_pair tokens new_ids min_overlap a b ≡ true
  parts-is_pair a b t s le = ground (arith, t, s, le)

module _ ⦃u : Unicode⦄ (new_nodes recent_nodes : List ArgumentNode) (min_overlap : ℕ) where
  abbrev pub new_ids_of : List String
  new_ids_of = map (λ (n : ArgumentNode). n.id) new_nodes

  abbrev pub tokens_of : Tokens
  tokens_of = foldl add_tokens [] (sort_nodes (recent_nodes ++ new_nodes))

  -- Each candidate pair joins two of the nodes, the first of which is not stamped after the second;
  -- their identifiers differ, one of them is that of a new node, and the words that they share are
  -- as many as the pair says and as are asked for. And two nodes of which this holds, with words
  -- shared enough in the one order and in the other, are a pair in one of the two orders.
  pub candidate_pairs_lem :
      ((p : Pair)
        → Memᴰ p (candidate_pairs new_nodes recent_nodes min_overlap)
        → IsPaired tokens_of new_ids_of min_overlap (recent_nodes ++ new_nodes) p)
      × ((a b : ArgumentNode)
          → Memᴰ a (recent_nodes ++ new_nodes)
          → Memᴰ b (recent_nodes ++ new_nodes)
          → (a.id == b.id) ≡ false
          → (contains a.id new_ids_of || contains b.id new_ids_of) ≡ true
          → min_overlap ≤ overlap_of tokens_of a b
          → min_overlap ≤ overlap_of tokens_of b a
          → IsJoined tokens_of new_ids_of min_overlap
              (candidate_pairs new_nodes recent_nodes min_overlap)
              a
              b)
  unfolding candidate_pairs
  candidate_pairs_lem = (
    λ p m.
        let all = recent_nodes ++ new_nodes in
        let r =
          pairs_of-IsTested tokens_of new_ids_of min_overlap (sort_nodes all) p
            (sort_nodes-IsChronological all) m in
        let (distinct, fresh, enough) =
          is_pair-parts tokens_of new_ids_of min_overlap p.0 p.1.0 r.test in
        record {
          earlier = (mem-sort_nodes p.0 all).0 r.earlier;
          later = (mem-sort_nodes p.1.0 all).0 r.later;
          order = r.order;
          distinct = distinct;
          fresh = fresh;
          overlap = r.overlap;
          enough = subst (λ k. min_overlap ≤ k) (sym r.overlap) enough;
        },
    λ a b m n distinct fresh le ge.
        pairs_of-IsJoined tokens_of new_ids_of min_overlap a b
          (sort_nodes (recent_nodes ++ new_nodes))
          (parts-is_pair tokens_of new_ids_of min_overlap a b distinct fresh le)
          (parts-is_pair tokens_of new_ids_of min_overlap b a (turned a b distinct)
            (swapped a b fresh) ge)
          ((mem-sort_nodes a (recent_nodes ++ new_nodes)).1 m)
          ((mem-sort_nodes b (recent_nodes ++ new_nodes)).1 n),
  )
    where
      turned : (a b : ArgumentNode) → (a.id == b.id) ≡ false → (b.id == a.id) ≡ false
      turned a b d = ground (arith, d, eq_iff a.id b.id, eq_iff b.id a.id)

      swapped :
          (a b : ArgumentNode)
          → (contains a.id new_ids_of || contains b.id new_ids_of) ≡ true
          → (contains b.id new_ids_of || contains a.id new_ids_of) ≡ true
      swapped a b d = ground (arith, d)
