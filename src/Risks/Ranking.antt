-- ===== src/Risks/Ranking.antt =====
-- armin-core/graph/src/risks.rs, `compute_risks_from_debt`: which risks it returns, and how they rank.
use mathlib.Core.List.{foldl, append-nil, append_assoc, map-append}
use mathlib.Core.List.Memᴰ
use armin.Prelude.{
  ℕ, ◌≤◌, ◌≡◌, refl, sym, ap, ◌∙◌, inl, inr, subst, String, Bool, true, false, ◌&&◌, Option, none,
  some, List, [], ◌∷◌, ◌++◌, map, Memᴰ, contains, contains-append, unique, unique-concat, is_some,
  lookup, if◌then◌else◌, String_Eq, arith, eq_iff, Bool-cases, Option-cases,
}
use armin.Prelude.Sorted.{place, sort_desc, IsDescending, sort_desc-IsDescending, Memᴰ-sort_desc}
use armin.Types.Scratch.{DebtItem, DebtReport}
use armin.Text.Sessions.{session_index}
use armin.Petgraph.{StableGraph, weight}
use armin.Store.{GraphStoreInner}
use armin.Store.Consistent.{IsConsistent}
use armin.Risks.{
  Risk, Ranked, recency_bonus, impact, bfs_downstream_count, risk_of, risk_at, rank_node, rank_item,
  compute_risks_from_debt,
}

abbrev ids : List Risk → List String
ids = map (λ (r : Risk). r.node_id)

abbrev score : Risk → ℕ
score r = r.impact_score

contains-place :
    (id : String) (r : Risk) (l : List Risk)
    → contains id (ids (place score r l)) ≡ contains id (ids (r ∷ l))
unfolding place
contains-place id r [] = refl
contains-place id r (x ∷ l) = ground (arith, contains-place id r l)

unique-place : (r : Risk) (l : List Risk) → unique (ids (place score r l)) ≡ unique (ids (r ∷ l))
unfolding place
unique-place r [] = refl
unique-place r (x ∷ l) = ground (
  arith,
  unique-place r l,
  contains-place x.node_id r l,
  eq_iff x.node_id r.node_id,
  eq_iff r.node_id x.node_id,
)

contains-sorted :
    (id : String) (l : List Risk) → contains id (ids (sort_desc score l)) ≡ contains id (ids l)
unfolding sort_desc
contains-sorted id [] = refl
contains-sorted id (r ∷ l) =
    ground (arith, contains-place id r (sort_desc score l), contains-sorted id l)

unique-sorted : (l : List Risk) → unique (ids (sort_desc score l)) ≡ unique (ids l)
unfolding sort_desc
unique-sorted [] = refl
unique-sorted (r ∷ l) =
    ground (arith, unique-place r (sort_desc score l), unique-sorted l, contains-sorted r.node_id l)

-- at most 15 for each of four nodes, and 20 for a node of the last two sessions
impact_range : (d bonus : ℕ) → bonus ≤ 20 → (5 ≤ impact d bonus) × (impact d bonus ≤ 80)
unfolding impact
impact_range d bonus h = ground arith

recency_bonus_le : (o : Option ℕ) (current : ℕ) → recency_bonus o current ≤ 20
recency_bonus_le o current = ground arith

abbrev AllInRange : List Risk → Type 0
AllInRange l = (r : Risk) → Memᴰ r l → (5 ≤ r.impact_score) × (r.impact_score ≤ 80)

-- a risk for an identifier that has none
once_more :
    (known : Bool) (id : String) (l : List Risk)
    → contains id (ids l) ≡ false
    → unique (ids l) ≡ true
    → unique (ids l ++ (if known then id ∷ [] else [])) ≡ true
once_more true id l new once = ground (arith, unique-concat (ids l) id, new, once)
once_more false id l new once = rw (append-nil (ids l)) once

-- the identifiers of all items
abbrev pub named : List DebtItem → List String
named [] = []
named (i ∷ items) = i.node_ids ++ named items

-- an identifier is known to the store
abbrev pub is_known : ⦃pg : StableGraph⦄ → GraphStoreInner → String → Bool
is_known s id = is_some (lookup id s.id_to_node)

module _ ⦃pg : StableGraph⦄ (s : GraphStoreInner) (h : IsConsistent s) (current : ℕ) where
  -- after some identifiers: each one that is known has its risk, once
  record Fits (seen : List String) (ranked : Ranked) : Type 0 where
    members : (id : String) → contains id ranked.seen_nodes ≡ contains id seen
    found : (id : String) → contains id (ids ranked.results) ≡ (contains id seen && is_known s id)
    once : unique (ids ranked.results) ≡ true
    range : AllInRange ranked.results

  risk_at-ids :
      (item : DebtItem) (id : String)
      → ids (risk_at s current item (lookup id s.id_to_node))
        ≡ (if is_known s id then id ∷ [] else [])
  unfolding risk_of
  risk_at-ids item id = elim (Option-cases (lookup id s.id_to_node)) [
    | inl e ↦ rw (e, risk_at) refl
    | inr (i, e) ↦
        let (n, w, named_so) = h.ids_sound id i e in rw (e, w, risk_at) (ap (λ x. x ∷ []) named_so)
  ]

  risk_at-range : (item : DebtItem) (o : Option ℕ) → AllInRange (risk_at s current item o)
  unfolding risk_of
  risk_at-range item none r m = absurd (Memᴰ.not-nil m)
  risk_at-range item (some i) r m = elim (Option-cases (weight s.graph i)) [
    | inl e ↦ absurd (Memᴰ.not-nil (rw (e, risk_at) at m))
    | inr (n, e) ↦
        let same : r ≡ risk_of s current item i n = Memᴰ.eq_of_singleton (rw (e, risk_at) at m) in
        subst (λ (x : Risk). (5 ≤ x.impact_score) × (x.impact_score ≤ 80)) (sym same)
          (impact_range (bfs_downstream_count s i 3) _
            (recency_bonus_le (session_index s.session_order n.session_id) current))
  ]

  rank_node-Fits :
      (item : DebtItem) (seen : List String) (ranked : Ranked) (id : String)
      → Fits seen ranked
      → Fits (seen ++ id ∷ []) (rank_node s current item ranked id)
  unfolding rank_node
  rank_node-Fits item seen ranked id f = elim (Bool-cases (contains id ranked.seen_nodes)) [
    | inl old ↦
        rw (old, rank_node)
          (record {
            members = λ x. ground (
              arith,
              f.members x,
              f.members id,
              old,
              contains-append x seen (id ∷ []),
              eq_iff id x,
            );
            found = λ x. ground (
              arith,
              f.found x,
              f.members id,
              old,
              contains-append x seen (id ∷ []),
              eq_iff id x,
            );
            once = f.once;
            range = f.range;
          })
    | inr new ↦
        let added = risk_at s current item (lookup id s.id_to_node) in
        let after =
          map-append _ ranked.results added
          ∙ ap (λ l. ids ranked.results ++ l) (risk_at-ids item id) in
        rw (new, rank_node)
          (record {
            members = λ x. ground (arith, f.members x, contains-append x seen (id ∷ []));
            found = λ x. rw after (
                ground (
                  arith,
                  f.found x,
                  contains-append x (ids ranked.results) (if is_known s id then id ∷ [] else []),
                  contains-append x seen (id ∷ []),
                  eq_iff id x,
                ));
            once = rw after (
                once_more (is_known s id) id ranked.results
                  (ground (arith, f.found id, f.members id, new)) f.once);
            range = λ r m. elim (Memᴰ.append_cases ranked.results m) [
              | inl old ↦ f.range r old
              | inr last ↦ risk_at-range item (lookup id s.id_to_node) r last
            ];
          })
  ]

  rank_nodes-Fits :
      (item : DebtItem) (seen node_ids : List String) (ranked : Ranked)
      → Fits seen ranked
      → Fits (seen ++ node_ids) (foldl (rank_node s current item) ranked node_ids)
  rank_nodes-Fits item seen [] ranked f = rw (append-nil seen) f
  rank_nodes-Fits item seen (id ∷ node_ids) ranked f =
      subst (λ l. Fits l (foldl (rank_node s current item) ranked (id ∷ node_ids)))
        (append_assoc seen (id ∷ []) node_ids)
        (rank_nodes-Fits item (seen ++ id ∷ []) node_ids (rank_node s current item ranked id)
          (rank_node-Fits item seen ranked id f))

  rank_items-Fits :
      (seen : List String) (items : List DebtItem) (ranked : Ranked)
      → Fits seen ranked
      → Fits (seen ++ named items) (foldl (rank_item s current) ranked items)
  unfolding rank_item
  rank_items-Fits seen [] ranked f = rw (append-nil seen) f
  rank_items-Fits seen (i ∷ items) ranked f =
      subst (λ l. Fits l (foldl (rank_item s current) ranked (i ∷ items)))
        (append_assoc seen i.node_ids (named items))
        (rank_items-Fits (seen ++ i.node_ids) items (rank_item s current ranked i)
          (rank_nodes-Fits i seen i.node_ids ranked f))

  -- In a consistent store the risks are ranked by falling impact, and no node has two; a node has one
  -- exactly if its identifier is in the debt report and in the store; and every impact is from 5 to 80,
  -- below the bound of 100 that the code allows.
  pub compute_risks_from_debt_lem :
      (debt : DebtReport)
      → let risks = compute_risks_from_debt s current debt in
        IsDescending (λ (r : Risk). r.impact_score) risks
        × (unique (map (λ (r : Risk). r.node_id) risks) ≡ true)
        × ((id : String)
            → contains id (map (λ (r : Risk). r.node_id) risks)
              ≡ (contains id (named debt.items) && is_known s id))
        × ((r : Risk) → Memᴰ r risks → (5 ≤ r.impact_score) × (r.impact_score ≤ 80))
  unfolding compute_risks_from_debt
  compute_risks_from_debt_lem debt = (
    sort_desc-IsDescending score all,
    unique-sorted all ∙ f.once,
    λ id. contains-sorted id all ∙ f.found id,
    λ r m. f.range r ((Memᴰ-sort_desc score r all).0 m),
  )
    where
      start : Ranked
      start = record { seen_nodes = []; results = [] }

      all : List Risk
      all = (foldl (rank_item s current) start debt.items).results

      f : Fits (named debt.items) (foldl (rank_item s current) start debt.items)
      f = rank_items-Fits [] debt.items start (record {
        members = λ id. refl;
        found = λ id. refl;
        once = refl;
        range = λ r m. absurd (Memᴰ.not-nil m);
      })
