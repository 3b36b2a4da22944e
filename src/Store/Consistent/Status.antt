-- ===== src/Store/Consistent/Status.antt =====
-- armin-core/graph/src/store.rs, `invalidate_node` and `register_session`: consistency is kept.

use mathlib.Core.List.Memᴰ
use armin.Prelude.{
  Memᴰ, List, [], ◌∷◌, nat_eq_iff, ℕ, ◌≡◌, refl, inl, inr, String, false, Option, none, some, arith,
  lookup, contains, contains-append, unique-concat, if◌then◌else◌, ◌==◌, String_Eq, ℕ_Eq,
  Option-cases, Bool-cases,
}
use armin.Types.{ArgumentNode, NodeStatus}
use armin.Petgraph.{StableGraph, weight, reweigh}
use armin.Store.{GraphStoreInner, invalidate_at, register_session}
use armin.Store.Consistent.{IsConsistent}
use armin.Text.Sessions.{session_index}

-- replacing a weight changes what stands at its index, if anything does
pub lookup-reweigh :
    (i j : ℕ) (w : ArgumentNode) (l : List (ℕ × ArgumentNode))
    → lookup j (reweigh i w l)
      ≡ (if i == j then elim (lookup j l) [ none ↦ none | some v ↦ some w ] else lookup j l)
lookup-reweigh i j w [] = ground arith
lookup-reweigh i j w ((k, v) ∷ l) = ground (arith, lookup-reweigh i j w l)

mem-reweigh :
    (i j : ℕ) (w n : ArgumentNode) (l : List (ℕ × ArgumentNode))
    → Memᴰ (j, n) (reweigh i w l)
    → (v : ArgumentNode) × Memᴰ (j, v) l × (n ≡ (if i == j then w else v))
mem-reweigh i j w n [] m = absurd (Memᴰ.not-nil m)
mem-reweigh i j w n ((k, v) ∷ l) m = elim (Memᴰ.cases_cons m) [
  | inl e ↦ (v, Memᴰ.head (ground arith), ground (arith, nat_eq_iff i j, nat_eq_iff k i))
  | inr r ↦ let (u, old, q) = mem-reweigh i j w n l r in (u, Memᴰ.tail old, q)
]

pub session_index-none :
    (l : List String) (x : String) → session_index l x ≡ none → contains x l ≡ false
unfolding session_index
session_index-none [] x h = refl
session_index-none (s ∷ l) x h = ground (arith, session_index-none l x)

module _ ⦃pg : StableGraph⦄ (s : GraphStoreInner) (h : IsConsistent s) where
  pub invalidate_at-IsConsistent :
      (i : ℕ) (o : Option ArgumentNode) → weight s.graph i ≡ o → IsConsistent (invalidate_at s i o)
  invalidate_at-IsConsistent i none at = h
  invalidate_at-IsConsistent i (some node) at = record {
    ids_sound = λ id j e. elim (Bool-cases (i == j)) [
      | inl same ↦
          let (n, w, q) = h.ids_sound id j e in
          (dead, ground (arith, weight_after j), ground (arith, nat_eq_iff i j))
      | inr other ↦ let (n, w, q) = h.ids_sound id j e in (n, ground (arith, weight_after j), q)
    ];
    ids_full =
        λ j n e. ground (arith, weight_after j, h.ids_full j n, h.ids_full i node, nat_eq_iff i j);
    indices = λ j n m.
        let (v, old, e) =
          mem-reweigh i j dead n (pg.node_references s.graph)
            (rw (pg.nodes-set_weight s.graph i dead) at m) in
        ground (arith, weight_after j, h.indices j v old, e);
    order_ids = h.order_ids;
    order_unique = h.order_unique;
    sessions_unique = h.sessions_unique;
    sessions_full = λ j n e.
        ground (arith, weight_after j, h.sessions_full j n, h.sessions_full i node, nat_eq_iff i j);
    edge_ends = rw same_edges h.edge_ends;
    edge_ids = rw same_edges h.edge_ids;
    edge_unique = rw same_edges h.edge_unique;
  }
    where
      dead : ArgumentNode
      dead = record node { status = NodeStatus.invalidated }

      weight_after :
          (j : ℕ)
          → weight (pg.set_weight s.graph i dead) j ≡ (
              if i == j
              then elim (weight s.graph j) [ none ↦ none | some v ↦ some dead ]
              else weight s.graph j)
      weight_after j = rw (pg.nodes-set_weight s.graph i dead) (lookup-reweigh i j dead _)

      same_edges : pg.edge_references (pg.set_weight s.graph i dead) ≡ pg.edge_references s.graph
      same_edges = pg.edges-set_weight s.graph i dead

  pub register_session-IsConsistent : (sid : String) → IsConsistent (register_session s sid).0
  unfolding register_session
  register_session-IsConsistent sid = elim (Option-cases (session_index s.session_order sid)) [
    | inr (i, e) ↦ rw (e, register_session) h
    | inl e ↦
        rw (e, register_session)
          record {
            ids_sound = h.ids_sound;
            ids_full = h.ids_full;
            indices = h.indices;
            order_ids = h.order_ids;
            order_unique = h.order_unique;
            sessions_unique = ground (
              arith,
              h.sessions_unique,
              unique-concat s.session_order sid,
              session_index-none s.session_order sid e,
            );
            sessions_full = λ i n w. ground (
              arith,
              h.sessions_full i n w,
              contains-append n.session_id s.session_order (sid ∷ []),
            );
            edge_ends = h.edge_ends;
            edge_ids = h.edge_ids;
            edge_unique = h.edge_unique;
          }
  ]
