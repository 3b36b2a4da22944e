-- ===== src/Store/Writes/Runs.antt =====
-- armin-core/graph/src/store.rs: any sequence of calls on a `GraphStore`, as steps of the store.
use armin.Prelude.{
  ℕ, ◌≡◌, refl, ap, ◌∙◌, inl, inr, String, none, some, arith, if◌then◌else◌, ◌==◌, subst, lookup,
  String_Eq, ℕ_Eq, Option-cases, Bool-cases,
}
use armin.Prelude.Results.{ok, Result-cases}
use armin.Types.{ArgumentNode, ArgumentEdge, NodeStatus}
use armin.Text.{Unicode}
use armin.Text.Sessions.{session_index}
use armin.Petgraph.{StableGraph}
use armin.Store.{
  GraphStoreInner, add_node, add_edge, get_node, invalidate_node, register_session,
  resolve_question, resolves_edge,
}
use armin.Store.Consistent.{IsConsistent}
use armin.Store.Consistent.Status.{register_session-IsConsistent}
use armin.Store.Writes.Nodes.{add_node-IsConsistent, get_node-add_node, invalidate_node_lem, dead}
use armin.Store.Writes.Edges.{HasEdge, add_edge_lem}

-- The node as it was added, with the status that it has now; an invalidated node stays so.
pub record Ages (n m : ArgumentNode) : Type 0 where
  pub same : m ≡ record n { status = m.status }
  pub stays : n.status ≡ NodeStatus.invalidated → m.status ≡ NodeStatus.invalidated

module _ ⦃pg : StableGraph⦄ ⦃u : Unicode⦄ where
  -- the calls that succeed
  pub data Step (s : GraphStoreInner) : GraphStoreInner → Type 0 where
    added_node : (n : ArgumentNode) {t : GraphStoreInner} → (add_node s n).0 ≡ t → Step s t
    added_edge :
        (e : ArgumentEdge) {t : GraphStoreInner} (i : ℕ) → add_edge s e ≡ ok (t, i) → Step s t
    invalidated : (id : String) {t : GraphStoreInner} → invalidate_node s id ≡ ok t → Step s t
    resolved :
        (uuid : String) (now : ℕ) (question resolver reasoning : String) {t : GraphStoreInner}
        {e : ArgumentEdge}
        → resolve_question s uuid now question resolver reasoning ≡ ok (t, e)
        → Step s t
    registered : (sid : String) {t : GraphStoreInner} → (register_session s sid).0 ≡ t → Step s t

  pub data Run (s : GraphStoreInner) : GraphStoreInner → Type 0 where
    here : Run s s
    next : {t v : GraphStoreInner} → Run s t → Step t v → Run s v

  -- a successful `add_edge` gives the store that `add_edge_lem` describes
  pub added_edge-HasEdge :
      (s t : GraphStoreInner) (e : ArgumentEdge) (i : ℕ)
      → IsConsistent s
      → add_edge s e ≡ ok (t, i)
      → HasEdge s e t
  added_edge-HasEdge s t e i h q = elim (add_edge_lem s h e) [
    | inl (_, fails) ↦ cc
    | inr (inl (_, _, fails)) ↦ cc
    | inr (inr (_, _, (t', i', done, has))) ↦ subst (HasEdge s e) (cc) has
  ]

  -- the effect of `resolve_question` on the store is that of its last call
  pub resolve_question-add_edge :
      (s t : GraphStoreInner) (uuid : String) (now : ℕ) (question resolver reasoning : String)
      (e : ArgumentEdge)
      → resolve_question s uuid now question resolver reasoning ≡ ok (t, e)
      → (i : ℕ) × (add_edge s (resolves_edge uuid now question resolver reasoning) ≡ ok (t, i))
  unfolding resolve_question
  resolve_question-add_edge s t uuid now question resolver reasoning e h =
      elim (Option-cases (lookup question s.id_to_node)) [
        | inl a ↦ cc (rw a at h)
        | inr (i, a) ↦ elim (Option-cases (lookup resolver s.id_to_node)) [
          | inl b ↦ cc (rw (a, b) at h)
          | inr (j, b) ↦
              elim (Result-cases
                (add_edge s (resolves_edge uuid now question resolver reasoning))) [
                  | inr (x, q) ↦ cc (rw (a, b, q) at h)
                  | inl ((v, k), q) ↦ (k, q ∙ cc (rw (a, b, q) at h))
                ]
        ]
      ]

  invalidated-status :
      (s t : GraphStoreInner) (key : String)
      → IsConsistent s
      → invalidate_node s key ≡ ok t
      → IsConsistent t
        × ((id : String)
            → get_node t id ≡ (
                if key == id
                then (elim (get_node s id) [ none ↦ none | some n ↦ some (dead n) ])
                else get_node s id))
  invalidated-status s t key h q = elim (invalidate_node_lem s h key) [
    | inl (_, fails) ↦ cc
    | inr (_, (t', done, k, reads)) ↦
        subst
          (λ (v : GraphStoreInner).
            IsConsistent v
            × ((id : String)
                → get_node v id ≡ (
                    if key == id
                    then (elim (get_node s id) [ none ↦ none | some n ↦ some (dead n) ])
                    else get_node s id)))
          (cc) (k, reads)
  ]

  pub Step-IsConsistent : {s t : GraphStoreInner} → IsConsistent s → Step s t → IsConsistent t
  Step-IsConsistent {s} h (added_node n e) = subst IsConsistent e (add_node-IsConsistent s h n)
  Step-IsConsistent {s} {t} h (added_edge e i q) = (added_edge-HasEdge s t e i h q).consistent
  Step-IsConsistent {s} {t} h (invalidated id q) = (invalidated-status s t id h q).0
  Step-IsConsistent {s} {t} h (resolved uuid now question resolver reasoning {e} q) =
      let (i, done) = resolve_question-add_edge s t uuid now question resolver reasoning e q in
      (added_edge-HasEdge s t (resolves_edge uuid now question resolver reasoning) i h
        done).consistent
  Step-IsConsistent {s} h (registered sid e) =
      subst IsConsistent e (register_session-IsConsistent s h sid)

  -- Every run of the store's methods, from a consistent store, leads to a consistent store.
  pub Run-IsConsistent : {s t : GraphStoreInner} → IsConsistent s → Run s t → IsConsistent t
  Run-IsConsistent h here = h
  Run-IsConsistent h (next r st) = Step-IsConsistent (Run-IsConsistent h r) st

  pub get_node-register_session :
      (s : GraphStoreInner) (sid id : String)
      → get_node (register_session s sid).0 id ≡ get_node s id
  unfolding register_session
  get_node-register_session s sid = elim (Option-cases (session_index s.session_order sid)) [
    | inl e ↦ rw (e, register_session) (λ id. unfold get_node in refl)
    | inr (i, e) ↦ rw (e, register_session) (λ id. refl)
  ]

  Step-Ages :
      {s t : GraphStoreInner} (id : String) (n : ArgumentNode)
      → IsConsistent s
      → Step s t
      → get_node s id ≡ some n
      → (m : ArgumentNode) × (get_node t id ≡ some m) × Ages n m
  Step-Ages {s} id n h (added_node k e) at = (
    n,
    rw (← e) (get_node-add_node s h k id ∙ ground (arith, at)),
    record { same = refl; stays = λ q. q },
  )
  Step-Ages {s} {t} id n h (added_edge e i q) at =
      (n, (added_edge-HasEdge s t e i h q).nodes id ∙ at, record { same = refl; stays = λ p. p })
  Step-Ages {s} {t} id n h (invalidated key q) at =
      let reads = (invalidated-status s t key h q).1 id in
      elim (Bool-cases (key == id)) [
        | inl hit ↦ (dead n, reads ∙ rw (hit, at) refl, record { same = refl; stays = λ p. refl })
        | inr miss ↦ (n, reads ∙ rw miss at, record { same = refl; stays = λ p. p })
      ]
  Step-Ages {s} {t} id n h (resolved uuid now question resolver reasoning {e} q) at =
      let (i, done) = resolve_question-add_edge s t uuid now question resolver reasoning e q in
      (
        n,
        (added_edge-HasEdge s t (resolves_edge uuid now question resolver reasoning) i h done).nodes
              id
            ∙ at,
        record { same = refl; stays = λ p. p },
      )
  Step-Ages {s} id n h (registered sid e) at = (
    n,
    rw (← e) (get_node-register_session s sid id ∙ at),
    record { same = refl; stays = λ q. q },
  )

  -- No run of the store's methods loses a node: it is found under its identifier ever after, as it
  -- was added but for its status, and once invalidated it is never active again.
  pub Run-Ages :
      {s t : GraphStoreInner} (id : String) (n : ArgumentNode)
      → IsConsistent s
      → Run s t
      → get_node s id ≡ some n
      → (m : ArgumentNode) × (get_node t id ≡ some m) × Ages n m
  Run-Ages id n h here at = (n, at, record { same = refl; stays = λ p. p })
  Run-Ages id n h (next r st) at =
      let (m, at', first) = Run-Ages id n h r at in
      let (k, at'', later) = Step-Ages id m (Run-IsConsistent h r) st at' in
      (
        k,
        at'',
        record {
          same = later.same ∙ ap (λ (x : ArgumentNode). record x { status = k.status }) first.same;
          stays = λ p. later.stays (first.stays p);
        },
      )
