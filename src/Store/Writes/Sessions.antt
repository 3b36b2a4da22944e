-- ===== src/Store/Writes/Sessions.antt =====
-- armin-core/graph/src/store.rs, `register_session`, and the session positions of a run.
use armin.Prelude.{
  ℕ, ◌≡◌, ap, ◌∙◌, inl, inr, String, some, [], ◌∷◌, arith, length-append, String_Eq, ℕ_Eq,
  Option-cases,
}
use armin.Prelude.Results.{ok}
use armin.Text.{Unicode}
use armin.Text.Sessions.{
  session_index, session_id_at_index, session_index-append, session_index-concat,
  get_elem?-session_index,
}
use armin.Petgraph.{StableGraph}
use armin.Store.{
  GraphStoreInner, add_node, insert_node, invalidate_node, register_session, resolves_edge,
}
use armin.Store.Consistent.{IsConsistent}
use armin.Store.Writes.Runs.{
  Step, added_node, added_edge, invalidated, resolved, resolve_question-add_edge, registered, Run,
  here, next, added_edge-HasEdge, Run-IsConsistent,
}

module _ ⦃pg : StableGraph⦄ where
  register_session-index :
      (s : GraphStoreInner) (sid : String)
      → session_index (register_session s sid).0.session_order sid ≡ some (register_session s sid).1
  unfolding register_session
  register_session-index s sid = elim (Option-cases (session_index s.session_order sid)) [
    | inr (i, e) ↦ rw (e, register_session) e
    | inl e ↦
        rw (e, register_session)
          (session_index-concat s.session_order sid e
            ∙ ap some (omega (arith, length-append s.session_order (sid ∷ []))))
  ]

  register_session-keeps :
      (s : GraphStoreInner) (sid x : String) (i : ℕ)
      → session_index s.session_order x ≡ some i
      → session_index (register_session s sid).0.session_order x ≡ some i
  unfolding register_session
  register_session-keeps s sid x i h = elim (Option-cases (session_index s.session_order sid)) [
    | inr (j, e) ↦ rw (e, register_session) h
    | inl e ↦ rw (e, register_session) (session_index-append s.session_order (sid ∷ []) x i h)
  ]

  register_session-known :
      (s : GraphStoreInner) (sid : String) (i : ℕ)
      → session_index s.session_order sid ≡ some i
      → register_session s sid ≡ (s, i)
  unfolding register_session
  register_session-known s sid i at = rw (at, register_session)

  -- `register_session` returns the position at which the session then stands, and the session is
  -- the one at that position; no other session moves; and registering again returns the same
  -- position and changes nothing.
  pub register_session_lem :
      (s : GraphStoreInner) (sid : String)
      → (session_index (register_session s sid).0.session_order sid
          ≡ some (register_session s sid).1)
        × (session_id_at_index (register_session s sid).0.session_order (register_session s sid).1
            ≡ some sid)
        × ((x : String) (i : ℕ)
            → session_index s.session_order x ≡ some i
            → session_index (register_session s sid).0.session_order x ≡ some i)
        × (register_session (register_session s sid).0 sid ≡ register_session s sid)
  register_session_lem s sid =
      let at = register_session-index s sid in
      (
        at,
        get_elem?-session_index (register_session s sid).0.session_order sid _ at,
        register_session-keeps s sid,
        register_session-known (register_session s sid).0 sid _ at,
      )

module _ ⦃pg : StableGraph⦄ ⦃u : Unicode⦄ where
  invalidate_node-sessions :
      (s t : GraphStoreInner) (id : String)
      → invalidate_node s id ≡ ok t
      → t.session_order ≡ s.session_order
  unfolding invalidate_node
  invalidate_node-sessions s t id h = ground arith

  Step-session_index :
      {s t : GraphStoreInner} (x : String) (i : ℕ)
      → IsConsistent s
      → Step s t
      → session_index s.session_order x ≡ some i
      → session_index t.session_order x ≡ some i
  unfolding add_node insert_node
  Step-session_index {s} x i h (added_node n e) at =
      rw (← e) (ground (arith, session_index-append s.session_order (n.session_id ∷ []) x i))
  Step-session_index {s} {t} x i h (added_edge e j q) at =
      rw (added_edge-HasEdge s t e j h q).sessions at
  Step-session_index {s} {t} x i h (invalidated id q) at = rw (invalidate_node-sessions s t id q) at
  Step-session_index {s} {t} x i h (resolved uuid now question resolver reasoning {e} q) at =
      let (j, done) = resolve_question-add_edge s t uuid now question resolver reasoning e q in
      rw
        (added_edge-HasEdge s t (resolves_edge uuid now question resolver reasoning) j h
          done).sessions
        at
  Step-session_index {s} x i h (registered sid e) at =
      rw (← e) (register_session-keeps s sid x i at)

  -- A session keeps its position in every run of the store's methods.
  pub Run-session_index :
      {s t : GraphStoreInner} (x : String) (i : ℕ)
      → IsConsistent s
      → Run s t
      → session_index s.session_order x ≡ some i
      → session_index t.session_order x ≡ some i
  Run-session_index x i h here at = at
  Run-session_index x i h (next r st) at =
      Step-session_index x i (Run-IsConsistent h r) st (Run-session_index x i h r at)
