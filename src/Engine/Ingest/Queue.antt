-- ===== src/Engine/Ingest/Queue.antt =====
-- armin-core/engine/src/routes.rs, `ingest`: which events reach the extraction queue.
use mathlib.Core.List.{foldl, append-nil, append_assoc}
use armin.Prelude.{
  ℕ, zero, suc, ◌+◌, ◌-◌, ◌≡◌, refl, ap, ◌∙◌, inl, inr, true, false, not, some, List, [], ◌∷◌, ◌++◌,
  take, select, length, length-append, length-take, leb, arith, Bool-cases,
}
use armin.Petgraph.{StableGraph}
use armin.Tools.{EventRecord}
use armin.Engine.{EngineState, try_send, ingest_queue_capacity}
use armin.Engine.Ingest.{
  IngestCounts, no_counts, is_tool_event, take_in, use_tool, enqueue, ingest_event, ingest,
}

abbrev pub prose_events : List EventRecord → List EventRecord
prose_events = select (λ e. not (is_tool_event e))

abbrev pub room_in : List EventRecord → ℕ
room_in queue = ingest_queue_capacity - length queue

module _ ⦃pg : StableGraph⦄ where
  -- a state with an open channel, and the counts of the answer
  record Sends (queue : List EventRecord) (queued dropped : ℕ) (r : EngineState × IngestCounts)
      : Type 0 where
    tx : r.0.ingest_tx ≡ some (record { queue = queue; is_closed = false })
    sent_count : r.1.queued ≡ queued
    dropped_count : r.1.dropped ≡ dropped

  take_in-tx :
      (state : EngineState) (e : EventRecord) → (take_in state e).ingest_tx ≡ state.ingest_tx
  unfolding take_in
  take_in-tx state e = refl

  ingest_event-tool :
      (state : EngineState) (k : IngestCounts) (e : EventRecord)
      → is_tool_event e ≡ true
      → ingest_event (state, k) e ≡ (use_tool (take_in state e) e, k)
  unfolding ingest_event
  ingest_event-tool state k e h = rw (h, ingest_event) refl

  use_tool-tx :
      (state : EngineState) (e : EventRecord) → (use_tool state e).ingest_tx ≡ state.ingest_tx
  unfolding use_tool
  use_tool-tx state e = refl

  ingest_event-full :
      (state : EngineState) (k : IngestCounts) (e : EventRecord) (queue : List EventRecord)
      → is_tool_event e ≡ false
      → state.ingest_tx ≡ some (record { queue = queue; is_closed = false })
      → leb ingest_queue_capacity (length queue) ≡ true
      → Sends queue k.queued (k.dropped + 1) (ingest_event (state, k) e)
  unfolding ingest_event enqueue try_send
  ingest_event-full state k e queue h at over =
      let now = take_in-tx state e ∙ at in
      record {
        tx = rw (h, now, over, ingest_event, enqueue) refl;
        sent_count = rw (h, now, over, ingest_event, enqueue) refl;
        dropped_count = rw (h, now, over, ingest_event, enqueue) refl;
      }

  ingest_event-sent :
      (state : EngineState) (k : IngestCounts) (e : EventRecord) (queue : List EventRecord)
      → is_tool_event e ≡ false
      → state.ingest_tx ≡ some (record { queue = queue; is_closed = false })
      → leb ingest_queue_capacity (length queue) ≡ false
      → Sends (queue ++ e ∷ []) (k.queued + 1) k.dropped (ingest_event (state, k) e)
  unfolding ingest_event enqueue try_send
  ingest_event-sent state k e queue h at fits =
      let now = take_in-tx state e ∙ at in
      record {
        tx = rw (h, now, fits, ingest_event, enqueue) refl;
        sent_count = rw (h, now, fits, ingest_event, enqueue) refl;
        dropped_count = rw (h, now, fits, ingest_event, enqueue) refl;
      }

  take_nil : (n : ℕ) → take {A = EventRecord} n [] ≡ []
  take_nil zero = refl
  take_nil (suc n) = refl

  ingest_events-Sends :
      (events : List EventRecord) (state : EngineState) (k : IngestCounts)
      (queue : List EventRecord)
      → state.ingest_tx ≡ some (record { queue = queue; is_closed = false })
      → Sends
          (queue ++ take (room_in queue) (prose_events events))
          (k.queued + length (take (room_in queue) (prose_events events)))
          (k.dropped + (length (prose_events events) - room_in queue))
          (foldl ingest_event (state, k) events)
  ingest_events-Sends [] state k queue at =
      rw (take_nil (room_in queue), append-nil queue)
        (record { tx = at; sent_count = omega arith; dropped_count = omega arith })
  ingest_events-Sends (e ∷ events) state k queue at = elim (Bool-cases (is_tool_event e)) [
    | inl tool ↦
        rw (tool, ingest_event-tool state k e tool)
          (ingest_events-Sends events (use_tool (take_in state e) e) k queue
            (use_tool-tx (take_in state e) e ∙ take_in-tx state e ∙ at))
    | inr prose ↦ elim (Bool-cases (leb ingest_queue_capacity (length queue))) [
      | inl over ↦
          let step = ingest_event-full state k e queue prose at over in
          let (next, k') = ingest_event (state, k) e in
          let no_room : room_in queue ≡ 0 = ground arith in
          let rest = ingest_events-Sends events next k' queue step.tx in
          rw (prose, no_room)
            (record {
              tx = rw no_room at rest.tx;
              sent_count = (rw no_room at rest.sent_count) ∙ omega (arith, step.sent_count);
              dropped_count =
                  (rw no_room at rest.dropped_count) ∙ omega (arith, step.dropped_count);
            })
      | inr fits ↦
          let step = ingest_event-sent state k e queue prose at fits in
          let (next, k') = ingest_event (state, k) e in
          let room : room_in queue ≡ suc (room_in (queue ++ e ∷ [])) =
            ground (arith, length-append queue (e ∷ [])) in
          let ps = prose_events events in
          let rest = ingest_events-Sends events next k' (queue ++ e ∷ []) step.tx in
          rw (prose, room)
            (record {
              tx =
                  rest.tx
                  ∙ ap (λ x. some (record { queue = x; is_closed = false }))
                      (append_assoc queue (e ∷ []) (take (room_in (queue ++ e ∷ [])) ps));
              sent_count = rest.sent_count ∙ omega (arith, step.sent_count);
              dropped_count = rest.dropped_count ∙ omega (arith, step.dropped_count);
            })
    ]
  ]

  -- With an open channel, the events that are not tool calls join the extraction queue in their
  -- order as far as its capacity of 2000 goes. The answer counts those that did and those that did
  -- not, and every one of them is counted.
  pub ingest-prose_events :
      (state : EngineState) (events queue : List EventRecord)
      → state.ingest_tx ≡ some (record { queue = queue; is_closed = false })
      → let r = ingest state events in
        let fitting = take (room_in queue) (prose_events events) in
        (r.0.ingest_tx ≡ some (record { queue = queue ++ fitting; is_closed = false }))
        × (r.1.queued ≡ length fitting)
        × (r.1.queued + r.1.dropped ≡ length (prose_events events))
  unfolding ingest
  ingest-prose_events state events queue at =
      let h = ingest_events-Sends events state no_counts queue at in
      (
        h.tx,
        omega (arith, h.sent_count),
        omega (
          arith,
          h.sent_count,
          h.dropped_count,
          length-take (room_in queue) (prose_events events),
        ),
      )
