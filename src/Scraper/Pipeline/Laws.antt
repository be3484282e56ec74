-- ===== src/Scraper/Pipeline/Laws.antt =====
-- internal/scraper/cilium_scraper.go, calico_scraper.go: what a stream leaves behind.
use network_enforcer.Common.{
  ℕ, suc, ◌+◌, ◌-◌, ◌^◌, ◌≤◌, ◌<◌, ◌≡◌, refl, sym, ap, ◌∙◌, String, List, [], ◌∷◌, ◌++◌, Option,
  none, some, true, inl, inr, Bool-cases, ltb, length, take, append-nil, append_assoc, arith, map,
  take-nil, length-append,
}
use network_enforcer.Ringbuf.{Buffer}
use network_enforcer.Ringbuf.Inv.{Holds, record_item_lem}
use network_enforcer.Api.Types.{Observation, LearningEvent}
use network_enforcer.Scraper.Flow.{
  ProcessFlowResult, process_flow_skip, process_flow_enqueue, process_flow_record_violation,
  process_flow_error,
}
use network_enforcer.Scraper.Pipeline.{
  Pipeline, enqueue_event, dump_flow, dump_marshaled, record_observation, enqueue_learning_event,
  emit_otel_log, handle_result, handle_message, stream,
}

-- what is learned, oldest first
unfoldable pub learned : List ProcessFlowResult → List LearningEvent
learned [] = []
learned (process_flow_enqueue event ∷ results) = event ∷ learned results
learned (process_flow_skip ∷ results) = learned results
learned (process_flow_error err ∷ results) = learned results
learned (process_flow_record_violation observation ∷ results) = learned results

-- what is recorded on top of a history, newest first
unfoldable pub recorded : List ProcessFlowResult → List Observation → List Observation
recorded [] history = history
recorded (process_flow_record_violation observation ∷ results) history =
    recorded results (observation ∷ history)
recorded (process_flow_skip ∷ results) history = recorded results history
recorded (process_flow_error err ∷ results) history = recorded results history
recorded (process_flow_enqueue event ∷ results) history = recorded results history

-- the buffer of dumps, where there is one, takes this many more
unfoldable pub DumpFits : ℕ → Option (Buffer String) → Type 0
DumpFits n none = Unit
DumpFits n (some buf) = (history : List String) × Holds buf history × (length history + n < 2 ^ 63)

pub dump_flow_lem :
    {M : Type 0} (marshal : M → Option String) (n : ℕ) (dumped : Option (Buffer String))
    (message : M)
    → DumpFits (suc n) dumped
    → (next : Option (Buffer String)) × (dump_flow marshal dumped message ≡ some next)
      × DumpFits n next
unfolding DumpFits dump_flow
dump_flow_lem marshal n none message h = (none, refl, tt)
dump_flow_lem marshal n (some buf) message (history, holds, fits) = dump_from (marshal message)
  where
    dump_from :
        (marshaled : Option String)
        → (next : Option (Buffer String)) × (dump_marshaled buf marshaled ≡ some next)
          × DumpFits n next
    dump_from none = (some buf, refl, (history, holds, omega arith))
    dump_from (some text) =
        let (b', e, c, h') = record_item_lem buf history text holds (omega arith) in
        (some b', rw e refl, (text ∷ history, h', omega arith))

-- one event sent after another
enqueue_event-take :
    (capacity : ℕ) (queue : List LearningEvent) (event : LearningEvent)
    (events : List LearningEvent)
    → let queue' = (enqueue_event capacity queue event).1 in
      queue' ++ take (capacity - length queue') events
      ≡ queue ++ take (capacity - length queue) (event ∷ events)
unfolding enqueue_event
enqueue_event-take capacity queue event events = elim (Bool-cases (ltb (length queue) capacity)) [
  | inl e ↦
      let more : capacity - length queue ≡ suc (capacity - length (queue ++ event ∷ [])) =
        ground (arith, length-append queue (event ∷ [])) in
      rw (e, more) (append_assoc queue (event ∷ []) _)
  | inr e ↦ let full : capacity - length queue ≡ 0 = ground arith in rw (e, full) refl
]

module _ (capacity : ℕ) where
  -- What one result does: the queue takes the event where there is room, the buffer the violation.
  handle_result_lem :
      (p : Pipeline) (history : List Observation) (result : ProcessFlowResult)
      (later : List ProcessFlowResult)
      → Holds p.violations history
      → suc (length history) < 2 ^ 63
      → (next : Pipeline) × (h : List Observation) × (handle_result capacity p result ≡ some next)
        × Holds next.violations h
        × (next.violations.capacity ≡ p.violations.capacity)
        × (length h ≤ suc (length history))
        × (recorded (result ∷ later) history ≡ recorded later h)
        × (next.dumped ≡ p.dumped)
        × (next.queue ++ take (capacity - length next.queue) (learned later)
            ≡ p.queue ++ take (capacity - length p.queue) (learned (result ∷ later)))
  unfolding handle_result recorded learned enqueue_learning_event record_observation
  handle_result_lem p history process_flow_skip later holds fits =
      (p, history, refl, holds, refl, omega arith, refl, refl, refl)
  handle_result_lem p history (process_flow_error err) later holds fits =
      (p, history, refl, holds, refl, omega arith, refl, refl, refl)
  handle_result_lem p history (process_flow_enqueue event) later holds fits = (
    _,
    history,
    refl,
    holds,
    refl,
    omega arith,
    refl,
    refl,
    enqueue_event-take capacity p.queue event (learned later),
  )
  handle_result_lem p history (process_flow_record_violation observation) later holds fits =
      let (b', e, c, h') = record_item_lem p.violations history observation holds fits in
      (
        record p { emitted = emit_otel_log p.emitted observation; violations = b' },
        observation ∷ history,
        rw e refl,
        h',
        c,
        omega arith,
        refl,
        refl,
        refl,
      )

  module _ {M : Type 0} (marshal : M → Option String) (process : M → Option ProcessFlowResult)
      (f : M → ProcessFlowResult) (total : (m : M) → process m ≡ some (f m)) where
    handle_message_lem :
        (p : Pipeline) (history : List Observation) (message : M) (later : List ProcessFlowResult)
        (n : ℕ)
        → Holds p.violations history
        → suc (length history) < 2 ^ 63
        → DumpFits (suc n) p.dumped
        → (next : Pipeline) × (h : List Observation) × (handle_message capacity marshal process p
              message
            ≡ some next)
          × Holds next.violations h
          × (next.violations.capacity ≡ p.violations.capacity)
          × (length h ≤ suc (length history))
          × (recorded (f message ∷ later) history ≡ recorded later h)
          × DumpFits n next.dumped
          × (next.queue ++ take (capacity - length next.queue) (learned later)
              ≡ p.queue ++ take (capacity - length p.queue) (learned (f message ∷ later)))
    unfolding handle_message
    handle_message_lem p history message later n holds fits dumps =
        let (dumped, d, dumps') = dump_flow_lem marshal n p.dumped message dumps in
        let (next, h, e, holds', c, short, r, same, q) =
          handle_result_lem (record p { dumped = dumped }) history (f message) later holds fits in
        (next, h, rw (d, total message, e) refl, holds', c, short, r, rw same dumps', q)

    -- A stream on whose messages the scraper does not panic never panics itself, as long as fewer
    -- than 2^63 records accumulate in a buffer. The channel then holds what it held and the learned
    -- events that fit, in their order; the buffer holds the newest, as many as its capacity, of what it
    -- held and the recorded violations, newest first; and the connection counts as successful exactly when a message arrived.
    pub stream_sound :
        (messages : List M) (p : Pipeline) (history : List Observation)
        → Holds p.violations history
        → length history + length messages < 2 ^ 63
        → DumpFits (length messages) p.dumped
        → (last : Pipeline) × (stream capacity marshal process p messages
            ≡ some (last, ltb 0 (length messages)))
          × Holds last.violations (recorded (map f messages) history)
          × (last.violations.capacity ≡ p.violations.capacity)
          × (last.queue ≡ p.queue ++ take (capacity - length p.queue) (learned (map f messages)))
    unfolding stream recorded learned
    stream_sound [] p history holds fits dumps = (
      p,
      refl,
      holds,
      refl,
      sym (ap (λ l. p.queue ++ l) (take-nil (capacity - length p.queue)) ∙ append-nil p.queue),
    )
    stream_sound (message ∷ messages) p history holds fits dumps =
        let (next, h, e, holds', c, short, r, dumps', q) =
          handle_message_lem p history message (map f messages) (length messages) holds
            (omega arith) dumps in
        let (last, s, final, c', q') = stream_sound messages next h holds' (omega arith) dumps' in
        let some_arrived : ltb 0 (suc (length messages)) ≡ true = ground arith in
        (last, rw (e, s, some_arrived) refl, rw r final, c' ∙ c, q' ∙ q)
