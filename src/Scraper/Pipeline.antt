-- ===== src/Scraper/Pipeline.antt =====
-- internal/scraper/cilium_scraper.go, calico_scraper.go, scraper_helpers.go and
-- internal/controller/learning_controller.go: where the scrapers put what they observe, and the
-- loop over a stream of flows. `none` is a panic.
pub mod Laws
use network_enforcer.Common.{
  ℕ, String, List, [], ◌∷◌, ◌++◌, Option, none, some, Bool, true, false, ltb, length, if◌then◌else◌,
}
use network_enforcer.Ringbuf.{Buffer, record_item, ◌>>=◌}
use network_enforcer.Api.Types.{Observation, LearningEvent}
use network_enforcer.Otel.{OtelRecord, otel_record}
use network_enforcer.Scraper.Flow.{
  ProcessFlowResult, process_flow_skip, process_flow_enqueue, process_flow_record_violation,
  process_flow_error,
}

-- The events of the channel oldest first; the logger and the buffer of flow dumps may be nil.
pub record Pipeline : Type 0 where
  pub queue : List LearningEvent
  pub violations : Buffer Observation
  pub emitted : Option (List OtelRecord)
  pub dumped : Option (Buffer String)

-- a send to a channel of this capacity that does not wait
unfoldable pub enqueue_event : ℕ → List LearningEvent → LearningEvent → Bool × List LearningEvent
enqueue_event capacity queue evt =
    if ltb (length queue) capacity then (true, queue ++ evt ∷ []) else (false, queue)

unfoldable pub emit_otel_log : Option (List OtelRecord) → Observation → Option (List OtelRecord)
emit_otel_log none observation = none
emit_otel_log (some emitted) observation = some (emitted ++ otel_record observation ∷ [])

abbrev pub dump_marshaled : Buffer String → Option String → Option (Option (Buffer String))
dump_marshaled buf none = some (some buf)
dump_marshaled buf (some marshaled) = do
  (dropped, written) ← record_item buf marshaled
  some (some written)

-- `marshal` is the JSON encoding, which may fail
unfoldable pub dump_flow {ℓ} :
    {M : Type ℓ}
    → (M → Option String)
    → Option (Buffer String)
    → M
    → Option (Option (Buffer String))
dump_flow marshal none flow = some none
dump_flow marshal (some buf) flow = dump_marshaled buf (marshal flow)

-- the observation is emitted, then recorded
unfoldable pub record_observation : Pipeline → Observation → Option Pipeline
record_observation p observation = do
  (dropped, violations) ← record_item p.violations observation
  some (record p { emitted = emit_otel_log p.emitted observation; violations = violations })

module _ (capacity : ℕ) where
  unfoldable pub enqueue_learning_event : Pipeline → LearningEvent → Pipeline
  enqueue_learning_event p event = record p { queue = (enqueue_event capacity p.queue event).1 }

  -- the switch over the outcome
  unfoldable pub handle_result : Pipeline → ProcessFlowResult → Option Pipeline
  handle_result p process_flow_skip = some p
  handle_result p (process_flow_error err) = some p
  handle_result p (process_flow_enqueue event) = some (enqueue_learning_event p event)
  handle_result p (process_flow_record_violation observation) = record_observation p observation

  -- `process` is what the scraper makes of a message
  module _ {ℓ} {M : Type ℓ} (marshal : M → Option String)
      (process : M → Option ProcessFlowResult) where
    unfoldable pub handle_message : Pipeline → M → Option Pipeline
    handle_message p message = do
      dumped ← dump_flow marshal p.dumped message
      result ← process message
      handle_result (record p { dumped = dumped }) result

    -- What a connected stream does with the messages that arrive before Recv fails, and whether
    -- one did arrive. Its error is nil exactly when the context is done.
    unfoldable pub stream : Pipeline → List M → Option (Pipeline × Bool)
    stream p [] = some (p, false)
    stream p (message ∷ messages) = do
      next ← handle_message p message
      (last, connected) ← stream next messages
      some (last, true)
