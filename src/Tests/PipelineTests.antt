-- ===== src/Tests/PipelineTests.antt =====
-- Resolution, streams and their supervision at concrete inputs.
use network_enforcer.Common.{
  ℕ, ◌-◌, ◌≡◌, refl, arith, ◌⊎◌, [], ◌∷◌, ◌++◌, none, some, true, false, ltb, take, map, All,
}
use network_enforcer.Common.Int.{pos}
use network_enforcer.Common.Result.{Result, ok}
use network_enforcer.Ringbuf.{new_with_size}
use network_enforcer.Ringbuf.Inv.{Holds, Holds-new_with_size}
use network_enforcer.Api.Types.{WorkloadRef}
use network_enforcer.Scraper.Flow.{FlowError, ProcessFlowResult, process_flow_record_violation}
use network_enforcer.Scraper.Pipeline.{Pipeline, stream}
use network_enforcer.Scraper.Pipeline.Laws.{learned, recorded, DumpFits, stream_sound}
use network_enforcer.Scraper.Reconnect.{Round, running, gave_up, run_stream_with_reconnect}
use network_enforcer.Scraper.Reconnect.Laws.{Survived, EndedBy, run_stream_with_reconnect_sound}
use network_enforcer.Tests.Data.{observation}

-- a resolution that changes nothing
abbrev as_is : WorkloadRef → Result FlowError WorkloadRef
as_is ref = ok ref

abbrev pub empty_pipeline : Pipeline
empty_pipeline = record {
  queue = [];
  violations = new_with_size observation (pos 2);
  emitted = some [];
  dumped = none;
}

abbrev always : ℕ → ProcessFlowResult
always message = process_flow_record_violation observation

no_dumps : (n : ℕ) → DumpFits n none
unfolding DumpFits
no_dumps n = tt

stream_sound_example :
    (last : Pipeline) × (stream 4
        (λ n. some "x")
        (λ n. some (always n))
        empty_pipeline
        (1 ∷ 2 ∷ 3 ∷ [])
      ≡ some (last, ltb 0 3))
    × Holds last.violations (recorded (map always (1 ∷ 2 ∷ 3 ∷ [])) [])
    × (last.violations.capacity ≡ empty_pipeline.violations.capacity)
    × (last.queue ≡ [] ++ take (4 - 0) (learned (map always (1 ∷ 2 ∷ 3 ∷ []))))
stream_sound_example =
    stream_sound 4 (λ n. some "x") (λ n. some (always n)) always (λ n. refl) (1 ∷ 2 ∷ 3 ∷ [])
      empty_pipeline [] (Holds-new_with_size observation (pos 2)) (omega arith) (no_dumps 3)

abbrev interrupted : Round
interrupted = record {
  cancellation = false;
  context_done = false;
  successful_connection = true;
  done_while_waiting = false;
}

abbrev unreachable : Round
unreachable = record interrupted { successful_connection = false }

gives_up : run_stream_with_reconnect (interrupted ∷ unreachable ∷ []) ≡ gave_up
unfolding run_stream_with_reconnect
gives_up = refl

run_stream_with_reconnect_sound_example :
    (All Survived (interrupted ∷ unreachable ∷ [])
      × (run_stream_with_reconnect (interrupted ∷ unreachable ∷ []) ≡ running))
    ⊎ EndedBy
        (interrupted ∷ unreachable ∷ [])
        (run_stream_with_reconnect (interrupted ∷ unreachable ∷ []))
run_stream_with_reconnect_sound_example =
    run_stream_with_reconnect_sound (interrupted ∷ unreachable ∷ [])
