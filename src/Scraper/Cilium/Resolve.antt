-- ===== src/Scraper/Cilium/Resolve.antt =====
-- internal/scraper/cilium_flow_parser.go: every message is processed, and what is learned or
-- recorded names resolved workloads.
use network_enforcer.Common.{
  ℕ, String, ◌≡◌, refl, inl, inr, Option, none, some, Bool-cases, ◌==◌, string_eq,
}
use network_enforcer.Common.Result.{ok}
use network_enforcer.Api.Types.{WorkloadRef, kind_pod}
use network_enforcer.Workload.{Client, get}
use network_enforcer.Workload.Laws.{
  IsResolved, get-IsResolved, lookup_pod_selector_for_workload-IsResolved,
}
use network_enforcer.Scraper.Flow.{
  supported_or_skip, complete_selector, completed, ProcessFlowResult, process_flow_skip,
  process_flow_enqueue, process_flow_record_violation, process_flow_error,
}
use network_enforcer.Scraper.Flow.Resolved.{
  supported_or_skip_lem, Resolved, HasEnds, process_parsed,
}
use network_enforcer.Scraper.Hubble.{Flow}
use network_enforcer.Scraper.Cilium.{
  FlowsResponse, flow_response, lost_events, node_status, other_response, resolve, resolve_pod,
  process_flow,
}
use network_enforcer.Scraper.Cilium.Laws.{Sound, Learned, parse_cilium_flow_response-Sound}

module _ (c : Client) where
  supported_or_skip-IsResolved :
      (namespace name : String) (resolved : WorkloadRef)
      → supported_or_skip (get c namespace name) ≡ ok resolved
      → IsResolved c resolved
  supported_or_skip-IsResolved namespace name resolved h =
      let (e, k) = supported_or_skip_lem _ resolved h in
      get-IsResolved c namespace name resolved e k

  complete_selector-IsResolved :
      (ref resolved : WorkloadRef) → complete_selector c ref ≡ ok resolved → IsResolved c resolved
  unfolding complete_selector
  complete_selector-IsResolved ref resolved h =
      lookup_pod_selector_for_workload-IsResolved c ref resolved (completed_lem _ h)
    where
      completed_lem :
          (found : Option WorkloadRef) → completed found ≡ ok resolved → found ≡ some resolved
      completed_lem none h = cc
      completed_lem (some r) h = cc

  resolve-IsResolved :
      (ref resolved : WorkloadRef) → resolve c ref ≡ ok resolved → IsResolved c resolved
  unfolding resolve resolve_pod
  resolve-IsResolved ref resolved h = elim (Bool-cases (ref.owner_kind == kind_pod)) [
    | inl e ↦ supported_or_skip-IsResolved ref.namespace ref.owner_name resolved (rw e at h)
    | inr e ↦ complete_selector-IsResolved ref resolved (rw e at h)
  ]

  Sound-HasEnds : (flow : Flow) (parsed : ProcessFlowResult) → Sound flow parsed → HasEnds parsed
  unfolding Sound HasEnds Learned
  Sound-HasEnds flow process_flow_skip h = tt
  Sound-HasEnds flow (process_flow_error err) h = tt
  Sound-HasEnds flow (process_flow_record_violation observation) h = tt
  Sound-HasEnds flow (process_flow_enqueue event) (source, dest, e, f, _, _, _, _, _) =
      (source, dest, e, f)

  -- Every message that Hubble sends is processed with no nil dereference. Both ends of a learned
  -- event and the subject of a recorded violation are then workloads of a supported kind, with the
  -- non-empty selector that the API server holds for them.
  pub process_flow_sound :
      (now : ℕ) (response : Option FlowsResponse)
      → (result : ProcessFlowResult) × (process_flow c now response ≡ some result)
        × Resolved (IsResolved c) result
  unfolding process_flow Resolved
  process_flow_sound now none = (_, refl, tt)
  process_flow_sound now (some (flow_response none)) = (_, refl, tt)
  process_flow_sound now (some (flow_response (some flow))) =
      let (parsed, e, sound) = parse_cilium_flow_response-Sound now flow in
      rw e (
        process_parsed (resolve c) c (IsResolved c) (resolve-IsResolved) parsed
          (Sound-HasEnds flow parsed sound))
  process_flow_sound now (some (lost_events none)) = (_, refl, tt)
  process_flow_sound now (some (lost_events (some count))) = (_, refl, tt)
  process_flow_sound now (some node_status) = (_, refl, tt)
  process_flow_sound now (some other_response) = (_, refl, tt)
