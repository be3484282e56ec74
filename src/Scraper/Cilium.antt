-- ===== src/Scraper/Cilium.antt =====
-- internal/scraper/cilium_flow_parser.go: what a Hubble flow becomes, and the resolution of its
-- workloads.
pub mod Laws
pub mod Resolve
use network_enforcer.Common.{
  ℕ, String, Option, none, some, Bool, true, false, not, ◌||◌, ◌==◌, string_eq, if◌then◌else◌,
}
use network_enforcer.Common.Int.{ℤ}
use network_enforcer.Common.Result.{Result, failed, ok}
use network_enforcer.Api.Types.{
  WorkloadRef, Observation, is_supported, kind_pod, backend_kubernetes, mode_protect,
}
use network_enforcer.Workload.{Client, get}
use network_enforcer.Scraper.Flow.{
  FlowError, unsupported_protocol, endpoint_has_no_workload, skip_workload, port_out_of_range,
  other_error, ProcessFlowResult, process_flow_skip, process_flow_enqueue,
  process_flow_record_violation, process_flow_error, resolve_parsed_flow, complete_selector,
  supported_or_skip,
}
use network_enforcer.Scraper.Hubble.{
  Endpoint, Flow, Verdict, verdict_dropped, other_verdict, discard_flow, violation_timestamp,
  extract_port_and_protocol, cilium_workload_ref, cilium_violation_endpoints, is_policy_drop,
  direction_of,
}

-- From here `none` is a nil dereference.
module _ (now : ℕ) where
  abbrev pub observed : Flow → String → ℤ × String → WorkloadRef → WorkloadRef → Observation
  observed flow direction (dst_port, proto) source dest = record {
    provider = backend_kubernetes;
    direction = direction;
    info = record {
      timestamp = violation_timestamp now flow;
      source = source;
      dest = dest;
      protocol = proto;
      dst_port = dst_port;
      action = mode_protect;
      denying_policy_namespace = "";
      denying_policy_name = "";
    };
  }

  abbrev pub record_ends :
      Flow
      → String
      → ℤ × String
      → Option WorkloadRef × Option WorkloadRef × Bool
      → Option ProcessFlowResult
  record_ends flow direction port (source, dest, false) = some process_flow_skip
  record_ends flow direction port (some source, some dest, true) =
      some (process_flow_record_violation (observed flow direction port source dest))
  record_ends flow direction port (some source, none, true) = none
  record_ends flow direction port (none, dest, true) = none

  abbrev pub parse_drop :
      Flow
      → ℤ × String
      → Option WorkloadRef × Bool
      → Option WorkloadRef × Bool
      → Result FlowError String
      → Option ProcessFlowResult
  parse_drop flow port source dest (failed err) = some (process_flow_error err)
  parse_drop flow port source dest (ok direction) =
      record_ends flow direction port (cilium_violation_endpoints flow direction source dest)

  abbrev pub learn :
      ℤ × String → Option WorkloadRef × Bool → Option WorkloadRef × Bool → Option ProcessFlowResult
  learn (dst_port, proto) (source, skip_source) (dest, skip_dest) =
      if skip_source || skip_dest
      then some process_flow_skip
      else some (
          process_flow_enqueue (record {
            source = source;
            dest = dest;
            dst_port = dst_port;
            protocol = proto;
            backend = backend_kubernetes;
          }))

  abbrev pub parse_ends :
      Flow
      → ℤ × String
      → Option WorkloadRef × Bool
      → Option WorkloadRef × Bool
      → Verdict
      → Option ProcessFlowResult
  parse_ends flow port source dest verdict_dropped =
      if not (is_policy_drop flow.drop_reason)
      then some process_flow_skip
      else parse_drop flow port source dest (direction_of flow.traffic_direction)
  parse_ends flow port source dest other_verdict = learn port source dest

  abbrev pub with_destination :
      Flow
      → ℤ × String
      → Option WorkloadRef × Bool
      → Result FlowError (Option WorkloadRef × Bool)
      → Option ProcessFlowResult
  with_destination flow port source (failed err) = some (process_flow_error err)
  with_destination flow port source (ok dest) = parse_ends flow port source dest flow.verdict

  abbrev pub with_source :
      Flow → ℤ × String → Result FlowError (Option WorkloadRef × Bool) → Option ProcessFlowResult
  with_source flow port (failed err) = some (process_flow_error err)
  with_source flow port (ok source) =
      with_destination flow port source (cilium_workload_ref flow.destination)

  abbrev pub with_port_of : Flow → Result FlowError (ℤ × String) → Option ProcessFlowResult
  with_port_of flow (failed unsupported_protocol) = some process_flow_skip
  with_port_of flow (failed endpoint_has_no_workload) =
      some (process_flow_error endpoint_has_no_workload)
  with_port_of flow (failed skip_workload) = some (process_flow_error skip_workload)
  with_port_of flow (failed port_out_of_range) = some (process_flow_error port_out_of_range)
  with_port_of flow (failed other_error) = some (process_flow_error other_error)
  with_port_of flow (ok port) = with_source flow port (cilium_workload_ref flow.source)

  unfoldable pub parse_cilium_flow_response : Flow → Option ProcessFlowResult
  parse_cilium_flow_response flow =
      if discard_flow flow
      then some process_flow_skip
      else with_port_of flow (extract_port_and_protocol flow)

pub data FlowsResponse : Type 0 where
  flow_response : Option Flow → FlowsResponse
  lost_events : Option ℕ → FlowsResponse
  node_status : FlowsResponse
  other_response : FlowsResponse

module _ (c : Client) where
  unfoldable pub resolve_pod : WorkloadRef → Result FlowError WorkloadRef
  resolve_pod ref = supported_or_skip (get c ref.namespace ref.owner_name)

  unfoldable pub resolve : WorkloadRef → Result FlowError WorkloadRef
  resolve ref = if ref.owner_kind == kind_pod then resolve_pod ref else complete_selector c ref

  abbrev pub resolve_flow : Option ProcessFlowResult → Option ProcessFlowResult
  resolve_flow none = none
  resolve_flow (some parsed) = resolve_parsed_flow resolve c parsed

  unfoldable pub process_flow : ℕ → Option FlowsResponse → Option ProcessFlowResult
  process_flow now none = some (process_flow_error other_error)
  process_flow now (some (flow_response none)) = some (process_flow_error other_error)
  process_flow now (some (flow_response (some flow))) =
      resolve_flow (parse_cilium_flow_response now flow)
  process_flow now (some (lost_events none)) = some (process_flow_error other_error)
  process_flow now (some (lost_events (some count))) = some process_flow_skip
  process_flow now (some node_status) = some process_flow_skip
  process_flow now (some other_response) = some process_flow_skip
