-- ===== src/Scraper/Hubble.antt =====
-- internal/scraper/cilium_flow_parser.go: the messages of Hubble and the workloads of their endpoints.
-- A nil pointer is `none`, an enumeration has the values that the code tests for.
use network_enforcer.Common.{
  ℕ, String, List, [], ◌∷◌, Option, none, some, Bool, true, false, not, ◌&&◌, ◌==◌, string_eq,
  if◌then◌else◌,
}
use network_enforcer.Common.Int.{ℤ, pos}
use network_enforcer.Common.Result.{Result, failed, ok}
use network_enforcer.Api.Kube.{protocol_tcp, protocol_udp, policy_type_ingress, policy_type_egress}
use network_enforcer.Api.Types.{WorkloadRef, bare_ref, is_supported, kind_pod}
use network_enforcer.Scraper.Flow.{
  FlowError, unsupported_protocol, endpoint_has_no_workload, skip_workload, port_out_of_range,
  other_error, port_to_int32,
}

pub record HubbleWorkload : Type 0 where
  pub name : String
  pub kind : String

pub record Endpoint : Type 0 where
  pub namespace : String
  pub pod_name : String
  pub workloads : List HubbleWorkload

pub data Layer4 : Type 0 where
  tcp : ℕ → Layer4
  udp : ℕ → Layer4
  other_protocol : Layer4

pub data Verdict : Type 0 where
  verdict_dropped : Verdict
  other_verdict : Verdict

pub data DropReason : Type 0 where
  policy_denied : DropReason
  policy_deny : DropReason
  other_reason : DropReason

-- `other_direction` is a value outside of the enumeration.
pub data TrafficDirection : Type 0 where
  traffic_direction_unknown : TrafficDirection
  traffic_direction_ingress : TrafficDirection
  traffic_direction_egress : TrafficDirection
  other_direction : TrafficDirection

pub record Flow : Type 0 where
  pub is_reply : Option Bool
  pub time : Option ℕ
  pub l4 : Option Layer4
  pub source : Option Endpoint
  pub destination : Option Endpoint
  pub ip_source : String
  pub ip_destination : String
  pub verdict : Verdict
  pub drop_reason : DropReason
  pub traffic_direction : TrafficDirection

unfoldable pub convert_kind : String → String
convert_kind kind = kind

unfoldable pub handle_no_workload : Endpoint → Result FlowError WorkloadRef
handle_no_workload endpoint =
    if not (endpoint.pod_name == "")
    then ok (bare_ref endpoint.namespace kind_pod endpoint.pod_name)
    else failed endpoint_has_no_workload

abbrev pub of_workloads : Endpoint → List HubbleWorkload → Result FlowError WorkloadRef
of_workloads endpoint [] = handle_no_workload endpoint
of_workloads endpoint (w ∷ []) = ok (bare_ref endpoint.namespace (convert_kind w.kind) w.name)
of_workloads endpoint (w ∷ v ∷ ws) = failed other_error

unfoldable pub from_endpoint_to_workload_ref : Option Endpoint → Result FlowError WorkloadRef
from_endpoint_to_workload_ref none = failed other_error
from_endpoint_to_workload_ref (some endpoint) = of_workloads endpoint endpoint.workloads

unfoldable pub discard_flow : Flow → Bool
discard_flow flow = elim flow.is_reply [ none ↦ false | some reply ↦ reply ]

-- `now` is the time of metav1.Now
unfoldable pub violation_timestamp : ℕ → Flow → ℕ
violation_timestamp now flow = elim flow.time [ none ↦ now | some t ↦ t ]

abbrev pub with_port : String → Result FlowError ℤ → Result FlowError (ℤ × String)
with_port proto (failed err) = failed err
with_port proto (ok port) = ok (port, proto)

abbrev pub port_of_layer : Option Layer4 → Result FlowError (ℤ × String)
port_of_layer none = failed other_error
port_of_layer (some (tcp port)) = with_port protocol_tcp (port_to_int32 (pos port))
port_of_layer (some (udp port)) = with_port protocol_udp (port_to_int32 (pos port))
port_of_layer (some other_protocol) = failed unsupported_protocol

unfoldable pub extract_port_and_protocol : Flow → Result FlowError (ℤ × String)
extract_port_and_protocol flow = port_of_layer flow.l4

unfoldable pub should_skip_workload : WorkloadRef → Bool
should_skip_workload workload =
    not (is_supported workload.owner_kind) && not (workload.owner_kind == kind_pod)

abbrev pub skip_of : Result FlowError WorkloadRef → Result FlowError (Option WorkloadRef × Bool)
skip_of (ok ref) = ok (some ref, should_skip_workload ref)
skip_of (failed endpoint_has_no_workload) = ok (none, true)
skip_of (failed unsupported_protocol) = failed unsupported_protocol
skip_of (failed skip_workload) = failed skip_workload
skip_of (failed port_out_of_range) = failed port_out_of_range
skip_of (failed other_error) = failed other_error

unfoldable pub cilium_workload_ref : Option Endpoint → Result FlowError (Option WorkloadRef × Bool)
cilium_workload_ref endpoint = skip_of (from_endpoint_to_workload_ref endpoint)

abbrev pub or_address : Option WorkloadRef → String → Option WorkloadRef
or_address none address = some (bare_ref "" "" address)
or_address (some ref) address = some ref

-- the two ends, which may be nil, and whether the subject is a workload
unfoldable pub cilium_violation_endpoints :
    Flow
    → String
    → Option WorkloadRef × Bool
    → Option WorkloadRef × Bool
    → Option WorkloadRef × Option WorkloadRef × Bool
cilium_violation_endpoints flow direction (source, skip_source) (dest, skip_dest) =
    if direction == policy_type_egress
    then (source, or_address dest flow.ip_destination, not skip_source)
    else (or_address source flow.ip_source, dest, not skip_dest)

abbrev pub is_policy_drop : DropReason → Bool
is_policy_drop policy_denied = true
is_policy_drop policy_deny = true
is_policy_drop other_reason = false

abbrev pub direction_of : TrafficDirection → Result FlowError String
direction_of traffic_direction_unknown = failed other_error
direction_of traffic_direction_ingress = ok policy_type_ingress
direction_of traffic_direction_egress = ok policy_type_egress
direction_of other_direction = ok ""
