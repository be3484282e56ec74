-- ===== src/Scraper/Flow.antt =====
-- internal/scraper/flow_parser_helpers.go: ports, the outcome of a flow, and the resolution of its
-- workloads.
pub mod Laws
pub mod Resolved
use network_enforcer.Common.{
  ℕ, ◌^◌, ◌≡◌, String, Option, none, some, Bool, true, false, not, ◌||◌, ◌==◌, string_eq,
  if◌then◌else◌,
}
use network_enforcer.Common.Int.{ℤ, pos, leb_ℤ}
use network_enforcer.Common.Result.{Result, failed, ok, and_then, value_or}
use network_enforcer.Common.Text.Decimal.{parse_int}
use network_enforcer.Api.Kube.{NamespacedName, policy_type_ingress}
use network_enforcer.Api.Types.{WorkloadRef, Observation, LearningEvent, is_supported}
use network_enforcer.Workload.{Client, resolve_denying_policy, lookup_pod_selector_for_workload}

-- An error by the sentinel that errors.Is finds in it, whatever wraps it; the texts are only logged.
pub data FlowError : Type 0 where
  unsupported_protocol : FlowError
  endpoint_has_no_workload : FlowError
  skip_workload : FlowError
  port_out_of_range : FlowError
  other_error : FlowError

abbrev pub min_valid_port : ℤ
min_valid_port = pos 1

abbrev pub max_valid_port : ℤ
max_valid_port = pos 65535

abbrev pub outside : ℤ → ℤ → ℤ → Bool
outside low high port = not (leb_ℤ low port) || not (leb_ℤ port high)

unfoldable pub port_to_int32 : ℤ → Result FlowError ℤ
port_to_int32 port =
    if outside (pos 0) max_valid_port port then failed port_out_of_range else ok port

abbrev pub check_port : Option ℤ → Result FlowError ℤ
check_port none = failed other_error
check_port (some port) =
    if outside min_valid_port max_valid_port port
    then failed port_out_of_range
    else port_to_int32 port

unfoldable pub parse_port : String → Result FlowError ℤ
parse_port port = check_port (parse_int (2 ^ 31) port)

pub data ProcessFlowResult : Type 0 where
  process_flow_skip : ProcessFlowResult
  process_flow_enqueue : LearningEvent → ProcessFlowResult
  process_flow_record_violation : Observation → ProcessFlowResult
  process_flow_error : FlowError → ProcessFlowResult

unfoldable pub resolve_outcome : FlowError → ProcessFlowResult
resolve_outcome skip_workload = process_flow_skip
resolve_outcome unsupported_protocol = process_flow_error unsupported_protocol
resolve_outcome endpoint_has_no_workload = process_flow_error endpoint_has_no_workload
resolve_outcome port_out_of_range = process_flow_error port_out_of_range
resolve_outcome other_error = process_flow_error other_error

abbrev pub set_denying_policy : Observation → Option NamespacedName → Observation
set_denying_policy observation none = observation
set_denying_policy observation (some policy) = record observation {
  info = record observation.info {
    denying_policy_name = policy.name;
    denying_policy_namespace = policy.namespace;
  };
}

abbrev pub subject_of : Observation → WorkloadRef
subject_of observation =
    if observation.direction == policy_type_ingress
    then observation.info.dest
    else observation.info.source

unfoldable pub resolve_violation_denying_policy : Client → Observation → Observation
resolve_violation_denying_policy c observation =
    if not (observation.info.denying_policy_name == "")
    then observation
    else set_denying_policy observation
        (resolve_denying_policy c (subject_of observation) observation.direction)

abbrev pub with_dest : LearningEvent → Result FlowError WorkloadRef → ProcessFlowResult
with_dest event (failed err) = resolve_outcome err
with_dest event (ok dest) = process_flow_enqueue (record event { dest = some dest })

abbrev pub resolved_ends : Observation → WorkloadRef → WorkloadRef → Observation
resolved_ends observation subject peer =
    if observation.direction == policy_type_ingress
    then record observation { info = record observation.info { source = peer; dest = subject } }
    else record observation { info = record observation.info { source = subject; dest = peer } }

abbrev pub peer_of : Observation → WorkloadRef
peer_of observation =
    if observation.direction == policy_type_ingress
    then observation.info.source
    else observation.info.dest

-- A resolution that fails leaves the reference as it was. `none` is a nil dereference.
module _ (resolve_workload : WorkloadRef → Result FlowError WorkloadRef) (c : Client) where
  abbrev pub resolve_dest : LearningEvent → Option WorkloadRef → Option ProcessFlowResult
  resolve_dest event none = none
  resolve_dest event (some dest) = some (with_dest event (resolve_workload dest))

  abbrev pub with_source : LearningEvent → Result FlowError WorkloadRef → Option ProcessFlowResult
  with_source event (failed err) = some (resolve_outcome err)
  with_source event (ok source) = resolve_dest (record event { source = some source }) event.dest

  abbrev pub resolve_event : LearningEvent → Option WorkloadRef → Option ProcessFlowResult
  resolve_event event none = none
  resolve_event event (some source) = with_source event (resolve_workload source)

  -- the subject must resolve, the peer keeps its value where it does not
  abbrev pub with_subject : Observation → Result FlowError WorkloadRef → ProcessFlowResult
  with_subject observation (failed err) = resolve_outcome err
  with_subject observation (ok subject) =
      let peer = value_or (peer_of observation) (resolve_workload (peer_of observation)) in
      process_flow_record_violation
        (resolve_violation_denying_policy c (resolved_ends observation subject peer))

  unfoldable pub resolve_parsed_flow : ProcessFlowResult → Option ProcessFlowResult
  resolve_parsed_flow process_flow_skip = some process_flow_skip
  resolve_parsed_flow (process_flow_error err) = some (process_flow_error err)
  resolve_parsed_flow (process_flow_enqueue event) = resolve_event event event.source
  resolve_parsed_flow (process_flow_record_violation observation) =
      some (with_subject observation (resolve_workload (subject_of observation)))

abbrev pub completed : Option WorkloadRef → Result FlowError WorkloadRef
completed none = failed other_error
completed (some ref) = ok ref

unfoldable pub complete_selector : Client → WorkloadRef → Result FlowError WorkloadRef
complete_selector c ref = completed (lookup_pod_selector_for_workload c ref)

-- the check that both resolvers end with
abbrev pub supported_or_skip : Option WorkloadRef → Result FlowError WorkloadRef
supported_or_skip none = failed other_error
supported_or_skip (some resolved) =
    if not (is_supported resolved.owner_kind) then failed skip_workload else ok resolved
