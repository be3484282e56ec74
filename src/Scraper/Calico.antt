-- ===== src/Scraper/Calico.antt =====
-- internal/scraper/calico_flow_parser.go: what a Goldmane flow becomes, and the resolution of its
-- aggregated names.
pub mod Laws
pub mod Resolve
use Prim.Native.String.{◌++◌}
use network_enforcer.Common.{
  ℕ, zero, suc, String, List, [], ◌∷◌, Option, none, some, Bool, true, false, not, ◌||◌, ◌==◌,
  string_eq, option_eq, if◌then◌else◌,
}
use network_enforcer.Common.Int.{ℤ, pos, negsuc}
use network_enforcer.Common.Result.{Result, failed, ok}
use network_enforcer.Common.Text.{cut_suffix, cut_prefix, to_upper}
use network_enforcer.Api.Kube.{protocol_tcp, protocol_udp, policy_type_ingress, policy_type_egress}
use network_enforcer.Api.Types.{
  WorkloadRef, Observation, LearningEvent, bare_ref, backend_kubernetes, mode_protect,
}
use network_enforcer.Workload.{Pod, Client, get}
use network_enforcer.Scraper.Goldmane.{
  Action, action_allow, action_deny, other_action, Reporter, reporter_src, reporter_dst,
  other_reporter, PolicyKind, kind_network_policy, kind_end_of_tier, other_kind, Trigger, PolicyHit,
  FlowKey, GoldmaneFlow, discard_calico_flow,
}
use network_enforcer.Scraper.Flow.{
  FlowError, unsupported_protocol, endpoint_has_no_workload, skip_workload, port_out_of_range,
  other_error, port_to_int32, ProcessFlowResult, process_flow_skip, process_flow_enqueue,
  process_flow_record_violation, process_flow_error, supported_or_skip, resolve_parsed_flow,
}

unfoldable pub calico_violation_timestamp : ℕ → (ℕ → ℕ) → GoldmaneFlow → ℕ
calico_violation_timestamp now unix flow = elim flow.start_time [
  | pos zero ↦ now
  | pos (suc n) ↦ unix (suc n)
  | negsuc n ↦ now
]

abbrev pub reported_by_trigger : Option Trigger → Option (String × String)
reported_by_trigger none = none
reported_by_trigger (some trigger) = elim trigger.kind [
  | kind_network_policy ↦
      if trigger.name == "" then none else some (trigger.name, trigger.namespace)
  | kind_end_of_tier ↦ none
  | other_kind ↦ none
]

abbrev pub reported_by_kind : PolicyHit → PolicyKind → Option (String × String)
reported_by_kind policy kind_network_policy =
    if policy.name == "" then none else some (policy.name, policy.namespace)
reported_by_kind policy kind_end_of_tier = reported_by_trigger policy.trigger
reported_by_kind policy other_kind = none

-- what one hit reports, where it is a Deny
abbrev pub reported_by : PolicyHit → Action → Option (String × String)
reported_by policy action_deny = reported_by_kind policy policy.kind
reported_by policy action_allow = none
reported_by policy other_action = none

abbrev pub first_or : Option (String × String) → String × String → String × String
first_or none rest = rest
first_or (some reported) rest = reported

unfoldable pub denying_of_hits : List PolicyHit → String × String
denying_of_hits [] = ("", "")
denying_of_hits (policy ∷ policies) =
    let rest = denying_of_hits policies in first_or (reported_by policy policy.action) rest

-- the name and the namespace
unfoldable pub get_denying_policy : FlowKey → String × String
get_denying_policy key = elim key.policies [ none ↦ ("", "") | some hits ↦ denying_of_hits hits ]

abbrev pub with_proto : String → Result FlowError ℤ → Result FlowError (ℤ × String)
with_proto proto (failed err) = failed err
with_proto proto (ok port) = ok (port, proto)

unfoldable pub extract_calico_port_and_protocol : FlowKey → Result FlowError (ℤ × String)
extract_calico_port_and_protocol key =
    if to_upper key.proto == protocol_tcp
    then with_proto protocol_tcp (port_to_int32 key.dest_port)
    else if to_upper key.proto == protocol_udp
    then with_proto protocol_udp (port_to_int32 key.dest_port)
    else failed unsupported_protocol

abbrev pub source_ref : FlowKey → WorkloadRef
source_ref key = bare_ref key.source_namespace "" key.source_name

abbrev pub dest_ref : FlowKey → WorkloadRef
dest_ref key = bare_ref key.dest_namespace "" key.dest_name

abbrev pub learned_from : FlowKey → ℤ × String → ProcessFlowResult
learned_from key (dst_port, proto) = process_flow_enqueue (record {
  source = some (source_ref key);
  dest = some (dest_ref key);
  dst_port = dst_port;
  protocol = proto;
  backend = backend_kubernetes;
})

-- `now` is the time of metav1.Now, `unix` the time of time.Unix at a number of seconds.
module _ (now : ℕ) (unix : ℕ → ℕ) where
  abbrev pub recorded_from : GoldmaneFlow → FlowKey → ℤ × String → String → ProcessFlowResult
  recorded_from flow key (dst_port, proto) direction = process_flow_record_violation (record {
    provider = backend_kubernetes;
    direction = direction;
    info = record {
      timestamp = calico_violation_timestamp now unix flow;
      source = source_ref key;
      dest = dest_ref key;
      protocol = proto;
      dst_port = dst_port;
      action = mode_protect;
      denying_policy_namespace = (get_denying_policy key).1;
      denying_policy_name = (get_denying_policy key).0;
    };
  })

  abbrev pub parse_deny : GoldmaneFlow → FlowKey → ℤ × String → Reporter → ProcessFlowResult
  parse_deny flow key port reporter_src = recorded_from flow key port policy_type_egress
  parse_deny flow key port reporter_dst = recorded_from flow key port policy_type_ingress
  parse_deny flow key port other_reporter = process_flow_error other_error

  abbrev pub parse_action : GoldmaneFlow → FlowKey → ℤ × String → Action → ProcessFlowResult
  parse_action flow key port action_deny = parse_deny flow key port key.reporter
  parse_action flow key port action_allow = learned_from key port
  parse_action flow key port other_action = learned_from key port

  abbrev pub parse_with_port :
      GoldmaneFlow → FlowKey → Result FlowError (ℤ × String) → ProcessFlowResult
  parse_with_port flow key (failed unsupported_protocol) = process_flow_skip
  parse_with_port flow key (failed endpoint_has_no_workload) =
      process_flow_error endpoint_has_no_workload
  parse_with_port flow key (failed skip_workload) = process_flow_error skip_workload
  parse_with_port flow key (failed port_out_of_range) = process_flow_error port_out_of_range
  parse_with_port flow key (failed other_error) = process_flow_error other_error
  parse_with_port flow key (ok port) = parse_action flow key port key.action

  -- a nil key is discarded
  abbrev pub parse_key : GoldmaneFlow → Option FlowKey → ProcessFlowResult
  parse_key flow none = process_flow_skip
  parse_key flow (some key) =
      if discard_calico_flow (some key)
      then process_flow_skip
      else parse_with_port flow key (extract_calico_port_and_protocol key)

  -- the result, its flow and the key of that may each be nil
  unfoldable pub parse_calico_flow : Option (Option GoldmaneFlow) → ProcessFlowResult
  parse_calico_flow none = process_flow_error other_error
  parse_calico_flow (some none) = process_flow_error other_error
  parse_calico_flow (some (some flow)) = parse_key flow flow.key

module _ (c : Client) where
  abbrev pub is_generated : String → Pod → Bool
  is_generated generate_name pod =
      pod.generate_name == generate_name || not (cut_prefix pod.name generate_name == none)

  -- the loop over the pods; no pod gives the zero WorkloadRef
  unfoldable pub resolve_first : String → List Pod → Option WorkloadRef
  resolve_first generate_name [] = some (bare_ref "" "" "")
  resolve_first generate_name (pod ∷ pods) =
      let rest = resolve_first generate_name pods in
      if is_generated generate_name pod then get c pod.namespace pod.name else rest

  abbrev pub resolve_among : String → Option (List Pod) → Option WorkloadRef
  resolve_among generate_name none = none
  resolve_among generate_name (some pods) = resolve_first generate_name pods

  -- `none` is an error
  unfoldable pub resolve_pod : String → String → Option WorkloadRef
  resolve_pod namespace owner_name = resolve_among (owner_name ++ "-") (c.list_pods namespace)

  abbrev pub resolve_owner : WorkloadRef → Option String → Result FlowError WorkloadRef
  resolve_owner ref none = failed skip_workload
  resolve_owner ref (some owner_name) =
      if owner_name == ""
      then failed skip_workload
      else supported_or_skip (resolve_pod ref.namespace owner_name)

  unfoldable pub resolve : WorkloadRef → Result FlowError WorkloadRef
  resolve ref = resolve_owner ref (cut_suffix ref.owner_name "-*")

  -- what the stream does with each message
  unfoldable pub process_calico_flow :
      ℕ → (ℕ → ℕ) → Option (Option GoldmaneFlow) → Option ProcessFlowResult
  process_calico_flow now unix flow_result =
      resolve_parsed_flow resolve c (parse_calico_flow now unix flow_result)
