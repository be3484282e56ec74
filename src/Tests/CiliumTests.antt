-- ===== src/Tests/CiliumTests.antt =====
-- Hubble flows at concrete inputs.
use network_enforcer.Common.{◌≡◌, refl, [], ◌∷◌, none, some, false}
use network_enforcer.Common.Int.{pos}
use network_enforcer.Api.Types.{bare_ref, is_supported}
use network_enforcer.Workload.Laws.{IsResolved}
use network_enforcer.Scraper.Flow.{ProcessFlowResult, process_flow_enqueue, port_to_int32}
use network_enforcer.Scraper.Flow.Resolved.{Resolved}
use network_enforcer.Scraper.Hubble.{
  Endpoint, Flow, tcp, other_verdict, verdict_dropped, policy_denied, traffic_direction_egress,
  traffic_direction_ingress, discard_flow, extract_port_and_protocol, cilium_workload_ref,
  from_endpoint_to_workload_ref, convert_kind, should_skip_workload,
}
use network_enforcer.Scraper.Cilium.{flow_response, parse_cilium_flow_response, process_flow}
use network_enforcer.Scraper.Cilium.Laws.{Sound, parse_cilium_flow_response-Sound}
use network_enforcer.Scraper.Cilium.Resolve.{process_flow_sound}
use network_enforcer.Tests.Cluster.{client}

abbrev web_endpoint : Endpoint
web_endpoint = record {
  namespace = "shop";
  pod_name = "web-5d4-x7";
  workloads = record { name = "web"; kind = "Deployment" } ∷ [];
}

abbrev db_endpoint : Endpoint
db_endpoint = record {
  namespace = "shop";
  pod_name = "db-0";
  workloads = record { name = "db"; kind = "StatefulSet" } ∷ [];
}

abbrev forwarded : Flow
forwarded = record {
  is_reply = some false;
  time = some 100;
  l4 = some (tcp 5432);
  source = some web_endpoint;
  destination = some db_endpoint;
  ip_source = "10.0.0.1";
  ip_destination = "10.0.0.2";
  verdict = other_verdict;
  drop_reason = policy_denied;
  traffic_direction = traffic_direction_ingress;
}

-- dropped on its way out of the cluster
abbrev dropped : Flow
dropped = record forwarded {
  is_reply = none;
  destination = some (record { namespace = ""; pod_name = ""; workloads = [] });
  verdict = verdict_dropped;
  traffic_direction = traffic_direction_egress;
}

forwarded_is_learned :
    parse_cilium_flow_response 7 forwarded
    ≡ some (
        process_flow_enqueue (record {
          source = some (bare_ref "shop" "Deployment" "web");
          dest = some (bare_ref "shop" "StatefulSet" "db");
          dst_port = pos 5432;
          protocol = "TCP";
          backend = "kubernetes";
        }))
unfolding parse_cilium_flow_response discard_flow extract_port_and_protocol port_to_int32
    cilium_workload_ref from_endpoint_to_workload_ref convert_kind should_skip_workload is_supported
forwarded_is_learned = refl

parse_cilium_flow_response-Sound_example :
    (result : ProcessFlowResult) × (parse_cilium_flow_response 7 dropped ≡ some result)
    × Sound dropped result
parse_cilium_flow_response-Sound_example = parse_cilium_flow_response-Sound 7 dropped

process_flow_sound_example :
    (result : ProcessFlowResult) × (process_flow client 7 (some (flow_response (some forwarded)))
      ≡ some result)
    × Resolved (IsResolved client) result
process_flow_sound_example = process_flow_sound client 7 (some (flow_response (some forwarded)))
