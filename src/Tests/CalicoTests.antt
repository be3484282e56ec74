-- ===== src/Tests/CalicoTests.antt =====
-- Goldmane flows at concrete inputs.
use network_enforcer.Common.{◌≡◌, refl, [], ◌∷◌, some}
use network_enforcer.Common.Int.{pos}
use network_enforcer.Workload.Laws.{IsResolved}
use network_enforcer.Scraper.Flow.{ProcessFlowResult}
use network_enforcer.Scraper.Flow.Resolved.{Resolved}
use network_enforcer.Scraper.Goldmane.{
  FlowKey, GoldmaneFlow, workload_endpoint, network, action_deny, reporter_src, kind_end_of_tier,
  kind_network_policy,
}
use network_enforcer.Scraper.Calico.{
  parse_calico_flow, process_calico_flow, get_denying_policy, denying_of_hits,
}
use network_enforcer.Scraper.Calico.Laws.{Sound, parse_calico_flow-Sound}
use network_enforcer.Scraper.Calico.Resolve.{process_calico_flow_sound}
use network_enforcer.Tests.Cluster.{client}

-- denied at the end of a tier, on its way out of the cluster
abbrev denied : FlowKey
denied = record {
  source_name = "web-5d4-*";
  source_namespace = "shop";
  source_type = workload_endpoint;
  dest_name = "pub";
  dest_namespace = "";
  dest_type = network;
  dest_port = pos 443;
  proto = "tcp";
  action = action_deny;
  reporter = reporter_src;
  policies = some (
      record {
        kind = kind_end_of_tier;
        name = "";
        namespace = "";
        action = action_deny;
        trigger = some (record {
          kind = kind_network_policy;
          name = "deployment-web-egress";
          namespace = "shop";
        });
      }
      ∷ []);
}

denied_by : get_denying_policy denied ≡ ("deployment-web-egress", "shop")
unfolding get_denying_policy denying_of_hits
denied_by = refl

abbrev denied_flow : GoldmaneFlow
denied_flow = record { key = some denied; start_time = pos 60 }

parse_calico_flow-Sound_example :
    Sound denied (parse_calico_flow 7 (λ t. t) (some (some denied_flow)))
parse_calico_flow-Sound_example = parse_calico_flow-Sound 7 (λ t. t) denied_flow denied refl

process_calico_flow_sound_example :
    (result : ProcessFlowResult) × (process_calico_flow client 7 (λ t. t) (some (some denied_flow))
      ≡ some result)
    × Resolved (IsResolved client) result
process_calico_flow_sound_example =
    process_calico_flow_sound client 7 (λ t. t) (some (some denied_flow))
