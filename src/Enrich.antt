-- ===== src/Enrich.antt =====
-- internal/istio/enrich.go: the workloads of an Istio violation, resolved from the live pods.
pub mod Laws
use network_enforcer.Common.{
  String, List, [], ◌∷◌, Option, none, some, ◌||◌, ◌==◌, string_eq, if◌then◌else◌,
}
use network_enforcer.Api.Kube.{NamespacedName, policy_type_ingress}
use network_enforcer.Api.Types.{WorkloadRef, Observation}
use network_enforcer.Workload.{
  Pod, Client, get, get_name_and_kind, set_identity, resolve_denying_policy,
}

unfoldable pub workload_ref_from_pod : Pod → WorkloadRef
workload_ref_from_pod pod = set_identity (get_name_and_kind pod) pod.service_account_name

abbrev pub sole_pod : Option (List Pod) → Option WorkloadRef
sole_pod none = none
sole_pod (some []) = none
sole_pod (some (pod ∷ [])) = some (workload_ref_from_pod pod)
sole_pod (some (pod ∷ other ∷ pods)) = none

abbrev pub with_source : Observation → Option WorkloadRef → Observation
with_source obs none = obs
with_source obs (some source) = record obs { info = record obs.info { source = source } }

abbrev pub with_policy : Observation → Option NamespacedName → Observation
with_policy obs none = obs
with_policy obs (some owner) = if owner.name == "" then obs else record obs {
  info = record obs.info {
    denying_policy_namespace = owner.namespace;
    denying_policy_name = owner.name;
  };
}

module _ (c : Client) where
  -- `none` is an error
  unfoldable pub resolve_dest_workload : Observation → Option Pod
  resolve_dest_workload obs =
      if obs.info.dest.namespace == "" || obs.info.dest.owner_name == ""
      then none
      else c.get_pod obs.info.dest.namespace obs.info.dest.owner_name

  abbrev pub with_dest : Observation → Option Pod → Observation
  with_dest obs none = obs
  with_dest obs (some pod) =
      let dest = workload_ref_from_pod pod in
      let seen : Observation = record obs { info = record obs.info { dest = dest } } in
      if obs.info.denying_policy_name == ""
      then with_policy seen (resolve_denying_policy c dest policy_type_ingress)
      else seen

-- `split_host_port` is net.SplitHostPort, of which the host is read.
module _ (split_host_port : String → Option String) where
  -- net.SplitHostPort's error is the error
  unfoldable pub peer_ip_from_addr : String → Option String
  peer_ip_from_addr addr = split_host_port addr

  module _ (c : Client) where
    abbrev pub source_at : Option String → Option WorkloadRef
    source_at none = none
    source_at (some ip) = sole_pod (c.list_pods_by_ip ip)

    -- `none` is an error
    unfoldable pub resolve_source_workload : Observation → Option WorkloadRef
    resolve_source_workload obs = source_at (peer_ip_from_addr obs.info.source.owner_name)

    -- the source is resolved first; the destination does not depend on it
    abbrev pub enrich_with : Observation → Observation
    enrich_with obs =
        let seen = with_source obs (resolve_source_workload obs) in
        with_dest c seen (resolve_dest_workload c seen)

  -- a nil Enricher, or one with a nil client, is `none`
  unfoldable pub enrich : Option Client → Observation → Observation
  enrich none obs = obs
  enrich (some c) obs = enrich_with c obs

-- `none` is an error
unfoldable pub get_workload_ref : Client → String → String → Option WorkloadRef
get_workload_ref c namespace name = get c namespace name
