-- ===== src/Tests/AttributionTests.antt =====
-- Attribution and the synchronisation at concrete inputs.
use network_enforcer.Common.{◌+◌, ◌≤◌, String, List, [], ◌∷◌, some, true, ◌≡◌, refl, All, length}
use network_enforcer.Common.Map.{lookup, insert}
use network_enforcer.Ringbuf.{Buffer}
use network_enforcer.Api.Names.{name_beq, name_eq}
use network_enforcer.Api.Types.{
  WorkloadRef, WorkloadNetworkPolicy, Observation, namespaced_name, is_supported,
}
use network_enforcer.Target.{wnp_target_index_key, lookup_wnp_by_target}
use network_enforcer.Attribution.{
  Cluster, attribute_violation, violation_subject, reported_owning_wnp, attribute_reported_policy,
  target_duplicated,
}
use network_enforcer.Attribution.Snapshot.{
  PolicyMap, duplicate_targets, count_targets, more_than_once, is_known, wnp_target_key, target_of,
}
use network_enforcer.Attribution.Laws.{attribute_violation_sound}
use network_enforcer.Attribution.Subject.{IsWorkload, IsEndOf}
use network_enforcer.Attribution.Targets.{policies_with}
use network_enforcer.Attribution.Correlate.{Correlation, correlate_violations_to_wnps}
use network_enforcer.Attribution.Conservation.{
  total, IsNamed, correlate_violations_to_wnps-conserves,
}
use network_enforcer.Tests.Data.{policy, istio_backend_spec, observation}

abbrev sample : WorkloadNetworkPolicy
sample = policy istio_backend_spec

abbrev snapshot : PolicyMap
snapshot = (record { namespace = "shop"; name = "statefulset-db-ingress" }, sample) ∷ []

-- a cluster with one policy, and no AuthorizationPolicy
abbrev cluster : Cluster
cluster = record {
  list_by_target = λ namespace key. some [];
  get_authorization_policy = λ name. some sample.meta;
  is_controlled_by = λ object owner. true;
}

is_attributed :
    (attribute_violation cluster observation [] snapshot (duplicate_targets snapshot)).reason ≡ ""
unfolding duplicate_targets count_targets more_than_once wnp_target_key insert attribute_violation
    violation_subject is_supported reported_owning_wnp attribute_reported_policy target_duplicated
    lookup_wnp_by_target lookup name_beq namespaced_name
is_attributed = refl

keyed : namespaced_name sample ≡ record { namespace = "shop"; name = "statefulset-db-ingress" }
unfolding namespaced_name
keyed = refl

empty_lists :
    (namespace key : String) (ws : List WorkloadNetworkPolicy)
    → cluster.list_by_target namespace key ≡ some ws
    → All (λ w. w.meta.namespace ≡ namespace) ws
empty_lists namespace key [] h = tt
empty_lists namespace key (w ∷ ws) h = cc

attribute_violation_sound_example :
    let a = attribute_violation cluster observation [] snapshot (duplicate_targets snapshot) in
    (subject : WorkloadRef) × IsWorkload subject
    × IsEndOf observation subject
    × (is_known (lookup a.wnp_key snapshot) ≡ true)
    × (a.wnp_key.namespace ≡ subject.namespace)
    × (policies_with
          (target_of subject.namespace
            (wnp_target_index_key subject.owner_kind subject.owner_name "Ingress"))
          snapshot
        ≤ 1)
attribute_violation_sound_example =
    attribute_violation_sound cluster snapshot (keyed, tt) empty_lists observation [] is_attributed

correlate_violations_to_wnps-conserves_example :
    (total (correlate_violations_to_wnps cluster [] snapshot [] (observation ∷ [])).result
        + length
            (correlate_violations_to_wnps cluster [] snapshot []
              (observation ∷ [])).unattributed_counts
      ≡ length (observation ∷ []))
    × IsNamed (correlate_violations_to_wnps cluster [] snapshot [] (observation ∷ [])).result
correlate_violations_to_wnps-conserves_example =
    correlate_violations_to_wnps-conserves cluster [] snapshot [] (observation ∷ [])

-- a buffer of one place with one observation in it
abbrev buffer : Buffer Observation
buffer = record { buf = observation ∷ []; pos = 1; capacity = 1 }

abbrev after : Buffer Observation
after = record { buf = observation ∷ []; pos = 0; capacity = 1 }

abbrev correlated : Correlation
correlated = correlate_violations_to_wnps cluster [] [] [] (observation ∷ [])
