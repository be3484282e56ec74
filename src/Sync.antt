-- ===== src/Sync.antt =====
-- One cycle of the status synchronisation: list, index, drain, correlate, recompute and patch.
pub mod Laws
use network_enforcer.Common.{
  ℕ, String, List, [], ◌∷◌, ◌++◌, Option, none, some, Bool, true, false, if◌then◌else◌,
}
use network_enforcer.Common.Map.{lookup}
use network_enforcer.Ringbuf.{Buffer, drain}
use network_enforcer.Api.Kube.{LabelSelector, NamespacedName, ObjectMeta}
use network_enforcer.Api.Names.{name_eq}
use network_enforcer.Api.Types.{
  WorkloadNetworkPolicy, AcknowledgedViolationRecord, ViolationRecord, Observation,
}
use network_enforcer.Status.Recompute.{recompute_status}
use network_enforcer.Attribution.{Cluster}
use network_enforcer.Attribution.Snapshot.{
  PolicyMap, index_policies, build_ownership_index, duplicate_targets,
}
use network_enforcer.Attribution.Correlate.{Correlation, records_of, correlate_violations_to_wnps}

-- what processing one policy did: the policy it patched with, the events it emitted, its error
pub record Processed : Type 0 where
  pub policy : WorkloadNetworkPolicy
  pub emitted : List AcknowledgedViolationRecord
  pub is_error : Bool

-- what one cycle did; a panic of a policy ends it
pub data Cycle : Type 0 where
  list_failed : Buffer Observation → Cycle
  panicked : Cycle
  synced : Buffer Observation → Correlation → List Processed → Cycle

-- The patches are the API server's, `true` is success: of the status, then of the annotations.
module _ (format_label_selector : Option LabelSelector → String) (cluster : Cluster)
    (patch_status patch_annotations : WorkloadNetworkPolicy → Bool) (now : ℕ) where
  -- the events go out only after the status is patched
  abbrev pub patched : WorkloadNetworkPolicy × List AcknowledgedViolationRecord → Processed
  patched (policy, acknowledged) =
      if patch_status policy
      then record {
        policy = policy;
        emitted = acknowledged;
        is_error = if patch_annotations policy then false else true;
      }
      else record { policy = policy; emitted = []; is_error = true }

  abbrev pub patch_recomputed :
      Option (WorkloadNetworkPolicy × List AcknowledgedViolationRecord) → Option Processed
  patch_recomputed none = none
  patch_recomputed (some recomputed) = some (patched recomputed)

  unfoldable pub process_workload_network_policy :
      WorkloadNetworkPolicy → List ViolationRecord → Option Processed
  process_workload_network_policy wnp violations =
      patch_recomputed (recompute_status format_label_selector wnp violations now)

  abbrev pub add_processed : Option Processed → Option (List Processed) → Option (List Processed)
  add_processed none rest = none
  add_processed (some p) none = none
  add_processed (some p) (some rest) = some (p ∷ rest)

  -- the loop over the policies; the error of one is logged and the others go on
  unfoldable pub process_all : PolicyMap → Correlation → Option (List Processed)
  process_all [] c = some []
  process_all ((key, wnp) ∷ m) c =
      add_processed (process_workload_network_policy wnp (records_of (lookup key c.result)))
        (process_all m c)

  abbrev pub finish_cycle : Buffer Observation → Correlation → Option (List Processed) → Cycle
  finish_cycle buffer c none = panicked
  finish_cycle buffer c (some processed) = synced buffer c processed

  abbrev pub correlate_drained :
      PolicyMap → List ObjectMeta → Option (List Observation × Buffer Observation) → Cycle
  correlate_drained wnp_by_key nps none = panicked
  correlate_drained wnp_by_key nps (some (observations, buffer)) =
      let c =
        correlate_violations_to_wnps cluster (build_ownership_index nps wnp_by_key []) wnp_by_key
          (duplicate_targets wnp_by_key) observations in
      finish_cycle buffer c (process_all wnp_by_key c)

  -- the lists of WorkloadNetworkPolicies and of NetworkPolicies; `none` is an error
  unfoldable pub sync :
      Option (List WorkloadNetworkPolicy) → Option (List ObjectMeta) → Buffer Observation → Cycle
  sync none nps buffer = list_failed buffer
  sync (some wnps) none buffer = list_failed buffer
  sync (some wnps) (some nps) buffer = correlate_drained (index_policies wnps []) nps (drain buffer)
