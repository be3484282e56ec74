-- ===== src/Status/Recompute.antt =====
-- RecomputeStatus: merge, clear, acknowledge, then the counters.
pub mod Laws
use network_enforcer.Common.{List, [], Option, none, some, ℕ, String, length}
use network_enforcer.Api.Kube.{LabelSelector}
use network_enforcer.Api.Types.{
  ViolationRecord, AcknowledgedViolationRecord, PolicyStatus, WorkloadNetworkPolicy,
}
use network_enforcer.Status.Merge.{merge_scraped_violations}
use network_enforcer.Status.Clear.{clear_allowed_violations}
use network_enforcer.Status.Acknowledge.{acknowledge_violations_from_annotations}

abbrev pub with_violations :
    WorkloadNetworkPolicy → PolicyStatus → List ViolationRecord → WorkloadNetworkPolicy
with_violations wnp merged violations = record wnp {
  status = record merged { violations = violations };
}

abbrev pub count_up :
    WorkloadNetworkPolicy × List AcknowledgedViolationRecord
    → WorkloadNetworkPolicy × List AcknowledgedViolationRecord
count_up (wnp, acknowledged) = (
  record wnp {
    status = record (wnp.status) {
      active_violation_count = length wnp.status.violations;
      observed_generation = wnp.meta.generation;
    };
  },
  acknowledged,
)

abbrev pub acknowledge_cleared :
    WorkloadNetworkPolicy
    → PolicyStatus
    → ℕ
    → Option (List ViolationRecord)
    → Option (WorkloadNetworkPolicy × List AcknowledgedViolationRecord)
acknowledge_cleared wnp merged now none = none
acknowledge_cleared wnp merged now (some violations) =
    some (
      count_up
        (acknowledge_violations_from_annotations (with_violations wnp merged violations) now))

-- `none` is the panic of clearing on a nil template; a nil policy changes nothing, which the callers
-- see as nothing acknowledged
module _ (format_label_selector : Option LabelSelector → String) where
  unfoldable pub recompute_status :
      WorkloadNetworkPolicy
      → List ViolationRecord
      → ℕ
      → Option (WorkloadNetworkPolicy × List AcknowledgedViolationRecord)
  recompute_status wnp scraped now =
      let merged = merge_scraped_violations wnp.status scraped in
      acknowledge_cleared wnp merged now
        (clear_allowed_violations format_label_selector wnp.spec merged.violations)
