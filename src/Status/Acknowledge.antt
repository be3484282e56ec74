-- ===== src/Status/Acknowledge.antt =====
-- acknowledgeViolationsFromAnnotations: an annotation with the identifier of a violation moves it to
-- the acknowledged ones.
pub mod Laws
use network_enforcer.Common.{
  ℕ, ◌-◌, ◌^◌, String, List, [], ◌∷◌, ◌++◌, Option, none, some, string_eq, nat_eq,
}
use network_enforcer.Common.Int.{ℤ, pos, negsuc}
use network_enforcer.Common.Map.{lookup, insert, remove}
use network_enforcer.Common.Text.{cut_prefix}
use network_enforcer.Common.Text.Decimal.{parse_int}
use network_enforcer.Api.Types.{
  ViolationRecord, AcknowledgedViolationRecord, PolicyStatus, WorkloadNetworkPolicy,
}
use network_enforcer.Status.Sorting.{sort_newest, cut_at}
use network_enforcer.Status.Merge.{max_violation_records}

abbrev pub violation_acknowledge_prefix : String
violation_acknowledge_prefix = "networkenforcer.kubewarden.io/acknowledge-"

pub record AnnotationInfo : Type 0 where
  pub annotation_key : String
  pub reason : String

-- an int64 as its 64 bits
abbrev pub to_bits : ℤ → ℕ
to_bits (pos n) = n
to_bits (negsuc n) = 2 ^ 64 - 1 - n

abbrev id_of_text : Option String → Option ℤ
id_of_text none = none
id_of_text (some id_str) = parse_int (2 ^ 63) id_str

-- the identifier that the key of an annotation names
unfoldable pub acknowledged_id : String → Option ℤ
acknowledged_id k = id_of_text (cut_prefix k violation_acknowledge_prefix)

abbrev pub Acknowledges : Type 0
Acknowledges = List (ℕ × AnnotationInfo)

abbrev pub collect_one : String → String → Option ℤ → Acknowledges → Acknowledges
collect_one k reason none acknowledges = acknowledges
collect_one k reason (some id) acknowledges =
    insert (to_bits id) (record { annotation_key = k; reason = reason }) acknowledges

-- the loop over the annotations, in the order in which the range visits them
unfoldable pub collect : List (String × String) → Acknowledges → Acknowledges
collect [] acknowledges = acknowledges
collect ((k, reason) ∷ annotations) acknowledges =
    collect annotations (collect_one k reason (acknowledged_id k) acknowledges)

pub record AcknowledgeState : Type 0 where
  pub kept : List ViolationRecord
  pub ack_to_return : List AcknowledgedViolationRecord
  pub annotations : List (String × String)

abbrev pub acknowledgement : ℕ → ViolationRecord → AnnotationInfo → AcknowledgedViolationRecord
acknowledgement now v info = record { violation = v; reason = info.reason; acknowledged_at = now }

module _ (acknowledges : Acknowledges) (now : ℕ) where
  abbrev pub acknowledge_found :
      AcknowledgeState → ViolationRecord → Option AnnotationInfo → AcknowledgeState
  acknowledge_found s v none = record s { kept = s.kept ++ v ∷ [] }
  acknowledge_found s v (some info) = record s {
    ack_to_return = s.ack_to_return ++ acknowledgement now v info ∷ [];
    annotations = remove info.annotation_key s.annotations;
  }

  -- slices.DeleteFunc, which asks once for each violation, first to last
  unfoldable pub acknowledge_each : AcknowledgeState → List ViolationRecord → AcknowledgeState
  acknowledge_each s [] = s
  acknowledge_each s (v ∷ vs) =
      acknowledge_each (acknowledge_found s v (lookup v.id acknowledges)) vs

abbrev pub acknowledged_time : AcknowledgedViolationRecord → ℕ
acknowledged_time a = a.acknowledged_at

abbrev pub finish :
    WorkloadNetworkPolicy
    → AcknowledgeState
    → WorkloadNetworkPolicy × List AcknowledgedViolationRecord
finish wnp s = (
  record wnp {
    meta = record (wnp.meta) { annotations = s.annotations };
    status = record (wnp.status) {
      violations = s.kept;
      acknowledged_violations =
          cut_at max_violation_records
            (sort_newest acknowledged_time (wnp.status.acknowledged_violations ++ s.ack_to_return));
    };
  },
  s.ack_to_return,
)

-- the early return when no annotation names an identifier
abbrev pub acknowledge_with :
    WorkloadNetworkPolicy
    → ℕ
    → Acknowledges
    → WorkloadNetworkPolicy × List AcknowledgedViolationRecord
acknowledge_with wnp now [] = (wnp, [])
acknowledge_with wnp now (a ∷ acknowledges) = finish wnp (
    acknowledge_each (a ∷ acknowledges) now
      (record { kept = []; ack_to_return = []; annotations = wnp.meta.annotations })
      wnp.status.violations)

unfoldable pub acknowledge_violations_from_annotations :
    WorkloadNetworkPolicy → ℕ → WorkloadNetworkPolicy × List AcknowledgedViolationRecord
acknowledge_violations_from_annotations wnp now =
    acknowledge_with wnp now (collect wnp.meta.annotations [])
