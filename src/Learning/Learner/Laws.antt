-- ===== src/Learning/Learner/Laws.antt =====
-- Learning and monitoring agree.
use network_enforcer.Common.{ℕ, String, Option, some, ◌≡◌, ◌⊎◌, inl, inr, refl, string_eq}
use network_enforcer.Common.Int.{ℤ}
use network_enforcer.Api.Kube.{
  LabelSelector, NetworkPolicySpec, policy_type_ingress, policy_type_egress,
}
use network_enforcer.Api.Types.{WorkloadRef}
use network_enforcer.Learning.Kubernetes.{upsert_rule_by_peer-learns}
use network_enforcer.Learning.Learner.{
  allowed, add_rule, evaluate_spec, generate_violation_observation,
}
use network_enforcer.Attribution.{violation_subject}
use network_enforcer.Attribution.Subject.{IsWorkload, supported_subject_lem}

-- A violation that monitor mode raises for a Deployment, a StatefulSet or a DaemonSet with a namespace
-- and a name, in either direction, has that workload as its subject.
pub violation_subject-generate :
    (policy_name : String) (wk peer : WorkloadRef) (protocol direction : String) (dst_port : ℤ)
    (now : ℕ)
    → IsWorkload wk
    → (direction ≡ policy_type_ingress) ⊎ (direction ≡ policy_type_egress)
    → violation_subject
        (generate_violation_observation policy_name wk peer protocol direction dst_port now)
      ≡ some wk
unfolding violation_subject generate_violation_observation
violation_subject-generate policy_name wk peer protocol direction dst_port now w (inl i) =
    rw i (supported_subject_lem wk w)
violation_subject-generate policy_name wk peer protocol direction dst_port now w (inr e) =
    rw e (supported_subject_lem wk w)

module _ (format_label_selector : Option LabelSelector → String) (wk peer : WorkloadRef)
    (protocol : String) (dst_port : ℤ) (name : String) (now : ℕ) where
  pub spec-allows :
      (direction : String) (spec : NetworkPolicySpec)
      → (direction ≡ policy_type_ingress) ⊎ (direction ≡ policy_type_egress)
      → (learned : NetworkPolicySpec) × (add_rule format_label_selector direction spec peer protocol
            dst_port
          ≡ some learned)
        × (evaluate_spec format_label_selector name
              (some learned)
              wk
              peer
              protocol
              direction
              dst_port
              now
            ≡ allowed)
  spec-allows direction spec (inl i) = rw i (
    _,
    refl,
    rw ((upsert_rule_by_peer-learns format_label_selector peer protocol dst_port spec.ingress).0)
        refl,
  )
  spec-allows direction spec (inr e) = rw e (
    _,
    refl,
    rw ((upsert_rule_by_peer-learns format_label_selector peer protocol dst_port spec.egress).0)
        refl,
  )
