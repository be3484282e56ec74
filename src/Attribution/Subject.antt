-- ===== src/Attribution/Subject.antt =====
-- internal/controller/workloadnetworkpolicystatus_sync.go: the subject of a violation.
use network_enforcer.Common.{
  String, ◌≡◌, ◌≢◌, refl, sym, ◌⊎◌, inl, inr, some, true, ◌==◌, string_eq, eq-true, eq-false,
  ne_of_eq-false, Bool-cases,
}
use network_enforcer.Api.Kube.{policy_type_egress, policy_type_ingress}
use network_enforcer.Api.Types.{
  WorkloadRef, Observation, is_supported, kind_deployment, kind_stateful_set, kind_daemon_set,
}
use network_enforcer.Attribution.{supported_subject, violation_subject}

-- a Deployment, a StatefulSet or a DaemonSet with a namespace and a name
abbrev pub IsWorkload : WorkloadRef → Type 0
IsWorkload ref =
    (ref.namespace ≢ "")
    × (ref.owner_name ≢ "")
    × ((ref.owner_kind ≡ kind_deployment)
        ⊎ (ref.owner_kind ≡ kind_stateful_set)
        ⊎ (ref.owner_kind ≡ kind_daemon_set))

-- the end of the violation that its direction names
abbrev pub IsEndOf : Observation → WorkloadRef → Type 0
IsEndOf obs subject =
    ((obs.direction ≡ policy_type_egress) × (subject ≡ obs.info.source))
    ⊎ ((obs.direction ≡ policy_type_ingress) × (subject ≡ obs.info.dest))

is_supported-kind :
    (kind : String)
    → is_supported kind ≡ true
    → (kind ≡ kind_deployment) ⊎ (kind ≡ kind_stateful_set) ⊎ (kind ≡ kind_daemon_set)
unfolding is_supported
is_supported-kind kind h = elim (Bool-cases (kind == kind_deployment)) [
  | inl e ↦ inl (eq-true _ _ e)
  | inr n ↦ elim (Bool-cases (kind == kind_stateful_set)) [
    | inl e ↦ inr (inl (eq-true _ _ e))
    | inr m ↦ inr (inr (eq-true _ _ (rw (n, m) at h)))
  ]
]

kind-is_supported :
    (kind : String)
    → (kind ≡ kind_deployment) ⊎ (kind ≡ kind_stateful_set) ⊎ (kind ≡ kind_daemon_set)
    → is_supported kind ≡ true
unfolding is_supported
kind-is_supported kind (inl e) = rw e refl
kind-is_supported kind (inr (inl e)) = rw e refl
kind-is_supported kind (inr (inr e)) = rw e refl

supported_subject-IsWorkload :
    (ref subject : WorkloadRef)
    → supported_subject ref ≡ some subject
    → (subject ≡ ref) × IsWorkload subject
supported_subject-IsWorkload ref subject h = elim (Bool-cases (ref.namespace == "")) [
  | inl e ↦ absurd (cc (rw e at h))
  | inr n ↦ elim (Bool-cases (ref.owner_name == "")) [
    | inl e ↦ absurd (cc (rw (n, e) at h))
    | inr m ↦ elim (Bool-cases (is_supported ref.owner_kind)) [
      | inr e ↦ absurd (cc (rw (n, m, e) at h))
      | inl e ↦
          let same : ref ≡ subject = cc (rw (n, m, e) at h) in
          rw (sym same) (refl, (ne_of_eq-false _ _ n, ne_of_eq-false _ _ m, is_supported-kind _ e))
    ]
  ]
]

-- A workload is its own subject.
pub supported_subject_lem : (ref : WorkloadRef) → IsWorkload ref → supported_subject ref ≡ some ref
supported_subject_lem ref (n, m, k) =
    rw (eq-false ref.namespace "" n, eq-false ref.owner_name "" m, kind-is_supported _ k) refl

-- The subject of a violation is a workload, and the end that the direction names.
pub violation_subject_sound :
    (obs : Observation) (subject : WorkloadRef)
    → violation_subject obs ≡ some subject
    → IsWorkload subject × IsEndOf obs subject
unfolding violation_subject
violation_subject_sound obs subject h = elim (Bool-cases (obs.direction == policy_type_egress)) [
  | inl e ↦
      let (same, w) = supported_subject-IsWorkload obs.info.source subject (rw e at h) in
      (w, inl (eq-true _ _ e, same))
  | inr n ↦ elim (Bool-cases (obs.direction == policy_type_ingress)) [
    | inl e ↦
        let (same, w) = supported_subject-IsWorkload obs.info.dest subject (rw (n, e) at h) in
        (w, inr (eq-true _ _ e, same))
    | inr m ↦ absurd (cc (rw (n, m) at h))
  ]
]
