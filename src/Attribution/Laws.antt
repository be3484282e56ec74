-- ===== src/Attribution/Laws.antt =====
-- To which policies a violation can be attributed.
use network_enforcer.Common.{
  ◌≤◌, String, List, [], ◌∷◌, Option, none, some, Bool, true, false, ◌≡◌, refl, sym, ap, ◌∙◌, arith,
  All, ◌==◌, ◌&&◌, string_eq, eq-true, Bool-cases, inl, inr,
}
use network_enforcer.Common.Map.{lookup}
use network_enforcer.Api.Names.{name_eq}
use network_enforcer.Api.Kube.{NamespacedName}
use network_enforcer.Api.Types.{
  WorkloadRef, WorkloadNetworkPolicy, Observation, namespaced_name, backend_istio,
}
use network_enforcer.Target.{wnp_target_index_key, lookup_of, lookup_wnp_by_target}
use network_enforcer.Attribution.{
  Cluster, Attribution, Reported, violation_subject, lookup_subject, report_verified,
  targets_subject, target_duplicated, attribute_reported_policy, reported_istio,
  reported_kubernetes, reported_owning_wnp, in_snapshot, attribute_by_target, attribute_reported,
  report_of, attribute_subject, attribute_violation,
}
use network_enforcer.Attribution.Snapshot.{
  PolicyMap, OwnedIndex, WnpTarget, target_of, is_duplicate, is_known, duplicate_targets,
}
use network_enforcer.Attribution.Subject.{IsWorkload, IsEndOf, violation_subject_sound}
use network_enforcer.Attribution.Targets.{policies_with, duplicate_targets_sound}

-- The snapshot files each policy under its own name.
abbrev pub IsKeyed : PolicyMap → Type 0
IsKeyed m = All (λ e. namespaced_name e.1 ≡ e.0) m

some_inj : {A : Type 0} {a b : A} → some a ≡ some b → a ≡ b
some_inj h = ground arith

lookup-IsKeyed :
    (k : NamespacedName) (m : PolicyMap) (w : WorkloadNetworkPolicy)
    → IsKeyed m
    → lookup k m ≡ some w
    → namespaced_name w ≡ k
unfolding lookup
lookup-IsKeyed k [] w h e = cc
lookup-IsKeyed k ((j, v) ∷ m) w h e = elim (Bool-cases (j == k)) [
  | inl same ↦ ap namespaced_name (sym (some_inj (rw same at e))) ∙ h.0 ∙ eq-true j k same
  | inr other ↦ lookup-IsKeyed k m w h.1 (rw other at e)
]

and-true : (a b c : Bool) → a && b && c ≡ true → a ≡ true
and-true a b c h = ground arith

namespace-targets :
    (cluster : Cluster) (w : WorkloadNetworkPolicy) (subject : WorkloadRef)
    → targets_subject cluster w subject ≡ true
    → w.meta.namespace ≡ subject.namespace
namespace-targets cluster w subject h = eq-true w.meta.namespace subject.namespace (
    and-true (w.meta.namespace == subject.namespace)
      (w.spec.targeting.target_ref.kind == subject.owner_kind)
      (w.spec.targeting.target_ref.name == subject.owner_name) h)

module _ (cluster : Cluster) (snapshot : PolicyMap) (keyed : IsKeyed snapshot)
    (lists : (namespace key : String) (ws : List WorkloadNetworkPolicy)
      → cluster.list_by_target namespace key ≡ some ws
      → All (λ w. w.meta.namespace ≡ namespace) ws) where
  -- an attribution is to a policy of the snapshot in the namespace of the subject
  abbrev IsSound : WorkloadRef → Attribution → Type 0
  IsSound subject a =
      a.reason ≡ ""
      → (is_known (lookup a.wnp_key snapshot) ≡ true) × (a.wnp_key.namespace ≡ subject.namespace)

  in_snapshot-IsSound :
      (subject : WorkloadRef) (w : WorkloadNetworkPolicy) (d : Bool)
      (o : Option WorkloadNetworkPolicy)
      → lookup (namespaced_name w) snapshot ≡ o
      → w.meta.namespace ≡ subject.namespace
      → IsSound subject (in_snapshot cluster (namespaced_name w) d o)
  unfolding namespaced_name
  in_snapshot-IsSound subject w d none e n h = cc
  in_snapshot-IsSound subject w d (some v) e n h = (rw e refl, n)

  by_target-IsSound :
      (subject : WorkloadRef) (d : Bool) (o : Option (List WorkloadNetworkPolicy))
      → ((ws : List WorkloadNetworkPolicy)
          → o ≡ some ws
          → All (λ w. w.meta.namespace ≡ subject.namespace) ws)
      → IsSound subject (attribute_by_target cluster snapshot d (lookup_of o))
  by_target-IsSound subject d none own h = cc
  by_target-IsSound subject d (some []) own h = cc
  by_target-IsSound subject d (some (w ∷ v ∷ ws)) own h = cc
  by_target-IsSound subject d (some (w ∷ [])) own h =
      in_snapshot-IsSound subject w d (lookup (namespaced_name w) snapshot) refl
        (own (w ∷ []) refl).0 h

  fall_back-IsSound :
      (subject : WorkloadRef) (direction : String) (d : Bool)
      → IsSound subject
          (attribute_by_target cluster snapshot d (lookup_subject cluster subject direction))
  unfolding lookup_wnp_by_target
  fall_back-IsSound subject direction d =
      let key = wnp_target_index_key subject.owner_kind subject.owner_name direction in
      by_target-IsSound subject d (cluster.list_by_target subject.namespace key)
        (lists subject.namespace key)

  -- A report resolves only to a policy that is in the snapshot, the reported one.
  abbrev IsReportSound : Observation → WorkloadRef → Reported → Type 0
  IsReportSound obs subject r = IsSound subject (attribute_reported cluster obs snapshot subject r)

  verified-IsSound :
      (obs : Observation) (subject : WorkloadRef) (w : WorkloadNetworkPolicy) (o : Option Bool)
      → lookup (namespaced_name w) snapshot ≡ some w
      → w.meta.namespace ≡ subject.namespace
      → IsReportSound obs subject (report_verified cluster w o)
  unfolding namespaced_name
  verified-IsSound obs subject w none e n h = cc
  verified-IsSound obs subject w (some true) e n h = cc
  verified-IsSound obs subject w (some false) e n h = (rw e refl, n)

  reported-IsSound :
      (obs : Observation) (subject : WorkloadRef) (w : WorkloadNetworkPolicy)
      → lookup (namespaced_name w) snapshot ≡ some w
      → IsReportSound obs subject (attribute_reported_policy cluster obs w subject)
  unfolding attribute_reported_policy
  reported-IsSound obs subject w e = elim (Bool-cases (targets_subject cluster w subject)) [
    | inr other ↦ rw other (fall_back-IsSound subject obs.direction true)
    | inl same ↦ elim (Bool-cases (w.spec.targeting.direction == obs.direction)) [
      | inr turned ↦ rw (same, turned) (fall_back-IsSound subject obs.direction false)
      | inl facing ↦
          rw (same, facing)
            (verified-IsSound obs subject w (target_duplicated cluster subject obs.direction) e
              (namespace-targets cluster w subject same))
    ]
  ]

  report_of-IsSound :
      (obs : Observation) (subject : WorkloadRef) (o : Option WorkloadNetworkPolicy)
      → ((w : WorkloadNetworkPolicy) → o ≡ some w → lookup (namespaced_name w) snapshot ≡ some w)
      → IsReportSound obs subject (report_of cluster obs subject o)
  report_of-IsSound obs subject none own = fall_back-IsSound subject obs.direction false
  report_of-IsSound obs subject (some w) own = reported-IsSound obs subject w (own w refl)

  lookup-own :
      (k : NamespacedName) (w : WorkloadNetworkPolicy)
      → lookup k snapshot ≡ some w
      → lookup (namespaced_name w) snapshot ≡ some w
  lookup-own k w e = rw (lookup-IsKeyed k snapshot w keyed e) e

  reported_istio-own :
      (reported : NamespacedName) (o : Option WorkloadNetworkPolicy) (w : WorkloadNetworkPolicy)
      → reported_istio cluster reported o ≡ some w
      → o ≡ some w
  reported_istio-own reported none w e = e
  reported_istio-own reported (some v) w e = ground (arith, e)

  reported_kubernetes-own :
      (reported : NamespacedName) (o : Option (Option NamespacedName)) (w : WorkloadNetworkPolicy)
      → reported_kubernetes cluster snapshot reported o ≡ some w
      → lookup (namespaced_name w) snapshot ≡ some w
  reported_kubernetes-own reported none w e = lookup-own reported w e
  reported_kubernetes-own reported (some none) w e = cc
  reported_kubernetes-own reported (some (some owner)) w e = lookup-own owner w e

  reported_owning_wnp-own :
      (obs : Observation) (owned_index : OwnedIndex) (w : WorkloadNetworkPolicy)
      → reported_owning_wnp cluster obs owned_index snapshot ≡ some w
      → lookup (namespaced_name w) snapshot ≡ some w
  unfolding reported_owning_wnp
  reported_owning_wnp-own obs owned_index w e =
      let reported : NamespacedName = record {
        namespace = obs.info.denying_policy_namespace;
        name = obs.info.denying_policy_name;
      } in
      elim (Bool-cases (obs.info.denying_policy_name == "")) [
        | inl unnamed ↦ cc (rw unnamed at e)
        | inr named ↦ elim (Bool-cases (obs.provider == backend_istio)) [
          | inl i ↦
              lookup-own reported w
                (reported_istio-own reported (lookup reported snapshot) w (rw (named, i) at e))
          | inr k ↦
              reported_kubernetes-own reported (lookup reported owned_index) w (rw (named, k) at e)
        ]
      ]

  subject-IsSound :
      (obs : Observation) (owned_index : OwnedIndex) (duplicates : List WnpTarget)
      (o : Option WorkloadRef)
      → (attribute_subject cluster obs owned_index snapshot duplicates o).reason ≡ ""
      → (subject : WorkloadRef) × (o ≡ some subject)
        × (is_known (
              lookup
                (attribute_subject cluster obs owned_index snapshot duplicates o).wnp_key
                snapshot)
            ≡ true)
        × ((attribute_subject cluster obs owned_index snapshot duplicates o).wnp_key.namespace
            ≡ subject.namespace)
        × (is_duplicate
              (target_of subject.namespace
                (wnp_target_index_key subject.owner_kind subject.owner_name obs.direction))
              duplicates
            ≡ false)
  subject-IsSound obs owned_index duplicates none h = cc
  subject-IsSound obs owned_index duplicates (some subject) h =
      let target =
        target_of subject.namespace
          (wnp_target_index_key subject.owner_kind subject.owner_name obs.direction) in
      elim (Bool-cases (is_duplicate target duplicates)) [
        | inl twice ↦ cc (rw twice at h)
        | inr once ↦
            let sound =
              report_of-IsSound obs subject (reported_owning_wnp cluster obs owned_index snapshot)
                (reported_owning_wnp-own obs owned_index) (rw once at h) in
            rw once (subject, refl, sound.0, sound.1, once)
      ]

  -- Over a snapshot that files each policy under its own name, and a List that keeps to the namespace:
  -- a violation that is attributed at all has as its subject the end that its direction names, a
  -- Deployment, a StatefulSet or a DaemonSet with a namespace and a name; the policy it is attributed
  -- to is in the snapshot and in the namespace of the subject; and at most one policy of the snapshot
  -- has the subject and the direction as its target.
  pub attribute_violation_sound :
      (obs : Observation) (owned_index : OwnedIndex)
      → (attribute_violation cluster obs owned_index snapshot (duplicate_targets snapshot)).reason
        ≡ ""
      → let a = attribute_violation cluster obs owned_index snapshot (duplicate_targets snapshot) in
        (subject : WorkloadRef) × IsWorkload subject
        × IsEndOf obs subject
        × (is_known (lookup a.wnp_key snapshot) ≡ true)
        × (a.wnp_key.namespace ≡ subject.namespace)
        × (policies_with
              (target_of subject.namespace
                (wnp_target_index_key subject.owner_kind subject.owner_name obs.direction))
              snapshot
            ≤ 1)
  unfolding attribute_violation
  attribute_violation_sound obs owned_index h =
      let (subject, e, known, same, once) =
        subject-IsSound obs owned_index (duplicate_targets snapshot) (violation_subject obs) h in
      let (w, end) = violation_subject_sound obs subject e in
      (subject, w, end, known, same, duplicate_targets_sound _ snapshot once)
