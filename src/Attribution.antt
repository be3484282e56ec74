-- ===== src/Attribution.antt =====
-- internal/controller/workloadnetworkpolicystatus_sync.go: the policy that a violation belongs to.
pub mod Snapshot
pub mod Laws
pub mod Correlate
pub mod Conservation
pub mod Subject
pub mod Account
pub mod Targets
use network_enforcer.Common.{
  ℕ, ◌+◌, String, List, [], ◌∷◌, ◌++◌, Option, none, some, Bool, true, false, not, ◌==◌, ◌&&◌, ◌||◌,
  string_eq, if◌then◌else◌,
}
use network_enforcer.Common.Map.{lookup, insert}
use network_enforcer.Api.Kube.{NamespacedName, ObjectMeta, policy_type_egress, policy_type_ingress}
use network_enforcer.Api.Names.{name_eq}
use network_enforcer.Api.Types.{
  WorkloadRef, WorkloadNetworkPolicy, Observation, ViolationRecord, is_supported, namespaced_name,
  backend_istio,
}
use network_enforcer.Target.{
  wnp_target_index_key, Lookup, found, target_not_found, duplicate_target, list_failed,
  lookup_wnp_by_target,
}
use network_enforcer.Attribution.Snapshot.{
  PolicyMap, OwnedIndex, WnpTarget, target_of, is_duplicate,
}

abbrev pub unknown_subject : String
unknown_subject = "unknown_subject"

abbrev pub no_target_policy : String
no_target_policy = "no_target_policy"

abbrev pub duplicate_target_policy : String
duplicate_target_policy = "duplicate_target_policy"

abbrev pub lookup_failed : String
lookup_failed = "lookup_failed"

-- what the controller asks of the cluster
pub record Cluster : Type 0 where
  pub list_by_target : String → String → Option (List WorkloadNetworkPolicy)
  pub get_authorization_policy : NamespacedName → Option ObjectMeta
  pub is_controlled_by : ObjectMeta → ObjectMeta → Bool

abbrev pub supported_subject : WorkloadRef → Option WorkloadRef
supported_subject subject =
    if subject.namespace == "" || subject.owner_name == "" || not (is_supported subject.owner_kind)
    then none
    else some subject

unfoldable pub violation_subject : Observation → Option WorkloadRef
violation_subject obs =
    if obs.direction == policy_type_egress
    then supported_subject obs.info.source
    else if obs.direction == policy_type_ingress
    then supported_subject obs.info.dest
    else none

-- a key with an empty reason, or the reason why there is none; whether a disagreement was counted
pub record Attribution : Type 0 where
  pub wnp_key : NamespacedName
  pub reason : String
  pub disagreement : Bool

abbrev pub no_key : NamespacedName
no_key = record { namespace = ""; name = "" }

abbrev pub attributed : NamespacedName → Attribution
attributed k = record { wnp_key = k; reason = ""; disagreement = false }

abbrev pub unattributed : String → Attribution
unattributed reason = record { wnp_key = no_key; reason = reason; disagreement = false }

pub data Reported : Type 0 where
  resolved : Attribution → Reported
  fall_back : Bool → Reported

module _ (cluster : Cluster) where
  abbrev pub lookup_subject : WorkloadRef → String → Lookup
  lookup_subject subject direction =
      lookup_wnp_by_target cluster.list_by_target subject.namespace subject.owner_kind
        subject.owner_name direction

  -- `none` is an error
  unfoldable pub target_duplicated : WorkloadRef → String → Option Bool
  target_duplicated subject direction = elim (lookup_subject subject direction) [
    | duplicate_target ↦ some true
    | target_not_found ↦ some false
    | list_failed ↦ none
    | found w ↦ some false
  ]

  abbrev pub report_verified : WorkloadNetworkPolicy → Option Bool → Reported
  report_verified reported_wnp none = resolved (unattributed lookup_failed)
  report_verified reported_wnp (some true) = resolved (unattributed duplicate_target_policy)
  report_verified reported_wnp (some false) = resolved (attributed (namespaced_name reported_wnp))

  abbrev pub targets_subject : WorkloadNetworkPolicy → WorkloadRef → Bool
  targets_subject wnp subject =
      wnp.meta.namespace == subject.namespace
      && wnp.spec.targeting.target_ref.kind == subject.owner_kind
      && wnp.spec.targeting.target_ref.name == subject.owner_name

  unfoldable pub attribute_reported_policy :
      Observation → WorkloadNetworkPolicy → WorkloadRef → Reported
  attribute_reported_policy obs reported_wnp subject =
      if not (targets_subject reported_wnp subject)
      then fall_back true
      else if not (reported_wnp.spec.targeting.direction == obs.direction)
      then fall_back false
      else report_verified reported_wnp (target_duplicated subject obs.direction)

  abbrev pub reported_istio :
      NamespacedName → Option WorkloadNetworkPolicy → Option WorkloadNetworkPolicy
  reported_istio reported none = none
  reported_istio reported (some wnp) = elim (cluster.get_authorization_policy reported) [
    | none ↦ none
    | some ap ↦ if cluster.is_controlled_by ap wnp.meta then some wnp else none
  ]

  -- the owner of an existing NetworkPolicy, or the policy of the reported name
  abbrev pub reported_kubernetes :
      PolicyMap → NamespacedName → Option (Option NamespacedName) → Option WorkloadNetworkPolicy
  reported_kubernetes wnp_by_key reported (some none) = none
  reported_kubernetes wnp_by_key reported (some (some owner)) = lookup owner wnp_by_key
  reported_kubernetes wnp_by_key reported none = lookup reported wnp_by_key

  unfoldable pub reported_owning_wnp :
      Observation → OwnedIndex → PolicyMap → Option WorkloadNetworkPolicy
  reported_owning_wnp obs owned_index wnp_by_key =
      let reported : NamespacedName = record {
        namespace = obs.info.denying_policy_namespace;
        name = obs.info.denying_policy_name;
      } in
      if obs.info.denying_policy_name == ""
      then none
      else if obs.provider == backend_istio
      then reported_istio reported (lookup reported wnp_by_key)
      else reported_kubernetes wnp_by_key reported (lookup reported owned_index)

  -- the cache may already hold a policy that is not in the snapshot
  abbrev pub in_snapshot : NamespacedName → Bool → Option WorkloadNetworkPolicy → Attribution
  in_snapshot key disagreement none = record (unattributed no_target_policy) {
    disagreement = disagreement;
  }
  in_snapshot key disagreement (some wnp) = record (attributed key) { disagreement = disagreement }

  abbrev pub attribute_by_target : PolicyMap → Bool → Lookup → Attribution
  attribute_by_target wnp_by_key disagreement target_not_found =
      record (unattributed no_target_policy) { disagreement = disagreement }
  attribute_by_target wnp_by_key disagreement duplicate_target =
      record (unattributed duplicate_target_policy) { disagreement = disagreement }
  attribute_by_target wnp_by_key disagreement list_failed = record (unattributed lookup_failed) {
    disagreement = disagreement;
  }
  attribute_by_target wnp_by_key disagreement (found wnp) =
      in_snapshot (namespaced_name wnp) disagreement (lookup (namespaced_name wnp) wnp_by_key)

  abbrev pub attribute_reported : Observation → PolicyMap → WorkloadRef → Reported → Attribution
  attribute_reported obs wnp_by_key subject (resolved a) = a
  attribute_reported obs wnp_by_key subject (fall_back disagreement) =
      attribute_by_target wnp_by_key disagreement (lookup_subject subject obs.direction)

  abbrev pub report_of : Observation → WorkloadRef → Option WorkloadNetworkPolicy → Reported
  report_of obs subject none = fall_back false
  report_of obs subject (some reported_wnp) = attribute_reported_policy obs reported_wnp subject

  abbrev pub attribute_subject :
      Observation → OwnedIndex → PolicyMap → List WnpTarget → Option WorkloadRef → Attribution
  attribute_subject obs owned_index wnp_by_key duplicates none = unattributed unknown_subject
  attribute_subject obs owned_index wnp_by_key duplicates (some subject) =
      let target =
        target_of subject.namespace
          (wnp_target_index_key subject.owner_kind subject.owner_name obs.direction) in
      if is_duplicate target duplicates
      then unattributed duplicate_target_policy
      else attribute_reported obs wnp_by_key subject
          (report_of obs subject (reported_owning_wnp obs owned_index wnp_by_key))

  unfoldable pub attribute_violation :
      Observation → OwnedIndex → PolicyMap → List WnpTarget → Attribution
  attribute_violation obs owned_index wnp_by_key duplicates =
      attribute_subject obs owned_index wnp_by_key duplicates (violation_subject obs)
