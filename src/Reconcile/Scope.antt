-- ===== src/Reconcile/Scope.antt =====
-- internal/controller/workloadnetworkpolicy_selector_scope.go, ..._pod_scope.go: whether a policy
-- selects the workload it targets, and no other.
pub mod Laws
use network_enforcer.Common.{
  ℕ, String, List, [], ◌∷◌, ◌++◌, Option, none, some, Bool, true, false, not, ◌&&◌, ◌||◌, ◌==◌,
  string_eq, option_eq, if◌then◌else◌,
}
use network_enforcer.Common.Text.Concat.{concat}
use network_enforcer.Api.Kube.{LabelSelector, OwnerReference, Condition}
use network_enforcer.Api.Types.{WorkloadTargetRef, WorkloadNetworkPolicy}

abbrev pub condition_ready : String
condition_ready = "Ready"

abbrev pub reason_selector_scope_valid : String
reason_selector_scope_valid = "SelectorScopeValid"

abbrev pub reason_selector_overlaps_workload : String
reason_selector_overlaps_workload = "SelectorOverlapsWorkload"

abbrev pub reason_target_not_found : String
reason_target_not_found = "TargetNotFound"

abbrev pub reason_selector_does_not_match_target : String
reason_selector_does_not_match_target = "SelectorDoesNotMatchTarget"

pub record WorkloadTemplate : Type 0 where
  pub target : WorkloadTargetRef
  pub labels : List (String × String)
  pub uid : String

pub record ScopeMatch : Type 0 where
  pub target_found : Bool
  pub target_matches : Bool
  pub overlaps : List String

abbrev pub is_target : WorkloadTargetRef → WorkloadTargetRef → Bool
is_target a b = a.kind == b.kind && a.name == b.name

-- `matches` is the library's selector, asked for labels.
module _ (wnp : WorkloadNetworkPolicy) (matches : List (String × String) → Bool) where
  abbrev pub describe_workload : WorkloadTemplate → String
  describe_workload template = concat (
      "workload " ∷ template.target.kind ∷ " " ∷ wnp.meta.namespace ∷ "/" ∷ template.target.name
      ∷ [])

  abbrev pub match_one : ScopeMatch → WorkloadTemplate → ScopeMatch
  match_one m template =
      if is_target template.target wnp.spec.targeting.target_ref
      then record m { target_found = true; target_matches = matches template.labels }
      else if matches template.labels
      then record m { overlaps = m.overlaps ++ describe_workload template ∷ [] }
      else m

  unfoldable pub match_from : ScopeMatch → List WorkloadTemplate → ScopeMatch
  match_from m [] = m
  match_from m (template ∷ templates) = match_from (match_one m template) templates

  unfoldable pub match_workload_templates : List WorkloadTemplate → ScopeMatch
  match_workload_templates templates =
      match_from (record { target_found = false; target_matches = false; overlaps = [] }) templates

abbrev pub condition_of : WorkloadNetworkPolicy → String → String → String → Condition
condition_of wnp status reason message = record {
  type = condition_ready;
  status = status;
  observed_generation = wnp.meta.generation;
  reason = reason;
  message = message;
}

-- slices.Sort, of which the first text is read, is the library's.
module _ (least : String → List String → String) where
  abbrev pub overlap_or : WorkloadNetworkPolicy → Bool → List String → Condition
  overlap_or wnp target_found (o ∷ overlaps) =
      condition_of wnp "False" reason_selector_overlaps_workload
        (concat ("Policy selector also selects " ∷ least o overlaps ∷ []))
  overlap_or wnp false [] = condition_of wnp "False" reason_target_not_found (
      concat (
        "Target workload " ∷ wnp.spec.targeting.target_ref.kind ∷ " " ∷ wnp.meta.namespace ∷ "/"
        ∷ wnp.spec.targeting.target_ref.name ∷ " does not exist yet" ∷ []))
  overlap_or wnp true [] =
      condition_of wnp "True" reason_selector_scope_valid
        "Policy selector matches only the target workload"

  unfoldable pub selector_scope_condition :
      WorkloadNetworkPolicy → Bool → Bool → List String → Condition
  selector_scope_condition wnp target_found target_matches overlaps =
      if target_found && not target_matches
      then condition_of wnp "False" reason_selector_does_not_match_target (
          concat (
            "Policy selector does not match pod template labels of target workload "
            ∷ wnp.spec.targeting.target_ref.kind ∷ " " ∷ wnp.meta.namespace ∷ "/"
            ∷ wnp.spec.targeting.target_ref.name ∷ []))
      else overlap_or wnp target_found overlaps

abbrev pub apps_v1 : String
apps_v1 = "apps/v1"

-- the first template of the target decides by its UID; a missing target is not an overlap
unfoldable pub owner_matches_template :
    OwnerReference → WorkloadTargetRef → List WorkloadTemplate → Bool
owner_matches_template owner target [] = true
owner_matches_template owner target (template ∷ templates) =
    let rest = owner_matches_template owner target templates in
    if is_target template.target target then owner.uid == template.uid else rest

unfoldable pub pod_owner_matches_target :
    Option OwnerReference → WorkloadTargetRef → List WorkloadTemplate → Bool
pod_owner_matches_target none target templates = false
pod_owner_matches_target (some owner) target templates =
    if not (owner.api_version == apps_v1)
      || not (owner.kind == target.kind)
      || not (owner.name == target.name)
    then false
    else owner_matches_template owner target templates

pub record Pod : Type 0 where
  pub name : String
  pub namespace : String
  pub controller : Option OwnerReference

pub record ReplicaSet : Type 0 where
  pub uid : String
  pub controller : Option OwnerReference

-- what Get of a ReplicaSet answers
pub data GetAnswer : Type 0 where
  present : ReplicaSet → GetAnswer
  not_found : GetAnswer
  get_failed : GetAnswer

abbrev pub is_deployment : OwnerReference → Bool
is_deployment controller = controller.api_version == apps_v1 && controller.kind == "Deployment"

abbrev pub owner_of_replica_set : OwnerReference → ReplicaSet → OwnerReference
owner_of_replica_set owner rs =
    if not (rs.uid == owner.uid)
    then owner
    else (elim rs.controller [ none ↦ owner | some c ↦ if is_deployment c then c else owner ])

abbrev pub resolve_owner : OwnerReference → GetAnswer → Option (Option OwnerReference)
resolve_owner owner not_found = some (some owner)
resolve_owner owner get_failed = none
resolve_owner owner (present rs) = some (some (owner_of_replica_set owner rs))

module _ (get_replica_set : String → String → GetAnswer) where
  abbrev pub owner_from : String → Option OwnerReference → Option (Option OwnerReference)
  owner_from namespace none = some none
  owner_from namespace (some owner) =
      if not (owner.api_version == apps_v1) || not (owner.kind == "ReplicaSet")
      then some (some owner)
      else resolve_owner owner (get_replica_set namespace owner.name)

  -- `none` is an error
  unfoldable pub pod_workload_owner : Pod → Option (Option OwnerReference)
  pod_workload_owner pod = owner_from pod.namespace pod.controller

  abbrev pub describe_owner : Pod → Option OwnerReference → List String
  describe_owner pod none = []
  describe_owner pod (some owner) =
      " (owner: " ∷ owner.kind ∷ " " ∷ pod.namespace ∷ "/" ∷ owner.name ∷ ")" ∷ []

  abbrev pub describe_pod : Pod → Option OwnerReference → String
  describe_pod pod owner =
      concat ("Pod " ∷ pod.namespace ∷ "/" ∷ pod.name ∷ describe_owner pod owner)

  abbrev pub add_overlap :
      WorkloadTargetRef
      → List WorkloadTemplate
      → Pod
      → Option (Option OwnerReference)
      → Option (List String)
      → Option (List String)
  add_overlap target templates pod none rest = none
  add_overlap target templates pod (some owner) none = none
  add_overlap target templates pod (some owner) (some rest) =
      if pod_owner_matches_target owner target templates
      then some rest
      else some (describe_pod pod owner ∷ rest)

  -- the loop over the pods that the selector selects
  unfoldable pub overlaps_of_pods :
      WorkloadTargetRef → List WorkloadTemplate → List Pod → Option (List String)
  overlaps_of_pods target templates [] = some []
  overlaps_of_pods target templates (pod ∷ pods) =
      add_overlap target templates pod (pod_workload_owner pod)
        (overlaps_of_pods target templates pods)
