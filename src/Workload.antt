-- ===== src/Workload.antt =====
-- internal/workload/extract.go: the workload that owns a pod, and its selector.
pub mod Laws
use Prim.Native.String.{◌++◌}
use network_enforcer.Common.{
  String, List, [], ◌∷◌, Option, none, some, Bool, true, false, not, ◌||◌, ◌==◌, string_eq,
  option_eq, if◌then◌else◌,
}
use network_enforcer.Common.Map.{lookup}
use network_enforcer.Common.Text.{cut_suffix}
use network_enforcer.Common.Text.Concat.{concat}
use network_enforcer.Api.Kube.{LabelSelector, OwnerReference, NamespacedName}
use network_enforcer.Api.Types.{
  WorkloadRef, WorkloadNetworkPolicy, bare_ref, is_supported, kind_deployment, kind_stateful_set,
  kind_daemon_set, kind_replica_set, kind_pod, namespaced_name,
}
use network_enforcer.Target.{
  Lookup, found, target_not_found, duplicate_target, list_failed, lookup_wnp_by_target,
}

-- the fields of a corev1.Pod; `controller` is what metav1.GetControllerOf finds
pub record Pod : Type 0 where
  pub name : String
  pub generate_name : String
  pub namespace : String
  pub labels : List (String × String)
  pub service_account_name : String
  pub controller : Option OwnerReference

-- The client's calls and the conversion of a selector, each `none` on an error. A workload is
-- answered by its spec's selector, a converted selector by whether it is empty.
pub record Client : Type 0 where
  pub get_pod : String → String → Option Pod
  pub get_deployment : String → String → Option (Option LabelSelector)
  pub get_stateful_set : String → String → Option (Option LabelSelector)
  pub get_daemon_set : String → String → Option (Option LabelSelector)
  pub list_pods : String → Option (List Pod)
  pub list_pods_by_ip : String → Option (List Pod)
  pub list_by_target : String → String → Option (List WorkloadNetworkPolicy)
  pub selector_is_empty : LabelSelector → Option Bool

-- appsv1.DefaultDeploymentUniqueLabelKey
abbrev pub pod_template_hash : String
pod_template_hash = "pod-template-hash"

unfoldable pub has_suffix : String → String → Bool
has_suffix s suffix = not (cut_suffix s suffix == none)

abbrev or_else : String → Option String → String
or_else s none = s
or_else s (some rest) = rest

unfoldable pub trim_suffix : String → String → String
trim_suffix s suffix = or_else s (cut_suffix s suffix)

abbrev pub label_or_empty : Option String → String
label_or_empty none = ""
label_or_empty (some value) = value

abbrev pub owner_of_pod : Pod → Option OwnerReference → WorkloadRef
owner_of_pod pod none = bare_ref pod.namespace kind_pod pod.name
owner_of_pod pod (some owner) =
    let hash = label_or_empty (lookup pod_template_hash pod.labels) in
    if not (owner.kind == kind_replica_set)
    then bare_ref pod.namespace owner.kind owner.name
    else if hash == "" || not (has_suffix owner.name hash)
    then bare_ref pod.namespace kind_replica_set owner.name
    else bare_ref pod.namespace kind_deployment (trim_suffix owner.name ("-" ++ hash))

unfoldable pub get_name_and_kind : Pod → WorkloadRef
get_name_and_kind pod = owner_of_pod pod pod.controller

unfoldable pub spiffe_identity : String → String → String
spiffe_identity namespace service_account =
    let account = if service_account == "" then "default" else service_account in
    concat ("cluster.local" ∷ "/ns/" ∷ namespace ∷ "/sa/" ∷ account ∷ [])

unfoldable pub set_identity : WorkloadRef → String → WorkloadRef
set_identity r service_account = record r { identity = spiffe_identity r.namespace service_account }

module _ (c : Client) where
  unfoldable pub get_selector_of : WorkloadRef → Option (Option LabelSelector)
  get_selector_of wk =
      if wk.owner_kind == kind_deployment
      then c.get_deployment wk.namespace wk.owner_name
      else if wk.owner_kind == kind_stateful_set
      then c.get_stateful_set wk.namespace wk.owner_name
      else if wk.owner_kind == kind_daemon_set
      then c.get_daemon_set wk.namespace wk.owner_name
      else none

  abbrev pub with_selector : WorkloadRef → LabelSelector → Option Bool → Option WorkloadRef
  with_selector wk selector none = none
  with_selector wk selector (some true) = none
  with_selector wk selector (some false) = some (record wk { selector = selector })

  abbrev pub check_selector : WorkloadRef → Option (Option LabelSelector) → Option WorkloadRef
  check_selector wk none = none
  check_selector wk (some none) = none
  check_selector wk (some (some selector)) =
      with_selector wk selector (c.selector_is_empty selector)

  -- the workload with its selector; `none` is an error, which leaves the workload as it was
  unfoldable pub lookup_pod_selector_for_workload : WorkloadRef → Option WorkloadRef
  lookup_pod_selector_for_workload wk = check_selector wk (get_selector_of wk)

  abbrev pub workload_of_pod : Option Pod → Option WorkloadRef
  workload_of_pod none = none
  workload_of_pod (some pod) =
      let ref = get_name_and_kind pod in
      if not (is_supported ref.owner_kind) then some ref else lookup_pod_selector_for_workload ref

  -- `none` is an error
  unfoldable pub get : String → String → Option WorkloadRef
  get namespace name = workload_of_pod (c.get_pod namespace name)

  -- `none` is an error: no policy, several or a failed lookup
  unfoldable pub resolve_denying_policy : WorkloadRef → String → Option NamespacedName
  resolve_denying_policy wk direction =
      elim (lookup_wnp_by_target c.list_by_target wk.namespace wk.owner_kind wk.owner_name
        direction) [
          | found wnp ↦ some (namespaced_name wnp)
          | target_not_found ↦ none
          | duplicate_target ↦ none
          | list_failed ↦ none
        ]

-- the kinds for which there is a typed object
unfoldable pub owner_object_for : String → Option String
owner_object_for kind =
    if kind == kind_deployment
    then some "Deployment"
    else if kind == kind_stateful_set
    then some "StatefulSet"
    else if kind == kind_daemon_set
    then some "DaemonSet"
    else none
