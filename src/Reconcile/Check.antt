-- ===== src/Reconcile/Check.antt =====
-- internal/controller/workloadnetworkpolicy_selector_scope.go, ..._pod_scope.go and
-- ..._retained_policy.go: the checks of a selector against the cluster.
pub mod Laws
pub mod Meets
use Prim.Native.String.{◌++◌ as joined}
use network_enforcer.Common.{
  String, List, [], ◌∷◌, ◌++◌, map, Option, none, some, Bool, true, false, not, ◌&&◌, ◌||◌, ◌==◌,
  string_eq, if◌then◌else◌,
}
use network_enforcer.Common.Text.Concat.{concat}
use network_enforcer.Api.Kube.{LabelSelector, Condition, NamespacedName}
use network_enforcer.Api.Types.{
  WorkloadNetworkPolicy, get_selector, namespaced_name, backend_istio, backend_kubernetes,
  kind_deployment, kind_stateful_set, kind_daemon_set,
}
use network_enforcer.Reconcile.Scope.{
  WorkloadTemplate, ScopeMatch, match_workload_templates, selector_scope_condition, condition_of,
  reason_selector_overlaps_workload, reason_selector_does_not_match_target, Pod, GetAnswer,
  overlaps_of_pods,
}

-- the fields of a workload that are read
pub record Workload : Type 0 where
  pub name : String
  pub template_labels : List (String × String)
  pub uid : String

-- What Get of a rendered policy answers: its selector, and whether the policy controls it.
pub data Rendered : Type 0 where
  rendered : LabelSelector → Bool → Rendered
  rendered_not_found : Rendered
  rendered_failed : Rendered

-- The API server, of whose calls `none` is an error, the conversion of a selector to a test of
-- labels, and the first text in order.
pub record Checker : Type 0 where
  pub list_deployments : String → Option (List Workload)
  pub list_stateful_sets : String → Option (List Workload)
  pub list_daemon_sets : String → Option (List Workload)
  pub list_selected_pods : String → LabelSelector → Option (List Pod)
  pub get_replica_set : String → String → GetAnswer
  pub get_network_policy : NamespacedName → Rendered
  pub get_authorization_policy : NamespacedName → Rendered
  pub as_selector : LabelSelector → Option (List (String × String) → Bool)
  pub least : String → List String → String
  pub list_policies : String → Option (List WorkloadNetworkPolicy)

abbrev pub template_of : String → Workload → WorkloadTemplate
template_of kind w = record {
  target = record { kind = kind; name = w.name };
  labels = w.template_labels;
  uid = w.uid;
}

abbrev pub all_templates :
    Option (List Workload)
    → Option (List Workload)
    → Option (List Workload)
    → Option (List WorkloadTemplate)
all_templates (some ds) (some ss) (some es) = some (
    map (template_of kind_deployment) ds
    ++ (map (template_of kind_stateful_set) ss ++ map (template_of kind_daemon_set) es))
all_templates none ss es = none
all_templates (some ds) none es = none
all_templates (some ds) (some ss) none = none

module _ (c : Checker) where
  unfoldable pub workload_templates : String → Option (List WorkloadTemplate)
  workload_templates namespace =
      all_templates (c.list_deployments namespace) (c.list_stateful_sets namespace)
        (c.list_daemon_sets namespace)

  abbrev pub overlaps_among :
      WorkloadNetworkPolicy → List WorkloadTemplate → Option (List Pod) → Option (List String)
  overlaps_among wnp templates none = none
  overlaps_among wnp templates (some pods) =
      overlaps_of_pods c.get_replica_set wnp.spec.targeting.target_ref templates pods

  unfoldable pub pod_selector_overlaps :
      WorkloadNetworkPolicy → LabelSelector → List WorkloadTemplate → Option (List String)
  pod_selector_overlaps wnp selector templates =
      overlaps_among wnp templates (c.list_selected_pods wnp.meta.namespace selector)

  abbrev pub scope_of_overlaps :
      WorkloadNetworkPolicy → ScopeMatch → Option (List String) → Option Condition
  scope_of_overlaps wnp m none = none
  scope_of_overlaps wnp m (some overlaps) =
      some (selector_scope_condition c.least wnp m.target_found m.target_matches overlaps)

  -- the pods are looked at only where no template overlaps and the target's does not miss
  abbrev pub all_overlaps :
      WorkloadNetworkPolicy
      → LabelSelector
      → List WorkloadTemplate
      → ScopeMatch
      → List String
      → Option (List String)
  all_overlaps wnp selector templates m (o ∷ overlaps) = some (o ∷ overlaps)
  all_overlaps wnp selector templates m [] =
      if not m.target_found || m.target_matches
      then pod_selector_overlaps wnp selector templates
      else some []

  abbrev pub scope_of_templates :
      WorkloadNetworkPolicy
      → LabelSelector
      → (List (String × String) → Bool)
      → Option (List WorkloadTemplate)
      → Option Condition
  scope_of_templates wnp selector matches none = none
  scope_of_templates wnp selector matches (some templates) =
      let m = match_workload_templates wnp matches templates in
      scope_of_overlaps wnp m (all_overlaps wnp selector templates m m.overlaps)

  abbrev pub scope_of_selector :
      WorkloadNetworkPolicy
      → LabelSelector
      → Option (List (String × String) → Bool)
      → Option Condition
  scope_of_selector wnp selector none = none
  scope_of_selector wnp selector (some matches) =
      scope_of_templates wnp selector matches (workload_templates wnp.meta.namespace)

  -- Istio has no match expressions
  abbrev pub selector_of_backend : WorkloadNetworkPolicy → LabelSelector → LabelSelector
  selector_of_backend wnp selector =
      if wnp.spec.backend_spec.backend == backend_istio
      then record selector { match_expressions = [] }
      else selector

  abbrev pub scope_of : WorkloadNetworkPolicy → Option LabelSelector → Option Condition
  scope_of wnp none = none
  scope_of wnp (some given) =
      let selector = selector_of_backend wnp given in
      scope_of_selector wnp selector (c.as_selector selector)

  -- `none` is an error
  unfoldable pub check_selector_scope : WorkloadNetworkPolicy → Option Condition
  check_selector_scope wnp = scope_of wnp (get_selector wnp.spec)

  abbrev pub retained_message : Condition → String
  retained_message mismatch =
      joined mismatch.message
        "; retained policy selector and rules remain unchanged until the selector is corrected"

  abbrev pub retained_condition :
      WorkloadNetworkPolicy → Condition → Option (List String) → Option Condition
  retained_condition wnp mismatch none = none
  retained_condition wnp mismatch (some []) =
      some
        (condition_of wnp "False" reason_selector_does_not_match_target (retained_message mismatch))
  retained_condition wnp mismatch (some (o ∷ overlaps)) = some (
      condition_of wnp "False" reason_selector_overlaps_workload (
        concat (
          "Retained policy selector also selects "
          ∷ c.least o overlaps
          ∷ "; "
          ∷ retained_message mismatch
          ∷ [])))

  abbrev pub overlaps_or_pods :
      WorkloadNetworkPolicy
      → LabelSelector
      → List WorkloadTemplate
      → List String
      → Option (List String)
  overlaps_or_pods wnp selector templates [] = pod_selector_overlaps wnp selector templates
  overlaps_or_pods wnp selector templates (o ∷ overlaps) = some (o ∷ overlaps)

  abbrev pub retained_of_templates :
      WorkloadNetworkPolicy
      → Condition
      → LabelSelector
      → Option (List (String × String) → Bool)
      → Option (List WorkloadTemplate)
      → Option Condition
  retained_of_templates wnp mismatch selector none templates = none
  retained_of_templates wnp mismatch selector (some matches) none = none
  retained_of_templates wnp mismatch selector (some matches) (some templates) =
      retained_condition wnp mismatch (
        overlaps_or_pods wnp selector templates
          (match_workload_templates wnp matches templates).overlaps)

  abbrev pub retained_of : WorkloadNetworkPolicy → Condition → Rendered → Option Condition
  retained_of wnp mismatch rendered_not_found = some mismatch
  retained_of wnp mismatch rendered_failed = none
  retained_of wnp mismatch (rendered selector controlled) =
      if not controlled
      then some mismatch
      else retained_of_templates wnp mismatch selector (c.as_selector selector)
          (workload_templates wnp.meta.namespace)

  unfoldable pub retained_policy_selector : WorkloadNetworkPolicy → Rendered
  retained_policy_selector wnp =
      if wnp.spec.backend_spec.backend == backend_kubernetes
      then c.get_network_policy (namespaced_name wnp)
      else c.get_authorization_policy (namespaced_name wnp)

  unfoldable pub check_retained_policy_scope : WorkloadNetworkPolicy → Condition → Option Condition
  check_retained_policy_scope wnp mismatch = retained_of wnp mismatch (retained_policy_selector wnp)

  abbrev pub requests_for : Option (List WorkloadNetworkPolicy) → List NamespacedName
  requests_for none = []
  requests_for (some policies) = map namespaced_name policies

  -- the policies to reconcile when a workload or a pod changes
  unfoldable pub policies_for_workload : String → List NamespacedName
  policies_for_workload namespace = requests_for (c.list_policies namespace)
