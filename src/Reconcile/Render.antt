-- ===== src/Reconcile/Render.antt =====
-- internal/controller/workloadnetworkpolicy_reconcile_istio.go, ..._reconcile_k8s.go and
-- ..._controller.go: the object in the data plane that a policy is rendered to.
use network_enforcer.Common.{String, List, [], ◌∷◌, map, ◌==◌, string_eq, if◌then◌else◌}
use network_enforcer.Common.Map.{insert, remove}
use network_enforcer.Api.Types.{IstioFrom, IstioTo, IstioRule, IstioSpec, mode_monitor}

-- the AuthorizationPolicy of Istio: a rule's nil `From` is the empty list
pub record AuthorizationPolicySpec : Type 0 where
  pub action : String
  pub match_labels : List (String × String)
  pub rules : List IstioRule

-- maps.Copy
unfoldable pub copy_labels :
    List (String × String) → List (String × String) → List (String × String)
copy_labels dst [] = dst
copy_labels dst ((k, v) ∷ src) = copy_labels (insert k v dst) src

abbrev pub copy_from : IstioFrom → IstioFrom
copy_from from = record { principals = from.principals }

abbrev pub copy_to : IstioTo → IstioTo
copy_to to = record { ports = to.ports }

unfoldable pub populate_istio_authorization_policy_spec : IstioSpec → AuthorizationPolicySpec
populate_istio_authorization_policy_spec backend_spec = record {
  action = "ALLOW";
  match_labels = copy_labels [] backend_spec.selector.match_labels;
  rules =
      map
        (λ rule. record {
          sources = map copy_from rule.sources;
          operations = map copy_to rule.operations;
        })
        backend_spec.rules;
}

abbrev pub managed_by_label_key : String
managed_by_label_key = "app.kubernetes.io/managed-by"

unfoldable pub set_managed_by_label : List (String × String) → List (String × String)
set_managed_by_label labels = insert managed_by_label_key "network-enforcer" labels

abbrev pub istio_dry_run_annotation_key : String
istio_dry_run_annotation_key = "istio.io/dry-run"

-- the annotations in monitor mode and in protect mode
unfoldable pub istio_annotations : String → List (String × String) → List (String × String)
istio_annotations mode annotations =
    if mode == mode_monitor
    then insert istio_dry_run_annotation_key "true" annotations
    else remove istio_dry_run_annotation_key annotations

-- what Get answers for the object, and whether this policy controls it
pub data Existing : Type 0 where
  absent : Existing
  get_failed : Existing
  controlled : Existing
  foreign : Existing

pub data Rendering : Type 0 where
  nothing : Rendering
  deleted : Rendering
  rendered : Rendering
  ownership_conflict : Rendering
  rendering_failed : Rendering

-- reconcileK8sPolicy up to the write, of which the outcome is the API server's
unfoldable pub reconcile_k8s_policy : String → Existing → Rendering
reconcile_k8s_policy mode get_failed = rendering_failed
reconcile_k8s_policy mode foreign = ownership_conflict
reconcile_k8s_policy mode absent = if mode == mode_monitor then nothing else rendered
reconcile_k8s_policy mode controlled = if mode == mode_monitor then deleted else rendered

unfoldable pub reconcile_istio_policy : Existing → Rendering
reconcile_istio_policy get_failed = rendering_failed
reconcile_istio_policy foreign = ownership_conflict
reconcile_istio_policy absent = rendered
reconcile_istio_policy controlled = rendered
