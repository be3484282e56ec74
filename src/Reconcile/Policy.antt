-- ===== src/Reconcile/Policy.antt =====
-- internal/controller/workloadnetworkpolicy_controller.go: one reconciliation of a policy.
pub mod Laws
use network_enforcer.Common.{
  String, Option, none, some, Bool, true, false, not, ◌&&◌, ◌||◌, ◌==◌, string_eq, if◌then◌else◌,
}
use network_enforcer.Api.Kube.{Condition}
use network_enforcer.Api.Types.{WorkloadNetworkPolicy, backend_kubernetes, mode_monitor}
use network_enforcer.Reconcile.Render.{
  Existing, Rendering, nothing, ownership_conflict, rendering_failed, reconcile_k8s_policy,
  reconcile_istio_policy,
}
use network_enforcer.Reconcile.Scope.{
  condition_ready, condition_of, reason_selector_does_not_match_target,
}

abbrev pub reason_policy_ownership_conflict : String
reason_policy_ownership_conflict = "PolicyOwnershipConflict"

abbrev pub reason_policy_reconciliation_failed : String
reason_policy_reconciliation_failed = "PolicyReconciliationFailed"

-- a zero condition is `none`; what the data plane was asked for; whether there is an error
pub record PolicyOutcome : Type 0 where
  pub condition : Option Condition
  pub rendering : Rendering
  pub is_error : Bool

abbrev pub condition_of_rendering :
    WorkloadNetworkPolicy → String → Condition → Rendering → PolicyOutcome
condition_of_rendering wnp message condition ownership_conflict = record {
  condition = some (condition_of wnp "False" reason_policy_ownership_conflict message);
  rendering = ownership_conflict;
  is_error = true;
}
condition_of_rendering wnp message condition rendering_failed = record {
  condition = some (condition_of wnp "False" reason_policy_reconciliation_failed message);
  rendering = rendering_failed;
  is_error = true;
}
condition_of_rendering wnp message condition rendering = record {
  condition = some condition;
  rendering = rendering;
  is_error = false;
}

abbrev pub retained_or : Condition → Option Condition → PolicyOutcome
retained_or condition none = record {
  condition = some condition;
  rendering = nothing;
  is_error = true;
}
retained_or condition (some retained) = record {
  condition = some retained;
  rendering = nothing;
  is_error = false;
}

-- the condition of a conflict, and whether the policy is its winner
pub record DuplicateConflict : Type 0 where
  pub condition : Condition
  pub winner : Bool

-- The scope's condition and that of the retained policy are given, `none` is their error; `message`
-- is the text of a rendering error.
module _ (retained : Option Condition) (existing : Existing) (message : String) where
  abbrev pub render : WorkloadNetworkPolicy → Rendering
  render wnp =
      if wnp.spec.backend_spec.backend == backend_kubernetes
      then reconcile_k8s_policy wnp.spec.mode existing
      else reconcile_istio_policy existing

  abbrev pub reconcile_scoped : WorkloadNetworkPolicy → Condition → PolicyOutcome
  reconcile_scoped wnp condition =
      if condition.reason == reason_selector_does_not_match_target
        && not (wnp.spec.mode == mode_monitor)
      then retained_or condition retained
      else condition_of_rendering wnp message condition (render wnp)

  unfoldable pub reconcile_policy : WorkloadNetworkPolicy → Option Condition → PolicyOutcome
  reconcile_policy wnp none = record { condition = none; rendering = nothing; is_error = true }
  reconcile_policy wnp (some condition) = reconcile_scoped wnp condition

  abbrev pub with_conflict : Option DuplicateConflict → PolicyOutcome → PolicyOutcome
  with_conflict none outcome = outcome
  with_conflict (some conflict) outcome = record outcome { condition = some conflict.condition }

  -- Reconcile of a policy that Get has found: the Ready condition to write, if any
  unfoldable pub reconcile_checked :
      WorkloadNetworkPolicy → Option Condition → Option (Option DuplicateConflict) → PolicyOutcome
  reconcile_checked wnp scope none = record {
    condition = none;
    rendering = nothing;
    is_error = true;
  }
  reconcile_checked wnp scope (some none) = reconcile_policy wnp scope
  reconcile_checked wnp scope (some (some conflict)) =
      if conflict.winner
      then with_conflict (some conflict) (reconcile_policy wnp scope)
      else record { condition = some conflict.condition; rendering = nothing; is_error = false }
