-- ===== src/Reconcile/Ready.antt =====
-- internal/controller/workloadnetworkpolicy_selector_scope.go: the Ready condition of a policy and the
-- counters of its transitions.
pub mod Laws
use network_enforcer.Common.{
  ℕ, ◌+◌, ◌%◌, ◌^◌, String, List, [], ◌∷◌, Option, none, some, Bool, true, false, not, ◌&&◌, ◌==◌,
  string_eq, if◌then◌else◌,
}
use network_enforcer.Api.Kube.{Condition}
use network_enforcer.Reconcile.Scope.{condition_ready, reason_selector_overlaps_workload}
use network_enforcer.Reconcile.Duplicates.Message.{reason_duplicate_target}

-- the conditions of the policy's status, and the counters, each of which may be nil
pub record ReadyState : Type 0 where
  pub conditions : List Condition
  pub selector_overlaps : Option ℕ
  pub duplicate_targets : Option ℕ

-- whether the condition is new with this reason
abbrev pub enters : String → Option Condition → Condition → Bool
enters reason none condition = condition.reason == reason
enters reason (some previous) condition =
    condition.reason == reason && not (previous.reason == reason)

abbrev pub increment : Bool → Option ℕ → Option ℕ
increment entered none = none
increment entered (some n) = if entered then some (n + 1) else some n

-- `find` is FindStatusCondition by type and `set` SetStatusCondition with whether it changed anything.
module _ (find : List Condition → String → Option Condition)
    (set : List Condition → Condition → Bool × List Condition) where
  -- `patched` is whether the patch of the status succeeds; the state is the one on the API server
  unfoldable pub update_ready_condition : ReadyState → Condition → Bool → Bool × ReadyState
  update_ready_condition s condition patched =
      let previous = find s.conditions condition_ready in
      let result = set s.conditions condition in
      if not result.0 then (true, s) else if not patched then (false, s) else (
        true,
        record {
          conditions = result.1;
          selector_overlaps =
              increment (enters reason_selector_overlaps_workload previous condition)
                s.selector_overlaps;
          duplicate_targets =
              increment (enters reason_duplicate_target previous condition) s.duplicate_targets;
        },
      )

  -- one reconciliation after another, each with its condition and the answer to its patch
  unfoldable pub update_all : ReadyState → List (Condition × Bool) → ReadyState
  update_all s [] = s
  update_all s ((condition, patched) ∷ updates) =
      update_all (update_ready_condition s condition patched).1 updates
