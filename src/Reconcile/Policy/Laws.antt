-- ===== src/Reconcile/Policy/Laws.antt =====
-- When the data plane is touched.
use network_enforcer.Common.{
  String, Option, none, some, true, ◌≡◌, ◌≢◌, ◌⊎◌, inl, inr, refl, ◌==◌, string_eq, eq-true,
  ne_of_eq-false, Bool-cases,
}
use network_enforcer.Api.Kube.{LabelSelector, Condition}
use network_enforcer.Api.Types.{WorkloadNetworkPolicy, mode_monitor, get_selector}
use network_enforcer.Reconcile.Render.{Existing, nothing}
use network_enforcer.Reconcile.Scope.{reason_selector_does_not_match_target}
use network_enforcer.Reconcile.Check.{Checker, check_selector_scope, selector_of_backend}
use network_enforcer.Reconcile.Check.Meets.{Meets, check_selector_scope-Meets}
use network_enforcer.Reconcile.Policy.{
  retained_or, reconcile_scoped, reconcile_policy, DuplicateConflict, reconcile_checked,
}

rendering-retained_or :
    (condition : Condition) (o : Option Condition) → (retained_or condition o).rendering ≡ nothing
rendering-retained_or condition none = refl
rendering-retained_or condition (some r) = refl

-- no other policy has the target, or this one is the winner
abbrev pub MayRender : Option (Option DuplicateConflict) → Type 0
MayRender none = ⊥
MayRender (some none) = Unit
MayRender (some (some conflict)) = conflict.winner ≡ true

module _ (retained : Option Condition) (existing : Existing) (message : String)
    (wnp : WorkloadNetworkPolicy) where
  scoped-renders :
      (scope : Condition)
      → (reconcile_scoped retained existing message wnp scope).rendering ≢ nothing
      → (wnp.spec.mode ≡ mode_monitor) ⊎ (scope.reason ≢ reason_selector_does_not_match_target)
  scoped-renders scope h = elim (Bool-cases (wnp.spec.mode == mode_monitor)) [
    | inl m ↦ inl (eq-true _ _ m)
    | inr m ↦ elim (Bool-cases (scope.reason == reason_selector_does_not_match_target)) [
      | inl missed ↦ absurd ((rw (missed, m) at h) (rendering-retained_or scope retained))
      | inr met ↦ inr (ne_of_eq-false _ _ met)
    ]
  ]

  policy-renders :
      (c : Checker) (scope : Option Condition)
      → check_selector_scope c wnp ≡ scope
      → (reconcile_policy retained existing message wnp scope).rendering ≢ nothing
      → (wnp.spec.mode ≡ mode_monitor)
        ⊎ (selector : LabelSelector) × (get_selector wnp.spec ≡ some selector)
          × Meets c wnp (selector_of_backend c wnp selector)
  unfolding reconcile_policy
  policy-renders c none e h = absurd (h refl)
  policy-renders c (some scope) e h = elim (scoped-renders scope h) [
    | inl m ↦ inl m
    | inr met ↦ inr (check_selector_scope-Meets c wnp scope e met)
  ]

  -- The data plane is touched only for a policy that no other one contends with, or that is the winner
  -- of its conflict, and only in monitor mode or where the policy's selector, checked against the
  -- cluster, matches the pod template of its target or the target does not exist.
  pub reconcile_checked-renders :
      (c : Checker) (conflict : Option (Option DuplicateConflict))
      → (reconcile_checked retained existing message wnp
          (check_selector_scope c wnp)
          conflict).rendering
        ≢ nothing
      → MayRender conflict
        × ((wnp.spec.mode ≡ mode_monitor)
            ⊎ (selector : LabelSelector) × (get_selector wnp.spec ≡ some selector)
              × Meets c wnp (selector_of_backend c wnp selector))
  unfolding reconcile_checked
  reconcile_checked-renders c none h = absurd (h refl)
  reconcile_checked-renders c (some none) h = (tt, policy-renders c _ refl h)
  reconcile_checked-renders c (some (some conflict)) h = elim (Bool-cases conflict.winner) [
    | inl w ↦ (w, policy-renders c _ refl (rw w at h))
    | inr l ↦ absurd ((rw l at h) refl)
  ]
