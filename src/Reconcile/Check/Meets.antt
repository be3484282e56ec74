-- ===== src/Reconcile/Check/Meets.antt =====
-- What a scope that is no mismatch says of the target.
use network_enforcer.Common.{
  String, List, ◌≡◌, ◌≢◌, refl, ◌⊎◌, inl, inr, Option, none, some, Bool, true, false, All,
}
use network_enforcer.Api.Kube.{LabelSelector, Condition}
use network_enforcer.Api.Types.{WorkloadNetworkPolicy, get_selector}
use network_enforcer.Reconcile.Scope.{
  WorkloadTemplate, match_workload_templates, selector_scope_condition,
  reason_selector_does_not_match_target,
}
use network_enforcer.Reconcile.Scope.Laws.{
  IsTarget, SelectsTarget, match_workload_templates-found, match_workload_templates-not_found,
}
use network_enforcer.Reconcile.Check.{
  Checker, workload_templates, scope_of_overlaps, scope_of_templates, scope_of_selector, scope_of,
  selector_of_backend, check_selector_scope,
}

module _ (c : Checker) (wnp : WorkloadNetworkPolicy) where
  -- The selector matches the template of the target, or the target does not exist.
  abbrev pub Meets : LabelSelector → Type 0
  Meets selector =
      (matches : List (String × String) → Bool) × (templates : List WorkloadTemplate)
      × (c.as_selector selector ≡ some matches)
      × (workload_templates c wnp.meta.namespace ≡ some templates)
      × (SelectsTarget wnp matches templates ⊎ All (λ t. ¬ IsTarget wnp matches t) templates)

  condition-mismatch :
      (found matched : Bool) (overlaps : List String)
      → (selector_scope_condition c.least wnp found matched overlaps).reason
        ≢ reason_selector_does_not_match_target
      → ((found ≡ true) × (matched ≡ true)) ⊎ (found ≡ false)
  unfolding selector_scope_condition
  condition-mismatch true true overlaps h = inl (refl, refl)
  condition-mismatch true false overlaps h = absurd (h refl)
  condition-mismatch false matched overlaps h = inr refl

  overlaps-mismatch :
      (matches : List (String × String) → Bool) (templates : List WorkloadTemplate)
      (overlaps : Option (List String)) (condition : Condition)
      → scope_of_overlaps c wnp (match_workload_templates wnp matches templates) overlaps
        ≡ some condition
      → condition.reason ≢ reason_selector_does_not_match_target
      → SelectsTarget wnp matches templates ⊎ All (λ t. ¬ IsTarget wnp matches t) templates
  overlaps-mismatch matches templates none condition h v = cc
  overlaps-mismatch matches templates (some overlaps) condition h v =
      let m = match_workload_templates wnp matches templates in
      let same : selector_scope_condition c.least wnp m.target_found m.target_matches overlaps
          ≡ condition =
        cc in
      elim (condition-mismatch m.target_found m.target_matches overlaps (rw same v)) [
        | inl (f, k) ↦ inl (match_workload_templates-found wnp matches templates f k)
        | inr n ↦ inr (match_workload_templates-not_found wnp matches templates n)
      ]

  templates-Meets :
      (selector : LabelSelector) (matches : List (String × String) → Bool)
      (templates : Option (List WorkloadTemplate)) (condition : Condition)
      → c.as_selector selector ≡ some matches
      → workload_templates c wnp.meta.namespace ≡ templates
      → scope_of_templates c wnp selector matches templates ≡ some condition
      → condition.reason ≢ reason_selector_does_not_match_target
      → Meets selector
  templates-Meets selector matches none condition s t h v = cc
  templates-Meets selector matches (some templates) condition s t h v =
      (matches, templates, s, t, overlaps-mismatch matches templates _ condition h v)

  selector-Meets :
      (selector : LabelSelector) (matches : Option (List (String × String) → Bool))
      (condition : Condition)
      → c.as_selector selector ≡ matches
      → scope_of_selector c wnp selector matches ≡ some condition
      → condition.reason ≢ reason_selector_does_not_match_target
      → Meets selector
  selector-Meets selector none condition s h v = cc
  selector-Meets selector (some matches) condition s h v =
      templates-Meets selector matches _ condition s refl h v

  scope-Meets :
      (given : Option LabelSelector) (condition : Condition)
      → get_selector wnp.spec ≡ given
      → scope_of c wnp given ≡ some condition
      → condition.reason ≢ reason_selector_does_not_match_target
      → (selector : LabelSelector) × (get_selector wnp.spec ≡ some selector)
        × Meets (selector_of_backend c wnp selector)
  scope-Meets none condition g h v = cc
  scope-Meets (some given) condition g h v =
      (given, g, selector-Meets (selector_of_backend c wnp given) _ condition refl h v)

  -- Where the check ends with a condition other than a mismatch, the selector matches the template of
  -- the target, or the target does not exist.
  pub check_selector_scope-Meets :
      (condition : Condition)
      → check_selector_scope c wnp ≡ some condition
      → condition.reason ≢ reason_selector_does_not_match_target
      → (selector : LabelSelector) × (get_selector wnp.spec ≡ some selector)
        × Meets (selector_of_backend c wnp selector)
  unfolding check_selector_scope
  check_selector_scope-Meets condition h v = scope-Meets _ condition refl h v
