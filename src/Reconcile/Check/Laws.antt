-- ===== src/Reconcile/Check/Laws.antt =====
-- The Ready condition of a valid scope, checked against the cluster.
use network_enforcer.Common.{
  ap, ◌∙◌, ◌==◌, string_eq, eq-true, All-map, String, List, [], ◌∷◌, Bool, true, ◌≡◌, refl,
  Bool-cases, inl, inr, Option, none, some, All, string_eq,
}
use network_enforcer.Api.Kube.{LabelSelector, Condition, OwnerReference}
use network_enforcer.Api.Types.{WorkloadNetworkPolicy, WorkloadTargetRef, get_selector}
use network_enforcer.Reconcile.Scope.{
  WorkloadTemplate, ScopeMatch, match_workload_templates, selector_scope_condition, Pod, GetAnswer,
  overlaps_of_pods, add_overlap, pod_workload_owner, pod_owner_matches_target, apps_v1,
  reason_selector_scope_valid,
}
use network_enforcer.Reconcile.Scope.Laws.{
  condition-valid, match_from-apart, is_apart_lem, IsApart, SelectsTarget,
  match_workload_templates-found,
}
use network_enforcer.Reconcile.Check.{
  Checker, workload_templates, overlaps_among, pod_selector_overlaps, scope_of_overlaps,
  all_overlaps, scope_of_templates, scope_of_selector, scope_of, selector_of_backend,
  check_selector_scope,
}

-- the owner is the workload of the target, by its kind and name
abbrev pub IsOwner : WorkloadTargetRef → OwnerReference → Type 0
IsOwner target owner =
    (owner.api_version ≡ apps_v1) × (owner.kind ≡ target.kind) × (owner.name ≡ target.name)

pod_owner_matches_target_lem :
    (owner : Option OwnerReference) (target : WorkloadTargetRef) (templates : List WorkloadTemplate)
    → pod_owner_matches_target owner target templates ≡ true
    → (o : OwnerReference) × (owner ≡ some o) × IsOwner target o
unfolding pod_owner_matches_target
pod_owner_matches_target_lem none target templates h = cc
pod_owner_matches_target_lem (some o) target templates h =
    elim (Bool-cases (o.api_version == apps_v1)) [
      | inr e ↦ absurd (cc (rw e at h))
      | inl e ↦ elim (Bool-cases (o.kind == target.kind)) [
        | inr k ↦ absurd (cc (rw (e, k) at h))
        | inl k ↦ elim (Bool-cases (o.name == target.name)) [
          | inr n ↦ absurd (cc (rw (e, k, n) at h))
          | inl n ↦ (o, refl, (eq-true _ _ e, eq-true _ _ k, eq-true _ _ n))
        ]
      ]
    ]

-- the pod is controlled by the target
abbrev pub IsOwned :
    (String → String → GetAnswer) → WorkloadTargetRef → List WorkloadTemplate → Pod → Type 0
IsOwned get_replica_set target templates pod =
    (owner : OwnerReference) × (pod_workload_owner get_replica_set pod ≡ some (some owner))
    × IsOwner target owner
    × (pod_owner_matches_target (some owner) target templates ≡ true)

module _ (get_replica_set : String → String → GetAnswer) (target : WorkloadTargetRef)
    (templates : List WorkloadTemplate) where
  add_overlap-nil :
      (pod : Pod) (owner : Option (Option OwnerReference)) (rest : Option (List String))
      → add_overlap get_replica_set target templates pod owner rest ≡ some []
      → (o : Option OwnerReference) × (owner ≡ some o)
        × (pod_owner_matches_target o target templates ≡ true)
        × (rest ≡ some [])
  add_overlap-nil pod none rest h = cc
  add_overlap-nil pod (some owner) none h = cc
  add_overlap-nil pod (some owner) (some rest) h =
      elim (Bool-cases (pod_owner_matches_target owner target templates)) [
        | inl e ↦ (owner, refl, e, rw e at h)
        | inr e ↦ absurd (cc (rw e at h))
      ]

  overlaps_of_pods-nil :
      (pods : List Pod)
      → overlaps_of_pods get_replica_set target templates pods ≡ some []
      → All (IsOwned get_replica_set target templates) pods
  unfolding overlaps_of_pods
  overlaps_of_pods-nil [] h = tt
  overlaps_of_pods-nil (pod ∷ pods) h =
      let (owner, e, k, rest) = add_overlap-nil pod _ _ h in
      let (o, same, owns) = pod_owner_matches_target_lem owner target templates k in
      ((o, e ∙ ap some same, owns, rw same at k), overlaps_of_pods-nil pods rest)

module _ (c : Checker) (wnp : WorkloadNetworkPolicy) where
  -- What the check has seen: the target's template is selected, no other workload's template is, and
  -- every selected pod belongs to the target.
  abbrev pub Selects : LabelSelector → Type 0
  Selects selector =
      (matches : List (String × String) → Bool) × (templates : List WorkloadTemplate) × (pods : List
        Pod)
      × (c.as_selector selector ≡ some matches)
      × (workload_templates c wnp.meta.namespace ≡ some templates)
      × (c.list_selected_pods wnp.meta.namespace selector ≡ some pods)
      × SelectsTarget wnp matches templates
      × All (λ t. IsApart wnp matches t) templates
      × All (IsOwned c.get_replica_set wnp.spec.targeting.target_ref templates) pods

  overlaps_among-nil :
      (templates : List WorkloadTemplate) (pods : Option (List Pod))
      → overlaps_among c wnp templates pods ≡ some []
      → (found : List Pod) × (pods ≡ some found)
        × All (IsOwned c.get_replica_set wnp.spec.targeting.target_ref templates) found
  overlaps_among-nil templates none h = cc
  overlaps_among-nil templates (some pods) h = (
    pods,
    refl,
    overlaps_of_pods-nil c.get_replica_set wnp.spec.targeting.target_ref templates pods h,
  )

  all_overlaps-nil :
      (selector : LabelSelector) (templates : List WorkloadTemplate) (m : ScopeMatch)
      (overlaps : List String)
      → m.target_found ≡ true
      → m.target_matches ≡ true
      → all_overlaps c wnp selector templates m overlaps ≡ some []
      → (overlaps ≡ []) × (pod_selector_overlaps c wnp selector templates ≡ some [])
  all_overlaps-nil selector templates m (o ∷ overlaps) f k h = absurd (cc h)
  all_overlaps-nil selector templates m [] f k h = (refl, rw (f, k) at h)

  scope_of_overlaps-valid :
      (m : ScopeMatch) (overlaps : Option (List String)) (condition : Condition)
      → scope_of_overlaps c wnp m overlaps ≡ some condition
      → condition.reason ≡ reason_selector_scope_valid
      → (m.target_found ≡ true) × (m.target_matches ≡ true) × (overlaps ≡ some [])
  scope_of_overlaps-valid m none condition h v = cc
  scope_of_overlaps-valid m (some overlaps) condition h v =
      let same : selector_scope_condition c.least wnp m.target_found m.target_matches overlaps
          ≡ condition =
        cc in
      let (f, k, n) =
        condition-valid c.least wnp m.target_found m.target_matches overlaps (rw same v) in
      (f, k, rw n refl)

  scope_of_templates-valid :
      (selector : LabelSelector) (matches : List (String × String) → Bool)
      (templates : Option (List WorkloadTemplate)) (condition : Condition)
      → c.as_selector selector ≡ some matches
      → workload_templates c wnp.meta.namespace ≡ templates
      → scope_of_templates c wnp selector matches templates ≡ some condition
      → condition.reason ≡ reason_selector_scope_valid
      → Selects selector
  unfolding match_workload_templates pod_selector_overlaps
  scope_of_templates-valid selector matches none condition s t h v = cc
  scope_of_templates-valid selector matches (some templates) condition s t h v =
      let m = match_workload_templates wnp matches templates in
      let (f, k, n) = scope_of_overlaps-valid m _ condition h v in
      let (no_template, no_pod) = all_overlaps-nil selector templates m m.overlaps f k n in
      let (pods, p, owned) = overlaps_among-nil templates _ no_pod in
      (
        matches,
        templates,
        pods,
        s,
        t,
        p,
        match_workload_templates-found wnp matches templates f k,
        All-map (λ u. is_apart_lem wnp matches u) templates
            (match_from-apart wnp matches _ templates no_template).1,
        owned,
      )

  scope_of_selector-valid :
      (selector : LabelSelector) (matches : Option (List (String × String) → Bool))
      (condition : Condition)
      → c.as_selector selector ≡ matches
      → scope_of_selector c wnp selector matches ≡ some condition
      → condition.reason ≡ reason_selector_scope_valid
      → Selects selector
  scope_of_selector-valid selector none condition s h v = cc
  scope_of_selector-valid selector (some matches) condition s h v =
      scope_of_templates-valid selector matches _ condition s refl h v

  scope_of-valid :
      (given : Option LabelSelector) (condition : Condition)
      → get_selector wnp.spec ≡ given
      → scope_of c wnp given ≡ some condition
      → condition.reason ≡ reason_selector_scope_valid
      → (selector : LabelSelector) × (get_selector wnp.spec ≡ some selector)
        × Selects (selector_of_backend c wnp selector)
  scope_of-valid none condition g h v = cc
  scope_of-valid (some given) condition g h v =
      (given, g, scope_of_selector-valid (selector_of_backend c wnp given) _ condition refl h v)

  -- Where the check against the cluster ends with the condition of a valid scope, the policy has a
  -- selector that matches the labels of a listed template of its target, by kind and name. Every
  -- other template of the namespace is the target's or is not matched, and every pod that is selected
  -- has an owner of the target's kind and name.
  pub check_selector_scope-valid :
      (condition : Condition)
      → check_selector_scope c wnp ≡ some condition
      → condition.reason ≡ reason_selector_scope_valid
      → (selector : LabelSelector) × (get_selector wnp.spec ≡ some selector)
        × Selects (selector_of_backend c wnp selector)
  unfolding check_selector_scope
  check_selector_scope-valid condition h v = scope_of-valid _ condition refl h v
