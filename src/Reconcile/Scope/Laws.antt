-- ===== src/Reconcile/Scope/Laws.antt =====
-- When the Ready condition says that the scope is valid.
use network_enforcer.Common.{
  suc, IsIn, ◌↔◌, ◌⊎◌, eq_iff, arith, String, List, [], ◌∷◌, ◌++◌, Bool, true, false, not, ◌≡◌,
  refl, ◌||◌, Bool-cases, inl, inr, ne_of_eq-false, string_eq,
}
use network_enforcer.Api.Types.{WorkloadNetworkPolicy}
use network_enforcer.Reconcile.Scope.{
  WorkloadTemplate, ScopeMatch, is_target, match_one, match_from, match_workload_templates,
  overlap_or, selector_scope_condition, reason_selector_scope_valid,
  reason_selector_overlaps_workload, reason_target_not_found, reason_selector_does_not_match_target,
}
use network_enforcer.Common.{All}

module _ (wnp : WorkloadNetworkPolicy) (matches : List (String × String) → Bool) where
  -- the template is the target's, or the selector does not match it
  abbrev pub is_apart : WorkloadTemplate → Bool
  is_apart t = is_target t.target wnp.spec.targeting.target_ref || not (matches t.labels)

  not-snoc {ℓ} : {A : Type ℓ} (xs : List A) (x : A) → xs ++ x ∷ [] ≡ [] → ⊥
  not-snoc [] x h = cc
  not-snoc (y ∷ ys) x h = cc

  match_one-apart :
      (m : ScopeMatch) (t : WorkloadTemplate)
      → (match_one wnp matches m t).overlaps ≡ []
      → (m.overlaps ≡ []) × (is_apart t ≡ true)
  match_one-apart m t h = elim (Bool-cases (is_target t.target wnp.spec.targeting.target_ref)) [
    | inl own ↦ rw own (rw own at h, refl)
    | inr other ↦ elim (Bool-cases (matches t.labels)) [
      | inl hit ↦ absurd (not-snoc m.overlaps _ (rw (other, hit) at h))
      | inr miss ↦ rw (other, miss) (rw (other, miss) at h, refl)
    ]
  ]

  pub match_from-apart :
      (m : ScopeMatch) (templates : List WorkloadTemplate)
      → (match_from wnp matches m templates).overlaps ≡ []
      → (m.overlaps ≡ []) × All (λ t. is_apart t ≡ true) templates
  unfolding match_from
  match_from-apart m [] h = (h, tt)
  match_from-apart m (t ∷ templates) h =
      let (rest, apart) = match_from-apart (match_one wnp matches m t) templates h in
      let (before, this) = match_one-apart m t rest in (before, (this, apart))

module _ (wnp : WorkloadNetworkPolicy) (matches : List (String × String) → Bool) where
  -- the template is that of the target
  abbrev pub IsTarget : WorkloadTemplate → Type 0
  IsTarget t =
      (t.target.kind ≡ wnp.spec.targeting.target_ref.kind)
      × (t.target.name ≡ wnp.spec.targeting.target_ref.name)

  is_target_iff :
      (t : WorkloadTemplate)
      → (is_target t.target wnp.spec.targeting.target_ref ≡ true) ↔ IsTarget t
  is_target_iff t = ground (
    arith,
    eq_iff t.target.kind wnp.spec.targeting.target_ref.kind,
    eq_iff t.target.name wnp.spec.targeting.target_ref.name,
  )

  -- the template is that of the target, or the selector does not match its labels
  abbrev pub IsApart : WorkloadTemplate → Type 0
  IsApart t = IsTarget t ⊎ (matches t.labels ≡ false)

  pub is_apart_lem : (t : WorkloadTemplate) → is_apart wnp matches t ≡ true → IsApart t
  is_apart_lem t h = elim (Bool-cases (is_target t.target wnp.spec.targeting.target_ref)) [
    | inl own ↦ inl ((is_target_iff t).0 own)
    | inr other ↦ elim (Bool-cases (matches t.labels)) [
      | inl hit ↦ absurd (cc (rw (other, hit) at h))
      | inr miss ↦ inr miss
    ]
  ]

  -- the template of the target is listed, and the selector matches its labels
  abbrev pub SelectsTarget : List WorkloadTemplate → Type 0
  SelectsTarget templates =
      (t : WorkloadTemplate) × IsIn t templates × IsTarget t × (matches t.labels ≡ true)

  -- what was found before the templates that are left
  abbrev Found : ScopeMatch → Type 0
  Found m = (m.target_found ≡ true) × (m.target_matches ≡ true)

  one-Found :
      (m : ScopeMatch) (t : WorkloadTemplate) (templates : List WorkloadTemplate)
      → Found (match_one wnp matches m t)
      → SelectsTarget (t ∷ templates) ⊎ Found m
  one-Found m t templates (f, k) =
      elim (Bool-cases (is_target t.target wnp.spec.targeting.target_ref)) [
        | inl own ↦ inl (t, (0, refl), (is_target_iff t).0 own, rw own at k)
        | inr other ↦ elim (Bool-cases (matches t.labels)) [
          | inl hit ↦ inr (rw (other, hit) at f, rw (other, hit) at k)
          | inr miss ↦ inr (rw (other, miss) at f, rw (other, miss) at k)
        ]
      ]

  later :
      (t : WorkloadTemplate) (templates : List WorkloadTemplate)
      → SelectsTarget templates
      → SelectsTarget (t ∷ templates)
  later t templates (u, (i, e), k, m) = (u, (suc i, e), k, m)

  match_from-Found :
      (m : ScopeMatch) (templates : List WorkloadTemplate)
      → Found (match_from wnp matches m templates)
      → SelectsTarget templates ⊎ Found m
  unfolding match_from
  match_from-Found m [] h = inr h
  match_from-Found m (t ∷ templates) h =
      elim (match_from-Found (match_one wnp matches m t) templates h) [
        | inl found ↦ inl (later t templates found)
        | inr before ↦ one-Found m t templates before
      ]

  one-not_found :
      (m : ScopeMatch) (t : WorkloadTemplate)
      → (match_one wnp matches m t).target_found ≡ false
      → (m.target_found ≡ false) × ¬ IsTarget t
  one-not_found m t h = elim (Bool-cases (is_target t.target wnp.spec.targeting.target_ref)) [
    | inl own ↦ absurd (cc (rw own at h))
    | inr other ↦
        let apart : ¬ IsTarget t = λ k. cc ((is_target_iff t).1 k, other) in
        elim (Bool-cases (matches t.labels)) [
          | inl hit ↦ (rw (other, hit) at h, apart)
          | inr miss ↦ (rw (other, miss) at h, apart)
        ]
  ]

  match_from-not_found :
      (m : ScopeMatch) (templates : List WorkloadTemplate)
      → (match_from wnp matches m templates).target_found ≡ false
      → (m.target_found ≡ false) × All (λ t. ¬ IsTarget t) templates
  unfolding match_from
  match_from-not_found m [] h = (h, tt)
  match_from-not_found m (t ∷ templates) h =
      let (before, rest) = match_from-not_found (match_one wnp matches m t) templates h in
      let (start, this) = one-not_found m t before in (start, (this, rest))

  -- Where the target was found and its template matches, a listed template of the target does.
  pub match_workload_templates-found :
      (templates : List WorkloadTemplate)
      → (match_workload_templates wnp matches templates).target_found ≡ true
      → (match_workload_templates wnp matches templates).target_matches ≡ true
      → SelectsTarget templates
  unfolding match_workload_templates
  match_workload_templates-found templates f k = elim (match_from-Found _ templates (f, k)) [
    | inl found ↦ found
    | inr (start, matched) ↦ absurd (cc start)
  ]

  -- Where the target was not found, no listed template is that of the target.
  pub match_workload_templates-not_found :
      (templates : List WorkloadTemplate)
      → (match_workload_templates wnp matches templates).target_found ≡ false
      → All (λ t. ¬ IsTarget t) templates
  unfolding match_workload_templates
  match_workload_templates-not_found templates h = (match_from-not_found _ templates h).1

false-ne-true : false ≡ true → ⊥
false-ne-true h = cc

module _ (least : String → List String → String) where
  overlap-valid :
      (wnp : WorkloadNetworkPolicy) (found : Bool) (overlaps : List String)
      → (overlap_or least wnp found overlaps).reason ≡ reason_selector_scope_valid
      → (found ≡ true) × (overlaps ≡ [])
  overlap-valid wnp found (o ∷ os) h =
      absurd (ne_of_eq-false reason_selector_overlaps_workload reason_selector_scope_valid refl h)
  overlap-valid wnp false [] h =
      absurd (ne_of_eq-false reason_target_not_found reason_selector_scope_valid refl h)
  overlap-valid wnp true [] h = (refl, refl)

  pub condition-valid :
      (wnp : WorkloadNetworkPolicy) (found matched : Bool) (overlaps : List String)
      → (selector_scope_condition least wnp found matched overlaps).reason
        ≡ reason_selector_scope_valid
      → (found ≡ true) × (matched ≡ true) × (overlaps ≡ [])
  unfolding selector_scope_condition
  condition-valid wnp true true overlaps h = (refl, refl, (overlap-valid wnp true overlaps h).1)
  condition-valid wnp true false overlaps h =
      absurd
        (ne_of_eq-false reason_selector_does_not_match_target reason_selector_scope_valid refl h)
  condition-valid wnp false matched overlaps h =
      absurd (false-ne-true (overlap-valid wnp false overlaps h).0)

  -- A scope is reported as valid only if the target was found and its pod template is selected, and
  -- no template of another workload is.
  pub selector_scope_condition-valid :
      (wnp : WorkloadNetworkPolicy) (matches : List (String × String) → Bool)
      (templates : List WorkloadTemplate)
      → (selector_scope_condition least wnp
          (match_workload_templates wnp matches templates).target_found
          (match_workload_templates wnp matches templates).target_matches
          (match_workload_templates wnp matches templates).overlaps).reason
        ≡ reason_selector_scope_valid
      → ((match_workload_templates wnp matches templates).target_found ≡ true)
        × ((match_workload_templates wnp matches templates).target_matches ≡ true)
        × All (λ t. is_apart wnp matches t ≡ true) templates
  unfolding match_workload_templates
  selector_scope_condition-valid wnp matches templates h =
      let m = match_workload_templates wnp matches templates in
      let (found, matched, none_other) =
        condition-valid wnp m.target_found m.target_matches m.overlaps h in
      (found, matched, (match_from-apart wnp matches _ templates none_other).1)
