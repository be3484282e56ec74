-- ===== src/Status/Recompute/Laws.antt =====
-- What a recomputed status satisfies.
use network_enforcer.Common.{
  ℕ, ◌≤◌, String, List, [], ◌∷◌, Option, some, Bool, false, ◌≡◌, refl, sym, arith, All, length,
  delete_if, length-delete_if, length-take, Option-cases, inl, inr,
}
use network_enforcer.Api.Kube.{LabelSelector, NetworkPolicySpec}
use network_enforcer.Api.Types.{
  IstioSpec, ViolationRecord, AcknowledgedViolationRecord, PolicyStatus, WorkloadNetworkPolicy,
  backend_istio, backend_kubernetes,
}
use network_enforcer.Status.Sorting.{sort_newest, cut_at-take}
use network_enforcer.Status.Merge.{
  merge_scraped_violations, max_violation_records, timestamp, merge_all, start_merge,
}
use network_enforcer.Status.Clear.{
  istio_allows, kubernetes_allows, clear_allowed_violations, clear_allowed_istio_violations,
  clear_allowed_kubernetes_violations,
}
use network_enforcer.Status.Clear.Laws.{
  All-delete_if, length-clear_allowed_violations, clear_allowed_istio_violations_lem,
  clear_allowed_violations-istio, clear_allowed_violations-kubernetes, kubernetes_allows-clear,
  some_inj,
}
use network_enforcer.Status.Acknowledge.{acknowledge_violations_from_annotations, collect}
use network_enforcer.Status.Acknowledge.Laws.{
  violations-acknowledge, generation-acknowledge, picked,
}
use network_enforcer.Status.Recompute.{with_violations, count_up, recompute_status}

length-merge :
    (s : PolicyStatus) (vs : List ViolationRecord)
    → length (merge_scraped_violations s vs).violations ≤ 100
unfolding merge_scraped_violations
length-merge s vs =
    let sorted = sort_newest timestamp (merge_all (start_merge s) vs).violations in
    rw (cut_at-take max_violation_records sorted)
      (omega (arith, length-take max_violation_records sorted))

length-acknowledge :
    (wnp : WorkloadNetworkPolicy) (now : ℕ)
    → length (acknowledge_violations_from_annotations wnp now).0.status.violations
      ≤ length wnp.status.violations
length-acknowledge wnp now =
    rw (violations-acknowledge wnp now) (length-delete_if _ wnp.status.violations)

All-weaken {κ} :
    (P : ViolationRecord → Type κ) (p : ViolationRecord → Bool) (vs : List ViolationRecord)
    → All (λ v. (p v ≡ false) × P v) vs
    → All P vs
All-weaken P p [] h = tt
All-weaken P p (v ∷ vs) h = (h.0.1, All-weaken P p vs h.1)

All-acknowledge {κ} :
    (P : ViolationRecord → Type κ) (wnp : WorkloadNetworkPolicy) (now : ℕ)
    → All P wnp.status.violations
    → All P (acknowledge_violations_from_annotations wnp now).0.status.violations
All-acknowledge P wnp now h =
    let p = picked (collect wnp.meta.annotations []) now in
    rw (violations-acknowledge wnp now)
      (All-weaken P p _ (All-delete_if P p wnp.status.violations h))

module _ (format_label_selector : Option LabelSelector → String) (wnp : WorkloadNetworkPolicy)
    (scraped : List ViolationRecord) (now : ℕ) where
  abbrev merged : PolicyStatus
  merged = merge_scraped_violations wnp.status scraped

  counted :
      (kept : List ViolationRecord)
      → length kept ≤ 100
      → ((count_up (
            acknowledge_violations_from_annotations
              (with_violations wnp merged kept)
              now)).0.status.active_violation_count
          ≤ 100)
        × ((count_up (
              acknowledge_violations_from_annotations
                (with_violations wnp merged kept)
                now)).0.status.observed_generation
            ≡ wnp.meta.generation)
  counted kept h = (
    omega (arith, length-acknowledge (with_violations wnp merged kept) now),
    generation-acknowledge (with_violations wnp merged kept) now,
  )

  -- Whenever recomputing does not panic, the active count is the number of violations in the status,
  -- at most 100, and the observed generation is the policy's.
  pub recompute_status-counts :
      (result : WorkloadNetworkPolicy × List AcknowledgedViolationRecord)
      → recompute_status format_label_selector wnp scraped now ≡ some result
      → (result.0.status.active_violation_count ≡ length result.0.status.violations)
        × (result.0.status.active_violation_count ≤ 100)
        × (result.0.status.observed_generation ≡ wnp.meta.generation)
  unfolding recompute_status
  recompute_status-counts result h =
      elim (Option-cases
        (clear_allowed_violations format_label_selector wnp.spec merged.violations)) [
          | inl e ↦ cc (rw e at h)
          | inr (kept, e) ↦
              let shorter =
                length-clear_allowed_violations format_label_selector wnp.spec merged.violations
                  kept e in
              let small = counted kept (omega (arith, shorter, length-merge wnp.status scraped)) in
              rw (sym (some_inj (rw e at h))) (refl, small.0, small.1)
        ]

  -- A policy of the Istio backend with a template is always recomputed, and no violation is left that
  -- the template allows.
  pub recompute_status-istio :
      (spec : IstioSpec)
      → wnp.spec.backend_spec.backend ≡ backend_istio
      → wnp.spec.backend_spec.istio ≡ some spec
      → (result : WorkloadNetworkPolicy × List AcknowledgedViolationRecord) × (recompute_status
            format_label_selector wnp scraped now
          ≡ some result)
        × All (λ v. istio_allows spec v ≡ false) result.0.status.violations
  unfolding recompute_status
  recompute_status-istio spec b t =
      let kept = clear_allowed_istio_violations (some spec) merged.violations in
      (
        count_up (acknowledge_violations_from_annotations (with_violations wnp merged kept) now),
        rw (clear_allowed_violations-istio format_label_selector wnp.spec merged.violations b, t)
            refl,
        All-acknowledge (λ v. istio_allows spec v ≡ false) (with_violations wnp merged kept) now
            (clear_allowed_istio_violations_lem spec merged.violations),
      )

  -- The same for the Kubernetes backend.
  pub recompute_status-kubernetes :
      (spec : NetworkPolicySpec)
      → wnp.spec.backend_spec.backend ≡ backend_kubernetes
      → wnp.spec.backend_spec.kubernetes ≡ some spec
      → (result : WorkloadNetworkPolicy × List AcknowledgedViolationRecord) × (recompute_status
            format_label_selector wnp scraped now
          ≡ some result)
        × All
            (λ v. kubernetes_allows format_label_selector spec v ≡ false)
            result.0.status.violations
  unfolding recompute_status clear_allowed_kubernetes_violations
  recompute_status-kubernetes spec b t =
      let kept =
        delete_if (λ v. kubernetes_allows format_label_selector spec v) merged.violations in
      (
        count_up (acknowledge_violations_from_annotations (with_violations wnp merged kept) now),
        rw
            (
              clear_allowed_violations-kubernetes format_label_selector wnp.spec merged.violations
                  b,
              t,
            )
            refl,
        All-acknowledge (λ v. kubernetes_allows format_label_selector spec v ≡ false)
            (with_violations wnp merged kept) now
            (kubernetes_allows-clear format_label_selector spec merged.violations),
      )
