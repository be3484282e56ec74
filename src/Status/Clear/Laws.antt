-- ===== src/Status/Clear/Laws.antt =====
-- What clearing leaves behind.
use network_enforcer.Common.{
  List, [], ◌∷◌, Option, none, some, String, refl, sym, Bool, false, ◌≡◌, ◌≤◌, arith, All,
  delete_if, Bool-cases, inl, inr, length, length-delete_if, string_eq, ◌==◌,
}
use network_enforcer.Api.Kube.{LabelSelector, NetworkPolicySpec}
use network_enforcer.Api.Types.{
  IstioSpec, ViolationRecord, PolicySpec, backend_istio, backend_kubernetes,
}
use network_enforcer.Status.Clear.{
  istio_allows, kubernetes_allows, clear_allowed_istio_violations,
  clear_allowed_kubernetes_violations, clear_allowed_violations,
}

-- Nothing that passes the test is left, and what was there of another property keeps it.
pub All-delete_if {ℓ κ} :
    {A : Type ℓ} (P : A → Type κ) (p : A → Bool) (xs : List A)
    → All P xs
    → All (λ x. (p x ≡ false) × P x) (delete_if p xs)
All-delete_if P p [] h = tt
All-delete_if P p (x ∷ xs) h = elim (Bool-cases (p x)) [
  | inl dropped ↦ rw dropped (All-delete_if P p xs h.1)
  | inr kept ↦ rw kept ((kept, h.0), All-delete_if P p xs h.1)
]

-- Where the Istio backend clears, no violation is left that the policy allows.
pub clear_allowed_istio_violations_lem :
    (spec : IstioSpec) (vs : List ViolationRecord)
    → All (λ v. istio_allows spec v ≡ false) (clear_allowed_istio_violations (some spec) vs)
unfolding clear_allowed_istio_violations
clear_allowed_istio_violations_lem spec [] = tt
clear_allowed_istio_violations_lem spec (v ∷ vs) = elim (Bool-cases (istio_allows spec v)) [
  | inl dropped ↦ rw dropped (clear_allowed_istio_violations_lem spec vs)
  | inr kept ↦ rw kept (kept, clear_allowed_istio_violations_lem spec vs)
]

length-clear_istio :
    (spec : Option IstioSpec) (vs : List ViolationRecord)
    → length (clear_allowed_istio_violations spec vs) ≤ length vs
unfolding clear_allowed_istio_violations
length-clear_istio none vs = omega arith
length-clear_istio (some spec) vs = length-delete_if _ vs

pub some_inj : {A : Type 0} {a b : A} → some a ≡ some b → a ≡ b
some_inj h = ground arith

module _ (format_label_selector : Option LabelSelector → String) where
  length-clear_kubernetes :
      (spec : Option NetworkPolicySpec) (vs kept : List ViolationRecord)
      → clear_allowed_kubernetes_violations format_label_selector spec vs ≡ some kept
      → length kept ≤ length vs
  unfolding clear_allowed_kubernetes_violations
  length-clear_kubernetes none [] kept h = rw (sym (some_inj h)) (omega arith)
  length-clear_kubernetes none (v ∷ vs) kept h = cc
  length-clear_kubernetes (some spec) vs kept h = rw (sym (some_inj h)) (length-delete_if _ vs)

  -- Clearing makes no violation up.
  pub length-clear_allowed_violations :
      (spec : PolicySpec) (vs kept : List ViolationRecord)
      → clear_allowed_violations format_label_selector spec vs ≡ some kept
      → length kept ≤ length vs
  unfolding clear_allowed_violations
  length-clear_allowed_violations spec vs kept h =
      elim (Bool-cases (spec.backend_spec.backend == backend_kubernetes)) [
        | inl k ↦ length-clear_kubernetes spec.backend_spec.kubernetes vs kept (rw k at h)
        | inr n ↦ elim (Bool-cases (spec.backend_spec.backend == backend_istio)) [
          | inl i ↦
              rw (sym (some_inj (rw (n, i) at h))) (length-clear_istio spec.backend_spec.istio vs)
          | inr o ↦ rw (sym (some_inj (rw (n, o) at h))) (omega arith)
        ]
      ]

  pub clear_allowed_violations-istio :
      (spec : PolicySpec) (vs : List ViolationRecord)
      → spec.backend_spec.backend ≡ backend_istio
      → clear_allowed_violations format_label_selector spec vs
        ≡ some (clear_allowed_istio_violations spec.backend_spec.istio vs)
  unfolding clear_allowed_violations
  clear_allowed_violations-istio spec vs e = rw e refl

  pub clear_allowed_violations-kubernetes :
      (spec : PolicySpec) (vs : List ViolationRecord)
      → spec.backend_spec.backend ≡ backend_kubernetes
      → clear_allowed_violations format_label_selector spec vs
        ≡ clear_allowed_kubernetes_violations format_label_selector spec.backend_spec.kubernetes vs
  unfolding clear_allowed_violations
  clear_allowed_violations-kubernetes spec vs e = rw e refl

  pub kubernetes_allows-clear :
      (spec : NetworkPolicySpec) (vs : List ViolationRecord)
      → All
          (λ v. kubernetes_allows format_label_selector spec v ≡ false)
          (delete_if (λ v. kubernetes_allows format_label_selector spec v) vs)
  kubernetes_allows-clear spec [] = tt
  kubernetes_allows-clear spec (v ∷ vs) =
      elim (Bool-cases (kubernetes_allows format_label_selector spec v)) [
        | inl dropped ↦ rw dropped (kubernetes_allows-clear spec vs)
        | inr kept ↦ rw kept (kept, kubernetes_allows-clear spec vs)
      ]
