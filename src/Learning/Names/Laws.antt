-- ===== src/Learning/Names/Laws.antt =====
-- A proposal's name gives back the workload it was made for.
use Prim.Native.Char.{Char, code}
use Prim.Native.String.{[], ◌∷◌, ◌++◌, count}
use text.Mathlib.TextLemmas.{cons-append, length-append, append_inj}
use network_enforcer.Common.{
  ◌+◌, String, Bool, true, false, none, some, ◌≡◌, ◌≢◌, refl, sym, ap, ◌∙◌, arith, ◌==◌, string_eq,
  eq-false, ne_of_eq-false, eq-true, nat_beq, if◌then◌else◌, ◌⊎◌, ◌||◌, Bool-cases, inl, inr,
}
use network_enforcer.Common.Text.{cut_prefix, cut_suffix, to_lower}
use network_enforcer.Common.Text.Concat.{concat, concat-name}
use network_enforcer.Common.Text.Affixes.{cut_prefix-append, cut_suffix-append}
use network_enforcer.Common.Booleans.{or-cases}
use network_enforcer.Api.Kube.{policy_type_ingress, policy_type_egress}
use network_enforcer.Api.Types.{
  WorkloadRef, is_supported, bare_ref, kind_deployment, kind_stateful_set, kind_daemon_set,
}
use network_enforcer.Learning.Names.{
  get_proposal_name, trim_known_suffix, owner_ref_from, owner_ref_from_proposal_name,
  known_suffixes,
}

-- The two texts differ at a place that both have.
abbrev differ : String → String → Bool
differ [] p = false
differ (c ∷ a) [] = false
differ (c ∷ a) (d ∷ p) = if nat_beq (code c) (code d) then differ a p else true

cut_prefix-differ : (a p x : String) → differ a p ≡ true → cut_prefix (a ++ x) p ≡ none
unfolding cut_prefix
cut_prefix-differ [] p x h = cc
cut_prefix-differ (c ∷ a) [] x h = cc
cut_prefix-differ (c ∷ a) (d ∷ p) x h = elim (Bool-cases (nat_beq (code c) (code d))) [
  | inl same ↦ rw (cons-append, same, cut_prefix) (cut_prefix-differ a p x (rw same at h))
  | inr other ↦ rw (cons-append, other, cut_prefix) refl
]

-- A longer text cannot be the suffix, by its last seven characters.
no_ingress : (c : Char) (s : String) → (c ∷ s) ++ "-egress" ≢ "-ingress"
no_ingress c s h =
    let n : count (c ∷ s) + 7 ≡ 8 = sym (length-append (c ∷ s) "-egress") ∙ ap count h in
    let one : count (c ∷ s) ≡ 1 = omega arith in
    ne_of_eq-false "-egress" "ingress" refl
      (append_inj {s₁ = c ∷ s} {s₂ = "-"} {t₁ = "-egress"} {t₂ = "ingress"} h one).1

cut_suffix-egress : (s : String) → cut_suffix (s ++ "-egress") "-ingress" ≡ none
unfolding cut_suffix
cut_suffix-egress [] = refl
cut_suffix-egress (c ∷ s) =
    rw
      (
        cons-append,
        cut_suffix,
        eq-false (c ∷ (s ++ "-egress")) "-ingress"
            (λ h. no_ingress c s (cons-append c s "-egress" ∙ h)),
        cut_suffix-egress s,
      )
      refl

trim-ingress :
    (name : String) → name ≢ "" → trim_known_suffix (name ++ "-ingress") known_suffixes ≡ some name
unfolding trim_known_suffix
trim-ingress name h = rw (cut_suffix-append name "-ingress", eq-false name "" h) refl

trim-egress :
    (name : String) → name ≢ "" → trim_known_suffix (name ++ "-egress") known_suffixes ≡ some name
unfolding trim_known_suffix
trim-egress name h =
    rw (cut_suffix-egress name, cut_suffix-append name "-egress", eq-false name "" h) refl

module _ (namespace rest name : String)
    (trimmed : trim_known_suffix rest known_suffixes ≡ some name) where
  from-deployment :
      owner_ref_from_proposal_name namespace ("deployment-" ++ rest)
      ≡ some (bare_ref namespace kind_deployment name)
  unfolding owner_ref_from_proposal_name owner_ref_from concat to_lower
  from-deployment = rw (cut_prefix-append "deployment-" rest, trimmed) refl

  from-stateful_set :
      owner_ref_from_proposal_name namespace ("statefulset-" ++ rest)
      ≡ some (bare_ref namespace kind_stateful_set name)
  unfolding owner_ref_from_proposal_name owner_ref_from concat to_lower
  from-stateful_set =
      rw
        (
          cut_prefix-differ "statefulset-" "deployment-" rest refl,
          cut_prefix-append "statefulset-" rest,
          trimmed,
        )
        refl

  from-daemon_set :
      owner_ref_from_proposal_name namespace ("daemonset-" ++ rest)
      ≡ some (bare_ref namespace kind_daemon_set name)
  unfolding owner_ref_from_proposal_name owner_ref_from concat to_lower
  from-daemon_set =
      rw
        (
          cut_prefix-differ "daemonset-" "deployment-" rest refl,
          cut_prefix-differ "daemonset-" "statefulset-" rest refl,
          cut_prefix-append "daemonset-" rest,
          trimmed,
        )
        refl

name_of_ingress :
    (wk : WorkloadRef)
    → get_proposal_name wk "Ingress"
      ≡ (to_lower wk.owner_kind ++ "-") ++ (wk.owner_name ++ "-ingress")
unfolding get_proposal_name to_lower
name_of_ingress wk = concat-name (to_lower wk.owner_kind) wk.owner_name "ingress"

name_of_egress :
    (wk : WorkloadRef)
    → get_proposal_name wk "Egress"
      ≡ (to_lower wk.owner_kind ++ "-") ++ (wk.owner_name ++ "-egress")
unfolding get_proposal_name to_lower
name_of_egress wk = concat-name (to_lower wk.owner_kind) wk.owner_name "egress"

back-of_kind :
    (namespace kind rest name : String)
    → is_supported kind ≡ true
    → trim_known_suffix rest known_suffixes ≡ some name
    → owner_ref_from_proposal_name namespace ((to_lower kind ++ "-") ++ rest)
      ≡ some (bare_ref namespace kind name)
unfolding is_supported to_lower
back-of_kind namespace kind rest name h t =
    elim (or-cases (kind == kind_deployment || kind == kind_stateful_set) (kind == kind_daemon_set)
      h) [
        | inr d ↦ rw (eq-true kind kind_daemon_set d) (from-daemon_set namespace rest name t)
        | inl o ↦ elim (or-cases (kind == kind_deployment) (kind == kind_stateful_set) o) [
          | inl d ↦ rw (eq-true kind kind_deployment d) (from-deployment namespace rest name t)
          | inr s ↦ rw (eq-true kind kind_stateful_set s) (from-stateful_set namespace rest name t)
        ]
      ]

-- For a workload of a supported kind with a name, in either direction: the name of its proposal gives
-- back its namespace, kind and name, also where the name itself holds dashes.
pub owner_ref-get_proposal_name :
    (wk : WorkloadRef) (direction : String)
    → is_supported wk.owner_kind ≡ true
    → wk.owner_name ≢ ""
    → (direction ≡ policy_type_ingress) ⊎ (direction ≡ policy_type_egress)
    → owner_ref_from_proposal_name wk.namespace (get_proposal_name wk direction)
      ≡ some (bare_ref wk.namespace wk.owner_kind wk.owner_name)
owner_ref-get_proposal_name wk direction h n (inl i) =
    rw (i, name_of_ingress wk)
      (back-of_kind wk.namespace wk.owner_kind (wk.owner_name ++ "-ingress") wk.owner_name h
        (trim-ingress wk.owner_name n))
owner_ref-get_proposal_name wk direction h n (inr e) =
    rw (e, name_of_egress wk)
      (back-of_kind wk.namespace wk.owner_kind (wk.owner_name ++ "-egress") wk.owner_name h
        (trim-egress wk.owner_name n))
