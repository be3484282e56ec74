-- ===== src/Reconcile/Promotion/Laws.antt =====
-- When a policy is created, and what a promoted policy allows.
use Prim.Native.String.{len}
use network_enforcer.Common.{
  ℕ, String, List, [], ◌∷◌, ◌++◌, Option, none, some, ◌≡◌, ◌⊎◌, refl, sym, ap, ◌∙◌, arith, All,
  All-append, string_eq, Bool-cases, inl, inr, ltb,
}
use network_enforcer.Common.Int.{ℤ}
use network_enforcer.Common.Map.{lookup, lookup-insert}
use network_enforcer.Api.Kube.{
  LabelSelector, OwnerReference, policy_type_ingress, policy_type_egress,
}
use network_enforcer.Api.Types.{WorkloadRef, WorkloadNetworkPolicy, Proposal, is_supported}
use network_enforcer.Learning.Names.{owner_ref_from_proposal_name}
use network_enforcer.Learning.Learner.{
  allowed, mutate_kubernetes, evaluate_monitor_violation, with_direction, spec_or_empty, with_spec,
}
use network_enforcer.Learning.Learner.Laws.{spec-allows}
use network_enforcer.Reconcile.Promotion.{
  Api, OwnerAnswer, owner_found, owner_not_found, owner_failed, WriteAnswer, written, not_there,
  already_there, write_failed, Request, delete, create, patch, Ownership, gone, stays,
  ownership_failed, orphaned, restored, owned_by, with_owner, own_found, own_ref,
  reconcile_ownership, created, create_labelled, promote, check_promoted, after_ownership,
  reconcile_live, reconcile, has_promotion_label, set_promoted_label, policy_of_proposal,
  policy_promoted_from_label_key, max_label_value_length,
}

some_inj : {A : Type 0} {a b : A} → some a ≡ some b → a ≡ b
some_inj h = ground arith

set_promoted_label-lookup :
    (wnp policy : WorkloadNetworkPolicy) (name : String)
    → set_promoted_label wnp name ≡ some policy
    → (lookup policy_promoted_from_label_key policy.meta.labels ≡ some name)
      × (policy.spec ≡ wnp.spec)
      × (policy.meta.name ≡ wnp.meta.name)
unfolding set_promoted_label
set_promoted_label-lookup wnp policy name h =
    elim (Bool-cases (ltb max_label_value_length (len name))) [
      | inl long ↦ cc (rw long at h)
      | inr short ↦ rw (sym (some_inj (rw short at h))) (
        lookup-insert policy_promoted_from_label_key policy_promoted_from_label_key name
            wnp.meta.labels,
        refl,
        refl,
      )
    ]

module _ (api : Api) (proposal : Proposal) where
  -- A policy is created as the proposal's label says, under the proposal's name and with its spec.
  abbrev pub IsPromotion : Request → Type 0
  IsPromotion delete = Unit
  IsPromotion (patch refs) = Unit
  IsPromotion (create policy) =
      (has_promotion_label proposal ≡ some policy.spec.mode)
      × (policy.spec.backend_spec ≡ proposal.backend_spec)
      × (policy.meta.name ≡ proposal.meta.name)
      × (lookup policy_promoted_from_label_key policy.meta.labels ≡ some proposal.meta.name)
      × (api.promoted_policies proposal.meta.namespace proposal.meta.name ≡ some [])

  created-IsPromotion :
      (before : List Request) (policy : WorkloadNetworkPolicy) (w : WriteAnswer)
      → All (λ r. IsPromotion r) before
      → IsPromotion (create policy)
      → All (λ r. IsPromotion r) (created api before proposal policy w).requests
  created-IsPromotion before policy written h p =
      All-append (λ r. IsPromotion r) (before ++ create policy ∷ []) _
        (All-append (λ r. IsPromotion r) before _ h (p, tt)) (tt, tt)
  created-IsPromotion before policy already_there h p =
      All-append (λ r. IsPromotion r) before _ h (p, tt)
  created-IsPromotion before policy not_there h p =
      All-append (λ r. IsPromotion r) before _ h (p, tt)
  created-IsPromotion before policy write_failed h p =
      All-append (λ r. IsPromotion r) before _ h (p, tt)

  labelled-IsPromotion :
      (before : List Request) (mode : String) (o : Option WorkloadNetworkPolicy)
      → set_promoted_label (policy_of_proposal proposal mode) proposal.meta.name ≡ o
      → All (λ r. IsPromotion r) before
      → has_promotion_label proposal ≡ some mode
      → api.promoted_policies proposal.meta.namespace proposal.meta.name ≡ some []
      → All (λ r. IsPromotion r) (create_labelled api before proposal o).requests
  unfolding policy_of_proposal
  labelled-IsPromotion before mode none e h l n = h
  labelled-IsPromotion before mode (some policy) e h l n =
      let (labelled, spec, name) =
        set_promoted_label-lookup (policy_of_proposal proposal mode) policy proposal.meta.name e in
      created-IsPromotion before policy (api.create_policy policy) h
        (l ∙ ap (λ s. some s.mode) (sym spec), ap (λ s. s.backend_spec) spec, name, labelled, n)

  promote-IsPromotion :
      (before : List Request) (o : Option String)
      → has_promotion_label proposal ≡ o
      → All (λ r. IsPromotion r) before
      → api.promoted_policies proposal.meta.namespace proposal.meta.name ≡ some []
      → All (λ r. IsPromotion r) (promote api before proposal o).requests
  promote-IsPromotion before none e h n = h
  promote-IsPromotion before (some mode) e h n =
      labelled-IsPromotion before mode
        (set_promoted_label (policy_of_proposal proposal mode) proposal.meta.name) refl h e n

  check-IsPromotion :
      (before : List Request) (o : Option (List WorkloadNetworkPolicy))
      → api.promoted_policies proposal.meta.namespace proposal.meta.name ≡ o
      → All (λ r. IsPromotion r) before
      → All (λ r. IsPromotion r) (check_promoted api before proposal o).requests
  check-IsPromotion before none e h = h
  check-IsPromotion before (some (p ∷ ps)) e h = All-append (λ r. IsPromotion r) before _ h (tt, tt)
  check-IsPromotion before (some []) e h =
      promote-IsPromotion before (has_promotion_label proposal) refl h e

  -- Ownership asks for no creation.
  abbrev IsQuiet : Ownership → Type 0
  IsQuiet gone = Unit
  IsQuiet (stays before) = All (λ r. IsPromotion r) before
  IsQuiet (ownership_failed before) = All (λ r. IsPromotion r) before

  orphaned-IsQuiet : (w : WriteAnswer) → IsQuiet (orphaned api w)
  orphaned-IsQuiet written = tt
  orphaned-IsQuiet not_there = (tt, tt)
  orphaned-IsQuiet already_there = (tt, tt)
  orphaned-IsQuiet write_failed = (tt, tt)

  patched : (owner : OwnerReference) (w : WriteAnswer) → IsQuiet (restored api owner w)
  patched owner written = (tt, tt)
  patched owner not_there = (tt, tt)
  patched owner already_there = (tt, tt)
  patched owner write_failed = (tt, tt)

  own_found-IsQuiet : (o : OwnerAnswer) → IsQuiet (own_found api proposal o)
  own_found-IsQuiet owner_failed = tt
  own_found-IsQuiet owner_not_found = orphaned-IsQuiet (api.delete_proposal proposal)
  own_found-IsQuiet (owner_found owner) =
      elim (Bool-cases
        (owned_by api (api.get_controller_of proposal.meta.owner_references) owner)) [
          | inl right ↦ rw right tt
          | inr wrong ↦ rw wrong (patched owner (api.patch_owner (with_owner api proposal owner)))
        ]

  own_ref-IsQuiet : (o : Option WorkloadRef) → IsQuiet (own_ref api proposal o)
  own_ref-IsQuiet none = tt
  own_ref-IsQuiet (some wk) = elim (Bool-cases (is_supported wk.owner_kind)) [
    | inl known ↦ rw known (own_found-IsQuiet (api.get_owner wk))
    | inr unknown ↦ rw unknown tt
  ]

  after-IsPromotion :
      (o : Ownership)
      → IsQuiet o
      → All (λ r. IsPromotion r) (after_ownership api proposal o).requests
  after-IsPromotion gone h = (tt, tt)
  after-IsPromotion (ownership_failed before) h = h
  after-IsPromotion (stays before) h =
      check-IsPromotion before (api.promoted_policies proposal.meta.namespace proposal.meta.name)
        refl h

  live-IsPromotion :
      (o : Option ℕ) → All (λ r. IsPromotion r) (reconcile_live api proposal o).requests
  unfolding reconcile_ownership
  live-IsPromotion (some t) = tt
  live-IsPromotion none =
      after-IsPromotion (reconcile_ownership api proposal)
        (own_ref-IsQuiet (owner_ref_from_proposal_name proposal.meta.namespace proposal.meta.name))

  -- Whatever the API server answers: a policy is asked to be created only for a proposal with a valid
  -- promotion label and without a policy promoted from it, in the mode of the label, with the
  -- proposal's backend and name, and labelled with the proposal it comes from.
  pub reconcile-IsPromotion : All (λ r. IsPromotion r) (reconcile api proposal).requests
  unfolding reconcile
  reconcile-IsPromotion = live-IsPromotion proposal.meta.deletion_timestamp

-- A flow that was learned into a proposal, for either direction, is allowed by the policy promoted from
-- it in every mode: the evaluation of the flow raises no violation.
pub evaluate-promoted :
    (format_label_selector : Option LabelSelector → String) (wk peer : WorkloadRef)
    (protocol direction mode : String) (dst_port : ℤ) (now : ℕ) (proposal : Proposal)
    → (direction ≡ policy_type_ingress) ⊎ (direction ≡ policy_type_egress)
    → (learned : Proposal) × (mutate_kubernetes format_label_selector wk peer direction protocol
          dst_port proposal
        ≡ some learned)
      × (evaluate_monitor_violation format_label_selector
            (policy_of_proposal learned mode)
            wk
            peer
            protocol
            direction
            dst_port
            now
          ≡ allowed)
unfolding mutate_kubernetes evaluate_monitor_violation policy_of_proposal
evaluate-promoted fmt wk peer protocol direction mode dst_port now proposal d =
    let spec = spec_or_empty proposal.backend_spec.kubernetes in
    let (learned, added, fine) =
      spec-allows fmt wk peer protocol dst_port proposal.meta.name now direction
        (with_direction spec.policy_types wk direction spec) d in
    (_, ap (λ o. with_spec fmt wk direction proposal o) added, fine)
