-- ===== src/Reconcile/Duplicates/Laws.antt =====
-- internal/controller/workloadnetworkpolicy_webhook.go: what the webhook admits.
use network_enforcer.Common.{
  String, List, [], ◌∷◌, Option, none, some, true, false, ◌≡◌, refl, arith, ◌==◌, ◌≢◌, ◌↔◌, ◌⊎◌, ℕ,
  eq_iff, All, string_eq, Bool-cases, inl, inr,
}
use network_enforcer.Api.Types.{WorkloadNetworkPolicy}
use network_enforcer.Reconcile.Duplicates.{
  is_conflict, conflicts, is_deleted, admitted, verdict_of, verdict_of_list, target_key,
  validate_unique_target,
}

some_inj {ℓ} : {A : Type ℓ} {a b : A} → some a ≡ some b → a ≡ b
some_inj h = ground arith

-- A listed policy that does not stand in the way: it is the policy itself, has its name, or is being
-- deleted.
abbrev pub IsExempt : WorkloadNetworkPolicy → WorkloadNetworkPolicy → Type 0
IsExempt wnp existing =
    (existing.meta.uid ≡ wnp.meta.uid)
    ⊎ (existing.meta.name ≡ wnp.meta.name)
    ⊎ (existing.meta.deletion_timestamp ≢ none)

is_deleted_iff :
    (wnp : WorkloadNetworkPolicy) → (is_deleted wnp ≡ true) ↔ (wnp.meta.deletion_timestamp ≢ none)
is_deleted_iff wnp = deleted wnp.meta.deletion_timestamp
  where
    deleted : (o : Option ℕ) → ((elim o [ none ↦ false | some t ↦ true ]) ≡ true) ↔ (o ≢ none)
    deleted none = (λ h. cc, λ h. absurd (h refl))
    deleted (some t) = (λ h e. cc, λ h. refl)

is_conflict_iff :
    (wnp existing : WorkloadNetworkPolicy)
    → (is_conflict wnp existing ≡ false) ↔ IsExempt wnp existing
is_conflict_iff wnp existing = ground (
  arith,
  eq_iff existing.meta.uid wnp.meta.uid,
  eq_iff existing.meta.name wnp.meta.name,
  is_deleted_iff existing,
)

conflicts_iff :
    (wnp : WorkloadNetworkPolicy) (items : List WorkloadNetworkPolicy)
    → (conflicts wnp items ≡ []) ↔ All (λ e. IsExempt wnp e) items
unfolding conflicts
conflicts_iff wnp [] = (λ h. tt, λ h. refl)
conflicts_iff wnp (e ∷ items) = elim (Bool-cases (is_conflict wnp e)) [
  | inl hit ↦ rw hit (λ h. cc, λ h. absurd (cc ((is_conflict_iff wnp e).1 h.0, hit)))
  | inr free ↦ rw free (
    λ h. ((is_conflict_iff wnp e).0 free, (conflicts_iff wnp items).0 h),
    λ h. (conflicts_iff wnp items).1 h.1,
  )
]

verdict-admitted : (cs : List String) → (verdict_of cs ≡ admitted) ↔ (cs ≡ [])
verdict-admitted [] = (λ h. refl, λ h. refl)
verdict-admitted (c ∷ cs) = (λ h. cc, λ h. cc)

-- List answered, and each policy that it listed is exempt.
abbrev pub IsFree : WorkloadNetworkPolicy → Option (List WorkloadNetworkPolicy) → Type 0
IsFree wnp none = ⊥
IsFree wnp (some items) = All (λ e. IsExempt wnp e) items

answered :
    (wnp : WorkloadNetworkPolicy) (o : Option (List WorkloadNetworkPolicy))
    → (verdict_of_list wnp o ≡ admitted) ↔ IsFree wnp o
answered wnp none = (λ h. cc, λ h. absurd h)
answered wnp (some items) =
    let (to, from) = verdict-admitted (conflicts wnp items) in
    let (free, none_left) = conflicts_iff wnp items in (λ h. free (to h), λ h. from (none_left h))

-- A policy with a complete target is admitted exactly when List answered, and each policy it listed
-- for the target is this one, has this one's name, or is being deleted.
pub validate_unique_target_iff :
    (list_by_target : String → String → Option (List WorkloadNetworkPolicy))
    (wnp : WorkloadNetworkPolicy)
    → (target_key wnp == "") ≡ false
    → (validate_unique_target list_by_target wnp ≡ admitted)
      ↔ IsFree wnp (list_by_target wnp.meta.namespace (target_key wnp))
unfolding validate_unique_target
validate_unique_target_iff list_by_target wnp k =
    rw k (answered wnp (list_by_target wnp.meta.namespace (target_key wnp)))
