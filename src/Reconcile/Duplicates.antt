-- ===== src/Reconcile/Duplicates.antt =====
-- internal/controller/workloadnetworkpolicy_duplicate_target.go and ..._webhook.go: at most one policy
-- for a workload and a direction.
pub mod Laws
pub mod Oldest
pub mod Message
use network_enforcer.Common.{
  ℕ, String, List, [], ◌∷◌, Option, none, some, Bool, true, false, not, ◌&&◌, ◌||◌, ◌==◌, string_eq,
  if◌then◌else◌, ltb, length,
}
use network_enforcer.Common.Text.Concat.{concat}
use network_enforcer.Api.Kube.{NamespacedName}
use network_enforcer.Api.Types.{WorkloadNetworkPolicy, namespaced_name}
use network_enforcer.Target.{index_wnp_by_target}
use network_enforcer.Attribution.Snapshot.{wnp_target_key}

-- strings.Compare is the library's: `text_ltb` tells whether its answer is negative.
module _ (text_ltb : String → String → Bool) where
  -- the order of slices.MinFunc
  abbrev pub older : WorkloadNetworkPolicy → WorkloadNetworkPolicy → Bool
  older a b =
      if ltb a.meta.creation_timestamp b.meta.creation_timestamp
      then true
      else if ltb b.meta.creation_timestamp a.meta.creation_timestamp
      then false
      else text_ltb a.meta.name b.meta.name

  -- the first of the least ones; a later one wins only if it is strictly less
  unfoldable pub oldest_from :
      WorkloadNetworkPolicy → List WorkloadNetworkPolicy → WorkloadNetworkPolicy
  oldest_from best [] = best
  oldest_from best (w ∷ ws) = oldest_from (if older w best then w else best) ws

  pub record Conflict : Type 0 where
    pub oldest : WorkloadNetworkPolicy
    pub winner : Bool

  abbrev pub conflict_of :
      WorkloadNetworkPolicy → Option (List WorkloadNetworkPolicy) → Option (Option Conflict)
  conflict_of wnp none = none
  conflict_of wnp (some []) = some none
  conflict_of wnp (some (w ∷ [])) = some none
  conflict_of wnp (some (w ∷ v ∷ ws)) =
      let oldest = oldest_from w (v ∷ ws) in
      some (some (record { oldest = oldest; winner = oldest.meta.name == wnp.meta.name }))

  abbrev pub check_target :
      (String → String → Option (List WorkloadNetworkPolicy))
      → WorkloadNetworkPolicy
      → Option NamespacedName
      → Option (Option Conflict)
  check_target list_by_target wnp none = some none
  check_target list_by_target wnp (some target) =
      conflict_of wnp (list_by_target wnp.meta.namespace target.name)

  -- `none` is an error of List, `some none` is no conflict
  unfoldable pub check_duplicate_target :
      (String → String → Option (List WorkloadNetworkPolicy))
      → WorkloadNetworkPolicy
      → Option (Option Conflict)
  check_duplicate_target list_by_target wnp = check_target list_by_target wnp (wnp_target_key wnp)

unfoldable pub target_key : WorkloadNetworkPolicy → String
target_key wnp = elim (index_wnp_by_target wnp) [ [] ↦ "" | k ∷ ks ↦ k ]

abbrev pub is_deleted : WorkloadNetworkPolicy → Bool
is_deleted wnp = elim wnp.meta.deletion_timestamp [ none ↦ false | some t ↦ true ]

abbrev pub is_conflict : WorkloadNetworkPolicy → WorkloadNetworkPolicy → Bool
is_conflict wnp existing = not (
    existing.meta.uid == wnp.meta.uid || existing.meta.name == wnp.meta.name || is_deleted existing)

unfoldable pub conflicts : WorkloadNetworkPolicy → List WorkloadNetworkPolicy → List String
conflicts wnp [] = []
conflicts wnp (existing ∷ items) =
    let rest = conflicts wnp items in
    if is_conflict wnp existing
    then concat (existing.meta.namespace ∷ "/" ∷ existing.meta.name ∷ []) ∷ rest
    else rest

pub data Verdict : Type 0 where
  admitted : Verdict
  invalid : List String → Verdict
  internal_error : Verdict

abbrev pub verdict_of : List String → Verdict
verdict_of [] = admitted
verdict_of (c ∷ cs) = invalid (c ∷ cs)

abbrev pub verdict_of_list : WorkloadNetworkPolicy → Option (List WorkloadNetworkPolicy) → Verdict
verdict_of_list wnp none = internal_error
verdict_of_list wnp (some items) = verdict_of (conflicts wnp items)

module _ (list_by_target : String → String → Option (List WorkloadNetworkPolicy)) where
  unfoldable pub validate_unique_target : WorkloadNetworkPolicy → Verdict
  validate_unique_target wnp =
      let key = target_key wnp in
      if key == "" then admitted else verdict_of_list wnp (list_by_target wnp.meta.namespace key)

  unfoldable pub validate_update : WorkloadNetworkPolicy → WorkloadNetworkPolicy → Verdict
  unfolding validate_unique_target
  validate_update old new =
      if is_deleted new || target_key old == target_key new
      then admitted
      else validate_unique_target new

-- the other policies of the target, to be reconciled when one of them changes
unfoldable pub others_named : String → List WorkloadNetworkPolicy → List NamespacedName
others_named name [] = []
others_named name (w ∷ ws) =
    let rest = others_named name ws in
    if w.meta.name == name then rest else namespaced_name w ∷ rest

abbrev pub others_of :
    WorkloadNetworkPolicy → Option (List WorkloadNetworkPolicy) → List NamespacedName
others_of wnp none = []
others_of wnp (some items) = others_named wnp.meta.name items

abbrev others_at :
    (String → String → Option (List WorkloadNetworkPolicy))
    → WorkloadNetworkPolicy
    → Option NamespacedName
    → List NamespacedName
others_at list_by_target wnp none = []
others_at list_by_target wnp (some target) =
    others_of wnp (list_by_target wnp.meta.namespace target.name)

unfoldable pub duplicate_target_policies :
    (String → String → Option (List WorkloadNetworkPolicy))
    → WorkloadNetworkPolicy
    → List NamespacedName
duplicate_target_policies list_by_target wnp = others_at list_by_target wnp (wnp_target_key wnp)
