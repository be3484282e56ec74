-- ===== src/Reconcile/Duplicates/Message.antt =====
-- internal/controller/workloadnetworkpolicy_duplicate_target.go: the condition of a conflict.
use network_enforcer.Common.{ℕ, ◌-◌, String, List, [], ◌∷◌, map, take, length, ltb, if◌then◌else◌}
use network_enforcer.Common.Int.{pos}
use network_enforcer.Common.Text.Concat.{concat}
use network_enforcer.Common.Text.Decimal.{format_int}
use network_enforcer.Api.Kube.{Condition}
use network_enforcer.Api.Types.{WorkloadNetworkPolicy}
use network_enforcer.Reconcile.Scope.{condition_of}

abbrev pub reason_duplicate_target : String
reason_duplicate_target = "DuplicateTarget"

abbrev pub max_duplicate_target_names_in_message : ℕ
max_duplicate_target_names_in_message = 16

-- strings.Join with a comma and a space
unfoldable pub join_names : List String → String
join_names [] = ""
join_names (name ∷ []) = name
join_names (name ∷ other ∷ names) =
    let rest = join_names (other ∷ names) in concat (name ∷ ", " ∷ rest ∷ [])

-- the sorted names, of which those beyond the limit are counted
unfoldable pub listed_names : List String → String
listed_names names =
    let omitted = length names - max_duplicate_target_names_in_message in
    let listed = join_names (take max_duplicate_target_names_in_message names) in
    if ltb 0 omitted
    then concat (listed ∷ ", and " ∷ format_int (pos omitted) ∷ " more" ∷ [])
    else listed

-- `sort` is slices.Sort
unfoldable pub duplicate_condition :
    (List String → List String)
    → WorkloadNetworkPolicy
    → List WorkloadNetworkPolicy
    → WorkloadNetworkPolicy
    → Condition
duplicate_condition sort wnp policies oldest =
    let target = wnp.spec.targeting in
    condition_of wnp "False" reason_duplicate_target (
      concat (
        target.target_ref.kind
        ∷ " "
        ∷ wnp.meta.namespace
        ∷ "/"
        ∷ target.target_ref.name
        ∷ " "
        ∷ target.direction
        ∷ " is targeted by "
        ∷ format_int (pos (length policies))
        ∷ " WorkloadNetworkPolicies ("
        ∷ listed_names (sort (map (λ w. w.meta.name) policies))
        ∷ "); only the oldest, "
        ∷ oldest.meta.name
        ∷ ", renders a policy"
        ∷ []))
