-- ===== src/Attribution/Snapshot.antt =====
-- The indexes that one synchronisation builds: the policies by name, the owners of the NetworkPolicies,
-- the targets of more than one policy.
use network_enforcer.Common.{
  ℕ, ◌+◌, String, List, [], ◌∷◌, Option, none, some, Bool, true, false, ◌==◌, ◌&&◌, ◌||◌, string_eq,
  ltb, any, if◌then◌else◌,
}
use network_enforcer.Common.Map.{lookup, insert}
use network_enforcer.Api.Kube.{NamespacedName, OwnerReference, ObjectMeta}
use network_enforcer.Api.Names.{name_eq}
use network_enforcer.Api.Types.{WorkloadNetworkPolicy, namespaced_name}
use network_enforcer.Target.{wnp_target_index_key}

abbrev pub PolicyMap : Type 0
PolicyMap = List (NamespacedName × WorkloadNetworkPolicy)

-- a NetworkPolicy that no known policy owns has the owner `none`
abbrev pub OwnedIndex : Type 0
OwnedIndex = List (NamespacedName × Option NamespacedName)

-- A wnpTarget is a namespace and the value of the index, here the two parts of a NamespacedName.
abbrev pub WnpTarget : Type 0
WnpTarget = NamespacedName

abbrev pub target_of : String → String → WnpTarget
target_of namespace target = record { namespace = namespace; name = target }

abbrev pub api_version : String
api_version = "networkenforcer.kubewarden.io/v1alpha1"

abbrev pub wnp_kind : String
wnp_kind = "WorkloadNetworkPolicy"

-- the loop that fills wnpByKey
unfoldable pub index_policies : List WorkloadNetworkPolicy → PolicyMap → PolicyMap
index_policies [] m = m
index_policies (w ∷ ws) m = index_policies ws (insert (namespaced_name w) w m)

abbrev is_true : Option Bool → Bool
is_true none = false
is_true (some b) = b

abbrev pub is_known {ℓ} : {A : Type ℓ} → Option A → Bool
is_known none = false
is_known (some a) = true

unfoldable pub find_wnp_owner_ref : List OwnerReference → String → PolicyMap → Option NamespacedName
find_wnp_owner_ref [] namespace wnp_by_key = none
find_wnp_owner_ref (ref ∷ refs) namespace wnp_by_key =
    let rest = find_wnp_owner_ref refs namespace wnp_by_key in
    let wnp_key : NamespacedName = record { namespace = namespace; name = ref.name } in
    if is_true ref.controller && ref.api_version == api_version && ref.kind == wnp_kind
    then if is_known (lookup wnp_key wnp_by_key) then some wnp_key else rest
    else rest

unfoldable pub build_ownership_index : List ObjectMeta → PolicyMap → OwnedIndex → OwnedIndex
build_ownership_index [] wnp_by_key index = index
build_ownership_index (np ∷ nps) wnp_by_key index = build_ownership_index nps wnp_by_key (
    insert (record { namespace = np.namespace; name = np.name })
      (find_wnp_owner_ref np.owner_references np.namespace wnp_by_key) index)

unfoldable pub wnp_target_key : WorkloadNetworkPolicy → Option WnpTarget
wnp_target_key wnp =
    let target = wnp.spec.targeting in
    if target.target_ref.kind == "" || target.target_ref.name == "" || target.direction == ""
    then none
    else some (
        target_of wnp.meta.namespace
          (wnp_target_index_key target.target_ref.kind target.target_ref.name target.direction))

abbrev pub count_of : Option ℕ → ℕ
count_of none = 0
count_of (some n) = n

abbrev pub count_target : Option WnpTarget → List (WnpTarget × ℕ) → List (WnpTarget × ℕ)
count_target none counts = counts
count_target (some key) counts = insert key (count_of (lookup key counts) + 1) counts

unfoldable pub count_targets : PolicyMap → List (WnpTarget × ℕ) → List (WnpTarget × ℕ)
count_targets [] counts = counts
count_targets ((k, wnp) ∷ m) counts = count_targets m (count_target (wnp_target_key wnp) counts)

unfoldable pub more_than_once : List (WnpTarget × ℕ) → List WnpTarget
more_than_once [] = []
more_than_once ((key, count) ∷ counts) =
    let rest = more_than_once counts in if ltb 1 count then key ∷ rest else rest

unfoldable pub duplicate_targets : PolicyMap → List WnpTarget
duplicate_targets wnp_by_key = more_than_once (count_targets wnp_by_key [])

abbrev pub is_duplicate : WnpTarget → List WnpTarget → Bool
is_duplicate target duplicates = any (λ k. k == target) duplicates
