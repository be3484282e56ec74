-- ===== src/Target.antt =====
-- internal/workload/target_index.go: the policies indexed by what they target.
use network_enforcer.Common.{
  String, List, [], ◌∷◌, Option, none, some, ◌==◌, ◌||◌, string_eq, if◌then◌else◌,
}
use network_enforcer.Common.Text.Concat.{concat}
use network_enforcer.Api.Types.{WorkloadNetworkPolicy}

unfoldable pub wnp_target_index_key : String → String → String → String
wnp_target_index_key kind name direction = concat (kind ∷ "/" ∷ name ∷ "/" ∷ direction ∷ [])

-- The values under which the field indexer files a policy.
unfoldable pub index_wnp_by_target : WorkloadNetworkPolicy → List String
index_wnp_by_target wnp =
    let target = wnp.spec.targeting in
    if target.target_ref.kind == "" || target.target_ref.name == "" || target.direction == ""
    then []
    else wnp_target_index_key target.target_ref.kind target.target_ref.name target.direction ∷ []

pub data Lookup : Type 0 where
  found : WorkloadNetworkPolicy → Lookup
  target_not_found : Lookup
  duplicate_target : Lookup
  list_failed : Lookup

abbrev pub lookup_of : Option (List WorkloadNetworkPolicy) → Lookup
lookup_of none = list_failed
lookup_of (some []) = target_not_found
lookup_of (some (w ∷ [])) = found w
lookup_of (some (w ∷ v ∷ ws)) = duplicate_target

-- The client's List within a namespace and by the index is a parameter; `none` is its error.
unfoldable pub lookup_wnp_by_target :
    (String → String → Option (List WorkloadNetworkPolicy))
    → String
    → String
    → String
    → String
    → Lookup
lookup_wnp_by_target list_by_target namespace kind name direction =
    lookup_of (list_by_target namespace (wnp_target_index_key kind name direction))
