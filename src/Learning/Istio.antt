-- ===== src/Learning/Istio.antt =====
-- upsertIstioLearnedRule: a learned principal and port enter the Istio rules.
pub mod Laws
use network_enforcer.Common.{
  String, List, [], ◌∷◌, ◌++◌, Bool, true, false, ◌==◌, string_eq, if◌then◌else◌, any,
}
use network_enforcer.Api.Types.{IstioFrom, IstioTo, IstioRule, IstioSpec}

-- slices.Contains
abbrev pub contains : List String → String → Bool
contains xs x = any (λ y. y == x) xs

abbrev pub sole_principal : List String → String → Bool
sole_principal [] principal = false
sole_principal (p ∷ []) principal = p == principal
sole_principal (p ∷ q ∷ ps) principal = false

-- exactly one source with this one principal
abbrev pub has_sole_source : List IstioFrom → String → Bool
has_sole_source [] principal = false
has_sole_source (from ∷ []) principal = sole_principal from.principals principal
has_sole_source (from ∷ other ∷ sources) principal = false

abbrev pub one_operation : String → IstioTo
one_operation port = record { ports = port ∷ [] }

-- the operations of the rule with the port added where it is new
abbrev pub add_operation : List IstioTo → String → List IstioTo
add_operation [] port = one_operation port ∷ []
add_operation (to ∷ operations) port =
    if any (λ t. contains t.ports port) (to ∷ operations)
    then to ∷ operations
    else record to { ports = to.ports ++ port ∷ [] } ∷ operations

unfoldable pub upsert_rules : List IstioRule → String → String → List IstioRule
upsert_rules [] principal port =
    record {
      sources = record { principals = principal ∷ [] } ∷ [];
      operations = one_operation port ∷ [];
    }
    ∷ []
upsert_rules (rule ∷ rules) principal port =
    let rest = upsert_rules rules principal port in
    if has_sole_source rule.sources principal
    then record rule { operations = add_operation rule.operations port } ∷ rules
    else rule ∷ rest

unfoldable pub upsert_istio_learned_rule : IstioSpec → String → String → IstioSpec
upsert_istio_learned_rule spec principal port = record spec {
  rules = upsert_rules spec.rules principal port;
}
