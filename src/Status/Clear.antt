-- ===== src/Status/Clear.antt =====
-- clearAllowedViolations: a violation whose flow the policy now allows is dropped.
pub mod Laws
use Prim.Native.Char.{Char}
use Prim.Native.String.{char_at}
use network_enforcer.Common.{
  ℕ, ◌^◌, String, List, [], ◌∷◌, Option, none, some, Bool, true, false, ◌==◌, ◌||◌, ◌&&◌, string_eq,
  if◌then◌else◌, delete_if, any,
}
use network_enforcer.Common.Int.{ℤ, leb_ℤ, int_eq}
use network_enforcer.Common.Text.{cut}
use network_enforcer.Common.Text.Decimal.{parse_int}
use network_enforcer.Api.Kube.{
  LabelSelector, PolicyPeer, PolicyPort, PolicyRule, IntOrString, NetworkPolicySpec,
  label_metadata_name,
}
use network_enforcer.Api.Types.{
  WorkloadRef, IstioRule, IstioFrom, IstioTo, IstioSpec, ViolationRecord, PolicySpec, PolicyStatus,
  WorkloadNetworkPolicy, backend_kubernetes, backend_istio,
}
use network_enforcer.Api.PolicyHelpers.{egress_rule_equal, ingress_rule_equal}

abbrev pub int32_limit : ℕ
int32_limit = 2 ^ 31

abbrev dash : Char
dash = char_at "-" 0

-- the two texts of the range, before they are read as numbers
abbrev pub range_texts : String → String × String
range_texts port_spec = elim (cut port_spec dash) [ none ↦ (port_spec, "") | some parts ↦ parts ]

abbrev pub range_of : String → Option ℤ → Option ℤ → Option (ℤ × ℤ)
range_of hi_str none hi = none
range_of hi_str (some lo) hi =
    if hi_str == "" then some (lo, lo) else (elim hi [ none ↦ none | some h ↦ some (lo, h) ])

unfoldable pub parse_istio_port_range : String → Option (ℤ × ℤ)
parse_istio_port_range port_spec =
    let (lo_str, hi_str) = range_texts port_spec in
    range_of hi_str (parse_int int32_limit lo_str) (parse_int int32_limit hi_str)

unfoldable pub istio_port_matches : String → ℤ → Bool
istio_port_matches port_spec dst_port = elim (parse_istio_port_range port_spec) [
  | none ↦ false
  | some (lo, hi) ↦ leb_ℤ lo dst_port && leb_ℤ dst_port hi
]

abbrev pub is_empty {ℓ} : {A : Type ℓ} → List A → Bool
is_empty [] = true
is_empty (x ∷ xs) = false

unfoldable pub istio_rule_allows_port : IstioRule → ℤ → Bool
istio_rule_allows_port rule dst_port =
    is_empty rule.operations
    || any (λ to. is_empty to.ports || any (λ port. istio_port_matches port dst_port) to.ports)
        rule.operations

unfoldable pub istio_rule_allows_source : IstioRule → WorkloadRef → Bool
istio_rule_allows_source rule src =
    is_empty rule.sources
    || any
        (λ from.
          is_empty from.principals
          || any (λ principal. principal == "*" || principal == src.identity) from.principals)
        rule.sources

-- the port of a violation, intstr.FromInt32: `kind` 0 is intstr.Int
abbrev pub from_int32 : ℤ → IntOrString
from_int32 n = record { kind = 0; int_val = n; str_val = "" }

abbrev pub namespace_peer : String → Option LabelSelector → PolicyPeer
namespace_peer namespace pods = record {
  namespace_selector =
      some
        (record { match_labels = (label_metadata_name, namespace) ∷ []; match_expressions = [] });
  pod_selector = pods;
  ip_block = none;
}

abbrev pub one_port : String → ℤ → PolicyPort
one_port protocol n = record {
  protocol = some protocol;
  port = some (from_int32 n);
  end_port = none;
}

unfoldable pub to_egress_rule : ViolationRecord → PolicyRule
to_egress_rule v = record {
  peers = namespace_peer v.info.dest.namespace none ∷ [];
  ports = one_port v.info.protocol v.info.dst_port ∷ [];
}

unfoldable pub to_ingress_rule : ViolationRecord → PolicyRule
to_ingress_rule v = record {
  peers = namespace_peer v.info.source.namespace none ∷ [];
  ports = one_port v.info.protocol v.info.dst_port ∷ [];
}

unfoldable pub istio_allows : IstioSpec → ViolationRecord → Bool
istio_allows spec v =
    any
      (λ rule.
        istio_rule_allows_source rule v.info.source && istio_rule_allows_port rule v.info.dst_port)
      spec.rules

unfoldable pub clear_allowed_istio_violations :
    Option IstioSpec → List ViolationRecord → List ViolationRecord
clear_allowed_istio_violations none violations = violations
clear_allowed_istio_violations (some spec) violations =
    delete_if (λ v. istio_allows spec v) violations

module _ (format_label_selector : Option LabelSelector → String) where
  unfoldable pub kubernetes_allows : NetworkPolicySpec → ViolationRecord → Bool
  kubernetes_allows spec v =
      any (λ rule. ingress_rule_equal format_label_selector (to_ingress_rule v) rule) spec.ingress
      || any (λ rule. egress_rule_equal format_label_selector (to_egress_rule v) rule) spec.egress

  -- `none` is the panic on a nil template, which is read for each violation
  unfoldable pub clear_allowed_kubernetes_violations :
      Option NetworkPolicySpec → List ViolationRecord → Option (List ViolationRecord)
  clear_allowed_kubernetes_violations (some spec) violations =
      some (delete_if (λ v. kubernetes_allows spec v) violations)
  clear_allowed_kubernetes_violations none [] = some []
  clear_allowed_kubernetes_violations none (v ∷ violations) = none

  unfoldable pub clear_allowed_violations :
      PolicySpec → List ViolationRecord → Option (List ViolationRecord)
  clear_allowed_violations spec violations =
      if spec.backend_spec.backend == backend_kubernetes
      then clear_allowed_kubernetes_violations spec.backend_spec.kubernetes violations
      else if spec.backend_spec.backend == backend_istio
      then some (clear_allowed_istio_violations spec.backend_spec.istio violations)
      else some violations
