-- ===== src/Api/PolicyHelpers.antt =====
-- api/v1alpha1/policy_helpers.go: when two rules are the same.
pub mod Matching
use network_enforcer.Common.{
  ℕ, zero, suc, ◌+◌, String, List, [], ◌∷◌, Option, none, some, Bool, true, false, ◌&&◌, ◌==◌, not,
  string_eq, nat_eq, option_eq, Comparable, if◌then◌else◌, length, set, nat_beq, replicate,
}
use mathlib.Core.Option
use network_enforcer.Common.Int.{int_eq}
use network_enforcer.Api.Kube.{
  LabelSelector, IpBlock, PolicyPeer, IntOrString, PolicyPort, PolicyRule,
}

module _ {ℓ} {T : Type ℓ} (eq : T → T → Bool) where
  -- the inner loop: the first free element of `right` that equals `l`
  unfoldable pub find_free : T → List T → List Bool → Option ℕ
  find_free l [] free = none
  find_free l (r ∷ right) [] = none
  find_free l (r ∷ right) (f ∷ free) =
      let rest = Option.map suc (find_free l right free) in if f && eq l r then some 0 else rest

  -- the outer loop
  unfoldable pub match_each : List T → List T → List Bool → Bool
  match_each [] right free = true
  match_each (l ∷ left) right free = elim (find_free l right free) [
    | none ↦ false
    | some j ↦ match_each left right (set free j false)
  ]

  unfoldable pub equal_unordered : List T → List T → Bool
  equal_unordered left right =
      if not (nat_beq (length left) (length right))
      then false
      else match_each left right (replicate (length right) true)

-- reflect.DeepEqual of two IntOrString
abbrev pub int_or_string_equal : IntOrString → IntOrString → Bool
int_or_string_equal a b = a.kind == b.kind && a.int_val == b.int_val && a.str_val == b.str_val

abbrev port_value_equal : Option IntOrString → Option IntOrString → Bool
port_value_equal none none = true
port_value_equal none (some b) = false
port_value_equal (some a) none = false
port_value_equal (some a) (some b) = int_or_string_equal a b

-- reflect.DeepEqual of two NetworkPolicyPort
unfoldable pub policy_port_equal : PolicyPort → PolicyPort → Bool
policy_port_equal a b =
    a.protocol == b.protocol && port_value_equal a.port b.port && a.end_port == b.end_port

unfoldable pub ip_block_equal : Option IpBlock → Option IpBlock → Bool
ip_block_equal none none = true
ip_block_equal none (some b) = false
ip_block_equal (some a) none = false
ip_block_equal (some a) (some b) =
    if not (a.cidr == b.cidr) then false else equal_unordered (λ x y. x == y) a.except b.except

-- metav1.FormatLabelSelector is the library's.
module _ (format_label_selector : Option LabelSelector → String) where
  unfoldable pub selector_equal : Option LabelSelector → Option LabelSelector → Bool
  selector_equal a b = format_label_selector a == format_label_selector b

  unfoldable pub policy_peer_equal : PolicyPeer → PolicyPeer → Bool
  policy_peer_equal a b =
      selector_equal a.namespace_selector b.namespace_selector
      && selector_equal a.pod_selector b.pod_selector
      && ip_block_equal a.ip_block b.ip_block

  unfoldable pub rule_equal : PolicyRule → PolicyRule → Bool
  rule_equal a b =
      equal_unordered policy_peer_equal a.peers b.peers
      && equal_unordered policy_port_equal a.ports b.ports

  unfoldable pub egress_rule_equal : PolicyRule → PolicyRule → Bool
  unfolding rule_equal
  egress_rule_equal a b = rule_equal a b

  unfoldable pub ingress_rule_equal : PolicyRule → PolicyRule → Bool
  unfolding rule_equal
  ingress_rule_equal a b = rule_equal a b
