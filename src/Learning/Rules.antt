-- ===== src/Learning/Rules.antt =====
-- The Kubernetes rules learned by peer, and the test that monitor mode makes against them.
use network_enforcer.Common.{
  String, List, [], ◌∷◌, ◌++◌, Option, some, Bool, false, ◌&&◌, if◌then◌else◌, any,
}
use network_enforcer.Common.Int.{ℤ}
use network_enforcer.Api.Kube.{LabelSelector, PolicyPeer, PolicyPort, PolicyRule}
use network_enforcer.Api.Types.{WorkloadRef}
use network_enforcer.Api.PolicyHelpers.{policy_peer_equal, policy_port_equal}
use network_enforcer.Status.Clear.{namespace_peer, one_port}

unfoldable pub build_peer_and_port : WorkloadRef → String → ℤ → PolicyPeer × PolicyPort
build_peer_and_port peer protocol dst_port =
    (namespace_peer peer.namespace (some peer.selector), one_port protocol dst_port)

module _ (format_label_selector : Option LabelSelector → String) where
  -- the rule has this one peer
  abbrev pub has_peer : PolicyRule → PolicyPeer → Bool
  has_peer rule peer = elim rule.peers [
    | [] ↦ false
    | p ∷ ps ↦ elim ps [ [] ↦ policy_peer_equal format_label_selector p peer | q ∷ qs ↦ false ]
  ]

  abbrev pub has_port : List PolicyPort → PolicyPort → Bool
  has_port ports port = any (λ existing. policy_port_equal existing port) ports

  abbrev pub add_port : PolicyRule → PolicyPort → PolicyRule
  add_port rule port =
      if has_port rule.ports port then rule else record rule { ports = rule.ports ++ port ∷ [] }

  -- upsertEgressRuleByPeer and upsertIngressRuleByPeer, which read the peers in `To` and in `From`
  unfoldable pub upsert_rule_by_peer : List PolicyRule → PolicyPeer → PolicyPort → List PolicyRule
  upsert_rule_by_peer [] peer port = record { peers = peer ∷ []; ports = port ∷ [] } ∷ []
  upsert_rule_by_peer (rule ∷ rules) peer port =
      let rest = upsert_rule_by_peer rules peer port in
      if has_peer rule peer then add_port rule port ∷ rules else rule ∷ rest

  unfoldable pub contains_peer_port : List PolicyRule → PolicyPeer → PolicyPort → Bool
  contains_peer_port rules peer port =
      any (λ rule. has_peer rule peer && has_port rule.ports port) rules
