-- ===== src/Learning/Kubernetes.antt =====
-- The learned Kubernetes flows: what the built peer and port satisfy.
use network_enforcer.Common.{
  String, List, Option, some, true, ◌≡◌, refl, string_eq, nat_eq, option_eq, eq_refl,
}
use network_enforcer.Common.Int.{ℤ, int_eq}
use network_enforcer.Api.Kube.{LabelSelector, PolicyPeer, PolicyPort, PolicyRule}
use network_enforcer.Api.Types.{WorkloadRef}
use network_enforcer.Api.PolicyHelpers.{
  selector_equal, policy_peer_equal, ip_block_equal, policy_port_equal,
}
use network_enforcer.Learning.Rules.{build_peer_and_port, upsert_rule_by_peer, contains_peer_port}
use network_enforcer.Learning.Laws.{contains_peer_port-upsert, upsert_idem, contains_peer_port_mono}

module _ (format_label_selector : Option LabelSelector → String) (peer : WorkloadRef)
    (protocol : String) (dst_port : ℤ) where
  abbrev built_peer : PolicyPeer
  built_peer = (build_peer_and_port peer protocol dst_port).0

  abbrev built_port : PolicyPort
  built_port = (build_peer_and_port peer protocol dst_port).1

  peer_refl : policy_peer_equal format_label_selector built_peer built_peer ≡ true
  unfolding policy_peer_equal selector_equal ip_block_equal build_peer_and_port
  peer_refl =
      rw
        (
          eq_refl (format_label_selector (some peer.selector)),
          eq_refl (format_label_selector built_peer.namespace_selector),
        )
        refl

  port_refl : policy_port_equal built_port built_port ≡ true
  unfolding policy_port_equal build_peer_and_port
  port_refl = rw (eq_refl protocol, eq_refl dst_port) refl

  -- Learning a flow makes monitor mode allow it, and learning it again changes nothing; for egress
  -- rules by the destination and for ingress rules by the source alike.
  pub upsert_rule_by_peer-learns :
      (rules : List PolicyRule)
      → (contains_peer_port format_label_selector
            (upsert_rule_by_peer format_label_selector rules built_peer built_port)
            built_peer
            built_port
          ≡ true)
        × (upsert_rule_by_peer format_label_selector
              (upsert_rule_by_peer format_label_selector rules built_peer built_port)
              built_peer
              built_port
            ≡ upsert_rule_by_peer format_label_selector rules built_peer built_port)
  upsert_rule_by_peer-learns rules = (
    contains_peer_port-upsert format_label_selector built_peer built_port peer_refl port_refl rules,
    upsert_idem format_label_selector built_peer built_port peer_refl port_refl rules,
  )

  -- Learning keeps every flow that the rules allowed before.
  pub upsert_rule_by_peer-keeps :
      (rules : List PolicyRule) (p : PolicyPeer) (q : PolicyPort)
      → contains_peer_port format_label_selector rules p q ≡ true
      → contains_peer_port format_label_selector
          (upsert_rule_by_peer format_label_selector rules built_peer built_port)
          p
          q
        ≡ true
  upsert_rule_by_peer-keeps rules p q h =
      contains_peer_port_mono format_label_selector built_peer built_port peer_refl port_refl rules
        p q h
