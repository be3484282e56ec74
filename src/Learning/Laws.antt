-- ===== src/Learning/Laws.antt =====
-- Learning a flow makes the rules contain it, once, and touches nothing else.
use network_enforcer.Common.{
  String, List, [], ◌∷◌, Option, true, ◌≡◌, refl, ◌∙◌, ◌&&◌, Bool-cases, inl, inr,
}
use network_enforcer.Api.Kube.{LabelSelector, PolicyPeer, PolicyPort, PolicyRule}
use network_enforcer.Api.PolicyHelpers.{policy_peer_equal, policy_port_equal}
use network_enforcer.Learning.Rules.{
  has_peer, has_port, add_port, upsert_rule_by_peer, contains_peer_port,
}
use network_enforcer.Common.Booleans.{any-append, or-left, or-right, or-cases, and-split, and-both}

module _ (format_label_selector : Option LabelSelector → String) (peer : PolicyPeer)
    (port : PolicyPort) (peer_refl : policy_peer_equal format_label_selector peer peer ≡ true)
    (port_refl : policy_port_equal port port ≡ true) where
  has_port-add_port :
      (rule : PolicyRule)
      → has_port format_label_selector (add_port format_label_selector rule port).ports port ≡ true
  has_port-add_port rule = elim (Bool-cases (has_port format_label_selector rule.ports port)) [
    | inl known ↦ rw (known, known)
    | inr new ↦
        rw (new, any-append (λ existing. policy_port_equal existing port) rule.ports (port ∷ []))
          (or-right _ _ (or-left _ _ port_refl))
  ]

  has_peer-add_port :
      (rule : PolicyRule)
      → has_peer format_label_selector (add_port format_label_selector rule port) peer
        ≡ has_peer format_label_selector rule peer
  has_peer-add_port rule = elim (Bool-cases (has_port format_label_selector rule.ports port)) [
    | inl known ↦ rw known
    | inr new ↦ rw new
  ]

  -- After learning, monitor mode finds the flow allowed.
  pub contains_peer_port-upsert :
      (rules : List PolicyRule)
      → contains_peer_port format_label_selector
          (upsert_rule_by_peer format_label_selector rules peer port)
          peer
          port
        ≡ true
  unfolding contains_peer_port upsert_rule_by_peer
  contains_peer_port-upsert [] = or-left _ _ (and-both _ _ peer_refl (or-left _ _ port_refl))
  contains_peer_port-upsert (rule ∷ rules) =
      elim (Bool-cases (has_peer format_label_selector rule peer)) [
        | inl here ↦
            rw here
              (or-left _ _ (and-both _ _ (has_peer-add_port rule ∙ here) (has_port-add_port rule)))
        | inr other ↦ rw other (or-right _ _ (contains_peer_port-upsert rules))
      ]

  -- Learning again changes nothing.
  pub upsert_idem :
      (rules : List PolicyRule)
      → upsert_rule_by_peer format_label_selector
          (upsert_rule_by_peer format_label_selector rules peer port)
          peer
          port
        ≡ upsert_rule_by_peer format_label_selector rules peer port
  unfolding upsert_rule_by_peer
  upsert_idem [] = rw (peer_refl, port_refl) refl
  upsert_idem (rule ∷ rules) = elim (Bool-cases (has_peer format_label_selector rule peer)) [
    | inl here ↦ rw (here, has_peer-add_port rule, here, has_port-add_port rule) refl
    | inr other ↦ rw (other, other, upsert_idem rules) refl
  ]

  -- What was contained stays contained.
  has_port_mono :
      (rule : PolicyRule) (other : PolicyPort)
      → has_port format_label_selector rule.ports other ≡ true
      → has_port format_label_selector (add_port format_label_selector rule port).ports other ≡ true
  has_port_mono rule other h = elim (Bool-cases (has_port format_label_selector rule.ports port)) [
    | inl known ↦ rw known h
    | inr new ↦
        rw (new, any-append (λ existing. policy_port_equal existing other) rule.ports (port ∷ []))
          (or-left _ _ h)
  ]

  has_peer-other :
      (rule : PolicyRule) (p : PolicyPeer)
      → has_peer format_label_selector (add_port format_label_selector rule port) p
        ≡ has_peer format_label_selector rule p
  has_peer-other rule p = elim (Bool-cases (has_port format_label_selector rule.ports port)) [
    | inl known ↦ rw known
    | inr new ↦ rw new
  ]

  pub contains_peer_port_mono :
      (rules : List PolicyRule) (p : PolicyPeer) (q : PolicyPort)
      → contains_peer_port format_label_selector rules p q ≡ true
      → contains_peer_port format_label_selector
          (upsert_rule_by_peer format_label_selector rules peer port)
          p
          q
        ≡ true
  unfolding contains_peer_port upsert_rule_by_peer
  contains_peer_port_mono [] p q h = cc
  contains_peer_port_mono (rule ∷ rules) p q h =
      elim (or-cases
        (has_peer format_label_selector rule p && has_port format_label_selector rule.ports q) _
        h) [
          | inl first ↦ elim (Bool-cases (has_peer format_label_selector rule peer)) [
            | inl here ↦ rw here (
                or-left _ _ (
                  and-both _ _ (has_peer-other rule p ∙ (and-split _ _ first).0)
                    (has_port_mono rule q (and-split _ _ first).1)))
            | inr other ↦ rw other (or-left _ _ first)
          ]
          | inr later ↦ elim (Bool-cases (has_peer format_label_selector rule peer)) [
            | inl here ↦ rw here (or-right _ _ later)
            | inr other ↦ rw other (or-right _ _ (contains_peer_port_mono rules p q later))
          ]
        ]
