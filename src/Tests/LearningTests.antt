-- ===== src/Tests/LearningTests.antt =====
-- Learning at concrete inputs.
use network_enforcer.Common.{
  ◌∷◌, false, List, [], some, true, ◌≡◌, refl, arith, inl, inr, ne_of_eq-false, string_eq,
}
use network_enforcer.Common.Int.{pos}
use network_enforcer.Common.Text.Decimal.{format_int}
use network_enforcer.Api.Types.{Proposal, bare_ref, is_supported}
use network_enforcer.Status.Clear.{istio_allows, kubernetes_allows}
use network_enforcer.Learning.Gap.{kubernetes_allows-learned}
use network_enforcer.Attribution.{violation_subject}
use network_enforcer.Attribution.Subject.{IsWorkload}
use network_enforcer.Learning.Istio.{upsert_istio_learned_rule}
use network_enforcer.Learning.Istio.Laws.{istio_allows-upsert}
use network_enforcer.Learning.Names.{get_proposal_name, owner_ref_from_proposal_name}
use network_enforcer.Learning.Names.Laws.{owner_ref-get_proposal_name}
use network_enforcer.Learning.Rules.{build_peer_and_port, upsert_rule_by_peer, contains_peer_port}
use network_enforcer.Learning.Kubernetes.{upsert_rule_by_peer-learns, upsert_rule_by_peer-keeps}
use network_enforcer.Learning.Learner.{
  generate_violation_observation, mutate_kubernetes, evaluate_monitor_violation, allowed,
}
use network_enforcer.Learning.Learner.Laws.{violation_subject-generate}
use network_enforcer.Reconcile.Promotion.{policy_of_proposal}
use network_enforcer.Reconcile.Promotion.Laws.{evaluate-promoted}
use network_enforcer.Api.Kube.{PolicyPeer, PolicyPort, PolicyRule}
use network_enforcer.Tests.Data.{web, db, violation_at, istio_spec, proposal, format_selector}

istio_allows-upsert_example :
    istio_allows
      (upsert_istio_learned_rule istio_spec "cluster.local/ns/shop/sa/web" (format_int (pos 5432)))
      (violation_at 5 0)
    ≡ true
istio_allows-upsert_example =
    istio_allows-upsert istio_spec (violation_at 5 0) 5432 (omega arith) refl

owner_ref-get_proposal_name_example :
    owner_ref_from_proposal_name "shop" (get_proposal_name web "Egress")
    ≡ some (bare_ref "shop" "Deployment" "web-front")
unfolding is_supported
owner_ref-get_proposal_name_example =
    owner_ref-get_proposal_name web "Egress" refl (ne_of_eq-false "web-front" "" refl) (inr refl)

abbrev peer : PolicyPeer
peer = (build_peer_and_port web "TCP" (pos 80)).0

abbrev port : PolicyPort
port = (build_peer_and_port web "TCP" (pos 80)).1

abbrev rules : List PolicyRule
rules = upsert_rule_by_peer format_selector [] peer port

upsert_rule_by_peer-learns_example :
    (contains_peer_port format_selector
        (upsert_rule_by_peer format_selector rules peer port)
        peer
        port
      ≡ true)
    × (upsert_rule_by_peer format_selector
          (upsert_rule_by_peer format_selector rules peer port)
          peer
          port
        ≡ upsert_rule_by_peer format_selector rules peer port)
upsert_rule_by_peer-learns_example =
    upsert_rule_by_peer-learns format_selector web "TCP" (pos 80) rules

abbrev other_port : PolicyPort
other_port = (build_peer_and_port web "TCP" (pos 443)).1

upsert_rule_by_peer-keeps_example :
    contains_peer_port format_selector
      (upsert_rule_by_peer format_selector rules peer other_port)
      peer
      port
    ≡ true
unfolding build_peer_and_port
upsert_rule_by_peer-keeps_example =
    upsert_rule_by_peer-keeps format_selector web "TCP" (pos 443) rules peer port
      (upsert_rule_by_peer-learns format_selector web "TCP" (pos 80) []).0

db-IsWorkload : IsWorkload db
db-IsWorkload = (ne_of_eq-false _ _ refl, ne_of_eq-false _ _ refl, inr (inl refl))

violation_subject-generate_example :
    violation_subject
      (generate_violation_observation "statefulset-db-ingress" db web "TCP" "Ingress" (pos 5432) 9)
    ≡ some db
violation_subject-generate_example =
    violation_subject-generate "statefulset-db-ingress" db web "TCP" "Ingress" (pos 5432) 9
      db-IsWorkload (inl refl)

evaluate-promoted_example :
    (learned : Proposal) × (mutate_kubernetes format_selector db web "Ingress" "TCP"
        (pos 5432)
        proposal
      ≡ some learned)
    × (evaluate_monitor_violation format_selector
          (policy_of_proposal learned "monitor")
          db
          web
          "TCP"
          "Ingress"
          (pos 5432)
          9
        ≡ allowed)
evaluate-promoted_example =
    evaluate-promoted format_selector db web "TCP" "Ingress" "monitor" (pos 5432) 9 proposal
      (inl refl)

kubernetes_allows-learned_example :
    (contains_peer_port format_selector (upsert_rule_by_peer format_selector [] peer port) peer port
      ≡ true)
    × (kubernetes_allows format_selector
          (record {
            pod_selector = web.selector;
            policy_types = "Egress" ∷ [];
            ingress = [];
            egress = upsert_rule_by_peer format_selector [] peer port;
          })
          (violation_at 5 0)
        ≡ false)
kubernetes_allows-learned_example =
    kubernetes_allows-learned format_selector (violation_at 5 0) web "TCP" (pos 80) web.selector
      refl
