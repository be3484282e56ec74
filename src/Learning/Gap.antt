-- ===== src/Learning/Gap.antt =====
-- Learned Kubernetes rules against the comparison by which violations are cleared.
use network_enforcer.Common.{
  String, [], ◌∷◌, Option, none, some, Bool, true, false, ◌≡◌, refl, ◌==◌, ◌&&◌, ◌||◌, string_eq,
  arith,
}
use network_enforcer.Common.Int.{ℤ}
use network_enforcer.Api.Kube.{LabelSelector}
use network_enforcer.Api.Types.{WorkloadRef, ViolationRecord}
use network_enforcer.Api.PolicyHelpers.{
  selector_equal, policy_peer_equal, equal_unordered, match_each, find_free, rule_equal,
  ip_block_equal, egress_rule_equal,
}
use network_enforcer.Status.Clear.{namespace_peer, to_egress_rule, kubernetes_allows}
use network_enforcer.Learning.Kubernetes.{upsert_rule_by_peer-learns}
use network_enforcer.Learning.Rules.{build_peer_and_port, upsert_rule_by_peer, contains_peer_port}

and-false : (a b c : Bool) → b ≡ false → a && b && c ≡ false
and-false a b c h = ground arith

and-false_left : (a b : Bool) → a ≡ false → a && b ≡ false
and-false_left a b h = ground arith

and-or : {a : Bool} → a ≡ false → a || false ≡ false
and-or {a} h = ground arith

module _ {ℓ} {T : Type ℓ} (eq : T → T → Bool) (a b : T) (h : eq a b ≡ false) where
  find_one : find_free eq a (b ∷ []) (true ∷ []) ≡ none
  unfolding find_free
  find_one = rw h refl

  match_one : match_each eq (a ∷ []) (b ∷ []) (true ∷ []) ≡ false
  unfolding match_each
  match_one = rw (find_one, match_each) refl

  singletons : equal_unordered eq (a ∷ []) (b ∷ []) ≡ false
  unfolding equal_unordered
  singletons = match_one

module _ (format_label_selector : Option LabelSelector → String) where
  peers_differ :
      (v : ViolationRecord) (peer : WorkloadRef) (protocol : String) (port : ℤ)
      → (format_label_selector none == format_label_selector (some peer.selector)) ≡ false
      → policy_peer_equal format_label_selector
          (namespace_peer v.info.dest.namespace none)
          (build_peer_and_port peer protocol port).0
        ≡ false
  unfolding policy_peer_equal selector_equal build_peer_and_port ip_block_equal
  peers_differ v peer protocol port h = and-false _ _ _ h

  rules_differ :
      (v : ViolationRecord) (peer : WorkloadRef) (protocol : String) (port : ℤ)
      → (format_label_selector none == format_label_selector (some peer.selector)) ≡ false
      → egress_rule_equal format_label_selector (to_egress_rule v) (record {
        peers = (build_peer_and_port peer protocol port).0 ∷ [];
        ports = (build_peer_and_port peer protocol port).1 ∷ [];
      })
        ≡ false
  unfolding egress_rule_equal rule_equal to_egress_rule
  rules_differ v peer protocol port h = and-false_left _ _ (
      singletons (policy_peer_equal format_label_selector)
        (namespace_peer v.info.dest.namespace none) (build_peer_and_port peer protocol port).0
        (peers_differ v peer protocol port h))

  -- The first flow learned into an egress template is contained in it, so that monitor mode allows
  -- the flow, and yet clearing keeps every violation, those of this flow too: where the selector of
  -- the peer's pods is not written as a missing selector is.
  pub kubernetes_allows-learned :
      (v : ViolationRecord) (peer : WorkloadRef) (protocol : String) (port : ℤ)
      (pods : LabelSelector)
      → (format_label_selector none == format_label_selector (some peer.selector)) ≡ false
      → (contains_peer_port format_label_selector
            (upsert_rule_by_peer format_label_selector []
              (build_peer_and_port peer protocol port).0
              (build_peer_and_port peer protocol port).1)
            (build_peer_and_port peer protocol port).0
            (build_peer_and_port peer protocol port).1
          ≡ true)
        × (kubernetes_allows format_label_selector
              (record {
                pod_selector = pods;
                policy_types = "Egress" ∷ [];
                ingress = [];
                egress =
                    upsert_rule_by_peer format_label_selector []
                      (build_peer_and_port peer protocol port).0
                      (build_peer_and_port peer protocol port).1;
              })
              v
            ≡ false)
  unfolding kubernetes_allows upsert_rule_by_peer
  kubernetes_allows-learned v peer protocol port pods h = (
    (upsert_rule_by_peer-learns format_label_selector peer protocol port []).0,
    and-or (rules_differ v peer protocol port h),
  )
