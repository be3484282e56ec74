-- ===== src/Learning/Learner.antt =====
-- One learning event: the proposals it maintains, or the monitor violation it raises.
pub mod Laws
use network_enforcer.Common.{
  ℕ, String, List, [], ◌∷◌, ◌++◌, Option, none, some, Bool, true, false, not, ◌==◌, string_eq,
  if◌then◌else◌,
}
use network_enforcer.Common.Int.{ℤ}
use network_enforcer.Common.Text.Decimal.{format_int}
use network_enforcer.Api.Kube.{
  LabelSelector, NetworkPolicySpec, policy_type_ingress, policy_type_egress,
}
use network_enforcer.Api.Types.{
  WorkloadRef, IstioSpec, WorkloadNetworkPolicy, Proposal, Observation, LearningEvent,
  empty_selector, backend_kubernetes, backend_istio, mode_monitor, mode_protect,
}
use network_enforcer.Learning.Names.{
  get_proposal_name, get_proposal_metadata, workload_targeting_spec,
}
use network_enforcer.Learning.Rules.{build_peer_and_port, upsert_rule_by_peer, contains_peer_port}
use network_enforcer.Learning.Istio.{upsert_istio_learned_rule}

abbrev pub empty_spec : NetworkPolicySpec
empty_spec = record { pod_selector = empty_selector; policy_types = []; ingress = []; egress = [] }

abbrev pub spec_or_empty : Option NetworkPolicySpec → NetworkPolicySpec
spec_or_empty none = empty_spec
spec_or_empty (some spec) = spec

-- The selector and the direction are written the first time only.
abbrev pub with_direction :
    List String → WorkloadRef → String → NetworkPolicySpec → NetworkPolicySpec
with_direction [] wk direction spec = record spec {
  pod_selector = wk.selector;
  policy_types = direction ∷ [];
}
with_direction (t ∷ ts) wk direction spec = spec

-- the Istio backend is populated the first time only
abbrev pub istio_or_new : WorkloadRef → Option IstioSpec → IstioSpec
istio_or_new dest none = record { selector = dest.selector; rules = [] }
istio_or_new dest (some spec) = spec

abbrev istio_backend : Option IstioSpec → String → String
istio_backend none backend = backend_istio
istio_backend (some spec) backend = backend

-- the function that updateProposal hands to CreateOrUpdate
unfoldable pub mutate_istio : WorkloadRef → WorkloadRef → ℤ → Proposal → Proposal
mutate_istio source dest dst_port proposal = record proposal {
  targeting = workload_targeting_spec dest policy_type_ingress;
  backend_spec = record (proposal.backend_spec) {
    backend = istio_backend proposal.backend_spec.istio proposal.backend_spec.backend;
    istio = some (
        upsert_istio_learned_rule (istio_or_new dest proposal.backend_spec.istio) source.identity
          (format_int dst_port));
  };
}

unfoldable pub generate_violation_observation :
    String → WorkloadRef → WorkloadRef → String → String → ℤ → ℕ → Observation
generate_violation_observation policy_name wk peer protocol direction dst_port now = record {
  info = record {
    timestamp = now;
    source = if direction == policy_type_ingress then peer else wk;
    dest = if direction == policy_type_ingress then wk else peer;
    protocol = protocol;
    dst_port = dst_port;
    action = mode_monitor;
    denying_policy_namespace = wk.namespace;
    denying_policy_name = policy_name;
  };
  provider = backend_kubernetes;
  direction = direction;
}

pub data Monitor : Type 0 where
  allowed : Monitor
  violated : Observation → Monitor
  unknown_direction : Monitor
  nil_template : Monitor

-- what a reconciliation did: nothing, a proposal kept up, a monitor evaluation, an error; a nil source is
-- dereferenced
pub data Outcome : Type 0 where
  done : Outcome
  updated : Proposal → Outcome
  evaluated : Monitor → Outcome
  failed : Outcome
  nil_source : Outcome

module _ (format_label_selector : Option LabelSelector → String) where
  abbrev pub add_rule :
      String → NetworkPolicySpec → WorkloadRef → String → ℤ → Option NetworkPolicySpec
  add_rule direction spec peer protocol dst_port =
      let (policy_peer, policy_port) = build_peer_and_port peer protocol dst_port in
      if direction == policy_type_egress
      then some (record spec {
        egress = upsert_rule_by_peer format_label_selector spec.egress policy_peer policy_port;
      })
      else if direction == policy_type_ingress
      then some (record spec {
        ingress = upsert_rule_by_peer format_label_selector spec.ingress policy_peer policy_port;
      })
      else none

  abbrev pub with_spec :
      WorkloadRef → String → Proposal → Option NetworkPolicySpec → Option Proposal
  with_spec wk direction proposal none = none
  with_spec wk direction proposal (some spec) = some (record proposal {
    targeting = workload_targeting_spec wk direction;
    backend_spec = record (proposal.backend_spec) {
      backend = backend_kubernetes;
      kubernetes = some spec;
    };
  })

  -- the function that reconcileKubernetesProposal hands to CreateOrUpdate; `none` is its error
  unfoldable pub mutate_kubernetes :
      WorkloadRef → WorkloadRef → String → String → ℤ → Proposal → Option Proposal
  mutate_kubernetes wk peer direction protocol dst_port proposal =
      let spec = spec_or_empty proposal.backend_spec.kubernetes in
      with_spec wk direction proposal (
        add_rule direction (with_direction spec.policy_types wk direction spec) peer protocol
          dst_port)

  abbrev pub evaluate_spec :
      String
      → Option NetworkPolicySpec
      → WorkloadRef
      → WorkloadRef
      → String
      → String
      → ℤ
      → ℕ
      → Monitor
  evaluate_spec policy_name none wk peer protocol direction dst_port now = nil_template
  evaluate_spec policy_name (some spec) wk peer protocol direction dst_port now =
      let (policy_peer, policy_port) = build_peer_and_port peer protocol dst_port in
      let raised =
        violated
          (generate_violation_observation policy_name wk peer protocol direction dst_port now) in
      if direction == policy_type_egress
      then if contains_peer_port format_label_selector spec.egress policy_peer policy_port
        then allowed
        else raised
      else if direction == policy_type_ingress
      then if contains_peer_port format_label_selector spec.ingress policy_peer policy_port
        then allowed
        else raised
      else unknown_direction

  unfoldable pub evaluate_monitor_violation :
      WorkloadNetworkPolicy → WorkloadRef → WorkloadRef → String → String → ℤ → ℕ → Monitor
  evaluate_monitor_violation policy wk peer protocol direction dst_port now =
      evaluate_spec policy.meta.name policy.spec.backend_spec.kubernetes wk peer protocol direction
        dst_port now

  -- The API server's part: the promoted policies of a proposal, CreateOrUpdate, and the write of the
  -- owner reference; `none` and `false` are errors.
  module _ (check_existing_policy : String → String → Option (List WorkloadNetworkPolicy))
      (create_or_update : Proposal → (Proposal → Option Proposal) → Option Proposal)
      (set_owner_reference : Proposal → WorkloadRef → Bool) where
    abbrev pub owned : WorkloadRef → Option Proposal → Outcome
    owned wk none = failed
    owned wk (some proposal) = if set_owner_reference proposal wk then updated proposal else failed

    abbrev pub reconcile_promoted :
        WorkloadRef
        → WorkloadRef
        → String
        → String
        → ℤ
        → ℕ
        → Option (List WorkloadNetworkPolicy)
        → Outcome
    reconcile_promoted wk peer direction protocol dst_port now none = failed
    reconcile_promoted wk peer direction protocol dst_port now (some []) = owned wk (
        create_or_update (get_proposal_metadata wk direction)
          (mutate_kubernetes wk peer direction protocol dst_port))
    reconcile_promoted wk peer direction protocol dst_port now (some (policy ∷ [])) =
        if policy.spec.mode == mode_protect
        then done
        else evaluated (evaluate_monitor_violation policy wk peer protocol direction dst_port now)
    reconcile_promoted wk peer direction protocol dst_port now (some (p ∷ q ∷ ps)) = failed

    unfoldable pub reconcile_kubernetes_proposal :
        WorkloadRef → WorkloadRef → String → String → ℤ → ℕ → Outcome
    reconcile_kubernetes_proposal wk peer direction protocol dst_port now =
        reconcile_promoted wk peer direction protocol dst_port now
          (check_existing_policy wk.namespace (get_proposal_name wk direction))

    -- the egress side first; its error stops the event
    abbrev pub after_egress : Outcome → Outcome → List Outcome
    after_egress failed second = failed ∷ []
    after_egress nil_source second = nil_source ∷ []
    after_egress done second = done ∷ second ∷ []
    after_egress (updated p) second = updated p ∷ second ∷ []
    after_egress (evaluated m) second = evaluated m ∷ second ∷ []

    abbrev pub process_both :
        LearningEvent → Option WorkloadRef → Option WorkloadRef → ℕ → List Outcome
    process_both req none dest now = failed ∷ []
    process_both req (some source) none now = failed ∷ []
    process_both req (some source) (some dest) now =
        after_egress
          (reconcile_kubernetes_proposal source dest policy_type_egress req.protocol req.dst_port
            now)
          (reconcile_kubernetes_proposal dest source policy_type_ingress req.protocol req.dst_port
            now)

    unfoldable pub process_kubernetes_learning_event : LearningEvent → ℕ → List Outcome
    process_kubernetes_learning_event req now = process_both req req.source req.dest now

    -- a nil source is read by the function of CreateOrUpdate
    abbrev pub update_proposal : ℤ → Option WorkloadRef → WorkloadRef → Outcome
    update_proposal dst_port none dest = nil_source
    update_proposal dst_port (some source) dest = owned dest (
        create_or_update (get_proposal_metadata dest policy_type_ingress)
          (λ proposal. some (mutate_istio source dest dst_port proposal)))

    abbrev pub istio_promoted :
        LearningEvent → WorkloadRef → Option (List WorkloadNetworkPolicy) → Outcome
    istio_promoted req dest none = failed
    istio_promoted req dest (some []) = update_proposal req.dst_port req.source dest
    istio_promoted req dest (some (p ∷ [])) = done
    istio_promoted req dest (some (p ∷ q ∷ ps)) = failed

    abbrev pub process_dest : LearningEvent → Option WorkloadRef → Outcome
    process_dest req none = failed
    process_dest req (some dest) =
        istio_promoted req dest
          (check_existing_policy dest.namespace (get_proposal_name dest policy_type_ingress))

    unfoldable pub process_istio_learning_event : LearningEvent → Outcome
    process_istio_learning_event req = process_dest req req.dest

    unfoldable pub reconcile : LearningEvent → ℕ → List Outcome
    reconcile req now =
        if req.backend == backend_istio
        then process_istio_learning_event req ∷ []
        else process_kubernetes_learning_event req now
