-- ===== src/Api/Types.antt =====
-- The resources of api/v1alpha1: WorkloadRef, the backends, violations and WorkloadNetworkPolicy.
use network_enforcer.Common.{
  ℕ, String, List, [], Option, none, some, Bool, ◌||◌, ◌==◌, string_eq, if◌then◌else◌,
}
use network_enforcer.Common.Int.{ℤ}
use network_enforcer.Api.Kube.{
  LabelSelector, NetworkPolicySpec, ObjectMeta, Condition, NamespacedName,
}

abbrev pub kind_deployment : String
kind_deployment = "Deployment"

abbrev pub kind_stateful_set : String
kind_stateful_set = "StatefulSet"

abbrev pub kind_daemon_set : String
kind_daemon_set = "DaemonSet"

abbrev pub kind_replica_set : String
kind_replica_set = "ReplicaSet"

abbrev pub kind_pod : String
kind_pod = "Pod"

abbrev pub backend_kubernetes : String
backend_kubernetes = "kubernetes"

abbrev pub backend_istio : String
backend_istio = "istio"

abbrev pub mode_monitor : String
mode_monitor = "monitor"

abbrev pub mode_protect : String
mode_protect = "protect"

pub record WorkloadRef : Type 0 where
  pub namespace : String
  pub owner_kind : String
  pub owner_name : String
  pub identity : String
  pub selector : LabelSelector

abbrev pub empty_selector : LabelSelector
empty_selector = record { match_labels = []; match_expressions = [] }

-- a WorkloadRef of which only these fields are set
abbrev pub bare_ref : String → String → String → WorkloadRef
bare_ref namespace kind name = record {
  namespace = namespace;
  owner_kind = kind;
  owner_name = name;
  identity = "";
  selector = empty_selector;
}

unfoldable pub is_supported : String → Bool
is_supported kind = kind == kind_deployment || kind == kind_stateful_set || kind == kind_daemon_set

pub record WorkloadTargetRef : Type 0 where
  pub kind : String
  pub name : String

pub record WorkloadTargetingSpec : Type 0 where
  pub target_ref : WorkloadTargetRef
  pub direction : String

pub record IstioFrom : Type 0 where
  pub principals : List String

pub record IstioTo : Type 0 where
  pub ports : List String

pub record IstioRule : Type 0 where
  pub sources : List IstioFrom
  pub operations : List IstioTo

pub record IstioSpec : Type 0 where
  pub selector : LabelSelector
  pub rules : List IstioRule

pub record PolicyBackendSpec : Type 0 where
  pub backend : String
  pub kubernetes : Option NetworkPolicySpec
  pub istio : Option IstioSpec

-- A time is its number of nanoseconds since the zero time.
pub record ViolationInfo : Type 0 where
  pub timestamp : ℕ
  pub source : WorkloadRef
  pub dest : WorkloadRef
  pub protocol : String
  pub dst_port : ℤ
  pub action : String
  pub denying_policy_namespace : String
  pub denying_policy_name : String

-- `id` is an int64 as its 64 bits
pub record ViolationRecord : Type 0 where
  pub info : ViolationInfo
  pub id : ℕ

pub record AcknowledgedViolationRecord : Type 0 where
  pub violation : ViolationRecord
  pub reason : String
  pub acknowledged_at : ℕ

-- the counters are int64 as their 64 bits
pub record PolicyStatus : Type 0 where
  pub conditions : List Condition
  pub observed_generation : ℕ
  pub violation_count : ℕ
  pub active_violation_count : ℕ
  pub violations : List ViolationRecord
  pub acknowledged_violations : List AcknowledgedViolationRecord

pub record PolicySpec : Type 0 where
  pub backend_spec : PolicyBackendSpec
  pub targeting : WorkloadTargetingSpec
  pub mode : String

pub record WorkloadNetworkPolicy : Type 0 where
  pub meta : ObjectMeta
  pub spec : PolicySpec
  pub status : PolicyStatus

pub record Proposal : Type 0 where
  pub meta : ObjectMeta
  pub backend_spec : PolicyBackendSpec
  pub targeting : WorkloadTargetingSpec

-- in-flight violation of internal/violation
pub record Observation : Type 0 where
  pub info : ViolationInfo
  pub provider : String
  pub direction : String

pub record LearningEvent : Type 0 where
  pub source : Option WorkloadRef
  pub dest : Option WorkloadRef
  pub dst_port : ℤ
  pub protocol : String
  pub backend : String

unfoldable pub namespaced_name : WorkloadNetworkPolicy → NamespacedName
namespaced_name wnp = record { namespace = wnp.meta.namespace; name = wnp.meta.name }

-- `none` is an error
unfoldable pub get_selector : PolicySpec → Option LabelSelector
get_selector spec =
    if spec.backend_spec.backend == backend_kubernetes
    then (elim spec.backend_spec.kubernetes [ none ↦ none | some k ↦ some k.pod_selector ])
    else if spec.backend_spec.backend == backend_istio
    then (elim spec.backend_spec.istio [ none ↦ none | some s ↦ some s.selector ])
    else none
