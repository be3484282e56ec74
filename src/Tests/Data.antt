-- ===== src/Tests/Data.antt =====
-- Sample workloads, violations and policies.
use network_enforcer.Common.{String, ℕ, List, [], ◌∷◌, Option, none, some}
use network_enforcer.Common.Int.{pos}
use network_enforcer.Api.Kube.{LabelSelector, ObjectMeta, NetworkPolicySpec}
use network_enforcer.Api.Types.{
  WorkloadRef, ViolationRecord, PolicyStatus, PolicySpec, PolicyBackendSpec, WorkloadNetworkPolicy,
  IstioSpec, Proposal, Observation, empty_selector,
}

abbrev pub web : WorkloadRef
web = record {
  namespace = "shop";
  owner_kind = "Deployment";
  owner_name = "web-front";
  identity = "cluster.local/ns/shop/sa/web";
  selector = empty_selector;
}

abbrev pub db : WorkloadRef
db = record {
  namespace = "shop";
  owner_kind = "StatefulSet";
  owner_name = "db";
  identity = "cluster.local/ns/shop/sa/db";
  selector = empty_selector;
}

abbrev pub violation_at : ℕ → ℕ → ViolationRecord
violation_at time id = record {
  info = record {
    timestamp = time;
    source = web;
    dest = db;
    protocol = "TCP";
    dst_port = pos 5432;
    action = "monitor";
    denying_policy_namespace = "shop";
    denying_policy_name = "statefulset-db-ingress";
  };
  id = id;
}

abbrev pub status_of : List ViolationRecord → PolicyStatus
status_of violations = record {
  conditions = [];
  observed_generation = 1;
  violation_count = 1;
  active_violation_count = 0;
  violations = violations;
  acknowledged_violations = [];
}

abbrev pub meta_of : String → List (String × String) → ObjectMeta
meta_of name annotations = record {
  name = name;
  namespace = "shop";
  uid = name;
  generation = 2;
  creation_timestamp = 10;
  deletion_timestamp = none;
  labels = ("networkenforcer.kubewarden.io/promote", "monitor") ∷ [];
  annotations = annotations;
  owner_references = [];
}

abbrev pub istio_spec : IstioSpec
istio_spec = record { selector = empty_selector; rules = [] }

abbrev pub kubernetes_spec : NetworkPolicySpec
kubernetes_spec = record {
  pod_selector = empty_selector;
  policy_types = "Ingress" ∷ [];
  ingress = [];
  egress = [];
}

abbrev pub istio_backend_spec : PolicyBackendSpec
istio_backend_spec = record { backend = "istio"; kubernetes = none; istio = some istio_spec }

abbrev pub kubernetes_backend_spec : PolicyBackendSpec
kubernetes_backend_spec = record {
  backend = "kubernetes";
  kubernetes = some kubernetes_spec;
  istio = none;
}

abbrev pub spec_of : PolicyBackendSpec → PolicySpec
spec_of backend_spec = record {
  backend_spec = backend_spec;
  targeting = record {
    target_ref = record { kind = "StatefulSet"; name = "db" };
    direction = "Ingress";
  };
  mode = "monitor";
}

abbrev pub policy : PolicyBackendSpec → WorkloadNetworkPolicy
policy backend_spec = record {
  meta =
      meta_of "statefulset-db-ingress"
        (("networkenforcer.kubewarden.io/acknowledge-0", "known job") ∷ []);
  spec = spec_of backend_spec;
  status = status_of (violation_at 5 0 ∷ []);
}

abbrev pub proposal : Proposal
proposal = record {
  meta = meta_of "statefulset-db-ingress" [];
  backend_spec = kubernetes_backend_spec;
  targeting = (spec_of kubernetes_backend_spec).targeting;
}

abbrev pub observation : Observation
observation = record { info = (violation_at 7 0).info; provider = "istio"; direction = "Ingress" }

-- a selector is written as its backend writes it; here, by whether there is one
abbrev pub format_selector : Option LabelSelector → String
format_selector none = "<none>"
format_selector (some s) = "app=db"
