-- ===== src/Tests/Cluster.antt =====
-- A cluster with one Deployment and its pod, and sample flows.
use network_enforcer.Common.{[], ◌∷◌, none, some, true, false}
use network_enforcer.Api.Kube.{LabelSelector, OwnerReference}
use network_enforcer.Workload.{Pod, Client}

abbrev pub web_selector : LabelSelector
web_selector = record { match_labels = ("app", "web") ∷ []; match_expressions = [] }

abbrev pub web_replica_set : OwnerReference
web_replica_set = record {
  api_version = "apps/v1";
  kind = "ReplicaSet";
  name = "web-5d4";
  uid = "u1";
  controller = some true;
}

abbrev pub web_pod : Pod
web_pod = record {
  name = "web-5d4-x7";
  generate_name = "web-5d4-";
  namespace = "shop";
  labels = ("pod-template-hash", "5d4") ∷ [];
  service_account_name = "web";
  controller = some web_replica_set;
}

abbrev pub client : Client
client = record {
  get_pod = λ namespace name. some web_pod;
  get_deployment = λ namespace name. some (some web_selector);
  get_stateful_set = λ namespace name. some (some web_selector);
  get_daemon_set = λ namespace name. none;
  list_pods = λ namespace. some (web_pod ∷ []);
  list_pods_by_ip = λ ip. some (web_pod ∷ []);
  list_by_target = λ namespace key. some [];
  selector_is_empty = λ selector. some false;
}
