-- ===== src/Api/Kube.antt =====
-- The fields of the Kubernetes types that the program reads and writes. A pointer is an `Option`, a
-- nil slice or map is the empty one.
use network_enforcer.Common.{ℕ, String, List, Option, Bool}
use network_enforcer.Common.Int.{ℤ}

-- metav1.LabelSelectorRequirement
pub record Requirement : Type 0 where
  pub key : String
  pub operator : String
  pub values : List String

-- metav1.LabelSelector
pub record LabelSelector : Type 0 where
  pub match_labels : List (String × String)
  pub match_expressions : List Requirement

-- networkingv1.IPBlock
pub record IpBlock : Type 0 where
  pub cidr : String
  pub except : List String

-- networkingv1.NetworkPolicyPeer
pub record PolicyPeer : Type 0 where
  pub namespace_selector : Option LabelSelector
  pub pod_selector : Option LabelSelector
  pub ip_block : Option IpBlock

-- intstr.IntOrString
pub record IntOrString : Type 0 where
  pub kind : ℕ
  pub int_val : ℤ
  pub str_val : String

-- networkingv1.NetworkPolicyPort
pub record PolicyPort : Type 0 where
  pub protocol : Option String
  pub port : Option IntOrString
  pub end_port : Option ℤ

-- networkingv1.NetworkPolicyIngressRule and NetworkPolicyEgressRule: the peers are its `From` or its
-- `To`.
pub record PolicyRule : Type 0 where
  pub peers : List PolicyPeer
  pub ports : List PolicyPort

-- networkingv1.NetworkPolicySpec
pub record NetworkPolicySpec : Type 0 where
  pub pod_selector : LabelSelector
  pub policy_types : List String
  pub ingress : List PolicyRule
  pub egress : List PolicyRule

-- types.NamespacedName
pub record NamespacedName : Type 0 where
  pub namespace : String
  pub name : String

-- metav1.OwnerReference
pub record OwnerReference : Type 0 where
  pub api_version : String
  pub kind : String
  pub name : String
  pub uid : String
  pub controller : Option Bool

-- metav1.ObjectMeta; a creation time is its number of seconds, a zero deletion time is `none`
pub record ObjectMeta : Type 0 where
  pub name : String
  pub namespace : String
  pub uid : String
  pub generation : ℕ
  pub creation_timestamp : ℕ
  pub deletion_timestamp : Option ℕ
  pub labels : List (String × String)
  pub annotations : List (String × String)
  pub owner_references : List OwnerReference

-- metav1.Condition; the time of the last transition is the API machinery's
pub record Condition : Type 0 where
  pub type : String
  pub status : String
  pub observed_generation : ℕ
  pub reason : String
  pub message : String

-- networkingv1.PolicyTypeIngress and PolicyTypeEgress
abbrev pub policy_type_ingress : String
policy_type_ingress = "Ingress"

abbrev pub policy_type_egress : String
policy_type_egress = "Egress"

-- corev1.ProtocolTCP and ProtocolUDP
abbrev pub protocol_tcp : String
protocol_tcp = "TCP"

abbrev pub protocol_udp : String
protocol_udp = "UDP"

-- corev1.LabelMetadataName
abbrev pub label_metadata_name : String
label_metadata_name = "kubernetes.io/metadata.name"
