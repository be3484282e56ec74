-- ===== src/Otel.antt =====
-- internal/violation/otel.go: the OTel record of an observed violation.
pub mod Laws
use network_enforcer.Common.{ℕ, String, List, [], ◌∷◌, ◌++◌, ◌==◌, string_eq, if◌then◌else◌}
use network_enforcer.Common.Int.{ℤ}
use network_enforcer.Api.Types.{Observation}

abbrev pub attr_enforcement_provider : String
attr_enforcement_provider = "enforcement.provider"

abbrev pub attr_action : String
attr_action = "action"

abbrev pub attr_src_name : String
attr_src_name = "source.workload.name"

abbrev pub attr_src_namespace : String
attr_src_namespace = "source.workload.namespace"

abbrev pub attr_src_kind : String
attr_src_kind = "source.workload.kind"

abbrev pub attr_src_identity : String
attr_src_identity = "source.workload.identity"

abbrev pub attr_dst_name : String
attr_dst_name = "destination.workload.name"

abbrev pub attr_dst_namespace : String
attr_dst_namespace = "destination.workload.namespace"

abbrev pub attr_dst_kind : String
attr_dst_kind = "destination.workload.kind"

abbrev pub attr_dst_identity : String
attr_dst_identity = "destination.workload.identity"

abbrev pub attr_transport : String
attr_transport = "network.transport"

abbrev pub attr_dst_port : String
attr_dst_port = "destination.port"

abbrev pub attr_policy_namespace : String
attr_policy_namespace = "policy.ref.namespace"

abbrev pub attr_policy_name : String
attr_policy_name = "policy.ref.name"

unfoldable pub otel_attribute_keys : List String
otel_attribute_keys =
    attr_enforcement_provider ∷ attr_action ∷ attr_src_name ∷ attr_src_namespace ∷ attr_src_kind
    ∷ attr_src_identity ∷ attr_dst_name ∷ attr_dst_namespace ∷ attr_dst_kind ∷ attr_dst_identity
    ∷ attr_transport ∷ attr_dst_port ∷ attr_policy_namespace ∷ attr_policy_name ∷ []

pub data AttributeValue : Type 0 where
  string_attribute : String → AttributeValue
  int_attribute : ℤ → AttributeValue

-- a record of the name policy_violation_observed, at level Warn
pub record OtelRecord : Type 0 where
  pub timestamp : ℕ
  pub attributes : List (String × AttributeValue)

unfoldable pub add_string_attrs : OtelRecord → String → String → OtelRecord
add_string_attrs rec key value =
    if value == ""
    then rec
    else record rec { attributes = rec.attributes ++ (key, string_attribute value) ∷ [] }

-- the calls of addStringAttrs, in their order
unfoldable pub add_all : OtelRecord → List (String × String) → OtelRecord
add_all rec [] = rec
add_all rec ((key, value) ∷ attrs) = add_all (add_string_attrs rec key value) attrs

abbrev pub string_attributes : Observation → List (String × String)
string_attributes o =
    (attr_enforcement_provider, o.provider)
    ∷ (attr_action, o.info.action)
    ∷ (attr_src_name, o.info.source.owner_name)
    ∷ (attr_src_namespace, o.info.source.namespace)
    ∷ (attr_src_kind, o.info.source.owner_kind)
    ∷ (attr_src_identity, o.info.source.identity)
    ∷ (attr_dst_name, o.info.dest.owner_name)
    ∷ (attr_dst_namespace, o.info.dest.namespace)
    ∷ (attr_dst_kind, o.info.dest.owner_kind)
    ∷ (attr_dst_identity, o.info.dest.identity)
    ∷ (attr_transport, o.info.protocol)
    ∷ (attr_policy_namespace, o.info.denying_policy_namespace)
    ∷ (attr_policy_name, o.info.denying_policy_name)
    ∷ []

-- what EmitOtelLog hands to a logger that is not nil
unfoldable pub otel_record : Observation → OtelRecord
otel_record o =
    let rec =
      add_all (record { timestamp = o.info.timestamp; attributes = [] }) (string_attributes o) in
    record rec {
      attributes = rec.attributes ++ (attr_dst_port, int_attribute o.info.dst_port) ∷ [];
    }
