-- ===== src/Scraper/Goldmane.antt =====
-- internal/scraper/calico_flow_parser.go: the messages of Goldmane and the flows that are discarded.
-- A nil pointer is `none`, an enumeration has the values that the code tests for.
use network_enforcer.Common.{
  String, List, Option, none, some, Bool, true, false, not, ◌&&◌, ◌||◌, ◌==◌, string_eq,
  if◌then◌else◌,
}
use network_enforcer.Common.Int.{ℤ}
use network_enforcer.Scraper.Flow.{outside, min_valid_port, max_valid_port}

pub data EndpointType : Type 0 where
  workload_endpoint : EndpointType
  network_set : EndpointType
  network : EndpointType
  other_endpoint : EndpointType

pub data Action : Type 0 where
  action_allow : Action
  action_deny : Action
  other_action : Action

pub data Reporter : Type 0 where
  reporter_src : Reporter
  reporter_dst : Reporter
  other_reporter : Reporter

pub data PolicyKind : Type 0 where
  kind_network_policy : PolicyKind
  kind_end_of_tier : PolicyKind
  other_kind : PolicyKind

-- the fields that are read of a hit's trigger, itself a hit
pub record Trigger : Type 0 where
  pub kind : PolicyKind
  pub name : String
  pub namespace : String

pub record PolicyHit : Type 0 where
  pub kind : PolicyKind
  pub name : String
  pub namespace : String
  pub action : Action
  pub trigger : Option Trigger

pub record FlowKey : Type 0 where
  pub source_name : String
  pub source_namespace : String
  pub source_type : EndpointType
  pub dest_name : String
  pub dest_namespace : String
  pub dest_type : EndpointType
  pub dest_port : ℤ
  pub proto : String
  pub action : Action
  pub reporter : Reporter
  pub policies : Option (List PolicyHit)

-- `start_time` is an int64
pub record GoldmaneFlow : Type 0 where
  pub key : Option FlowKey
  pub start_time : ℤ

pub record CalicoEndpoint : Type 0 where
  pub kind : EndpointType
  pub name : String
  pub namespace : String

abbrev is_workload_kind : EndpointType → Bool
is_workload_kind workload_endpoint = true
is_workload_kind network_set = false
is_workload_kind network = false
is_workload_kind other_endpoint = false

unfoldable pub is_workload : CalicoEndpoint → Bool
is_workload e = is_workload_kind e.kind && not (e.name == "") && not (e.namespace == "")

abbrev pub is_peer_of_kind : CalicoEndpoint → EndpointType → Bool
is_peer_of_kind e network_set = not (e.name == "")
is_peer_of_kind e network = not (e.name == "")
is_peer_of_kind e workload_endpoint = is_workload e
is_peer_of_kind e other_endpoint = is_workload e

unfoldable pub is_violation_peer : CalicoEndpoint → Bool
is_violation_peer e = is_peer_of_kind e e.kind

abbrev pub source_of : FlowKey → CalicoEndpoint
source_of key = record {
  kind = key.source_type;
  name = key.source_name;
  namespace = key.source_namespace;
}

abbrev pub dest_of : FlowKey → CalicoEndpoint
dest_of key = record { kind = key.dest_type; name = key.dest_name; namespace = key.dest_namespace }

abbrev pub discard_deny : FlowKey → Reporter → Bool
discard_deny key reporter_src =
    not (is_workload (source_of key)) || not (is_violation_peer (dest_of key))
discard_deny key reporter_dst =
    not (is_workload (dest_of key)) || not (is_violation_peer (source_of key))
discard_deny key other_reporter = true

abbrev pub is_dst : Reporter → Bool
is_dst reporter_dst = true
is_dst reporter_src = false
is_dst other_reporter = false

abbrev pub discard_action : FlowKey → Action → Bool
discard_action key action_allow =
    not (is_dst key.reporter)
    || not (is_workload (source_of key))
    || not (is_workload (dest_of key))
discard_action key action_deny = discard_deny key key.reporter
discard_action key other_action = true

unfoldable pub discard_calico_flow : Option FlowKey → Bool
discard_calico_flow none = true
discard_calico_flow (some key) =
    if outside min_valid_port max_valid_port key.dest_port
    then true
    else discard_action key key.action
