-- ===== src/Scraper/Istio.antt =====
-- internal/scraper/istio_scraper.go: the OTLP log records of the Istio watchers become learning
-- events and violations. `none` is a panic of the runtime.
pub mod Laws
pub mod Total
use network_enforcer.Common.{
  ℕ, ◌^◌, String, List, [], ◌∷◌, Option, none, some, Bool, true, false, not, ◌&&◌, ◌||◌, ◌==◌,
  string_eq, if◌then◌else◌, ltb,
}
use network_enforcer.Common.Int.{ℤ, pos}
use network_enforcer.Common.Result.{Result, failed, ok}
use network_enforcer.Common.Text.{cut_prefix}
use network_enforcer.Api.Kube.{protocol_tcp, policy_type_ingress}
use network_enforcer.Api.Types.{
  WorkloadRef, Observation, LearningEvent, bare_ref, is_supported, backend_istio, mode_monitor,
  mode_protect,
}
use network_enforcer.Ringbuf.{◌>>=◌}
use network_enforcer.Workload.{Client}
use network_enforcer.Enrich.{enrich, get_workload_ref}
use network_enforcer.Scraper.Flow.{FlowError, parse_port}
use network_enforcer.Scraper.Attributes.{
  KeyValue, attr_map, merge_attr_maps, attr, split_namespaced_name,
}
use network_enforcer.Scraper.Pipeline.{
  Pipeline, enqueue_learning_event, record_observation, dump_flow,
}

abbrev pub event_type_learn : String
event_type_learn = "learn"

abbrev pub event_type_monitor : String
event_type_monitor = "monitor"

abbrev pub event_type_protect : String
event_type_protect = "protect"

abbrev pub event_type_key : String
event_type_key = "evt.type"

abbrev pub src_identity_key : String
src_identity_key = "src.identity"

abbrev pub dst_namespace_key : String
dst_namespace_key = "dst.namespace"

abbrev pub dst_name_key : String
dst_name_key = "dst.name"

abbrev pub dst_port_key : String
dst_port_key = "dst.port"

abbrev pub policy_key : String
policy_key = "policy"

abbrev pub dst_namespaced_name_key : String
dst_namespaced_name_key = "dst.namespaced_name"

abbrev pub src_addr_key : String
src_addr_key = "src.addr"

abbrev pub spiffe_uri_prefix : String
spiffe_uri_prefix = "spiffe://"

-- `time_unix_nano` is a uint64
pub record LogRecord : Type 0 where
  pub time_unix_nano : ℕ
  pub attributes : List KeyValue

pub record ResourceLogs : Type 0 where
  pub attributes : List KeyValue
  pub scope_logs : List (List LogRecord)

-- `unix_nano` is time.Unix at a number of nanoseconds, `now` the time of time.Now
unfoldable pub timestamp_from_record : ℕ → (ℕ → ℕ) → LogRecord → ℕ
timestamp_from_record now unix_nano rec =
    if ltb 0 rec.time_unix_nano && ltb rec.time_unix_nano (2 ^ 63)
    then unix_nano rec.time_unix_nano
    else now

unfoldable pub policy_event_to_observation :
    ℕ → (ℕ → ℕ) → LogRecord → List (String × String) → Observation
policy_event_to_observation now unix_nano rec attrs =
    let dst = split_namespaced_name (attr attrs dst_namespaced_name_key) in
    let policy = split_namespaced_name (attr attrs policy_key) in
    record {
      provider = backend_istio;
      direction = policy_type_ingress;
      info = record {
        timestamp = timestamp_from_record now unix_nano rec;
        source = bare_ref "" "" (attr attrs src_addr_key);
        dest = bare_ref dst.0 "" dst.1;
        protocol = protocol_tcp;
        dst_port = pos 0;
        action =
            if attr attrs event_type_key == event_type_monitor then mode_monitor else mode_protect;
        denying_policy_namespace = policy.0;
        denying_policy_name = policy.1;
      };
    }

abbrev pub learned_event : String → ℤ → WorkloadRef → LearningEvent
learned_event identity dst_port dest = record {
  source = some (record (bare_ref "" "" "") { identity = identity });
  dest = some dest;
  dst_port = dst_port;
  protocol = protocol_tcp;
  backend = backend_istio;
}

abbrev pub supported_dest : String → ℤ → Option WorkloadRef → Option LearningEvent
supported_dest identity dst_port none = none
supported_dest identity dst_port (some dest) =
    if not (is_supported dest.owner_kind) then none else some (learned_event identity dst_port dest)

abbrev pub dest_of_port :
    Option Client → List (String × String) → String → Result FlowError ℤ → Option LearningEvent
dest_of_port enricher attrs identity (failed err) = none
dest_of_port none attrs identity (ok dst_port) = none
dest_of_port (some c) attrs identity (ok dst_port) =
    supported_dest identity dst_port
      (get_workload_ref c (attr attrs dst_namespace_key) (attr attrs dst_name_key))

abbrev pub event_of_identity :
    Option Client → List (String × String) → Option String → Option LearningEvent
event_of_identity enricher attrs none = none
event_of_identity enricher attrs (some identity) =
    if attr attrs dst_name_key == ""
      || attr attrs dst_namespace_key == ""
      || attr attrs dst_port_key == ""
      || identity == ""
    then none
    else dest_of_port enricher attrs identity (parse_port (attr attrs dst_port_key))

-- the event that enqueueLearningEvent builds; `none` is one of its early returns
unfoldable pub learning_event : Option Client → List (String × String) → Option LearningEvent
learning_event enricher attrs =
    event_of_identity enricher attrs (cut_prefix (attr attrs src_identity_key) spiffe_uri_prefix)

-- What the scraper was configured with. `format_float`, `split_host_port`, `marshal`, `now` and
-- `unix_nano` are the libraries'; a nil Enricher is `none`.
pub record Scraper : Type 0 where
  pub capacity : ℕ
  pub enricher : Option Client
  pub format_float : ℕ → String
  pub split_host_port : String → Option String
  pub marshal : LogRecord → Option String
  pub now : ℕ
  pub unix_nano : ℕ → ℕ

module _ (s : Scraper) where
  abbrev pub enqueue_event_of : Pipeline → Option LearningEvent → Pipeline
  enqueue_event_of p none = p
  enqueue_event_of p (some event) = enqueue_learning_event s.capacity p event

  unfoldable pub record_policy_event :
      Pipeline → LogRecord → List (String × String) → Option Pipeline
  record_policy_event p rec attrs = record_observation p (
      enrich s.split_host_port s.enricher (policy_event_to_observation s.now s.unix_nano rec attrs))

  -- the switch over the event type
  unfoldable pub handle_record : Pipeline → LogRecord → List (String × String) → Option Pipeline
  handle_record p rec attrs =
      let type = attr attrs event_type_key in
      if type == event_type_learn
      then some (enqueue_event_of p (learning_event s.enricher attrs))
      else if type == event_type_monitor || type == event_type_protect
      then record_policy_event p rec attrs
      else some p

  unfoldable pub export_record : List (String × String) → Pipeline → LogRecord → Option Pipeline
  export_record resource_attrs p rec = do
    dumped ← dump_flow s.marshal p.dumped rec
    handle_record (record p { dumped = dumped }) rec
        (merge_attr_maps resource_attrs (attr_map s.format_float rec.attributes))

  unfoldable pub export_records :
      List (String × String) → Pipeline → List LogRecord → Option Pipeline
  export_records resource_attrs p [] = some p
  export_records resource_attrs p (rec ∷ records) = do
    next ← export_record resource_attrs p rec
    export_records resource_attrs next records

  unfoldable pub export_scopes :
      List (String × String) → Pipeline → List (List LogRecord) → Option Pipeline
  export_scopes resource_attrs p [] = some p
  export_scopes resource_attrs p (records ∷ scopes) = do
    next ← export_records resource_attrs p records
    export_scopes resource_attrs next scopes

  unfoldable pub export : Pipeline → List ResourceLogs → Option Pipeline
  export p [] = some p
  export p (logs ∷ resources) = do
    next ← export_scopes (attr_map s.format_float logs.attributes) p logs.scope_logs
    export next resources
