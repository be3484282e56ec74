-- ===== src/Ztunnel.antt =====
-- internal/ztunnel/parser.go: the events of a ztunnel log in the CRI format. A line is its bytes; a
-- nil pointer is `none`.
pub mod Laws
use Prim.Native.Char.{Char, code}
use Prim.Native.String.{String, [], ◌∷◌}
use network_enforcer.Common.{
  Option, none, some, Bool, true, false, not, ◌&&◌, ◌||◌, ◌==◌, string_eq, nat_beq, leb,
  if◌then◌else◌,
}
use network_enforcer.Common.Result.{Result, failed, ok}
use network_enforcer.Common.Text.{cut}
use network_enforcer.Scraper.Istio.{event_type_learn, event_type_monitor, event_type_protect}

pub record Event : Type 0 where
  pub type : String
  pub timestamp : String
  pub message : String
  pub destination_name : Option String
  pub destination_namespace : Option String
  pub destination_port : String
  pub source_identity : String
  pub destination_namespaced_name : String
  pub policy : String
  pub source_address : String

-- the decoded JSON; `workload` and `peer` are those of the records `proxy` and `inbound`
pub record ZtunnelRecord : Type 0 where
  pub message : String
  pub direction : String
  pub source_identity : String
  pub destination_identity : String
  pub destination_name : Option String
  pub destination_namespace : Option String
  pub destination_hbone_addr : String
  pub policy : String
  pub workload : String
  pub peer : String

pub data ParseError : Type 0 where
  invalid_cri : ParseError
  invalid_json : ParseError

-- what follows the last colon
unfoldable pub after_last_colon : String → Option String
after_last_colon [] = none
after_last_colon (c ∷ s) =
    let rest = after_last_colon s in
    elim rest [ some port ↦ some port | none ↦ if nat_beq (code c) b':' then some s else none ]

unfoldable pub all_digits : String → Bool
all_digits [] = true
all_digits (c ∷ s) = let rest = all_digits s in leb b'0' (code c) && leb (code c) b'9' && rest

abbrev pub port_or_empty : Option String → String
port_or_empty none = ""
port_or_empty (some port) = if all_digits port then port else ""

unfoldable pub extract_port : String → String
extract_port address = port_or_empty (after_last_colon address)

-- an event with nothing but its type, time and message
abbrev pub event_of : String → String → String → Event
event_of type timestamp message = record {
  type = type;
  timestamp = timestamp;
  message = message;
  destination_name = none;
  destination_namespace = none;
  destination_port = "";
  source_identity = "";
  destination_namespaced_name = "";
  policy = "";
  source_address = "";
}

abbrev pub learn_event : String → ZtunnelRecord → Event
learn_event timestamp rec = record (event_of event_type_learn timestamp rec.message) {
  destination_name = rec.destination_name;
  destination_namespace = rec.destination_namespace;
  destination_port = extract_port rec.destination_hbone_addr;
  source_identity = rec.source_identity;
}

abbrev pub policy_event : String → String → ZtunnelRecord → Event
policy_event type timestamp rec = record (event_of type timestamp rec.message) {
  destination_namespaced_name = rec.workload;
  policy = rec.policy;
  source_address = rec.peer;
}

abbrev pub is_monitor_message : String → Bool
is_monitor_message m = m == "dry-run: deny policy match" || m == "dry-run: no allow policies match"

abbrev pub is_protect_message : String → Bool
is_protect_message m = m == "deny policy match" || m == "no allow policies matched"

-- the switch over the message; `none` is a record that is no event
unfoldable pub event_of_record : String → ZtunnelRecord → Option Event
event_of_record timestamp rec =
    if is_monitor_message rec.message
    then some (policy_event event_type_monitor timestamp rec)
    else if is_protect_message rec.message
    then some (policy_event event_type_protect timestamp rec)
    else if rec.message == "connection complete"
    then if not (rec.direction == "inbound")
        || rec.source_identity == ""
        || rec.destination_identity == ""
      then none
      else some (learn_event timestamp rec)
    else none

-- `decode` is json.Unmarshal into the record, `none` its error.
module _ (decode : String → Option ZtunnelRecord) where
  abbrev pub parse_decoded : String → Option ZtunnelRecord → Result ParseError (Option Event)
  parse_decoded timestamp none = failed invalid_json
  parse_decoded timestamp (some rec) = ok (event_of_record timestamp rec)

  -- after the tag, after the stream and after the time
  abbrev pub parse_tag : String → Option (String × String) → Result ParseError (Option Event)
  parse_tag timestamp none = failed invalid_cri
  parse_tag timestamp (some (tag, body)) = parse_decoded timestamp (decode body)

  abbrev pub parse_stream : String → Option (String × String) → Result ParseError (Option Event)
  parse_stream timestamp none = failed invalid_cri
  parse_stream timestamp (some (stream, rest)) =
      if not (stream == "stdout") && not (stream == "stderr")
      then failed invalid_cri
      else parse_tag timestamp (cut rest " ")

  abbrev pub parse_time : Option (String × String) → Result ParseError (Option Event)
  parse_time none = failed invalid_cri
  parse_time (some (timestamp, rest)) =
      if timestamp == "" then failed invalid_cri else parse_stream timestamp (cut rest " ")

  unfoldable pub parse : String → Result ParseError (Option Event)
  parse line = parse_time (cut line " ")
