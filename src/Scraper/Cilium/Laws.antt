-- ===== src/Scraper/Cilium/Laws.antt =====
-- internal/scraper/cilium_flow_parser.go: what may be learned or recorded from a Hubble flow.
use network_enforcer.Common.{
  ℕ, String, ◌≡◌, refl, sym, inl, inr, ◌⊎◌, Option, none, some, Bool, true, false, Bool-cases,
  string_eq,
}
use network_enforcer.Common.Int.{ℤ, pos}
use network_enforcer.Common.Result.{Result, failed, ok}
use network_enforcer.Api.Kube.{protocol_tcp, protocol_udp}
use network_enforcer.Api.Types.{WorkloadRef, Observation, LearningEvent}
use network_enforcer.Scraper.Flow.{
  FlowError, unsupported_protocol, endpoint_has_no_workload, skip_workload, port_out_of_range,
  other_error, ProcessFlowResult, process_flow_skip, process_flow_enqueue,
  process_flow_record_violation, process_flow_error, subject_of, port_to_int32,
}
use network_enforcer.Scraper.Flow.Laws.{IsPort, port_to_int32_sound}
use network_enforcer.Scraper.Hubble.{
  Flow, Verdict, verdict_dropped, other_verdict, discard_flow, cilium_workload_ref,
  cilium_violation_endpoints, is_policy_drop, direction_of, should_skip_workload, skip_of,
  other_direction, extract_port_and_protocol, port_of_layer, with_port, Layer4, tcp, udp,
  other_protocol, TrafficDirection, traffic_direction_unknown, traffic_direction_ingress,
  traffic_direction_egress,
}
use network_enforcer.Scraper.Cilium.{
  parse_drop, learn, parse_ends, with_destination, with_source, with_port_of,
  parse_cilium_flow_response,
}

-- a supported workload, or a pod that is still to be resolved
abbrev IsWorkload : WorkloadRef → Type 0
IsWorkload ref = should_skip_workload ref ≡ false

abbrev IsTransport : ℤ × String → Type 0
IsTransport (port, proto) = IsPort 0 port × ((proto ≡ protocol_tcp) ⊎ (proto ≡ protocol_udp))

-- what is learned from a flow: one that is not dropped, not a reply, between two workloads
unfoldable pub Learned : Flow → LearningEvent → Type 0
Learned flow event =
    (source : WorkloadRef) × (dest : WorkloadRef) × (event.source ≡ some source)
    × (event.dest ≡ some dest)
    × IsWorkload source
    × IsWorkload dest
    × (IsPort 0 event.dst_port
        × ((event.protocol ≡ protocol_tcp) ⊎ (event.protocol ≡ protocol_udp)))
    × (flow.verdict ≡ other_verdict)
    × (discard_flow flow ≡ false)

-- what is recorded from a flow: one dropped by a policy, with its direction and a workload as its
-- subject, unless the direction is outside of the enumeration
unfoldable pub Recorded : Flow → Observation → Type 0
Recorded flow observation =
    (direction_of flow.traffic_direction ≡ ok observation.direction)
    × ((flow.traffic_direction ≡ other_direction) ⊎ IsWorkload (subject_of observation))
    × (IsPort 0 observation.info.dst_port
        × ((observation.info.protocol ≡ protocol_tcp) ⊎ (observation.info.protocol ≡ protocol_udp)))
    × (flow.verdict ≡ verdict_dropped)
    × (is_policy_drop flow.drop_reason ≡ true)
    × (discard_flow flow ≡ false)

unfoldable pub Sound : Flow → ProcessFlowResult → Type 0
Sound flow process_flow_skip = Unit
Sound flow (process_flow_error err) = Unit
Sound flow (process_flow_enqueue event) = Learned flow event
Sound flow (process_flow_record_violation observation) = Recorded flow observation

-- a parse that does not dereference nil
abbrev SoundResult : Flow → Option ProcessFlowResult → Type 0
SoundResult flow parsed = (result : ProcessFlowResult) × (parsed ≡ some result) × Sound flow result

-- an end that is skipped exactly where it is no workload
abbrev IsEnd : Option WorkloadRef × Bool → Type 0
IsEnd (none, skip) = skip ≡ true
IsEnd (some ref, skip) = skip ≡ should_skip_workload ref

skip_of-IsEnd :
    (ref : Result FlowError WorkloadRef) (end : Option WorkloadRef × Bool)
    → skip_of ref ≡ ok end
    → IsEnd end
skip_of-IsEnd (ok ref) (none, skip) h = cc
skip_of-IsEnd (ok ref) (some r, skip) h = cc
skip_of-IsEnd (failed endpoint_has_no_workload) (none, skip) h = cc
skip_of-IsEnd (failed endpoint_has_no_workload) (some r, skip) h = cc
skip_of-IsEnd (failed unsupported_protocol) end h = cc
skip_of-IsEnd (failed skip_workload) end h = cc
skip_of-IsEnd (failed port_out_of_range) end h = cc
skip_of-IsEnd (failed other_error) end h = cc

with_port-IsTransport :
    (proto : String) (port : ℤ) (result : ℤ × String)
    → (proto ≡ protocol_tcp) ⊎ (proto ≡ protocol_udp)
    → with_port proto (port_to_int32 port) ≡ ok result
    → IsTransport result
with_port-IsTransport proto port (p, q) k h = with_port_from (port_to_int32 port) refl h
  where
    with_port_from :
        (r : Result FlowError ℤ)
        → port_to_int32 port ≡ r
        → with_port proto r ≡ ok (p, q)
        → IsTransport (p, q)
    with_port_from (failed err) e h = cc
    with_port_from (ok n) e h =
        let port_same : n ≡ p = cc in
        let proto_same : proto ≡ q = cc in
        (rw (sym port_same) (port_to_int32_sound port n e).1, rw (sym proto_same) k)

port_of_layer-IsTransport :
    (layer : Option Layer4) (result : ℤ × String)
    → port_of_layer layer ≡ ok result
    → IsTransport result
port_of_layer-IsTransport none result h = cc
port_of_layer-IsTransport (some (tcp port)) result h =
    with_port-IsTransport protocol_tcp (pos port) result (inl refl) h
port_of_layer-IsTransport (some (udp port)) result h =
    with_port-IsTransport protocol_udp (pos port) result (inr refl) h
port_of_layer-IsTransport (some other_protocol) result h = cc

learn_sound :
    (now : ℕ) (flow : Flow) (port : ℤ × String) (source dest : Option WorkloadRef × Bool)
    → IsTransport port
    → IsEnd source
    → IsEnd dest
    → flow.verdict ≡ other_verdict
    → discard_flow flow ≡ false
    → SoundResult flow (learn now port source dest)
unfolding Sound Learned
learn_sound now flow (p, proto) (none, skip) dest t s d v r = rw s (process_flow_skip, refl, tt)
learn_sound now flow (p, proto) (some ref, true) dest t s d v r = (process_flow_skip, refl, tt)
learn_sound now flow (p, proto) (some ref, false) (none, skip) t s d v r =
    rw d (process_flow_skip, refl, tt)
learn_sound now flow (p, proto) (some ref, false) (some to, true) t s d v r =
    (process_flow_skip, refl, tt)
learn_sound now flow (p, proto) (some ref, false) (some to, false) t s d v r =
    (_, refl, (ref, to, refl, refl, sym s, sym d, t, v, r))

module _ (now : ℕ) (flow : Flow) (port : ℤ × String) (t : IsTransport port) where
  -- the branches of a dropped flow, by its direction
  drop_sound :
      (direction : TrafficDirection) (source dest : Option WorkloadRef × Bool)
      → flow.traffic_direction ≡ direction
      → IsEnd source
      → IsEnd dest
      → flow.verdict ≡ verdict_dropped
      → is_policy_drop flow.drop_reason ≡ true
      → discard_flow flow ≡ false
      → SoundResult flow (parse_drop now flow port source dest (direction_of direction))
  unfolding Sound Recorded cilium_violation_endpoints
  drop_sound traffic_direction_unknown source dest e s d v p r = (_, refl, tt)
  drop_sound traffic_direction_ingress source (none, skip) e s d v p r =
      rw d (process_flow_skip, refl, tt)
  drop_sound traffic_direction_ingress source (some ref, true) e s d v p r =
      (process_flow_skip, refl, tt)
  drop_sound traffic_direction_ingress (none, skip) (some ref, false) e s d v p r =
      (_, refl, (rw e refl, inr (sym d), t, v, p, r))
  drop_sound traffic_direction_ingress (some from, skip) (some ref, false) e s d v p r =
      (_, refl, (rw e refl, inr (sym d), t, v, p, r))
  drop_sound traffic_direction_egress (none, skip) dest e s d v p r =
      rw s (process_flow_skip, refl, tt)
  drop_sound traffic_direction_egress (some ref, true) dest e s d v p r =
      (process_flow_skip, refl, tt)
  drop_sound traffic_direction_egress (some ref, false) (none, skip) e s d v p r =
      (_, refl, (rw e refl, inr (sym s), t, v, p, r))
  drop_sound traffic_direction_egress (some ref, false) (some to, skip) e s d v p r =
      (_, refl, (rw e refl, inr (sym s), t, v, p, r))
  drop_sound other_direction source (none, skip) e s d v p r = rw d (process_flow_skip, refl, tt)
  drop_sound other_direction source (some ref, true) e s d v p r = (process_flow_skip, refl, tt)
  drop_sound other_direction (none, skip) (some ref, false) e s d v p r =
      (_, refl, (rw e refl, inl e, t, v, p, r))
  drop_sound other_direction (some from, skip) (some ref, false) e s d v p r =
      (_, refl, (rw e refl, inl e, t, v, p, r))

  parse_ends_sound :
      (verdict : Verdict) (source dest : Option WorkloadRef × Bool)
      → flow.verdict ≡ verdict
      → IsEnd source
      → IsEnd dest
      → discard_flow flow ≡ false
      → SoundResult flow (parse_ends now flow port source dest verdict)
  unfolding Sound
  parse_ends_sound other_verdict source dest v s d r =
      learn_sound now flow port source dest t s d v r
  parse_ends_sound verdict_dropped source dest v s d r =
      elim (Bool-cases (is_policy_drop flow.drop_reason)) [
        | inl p ↦ rw p (drop_sound flow.traffic_direction source dest refl s d v p r)
        | inr p ↦ rw p (process_flow_skip, refl, tt)
      ]

  with_destination_sound :
      (source : Option WorkloadRef × Bool) (dest : Result FlowError (Option WorkloadRef × Bool))
      → cilium_workload_ref flow.destination ≡ dest
      → IsEnd source
      → discard_flow flow ≡ false
      → SoundResult flow (with_destination now flow port source dest)
  unfolding Sound cilium_workload_ref
  with_destination_sound source (failed err) e s r = (_, refl, tt)
  with_destination_sound source (ok dest) e s r =
      parse_ends_sound flow.verdict source dest refl s (skip_of-IsEnd _ dest e) r

  with_source_sound :
      (source : Result FlowError (Option WorkloadRef × Bool))
      → cilium_workload_ref flow.source ≡ source
      → discard_flow flow ≡ false
      → SoundResult flow (with_source now flow port source)
  unfolding Sound cilium_workload_ref
  with_source_sound (failed err) e r = (_, refl, tt)
  with_source_sound (ok source) e r =
      with_destination_sound source _ refl (skip_of-IsEnd _ source e) r

with_port_of_sound :
    (now : ℕ) (flow : Flow) (port : Result FlowError (ℤ × String))
    → port_of_layer flow.l4 ≡ port
    → discard_flow flow ≡ false
    → SoundResult flow (with_port_of now flow port)
unfolding Sound
with_port_of_sound now flow (failed unsupported_protocol) e r = (_, refl, tt)
with_port_of_sound now flow (failed endpoint_has_no_workload) e r = (_, refl, tt)
with_port_of_sound now flow (failed skip_workload) e r = (_, refl, tt)
with_port_of_sound now flow (failed port_out_of_range) e r = (_, refl, tt)
with_port_of_sound now flow (failed other_error) e r = (_, refl, tt)
with_port_of_sound now flow (ok port) e r =
    with_source_sound now flow port (port_of_layer-IsTransport flow.l4 port e) _ refl r

-- The parser dereferences nil on no Hubble flow. What it learns is a flow that is not dropped, not a
-- reply, between two supported workloads or pods; what it records is a flow dropped by a policy, in the
-- direction of the flow, whose subject is a supported workload or a pod unless the direction is
-- outside of the enumeration. Each has a TCP or UDP port from 0 to 65535.
pub parse_cilium_flow_response-Sound :
    (now : ℕ) (flow : Flow)
    → (result : ProcessFlowResult) × (parse_cilium_flow_response now flow ≡ some result)
      × Sound flow result
unfolding parse_cilium_flow_response extract_port_and_protocol Sound
parse_cilium_flow_response-Sound now flow = elim (Bool-cases (discard_flow flow)) [
  | inl r ↦ rw r (process_flow_skip, refl, tt)
  | inr r ↦ rw r (with_port_of_sound now flow (port_of_layer flow.l4) refl r)
]
