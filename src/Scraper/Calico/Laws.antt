-- ===== src/Scraper/Calico/Laws.antt =====
-- internal/scraper/calico_flow_parser.go: what may be learned or recorded from a Goldmane flow.
use mathlib.Core.Path.{subst}
use network_enforcer.Common.{
  ℕ, String, ◌≡◌, refl, sym, inl, inr, ◌⊎◌, some, true, false, arith, Bool-cases, ◌==◌, string_eq,
}
use network_enforcer.Common.Int.{ℤ, pos, negsuc}
use network_enforcer.Common.Result.{failed, ok}
use network_enforcer.Common.Text.{to_upper}
use network_enforcer.Api.Kube.{protocol_tcp, protocol_udp, policy_type_ingress, policy_type_egress}
use network_enforcer.Api.Types.{Observation, LearningEvent}
use network_enforcer.Scraper.Flow.{
  unsupported_protocol, ProcessFlowResult, process_flow_skip, process_flow_enqueue,
  process_flow_record_violation, process_flow_error, port_to_int32, outside, min_valid_port,
  max_valid_port,
}
use network_enforcer.Scraper.Flow.Laws.{IsPort}
use network_enforcer.Scraper.Goldmane.{
  FlowKey, GoldmaneFlow, Action, action_allow, action_deny, other_action, Reporter, reporter_src,
  reporter_dst, other_reporter, is_workload, is_violation_peer, source_of, dest_of,
  discard_calico_flow, discard_action, discard_deny, is_dst,
}
use network_enforcer.Scraper.Calico.{
  extract_calico_port_and_protocol, parse_deny, parse_action, parse_key, parse_calico_flow,
  get_denying_policy,
}

abbrev IsTransport : String → Type 0
IsTransport proto = (proto ≡ protocol_tcp) ⊎ (proto ≡ protocol_udp)

-- an allowed flow between two workloads, reported by its destination
unfoldable pub Learned : FlowKey → LearningEvent → Type 0
Learned key event =
    (key.action ≡ action_allow)
    × (key.reporter ≡ reporter_dst)
    × (is_workload (source_of key) ≡ true)
    × (is_workload (dest_of key) ≡ true)
    × (event.dst_port ≡ key.dest_port)
    × IsPort 1 event.dst_port
    × IsTransport event.protocol

-- the reporter's side is a workload and gives the direction, the other may be recorded
unfoldable pub DirectionOf : FlowKey → String → Type 0
DirectionOf key direction =
    ((key.reporter ≡ reporter_src)
      × (direction ≡ policy_type_egress)
      × (is_workload (source_of key) ≡ true)
      × (is_violation_peer (dest_of key) ≡ true))
    ⊎ ((key.reporter ≡ reporter_dst)
        × (direction ≡ policy_type_ingress)
        × (is_workload (dest_of key) ≡ true)
        × (is_violation_peer (source_of key) ≡ true))

unfoldable pub Recorded : FlowKey → Observation → Type 0
Recorded key observation =
    (key.action ≡ action_deny)
    × DirectionOf key observation.direction
    × (observation.info.dst_port ≡ key.dest_port)
    × IsPort 1 observation.info.dst_port
    × IsTransport observation.info.protocol
    × (get_denying_policy key
        ≡ (observation.info.denying_policy_name, observation.info.denying_policy_namespace))

-- a flow that is there is never an error
unfoldable pub Sound : FlowKey → ProcessFlowResult → Type 0
Sound key process_flow_skip = Unit
Sound key (process_flow_error err) = ⊥
Sound key (process_flow_enqueue event) = Learned key event
Sound key (process_flow_record_violation observation) = Recorded key observation

IsPort-in_range :
    (port : ℤ)
    → outside min_valid_port max_valid_port port ≡ false
    → IsPort 1 port × (port_to_int32 port ≡ ok port)
unfolding IsPort port_to_int32
IsPort-in_range (pos n) h = ground arith
IsPort-in_range (negsuc n) h = ground arith

extract_lem :
    (key : FlowKey)
    → port_to_int32 key.dest_port ≡ ok key.dest_port
    → (extract_calico_port_and_protocol key ≡ failed unsupported_protocol)
      ⊎ ((proto : String) × (extract_calico_port_and_protocol key ≡ ok (key.dest_port, proto))
          × IsTransport proto)
unfolding extract_calico_port_and_protocol
extract_lem key e = rw e (elim (Bool-cases (to_upper key.proto == protocol_tcp)) [
  | inl t ↦ rw t (inr (protocol_tcp, refl, inl refl))
  | inr t ↦ rw t (elim (Bool-cases (to_upper key.proto == protocol_udp)) [
    | inl u ↦ rw u (inr (protocol_udp, refl, inr refl))
    | inr u ↦ rw u (inl refl)
  ])
])

module _ (now : ℕ) (unix : ℕ → ℕ) (flow : GoldmaneFlow) (key : FlowKey) where
  parse_deny-Sound :
      (proto : String) (reporter : Reporter)
      → key.action ≡ action_deny
      → key.reporter ≡ reporter
      → discard_deny key reporter ≡ false
      → IsPort 1 key.dest_port
      → IsTransport proto
      → Sound key (parse_deny now unix flow key (key.dest_port, proto) reporter)
  unfolding Sound Recorded DirectionOf
  parse_deny-Sound proto reporter_src a r d p t =
      (a, inl (r, refl, ground arith, ground arith), refl, p, t, refl)
  parse_deny-Sound proto reporter_dst a r d p t =
      (a, inr (r, refl, ground arith, ground arith), refl, p, t, refl)
  parse_deny-Sound proto other_reporter a r d p t = absurd (cc d)

  is_dst-true : (reporter : Reporter) → is_dst reporter ≡ true → reporter ≡ reporter_dst
  is_dst-true reporter_dst h = refl
  is_dst-true reporter_src h = cc
  is_dst-true other_reporter h = cc

  parse_action-Sound :
      (proto : String) (action : Action)
      → key.action ≡ action
      → discard_action key action ≡ false
      → IsPort 1 key.dest_port
      → IsTransport proto
      → Sound key (parse_action now unix flow key (key.dest_port, proto) action)
  unfolding Sound Learned
  parse_action-Sound proto action_allow a d p t =
      let dst : is_dst key.reporter ≡ true = ground arith in
      (a, is_dst-true key.reporter dst, ground arith, ground arith, refl, p, t)
  parse_action-Sound proto action_deny a d p t = parse_deny-Sound proto key.reporter a refl d p t
  parse_action-Sound proto other_action a d p t = absurd (cc d)

  parse_key-Sound : Sound key (parse_key now unix flow (some key))
  unfolding Sound discard_calico_flow
  parse_key-Sound = elim (Bool-cases (outside min_valid_port max_valid_port key.dest_port)) [
    | inl o ↦ rw o tt
    | inr o ↦ rw o (elim (Bool-cases (discard_action key key.action)) [
      | inl d ↦ rw d tt
      | inr d ↦
          let (p, e) = IsPort-in_range key.dest_port o in
          rw d (elim (extract_lem key e) [
            | inl f ↦ rw f tt
            | inr (proto, f, t) ↦ rw f (parse_action-Sound proto key.action refl d p t)
          ])
    ])
  ]

-- A Goldmane flow that is there never is an error. What is learned from it is an allowed flow
-- between two workloads that its destination reported; what is recorded is a denied flow, in the
-- direction that its reporter gives, whose subject is a workload and whose peer is a workload or an
-- address, with the denying policy of its trace. Each has a TCP or UDP port from 1 to 65535, that
-- of the flow.
pub parse_calico_flow-Sound :
    (now : ℕ) (unix : ℕ → ℕ) (flow : GoldmaneFlow) (key : FlowKey)
    → flow.key ≡ some key
    → Sound key (parse_calico_flow now unix (some (some flow)))
unfolding parse_calico_flow
parse_calico_flow-Sound now unix flow key e =
    subst (λ k. Sound key (parse_key now unix flow k)) (sym e) (parse_key-Sound now unix flow key)
