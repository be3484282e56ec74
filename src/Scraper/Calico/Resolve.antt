-- ===== src/Scraper/Calico/Resolve.antt =====
-- internal/scraper/calico_flow_parser.go: every message is processed, and what is learned or recorded
-- names resolved workloads.
use Prim.Native.String.{◌++◌}
use network_enforcer.Common.{
  ℕ, String, List, [], ◌∷◌, ◌≡◌, refl, sym, inl, inr, Option, none, some, Bool-cases, ◌==◌,
  string_eq, true,
}
use network_enforcer.Common.Int.{ℤ}
use network_enforcer.Common.Result.{Result, failed, ok}
use network_enforcer.Common.Text.{cut_suffix}
use network_enforcer.Api.Types.{bare_ref, WorkloadRef, is_supported}
use network_enforcer.Workload.{Pod, Client}
use network_enforcer.Workload.Laws.{IsResolved, get-IsResolved}
use network_enforcer.Scraper.Flow.{
  FlowError, ProcessFlowResult, other_error, unsupported_protocol, endpoint_has_no_workload,
  skip_workload, port_out_of_range,
}
use network_enforcer.Scraper.Flow.Resolved.{
  supported_or_skip_lem, Resolved, HasEnds, process_parsed,
}
use network_enforcer.Scraper.Goldmane.{
  FlowKey, GoldmaneFlow, Action, action_allow, action_deny, other_action, Reporter, reporter_src,
  reporter_dst, other_reporter, discard_calico_flow,
}
use network_enforcer.Scraper.Calico.{
  is_generated, resolve_first, resolve_among, resolve_pod, resolve_owner, resolve,
  process_calico_flow, parse_calico_flow, parse_key, parse_with_port, parse_action, parse_deny,
  extract_calico_port_and_protocol,
}

module _ (c : Client) where
  resolve_first-IsResolved :
      (generate_name : String) (pods : List Pod) (ref : WorkloadRef)
      → resolve_first c generate_name pods ≡ some ref
      → is_supported ref.owner_kind ≡ true
      → IsResolved c ref
  unfolding resolve_first is_supported
  resolve_first-IsResolved generate_name [] ref h k =
      let same : bare_ref "" "" "" ≡ ref = cc in absurd (cc (rw (sym same) at k))
  resolve_first-IsResolved generate_name (pod ∷ pods) ref h k =
      elim (Bool-cases (is_generated c generate_name pod)) [
        | inl e ↦ get-IsResolved c pod.namespace pod.name ref (rw e at h) k
        | inr e ↦ resolve_first-IsResolved generate_name pods ref (rw e at h) k
      ]

  resolve_among-IsResolved :
      (generate_name : String) (pods : Option (List Pod)) (ref : WorkloadRef)
      → resolve_among c generate_name pods ≡ some ref
      → is_supported ref.owner_kind ≡ true
      → IsResolved c ref
  resolve_among-IsResolved generate_name none ref h k = cc
  resolve_among-IsResolved generate_name (some pods) ref h k =
      resolve_first-IsResolved generate_name pods ref h k

  resolve_owner-IsResolved :
      (ref : WorkloadRef) (owner : Option String) (resolved : WorkloadRef)
      → resolve_owner c ref owner ≡ ok resolved
      → IsResolved c resolved
  unfolding resolve_pod
  resolve_owner-IsResolved ref none resolved h = cc
  resolve_owner-IsResolved ref (some owner) resolved h = elim (Bool-cases (owner == "")) [
    | inl e ↦ absurd (cc (rw e at h))
    | inr e ↦
        let (f, k) = supported_or_skip_lem _ resolved (rw e at h) in
        resolve_among-IsResolved (owner ++ "-") _ resolved f k
  ]

  resolve-IsResolved :
      (ref resolved : WorkloadRef) → resolve c ref ≡ ok resolved → IsResolved c resolved
  unfolding resolve
  resolve-IsResolved ref resolved h =
      resolve_owner-IsResolved ref (cut_suffix ref.owner_name "-*") resolved h

module _ (now : ℕ) (unix : ℕ → ℕ) (flow : GoldmaneFlow) where
  parse_deny-HasEnds :
      (key : FlowKey) (port : ℤ × String) (reporter : Reporter)
      → HasEnds (parse_deny now unix flow key port reporter)
  unfolding HasEnds
  parse_deny-HasEnds key (port, proto) reporter_src = tt
  parse_deny-HasEnds key (port, proto) reporter_dst = tt
  parse_deny-HasEnds key (port, proto) other_reporter = tt

  parse_action-HasEnds :
      (key : FlowKey) (port : ℤ × String) (action : Action)
      → HasEnds (parse_action now unix flow key port action)
  unfolding HasEnds
  parse_action-HasEnds key (port, proto) action_allow = (_, _, refl, refl)
  parse_action-HasEnds key port action_deny = parse_deny-HasEnds key port key.reporter
  parse_action-HasEnds key (port, proto) other_action = (_, _, refl, refl)

  parse_with_port-HasEnds :
      (key : FlowKey) (port : Result FlowError (ℤ × String))
      → HasEnds (parse_with_port now unix flow key port)
  unfolding HasEnds
  parse_with_port-HasEnds key (failed unsupported_protocol) = tt
  parse_with_port-HasEnds key (failed endpoint_has_no_workload) = tt
  parse_with_port-HasEnds key (failed skip_workload) = tt
  parse_with_port-HasEnds key (failed port_out_of_range) = tt
  parse_with_port-HasEnds key (failed other_error) = tt
  parse_with_port-HasEnds key (ok port) = parse_action-HasEnds key port key.action

  parse_key-HasEnds : (key : Option FlowKey) → HasEnds (parse_key now unix flow key)
  unfolding HasEnds
  parse_key-HasEnds none = tt
  parse_key-HasEnds (some key) = elim (Bool-cases (discard_calico_flow (some key))) [
    | inl e ↦ rw e tt
    | inr e ↦ rw e (parse_with_port-HasEnds key (extract_calico_port_and_protocol key))
  ]

parse_calico_flow-HasEnds :
    (now : ℕ) (unix : ℕ → ℕ) (flow_result : Option (Option GoldmaneFlow))
    → HasEnds (parse_calico_flow now unix flow_result)
unfolding HasEnds parse_calico_flow
parse_calico_flow-HasEnds now unix none = tt
parse_calico_flow-HasEnds now unix (some none) = tt
parse_calico_flow-HasEnds now unix (some (some flow)) = parse_key-HasEnds now unix flow flow.key

-- Every message that Goldmane sends is processed with no nil dereference. Both ends of a learned
-- event and the subject of a recorded violation are then workloads of a supported kind, with the
-- non-empty selector that the API server holds for them.
pub process_calico_flow_sound :
    (c : Client) (now : ℕ) (unix : ℕ → ℕ) (flow_result : Option (Option GoldmaneFlow))
    → (result : ProcessFlowResult) × (process_calico_flow c now unix flow_result ≡ some result)
      × Resolved (IsResolved c) result
unfolding process_calico_flow
process_calico_flow_sound c now unix flow_result =
    process_parsed (resolve c) c (IsResolved c) (resolve-IsResolved c)
      (parse_calico_flow now unix flow_result) (parse_calico_flow-HasEnds now unix flow_result)
