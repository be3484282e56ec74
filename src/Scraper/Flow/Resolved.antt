-- ===== src/Scraper/Flow/Resolved.antt =====
-- internal/scraper/flow_parser_helpers.go: what every resolved workload has, the ends of a result have.
use mathlib.Core.Path.{subst}
use network_enforcer.Common.{
  ◌≡◌, refl, sym, Option, none, some, true, inl, inr, Bool-cases, string_eq,
}
use network_enforcer.Common.Result.{Result, failed, ok}
use network_enforcer.Api.Types.{is_supported, WorkloadRef, Observation, LearningEvent}
use network_enforcer.Workload.{Client}
use network_enforcer.Scraper.Flow.{
  supported_or_skip, FlowError, port_out_of_range, ProcessFlowResult, process_flow_skip,
  process_flow_enqueue, process_flow_record_violation, process_flow_error, resolve_outcome,
  resolve_parsed_flow, subject_of, with_subject, with_source, resolve_event, with_dest,
  resolve_dest, skip_workload, unsupported_protocol, endpoint_has_no_workload, other_error,
}
use network_enforcer.Scraper.Flow.Laws.{with_subject_lem}

-- The ends of a learned event and the subject of a recorded violation have a property.
module _ (P : WorkloadRef → Type 0) where
  unfoldable pub Resolved : ProcessFlowResult → Type 0
  Resolved process_flow_skip = Unit
  Resolved (process_flow_error err) = Unit
  Resolved (process_flow_record_violation observation) = P (subject_of observation)
  Resolved (process_flow_enqueue event) =
      (source : WorkloadRef) × (dest : WorkloadRef) × (event.source ≡ some source)
      × (event.dest ≡ some dest)
      × P source
      × P dest

  Resolved-resolve_outcome : (err : FlowError) → Resolved (resolve_outcome err)
  unfolding Resolved resolve_outcome
  Resolved-resolve_outcome skip_workload = tt
  Resolved-resolve_outcome unsupported_protocol = tt
  Resolved-resolve_outcome endpoint_has_no_workload = tt
  Resolved-resolve_outcome port_out_of_range = tt
  Resolved-resolve_outcome other_error = tt

-- The event of a parsed result has both ends.
unfoldable pub HasEnds : ProcessFlowResult → Type 0
HasEnds process_flow_skip = Unit
HasEnds (process_flow_error err) = Unit
HasEnds (process_flow_record_violation observation) = Unit
HasEnds (process_flow_enqueue event) =
    (source : WorkloadRef) × (dest : WorkloadRef) × (event.source ≡ some source)
    × (event.dest ≡ some dest)

module _ (resolve_workload : WorkloadRef → Result FlowError WorkloadRef) (c : Client) where
  -- What every resolved workload has, the resolved ends have.
  module _ (P : WorkloadRef → Type 0)
      (good : (ref resolved : WorkloadRef) → resolve_workload ref ≡ ok resolved → P resolved) where
    with_dest_lem :
        (event : LearningEvent) (source : WorkloadRef) (dest : Result FlowError WorkloadRef)
        → event.source ≡ some source
        → P source
        → ((ref : WorkloadRef) → dest ≡ ok ref → P ref)
        → Resolved P (with_dest event dest)
    unfolding Resolved
    with_dest_lem event source (failed err) e p h = Resolved-resolve_outcome P err
    with_dest_lem event source (ok dest) e p h = (source, dest, e, refl, p, h dest refl)

    resolve_dest_lem :
        (event : LearningEvent) (source : WorkloadRef) (dest : Option WorkloadRef)
        (result : ProcessFlowResult)
        → event.source ≡ some source
        → P source
        → resolve_dest resolve_workload c event dest ≡ some result
        → Resolved P result
    resolve_dest_lem event source none result e p h = cc
    resolve_dest_lem event source (some dest) result e p h =
        let same : with_dest event (resolve_workload dest) ≡ result = cc in
        rw (sym same) (with_dest_lem event source (resolve_workload dest) e p (good dest))

    with_source_lem :
        (event : LearningEvent) (ref : WorkloadRef) (source : Result FlowError WorkloadRef)
        (result : ProcessFlowResult)
        → resolve_workload ref ≡ source
        → with_source resolve_workload c event source ≡ some result
        → Resolved P result
    with_source_lem event ref (failed err) result e h =
        let same : resolve_outcome err ≡ result = cc in
        rw (sym same) (Resolved-resolve_outcome P err)
    with_source_lem event ref (ok source) result e h =
        resolve_dest_lem (record event { source = some source }) source event.dest result refl
          (good ref source e) h

    with_subject_good :
        (observation : Observation) (ref : WorkloadRef) (subject : Result FlowError WorkloadRef)
        → resolve_workload ref ≡ subject
        → Resolved P (with_subject resolve_workload c observation subject)
    unfolding Resolved
    with_subject_good observation ref (failed err) e = Resolved-resolve_outcome P err
    with_subject_good observation ref (ok subject) e =
        let (result, same, _, s, _, _) = with_subject_lem resolve_workload c observation subject in
        subst (λ r. Resolved P r) (sym same) (rw s (good ref subject e))

    resolve_event_lem :
        (event : LearningEvent) (source : Option WorkloadRef) (result : ProcessFlowResult)
        → resolve_event resolve_workload c event source ≡ some result
        → Resolved P result
    resolve_event_lem event none result h = cc
    resolve_event_lem event (some source) result h =
        with_source_lem event source (resolve_workload source) result refl h

    pub resolve_parsed_flow-Resolved :
        (parsed result : ProcessFlowResult)
        → resolve_parsed_flow resolve_workload c parsed ≡ some result
        → Resolved P result
    unfolding resolve_parsed_flow Resolved
    resolve_parsed_flow-Resolved process_flow_skip result h =
        let same : process_flow_skip ≡ result = cc in rw (sym same) tt
    resolve_parsed_flow-Resolved (process_flow_error err) result h =
        let same : process_flow_error err ≡ result = cc in rw (sym same) tt
    resolve_parsed_flow-Resolved (process_flow_enqueue event) result h =
        resolve_event_lem event event.source result h
    resolve_parsed_flow-Resolved (process_flow_record_violation observation) result h =
        let same : with_subject resolve_workload c observation
              (resolve_workload (subject_of observation))
            ≡ result =
          cc in
        rw (sym same) (with_subject_good observation (subject_of observation) _ refl)

  with_source_total :
      (event : LearningEvent) (dest : WorkloadRef) (source : Result FlowError WorkloadRef)
      → event.dest ≡ some dest
      → (result : ProcessFlowResult) × (with_source resolve_workload c event source ≡ some result)
  with_source_total event dest (failed err) e = (_, refl)
  with_source_total event dest (ok source) e = rw e (_, refl)

  -- A parsed result with both ends is resolved with no nil dereference.
  pub resolve_parsed_flow_total :
      (parsed : ProcessFlowResult)
      → HasEnds parsed
      → (result : ProcessFlowResult) × (resolve_parsed_flow resolve_workload c parsed ≡ some result)
  unfolding resolve_parsed_flow HasEnds
  resolve_parsed_flow_total process_flow_skip h = (_, refl)
  resolve_parsed_flow_total (process_flow_error err) h = (_, refl)
  resolve_parsed_flow_total (process_flow_record_violation observation) h = (_, refl)
  resolve_parsed_flow_total (process_flow_enqueue event) (source, dest, e, f) =
      rw e (with_source_total event dest (resolve_workload source) f)

pub supported_or_skip_lem :
    (found : Option WorkloadRef) (resolved : WorkloadRef)
    → supported_or_skip found ≡ ok resolved
    → (found ≡ some resolved) × (is_supported resolved.owner_kind ≡ true)
supported_or_skip_lem none resolved h = cc
supported_or_skip_lem (some ref) resolved h = elim (Bool-cases (is_supported ref.owner_kind)) [
  | inl e ↦ let h' = rw e at h in let same : ref ≡ resolved = cc in rw (sym same) (refl, e)
  | inr e ↦ absurd (cc (rw e at h))
]

-- the resolution of a parsed result with both ends
pub process_parsed :
    (resolve_workload : WorkloadRef → Result FlowError WorkloadRef) (c : Client)
    (P : WorkloadRef → Type 0)
    → ((ref resolved : WorkloadRef) → resolve_workload ref ≡ ok resolved → P resolved)
    → (parsed : ProcessFlowResult) → HasEnds parsed
    → (result : ProcessFlowResult) × (resolve_parsed_flow resolve_workload c parsed ≡ some result)
      × Resolved P result
process_parsed resolve_workload c P good parsed h =
    let (result, e) = resolve_parsed_flow_total resolve_workload c parsed h in
    (result, e, resolve_parsed_flow-Resolved resolve_workload c P good parsed result e)
