-- ===== src/Tests/StatusTests.antt =====
-- The buffer and the status at concrete inputs.
use mathlib.Core.List.{Perm}
use network_enforcer.Common.{
  ℕ, ◌+◌, ◌≤◌, List, [], ◌∷◌, ◌++◌, map, some, true, false, ◌≡◌, ◌≢◌, ◌↔◌, refl, arith, All, length,
  nat_beq, nat_beq_iff,
}
use network_enforcer.Common.Int.{pos}
use network_enforcer.Ringbuf.{Op, add, take_all, new_with_size, size_or_default, run}
use network_enforcer.Ringbuf.Refine.{replies, run-new_with_size}
use network_enforcer.Api.Types.{ViolationRecord, AcknowledgedViolationRecord, WorkloadNetworkPolicy}
use network_enforcer.Api.PolicyHelpers.{equal_unordered}
use network_enforcer.Api.PolicyHelpers.Matching.{equal_unordered-perm}
use network_enforcer.Status.Key.{record_key, key_beq, key_eq}
use network_enforcer.Status.Table.{find, Distinct, modify}
use network_enforcer.Status.Merge.{
  merge_scraped_violations, merge_all, merge_one, build_index, refresh, timestamp,
}
use network_enforcer.Common.Map.{lookup, insert}
use network_enforcer.Common.Text.{cut_prefix}
use network_enforcer.Common.Text.Decimal.{parse_int, parse_nat, parse_digits}
use network_enforcer.Status.Merge.View.{
  observe, at_time, find-merge_scraped_violations, merge_scraped_violations-Distinct,
}
use network_enforcer.Status.Merge.Observe.{newest_of, find-merge_scraped_violations-known}
use network_enforcer.Status.Merge.Ids.{HasFreshIds, merge_scraped_violations-HasFreshIds}
use network_enforcer.Status.Clear.{istio_allows, kubernetes_allows}
use network_enforcer.Status.Sorting.{IsNewestFirst, sort_newest, insert_newest}
use network_enforcer.Status.Acknowledge.{
  acknowledge_violations_from_annotations, acknowledged_time, collect, acknowledge_each,
  acknowledged_id,
}
use network_enforcer.Status.Acknowledge.Laws.{
  acknowledge_violations_from_annotations-perm, acknowledge_violations_from_annotations-bounded,
}
use network_enforcer.Status.Recompute.{recompute_status}
use network_enforcer.Status.Recompute.Laws.{
  recompute_status-counts, recompute_status-istio, recompute_status-kubernetes,
}
use network_enforcer.Tests.Data.{
  violation_at, status_of, policy, istio_backend_spec, kubernetes_backend_spec, istio_spec,
  kubernetes_spec, format_selector,
}

abbrev calls : List (Op ℕ)
calls = add 3 ∷ add 4 ∷ add 5 ∷ take_all ∷ []

run-new_with_size_example :
    run (new_with_size 0 (pos 2)) calls ≡ some (replies (size_or_default (pos 2)) [] calls)
run-new_with_size_example = run-new_with_size 0 (pos 2) calls (omega arith)

equal_unordered-perm_example :
    (equal_unordered nat_beq (1 ∷ 2 ∷ []) (2 ∷ 1 ∷ []) ≡ true)
    ↔ Perm {A = ℕ} (map (λ x. x) (1 ∷ 2 ∷ [])) (map (λ x. x) (2 ∷ 1 ∷ []))
equal_unordered-perm_example =
    equal_unordered-perm nat_beq (λ x. x) nat_beq_iff (1 ∷ 2 ∷ []) (2 ∷ 1 ∷ [])

abbrev known : List ViolationRecord
known = violation_at 5 0 ∷ []

abbrev scraped : List ViolationRecord
scraped = violation_at 9 0 ∷ violation_at 8 0 ∷ []

merge_scraped_violations-Distinct_example :
    Distinct record_key (merge_scraped_violations (status_of known) scraped).violations
merge_scraped_violations-Distinct_example =
    merge_scraped_violations-Distinct (status_of known) scraped (tt, tt)

abbrev kept : ViolationRecord
kept = at_time (violation_at 5 0) (newest_of (record_key (violation_at 5 0)) 5 scraped)

is_known : find record_key (record_key (violation_at 5 0)) known ≡ some (violation_at 5 0)
unfolding record_key key_beq find
is_known = refl

is_kept :
    find record_key
      (record_key (violation_at 5 0))
      (merge_scraped_violations (status_of known) scraped).violations
    ≡ some kept
unfolding merge_scraped_violations merge_all merge_one build_index record_key key_beq lookup insert
    modify newest_of refresh find sort_newest insert_newest
is_kept = refl

find-merge_scraped_violations-known_example :
    (kept ≡ at_time (violation_at 5 0) (newest_of (record_key (violation_at 5 0)) 5 scraped))
    × (5 ≤ timestamp kept)
find-merge_scraped_violations-known_example =
    find-merge_scraped_violations-known (status_of known) scraped (tt, tt)
      (record_key (violation_at 5 0)) (violation_at 5 0) kept is_known is_kept

merge_scraped_violations-HasFreshIds_example :
    HasFreshIds
      (merge_scraped_violations (status_of known) scraped).violations
      (merge_scraped_violations (status_of known) scraped).violation_count
    × ((merge_scraped_violations (status_of known) scraped).violation_count ≡ 1 + length scraped)
merge_scraped_violations-HasFreshIds_example =
    merge_scraped_violations-HasFreshIds (status_of known) scraped (omega arith)
      (record { below = (omega arith, tt); distinct = (tt, tt) })

acknowledge_violations_from_annotations-perm_example :
    Perm
      ((acknowledge_violations_from_annotations (policy istio_backend_spec) 50).0.status.violations
        ++ map
            (λ a. a.violation)
            (acknowledge_violations_from_annotations (policy istio_backend_spec) 50).1)
      (policy istio_backend_spec).status.violations
acknowledge_violations_from_annotations-perm_example =
    acknowledge_violations_from_annotations-perm (policy istio_backend_spec) 50

recompute_status-istio_example :
    (result : WorkloadNetworkPolicy × List AcknowledgedViolationRecord) × (recompute_status
        format_selector
        (policy istio_backend_spec)
        scraped
        50
      ≡ some result)
    × All (λ v. istio_allows istio_spec v ≡ false) result.0.status.violations
recompute_status-istio_example =
    recompute_status-istio format_selector (policy istio_backend_spec) scraped 50 istio_spec refl
      refl

recompute_status-kubernetes_example :
    (result : WorkloadNetworkPolicy × List AcknowledgedViolationRecord) × (recompute_status
        format_selector
        (policy kubernetes_backend_spec)
        scraped
        50
      ≡ some result)
    × All
        (λ v. kubernetes_allows format_selector kubernetes_spec v ≡ false)
        result.0.status.violations
recompute_status-kubernetes_example =
    recompute_status-kubernetes format_selector (policy kubernetes_backend_spec) scraped 50
      kubernetes_spec refl refl

abbrev recomputed : WorkloadNetworkPolicy × List AcknowledgedViolationRecord
recomputed =
    (recompute_status-istio format_selector (policy istio_backend_spec) scraped 50 istio_spec refl
      refl).0

recompute_status-counts_example :
    (recomputed.0.status.active_violation_count ≡ length recomputed.0.status.violations)
    × (recomputed.0.status.active_violation_count ≤ 100)
    × (recomputed.0.status.observed_generation ≡ 2)
recompute_status-counts_example =
    recompute_status-counts format_selector (policy istio_backend_spec) scraped 50 recomputed
      (recompute_status-istio format_selector (policy istio_backend_spec) scraped 50 istio_spec refl
        refl).1

find-merge_scraped_violations_example :
    find record_key
      (record_key (violation_at 5 0))
      (merge_scraped_violations (status_of known) scraped).violations
    ≡ observe
        (record_key (violation_at 5 0))
        1
        (find record_key (record_key (violation_at 5 0)) known)
        scraped
unfolding merge_all merge_one build_index record_key key_beq lookup insert modify
find-merge_scraped_violations_example =
    find-merge_scraped_violations (status_of known) scraped (tt, tt) (record_key (violation_at 5 0))
      (omega arith)

is_nonempty : (acknowledge_violations_from_annotations (policy istio_backend_spec) 50).1 ≢ []
unfolding acknowledge_violations_from_annotations collect acknowledge_each acknowledged_id
    cut_prefix parse_int parse_nat parse_digits lookup insert
is_nonempty h = cc

acknowledge_violations_from_annotations-bounded_example :
    IsNewestFirst acknowledged_time
      (acknowledge_violations_from_annotations
        (policy istio_backend_spec)
        50).0.status.acknowledged_violations
    × (length
          (acknowledge_violations_from_annotations
            (policy istio_backend_spec)
            50).0.status.acknowledged_violations
        ≤ 100)
acknowledge_violations_from_annotations-bounded_example =
    acknowledge_violations_from_annotations-bounded (policy istio_backend_spec) 50 is_nonempty
