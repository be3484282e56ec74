-- ===== src/Status/Merge/Ids.antt =====
-- The identifiers that the merge gives.
use network_enforcer.Common.{
  ℕ, ◌+◌, ◌<◌, ◌^◌, ◌≡◌, ◌≢◌, ◌∙◌, suc, List, [], ◌∷◌, Option, none, some, arith, All, All-append,
  All-take, nat_eq, length,
}
use network_enforcer.Common.Map.{lookup}
use network_enforcer.Api.Types.{ViolationRecord, PolicyStatus}
use network_enforcer.Status.Key.{record_key, key_eq}
use network_enforcer.Status.Table.{
  All-modify, Distinct, Distinct-modify, Distinct-append, Distinct-take, Distinct-sort_newest,
}
use network_enforcer.Status.Sorting.{sort_newest, cut_at-take, All-sort_newest}
use network_enforcer.Status.Merge.{
  next_count, refresh, MergeState, merge_found, merge_one, merge_all, timestamp, start_merge,
  merge_scraped_violations, max_violation_records,
}

abbrev pub id_of : ViolationRecord → ℕ
id_of r = r.id

-- Every identifier was given by the counter, and none twice.
pub record HasFreshIds (violations : List ViolationRecord) (count : ℕ) : Type 0 where
  pub below : All (λ r. r.id < count) violations
  pub distinct : Distinct id_of violations

id_of-refresh : (v old : ViolationRecord) → id_of (refresh v old) ≡ id_of old
unfolding refresh
id_of-refresh v old = ground arith

All-below_suc :
    (xs : List ViolationRecord) (c : ℕ) → All (λ r. r.id < c) xs → All (λ r. r.id < suc c) xs
All-below_suc [] c h = tt
All-below_suc (x ∷ xs) c h = (omega arith, All-below_suc xs c h.1)

All-ne_of_below :
    (xs : List ViolationRecord) (c : ℕ) → All (λ r. r.id < c) xs → All (λ r. r.id ≢ c) xs
All-ne_of_below [] c h = tt
All-ne_of_below (x ∷ xs) c h = (omega arith, All-ne_of_below xs c h.1)

next_count-suc : (c : ℕ) → suc c < 2 ^ 64 → next_count c ≡ suc c
next_count-suc c h = omega arith

module _ (s : MergeState) (v : ViolationRecord) (fits : suc s.violation_count < 2 ^ 64)
    (h : HasFreshIds s.violations s.violation_count) where
  merge_found-HasFreshIds :
      (o : Option ℕ)
      → HasFreshIds (merge_found s v o).violations (merge_found s v o).violation_count
  merge_found-HasFreshIds (some idx) = rw (next_count-suc _ fits) (record {
    below =
        All-modify id_of (refresh v) (id_of-refresh v) (λ r. r.id < suc s.violation_count)
          s.violations idx (λ r p. rw (id_of-refresh v r) p)
          (All-below_suc s.violations s.violation_count h.below);
    distinct = Distinct-modify id_of (refresh v) (id_of-refresh v) s.violations idx h.distinct;
  })
  merge_found-HasFreshIds none = rw (next_count-suc _ fits) (record {
    below =
        All-append (λ r. r.id < suc s.violation_count) s.violations _
          (All-below_suc s.violations s.violation_count h.below) (omega arith, tt);
    distinct =
        Distinct-append id_of s.violations _ h.distinct
          (All-ne_of_below s.violations s.violation_count h.below);
  })

  merge_one-HasFreshIds : HasFreshIds (merge_one s v).violations (merge_one s v).violation_count
  unfolding merge_one
  merge_one-HasFreshIds = merge_found-HasFreshIds (lookup (record_key v) s.index_by_key)

violation_count-merge_one :
    (s : MergeState) (v : ViolationRecord)
    → (merge_one s v).violation_count ≡ next_count s.violation_count
unfolding merge_one
violation_count-merge_one s v = ground arith

merge_all-HasFreshIds :
    (s : MergeState) (vs : List ViolationRecord)
    → s.violation_count + length vs < 2 ^ 64
    → HasFreshIds s.violations s.violation_count
    → HasFreshIds (merge_all s vs).violations (merge_all s vs).violation_count
      × ((merge_all s vs).violation_count ≡ s.violation_count + length vs)
unfolding merge_all
merge_all-HasFreshIds s [] fits h = (h, omega arith)
merge_all-HasFreshIds s (v ∷ vs) fits h =
    let c = violation_count-merge_one s v ∙ next_count-suc s.violation_count (omega arith) in
    let rest =
      merge_all-HasFreshIds (merge_one s v) vs (omega arith)
        (merge_one-HasFreshIds s v (omega arith) h) in
    (rest.0, omega arith)

-- From a status whose identifiers are below its counter and stand there once each, and as long as the
-- counter stays below 2 ^ 63: it grows by one for each scraped record, known or not, and every
-- identifier of the merged status is below it and stands there once.
pub merge_scraped_violations-HasFreshIds :
    (s : PolicyStatus) (vs : List ViolationRecord)
    → s.violation_count + length vs < 2 ^ 63
    → HasFreshIds s.violations s.violation_count
    → HasFreshIds
        (merge_scraped_violations s vs).violations
        (merge_scraped_violations s vs).violation_count
      × ((merge_scraped_violations s vs).violation_count ≡ s.violation_count + length vs)
unfolding merge_scraped_violations
merge_scraped_violations-HasFreshIds s vs fits h =
    let (fresh, counted) = merge_all-HasFreshIds (start_merge s) vs (omega arith) h in
    let count = (merge_all (start_merge s) vs).violation_count in
    let kept = sort_newest timestamp (merge_all (start_merge s) vs).violations in
    (
      rw (cut_at-take max_violation_records kept) (record {
        below =
            All-take (λ r. r.id < count) max_violation_records kept
              (All-sort_newest timestamp (λ r. r.id < count) _ fresh.below);
        distinct =
            Distinct-take id_of max_violation_records kept
              (Distinct-sort_newest id_of timestamp _ fresh.distinct);
      }),
      counted,
    )
