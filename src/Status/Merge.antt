-- ===== src/Status/Merge.antt =====
-- mergeScrapedViolations: the scraped observations enter the status.
pub mod View
pub mod Observe
pub mod Ids
use network_enforcer.Common.{
  ℕ, zero, suc, ◌+◌, ◌%◌, ◌^◌, List, [], ◌∷◌, ◌++◌, Option, none, some, Bool, ltb, if◌then◌else◌,
  length,
}
use network_enforcer.Common.Map.{lookup, insert}
use network_enforcer.Api.Types.{ViolationInfo, ViolationRecord, PolicyStatus}
use network_enforcer.Status.Key.{ViolationRecordKey, record_key, key_eq}
use network_enforcer.Status.Table.{modify}
use network_enforcer.Status.Sorting.{sort_newest, cut_at}

abbrev pub max_violation_records : ℕ
max_violation_records = 100

abbrev pub Index : Type 0
Index = List (ViolationRecordKey × ℕ)

-- s.ViolationCount++
abbrev pub next_count : ℕ → ℕ
next_count c = (c + 1) % 2 ^ 64

-- the loop that fills indexByKey, from position `i` on
unfoldable pub build_index : ℕ → List ViolationRecord → Index → Index
build_index i [] index = index
build_index i (r ∷ rs) index = build_index (i + 1) rs (insert (record_key r) i index)

-- Refresh timestamp only if newer.
unfoldable pub refresh : ViolationRecord → ViolationRecord → ViolationRecord
refresh v old =
    if ltb old.info.timestamp v.info.timestamp
    then record old { info = record (old.info) { timestamp = v.info.timestamp } }
    else old

pub record MergeState : Type 0 where
  pub violations : List ViolationRecord
  pub violation_count : ℕ
  pub index_by_key : Index

-- what a round does with the answer of the map; an index in the map is a position of the slice
abbrev pub merge_found : MergeState → ViolationRecord → Option ℕ → MergeState
merge_found s v (some idx) = record s {
  violations = modify (refresh v) s.violations idx;
  violation_count = next_count s.violation_count;
}
merge_found s v none = record {
  violations = s.violations ++ record v { id = s.violation_count } ∷ [];
  violation_count = next_count s.violation_count;
  index_by_key = insert (record_key v) (length s.violations) s.index_by_key;
}

-- one round of the loop over the scraped records
unfoldable pub merge_one : MergeState → ViolationRecord → MergeState
merge_one s v = merge_found s v (lookup (record_key v) s.index_by_key)

unfoldable pub merge_all : MergeState → List ViolationRecord → MergeState
merge_all s [] = s
merge_all s (v ∷ vs) = merge_all (merge_one s v) vs

abbrev pub timestamp : ViolationRecord → ℕ
timestamp r = r.info.timestamp

abbrev pub start_merge : PolicyStatus → MergeState
start_merge s = record {
  violations = s.violations;
  violation_count = s.violation_count;
  index_by_key = build_index 0 s.violations [];
}

unfoldable pub merge_scraped_violations : PolicyStatus → List ViolationRecord → PolicyStatus
merge_scraped_violations s scraped =
    let merged = merge_all (start_merge s) scraped in
    record s {
      violations = cut_at max_violation_records (sort_newest timestamp merged.violations);
      violation_count = merged.violation_count;
    }
