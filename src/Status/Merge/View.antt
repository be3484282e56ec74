-- ===== src/Status/Merge/View.antt =====
-- What the merge does to the record of each key, without the slice and the index.
use mathlib.Core.Option
use network_enforcer.Common.{
  ℕ, suc, ◌+◌, ◌%◌, ◌^◌, ltb, ◌≤◌, ◌≡◌, ◌≢◌, refl, sym, ap, ap₂, ◌∙◌, List, [], ◌∷◌, Option, none,
  some, Bool, true, false, arith, ◌==◌, eq-true, eq-false, if◌then◌else◌, length, take, All,
  take-all,
}
use network_enforcer.Common.Map.{lookup, insert, lookup-insert}
use network_enforcer.Api.Types.{ViolationRecord, PolicyStatus}
use network_enforcer.Status.Key.{ViolationRecordKey, record_key, key_eq}
use network_enforcer.Status.Table.{
  find, position, Distinct, position-none, position-some, All-of_find-none, find-append,
  position-append, find-modify, position-modify, Distinct-modify, Distinct-append, Distinct-take,
  Distinct-sort_newest, find-sort_newest, find-take,
}
use network_enforcer.Status.Sorting.{sort_newest, cut_at-take, length-sort_newest}
use network_enforcer.Status.Merge.{
  Index, next_count, build_index, refresh, MergeState, merge_found, merge_one, merge_all, timestamp,
  start_merge, merge_scraped_violations, max_violation_records,
}

abbrev pub at_time : ViolationRecord → ℕ → ViolationRecord
at_time r t = record r { info = record (r.info) { timestamp = t } }

-- The record of one key after an observation: the old one with the later of the two times, or a new one
-- under the count.
unfoldable pub see : ℕ → ViolationRecord → Option ViolationRecord → ViolationRecord
see count v (some old) =
    at_time old (if ltb (timestamp old) (timestamp v) then timestamp v else timestamp old)
see count v none = record v { id = count }

-- The specification: the record of key `k` after the observations, one by one; the count is of 64 bits.
unfoldable pub observe :
    ViolationRecordKey → ℕ → Option ViolationRecord → List ViolationRecord → Option ViolationRecord
unfolding see
observe k count o [] = o
observe k count o (v ∷ vs) =
    observe k ((count + 1) % 2 ^ 64) (if record_key v == k then some (see count v o) else o) vs

-- A refresh moves the time alone, forwards.
refresh_lem :
    (v old : ViolationRecord)
    → refresh v old
      ≡ at_time old (if ltb (timestamp old) (timestamp v) then timestamp v else timestamp old)
unfolding refresh
refresh_lem v old = ground arith

abbrev Indexed : MergeState → Type 0
Indexed s = (k : ViolationRecordKey) → lookup k s.index_by_key ≡ position record_key k s.violations

position-none_of_All :
    (k : ViolationRecordKey) (rs : List ViolationRecord)
    → All (λ y. record_key y ≢ k) rs
    → position record_key k rs ≡ none
unfolding position
position-none_of_All k [] h = refl
position-none_of_All k (r ∷ rs) h =
    rw (eq-false (record_key r) k h.0, position-none_of_All k rs h.1)

abbrev shifted : ℕ → Option ℕ → Option ℕ → Option ℕ
shifted i none o = o
shifted i (some p) o = some (i + p)

shifted-suc :
    (i : ℕ) (b : Bool) (q o : Option ℕ)
    → (b ≡ true → q ≡ none)
    → shifted (i + 1) q (if b then some i else o)
      ≡ shifted i (if b then some 0 else Option.map suc q) o
shifted-suc i true none o h = ap some (omega arith)
shifted-suc i true (some p) o h = cc (h refl)
shifted-suc i false none o h = refl
shifted-suc i false (some p) o h = ap some (omega arith)

All-ne :
    {j k : ViolationRecordKey}
    → j ≡ k
    → (rs : List ViolationRecord) → All (λ y. record_key y ≢ j) rs
    → All (λ y. record_key y ≢ k) rs
All-ne p rs h = rw p at h

lookup-build_index :
    (k : ViolationRecordKey) (i : ℕ) (rs : List ViolationRecord) (m : Index)
    → Distinct record_key rs
    → lookup k (build_index i rs m) ≡ shifted i (position record_key k rs) (lookup k m)
unfolding build_index position
lookup-build_index k i [] m h = refl
lookup-build_index k i (r ∷ rs) m h =
    lookup-build_index k (i + 1) rs (insert (record_key r) i m) h.1
    ∙ ap (shifted (i + 1) (position record_key k rs)) (lookup-insert (record_key r) k i m)
    ∙ shifted-suc i (record_key r == k) (position record_key k rs) (lookup k m)
        (λ b. position-none_of_All k rs (All-ne (eq-true (record_key r) k b) rs h.0))

shifted-zero : (q : Option ℕ) → shifted 0 q none ≡ q
shifted-zero none = refl
shifted-zero (some p) = ap some (omega arith)

lookup-empty : (k : ViolationRecordKey) → lookup {V = ℕ} k [] ≡ none
unfolding lookup
lookup-empty k = refl

start_merge-Indexed :
    (s : PolicyStatus) → Distinct record_key s.violations → Indexed (start_merge s)
start_merge-Indexed s h k =
    lookup-build_index k 0 s.violations [] h
    ∙ ap (shifted 0 (position record_key k s.violations)) (lookup-empty k)
    ∙ shifted-zero _

record_key-refresh : (v old : ViolationRecord) → record_key (refresh v old) ≡ record_key old
unfolding record_key refresh
record_key-refresh v old = ground arith

record_key-id : (v : ViolationRecord) (n : ℕ) → record_key (record v { id = n }) ≡ record_key v
unfolding record_key
record_key-id v n = refl

new-entry :
    (b : Bool) (q : Option ℕ) (n : ℕ)
    → (b ≡ true → q ≡ none)
    → (if b then some n else q) ≡ (elim q [ some i ↦ some i | none ↦ if b then some n else none ])
new-entry b none n h = ground arith
new-entry true (some p) n h = cc (h refl)
new-entry false (some p) n h = refl

new-record :
    (b : Bool) (o : Option ViolationRecord) (count : ℕ) (v : ViolationRecord)
    → (b ≡ true → o ≡ none)
    → (elim o [ some x ↦ some x | none ↦ if b then some (record v { id = count }) else none ])
      ≡ (if b then some (see count v o) else o)
unfolding see
new-record b none count v h = ground arith
new-record true (some p) count v h = cc (h refl)
new-record false (some p) count v h = refl

old-record :
    (b : Bool) (o : Option ViolationRecord) (count : ℕ) (v : ViolationRecord)
    → (b ≡ true → (x : ViolationRecord) × (o ≡ some x))
    → (if b then Option.map (refresh v) o else o) ≡ (if b then some (see count v o) else o)
unfolding see
old-record true none count v h = cc (h refl).1
old-record false none count v h = refl
old-record true (some p) count v h = ap some (refresh_lem v p)
old-record false (some p) count v h = refl

module _ (s : MergeState) (v : ViolationRecord) (h : Indexed s) where
  same_position :
      {j k : ViolationRecordKey} {o : Option ℕ}
      → j ≡ k
      → position record_key j s.violations ≡ o
      → position record_key k s.violations ≡ o
  same_position p e = rw p at e

  same_found :
      {k : ViolationRecordKey}
      → record_key v ≡ k
      → position record_key (record_key v) s.violations ≢ none
      → (x : ViolationRecord) × (find record_key k s.violations ≡ some x)
  same_found p e = position-some record_key _ s.violations (rw p at e)

  merge_one-found :
      (o : Option ℕ)
      → position record_key (record_key v) s.violations ≡ o
      → merge_one s v ≡ merge_found s v o
  unfolding merge_one
  merge_one-found o e = ap (merge_found s v) (h (record_key v) ∙ e)

  merge_found-Indexed :
      (o : Option ℕ)
      → position record_key (record_key v) s.violations ≡ o
      → Indexed (merge_found s v o)
  unfolding record_key
  merge_found-Indexed (some idx) e k =
      h k ∙ sym (position-modify record_key (refresh v) (record_key-refresh v) k s.violations idx)
  merge_found-Indexed none e k =
      lookup-insert (record_key v) k (length s.violations) s.index_by_key
      ∙ ap (λ q. if record_key v == k then some (length s.violations) else q) (h k)
      ∙ new-entry (record_key v == k) _ (length s.violations)
          (λ b. same_position (eq-true (record_key v) k b) e)
      ∙ sym (position-append record_key k s.violations (record v { id = s.violation_count }))

  find-merge_found :
      (o : Option ℕ) (k : ViolationRecordKey)
      → position record_key (record_key v) s.violations ≡ o
      → find record_key k (merge_found s v o).violations ≡ (
          if record_key v == k
          then some (see s.violation_count v (find record_key k s.violations))
          else find record_key k s.violations)
  unfolding see record_key
  find-merge_found (some idx) k e =
      find-modify record_key (refresh v) (record_key-refresh v) (record_key v) k s.violations idx e
      ∙ old-record (record_key v == k) _ s.violation_count v
          (λ b. same_found (eq-true (record_key v) k b) (λ n. cc (e, n)))
  find-merge_found none k e =
      find-append record_key k s.violations (record v { id = s.violation_count })
      ∙ new-record (record_key v == k) _ s.violation_count v (λ b.
        position-none record_key k s.violations (same_position (eq-true (record_key v) k b) e))

  pub merge_one-Indexed : Indexed (merge_one s v)
  merge_one-Indexed = rw (merge_one-found _ refl) (merge_found-Indexed _ refl)

  find-merge_one :
      (k : ViolationRecordKey)
      → find record_key k (merge_one s v).violations ≡ (
          if record_key v == k
          then some (see s.violation_count v (find record_key k s.violations))
          else find record_key k s.violations)
  find-merge_one k = rw (merge_one-found _ refl) (find-merge_found _ k refl)

violation_count-merge_one :
    (s : MergeState) (v : ViolationRecord)
    → (merge_one s v).violation_count ≡ next_count s.violation_count
unfolding merge_one
violation_count-merge_one s v = ground arith

-- The merge loop gives each key the record of the specification.
pub find-merge_all :
    (s : MergeState) (vs : List ViolationRecord) (k : ViolationRecordKey)
    → Indexed s
    → find record_key k (merge_all s vs).violations
      ≡ observe k s.violation_count (find record_key k s.violations) vs
unfolding merge_all observe
find-merge_all s [] k h = refl
find-merge_all s (v ∷ vs) k h =
    find-merge_all (merge_one s v) vs k (merge_one-Indexed s v h)
    ∙ ap₂ (λ c o. observe k c o vs) (violation_count-merge_one s v) (find-merge_one s v h k)

module _ (s : MergeState) (v : ViolationRecord) (h : Indexed s) where
  merge_found-Distinct :
      (o : Option ℕ)
      → position record_key (record_key v) s.violations ≡ o
      → Distinct record_key s.violations
      → Distinct record_key (merge_found s v o).violations
  unfolding record_key
  merge_found-Distinct (some idx) e d =
      Distinct-modify record_key (refresh v) (record_key-refresh v) s.violations idx d
  merge_found-Distinct none e d =
      Distinct-append record_key s.violations (record v { id = s.violation_count }) d
        (All-of_find-none record_key (record_key v) s.violations
          (position-none record_key (record_key v) s.violations e))

  merge_one-Distinct :
      Distinct record_key s.violations → Distinct record_key (merge_one s v).violations
  merge_one-Distinct d = rw (merge_one-found s v h _ refl) (merge_found-Distinct _ refl d)

pub merge_all-Distinct :
    (s : MergeState) (vs : List ViolationRecord)
    → Indexed s
    → Distinct record_key s.violations
    → Distinct record_key (merge_all s vs).violations
unfolding merge_all
merge_all-Distinct s [] h d = d
merge_all-Distinct s (v ∷ vs) h d =
    merge_all-Distinct (merge_one s v) vs (merge_one-Indexed s v h) (merge_one-Distinct s v h d)

module _ (s : PolicyStatus) (vs : List ViolationRecord) (d : Distinct record_key s.violations) where
  abbrev merged : List ViolationRecord
  merged = (merge_all (start_merge s) vs).violations

  merged-Distinct : Distinct record_key merged
  merged-Distinct = merge_all-Distinct (start_merge s) vs (start_merge-Indexed s d) d

  find-sorted :
      (k : ViolationRecordKey)
      → find record_key k (sort_newest timestamp merged)
        ≡ observe k s.violation_count (find record_key k s.violations) vs
  find-sorted k =
      find-sort_newest record_key timestamp k merged merged-Distinct
      ∙ find-merge_all (start_merge s) vs k (start_merge-Indexed s d)

  violations-merge :
      (merge_scraped_violations s vs).violations
      ≡ take max_violation_records (sort_newest timestamp merged)
  unfolding merge_scraped_violations
  violations-merge = cut_at-take max_violation_records (sort_newest timestamp merged)

  pub merge_scraped_violations-Distinct :
      Distinct record_key (merge_scraped_violations s vs).violations
  merge_scraped_violations-Distinct = rw violations-merge (
      Distinct-take record_key max_violation_records _
        (Distinct-sort_newest record_key timestamp merged merged-Distinct))

  -- From a status with one record for each key: every record of the merged status is the one that
  -- the specification gives for its key.
  pub observe_of_find-merge_scraped_violations :
      (k : ViolationRecordKey) (r : ViolationRecord)
      → find record_key k (merge_scraped_violations s vs).violations ≡ some r
      → observe k s.violation_count (find record_key k s.violations) vs ≡ some r
  observe_of_find-merge_scraped_violations k r e =
      sym (find-sorted k)
      ∙ find-take record_key k max_violation_records _ (rw violations-merge at e)

  -- From a status with one record for each key: while at most 100 keys are known, the merged status
  -- has for each key the record of the specification, or none where that has none.
  pub find-merge_scraped_violations :
      (k : ViolationRecordKey)
      → length (merge_all (start_merge s) vs).violations ≤ max_violation_records
      → find record_key k (merge_scraped_violations s vs).violations
        ≡ observe k s.violation_count (find record_key k s.violations) vs
  find-merge_scraped_violations k fits =
      let few = rw (sym (length-sort_newest timestamp merged)) at fits in
      rw (violations-merge, take-all max_violation_records (sort_newest timestamp merged) few)
        (find-sorted k)
