-- ===== src/Status/Merge/Observe.antt =====
-- What the specification of the merge says of one key: the identifier stays, the time never goes back.
use network_enforcer.Common.{
  ◌+◌, ◌%◌, ◌^◌, sym, ◌∙◌, ℕ, ◌≤◌, ◌≡◌, refl, List, [], ◌∷◌, some, arith, ◌==◌, ◌&&◌, if◌then◌else◌,
  Bool-cases, inl, inr, ltb,
}
use network_enforcer.Api.Types.{ViolationRecord, PolicyStatus}
use network_enforcer.Status.Key.{ViolationRecordKey, record_key, key_eq}
use network_enforcer.Status.Table.{find, Distinct}
use network_enforcer.Status.Merge.{timestamp, merge_scraped_violations}
use network_enforcer.Status.Merge.View.{
  observe, see, at_time, observe_of_find-merge_scraped_violations,
}

some_inj : {A : Type 0} {a b : A} → some a ≡ some b → a ≡ b
some_inj h = ground arith

-- the newest time of an observation of key `k`, or `t` if that is newer
unfoldable pub newest_of : ViolationRecordKey → ℕ → List ViolationRecord → ℕ
newest_of k t [] = t
newest_of k t (v ∷ vs) =
    newest_of k (if record_key v == k && ltb t (timestamp v) then timestamp v else t) vs

observe-some :
    (k : ViolationRecordKey) (count : ℕ) (old : ViolationRecord) (vs : List ViolationRecord)
    → observe k count (some old) vs ≡ some (at_time old (newest_of k (timestamp old) vs))
unfolding observe newest_of see
observe-some k count old [] = refl
observe-some k count old (v ∷ vs) = elim (Bool-cases (record_key v == k)) [
  | inl same ↦ rw same (
      observe-some k ((count + 1) % 2 ^ 64)
        (at_time old (if ltb (timestamp old) (timestamp v) then timestamp v else timestamp old)) vs)
  | inr other ↦ rw other (observe-some k ((count + 1) % 2 ^ 64) old vs)
]

pub newest_of-le :
    (k : ViolationRecordKey) (t : ℕ) (vs : List ViolationRecord) → t ≤ newest_of k t vs
unfolding newest_of
newest_of-le k t [] = omega arith
newest_of-le k t (v ∷ vs) = elim (Bool-cases (record_key v == k && ltb t (timestamp v))) [
  | inl newer ↦
      let step : t ≤ timestamp v = ground arith in
      let ih = newest_of-le k (timestamp v) vs in rw newer (omega arith)
  | inr kept ↦ rw kept (newest_of-le k t vs)
]

-- From a status with one record for each key: where the merged status has a record for a key that was
-- known, it is the known record, its identifier included, with only the time moved, to the newest of
-- the known time and those observed for the key.
pub find-merge_scraped_violations-known :
    (s : PolicyStatus) (vs : List ViolationRecord)
    → Distinct record_key s.violations
    → (k : ViolationRecordKey) (old r : ViolationRecord) → find record_key k s.violations ≡ some old
    → find record_key k (merge_scraped_violations s vs).violations ≡ some r
    → (r ≡ at_time old (newest_of k (timestamp old) vs)) × (timestamp old ≤ timestamp r)
find-merge_scraped_violations-known s vs d k old r e f =
    let seen = observe_of_find-merge_scraped_violations s vs d k r f in
    let known = observe-some k s.violation_count old vs in
    let same : at_time old (newest_of k (timestamp old) vs) ≡ r =
      some_inj (sym known ∙ (rw e at seen)) in
    rw (sym same) (refl, newest_of-le k (timestamp old) vs)
