-- ===== src/Attribution/Conservation.antt =====
-- No observation is lost between the buffer and the policies.
use network_enforcer.Common.{
  ℕ, ◌+◌, List, [], ◌∷◌, ◌++◌, ◌≡◌, refl, sym, arith, All, All-append, ◌==◌, string_eq, Bool-cases,
  inl, inr, length, length-append,
}
use network_enforcer.Common.Map.{lookup, insert}
use network_enforcer.Api.Kube.{NamespacedName}
use network_enforcer.Api.Names.{name_eq, name_beq_iff}
use network_enforcer.Api.Types.{Observation, ViolationRecord}
use network_enforcer.Attribution.{Cluster, Attribution, attribute_violation}
use network_enforcer.Attribution.Snapshot.{PolicyMap, OwnedIndex, WnpTarget}
use network_enforcer.Attribution.Correlate.{
  ViolationMap, Correlation, materialise, records_of, correlate_one, correlate_from,
  nothing_correlated, correlate_violations_to_wnps,
}

-- how many records the groups hold
abbrev pub total : ViolationMap → ℕ
total [] = 0
total ((k, records) ∷ m) = length records + total m

total-insert :
    (k : NamespacedName) (rs : List ViolationRecord) (m : ViolationMap)
    → total (insert k rs m) + length (records_of (lookup k m)) ≡ total m + length rs
unfolding insert lookup
total-insert k rs [] = omega arith
total-insert k rs ((j, records) ∷ m) = elim (Bool-cases (j == k)) [
  | inl same ↦ rw same (omega arith)
  | inr other ↦ rw other (omega (arith, total-insert k rs m))
]

total-add :
    (k : NamespacedName) (v : ViolationRecord) (m : ViolationMap)
    → total (insert k (records_of (lookup k m) ++ v ∷ []) m) ≡ total m + 1
total-add k v m =
    let rs = records_of (lookup k m) in
    omega (arith, total-insert k (rs ++ v ∷ []) m, length-append rs (v ∷ []))

-- Every record of a group names the policy of the group.
abbrev Names : NamespacedName → ViolationRecord → Type 0
Names k v = (v.info.denying_policy_namespace ≡ k.namespace) × (v.info.denying_policy_name ≡ k.name)

abbrev pub IsNamed : ViolationMap → Type 0
IsNamed m = All (λ e. All (λ v. Names e.0 v) e.1) m

IsNamed-insert :
    (k : NamespacedName) (rs : List ViolationRecord) (m : ViolationMap)
    → All (λ v. Names k v) rs
    → IsNamed m
    → IsNamed (insert k rs m)
unfolding insert
IsNamed-insert k rs [] n h = (n, tt)
IsNamed-insert k rs ((j, records) ∷ m) n h = elim (Bool-cases (j == k)) [
  | inl same ↦ rw same (n, h.1)
  | inr other ↦ rw other (h.0, IsNamed-insert k rs m n h.1)
]

IsNamed-lookup :
    (k : NamespacedName) (m : ViolationMap)
    → IsNamed m
    → All (λ v. Names k v) (records_of (lookup k m))
unfolding lookup
IsNamed-lookup k [] h = tt
IsNamed-lookup k ((j, records) ∷ m) h = elim (Bool-cases (j == k)) [
  | inl same ↦ rw same (rw (sym ((name_beq_iff j k).0 same)) h.0)
  | inr other ↦ rw other (IsNamed-lookup k m h.1)
]

IsNamed-add :
    (k : NamespacedName) (v : ViolationRecord) (m : ViolationMap)
    → Names k v
    → IsNamed m
    → IsNamed (insert k (records_of (lookup k m) ++ v ∷ []) m)
IsNamed-add k v m n h =
    IsNamed-insert k _ m
      (All-append (λ u. Names k u) (records_of (lookup k m)) (v ∷ []) (IsNamed-lookup k m h)
        (n, tt))
      h

one-conserves :
    (c : Correlation) (obs : Observation) (a : Attribution)
    → total (correlate_one c obs a).result + length (correlate_one c obs a).unattributed_counts
      ≡ total c.result + length c.unattributed_counts + 1
one-conserves c obs a = elim (Bool-cases (a.reason == "")) [
  | inl found ↦ rw found (omega (arith, total-add a.wnp_key (materialise obs a.wnp_key) c.result))
  | inr lost ↦ rw lost (omega (arith, length-append c.unattributed_counts ((obs, a.reason) ∷ [])))
]

one-IsNamed :
    (c : Correlation) (obs : Observation) (a : Attribution)
    → IsNamed c.result
    → IsNamed (correlate_one c obs a).result
one-IsNamed c obs a h = elim (Bool-cases (a.reason == "")) [
  | inl found ↦ rw found (IsNamed-add a.wnp_key (materialise obs a.wnp_key) c.result (refl, refl) h)
  | inr lost ↦ rw lost h
]

module _ (cluster : Cluster) (owned_index : OwnedIndex) (wnp_by_key : PolicyMap)
    (duplicates : List WnpTarget) where
  from-conserves :
      (c : Correlation) (scraped : List Observation)
      → (total (correlate_from cluster owned_index wnp_by_key duplicates c scraped).result
            + length
                (correlate_from cluster owned_index wnp_by_key duplicates c
                  scraped).unattributed_counts
          ≡ total c.result + length c.unattributed_counts + length scraped)
        × (IsNamed c.result
            → IsNamed (correlate_from cluster owned_index wnp_by_key duplicates c scraped).result)
  unfolding correlate_from
  from-conserves c [] = (omega arith, λ h. h)
  from-conserves c (obs ∷ scraped) =
      let a = attribute_violation cluster obs owned_index wnp_by_key duplicates in
      let rest = from-conserves (correlate_one c obs a) scraped in
      (omega (arith, rest.0, one-conserves c obs a), λ h. rest.1 (one-IsNamed c obs a h))

  -- Every drained observation ends in exactly one place: the records of all groups and the counted
  -- unattributed observations are together as many as the observations; and every record names the
  -- policy whose group it is in.
  pub correlate_violations_to_wnps-conserves :
      (scraped : List Observation)
      → (total
              (correlate_violations_to_wnps cluster owned_index wnp_by_key duplicates
                scraped).result
            + length
                (correlate_violations_to_wnps cluster owned_index wnp_by_key duplicates
                  scraped).unattributed_counts
          ≡ length scraped)
        × IsNamed
            (correlate_violations_to_wnps cluster owned_index wnp_by_key duplicates scraped).result
  unfolding correlate_violations_to_wnps
  correlate_violations_to_wnps-conserves scraped =
      let all = from-conserves nothing_correlated scraped in (omega (arith, all.0), all.1 tt)
