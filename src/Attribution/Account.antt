-- ===== src/Attribution/Account.antt =====
-- Every drained observation, with its flow, is kept or counted.
use mathlib.Core.List.{Perm, perm_middle}
use mathlib.Core.List.Perm
use network_enforcer.Common.{
  List, [], ◌∷◌, ◌++◌, map, ◌≡◌, refl, sym, ap, inl, inr, Bool-cases, ◌==◌, string_eq, append-nil,
  append_assoc,
}
use network_enforcer.Common.Map.{lookup, insert}
use network_enforcer.Api.Kube.{NamespacedName}
use network_enforcer.Api.Names.{name_eq}
use network_enforcer.Api.Types.{Observation, ViolationInfo, ViolationRecord}
use network_enforcer.Attribution.{Cluster, Attribution, attribute_violation}
use network_enforcer.Attribution.Snapshot.{PolicyMap, OwnedIndex, WnpTarget}
use network_enforcer.Attribution.Correlate.{
  ViolationMap, Correlation, materialise, records_of, correlate_one, correlate_from,
  nothing_correlated, correlate_violations_to_wnps,
}

-- what was observed, without the policy that it is put down to
abbrev pub flow_of : ViolationInfo → ViolationInfo
flow_of info = record info { denying_policy_namespace = ""; denying_policy_name = "" }

abbrev pub flows_of : List ViolationRecord → List ViolationInfo
flows_of records = map (λ r. flow_of r.info) records

-- the flows of all groups
abbrev pub flows_in : ViolationMap → List ViolationInfo
flows_in [] = []
flows_in ((k, records) ∷ m) = flows_of records ++ flows_in m

-- the flows of the groups and those counted as unattributed
abbrev pub accounted : Correlation → List ViolationInfo
accounted c = flows_in c.result ++ map (λ u. flow_of u.0.info) c.unattributed_counts

map-snoc :
    {A B : Type 0} (f : A → B) (xs : List A) (x : A) → map f (xs ++ x ∷ []) ≡ map f xs ++ f x ∷ []
map-snoc f [] x = refl
map-snoc f (y ∷ ys) x = ap (λ l. f y ∷ l) (map-snoc f ys x)

flows_in-insert :
    (k : NamespacedName) (v : ViolationRecord) (records : List ViolationRecord) (m : ViolationMap)
    → records_of (lookup k m) ≡ records
    → Perm (flows_in (insert k (records ++ v ∷ []) m)) (flow_of v.info ∷ flows_in m)
unfolding insert lookup
flows_in-insert k v [] [] h = Perm.refl _
flows_in-insert k v (r ∷ records) [] h = cc
flows_in-insert k v records ((j, old) ∷ m) h = elim (Bool-cases (j == k)) [
  | inl same ↦
      let e : old ≡ records = rw same at h in
      rw
        (
          same,
          map-snoc (λ r. flow_of r.info) records v,
          append_assoc (flows_of records) (flow_of v.info ∷ []) (flows_in m),
          e,
        )
        (perm_middle (flows_of records) (flows_in m))
  | inr other ↦ rw other (
      Perm.trans (Perm.append_left (flows_of old) (flows_in-insert k v records m (rw other at h)))
        (perm_middle (flows_of old) (flows_in m)))
]

perm-snoc : {A : Type 0} (xs ys : List A) (x : A) → Perm (xs ++ (ys ++ x ∷ [])) (x ∷ (xs ++ ys))
perm-snoc xs ys x =
    let moved : Perm ((xs ++ ys) ++ x ∷ []) (x ∷ ((xs ++ ys) ++ [])) = perm_middle (xs ++ ys) [] in
    rw (sym (append_assoc xs ys (x ∷ []))) (rw (append-nil (xs ++ ys)) at moved)

one-accounted :
    (c : Correlation) (obs : Observation) (a : Attribution)
    → Perm (accounted (correlate_one c obs a)) (flow_of obs.info ∷ accounted c)
one-accounted c obs a = elim (Bool-cases (a.reason == "")) [
  | inl found ↦ rw found (
      Perm.append_right (map (λ u. flow_of u.0.info) c.unattributed_counts)
        (flows_in-insert a.wnp_key (materialise obs a.wnp_key) _ c.result refl))
  | inr lost ↦
      rw (lost, map-snoc (λ u. flow_of u.0.info) c.unattributed_counts (obs, a.reason))
        (perm-snoc (flows_in c.result) (map (λ u. flow_of u.0.info) c.unattributed_counts)
          (flow_of obs.info))
]

module _ (cluster : Cluster) (owned_index : OwnedIndex) (wnp_by_key : PolicyMap)
    (duplicates : List WnpTarget) where
  from-accounted :
      (c : Correlation) (scraped : List Observation)
      → Perm
          (accounted (correlate_from cluster owned_index wnp_by_key duplicates c scraped))
          (map (λ o. flow_of o.info) scraped ++ accounted c)
  unfolding correlate_from
  from-accounted c [] = Perm.refl _
  from-accounted c (obs ∷ scraped) =
      let a = attribute_violation cluster obs owned_index wnp_by_key duplicates in
      let flows = map (λ o. flow_of o.info) scraped in
      Perm.trans (from-accounted (correlate_one c obs a) scraped) (
        Perm.trans (Perm.append_left flows (one-accounted c obs a))
          (perm_middle flows (accounted c)))

  -- The flows of the groups and those counted as unattributed are together those of the observations,
  -- each as often.
  pub correlate_violations_to_wnps-accounted :
      (scraped : List Observation)
      → Perm
          (accounted
            (correlate_violations_to_wnps cluster owned_index wnp_by_key duplicates scraped))
          (map (λ o. flow_of o.info) scraped)
  unfolding correlate_violations_to_wnps
  correlate_violations_to_wnps-accounted scraped =
      rw (sym (append-nil (map (λ o. flow_of o.info) scraped)))
        (from-accounted nothing_correlated scraped)
