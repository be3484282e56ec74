-- ===== src/Attribution/Correlate.antt =====
-- correlateViolationsToWNPs: the observations grouped by the policy they are attributed to.
use network_enforcer.Common.{
  List, [], ◌∷◌, ◌++◌, Option, none, some, String, Bool, ◌==◌, string_eq, if◌then◌else◌,
}
use network_enforcer.Common.Map.{lookup, insert}
use network_enforcer.Api.Kube.{NamespacedName}
use network_enforcer.Api.Names.{name_eq}
use network_enforcer.Api.Types.{Observation, ViolationRecord}
use network_enforcer.Attribution.{Cluster, Attribution, attribute_violation}
use network_enforcer.Attribution.Snapshot.{PolicyMap, OwnedIndex, WnpTarget}

abbrev pub ViolationMap : Type 0
ViolationMap = List (NamespacedName × List ViolationRecord)

-- the groups, and what the two counters counted
pub record Correlation : Type 0 where
  pub result : ViolationMap
  pub unattributed_counts : List (Observation × String)
  pub disagreements : List Observation

-- the record names the policy it belongs to
abbrev pub materialise : Observation → NamespacedName → ViolationRecord
materialise obs key = record {
  info = record (obs.info) {
    denying_policy_namespace = key.namespace;
    denying_policy_name = key.name;
  };
  id = 0;
}

abbrev pub records_of : Option (List ViolationRecord) → List ViolationRecord
records_of none = []
records_of (some records) = records

abbrev pub add_disagreement : Observation → Bool → List Observation → List Observation
add_disagreement obs disagreement counted = if disagreement then counted ++ obs ∷ [] else counted

abbrev pub correlate_one : Correlation → Observation → Attribution → Correlation
correlate_one c obs a = record {
  result =
      if a.reason == ""
      then insert a.wnp_key
          (records_of (lookup a.wnp_key c.result) ++ materialise obs a.wnp_key ∷ []) c.result
      else c.result;
  unattributed_counts =
      if a.reason == ""
      then c.unattributed_counts
      else c.unattributed_counts ++ (obs, a.reason) ∷ [];
  disagreements = add_disagreement obs a.disagreement c.disagreements;
}

abbrev pub nothing_correlated : Correlation
nothing_correlated = record { result = []; unattributed_counts = []; disagreements = [] }

module _ (cluster : Cluster) (owned_index : OwnedIndex) (wnp_by_key : PolicyMap)
    (duplicates : List WnpTarget) where
  unfoldable pub correlate_from : Correlation → List Observation → Correlation
  correlate_from c [] = c
  correlate_from c (obs ∷ scraped) =
      correlate_from
        (correlate_one c obs (attribute_violation cluster obs owned_index wnp_by_key duplicates))
        scraped

  unfoldable pub correlate_violations_to_wnps : List Observation → Correlation
  correlate_violations_to_wnps scraped = correlate_from nothing_correlated scraped
