-- ===== src/Tests/ReconcileTests.antt =====
-- The controllers at concrete inputs.
use network_enforcer.Common.{
  String, List, [], ◌∷◌, Option, none, some, Bool, true, false, ◌≡◌, refl, All, ◌==◌, string_eq,
  ◌&&◌, not, ◌↔◌, arith,
}
use network_enforcer.Api.Types.{WorkloadNetworkPolicy}
use network_enforcer.Target.{index_wnp_by_target, wnp_target_index_key}
use network_enforcer.Common.Text.Concat.{concat}
use network_enforcer.Reconcile.Promotion.{Api, owner_found, written, reconcile}
use network_enforcer.Reconcile.Promotion.Laws.{IsPromotion, reconcile-IsPromotion}
use network_enforcer.Reconcile.Duplicates.{
  Conflict, check_duplicate_target, oldest_from, target_key, validate_unique_target, admitted,
  invalid, conflicts,
}
use network_enforcer.Reconcile.Duplicates.Laws.{validate_unique_target_iff, IsFree}
use network_enforcer.Reconcile.Duplicates.Oldest.{check_duplicate_target_sound, IsConflict}
use network_enforcer.Attribution.Snapshot.{wnp_target_key}
use network_enforcer.Reconcile.Scope.{
  match_from, match_workload_templates, selector_scope_condition, reason_selector_scope_valid,
  reason_selector_overlaps_workload, overlaps_of_pods, pod_workload_owner, pod_owner_matches_target,
  owner_matches_template, not_found,
}
use network_enforcer.Reconcile.Check.{
  Checker, workload_templates, pod_selector_overlaps, check_selector_scope, selector_of_backend,
  check_retained_policy_scope, retained_policy_selector, retained_message, rendered,
  rendered_not_found,
}
use network_enforcer.Reconcile.Check.Laws.{check_selector_scope-valid, Selects}
use network_enforcer.Api.Kube.{LabelSelector, OwnerReference, NamespacedName}
use network_enforcer.Api.Types.{get_selector, empty_selector}
use network_enforcer.Common.{none, false, ◌≢◌, ◌⊎◌}
use network_enforcer.Api.Kube.{Condition}
use network_enforcer.Reconcile.Render.{nothing, controlled}
use network_enforcer.Reconcile.Scope.{condition_of}
use network_enforcer.Reconcile.Policy.{reconcile_checked, reconcile_policy}
use network_enforcer.Reconcile.Policy.Laws.{reconcile_checked-renders, MayRender}
use network_enforcer.Reconcile.Check.Meets.{Meets}
use network_enforcer.Reconcile.Render.{reconcile_istio_policy}
use network_enforcer.Tests.Data.{proposal, policy, istio_backend_spec}

abbrev api : Api
api = record {
  get_owner = λ wk. owner_found (record {
    api_version = "apps/v1";
    kind = "StatefulSet";
    name = "db";
    uid = "u1";
    controller = some true;
  });
  get_controller_of = λ refs. none;
  promoted_policies = λ namespace name. some [];
  delete_proposal = λ p. written;
  create_policy = λ p. written;
  patch_owner = λ p. written;
}

reconcile-IsPromotion_example :
    All (λ r. IsPromotion api proposal r) (reconcile api proposal).requests
reconcile-IsPromotion_example = reconcile-IsPromotion api proposal

abbrev sample : WorkloadNetworkPolicy
sample = policy istio_backend_spec

abbrev younger : WorkloadNetworkPolicy
younger = record sample {
  meta = record (sample.meta) { name = "later"; uid = "later"; creation_timestamp = 11 };
}

-- List gives the younger policy first
abbrev listing : String → String → Option (List WorkloadNetworkPolicy)
listing namespace key = some (younger ∷ sample ∷ [])

-- an order of texts in which `later` comes before every other one
abbrev before : String → String → Bool
before a b = a == "later" && not (b == "later")

before-asymmetric : (a b : String) → before a b ≡ true → before b a ≡ false
before-asymmetric a b h = ground arith

before-chain : (a b c : String) → before a b ≡ false → before b c ≡ false → before a c ≡ false
before-chain a b c h k = ground arith

abbrev conflict : Conflict before
conflict = record { oldest = sample; winner = false }

seen : check_duplicate_target before listing younger ≡ some (some conflict)
unfolding check_duplicate_target wnp_target_key oldest_from
seen = refl

check_duplicate_target_sound_example :
    (key : NamespacedName) × (wnp_target_key younger ≡ some key)
    × (items : List WorkloadNetworkPolicy) × (listing "shop" key.name ≡ some items)
    × IsConflict before before-asymmetric before-chain younger items conflict
check_duplicate_target_sound_example =
    check_duplicate_target_sound before before-asymmetric before-chain listing younger conflict seen

complete : (target_key sample == "") ≡ false
unfolding target_key index_wnp_by_target wnp_target_index_key concat
complete = refl

abbrev alone : String → String → Option (List WorkloadNetworkPolicy)
alone namespace key = some (sample ∷ [])

validate_unique_target_iff_example :
    (validate_unique_target alone sample ≡ admitted)
    ↔ IsFree sample (alone "shop" (target_key sample))
validate_unique_target_iff_example = validate_unique_target_iff alone sample complete

refused : validate_unique_target listing sample ≡ invalid ("shop/later" ∷ [])
unfolding validate_unique_target target_key index_wnp_by_target wnp_target_index_key concat
    conflicts
refused = refl

abbrev selects : List (String × String) → Bool
selects [] = false
selects (l ∷ ls) = l.1 == "db"

abbrev first : String → List String → String
first o os = o

abbrev db_owner : OwnerReference
db_owner = record {
  api_version = "apps/v1";
  kind = "StatefulSet";
  name = "db";
  uid = "db";
  controller = some true;
}

abbrev checker : Checker
checker = record {
  list_deployments = λ namespace. some (
      record { name = "web-front"; template_labels = ("app", "web-front") ∷ []; uid = "web-front" }
      ∷ []);
  list_stateful_sets = λ namespace.
      some (record { name = "db"; template_labels = ("app", "db") ∷ []; uid = "db" } ∷ []);
  list_daemon_sets = λ namespace. some [];
  list_selected_pods = λ namespace selector.
      some (record { name = "db-0"; namespace = "shop"; controller = some db_owner } ∷ []);
  get_replica_set = λ namespace name. not_found;
  get_network_policy = λ name. rendered_not_found;
  get_authorization_policy = λ name. rendered_not_found;
  as_selector = λ selector. some selects;
  least = first;
  list_policies = λ namespace. some (sample ∷ []);
}

abbrev valid_scope : Condition
valid_scope =
    condition_of sample "True" reason_selector_scope_valid
      "Policy selector matches only the target workload"

checked : check_selector_scope checker sample ≡ some valid_scope
unfolding check_selector_scope get_selector workload_templates match_workload_templates match_from
    pod_selector_overlaps overlaps_of_pods pod_workload_owner pod_owner_matches_target
    owner_matches_template selector_scope_condition
checked = refl

check_selector_scope-valid_example :
    (selector : LabelSelector) × (get_selector sample.spec ≡ some selector)
    × Selects checker sample (selector_of_backend checker sample selector)
check_selector_scope-valid_example =
    check_selector_scope-valid checker sample valid_scope checked refl

-- the retained policy is controlled and selects another workload as well
abbrev retaining : Checker
retaining = record checker {
  get_authorization_policy = λ name. rendered empty_selector true;
  as_selector = λ selector. some (λ labels. true);
}

retains :
    check_retained_policy_scope retaining sample valid_scope
    ≡ some (
        condition_of sample "False" reason_selector_overlaps_workload (
          concat (
            "Retained policy selector also selects "
            ∷ "workload Deployment shop/web-front"
            ∷ "; "
            ∷ retained_message retaining valid_scope
            ∷ [])))
unfolding check_retained_policy_scope retained_policy_selector workload_templates
    match_workload_templates match_from concat
retains = refl

abbrev protected : WorkloadNetworkPolicy
protected = record sample { spec = record (sample.spec) { mode = "protect" } }

checked_protected : check_selector_scope checker protected ≡ some valid_scope
unfolding check_selector_scope get_selector workload_templates match_workload_templates match_from
    pod_selector_overlaps overlaps_of_pods pod_workload_owner pod_owner_matches_target
    owner_matches_template selector_scope_condition
checked_protected = refl

is_rendered :
    (reconcile_checked none controlled "" protected
      (check_selector_scope checker protected)
      (some none)).rendering
    ≢ nothing
unfolding reconcile_checked reconcile_policy reconcile_istio_policy
is_rendered h = cc (rw checked_protected at h)

reconcile_checked-renders_example :
    MayRender (some none)
    × ((protected.spec.mode ≡ "monitor")
        ⊎ (selector : LabelSelector) × (get_selector protected.spec ≡ some selector)
          × Meets checker protected (selector_of_backend checker protected selector))
reconcile_checked-renders_example =
    reconcile_checked-renders none controlled "" protected checker (some none) is_rendered
