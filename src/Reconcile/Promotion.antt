-- ===== src/Reconcile/Promotion.antt =====
-- internal/controller/workloadnetworkpolicyproposal_controller.go: a proposal is owned by its workload,
-- and promoted into a policy by a label.
pub mod Laws
use Prim.Native.String.{len}
use network_enforcer.Common.{
  ℕ, String, List, [], ◌∷◌, ◌++◌, Option, none, some, Bool, true, false, not, ◌==◌, string_eq,
  if◌then◌else◌, ltb,
}
use network_enforcer.Common.Map.{lookup, insert}
use network_enforcer.Api.Kube.{ObjectMeta, OwnerReference, NamespacedName}
use network_enforcer.Api.Types.{
  WorkloadRef, WorkloadNetworkPolicy, PolicyStatus, Proposal, is_supported, mode_monitor,
  mode_protect,
}
use network_enforcer.Learning.Names.{owner_ref_from_proposal_name}

abbrev pub proposal_promote_label_key : String
proposal_promote_label_key = "networkenforcer.kubewarden.io/promote"

abbrev pub policy_promoted_from_label_key : String
policy_promoted_from_label_key = "networkenforcer.kubewarden.io/promoted-from"

abbrev pub max_label_value_length : ℕ
max_label_value_length = 63

abbrev pub mode_of_label : Option String → Option String
mode_of_label none = none
mode_of_label (some val) =
    if val == mode_monitor
    then some mode_monitor
    else if val == mode_protect
    then some mode_protect
    else none

unfoldable pub has_promotion_label : Proposal → Option String
has_promotion_label proposal =
    mode_of_label (lookup proposal_promote_label_key proposal.meta.labels)

-- `none` is the error on a name too long for a label
unfoldable pub set_promoted_label : WorkloadNetworkPolicy → String → Option WorkloadNetworkPolicy
set_promoted_label wnp proposal_name =
    if ltb max_label_value_length (len proposal_name)
    then none
    else some (record wnp {
      meta = record (wnp.meta) {
        labels = insert policy_promoted_from_label_key proposal_name wnp.meta.labels;
      };
    })

abbrev pub empty_status : PolicyStatus
empty_status = record {
  conditions = [];
  observed_generation = 0;
  violation_count = 0;
  active_violation_count = 0;
  violations = [];
  acknowledged_violations = [];
}

abbrev pub new_meta : String → String → ObjectMeta
new_meta name namespace = record {
  name = name;
  namespace = namespace;
  uid = "";
  generation = 0;
  creation_timestamp = 0;
  deletion_timestamp = none;
  labels = [];
  annotations = [];
  owner_references = [];
}

unfoldable pub policy_of_proposal : Proposal → String → WorkloadNetworkPolicy
policy_of_proposal proposal mode = record {
  meta = new_meta proposal.meta.name proposal.meta.namespace;
  spec = record {
    backend_spec = proposal.backend_spec;
    targeting = proposal.targeting;
    mode = mode;
  };
  status = empty_status;
}

pub data OwnerAnswer : Type 0 where
  owner_found : OwnerReference → OwnerAnswer
  owner_not_found : OwnerAnswer
  owner_failed : OwnerAnswer

-- how the API server answers a write
pub data WriteAnswer : Type 0 where
  written : WriteAnswer
  not_there : WriteAnswer
  already_there : WriteAnswer
  write_failed : WriteAnswer

pub record Api : Type 0 where
  pub get_owner : WorkloadRef → OwnerAnswer
  pub get_controller_of : List OwnerReference → Option OwnerReference
  pub promoted_policies : String → String → Option (List WorkloadNetworkPolicy)
  pub delete_proposal : Proposal → WriteAnswer
  pub create_policy : WorkloadNetworkPolicy → WriteAnswer
  pub patch_owner : Proposal → WriteAnswer

-- the writes asked for, in order
pub data Request : Type 0 where
  delete : Request
  create : WorkloadNetworkPolicy → Request
  patch : List OwnerReference → Request

pub record Result : Type 0 where
  pub requests : List Request
  pub is_error : Bool

-- the proposal is gone, stays, or its reconciliation stops at an error
pub data Ownership : Type 0 where
  gone : Ownership
  stays : List Request → Ownership
  ownership_failed : List Request → Ownership

module _ (api : Api) where
  abbrev pub orphaned : WriteAnswer → Ownership
  orphaned written = gone
  orphaned not_there = stays (delete ∷ [])
  orphaned already_there = ownership_failed (delete ∷ [])
  orphaned write_failed = ownership_failed (delete ∷ [])

  abbrev pub restored : OwnerReference → WriteAnswer → Ownership
  restored owner written = stays (patch (owner ∷ []) ∷ [])
  restored owner not_there = ownership_failed (patch (owner ∷ []) ∷ [])
  restored owner already_there = ownership_failed (patch (owner ∷ []) ∷ [])
  restored owner write_failed = ownership_failed (patch (owner ∷ []) ∷ [])

  abbrev pub owned_by : Option OwnerReference → OwnerReference → Bool
  owned_by none owner = false
  owned_by (some current) owner = current.uid == owner.uid

  abbrev pub with_owner : Proposal → OwnerReference → Proposal
  with_owner proposal owner = record proposal {
    meta = record (proposal.meta) { owner_references = owner ∷ [] };
  }

  abbrev pub own_found : Proposal → OwnerAnswer → Ownership
  own_found proposal owner_failed = ownership_failed []
  own_found proposal owner_not_found = orphaned (api.delete_proposal proposal)
  own_found proposal (owner_found owner) =
      if owned_by (api.get_controller_of proposal.meta.owner_references) owner
      then stays []
      else restored owner (api.patch_owner (with_owner proposal owner))

  -- workload.OwnerObjectFor knows the supported kinds
  abbrev pub own_ref : Proposal → Option WorkloadRef → Ownership
  own_ref proposal none = stays []
  own_ref proposal (some wk) =
      if not (is_supported wk.owner_kind) then stays [] else own_found proposal (api.get_owner wk)

  unfoldable pub reconcile_ownership : Proposal → Ownership
  reconcile_ownership proposal =
      own_ref proposal (owner_ref_from_proposal_name proposal.meta.namespace proposal.meta.name)

  -- the error of a Delete, where a missing object is none
  abbrev pub delete_error : WriteAnswer → Bool
  delete_error written = false
  delete_error not_there = false
  delete_error already_there = true
  delete_error write_failed = true

  abbrev pub delete_after : List Request → Proposal → Result
  delete_after before proposal = record {
    requests = before ++ delete ∷ [];
    is_error = delete_error (api.delete_proposal proposal);
  }

  abbrev pub stop : List Request → Bool → Result
  stop before is_error = record { requests = before; is_error = is_error }

  abbrev pub created : List Request → Proposal → WorkloadNetworkPolicy → WriteAnswer → Result
  created before proposal policy written = delete_after (before ++ create policy ∷ []) proposal
  created before proposal policy already_there = stop (before ++ create policy ∷ []) false
  created before proposal policy not_there = stop (before ++ create policy ∷ []) true
  created before proposal policy write_failed = stop (before ++ create policy ∷ []) true

  abbrev pub create_labelled : List Request → Proposal → Option WorkloadNetworkPolicy → Result
  create_labelled before proposal none = stop before true
  create_labelled before proposal (some policy) =
      created before proposal policy (api.create_policy policy)

  abbrev pub promote : List Request → Proposal → Option String → Result
  promote before proposal none = stop before false
  promote before proposal (some mode) =
      create_labelled before proposal
        (set_promoted_label (policy_of_proposal proposal mode) proposal.meta.name)

  -- a proposal of which a promoted policy exists is a leftover
  abbrev pub check_promoted : List Request → Proposal → Option (List WorkloadNetworkPolicy) → Result
  check_promoted before proposal none = stop before true
  check_promoted before proposal (some (p ∷ ps)) = delete_after before proposal
  check_promoted before proposal (some []) = promote before proposal (has_promotion_label proposal)

  abbrev pub after_ownership : Proposal → Ownership → Result
  after_ownership proposal gone = stop (delete ∷ []) false
  after_ownership proposal (ownership_failed before) = stop before true
  after_ownership proposal (stays before) =
      check_promoted before proposal
        (api.promoted_policies proposal.meta.namespace proposal.meta.name)

  abbrev pub reconcile_live : Proposal → Option ℕ → Result
  reconcile_live proposal (some t) = stop [] false
  reconcile_live proposal none = after_ownership proposal (reconcile_ownership proposal)

  -- Reconcile of a proposal that Get has found
  unfoldable pub reconcile : Proposal → Result
  reconcile proposal = reconcile_live proposal proposal.meta.deletion_timestamp
