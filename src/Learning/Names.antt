-- ===== src/Learning/Names.antt =====
-- The name of a proposal, and the workload that a name gives back.
pub mod Laws
use network_enforcer.Common.{
  String, List, [], ◌∷◌, Option, none, some, ◌==◌, string_eq, if◌then◌else◌,
}
use network_enforcer.Common.Text.{cut_prefix, cut_suffix, to_lower}
use network_enforcer.Common.Text.Concat.{concat}
use network_enforcer.Api.Types.{
  WorkloadRef, WorkloadTargetingSpec, Proposal, PolicyBackendSpec, bare_ref, kind_deployment,
  kind_stateful_set, kind_daemon_set,
}
use network_enforcer.Api.Kube.{ObjectMeta}

unfoldable pub get_proposal_name : WorkloadRef → String → String
get_proposal_name wk direction =
    concat (to_lower wk.owner_kind ∷ "-" ∷ wk.owner_name ∷ "-" ∷ to_lower direction ∷ [])

unfoldable pub workload_targeting_spec : WorkloadRef → String → WorkloadTargetingSpec
workload_targeting_spec wk direction = record {
  target_ref = record { kind = wk.owner_kind; name = wk.owner_name };
  direction = direction;
}

abbrev new_meta : String → String → ObjectMeta
new_meta name namespace = record {
  name = name;
  namespace = namespace;
  uid = "";
  generation = 0;
  creation_timestamp = 0;
  deletion_timestamp = none;
  labels = [];
  annotations = [];
  owner_references = [];
}

unfoldable pub get_proposal_metadata : WorkloadRef → String → Proposal
get_proposal_metadata wk direction = record {
  meta = new_meta (get_proposal_name wk direction) wk.namespace;
  backend_spec = record { backend = ""; kubernetes = none; istio = none };
  targeting = workload_targeting_spec wk direction;
}

abbrev pub known_kinds : List String
known_kinds = kind_deployment ∷ kind_stateful_set ∷ kind_daemon_set ∷ []

abbrev pub known_suffixes : List String
known_suffixes = "-ingress" ∷ "-egress" ∷ []

-- an owner name before the suffix, which is not empty
abbrev pub owner_before : Option String → Option String → Option String
owner_before none rest = rest
owner_before (some owner_name) rest = if owner_name == "" then rest else some owner_name

-- the inner loop
unfoldable pub trim_known_suffix : String → List String → Option String
trim_known_suffix name [] = none
trim_known_suffix name (suffix ∷ suffixes) =
    owner_before (cut_suffix name suffix) (trim_known_suffix name suffixes)

abbrev pub name_after : Option String → Option String
name_after none = none
name_after (some rest) = trim_known_suffix rest known_suffixes

abbrev pub ref_or : String → String → Option String → Option WorkloadRef → Option WorkloadRef
ref_or namespace kind none rest = rest
ref_or namespace kind (some owner_name) rest = some (bare_ref namespace kind owner_name)

-- the outer loop
unfoldable pub owner_ref_from : String → String → List String → Option WorkloadRef
owner_ref_from namespace proposal_name [] = none
owner_ref_from namespace proposal_name (kind ∷ kinds) =
    ref_or namespace kind
      (name_after (cut_prefix proposal_name (concat (to_lower kind ∷ "-" ∷ []))))
      (owner_ref_from namespace proposal_name kinds)

unfoldable pub owner_ref_from_proposal_name : String → String → Option WorkloadRef
owner_ref_from_proposal_name namespace proposal_name =
    owner_ref_from namespace proposal_name known_kinds
