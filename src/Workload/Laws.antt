-- ===== src/Workload/Laws.antt =====
-- internal/workload/extract.go: what a resolved workload is.
use Prim.Native.String.{String, ◌++◌}
use network_enforcer.Common.{
  ◌≡◌, refl, sym, inl, inr, Bool, true, false, Option, none, some, arith, Bool-cases, string_eq,
  ◌≢◌, eq-false,
}
use network_enforcer.Common.Map.{lookup}
use network_enforcer.Common.Text.Affixes.{cut_suffix-append}
use network_enforcer.Api.Kube.{LabelSelector, OwnerReference}
use network_enforcer.Api.Types.{
  WorkloadRef, bare_ref, is_supported, kind_deployment, kind_replica_set,
}
use network_enforcer.Workload.{
  Pod, Client, get, get_name_and_kind, get_selector_of, lookup_pod_selector_for_workload,
  pod_template_hash, has_suffix, trim_suffix, check_selector, with_selector, workload_of_pod,
  owner_of_pod,
}
use text.Mathlib.TextLemmas.{append_assoc}

has_suffix-append : (s p : String) → has_suffix (s ++ p) p ≡ true
unfolding has_suffix
has_suffix-append s p = rw (cut_suffix-append s p) refl

has_suffix-hash : (s p : String) → has_suffix (s ++ ("-" ++ p)) p ≡ true
has_suffix-hash s p = rw (sym (append_assoc s "-" p)) (has_suffix-append (s ++ "-") p)

trim_suffix-append : (s p : String) → trim_suffix (s ++ p) p ≡ s
unfolding trim_suffix
trim_suffix-append s p = rw (cut_suffix-append s p) refl

deployment_from_hash :
    (pod : Pod) (owner : OwnerReference) (name hash : String)
    → owner.kind ≡ kind_replica_set
    → owner.name ≡ name ++ ("-" ++ hash)
    → lookup pod_template_hash pod.labels ≡ some hash
    → hash ≢ ""
    → owner_of_pod pod (some owner) ≡ bare_ref pod.namespace kind_deployment name
deployment_from_hash pod owner name hash k n l h =
    rw
      (
        k,
        n,
        l,
        eq-false hash "" h,
        has_suffix-hash name hash,
        trim_suffix-append name ("-" ++ hash),
      )
      refl

-- A pod whose controller is the ReplicaSet `<deployment>-<hash>`, with the non-empty hash as its
-- pod-template-hash label, is resolved to that Deployment of the pod's namespace.
pub get_name_and_kind-deployment :
    (pod : Pod) (owner : OwnerReference) (name hash : String)
    → pod.controller ≡ some owner
    → owner.kind ≡ kind_replica_set
    → owner.name ≡ name ++ ("-" ++ hash)
    → lookup pod_template_hash pod.labels ≡ some hash
    → hash ≢ ""
    → get_name_and_kind pod ≡ bare_ref pod.namespace kind_deployment name
unfolding get_name_and_kind
get_name_and_kind-deployment pod owner name hash c k n l h =
    rw c (deployment_from_hash pod owner name hash k n l h)

module _ (c : Client) where
  with_selector_sound :
      (wk ref : WorkloadRef) (selector : LabelSelector) (e : Option Bool)
      → c.selector_is_empty selector ≡ e
      → with_selector c wk selector e ≡ some ref
      → (ref ≡ record wk { selector = selector }) × (c.selector_is_empty selector ≡ some false)
  with_selector_sound wk ref selector none q h = cc
  with_selector_sound wk ref selector (some true) q h = cc
  with_selector_sound wk ref selector (some false) q h = (cc, q)

  check_selector_sound :
      (wk ref : WorkloadRef) (found : Option (Option LabelSelector))
      → check_selector c wk found ≡ some ref
      → (selector : LabelSelector) × (found ≡ some (some selector))
        × (ref ≡ record wk { selector = selector })
        × (c.selector_is_empty selector ≡ some false)
  check_selector_sound wk ref none h = cc
  check_selector_sound wk ref (some none) h = cc
  check_selector_sound wk ref (some (some selector)) h =
      let (e, k) = with_selector_sound wk ref selector _ refl h in (selector, refl, e, k)

  get_selector_of-supported :
      (wk : WorkloadRef) (selector : Option LabelSelector)
      → get_selector_of c wk ≡ some selector
      → is_supported wk.owner_kind ≡ true
  unfolding get_selector_of is_supported
  get_selector_of-supported wk selector h = ground arith

  -- a supported workload with the selector, which is not empty, that the API server holds for it
  unfoldable pub IsResolved : WorkloadRef → Type 0
  IsResolved ref =
      (is_supported ref.owner_kind ≡ true)
      × (get_selector_of c ref ≡ some (some ref.selector))
      × (c.selector_is_empty ref.selector ≡ some false)

  lookup_sound :
      (wk ref : WorkloadRef)
      → lookup_pod_selector_for_workload c wk ≡ some ref
      → (ref ≡ record wk { selector = ref.selector })
        × (get_selector_of c ref ≡ some (some ref.selector))
        × (c.selector_is_empty ref.selector ≡ some false)
  unfolding lookup_pod_selector_for_workload get_selector_of
  lookup_sound wk ref h =
      let (selector, f, e, k) = check_selector_sound wk ref (get_selector_of c wk) h in
      rw e (refl, f, k)

  workload_of_pod_sound :
      (pod : Option Pod) (ref : WorkloadRef)
      → workload_of_pod c pod ≡ some ref
      → is_supported ref.owner_kind ≡ true
      → (get_selector_of c ref ≡ some (some ref.selector))
        × (c.selector_is_empty ref.selector ≡ some false)
  workload_of_pod_sound none ref h k = cc
  workload_of_pod_sound (some pod) ref h k =
      elim (Bool-cases (is_supported (get_name_and_kind pod).owner_kind)) [
        | inl e ↦ let (_, f, g) = lookup_sound (get_name_and_kind pod) ref (rw e at h) in (f, g)
        | inr e ↦ let h' = rw e at h in absurd (cc (h', k, e))
      ]

  -- When the resolution of a pod gives a workload of a supported kind, its selector is the one that
  -- the API server holds for the workload of that kind, namespace and name, and is not empty.
  pub get_sound :
      (namespace name : String) (ref : WorkloadRef)
      → get c namespace name ≡ some ref
      → is_supported ref.owner_kind ≡ true
      → (get_selector_of c ref ≡ some (some ref.selector))
        × (c.selector_is_empty ref.selector ≡ some false)
  unfolding get
  get_sound namespace name ref h k = workload_of_pod_sound (c.get_pod namespace name) ref h k

  pub lookup_pod_selector_for_workload-IsResolved :
      (wk ref : WorkloadRef) → lookup_pod_selector_for_workload c wk ≡ some ref → IsResolved ref
  unfolding IsResolved
  lookup_pod_selector_for_workload-IsResolved wk ref h =
      let (_, f, k) = lookup_sound wk ref h in (get_selector_of-supported ref _ f, f, k)

  pub get-IsResolved :
      (namespace name : String) (ref : WorkloadRef)
      → get c namespace name ≡ some ref
      → is_supported ref.owner_kind ≡ true
      → IsResolved ref
  unfolding IsResolved
  get-IsResolved namespace name ref h k = let (f, g) = get_sound namespace name ref h k in (k, f, g)
