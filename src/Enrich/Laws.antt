-- ===== src/Enrich/Laws.antt =====
-- internal/istio/enrich.go: enrichment never makes an observation worse.
use network_enforcer.Common.{
  ◌||◌, String, ◌≡◌, refl, inl, inr, ◌⊎◌, ◌∙◌, List, [], ◌∷◌, Option, none, some, Bool-cases, ◌==◌,
  string_eq, eq-true,
}
use network_enforcer.Api.Kube.{NamespacedName, policy_type_ingress}
use network_enforcer.Api.Types.{WorkloadRef, Observation}
use network_enforcer.Workload.{Pod, Client, resolve_denying_policy}
use network_enforcer.Enrich.{
  enrich, with_dest, with_source, with_policy, workload_ref_from_pod, resolve_dest_workload,
  resolve_source_workload, peer_ip_from_addr, sole_pod, source_at,
}

-- Everything but the two workloads and the policy is kept.
unfoldable pub Keeps : Observation → Observation → Type 0
Keeps obs seen =
    (seen.provider ≡ obs.provider)
    × (seen.direction ≡ obs.direction)
    × (seen.info.timestamp ≡ obs.info.timestamp)
    × (seen.info.protocol ≡ obs.info.protocol)
    × (seen.info.dst_port ≡ obs.info.dst_port)
    × (seen.info.action ≡ obs.info.action)

sole_pod_sound :
    (pods : Option (List Pod)) (source : WorkloadRef)
    → sole_pod pods ≡ some source
    → (pod : Pod) × (pods ≡ some (pod ∷ [])) × (source ≡ workload_ref_from_pod pod)
sole_pod_sound none source h = cc
sole_pod_sound (some []) source h = cc
sole_pod_sound (some (pod ∷ [])) source h = (pod, refl, cc)
sole_pod_sound (some (pod ∷ other ∷ pods)) source h = cc

with_policy_lem :
    (obs : Observation) (owner : Option NamespacedName)
    → let seen = with_policy obs owner in
      (((seen.info.denying_policy_name ≡ obs.info.denying_policy_name)
          × (seen.info.denying_policy_namespace ≡ obs.info.denying_policy_namespace))
        ⊎ (owner
            ≡ some (record {
              namespace = seen.info.denying_policy_namespace;
              name = seen.info.denying_policy_name;
            })))
      × Keeps obs seen
      × (seen.info.dest ≡ obs.info.dest)
      × (seen.info.source ≡ obs.info.source)
unfolding Keeps
with_policy_lem obs none = (inl (refl, refl), (refl, refl, refl, refl, refl, refl), refl, refl)
with_policy_lem obs (some owner) = elim (Bool-cases (owner.name == "")) [
  | inl e ↦ rw e (inl (refl, refl), (refl, refl, refl, refl, refl, refl), refl, refl)
  | inr e ↦ rw e (inr refl, (refl, refl, refl, refl, refl, refl), refl, refl)
]

module _ (c : Client) where
  -- The destination is the reported one, or the workload of the reported pod; a reported policy
  -- is kept, and a new one is that which targets the resolved destination.
  unfoldable pub DestResolved : Observation → Observation → Type 0
  DestResolved obs seen =
      ((seen.info.dest ≡ obs.info.dest)
        × (seen.info.denying_policy_name ≡ obs.info.denying_policy_name)
        × (seen.info.denying_policy_namespace ≡ obs.info.denying_policy_namespace))
      ⊎ ((pod : Pod) × (c.get_pod obs.info.dest.namespace obs.info.dest.owner_name ≡ some pod)
          × (seen.info.dest ≡ workload_ref_from_pod pod)
          × (((seen.info.denying_policy_name ≡ obs.info.denying_policy_name)
                × (seen.info.denying_policy_namespace ≡ obs.info.denying_policy_namespace))
              ⊎ ((obs.info.denying_policy_name ≡ "")
                  × (resolve_denying_policy c seen.info.dest policy_type_ingress
                      ≡ some (record {
                        namespace = seen.info.denying_policy_namespace;
                        name = seen.info.denying_policy_name;
                      })))))

  resolve_dest_workload-get :
      (obs : Observation) (pod : Pod)
      → resolve_dest_workload c obs ≡ some pod
      → c.get_pod obs.info.dest.namespace obs.info.dest.owner_name ≡ some pod
  unfolding resolve_dest_workload
  resolve_dest_workload-get obs pod h =
      elim (Bool-cases (obs.info.dest.namespace == "" || obs.info.dest.owner_name == "")) [
        | inl e ↦ absurd (cc (rw e at h))
        | inr e ↦ rw e at h
      ]

  with_dest_lem :
      (obs : Observation) (pod : Option Pod)
      → resolve_dest_workload c obs ≡ pod
      → DestResolved obs (with_dest c obs pod)
        × Keeps obs (with_dest c obs pod)
        × ((with_dest c obs pod).info.source ≡ obs.info.source)
  unfolding DestResolved Keeps
  with_dest_lem obs none h = (inl (refl, refl, refl), (refl, refl, refl, refl, refl, refl), refl)
  with_dest_lem obs (some pod) h =
      let found = resolve_dest_workload-get obs pod h in
      let dest = workload_ref_from_pod pod in
      elim (Bool-cases (obs.info.denying_policy_name == "")) [
        | inl e ↦
            let seen : Observation = record obs { info = record obs.info { dest = dest } } in
            let (policy, kept, d, s) =
              with_policy_lem seen (resolve_denying_policy c dest policy_type_ingress) in
            rw e (
              inr (
                pod,
                found,
                d,
                elim policy [ inl same ↦ inl same | inr owner ↦ inr (eq-true _ _ e, rw d owner) ],
              ),
              kept,
              s,
            )
        | inr e ↦
            rw e
              (inr (pod, found, refl, inl (refl, refl)), (refl, refl, refl, refl, refl, refl), refl)
      ]

module _ (split_host_port : String → Option String) (c : Client) where
  -- The source is the reported one, or the workload of the only pod that has the peer's address.
  unfoldable pub SourceResolved : Observation → WorkloadRef → Type 0
  SourceResolved obs source =
      (source ≡ obs.info.source)
      ⊎ ((ip : String) × (pod : Pod) × (peer_ip_from_addr split_host_port obs.info.source.owner_name
            ≡ some ip)
          × (c.list_pods_by_ip ip ≡ some (pod ∷ []))
          × (source ≡ workload_ref_from_pod pod))

  source_at_sound :
      (ip : Option String) (source : WorkloadRef)
      → source_at split_host_port c ip ≡ some source
      → (addr : String) × (pod : Pod) × (ip ≡ some addr)
        × (c.list_pods_by_ip addr ≡ some (pod ∷ []))
        × (source ≡ workload_ref_from_pod pod)
  source_at_sound none source h = cc
  source_at_sound (some ip) source h =
      let (pod, e, f) = sole_pod_sound (c.list_pods_by_ip ip) source h in (ip, pod, refl, e, f)

  with_source_lem :
      (obs : Observation) (source : Option WorkloadRef)
      → resolve_source_workload split_host_port c obs ≡ source
      → SourceResolved obs (with_source obs source).info.source
  unfolding SourceResolved resolve_source_workload
  with_source_lem obs none h = inl refl
  with_source_lem obs (some source) h = inr (source_at_sound _ source h)

  -- the observation after its source was resolved, or not
  enrich_from :
      (obs : Observation) (source : Option WorkloadRef)
      → resolve_source_workload split_host_port c obs ≡ source
      → let seen = with_source obs source in
        let result = with_dest c seen (resolve_dest_workload c seen) in
        SourceResolved obs result.info.source × DestResolved c obs result × Keeps obs result
  unfolding SourceResolved DestResolved Keeps resolve_source_workload resolve_dest_workload
  enrich_from obs none h = let (dest, kept, s) = with_dest_lem c obs _ refl in (inl s, dest, kept)
  enrich_from obs (some source) h =
      let seen = with_source obs (some source) in
      let (ip, pod, e, f, g) = source_at_sound _ source h in
      let (dest, kept, s) = with_dest_lem c seen _ refl in (inr (ip, pod, e, f, s ∙ g), dest, kept)

  -- Enrichment of any observation with a working client changes nothing but the two workloads and
  -- the policy. The source stays, or becomes the workload of the only pod that has the peer's
  -- address. The destination and the policy stay, or the destination becomes the workload of the
  -- named pod; then a reported policy still stays, and only where there was none it becomes the
  -- one that targets that workload for ingress.
  pub enrich_sound :
      (obs : Observation)
      → SourceResolved obs (enrich split_host_port (some c) obs).info.source
        × DestResolved c obs (enrich split_host_port (some c) obs)
        × Keeps obs (enrich split_host_port (some c) obs)
  unfolding enrich
  enrich_sound obs = enrich_from obs (resolve_source_workload split_host_port c obs) refl
