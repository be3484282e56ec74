-- ===== src/Scraper/Istio/Laws.antt =====
-- internal/scraper/istio_scraper.go: what may be learned from a log record.
use network_enforcer.Common.{
  String, List, ◌≡◌, ◌≢◌, refl, inl, inr, Option, none, some, sym, ◌||◌, ◌==◌, string_eq,
  Bool-cases, arith, ne_of_eq-false,
}
use network_enforcer.Common.Int.{ℤ}
use network_enforcer.Common.Result.{Result, failed, ok}
use network_enforcer.Common.Text.{cut_prefix}
use network_enforcer.Api.Kube.{protocol_tcp}
use network_enforcer.Api.Types.{WorkloadRef, LearningEvent, bare_ref, is_supported, backend_istio}
use network_enforcer.Workload.{Client, get}
use network_enforcer.Workload.Laws.{IsResolved, get-IsResolved}
use network_enforcer.Enrich.{get_workload_ref}
use network_enforcer.Scraper.Flow.{FlowError, parse_port}
use network_enforcer.Scraper.Flow.Laws.{IsPort, parse_port_sound}
use network_enforcer.Scraper.Attributes.{attr}
use network_enforcer.Scraper.Istio.{
  learning_event, event_of_identity, dest_of_port, supported_dest, learned_event, src_identity_key,
  spiffe_uri_prefix, dst_port_key, dst_name_key, dst_namespace_key,
}

-- A source that is only an identity, without its scheme and not empty, a resolved workload as the
-- destination, and a TCP port from 1 to 65535.
unfoldable pub IsLearned : Client → List (String × String) → LearningEvent → Type 0
IsLearned c attrs event =
    (identity : String) × (dest : WorkloadRef) × (cut_prefix (attr attrs src_identity_key)
        spiffe_uri_prefix
      ≡ some identity)
    × (identity ≢ "")
    × (event.source ≡ some (record (bare_ref "" "" "") { identity = identity }))
    × (event.dest ≡ some dest)
    × (get c (attr attrs dst_namespace_key) (attr attrs dst_name_key) ≡ some dest)
    × IsResolved c dest
    × IsPort 1 event.dst_port
    × (event.protocol ≡ protocol_tcp)
    × (event.backend ≡ backend_istio)

module _ (c : Client) (attrs : List (String × String)) (event : LearningEvent) where
  dest_lem :
      (identity : String) (port : ℤ) (dest : Option WorkloadRef)
      → cut_prefix (attr attrs src_identity_key) spiffe_uri_prefix ≡ some identity
      → identity ≢ ""
      → IsPort 1 port
      → get c (attr attrs dst_namespace_key) (attr attrs dst_name_key) ≡ dest
      → supported_dest identity port dest ≡ some event
      → IsLearned c attrs event
  unfolding IsLearned
  dest_lem identity port none i n p g h = cc
  dest_lem identity port (some dest) i n p g h = elim (Bool-cases (is_supported dest.owner_kind)) [
    | inl e ↦
        let same : learned_event identity port dest ≡ event = (let h' = rw e at h in cc) in
        rw (sym same)
          (identity, dest, i, n, refl, refl, g, get-IsResolved c _ _ dest g e, p, refl, refl)
    | inr e ↦ absurd (cc (rw e at h))
  ]

  port_lem :
      (identity : String) (port : Result FlowError ℤ)
      → cut_prefix (attr attrs src_identity_key) spiffe_uri_prefix ≡ some identity
      → identity ≢ ""
      → parse_port (attr attrs dst_port_key) ≡ port
      → dest_of_port (some c) attrs identity port ≡ some event
      → IsLearned c attrs event
  unfolding get_workload_ref
  port_lem identity (failed err) i n p h = cc
  port_lem identity (ok port) i n p h =
      dest_lem identity port _ i n (parse_port_sound _ port p) refl h

  identity_lem :
      (identity : Option String)
      → cut_prefix (attr attrs src_identity_key) spiffe_uri_prefix ≡ identity
      → event_of_identity (some c) attrs identity ≡ some event
      → IsLearned c attrs event
  identity_lem none i h = cc
  identity_lem (some identity) i h =
      elim (Bool-cases (
        attr attrs dst_name_key == ""
        || attr attrs dst_namespace_key == ""
        || attr attrs dst_port_key == ""
        || identity == "")) [
          | inl e ↦ absurd (cc (rw e at h))
          | inr e ↦
              port_lem identity _ i (ne_of_eq-false identity "" (ground arith)) refl (rw e at h)
        ]

  -- A learn record becomes an event only if it names a source identity behind the SPIFFE scheme and
  -- a pod that resolves to a supported workload. The event has the identity without the scheme, that
  -- workload with its non-empty selector, and a TCP port from 1 to 65535.
  pub learning_event_sound : learning_event (some c) attrs ≡ some event → IsLearned c attrs event
  unfolding learning_event
  learning_event_sound h =
      identity_lem (cut_prefix (attr attrs src_identity_key) spiffe_uri_prefix) refl h
