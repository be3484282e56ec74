-- ===== src/Lib.antt =====
-- network-enforcer learns the flows between the workloads of a cluster into proposals of network
-- policies, promotes proposals into policies, renders policies into the data plane, and reports the
-- flows that violate them in the status of the policies.
--
-- How the parts meet. The scrapers (internal/scraper) turn the flows of Cilium, Calico and Istio into
-- learning events, which they send to a channel, and into violations, which they record in the ring
-- buffer. A learning event (internal/controller/learning_*.go) adds rules to a proposal,
-- or, once the proposal is promoted, is evaluated against the policy and may record a violation in
-- the ring buffer (internal/ringbuf). The proposal controller promotes labelled proposals. The status
-- synchronisation (internal/controller/workloadnetworkpolicystatus_sync.go) drains the buffer,
-- attributes each violation to a policy, and recomputes the status of every policy
-- (api/v1alpha1/violation_record.go).
--
-- The files.
--   Common: helpers on lists, maps, integers and texts, among them strconv's decimal numbers.
--   Ringbuf: internal/ringbuf/buffer.go, NewWithSize, Record and Drain; the counter is 64 bits.
--   Api: api/v1alpha1, the resources and policy_helpers.go.
--   Status: api/v1alpha1/violation_record.go. Status/Merge is mergeScrapedViolations, Status/Clear is
--     clearAllowedViolations, Status/Acknowledge is acknowledgeViolationsFromAnnotations and
--     Status/Recompute is RecomputeStatus. The counters of a status are 64 bits.
--   Target, Workload: internal/workload, target_index.go and extract.go.
--   Enrich: internal/istio/enrich.go.
--   Otel: internal/violation/otel.go.
--   Scraper: internal/scraper. Scraper/Flow is flow_parser_helpers.go, Scraper/Hubble and Cilium are
--     cilium_flow_parser.go, Scraper/Goldmane and Calico are calico_flow_parser.go, Scraper/Attributes
--     and Istio are istio_scraper.go, Scraper/Pipeline has the loops of cilium_scraper.go and
--     calico_scraper.go with enqueueEvent, and Scraper/Reconnect has scraper_helpers.go.
--   Ztunnel: internal/ztunnel/parser.go.
--   Tailer: internal/tailer, the store of persister.go, the defaults and the start of tailer.go.
--   Attribution: attributeViolation and what it calls; Attribution/Snapshot has the indexes of a
--     cycle, Attribution/Correlate is correlateViolationsToWNPs.
--   Sync: one cycle of sync and processWorkloadNetworkPolicy.
--   Learning: learning_kubernetes.go, learning_istio.go, monitor_kubernetes.go, workload_selectors.go
--     and Reconcile of learning_controller.go.
--   Reconcile: the proposal controller (Promotion), duplicate targets and the admission webhook
--     (Duplicates), the scope of selectors (Scope) and its check against the cluster, of the rendered
--     policy too (Check), the rendered objects (Render), one reconciliation of a policy (Policy) and
--     its Ready condition (Ready).
--   Certsource: internal/certsource, the flags and sources of TLS material.
--   Tlsutil: internal/tlsutil/certs.go, the credentials made from it.
--   Provider: cmd/controller/main.go, the scraper that the flags set up, and internal/types/otlp.
--   Tests: the theorems at concrete inputs.
--
-- Conventions. A pointer is an Option, a Go map is an association list in the order in which a range
-- visits it, a time is a number, an error or a panic is a value. The API server, FormatLabelSelector,
-- label selectors, text order, CreateOrUpdate, net.SplitHostPort, the JSON codecs, crypto/x509, net/url,
-- the retry library and the file system are arguments of the definitions that use them. An error is known by what
-- errors.Is finds in it; its text is only logged. A flow message has the values of an enumeration that
-- the code tests for, and one for the others. Every loop is structural recursion, so no fuel is chosen
-- but in format_digits, where one round more than the number is enough.
--
-- Not modelled. Connections, gRPC, the file consumer of the tailer, the rest of process set-up,
-- metrics registration and exporters, which are input and output; generated code.
pub mod Common
pub mod Ringbuf
pub mod Api
pub mod Status
pub mod Target
pub mod Workload
pub mod Enrich
pub mod Otel
pub mod Scraper
pub mod Ztunnel
pub mod Tailer
pub mod Certsource
pub mod Tlsutil
pub mod Provider
pub mod Attribution
pub mod Sync
pub mod Learning
pub mod Reconcile
pub mod Tests
