-- ===== src/Scraper.antt =====
-- internal/scraper: what the flows of Cilium, Calico and Istio become, a learning event or a
-- violation.
pub mod Flow
pub mod Hubble
pub mod Cilium
pub mod Goldmane
pub mod Calico
pub mod Pipeline
pub mod Attributes
pub mod Istio
pub mod Reconnect
