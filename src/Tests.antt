-- ===== src/Tests.antt =====
-- The theorems at concrete inputs.
mod Data
mod StatusTests
mod AttributionTests
mod LearningTests
mod ReconcileTests
mod Cluster
mod CiliumTests
mod CalicoTests
mod PipelineTests
mod IstioTests
mod AgentTests
mod TlsTests
