-- ===== src/Learning.antt =====
-- internal/controller/learning_kubernetes.go, learning_istio.go, monitor_kubernetes.go and
-- workload_selectors.go: what one observed flow adds to a proposal.
pub mod Names
pub mod Rules
pub mod Laws
pub mod Kubernetes
pub mod Istio
pub mod Learner
pub mod Gap
