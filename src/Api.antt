-- ===== src/Api.antt =====
-- api/v1alpha1: the resources and the functions on them.
pub mod Kube
pub mod Names
pub mod Types
pub mod PolicyHelpers
