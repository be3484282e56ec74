-- ===== src/Reconcile.antt =====
-- The controllers that reconcile proposals and policies, and the admission webhook.
pub mod Promotion
pub mod Duplicates
pub mod Scope
pub mod Ready
pub mod Check
pub mod Render
pub mod Policy
