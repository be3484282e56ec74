-- ===== src/Status.antt =====
-- api/v1alpha1/violation_record.go: the violations in the status of a WorkloadNetworkPolicy.
pub mod Table
pub mod Sorting
pub mod Key
pub mod Merge
pub mod Clear
pub mod Acknowledge
pub mod Recompute
