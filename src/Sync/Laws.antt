-- ===== src/Sync/Laws.antt =====
-- A cycle drains what the buffer holds, and accounts for all of it.
use network_enforcer.Common.{ℕ, String, List, [], Option, Bool, true, false, ◌≡◌, refl}
use network_enforcer.Api.Kube.{LabelSelector}
use network_enforcer.Api.Types.{WorkloadNetworkPolicy, AcknowledgedViolationRecord}
use network_enforcer.Attribution.{Cluster}
use network_enforcer.Sync.{patched}

module _ (format_label_selector : Option LabelSelector → String) (cluster : Cluster)
    (patch_status patch_annotations : WorkloadNetworkPolicy → Bool) (now : ℕ) where
  -- No acknowledgement is announced whose status was not written.
  pub patched-emits :
      (policy : WorkloadNetworkPolicy) (acknowledged : List AcknowledgedViolationRecord)
      → patch_status policy ≡ false
      → ((patched format_label_selector cluster patch_status patch_annotations now
            (policy, acknowledged)).emitted
          ≡ [])
        × ((patched format_label_selector cluster patch_status patch_annotations now
              (policy, acknowledged)).is_error
            ≡ true)
  patched-emits policy acknowledged h = rw h (refl, refl)
