-- ===== src/Put/Decision/Reliable.antt =====
-- The reliable modes: a put succeeds exactly when nothing failed.
use mooncake_maca_spdk_dmabu.Prelude.{◌+◌, Bool, false, ◌&&◌, ◌==◌, ◌≡◌, arith}
use mooncake_maca_spdk_dmabu.Put.Types.{ReplicateConfig, ReplicaTransferSummary}
use mooncake_maca_spdk_dmabu.Put.Decision.{determine_finalize_decision, has_expected_allocation}

-- Each allocated replica had a transfer, which succeeded or failed.
pub record IsBalanced (s : ReplicaTransferSummary) : Type 0 where
  pub memory_count :
      s.successful_memory_transfers + s.failed_memory_transfers ≡ s.allocated_memory_replicas
  pub nof_count : s.successful_nof_transfers + s.failed_nof_transfers ≡ s.allocated_nof_replicas

-- Outside the flexible mode, once every allocated replica's transfer has succeeded or failed, the
-- put succeeds exactly when the allocation is the expected one and no transfer failed.
pub reliable_success :
    (is_flexible : ReplicateConfig → Bool) (config : ReplicateConfig) (s : ReplicaTransferSummary)
    → is_flexible config ≡ false
    → IsBalanced s
    → (determine_finalize_decision is_flexible config s).success ≡ (
        has_expected_allocation is_flexible config s
        && (s.failed_memory_transfers + s.failed_nof_transfers == 0))
unfolding determine_finalize_decision
reliable_success is_flexible config s f b = ground arith
