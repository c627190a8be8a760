-- ===== src/Put/Decision.antt =====
-- `HasExpectedReplicaAllocation` and `DetermineFinalizeDecision`. Whether a configuration asks for
-- the flexible dual-replica mode is decided by `DetermineReplicaWriteMode`, which comes from a
-- header outside the repository: it is the parameter `is_flexible`.
pub mod Sides
pub mod Reliable
use mooncake_maca_spdk_dmabu.Prelude.{
  ◌+◌, Bool, true, false, Option, none, some, ◌&&◌, ltb, ◌==◌, if◌then◌else◌,
}
use mooncake_maca_spdk_dmabu.Put.Types.{
  ErrorCode, ok_code, no_available_handle, transfer_fail, ReplicaType, all_types, memory, nof_ssd,
  ReplicateConfig, ReplicaTransferSummary, is_ok_code,
}

pub record FinalizeDecision : Type 0 where
  pub end_type : Option ReplicaType
  pub revoke_type : Option ReplicaType
  pub success : Bool
  pub error : ErrorCode

module _ (is_flexible : ReplicateConfig → Bool) where
  unfoldable pub has_expected_allocation : ReplicateConfig → ReplicaTransferSummary → Bool
  has_expected_allocation config s =
      if config.nof_replica_num == 0
      then ltb 0 s.allocated_memory_replicas
      else if is_flexible config
      then ltb 0 (s.allocated_memory_replicas + s.allocated_nof_replicas)
      else (s.allocated_memory_replicas == config.replica_num)
        && (s.allocated_nof_replicas == config.nof_replica_num)

  unfoldable pub all_transfers_succeeded : ReplicaTransferSummary → Bool
  all_transfers_succeeded s =
      (s.successful_memory_transfers == s.allocated_memory_replicas)
      && (s.successful_nof_transfers == s.allocated_nof_replicas)
      && (s.failed_memory_transfers == 0)
      && (s.failed_nof_transfers == 0)

  abbrev revoke_all_with : ErrorCode → FinalizeDecision
  revoke_all_with e = record {
    end_type = none;
    revoke_type = some all_types;
    success = false;
    error = e;
  }

  abbrev end_with : ReplicaType → Option ReplicaType → FinalizeDecision
  end_with t r = record { end_type = some t; revoke_type = r; success = true; error = ok_code }

  unfoldable pub determine_finalize_decision :
      ReplicateConfig → ReplicaTransferSummary → FinalizeDecision
  unfolding has_expected_allocation all_transfers_succeeded
  determine_finalize_decision config s =
      if is_flexible config
      then (if ltb 0 s.successful_memory_transfers
          then (if ltb 0 s.successful_nof_transfers
              then end_with all_types none
              else end_with memory (some nof_ssd))
          else if ltb 0 s.successful_nof_transfers
          then end_with nof_ssd (some memory)
          else revoke_all_with
              (if is_ok_code s.first_error then no_available_handle else s.first_error))
      else if has_expected_allocation config s && all_transfers_succeeded s
      then end_with all_types none
      else revoke_all_with (
          if has_expected_allocation config s
          then (if is_ok_code s.first_error then transfer_fail else s.first_error)
          else no_available_handle)
