-- ===== src/Put/Decision/Sides.antt =====
-- Which replicas a finalize decision ends and which it revokes.
use mooncake_maca_spdk_dmabu.Prelude.{
  ◌<◌, Bool, true, false, not, ◌||◌, Option, some, ◌≡◌, ◌≢◌, arith, ◌⊎◌,
}
use mooncake_maca_spdk_dmabu.Put.Types.{
  ok_code, ReplicaType, all_types, memory, nof_ssd, ReplicateConfig, ReplicaTransferSummary,
}
use mooncake_maca_spdk_dmabu.Put.Decision.{FinalizeDecision, determine_finalize_decision}

-- Whether a call for `type` reaches the replicas of type `t`.
abbrev pub covers : Option ReplicaType → ReplicaType → Bool
covers (some all_types) t = true
covers (some memory) memory = true
covers (some nof_ssd) nof_ssd = true
covers _ t = false

module _ (is_flexible : ReplicateConfig → Bool) (config : ReplicateConfig)
    (s : ReplicaTransferSummary) where
  abbrev pub decision : FinalizeDecision
  decision = determine_finalize_decision is_flexible config s

  -- Every decision ends or revokes the memory replicas and the NoF replicas, each in exactly one
  -- way; the put succeeds exactly when it ends one of the two; and the decision has an error code
  -- other than OK exactly when the put fails.
  pub decision_sides :
      (covers decision.end_type memory ≡ not (covers decision.revoke_type memory))
      × (covers decision.end_type nof_ssd ≡ not (covers decision.revoke_type nof_ssd))
      × (decision.success ≡ (covers decision.end_type memory || covers decision.end_type nof_ssd))
      × ((decision.success ≡ true) × (decision.error ≡ ok_code)
          ⊎ (decision.success ≡ false) × (decision.error ≢ ok_code))
  unfolding determine_finalize_decision
  decision_sides = ground arith

  -- In the flexible mode the replicas of a type are ended exactly when a transfer of that type
  -- succeeded.
  pub flexible_ends :
      is_flexible config ≡ true
      → ((covers decision.end_type memory ≡ true) × (0 < s.successful_memory_transfers)
          ⊎ (covers decision.end_type memory ≡ false) × (s.successful_memory_transfers ≡ 0))
        × ((covers decision.end_type nof_ssd ≡ true) × (0 < s.successful_nof_transfers)
            ⊎ (covers decision.end_type nof_ssd ≡ false) × (s.successful_nof_transfers ≡ 0))
  unfolding determine_finalize_decision
  flexible_ends f = ground arith
