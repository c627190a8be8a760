-- ===== src/Put/Entry.antt =====
-- The public calls: `BatchUpsert`, and the replica counts that `BatchPut` takes from the environment
-- (`ParseEnvSize`, `ApplyStoreReplicaOverrideFromEnv`), of mooncake-store/src/client_service.cpp.
-- The environment and `strtoull` are parameters.
pub mod Override
pub mod Upserts
use mooncake_maca_spdk_dmabu.Prelude.{
  ℕ, ◌-◌, ◌^◌, String, Bool, true, false, not, ◌&&◌, ◌||◌, Option, none, some, List, [], ◌∷◌, map,
  ltb, ◌==◌, if◌then◌else◌, Text, is_empty,
}
use mooncake_maca_spdk_dmabu.Put.Types.{
  ErrorCode, invalid_params, Expected, ok, unexpected, Slice, PutOperation, ReplicateConfig,
}
use mooncake_maca_spdk_dmabu.Put.Start.{start_batch_upsert}
use mooncake_maca_spdk_dmabu.Put.Transfers.{submit_transfers, wait_for_transfers}
use mooncake_maca_spdk_dmabu.Put.Upsert.{UpsertRpc, finalize_batch_upsert}
use mooncake_maca_spdk_dmabu.Put.Pipeline.{
  Services, Objects, create_put_operations, collect_results,
}

-- What `strtoull` leaves: `errno`, whether it read anything, what is left, and the value.
pub record Strtoull : Type 0 where
  pub errno : ℕ
  pub read_any : Bool
  pub rest : Text
  pub value : ℕ

module _ (getenv : String → Option Text) (strtoull : Text → Strtoull) where
  unfoldable pub parse_env_size : String → Option ℕ
  parse_env_size name = elim (getenv name) [
    | none ↦ none
    | some [] ↦ none
    | some (c ∷ cs) ↦
        let r = strtoull (c ∷ cs) in
        if not (r.errno == 0) || not r.read_any || not (is_empty r.rest) || ltb (2 ^ 64 - 1) r.value
        then none
        else some r.value
  ]

  abbrev or_default : Option ℕ → ℕ → ℕ
  or_default none d = d
  or_default (some n) d = n

  abbrev with_counts : ReplicateConfig → ℕ → ℕ → ReplicateConfig
  with_counts config r n = record config { replica_num = r; nof_replica_num = n }

  -- Logging is left out.
  unfoldable pub apply_override : ReplicateConfig → ReplicateConfig
  apply_override config =
      let replicas = or_default (parse_env_size "MC_STORE_REPLICA_NUM") config.replica_num in
      let nofs = or_default (parse_env_size "MC_STORE_NOF_REPLICA_NUM") config.nof_replica_num in
      if not (config.replica_num == 1) || not (config.nof_replica_num == 0)
      then config
      else if (replicas == 0) && (nofs == 0)
      then config
      else with_counts config replicas nofs

-- `BatchUpsert` from the configuration on; `get` waits for a transfer.
unfoldable pub batch_upsert :
    Services → UpsertRpc → UpsertRpc → ReplicateConfig → Objects → List (Expected (Unit {0}))
batch_upsert s upsert_end upsert_revoke config objects =
    let started =
      start_batch_upsert s.error_text s.is_flexible s.put_start config
        (create_put_operations objects) in
    let submitted = (submit_transfers s.submit s.has_storage started).0 in
    if config.prefer_alloc_in_same_node
    then map (λ o. unexpected invalid_params) objects
    else collect_results (
        finalize_batch_upsert s.error_text upsert_end upsert_revoke
          (wait_for_transfers s.get submitted))
