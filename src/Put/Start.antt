-- ===== src/Put/Start.antt =====
-- `StartBatchPut` and `StartBatchUpsert`: asking the master for replicas.
-- The master client and the local hot cache come from headers outside the repository: they are
-- parameters, functions of what the source passes them.
use mooncake_maca_spdk_dmabu.Prelude.{
  ℕ, String, Bool, Option, none, some, List, ◌∷◌, map, length, ◌==◌, if◌then◌else◌, Text, codes,
}
use mooncake_maca_spdk_dmabu.Put.Types.{
  ErrorCode, rpc_fail, no_available_handle, Expected, ok, unexpected, Replica, ReplicateConfig,
  Slice, PutOperation, master_failed, set_error, set_terminal_error, initialize_requested_replicas,
  record_allocated_replicas,
}
use mooncake_maca_spdk_dmabu.Put.Decision.{has_expected_allocation}

-- `BatchPutStart(keys, slice_lengths, config)`, also `BatchUpsertStart`.
abbrev pub StartRpc : Type 0
StartRpc = List String → List (List ℕ) → ReplicateConfig → List (Expected (List Replica))

abbrev pub keys_of : List PutOperation → List String
keys_of ops = map (λ op. op.key) ops

abbrev pub slice_lengths_of : List PutOperation → List (List ℕ)
slice_lengths_of ops = map (λ op. map (λ (s : Slice). s.size) op.slices) ops

-- `hot_cache_->RemoveHotKeys(hot_keys)`, where there is a cache.
module _ {Cache : Type 0} (remove_hot_keys : Cache → List String → Cache) where
  unfoldable pub drop_hot_keys : Option Cache → List String → Option Cache
  drop_hot_keys none keys = none
  drop_hot_keys (some c) keys = some (remove_hot_keys c keys)

module _ (error_text : ErrorCode → Text) (is_flexible : ReplicateConfig → Bool) where
  -- The answer of the master for one operation.
  unfoldable pub start_put : ReplicateConfig → Expected (List Replica) → PutOperation → PutOperation
  unfolding initialize_requested_replicas record_allocated_replicas set_terminal_error
  start_put config (unexpected e) op =
      set_terminal_error e master_failed (codes "Master failed to start put operation")
        (initialize_requested_replicas config op)
  start_put config (ok replicas) op =
      let requested = initialize_requested_replicas config op in
      let started = record_allocated_replicas (record requested { replicas = replicas }) in
      if has_expected_allocation is_flexible config started.transfer_summary
      then started
      else set_terminal_error no_available_handle master_failed
          (codes "Allocated replicas do not satisfy requested replica policy") started

  unfoldable pub start_upsert : Expected (List Replica) → PutOperation → PutOperation
  unfolding set_error
  start_upsert (unexpected e) op =
      set_error error_text e (codes "Master failed to start upsert operation") op
  start_upsert (ok replicas) op = record op { replicas = replicas }

  -- One answer for each operation.
  unfoldable pub answer_each :
      (Expected (List Replica) → PutOperation → PutOperation)
      → List (Expected (List Replica))
      → List PutOperation
      → List PutOperation
  answer_each f (r ∷ rs) (op ∷ ops) = f r op ∷ answer_each f rs ops
  answer_each f _ ops = ops

  unfoldable pub start_batch_put :
      StartRpc → ReplicateConfig → List PutOperation → List PutOperation
  unfolding start_put answer_each set_error
  start_batch_put rpc config ops =
      let responses = rpc (keys_of ops) (slice_lengths_of ops) config in
      if length responses == length ops
      then answer_each (start_put config) responses ops
      else map (set_error error_text rpc_fail (codes "BatchPutStart response size mismatch")) ops

  unfoldable pub start_batch_upsert :
      StartRpc → ReplicateConfig → List PutOperation → List PutOperation
  unfolding start_upsert answer_each set_error
  start_batch_upsert rpc config ops =
      let responses = rpc (keys_of ops) (slice_lengths_of ops) config in
      if length responses == length ops
      then answer_each start_upsert responses ops
      else map (set_error error_text rpc_fail (codes "BatchUpsertStart response size mismatch")) ops
