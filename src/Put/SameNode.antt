-- ===== src/Put/SameNode.antt =====
-- `BatchPutWhenPreferSameNode` of mooncake-store/src/client_service.cpp: the operations whose memory
-- lies at one endpoint share one batch transfer. `seg_to_ops` is a list with one batch for an
-- endpoint; the merged operations are waited for by `wait_operation`, and every replica of a batch
-- has the batch's endpoint.
pub mod Reach
use mooncake_maca_spdk_dmabu.Prelude.{
  ℕ, String, Bool, true, false, not, Option, none, some, List, [], ◌∷◌, ◌++◌, map, ltb, ◌==◌,
  if◌then◌else◌, str_eq, Text, codes,
}
use mooncake_maca_spdk_dmabu.Put.Types.{
  ErrorCode, internal_error, invalid_params, transfer_fail, Expected, ReplicaType, memory, Replica,
  is_memory, Slice, ReplicaTransferSummary, empty_summary, record_failure, PutOperation,
  is_resolved, new_operation, set_error, ReplicateConfig,
}
use mooncake_maca_spdk_dmabu.Put.Transfers.{WaitCall, wait_operation}
use mooncake_maca_spdk_dmabu.Put.Finalize.{FinalizeRpc, finalize_batch_put}
use mooncake_maca_spdk_dmabu.Put.Pipeline.{collect_results}

pub record Batch : Type 0 where
  pub endpoint : String
  pub key : String
  pub slices : List Slice
  pub replicas : List Replica
  pub batched_slices : List (List Slice)

unfoldable pub add_batch : PutOperation → Replica → List Batch → List Batch
add_batch op r [] =
    record {
      endpoint = r.endpoint;
      key = op.key;
      slices = op.slices;
      replicas = r ∷ [];
      batched_slices = op.slices ∷ [];
    }
    ∷ []
add_batch op r (b ∷ bs) =
    let rest = b ∷ add_batch op r bs in
    if str_eq b.endpoint r.endpoint
    then record b {
      replicas = b.replicas ++ r ∷ [];
      batched_slices = b.batched_slices ++ op.slices ∷ [];
    }
      ∷ bs
    else rest

-- `submit_batch`; `none` is a transfer that could not be submitted.
abbrev pub SubmitBatch : Type 0
SubmitBatch = List Replica → List (List Slice) → Option ℕ

abbrev pub join : PutOperation → Option Replica → List Batch → List Batch
join op none bs = bs
join op (some r) bs = add_batch op r bs

module _ (error_text : ErrorCode → Text) where
  -- The first loop for one operation: the operation, and the replica that it joins a batch with.
  unfoldable pub classify : PutOperation → PutOperation × Option Replica
  classify op = if is_resolved op then (op, none) else elim op.replicas [
    | [] ↦
        (set_error error_text internal_error (codes "No replicas available for transfer") op, none)
    | (r ∷ rs) ↦
        if not (is_memory r.kind)
        then (set_error error_text invalid_params (codes "only memory is supported.") op, none)
        else if r.size == 0
        then (set_error error_text invalid_params (codes "buffer size is 0.") op, none)
        else (op, some r)
  ]

  unfoldable pub classify_all : List PutOperation → List Batch → List PutOperation × List Batch
  classify_all [] bs = ([], bs)
  classify_all (op ∷ ops) bs =
      let (op', r) = classify op in
      let (ops', bs') = classify_all ops (join op r bs) in (op' ∷ ops', bs')

-- The merged operation of a batch.
unfoldable pub merge_batch : SubmitBatch → Batch → String × PutOperation
merge_batch submit_batch b =
    let merged : PutOperation = record (new_operation b.key b.slices) {
      replicas = b.replicas;
      transfer_summary = record empty_summary { allocated_memory_replicas = 1 };
    } in
    (
      b.endpoint,
      elim (submit_batch b.replicas b.batched_slices) [
        | none ↦ record merged {
          transfer_summary = record_failure memory transfer_fail merged.transfer_summary;
          failure_context = some (codes "Failed to submit batch transfer");
        }
        | some handle ↦ record merged { pending_transfers = (memory, handle) ∷ [] }
      ],
    )

unfoldable pub wait_batch : WaitCall → String × PutOperation → String × PutOperation
wait_batch get (endpoint, op) = (endpoint, wait_operation get op)

-- `seg_to_ops.at(seg)`; `none` is the exception.
unfoldable pub batch_at : String → List (String × PutOperation) → Option PutOperation
batch_at seg [] = none
batch_at seg ((endpoint, op) ∷ bs) =
    let rest = batch_at seg bs in if str_eq endpoint seg then some op else rest

abbrev one_if_any : ℕ → ℕ
one_if_any n = if ltb 0 n then 1 else 0

abbrev copied : PutOperation → PutOperation → PutOperation
copied merged op = record op {
  transfer_summary = record op.transfer_summary {
    successful_memory_transfers = one_if_any merged.transfer_summary.successful_memory_transfers;
    failed_memory_transfers = one_if_any merged.transfer_summary.failed_memory_transfers;
    first_error = merged.transfer_summary.first_error;
  };
  failure_context = merged.failure_context;
}

-- The last loop for one operation.
unfoldable pub write_back : List (String × PutOperation) → PutOperation → Option PutOperation
write_back bs op = if is_resolved op then some op else elim op.replicas [
  | [] ↦ none
  | (r ∷ rs) ↦ elim (batch_at r.endpoint bs) [ none ↦ none | some merged ↦ some (copied merged op) ]
]

unfoldable pub write_back_all :
    List (String × PutOperation) → List PutOperation → Option (List PutOperation)
write_back_all bs [] = some []
write_back_all bs (op ∷ ops) =
    let rest = write_back_all bs ops in
    elim (write_back bs op) [
      | none ↦ none
      | some op' ↦ elim rest [ none ↦ none | some ops' ↦ some (op' ∷ ops') ]
    ]

-- The merged operations, waited for. `none` is a null `transfer_submitter_`, which the loop over the
-- batches dereferences unchecked.
unfoldable pub transfer_merged :
    Option SubmitBatch → WaitCall → List Batch → Option (List (String × PutOperation))
unfolding merge_batch wait_batch
transfer_merged submitter get [] = some []
transfer_merged none get (b ∷ bs) = none
transfer_merged (some submit_batch) get (b ∷ bs) =
    some (map (λ x. wait_batch get (merge_batch submit_batch x)) (b ∷ bs))

module _ (error_text : ErrorCode → Text) (submitter : Option SubmitBatch) (get : WaitCall) where
  -- The operations in front of `FinalizeBatchPut`; `none` is an exception or a null dereference.
  unfoldable pub transfer_batches : List PutOperation → Option (List PutOperation)
  unfolding transfer_merged
  transfer_batches ops =
      let (ops', bs) = classify_all error_text ops [] in
      elim (transfer_merged submitter get bs) [
        | none ↦ none
        | some merged ↦ write_back_all merged ops'
      ]

  unfoldable pub batch_put_when_prefer_same_node :
      (put_end put_revoke : FinalizeRpc) (is_flexible : ReplicateConfig → Bool)
      → List PutOperation
      → Option (List (Expected (Unit {0})))
  batch_put_when_prefer_same_node put_end put_revoke is_flexible ops = elim (transfer_batches ops) [
    | none ↦ none
    | some ops' ↦
        some (collect_results (finalize_batch_put error_text is_flexible put_end put_revoke ops'))
  ]
