-- ===== src/Put/Pipeline/Balance.antt =====
-- The operations between the transfers and the finalization.
use mooncake_maca_spdk_dmabu.Prelude.{
  ◌+◌, Bool, true, Option, none, some, List, [], ◌∷◌, map, ◌≡◌, refl, ◌⊎◌, inl, inr, arith, All,
  Text, codes, length, ◌==◌, Bool-cases,
}
use mooncake_maca_spdk_dmabu.Put.Types.{
  ErrorCode, Expected, ok, unexpected, Replica, ReplicaTransferSummary, ReplicateConfig,
  PutOperation, is_resolved, set_error, set_terminal_error, record_allocated_replica,
  record_replicas, rpc_fail, empty_summary,
}
use mooncake_maca_spdk_dmabu.Put.Start.{
  start_put, answer_each, start_batch_put, keys_of, slice_lengths_of,
}
use mooncake_maca_spdk_dmabu.Put.Transfers.{
  submit_transfers, submit_each, wait_for_transfers, wait_operation, SubmitCall, WaitCall,
}
use mooncake_maca_spdk_dmabu.Put.Transfers.Accounting.{
  memory_replicas, nof_replicas, IsStarted, IsSubmitted, submit_operation-IsSubmitted,
  submit_operation-resolved, wait_operation-IsBalanced, wait_operation-resolved,
}
use mooncake_maca_spdk_dmabu.Put.Decision.Reliable.{IsBalanced}
use mooncake_maca_spdk_dmabu.Put.Pipeline.{Services, Objects, transferred, create_put_operations}

-- What the allocation adds to the counters.
record Allocates (rs : List Replica) (s t : ReplicaTransferSummary) : Type 0 where
  memory : t.allocated_memory_replicas ≡ s.allocated_memory_replicas + memory_replicas rs
  nof : t.allocated_nof_replicas ≡ s.allocated_nof_replicas + nof_replicas rs
  no_memory_success : t.successful_memory_transfers ≡ s.successful_memory_transfers
  no_memory_failure : t.failed_memory_transfers ≡ s.failed_memory_transfers
  no_nof_success : t.successful_nof_transfers ≡ s.successful_nof_transfers
  no_nof_failure : t.failed_nof_transfers ≡ s.failed_nof_transfers

record_replicas-Allocates :
    (rs : List Replica) (s : ReplicaTransferSummary) → Allocates rs s (record_replicas rs s)
unfolding record_replicas
record_replicas-Allocates [] s = ground arith
record_replicas-Allocates (r ∷ rs) s =
    ground (arith, record_replicas-Allocates rs (record_allocated_replica r.kind s))

-- An operation that an earlier stage ended is left alone; the others have the property.
abbrev pub IsDoneOr : (PutOperation → Type 0) → PutOperation → Type 0
IsDoneOr P op = (is_resolved op ≡ true) ⊎ P op

abbrev pub HasBalance : PutOperation → Type 0
HasBalance op = IsBalanced op.transfer_summary

abbrev pub IsNew : PutOperation → Type 0
IsNew op = op.pending_transfers ≡ []

All-map :
    (P Q : PutOperation → Type 0) (f : PutOperation → PutOperation) (ops : List PutOperation)
    → ((op : PutOperation) → P op → Q (f op))
    → All P ops
    → All Q (map f ops)
All-map P Q f [] step h = tt
All-map P Q f (op ∷ ops) step (h, hs) = (step op h, All-map P Q f ops step hs)

module _ (s : Services) (config : ReplicateConfig) where
  start_put-IsStarted :
      (r : Expected (List Replica)) (op : PutOperation)
      → op.pending_transfers ≡ []
      → (is_resolved (start_put s.error_text s.is_flexible config r op) ≡ true)
        ⊎ IsStarted (start_put s.error_text s.is_flexible config r op)
  unfolding start_put
  start_put-IsStarted (unexpected e) op h = ground arith
  start_put-IsStarted (ok rs) op h = ground (arith, record_replicas-Allocates rs empty_summary)

  answer_each-IsStarted :
      (rs : List (Expected (List Replica))) (ops : List PutOperation)
      → length rs ≡ length ops
      → All IsNew ops
      → All (IsDoneOr IsStarted) (
          answer_each s.error_text s.is_flexible
            (start_put s.error_text s.is_flexible config)
            rs
            ops)
  unfolding answer_each
  answer_each-IsStarted [] [] e h = tt
  answer_each-IsStarted [] (op ∷ ops) e h = absurd (omega arith)
  answer_each-IsStarted (r ∷ rs) [] e h = tt
  answer_each-IsStarted (r ∷ rs) (op ∷ ops) e (h, hs) =
      (start_put-IsStarted r op h, answer_each-IsStarted rs ops (omega arith) hs)

  set_error-resolved :
      (e : ErrorCode) (c : Text) (op : PutOperation)
      → IsNew op
      → IsDoneOr IsStarted (set_error s.error_text e c op)
  unfolding set_error
  set_error-resolved e c op h = inl (ground arith)

  start_batch_put-IsStarted :
      (ops : List PutOperation)
      → All IsNew ops
      → All (IsDoneOr IsStarted) (start_batch_put s.error_text s.is_flexible s.put_start config ops)
  unfolding start_batch_put
  start_batch_put-IsStarted ops h =
      let responses = s.put_start (keys_of ops) (slice_lengths_of ops) config in
      elim (Bool-cases (length responses == length ops)) [
        | inl e ↦ rw e (answer_each-IsStarted responses ops (ground arith) h)
        | inr e ↦ rw e (
            All-map IsNew (IsDoneOr IsStarted) _ ops
              (set_error-resolved rpc_fail (codes "BatchPutStart response size mismatch")) h)
      ]

submit_each-IsSubmitted :
    (submit : SubmitCall) (has_storage : Bool) (ops : List PutOperation)
    → All (IsDoneOr IsStarted) ops
    → All (IsDoneOr IsSubmitted) (submit_each submit has_storage ops).0
unfolding submit_each
submit_each-IsSubmitted submit has_storage [] h = tt
submit_each-IsSubmitted submit has_storage (op ∷ ops) (inl d, hs) = (
  inl (submit_operation-resolved submit has_storage op d),
  submit_each-IsSubmitted submit has_storage ops hs,
)
submit_each-IsSubmitted submit has_storage (op ∷ ops) (inr h, hs) = (
  submit_operation-IsSubmitted submit has_storage op h,
  submit_each-IsSubmitted submit has_storage ops hs,
)

submit_transfers-IsSubmitted :
    (submit : Option SubmitCall) (has_storage : Bool) (ops : List PutOperation)
    → All (IsDoneOr IsStarted) ops
    → All (IsDoneOr IsSubmitted) (submit_transfers submit has_storage ops).0
unfolding submit_transfers set_terminal_error
submit_transfers-IsSubmitted none has_storage ops h =
    All-map (IsDoneOr IsStarted) (IsDoneOr IsSubmitted) _ ops (λ op _. inl refl) h
submit_transfers-IsSubmitted (some submit) has_storage ops h =
    submit_each-IsSubmitted submit has_storage ops h

wait_step :
    (get : WaitCall) (op : PutOperation)
    → IsDoneOr IsSubmitted op
    → IsDoneOr HasBalance (wait_operation get op)
wait_step get op (inl d) = inl (wait_operation-resolved get op d)
wait_step get op (inr h) = wait_operation-IsBalanced get op h

-- Whatever the master and the transfers answer, each operation that is still pending after the
-- transfers has, for the memory replicas and for the NoF replicas, as many successes and failures
-- recorded as replicas were allocated. The operations come in with no transfer under way.
pub transferred-IsBalanced :
    (s : Services) (config : ReplicateConfig) (ops : List PutOperation)
    → All IsNew ops
    → All (IsDoneOr HasBalance) (transferred s config ops)
unfolding transferred wait_for_transfers
transferred-IsBalanced s config ops h =
    All-map (IsDoneOr IsSubmitted) (IsDoneOr HasBalance) _ _ (wait_step s.get) (
      submit_transfers-IsSubmitted s.submit s.has_storage _
        (start_batch_put-IsStarted s config ops h))

-- The operations that `BatchPut` creates have no transfer under way.
pub create_put_operations-IsNew : (objects : Objects) → All IsNew (create_put_operations objects)
unfolding create_put_operations
create_put_operations-IsNew [] = tt
create_put_operations-IsNew ((k, s) ∷ objects) = (refl, create_put_operations-IsNew objects)
