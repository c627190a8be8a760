-- ===== src/Put/Transfers.antt =====
-- `SubmitTransfers` and `WaitForTransfers`. The transfer submitter is outside the repository:
-- `submit` answers with the handle of a future or with nothing, and `get` waits for a handle.
pub mod Accounting
use mooncake_maca_spdk_dmabu.Prelude.{
  ℕ, ◌+◌, String, Bool, Option, none, some, List, [], ◌∷◌, ◌++◌, map, if◌then◌else◌, ◌||◌, codes,
}
use mooncake_maca_spdk_dmabu.Decimal.{to_string}
use mooncake_maca_spdk_dmabu.Put.Types.{
  ErrorCode, internal_error, invalid_params, transfer_fail, is_ok_code, ReplicaType, memory,
  nof_ssd, is_memory, is_nof, is_disk, Replica, Slice, PutOperation, master_failed, transfer_failed,
  is_resolved, record_failure, record_success, set_terminal_error, append_failure_context,
}

abbrev pub SubmitCall : Type 0
SubmitCall = Replica → List Slice → Option ℕ

abbrev pub WaitCall : Type 0
WaitCall = ℕ → ErrorCode

-- The answer of the submitter for the replica at `idx`.
unfoldable pub record_submission : ReplicaType → ℕ → Option ℕ → PutOperation → PutOperation
unfolding record_failure append_failure_context
record_submission type idx none op =
    append_failure_context (codes "Failed to submit transfer for replica " ++ to_string idx)
      (record op { transfer_summary = record_failure type transfer_fail op.transfer_summary })
record_submission type idx (some handle) op = record op {
  pending_transfers = op.pending_transfers ++ (type, handle) ∷ [];
}

-- One replica; a disk replica is not submitted.
unfoldable pub submit_replica : SubmitCall → Replica → ℕ → PutOperation → PutOperation
submit_replica submit r idx op =
    if is_memory r.kind || is_nof r.kind
    then record_submission (if is_memory r.kind then memory else nof_ssd) idx (submit r op.slices)
        op
    else op

-- The loop over the replicas from `idx` on.
unfoldable pub submit_replicas : SubmitCall → List Replica → ℕ → PutOperation → PutOperation
unfolding submit_replica record_submission
submit_replicas submit [] idx op = op
submit_replicas submit (r ∷ rs) idx op =
    submit_replicas submit rs (idx + 1) (submit_replica submit r idx op)

-- The last disk replica, which the reverse loop meets first.
unfoldable pub last_disk_replica : List Replica → Option Replica
last_disk_replica [] = none
last_disk_replica (r ∷ rs) = elim (last_disk_replica rs) [
  | some d ↦ some d
  | none ↦ if is_disk r.kind then some r else none
]

-- One round of the loop. The second part is the call of `PutToLocalFile`, if it is made.
unfoldable pub submit_operation :
    SubmitCall → Bool → PutOperation → PutOperation × Option (String × Replica)
unfolding submit_replicas last_disk_replica set_terminal_error
submit_operation submit has_storage op = if is_resolved op then (op, none) else elim op.replicas [
  | [] ↦ (
    set_terminal_error internal_error master_failed (codes "No replicas available for transfer") op,
    none,
  )
  | r ∷ rs ↦ (
    submit_replicas submit op.replicas 0 op,
    elim (last_disk_replica op.replicas) [
      | none ↦ none
      | some d ↦ if has_storage then some (op.key, d) else none
    ],
  )
]

-- The operations, and the calls of `PutToLocalFile` in their order.
unfoldable pub submit_each :
    SubmitCall → Bool → List PutOperation → List PutOperation × List (String × Replica)
unfolding submit_operation
submit_each submit has_storage [] = ([], [])
submit_each submit has_storage (op ∷ ops) =
    let (op', write) = submit_operation submit has_storage op in
    let (ops', writes) = submit_each submit has_storage ops in
    (op' ∷ ops', elim write [ none ↦ writes | some w ↦ w ∷ writes ])

-- Without a submitter every operation ends.
unfoldable pub submit_transfers :
    Option SubmitCall → Bool → List PutOperation → List PutOperation × List (String × Replica)
unfolding submit_each
submit_transfers none has_storage ops = (
  map
      (set_terminal_error invalid_params transfer_failed
        (codes "TransferSubmitter not initialized"))
      ops,
  [],
)
submit_transfers (some submit) has_storage ops = submit_each submit has_storage ops

-- The result of the transfer at position `i`.
unfoldable pub record_completion : ReplicaType → ℕ → ErrorCode → PutOperation → PutOperation
unfolding record_success record_failure append_failure_context
record_completion type i result op =
    if is_ok_code result
    then record op { transfer_summary = record_success type op.transfer_summary }
    else append_failure_context (codes "Transfer " ++ to_string i ++ codes " failed")
        (record op { transfer_summary = record_failure type result op.transfer_summary })

unfoldable pub wait_each : WaitCall → List (ReplicaType × ℕ) → ℕ → PutOperation → PutOperation
unfolding record_completion
wait_each get [] i op = op
wait_each get ((type, handle) ∷ ts) i op =
    wait_each get ts (i + 1) (record_completion type i (get handle) op)

unfoldable pub wait_operation : WaitCall → PutOperation → PutOperation
unfolding wait_each
wait_operation get op = if is_resolved op then op else wait_each get op.pending_transfers 0 op

unfoldable pub wait_for_transfers : WaitCall → List PutOperation → List PutOperation
unfolding wait_operation
wait_for_transfers get ops = map (wait_operation get) ops
