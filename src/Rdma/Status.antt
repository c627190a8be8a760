-- ===== src/Rdma/Status.antt =====
-- The two overloads of `RdmaTransport::getTransferStatus` in
-- mooncake-transfer-engine/src/transport/rdma_transport/rdma_transport.cpp, and the capacity check
-- of `submitTransfer`.
pub mod Agree
use mooncake_maca_spdk_dmabu.Prelude.{
  ℕ, zero, suc, ◌+◌, ◌%◌, ◌^◌, Bool, true, false, Option, none, some, List, [], ◌∷◌, ◌++◌, ltb, leb,
  ◌==◌, if◌then◌else◌, length, get_elem?, modify, replicate, map,
}

-- The fields of a task that its status is computed from.
pub record TaskProgress : Type 0 where
  pub transferred_bytes : ℕ
  pub success_slice_count : ℕ
  pub failed_slice_count : ℕ
  pub slice_count : ℕ
  pub is_finished : Bool

pub data TransferStatusEnum : Type 0 where
  waiting completed failed : TransferStatusEnum

pub record TransferStatus : Type 0 where
  pub s : TransferStatusEnum
  pub transferred_bytes : ℕ

unfoldable pub is_done : TaskProgress → Bool
is_done task = (task.success_slice_count + task.failed_slice_count) % 2 ^ 64 == task.slice_count

unfoldable pub status_of : TaskProgress → TransferStatus
status_of task = record {
  s =
      if is_done task
      then (if task.failed_slice_count == 0 then completed else failed)
      else waiting;
  transferred_bytes = task.transferred_bytes;
}

-- `task.is_finished = true`
unfoldable pub finish : TaskProgress → TaskProgress
finish task =
    if is_done task
    then record {
      transferred_bytes = task.transferred_bytes;
      success_slice_count = task.success_slice_count;
      failed_slice_count = task.failed_slice_count;
      slice_count = task.slice_count;
      is_finished = true;
    }
    else task

-- The overload for a whole batch: the statuses, and the tasks afterwards.
unfoldable pub get_batch_status : List TaskProgress → List TransferStatus × List TaskProgress
get_batch_status [] = ([], [])
get_batch_status (task ∷ tasks) =
    let (statuses, tasks') = get_batch_status tasks in
    (status_of task ∷ statuses, finish task ∷ tasks')

-- The overload for one task; `none` is the status for an invalid argument.
unfoldable pub get_transfer_status :
    List TaskProgress → ℕ → Option TransferStatus × List TaskProgress
get_transfer_status tasks task_id = elim (get_elem? tasks task_id) [
  | none ↦ (none, tasks)
  | some task ↦ (some (status_of task), modify task_id finish tasks)
]
