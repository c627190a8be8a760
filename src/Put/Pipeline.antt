-- ===== src/Put/Pipeline.antt =====
-- `BatchPut`: creating the operations, the four stages and `CollectResults`.
pub mod Balance
use mooncake_maca_spdk_dmabu.Prelude.{
  String, Bool, true, false, Option, List, [], ◌∷◌, map, if◌then◌else◌, Text,
}
use mooncake_maca_spdk_dmabu.Put.Types.{
  ErrorCode, object_already_exists, Expected, ok, unexpected, Slice, PutOperation, ReplicateConfig,
  new_operation,
}
use mooncake_maca_spdk_dmabu.Put.Start.{StartRpc, start_batch_put}
use mooncake_maca_spdk_dmabu.Put.Transfers.{
  SubmitCall, WaitCall, submit_transfers, wait_for_transfers,
}
use mooncake_maca_spdk_dmabu.Put.Finalize.{FinalizeRpc, finalize_batch_put}

-- The keys, each with its slices: `batched_slices` has an element for each key. On a shorter
-- vector the code reads out of range, which has no behaviour to model.
abbrev pub Objects : Type 0
Objects = List (String × List Slice)

-- One operation for each key.
unfoldable pub create_put_operations : Objects → List PutOperation
unfolding new_operation
create_put_operations [] = []
create_put_operations ((k, s) ∷ objects) = new_operation k s ∷ create_put_operations objects

abbrev is_already_exists : ErrorCode → Bool
is_already_exists object_already_exists = true
is_already_exists _ = false

-- An object that exists already counts as put.
unfoldable pub collect_result : PutOperation → Expected (Unit {0})
collect_result op = elim op.result [
  | ok u ↦ ok tt
  | unexpected e ↦ if is_already_exists e then ok tt else unexpected e
]

unfoldable pub collect_results : List PutOperation → List (Expected (Unit {0}))
unfolding collect_result
collect_results ops = map collect_result ops

-- What the pipeline calls outside the repository.
pub record Services : Type 0 where
  pub error_text : ErrorCode → Text
  pub is_flexible : ReplicateConfig → Bool
  pub put_start : StartRpc
  pub put_end : FinalizeRpc
  pub put_revoke : FinalizeRpc
  pub submit : Option SubmitCall
  pub get : WaitCall
  pub has_storage : Bool

-- The operations after `StartBatchPut`, `SubmitTransfers` and `WaitForTransfers`.
unfoldable pub transferred : Services → ReplicateConfig → List PutOperation → List PutOperation
transferred s config ops =
    wait_for_transfers s.get
      (submit_transfers s.submit s.has_storage
        (start_batch_put s.error_text s.is_flexible s.put_start config ops)).0

-- `BatchPut` without the same-node preference, from the resolved configuration on.
unfoldable pub batch_put_operations :
    Services → ReplicateConfig → List PutOperation → List PutOperation
unfolding transferred
batch_put_operations s config ops =
    finalize_batch_put s.error_text s.is_flexible s.put_end s.put_revoke (transferred s config ops)
