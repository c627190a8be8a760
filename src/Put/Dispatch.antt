-- ===== src/Put/Dispatch.antt =====
-- `BatchPut` of mooncake-store/src/client_service.cpp, from the resolved configuration on.
use mooncake_maca_spdk_dmabu.Prelude.{
  not, Option, none, some, List, map, ltb, ◌==◌, if◌then◌else◌, ◌≢◌, ◌≡◌, refl, arith, Option-cases,
  inl, inr,
}
use mooncake_maca_spdk_dmabu.Put.Types.{
  invalid_params, Expected, unexpected, PutOperation, ReplicateConfig,
}
use mooncake_maca_spdk_dmabu.Put.Start.{start_batch_put}
use mooncake_maca_spdk_dmabu.Put.Pipeline.{
  Services, Objects, create_put_operations, collect_results, batch_put_operations,
}
use mooncake_maca_spdk_dmabu.Put.Transfers.{SubmitCall}
use mooncake_maca_spdk_dmabu.Put.SameNode.{
  SubmitBatch, transfer_batches, batch_put_when_prefer_same_node,
}
use mooncake_maca_spdk_dmabu.Put.SameNode.Reach.{transfer_batches-Reaches}

module _ (s : Services) (submit_batch : SubmitBatch) where
  -- `transfer_submitter_`, which is null exactly where `SubmitTransfers` finds it null.
  abbrev submitter : Option SubmitBatch
  submitter = elim s.submit [ none ↦ none | some submit ↦ some submit_batch ]

  abbrev same_node : List PutOperation → Option (List (Expected (Unit {0})))
  same_node ops =
      batch_put_when_prefer_same_node s.error_text submitter s.get s.put_end s.put_revoke
        s.is_flexible ops

  -- `none` is an exception or a null dereference.
  unfoldable pub batch_put : ReplicateConfig → Objects → Option (List (Expected (Unit {0})))
  batch_put config objects =
      let ops = create_put_operations objects in
      let invalid : Option (List (Expected (Unit {0}))) =
        some (map (λ o. unexpected invalid_params) objects) in
      let merged = same_node (start_batch_put s.error_text s.is_flexible s.put_start config ops) in
      if config.prefer_alloc_in_same_node
      then if ltb 0 config.nof_replica_num
        then invalid
        else if not (config.replica_num == 1)
        then invalid
        else merged
      else some (collect_results (batch_put_operations s config ops))

  same_node_answers :
      (submit : SubmitCall) (ops : List PutOperation)
      → s.submit ≡ some submit
      → same_node ops ≢ none
  same_node_answers submit ops there =
      let has : submitter ≡ some submit_batch = rw there refl in
      elim (Option-cases (transfer_batches s.error_text (some submit_batch) s.get ops)) [
        | inl e ↦ absurd (transfer_batches-Reaches submit_batch s.get s.error_text ops e)
        | inr (ops', e) ↦ λ q. unfold batch_put_when_prefer_same_node in ground arith
      ]

  -- With a transfer submitter `BatchPut` answers for every configuration, whatever the master and
  -- the transfers answer: no lookup of a batch throws. (Without one, a put that prefers the same
  -- node dereferences null as soon as it has a batch.)
  pub batch_put_answers :
      (submit : SubmitCall) (config : ReplicateConfig) (objects : Objects)
      → s.submit ≡ some submit
      → batch_put config objects ≢ none
  unfolding batch_put
  batch_put_answers submit config objects there = λ e. ground (
    arith,
    same_node_answers submit
        (start_batch_put s.error_text s.is_flexible s.put_start config
          (create_put_operations objects))
        there,
  )
