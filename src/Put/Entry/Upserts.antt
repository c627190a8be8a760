-- ===== src/Put/Entry/Upserts.antt =====
-- The results of `BatchUpsert` and the transfers.
use mooncake_maca_spdk_dmabu.Prelude.{List, [], ◌∷◌, map, ◌≡◌, refl, ap, sym, ◌∙◌, if◌then◌else◌}
use mooncake_maca_spdk_dmabu.Put.Types.{
  Expected, unexpected, invalid_params, PutOperation, PutOperationState, new_operation,
  ReplicateConfig,
}
use mooncake_maca_spdk_dmabu.Put.Start.{start_batch_upsert}
use mooncake_maca_spdk_dmabu.Put.Transfers.{WaitCall, submit_transfers}
use mooncake_maca_spdk_dmabu.Put.Upsert.{UpsertRpc}
use mooncake_maca_spdk_dmabu.Put.Upsert.Blind.{outcomes, upsert_outcomes-wait}
use mooncake_maca_spdk_dmabu.Put.Pipeline.{
  Services, Objects, create_put_operations, collect_result, collect_results,
}
use mooncake_maca_spdk_dmabu.Put.Entry.{batch_upsert}

-- `CollectResults` on the result alone.
abbrev collected : PutOperationState × Expected (Unit {0}) → Expected (Unit {0})
collected o = collect_result (record (new_operation "" []) { result = o.1 })

collect_results_lem : (ops : List PutOperation) → collect_results ops ≡ map collected (outcomes ops)
unfolding collect_results collect_result
collect_results_lem [] = refl
collect_results_lem (op ∷ ops) = ap (λ z. collect_result op ∷ z) (collect_results_lem ops)

collect_results-outcomes :
    (xs ys : List PutOperation)
    → outcomes xs ≡ outcomes ys
    → collect_results xs ≡ collect_results ys
collect_results-outcomes xs ys e =
    collect_results_lem xs ∙ ap (map collected) e ∙ sym (collect_results_lem ys)

-- The results of `BatchUpsert` do not depend on how the transfers end: two runs that differ in the
-- transfers' results alone answer the same.
pub batch_upsert-blind :
    (s : Services) (get : WaitCall) (upsert_end upsert_revoke : UpsertRpc)
    (config : ReplicateConfig) (objects : Objects)
    → batch_upsert s upsert_end upsert_revoke config objects
      ≡ batch_upsert (record s { get = get }) upsert_end upsert_revoke config objects
unfolding batch_upsert
batch_upsert-blind s get upsert_end upsert_revoke config objects =
    let submitted =
      (submit_transfers s.submit s.has_storage (
        start_batch_upsert s.error_text s.is_flexible s.put_start config
          (create_put_operations objects))).0 in
    let one = upsert_outcomes-wait s.error_text upsert_end upsert_revoke s.get submitted in
    let other = upsert_outcomes-wait s.error_text upsert_end upsert_revoke get submitted in
    let same = collect_results-outcomes _ _ (one ∙ sym other) in
    ap
      (λ z.
        if config.prefer_alloc_in_same_node
        then map (λ o. unexpected invalid_params) objects
        else z)
      same
