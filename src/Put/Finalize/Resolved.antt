-- ===== src/Put/Finalize/Resolved.antt =====
-- Every operation is resolved when `FinalizeBatchPut` returns.
use mooncake_maca_spdk_dmabu.Prelude.{
  ℕ, suc, ◌+◌, Bool, true, List, [], ◌∷◌, ◌≡◌, refl, ap, ◌∙◌, arith, All, length, get_or, Text,
}
use mooncake_maca_spdk_dmabu.Put.Types.{ErrorCode, ReplicateConfig, PutOperation, is_resolved}
use mooncake_maca_spdk_dmabu.Put.Finalize.{
  Verdict, no_verdict, Plan, FinalizeRpc, plan_all, resolve_operation, resolve_all,
  finalize_batch_put, process_groups, initial_plan,
}

module _ (error_text : ErrorCode → Text) (is_flexible : ReplicateConfig → Bool) where
  resolve_operation-resolved :
      (v : Verdict) (op : PutOperation)
      → is_resolved (resolve_operation error_text is_flexible v op) ≡ true
  unfolding resolve_operation
  resolve_operation-resolved v op = ground arith

  resolve_all-resolved :
      (vs : List Verdict) (ops : List PutOperation) (i : ℕ)
      → All (λ op. is_resolved op ≡ true) (resolve_all error_text is_flexible vs ops i)
  unfolding resolve_all
  resolve_all-resolved vs [] i = tt
  resolve_all-resolved vs (op ∷ ops) i =
      (resolve_operation-resolved (get_or vs i no_verdict) op, resolve_all-resolved vs ops (i + 1))

  length-resolve_all :
      (vs : List Verdict) (ops : List PutOperation) (i : ℕ)
      → length (resolve_all error_text is_flexible vs ops i) ≡ length ops
  unfolding resolve_all
  length-resolve_all vs [] i = refl
  length-resolve_all vs (op ∷ ops) i = ap suc (length-resolve_all vs ops (i + 1))

  length-plan_all :
      (ops : List PutOperation) (i : ℕ) (p : Plan)
      → length (plan_all error_text is_flexible ops i p).0 ≡ length ops
  unfolding plan_all
  length-plan_all [] i p = refl
  length-plan_all (op ∷ ops) i p = ap suc (length-plan_all ops (i + 1) _)

  -- Whatever the master answers, `FinalizeBatchPut` keeps the number of operations and leaves none
  -- of them pending.
  pub finalize_batch_put-resolved :
      (put_end put_revoke : FinalizeRpc) (ops : List PutOperation)
      → (length (finalize_batch_put error_text is_flexible put_end put_revoke ops) ≡ length ops)
        × All
            (λ op. is_resolved op ≡ true)
            (finalize_batch_put error_text is_flexible put_end put_revoke ops)
  unfolding finalize_batch_put
  finalize_batch_put-resolved put_end put_revoke ops =
      let (ops', p) = plan_all error_text is_flexible ops 0 (initial_plan (length ops)) in
      let vs = process_groups put_end put_revoke p in
      (
        length-resolve_all vs ops' 0 ∙ length-plan_all ops 0 (initial_plan (length ops)),
        resolve_all-resolved vs ops' 0,
      )
