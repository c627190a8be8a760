-- ===== src/Put/Upsert/Ends.antt =====
-- What `FinalizeBatchUpsert` leaves resolved.
use mooncake_maca_spdk_dmabu.Prelude.{
  suc, true, List, [], ◌∷◌, map, length, length-modify, modify, ◌≡◌, refl, ap, ◌∙◌, arith, All,
  Text, codes,
}
use mooncake_maca_spdk_dmabu.Put.Types.{
  ErrorCode, rpc_fail, Expected, PutOperation, is_resolved, set_error,
}
use mooncake_maca_spdk_dmabu.Put.Finalize.{Group, group_keys}
use mooncake_maca_spdk_dmabu.Put.Upsert.{
  UpsertRpc, is_submitted, is_failed, select_group, settle_end, settle_revoke, settle_ops, fail_ops,
  process_upserts, ensure_resolved, finalize_batch_upsert,
}

module _ (error_text : ErrorCode → Text) where
  length-settle_ops :
      (f : Expected (Unit {0}) → PutOperation → PutOperation) (rs : List (Expected (Unit {0})))
      (g : Group) (ops : List PutOperation)
      → length (settle_ops error_text f rs g ops) ≡ length ops
  unfolding settle_ops
  length-settle_ops f (r ∷ rs) ((key, i) ∷ g) ops =
      length-settle_ops f rs g (modify i (f r) ops) ∙ length-modify i (f r) ops
  length-settle_ops f [] g ops = refl
  length-settle_ops f (r ∷ rs) [] ops = refl

  length-fail_ops :
      (c : Text) (g : Group) (ops : List PutOperation)
      → length (fail_ops error_text c g ops) ≡ length ops
  unfolding fail_ops
  length-fail_ops c [] ops = refl
  length-fail_ops c ((key, i) ∷ g) ops =
      length-fail_ops c g (modify i (set_error error_text rpc_fail c) ops)
      ∙ length-modify i (set_error error_text rpc_fail c) ops

  length-process :
      (f : Expected (Unit {0}) → PutOperation → PutOperation) (c : Text) (rpc : UpsertRpc)
      (g : Group) (ops : List PutOperation)
      → length (process_upserts error_text f c rpc g ops) ≡ length ops
  unfolding process_upserts
  length-process f c rpc [] ops = refl
  length-process f c rpc (e ∷ g) ops = ground (
    arith,
    length-settle_ops f (rpc (group_keys (e ∷ g))) (e ∷ g) ops,
    length-fail_ops c (e ∷ g) ops,
  )

  ensured : (op : PutOperation) → is_resolved (ensure_resolved error_text op) ≡ true
  unfolding ensure_resolved set_error
  ensured op = ground arith

  All-ensured :
      (ops : List PutOperation)
      → (length (map (ensure_resolved error_text) ops) ≡ length ops)
        × All (λ op. is_resolved op ≡ true) (map (ensure_resolved error_text) ops)
  All-ensured [] = (refl, tt)
  All-ensured (op ∷ ops) = let (l, a) = All-ensured ops in (ap suc l, (ensured op, a))

  -- Whatever the master answers, `FinalizeBatchUpsert` keeps the number of operations and leaves
  -- none of them pending.
  pub finalize_batch_upsert-resolved :
      (upsert_end upsert_revoke : UpsertRpc) (ops : List PutOperation)
      → (length (finalize_batch_upsert error_text upsert_end upsert_revoke ops) ≡ length ops)
        × All
            (λ op. is_resolved op ≡ true)
            (finalize_batch_upsert error_text upsert_end upsert_revoke ops)
  unfolding finalize_batch_upsert
  finalize_batch_upsert-resolved upsert_end upsert_revoke ops =
      let ended =
        process_upserts error_text (settle_end error_text)
          (codes "BatchUpsertEnd response size mismatch") upsert_end
          (select_group is_submitted ops 0) ops in
      let (l, a) = All-ensured (
        process_upserts error_text (settle_revoke error_text)
          (codes "BatchUpsertRevoke response size mismatch") upsert_revoke
          (select_group is_failed ops 0) ended) in
      (
        l
            ∙ length-process (settle_revoke error_text)
                (codes "BatchUpsertRevoke response size mismatch") upsert_revoke
                (select_group is_failed ops 0) ended
            ∙ length-process (settle_end error_text) (codes "BatchUpsertEnd response size mismatch")
                upsert_end (select_group is_submitted ops 0) ops,
        a,
      )
