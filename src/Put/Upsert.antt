-- ===== src/Put/Upsert.antt =====
-- `FinalizeBatchUpsert` of mooncake-store/src/client_service.cpp. Its four vectors are two lists of
-- pairs of a key and an index.
pub mod Blind
pub mod Ends
use mooncake_maca_spdk_dmabu.Prelude.{
  ℕ, ◌+◌, String, Bool, true, false, Option, none, some, List, [], ◌∷◌, ◌++◌, map, not, ◌&&◌,
  length, modify, ◌==◌, if◌then◌else◌, Text, codes, is_empty,
}
use mooncake_maca_spdk_dmabu.Put.Types.{
  ErrorCode, internal_error, rpc_fail, Expected, ok, unexpected, PutOperation, is_pending,
  is_resolved, set_success, set_error,
}
use mooncake_maca_spdk_dmabu.Put.Finalize.{Group, group_keys}

-- `BatchUpsertEnd(keys)` and `BatchUpsertRevoke(keys)`.
abbrev pub UpsertRpc : Type 0
UpsertRpc = List String → List (Expected (Unit {0}))

abbrev pub is_submitted : PutOperation → Bool
is_submitted op =
    not (is_resolved op) && not (is_empty op.replicas) && not (is_empty op.pending_transfers)

abbrev pub is_failed : PutOperation → Bool
is_failed op = not (is_submitted op) && not (is_pending op.state) && not (is_empty op.replicas)

-- The operations of a kind, with their indices from `i` on.
unfoldable pub select_group : (PutOperation → Bool) → List PutOperation → ℕ → Group
select_group p [] i = []
select_group p (op ∷ ops) i =
    let rest = select_group p ops (i + 1) in if p op then (op.key, i) ∷ rest else rest

module _ (error_text : ErrorCode → Text) where
  abbrev pub settle_end : Expected (Unit {0}) → PutOperation → PutOperation
  settle_end (ok _) op = set_success op
  settle_end (unexpected e) op = set_error error_text e (codes "BatchUpsertEnd failed") op

  abbrev unknown_or : Option Text → Text
  unknown_or none = codes "unknown error"
  unknown_or (some c) = c

  -- A failed revoke call changes the context alone.
  abbrev pub settle_revoke : Expected (Unit {0}) → PutOperation → PutOperation
  settle_revoke (ok _) op = op
  settle_revoke (unexpected e) op = record op {
    failure_context = some (unknown_or op.failure_context ++ codes "; revoke also failed");
  }

  unfoldable pub settle_ops :
      (Expected (Unit {0}) → PutOperation → PutOperation)
      → List (Expected (Unit {0}))
      → Group
      → List PutOperation
      → List PutOperation
  settle_ops f (r ∷ rs) ((key, i) ∷ g) ops = settle_ops f rs g (modify i (f r) ops)
  settle_ops f _ _ ops = ops

  unfoldable pub fail_ops : Text → Group → List PutOperation → List PutOperation
  fail_ops context [] ops = ops
  fail_ops context ((key, i) ∷ g) ops =
      fail_ops context g (modify i (set_error error_text rpc_fail context) ops)

  unfoldable pub process_upserts :
      (Expected (Unit {0}) → PutOperation → PutOperation)
      → Text
      → UpsertRpc
      → Group
      → List PutOperation
      → List PutOperation
  process_upserts f mismatch rpc [] ops = ops
  process_upserts f mismatch rpc (e ∷ g) ops =
      let responses = rpc (group_keys (e ∷ g)) in
      if length responses == length (e ∷ g)
      then settle_ops f responses (e ∷ g) ops
      else fail_ops mismatch (e ∷ g) ops

  unfoldable pub ensure_resolved : PutOperation → PutOperation
  ensure_resolved op =
      if is_resolved op
      then op
      else set_error error_text internal_error (codes "Operation not resolved after finalization")
          op

  unfoldable pub finalize_batch_upsert :
      UpsertRpc → UpsertRpc → List PutOperation → List PutOperation
  finalize_batch_upsert upsert_end upsert_revoke ops = map ensure_resolved (
      process_upserts settle_revoke (codes "BatchUpsertRevoke response size mismatch") upsert_revoke
        (select_group is_failed ops 0)
        (process_upserts settle_end (codes "BatchUpsertEnd response size mismatch") upsert_end
          (select_group is_submitted ops 0) ops))
