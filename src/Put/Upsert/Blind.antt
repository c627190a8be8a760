-- ===== src/Put/Upsert/Blind.antt =====
-- `FinalizeBatchUpsert` does not look at how the transfers ended.
use mooncake_maca_spdk_dmabu.Prelude.{
  ℕ, zero, suc, ◌+◌, Bool, List, [], ◌∷◌, map, not, modify, if◌then◌else◌, Text, codes, ◌≡◌, refl,
  ap, ◌∙◌, arith,
}
use mooncake_maca_spdk_dmabu.Put.Types.{
  ErrorCode, internal_error, rpc_fail, Expected, ok, unexpected, PutOperationState, PutOperation,
  ReplicaType, is_pending, is_resolved, set_success, set_error, append_failure_context,
}
use mooncake_maca_spdk_dmabu.Put.Finalize.{Group, group_keys}
use mooncake_maca_spdk_dmabu.Put.Transfers.{
  WaitCall, record_completion, wait_each, wait_operation, wait_for_transfers,
}
use mooncake_maca_spdk_dmabu.Put.Upsert.{
  UpsertRpc, is_submitted, is_failed, select_group, settle_end, settle_revoke, settle_ops, fail_ops,
  process_upserts, ensure_resolved, finalize_batch_upsert,
}

-- The operations agree in all that `FinalizeBatchUpsert` reads.
record Alike (x y : PutOperation) : Type 0 where
  same_key : x.key ≡ y.key
  same_state : x.state ≡ y.state
  same_result : x.result ≡ y.result
  same_replicas : x.replicas ≡ y.replicas
  same_pending : x.pending_transfers ≡ y.pending_transfers

abbrev AllAlike : List PutOperation → List PutOperation → Type 0
AllAlike [] [] = Unit {0}
AllAlike (x ∷ xs) (y ∷ ys) = Alike x y × AllAlike xs ys
AllAlike _ _ = ⊥

abbrev Respects : (PutOperation → PutOperation) → Type 0
Respects f = (x y : PutOperation) → Alike x y → Alike (f x) (f y)

Alike-refl : (x : PutOperation) → Alike x x
Alike-refl x = record {
  same_key = refl;
  same_state = refl;
  same_result = refl;
  same_replicas = refl;
  same_pending = refl;
}

modify-AllAlike :
    (i : ℕ) (f : PutOperation → PutOperation) (xs ys : List PutOperation)
    → Respects f
    → AllAlike xs ys
    → AllAlike (modify i f xs) (modify i f ys)
modify-AllAlike i f [] [] r a = tt
modify-AllAlike i f [] (y ∷ ys) r a = absurd a
modify-AllAlike i f (x ∷ xs) [] r a = absurd a
modify-AllAlike zero f (x ∷ xs) (y ∷ ys) r a = (r x y a.0, a.1)
modify-AllAlike (suc i) f (x ∷ xs) (y ∷ ys) r a = (a.0, modify-AllAlike i f xs ys r a.1)

set_success-Respects : Respects set_success
unfolding set_success
set_success-Respects x y a = record {
  same_key = a.same_key;
  same_state = refl;
  same_result = refl;
  same_replicas = a.same_replicas;
  same_pending = a.same_pending;
}

select-same :
    (p : PutOperation → Bool) (xs ys : List PutOperation) (i : ℕ)
    → ((x y : PutOperation) → Alike x y → p x ≡ p y)
    → AllAlike xs ys
    → select_group p xs i ≡ select_group p ys i
unfolding select_group
select-same p [] [] i h a = refl
select-same p [] (y ∷ ys) i h a = absurd a
select-same p (x ∷ xs) [] i h a = absurd a
select-same p (x ∷ xs) (y ∷ ys) i h a =
    rw (h x y a.0, a.0.same_key, select-same p xs ys (i + 1) h a.1) refl

is_submitted-same : (x y : PutOperation) → Alike x y → is_submitted x ≡ is_submitted y
is_submitted-same x y a = rw (a.same_state, a.same_replicas, a.same_pending) refl

is_failed-same : (x y : PutOperation) → Alike x y → is_failed x ≡ is_failed y
is_failed-same x y a = rw (a.same_state, a.same_replicas, a.same_pending) refl

module _ (error_text : ErrorCode → Text) where
  set_error-Respects : (e : ErrorCode) (c : Text) → Respects (set_error error_text e c)
  unfolding set_error
  set_error-Respects e c x y a = record {
    same_key = a.same_key;
    same_state = rw (a.same_replicas, a.same_pending) refl;
    same_result = refl;
    same_replicas = a.same_replicas;
    same_pending = a.same_pending;
  }

  settle_end-Respects : (r : Expected (Unit {0})) → Respects (settle_end error_text r)
  settle_end-Respects (ok u) = set_success-Respects
  settle_end-Respects (unexpected e) = set_error-Respects e (codes "BatchUpsertEnd failed")

  settle_revoke-Respects : (r : Expected (Unit {0})) → Respects (settle_revoke error_text r)
  settle_revoke-Respects (ok u) x y a = a
  settle_revoke-Respects (unexpected e) x y a = record {
    same_key = a.same_key;
    same_state = a.same_state;
    same_result = a.same_result;
    same_replicas = a.same_replicas;
    same_pending = a.same_pending;
  }

  ensure_both :
      (b c : Bool) (text : Text) (x y : PutOperation)
      → b ≡ c
      → Alike x y
      → Alike
          (if b then x else set_error error_text internal_error text x)
          (if c then y else set_error error_text internal_error text y)
  ensure_both b c text x y e a = ground (arith, set_error-Respects internal_error text x y a)

  ensure-Respects : Respects (ensure_resolved error_text)
  unfolding ensure_resolved
  ensure-Respects x y a =
      ensure_both (is_resolved x) (is_resolved y)
        (codes "Operation not resolved after finalization") x y
        (ap (λ z. not (is_pending z)) a.same_state) a

  settle-AllAlike :
      (f : Expected (Unit {0}) → PutOperation → PutOperation) (rs : List (Expected (Unit {0})))
      (g : Group) (xs ys : List PutOperation)
      → ((r : Expected (Unit {0})) → Respects (f r))
      → AllAlike xs ys
      → AllAlike (settle_ops error_text f rs g xs) (settle_ops error_text f rs g ys)
  unfolding settle_ops
  settle-AllAlike f (r ∷ rs) ((key, i) ∷ g) xs ys h a =
      settle-AllAlike f rs g (modify i (f r) xs) (modify i (f r) ys) h
        (modify-AllAlike i (f r) xs ys (h r) a)
  settle-AllAlike f [] g xs ys h a = a
  settle-AllAlike f (r ∷ rs) [] xs ys h a = a

  fail-AllAlike :
      (c : Text) (g : Group) (xs ys : List PutOperation)
      → AllAlike xs ys
      → AllAlike (fail_ops error_text c g xs) (fail_ops error_text c g ys)
  unfolding fail_ops
  fail-AllAlike c [] xs ys a = a
  fail-AllAlike c ((key, i) ∷ g) xs ys a =
      fail-AllAlike c g (modify i (set_error error_text rpc_fail c) xs)
        (modify i (set_error error_text rpc_fail c) ys)
        (modify-AllAlike i (set_error error_text rpc_fail c) xs ys (set_error-Respects rpc_fail c)
          a)

  process-AllAlike :
      (f : Expected (Unit {0}) → PutOperation → PutOperation) (c : Text) (rpc : UpsertRpc)
      (g : Group) (xs ys : List PutOperation)
      → ((r : Expected (Unit {0})) → Respects (f r))
      → AllAlike xs ys
      → AllAlike (process_upserts error_text f c rpc g xs) (process_upserts error_text f c rpc g ys)
  unfolding process_upserts
  process-AllAlike f c rpc [] xs ys h a = a
  process-AllAlike f c rpc (e ∷ g) xs ys h a = ground (
    arith,
    settle-AllAlike f (rpc (group_keys (e ∷ g))) (e ∷ g) xs ys h a,
    fail-AllAlike c (e ∷ g) xs ys a,
  )

  map-AllAlike :
      (f : PutOperation → PutOperation) (xs ys : List PutOperation)
      → Respects f
      → AllAlike xs ys
      → AllAlike (map f xs) (map f ys)
  map-AllAlike f [] [] r a = tt
  map-AllAlike f [] (y ∷ ys) r a = absurd a
  map-AllAlike f (x ∷ xs) [] r a = absurd a
  map-AllAlike f (x ∷ xs) (y ∷ ys) r a = (r x y a.0, map-AllAlike f xs ys r a.1)

  finalize-AllAlike :
      (upsert_end upsert_revoke : UpsertRpc) (xs ys : List PutOperation)
      → AllAlike xs ys
      → AllAlike
          (finalize_batch_upsert error_text upsert_end upsert_revoke xs)
          (finalize_batch_upsert error_text upsert_end upsert_revoke ys)
  unfolding finalize_batch_upsert
  finalize-AllAlike upsert_end upsert_revoke xs ys a =
      let ends = select-same is_submitted xs ys 0 is_submitted-same a in
      let revokes = select-same is_failed xs ys 0 is_failed-same a in
      let ended =
        process-AllAlike (settle_end error_text) (codes "BatchUpsertEnd response size mismatch")
          upsert_end (select_group is_submitted ys 0) xs ys settle_end-Respects a in
      rw (ends, revokes)
        (map-AllAlike (ensure_resolved error_text) _ _ ensure-Respects (
          process-AllAlike (settle_revoke error_text)
            (codes "BatchUpsertRevoke response size mismatch") upsert_revoke
            (select_group is_failed ys 0) _ _ settle_revoke-Respects ended))

-- The result of each operation.
abbrev pub outcomes : List PutOperation → List (PutOperationState × Expected (Unit {0}))
outcomes ops = map (λ op. (op.state, op.result)) ops

outcomes-same : (xs ys : List PutOperation) → AllAlike xs ys → outcomes xs ≡ outcomes ys
outcomes-same [] [] a = refl
outcomes-same [] (y ∷ ys) a = absurd a
outcomes-same (x ∷ xs) [] a = absurd a
outcomes-same (x ∷ xs) (y ∷ ys) a =
    rw (a.0.same_state, a.0.same_result, outcomes-same xs ys a.1) refl

completion-Alike :
    (type : ReplicaType) (i : ℕ) (e : ErrorCode) (op : PutOperation)
    → Alike (record_completion type i e op) op
unfolding record_completion append_failure_context
completion-Alike type i e op = record {
  same_key = ground arith;
  same_state = ground arith;
  same_result = ground arith;
  same_replicas = ground arith;
  same_pending = ground arith;
}

Alike-trans : (x y z : PutOperation) → Alike x y → Alike y z → Alike x z
Alike-trans x y z a b = record {
  same_key = a.same_key ∙ b.same_key;
  same_state = a.same_state ∙ b.same_state;
  same_result = a.same_result ∙ b.same_result;
  same_replicas = a.same_replicas ∙ b.same_replicas;
  same_pending = a.same_pending ∙ b.same_pending;
}

wait_each-Alike :
    (get : WaitCall) (ts : List (ReplicaType × ℕ)) (i : ℕ) (op : PutOperation)
    → Alike (wait_each get ts i op) op
unfolding wait_each
wait_each-Alike get [] i op = Alike-refl op
wait_each-Alike get ((type, handle) ∷ ts) i op =
    let op' = record_completion type i (get handle) op in
    Alike-trans (wait_each get ts (i + 1) op') op' op (wait_each-Alike get ts (i + 1) op')
      (completion-Alike type i (get handle) op)

wait_operation-Alike : (get : WaitCall) (op : PutOperation) → Alike (wait_operation get op) op
unfolding wait_operation
wait_operation-Alike get op =
    ground (arith, Alike-refl op, wait_each-Alike get op.pending_transfers 0 op)

wait-AllAlike :
    (get : WaitCall) (ops : List PutOperation) → AllAlike (wait_for_transfers get ops) ops
unfolding wait_for_transfers
wait-AllAlike get [] = tt
wait-AllAlike get (op ∷ ops) = (wait_operation-Alike get op, wait-AllAlike get ops)

-- The states and results that `FinalizeBatchUpsert` leaves are the same whether the transfers were
-- waited for or not: no result of a transfer, a failure included, has a part in them.
pub upsert_outcomes-wait :
    (error_text : ErrorCode → Text) (upsert_end upsert_revoke : UpsertRpc) (get : WaitCall)
    (ops : List PutOperation)
    → outcomes
        (finalize_batch_upsert error_text upsert_end upsert_revoke (wait_for_transfers get ops))
      ≡ outcomes (finalize_batch_upsert error_text upsert_end upsert_revoke ops)
upsert_outcomes-wait error_text upsert_end upsert_revoke get ops = outcomes-same _ _ (
    finalize-AllAlike error_text upsert_end upsert_revoke (wait_for_transfers get ops) ops
      (wait-AllAlike get ops))
