-- ===== src/Put/Finalize/Report.antt =====
-- When `FinalizeBatchPut` reports that an operation succeeded.
use mooncake_maca_spdk_dmabu.Prelude.{
  ℕ, suc, zero, ◌+◌, ◌<◌, Bool, true, ◌&&◌, some, List, [], ◌∷◌, ◌≡◌, refl, ap, ◌∙◌, arith, length,
  get_elem?, Text, get_or-replicate, lt-length_of_get, length-replicate,
}
use mooncake_maca_spdk_dmabu.Put.Types.{ErrorCode, ReplicateConfig, PutOperation, is_successful}
use mooncake_maca_spdk_dmabu.Put.Finalize.{
  Verdict, no_verdict, Plan, FinalizeRpc, plan_operation, plan_all, process_groups, initial_plan,
  decide, resolve_all, resolve_operation, finalize_batch_put,
}
use mooncake_maca_spdk_dmabu.Put.Finalize.Actions.{finalize_actions_done}
use mooncake_maca_spdk_dmabu.Put.Finalize.Answers.{
  verdict, is_clean, all_acknowledged, process_groups-Keeps,
}
use mooncake_maca_spdk_dmabu.Put.Finalize.Success.{
  IsOpen, Decided, plan_operation-length, plan_operation-verdict_ne, plan_all-verdict_before,
  plan_operation-Decided, plan_operation-open,
}

module _ (error_text : ErrorCode → Text) (is_flexible : ReplicateConfig → Bool) where
  initial_plan-length : (n : ℕ) → length (initial_plan n).verdicts ≡ n
  unfolding initial_plan
  initial_plan-length n = length-replicate n no_verdict

  initial_plan-clean : (n i : ℕ) → is_clean (verdict (initial_plan n).verdicts i) ≡ true
  unfolding initial_plan
  initial_plan-clean n i = ap is_clean (get_or-replicate n i no_verdict)

  plan_all-length :
      (ops : List PutOperation) (j : ℕ) (p : Plan)
      → length (plan_all error_text is_flexible ops j p).1.verdicts ≡ length p.verdicts
  unfolding plan_all
  plan_all-length [] j p = refl
  plan_all-length (op ∷ ops) j p =
      plan_all-length ops (j + 1) _ ∙ plan_operation-length error_text is_flexible op j p

  -- The first loop keeps an open operation, and notes its decision in the verdict at its index.
  plan_all-Decided :
      (ops : List PutOperation) (j : ℕ) (p : Plan) (k i : ℕ) (op : PutOperation)
      → j + k ≡ i
      → get_elem? ops k ≡ some op
      → IsOpen op
      → i < length p.verdicts
      → (get_elem? (plan_all error_text is_flexible ops j p).0 k ≡ some op)
        × Decided is_flexible op p (plan_all error_text is_flexible ops j p).1 i
  unfolding plan_all
  plan_all-Decided [] j p k i op e g o h = cc
  plan_all-Decided (x ∷ ops) j p zero i op e g o h =
      let q : x ≡ op = cc in
      let e' : j ≡ i = omega arith in
      rw (q, e')
        (let own = plan_operation-Decided error_text is_flexible op p i o h in
          let later =
            plan_all-verdict_before error_text is_flexible ops (i + 1)
              (plan_operation error_text is_flexible op i p).1 i (omega arith) in
          (
            ap some (plan_operation-open error_text is_flexible op p i o),
            record {
              expected = ap (λ (v : Verdict). v.should_succeed) later ∙ own.expected;
              clean = ap is_clean later ∙ own.clean;
            },
          ))
  plan_all-Decided (x ∷ ops) j p (suc k) i op e g o h =
      let rest =
        plan_all-Decided ops (j + 1) (plan_operation error_text is_flexible x j p).1 k i op
          (omega arith) g o (omega (arith, plan_operation-length error_text is_flexible x j p)) in
      let other = plan_operation-verdict_ne error_text is_flexible x j p i (λ q. omega arith) in
      (rest.0, record { expected = rest.1.expected; clean = rest.1.clean ∙ ap is_clean other })

  resolve_all-get :
      (vs : List Verdict) (ops : List PutOperation) (j k : ℕ) (op : PutOperation)
      → get_elem? ops k ≡ some op
      → get_elem? (resolve_all error_text is_flexible vs ops j) k
        ≡ some (resolve_operation error_text is_flexible (verdict vs (j + k)) op)
  unfolding resolve_all
  resolve_all-get vs [] j k op e = cc
  resolve_all-get vs (x ∷ ops) j zero op e =
      let z : j + 0 ≡ j = omega arith in let q : x ≡ op = cc in rw (z, q)
  resolve_all-get vs (x ∷ ops) j (suc k) op e =
      let z : (j + 1) + k ≡ j + suc k = omega arith in
      rw (← z) (resolve_all-get vs ops (j + 1) k op e)

  resolve-successful :
      (v : Verdict) (op : PutOperation)
      → IsOpen op
      → v.pending_actions ≡ 0
      → is_successful (resolve_operation error_text is_flexible v op)
        ≡ (v.should_succeed && is_clean v)
  unfolding resolve_operation
  resolve-successful v op o h = ground arith

  -- An operation that comes in pending and with replicas is reported successful exactly when the
  -- finalize decision for its transfers is success and the master acknowledged every end and
  -- revoke call made for it. It keeps its place in the list.
  pub finalize_success :
      (put_end put_revoke : FinalizeRpc) (ops : List PutOperation) (i : ℕ) (op : PutOperation)
      → get_elem? ops i ≡ some op
      → IsOpen op
      → (op' : PutOperation) × (get_elem?
            (finalize_batch_put error_text is_flexible put_end put_revoke ops)
            i
          ≡ some op')
        × (is_successful op' ≡ (
            (decide is_flexible op).success
            && all_acknowledged put_end put_revoke
                (plan_all error_text is_flexible ops 0 (initial_plan (length ops))).1
                i))
  unfolding finalize_batch_put
  finalize_success put_end put_revoke ops i op g o =
      let start = initial_plan (length ops) in
      let (ops', p) = plan_all error_text is_flexible ops 0 start in
      let vs = process_groups put_end put_revoke p in
      let inside : i < length start.verdicts =
        omega (arith, lt-length_of_get ops i op g, initial_plan-length (length ops)) in
      let noted = plan_all-Decided ops 0 start i i op (omega arith) g o inside in
      let fits : i < length p.verdicts = omega (arith, plan_all-length ops 0 start) in
      let kept = process_groups-Keeps put_end put_revoke p i fits in
      let v = verdict vs i in
      (
        resolve_operation error_text is_flexible v op,
        resolve_all-get vs ops' 0 i op noted.0 ∙ (let z : 0 + i ≡ i = omega arith in rw z),
        resolve-successful v op o
              (finalize_actions_done error_text is_flexible put_end put_revoke ops i)
            ∙ ground (
              arith,
              kept.expected,
              kept.clean,
              noted.1.expected,
              noted.1.clean,
              initial_plan-clean (length ops) i,
            ),
      )
