-- ===== src/Put/Finalize/Success.antt =====
-- What the first loop of `FinalizeBatchPut` notes of an operation, and that the other rounds keep it.
use mooncake_maca_spdk_dmabu.Prelude.{
  ℕ, ◌+◌, ◌<◌, ◌≢◌, String, Bool, true, false, not, ◌&&◌, Option, none, some, List, [], ◌∷◌, ◌≡◌,
  refl, ◌∙◌, arith, length, modify, Text, length-modify, Bool-cases, inl, inr, is_empty,
}
use mooncake_maca_spdk_dmabu.Put.Types.{
  ErrorCode, ReplicaType, all_types, memory, nof_ssd, ReplicateConfig, ReplicaTransferSummary,
  PutOperation, is_resolved, to_replicate_config, is_successful,
}
use mooncake_maca_spdk_dmabu.Put.Decision.{FinalizeDecision, determine_finalize_decision}
use mooncake_maca_spdk_dmabu.Put.Finalize.{
  Verdict, Plan, add_pending, add_finalize_action, plan_operation, plan_resolved, plan_decision,
  plan_all, decide, result_error,
}
use mooncake_maca_spdk_dmabu.Put.Finalize.Actions.{add-length}
use mooncake_maca_spdk_dmabu.Put.Finalize.Answers.{
  verdict, is_clean, verdict-modify_self, verdict-modify_ne, Keeps,
}

-- A type for which the finalization has a call.
abbrev is_planned : Option ReplicaType → Bool
is_planned none = true
is_planned (some all_types) = true
is_planned (some memory) = true
is_planned (some nof_ssd) = true
is_planned (some _) = false

decision-planned :
    (is_flexible : ReplicateConfig → Bool) (config : ReplicateConfig) (s : ReplicaTransferSummary)
    → (is_planned (determine_finalize_decision is_flexible config s).end_type ≡ true)
      × (is_planned (determine_finalize_decision is_flexible config s).revoke_type ≡ true)
unfolding determine_finalize_decision
decision-planned is_flexible config s = ground arith

add-verdict_ne :
    (t : Option ReplicaType) (is_end : Bool) (key : String) (j : ℕ) (p : Plan) (i : ℕ)
    → j ≢ i
    → verdict (add_finalize_action t is_end key j p).verdicts i ≡ verdict p.verdicts i
unfolding add_finalize_action
add-verdict_ne none is_end key j p i h = refl
add-verdict_ne (some all_types) true key j p i h = verdict-modify_ne _ p.verdicts j i h
add-verdict_ne (some all_types) false key j p i h = verdict-modify_ne _ p.verdicts j i h
add-verdict_ne (some memory) true key j p i h = verdict-modify_ne _ p.verdicts j i h
add-verdict_ne (some memory) false key j p i h = verdict-modify_ne _ p.verdicts j i h
add-verdict_ne (some nof_ssd) true key j p i h = verdict-modify_ne _ p.verdicts j i h
add-verdict_ne (some nof_ssd) false key j p i h = verdict-modify_ne _ p.verdicts j i h
add-verdict_ne (some _) is_end key j p i h = verdict-modify_ne _ p.verdicts j i h

-- Adding an action to the own verdict changes its counter only.
add-verdict_self :
    (t : Option ReplicaType) (is_end : Bool) (key : String) (p : Plan) (i : ℕ)
    → is_planned t ≡ true
    → i < length p.verdicts
    → Keeps true (verdict p.verdicts i) (verdict (add_finalize_action t is_end key i p).verdicts i)
unfolding add_finalize_action
add-verdict_self none is_end key p i e h = ground arith
add-verdict_self (some all_types) true key p i e h =
    ground (arith, verdict-modify_self add_pending p.verdicts i h)
add-verdict_self (some all_types) false key p i e h =
    ground (arith, verdict-modify_self add_pending p.verdicts i h)
add-verdict_self (some memory) true key p i e h =
    ground (arith, verdict-modify_self add_pending p.verdicts i h)
add-verdict_self (some memory) false key p i e h =
    ground (arith, verdict-modify_self add_pending p.verdicts i h)
add-verdict_self (some nof_ssd) true key p i e h =
    ground (arith, verdict-modify_self add_pending p.verdicts i h)
add-verdict_self (some nof_ssd) false key p i e h =
    ground (arith, verdict-modify_self add_pending p.verdicts i h)
add-verdict_self (some _) is_end key p i e h = cc

plan_resolved-verdict_ne :
    (op : PutOperation) (j : ℕ) (p : Plan) (i : ℕ)
    → j ≢ i
    → verdict (plan_resolved op j p).verdicts i ≡ verdict p.verdicts i
unfolding plan_resolved
plan_resolved-verdict_ne op j p i h =
    let marked = λ (v : Verdict). record v { terminal_error = result_error op.result } in
    elim (Bool-cases (not (is_successful op) && not (is_empty op.replicas))) [
      | inl e ↦ rw e (
          add-verdict_ne (some all_types) false op.key j
            (record p { verdicts = modify j marked p.verdicts }) i h
          ∙ verdict-modify_ne marked p.verdicts j i h)
      | inr e ↦ rw e
    ]

plan_resolved-length :
    (op : PutOperation) (j : ℕ) (p : Plan)
    → length (plan_resolved op j p).verdicts ≡ length p.verdicts
unfolding plan_resolved
plan_resolved-length op j p =
    let marked = λ (v : Verdict). record v { terminal_error = result_error op.result } in
    elim (Bool-cases (not (is_successful op) && not (is_empty op.replicas))) [
      | inl e ↦ rw e (
          add-length (some all_types) false op.key j
            (record p { verdicts = modify j marked p.verdicts })
          ∙ length-modify j marked p.verdicts)
      | inr e ↦ rw e
    ]

-- The plan with the decision noted, before its actions are added.
abbrev noted : FinalizeDecision → ℕ → Plan → Plan
noted d j p = record p {
  verdicts =
      modify j (λ v. record v { should_succeed = d.success; terminal_error = d.error }) p.verdicts;
}

plan_decision-verdict_ne :
    (d : FinalizeDecision) (key : String) (j : ℕ) (p : Plan) (i : ℕ)
    → j ≢ i
    → verdict (plan_decision d key j p).verdicts i ≡ verdict p.verdicts i
unfolding plan_decision
plan_decision-verdict_ne d key j p i h =
    add-verdict_ne d.revoke_type false key j
      (add_finalize_action d.end_type true key j (noted d j p)) i h
    ∙ add-verdict_ne d.end_type true key j (noted d j p) i h
    ∙ verdict-modify_ne _ p.verdicts j i h

plan_decision-length :
    (d : FinalizeDecision) (key : String) (j : ℕ) (p : Plan)
    → length (plan_decision d key j p).verdicts ≡ length p.verdicts
unfolding plan_decision
plan_decision-length d key j p =
    add-length d.revoke_type false key j (add_finalize_action d.end_type true key j (noted d j p))
    ∙ add-length d.end_type true key j (noted d j p)
    ∙ length-modify j _ p.verdicts

-- The own round of an operation notes the decision's success and no RPC error.
plan_decision-verdict_self :
    (d : FinalizeDecision) (key : String) (p : Plan) (i : ℕ)
    → is_planned d.end_type ≡ true
    → is_planned d.revoke_type ≡ true
    → i < length p.verdicts
    → ((verdict (plan_decision d key i p).verdicts i).should_succeed ≡ d.success)
      × (is_clean (verdict (plan_decision d key i p).verdicts i) ≡ is_clean (verdict p.verdicts i))
unfolding plan_decision
plan_decision-verdict_self d key p i e r h =
    let q = add_finalize_action d.end_type true key i (noted d i p) in
    let n =
      length-modify i (λ v. record v { should_succeed = d.success; terminal_error = d.error })
        p.verdicts in
    let m = add-length d.end_type true key i (noted d i p) in
    ground (
      arith,
      add-verdict_self d.end_type true key (noted d i p) i e (omega arith),
      add-verdict_self d.revoke_type false key q i r (omega arith),
      verdict-modify_self (λ v. record v { should_succeed = d.success; terminal_error = d.error })
          p.verdicts i h,
    )

-- An operation that is to be finalized.
pub record IsOpen (op : PutOperation) : Type 0 where
  pub unresolved : is_resolved op ≡ false
  pub allocated : is_empty op.replicas ≡ false

pub record Decided (is_flexible : ReplicateConfig → Bool) (op : PutOperation) (p q : Plan) (i : ℕ)
    : Type 0 where
  pub expected : (verdict q.verdicts i).should_succeed ≡ (decide is_flexible op).success
  pub clean : is_clean (verdict q.verdicts i) ≡ is_clean (verdict p.verdicts i)

module _ (error_text : ErrorCode → Text) (is_flexible : ReplicateConfig → Bool) where
  pub plan_operation-verdict_ne :
      (op : PutOperation) (j : ℕ) (p : Plan) (i : ℕ)
      → j ≢ i
      → verdict (plan_operation error_text is_flexible op j p).1.verdicts i ≡ verdict p.verdicts i
  unfolding plan_operation
  plan_operation-verdict_ne op j p i h = ground (
    arith,
    plan_resolved-verdict_ne op j p i h,
    plan_decision-verdict_ne (decide is_flexible op) op.key j p i h,
  )

  pub plan_operation-length :
      (op : PutOperation) (j : ℕ) (p : Plan)
      → length (plan_operation error_text is_flexible op j p).1.verdicts ≡ length p.verdicts
  unfolding plan_operation
  plan_operation-length op j p =
      ground (
        arith,
        plan_resolved-length op j p,
        plan_decision-length (decide is_flexible op) op.key j p,
      )

  -- Later rounds leave the verdict alone.
  pub plan_all-verdict_before :
      (ops : List PutOperation) (j : ℕ) (p : Plan) (i : ℕ)
      → i < j
      → verdict (plan_all error_text is_flexible ops j p).1.verdicts i ≡ verdict p.verdicts i
  unfolding plan_all
  plan_all-verdict_before [] j p i h = refl
  plan_all-verdict_before (op ∷ ops) j p i h =
      plan_all-verdict_before ops (j + 1) _ i (omega arith)
      ∙ plan_operation-verdict_ne op j p i (λ e. omega arith)

  pub plan_operation-Decided :
      (op : PutOperation) (p : Plan) (i : ℕ)
      → IsOpen op
      → i < length p.verdicts
      → Decided is_flexible op p (plan_operation error_text is_flexible op i p).1 i
  unfolding plan_operation
  plan_operation-Decided op p i o h =
      let d = decide is_flexible op in
      let t = decision-planned is_flexible (to_replicate_config op) op.transfer_summary in
      ground (arith, plan_decision-verdict_self d op.key p i t.0 t.1 h)

  pub plan_operation-open :
      (op : PutOperation) (p : Plan) (i : ℕ)
      → IsOpen op
      → (plan_operation error_text is_flexible op i p).0 ≡ op
  unfolding plan_operation
  plan_operation-open op p i o = ground arith
