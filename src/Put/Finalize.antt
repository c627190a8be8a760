-- ===== src/Put/Finalize.antt =====
-- `FinalizeBatchPut`. Its four vectors over the operations (pending actions, expected success,
-- terminal error, RPC error) are one list of records; each group of keys and indices is a list of
-- pairs.
pub mod Resolved
pub mod Actions
pub mod Answers
pub mod Success
pub mod Report
use mooncake_maca_spdk_dmabu.Prelude.{
  ℕ, ◌+◌, ◌-◌, String, Bool, true, false, Option, none, some, List, [], ◌∷◌, ◌++◌, map, not, ◌&&◌,
  ◌||◌, length, get_or, modify, replicate, ◌==◌, if◌then◌else◌, Text, codes, is_empty,
}
use mooncake_maca_spdk_dmabu.Put.Types.{
  ErrorCode, ok_code, internal_error, invalid_params, rpc_fail, is_ok_code, Expected, ok,
  unexpected, ReplicaType, all_types, memory, nof_ssd, ReplicateConfig, PutOperation, master_failed,
  transfer_failed, finalize_failed, is_resolved, is_successful, set_success, set_terminal_error,
  append_failure_context, to_replicate_config,
}
use mooncake_maca_spdk_dmabu.Put.Decision.{FinalizeDecision, determine_finalize_decision}

pub record Verdict : Type 0 where
  pub pending_actions : ℕ
  pub should_succeed : Bool
  pub terminal_error : ErrorCode
  pub rpc_error : Option ErrorCode

abbrev pub no_verdict : Verdict
no_verdict = record {
  pending_actions = 0;
  should_succeed = false;
  terminal_error = ok_code;
  rpc_error = none;
}

abbrev pub Group : Type 0
Group = List (String × ℕ)

pub record Plan : Type 0 where
  pub end_all : Group
  pub end_memory : Group
  pub end_nof : Group
  pub revoke_all : Group
  pub revoke_memory : Group
  pub revoke_nof : Group
  pub verdicts : List Verdict

unfoldable pub initial_plan : ℕ → Plan
initial_plan n = record {
  end_all = [];
  end_memory = [];
  end_nof = [];
  revoke_all = [];
  revoke_memory = [];
  revoke_nof = [];
  verdicts = replicate n no_verdict;
}

abbrev pub add_pending : Verdict → Verdict
add_pending v = record v { pending_actions = v.pending_actions + 1 }

-- `add_group_entry`, with the increment of `pending_finalize_actions[index]`.
unfoldable pub add_finalize_action : Option ReplicaType → Bool → String → ℕ → Plan → Plan
add_finalize_action none is_end key i p = p
add_finalize_action (some all_types) true key i p = record p {
  end_all = p.end_all ++ (key, i) ∷ [];
  verdicts = modify i add_pending p.verdicts;
}
add_finalize_action (some all_types) false key i p = record p {
  revoke_all = p.revoke_all ++ (key, i) ∷ [];
  verdicts = modify i add_pending p.verdicts;
}
add_finalize_action (some memory) true key i p = record p {
  end_memory = p.end_memory ++ (key, i) ∷ [];
  verdicts = modify i add_pending p.verdicts;
}
add_finalize_action (some memory) false key i p = record p {
  revoke_memory = p.revoke_memory ++ (key, i) ∷ [];
  verdicts = modify i add_pending p.verdicts;
}
add_finalize_action (some nof_ssd) true key i p = record p {
  end_nof = p.end_nof ++ (key, i) ∷ [];
  verdicts = modify i add_pending p.verdicts;
}
add_finalize_action (some nof_ssd) false key i p = record p {
  revoke_nof = p.revoke_nof ++ (key, i) ∷ [];
  verdicts = modify i add_pending p.verdicts;
}
add_finalize_action (some _) is_end key i p = record p {
  verdicts = modify i (λ v. record v { rpc_error = some invalid_params }) p.verdicts;
}

-- `--pending_finalize_actions[index]`, not below zero.
abbrev pub complete : Verdict → Verdict
complete v = record v { pending_actions = v.pending_actions - 1 }

abbrev pub fail_with : ErrorCode → Verdict → Verdict
fail_with e v = complete (record v { rpc_error = some e })

abbrev pub settle : Expected (Unit {0}) → Verdict → Verdict
settle (ok _) v = complete v
settle (unexpected e) v = fail_with e v

unfoldable pub settle_each : List (Expected (Unit {0})) → Group → List Verdict → List Verdict
settle_each (r ∷ rs) ((key, i) ∷ g) vs = settle_each rs g (modify i (settle r) vs)
settle_each _ _ vs = vs

unfoldable pub fail_each : Group → List Verdict → List Verdict
fail_each [] vs = vs
fail_each ((key, i) ∷ g) vs = fail_each g (modify i (fail_with rpc_fail) vs)

-- `BatchPutEnd(keys, type)` and `BatchPutRevoke(keys, type)`.
abbrev pub FinalizeRpc : Type 0
FinalizeRpc = List String → ReplicaType → List (Expected (Unit {0}))

abbrev pub group_keys : Group → List String
group_keys g = map (λ e. e.0) g

-- `process_end_group` and `process_revoke_group` differ in the call only.
unfoldable pub process_group : FinalizeRpc → ReplicaType → Group → List Verdict → List Verdict
unfolding settle_each fail_each
process_group rpc type [] vs = vs
process_group rpc type (e ∷ g) vs =
    let responses = rpc (group_keys (e ∷ g)) type in
    if length responses == length (e ∷ g)
    then settle_each responses (e ∷ g) vs
    else fail_each (e ∷ g) vs

-- The six groups, in the source's order.
unfoldable pub process_groups : FinalizeRpc → FinalizeRpc → Plan → List Verdict
process_groups put_end put_revoke p = process_group put_revoke nof_ssd p.revoke_nof (
    process_group put_revoke memory p.revoke_memory (
      process_group put_revoke all_types p.revoke_all (
        process_group put_end nof_ssd p.end_nof (
          process_group put_end memory p.end_memory
            (process_group put_end all_types p.end_all p.verdicts)))))

-- An operation that an earlier stage ended: if it has replicas, all of them are revoked.
abbrev pub result_error : Expected (Unit {0}) → ErrorCode
result_error (ok _) = internal_error
result_error (unexpected e) = e

unfoldable pub plan_resolved : PutOperation → ℕ → Plan → Plan
plan_resolved op i p =
    if not (is_successful op) && not (is_empty op.replicas)
    then add_finalize_action (some all_types) false op.key i (record p {
      verdicts = modify i (λ v. record v { terminal_error = result_error op.result }) p.verdicts;
    })
    else p

unfoldable pub plan_decision : FinalizeDecision → String → ℕ → Plan → Plan
plan_decision d key i p = add_finalize_action d.revoke_type false key i (
    add_finalize_action d.end_type true key i (record p {
      verdicts =
          modify i (λ v. record v { should_succeed = d.success; terminal_error = d.error })
            p.verdicts;
    }))

module _ (is_flexible : ReplicateConfig → Bool) where
  abbrev pub decide : PutOperation → FinalizeDecision
  decide op = determine_finalize_decision is_flexible (to_replicate_config op) op.transfer_summary

module _ (error_text : ErrorCode → Text) (is_flexible : ReplicateConfig → Bool) where
  -- One round of the first loop.
  unfoldable pub plan_operation : PutOperation → ℕ → Plan → PutOperation × Plan
  plan_operation op i p =
      if is_resolved op
      then (op, plan_resolved op i p)
      else if is_empty op.replicas
      then (
        set_terminal_error internal_error master_failed
            (codes "Operation has no replicas to finalize") op,
        p,
      )
      else (op, plan_decision (decide is_flexible op) op.key i p)

  unfoldable pub plan_all : List PutOperation → ℕ → Plan → List PutOperation × Plan
  plan_all [] i p = ([], p)
  plan_all (op ∷ ops) i p =
      let (op', p') = plan_operation op i p in
      let (ops', q) = plan_all ops (i + 1) p' in (op' ∷ ops', q)

  abbrev add_rpc_context : Option ErrorCode → PutOperation → PutOperation
  add_rpc_context none op = op
  add_rpc_context (some e) op =
      append_failure_context (codes "Batch finalization RPC failed: " ++ error_text e) op

  unfoldable pub append_finalize_error_context : Verdict → PutOperation → PutOperation
  unfolding append_failure_context
  append_finalize_error_context v op =
      let op' = add_rpc_context v.rpc_error op in
      if v.pending_actions == 0
      then op'
      else append_failure_context (codes "Operation has unfinished finalize actions") op'

  abbrev context_value : PutOperation → Text
  context_value op = elim op.failure_context [
    | none ↦ codes "Replica transfer failed before finalize"
    | some c ↦ c
  ]

  -- The last loop, for an operation that is not resolved and whose finalization failed.
  abbrev finalize_failure : Verdict → PutOperation → PutOperation
  finalize_failure v op =
      if not v.should_succeed && not (is_ok_code v.terminal_error)
      then (let op' = append_finalize_error_context v op in
          set_terminal_error v.terminal_error transfer_failed (context_value op') op')
      else elim v.rpc_error [
        | some e ↦ set_terminal_error e finalize_failed (codes "Batch finalization RPC failed") op
        | none ↦
            set_terminal_error internal_error finalize_failed
              (codes "Operation has unfinished finalize actions") op
      ]

  abbrev pub has_rpc_error : Verdict → Bool
  has_rpc_error v = elim v.rpc_error [ none ↦ false | some _ ↦ true ]

  -- One round of the last loop.
  unfoldable pub resolve_operation : Verdict → PutOperation → PutOperation
  unfolding append_finalize_error_context set_success set_terminal_error
  resolve_operation v op =
      if is_resolved op
      then (if is_successful op then op else append_finalize_error_context v op)
      else if has_rpc_error v || not (v.pending_actions == 0)
      then finalize_failure v op
      else if v.should_succeed
      then set_success op
      else set_terminal_error v.terminal_error transfer_failed (context_value op) op

  unfoldable pub resolve_all : List Verdict → List PutOperation → ℕ → List PutOperation
  resolve_all vs [] i = []
  resolve_all vs (op ∷ ops) i =
      resolve_operation (get_or vs i no_verdict) op ∷ resolve_all vs ops (i + 1)

  unfoldable pub finalize_batch_put :
      FinalizeRpc → FinalizeRpc → List PutOperation → List PutOperation
  finalize_batch_put put_end put_revoke ops =
      let (ops', p) = plan_all ops 0 (initial_plan (length ops)) in
      resolve_all (process_groups put_end put_revoke p) ops' 0
