-- ===== src/Put/Tests.antt =====
-- The put pipeline on concrete operations.
use mooncake_maca_spdk_dmabu.Prelude.{
  none, ◌+◌, ◌-◌, String, Option, Bool, true, false, not, ◌&&◌, ◌||◌, ◌==◌, some, none, [], ◌∷◌,
  map, ◌≡◌, ◌≢◌, ◌⊎◌, refl, All, length, get_elem?, Text, codes,
}
use mooncake_maca_spdk_dmabu.Put.Types.{
  ErrorCode, ok_code, transfer_fail, ok, unexpected, memory, nof_ssd, ReplicateConfig,
  ReplicaTransferSummary, PutOperation, pending, is_resolved, is_successful,
}
use mooncake_maca_spdk_dmabu.Put.Decision.{determine_finalize_decision, has_expected_allocation}
use mooncake_maca_spdk_dmabu.Put.Decision.Sides.{covers, decision, decision_sides}
use mooncake_maca_spdk_dmabu.Put.Decision.Reliable.{IsBalanced, reliable_success}
use mooncake_maca_spdk_dmabu.Put.Finalize.{
  FinalizeRpc, plan_all, process_groups, initial_plan, decide, finalize_batch_put,
}
use mooncake_maca_spdk_dmabu.Put.Finalize.Resolved.{finalize_batch_put-resolved}
use mooncake_maca_spdk_dmabu.Put.Finalize.Actions.{actions, finalize_actions_done}
use mooncake_maca_spdk_dmabu.Put.Finalize.Answers.{all_acknowledged}
use mooncake_maca_spdk_dmabu.Put.Finalize.Report.{finalize_success}
use mooncake_maca_spdk_dmabu.Put.Pipeline.{Services, create_put_operations, transferred}
use mooncake_maca_spdk_dmabu.Put.Pipeline.Balance.{IsDoneOr, HasBalance, transferred-IsBalanced}
use mooncake_maca_spdk_dmabu.Put.Entry.{Strtoull, batch_upsert}
use mooncake_maca_spdk_dmabu.Put.Entry.Upserts.{batch_upsert-blind}
use mooncake_maca_spdk_dmabu.Put.Dispatch.{batch_put, batch_put_answers}

-- One memory replica and one NoF replica asked for; the memory transfer succeeded.
abbrev mixed_config : ReplicateConfig
mixed_config = record {
  replica_num = 1;
  nof_replica_num = 1;
  prefer_alloc_in_same_node = false;
  preferred_segment = "";
}

abbrev half_done : ReplicaTransferSummary
half_done = record {
  allocated_memory_replicas = 1;
  allocated_nof_replicas = 1;
  successful_memory_transfers = 1;
  successful_nof_transfers = 0;
  failed_memory_transfers = 0;
  failed_nof_transfers = 1;
  first_error = transfer_fail;
}

abbrev flexible : ReplicateConfig → Bool
flexible c = not (c.nof_replica_num == 0)

abbrev reliable : ReplicateConfig → Bool
reliable c = false

abbrev error_name : ErrorCode → Text
error_name e = codes "error"

abbrev accept_all : FinalizeRpc
accept_all keys type = map (λ k. ok tt) keys

abbrev refuse_all : FinalizeRpc
refuse_all keys type = map (λ k. unexpected transfer_fail) keys

-- An operation whose replicas are allocated and whose transfers have ended.
abbrev half_operation : PutOperation
half_operation = record {
  key = "a";
  slices = record { ptr = 4096; size = 8 } ∷ [];
  state = pending;
  result = unexpected transfer_fail;
  replicas =
      record { kind = memory; endpoint = "x"; size = 8 }
      ∷ record { kind = nof_ssd; endpoint = "y"; size = 8 }
      ∷ [];
  pending_transfers = (memory, 0) ∷ [];
  requested_memory_replicas = 1;
  requested_nof_replicas = 1;
  transfer_summary = half_done;
  failure_context = none;
}

decision_sides_example :
    (covers (decision flexible mixed_config half_done).end_type memory
      ≡ not (covers (decision flexible mixed_config half_done).revoke_type memory))
    × (covers (decision flexible mixed_config half_done).end_type nof_ssd
        ≡ not (covers (decision flexible mixed_config half_done).revoke_type nof_ssd))
    × ((decision flexible mixed_config half_done).success ≡ (
        covers (decision flexible mixed_config half_done).end_type memory
        || covers (decision flexible mixed_config half_done).end_type nof_ssd))
    × (((decision flexible mixed_config half_done).success ≡ true)
          × ((decision flexible mixed_config half_done).error ≡ ok_code)
        ⊎ ((decision flexible mixed_config half_done).success ≡ false)
          × ((decision flexible mixed_config half_done).error ≢ ok_code))
decision_sides_example = decision_sides flexible mixed_config half_done

half_done-IsBalanced : IsBalanced half_done
half_done-IsBalanced = record { memory_count = refl; nof_count = refl }

reliable_success_example : (determine_finalize_decision reliable mixed_config half_done).success ≡ (
    has_expected_allocation reliable mixed_config half_done
    && (half_done.failed_memory_transfers + half_done.failed_nof_transfers == 0))
reliable_success_example =
    reliable_success reliable mixed_config half_done refl half_done-IsBalanced

finalize_batch_put-resolved_example :
    (length (finalize_batch_put error_name flexible accept_all refuse_all (half_operation ∷ []))
      ≡ 1)
    × All
        (λ op. is_resolved op ≡ true)
        (finalize_batch_put error_name flexible accept_all refuse_all (half_operation ∷ []))
finalize_batch_put-resolved_example =
    finalize_batch_put-resolved error_name flexible accept_all refuse_all (half_operation ∷ [])

finalize_actions_done_example :
    actions
      (process_groups accept_all refuse_all
        (plan_all error_name flexible (half_operation ∷ []) 0 (initial_plan 1)).1)
      0
    ≡ 0
finalize_actions_done_example =
    finalize_actions_done error_name flexible accept_all refuse_all (half_operation ∷ []) 0

finalize_success_example :
    (op' : PutOperation) × (get_elem?
        (finalize_batch_put error_name flexible accept_all refuse_all (half_operation ∷ []))
        0
      ≡ some op')
    × (is_successful op' ≡ (
        (decide flexible half_operation).success
        && all_acknowledged accept_all refuse_all
            (plan_all error_name flexible (half_operation ∷ []) 0 (initial_plan 1)).1
            0))
finalize_success_example =
    finalize_success error_name flexible accept_all refuse_all (half_operation ∷ []) 0
      half_operation refl (record { unresolved = refl; allocated = refl })

abbrev answers : Services
answers = record {
  error_text = error_name;
  is_flexible = flexible;
  put_start = λ keys sizes config. map (λ k. ok half_operation.replicas) keys;
  put_end = accept_all;
  put_revoke = accept_all;
  submit = some (λ r slices. some 7);
  get = λ handle. ok_code;
  has_storage = false;
}

transferred-IsBalanced_example : All (IsDoneOr HasBalance) (
    transferred answers mixed_config
      (create_put_operations (("a", record { ptr = 4096; size = 8 } ∷ []) ∷ [])))
transferred-IsBalanced_example =
    transferred-IsBalanced answers mixed_config
      (create_put_operations (("a", record { ptr = 4096; size = 8 } ∷ []) ∷ []))
      (unfold create_put_operations in (refl, tt))

-- The environment asks for two replicas of each type.
abbrev environment : String → Option Text
environment name = some (codes "2")

abbrev read_digit : Text → Strtoull
read_digit [] = record { errno = 0; read_any = false; rest = []; value = 0 }
read_digit (c ∷ cs) = record { errno = 0; read_any = true; rest = cs; value = c - 48 }

abbrev default_config : ReplicateConfig
default_config = record {
  replica_num = 1;
  nof_replica_num = 0;
  prefer_alloc_in_same_node = false;
  preferred_segment = "";
}

batch_upsert-blind_example :
    batch_upsert answers
      (map (λ k. ok tt))
      (map (λ k. ok tt))
      default_config
      (("a", record { ptr = 4096; size = 8 } ∷ []) ∷ [])
    ≡ batch_upsert
        (record answers { get = λ handle. transfer_fail })
        (map (λ k. ok tt))
        (map (λ k. ok tt))
        default_config
        (("a", record { ptr = 4096; size = 8 } ∷ []) ∷ [])
batch_upsert-blind_example =
    batch_upsert-blind answers (λ handle. transfer_fail) (map (λ k. ok tt)) (map (λ k. ok tt))
      default_config (("a", record { ptr = 4096; size = 8 } ∷ []) ∷ [])

-- A put that prefers the same node, and whose batch transfer cannot be submitted.
abbrev same_node_config : ReplicateConfig
same_node_config = record {
  replica_num = 1;
  nof_replica_num = 0;
  prefer_alloc_in_same_node = true;
  preferred_segment = "";
}

batch_put_answers_example :
    batch_put answers
      (λ replicas slices. none)
      same_node_config
      (("a", record { ptr = 4096; size = 8 } ∷ []) ∷ [])
    ≢ none
batch_put_answers_example =
    batch_put_answers answers (λ replicas slices. none) (λ r slices. some 7) same_node_config
      (("a", record { ptr = 4096; size = 8 } ∷ []) ∷ []) refl
