-- ===== src/Put/Transfers/Accounting.antt =====
-- The counters of the transfer summary: every allocated replica is counted once, as a success or
-- as a failure.
use mooncake_maca_spdk_dmabu.Prelude.{
  ℕ, suc, ◌+◌, Bool, true, Option, none, some, List, [], ◌∷◌, ◌++◌, ◌≡◌, ◌∙◌, ◌⊎◌, arith,
  if◌then◌else◌,
}
use mooncake_maca_spdk_dmabu.Put.Types.{
  ErrorCode, ReplicaType, memory, nof_ssd, is_memory, is_nof, Replica, PutOperation, is_resolved,
}
use mooncake_maca_spdk_dmabu.Put.Transfers.{
  SubmitCall, WaitCall, record_submission, submit_replica, submit_replicas, submit_operation,
  record_completion, wait_each, wait_operation,
}
use mooncake_maca_spdk_dmabu.Put.Decision.Reliable.{IsBalanced}

abbrev pub memory_replicas : List Replica → ℕ
memory_replicas [] = 0
memory_replicas (r ∷ rs) = if is_memory r.kind then suc (memory_replicas rs) else memory_replicas rs

abbrev pub nof_replicas : List Replica → ℕ
nof_replicas [] = 0
nof_replicas (r ∷ rs) = if is_nof r.kind then suc (nof_replicas rs) else nof_replicas rs

abbrev memory_transfers : List (ReplicaType × ℕ) → ℕ
memory_transfers [] = 0
memory_transfers ((t, h) ∷ ts) =
    if is_memory t then suc (memory_transfers ts) else memory_transfers ts

abbrev nof_transfers : List (ReplicaType × ℕ) → ℕ
nof_transfers [] = 0
nof_transfers ((t, h) ∷ ts) = if is_nof t then suc (nof_transfers ts) else nof_transfers ts

memory_transfers-append :
    (ts us : List (ReplicaType × ℕ))
    → memory_transfers (ts ++ us) ≡ memory_transfers ts + memory_transfers us
memory_transfers-append [] us = omega arith
memory_transfers-append ((t, h) ∷ ts) us = ground (arith, memory_transfers-append ts us)

nof_transfers-append :
    (ts us : List (ReplicaType × ℕ))
    → nof_transfers (ts ++ us) ≡ nof_transfers ts + nof_transfers us
nof_transfers-append [] us = omega arith
nof_transfers-append ((t, h) ∷ ts) us = ground (arith, nof_transfers-append ts us)

-- All that is counted for the replicas of each type: successes, failures, transfers under way.
abbrev memory_total : PutOperation → ℕ
memory_total op =
    op.transfer_summary.successful_memory_transfers
    + op.transfer_summary.failed_memory_transfers
    + memory_transfers op.pending_transfers

abbrev nof_total : PutOperation → ℕ
nof_total op =
    op.transfer_summary.successful_nof_transfers
    + op.transfer_summary.failed_nof_transfers
    + nof_transfers op.pending_transfers

-- `q` counts `m` memory replicas and `n` NoF replicas more than `p`.
record Counts (m n : ℕ) (p q : PutOperation) : Type 0 where
  memory : memory_total q ≡ memory_total p + m
  nof : nof_total q ≡ nof_total p + n
  allocated_memory :
      q.transfer_summary.allocated_memory_replicas ≡ p.transfer_summary.allocated_memory_replicas
  allocated_nof :
      q.transfer_summary.allocated_nof_replicas ≡ p.transfer_summary.allocated_nof_replicas
  state : q.state ≡ p.state

record_memory :
    (idx : ℕ) (o : Option ℕ) (op : PutOperation) → Counts 1 0 op (record_submission memory idx o op)
unfolding record_submission
record_memory idx none op = ground arith
record_memory idx (some h) op = ground (
  arith,
  memory_transfers-append op.pending_transfers ((memory, h) ∷ []),
  nof_transfers-append op.pending_transfers ((memory, h) ∷ []),
)

record_nof :
    (idx : ℕ) (o : Option ℕ) (op : PutOperation)
    → Counts 0 1 op (record_submission nof_ssd idx o op)
unfolding record_submission
record_nof idx none op = ground arith
record_nof idx (some h) op = ground (
  arith,
  memory_transfers-append op.pending_transfers ((nof_ssd, h) ∷ []),
  nof_transfers-append op.pending_transfers ((nof_ssd, h) ∷ []),
)

submit_replica-Counts :
    (submit : SubmitCall) (r : Replica) (idx : ℕ) (op : PutOperation)
    → Counts
        (if is_memory r.kind then 1 else 0)
        (if is_nof r.kind then 1 else 0)
        op
        (submit_replica submit r idx op)
unfolding submit_replica
submit_replica-Counts submit r idx op =
    ground
      (arith, record_memory idx (submit r op.slices) op, record_nof idx (submit r op.slices) op)

Counts-trans :
    {m n k l : ℕ} {p q r : PutOperation}
    → Counts m n p q
    → Counts k l q r
    → Counts (m + k) (n + l) p r
Counts-trans a b = record {
  memory = omega arith;
  nof = omega arith;
  allocated_memory = b.allocated_memory ∙ a.allocated_memory;
  allocated_nof = b.allocated_nof ∙ a.allocated_nof;
  state = b.state ∙ a.state;
}

-- `m + n` is stuck, so the totals are given by an equation.
Counts-cast : {m n k l : ℕ} {p q : PutOperation} → m ≡ k → n ≡ l → Counts m n p q → Counts k l p q
Counts-cast {p = p} {q = q} e f c = rw (← e, ← f) c

submit_replicas-Counts :
    (submit : SubmitCall) (rs : List Replica) (idx : ℕ) (op : PutOperation)
    → Counts (memory_replicas rs) (nof_replicas rs) op (submit_replicas submit rs idx op)
unfolding submit_replicas
submit_replicas-Counts submit [] idx op = ground arith
submit_replicas-Counts submit (r ∷ rs) idx op = Counts-cast (ground arith) (ground arith) (
    Counts-trans (submit_replica-Counts submit r idx op)
      (submit_replicas-Counts submit rs (idx + 1) (submit_replica submit r idx op)))

-- Waiting moves each transfer from "under way" to a success or a failure.
record Waits (ts : List (ReplicaType × ℕ)) (p q : PutOperation) : Type 0 where
  memory :
      q.transfer_summary.successful_memory_transfers + q.transfer_summary.failed_memory_transfers
      ≡ p.transfer_summary.successful_memory_transfers
        + p.transfer_summary.failed_memory_transfers
        + memory_transfers ts
  nof :
      q.transfer_summary.successful_nof_transfers + q.transfer_summary.failed_nof_transfers
      ≡ p.transfer_summary.successful_nof_transfers
        + p.transfer_summary.failed_nof_transfers
        + nof_transfers ts
  allocated_memory :
      q.transfer_summary.allocated_memory_replicas ≡ p.transfer_summary.allocated_memory_replicas
  allocated_nof :
      q.transfer_summary.allocated_nof_replicas ≡ p.transfer_summary.allocated_nof_replicas

record_completion-Waits :
    (t : ReplicaType) (h i : ℕ) (e : ErrorCode) (op : PutOperation)
    → Waits ((t, h) ∷ []) op (record_completion t i e op)
unfolding record_completion
record_completion-Waits memory h i e op = ground arith
record_completion-Waits _ h i e op = ground arith

wait_each-Waits :
    (get : WaitCall) (ts : List (ReplicaType × ℕ)) (i : ℕ) (op : PutOperation)
    → Waits ts op (wait_each get ts i op)
unfolding wait_each
wait_each-Waits get [] i op = ground arith
wait_each-Waits get ((t, h) ∷ ts) i op = ground (
  arith,
  record_completion-Waits t h i (get h) op,
  wait_each-Waits get ts (i + 1) (record_completion t i (get h) op),
)

-- What `StartBatchPut` leaves: an ended operation, or one with its allocation counted.
pub record IsStarted (op : PutOperation) : Type 0 where
  pub memory_allocated : op.transfer_summary.allocated_memory_replicas ≡ memory_replicas op.replicas
  pub nof_allocated : op.transfer_summary.allocated_nof_replicas ≡ nof_replicas op.replicas
  pub no_memory : memory_total op ≡ 0
  pub no_nof : nof_total op ≡ 0

-- Every allocated replica is counted or under way.
pub record IsSubmitted (op : PutOperation) : Type 0 where
  pub memory_counted : memory_total op ≡ op.transfer_summary.allocated_memory_replicas
  pub nof_counted : nof_total op ≡ op.transfer_summary.allocated_nof_replicas

pub submit_operation-IsSubmitted :
    (submit : SubmitCall) (has_storage : Bool) (op : PutOperation)
    → IsStarted op
    → (is_resolved (submit_operation submit has_storage op).0 ≡ true)
      ⊎ IsSubmitted (submit_operation submit has_storage op).0
unfolding submit_operation
submit_operation-IsSubmitted submit has_storage op s =
    ground (arith, submit_replicas-Counts submit op.replicas 0 op)

pub wait_operation-IsBalanced :
    (get : WaitCall) (op : PutOperation)
    → IsSubmitted op
    → (is_resolved (wait_operation get op) ≡ true)
      ⊎ IsBalanced (wait_operation get op).transfer_summary
unfolding wait_operation
wait_operation-IsBalanced get op s = ground (arith, wait_each-Waits get op.pending_transfers 0 op)

pub wait_operation-resolved :
    (get : WaitCall) (op : PutOperation)
    → is_resolved op ≡ true
    → is_resolved (wait_operation get op) ≡ true
unfolding wait_operation
wait_operation-resolved get op h = rw h h

pub submit_operation-resolved :
    (submit : SubmitCall) (has_storage : Bool) (op : PutOperation)
    → is_resolved op ≡ true
    → is_resolved (submit_operation submit has_storage op).0 ≡ true
unfolding submit_operation
submit_operation-resolved submit has_storage op h = rw h h
