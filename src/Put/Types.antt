-- ===== src/Put/Types.antt =====
-- The values that the put pipeline passes round: error codes, replicas, the transfer summary and
-- `PutOperation`, as declared in mooncake-store/src/client_service.cpp. The replica descriptor
-- and the enumerations come from headers outside the repository; the model has the cases
-- that this code names.
use mooncake_maca_spdk_dmabu.Prelude.{
  ◌≡◌, refl, ℕ, ◌+◌, String, Bool, true, false, Option, none, some, List, [], ◌∷◌, ◌++◌, ◌&&◌, not,
  Text, codes,
}

pub data ErrorCode : Type 0 where
  ok_code internal_error invalid_params rpc_fail no_available_handle transfer_fail : ErrorCode
  object_already_exists : ErrorCode
  other_code : ℕ → ErrorCode

abbrev pub is_ok_code : ErrorCode → Bool
is_ok_code ok_code = true
is_ok_code _ = false

-- `tl::expected<A, ErrorCode>`
pub data Expected {ℓ} (A : Type ℓ) : Type ℓ where
  ok : A → Expected A
  unexpected : ErrorCode → Expected A

abbrev pub has_value {ℓ} : {A : Type ℓ} → Expected A → Bool
has_value (ok a) = true
has_value (unexpected e) = false

pub data ReplicaType : Type 0 where
  all_types memory nof_ssd disk local_disk : ReplicaType

-- A replica descriptor is of any kind but `all_types`.
pub record Replica : Type 0 where
  pub kind : ReplicaType
  pub endpoint : String
  pub size : ℕ

abbrev pub is_memory : ReplicaType → Bool
is_memory memory = true
is_memory _ = false

abbrev pub is_nof : ReplicaType → Bool
is_nof nof_ssd = true
is_nof _ = false

abbrev pub is_disk : ReplicaType → Bool
is_disk disk = true
is_disk _ = false

pub record ReplicateConfig : Type 0 where
  pub replica_num : ℕ
  pub nof_replica_num : ℕ
  pub prefer_alloc_in_same_node : Bool
  pub preferred_segment : String

pub record Slice : Type 0 where
  pub ptr : ℕ
  pub size : ℕ

pub record ReplicaTransferSummary : Type 0 where
  pub allocated_memory_replicas : ℕ
  pub allocated_nof_replicas : ℕ
  pub successful_memory_transfers : ℕ
  pub successful_nof_transfers : ℕ
  pub failed_memory_transfers : ℕ
  pub failed_nof_transfers : ℕ
  pub first_error : ErrorCode

abbrev pub empty_summary : ReplicaTransferSummary
empty_summary = record {
  allocated_memory_replicas = 0;
  allocated_nof_replicas = 0;
  successful_memory_transfers = 0;
  successful_nof_transfers = 0;
  failed_memory_transfers = 0;
  failed_nof_transfers = 0;
  first_error = ok_code;
}

unfoldable pub record_allocated_replica :
    ReplicaType → ReplicaTransferSummary → ReplicaTransferSummary
record_allocated_replica memory s = record s {
  allocated_memory_replicas = s.allocated_memory_replicas + 1;
}
record_allocated_replica nof_ssd s = record s {
  allocated_nof_replicas = s.allocated_nof_replicas + 1;
}
record_allocated_replica _ s = s

unfoldable pub record_success : ReplicaType → ReplicaTransferSummary → ReplicaTransferSummary
record_success memory s = record s {
  successful_memory_transfers = s.successful_memory_transfers + 1;
}
record_success nof_ssd s = record s { successful_nof_transfers = s.successful_nof_transfers + 1 }
record_success _ s = s

abbrev first_of_errors : ErrorCode → ErrorCode → ErrorCode
first_of_errors ok_code error = error
first_of_errors first error = first

unfoldable pub record_failure :
    ReplicaType → ErrorCode → ReplicaTransferSummary → ReplicaTransferSummary
record_failure memory error s = record s {
  failed_memory_transfers = s.failed_memory_transfers + 1;
  first_error = first_of_errors s.first_error error;
}
record_failure nof_ssd error s = record s {
  failed_nof_transfers = s.failed_nof_transfers + 1;
  first_error = first_of_errors s.first_error error;
}
record_failure _ error s = record s { first_error = first_of_errors s.first_error error }

pub data PutOperationState : Type 0 where
  pending master_failed transfer_failed finalize_failed success : PutOperationState

-- `PutOperation`. A pending transfer is its replica type and the handle of its future.
pub record PutOperation : Type 0 where
  pub key : String
  pub slices : List Slice
  pub state : PutOperationState
  pub result : Expected (Unit {0})
  pub replicas : List Replica
  pub pending_transfers : List (ReplicaType × ℕ)
  pub requested_memory_replicas : ℕ
  pub requested_nof_replicas : ℕ
  pub transfer_summary : ReplicaTransferSummary
  pub failure_context : Option Text

unfoldable pub new_operation : String → List Slice → PutOperation
new_operation k s = record {
  key = k;
  slices = s;
  state = pending;
  result = unexpected internal_error;
  replicas = [];
  pending_transfers = [];
  requested_memory_replicas = 0;
  requested_nof_replicas = 0;
  transfer_summary = empty_summary;
  failure_context = none;
}

unfoldable pub set_success : PutOperation → PutOperation
set_success op = record op { state = success; result = ok tt; failure_context = none }

abbrev pub context_or : Text → Option Text → Option Text
context_or [] old = old
context_or (c ∷ cs) old = some (c ∷ cs)

unfoldable pub set_terminal_error :
    ErrorCode → PutOperationState → Text → PutOperation → PutOperation
set_terminal_error error terminal context op = record op {
  state = terminal;
  result = unexpected error;
  failure_context = context_or context op.failure_context;
}

abbrev append_context : Text → Option Text → Option Text
append_context [] old = old
append_context (c ∷ cs) none = some (c ∷ cs)
append_context (c ∷ cs) (some old) = some (old ++ (b';' ∷ b' ' ∷ c ∷ cs))

unfoldable pub append_failure_context : Text → PutOperation → PutOperation
append_failure_context context op = record op {
  failure_context = append_context context op.failure_context;
}

abbrev pub is_pending : PutOperationState → Bool
is_pending pending = true
is_pending _ = false

abbrev pub is_resolved : PutOperation → Bool
is_resolved op = not (is_pending op.state)

abbrev pub is_success_state : PutOperationState → Bool
is_success_state success = true
is_success_state _ = false

abbrev pub is_successful : PutOperation → Bool
is_successful op = is_success_state op.state && has_value op.result

-- The state that an error means depends on how far the operation came.
abbrev stage_failed : List Replica → List (ReplicaType × ℕ) → PutOperationState
stage_failed [] _ = master_failed
stage_failed (r ∷ rs) [] = transfer_failed
stage_failed (r ∷ rs) (t ∷ ts) = finalize_failed

abbrev old_context : Option Text → Text
old_context none = []
old_context (some c) = c

abbrev error_context : (ErrorCode → Text) → ErrorCode → Text → Option Text → Option Text
error_context error_text error [] old = old
error_context error_text error (c ∷ cs) old =
    some (error_text error ++ (codes ": " ++ (c ∷ cs) ++ codes "; " ++ old_context old))

-- `toString` of an error code comes from a header outside the repository.
unfoldable pub set_error : (ErrorCode → Text) → ErrorCode → Text → PutOperation → PutOperation
set_error error_text error context op = record op {
  result = unexpected error;
  failure_context = error_context error_text error context op.failure_context;
  state = stage_failed op.replicas op.pending_transfers;
}

unfoldable pub initialize_requested_replicas : ReplicateConfig → PutOperation → PutOperation
initialize_requested_replicas config op = record op {
  requested_memory_replicas = config.replica_num;
  requested_nof_replicas = config.nof_replica_num;
}

unfoldable pub to_replicate_config : PutOperation → ReplicateConfig
to_replicate_config op = record {
  replica_num = op.requested_memory_replicas;
  nof_replica_num = op.requested_nof_replicas;
  prefer_alloc_in_same_node = false;
  preferred_segment = "";
}

unfoldable pub record_replicas : List Replica → ReplicaTransferSummary → ReplicaTransferSummary
unfolding record_allocated_replica
record_replicas [] s = s
record_replicas (r ∷ rs) s = record_replicas rs (record_allocated_replica r.kind s)

unfoldable pub record_allocated_replicas : PutOperation → PutOperation
unfolding record_replicas
record_allocated_replicas op = record op {
  transfer_summary = record_replicas op.replicas empty_summary;
}

-- What holds of both cases of a result holds of the case that is taken.
pub expected_keeps {ℓ κ λ'} :
    {A : Type ℓ} {B : Type κ} (P : B → Type λ') (r : Expected A) (f : ErrorCode → B) (g : A → B)
    → ((e : ErrorCode) → P (f e))
    → ((a : A) → r ≡ ok a → P (g a))
    → P (elim r [ unexpected e ↦ f e | ok a ↦ g a ])
expected_keeps P (ok a) f g p q = q a refl
expected_keeps P (unexpected e) f g p q = p e
