-- ===== src/Replicas.antt =====
-- Replicas of stored objects: choosing one and reading it, and copying and moving an object between
-- segments, `Client::*` of mooncake-store/src/client_service.cpp. The master, the transfer submitter
-- and the hot cache are parameters.
pub mod Settled
mod Tests
use mooncake_maca_spdk_dmabu.Prelude.{
  ◌+◌, ◌%◌, ◌^◌, ℕ, String, Bool, true, false, not, ◌&&◌, ◌||◌, ltb, Option, none, some, List, [],
  ◌∷◌, ◌++◌, if◌then◌else◌, is_empty, str_eq,
}
use mooncake_maca_spdk_dmabu.Put.Types.{
  ErrorCode, ok_code, invalid_params, transfer_fail, is_ok_code, Expected, ok, unexpected, Replica,
  is_memory, is_nof, Slice,
}

-- A descriptor with its status and the address of its buffer.
pub record Descriptor : Type 0 where
  pub replica : Replica
  pub is_complete : Bool
  pub buffer_address : ℕ

-- INVALID_REPLICA, REPLICA_NOT_IN_LOCAL_MEMORY and LEASE_EXPIRED are codes of their own.
pub record Store : Type 0 where
  pub invalid_replica : ErrorCode
  pub replica_not_in_local_memory : ErrorCode
  pub lease_expired : ErrorCode
  pub is_p2p_handshake : Bool
  pub local_hostname : String
  pub transport_endpoint : String
  pub has_submitter : Bool
  -- what a submitted write, read or range read ends with
  pub write : Replica → List Slice → Option ErrorCode
  pub read : Replica → List Slice → Option ErrorCode
  pub read_range : Replica → List Slice → ℕ → Option ErrorCode
  -- the replica of the hot cache, where it has the key
  pub has_hot_cache : Bool
  pub redirect_to_hot_cache : String → Replica → Option Replica
  pub split_into_slices : ℕ → ℕ → List Slice

unfoldable pub find_first_complete_replica : List Descriptor → Option Descriptor
find_first_complete_replica [] = none
find_first_complete_replica (d ∷ ds) =
    let rest = find_first_complete_replica ds in if d.is_complete then some d else rest

-- `local_endpoints.count(endpoint)`
unfoldable pub is_local_endpoint : List String → String → Bool
is_local_endpoint [] e = false
is_local_endpoint (x ∷ xs) e =
    let rest = is_local_endpoint xs e in if str_eq x e then true else rest

-- The first replica of a kind at a local endpoint.
unfoldable pub first_local : (Replica → Bool) → List String → List Replica → Option Replica
unfolding is_local_endpoint
first_local of_kind endpoints [] = none
first_local of_kind endpoints (r ∷ rs) =
    let rest = first_local of_kind endpoints rs in
    if of_kind r && is_local_endpoint endpoints r.endpoint then some r else rest

abbrev or_first : Option Replica → Replica → Replica
or_first none r = r
or_first (some x) r = x

abbrev or_next : Option Replica → Option Replica → Option Replica
or_next none o = o
or_next (some x) o = some x

-- `local_endpoints` are the endpoints of the mounted segments.
unfoldable pub get_preferred_replica : List String → List Replica → Expected Replica
unfolding first_local
get_preferred_replica local_endpoints [] = unexpected invalid_params
get_preferred_replica local_endpoints (r ∷ rs) =
    if is_empty local_endpoints || is_empty rs
    then ok r
    else ok (
        or_first
          (or_next (first_local (λ x. is_memory x.kind) local_endpoints (r ∷ rs))
            (first_local (λ x. is_nof x.kind) local_endpoints (r ∷ rs)))
          r)

-- `CalculateSliceSize`, in `size_t`.
unfoldable pub calculate_slice_size : List Slice → ℕ
calculate_slice_size [] = 0
calculate_slice_size (x ∷ xs) = (x.size + calculate_slice_size xs) % 2 ^ 64

module _ (s : Store) where
  abbrev finished : Option ErrorCode → ErrorCode
  finished none = transfer_fail
  finished (some e) = e

  -- `TransferWrite` and `TransferData`
  unfoldable pub transfer_to : Replica → List Slice → ErrorCode
  transfer_to r slices = if s.has_submitter then finished (s.write r slices) else invalid_params

  unfoldable pub transfer_read : Replica → List Slice → ErrorCode
  unfolding calculate_slice_size
  transfer_read r slices =
      if ltb (calculate_slice_size slices) r.size
      then invalid_params
      else if s.has_submitter
      then finished (s.read r slices)
      else invalid_params

  unfoldable pub transfer_read_range : Replica → List Slice → ℕ → ErrorCode
  transfer_read_range r slices offset =
      if s.has_submitter then finished (s.read_range r slices offset) else invalid_params

  -- The replica to read from: that of the hot cache, where a memory replica is in it.
  unfoldable pub cached_replica : String → Replica → Replica
  cached_replica key r =
      if s.has_hot_cache && is_memory r.kind then or_first (s.redirect_to_hot_cache key r) r else r

  abbrev after_read : ErrorCode → Bool → Expected (Unit {0})
  after_read e expired =
      if is_ok_code e then (if expired then unexpected s.lease_expired else ok tt) else unexpected e

  -- `expired` is whether the lease has run out when the transfer is done.
  unfoldable pub get : String → List Descriptor → Bool → List Slice → Expected (Unit {0})
  unfolding find_first_complete_replica cached_replica transfer_read
  get key replicas expired slices = elim (find_first_complete_replica replicas) [
    | none ↦ unexpected s.invalid_replica
    | some d ↦ after_read (transfer_read (cached_replica key d.replica) slices) expired
  ]

  unfoldable pub get_range : List Descriptor → Bool → List Slice → ℕ → Expected (Unit {0})
  unfolding find_first_complete_replica transfer_read_range
  get_range replicas expired slices offset = elim (find_first_complete_replica replicas) [
    | none ↦ unexpected s.invalid_replica
    | some d ↦
        if is_memory d.replica.kind
        then after_read (transfer_read_range d.replica slices offset) expired
        else unexpected s.invalid_replica
  ]

  unfoldable pub is_replica_on_local_memory : Replica → Bool
  is_replica_on_local_memory r =
      if is_memory r.kind
      then if s.is_p2p_handshake
        then str_eq r.endpoint s.transport_endpoint
        else str_eq s.local_hostname r.endpoint
      else false

-- A call of the master or a write to a target.
pub data ReplicaCall : Type 0 where
  written : Replica → ReplicaCall
  end_called revoke_called : ReplicaCall

module _ (s : Store) where
  -- The targets are written in turn up to the first failure: whether all succeeded.
  unfoldable pub write_targets : List Slice → List Replica → Bool × List ReplicaCall
  unfolding transfer_to
  write_targets slices [] = (true, [])
  write_targets slices (t ∷ ts) =
      let rest = write_targets slices ts in
      if is_ok_code (transfer_to s t slices)
      then (rest.0, written t ∷ rest.1)
      else (false, written t ∷ [])

  -- The end call, behind which a failure is revoked.
  unfoldable pub end_transfer :
      Expected (Unit {0}) → List ReplicaCall → Expected (Unit {0}) × List ReplicaCall
  end_transfer (ok u) calls = (ok tt, calls ++ end_called ∷ [])
  end_transfer (unexpected e) calls = (unexpected e, calls ++ end_called ∷ revoke_called ∷ [])

  -- `end_answer` is what the end call answers if it is made; the answer of the revoke call is only
  -- logged.
  unfoldable pub execute_replica_transfer :
      Expected (Unit {0}) → Descriptor → List Replica → Expected (Unit {0}) × List ReplicaCall
  unfolding is_replica_on_local_memory write_targets end_transfer
  execute_replica_transfer end_answer source targets =
      let slices = s.split_into_slices source.buffer_address source.replica.size in
      let (done, calls) = write_targets slices targets in
      if not (is_memory source.replica.kind)
      then (unexpected invalid_params, revoke_called ∷ [])
      else if not (is_replica_on_local_memory s source.replica)
      then (unexpected s.replica_not_in_local_memory, revoke_called ∷ [])
      else if done
      then end_transfer end_answer calls
      else (unexpected transfer_fail, calls ++ revoke_called ∷ [])

  -- `Copy`: `start` is the answer of CopyStart, the source and the targets.
  unfoldable pub copy :
      Expected (Descriptor × List Replica)
      → Expected (Unit {0})
      → Expected (Unit {0}) × List ReplicaCall
  unfolding execute_replica_transfer
  copy (unexpected e) end_answer = (unexpected e, [])
  copy (ok (source, [])) end_answer = (end_answer, end_called ∷ [])
  copy (ok (source, (t ∷ ts))) end_answer = execute_replica_transfer end_answer source (t ∷ ts)

  -- `Move`: there is at most one target.
  unfoldable pub move :
      Expected (Descriptor × Option Replica)
      → Expected (Unit {0})
      → Expected (Unit {0}) × List ReplicaCall
  unfolding execute_replica_transfer
  move (unexpected e) end_answer = (unexpected e, [])
  move (ok (source, none)) end_answer = (end_answer, end_called ∷ [])
  move (ok (source, some t)) end_answer = execute_replica_transfer end_answer source (t ∷ [])
