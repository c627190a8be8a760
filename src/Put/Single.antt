-- ===== src/Put/Single.antt =====
-- `Put` and `Upsert` of one object, with `TransferData` and `TransferWrite`, `Client::*` of
-- mooncake-store/src/client_service.cpp. What the client does to others is the list of its calls in
-- their order; the master and the transfer submitter are parameters.
pub mod Settled
pub mod Upserted
mod Tests
use mooncake_maca_spdk_dmabu.Prelude.{
  ℕ, String, Bool, true, false, Option, none, some, List, [], ◌∷◌, ◌++◌, map, if◌then◌else◌, Text,
}
use mooncake_maca_spdk_dmabu.Put.Types.{
  ErrorCode, ok_code, invalid_params, transfer_fail, object_already_exists, is_ok_code, Expected,
  ok, unexpected, ReplicaType, memory, Replica, is_memory, is_nof, is_disk, ReplicateConfig, Slice,
  ReplicaTransferSummary, empty_summary, record_allocated_replica, record_success, record_failure,
}
use mooncake_maca_spdk_dmabu.Put.Decision.{FinalizeDecision, determine_finalize_decision}
use mooncake_maca_spdk_dmabu.Put.Transfers.{last_disk_replica}
use mooncake_maca_spdk_dmabu.Put.Entry.{Strtoull, apply_override}

-- A call that the client makes.
pub data Made : Type 0 where
  removed_hot_key : Made
  wrote_to_file wrote : Replica → Made
  ended revoked : ReplicaType → Made

pub record Objects : Type 0 where
  pub is_flexible : ReplicateConfig → Bool
  pub is_cxl : Bool
  pub local_hostname : String
  pub has_hot_cache : Bool
  pub has_storage : Bool
  -- the transfer submitter, if it is there, and what a submitted transfer ends with
  pub has_submitter : Bool
  pub submit : Replica → List Slice → Option ErrorCode
  pub start : String → List ℕ → ReplicateConfig → Expected (List Replica)
  pub end_type : String → ReplicaType → Expected (Unit {0})
  pub revoke_type : String → ReplicaType → Expected (Unit {0})

abbrev sizes : List Slice → List ℕ
sizes = map (λ s. s.size)

module _ (o : Objects) where
  unfoldable pub transfer_write : Replica → List Slice → ErrorCode
  transfer_write r slices =
      if o.has_submitter
      then elim (o.submit r slices) [ none ↦ transfer_fail | some e ↦ e ]
      else invalid_params

  -- A transfer to a memory or NoF replica is recorded; the call is made in any case.
  unfoldable pub put_replica :
      List Slice → Replica → ReplicaTransferSummary → ReplicaTransferSummary
  unfolding transfer_write
  put_replica slices r s =
      let e = transfer_write r slices in
      if is_memory r.kind
      then if is_ok_code e then record_success r.kind s else record_failure r.kind e s
      else if is_nof r.kind
      then if is_ok_code e then record_success r.kind s else record_failure r.kind e s
      else s

  unfoldable pub put_replicas :
      List Slice → List Replica → ReplicaTransferSummary → ReplicaTransferSummary
  unfolding put_replica
  put_replicas slices [] s = s
  put_replicas slices (r ∷ rs) s = put_replicas slices rs (put_replica slices r s)

  unfoldable pub allocate_all : List Replica → ReplicaTransferSummary → ReplicaTransferSummary
  unfolding record_allocated_replica
  allocate_all [] s = s
  allocate_all (r ∷ rs) s = allocate_all rs (record_allocated_replica r.kind s)

  abbrev if_written : Replica → List Made
  if_written r =
      if is_memory r.kind then wrote r ∷ [] else if is_nof r.kind then wrote r ∷ [] else []

  unfoldable pub writes : List Replica → List Made
  writes [] = []
  writes (r ∷ rs) = if_written r ++ writes rs

  -- The last disk replica is written to a file first.
  unfoldable pub disk_write : List Replica → List Made
  disk_write rs =
      if o.has_storage
      then elim (last_disk_replica rs) [ none ↦ [] | some r ↦ wrote_to_file r ∷ [] ]
      else []

  unfoldable pub revoke_decided : String → FinalizeDecision → Expected (Unit {0}) × List Made
  revoke_decided key d = elim d.revoke_type [
    | none ↦ (if d.success then ok tt else unexpected d.error, [])
    | some t ↦ elim (o.revoke_type key t) [
      | unexpected e ↦ (unexpected e, revoked t ∷ [])
      | ok u ↦ (if d.success then ok tt else unexpected d.error, revoked t ∷ [])
    ]
  ]

  -- The end call, and the revoke call only if the end call succeeds.
  unfoldable pub finish_put : String → FinalizeDecision → Expected (Unit {0}) × List Made
  unfolding revoke_decided
  finish_put key d = elim d.end_type [
    | none ↦ revoke_decided key d
    | some t ↦ elim (o.end_type key t) [
      | unexpected e ↦ (unexpected e, ended t ∷ [])
      | ok u ↦ let (r, made) = revoke_decided key d in (r, ended t ∷ made)
    ]
  ]

  abbrev with_segment : ReplicateConfig → ReplicateConfig
  with_segment c = if o.is_cxl then record c { preferred_segment = o.local_hostname } else c

  abbrev hot_key : List Made
  hot_key = if o.has_hot_cache then removed_hot_key ∷ [] else []

  unfoldable pub summary_of : List Slice → List Replica → ReplicaTransferSummary
  unfolding put_replicas allocate_all
  summary_of slices rs = put_replicas slices rs (allocate_all rs empty_summary)

  -- Behind a start call that allocates replicas.
  unfoldable pub put_allocated :
      String → List Slice → ReplicateConfig → List Replica → Expected (Unit {0}) × List Made
  unfolding summary_of finish_put disk_write writes
  put_allocated key slices config rs =
      let d = determine_finalize_decision o.is_flexible config (summary_of slices rs) in
      let (r, made) = finish_put key d in (r, disk_write rs ++ (writes rs ++ made))

  -- `config` is the client's, behind the override from the environment.
  unfoldable pub put_with : String → List Slice → ReplicateConfig → Expected (Unit {0}) × List Made
  unfolding put_allocated
  put_with key slices config = elim (o.start key (sizes slices) (with_segment config)) [
    | unexpected object_already_exists ↦ (ok tt, hot_key)
    | unexpected e ↦ (unexpected e, hot_key)
    | ok rs ↦
        let (r, made) = put_allocated key slices (with_segment config) rs in (r, hot_key ++ made)
  ]

  unfoldable pub put :
      (getenv : String → Option Text) (strtoull : Text → Strtoull)
      → String
      → List Slice
      → ReplicateConfig
      → Expected (Unit {0}) × List Made
  unfolding put_with apply_override
  put getenv strtoull key slices config =
      put_with key slices (apply_override getenv strtoull config)

  -- The memory replicas are written one after another until a transfer fails: that failure.
  unfoldable pub upsert_replicas : List Slice → List Replica → Option ErrorCode × List Made
  unfolding transfer_write
  upsert_replicas slices [] = (none, [])
  upsert_replicas slices (r ∷ rs) =
      let e = transfer_write r slices in
      let rest = upsert_replicas slices rs in
      if is_memory r.kind
      then if is_ok_code e then (rest.0, wrote r ∷ rest.1) else (some e, wrote r ∷ [])
      else rest

  -- A failure is answered behind the revoke call; without one the end call follows.
  unfoldable pub finish_upsert : String → Option ErrorCode → Expected (Unit {0}) × List Made
  finish_upsert key (some e) = elim (o.revoke_type key memory) [
    | unexpected e' ↦ (unexpected e', revoked memory ∷ [])
    | ok u ↦ (unexpected e, revoked memory ∷ [])
  ]
  finish_upsert key none = elim (o.end_type key memory) [
    | unexpected e ↦ (unexpected e, ended memory ∷ [])
    | ok u ↦ (ok tt, ended memory ∷ hot_key)
  ]

  unfoldable pub upsert_allocated :
      String → List Slice → List Replica → Expected (Unit {0}) × List Made
  unfolding upsert_replicas finish_upsert disk_write
  upsert_allocated key slices rs =
      let (failure, written) = upsert_replicas slices rs in
      let (r, made) = finish_upsert key failure in (r, disk_write rs ++ (written ++ made))

  unfoldable pub upsert : String → List Slice → ReplicateConfig → Expected (Unit {0}) × List Made
  unfolding upsert_allocated
  upsert key slices config = elim (o.start key (sizes slices) (with_segment config)) [
    | unexpected e ↦ (unexpected e, hot_key)
    | ok rs ↦ let (r, made) = upsert_allocated key slices rs in (r, hot_key ++ made)
  ]
