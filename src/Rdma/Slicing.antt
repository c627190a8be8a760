-- ===== src/Rdma/Slicing.antt =====
-- `RdmaTransport::submitTransferTask` of
-- mooncake-transfer-engine/src/transport/rdma_transport/rdma_transport.cpp: a request is cut into
-- slices, each slice is given a device and queued, and the queues are posted at the watermark.
-- `slices_to_post` is a list of pairs with the contexts in the order of their first slice; a context
-- enters it with a slice, so that no queue is empty. Contexts do not change their state meanwhile.
pub mod Cut
pub mod Posted
use mooncake_maca_spdk_dmabu.Prelude.{
  ℕ, ◌+◌, ◌-◌, ◌%◌, ◌^◌, Bool, true, false, not, Option, none, some, List, [], ◌∷◌, ◌++◌, ltb, leb,
  ◌==◌, if◌then◌else◌, get_elem?, get_or, zero, suc, map,
}
use mooncake_maca_spdk_dmabu.Rdma.Select.{BufferDesc, SegmentDesc, select_device}

pub record TransferRequest : Type 0 where
  pub opcode : ℕ
  pub source : ℕ
  pub target_id : ℕ
  pub target_offset : ℕ
  pub length : ℕ
  pub advise_retry_cnt : ℕ

-- The fields of `Slice` that the call sets to more than a constant.
pub record Slice : Type 0 where
  pub source_addr : ℕ
  pub length : ℕ
  pub opcode : ℕ
  pub dest_addr : ℕ
  pub retry_cnt : ℕ
  pub max_retry_cnt : ℕ
  pub target_id : ℕ
  pub source_lkey : ℕ

pub record TransferTask : Type 0 where
  pub slice_list : List Slice
  pub total_bytes : ℕ
  pub slice_count : ℕ

-- The fields of `globalConfig()` that are read, and `kSubmitWatermark`.
pub record Config : Type 0 where
  pub slice_size : ℕ
  pub fragment_limit : ℕ
  pub retry_cnt : ℕ
  pub submit_watermark : ℕ

-- What the call works on: the segment, which contexts are active, and which of the cache's
-- allocations (counted from the start of the call) reuse a slice.
pub record Env : Type 0 where
  pub config : Config
  pub desc : SegmentDesc
  pub active : ℕ → Bool
  pub from_cache : ℕ → Bool

-- The state of the loop over the slices of one task; `posted` is the calls of `submitPostSend`.
pub record Posting : Type 0 where
  pub task : TransferTask
  pub slices_to_post : List (ℕ × List Slice)
  pub posted : List (ℕ × List Slice)
  pub nr_slices : ℕ
  pub allocated : ℕ

-- `out_of_fuel` is the model's own; the others are the source's results.
pub data SubmitStatus : Type 0 where
  ok out_of_fuel : SubmitStatus
  address_not_registered device_not_active : ℕ → SubmitStatus

unfoldable pub queue_slice : ℕ → Slice → List (ℕ × List Slice) → List (ℕ × List Slice)
queue_slice device slice [] = (device, slice ∷ []) ∷ []
queue_slice device slice ((d, slices) ∷ rest) =
    let rest' = (d, slices) ∷ queue_slice device slice rest in
    if d == device then (d, slices ++ slice ∷ []) ∷ rest else rest'

module _ (env : Env) where
  -- `fuel` is the number of attempts left, kMaxRetryCount - retry_cnt.
  unfoldable pub retry_device : ℕ → ℕ → ℕ → ℕ → Option (ℕ × ℕ)
  retry_device zero addr length retry_cnt = none
  retry_device (suc fuel) addr length retry_cnt =
      let rest = retry_device fuel addr length (retry_cnt + 1) in
      elim (select_device (some env.desc) addr length [] retry_cnt) [
        | none ↦ rest
        | some (buffer_id, device_id) ↦
            if env.active device_id then some (buffer_id, device_id) else rest
      ]

  -- The device chosen for the whole request, or else one for the slice alone.
  unfoldable pub slice_device : TransferRequest → Slice → Option (ℕ × ℕ)
  slice_device request slice =
      elim (select_device (some env.desc) request.source request.length [] 0) [
        | none ↦
            retry_device (env.config.retry_cnt - request.advise_retry_cnt) slice.source_addr
              slice.length request.advise_retry_cnt
        | some r ↦ some r
      ]

  unfoldable pub merge_final_slice : TransferRequest → ℕ → Bool
  merge_final_slice request offset =
      leb (request.length - offset) ((env.config.slice_size + env.config.fragment_limit) % 2 ^ 64)

  unfoldable pub make_slice : TransferRequest → ℕ → Slice
  make_slice request offset = record {
    source_addr = request.source + offset;
    length =
        if merge_final_slice request offset then request.length - offset else env.config.slice_size;
    opcode = request.opcode;
    dest_addr = (request.target_offset + offset) % 2 ^ 64;
    retry_cnt = request.advise_retry_cnt;
    max_retry_cnt = env.config.retry_cnt;
    target_id = request.target_id;
    source_lkey = 0;
  }

  abbrev pub lkey_of : ℕ → ℕ → ℕ
  lkey_of buffer_id device_id = elim (get_elem? env.desc.buffers buffer_id) [
    | none ↦ 0
    | some b ↦ get_or b.lkey device_id 0
  ]

  abbrev pub with_lkey : Slice → ℕ → Slice
  with_lkey slice k = record {
    source_addr = slice.source_addr;
    length = slice.length;
    opcode = slice.opcode;
    dest_addr = slice.dest_addr;
    retry_cnt = slice.retry_cnt;
    max_retry_cnt = slice.max_retry_cnt;
    target_id = slice.target_id;
    source_lkey = k;
  }

  -- The slice of a device that is active: its key, its queue, the task's counters.
  unfoldable pub queue : Posting → Slice → ℕ → ℕ → Posting
  queue s slice buffer_id device_id =
      let keyed = with_lkey slice (lkey_of buffer_id device_id) in
      record {
        task = record {
          slice_list = s.task.slice_list ++ keyed ∷ [];
          total_bytes = s.task.total_bytes + slice.length;
          slice_count = s.task.slice_count + 1;
        };
        slices_to_post = queue_slice device_id keyed s.slices_to_post;
        posted = s.posted;
        nr_slices = if env.from_cache s.allocated then s.nr_slices else s.nr_slices + 1;
        allocated = s.allocated + 1;
      }

  -- A slice without a device stays in the task's list, without a key.
  unfoldable pub refuse : Posting → Slice → Posting
  refuse s slice = record {
    task = record {
      slice_list = s.task.slice_list ++ slice ∷ [];
      total_bytes = s.task.total_bytes;
      slice_count = s.task.slice_count;
    };
    slices_to_post = s.slices_to_post;
    posted = s.posted;
    nr_slices = if env.from_cache s.allocated then s.nr_slices else s.nr_slices + 1;
    allocated = s.allocated + 1;
  }

  unfoldable pub at_watermark : Posting → Posting
  at_watermark s =
      if leb env.config.submit_watermark s.nr_slices
      then record {
        task = s.task;
        slices_to_post = [];
        posted = s.posted ++ s.slices_to_post;
        nr_slices = 0;
        allocated = s.allocated;
      }
      else s

  -- The loop over the offsets of one request.
  unfoldable pub slice_loop : ℕ → TransferRequest → ℕ → Posting → SubmitStatus × Posting
  slice_loop zero request offset s = if ltb offset request.length then (out_of_fuel, s) else (ok, s)
  slice_loop (suc fuel) request offset s = elim (ltb offset request.length) [
    | false ↦ (ok, s)
    | true ↦
        let slice = make_slice request offset in
        elim (slice_device request slice) [
          | none ↦ (address_not_registered slice.source_addr, refuse s slice)
          | some (buffer_id, device_id) ↦ elim (env.active device_id) [
            | false ↦ (device_not_active device_id, refuse s slice)
            | true ↦
                let s' = at_watermark (queue s slice buffer_id device_id) in
                elim (merge_final_slice request offset) [
                  | true ↦ (ok, s')
                  | false ↦ slice_loop fuel request (offset + env.config.slice_size) s'
                ]
          ]
        ]
  ]

  abbrev pub start : TransferTask → Posting → Posting
  start task s = record {
    task = task;
    slices_to_post = s.slices_to_post;
    posted = s.posted;
    nr_slices = 0;
    allocated = s.allocated;
  }

  -- One task; as many slices as bytes are enough fuel.
  unfoldable pub submit_task : TransferRequest → TransferTask → Posting → SubmitStatus × Posting
  submit_task request task s = slice_loop request.length request 0 (start task s)

  -- The loop over the tasks, and the calls of `submitPostSend` behind it. The result is the status,
  -- the tasks and the calls; on an error what is still queued is not posted. Slices that go back to
  -- the cache are not followed further.
  unfoldable pub submit_tasks :
      List (TransferRequest × TransferTask)
      → Posting
      → SubmitStatus × List TransferTask × List (ℕ × List Slice)
  submit_tasks [] s = (ok, [], s.posted ++ s.slices_to_post)
  submit_tasks ((request, task) ∷ rest) s =
      let (status, s') = submit_task request task s in
      elim status [
        | ok ↦
            let (status', tasks, calls) = submit_tasks rest s' in (status', s'.task ∷ tasks, calls)
        | out_of_fuel ↦ (out_of_fuel, s'.task ∷ map (λ r. r.1) rest, s'.posted)
        | address_not_registered addr ↦
            (address_not_registered addr, s'.task ∷ map (λ r. r.1) rest, s'.posted)
        | device_not_active d ↦ (device_not_active d, s'.task ∷ map (λ r. r.1) rest, s'.posted)
      ]
