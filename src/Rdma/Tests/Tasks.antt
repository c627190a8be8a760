-- ===== src/Rdma/Tests/Tasks.antt =====
-- Device choice, slicing, status and registration of the transport on concrete values.
use mooncake_maca_spdk_dmabu.Prelude.{
  ◌+◌, ◌<◌, ◌↔◌, true, false, some, none, List, [], ◌∷◌, ◌≡◌, ◌⊎◌, refl, arith, codes,
}
use mooncake_maca_spdk_dmabu.Rdma.Select.{
  BufferDesc, Topology, SegmentDesc, select_device, select_from, outside, buffer_device, choose,
}
use mooncake_maca_spdk_dmabu.Rdma.Select.Range.{Serves, select_device-Serves}
use mooncake_maca_spdk_dmabu.Rdma.Slicing.{
  TransferRequest, TransferTask, Env, ok, Slice, submit_task, submit_tasks, slice_loop,
  slice_device, merge_final_slice,
}
use mooncake_maca_spdk_dmabu.Rdma.Slicing.Cut.{Tiles, Adds, Fails, submit_task-Tiles}
use mooncake_maca_spdk_dmabu.Rdma.Slicing.Posted.{
  nothing_queued, in_queues, slice_counts, tasks_of, submit_tasks-posts,
}
use mooncake_maca_spdk_dmabu.Rdma.Status.{TaskProgress, status_of, completed, failed}
use mooncake_maca_spdk_dmabu.Rdma.Status.Agree.{status_of-ends}

abbrev topology : Topology
topology = record {
  select = λ location retry. some 0;
  select_hinted = λ location hint retry. some 0;
}

-- The host buffer at 4096, registered with one device.
abbrev buffer : BufferDesc
buffer = record { name = codes "cpu:0"; addr = 4096; length = 1000; lkey = 11 ∷ []; rkey = 21 ∷ [] }

abbrev segment : SegmentDesc
segment = record { buffers = buffer ∷ []; topology = topology }

selects : select_device (some segment) 4100 10 [] 0 ≡ some (0, 0)
unfolding select_device select_from outside buffer_device choose
selects = refl

select_device-Serves_example : Serves topology (buffer ∷ []) 0 4100 10 [] 0 0
select_device-Serves_example =
    select_device-Serves topology 4100 10 [] 0 (buffer ∷ []) (0, 0) selects

select_nothing : select_device (some segment) 5000 200 [] 0 ≡ none
unfolding select_device select_from outside
select_nothing = refl

abbrev env : Env
env = record {
  config = record { slice_size = 400; fragment_limit = 50; retry_cnt = 3; submit_watermark = 2 };
  desc = segment;
  active = λ d. true;
  from_cache = λ i. false;
}

abbrev request : TransferRequest
request = record {
  opcode = 1;
  source = 4096;
  target_id = 9;
  target_offset = 65536;
  length = 1000;
  advise_retry_cnt = 0;
}

abbrev new_task : TransferTask
new_task = record { slice_list = []; total_bytes = 0; slice_count = 0 }

submit_task-Tiles_example :
    Fails env (submit_task env request new_task (nothing_queued env)).0
    ⊎ (((submit_task env request new_task (nothing_queued env)).0 ≡ ok)
        × (xs : List Slice) × Adds env new_task
            (submit_task env request new_task (nothing_queued env)).1.task
            xs
        × Tiles env request 0 xs
        × ((submit_task env request new_task (nothing_queued env)).1.task.total_bytes ≡ 0 + 1000))
submit_task-Tiles_example =
    submit_task-Tiles env request new_task (nothing_queued env) (omega arith) (omega arith)

submits : (submit_tasks env ((request, new_task) ∷ []) (nothing_queued env)).0 ≡ ok
unfolding submit_tasks submit_task slice_loop slice_device select_device select_from outside
    buffer_device choose merge_final_slice
submits = refl

submit_tasks-posts_example :
    in_queues (submit_tasks env ((request, new_task) ∷ []) (nothing_queued env)).2
      + slice_counts env (tasks_of env ((request, new_task) ∷ []))
    ≡ slice_counts env (submit_tasks env ((request, new_task) ∷ []) (nothing_queued env)).1
submit_tasks-posts_example = submit_tasks-posts env ((request, new_task) ∷ []) submits

-- Three slices, of which two succeeded and one failed.
abbrev ended : TaskProgress
ended = record {
  transferred_bytes = 800;
  success_slice_count = 2;
  failed_slice_count = 1;
  slice_count = 3;
  is_finished = false;
}

status_of-ends_example :
    (((status_of ended).s ≡ completed)
      ↔ ((ended.success_slice_count ≡ ended.slice_count) × (ended.failed_slice_count ≡ 0)))
    × (((status_of ended).s ≡ failed) ↔ (
        (ended.success_slice_count + ended.failed_slice_count ≡ ended.slice_count)
        × (0 < ended.failed_slice_count)))
status_of-ends_example = status_of-ends ended (omega arith)
