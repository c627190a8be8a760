-- ===== src/Segments/Tests.antt =====
-- A client that mounts a segment, unmounts it gracefully and cleans it up, run.
use mooncake_maca_spdk_dmabu.Prelude.{
  ℕ, ◌==◌, ◌&&◌, not, Bool, true, false, none, some, List, [], ◌∷◌, ◌≡◌, refl, arith, codes,
  if◌then◌else◌,
}
use mooncake_maca_spdk_dmabu.Put.Types.{invalid_params, rpc_fail}
use mooncake_maca_spdk_dmabu.Segments.{
  Segment, Registered, Client, Services, unregistered, check_register_memory_params, find_segment,
  erase_segment, forget,
}
use mooncake_maca_spdk_dmabu.Segments.Timer.{
  segment_not_found, query_failed, StatusAnswer, is_removed, has_callback, erase_callback,
  start_graceful_unmount_timer, timer_cleans,
}
use mooncake_maca_spdk_dmabu.Segments.Held.{
  SegmentCall, mount, unmount, unmount_by_id, timer_fires, serve_segments, no_segments, range_apart,
  Refuses, IsHeld,
}
use mooncake_maca_spdk_dmabu.Segments.Kept.{serve_segments-IsHeld}
use mooncake_maca_spdk_dmabu.Segments.Local.{
  Memory, Spdk, range, register_local_memory, register_with_spdk, is_gpu_location_for_spdk,
  is_spdk_gpu_dmabuf_requested, take_back, register_local_error,
}
use mooncake_maca_spdk_dmabu.Segments.{after_unregister}
use mooncake_maca_spdk_dmabu.Location.{strip_prefix}

-- The engine refuses what it has.
abbrev is_free : List Registered → ℕ → ℕ → Bool
is_free [] addr length = true
is_free (r ∷ rs) addr length =
    not (r.addr == addr)
    && range_apart (record { addr = addr; length = length }) r
    && is_free rs addr length

abbrev services : Services
services = record {
  max_mr_size = 1048576;
  register_local_memory = λ engine addr length location. is_free engine addr length;
  unregister_local_memory = λ engine addr. unregistered;
  mount_segment = λ seg. none;
  unmount_segment = λ id. none;
  graceful_unmount_segment = λ id grace. none;
  local_hostname = codes "node";
  is_p2p_handshake = false;
  local_ip_and_port = codes "ip";
}

abbrev refusing : Services
refusing = record services { mount_segment = λ seg. some rpc_fail }

services-Refuses : Refuses services
services-Refuses [] addr length location h = (refl, tt)
services-Refuses (r ∷ rs) addr length location h =
    let (a, b) = services-Refuses rs addr length location (ground arith) in
    (ground (arith, a), (ground arith, b))

abbrev calls : List SegmentCall
calls =
    mount 1 4096 8192 (codes "rdma") (codes "cpu:0")
    ∷ mount 2 8192 8192 (codes "rdma") (codes "cpu:0")
    ∷ unmount_by_id 1 500 true
    ∷ mount 4 8192 8192 (codes "rdma") (codes "cpu:0")
    ∷ timer_fires 1 3 segment_not_found
    ∷ mount 3 4096 100 (codes "rdma") (codes "cpu:0")
    ∷ unmount 4096 100
    ∷ []

serve_segments-IsHeld_example : IsHeld (serve_segments services no_segments calls)
serve_segments-IsHeld_example =
    serve_segments-IsHeld services services-Refuses calls
      (omega arith, (omega arith, (tt, (omega arith, (tt, (omega arith, (tt, tt)))))))

abbrev segment : Segment
segment = record {
  id = 1;
  name = codes "node";
  base = 4096;
  size = 8192;
  protocol = codes "rdma";
  te_endpoint = codes "node";
}

abbrev unmounting : Client
unmounting = record no_segments {
  gracefully_unmounting_segments = segment ∷ [];
  cleanup_callbacks = 1 ∷ [];
  engine = record { addr = 4096; length = 8192 } ∷ [];
}

-- The master fails once, and answers at the second query that the segment is gone.
abbrev answers : ℕ → StatusAnswer
answers n = if n == 3 then query_failed else segment_not_found

there : find_segment 1 unmounting.gracefully_unmounting_segments ≡ some segment
unfolding find_segment
there = refl

removed : is_removed (answers 2) ≡ true
unfolding is_removed
removed = refl

timer_cleans_example :
    start_graceful_unmount_timer services unmounting 1 answers (λ n. true) ≡ record unmounting {
      engine =
          after_unregister
            (services.unregister_local_memory unmounting.engine 4096)
            4096
            unmounting.engine;
      gracefully_unmounting_segments = erase_segment 1 unmounting.gracefully_unmounting_segments;
      cleanup_callbacks =
          if has_callback 1 unmounting.cleanup_callbacks
          then erase_callback 1 unmounting.cleanup_callbacks
          else unmounting.cleanup_callbacks;
      called = if has_callback 1 unmounting.cleanup_callbacks then 1 ∷ [] else [];
    }
timer_cleans_example =
    timer_cleans services unmounting 1 segment answers (λ n. true) there (λ n. refl) 2 (omega arith)
      removed

abbrev still_held : Client
still_held = record no_segments { engine = record { addr = 4096; length = 8192 } ∷ [] }

-- The SPDK environment does not start.
abbrev spdk : Spdk
spdk = record {
  gpu_prefix = codes "cuda:";
  getenv = λ name. some (codes "1");
  strtoull = λ t. record { errno = 0; read_any = true; rest = []; value = 1 };
  initialize_env = false;
  gpu_dmabuf_enabled = true;
  register_gpu_memory_region = λ regions addr length. true;
}

abbrev memory : Memory
memory = record { engine = []; gpu_regions = [] }

fails :
    register_local_memory services spdk memory 4096 8192 (codes "cuda:0")
    ≡ (memory, some invalid_params)
unfolding register_local_memory register_with_spdk is_gpu_location_for_spdk strip_prefix
    is_spdk_gpu_dmabuf_requested take_back after_unregister forget check_register_memory_params
    range
fails = refl

register_local_error_example : memory ≡ memory
register_local_error_example =
    register_local_error services spdk memory memory 4096 8192 (codes "cuda:0") invalid_params refl
      refl fails
