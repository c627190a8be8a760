-- ===== src/Rdma/Tests/Memory.antt =====
-- Registration of local memory with one device.
use mooncake_maca_spdk_dmabu.Prelude.{
  ℕ, ◌+◌, ◌*◌, ◌≤◌, Bool, true, false, some, none, List, [], ◌∷◌, ◌≡◌, refl, arith, get_elem?,
  text_eq, codes, pos,
}
use mooncake_maca_spdk_dmabu.Location.{elsewhere, strip_prefix}
use mooncake_maca_spdk_dmabu.Rdma.Select.{BufferDesc}
use mooncake_maca_spdk_dmabu.Rdma.Regions.{
  register_memory_region, register_memory_region_internal, insert, lkey, rkey,
  find_memory_region_containing, last_before, contains_address,
}
use mooncake_maca_spdk_dmabu.Rdma.Registration.{
  Context, Settings, Metadata, Machine, RegisterResult, registered, register_local_memory,
  num_threads, block_starts, touch_block_size, do_pre_touch, use_parallel_reg, sequential,
  register_in, publish_buffer, buffer_name, describe,
}
use mooncake_maca_spdk_dmabu.Rdma.Registration.Modes.{register-order}
use mooncake_maca_spdk_dmabu.Rdma.Registration.Blocks.{blocks-inside}
use mooncake_maca_spdk_dmabu.Rdma.Registration.Refresh.{DeviceDesc}
use mooncake_maca_spdk_dmabu.Rdma.Tests.{driver, mr_of}

abbrev settings : Settings
settings = record {
  hardware_concurrency = 8;
  parallel_reg_mr = none;
  max_mr_size = 1048576;
  local_write = 1;
  access_rights = 7;
  gpu_prefix = codes "cuda:";
}

abbrev metadata : Metadata
metadata = record { add_buffer = λ b u. 0; remove_buffer = λ a u. 0 }

abbrev machine : Machine
machine = record { probe = λ a. elsewhere; numa_move_pages = λ pages. some (pos 0 ∷ []) }

abbrev context : Context
context = record { driver = driver; regions = []; fds = [] }

abbrev run : Bool → RegisterResult × List Context
run force =
    register_local_memory settings none metadata machine (context ∷ []) 4096 1000 (codes "cpu:0")
      true force

abbrev after : List Context
after =
    record {
      driver = driver;
      regions = record { key = 4096; meta = record { addr = 4096; mr = mr_of 1 1000 } } ∷ [];
      fds = [];
    }
    ∷ []

abbrev published : BufferDesc
published = record {
  name = codes "cpu:0";
  addr = 4096;
  length = 1000;
  lkey = 11 ∷ [];
  rkey = 21 ∷ [];
}

runs_well : run true ≡ (registered published, after)
unfolding register_local_memory do_pre_touch use_parallel_reg sequential register_in
    register_memory_region register_memory_region_internal strip_prefix publish_buffer insert
    buffer_name text_eq describe lkey rkey find_memory_region_containing last_before
    contains_address
runs_well = refl

register-order_example : run false ≡ (registered published, after)
register-order_example =
    register-order settings none metadata machine (context ∷ []) 4096 1000 (codes "cpu:0") true true
      false published after runs_well

blocks-inside_example :
    (get_elem? (block_starts (num_threads 8) 4096 (touch_block_size settings none 8000)) 3
      ≡ some (4096 + 3 * touch_block_size settings none 8000))
    × (4096 + 3 * touch_block_size settings none 8000 + touch_block_size settings none 8000
        ≤ 4096 + 8000)
blocks-inside_example =
    blocks-inside settings none 4096 8000 3 (omega arith) (unfold num_threads in omega arith)

abbrev devices : List DeviceDesc
devices = record { name = codes "mlx5_0"; lid = 1; gid = codes "00" } ∷ []

-- The metadata service refuses the new descriptor.
abbrev refuse : List DeviceDesc → ℕ
refuse ds = 1
