-- ===== src/Rdma/Registration.antt =====
-- Local memory of the transport: `preTouchMemory`, `registerLocalMemoryInternal`,
-- `unregisterLocalMemoryInternal` and `refreshLocalDeviceDesc` of
-- mooncake-transfer-engine/src/transport/rdma_transport/rdma_transport.cpp, as compiled with
-- USE_MACA. The threads of a parallel run work on different contexts, so that the run is all the
-- contexts' results. The metadata service and the configuration are parameters.
pub mod Modes
pub mod Blocks
pub mod Refresh
use mooncake_maca_spdk_dmabu.Prelude.{
  ℕ, zero, suc, ◌+◌, ◌-◌, ◌*◌, ◌/◌, ◌^◌, ◌++◌, Bool, true, false, not, ◌&&◌, Option, none, some,
  List, [], ◌∷◌, ltb, leb, ◌==◌, if◌then◌else◌, min, map, Text, is_empty, is_nonneg, ℤ, length,
  text_eq,
}
use mooncake_maca_spdk_dmabu.Location.{
  Probe, MemoryLocationEntry, wildcard_location, get_memory_location, strip_prefix,
}
use mooncake_maca_spdk_dmabu.Rdma.Select.{BufferDesc}
use mooncake_maca_spdk_dmabu.Rdma.Regions.{
  Driver, Mr, Entry, Fds, register_memory_region, unregister_memory_region, pre_touch_memory, lkey,
  rkey,
}

-- One device context.
pub record Context : Type 0 where
  pub driver : Driver
  pub regions : List Entry
  pub fds : Fds

-- What the transport reads of the machine and of `globalConfig()`; `parallel_reg_mr` is `none` for
-- -1.
pub record Settings : Type 0 where
  pub hardware_concurrency : ℕ
  pub parallel_reg_mr : Option Bool
  pub max_mr_size : ℕ
  pub local_write : ℕ
  pub access_rights : ℕ
  pub gpu_prefix : Text

unfoldable pub num_threads : ℕ → ℕ
num_threads hwc = if ltb 64 hwc then 16 else min hwc 8

-- The start of each thread's block.
unfoldable pub block_starts : ℕ → ℕ → ℕ → List ℕ
block_starts zero addr block_size = []
block_starts (suc n) addr block_size = addr ∷ block_starts n (addr + block_size) block_size

module _ (settings : Settings) (garbage : Option Mr) where
  -- `length` after the limit, over the threads.
  unfoldable pub touch_block_size : ℕ → ℕ
  touch_block_size length =
      (if ltb settings.max_mr_size length then settings.max_mr_size else length)
      / num_threads settings.hardware_concurrency

  unfoldable pub touch_each : Context → List ℕ → ℕ → Bool → Bool
  touch_each c [] block_size allow = true
  touch_each c (addr ∷ addrs) block_size allow =
      let rest = touch_each c addrs block_size allow in
      (pre_touch_memory c.driver garbage settings.local_write addr block_size allow c.fds).0 && rest

  -- Whether every block could be touched; the first context does it.
  unfoldable pub transport_pre_touch : List Context → ℕ → ℕ → Bool → Bool
  transport_pre_touch [] addr length allow = true
  transport_pre_touch (c ∷ cs) addr length allow =
      let block_size = touch_block_size length in
      if block_size == 0
      then true
      else touch_each c (block_starts (num_threads settings.hardware_concurrency) addr block_size)
          block_size allow

  unfoldable pub register_in : ℕ → ℕ → Bool → Context → Bool × Context
  register_in addr length allow c =
      let (ok, regions, fds) =
        register_memory_region c.driver garbage addr length settings.access_rights allow c.regions
          c.fds in
      (ok, record { driver = c.driver; regions = regions; fds = fds })

  unfoldable pub do_pre_touch : List Context → ℕ → Bool
  do_pre_touch contexts length =
      not (is_empty contexts)
      && leb 4 settings.hardware_concurrency
      && leb (4 * 1024 * 1024 * 1024) length

  unfoldable pub use_parallel_reg : List Context → Bool → Bool → Bool
  use_parallel_reg contexts touched force_sequential =
      if force_sequential
      then false
      else elim settings.parallel_reg_mr [ none ↦ ltb 1 (length contexts) && touched | some b ↦ b ]

unfoldable pub unregister_in : ℕ → Context → Bool × Context
unregister_in addr c =
    let (ok, regions) = unregister_memory_region c.driver addr c.regions in
    (ok, record { driver = c.driver; regions = regions; fds = c.fds })

-- The loop over the contexts: it stops at the first that fails.
unfoldable pub sequential : (Context → Bool × Context) → List Context → Bool × List Context
sequential f [] = (true, [])
sequential f (c ∷ cs) =
    let (ok, c') = f c in
    let (rest, cs') = sequential f cs in if ok then (rest, c' ∷ cs') else (false, c' ∷ cs)

-- A thread for each context: every context is worked on, and the result is the first failure.
unfoldable pub parallel : (Context → Bool × Context) → List Context → Bool × List Context
parallel f [] = (true, [])
parallel f (c ∷ cs) =
    let (ok, c') = f c in let (rest, cs') = parallel f cs in (ok && rest, c' ∷ cs')

abbrev pub in_contexts : Bool → (Context → Bool × Context) → List Context → Bool × List Context
in_contexts true f cs = parallel f cs
in_contexts false f cs = sequential f cs

pub data RegisterResult : Type 0 where
  registered : BufferDesc → RegisterResult
  pre_touch_failed region_failed no_location : RegisterResult
  metadata_failed : ℕ → RegisterResult

-- `metadata_->addLocalMemoryBuffer` and `removeLocalMemoryBuffer`; 0 is success.
pub record Metadata : Type 0 where
  pub add_buffer : BufferDesc → Bool → ℕ
  pub remove_buffer : ℕ → Bool → ℕ

-- The first entry of `getMemoryLocation`'s answer, for the name "*".
-- What `getMemoryLocation` asks for.
pub record Machine : Type 0 where
  pub probe : ℕ → Probe
  pub numa_move_pages : List ℕ → Option (List ℤ)

module _ (settings : Settings) (garbage : Option Mr) (metadata : Metadata) (machine : Machine) where
  abbrev pub allow_gpu_dmabuf : Text → Bool
  allow_gpu_dmabuf name = elim (strip_prefix settings.gpu_prefix name) [
    | none ↦ false
    | some s ↦ true
  ]

  abbrev first_location : Option (List MemoryLocationEntry) → Option Text
  first_location none = none
  first_location (some []) = none
  first_location (some (e ∷ es)) = some e.location

  -- The name that is published: for "*" it is the location of the first page.
  unfoldable pub buffer_name : ℕ → ℕ → Text → Option Text
  buffer_name addr length name =
      if text_eq name wildcard_location
      then first_location (
          get_memory_location settings.gpu_prefix (machine.probe addr) machine.numa_move_pages addr
            length true (allow_gpu_dmabuf name))
      else some name

  unfoldable pub describe : List Context → ℕ → ℕ → Text → BufferDesc
  describe contexts addr length name = record {
    name = name;
    addr = addr;
    length = length;
    lkey = map (λ c. lkey c.regions addr) contexts;
    rkey = map (λ c. rkey c.regions addr) contexts;
  }

  -- The part behind the registration in the contexts.
  unfoldable pub publish_buffer : List Context → ℕ → ℕ → Text → Bool → RegisterResult
  publish_buffer contexts addr length name update_metadata = elim (buffer_name addr length name) [
    | none ↦ no_location
    | some place ↦
        let desc = describe contexts addr length place in
        let rc = metadata.add_buffer desc update_metadata in
        if rc == 0 then registered desc else metadata_failed rc
  ]

  unfoldable pub register_local_memory :
      List Context → ℕ → ℕ → Text → Bool → Bool → RegisterResult × List Context
  register_local_memory contexts addr length name update_metadata force_sequential =
      let allow = allow_gpu_dmabuf name in
      let touch = do_pre_touch settings garbage contexts length in
      let touched =
        if touch then transport_pre_touch settings garbage contexts addr length allow else true in
      elim touched [
        | false ↦ (pre_touch_failed, contexts)
        | true ↦
            let (ok, contexts') =
              in_contexts (use_parallel_reg settings garbage contexts touch force_sequential)
                (register_in settings garbage addr length allow) contexts in
            elim ok [
              | false ↦ (region_failed, contexts')
              | true ↦ (publish_buffer contexts' addr length name update_metadata, contexts')
            ]
      ]

  -- The result is 0, the metadata service's code, or `none` where a context fails.
  unfoldable pub unregister_local_memory : List Context → ℕ → Bool → Bool → Option ℕ × List Context
  unregister_local_memory contexts addr update_metadata force_sequential =
      let rc = metadata.remove_buffer addr update_metadata in
      let (ok, contexts') =
        in_contexts (use_parallel_reg settings garbage contexts true force_sequential)
          (unregister_in addr) contexts in
      if rc == 0
      then (if ok then (some 0, contexts') else (none, contexts'))
      else (some rc, contexts)
