-- ===== src/Rdma/Regions.antt =====
-- The memory regions of one device context: `registerMemoryRegion`, `unregisterMemoryRegion`,
-- `preTouchMemory`, `lkey`, `rkey` and `findMemoryRegionContaining` of
-- mooncake-transfer-engine/src/transport/rdma_transport/rdma_context.cpp, as compiled with USE_MACA.
-- The verbs library and the GPU runtime are the parameter `Driver`.
pub mod Lookup
pub mod Updates
pub mod Descriptors
use mooncake_maca_spdk_dmabu.Prelude.{
  ℕ, ◌+◌, ◌-◌, ◌%◌, ◌^◌, Bool, true, false, ◌&&◌, Option, none, some, List, [], ◌∷◌, ltb, leb, ◌==◌,
  if◌then◌else◌, min,
}

-- `ibv_mr`, with the number by which the driver knows it.
pub record Mr : Type 0 where
  pub handle : ℕ
  pub length : ℕ
  pub lkey : ℕ
  pub rkey : ℕ

pub record MemoryRegionMeta : Type 0 where
  pub addr : ℕ
  pub mr : Mr

-- `std::map<uintptr_t, MemoryRegionMeta>`: the entries in the order of their keys.
pub record Entry : Type 0 where
  pub key : ℕ
  pub meta : MemoryRegionMeta

unfoldable pub contains_address : MemoryRegionMeta → ℕ → Bool
contains_address region addr = leb region.addr addr && ltb (addr - region.addr) region.mr.length

-- The last entry in front of `upper_bound(addr)`; `prev` is the entry in front of the map's rest.
unfoldable pub last_before : ℕ → List Entry → Option Entry → Option Entry
last_before addr [] prev = prev
last_before addr (e ∷ m) prev =
    let rest = last_before addr m (some e) in if ltb addr e.key then prev else rest

abbrev if_contains : ℕ → Option Entry → Option Entry
if_contains addr none = none
if_contains addr (some e) = if contains_address e.meta addr then some e else none

unfoldable pub find_memory_region_containing : List Entry → ℕ → Option Entry
find_memory_region_containing m addr = if_contains addr (last_before addr m none)

-- `memory_region_map_[key] = meta`
unfoldable pub insert : ℕ → MemoryRegionMeta → List Entry → List Entry
insert k meta [] = record { key = k; meta = meta } ∷ []
insert k meta (e ∷ m) =
    let rest = e ∷ insert k meta m in
    if ltb k e.key
    then record { key = k; meta = meta } ∷ e ∷ m
    else if k == e.key
    then record { key = k; meta = meta } ∷ m
    else rest

-- `memory_region_map_.erase(iter)`
unfoldable pub erase : ℕ → List Entry → List Entry
erase k [] = []
erase k (e ∷ m) = let rest = e ∷ erase k m in if k == e.key then m else rest

pub data MemoryType : Type 0 where
  host device other_memory : MemoryType

-- What the code calls outside the repository. `none` is a failed call; `dereg_mr` answers whether
-- it failed.
pub record Driver : Type 0 where
  pub max_mr_size : ℕ
  pub reg_mr : ℕ → ℕ → ℕ → Option Mr
  pub reg_dmabuf_mr : ℕ → ℕ → ℕ → ℕ → ℕ → Option Mr
  pub memory_type : ℕ → Option MemoryType
  pub address_range : ℕ → Option (ℕ × ℕ)
  pub export_dmabuf : ℕ → ℕ → Option ℕ
  pub dereg_mr : Mr → Bool

-- The descriptors that the process holds open.
abbrev pub Fds : Type 0
Fds = List ℕ

unfoldable pub close : ℕ → Fds → Fds
close fd [] = []
close fd (x ∷ fds) = let rest = x ∷ close fd fds in if x == fd then fds else rest

module _ (d : Driver) where
  -- The GPU branch: the allocation around `addr` is exported, registered and closed again.
  unfoldable pub register_device_memory : ℕ → ℕ → ℕ → Fds → Option Mr × Fds
  register_device_memory addr length access fds = elim (d.address_range addr) [
    | none ↦ (none, fds)
    | some (base, size) ↦ elim (d.export_dmabuf base size) [
      | none ↦ (none, fds)
      | some fd ↦ (
        d.reg_dmabuf_mr ((addr + 2 ^ 64 - base) % 2 ^ 64) length addr fd access,
        close fd (fd ∷ fds),
      )
    ]
  ]

  -- `registerMemoryRegionInternal`; `garbage` is what the uninitialised `mrMeta.mr` holds, which the
  -- branch for memory that is neither of the host nor of a device leaves as it is.
  unfoldable pub register_memory_region_internal :
      Option Mr → ℕ → ℕ → ℕ → Bool → Fds → Option Mr × Fds
  unfolding register_device_memory
  register_memory_region_internal garbage addr length access allow_gpu_dmabuf fds =
      let len = if ltb d.max_mr_size length then d.max_mr_size else length in
      if allow_gpu_dmabuf
      then elim (d.memory_type addr) [
        | none ↦ (d.reg_mr addr len access, fds)
        | some host ↦ (d.reg_mr addr len access, fds)
        | some device ↦ register_device_memory addr len access fds
        | some other_memory ↦ (garbage, fds)
      ]
      else (d.reg_mr addr len access, fds)

  -- The result is whether the call succeeded, and the map.
  unfoldable pub register_memory_region :
      Option Mr → ℕ → ℕ → ℕ → Bool → List Entry → Fds → Bool × List Entry × Fds
  register_memory_region garbage addr length access allow_gpu_dmabuf m fds =
      let (mr, fds') =
        register_memory_region_internal garbage addr length access allow_gpu_dmabuf fds in
      elim mr [
        | none ↦ (false, m, fds')
        | some r ↦ (true, insert addr (record { addr = addr; mr = r }) m, fds')
      ]

  -- An address in no region is no error.
  unfoldable pub unregister_memory_region : ℕ → List Entry → Bool × List Entry
  unregister_memory_region addr m = elim (find_memory_region_containing m addr) [
    | none ↦ (true, m)
    | some e ↦ if d.dereg_mr e.meta.mr then (false, m) else (true, erase e.key m)
  ]

  -- Registers with local access and deregisters at once; whether both succeeded.
  unfoldable pub pre_touch_memory : Option Mr → ℕ → ℕ → ℕ → Bool → Fds → Bool × Fds
  pre_touch_memory garbage local_write addr length allow_gpu_dmabuf fds =
      let (mr, fds') =
        register_memory_region_internal garbage addr length local_write allow_gpu_dmabuf fds in
      elim mr [ none ↦ (false, fds') | some r ↦ (if d.dereg_mr r then false else true, fds') ]

unfoldable pub lkey : List Entry → ℕ → ℕ
lkey m addr = elim (find_memory_region_containing m addr) [ none ↦ 0 | some e ↦ e.meta.mr.lkey ]

unfoldable pub rkey : List Entry → ℕ → ℕ
rkey m addr = elim (find_memory_region_containing m addr) [ none ↦ 0 | some e ↦ e.meta.mr.rkey ]
