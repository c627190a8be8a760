-- ===== src/Dmabuf/Register.antt =====
-- Registering and translating ranges of GPU memory: `gpu_dmabuf_add_region`,
-- `gpu_dmabuf_register_mr`, `spdk_gpu_dmabuf_memory_domain_register` and `gpu_dmabuf_translate` of
-- spdk/lib/dma/gpu_dmabuf.c, on a domain whose lock is held.
use mooncake_maca_spdk_dmabu.Prelude.{
  Bool, ℕ, ℤ, ◌-◌, ◌==◌, ◌||◌, ltb, none, some, List, [], ◌∷◌, if◌then◌else◌,
}
use mooncake_maca_spdk_dmabu.Dmabuf.Types.{
  RegAnswer, Errno, einval, enomem, eexist, efault, other_errno, Result, ok, err, IbvMr, DmabufMr,
  Region, Domain, World, reg_mr, reg_failed, Gpu, Platform,
}
use mooncake_maca_spdk_dmabu.Dmabuf.Tree.{rb_insert}
use mooncake_maca_spdk_dmabu.Dmabuf.Ranges.{
  device_eq, mr_before, region_before, find_mr, find_overlapping_mr, find_region,
  find_overlapping_region,
}
use mooncake_maca_spdk_dmabu.Dmabuf.Contexts.{
  RdmaDomain, get_cuda_ctx, set_cuda_ctx, restore_cuda_ctx,
}

unfoldable pub new_region : ℕ → ℕ → ℤ → Region
new_region addr len device = record { addr = addr; len = len; device_id = device }

unfoldable pub add_region : Platform → Domain → ℕ → ℕ → ℤ → Domain × Result Region
unfolding new_region
add_region p gd addr len device = elim (find_region gd addr len) [
  | some r ↦ if device_eq r.device_id device then (gd, ok r) else (gd, err einval)
  | none ↦ elim (find_overlapping_region gd addr len) [
    | some r ↦ (gd, err einval)
    | none ↦
        if p.alloc_region
        then elim (rb_insert region_before (new_region addr len device) gd.regions) [
          | none ↦ (gd, err eexist)
          | some regions ↦ (record gd { regions = regions }, ok (new_region addr len device))
        ]
        else (gd, err enomem)
  ]
]

-- The allocation around the range: its base, its size and the range's offset.
unfoldable pub allocation_of : Gpu → ℕ → ℕ → Result (ℕ × ℕ × ℕ)
allocation_of gpu addr len = elim (gpu.address_range addr) [
  | none ↦ err efault
  | some (base, size) ↦
      if ltb addr base
      then err einval
      else if ltb size (addr - base) || ltb (size - (addr - base)) len
      then err einval
      else ok (base, size, addr - base)
]

-- The allocation is exported as a descriptor, which is answered with the offset of the range.
unfoldable pub export_allocation : Gpu → World → Result (ℕ × ℕ × ℕ) → World × Result (ℕ × ℕ)
export_allocation gpu w (err e) = (w, err e)
export_allocation gpu w (ok (base, size, offset)) = elim (gpu.export_dmabuf base size) [
  | none ↦ (w, err efault)
  | some fd ↦ (record w { fds = fd ∷ w.fds }, ok (fd, offset))
]

-- Under the device's context: the allocation is found and exported.
unfoldable pub export_range : Gpu → ℕ → ℕ → World → World × Result (ℕ × ℕ)
unfolding allocation_of export_allocation
export_range gpu addr len w = export_allocation gpu w (allocation_of gpu addr len)

-- The context is switched back, if it was switched.
unfoldable pub export_and_restore : Gpu → ℕ → ℕ → World → Result (ℕ × Bool) → World × Result (ℕ × ℕ)
unfolding restore_cuda_ctx export_range
export_and_restore gpu addr len w (err e) = (w, err e)
export_and_restore gpu addr len w (ok (prev, changed)) =
    let (w', exported) = export_range gpu addr len w in
    (restore_cuda_ctx gpu w' prev changed, exported)

unfoldable pub export_in_ctx : Gpu → ℕ → ℕ → ℕ → World → World × Result (ℕ × ℕ)
unfolding set_cuda_ctx export_and_restore
export_in_ctx gpu ctx addr len w =
    let (w', set) = set_cuda_ctx gpu w ctx in export_and_restore gpu addr len w' set

-- `close(fd)` and `ibv_dereg_mr(mr)`
unfoldable pub remove_first : ℕ → List ℕ → List ℕ
remove_first x [] = []
remove_first x (y ∷ ys) = let rest = y ∷ remove_first x ys in if y == x then ys else rest

-- The result of `ibv_dereg_mr` is not looked at: a region that is refused stays at the library.
unfoldable pub dereg_mr : World → IbvMr → World
unfolding remove_first
dereg_mr w mr = record w {
  live = remove_first mr.handle w.live;
  undereg = if w.refuses_dereg w.live mr.handle then mr.handle ∷ w.undereg else w.undereg;
}

unfoldable pub new_mr : ℕ → ℕ → ℤ → ℕ → IbvMr → DmabufMr
new_mr addr len device pd mr = record {
  addr = addr;
  len = len;
  device_id = device;
  pd = pd;
  mr = mr;
}

-- The entry goes into the cache; a region whose key is there is deregistered again.
unfoldable pub cache_mr : Domain → World → DmabufMr → Domain × World × Result DmabufMr
unfolding dereg_mr
cache_mr gd w e = elim (rb_insert mr_before e gd.mr_cache) [
  | none ↦ (gd, dereg_mr w e.mr, err eexist)
  | some cache ↦ (record gd { mr_cache = cache }, w, ok e)
]

unfoldable pub errno_of : ℕ → Errno
errno_of n = if n == 0 then efault else other_errno n

-- The answer of `ibv_reg_dmabuf_mr`.
unfoldable pub cache_answer :
    Domain → World → ℤ → ℕ → ℕ → ℕ → RegAnswer → Domain × World × Result DmabufMr
unfolding errno_of new_mr cache_mr
cache_answer gd w device pd addr len (reg_failed n) = (gd, w, err (errno_of n))
cache_answer gd w device pd addr len (reg_mr mr) =
    cache_mr gd (record w { live = mr.handle ∷ w.live }) (new_mr addr len device pd mr)

-- The descriptor is closed in any case.
unfoldable pub register_fd :
    Platform → Domain → World → ℤ → ℕ → ℕ → ℕ → ℕ → ℕ → Domain × World × Result DmabufMr
unfolding cache_answer remove_first
register_fd p gd w device pd addr len fd offset =
    cache_answer gd (record w { fds = remove_first fd w.fds }) device pd addr len
      (p.reg_dmabuf_mr pd offset len addr fd gd.rdma_access_flags)

unfoldable pub register_exported :
    Platform → Domain → World → ℤ → ℕ → ℕ → ℕ → Result (ℕ × ℕ) → Domain × World × Result DmabufMr
unfolding register_fd
register_exported p gd w device pd addr len (err e) = (gd, w, err e)
register_exported p gd w device pd addr len (ok (fd, offset)) =
    register_fd p gd w device pd addr len fd offset

unfoldable pub register_in_ctx :
    Gpu → Platform → Domain → World → ℤ → ℕ → ℕ → ℕ → Result ℕ → Domain × World × Result DmabufMr
unfolding export_in_ctx register_exported
register_in_ctx gpu p gd w device pd addr len (err e) = (gd, w, err e)
register_in_ctx gpu p gd w device pd addr len (ok ctx) =
    let (w', exported) = export_in_ctx gpu ctx addr len w in
    register_exported p gd w' device pd addr len exported

unfoldable pub register_mr :
    Gpu → Platform → Domain → World → ℤ → ℕ → ℕ → ℕ → Domain × World × Result DmabufMr
unfolding get_cuda_ctx register_in_ctx
register_mr gpu p gd w device pd addr len = elim (find_overlapping_mr gd device pd addr len) [
  | some e ↦ (gd, w, err eexist)
  | none ↦
      if p.alloc_mr
      then (let (gd', w', ctx) = get_cuda_ctx gpu p gd w device in
          register_in_ctx gpu p gd' w' device pd addr len ctx)
      else (gd, w, err enomem)
]

-- The entry of the region in the protection domain: the cached one, else a new one.
unfoldable pub find_or_register :
    Gpu → Platform → Domain → World → Region → ℕ → ℕ → ℕ → Domain × World × Result DmabufMr
unfolding register_mr
find_or_register gpu p gd w r pd addr len = elim (find_mr gd r.device_id pd addr len) [
  | some e ↦ (gd, w, ok e)
  | none ↦ register_mr gpu p gd w r.device_id pd r.addr r.len
]

unfoldable pub register_added :
    Gpu → Platform → Domain → World → ℕ → Result Region → Domain × World × Result DmabufMr
unfolding find_or_register
register_added gpu p gd w pd (err e) = (gd, w, err e)
register_added gpu p gd w pd (ok r) = find_or_register gpu p gd w r pd r.addr r.len

-- Under the lock of `spdk_gpu_dmabuf_memory_domain_register`.
unfoldable pub register_locked :
    Gpu → Platform → Domain → World → ℤ → ℕ → ℕ → ℕ → Domain × World × Result DmabufMr
unfolding add_region register_added
register_locked gpu p gd w device pd addr len =
    let (gd', added) = add_region p gd addr len device in register_added gpu p gd' w pd added

-- `spdk_memory_domain_translation_result`
pub record Translation : Type 0 where
  pub iov_base : ℕ
  pub iov_len : ℕ
  pub dst_domain : ℕ
  pub lkey : ℕ
  pub rkey : ℕ

unfoldable pub translation : RdmaDomain → ℕ → ℕ → IbvMr → Translation
translation dst addr len mr = record {
  iov_base = addr;
  iov_len = len;
  dst_domain = dst.id;
  lkey = mr.lkey;
  rkey = mr.rkey;
}

unfoldable pub translated :
    RdmaDomain → ℕ → ℕ → Domain × World × Result DmabufMr → Domain × World × Result Translation
unfolding translation
translated dst addr len (gd, w, err e) = (gd, w, err e)
translated dst addr len (gd, w, ok e) = (gd, w, ok (translation dst addr len e.mr))

-- Under the lock of `gpu_dmabuf_translate`.
unfoldable pub translate_locked :
    Gpu → Platform → Domain → World → RdmaDomain → ℕ → ℕ → ℕ → Domain × World × Result Translation
unfolding find_or_register translated
translate_locked gpu p gd w dst pd addr len = elim (find_region gd addr len) [
  | none ↦ (gd, w, err einval)
  | some r ↦ translated dst addr len (find_or_register gpu p gd w r pd addr len)
]
