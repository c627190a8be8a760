-- ===== src/Dmabuf/Contexts.antt =====
-- GPU contexts and devices of spdk/lib/dma/gpu_dmabuf.c: the protection domain of an RDMA domain,
-- the device of a pointer, the context of a device, and switching the thread's context.
use mooncake_maca_spdk_dmabu.Prelude.{
  ℕ, ℤ, Bool, true, false, ◌==◌, ltb, is_nonneg, Option, none, some, List, [], ◌∷◌, ◌++◌,
  if◌then◌else◌,
}
use mooncake_maca_spdk_dmabu.Dmabuf.Types.{
  einval, enomem, efault, enotsup, enodev, Result, ok, err, Domain, CudaCtx, World, Gpu, Platform,
}
use mooncake_maca_spdk_dmabu.Dmabuf.Ranges.{device_eq}

-- `struct spdk_memory_domain_rdma_ctx`; the address of the domain is 0 for NULL.
pub record RdmaCtx : Type 0 where
  pub size : ℕ
  pub ibv_pd : ℕ

-- The destination domain: whether its type is RDMA, and its user context where it has one.
pub record RdmaDomain : Type 0 where
  pub id : ℕ
  pub is_rdma : Bool
  pub user_ctx : Option RdmaCtx

-- `pd_end` is the offset behind the field `ibv_pd`.
unfoldable pub get_rdma_pd : ℕ → RdmaDomain → Result ℕ
get_rdma_pd pd_end dst =
    if dst.is_rdma
    then elim dst.user_ctx [
      | none ↦ err einval
      | some c ↦
          if ltb c.size pd_end
          then err einval
          else if c.ibv_pd == 0
          then err einval
          else ok c.ibv_pd
    ]
    else err enotsup

unfoldable pub get_ptr_device_id : Gpu → Domain → ℕ → Result ℤ
get_ptr_device_id gpu gd addr =
    if is_nonneg gd.cuda_device_id
    then ok gd.cuda_device_id
    else elim (gpu.pointer_device addr) [ none ↦ err efault | some device ↦ ok device ]

-- The cached context of the device.
unfoldable pub cached_ctx : ℤ → List CudaCtx → Option ℕ
unfolding device_eq
cached_ctx device [] = none
cached_ctx device (c ∷ cs) =
    let rest = cached_ctx device cs in
    if device_eq c.device_id device then some c.cuda_ctx else rest

-- The domain with a new entry for the device, the world, and the context.
unfoldable pub retain_ctx : Gpu → Domain → World → ℤ → Domain × World × Result ℕ
retain_ctx gpu gd w device = elim (gpu.device_get device) [
  | none ↦ (gd, w, err enodev)
  | some cuda_device ↦ elim (gpu.primary_ctx_retain cuda_device) [
    | none ↦ (gd, w, err enodev)
    | some ctx ↦ (
      record gd { cuda_ctxs = gd.cuda_ctxs ++ record { device_id = device; cuda_ctx = ctx } ∷ [] },
      record w { retained = device ∷ w.retained },
      ok ctx,
    )
  ]
]

unfoldable pub get_cuda_ctx : Gpu → Platform → Domain → World → ℤ → Domain × World × Result ℕ
unfolding retain_ctx cached_ctx
get_cuda_ctx gpu p gd w device =
    if gd.cuda_ctx == 0
    then if is_nonneg device
      then elim (cached_ctx device gd.cuda_ctxs) [
        | none ↦ if p.alloc_ctx then retain_ctx gpu gd w device else (gd, w, err enomem)
        | some ctx ↦ (gd, w, ok ctx)
      ]
      else (gd, w, err einval)
    else (gd, w, ok gd.cuda_ctx)

-- The world, and the thread's context before with whether it was changed.
unfoldable pub set_cuda_ctx : Gpu → World → ℕ → World × Result (ℕ × Bool)
set_cuda_ctx gpu w ctx =
    if ctx == 0 then (w, ok (0, false)) else elim (gpu.ctx_get_current w.current) [
      | none ↦ (w, err efault)
      | some prev ↦
          if prev == ctx then (w, ok (prev, false)) else elim (gpu.ctx_set_current w.current ctx) [
            | none ↦ (w, err efault)
            | some now ↦ (record w { current = now }, ok (prev, true))
          ]
    ]

-- A failure is only logged.
unfoldable pub restore_cuda_ctx : Gpu → World → ℕ → Bool → World
restore_cuda_ctx gpu w prev changed =
    if changed
    then elim (gpu.ctx_set_current w.current prev) [
      | none ↦ w
      | some now ↦ record w { current = now }
    ]
    else w
