-- ===== src/Dmabuf/Lifecycle.antt =====
-- The interface of spdk/lib/dma/gpu_dmabuf.c over the table of domains: create, register,
-- translate, invalidate and destroy.
use mooncake_maca_spdk_dmabu.Prelude.{
  ℕ, ℤ, negsuc, pos_part, neg_part, ◌+◌, Bool, true, false, not, ◌==◌, ◌||◌, ◌&&◌, ltb, leb,
  is_nonneg, Option, none, some, List, [], ◌∷◌, ◌++◌, if◌then◌else◌,
}
use mooncake_maca_spdk_dmabu.Dmabuf.Types.{
  einval, enomem, enodev, Result, ok, err, DmabufMr, CudaCtx, Domain, World, Gpu, Platform,
}
use mooncake_maca_spdk_dmabu.Dmabuf.Tree.{drop_hits}
use mooncake_maca_spdk_dmabu.Dmabuf.Ranges.{device_eq, range_overlaps, region_overlaps}
use mooncake_maca_spdk_dmabu.Dmabuf.Contexts.{RdmaDomain, get_rdma_pd, get_ptr_device_id}
use mooncake_maca_spdk_dmabu.Dmabuf.Register.{
  dereg_mr, register_locked, translate_locked, Translation,
}

-- Every entry that hits is deregistered while the cache is walked.
unfoldable pub dereg_hits : (DmabufMr → Bool) → List DmabufMr → World → World
unfolding dereg_mr
dereg_hits hits [] w = w
dereg_hits hits (e ∷ m) w = let w' = if hits e then dereg_mr w e.mr else w in dereg_hits hits m w'

unfoldable pub drop_range : Domain → World → ℕ → ℕ → Domain × World
unfolding drop_hits dereg_hits range_overlaps region_overlaps
drop_range gd w addr len =
    let hits : DmabufMr → Bool = λ e. range_overlaps e addr len in
    (
      record gd {
        mr_cache = drop_hits hits gd.mr_cache;
        regions = drop_hits (λ r. region_overlaps r addr len) gd.regions;
      },
      dereg_hits hits gd.mr_cache w,
    )

-- `gpu_dmabuf_invalidate_range`
unfoldable pub invalidate_range : Domain → World → ℕ → ℕ → Domain × World
unfolding drop_range
invalidate_range gd w addr len = if addr == 0 || len == 0 then (gd, w) else drop_range gd w addr len

-- The table of domains and the world.
pub record Library : Type 0 where
  pub domains : List Domain
  pub world : World

-- `gpu_dmabuf_domain_find`
unfoldable pub domain_find : ℕ → List Domain → Option Domain
domain_find id [] = none
domain_find id (gd ∷ ds) = let rest = domain_find id ds in if gd.domain == id then some gd else rest

-- The domain that is found is an object in the table: its changes are seen there.
unfoldable pub update_domain : Domain → List Domain → List Domain
update_domain gd [] = []
update_domain gd (d ∷ ds) =
    let rest = d ∷ update_domain gd ds in if d.domain == gd.domain then gd ∷ ds else rest

unfoldable pub with_domain : Library → Domain → World → Library
unfolding update_domain
with_domain lib gd w = record { domains = update_domain gd lib.domains; world = w }

abbrev pub drop_value : {A : Type 0} → Result A → Result (Unit {0})
drop_value (ok a) = ok tt
drop_value (err e) = err e

unfoldable pub register :
    Gpu → Platform → ℕ → Library → ℕ → RdmaDomain → ℕ → ℕ → Library × Result (Unit {0})
unfolding domain_find with_domain get_rdma_pd get_ptr_device_id register_locked
register gpu p pd_end lib id rdma addr len =
    if addr == 0 || len == 0 then (lib, err einval) else elim (domain_find id lib.domains) [
      | none ↦ (lib, err einval)
      | some gd ↦ elim (get_rdma_pd pd_end rdma) [
        | err e ↦ (lib, err e)
        | ok pd ↦ elim (get_ptr_device_id gpu gd addr) [
          | err e ↦ (lib, err e)
          | ok device ↦
              let (gd', w, rc) = register_locked gpu p gd lib.world device pd addr len in
              (with_domain lib gd' w, drop_value rc)
        ]
      ]
    ]

unfoldable pub translate :
    Gpu → Platform → ℕ → Library → ℕ → RdmaDomain → ℕ → ℕ → Library × Result Translation
unfolding domain_find with_domain get_rdma_pd translate_locked
translate gpu p pd_end lib id dst addr len = elim (domain_find id lib.domains) [
  | none ↦ (lib, err einval)
  | some gd ↦ elim (get_rdma_pd pd_end dst) [
    | err e ↦ (lib, err e)
    | ok pd ↦
        let (gd', w, result) = translate_locked gpu p gd lib.world dst pd addr len in
        (with_domain lib gd' w, result)
  ]
]

unfoldable pub invalidate : Library → ℕ → ℕ → ℕ → Library
unfolding domain_find with_domain invalidate_range
invalidate lib id addr len = elim (domain_find id lib.domains) [
  | none ↦ lib
  | some gd ↦ let (gd', w) = invalidate_range gd lib.world addr len in with_domain lib gd' w
]

-- `struct spdk_gpu_dmabuf_memory_domain_opts`; an identifier is its address, 0 for NULL.
pub record Opts : Type 0 where
  pub size : ℕ
  pub id : ℕ
  pub cuda_device_id : ℤ
  pub cuda_context : ℕ
  pub rdma_access_flags : ℕ

-- Where each field of `Opts` ends, the size of the structure, the access flags of the verbs
-- library by default, and the address of SPDK_GPU_DMABUF_DMA_DEVICE.
pub record Layout : Type 0 where
  pub id_end : ℕ
  pub device_end : ℕ
  pub context_end : ℕ
  pub flags_end : ℕ
  pub opts_size : ℕ
  pub default_access_flags : ℕ
  pub default_id : ℕ

unfoldable pub get_opts : Layout → Opts
get_opts l = record {
  size = l.opts_size;
  id = 0;
  cuda_device_id = negsuc 0;
  cuda_context = 0;
  rdma_access_flags = l.default_access_flags;
}

-- The caller's fields that lie within its structure, over the defaults.
unfoldable pub local_opts : Layout → Opts → Opts
unfolding get_opts
local_opts l o = record {
  size = l.opts_size;
  id = if leb l.id_end o.size then o.id else 0;
  cuda_device_id = if leb l.device_end o.size then o.cuda_device_id else negsuc 0;
  cuda_context = if leb l.context_end o.size then o.cuda_context else 0;
  rdma_access_flags =
      if leb l.flags_end o.size && not (o.rdma_access_flags == 0)
      then o.rdma_access_flags
      else l.default_access_flags;
}

unfoldable pub chosen_opts : Layout → Option Opts → Result Opts
unfolding get_opts local_opts
chosen_opts l none = ok (get_opts l)
chosen_opts l (some o) = if o.size == 0 then err einval else ok (local_opts l o)

unfoldable pub release_device : ℤ → List ℤ → List ℤ
unfolding device_eq
release_device d [] = []
release_device d (x ∷ xs) = let rest = x ∷ release_device d xs in if device_eq x d then xs else rest

-- `gpu_device_primary_ctx_release(device)`, whose result is not looked at either.
unfoldable pub primary_ctx_release : ℤ → World → World
unfolding release_device
primary_ctx_release device w = record w {
  retained = release_device device w.retained;
  unreleased = if w.refuses_release w.retained device then device ∷ w.unreleased else w.unreleased;
}

unfoldable pub new_domain : Opts → Domain
new_domain o = record {
  domain = 0;
  mr_cache = [];
  regions = [];
  cuda_ctxs = [];
  cuda_device_id = o.cuda_device_id;
  cuda_ctx = o.cuda_context;
  owns_cuda_ctx = false;
  rdma_access_flags = o.rdma_access_flags;
}

-- The primary context of a fixed device, where the caller gave no context.
unfoldable pub retain_primary : Gpu → Domain → World → World × Result Domain
retain_primary gpu gd w =
    if gd.cuda_ctx == 0 && is_nonneg gd.cuda_device_id
    then elim (gpu.device_get gd.cuda_device_id) [
      | none ↦ (w, err enodev)
      | some cuda_device ↦ elim (gpu.primary_ctx_retain cuda_device) [
        | none ↦ (w, err enodev)
        | some ctx ↦ (
          record w { retained = gd.cuda_device_id ∷ w.retained },
          ok (record gd { cuda_ctx = ctx; owns_cuda_ctx = true }),
        )
      ]
    ]
    else (w, ok gd)

unfoldable pub release_owned : Domain → World → World
unfolding primary_ctx_release
release_owned gd w = if gd.owns_cuda_ctx then primary_ctx_release gd.cuda_device_id w else w

-- The SPDK memory domain, behind which the new domain enters the table.
unfoldable pub publish : Platform → Layout → Library → Opts → Domain → World → Library × Result ℕ
unfolding release_owned
publish p l lib o gd w = elim (p.memory_domain_create (if o.id == 0 then l.default_id else o.id)) [
  | err e ↦ (record lib { world = release_owned gd w }, err e)
  | ok id ↦ (record { domains = lib.domains ++ record gd { domain = id } ∷ []; world = w }, ok id)
]

unfoldable pub create_with : Gpu → Platform → Layout → Library → Opts → Library × Result ℕ
unfolding new_domain retain_primary publish
create_with gpu p l lib o =
    if ltb (pos_part o.cuda_device_id + 1) (neg_part o.cuda_device_id)
    then (lib, err einval)
    else if not p.alloc_domain
    then (lib, err enomem)
    else if not gpu.init
    then (lib, err enodev)
    else (let (w, gd) = retain_primary gpu (new_domain o) lib.world in
        elim gd [ err e ↦ (record lib { world = w }, err e) | ok d ↦ publish p l lib o d w ])

-- `has_domain` is whether the caller gave a place for the result.
unfoldable pub create : Gpu → Platform → Layout → Library → Bool → Option Opts → Library × Result ℕ
unfolding chosen_opts create_with
create gpu p l lib has_domain opts =
    if has_domain
    then elim (chosen_opts l opts) [ err e ↦ (lib, err e) | ok o ↦ create_with gpu p l lib o ]
    else (lib, err einval)

-- `TAILQ_REMOVE`
unfoldable pub remove_domain : ℕ → List Domain → List Domain
remove_domain id [] = []
remove_domain id (d ∷ ds) =
    let rest = d ∷ remove_domain id ds in if d.domain == id then ds else rest

-- `gpu_dmabuf_release_cuda_ctxs`
unfoldable pub release_cuda_ctxs : List CudaCtx → World → World
unfolding primary_ctx_release
release_cuda_ctxs [] w = w
release_cuda_ctxs (c ∷ cs) w = release_cuda_ctxs cs (primary_ctx_release c.device_id w)

unfoldable pub destroy : Library → ℕ → Library
unfolding domain_find remove_domain dereg_hits release_owned release_cuda_ctxs
destroy lib id = elim (domain_find id lib.domains) [
  | none ↦ lib
  | some gd ↦
      let w = dereg_hits (λ e. true) gd.mr_cache lib.world in
      record {
        domains = remove_domain id lib.domains;
        world = release_cuda_ctxs gd.cuda_ctxs (release_owned gd w);
      }
]
