-- ===== src/Dmabuf/Runtime.antt =====
-- The wrappers `gpu_*` of spdk/lib/dma/gpu_dmabuf.c as compiled with SPDK_CONFIG_MACA.
use mooncake_maca_spdk_dmabu.Prelude.{
  ℕ, pos_part, is_nonneg, Bool, true, false, ◌==◌, ◌||◌, Option, none, some, ◌≡◌, arith,
  if◌then◌else◌,
}
use mooncake_maca_spdk_dmabu.Dmabuf.Types.{efault, ok, err, Domain, Gpu, Platform}
use mooncake_maca_spdk_dmabu.Dmabuf.Contexts.{RdmaDomain, get_rdma_pd, get_ptr_device_id}
use mooncake_maca_spdk_dmabu.Dmabuf.Lifecycle.{Library, domain_find, register}

-- What the MACA runtime answers: whether mcSetDevice succeeds, mcMemGetAddressRange and
-- mcMemGetHandleForAddressRange.
pub record MacaRuntime : Type 0 where
  pub set_device : ℕ → Bool
  pub mem_address_range : ℕ → Option (ℕ × ℕ)
  pub mem_handle : ℕ → ℕ → Option ℕ

-- There are no contexts: the current one is NULL, setting one does nothing, and retaining a
-- device's sets the device.
unfoldable pub maca : MacaRuntime → Gpu
maca rt = record {
  init = true;
  device_get = λ device. some (pos_part device);
  primary_ctx_retain = λ device. if rt.set_device device then some 0 else none;
  ctx_get_current = λ current. some 0;
  ctx_set_current = λ current ctx. some current;
  pointer_device = λ ptr. none;
  address_range = rt.mem_address_range;
  export_dmabuf = rt.mem_handle;
}

-- With the MACA runtime, a domain that was created without a device registers nothing: a range
-- that is not empty, for an RDMA domain with a protection domain, is refused with EFAULT, and
-- nothing changes.
pub register-needs_device :
    (rt : MacaRuntime) (p : Platform) (pd_end pd : ℕ) (lib : Library) (id : ℕ) (gd : Domain)
    (rdma : RdmaDomain) (addr len : ℕ)
    → (addr == 0 || len == 0) ≡ false
    → domain_find id lib.domains ≡ some gd
    → get_rdma_pd pd_end rdma ≡ ok pd
    → is_nonneg gd.cuda_device_id ≡ false
    → register (maca rt) p pd_end lib id rdma addr len ≡ (lib, err efault)
unfolding register get_ptr_device_id maca
register-needs_device rt p pd_end pd lib id gd rdma addr len range found rd none_set = ground arith
