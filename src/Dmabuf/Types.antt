-- ===== src/Dmabuf/Types.antt =====
-- The state of the GPU dma-buf memory domain, spdk/lib/dma/gpu_dmabuf.c, and what it calls outside
-- the repository: the GPU runtime (through the file's wrappers) and the verbs library.
use mooncake_maca_spdk_dmabu.Prelude.{ℕ, ℤ, Bool, Option, List, ◌≡◌, refl}

-- Error numbers, which the code returns negated.
pub data Errno : Type 0 where
  einval enomem eexist efault enotsup enodev : Errno
  other_errno : ℕ → Errno

pub data Result {ℓ} (A : Type ℓ) : Type ℓ where
  ok : A → Result A
  err : Errno → Result A

pub record IbvMr : Type 0 where
  pub handle : ℕ
  pub lkey : ℕ
  pub rkey : ℕ

-- `struct gpu_dmabuf_mr`; `pd` is the address of the protection domain.
pub record DmabufMr : Type 0 where
  pub addr : ℕ
  pub len : ℕ
  pub device_id : ℤ
  pub pd : ℕ
  pub mr : IbvMr

-- `struct gpu_dmabuf_region`
pub record Region : Type 0 where
  pub addr : ℕ
  pub len : ℕ
  pub device_id : ℤ

-- `struct gpu_dmabuf_cuda_ctx`; a context is its address, 0 for NULL.
pub record CudaCtx : Type 0 where
  pub device_id : ℤ
  pub cuda_ctx : ℕ

-- `struct gpu_dmabuf_domain`; `domain` is the address of the SPDK memory domain. The trees are the
-- lists of their entries in the order of the keys.
pub record Domain : Type 0 where
  pub domain : ℕ
  pub mr_cache : List DmabufMr
  pub regions : List Region
  pub cuda_ctxs : List CudaCtx
  pub cuda_device_id : ℤ
  pub cuda_ctx : ℕ
  pub owns_cuda_ctx : Bool
  pub rdma_access_flags : ℕ

-- What the process holds of its environment: the thread's current GPU context, the open
-- descriptors, the memory regions at the verbs library and the retained primary contexts. What the
-- library has is `live` and `undereg`: the regions that it was not asked to deregister, and those of
-- which it refused the deregistration. The same goes for the runtime, with `retained` and
-- `unreleased`. The refusals may depend on what is held at the call.
pub record World : Type 0 where
  pub current : ℕ
  pub fds : List ℕ
  pub live : List ℕ
  pub undereg : List ℕ
  pub refuses_dereg : List ℕ → ℕ → Bool
  pub retained : List ℤ
  pub unreleased : List ℤ
  pub refuses_release : List ℤ → ℤ → Bool

pub data RegAnswer : Type 0 where
  reg_mr : IbvMr → RegAnswer
  reg_failed : ℕ → RegAnswer

-- The answers of the wrappers `gpu_*` during one call; `none` is a result other than GPU_SUCCESS.
pub record Gpu : Type 0 where
  pub init : Bool
  pub device_get : ℤ → Option ℕ
  pub primary_ctx_retain : ℕ → Option ℕ
  -- given the thread's context
  pub ctx_get_current : ℕ → Option ℕ
  -- given the thread's context and the new one, the thread's context afterwards
  pub ctx_set_current : ℕ → ℕ → Option ℕ
  pub pointer_device : ℕ → Option ℤ
  pub address_range : ℕ → Option (ℕ × ℕ)
  pub export_dmabuf : ℕ → ℕ → Option ℕ

-- The allocator, the verbs library and `spdk_memory_domain_create`, as they answer during one call
-- of the interface, which allocates an object of each kind at most once.
pub record Platform : Type 0 where
  pub alloc_region : Bool
  pub alloc_mr : Bool
  pub alloc_ctx : Bool
  pub alloc_domain : Bool
  -- protection domain, offset, length, iova, descriptor, access flags
  pub reg_dmabuf_mr : ℕ → ℕ → ℕ → ℕ → ℕ → ℕ → RegAnswer
  -- the identifier of the device, as its address
  pub memory_domain_create : ℕ → Result ℕ

-- What holds of both cases of a result holds of the case that is taken.
pub result_keeps {ℓ κ λ'} :
    {A : Type ℓ} {B : Type κ} (P : B → Type λ') (r : Result A) (f : Errno → B) (g : A → B)
    → ((e : Errno) → P (f e))
    → ((a : A) → r ≡ ok a → P (g a))
    → P (elim r [ err e ↦ f e | ok a ↦ g a ])
result_keeps P (ok a) f g p q = q a refl
result_keeps P (err e) f g p q = p e
