-- ===== src/Rdma/Regions/Descriptors.antt =====
-- The descriptors that a registration opens.
use mooncake_maca_spdk_dmabu.Prelude.{ℕ, Bool, Option, List, ◌∷◌, ◌≡◌, arith}
use mooncake_maca_spdk_dmabu.Rdma.Regions.{
  Mr, Driver, Fds, Entry, close, register_device_memory, register_memory_region_internal,
  register_memory_region, pre_touch_memory,
}

close_first : (fd : ℕ) (fds : Fds) → close fd (fd ∷ fds) ≡ fds
unfolding close
close_first fd fds = ground arith

module _ (d : Driver) (garbage : Option Mr) where
  device-Fds :
      (addr length access : ℕ) (fds : Fds)
      → (register_device_memory d addr length access fds).1 ≡ fds
  unfolding register_device_memory
  device-Fds addr length access fds = grind (arith, close_first)

  internal-Fds :
      (addr length access : ℕ) (allow_gpu_dmabuf : Bool) (fds : Fds)
      → (register_memory_region_internal d garbage addr length access allow_gpu_dmabuf fds).1 ≡ fds
  unfolding register_memory_region_internal
  internal-Fds addr length access allow_gpu_dmabuf fds =
      ground (arith, device-Fds addr length access fds, device-Fds addr d.max_mr_size access fds)

  -- Neither registering nor pre-touching a range leaves a descriptor open, whichever call of the
  -- driver fails.
  pub register-closes :
      (addr length access : ℕ) (allow_gpu_dmabuf : Bool) (m : List Entry) (fds : Fds)
      → ((register_memory_region d garbage addr length access allow_gpu_dmabuf m fds).2 ≡ fds)
        × ((pre_touch_memory d garbage access addr length allow_gpu_dmabuf fds).1 ≡ fds)
  unfolding register_memory_region pre_touch_memory
  register-closes addr length access allow_gpu_dmabuf m fds =
      let i = internal-Fds addr length access allow_gpu_dmabuf fds in ground (arith, i)
