-- ===== src/Segments/Local.antt =====
-- Local memory of a client: `RegisterLocalMemory`, `unregisterLocalMemory`, `RegisterSpdkGpuMemory`
-- and `UnregisterSpdkGpuMemory` of mooncake-store/src/client_service.cpp, as compiled with USE_NOF.
-- The SPDK wrapper is a parameter.
use mooncake_maca_spdk_dmabu.Prelude.{
  ℕ, Bool, true, false, not, ◌&&◌, ◌||◌, ◌==◌, Option, none, some, List, [], ◌∷◌, ◌≡◌, refl, arith,
  String, if◌then◌else◌, Text, is_empty,
}
use mooncake_maca_spdk_dmabu.Location.{strip_prefix}
use mooncake_maca_spdk_dmabu.Put.Types.{ErrorCode, invalid_params}
use mooncake_maca_spdk_dmabu.Put.Entry.{Strtoull}
use mooncake_maca_spdk_dmabu.Segments.{
  Registered, Services, unregistered, not_registered, unregister_failed,
  check_register_memory_params, after_unregister, forget,
}
use mooncake_maca_spdk_dmabu.Segments.Held.{ranges_at}

-- What the transfer engine and the SPDK wrapper have registered.
pub record Memory : Type 0 where
  pub engine : List Registered
  pub gpu_regions : List Registered

-- The wrapper, the environment and the prefix of locations on a GPU.
pub record Spdk : Type 0 where
  pub gpu_prefix : Text
  pub getenv : String → Option Text
  pub strtoull : Text → Strtoull
  pub initialize_env : Bool
  pub gpu_dmabuf_enabled : Bool
  pub register_gpu_memory_region : List Registered → ℕ → ℕ → Bool

unfoldable pub is_gpu_location_for_spdk : Spdk → Text → Bool
unfolding strip_prefix
is_gpu_location_for_spdk k location = elim (strip_prefix k.gpu_prefix location) [
  | none ↦ false
  | some rest ↦ true
]

unfoldable pub is_spdk_gpu_dmabuf_requested : Spdk → Bool
is_spdk_gpu_dmabuf_requested k = elim (k.getenv "MC_SPDK_GPU_DMABUF") [
  | none ↦ false
  | some [] ↦ false
  | some (c ∷ cs) ↦
      let r = k.strtoull (c ∷ cs) in
      r.errno == 0 && r.read_any && is_empty r.rest && not (r.value == 0)
]

unfoldable pub range : ℕ → ℕ → Registered
range addr length = record { addr = addr; length = length }

module _ (s : Services) (k : Spdk) where
  -- `unregisterLocalMemory` of the engine, whose result is not looked at.
  unfoldable pub take_back : Memory → ℕ → Memory
  unfolding after_unregister
  take_back m addr = record m {
    engine = after_unregister (s.unregister_local_memory m.engine addr) addr m.engine;
  }

  unfoldable pub unregister_gpu_memory_region : Memory → ℕ → Memory
  unfolding forget
  unregister_gpu_memory_region m addr = record m { gpu_regions = forget addr m.gpu_regions }

  -- Behind the registration with the engine, for a location on a GPU.
  unfoldable pub register_with_spdk : Memory → ℕ → ℕ → Memory × Option ErrorCode
  unfolding range take_back unregister_gpu_memory_region
  register_with_spdk m addr length =
      if not k.initialize_env
      then (take_back m addr, some invalid_params)
      else if k.register_gpu_memory_region m.gpu_regions addr length
      then (record m { gpu_regions = range addr length ∷ m.gpu_regions }, none)
      else (take_back (unregister_gpu_memory_region m addr) addr, some invalid_params)

  unfoldable pub register_local_memory : Memory → ℕ → ℕ → Text → Memory × Option ErrorCode
  unfolding range register_with_spdk
  register_local_memory m addr length location = elim (check_register_memory_params s addr length) [
    | some e ↦ (m, some e)
    | none ↦
        if s.register_local_memory m.engine addr length location
        then (let m' = record m { engine = range addr length ∷ m.engine } in
            if is_gpu_location_for_spdk k location && is_spdk_gpu_dmabuf_requested k
            then register_with_spdk m' addr length
            else (m', none))
        else (m, some invalid_params)
  ]

  -- `Client::unregisterLocalMemory`
  unfoldable pub unregister_local_memory : Memory → ℕ → Memory × Option ErrorCode
  unfolding take_back unregister_gpu_memory_region
  unregister_local_memory m addr = elim (s.unregister_local_memory m.engine addr) [
    | unregistered ↦ (unregister_gpu_memory_region (take_back m addr) addr, none)
    | not_registered ↦ (m, some invalid_params)
    | unregister_failed ↦ (m, some invalid_params)
  ]

  unfoldable pub register_spdk_gpu_memory : Memory → ℕ → ℕ → Memory × Option ErrorCode
  unfolding range
  register_spdk_gpu_memory m addr length =
      if addr == 0 || length == 0
      then (m, some invalid_params)
      else if not (is_spdk_gpu_dmabuf_requested k)
      then (m, some invalid_params)
      else if not k.initialize_env
      then (m, some invalid_params)
      else if not k.gpu_dmabuf_enabled
      then (m, some invalid_params)
      else if k.register_gpu_memory_region m.gpu_regions addr length
      then (record m { gpu_regions = range addr length ∷ m.gpu_regions }, none)
      else (m, some invalid_params)

  unfoldable pub unregister_spdk_gpu_memory : Memory → ℕ → Memory × Option ErrorCode
  unfolding unregister_gpu_memory_region
  unregister_spdk_gpu_memory m addr =
      if addr == 0 then (m, some invalid_params) else (unregister_gpu_memory_region m addr, none)

  forget_absent : (addr : ℕ) (rs : List Registered) → ranges_at addr rs ≡ 0 → forget addr rs ≡ rs
  unfolding forget
  forget_absent addr [] h = refl
  forget_absent addr (x ∷ xs) h = ground (arith, forget_absent addr xs)

  forget_first :
      (addr length : ℕ) (rs : List Registered) → forget addr (range addr length ∷ rs) ≡ rs
  unfolding forget range
  forget_first addr length rs = ground arith

  -- With an engine that unregisters what it has just registered, and for an address of which the
  -- SPDK wrapper has no region: a registration that fails, on any branch, leaves the engine and the
  -- wrapper as they were.
  pub register_local_error :
      (m m' : Memory) (addr length : ℕ) (location : Text) (e : ErrorCode)
      → s.unregister_local_memory (range addr length ∷ m.engine) addr ≡ unregistered
      → ranges_at addr m.gpu_regions ≡ 0
      → register_local_memory m addr length location ≡ (m', some e)
      → m' ≡ m
  unfolding register_local_memory register_with_spdk take_back unregister_gpu_memory_region
      after_unregister
  register_local_error m m' addr length location e frees absent h =
      ground (arith, forget_absent addr m.gpu_regions absent, forget_first addr length m.engine)
