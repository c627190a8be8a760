-- ===== src/Rdma/Tests.antt =====
-- The transport on concrete regions, requests and tasks.
pub mod Tasks
pub mod Memory
pub mod Gid
use mooncake_maca_spdk_dmabu.Prelude.{
  ℕ, ◌+◌, ◌%◌, ◌^◌, ◌-◌, ◌<◌, ◌≤◌, Bool, true, false, Option, some, none, List, [], ◌∷◌, ◌≡◌, ◌≢◌,
  ◌⊎◌, inl, inr, refl, arith, length, get_elem?, Text, codes,
}
use mooncake_maca_spdk_dmabu.Location.{elsewhere}
use mooncake_maca_spdk_dmabu.Rdma.Regions.{
  close, Mr, Driver, Entry, Fds, host, device, lkey, rkey, register_memory_region,
  register_memory_region_internal, register_device_memory, unregister_memory_region,
  find_memory_region_containing, last_before, contains_address, pre_touch_memory,
}
use mooncake_maca_spdk_dmabu.Rdma.Regions.Lookup.{IsDisjoint, find-Has}
use mooncake_maca_spdk_dmabu.Rdma.Regions.Updates.{
  registered, unregistered, register-lookup, register_keeps, unregister-lookup, unregister_keeps,
}
use mooncake_maca_spdk_dmabu.Rdma.Regions.Descriptors.{register-closes}

abbrev pub mr_of : ℕ → ℕ → Mr
mr_of handle len = record { handle = handle; length = len; lkey = handle + 10; rkey = handle + 20 }

abbrev pub driver : Driver
driver = record {
  max_mr_size = 1048576;
  reg_mr = λ addr len access. some (mr_of 1 len);
  reg_dmabuf_mr = λ offset len addr fd access. some (mr_of 2 len);
  memory_type = λ addr. some device;
  address_range = λ addr. some (4096, 65536);
  export_dmabuf = λ base size. some 5;
  dereg_mr = λ mr. false;
}

abbrev old_entry : Entry
old_entry = record { key = 4096; meta = record { addr = 4096; mr = mr_of 7 4096 } }

abbrev new_entry : Entry
new_entry = record { key = 16384; meta = record { addr = 16384; mr = mr_of 8 100 } }

abbrev one_region : List Entry
one_region = old_entry ∷ []

abbrev two_regions : List Entry
two_regions = old_entry ∷ new_entry ∷ []

two_regions-IsDisjoint : IsDisjoint 0 two_regions
two_regions-IsDisjoint = (omega arith, refl, omega arith, (omega arith, refl, omega arith, tt))

gpu_registered :
    register_memory_region_internal driver none 16384 4096 1 true (3 ∷ [])
    ≡ (some (mr_of 2 4096), 3 ∷ [])
unfolding register_memory_region_internal close
gpu_registered = refl

register-lookup_example :
    ((registered driver none 16384 4096 1 true one_region (3 ∷ []) (3 ∷ []) (mr_of 2 4096)).0
      ≡ true)
    × IsDisjoint 0
        (registered driver none 16384 4096 1 true one_region (3 ∷ []) (3 ∷ []) (mr_of 2 4096)).1
    × (lkey
          (registered driver none 16384 4096 1 true one_region (3 ∷ []) (3 ∷ []) (mr_of 2 4096)).1
          20000
        ≡ 12)
    × (rkey
          (registered driver none 16384 4096 1 true one_region (3 ∷ []) (3 ∷ []) (mr_of 2 4096)).1
          20000
        ≡ 22)
register-lookup_example =
    register-lookup driver none 16384 4096 1 true one_region (3 ∷ []) (3 ∷ []) (mr_of 2 4096) 20000
      gpu_registered (omega arith) (omega arith, refl, omega arith, tt) (inr (omega arith), tt)
      (omega arith) (omega arith)

found_old : find_memory_region_containing two_regions 4100 ≡ some old_entry
found_old =
    find-Has 0 4100 two_regions old_entry two_regions-IsDisjoint (inl refl)
      (omega arith, omega arith)

unregister-lookup_example :
    ((unregistered driver 4100 two_regions old_entry).0 ≡ true)
    × IsDisjoint 0 (unregistered driver 4100 two_regions old_entry).1
    × (lkey (unregistered driver 4100 two_regions old_entry).1 5000 ≡ 0)
    × (rkey (unregistered driver 4100 two_regions old_entry).1 5000 ≡ 0)
unregister-lookup_example =
    unregister-lookup driver 4100 two_regions old_entry 5000 two_regions-IsDisjoint found_old refl
      (omega arith, omega arith)

register-closes_example :
    ((register_memory_region driver none 16384 4096 1 true one_region (3 ∷ [])).2 ≡ 3 ∷ [])
    × ((pre_touch_memory driver none 1 16384 4096 true (3 ∷ [])).1 ≡ 3 ∷ [])
register-closes_example = register-closes driver none 16384 4096 1 true one_region (3 ∷ [])
