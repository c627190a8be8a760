-- ===== src/Dmabuf/Tests.antt =====
-- A domain, a registration, its translation and its invalidation, run.
use mooncake_maca_spdk_dmabu.Prelude.{
  pos, negsuc, ◌-◌, ◌^◌, true, false, none, some, List, [], ◌∷◌, ◌≡◌, refl, arith, inl,
}
use mooncake_maca_spdk_dmabu.Dmabuf.Types.{
  einval, ok, err, IbvMr, DmabufMr, Region, Domain, World, reg_mr, Gpu, Platform,
}
use mooncake_maca_spdk_dmabu.Dmabuf.Tree.{Has, find_near, nfind, last_before, rb_insert, first_hit}
use mooncake_maca_spdk_dmabu.Dmabuf.Ranges.{
  mr_before, region_before, region_contains, find_mr, find_overlapping_mr, find_region,
  find_overlapping_region,
}
use mooncake_maca_spdk_dmabu.Dmabuf.Contexts.{
  RdmaDomain, get_rdma_pd, cached_ctx, retain_ctx, get_cuda_ctx, set_cuda_ctx, restore_cuda_ctx,
}
use mooncake_maca_spdk_dmabu.Dmabuf.Register.{
  new_region, add_region, allocation_of, export_allocation, export_range, export_and_restore,
  export_in_ctx, remove_first, new_mr, cache_mr, cache_answer, register_fd, register_exported,
  register_in_ctx, register_mr, find_or_register, register_added, register_locked, translation,
  translate_locked,
}
use mooncake_maca_spdk_dmabu.Dmabuf.Lifecycle.{
  invalidate_range, Library, domain_find, Layout, create,
}
use mooncake_maca_spdk_dmabu.Dmabuf.Lookup.{find_region-first_hit}
use mooncake_maca_spdk_dmabu.Dmabuf.Invariant.{IsSound, IsSound-at}
use mooncake_maca_spdk_dmabu.Dmabuf.Exports.{Switches, GivenBack}
use mooncake_maca_spdk_dmabu.Dmabuf.Balance.{register_restores}
use mooncake_maca_spdk_dmabu.Dmabuf.RoundTrip.{
  register-translate, translate_sound, IsServed, invalidate-translate,
}
use mooncake_maca_spdk_dmabu.Dmabuf.Runs.{
  Call, create_domain, register_range, translate_range, invalidate_domain, destroy_domain, run,
  nothing_held, Answers,
}
use mooncake_maca_spdk_dmabu.Dmabuf.Creation.{Creates, create-Creates}
use mooncake_maca_spdk_dmabu.Dmabuf.Safety.{IsBalanced, run-IsBalanced, run-AllSound, AllSound}
use mooncake_maca_spdk_dmabu.Dmabuf.Wraps.{wrapped_stays}
use mooncake_maca_spdk_dmabu.Dmabuf.Runtime.{MacaRuntime}

abbrev gpu : Gpu
gpu = record {
  init = true;
  device_get = λ d. some 1;
  primary_ctx_retain = λ d. some 70;
  ctx_get_current = λ c. some c;
  ctx_set_current = λ c x. some x;
  pointer_device = λ a. some (pos 0);
  address_range = λ a. some (4096, 8192);
  export_dmabuf = λ b s. some 9;
}

gpu-Switches : Switches gpu
gpu-Switches = record { reads = λ c x q. cc; sets = λ c x y q. cc }

abbrev keys : IbvMr
keys = record { handle = 5; lkey = 11; rkey = 21 }

abbrev platform : Platform
platform = record {
  alloc_region = true;
  alloc_mr = true;
  alloc_ctx = true;
  alloc_domain = true;
  reg_dmabuf_mr = λ pd offset len iova fd access. reg_mr keys;
  memory_domain_create = λ id. ok 500;
}

abbrev empty_domain : Domain
empty_domain = record {
  domain = 500;
  mr_cache = [];
  regions = [];
  cuda_ctxs = [];
  cuda_device_id = negsuc 0;
  cuda_ctx = 0;
  owns_cuda_ctx = false;
  rdma_access_flags = 7;
}

abbrev start : World
start = nothing_held.world

abbrev entry : DmabufMr
entry = record { addr = 8192; len = 4096; device_id = pos 0; pd = 3; mr = keys }

abbrev region : Region
region = record { addr = 8192; len = 4096; device_id = pos 0 }

abbrev registered : Domain
registered = record empty_domain {
  mr_cache = entry ∷ [];
  regions = region ∷ [];
  cuda_ctxs = record { device_id = pos 0; cuda_ctx = 70 } ∷ [];
}

abbrev holding : World
holding = record start { live = 5 ∷ []; retained = pos 0 ∷ [] }

registers :
    register_locked gpu platform empty_domain start (pos 0) 3 8192 4096
    ≡ (registered, holding, ok entry)
unfolding register_locked register_added add_region find_or_register register_mr register_in_ctx
    register_exported register_fd cache_answer cache_mr new_mr new_region remove_first export_in_ctx
    export_and_restore export_range export_allocation allocation_of get_cuda_ctx retain_ctx
    cached_ctx set_cuda_ctx restore_cuda_ctx find_mr find_overlapping_mr find_region
    find_overlapping_region find_near nfind last_before rb_insert mr_before region_before
registers = refl

empty-IsSound : IsSound empty_domain
empty-IsSound = IsSound-at empty_domain [] [] refl refl tt tt tt tt

registered-IsSound : IsSound registered
registered-IsSound =
    IsSound-at registered (region ∷ []) (entry ∷ []) refl refl (tt, tt)
      ((omega arith, omega arith), tt) (tt, tt) ((region, inl refl, refl, refl, refl), tt)

abbrev rdma : RdmaDomain
rdma = record { id = 600; is_rdma = true; user_ctx = some (record { size = 16; ibv_pd = 3 }) }

register-translate_example :
    translate_locked gpu platform registered holding rdma 3 9000 100
    ≡ (registered, holding, ok (translation rdma 9000 100 keys))
register-translate_example =
    register-translate gpu platform empty_domain start (pos 0) 3 8192 4096 registered holding
      holding entry rdma 9000 100 empty-IsSound (omega arith, omega arith) registers (omega arith)
      (omega arith) (omega arith)

translate_sound_example : IsServed registered 3 9000 100 (translation rdma 9000 100 keys)
translate_sound_example =
    translate_sound gpu platform registered holding rdma 3 9000 100 registered holding
      (translation rdma 9000 100 keys) registered-IsSound (omega arith) register-translate_example

invalidate-translate_example :
    translate_locked gpu platform
      (invalidate_range registered holding 4096 8192).0
      start
      rdma
      3
      9000
      100
    ≡ ((invalidate_range registered holding 4096 8192).0, start, err einval)
invalidate-translate_example =
    invalidate-translate gpu platform registered holding start rdma 3 4096 8192 9000 100
      registered-IsSound (omega arith) (omega arith, omega arith) (omega arith, omega arith)
      (omega arith) (omega arith)

find_region-first_hit_example :
    find_region registered 9000 100 ≡ first_hit (λ r. region_contains r 9000 100) registered.regions
find_region-first_hit_example =
    find_region-first_hit registered 9000 100 (tt, tt) (omega arith) (omega arith)

register_restores_example :
    GivenBack gpu start (register_locked gpu platform empty_domain start (pos 0) 3 8192 4096).1
register_restores_example =
    register_restores gpu platform empty_domain start (pos 0) 3 8192 4096 gpu-Switches

abbrev layout : Layout
layout = record {
  id_end = 16;
  device_end = 20;
  context_end = 32;
  flags_end = 36;
  opts_size = 40;
  default_access_flags = 7;
  default_id = 900;
}

abbrev willing : Answers
willing = record {
  gpu = gpu;
  platform = platform;
  refuses_dereg = λ live h. false;
  refuses_release = λ retained d. false;
}

-- The verbs library refuses a deregistration, and the runtime a release.
abbrev refusing : Answers
refusing = record willing { refuses_dereg = λ live h. true; refuses_release = λ retained d. true }

abbrev calls : List (Answers × Call)
calls =
    (willing, create_domain true none)
    ∷ (willing, register_range 500 rdma 8192 4096)
    ∷ (willing, translate_range 500 rdma 9000 100)
    ∷ (refusing, invalidate_domain 500 8192 10)
    ∷ (refusing, destroy_domain 500)
    ∷ []

run-IsBalanced_example : IsBalanced (run 16 layout nothing_held calls)
run-IsBalanced_example = run-IsBalanced 16 layout calls

run-AllSound_example : AllSound (run 16 layout nothing_held calls)
run-AllSound_example = run-AllSound 16 layout calls (tt, (omega arith, (tt, (tt, (tt, tt)))))

create-Creates_example : Creates nothing_held (create gpu platform layout nothing_held true none)
create-Creates_example = create-Creates gpu platform layout nothing_held true none

abbrev wrapped : Region
wrapped = record { addr = 9000; len = 2 ^ 64 - 100; device_id = pos 0 }

wrapped_stays_example :
    (region_contains wrapped 9100 10 ≡ false)
    × Has wrapped
        (invalidate_range (record empty_domain { regions = wrapped ∷ [] }) start 9100 10).0.regions
wrapped_stays_example =
    wrapped_stays (record empty_domain { regions = wrapped ∷ [] }) start wrapped 9100 10 (inl refl)
      (omega arith) (omega arith) (omega arith)

abbrev table : Library
table = record { domains = empty_domain ∷ []; world = start }

found : domain_find 500 table.domains ≡ some empty_domain
unfolding domain_find
found = refl

gives_pd : get_rdma_pd 16 rdma ≡ ok 3
unfolding get_rdma_pd
gives_pd = refl

abbrev runtime : MacaRuntime
runtime = record {
  set_device = λ d. true;
  mem_address_range = λ a. some (4096, 8192);
  mem_handle = λ b s. some 9;
}
