-- ===== src/Dmabuf/Lookup.antt =====
-- The finders of gpu_dmabuf.c look at two entries of a tree only; here they are compared with a
-- search of the whole tree.
use mooncake_maca_spdk_dmabu.Prelude.{
  Pairwise, ℕ, ℤ, ◌+◌, ◌<◌, ◌^◌, Bool, true, false, ◌&&◌, ◌==◌, ltb, leb, none, some, ◌≡◌, arith,
  if◌then◌else◌, All,
}
use mooncake_maca_spdk_dmabu.Dmabuf.Types.{DmabufMr, Region, Domain}
use mooncake_maca_spdk_dmabu.Dmabuf.Tree.{Has, first_hit, find_near_sound}
use mooncake_maca_spdk_dmabu.Dmabuf.Tree.Lookup.{
  find_near-first_hit, unique-find_near, find_near-none,
}
use mooncake_maca_spdk_dmabu.Dmabuf.Ranges.{
  device_eq, device_lt, mr_before, range_contains, range_overlaps, region_contains, region_overlaps,
  before_key, belongs_to, find_mr, find_overlapping_mr, find_region, find_overlapping_region,
}

-- A region that ends where another begins or before; the second ends below 2^64.
abbrev pub region_apart : Region → Region → Bool
region_apart a b =
    ltb 0 a.len && leb (a.addr + a.len) b.addr && ltb 0 b.len && ltb (b.addr + b.len) (2 ^ 64)

unfoldable pub same_key : DmabufMr → DmabufMr → Bool
unfolding device_eq
same_key a b = device_eq a.device_id b.device_id && a.pd == b.pd

-- The same for registered ranges of one device and protection domain, which stand in key order.
unfoldable pub mr_apart : DmabufMr → DmabufMr → Bool
unfolding mr_before same_key
mr_apart a b =
    mr_before a b
    && ltb 0 a.len
    && ltb 0 b.len
    && ltb (a.addr + a.len) (2 ^ 64)
    && ltb (b.addr + b.len) (2 ^ 64)
    && (if same_key a b then leb (a.addr + a.len) b.addr else true)

module _ (gd : Domain) (addr len : ℕ) where
  -- In a tree of regions that are apart, the finder answers for a non-empty range below 2^64 the
  -- region that a search of the whole tree finds.
  pub find_region-first_hit :
      Pairwise region_apart gd.regions
      → 0 < len
      → addr + len < 2 ^ 64
      → find_region gd addr len ≡ first_hit (λ r. region_contains r addr len) gd.regions
  unfolding find_region region_contains
  find_region-first_hit apart pos below =
      find_near-first_hit region_apart (λ r. ltb r.addr addr) (λ r. region_contains r addr len)
        gd.regions (λ x e h a. (ground arith, ground arith))
        (λ x y h a. (ground arith, ground arith)) apart

  pub find_region_unique :
      (x : Region)
      → Pairwise region_apart gd.regions
      → 0 < len
      → addr + len < 2 ^ 64
      → Has x gd.regions
      → region_contains x addr len ≡ true
      → find_region gd addr len ≡ some x
  unfolding find_region region_contains
  find_region_unique x apart pos below has h =
      unique-find_near region_apart (λ r. ltb r.addr addr) (λ r. region_contains r addr len)
        gd.regions x (λ e a. ground arith) (λ y a. (ground arith, ground arith)) h apart has

  pub find_region_sound :
      (x : Region)
      → find_region gd addr len ≡ some x
      → Has x gd.regions × (region_contains x addr len ≡ true)
  unfolding find_region
  find_region_sound x h =
      find_near_sound (λ r. ltb r.addr addr) (λ r. region_contains r addr len) gd.regions x h

  -- When no overlapping region is found, none overlaps.
  pub overlapping_region-none :
      Pairwise region_apart gd.regions
      → 0 < len
      → addr + len < 2 ^ 64
      → find_overlapping_region gd addr len ≡ none
      → All (λ r. region_overlaps r addr len ≡ false) gd.regions
  unfolding find_overlapping_region region_overlaps
  overlapping_region-none apart pos below h =
      find_near-none region_apart (λ r. ltb r.addr addr) (λ r. region_overlaps r addr len)
        gd.regions (λ e y a b c. ground arith) (λ e p a b. ground arith) apart h

-- The tests of `find_mr` and `find_overlapping_mr`.
abbrev pub hits_mr : ℤ → ℕ → ℕ → ℕ → DmabufMr → Bool
hits_mr device pd addr len e = belongs_to device pd e && range_contains e addr len

abbrev pub overlaps_mr : ℤ → ℕ → ℕ → ℕ → DmabufMr → Bool
overlaps_mr device pd addr len e = belongs_to device pd e && range_overlaps e addr len

module _ (gd : Domain) (device : ℤ) (pd addr len : ℕ) where
  -- The same for the registered ranges of a device and a protection domain.
  pub find_mr-first_hit :
      Pairwise mr_apart gd.mr_cache
      → 0 < len
      → addr + len < 2 ^ 64
      → find_mr gd device pd addr len ≡ first_hit (hits_mr device pd addr len) gd.mr_cache
  unfolding find_mr mr_apart mr_before same_key before_key belongs_to range_contains device_eq
      device_lt
  find_mr-first_hit apart pos below =
      find_near-first_hit mr_apart (before_key device pd addr) (hits_mr device pd addr len)
        gd.mr_cache (λ x e h a. (ground arith, ground arith))
        (λ x y h a. (ground arith, ground arith)) apart

  pub find_mr_unique :
      (x : DmabufMr)
      → Pairwise mr_apart gd.mr_cache
      → 0 < len
      → addr + len < 2 ^ 64
      → Has x gd.mr_cache
      → hits_mr device pd addr len x ≡ true
      → find_mr gd device pd addr len ≡ some x
  unfolding find_mr mr_apart mr_before same_key before_key belongs_to range_contains device_eq
      device_lt
  find_mr_unique x apart pos below has h =
      unique-find_near mr_apart (before_key device pd addr) (hits_mr device pd addr len) gd.mr_cache
        x (λ e a. ground arith) (λ y a. (ground arith, ground arith)) h apart has

  pub find_mr_sound :
      (x : DmabufMr)
      → find_mr gd device pd addr len ≡ some x
      → Has x gd.mr_cache × (hits_mr device pd addr len x ≡ true)
  unfolding find_mr
  find_mr_sound x h =
      find_near_sound (before_key device pd addr) (hits_mr device pd addr len) gd.mr_cache x h

  pub overlapping_mr-none :
      Pairwise mr_apart gd.mr_cache
      → 0 < len
      → addr + len < 2 ^ 64
      → find_overlapping_mr gd device pd addr len ≡ none
      → All (λ e. overlaps_mr device pd addr len e ≡ false) gd.mr_cache
  unfolding find_overlapping_mr mr_apart mr_before same_key before_key belongs_to range_overlaps
      device_eq device_lt
  overlapping_mr-none apart pos below h =
      find_near-none mr_apart (before_key device pd addr) (overlaps_mr device pd addr len)
        gd.mr_cache (λ e y a b c. ground arith) (λ e p a b. ground arith) apart h
