-- ===== src/Dmabuf/Ranges.antt =====
-- Ranges, keys and finders of spdk/lib/dma/gpu_dmabuf.c. Addresses and lengths are 64-bit words.
use mooncake_maca_spdk_dmabu.Prelude.{
  ℕ, ℤ, pos_part, neg_part, ◌+◌, ◌%◌, ◌^◌, Bool, ◌&&◌, ◌==◌, ltb, leb, Option, if◌then◌else◌,
}
use mooncake_maca_spdk_dmabu.Dmabuf.Types.{DmabufMr, Region, Domain}
use mooncake_maca_spdk_dmabu.Dmabuf.Tree.{find_near}

-- `==` and `<` on `int`.
unfoldable pub device_eq : ℤ → ℤ → Bool
device_eq a b = pos_part a + neg_part b == pos_part b + neg_part a

unfoldable pub device_lt : ℤ → ℤ → Bool
device_lt a b = ltb (pos_part a + neg_part b) (pos_part b + neg_part a)

-- `gpu_dmabuf_mr_compare(a, b) < 0`
unfoldable pub mr_before : DmabufMr → DmabufMr → Bool
unfolding device_eq device_lt
mr_before a b =
    if device_eq a.device_id b.device_id
    then if a.pd == b.pd then ltb a.addr b.addr else ltb a.pd b.pd
    else device_lt a.device_id b.device_id

-- `gpu_dmabuf_region_compare(a, b) < 0`
unfoldable pub region_before : Region → Region → Bool
region_before a b = ltb a.addr b.addr

unfoldable pub range_contains : DmabufMr → ℕ → ℕ → Bool
range_contains entry addr len =
    let entry_end = (entry.addr + entry.len) % 2 ^ 64 in
    let end = (addr + len) % 2 ^ 64 in leb entry.addr addr && leb addr end && leb end entry_end

unfoldable pub range_overlaps : DmabufMr → ℕ → ℕ → Bool
range_overlaps entry addr len =
    let entry_end = (entry.addr + entry.len) % 2 ^ 64 in
    let end = (addr + len) % 2 ^ 64 in
    ltb addr end && ltb entry.addr entry_end && ltb addr entry_end && ltb entry.addr end

unfoldable pub region_contains : Region → ℕ → ℕ → Bool
region_contains region addr len =
    let region_end = (region.addr + region.len) % 2 ^ 64 in
    let end = (addr + len) % 2 ^ 64 in leb region.addr addr && leb addr end && leb end region_end

unfoldable pub region_overlaps : Region → ℕ → ℕ → Bool
region_overlaps region addr len =
    let region_end = (region.addr + region.len) % 2 ^ 64 in
    let end = (addr + len) % 2 ^ 64 in
    ltb addr end && ltb region.addr region_end && ltb addr region_end && ltb region.addr end

-- Whether an entry stands before the key (device, domain, address), and whether it is one of
-- the device's in the protection domain.
unfoldable pub before_key : ℤ → ℕ → ℕ → DmabufMr → Bool
unfolding device_eq device_lt
before_key device pd addr e =
    if device_eq e.device_id device
    then if e.pd == pd then ltb e.addr addr else ltb e.pd pd
    else device_lt e.device_id device

unfoldable pub belongs_to : ℤ → ℕ → DmabufMr → Bool
unfolding device_eq
belongs_to device pd e = device_eq e.device_id device && e.pd == pd

unfoldable pub find_mr : Domain → ℤ → ℕ → ℕ → ℕ → Option DmabufMr
unfolding before_key belongs_to range_contains find_near
find_mr gd device pd addr len =
    find_near (before_key device pd addr) (λ e. belongs_to device pd e && range_contains e addr len)
      gd.mr_cache

unfoldable pub find_overlapping_mr : Domain → ℤ → ℕ → ℕ → ℕ → Option DmabufMr
unfolding before_key belongs_to range_overlaps find_near
find_overlapping_mr gd device pd addr len =
    find_near (before_key device pd addr) (λ e. belongs_to device pd e && range_overlaps e addr len)
      gd.mr_cache

unfoldable pub find_region : Domain → ℕ → ℕ → Option Region
unfolding region_contains find_near
find_region gd addr len =
    find_near (λ r. ltb r.addr addr) (λ r. region_contains r addr len) gd.regions

unfoldable pub find_overlapping_region : Domain → ℕ → ℕ → Option Region
unfolding region_overlaps find_near
find_overlapping_region gd addr len =
    find_near (λ r. ltb r.addr addr) (λ r. region_overlaps r addr len) gd.regions
