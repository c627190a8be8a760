-- ===== src/Dmabuf/Wraps.antt =====
-- A range of gpu_dmabuf.c that ends at or above 2^64: the sum of its address and its length wraps.
use mooncake_maca_spdk_dmabu.Prelude.{
  ℕ, ◌+◌, ◌<◌, ◌≤◌, ◌^◌, ◌==◌, ◌||◌, false, ◌≡◌, arith, if_keeps,
}
use mooncake_maca_spdk_dmabu.Dmabuf.Types.{Region, Domain, World}
use mooncake_maca_spdk_dmabu.Dmabuf.Tree.{Has}
use mooncake_maca_spdk_dmabu.Dmabuf.Tree.Insert.{Has-drop_hits}
use mooncake_maca_spdk_dmabu.Dmabuf.Ranges.{region_contains, region_overlaps}
use mooncake_maca_spdk_dmabu.Dmabuf.Lifecycle.{drop_range, invalidate_range}

-- A region that ends at or above 2^64 contains no range, and no invalidation removes it.
pub wrapped_stays :
    (gd : Domain) (w : World) (r : Region) (addr len : ℕ)
    → Has r gd.regions
    → r.addr < 2 ^ 64
    → r.len < 2 ^ 64
    → 2 ^ 64 ≤ r.addr + r.len
    → (region_contains r addr len ≡ false) × Has r (invalidate_range gd w addr len).0.regions
unfolding region_contains invalidate_range drop_range
wrapped_stays gd w r addr len has a l wraps = (
  ground arith,
  if_keeps (λ (z : Domain × World). Has r z.0.regions) (addr == 0 || len == 0) _ _ has
      (Has-drop_hits (λ x. region_overlaps x addr len) gd.regions r untouched has),
)
  where
    untouched : region_overlaps r addr len ≡ false
    untouched = unfold region_overlaps in ground arith
