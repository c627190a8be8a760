-- ===== src/Location/Regions.antt =====
-- Which node a byte of a segmented buffer is bound to.
use mooncake_maca_spdk_dmabu.Prelude.{
  ℕ, ◌+◌, ◌*◌, ◌/◌, ◌<◌, ◌≤◌, some, ◌++◌, codes, ◌≡◌, ◌⊎◌, inl, inr, ℤ, arith, length, get_elem?,
  lt-length_of_get,
}
use mooncake_maca_spdk_dmabu.Decimal.{int_to_string}
use mooncake_maca_spdk_dmabu.Location.{
  SegmentsLocationInfo, region_index, resolve_segments_location,
}

-- The index stays inside the list of nodes, for every offset.
pub region_index-lt : (n region_size offset : ℕ) → 0 < n → region_index n region_size offset < n
unfolding region_index
region_index-lt n region_size offset h = ground arith

div_eq : (a r i : ℕ) → i * r ≤ a → a < (i + 1) * r → a / r ≡ i
div_eq a r i h k = grind arith

div-le : (a r i : ℕ) → 0 < r → i * r ≤ a → i ≤ a / r
div-le a r i p h = grind arith

region_index_eq :
    (n r offset i : ℕ)
    → i < n
    → i * r ≤ offset
    → (offset < (i + 1) * r) ⊎ ((0 < r) × (i + 1 ≡ n))
    → region_index n r offset ≡ i
unfolding region_index
region_index_eq n r offset i h low (inl high) = ground (arith, div_eq offset r i low high)
region_index_eq n r offset i h low (inr (p, last)) = ground (arith, div-le offset r i p low)

-- A byte in the region of node `i`, or behind the regions for the last node, is located at "cpu:"
-- with that node, if the regions are not empty.
pub resolve_region :
    (info : SegmentsLocationInfo) (buffer_length offset i : ℕ) (z : ℤ)
    → get_elem? info.numa_nodes i ≡ some z
    → 0 < buffer_length / length info.numa_nodes
    → i * (buffer_length / length info.numa_nodes) ≤ offset
    → (offset < (i + 1) * (buffer_length / length info.numa_nodes))
      ⊎ (i + 1 ≡ length info.numa_nodes)
    → resolve_segments_location info buffer_length offset ≡ codes "cpu:" ++ int_to_string z
unfolding resolve_segments_location
resolve_region info buffer_length offset i z e pos low part =
    let n = length info.numa_nodes in
    let inside = lt-length_of_get info.numa_nodes i z e in
    let index : region_index n (buffer_length / n) offset ≡ i =
      region_index_eq n (buffer_length / n) offset i inside low
        (elim part [ inl h ↦ inl h | inr h ↦ inr (pos, h) ]) in
    ground (arith, index)
