-- ===== src/Location/Tests.antt =====
-- Locations of concrete buffers.
use mooncake_maca_spdk_dmabu.Prelude.{
  ℕ, Option, some, List, [], ◌∷◌, ◌++◌, true, map, ◌≡◌, refl, ap, inr, ℤ, pos, arith, length, codes,
}
use mooncake_maca_spdk_dmabu.Decimal.{int_to_string}
use mooncake_maca_spdk_dmabu.Location.{
  page_addresses, page_count, align_page, elsewhere, MemoryLocationEntry, SegmentsLocationInfo,
  build_segments_location, parse_segments_location, resolve_segments_location, gen_cpu_node_name,
}
use mooncake_maca_spdk_dmabu.Location.RoundTrip.{parse-build}
use mooncake_maca_spdk_dmabu.Location.Regions.{resolve_region}
use mooncake_maca_spdk_dmabu.Location.Pages.{
  Tiles, location_at, host_locations, get_memory_location-Tiles, get_memory_location-page,
}

abbrev two_nodes : SegmentsLocationInfo
two_nodes = record { page_size = 4096; numa_nodes = pos 0 ∷ pos 3 ∷ [] }

parse-build_example :
    parse_segments_location (build_segments_location 4096 (pos 0 ∷ pos 3 ∷ [])) two_nodes
    ≡ (true, record { page_size = 4096; numa_nodes = pos 0 ∷ pos 3 ∷ [] })
parse-build_example =
    parse-build 4096 (pos 0) (pos 3 ∷ []) two_nodes (omega arith) (omega arith, (omega arith, tt))

resolve_region_example :
    resolve_segments_location two_nodes 8192 5000 ≡ codes "cpu:" ++ int_to_string (pos 3)
resolve_region_example =
    resolve_region two_nodes 8192 5000 1 (pos 3) refl (omega arith) (omega arith) (inr refl)

-- The kernel answers node 1 for every page.
abbrev all_on_one : List ℕ → Option (List ℤ)
all_on_one pages = some (map (λ p. pos 1) pages)

length-ones : (pages : List ℕ) → length (map (λ (p : ℕ). pos 1) pages) ≡ length pages
length-ones [] = refl
length-ones (p ∷ ps) = omega (arith, length-ones ps)

all_on_one-length :
    (pages : List ℕ) (statuses : List ℤ)
    → all_on_one pages ≡ some statuses
    → length statuses ≡ length pages
all_on_one-length pages statuses e =
    let q : map (λ (p : ℕ). pos 1) pages ≡ statuses = cc in
    let r : length (map (λ (p : ℕ). pos 1) pages) ≡ length statuses = ap length q in
    omega (arith, length-ones pages)

get_memory_location-Tiles_example :
    (es : List MemoryLocationEntry) × (host_locations (codes "cuda:") elsewhere all_on_one 5000 9000
      ≡ some es)
    × Tiles 5000 es 14000
get_memory_location-Tiles_example =
    get_memory_location-Tiles (codes "cuda:") elsewhere all_on_one 5000 9000 all_on_one-length
      (omega arith) (omega arith)

get_memory_location-page_example :
    (es : List MemoryLocationEntry) × (host_locations (codes "cuda:") elsewhere all_on_one 5000 9000
      ≡ some es)
    × (location_at es 9000 ≡ some (gen_cpu_node_name (pos 1)))
unfolding page_addresses page_count align_page
get_memory_location-page_example =
    get_memory_location-page (codes "cuda:") elsewhere all_on_one 5000 9000 9000 1 (pos 1)
      (pos 1 ∷ pos 1 ∷ pos 1 ∷ []) refl refl (omega arith) (omega arith) (omega arith) (omega arith)
