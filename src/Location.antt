-- ===== src/Location.antt =====
-- mooncake-transfer-engine/src/memory_location.cpp: where the pages of a buffer lie, and the
-- "segments:" names of buffers that are spread over NUMA nodes.
pub mod RoundTrip
pub mod Regions
pub mod Pages
pub mod Tests
use mooncake_maca_spdk_dmabu.Prelude.{
  ℕ, zero, suc, ◌+◌, ◌-◌, ◌*◌, ◌/◌, ◌%◌, ◌^◌, Bool, true, false, not, Option, none, some, List, [],
  ◌∷◌, ◌++◌, Text, ltb, leb, ◌==◌, if◌then◌else◌, codes, ℤ, pos, negsuc, is_nonneg, int_eq, length,
  get_elem?, is_empty,
}
use mooncake_maca_spdk_dmabu.Decimal.{to_string, int_to_string, stoull, stoi}

abbrev pub pagesize : ℕ
pagesize = 4096

abbrev pub wildcard_location : Text
wildcard_location = codes "*"

abbrev pub segments_location_prefix : Text
segments_location_prefix = codes "segments:"

pub record MemoryLocationEntry : Type 0 where
  pub start : ℕ
  pub len : ℕ
  pub location : Text

pub record SegmentsLocationInfo : Type 0 where
  pub page_size : ℕ
  pub numa_nodes : List ℤ

-- `address & ~(pagesize - 1)`: the low twelve bits are cleared.
unfoldable pub align_page : ℕ → ℕ
align_page address = address / pagesize * pagesize

unfoldable pub gen_cpu_node_name : ℤ → Text
gen_cpu_node_name node =
    if is_nonneg node then codes "cpu:" ++ int_to_string node else wildcard_location

-- `GPU_PREFIX` comes from a header outside the repository.
unfoldable pub gen_gpu_node_name : Text → ℤ → Text
gen_gpu_node_name gpu_prefix node =
    if is_nonneg node then gpu_prefix ++ int_to_string node else wildcard_location

-- The pointer attributes that the GPU runtime answers.
pub data Probe : Type 0 where
  failed : Probe
  on_device : ℤ → Probe
  elsewhere : Probe

-- The number of pages, computed in 64 bits.
unfoldable pub page_count : ℕ → ℕ → Bool → ℕ
page_count start len only_first_page =
    if only_first_page
    then 1
    else (start - align_page start + len + pagesize - 1) % 2 ^ 64 / pagesize

-- `aligned_start + i * pagesize` for `i` from `i` on, `n` times.
unfoldable pub page_addresses : ℕ → ℕ → ℕ → List ℕ
page_addresses aligned zero i = []
page_addresses aligned (suc n) i =
    (aligned + i * pagesize) % 2 ^ 64 ∷ page_addresses aligned n (i + 1)

-- The loop over the statuses from the second on: `base` is the aligned start, `i` the page,
-- `start_addr` and `node` the run under way; `end` is `start + len`.
unfoldable pub runs : ℕ → ℕ → ℕ → ℕ → ℤ → List ℤ → List MemoryLocationEntry
runs base end i start_addr node [] =
    record { start = start_addr; len = end - start_addr; location = gen_cpu_node_name node } ∷ []
runs base end i start_addr node (status ∷ rest) =
    let here = base + i * pagesize in
    let go_on = runs base end (i + 1) start_addr node rest in
    let cut = runs base end (i + 1) here status rest in
    if int_eq status node
    then go_on
    else (record { start = start_addr; len = here - start_addr; location = gen_cpu_node_name node }
        ∷ cut)

abbrev whole : ℕ → ℕ → Text → List MemoryLocationEntry
whole start len location = record { start = start; len = len; location = location } ∷ []

-- The part behind the GPU probe. `numa_move_pages` answers one status for each page, or fails.
-- With no page the source reads `status[0]` past the end of its array: the model has `none`.
unfoldable pub cpu_locations :
    (List ℕ → Option (List ℤ)) → ℕ → ℕ → Bool → Option (List MemoryLocationEntry)
cpu_locations numa_move_pages start len only_first_page =
    elim (numa_move_pages
      (page_addresses (align_page start) (page_count start len only_first_page) 0)) [
        | none ↦ some (whole start len wildcard_location)
        | some [] ↦ none
        | some (node ∷ rest) ↦ some (runs (align_page start) (start + len) 1 start node rest)
      ]

-- `getMemoryLocation`, as it is compiled with a GPU runtime.
unfoldable pub get_memory_location :
    Text
    → Probe
    → (List ℕ → Option (List ℤ))
    → ℕ
    → ℕ
    → Bool
    → Bool
    → Option (List MemoryLocationEntry)
get_memory_location gpu_prefix probe numa_move_pages start len only_first_page probe_gpu =
    if probe_gpu
    then elim probe [
      | failed ↦ some (whole start len wildcard_location)
      | on_device device ↦ some (whole start len (gen_gpu_node_name gpu_prefix device))
      | elsewhere ↦ cpu_locations numa_move_pages start len only_first_page
    ]
    else cpu_locations numa_move_pages start len only_first_page

-- The loop of `buildSegmentsLocation`; the flag is `i > 0`.
unfoldable pub append_nodes : List ℤ → Bool → Text → Text
append_nodes [] later result = result
append_nodes (z ∷ zs) later result =
    append_nodes zs true ((if later then result ++ codes "," else result) ++ int_to_string z)

unfoldable pub build_segments_location : ℕ → List ℤ → Text
build_segments_location page_size numa_nodes =
    append_nodes numa_nodes false ((segments_location_prefix ++ to_string page_size) ++ codes ":")

-- What stands behind a prefix, if the text has it.
unfoldable pub strip_prefix : Text → Text → Option Text
strip_prefix [] s = some s
strip_prefix (p ∷ ps) [] = none
strip_prefix (p ∷ ps) (c ∷ s) = let rest = strip_prefix ps s in if p == c then rest else none

-- The texts before and behind the first `c`.
unfoldable pub split_at : ℕ → Text → Option (Text × Text)
split_at c [] = none
split_at c (d ∷ s) =
    let rest = split_at c s in
    if d == c then some ([], s) else elim rest [ none ↦ none | some (a, b) ↦ some (d ∷ a, b) ]

-- The nodes read so far, and whether a conversion threw.
pub data Scan : Type 0 where
  done : List ℤ → Scan
  threw : List ℤ → Scan

-- One token; an empty one is passed over.
unfoldable pub push_node : Text → List ℤ → Scan
push_node [] nodes = done nodes
push_node (c ∷ s) nodes = elim (stoi (c ∷ s)) [
  | none ↦ threw nodes
  | some z ↦ done (nodes ++ z ∷ [])
]

-- The loop over the tokens between commas; `cur` is the token under way.
unfoldable pub scan_nodes : Text → Text → List ℤ → Scan
scan_nodes [] cur nodes = push_node cur nodes
scan_nodes (c ∷ s) cur nodes = elim (c == b',') [
  | false ↦ scan_nodes s (cur ++ c ∷ []) nodes
  | true ↦ elim (push_node cur nodes) [ threw ns ↦ threw ns | done ns ↦ scan_nodes s [] ns ]
]

abbrev parsed : ℕ → Scan → Bool × SegmentsLocationInfo
parsed page (threw nodes) = (false, record { page_size = page; numa_nodes = nodes })
parsed page (done nodes) = (not (is_empty nodes), record { page_size = page; numa_nodes = nodes })

-- The result and what `info` holds afterwards.
unfoldable pub parse_segments_location : Text → SegmentsLocationInfo → Bool × SegmentsLocationInfo
parse_segments_location name info = elim (strip_prefix segments_location_prefix name) [
  | none ↦ (false, info)
  | some body ↦ elim (split_at b':' body) [
    | none ↦ (false, info)
    | some (page, nodes) ↦ elim (stoull page) [
      | none ↦ (false, info)
      | some size ↦ parsed size (scan_nodes nodes [] [])
    ]
  ]
]

abbrev node_name : Option ℤ → Text
node_name none = []
node_name (some z) = codes "cpu:" ++ int_to_string z

-- The index of the region, held at the last node for the bytes behind the equal regions.
unfoldable pub region_index : ℕ → ℕ → ℕ → ℕ
region_index n region_size offset =
    if leb n (offset / region_size) then n - 1 else offset / region_size

unfoldable pub resolve_segments_location : SegmentsLocationInfo → ℕ → ℕ → Text
resolve_segments_location info buffer_length offset =
    let n = length info.numa_nodes in
    if n == 0
    then wildcard_location
    else if buffer_length / n == 0
    then wildcard_location
    else node_name (get_elem? info.numa_nodes (region_index n (buffer_length / n) offset))
