-- ===== src/Rdma/Select.antt =====
-- `RdmaTransport::selectDevice` of
-- mooncake-transfer-engine/src/transport/rdma_transport/rdma_transport.cpp. The topology's own
-- choice among its devices is the parameter `Topology`; a negative device number is `none`.
pub mod Range
use mooncake_maca_spdk_dmabu.Prelude.{
  ℕ, ◌+◌, ◌-◌, Bool, true, false, ◌||◌, Option, none, some, List, [], ◌∷◌, ltb, if◌then◌else◌, Text,
  is_empty,
}
use mooncake_maca_spdk_dmabu.Location.{
  SegmentsLocationInfo, wildcard_location, parse_segments_location, resolve_segments_location,
}

pub record BufferDesc : Type 0 where
  pub name : Text
  pub addr : ℕ
  pub length : ℕ
  pub lkey : List ℕ
  pub rkey : List ℕ

-- The two overloads of `Topology::selectDevice`.
pub record Topology : Type 0 where
  pub select : Text → ℕ → Option ℕ
  pub select_hinted : Text → Text → ℕ → Option ℕ

pub record SegmentDesc : Type 0 where
  pub buffers : List BufferDesc
  pub topology : Topology

-- The range `[offset, offset + length)` is one that the loop skips this buffer for.
unfoldable pub outside : BufferDesc → ℕ → ℕ → Bool
outside b offset length =
    ltb offset b.addr || ltb b.length length || ltb (b.length - length) (offset - b.addr)

-- `seg_info` before it is filled in.
abbrev no_info : SegmentsLocationInfo
no_info = record { page_size = 0; numa_nodes = [] }

unfoldable pub resolved_location : BufferDesc → ℕ → Text
resolved_location b offset =
    let (parsed, info) = parse_segments_location b.name no_info in
    if parsed then resolve_segments_location info b.length (offset - b.addr) else b.name

unfoldable pub choose : Topology → Text → Text → ℕ → Option ℕ
choose t location hint retry_count =
    if is_empty hint
    then t.select location retry_count
    else t.select_hinted location hint retry_count

-- The device for a buffer: by its location first, then by the wildcard.
unfoldable pub buffer_device : Topology → BufferDesc → ℕ → Text → ℕ → Option ℕ
buffer_device t b offset hint retry_count =
    elim (choose t (resolved_location b offset) hint retry_count) [
      | none ↦ choose t wildcard_location hint retry_count
      | some device_id ↦ some device_id
    ]

-- The loop over the buffers from number `buffer_id` on; `none` is ERR_ADDRESS_NOT_REGISTERED.
unfoldable pub select_from : Topology → ℕ → List BufferDesc → ℕ → ℕ → Text → ℕ → Option (ℕ × ℕ)
select_from t buffer_id [] offset length hint retry_count = none
select_from t buffer_id (b ∷ bs) offset length hint retry_count =
    let rest = select_from t (buffer_id + 1) bs offset length hint retry_count in
    if outside b offset length then rest else elim (buffer_device t b offset hint retry_count) [
      | none ↦ rest
      | some device_id ↦ some (buffer_id, device_id)
    ]

-- A null descriptor is `none`.
unfoldable pub select_device : Option SegmentDesc → ℕ → ℕ → Text → ℕ → Option (ℕ × ℕ)
select_device none offset length hint retry_count = none
select_device (some desc) offset length hint retry_count =
    select_from desc.topology 0 desc.buffers offset length hint retry_count
