-- ===== src/Segments.antt =====
-- The segments of a client: `CheckRegisterMemoryParams`, `MountSegment`, `UnmountSegment`,
-- `UnmountSegmentById` and the timer of a graceful unmount, `Client::*` of
-- mooncake-store/src/client_service.cpp. The master and the transfer engine are parameters.
pub mod Local
pub mod Held
pub mod Kept
pub mod Timer
pub mod Mounting
mod Tests
use mooncake_maca_spdk_dmabu.Prelude.{
  ℕ, ◌+◌, ◌%◌, ◌^◌, Bool, true, false, ◌&&◌, ◌==◌, ltb, min, max, Option, none, some, List, [], ◌∷◌,
  ◌++◌, if◌then◌else◌, Text,
}
use mooncake_maca_spdk_dmabu.Put.Types.{ErrorCode, invalid_params, internal_error}

pub record Segment : Type 0 where
  pub id : ℕ
  pub name : Text
  pub base : ℕ
  pub size : ℕ
  pub protocol : Text
  pub te_endpoint : Text

-- A range that the transfer engine has registered.
pub record Registered : Type 0 where
  pub addr : ℕ
  pub length : ℕ

-- The maps of segments are lists of their entries; a callback is known by the segment it is for.
-- `engine` is what the transfer engine has registered and `called` the callbacks that have run.
pub record Client : Type 0 where
  pub mounted_segments : List Segment
  pub gracefully_unmounting_segments : List Segment
  pub cleanup_callbacks : List ℕ
  pub engine : List Registered
  pub called : List ℕ

pub data Answer (A : Type 0) : Type 0 where
  ok : A → Answer A
  err : ErrorCode → Answer A

-- The result of `unregisterLocalMemory`: 0, ERR_ADDRESS_NOT_REGISTERED, or another.
pub data UnregisterAnswer : Type 0 where
  unregistered not_registered unregister_failed : UnregisterAnswer

-- The calls to the engine, which it answers by what it has registered, and to the master. `none`
-- is success at the master.
pub record Services : Type 0 where
  pub max_mr_size : ℕ
  pub register_local_memory : List Registered → ℕ → ℕ → Text → Bool
  pub unregister_local_memory : List Registered → ℕ → UnregisterAnswer
  pub mount_segment : Segment → Option ErrorCode
  pub unmount_segment : ℕ → Option ErrorCode
  pub graceful_unmount_segment : ℕ → ℕ → Option ErrorCode
  -- the host name, and whether metadata goes by handshake, with the engine's address
  pub local_hostname : Text
  pub is_p2p_handshake : Bool
  pub local_ip_and_port : Text

unfoldable pub check_register_memory_params : Services → ℕ → ℕ → Option ErrorCode
check_register_memory_params s addr length =
    if addr == 0
    then some invalid_params
    else if length == 0
    then some invalid_params
    else if ltb s.max_mr_size length
    then some invalid_params
    else none

-- `std::max(l1, l2) < std::min(r1, r2)`
unfoldable pub segment_overlaps : Segment → ℕ → ℕ → Bool
segment_overlaps seg buffer size =
    let r1 = (seg.size + seg.base) % 2 ^ 64 in
    let r2 = (size + buffer) % 2 ^ 64 in ltb (max seg.base buffer) (min r1 r2)

unfoldable pub overlaps_any : List Segment → ℕ → ℕ → Bool
unfolding segment_overlaps
overlaps_any [] buffer size = false
overlaps_any (seg ∷ segs) buffer size =
    let rest = overlaps_any segs buffer size in
    if segment_overlaps seg buffer size then true else rest

-- `segments[id] = seg`
unfoldable pub assign_segment : Segment → List Segment → List Segment
assign_segment seg [] = seg ∷ []
assign_segment seg (x ∷ xs) =
    let rest = x ∷ assign_segment seg xs in if x.id == seg.id then seg ∷ xs else rest

unfoldable pub find_segment : ℕ → List Segment → Option Segment
find_segment id [] = none
find_segment id (x ∷ xs) = let rest = find_segment id xs in if x.id == id then some x else rest

unfoldable pub erase_segment : ℕ → List Segment → List Segment
erase_segment id [] = []
erase_segment id (x ∷ xs) = let rest = x ∷ erase_segment id xs in if x.id == id then xs else rest

-- `segments.emplace(id, seg)`: an entry that is there stays.
unfoldable pub emplace_segment : Segment → List Segment → List Segment
unfolding find_segment
emplace_segment seg segs = elim (find_segment seg.id segs) [ some x ↦ segs | none ↦ seg ∷ segs ]

-- `callbacks[id] = callback`
unfoldable pub add_callback : ℕ → List ℕ → List ℕ
add_callback id [] = id ∷ []
add_callback id (x ∷ xs) = let rest = x ∷ add_callback id xs in if x == id then x ∷ xs else rest

-- The engine forgets the range at the address.
unfoldable pub forget : ℕ → List Registered → List Registered
forget addr [] = []
forget addr (x ∷ xs) = let rest = x ∷ forget addr xs in if x.addr == addr then xs else rest

-- What the engine has registered after it has answered.
unfoldable pub after_unregister : UnregisterAnswer → ℕ → List Registered → List Registered
unfolding forget
after_unregister unregistered addr engine = forget addr engine
after_unregister not_registered addr engine = engine
after_unregister unregister_failed addr engine = engine

-- The first segment with this base and size.
unfoldable pub find_range : ℕ → ℕ → List Segment → Option Segment
find_range buffer size [] = none
find_range buffer size (x ∷ xs) =
    let rest = find_range buffer size xs in
    if x.base == buffer && x.size == size then some x else rest

module _ (s : Services) where
  -- `uuid` is what `generate_uuid` answers.
  unfoldable pub new_segment : ℕ → ℕ → ℕ → Text → Segment
  new_segment uuid buffer size protocol = record {
    id = uuid;
    name = s.local_hostname;
    base = buffer;
    size = size;
    protocol = protocol;
    te_endpoint = if s.is_p2p_handshake then s.local_ip_and_port else s.local_hostname;
  }

  -- Behind the registration with the engine.
  unfoldable pub mount_registered : Client → Segment → Client × Answer ℕ
  unfolding assign_segment
  mount_registered c seg = elim (s.mount_segment seg) [
    | some e ↦ (c, err e)
    | none ↦ (record c { mounted_segments = assign_segment seg c.mounted_segments }, ok seg.id)
  ]

  unfoldable pub mount_segment_and_get_id : Client → ℕ → ℕ → ℕ → Text → Text → Client × Answer ℕ
  unfolding check_register_memory_params overlaps_any new_segment mount_registered
  mount_segment_and_get_id c uuid buffer size protocol location =
      elim (check_register_memory_params s buffer size) [
        | some e ↦ (c, err e)
        | none ↦
            if overlaps_any c.mounted_segments buffer size
            then (c, err invalid_params)
            else if s.register_local_memory c.engine buffer size location
            then mount_registered
                (record c { engine = record { addr = buffer; length = size } ∷ c.engine })
                (new_segment uuid buffer size protocol)
            else (c, err invalid_params)
      ]

  -- The engine's answer: an address that is not registered is no error.
  unfoldable pub finish_unmount : Client → Segment → UnregisterAnswer → Client × Option ErrorCode
  unfolding erase_segment after_unregister
  finish_unmount c seg unregister_failed = (c, some internal_error)
  finish_unmount c seg a = (
    record c {
      engine = after_unregister a seg.base c.engine;
      mounted_segments = erase_segment seg.id c.mounted_segments;
    },
    none,
  )

  unfoldable pub unmount_segment_impl : Client → Segment → Client × Option ErrorCode
  unfolding finish_unmount
  unmount_segment_impl c seg = elim (s.unmount_segment seg.id) [
    | some e ↦ (c, some e)
    | none ↦ finish_unmount c seg (s.unregister_local_memory c.engine seg.base)
  ]

  unfoldable pub unmount_segment : Client → ℕ → ℕ → Client × Option ErrorCode
  unfolding find_range unmount_segment_impl
  unmount_segment c buffer size = elim (find_range buffer size c.mounted_segments) [
    | none ↦ (c, some invalid_params)
    | some seg ↦ unmount_segment_impl c seg
  ]

  unfoldable pub unmount_segment_by_id : Client → ℕ → ℕ → Bool → Client × Option ErrorCode
  unfolding find_segment unmount_segment_impl emplace_segment erase_segment add_callback
  unmount_segment_by_id c id grace_period_ms has_callback =
      elim (find_segment id c.mounted_segments) [
        | none ↦ (c, some invalid_params)
        | some seg ↦
            if grace_period_ms == 0
            then unmount_segment_impl c seg
            else elim (s.graceful_unmount_segment id grace_period_ms) [
              | some e ↦ (c, some e)
              | none ↦ (
                record c {
                  gracefully_unmounting_segments =
                      emplace_segment seg c.gracefully_unmounting_segments;
                  cleanup_callbacks =
                      if has_callback
                      then add_callback id c.cleanup_callbacks
                      else c.cleanup_callbacks;
                  mounted_segments = erase_segment id c.mounted_segments;
                },
                none,
              )
            ]
      ]
