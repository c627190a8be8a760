-- ===== src/Segments/Held.antt =====
-- What the transfer engine holds for the segments of a client, over any calls and firings of the
-- timer in client_service.cpp.
use mooncake_maca_spdk_dmabu.Prelude.{
  not, ℕ, ◌+◌, ◌≤◌, ◌<◌, ◌^◌, Bool, true, false, ◌&&◌, ◌||◌, ◌==◌, leb, some, List, [], ◌∷◌, ◌≡◌,
  subst, arith, if◌then◌else◌, if_keeps, option_keeps, Text, total, All, Pairwise, Bool-cases, inl,
  inr,
}
use mooncake_maca_spdk_dmabu.Segments.{
  Segment, Registered, Client, Services, UnregisterAnswer, unregistered, not_registered,
  unregister_failed, segment_overlaps, overlaps_any, assign_segment, find_segment, erase_segment,
  emplace_segment, forget, after_unregister, mount_segment_and_get_id, find_range, unmount_segment,
  unmount_segment_by_id,
}
use mooncake_maca_spdk_dmabu.Segments.Timer.{StatusAnswer, on_graceful_unmount_timer}

-- A call of the client, or a firing of the timer.
pub data SegmentCall : Type 0 where
  mount : ℕ → ℕ → ℕ → Text → Text → SegmentCall
  unmount : ℕ → ℕ → SegmentCall
  unmount_by_id : ℕ → ℕ → Bool → SegmentCall
  timer_fires : ℕ → ℕ → StatusAnswer → SegmentCall

module _ (s : Services) where
  unfoldable pub serve_segment : Client → SegmentCall → Client
  unfolding mount_segment_and_get_id unmount_segment unmount_segment_by_id on_graceful_unmount_timer
  serve_segment c (mount uuid buffer size protocol location) =
      (mount_segment_and_get_id s c uuid buffer size protocol location).0
  serve_segment c (unmount buffer size) = (unmount_segment s c buffer size).0
  serve_segment c (unmount_by_id id grace has_callback) =
      (unmount_segment_by_id s c id grace has_callback).0
  serve_segment c (timer_fires id retry_left answer) =
      (on_graceful_unmount_timer s c id retry_left answer).0

  unfoldable pub serve_segments : Client → List SegmentCall → Client
  unfolding serve_segment
  serve_segments c [] = c
  serve_segments c (x ∷ xs) = serve_segments (serve_segment c x) xs

abbrev pub no_segments : Client
no_segments = record {
  mounted_segments = [];
  gracefully_unmounting_segments = [];
  cleanup_callbacks = [];
  engine = [];
  called = [];
}

abbrev pub based_at : ℕ → Segment → ℕ
based_at b seg = if seg.base == b then 1 else 0

abbrev pub held_at : ℕ → Registered → ℕ
held_at b r = if r.addr == b then 1 else 0

-- How many segments of a client start at an address, mounted or unmounting, and how many ranges
-- of the engine do.
abbrev pub segments_at : ℕ → Client → ℕ
segments_at b c =
    total (based_at b) c.mounted_segments + total (based_at b) c.gracefully_unmounting_segments

abbrev pub ranges_at : ℕ → List Registered → ℕ
ranges_at b = total (held_at b)

-- Two ranges share no address.
abbrev pub range_apart : Registered → Registered → Bool
range_apart a b = leb (a.addr + a.length) b.addr || leb (b.addr + b.length) a.addr

-- The engine registers no range that starts at the address of one that it has, or shares an address
-- with one.
abbrev pub Refuses : Services → Type 0
Refuses s =
    (engine : List Registered) (addr length : ℕ) (location : Text)
    → s.register_local_memory engine addr length location ≡ true
    → (ranges_at addr engine ≡ 0)
      × All (λ r. range_apart (record { addr = addr; length = length }) r ≡ true) engine

-- Two segments have other identifiers and share no address.
abbrev pub segment_apart : Segment → Segment → Bool
segment_apart a b =
    not (a.id == b.id) && (leb (a.base + a.size) b.base || leb (b.base + b.size) a.base)

abbrev pub IsPlaced : Segment → Type 0
IsPlaced a = (0 < a.size) × (a.base + a.size < 2 ^ 64)

-- Mounted segments do not overlap, and neither do the ranges of the engine. At every address at most
-- one range starts, and one does if a segment starts there.
pub record IsHeld (c : Client) : Type 0 where
  pub apart : Pairwise segment_apart c.mounted_segments
  pub placed : All IsPlaced c.mounted_segments
  pub ranges : Pairwise range_apart c.engine
  pub held : (b : ℕ) → (segments_at b c ≤ ranges_at b c.engine) × (ranges_at b c.engine ≤ 1)

pub assign-le :
    (b : ℕ) (seg : Segment) (segs : List Segment)
    → total (based_at b) (assign_segment seg segs) ≤ based_at b seg + total (based_at b) segs
unfolding assign_segment
assign-le b seg [] = omega arith
assign-le b seg (x ∷ xs) = ground (arith, assign-le b seg xs)

pub erase-total :
    (b id : ℕ) (segs : List Segment) (seg : Segment)
    → find_segment id segs ≡ some seg
    → total (based_at b) (erase_segment id segs) + based_at b seg ≡ total (based_at b) segs
unfolding find_segment erase_segment
erase-total b id [] seg h = absurd (cc h)
erase-total b id (x ∷ xs) seg h = ground (arith, erase-total b id xs seg)

pub emplace-le :
    (b : ℕ) (seg : Segment) (segs : List Segment)
    → total (based_at b) (emplace_segment seg segs) ≤ based_at b seg + total (based_at b) segs
unfolding emplace_segment
emplace-le b seg segs =
    option_keeps (λ z. total (based_at b) z ≤ based_at b seg + total (based_at b) segs)
      (find_segment seg.id segs) _ _ (omega arith) (λ x q. omega arith)

forget-total :
    (b addr : ℕ) (engine : List Registered)
    → (ranges_at b (forget addr engine) ≤ ranges_at b engine)
      × (ranges_at b engine ≤ ranges_at b (forget addr engine) + (if addr == b then 1 else 0))
unfolding forget
forget-total b addr [] = (omega arith, omega arith)
forget-total b addr (x ∷ xs) = ground (arith, forget-total b addr xs)

forget-All {κ} :
    (P : Registered → Type κ) (addr : ℕ) (engine : List Registered)
    → All P engine
    → All P (forget addr engine)
unfolding forget
forget-All P addr [] a = tt
forget-All P addr (x ∷ xs) (a, rest) =
    if_keeps (All P) (x.addr == addr) _ _ rest (a, forget-All P addr xs rest)

forget-Pairwise :
    (addr : ℕ) (engine : List Registered)
    → Pairwise range_apart engine
    → Pairwise range_apart (forget addr engine)
unfolding forget
forget-Pairwise addr [] p = tt
forget-Pairwise addr (x ∷ xs) (a, p) =
    if_keeps (Pairwise range_apart) (x.addr == addr) _ _ p
      (forget-All (λ y. range_apart x y ≡ true) addr xs a, forget-Pairwise addr xs p)

pub after-Pairwise :
    (addr : ℕ) (a : UnregisterAnswer) (engine : List Registered)
    → Pairwise range_apart engine
    → Pairwise range_apart (after_unregister a addr engine)
unfolding after_unregister
after-Pairwise addr unregistered engine p = forget-Pairwise addr engine p
after-Pairwise addr not_registered engine p = p
after-Pairwise addr unregister_failed engine p = p

-- After an answer of the engine at most the range at the address is gone.
pub after-total :
    (b addr : ℕ) (a : UnregisterAnswer) (engine : List Registered)
    → (ranges_at b (after_unregister a addr engine) ≤ ranges_at b engine)
      × (ranges_at b engine
          ≤ ranges_at b (after_unregister a addr engine) + (if addr == b then 1 else 0))
unfolding after_unregister
after-total b addr unregistered engine = forget-total b addr engine
after-total b addr not_registered engine = (omega arith, omega arith)
after-total b addr unregister_failed engine = (omega arith, omega arith)

-- The mounted segments, as one is added or erased.
Has-after :
    (seg : Segment) (segs : List Segment) (size buffer : ℕ)
    → find_range buffer size segs ≡ some seg
    → (x : Segment) → All (λ y. segment_apart x y ≡ true) segs
    → segment_apart x seg ≡ true
unfolding find_range
Has-after seg [] size buffer h x a = absurd (cc h)
Has-after seg (y ∷ ys) size buffer h x (a, rest) =
    elim (Bool-cases (y.base == buffer && y.size == size)) [
      | inl e ↦ let same : y ≡ seg = ground arith in subst (λ z. segment_apart x z ≡ true) same a
      | inr e ↦ Has-after seg ys size buffer (ground arith) x rest
    ]

-- The segment that is found by its range is the one that its identifier finds.
pub find_range-find :
    (buffer size : ℕ) (segs : List Segment) (seg : Segment)
    → Pairwise segment_apart segs
    → find_range buffer size segs ≡ some seg
    → find_segment seg.id segs ≡ some seg
unfolding find_range find_segment
find_range-find buffer size [] seg p h = absurd (cc h)
find_range-find buffer size (x ∷ xs) seg (a, p) h =
    elim (Bool-cases (x.base == buffer && x.size == size)) [
      | inl e ↦ ground arith
      | inr e ↦
          let rest : find_range buffer size xs ≡ some seg = ground arith in
          ground
            (arith, find_range-find buffer size xs seg p, Has-after seg xs size buffer rest x a)
    ]

pub All-erase {κ} :
    (P : Segment → Type κ) (id : ℕ) (segs : List Segment)
    → All P segs
    → All P (erase_segment id segs)
unfolding erase_segment
All-erase P id [] a = tt
All-erase P id (x ∷ xs) (a, rest) =
    if_keeps (All P) (x.id == id) _ _ rest (a, All-erase P id xs rest)

pub Pairwise-erase :
    (id : ℕ) (segs : List Segment)
    → Pairwise segment_apart segs
    → Pairwise segment_apart (erase_segment id segs)
unfolding erase_segment
Pairwise-erase id [] p = tt
Pairwise-erase id (x ∷ xs) (a, p) =
    if_keeps (Pairwise segment_apart) (x.id == id) _ _ p
      (All-erase (λ y. segment_apart x y ≡ true) id xs a, Pairwise-erase id xs p)

pub All-assign {κ} :
    (P : Segment → Type κ) (seg : Segment) (segs : List Segment)
    → P seg
    → All P segs
    → All P (assign_segment seg segs)
unfolding assign_segment
All-assign P seg [] p a = (p, tt)
All-assign P seg (x ∷ xs) p (a, rest) =
    if_keeps (All P) (x.id == seg.id) _ _ (p, rest) (a, All-assign P seg xs p rest)

abbrev disjoint : Segment → Segment → Bool
disjoint a b = leb (a.base + a.size) b.base || leb (b.base + b.size) a.base

replaced :
    (seg x : Segment) (xs : List Segment)
    → (x.id == seg.id) ≡ true
    → All (λ y. segment_apart x y ≡ true) xs
    → All (λ y. disjoint y seg ≡ true) xs
    → All (λ y. segment_apart seg y ≡ true) xs
replaced seg x [] e a d = tt
replaced seg x (y ∷ ys) e (a, rest) (d, ds) = (ground arith, replaced seg x ys e rest ds)

pub Pairwise-assign :
    (seg : Segment) (segs : List Segment)
    → Pairwise segment_apart segs
    → All (λ y. disjoint y seg ≡ true) segs
    → Pairwise segment_apart (assign_segment seg segs)
unfolding assign_segment
Pairwise-assign seg [] p d = (tt, tt)
Pairwise-assign seg (x ∷ xs) (a, p) (d, ds) = elim (Bool-cases (x.id == seg.id)) [
  | inl e ↦ rw e (replaced seg x xs e a ds, p)
  | inr e ↦ rw e (
    All-assign (λ y. segment_apart x y ≡ true) seg xs (ground arith) a,
    Pairwise-assign seg xs p ds,
  )
]

-- The check of a mount finds every overlap.
pub overlaps_any-disjoint :
    (segs : List Segment) (seg : Segment)
    → overlaps_any segs seg.base seg.size ≡ false
    → IsPlaced seg
    → All IsPlaced segs
    → All (λ y. disjoint y seg ≡ true) segs
unfolding overlaps_any segment_overlaps
overlaps_any-disjoint [] seg h p a = tt
overlaps_any-disjoint (x ∷ xs) seg h p (a, rest) =
    (ground arith, overlaps_any-disjoint xs seg (ground arith) p rest)
