-- ===== src/Segments/Kept.antt =====
-- Every call of a client and every firing of the timer keeps its segments held.
use mooncake_maca_spdk_dmabu.Prelude.{
  ℕ, ◌+◌, ◌≤◌, ◌<◌, ◌^◌, Bool, true, false, ◌==◌, Option, none, some, List, [], ◌∷◌, ◌≡◌, refl, sym,
  subst, arith, if_keeps, option_keeps, if_splits, option_splits, Text, total, All, Bool-cases, inl,
  inr, ==→eq,
}
use mooncake_maca_spdk_dmabu.Put.Types.{ErrorCode}
use mooncake_maca_spdk_dmabu.Segments.{
  Segment, Client, Answer, Services, UnregisterAnswer, unregistered, not_registered,
  unregister_failed, check_register_memory_params, overlaps_any, assign_segment, find_segment,
  erase_segment, after_unregister, new_segment, mount_registered, mount_segment_and_get_id,
  finish_unmount, unmount_segment_impl, find_range, unmount_segment, unmount_segment_by_id,
}
use mooncake_maca_spdk_dmabu.Segments.Timer.{
  StatusAnswer, is_removed, forget_segment, run_callback, clean_up, on_graceful_unmount_timer,
  has_callback,
}
use mooncake_maca_spdk_dmabu.Segments.Held.{
  SegmentCall, mount, unmount, unmount_by_id, timer_fires, serve_segment, serve_segments,
  no_segments, based_at, segments_at, ranges_at, Refuses, IsPlaced, IsHeld, assign-le, erase-total,
  emplace-le, after-total, after-Pairwise, range_apart, find_range-find, All-erase, Pairwise-erase,
  All-assign, Pairwise-assign, overlaps_any-disjoint,
}

module _ (s : Services) where
  checked_size : (addr length : ℕ) → check_register_memory_params s addr length ≡ none → 0 < length
  unfolding check_register_memory_params
  checked_size addr length h = ground arith

  mount_registered-IsHeld :
      (c : Client) (seg : Segment)
      → IsHeld c
      → IsPlaced seg
      → overlaps_any c.mounted_segments seg.base seg.size ≡ false
      → ranges_at seg.base c.engine ≡ 0
      → All (λ r. range_apart (record { addr = seg.base; length = seg.size }) r ≡ true) c.engine
      → IsHeld
          (mount_registered s
            (record c { engine = record { addr = seg.base; length = seg.size } ∷ c.engine })
            seg).0
  unfolding mount_registered
  mount_registered-IsHeld c seg h placed clear free away =
      let P : Client × Answer ℕ → Type 0 = λ z. IsHeld z.0 in
      option_keeps P (s.mount_segment seg) _ _
        (record {
          apart =
              Pairwise-assign seg c.mounted_segments h.apart
                (overlaps_any-disjoint c.mounted_segments seg clear placed h.placed);
          placed = All-assign IsPlaced seg c.mounted_segments placed h.placed;
          ranges = (away, h.ranges);
          held = λ b. (now b, alone b);
        })
        (λ e q. record {
          apart = h.apart;
          placed = h.placed;
          ranges = (away, h.ranges);
          held = λ b. (more b, alone b);
        })
    where
      one_more :
          (b : ℕ)
          → ranges_at b (record { addr = seg.base; length = seg.size } ∷ c.engine)
            ≡ based_at b seg + ranges_at b c.engine
      one_more b = refl

      now :
          (b : ℕ)
          → total (based_at b) (assign_segment seg c.mounted_segments)
              + total (based_at b) c.gracefully_unmounting_segments
            ≤ based_at b seg + ranges_at b c.engine
      now b = omega (arith, assign-le b seg c.mounted_segments, h.held b)

      more : (b : ℕ) → segments_at b c ≤ based_at b seg + ranges_at b c.engine
      more b = omega (arith, h.held b)

      alone : (b : ℕ) → based_at b seg + ranges_at b c.engine ≤ 1
      alone b = elim (Bool-cases (seg.base == b)) [
        | inl e ↦
            let same : ranges_at b c.engine ≡ 0 =
              subst (λ z. ranges_at z c.engine ≡ 0) (==→eq seg.base b e) free in
            ground (arith, same)
        | inr e ↦ ground (arith, h.held b)
      ]

  mount-IsHeld :
      (c : Client) (uuid buffer size : ℕ) (protocol location : Text)
      → Refuses s
      → buffer + size < 2 ^ 64
      → IsHeld c
      → IsHeld (mount_segment_and_get_id s c uuid buffer size protocol location).0
  unfolding mount_segment_and_get_id new_segment
  mount-IsHeld c uuid buffer size protocol location refuses below h =
      let P : Client × Answer ℕ → Type 0 = λ z. IsHeld z.0 in
      option_splits P (check_register_memory_params s buffer size) _ _
        (λ n.
          if_splits P (overlaps_any c.mounted_segments buffer size) _ _ (λ e. h)
            λ clear.
              if_splits P (s.register_local_memory c.engine buffer size location) _ _
                (λ r.
                  mount_registered-IsHeld c (new_segment s uuid buffer size protocol) h
                    (checked_size buffer size n, below) clear
                    (refuses c.engine buffer size location r).0
                    (refuses c.engine buffer size location r).1)
                (λ e. h))
        (λ e q. h)

  -- A mounted segment is unmounted.
  unmounted :
      (c : Client) (seg : Segment) (a : UnregisterAnswer)
      → find_segment seg.id c.mounted_segments ≡ some seg
      → IsHeld c
      → IsHeld (record c {
        engine = after_unregister a seg.base c.engine;
        mounted_segments = erase_segment seg.id c.mounted_segments;
      })
  unmounted c seg a f h = record {
    apart = Pairwise-erase seg.id c.mounted_segments h.apart;
    placed = All-erase IsPlaced seg.id c.mounted_segments h.placed;
    ranges = after-Pairwise seg.base a c.engine h.ranges;
    held = λ b. (
      omega (
        arith,
        h.held b,
        erase-total b seg.id c.mounted_segments seg f,
        after-total b seg.base a c.engine,
      ),
      omega (arith, h.held b, after-total b seg.base a c.engine),
    );
  }

  finish_unmount-IsHeld :
      (c : Client) (seg : Segment) (a : UnregisterAnswer)
      → find_segment seg.id c.mounted_segments ≡ some seg
      → IsHeld c
      → IsHeld (finish_unmount s c seg a).0
  unfolding finish_unmount
  finish_unmount-IsHeld c seg unregister_failed f h = h
  finish_unmount-IsHeld c seg unregistered f h = unmounted c seg unregistered f h
  finish_unmount-IsHeld c seg not_registered f h = unmounted c seg not_registered f h

  unmount_segment_impl-IsHeld :
      (c : Client) (seg : Segment)
      → find_segment seg.id c.mounted_segments ≡ some seg
      → IsHeld c
      → IsHeld (unmount_segment_impl s c seg).0
  unfolding unmount_segment_impl
  unmount_segment_impl-IsHeld c seg f h =
      let P : Client × Option ErrorCode → Type 0 = λ z. IsHeld z.0 in
      option_keeps P (s.unmount_segment seg.id) _ _
        (finish_unmount-IsHeld c seg (s.unregister_local_memory c.engine seg.base) f h) (λ e q. h)

  unmount-IsHeld :
      (c : Client) (buffer size : ℕ) → IsHeld c → IsHeld (unmount_segment s c buffer size).0
  unfolding unmount_segment
  unmount-IsHeld c buffer size h =
      let P : Client × Option ErrorCode → Type 0 = λ z. IsHeld z.0 in
      option_keeps P (find_range buffer size c.mounted_segments) _ _ h λ seg q.
        unmount_segment_impl-IsHeld c seg
          (find_range-find buffer size c.mounted_segments seg h.apart q) h

  unmount_by_id-IsHeld :
      (c : Client) (id grace : ℕ) (callback : Bool)
      → IsHeld c
      → IsHeld (unmount_segment_by_id s c id grace callback).0
  unfolding unmount_segment_by_id
  unmount_by_id-IsHeld c id grace callback h =
      let P : Client × Option ErrorCode → Type 0 = λ z. IsHeld z.0 in
      option_keeps P (find_segment id c.mounted_segments) _ _ h λ seg f.
        if_keeps P (grace == 0) _ _
          (unmount_segment_impl-IsHeld c seg (own_id id c.mounted_segments seg f) h)
          (option_keeps P (s.graceful_unmount_segment id grace) _ _
            (record {
              apart = Pairwise-erase id c.mounted_segments h.apart;
              placed = All-erase IsPlaced id c.mounted_segments h.placed;
              ranges = h.ranges;
              held = λ b. (
                omega (
                  arith,
                  h.held b,
                  erase-total b id c.mounted_segments seg f,
                  emplace-le b seg c.gracefully_unmounting_segments,
                ),
                (h.held b).1,
              );
            })
            (λ e q. h))
    where
      found_id :
          (i : ℕ) (segs : List Segment) (seg : Segment)
          → find_segment i segs ≡ some seg
          → seg.id ≡ i
      found_id i [] seg f = absurd (unfold find_segment in cc f)
      found_id i (x ∷ xs) seg f = unfold find_segment in ground (arith, found_id i xs seg)

      own_id :
          (i : ℕ) (segs : List Segment) (seg : Segment)
          → find_segment i segs ≡ some seg
          → find_segment seg.id segs ≡ some seg
      own_id i segs seg f =
          subst (λ z. find_segment z segs ≡ some seg) (sym (found_id i segs seg f)) f

  clean_up-IsHeld : (c : Client) (id : ℕ) → IsHeld c → IsHeld (clean_up s c id)
  unfolding clean_up
  clean_up-IsHeld c id h = called (forget_segment s c id) forgotten
    where
      forgotten : IsHeld (forget_segment s c id)
      forgotten =
          unfold forget_segment in
          option_keeps IsHeld (find_segment id c.gracefully_unmounting_segments) _ _ h λ seg f.
            let a = s.unregister_local_memory c.engine seg.base in
            record {
              apart = h.apart;
              placed = h.placed;
              ranges = after-Pairwise seg.base a c.engine h.ranges;
              held = λ b. (
                omega (
                  arith,
                  h.held b,
                  erase-total b id c.gracefully_unmounting_segments seg f,
                  after-total b seg.base a c.engine,
                ),
                omega (arith, h.held b, after-total b seg.base a c.engine),
              );
            }

      called : (c' : Client) → IsHeld c' → IsHeld (run_callback s c' id)
      called c' h' =
          unfold run_callback in
          if_keeps IsHeld (has_callback id c'.cleanup_callbacks) _ _
            (record { apart = h'.apart; placed = h'.placed; ranges = h'.ranges; held = h'.held }) h'

  timer-IsHeld :
      (c : Client) (id retry_left : ℕ) (answer : StatusAnswer)
      → IsHeld c
      → IsHeld (on_graceful_unmount_timer s c id retry_left answer).0
  unfolding on_graceful_unmount_timer
  timer-IsHeld c id retry_left answer h =
      let P : Client × Bool → Type 0 = λ z. IsHeld z.0 in
      option_keeps P (find_segment id c.gracefully_unmounting_segments) _ _ h
        λ seg f. if_keeps P (is_removed answer) _ _ (clean_up-IsHeld c id h) h

-- A call that mounts a segment mounts a range that ends below 2^64.
abbrev pub MountsBelow : SegmentCall → Type 0
MountsBelow (mount uuid buffer size protocol location) = buffer + size < 2 ^ 64
MountsBelow _ = Unit

module _ (s : Services) (refuses : Refuses s) where
  serve-IsHeld :
      (c : Client) (x : SegmentCall) → MountsBelow x → IsHeld c → IsHeld (serve_segment s c x)
  unfolding serve_segment
  serve-IsHeld c (mount uuid buffer size protocol location) w h =
      mount-IsHeld s c uuid buffer size protocol location refuses w h
  serve-IsHeld c (unmount buffer size) w h = unmount-IsHeld s c buffer size h
  serve-IsHeld c (unmount_by_id id grace callback) w h =
      unmount_by_id-IsHeld s c id grace callback h
  serve-IsHeld c (timer_fires id retry_left answer) w h = timer-IsHeld s c id retry_left answer h

  serve_from-IsHeld :
      (c : Client) (xs : List SegmentCall)
      → All MountsBelow xs
      → IsHeld c
      → IsHeld (serve_segments s c xs)
  unfolding serve_segments
  serve_from-IsHeld c [] w h = h
  serve_from-IsHeld c (x ∷ xs) (w, ws) h =
      serve_from-IsHeld (serve_segment s c x) xs ws (serve-IsHeld c x w h)

  -- With an engine that refuses a range that starts where one that it has does or shares an address
  -- with one, and for mounted ranges that end below 2^64: after any calls that mount and unmount
  -- segments, and any firings of the timer, the mounted segments do not overlap, the ranges of the
  -- engine do not overlap, and at every address at most one of them starts, and one does if a
  -- segment starts there, mounted or unmounting.
  pub serve_segments-IsHeld :
      (xs : List SegmentCall) → All MountsBelow xs → IsHeld (serve_segments s no_segments xs)
  serve_segments-IsHeld xs w =
      serve_from-IsHeld no_segments xs w
        (record { apart = tt; placed = tt; ranges = tt; held = λ b. (omega arith, omega arith) })
