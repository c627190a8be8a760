-- ===== src/Segments/Timer.antt =====
-- The timer of a graceful unmount: `StartGracefulUnmountTimer` and `OnGracefulUnmountTimer` of
-- mooncake-store/src/client_service.cpp, with the callbacks' retries in a row.
use mooncake_maca_spdk_dmabu.Prelude.{
  ℕ, zero, suc, ◌≤◌, Bool, true, false, ◌&&◌, ◌==◌, ltb, none, some, List, [], ◌∷◌, ◌≡◌, ap, ==→eq,
  arith, if◌then◌else◌, Bool-cases, inl, inr,
}
use mooncake_maca_spdk_dmabu.Segments.{
  Segment, Client, Services, find_segment, erase_segment, after_unregister,
}

-- What `QuerySegmentStatusById` answers: SEGMENT_NOT_FOUND, another error, UNDEFINED or another
-- status.
pub data StatusAnswer : Type 0 where
  segment_not_found query_failed undefined_status other_status : StatusAnswer

unfoldable pub is_removed : StatusAnswer → Bool
is_removed segment_not_found = true
is_removed undefined_status = true
is_removed query_failed = false
is_removed other_status = false

unfoldable pub has_callback : ℕ → List ℕ → Bool
has_callback id [] = false
has_callback id (x ∷ xs) = let rest = has_callback id xs in if x == id then true else rest

unfoldable pub erase_callback : ℕ → List ℕ → List ℕ
erase_callback id [] = []
erase_callback id (x ∷ xs) = let rest = x ∷ erase_callback id xs in if x == id then xs else rest

module _ (s : Services) where
  -- The segment is unregistered and forgotten, whatever the engine answers.
  unfoldable pub forget_segment : Client → ℕ → Client
  unfolding find_segment erase_segment after_unregister
  forget_segment c id = elim (find_segment id c.gracefully_unmounting_segments) [
    | none ↦ c
    | some seg ↦ record c {
      engine = after_unregister (s.unregister_local_memory c.engine seg.base) seg.base c.engine;
      gracefully_unmounting_segments = erase_segment id c.gracefully_unmounting_segments;
    }
  ]

  -- The callback of the segment is taken out and run.
  unfoldable pub run_callback : Client → ℕ → Client
  unfolding has_callback erase_callback
  run_callback c id =
      if has_callback id c.cleanup_callbacks
      then record c {
        cleanup_callbacks = erase_callback id c.cleanup_callbacks;
        called = id ∷ c.called;
      }
      else c

  unfoldable pub clean_up : Client → ℕ → Client
  unfolding forget_segment run_callback
  clean_up c id = run_callback (forget_segment c id) id

  -- One firing: the client, and whether it asks for a retry.
  unfoldable pub on_graceful_unmount_timer : Client → ℕ → ℕ → StatusAnswer → Client × Bool
  unfolding find_segment is_removed clean_up
  on_graceful_unmount_timer c id retry_left answer =
      elim (find_segment id c.gracefully_unmounting_segments) [
        | none ↦ (c, false)
        | some seg ↦ if is_removed answer then (clean_up c id, false) else (c, ltb 0 retry_left)
      ]

  -- The firings in a row. `answers n` is the master's answer when n retries are left, and `waits n`
  -- whether the task for it is enqueued and its delay runs out before the client stops.
  unfoldable pub run_timer : Client → ℕ → (ℕ → StatusAnswer) → (ℕ → Bool) → ℕ → Client
  unfolding on_graceful_unmount_timer
  run_timer c id answers waits zero = (on_graceful_unmount_timer c id 0 (answers 0)).0
  run_timer c id answers waits (suc n) =
      let (c', retry) = on_graceful_unmount_timer c id (suc n) (answers (suc n)) in
      let rest = run_timer c' id answers waits n in if retry && waits n then rest else c'

  unfoldable pub start_graceful_unmount_timer :
      Client → ℕ → (ℕ → StatusAnswer) → (ℕ → Bool) → Client
  unfolding run_timer
  start_graceful_unmount_timer c id answers waits =
      if waits 3 then run_timer c id answers waits 3 else c

module _ (s : Services) (c : Client) (id : ℕ) (seg : Segment) (answers : ℕ → StatusAnswer)
    (waits : ℕ → Bool) (there : find_segment id c.gracefully_unmounting_segments ≡ some seg)
    (undisturbed : (n : ℕ) → waits n ≡ true) where
  -- Undisturbed, the timer asks the master until it answers that the segment is removed.
  run_timer_cleans :
      (n k : ℕ)
      → k ≤ n
      → is_removed (answers k) ≡ true
      → run_timer s c id answers waits n ≡ clean_up s c id
  unfolding run_timer on_graceful_unmount_timer
  run_timer_cleans zero k h r =
      let same : answers k ≡ answers 0 = ap answers (omega arith) in ground arith
  run_timer_cleans (suc n) k h r = elim (Bool-cases (is_removed (answers (suc n)))) [
    | inl done ↦ ground arith
    | inr more ↦
        let rest = run_timer_cleans n k (below more) r in ground (arith, undisturbed n, rest)
  ]
    where
      below : is_removed (answers (suc n)) ≡ false → k ≤ n
      below more = elim (Bool-cases (k == suc n)) [
        | inl e ↦
            let same : answers k ≡ answers (suc n) = ap answers (==→eq k (suc n) e) in
            absurd (cc same)
        | inr e ↦ ground arith
      ]

  run_timer_keeps :
      (n : ℕ)
      → ((k : ℕ) → k ≤ n → is_removed (answers k) ≡ false)
      → run_timer s c id answers waits n ≡ c
  unfolding run_timer on_graceful_unmount_timer
  run_timer_keeps zero h = ground (arith, h 0)
  run_timer_keeps (suc n) h =
      let rest = run_timer_keeps n (λ k q. h k (omega arith)) in
      ground (arith, undisturbed n, rest, h (suc n))

  -- If the master answers at one of the four queries of an undisturbed timer that the segment is
  -- removed, then at the end, whatever the engine answers, the segment is gone and its callback,
  -- where it has one, has run once; the engine has forgotten the memory if it could unregister it,
  -- and is as before otherwise.
  pub timer_cleans :
      (k : ℕ)
      → k ≤ 3
      → is_removed (answers k) ≡ true
      → start_graceful_unmount_timer s c id answers waits ≡ record c {
        engine = after_unregister (s.unregister_local_memory c.engine seg.base) seg.base c.engine;
        gracefully_unmounting_segments = erase_segment id c.gracefully_unmounting_segments;
        cleanup_callbacks =
            if has_callback id c.cleanup_callbacks
            then erase_callback id c.cleanup_callbacks
            else c.cleanup_callbacks;
        called = if has_callback id c.cleanup_callbacks then id ∷ c.called else c.called;
      }
  unfolding start_graceful_unmount_timer
  timer_cleans k h r =
      let ran = run_timer_cleans 3 k h r in ground (arith, undisturbed 3, ran, cleaned)
    where
      cleaned : clean_up s c id ≡ record c {
        engine = after_unregister (s.unregister_local_memory c.engine seg.base) seg.base c.engine;
        gracefully_unmounting_segments = erase_segment id c.gracefully_unmounting_segments;
        cleanup_callbacks =
            if has_callback id c.cleanup_callbacks
            then erase_callback id c.cleanup_callbacks
            else c.cleanup_callbacks;
        called = if has_callback id c.cleanup_callbacks then id ∷ c.called else c.called;
      }
      cleaned = unfold clean_up forget_segment run_callback in ground arith

  -- If it answers otherwise four times, nothing changes.
  pub timer_keeps :
      ((k : ℕ) → k ≤ 3 → is_removed (answers k) ≡ false)
      → start_graceful_unmount_timer s c id answers waits ≡ c
  unfolding start_graceful_unmount_timer
  timer_keeps h = ground (arith, undisturbed 3, run_timer_keeps 3 h)
