-- ===== src/Rdma/Slicing/Cut.antt =====
-- The slices of a request are the request, cut into pieces.
use mooncake_maca_spdk_dmabu.Prelude.{
  ℕ, ◌+◌, ◌-◌, ◌%◌, ◌^◌, ◌<◌, ◌≤◌, ◌⊎◌, inl, inr, true, false, none, some, List, [], ◌∷◌, ◌++◌, ◌≡◌,
  refl, sym, ap, ◌∙◌, subst, arith, ltb, zero, suc, length, append_assoc, append-nil, Bool-cases,
  Option-cases, ltb→lt, lt→ltb,
}
use mooncake_maca_spdk_dmabu.Rdma.Slicing.{
  TransferRequest, Slice, TransferTask, Env, Posting, SubmitStatus, ok, address_not_registered,
  device_not_active, slice_device, merge_final_slice, make_slice, queue, lkey_of, with_lkey, refuse,
  at_watermark, slice_loop, start, submit_task,
}

module _ (env : Env) where
  -- The slices, in order, are the bytes of the request from `offset` to its end: none is empty, none
  -- is longer than a block and a fragment, and each goes to the same place of the target.
  abbrev pub Tiles : TransferRequest → ℕ → List Slice → Type 0
  Tiles q offset [] = q.length ≡ offset
  Tiles q offset (x ∷ xs) =
      (x.source_addr ≡ q.source + offset)
      × (x.dest_addr ≡ (q.target_offset + offset) % 2 ^ 64)
      × (0 < x.length)
      × (x.length ≤ env.config.slice_size + env.config.fragment_limit)
      × Tiles q (offset + x.length) xs

  abbrev pub bytes : List Slice → ℕ
  bytes [] = 0
  bytes (x ∷ xs) = x.length + bytes xs

  pub Tiles-bytes :
      (q : TransferRequest) (offset : ℕ) (xs : List Slice)
      → Tiles q offset xs
      → bytes xs + offset ≡ q.length
  Tiles-bytes q offset [] t = omega arith
  Tiles-bytes q offset (x ∷ xs) t = omega (arith, Tiles-bytes q (offset + x.length) xs t.4)

  -- What the loop adds to the task.
  abbrev pub Adds : TransferTask → TransferTask → List Slice → Type 0
  Adds old new xs =
      (new.slice_list ≡ old.slice_list ++ xs)
      × (new.total_bytes ≡ old.total_bytes + bytes xs)
      × (new.slice_count ≡ old.slice_count + length xs)

  at_watermark-task : (s : Posting) → (at_watermark env s).task ≡ s.task
  unfolding at_watermark
  at_watermark-task s = ground arith

  abbrev pub after : TransferRequest → ℕ → Posting → ℕ × ℕ → Posting
  after q offset s r = at_watermark env (queue env s (make_slice env q offset) r.0 r.1)

  -- What is known of an iteration that does not fail.
  abbrev pub Goes : TransferRequest → ℕ → ℕ → Posting → ℕ × ℕ → Type 0
  Goes q fuel offset s r =
      ((merge_final_slice env q offset ≡ true)
        × (slice_loop env (suc fuel) q offset s ≡ (ok, after q offset s r)))
      ⊎ ((merge_final_slice env q offset ≡ false)
          × (slice_loop env (suc fuel) q offset s
              ≡ slice_loop env fuel q (offset + env.config.slice_size) (after q offset s r)))

  pub loop_refuses :
      (q : TransferRequest) (fuel offset : ℕ) (s : Posting)
      → ltb offset q.length ≡ true
      → slice_device env q (make_slice env q offset) ≡ none
      → slice_loop env (suc fuel) q offset s ≡ (
        address_not_registered (make_slice env q offset).source_addr,
        refuse env s (make_slice env q offset),
      )
  unfolding slice_loop
  loop_refuses q fuel offset s l e = ground arith

  pub loop_inactive :
      (q : TransferRequest) (fuel offset : ℕ) (s : Posting) (r : ℕ × ℕ)
      → ltb offset q.length ≡ true
      → slice_device env q (make_slice env q offset) ≡ some r
      → env.active r.1 ≡ false
      → slice_loop env (suc fuel) q offset s
        ≡ (device_not_active r.1, refuse env s (make_slice env q offset))
  unfolding slice_loop
  loop_inactive q fuel offset s r l e a = ground arith

  pub loop-Goes :
      (q : TransferRequest) (fuel offset : ℕ) (s : Posting) (r : ℕ × ℕ)
      → ltb offset q.length ≡ true
      → slice_device env q (make_slice env q offset) ≡ some r
      → env.active r.1 ≡ true
      → Goes q fuel offset s r
  unfolding slice_loop
  loop-Goes q fuel offset s r l e a = ground arith

  -- An iteration either goes on or ends with one of the source's errors.
  pub slice_step :
      (q : TransferRequest) (fuel offset : ℕ) (s : Posting)
      → offset < q.length
      → ((r : ℕ × ℕ) × (slice_device env q (make_slice env q offset) ≡ some r)
          × (env.active r.1 ≡ true)
          × Goes q fuel offset s r)
        ⊎ ((a : ℕ) × (((slice_loop env (suc fuel) q offset s).0 ≡ address_not_registered a)
              ⊎ ((slice_loop env (suc fuel) q offset s).0 ≡ device_not_active a)))
  slice_step q fuel offset s l =
      elim (Option-cases (slice_device env q (make_slice env q offset))) [
        | inl e ↦ inr (
          (make_slice env q offset).source_addr,
          inl (ap (λ z. z.0) (loop_refuses q fuel offset s (lt→ltb offset q.length l) e)),
        )
        | inr (r, e) ↦ elim (Bool-cases (env.active r.1)) [
          | inl a ↦ inl (r, e, a, loop-Goes q fuel offset s r (lt→ltb offset q.length l) e a)
          | inr a ↦ inr (
            r.1,
            inr (ap (λ z. z.0) (loop_inactive q fuel offset s r (lt→ltb offset q.length l) e a)),
          )
        ]
      ]

  queue-task :
      (s : Posting) (x : Slice) (b d : ℕ)
      → Adds s.task (queue env s x b d).task (with_lkey env x (lkey_of env b d) ∷ [])
  unfolding queue
  queue-task s x b d = (refl, omega arith, refl)

  after-Adds :
      (q : TransferRequest) (offset : ℕ) (s : Posting) (r : ℕ × ℕ)
      → Adds s.task
          (after q offset s r).task
          (with_lkey env (make_slice env q offset) (lkey_of env r.0 r.1) ∷ [])
  after-Adds q offset s r =
      subst
        (λ t. Adds s.task t (with_lkey env (make_slice env q offset) (lkey_of env r.0 r.1) ∷ []))
        (sym (at_watermark-task (queue env s (make_slice env q offset) r.0 r.1)))
        (queue-task s (make_slice env q offset) r.0 r.1)

  Adds-trans :
      (a b c : TransferTask) (x : Slice) (xs : List Slice)
      → Adds a b (x ∷ [])
      → Adds b c xs
      → Adds a c (x ∷ xs)
  Adds-trans a b c x xs (l, t, n) (l', t', n') =
      (l' ∙ ap (λ z. z ++ xs) l ∙ append_assoc a.slice_list (x ∷ []) xs, omega arith, omega arith)

  abbrev pub Fails : SubmitStatus → Type 0
  Fails r = (a : ℕ) × ((r ≡ address_not_registered a) ⊎ (r ≡ device_not_active a))

  abbrev Done : TransferRequest → ℕ → TransferTask → SubmitStatus × Posting → Type 0
  Done q offset old r = (r.0 ≡ ok) × (xs : List Slice) × Adds old r.1.task xs × Tiles q offset xs

  module _ (q : TransferRequest) (offset : ℕ) where
    abbrev slice : Slice
    slice = make_slice env q offset

    merged_length : merge_final_slice env q offset ≡ true → slice.length ≡ q.length - offset
    unfolding make_slice
    merged_length m = ground arith

    block_length : merge_final_slice env q offset ≡ false → slice.length ≡ env.config.slice_size
    unfolding make_slice
    block_length m = ground arith

    merged-le :
        env.config.slice_size + env.config.fragment_limit < 2 ^ 64
        → merge_final_slice env q offset ≡ true
        → q.length - offset ≤ env.config.slice_size + env.config.fragment_limit
    unfolding merge_final_slice
    merged-le b m = ground arith

    block-lt :
        env.config.slice_size + env.config.fragment_limit < 2 ^ 64
        → merge_final_slice env q offset ≡ false
        → offset + env.config.slice_size < q.length
    unfolding merge_final_slice
    block-lt b m = ground arith

    places :
        (slice.source_addr ≡ q.source + offset)
        × (slice.dest_addr ≡ (q.target_offset + offset) % 2 ^ 64)
    unfolding make_slice
    places = (refl, refl)

  loop_none :
      (fuel : ℕ) (q : TransferRequest) (s : Posting)
      → q.length ≡ 0
      → slice_loop env fuel q 0 s ≡ (ok, s)
  unfolding slice_loop
  loop_none zero q s z = ground arith
  loop_none (suc fuel) q s z = ground arith

  loop_Cut :
      (q : TransferRequest) (fuel offset : ℕ) (s : Posting)
      → 0 < env.config.slice_size
      → env.config.slice_size + env.config.fragment_limit < 2 ^ 64
      → offset < q.length
      → q.length ≤ offset + fuel
      → Done q offset s.task (slice_loop env fuel q offset s)
        ⊎ Fails (slice_loop env fuel q offset s).0
  loop_Cut q zero offset s p b l f = absurd (omega arith)
  loop_Cut q (suc fuel) offset s p b l f = elim (slice_step q fuel offset s l) [
    | inr (a, e) ↦ inr (a, e)
    | inl (r, e, a, g) ↦
        let x = with_lkey env (make_slice env q offset) (lkey_of env r.0 r.1) in
        let adds = after-Adds q offset s r in
        let (source, dest) = places q offset in
        elim g [
          | inl (m, e') ↦
              let len = merged_length q offset m in
              let le = merged-le q offset b m in
              inl (
                subst (Done q offset s.task) (sym e')
                  (refl, x ∷ [], adds, (source, dest, omega arith, omega arith, omega arith)))
          | inr (m, e') ↦
              let len = block_length q offset m in
              let lt = block-lt q offset b m in
              let rest =
                loop_Cut q fuel (offset + env.config.slice_size) (after q offset s r) p b lt
                  (omega arith) in
              elim rest [
                | inr (c, h) ↦ inr (
                  c,
                  subst (λ z. (z.0 ≡ address_not_registered c) ⊎ (z.0 ≡ device_not_active c))
                      (sym e') h,
                )
                | inl (h, xs, adds', tiles) ↦ inl (
                    subst (Done q offset s.task) (sym e') (
                      h,
                      x ∷ xs,
                      Adds-trans s.task (after q offset s r).task
                          (slice_loop env fuel q (offset + env.config.slice_size)
                            (after q offset s r)).1.task
                          x xs adds adds',
                      (
                        source,
                        dest,
                        omega arith,
                        omega arith,
                        subst (λ n. Tiles q (offset + n) xs) (sym len) tiles,
                      ),
                    ))
              ]
        ]
  ]

  abbrev Whole : TransferRequest → TransferTask → SubmitStatus × Posting → Type 0
  Whole q task r =
      (r.0 ≡ ok)
      × (xs : List Slice) × Adds task r.1.task xs
      × Tiles q 0 xs
      × (r.1.task.total_bytes ≡ task.total_bytes + q.length)

  -- With a positive block size, submitting a task either ends with one of the two errors, or cuts
  -- the whole request: the slices that the task gets are the bytes of the request in order, none
  -- empty and none longer than a block and a fragment, and the task's byte and slice counters grow
  -- by theirs.
  pub submit_task-Tiles :
      (q : TransferRequest) (task : TransferTask) (s : Posting)
      → 0 < env.config.slice_size
      → env.config.slice_size + env.config.fragment_limit < 2 ^ 64
      → Fails (submit_task env q task s).0
        ⊎ (((submit_task env q task s).0 ≡ ok)
            × (xs : List Slice) × Adds task (submit_task env q task s).1.task xs
            × Tiles q 0 xs
            × ((submit_task env q task s).1.task.total_bytes ≡ task.total_bytes + q.length))
  unfolding submit_task
  submit_task-Tiles q task s p b = elim (Bool-cases (ltb 0 q.length)) [
    | inl l ↦
        elim (loop_Cut q q.length 0 (start env task s) p b (ltb→lt 0 q.length l) (omega arith)) [
          | inr h ↦ inl h
          | inl (h, xs, adds, tiles) ↦
              let sum = Tiles-bytes q 0 xs tiles in inr (h, xs, adds, tiles, omega arith)
        ]
    | inr l ↦
        let z : q.length ≡ 0 = ground arith in
        inr (
          subst (Whole q task) (sym (loop_none q.length q (start env task s) z)) (
            refl,
            [],
            (sym (append-nil task.slice_list), omega arith, omega arith),
            z,
            omega arith,
          ))
  ]
