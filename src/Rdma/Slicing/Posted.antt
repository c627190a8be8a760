-- ===== src/Rdma/Slicing/Posted.antt =====
-- The queues of slices lose none and reach active contexts only.
use mooncake_maca_spdk_dmabu.Prelude.{
  ℕ, ◌+◌, ◌≢◌, ◌⊎◌, inl, inr, true, false, List, [], ◌∷◌, ◌++◌, ◌≡◌, refl, sym, subst, arith, ltb,
  zero, suc, length, length-append, map, Bool-cases, Option-cases,
}
use mooncake_maca_spdk_dmabu.Rdma.Slicing.{
  TransferRequest, Slice, TransferTask, Env, Posting, SubmitStatus, ok, out_of_fuel,
  address_not_registered, device_not_active, queue_slice, slice_device, make_slice, queue, refuse,
  at_watermark, slice_loop, start, submit_task, submit_tasks, lkey_of, with_lkey,
}
use mooncake_maca_spdk_dmabu.Rdma.Slicing.Cut.{after, loop_refuses, loop_inactive, loop-Goes}

abbrev pub in_queues : List (ℕ × List Slice) → ℕ
in_queues [] = 0
in_queues ((d, slices) ∷ rest) = length slices + in_queues rest

in_queues-append :
    (xs ys : List (ℕ × List Slice)) → in_queues (xs ++ ys) ≡ in_queues xs + in_queues ys
in_queues-append [] ys = omega arith
in_queues-append ((d, slices) ∷ rest) ys = omega (arith, in_queues-append rest ys)

queue_slice-count :
    (d : ℕ) (x : Slice) (qs : List (ℕ × List Slice))
    → in_queues (queue_slice d x qs) ≡ in_queues qs + 1
unfolding queue_slice
queue_slice-count d x [] = refl
queue_slice-count d x ((d', slices) ∷ rest) =
    ground (arith, queue_slice-count d x rest, length-append slices (x ∷ []))

module _ (env : Env) where
  -- The slices that are queued or posted.
  abbrev held : Posting → ℕ
  held s = in_queues s.posted + in_queues s.slices_to_post

  -- Every queue and every call is for an active context.
  abbrev pub AllActive : List (ℕ × List Slice) → Type 0
  AllActive [] = Unit {0}
  AllActive ((d, slices) ∷ rest) = (env.active d ≡ true) × AllActive rest

  AllActive-append :
      (xs ys : List (ℕ × List Slice)) → AllActive xs → AllActive ys → AllActive (xs ++ ys)
  AllActive-append [] ys a b = b
  AllActive-append (x ∷ xs) ys a b = (a.0, AllActive-append xs ys a.1 b)

  queue_slice-AllActive :
      (d : ℕ) (x : Slice) (qs : List (ℕ × List Slice))
      → env.active d ≡ true
      → AllActive qs
      → AllActive (queue_slice d x qs)
  unfolding queue_slice
  queue_slice-AllActive d x [] e a = (e, tt)
  queue_slice-AllActive d x ((d', slices) ∷ rest) e a =
      ground (arith, queue_slice-AllActive d x rest e a.1)

  abbrev Active : Posting → Type 0
  Active s = AllActive s.posted × AllActive s.slices_to_post

  -- What holds between the states around a part of the loop.
  abbrev Kept : Posting → Posting → Type 0
  Kept s s' = (held s' + s.task.slice_count ≡ held s + s'.task.slice_count) × (Active s → Active s')

  at_watermark-Kept : (s : Posting) → Kept s (at_watermark env s)
  unfolding at_watermark
  at_watermark-Kept s = (
    ground (arith, in_queues-append s.posted s.slices_to_post),
    λ a. ground (arith, AllActive-append s.posted s.slices_to_post a.0 a.1),
  )

  queue-Kept :
      (s : Posting) (x : Slice) (b d : ℕ) → env.active d ≡ true → Kept s (queue env s x b d)
  unfolding queue
  queue-Kept s x b d e =
      let y = with_lkey env x (lkey_of env b d) in
      (
        omega (arith, queue_slice-count d y s.slices_to_post),
        λ a. (a.0, queue_slice-AllActive d y s.slices_to_post e a.1),
      )

  refuse-Kept : (s : Posting) (x : Slice) → Kept s (refuse env s x)
  unfolding refuse
  refuse-Kept s x = (refl, λ a. a)

  Kept-trans : (a b c : Posting) → Kept a b → Kept b c → Kept a c
  Kept-trans a b c (e, f) (e', f') = (omega arith, λ x. f' (f x))

  Kept-refl : (a : Posting) → Kept a a
  Kept-refl a = (refl, λ x. x)

  after-Kept :
      (q : TransferRequest) (offset : ℕ) (s : Posting) (r : ℕ × ℕ)
      → env.active r.1 ≡ true
      → Kept s (after env q offset s r)
  after-Kept q offset s r a =
      let s' = queue env s (make_slice env q offset) r.0 r.1 in
      Kept-trans s s' (at_watermark env s') (queue-Kept s (make_slice env q offset) r.0 r.1 a)
        (at_watermark-Kept s')

  loop_over :
      (q : TransferRequest) (fuel offset : ℕ) (s : Posting)
      → ltb offset q.length ≡ false
      → slice_loop env (suc fuel) q offset s ≡ (ok, s)
  unfolding slice_loop
  loop_over q fuel offset s l = ground arith

  loop-Kept :
      (fuel : ℕ) (q : TransferRequest) (offset : ℕ) (s : Posting)
      → Kept s (slice_loop env fuel q offset s).1
  loop-Kept zero q offset s = unfold slice_loop in ground arith
  loop-Kept (suc fuel) q offset s = elim (Bool-cases (ltb offset q.length)) [
    | inr l ↦ subst (λ r. Kept s r.1) (sym (loop_over q fuel offset s l)) (Kept-refl s)
    | inl l ↦ elim (Option-cases (slice_device env q (make_slice env q offset))) [
      | inl e ↦
          subst (λ r. Kept s r.1) (sym (loop_refuses env q fuel offset s l e))
            (refuse-Kept s (make_slice env q offset))
      | inr (r, e) ↦ elim (Bool-cases (env.active r.1)) [
        | inr a ↦
            subst (λ r. Kept s r.1) (sym (loop_inactive env q fuel offset s r l e a))
              (refuse-Kept s (make_slice env q offset))
        | inl a ↦ elim (loop-Goes env q fuel offset s r l e a) [
          | inl (m, e') ↦ subst (λ r. Kept s r.1) (sym e') (after-Kept q offset s r a)
          | inr (m, e') ↦
              subst (λ r. Kept s r.1) (sym e')
                (Kept-trans s (after env q offset s r)
                  (slice_loop env fuel q (offset + env.config.slice_size)
                    (after env q offset s r)).1
                  (after-Kept q offset s r a)
                  (loop-Kept fuel q (offset + env.config.slice_size) (after env q offset s r)))
        ]
      ]
    ]
  ]

  -- The counters of a list of tasks.
  abbrev pub slice_counts : List TransferTask → ℕ
  slice_counts [] = 0
  slice_counts (t ∷ ts) = t.slice_count + slice_counts ts

  abbrev pub tasks_of : List (TransferRequest × TransferTask) → List TransferTask
  tasks_of = map (λ r. r.1)

  task-Kept :
      (q : TransferRequest) (task : TransferTask) (s : Posting)
      → (held (submit_task env q task s).1 + task.slice_count
          ≡ held s + (submit_task env q task s).1.task.slice_count)
        × (Active s → Active (submit_task env q task s).1)
  unfolding submit_task
  task-Kept q task s = loop-Kept q.length q 0 (start env task s)

  abbrev Submitted :
      List (TransferRequest × TransferTask)
      → Posting
      → SubmitStatus × List TransferTask × List (ℕ × List Slice)
      → Type 0
  Submitted rs s r =
      (Active s → AllActive r.2)
      × (r.0 ≡ ok → in_queues r.2 + slice_counts (tasks_of rs) ≡ held s + slice_counts r.1)

  module _ (q : TransferRequest) (task : TransferTask)
      (rest : List (TransferRequest × TransferTask)) (s : Posting) where
    abbrev s' : Posting
    s' = (submit_task env q task s).1

    submits_on :
        (submit_task env q task s).0 ≡ ok
        → submit_tasks env ((q, task) ∷ rest) s ≡ (
          (submit_tasks env rest s').0,
          s'.task ∷ (submit_tasks env rest s').1,
          (submit_tasks env rest s').2,
        )
    unfolding submit_tasks
    submits_on e = ground arith

    submits_not :
        (r : SubmitStatus)
        → (submit_task env q task s).0 ≡ r
        → r ≢ ok
        → submit_tasks env ((q, task) ∷ rest) s ≡ (r, s'.task ∷ map (λ z. z.1) rest, s'.posted)
    unfolding submit_tasks
    submits_not ok e n = absurd (n refl)
    submits_not out_of_fuel e n = ground arith
    submits_not (address_not_registered a) e n = ground arith
    submits_not (device_not_active a) e n = ground arith

    ok_or_not : (r : SubmitStatus) → (r ≡ ok) ⊎ (r ≢ ok)
    ok_or_not ok = inl refl
    ok_or_not out_of_fuel = inr (λ e. absurd (cc e))
    ok_or_not (address_not_registered a) = inr (λ e. absurd (cc e))
    ok_or_not (device_not_active a) = inr (λ e. absurd (cc e))

  submit-Submitted :
      (rs : List (TransferRequest × TransferTask)) (s : Posting)
      → Submitted rs s (submit_tasks env rs s)
  submit-Submitted [] s =
      unfold submit_tasks in
      (
        λ a. AllActive-append s.posted s.slices_to_post a.0 a.1,
        λ e. omega (arith, in_queues-append s.posted s.slices_to_post),
      )
  submit-Submitted ((q, task) ∷ rest) s =
      let (count, active) = task-Kept q task s in
      elim (ok_or_not q task rest s (submit_task env q task s).0) [
        | inl e ↦
            let (active', count') = submit-Submitted rest (submit_task env q task s).1 in
            subst (Submitted ((q, task) ∷ rest) s) (sym (submits_on q task rest s e))
              (λ a. active' (active a), λ e'. let c = count' e' in omega arith)
        | inr n ↦
            subst (Submitted ((q, task) ∷ rest) s)
              (sym (submits_not q task rest s (submit_task env q task s).0 refl n))
              (λ a. (active a).0, λ e. absurd (n e))
      ]

  abbrev pub nothing_queued : Posting
  nothing_queued = record {
    task = record { slice_list = []; total_bytes = 0; slice_count = 0 };
    slices_to_post = [];
    posted = [];
    nr_slices = 0;
    allocated = 0;
  }

  -- `submitTransferTask` posts to active contexts only, also when it answers an error.
  pub submit_tasks-AllActive :
      (rs : List (TransferRequest × TransferTask))
      → AllActive (submit_tasks env rs nothing_queued).2
  submit_tasks-AllActive rs = (submit-Submitted rs nothing_queued).0 (tt, tt)

  -- When `submitTransferTask` answers ok, as many slices are posted as it adds to the tasks' slice
  -- counters.
  pub submit_tasks-posts :
      (rs : List (TransferRequest × TransferTask))
      → (submit_tasks env rs nothing_queued).0 ≡ ok
      → in_queues (submit_tasks env rs nothing_queued).2 + slice_counts (tasks_of rs)
        ≡ slice_counts (submit_tasks env rs nothing_queued).1
  submit_tasks-posts rs e = omega (arith, (submit-Submitted rs nothing_queued).1 e)
