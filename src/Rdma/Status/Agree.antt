-- ===== src/Rdma/Status/Agree.antt =====
-- The status of a batch and the statuses of its tasks, asked one by one.
use mooncake_maca_spdk_dmabu.Prelude.{
  ℕ, zero, suc, ◌+◌, ◌^◌, ◌<◌, ◌↔◌, Option, some, List, [], ◌∷◌, ◌++◌, ◌≡◌, refl, ap, arith, length,
  get_elem?, modify, map, append_assoc, length-append, subst,
}
use mooncake_maca_spdk_dmabu.Rdma.Status.{
  TaskProgress, TransferStatus, completed, failed, is_done, status_of, finish, get_batch_status,
  get_transfer_status,
}

-- Asking task number `n`, `n + 1`, … one by one, each in the tasks that the question before left.
abbrev pub ask_each : ℕ → ℕ → List TaskProgress → List (Option TransferStatus) × List TaskProgress
ask_each zero n tasks = ([], tasks)
ask_each (suc k) n tasks =
    let (status, tasks') = get_transfer_status tasks n in
    let (statuses, tasks'') = ask_each k (n + 1) tasks' in (status ∷ statuses, tasks'')

batch_lem : (ts : List TaskProgress) → get_batch_status ts ≡ (map status_of ts, map finish ts)
unfolding get_batch_status
batch_lem [] = refl
batch_lem (t ∷ ts) = rw (batch_lem ts) refl

get_elem-middle :
    (done : List TaskProgress) (t : TaskProgress) (ts : List TaskProgress)
    → get_elem? (done ++ t ∷ ts) (length done) ≡ some t
get_elem-middle [] t ts = refl
get_elem-middle (d ∷ done) t ts = get_elem-middle done t ts

modify-middle :
    (done : List TaskProgress) (t : TaskProgress) (ts : List TaskProgress)
    → modify (length done) finish (done ++ t ∷ ts) ≡ done ++ finish t ∷ ts
modify-middle [] t ts = refl
modify-middle (d ∷ done) t ts = ap (λ z. d ∷ z) (modify-middle done t ts)

get-middle :
    (done : List TaskProgress) (t : TaskProgress) (ts : List TaskProgress)
    → get_transfer_status (done ++ t ∷ ts) (length done)
      ≡ (some (status_of t), done ++ finish t ∷ ts)
unfolding get_transfer_status
get-middle done t ts = ground (arith, get_elem-middle done t ts, modify-middle done t ts)

module _ (done : List TaskProgress) (t : TaskProgress) (ts : List TaskProgress) where
  to_end : (done ++ finish t ∷ []) ++ ts ≡ done ++ finish t ∷ ts
  to_end = append_assoc done (finish t ∷ []) ts

  one_more : length (done ++ finish t ∷ []) ≡ length done + 1
  one_more = omega (arith, length-append done (finish t ∷ []))

ask_lem :
    (done ts : List TaskProgress)
    → ask_each (length ts) (length done) (done ++ ts)
      ≡ (map (λ t. some (status_of t)) ts, done ++ map finish ts)
ask_lem done [] = refl
ask_lem done (t ∷ ts) =
    let rest = ask_lem (done ++ finish t ∷ []) ts in
    let whole = append_assoc done (finish t ∷ []) ts in
    let after = append_assoc done (finish t ∷ []) (map finish ts) in
    let next : ask_each (length ts) (length done + 1) (done ++ finish t ∷ ts)
        ≡ (map (λ x. some (status_of x)) ts, done ++ finish t ∷ map finish ts) =
      subst
        (λ z.
          ask_each (length ts) (length done + 1) z
          ≡ (map (λ x. some (status_of x)) ts, done ++ finish t ∷ map finish ts))
        whole
        (subst
          (λ z.
            ask_each (length ts) (length done + 1) ((done ++ finish t ∷ []) ++ ts)
            ≡ (map (λ x. some (status_of x)) ts, z))
          after
          (subst
            (λ n.
              ask_each (length ts) n ((done ++ finish t ∷ []) ++ ts)
              ≡ (map (λ x. some (status_of x)) ts, (done ++ finish t ∷ []) ++ map finish ts))
            (one_more done t ts) rest)) in
    rw (get-middle done t ts, next) refl

map-some :
    (tasks : List TaskProgress)
    → map some (map status_of tasks) ≡ map (λ x. some (status_of x)) tasks
map-some [] = refl
map-some (t ∷ ts) = ap (λ z. some (status_of t) ∷ z) (map-some ts)

-- Asking for the whole batch gives the same statuses, and leaves the same tasks, as asking for each
-- of its tasks in turn.
pub batch_status-Agree :
    (tasks : List TaskProgress)
    → (map some (get_batch_status tasks).0 ≡ (ask_each (length tasks) 0 tasks).0)
      × ((get_batch_status tasks).1 ≡ (ask_each (length tasks) 0 tasks).1)
batch_status-Agree tasks = rw (batch_lem tasks, ask_lem [] tasks) (map-some tasks, refl)

-- With counters of slices that stay below 2 ^ 64, a task is completed exactly when all its slices
-- succeeded and failed exactly when all ended and one failed.
pub status_of-ends :
    (t : TaskProgress)
    → t.success_slice_count + t.failed_slice_count < 2 ^ 64
    → (((status_of t).s ≡ completed)
        ↔ ((t.success_slice_count ≡ t.slice_count) × (t.failed_slice_count ≡ 0)))
      × (((status_of t).s ≡ failed) ↔ (
          (t.success_slice_count + t.failed_slice_count ≡ t.slice_count)
          × (0 < t.failed_slice_count)))
unfolding status_of is_done
status_of-ends t b =
    ((λ e. ground arith, λ e. ground arith), (λ e. ground arith, λ e. ground arith))
