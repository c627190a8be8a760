-- ===== src/Dmabuf/Balance.antt =====
-- Registering and translating in gpu_dmabuf.c: the accounts, and the context of the thread.
use mooncake_maca_spdk_dmabu.Prelude.{
  ℕ, ℤ, ◌+◌, ◌∷◌, ◌≡◌, ◌∙◌, refl, sym, subst, none, inl, inr, ap, arith, if_keeps, option_keeps,
}
use mooncake_maca_spdk_dmabu.Dmabuf.Types.{
  eexist, enomem, einval, Result, ok, err, DmabufMr, Region, Domain, World, reg_mr, reg_failed,
  RegAnswer, Gpu, Platform,
}
use mooncake_maca_spdk_dmabu.Dmabuf.Tree.{rb_insert}
use mooncake_maca_spdk_dmabu.Dmabuf.Ranges.{
  device_eq, mr_before, region_before, find_mr, find_region, find_overlapping_mr,
  find_overlapping_region,
}
use mooncake_maca_spdk_dmabu.Dmabuf.Contexts.{RdmaDomain, get_cuda_ctx, retain_ctx}
use mooncake_maca_spdk_dmabu.Dmabuf.Register.{
  new_mr, new_region, cache_mr, cache_answer, dereg_mr, remove_first, register_fd,
  register_exported, register_in_ctx, register_mr, find_or_register, register_added,
  register_locked, add_region, export_in_ctx, translated, translate_locked, Translation,
}
use mooncake_maca_spdk_dmabu.Dmabuf.Accounts.{
  one, count, mrs_of, count_device, ctxs_of, Moves, MovesTo, Moves-refl, Moves-trans,
  total-rb_insert, remove_first_head, get_cuda_ctx-Moves,
}
use mooncake_maca_spdk_dmabu.Dmabuf.Exports.{
  Opens, export_in_ctx-Opens, export_in_ctx_restores, Switches, GivenBack,
}

-- The accounts balance, and with a runtime that switches contexts the thread is given its back.
abbrev pub Settles : {A : Type 0} → Gpu → Domain → World → Domain × World × A → Type 0
Settles gpu gd w out = Moves gd w out.0 out.1 × (Switches gpu → GivenBack gpu w out.1)

-- Steps that leave the thread's context, in front of one that gives it back and behind it.
after_steady :
    (gpu : Gpu) (w w1 w2 : World)
    → w1.current ≡ w.current
    → GivenBack gpu w1 w2
    → GivenBack gpu w w2
after_steady gpu w w1 w2 e (inl b) = inl (b ∙ e)
after_steady gpu w w1 w2 e (inr b) = inr (subst (λ z. gpu.ctx_set_current w2.current z ≡ none) e b)

before_steady :
    (gpu : Gpu) (w w1 w2 : World)
    → GivenBack gpu w w1
    → w2.current ≡ w1.current
    → GivenBack gpu w w2
before_steady gpu w w1 w2 (inl b) e = inl (e ∙ b)
before_steady gpu w w1 w2 (inr b) e =
    inr (subst (λ z. gpu.ctx_set_current z w.current ≡ none) (sym e) b)

module _ (gpu : Gpu) where
  Settles-refl : {A : Type 0} (gd : Domain) (w : World) (a : A) → Settles gpu gd w (gd, w, a)
  Settles-refl gd w a = (Moves-refl gd w, λ s. inl refl)

  cache_mr-Moves :
      (gd : Domain) (w : World) (e : DmabufMr)
      → MovesTo gd w (cache_mr gd (record w { live = e.mr.handle ∷ w.live }) e)
  unfolding cache_mr dereg_mr ctxs_of
  cache_mr-Moves gd w e =
      option_keeps (MovesTo gd w) (rb_insert mr_before e gd.mr_cache) _ _
        (
          λ h. ap (λ z. count h z + mrs_of h gd) (remove_first_head e.mr.handle w.live),
          λ d. refl,
          refl,
          refl,
        )
        λ cache q. (
          λ h. omega (
            arith,
            total-rb_insert mr_before (λ (x : DmabufMr). one h x.mr.handle) e gd.mr_cache cache q,
          ),
          λ d. refl,
          refl,
          refl,
        )

  cache_mr_current :
      (gd : Domain) (w : World) (e : DmabufMr) → (cache_mr gd w e).1.current ≡ w.current
  unfolding cache_mr dereg_mr
  cache_mr_current gd w e =
      option_keeps (λ (z : Domain × World × Result DmabufMr). z.1.current ≡ w.current)
        (rb_insert mr_before e gd.mr_cache) _ _ refl (λ cache q. refl)

  cache_answer-Moves :
      (gd : Domain) (w : World) (device : ℤ) (pd addr len : ℕ) (a : RegAnswer)
      → MovesTo gd w (cache_answer gd w device pd addr len a)
        × ((cache_answer gd w device pd addr len a).1.current ≡ w.current)
  unfolding cache_answer new_mr
  cache_answer-Moves gd w device pd addr len (reg_failed n) = (Moves-refl gd w, refl)
  cache_answer-Moves gd w device pd addr len (reg_mr mr) = (
    cache_mr-Moves gd w (new_mr addr len device pd mr),
    cache_mr_current gd (record w { live = mr.handle ∷ w.live }) (new_mr addr len device pd mr),
  )

  -- After an export, whose descriptor is closed.
  register_exported-Settles :
      (p : Platform) (gd : Domain) (w : World) (device : ℤ) (pd addr len : ℕ)
      (out : World × Result (ℕ × ℕ))
      → Opens w out
      → (Switches gpu → GivenBack gpu w out.0)
      → Settles gpu gd w (register_exported p gd out.0 device pd addr len out.1)
  unfolding register_exported ctxs_of
  register_exported-Settles p gd w device pd addr len (w', err e) (a, b, c) s = (
    (
      λ h. ap (λ z. count h z + mrs_of h gd) a,
      λ d. ap (λ z. count_device d z + ctxs_of d gd) b,
      c,
      refl,
    ),
    s,
  )
  register_exported-Settles p gd w device pd addr len (w', ok (fd, offset)) (a, b, c) s =
      let w2 : World = record w' { fds = remove_first fd w'.fds } in
      let closed : remove_first fd w'.fds ≡ w.fds =
        ap (remove_first fd) c ∙ remove_first_head fd w.fds in
      let (m, cur) =
        cache_answer-Moves gd w2 device pd addr len
          (p.reg_dmabuf_mr pd offset len addr fd gd.rdma_access_flags) in
      (
        Moves-trans gd gd (register_fd p gd w' device pd addr len fd offset).0 w w2
            (register_fd p gd w' device pd addr len fd offset).1
            (
              λ h. ap (λ z. count h z + mrs_of h gd) a,
              λ d. ap (λ z. count_device d z + ctxs_of d gd) b,
              closed,
              refl,
            )
            (unfold register_fd in m),
        λ z.
            before_steady gpu w w2 (register_fd p gd w' device pd addr len fd offset).1 (s z)
              (unfold register_fd in cur),
      )

  register_in_ctx-Settles :
      (p : Platform) (gd : Domain) (w : World) (device : ℤ) (pd addr len : ℕ) (ctx : Result ℕ)
      → Settles gpu gd w (register_in_ctx gpu p gd w device pd addr len ctx)
  unfolding register_in_ctx
  register_in_ctx-Settles p gd w device pd addr len (err e) =
      Settles-refl {A = Result DmabufMr} gd w (err e)
  register_in_ctx-Settles p gd w device pd addr len (ok c) =
      register_exported-Settles p gd w device pd addr len (export_in_ctx gpu c addr len w)
        (export_in_ctx-Opens gpu c addr len w) (export_in_ctx_restores gpu c addr len w)

  get_cuda_ctx_current :
      (p : Platform) (gd : Domain) (w : World) (device : ℤ)
      → (get_cuda_ctx gpu p gd w device).1.current ≡ w.current
  unfolding get_cuda_ctx retain_ctx
  get_cuda_ctx_current p gd w device = ground arith

  pub register_mr-Settles :
      (p : Platform) (gd : Domain) (w : World) (device : ℤ) (pd addr len : ℕ)
      → Settles gpu gd w (register_mr gpu p gd w device pd addr len)
  unfolding register_mr
  register_mr-Settles p gd w device pd addr len =
      option_keeps (Settles gpu gd w) (find_overlapping_mr gd device pd addr len) _ _
        (if_keeps (Settles gpu gd w) p.alloc_mr _ _
          (after (get_cuda_ctx gpu p gd w device) (get_cuda_ctx-Moves gpu p gd w device)
            (get_cuda_ctx_current p gd w device))
          (Settles-refl {A = Result DmabufMr} gd w (err enomem)))
        (λ e q. Settles-refl {A = Result DmabufMr} gd w (err eexist))
    where
      after :
          (got : Domain × World × Result ℕ)
          → MovesTo gd w got
          → got.1.current ≡ w.current
          → Settles gpu gd w (register_in_ctx gpu p got.0 got.1 device pd addr len got.2)
      after (gd', w', ctx) m cur =
          let (m', cur') = register_in_ctx-Settles p gd' w' device pd addr len ctx in
          (
            Moves-trans gd gd' (register_in_ctx gpu p gd' w' device pd addr len ctx).0 w w'
                (register_in_ctx gpu p gd' w' device pd addr len ctx).1 m m',
            λ s.
                after_steady gpu w w' (register_in_ctx gpu p gd' w' device pd addr len ctx).1 cur
                  (cur' s),
          )

  find_or_register-Settles :
      (p : Platform) (gd : Domain) (w : World) (r : Region) (pd addr len : ℕ)
      → Settles gpu gd w (find_or_register gpu p gd w r pd addr len)
  unfolding find_or_register
  find_or_register-Settles p gd w r pd addr len =
      option_keeps (Settles gpu gd w) (find_mr gd r.device_id pd addr len) _ _
        (register_mr-Settles p gd w r.device_id pd r.addr r.len)
        (λ e q. Settles-refl {A = Result DmabufMr} gd w (ok e))

  -- A new region moves nothing.
  add_region-Moves :
      (p : Platform) (gd : Domain) (w : World) (addr len : ℕ) (device : ℤ)
      → Moves gd w (add_region p gd addr len device).0 w
  unfolding add_region ctxs_of
  add_region-Moves p gd w addr len device =
      let P : Domain × Result Region → Type 0 = λ z. Moves gd w z.0 w in
      let stays = Moves-refl gd w in
      option_keeps P (find_region gd addr len) _ _
        (option_keeps P (find_overlapping_region gd addr len) _ _
          (if_keeps P p.alloc_region _ _
            (option_keeps P (rb_insert region_before (new_region addr len device) gd.regions) _ _
              stays (λ m q. (λ h. refl, λ d. refl, refl, refl)))
            stays)
          (λ r q. stays))
        (λ r q. if_keeps P (device_eq r.device_id device) _ _ stays stays)

  pub register_locked-Settles :
      (p : Platform) (gd : Domain) (w : World) (device : ℤ) (pd addr len : ℕ)
      → Settles gpu gd w (register_locked gpu p gd w device pd addr len)
  unfolding register_locked
  register_locked-Settles p gd w device pd addr len =
      added (add_region p gd addr len device).0 (add_region p gd addr len device).1
        (add_region-Moves p gd w addr len device)
    where
      added :
          (gd' : Domain) (r : Result Region)
          → Moves gd w gd' w
          → Settles gpu gd w (register_added gpu p gd' w pd r)
      added gd' (err e) m = unfold register_added in (m, λ s. inl refl)
      added gd' (ok r) m =
          unfold register_added in
          let (m', cur) = find_or_register-Settles p gd' w r pd r.addr r.len in
          (
            Moves-trans gd gd' (find_or_register gpu p gd' w r pd r.addr r.len).0 w w
                (find_or_register gpu p gd' w r pd r.addr r.len).1 m m',
            cur,
          )

  pub translate_locked-Settles :
      (p : Platform) (gd : Domain) (w : World) (dst : RdmaDomain) (pd addr len : ℕ)
      → Settles gpu gd w (translate_locked gpu p gd w dst pd addr len)
  unfolding translate_locked
  translate_locked-Settles p gd w dst pd addr len =
      option_keeps (Settles gpu gd w) (find_region gd addr len) _ _
        (Settles-refl {A = Result Translation} gd w (err einval))
        λ r q.
          answered (find_or_register gpu p gd w r pd addr len)
            (find_or_register-Settles p gd w r pd addr len)
    where
      answered :
          (out : Domain × World × Result DmabufMr)
          → Settles gpu gd w out
          → Settles gpu gd w (translated dst addr len out)
      answered (gd', w', err e) m = unfold translated in m
      answered (gd', w', ok e) m = unfold translated in m

-- With a runtime that reads and sets the thread's context where its calls succeed, the thread has
-- its context back after a registration, on every branch, unless the runtime refuses the call that
-- sets it back.
pub register_restores :
    (gpu : Gpu) (p : Platform) (gd : Domain) (w : World) (device : ℤ) (pd addr len : ℕ)
    → Switches gpu
    → GivenBack gpu w (register_locked gpu p gd w device pd addr len).1
register_restores gpu p gd w device pd addr len s =
    (register_locked-Settles gpu p gd w device pd addr len).1 s
