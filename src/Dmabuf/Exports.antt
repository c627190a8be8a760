-- ===== src/Dmabuf/Exports.antt =====
-- What an export of GPU memory in gpu_dmabuf.c does to the thread's context and to the open
-- descriptors.
use mooncake_maca_spdk_dmabu.Prelude.{
  ℕ, ◌==◌, Bool, true, false, none, some, ◌∷◌, ◌≡◌, ◌∙◌, ◌⊎◌, inl, inr, refl, subst, if_keeps,
  option_keeps, option_splits,
}
use mooncake_maca_spdk_dmabu.Dmabuf.Types.{efault, Result, ok, err, World, Gpu}
use mooncake_maca_spdk_dmabu.Dmabuf.Contexts.{set_cuda_ctx, restore_cuda_ctx}
use mooncake_maca_spdk_dmabu.Dmabuf.Register.{
  allocation_of, export_allocation, export_range, export_and_restore, export_in_ctx,
}

-- Regions and contexts are as they were, and the exported descriptor is the only new one.
abbrev pub Opens : World → World × Result (ℕ × ℕ) → Type 0
Opens w (w', err e) = (w'.live ≡ w.live) × (w'.retained ≡ w.retained) × (w'.fds ≡ w.fds)
Opens w (w', ok (fd, offset)) =
    (w'.live ≡ w.live) × (w'.retained ≡ w.retained) × (w'.fds ≡ fd ∷ w.fds)

export_range-Opens : (gpu : Gpu) (addr len : ℕ) (w : World) → Opens w (export_range gpu addr len w)
unfolding export_range
export_range-Opens gpu addr len w = exported (allocation_of gpu addr len)
  where
    exported : (a : Result (ℕ × ℕ × ℕ)) → Opens w (export_allocation gpu w a)
    exported (err e) = unfold export_allocation in (refl, refl, refl)
    exported (ok (base, size, offset)) =
        unfold export_allocation in
        option_keeps (Opens w) (gpu.export_dmabuf base size) _ _ (refl, refl, refl)
          (λ fd q. (refl, refl, refl))

-- Switching the context changes nothing else.
SameHoldings : World → World → Type 0
SameHoldings w w' = (w'.live ≡ w.live) × (w'.retained ≡ w.retained) × (w'.fds ≡ w.fds)

set_cuda_ctx-SameHoldings :
    (gpu : Gpu) (w : World) (ctx : ℕ) → SameHoldings w (set_cuda_ctx gpu w ctx).0
unfolding set_cuda_ctx SameHoldings
set_cuda_ctx-SameHoldings gpu w ctx =
    let P : World × Result (ℕ × Bool) → Type 0 = λ out. SameHoldings w out.0 in
    if_keeps P (ctx == 0) _ _ (refl, refl, refl)
      (option_keeps P (gpu.ctx_get_current w.current) _ _ (refl, refl, refl)
        λ prev q.
          if_keeps P (prev == ctx) _ _ (refl, refl, refl)
            (option_keeps P (gpu.ctx_set_current w.current ctx) _ _ (refl, refl, refl)
              (λ now q'. (refl, refl, refl))))

restore_cuda_ctx-Opens :
    (gpu : Gpu) (w w' : World) (prev : ℕ) (changed : Bool) (out : Result (ℕ × ℕ))
    → Opens w (w', out)
    → Opens w (restore_cuda_ctx gpu w' prev changed, out)
unfolding restore_cuda_ctx
restore_cuda_ctx-Opens gpu w w' prev changed out h =
    let P : World → Type 0 = λ z. Opens w (z, out) in
    if_keeps P changed _ _
      (option_keeps P (gpu.ctx_set_current w'.current prev) _ _ h (λ now q. switched now out h)) h
  where
    switched :
        (now : ℕ) (o : Result (ℕ × ℕ)) → Opens w (w', o) → Opens w (record w' { current = now }, o)
    switched now (err e) h = h
    switched now (ok (fd, offset)) h = h

-- An export opens its descriptor and nothing else.
pub export_in_ctx-Opens :
    (gpu : Gpu) (ctx addr len : ℕ) (w : World) → Opens w (export_in_ctx gpu ctx addr len w)
unfolding export_in_ctx SameHoldings
export_in_ctx-Opens gpu ctx addr len w =
    switched (set_cuda_ctx gpu w ctx).0 (set_cuda_ctx gpu w ctx).1
      (set_cuda_ctx-SameHoldings gpu w ctx)
  where
    moved :
        (w1 : World) (out : World × Result (ℕ × ℕ))
        → (w1.live ≡ w.live) × (w1.retained ≡ w.retained) × (w1.fds ≡ w.fds)
        → Opens w1 out
        → Opens w out
    moved w1 (w2, err e) (a, b, c) (a', b', c') = (cc, cc, cc)
    moved w1 (w2, ok (fd, offset)) (a, b, c) (a', b', c') = (cc, cc, cc)

    switched :
        (w1 : World) (set : Result (ℕ × Bool))
        → (w1.live ≡ w.live) × (w1.retained ≡ w.retained) × (w1.fds ≡ w.fds)
        → Opens w (export_and_restore gpu addr len w1 set)
    switched w1 (err e) h = unfold export_and_restore in h
    switched w1 (ok (prev, changed)) h =
        unfold export_and_restore in
        restore_cuda_ctx-Opens gpu w (export_range gpu addr len w1).0 prev changed
          (export_range gpu addr len w1).1
          (moved w1 (export_range gpu addr len w1) h (export_range-Opens gpu addr len w1))

-- A runtime whose calls to read and set the thread's context do so, where they succeed.
pub record Switches (gpu : Gpu) : Type 0 where
  pub reads : (c x : ℕ) → gpu.ctx_get_current c ≡ some x → x ≡ c
  pub sets : (c x y : ℕ) → gpu.ctx_set_current c x ≡ some y → y ≡ x

-- The thread has its context of before, or the runtime refuses to set it again.
abbrev pub GivenBack : Gpu → World → World → Type 0
GivenBack gpu w w' = (w'.current ≡ w.current) ⊎ (gpu.ctx_set_current w'.current w.current ≡ none)

export_range_current :
    (gpu : Gpu) (addr len : ℕ) (w : World) → (export_range gpu addr len w).0.current ≡ w.current
unfolding export_range
export_range_current gpu addr len w = exported (allocation_of gpu addr len)
  where
    exported : (a : Result (ℕ × ℕ × ℕ)) → (export_allocation gpu w a).0.current ≡ w.current
    exported (err e) = unfold export_allocation in refl
    exported (ok (base, size, offset)) =
        unfold export_allocation in
        option_keeps (λ (z : World × Result (ℕ × ℕ)). z.0.current ≡ w.current)
          (gpu.export_dmabuf base size) _ _ refl (λ fd q. refl)

-- With such a runtime the thread is given its context back after an export, however that ended.
pub export_in_ctx_restores :
    (gpu : Gpu) (ctx addr len : ℕ) (w : World)
    → Switches gpu
    → GivenBack gpu w (export_in_ctx gpu ctx addr len w).0
unfolding export_in_ctx set_cuda_ctx
export_in_ctx_restores gpu ctx addr len w s = if_keeps Restores (ctx == 0) _ _ (unswitched 0) (
    option_keeps Restores (gpu.ctx_get_current w.current) _ _ (failed w) λ prev q.
      if_keeps Restores (prev == ctx) _ _ (unswitched prev) (
        option_keeps Restores (gpu.ctx_set_current w.current ctx) _ _ (failed w)
          λ now q'. switched prev now q))
  where
    Restores : World × Result (ℕ × Bool) → Type 0
    Restores out = GivenBack gpu w (export_and_restore gpu addr len out.0 out.1).0

    unswitched :
        (prev : ℕ) → GivenBack gpu w (export_and_restore gpu addr len w (ok (prev, false))).0
    unswitched prev =
        unfold export_and_restore restore_cuda_ctx in inl (export_range_current gpu addr len w)

    failed : (w1 : World) → GivenBack gpu w1 (export_and_restore gpu addr len w1 (err efault)).0
    failed w1 = unfold export_and_restore in inl refl

    -- The context is set back, and a refusal leaves the one that was set.
    restored :
        (w1 : World) (prev : ℕ)
        → prev ≡ w.current
        → GivenBack gpu w (restore_cuda_ctx gpu w1 prev true)
    restored w1 prev same =
        unfold restore_cuda_ctx in
        option_splits (GivenBack gpu w) (gpu.ctx_set_current w1.current prev) _ _
          (λ e. inr (subst (λ z. gpu.ctx_set_current w1.current z ≡ none) same e))
          (λ now e. inl (s.sets w1.current prev now e ∙ same))

    switched :
        (prev now : ℕ)
        → gpu.ctx_get_current w.current ≡ some prev
        → GivenBack gpu w
            (export_and_restore gpu addr len (record w { current = now }) (ok (prev, true))).0
    switched prev now q =
        unfold export_and_restore in
        restored (export_range gpu addr len (record w { current = now })).0 prev
          (s.reads w.current prev q)
