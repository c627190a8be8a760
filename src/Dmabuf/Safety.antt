-- ===== src/Dmabuf/Safety.antt =====
-- Runs of calls of gpu_dmabuf.c keep every domain sound and every account balanced.
use mooncake_maca_spdk_dmabu.Prelude.{
  ℕ, ℤ, total, total-append, ◌++◌, ◌+◌, ◌<◌, ◌^◌, ◌==◌, ◌||◌, some, List, [], ◌∷◌, ◌≡◌, refl, sym,
  subst, arith, if_keeps, option_keeps, All, All-append, Bool-cases, inl, inr,
}
use mooncake_maca_spdk_dmabu.Dmabuf.Types.{
  Result, ok, err, Domain, World, Gpu, Platform, result_keeps,
}
use mooncake_maca_spdk_dmabu.Dmabuf.Contexts.{RdmaDomain, get_rdma_pd, get_ptr_device_id}
use mooncake_maca_spdk_dmabu.Dmabuf.Register.{register_locked, translate_locked, Translation}
use mooncake_maca_spdk_dmabu.Dmabuf.Lifecycle.{
  Library, domain_find, update_domain, with_domain, register, translate, invalidate_range,
  invalidate, Layout, create, remove_domain, destroy,
}
use mooncake_maca_spdk_dmabu.Dmabuf.Accounts.{one, one_device, count, mrs_of, count_device, ctxs_of}
use mooncake_maca_spdk_dmabu.Dmabuf.Invariant.{IsSound, IsSound-at}
use mooncake_maca_spdk_dmabu.Dmabuf.Steps.{
  register_locked-IsSound, translate_locked-IsSound, invalidate_range-IsSound,
}
use mooncake_maca_spdk_dmabu.Dmabuf.Runs.{
  Answers, answering, Call, create_domain, register_range, translate_range, invalidate_domain,
  destroy_domain, execute, run, nothing_held, IsEven, register-IsEven, translate-IsEven,
  invalidate-IsEven, destroy-IsEven,
}
use mooncake_maca_spdk_dmabu.Dmabuf.Creation.{Creates, create-Creates, create-IsEven}

-- A predicate on all domains, as the table changes.
module _ {κ} (P : Domain → Type κ) where
  domain_find-All :
      (id : ℕ) (ds : List Domain) (gd : Domain) → domain_find id ds ≡ some gd → All P ds → P gd
  unfolding domain_find
  domain_find-All id [] gd h a = absurd (cc h)
  domain_find-All id (d ∷ ds) gd h (a, rest) = elim (Bool-cases (d.domain == id)) [
    | inl b ↦ let same : d ≡ gd = ground arith in subst P same a
    | inr b ↦ domain_find-All id ds gd (ground arith) rest
  ]

  update_domain-All :
      (gd : Domain) (ds : List Domain) → P gd → All P ds → All P (update_domain gd ds)
  unfolding update_domain
  update_domain-All gd [] p a = tt
  update_domain-All gd (d ∷ ds) p (a, rest) =
      if_keeps (All P) (d.domain == gd.domain) _ _ (p, rest) (a, update_domain-All gd ds p rest)

  remove_domain-All : (id : ℕ) (ds : List Domain) → All P ds → All P (remove_domain id ds)
  unfolding remove_domain
  remove_domain-All id [] a = tt
  remove_domain-All id (d ∷ ds) (a, rest) =
      if_keeps (All P) (d.domain == id) _ _ rest (a, remove_domain-All id ds rest)

-- A call that registers a range registers one that ends below 2^64.
abbrev pub IsWithin : Answers × Call → Type 0
IsWithin (a, register_range id rdma addr len) = addr + len < 2 ^ 64
IsWithin _ = Unit

abbrev pub AllSound : Library → Type 0
AllSound lib = All IsSound lib.domains

-- The regions that the verbs library has, and the contexts that the runtime has retained.
abbrev mrs_held : World → List ℕ
mrs_held w = w.live ++ w.undereg

abbrev ctxs_held : World → List ℤ
ctxs_held w = w.retained ++ w.unreleased

-- The verbs library has exactly the regions that the caches hold and those of which it refused the
-- deregistration; the runtime has retained exactly the contexts that the domains hold and those of
-- which it refused the release; and no descriptor is open.
abbrev pub IsBalanced : Library → Type 0
IsBalanced lib =
    ((h : ℕ)
      → count h (mrs_held lib.world) ≡ total (mrs_of h) lib.domains + count h lib.world.undereg)
    × ((d : ℤ)
        → count_device d (ctxs_held lib.world)
          ≡ total (ctxs_of d) lib.domains + count_device d lib.world.unreleased)
    × (lib.world.fds ≡ [])

IsEven-IsBalanced : (lib : Library) → IsEven lib → IsBalanced lib
IsEven-IsBalanced lib (a, b, c) = (
  λ h. omega (arith, a h, total-append (one h) lib.world.live lib.world.undereg),
  λ d. omega (arith, b d, total-append (one_device d) lib.world.retained lib.world.unreleased),
  c,
)

module _ (pd_end : ℕ) (l : Layout) where
  execute-IsEven :
      (gpu : Gpu) (p : Platform) (lib : Library) (c : Call)
      → IsEven lib
      → IsEven (execute pd_end l gpu p lib c)
  unfolding execute
  execute-IsEven gpu p lib (create_domain has_domain opts) b =
      create-IsEven gpu p l lib has_domain opts b
  execute-IsEven gpu p lib (register_range id rdma addr len) b =
      register-IsEven gpu p pd_end l lib id rdma addr len b
  execute-IsEven gpu p lib (translate_range id dst addr len) b =
      translate-IsEven gpu p pd_end l lib id dst addr len b
  execute-IsEven gpu p lib (invalidate_domain id addr len) b = invalidate-IsEven lib id addr len b
  execute-IsEven gpu p lib (destroy_domain id) b = destroy-IsEven lib id b

  run-IsEven :
      (lib : Library) (cs : List (Answers × Call)) → IsEven lib → IsEven (run pd_end l lib cs)
  unfolding run
  run-IsEven lib [] b = b
  run-IsEven lib ((a, c) ∷ cs) b =
      run-IsEven (execute pd_end l a.gpu a.platform (answering a lib) c) cs
        (execute-IsEven a.gpu a.platform (answering a lib) c b)

  -- After any calls, whatever the runtime, the allocator and the verbs library answer at each of
  -- them: the verbs library has exactly the memory regions that the caches of the domains hold and
  -- those of which it refused the deregistration, the runtime has retained exactly the contexts
  -- that the domains hold and those of which it refused the release, and no descriptor is open.
  pub run-IsBalanced : (cs : List (Answers × Call)) → IsBalanced (run pd_end l nothing_held cs)
  run-IsBalanced cs =
      IsEven-IsBalanced (run pd_end l nothing_held cs)
        (run-IsEven nothing_held cs (λ h. refl, λ d. refl, refl))

module _ (gpu : Gpu) (p : Platform) (pd_end : ℕ) (l : Layout) where
  register-AllSound :
      (lib : Library) (id : ℕ) (rdma : RdmaDomain) (addr len : ℕ)
      → addr + len < 2 ^ 64
      → AllSound lib
      → AllSound (register gpu p pd_end lib id rdma addr len).0
  unfolding register with_domain
  register-AllSound lib id rdma addr len below s =
      let P : Library × Result (Unit {0}) → Type 0 = λ z. AllSound z.0 in
      elim (Bool-cases (addr == 0 || len == 0)) [
        | inl b ↦ rw b s
        | inr b ↦ rw b (
            option_keeps P (domain_find id lib.domains) _ _ s λ gd found.
              result_keeps P (get_rdma_pd pd_end rdma) _ _ (λ e. s)
                λ pd q.
                  result_keeps P (get_ptr_device_id gpu gd addr) _ _ (λ e. s)
                    λ device q'.
                      update_domain-All IsSound
                        (register_locked gpu p gd lib.world device pd addr len).0 lib.domains
                        (register_locked-IsSound gpu p gd lib.world device pd addr len
                          (domain_find-All IsSound id lib.domains gd found s) (ground arith, below))
                        s)
      ]

  translate-AllSound :
      (lib : Library) (id : ℕ) (dst : RdmaDomain) (addr len : ℕ)
      → AllSound lib
      → AllSound (translate gpu p pd_end lib id dst addr len).0
  unfolding translate with_domain
  translate-AllSound lib id dst addr len s =
      let P : Library × Result Translation → Type 0 = λ z. AllSound z.0 in
      option_keeps P (domain_find id lib.domains) _ _ s λ gd found.
        result_keeps P (get_rdma_pd pd_end dst) _ _ (λ e. s)
          λ pd q.
            update_domain-All IsSound (translate_locked gpu p gd lib.world dst pd addr len).0
              lib.domains
              (translate_locked-IsSound gpu p gd lib.world dst pd addr len
                (domain_find-All IsSound id lib.domains gd found s))
              s

  invalidate-AllSound :
      (lib : Library) (id addr len : ℕ) → AllSound lib → AllSound (invalidate lib id addr len)
  unfolding invalidate with_domain
  invalidate-AllSound lib id addr len s =
      option_keeps AllSound (domain_find id lib.domains) _ _ s λ gd found.
        update_domain-All IsSound (invalidate_range gd lib.world addr len).0 lib.domains
          (invalidate_range-IsSound gd lib.world addr len
            (domain_find-All IsSound id lib.domains gd found s))
          s

  destroy-AllSound : (lib : Library) (id : ℕ) → AllSound lib → AllSound (destroy lib id)
  unfolding destroy
  destroy-AllSound lib id s =
      option_keeps AllSound (domain_find id lib.domains) _ _ s
        (λ gd found. remove_domain-All IsSound id lib.domains s)

  created-AllSound :
      (lib : Library) (out : Library × Result ℕ) → Creates lib out → AllSound lib → AllSound out.0
  created-AllSound lib (lib', err e) (same, _, _, _) s = subst (All IsSound) (sym same) s
  created-AllSound lib (lib', ok id) (gd, more, _, mrs, regions, _, _, _) s =
      subst (All IsSound) (sym more) (
        All-append IsSound lib.domains (gd ∷ []) s
          (IsSound-at gd [] [] regions mrs tt tt tt tt, tt))

  execute-AllSound :
      (lib : Library) (a : Answers) (c : Call)
      → IsWithin (a, c)
      → AllSound lib
      → AllSound (execute pd_end l gpu p lib c)
  unfolding execute
  execute-AllSound lib a (create_domain has_domain opts) w s =
      created-AllSound lib (create gpu p l lib has_domain opts)
        (create-Creates gpu p l lib has_domain opts) s
  execute-AllSound lib a (register_range id rdma addr len) w s =
      register-AllSound lib id rdma addr len w s
  execute-AllSound lib a (translate_range id dst addr len) w s =
      translate-AllSound lib id dst addr len s
  execute-AllSound lib a (invalidate_domain id addr len) w s = invalidate-AllSound lib id addr len s
  execute-AllSound lib a (destroy_domain id) w s = destroy-AllSound lib id s

module _ (pd_end : ℕ) (l : Layout) where
  run-AllSound_from :
      (lib : Library) (cs : List (Answers × Call))
      → All IsWithin cs
      → AllSound lib
      → AllSound (run pd_end l lib cs)
  unfolding run
  run-AllSound_from lib [] w s = s
  run-AllSound_from lib ((a, c) ∷ cs) (w, ws) s =
      run-AllSound_from (execute pd_end l a.gpu a.platform (answering a lib) c) cs ws
        (execute-AllSound a.gpu a.platform pd_end l (answering a lib) a c w s)

  -- After any calls, each with any answers, of which those that register name ranges that end below
  -- 2^64, every domain is sound: its regions do not overlap, and its registered ranges are sorted,
  -- do not overlap in a protection domain, and are those of its regions.
  pub run-AllSound :
      (cs : List (Answers × Call)) → All IsWithin cs → AllSound (run pd_end l nothing_held cs)
  run-AllSound cs w = run-AllSound_from nothing_held cs w tt
