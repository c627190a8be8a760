-- ===== src/Dmabuf/Creation.antt =====
-- Creating a domain of gpu_dmabuf.c, on every branch.
use mooncake_maca_spdk_dmabu.Prelude.{
  total, total-append, ℕ, ℤ, ◌+◌, ◌==◌, ◌&&◌, Bool, not, Option, [], ◌∷◌, ◌++◌, ◌≡◌, ◌∙◌, refl, sym,
  ap, arith, if◌then◌else◌, if_keeps, option_keeps, is_nonneg, ltb, pos_part, neg_part,
}
use mooncake_maca_spdk_dmabu.Dmabuf.Types.{
  Errno, einval, enodev, enomem, Result, ok, err, DmabufMr, Domain, World, Gpu, Platform,
  result_keeps,
}
use mooncake_maca_spdk_dmabu.Dmabuf.Lifecycle.{
  Library, Opts, Layout, chosen_opts, new_domain, retain_primary, release_owned, publish,
  create_with, create,
}
use mooncake_maca_spdk_dmabu.Dmabuf.Accounts.{one, count, mrs_of, count_device, ctxs_of}
use mooncake_maca_spdk_dmabu.Dmabuf.Releases.{owned_of, count-release_owned, release_owned_keeps}
use mooncake_maca_spdk_dmabu.Dmabuf.Runs.{IsEven}

-- An error leaves the world; a domain is empty and holds what the world has more.
abbrev Retains : World → World × Result Domain → Type 0
Retains w (w', err e) = w' ≡ w
Retains w (w', ok gd) =
    (gd.mr_cache ≡ [])
    × (gd.regions ≡ [])
    × (w'.live ≡ w.live)
    × (w'.fds ≡ w.fds)
    × ((d : ℤ) → count_device d w'.retained ≡ count_device d w.retained + ctxs_of d gd)
    × ((d : ℤ) → ctxs_of d gd ≡ owned_of d gd)

retain_primary-Retains :
    (gpu : Gpu) (o : Opts) (w : World) → Retains w (retain_primary gpu (new_domain o) w)
unfolding retain_primary new_domain ctxs_of
retain_primary-Retains gpu o w =
    if_keeps (Retains w) (o.cuda_context == 0 && is_nonneg o.cuda_device_id) _ _
      (option_keeps (Retains w) (gpu.device_get o.cuda_device_id) _ _ refl λ device q.
        option_keeps (Retains w) (gpu.primary_ctx_retain device) _ _ refl
          λ ctx q'. (refl, refl, refl, refl, λ d. omega arith, λ d. omega arith))
      (refl, refl, refl, refl, λ d. omega arith, λ d. omega arith)

-- What a creation does to the table and the world: nothing that counts after an error, one more
-- empty domain otherwise.
abbrev pub Creates : Library → Library × Result ℕ → Type 0
Creates lib (lib', err e) =
    (lib'.domains ≡ lib.domains)
    × (lib'.world.live ≡ lib.world.live)
    × (lib'.world.fds ≡ lib.world.fds)
    × ((d : ℤ) → count_device d lib'.world.retained ≡ count_device d lib.world.retained)
Creates lib (lib', ok id) =
    (gd : Domain) × (lib'.domains ≡ lib.domains ++ gd ∷ [])
    × (gd.domain ≡ id)
    × (gd.mr_cache ≡ [])
    × (gd.regions ≡ [])
    × (lib'.world.live ≡ lib.world.live)
    × (lib'.world.fds ≡ lib.world.fds)
    × ((d : ℤ)
        → count_device d lib'.world.retained ≡ count_device d lib.world.retained + ctxs_of d gd)

unchanged : (lib : Library) (e : Errno) → Creates lib (lib, err e)
unchanged lib e = (refl, refl, refl, λ d. refl)

module _ (p : Platform) (l : Layout) (lib : Library) (o : Opts) where
  publish-Creates :
      (gd : Domain) (w : World)
      → Retains lib.world (w, ok gd)
      → Creates lib (publish p l lib o gd w)
  unfolding publish ctxs_of
  publish-Creates gd w (mrs, regions, live, fds, held, own) =
      result_keeps (Creates lib) (p.memory_domain_create (if o.id == 0 then l.default_id else o.id))
        _ _ (λ e. released)
        (λ id q. (record gd { domain = id }, refl, refl, mrs, regions, live, fds, held))
    where
      released :
          (lib.domains ≡ lib.domains)
          × ((release_owned gd w).live ≡ lib.world.live)
          × ((release_owned gd w).fds ≡ lib.world.fds)
          × ((d : ℤ)
              → count_device d (release_owned gd w).retained ≡ count_device d lib.world.retained)
      released =
          let (fds', live') = release_owned_keeps gd w in
          let back = count-release_owned gd w (λ d. omega (arith, held d, own d)) in
          (refl, live' ∙ live, fds' ∙ fds, λ d. omega (arith, back d, held d, own d))

module _ (gpu : Gpu) (p : Platform) (l : Layout) (lib : Library) where
  create_with-Creates : (o : Opts) → Creates lib (create_with gpu p l lib o)
  unfolding create_with
  create_with-Creates o =
      if_keeps (Creates lib) (ltb (pos_part o.cuda_device_id + 1) (neg_part o.cuda_device_id)) _ _
        (unchanged lib einval)
        (if_keeps (Creates lib) (not p.alloc_domain) _ _ (unchanged lib enomem) (
          if_keeps (Creates lib) (not gpu.init) _ _ (unchanged lib enodev) (
            retained (retain_primary gpu (new_domain o) lib.world)
              (retain_primary-Retains gpu o lib.world))))
    where
      retained :
          (out : World × Result Domain)
          → Retains lib.world out
          → Creates lib (elim (out.1) as (λ _. Library × Result ℕ) [
            | err e ↦ (record lib { world = out.0 }, err e)
            | ok d ↦ publish p l lib o d out.0
          ])
      retained (w, err e) same = (
        refl,
        ap (λ (z : World). z.live) same,
        ap (λ (z : World). z.fds) same,
        λ d. ap (λ (z : World). count_device d z.retained) same,
      )
      retained (w, ok gd) h = publish-Creates p l lib o gd w h

  -- A creation that fails, on any branch, leaves the table, the memory regions and the descriptors,
  -- and has the runtime release the context that it retained; one that succeeds adds one empty
  -- domain with the identifier that it answers, and the context that the process holds more is the
  -- domain's.
  pub create-Creates :
      (has_domain : Bool) (opts : Option Opts) → Creates lib (create gpu p l lib has_domain opts)
  unfolding create
  create-Creates has_domain opts =
      if_keeps (Creates lib) has_domain _ _
        (result_keeps (Creates lib) (chosen_opts l opts) _ _ (λ e. unchanged lib e)
          (λ o q. create_with-Creates o))
        (unchanged lib einval)

  created-IsEven : (out : Library × Result ℕ) → Creates lib out → IsEven lib → IsEven out.0
  created-IsEven (lib', err e) (same, live, fds, held) (a, b, c) = (
    λ h. ap (count h) live ∙ a h ∙ ap (total (mrs_of h)) (sym same),
    λ d. held d ∙ b d ∙ ap (total (ctxs_of d)) (sym same),
    fds ∙ c,
  )
  created-IsEven (lib', ok id) (gd, more, _, mrs, _, live, fds, held) (a, b, c) = (
    λ h.
        let mine : mrs_of h gd ≡ 0 = ap (λ z. total (λ (e : DmabufMr). one h e.mr.handle) z) mrs in
        let all = ap (total (mrs_of h)) more ∙ total-append (mrs_of h) lib.domains (gd ∷ []) in
        let same = ap (count h) live in omega (arith, mine, all, same, a h),
    λ d.
        let all = ap (total (ctxs_of d)) more ∙ total-append (ctxs_of d) lib.domains (gd ∷ []) in
        omega (arith, all, held d, b d),
    fds ∙ c,
  )

  pub create-IsEven :
      (has_domain : Bool) (opts : Option Opts)
      → IsEven lib
      → IsEven (create gpu p l lib has_domain opts).0
  create-IsEven has_domain opts =
      created-IsEven (create gpu p l lib has_domain opts) (create-Creates has_domain opts)
