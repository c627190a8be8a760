-- ===== src/Dmabuf/Caching.antt =====
-- What `gpu_dmabuf_register_mr` leaves in the cache of registered ranges.
use mooncake_maca_spdk_dmabu.Prelude.{
  ℕ, ℤ, Bool, true, false, none, some, List, [], ◌∷◌, ◌≡◌, ◌⊎◌, inl, inr, refl, sym, subst, arith,
  if◌then◌else◌, All, Option-cases,
}
use mooncake_maca_spdk_dmabu.Dmabuf.Types.{
  Errno, eexist, enomem, Result, ok, err, IbvMr, DmabufMr, Region, Domain, World, reg_mr,
  reg_failed, RegAnswer, Gpu, Platform,
}
use mooncake_maca_spdk_dmabu.Dmabuf.Tree.{Has, All-Has, rb_insert}
use mooncake_maca_spdk_dmabu.Dmabuf.Tree.Insert.{
  Fits, place, insert-place, Pairwise-place, All-place,
}
use mooncake_maca_spdk_dmabu.Dmabuf.Ranges.{mr_before, find_overlapping_mr}
use mooncake_maca_spdk_dmabu.Dmabuf.Contexts.{get_cuda_ctx}
use mooncake_maca_spdk_dmabu.Dmabuf.Register.{
  new_mr, cache_mr, register_fd, register_exported, register_in_ctx, register_mr, export_in_ctx,
  errno_of, cache_answer, remove_first,
}
use mooncake_maca_spdk_dmabu.Dmabuf.Lookup.{mr_apart, overlapping_mr-none, overlaps_mr}
use mooncake_maca_spdk_dmabu.Dmabuf.Invariant.{
  IsRange, IsBacked, IsSound, IsSound-at, mr-Fits, mr_apart_trans,
}

-- The trees are as they were, or a new entry is in the cache.
abbrev pub Cached :
    List Region → List DmabufMr → ℤ → ℕ → ℕ → ℕ → Domain × World × Result DmabufMr → Type 0
Cached regions cache device pd addr len out =
    (out.0.regions ≡ regions)
    × (((e : Errno) × (out.2 ≡ err e) × (out.0.mr_cache ≡ cache))
        ⊎ ((mr : IbvMr) × (out.2 ≡ ok (new_mr addr len device pd mr))
            × (out.0.mr_cache ≡ place mr_before (new_mr addr len device pd mr) cache)))

module _ (device : ℤ) (pd addr len : ℕ) (gd : Domain)
    (fits : (mr : IbvMr)
      → All (Fits mr_before mr_apart (new_mr addr len device pd mr)) gd.mr_cache) where
  abbrev Keeps : Domain → Type 0
  Keeps gd' = (gd'.regions ≡ gd.regions) × (gd'.mr_cache ≡ gd.mr_cache)

  abbrev CachedGd : Domain × World × Result DmabufMr → Type 0
  CachedGd = Cached gd.regions gd.mr_cache device pd addr len

  cache_mr-Cached :
      (gd' : Domain) (w : World) (mr : IbvMr)
      → Keeps gd'
      → CachedGd (cache_mr gd' w (new_mr addr len device pd mr))
  unfolding cache_mr
  cache_mr-Cached gd' w mr (r, c) =
      let x = new_mr addr len device pd mr in
      let ins = insert-place mr_before mr_apart x (mr_apart_trans x) gd.mr_cache (fits mr) in
      let q : rb_insert mr_before x gd'.mr_cache ≡ some (place mr_before x gd.mr_cache) =
        rw c ins in
      rw (q, cache_mr) (r, inr (mr, refl, refl))

  cache_answer-Cached :
      (gd' : Domain) (w : World) (a : RegAnswer)
      → Keeps gd'
      → CachedGd (cache_answer gd' w device pd addr len a)
  unfolding cache_answer
  cache_answer-Cached gd' w (reg_mr mr) k =
      cache_mr-Cached gd' (record w { live = mr.handle ∷ w.live }) mr k
  cache_answer-Cached gd' w (reg_failed n) k = (k.0, inl (errno_of n, refl, k.1))

  register_exported-Cached :
      (p : Platform) (gd' : Domain) (w : World) (exported : Result (ℕ × ℕ))
      → Keeps gd'
      → CachedGd (register_exported p gd' w device pd addr len exported)
  unfolding register_exported register_fd
  register_exported-Cached p gd' w (err e) k = (k.0, inl (e, refl, k.1))
  register_exported-Cached p gd' w (ok (fd, offset)) k =
      cache_answer-Cached gd' (record w { fds = remove_first fd w.fds })
        (p.reg_dmabuf_mr pd offset len addr fd gd'.rdma_access_flags) k

  register_in_ctx-Cached :
      (gpu : Gpu) (p : Platform) (gd' : Domain) (w : World) (ctx : Result ℕ)
      → Keeps gd'
      → CachedGd (register_in_ctx gpu p gd' w device pd addr len ctx)
  unfolding register_in_ctx
  register_in_ctx-Cached gpu p gd' w (err e) k = (k.0, inl (e, refl, k.1))
  register_in_ctx-Cached gpu p gd' w (ok c) k =
      register_exported-Cached p gd' (export_in_ctx gpu c addr len w).0
        (export_in_ctx gpu c addr len w).1 k

get_cuda_ctx_keeps :
    (gpu : Gpu) (p : Platform) (gd : Domain) (w : World) (device : ℤ)
    → ((get_cuda_ctx gpu p gd w device).0.regions ≡ gd.regions)
      × ((get_cuda_ctx gpu p gd w device).0.mr_cache ≡ gd.mr_cache)
unfolding get_cuda_ctx
get_cuda_ctx_keeps gpu p gd w device = (ground arith, ground arith)

module _ (gpu : Gpu) (p : Platform) (gd : Domain) (w : World) (device : ℤ) (pd addr len : ℕ) where
  abbrev pub registered_mr : Domain × World × Result DmabufMr
  registered_mr = register_mr gpu p gd w device pd addr len

  -- The entries of the cache are ranges.
  cached_ranges :
      (regions : List Region) (m : List DmabufMr)
      → All (λ r. IsRange r.addr r.len) regions
      → All (IsBacked regions) m
      → All (λ e. IsRange e.addr e.len) m
  cached_ranges regions [] rs b = tt
  cached_ranges regions (e ∷ m) rs ((r, has, a, l, d), bs) =
      let v = All-Has (λ r. IsRange r.addr r.len) regions r rs has in
      ((omega arith, omega arith), cached_ranges regions m rs bs)

  new_mr-Fits :
      (mr : IbvMr) (m : List DmabufMr)
      → IsRange addr len
      → All (λ e. IsRange e.addr e.len) m
      → All (λ e. overlaps_mr device pd addr len e ≡ false) m
      → All (Fits mr_before mr_apart (new_mr addr len device pd mr)) m
  new_mr-Fits mr [] range v c = tt
  new_mr-Fits mr (e ∷ m) range (v, vs) (c, cs) =
      (mr-Fits addr len device pd mr e range v c, new_mr-Fits mr m range vs cs)

  -- A range of which no registered one overlaps fits into the cache.
  pub cache-Fits :
      IsSound gd
      → IsRange addr len
      → find_overlapping_mr gd device pd addr len ≡ none
      → (mr : IbvMr) → All (Fits mr_before mr_apart (new_mr addr len device pd mr)) gd.mr_cache
  cache-Fits s range n mr =
      new_mr-Fits mr gd.mr_cache range (cached_ranges gd.regions gd.mr_cache s.ranges s.backed)
        (overlapping_mr-none gd device pd addr len s.cached range.0 range.1 n)

  pub register_mr-Cached :
      IsSound gd → IsRange addr len → Cached gd.regions gd.mr_cache device pd addr len registered_mr
  unfolding register_mr
  register_mr-Cached s range = elim (Option-cases (find_overlapping_mr gd device pd addr len)) [
    | inr (e, q) ↦ rw (q, register_mr) (refl, inl (eexist, refl, refl))
    | inl n ↦ rw (n, register_mr) (allocated n p.alloc_mr)
  ]
    where
      -- With and without memory for the entry.
      allocated :
          find_overlapping_mr gd device pd addr len ≡ none
          → (b : Bool)
          → Cached gd.regions gd.mr_cache device pd addr len (
              if b
              then register_in_ctx gpu p
                  (get_cuda_ctx gpu p gd w device).0
                  (get_cuda_ctx gpu p gd w device).1
                  device
                  pd
                  addr
                  len
                  (get_cuda_ctx gpu p gd w device).2
              else (gd, w, err enomem))
      allocated n false = (refl, inl (enomem, refl, refl))
      allocated n true =
          register_in_ctx-Cached device pd addr len gd (cache-Fits s range n) gpu p
            (get_cuda_ctx gpu p gd w device).0 (get_cuda_ctx gpu p gd w device).1
            (get_cuda_ctx gpu p gd w device).2 (get_cuda_ctx_keeps gpu p gd w device)

  -- The registered ranges stay sound, in the same regions.
  pub register_mr-IsSound :
      IsSound gd
      → IsRange addr len
      → (r : Region) → Has r gd.regions
      → r.addr ≡ addr
      → r.len ≡ len
      → r.device_id ≡ device
      → IsSound registered_mr.0
  register_mr-IsSound s range r has ea el ed =
      let (q, outcome) = register_mr-Cached s range in
      elim (Option-cases (find_overlapping_mr gd device pd addr len)) [
        | inr (e, o) ↦ subst IsSound (sym (refused e o)) s
        | inl n ↦ elim outcome [
          | inl (e, _, c) ↦
              IsSound-at registered_mr.0 gd.regions gd.mr_cache q c s.apart s.ranges s.cached
                s.backed
          | inr (mr, _, c) ↦
              let x = new_mr addr len device pd mr in
              let fits = cache-Fits s range n mr in
              IsSound-at registered_mr.0 gd.regions (place mr_before x gd.mr_cache) q c s.apart
                s.ranges
                (Pairwise-place mr_before mr_apart x (mr_apart_trans x) gd.mr_cache fits s.cached)
                (All-place mr_before x (IsBacked gd.regions) gd.mr_cache
                  (
                    r,
                    has,
                    unfold new_mr in sym ea,
                    unfold new_mr in sym el,
                    unfold new_mr in sym ed,
                  )
                  s.backed)
        ]
      ]
    where
      refused :
          (e : DmabufMr) → find_overlapping_mr gd device pd addr len ≡ some e → registered_mr.0 ≡ gd
      refused e o = unfold register_mr in ground arith
