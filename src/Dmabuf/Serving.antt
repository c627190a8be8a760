-- ===== src/Dmabuf/Serving.antt =====
-- The entry of the cache by which a region of gpu_dmabuf.c serves a range.
use mooncake_maca_spdk_dmabu.Prelude.{
  ℕ, ◌+◌, ◌<◌, ◌≤◌, ◌^◌, true, none, some, ◌≡◌, ◌∙◌, inl, inr, sym, subst, arith, Option-cases,
}
use mooncake_maca_spdk_dmabu.Dmabuf.Types.{
  ok, IbvMr, DmabufMr, Region, Domain, World, Gpu, Platform,
}
use mooncake_maca_spdk_dmabu.Dmabuf.Tree.{Has, All-Has}
use mooncake_maca_spdk_dmabu.Dmabuf.Tree.Insert.{Has-place_self}
use mooncake_maca_spdk_dmabu.Dmabuf.Ranges.{
  device_eq, range_contains, region_contains, belongs_to, mr_before, find_mr, find_region,
}
use mooncake_maca_spdk_dmabu.Dmabuf.Register.{new_mr, register_mr, find_or_register}
use mooncake_maca_spdk_dmabu.Dmabuf.Lookup.{
  hits_mr, find_region_unique, find_mr_sound, find_mr_unique,
}
use mooncake_maca_spdk_dmabu.Dmabuf.Invariant.{IsRange, IsSound}
use mooncake_maca_spdk_dmabu.Dmabuf.Caching.{Cached, register_mr-Cached}

-- The entry serves the range in the protection domain, on the region's device.
abbrev pub Serves : Domain → Region → ℕ → ℕ → ℕ → DmabufMr → Type 0
Serves gd r pd addr len e =
    Has e gd.mr_cache × (hits_mr r.device_id pd addr len e ≡ true) × Has r gd.regions

module _ (gpu : Gpu) (p : Platform) (gd : Domain) (w : World) (r : Region) (pd addr len : ℕ) where
  pub find_or_register-Serves :
      (gd' : Domain) (w' : World) (e : DmabufMr)
      → IsSound gd
      → Has r gd.regions
      → region_contains r addr len ≡ true
      → find_or_register gpu p gd w r pd addr len ≡ (gd', w', ok e)
      → Serves gd' r pd addr len e
  find_or_register-Serves gd' w' e s has c h =
      elim (Option-cases (find_mr gd r.device_id pd addr len)) [
        | inr (x, q) ↦
            let (gd_eq, e_eq) = kept x q in
            let (there, hit) = find_mr_sound gd r.device_id pd addr len x q in
            subst (λ z. Serves z r pd addr len e) (sym gd_eq)
              (subst (λ z. Serves gd r pd addr len z) (sym e_eq) (there, hit, has))
        | inl n ↦
            let range = All-Has (λ x. IsRange x.addr x.len) gd.regions r s.ranges has in
            let out : register_mr gpu p gd w r.device_id pd r.addr r.len ≡ (gd', w', ok e) =
              sym (made n) ∙ h in
            let cached = register_mr-Cached gpu p gd w r.device_id pd r.addr r.len s range in
            served
              (subst (λ z. Cached gd.regions gd.mr_cache r.device_id pd r.addr r.len z) out cached)
      ]
    where
      kept : (x : DmabufMr) → find_mr gd r.device_id pd addr len ≡ some x → (gd' ≡ gd) × (e ≡ x)
      kept x q = unfold find_or_register in ground arith

      made :
          find_mr gd r.device_id pd addr len ≡ none
          → find_or_register gpu p gd w r pd addr len
            ≡ register_mr gpu p gd w r.device_id pd r.addr r.len
      made n = unfold find_or_register in ground arith

      hits_new :
          (mr : IbvMr)
          → hits_mr r.device_id pd addr len (new_mr r.addr r.len r.device_id pd mr) ≡ true
      hits_new mr =
          unfold belongs_to range_contains region_contains device_eq new_mr in ground arith

      served :
          Cached gd.regions gd.mr_cache r.device_id pd r.addr r.len (gd', w', ok e)
          → Serves gd' r pd addr len e
      served (q, inl (x, e', c)) = absurd (cc e')
      served (q, inr (mr, e', c)) =
          let x = new_mr r.addr r.len r.device_id pd mr in
          let e_eq : e ≡ x = cc e' in
          subst (λ z. Serves gd' r pd addr len z) (sym e_eq)
            (
              subst (λ z. Has x z) (sym c) (Has-place_self mr_before x gd.mr_cache),
              hits_new mr,
              subst (λ z. Has r z) (sym q) has,
            )

  -- What is found in a sound domain for a part of the range that an entry serves.
  pub find_part :
      (e : DmabufMr) (a n : ℕ)
      → IsSound gd
      → Serves gd r pd addr len e
      → region_contains r addr len ≡ true
      → addr + len < 2 ^ 64
      → 0 < n
      → addr ≤ a
      → a + n ≤ addr + len
      → (find_region gd a n ≡ some r) × (find_mr gd r.device_id pd a n ≡ some e)
  find_part e a n s (there, hit, has) c below pos low high = (
    find_region_unique gd a n r s.apart pos (omega arith) has inside,
    find_mr_unique gd r.device_id pd a n e s.cached pos (omega arith) there hit',
  )
    where
      inside : region_contains r a n ≡ true
      inside = unfold region_contains in ground arith

      hit' : hits_mr r.device_id pd a n e ≡ true
      hit' = unfold range_contains in ground arith
