-- ===== src/Dmabuf/RoundTrip.antt =====
-- What a translation answers, after a registration and after an invalidation.
use mooncake_maca_spdk_dmabu.Prelude.{
  ℕ, ℤ, ◌+◌, ◌<◌, ◌≤◌, ◌^◌, true, false, none, some, ◌≡◌, ◌∙◌, inl, inr, refl, sym, subst, arith,
  Option-cases,
}
use mooncake_maca_spdk_dmabu.Dmabuf.Types.{
  Errno, einval, Result, ok, err, DmabufMr, Region, Domain, World, Gpu, Platform,
}
use mooncake_maca_spdk_dmabu.Dmabuf.Tree.{Has, All-Has, drop_hits}
use mooncake_maca_spdk_dmabu.Dmabuf.Tree.Insert.{place, Has-place_self, drop_hits_sound}
use mooncake_maca_spdk_dmabu.Dmabuf.Ranges.{
  range_contains, region_contains, region_overlaps, belongs_to, region_before, find_region,
}
use mooncake_maca_spdk_dmabu.Dmabuf.Contexts.{RdmaDomain}
use mooncake_maca_spdk_dmabu.Dmabuf.Register.{
  new_region, add_region, find_or_register, register_added, register_locked, translated,
  translation, translate_locked, Translation,
}
use mooncake_maca_spdk_dmabu.Dmabuf.Lifecycle.{invalidate_range}
use mooncake_maca_spdk_dmabu.Dmabuf.Lookup.{find_region_sound}
use mooncake_maca_spdk_dmabu.Dmabuf.Invariant.{IsRange, IsSound, add_region_outcome}
use mooncake_maca_spdk_dmabu.Dmabuf.Steps.{register_locked-IsSound, with_region-IsSound}
use mooncake_maca_spdk_dmabu.Dmabuf.Serving.{Serves, find_or_register-Serves, find_part}

-- The region of a registration that succeeds.
module _ (gpu : Gpu) (p : Platform) (gd : Domain) (w : World) (device : ℤ) (pd addr len : ℕ) where
  registered-Serves :
      (gd' : Domain) (w' : World) (e : DmabufMr)
      → IsSound gd
      → IsRange addr len
      → register_locked gpu p gd w device pd addr len ≡ (gd', w', ok e)
      → (r : Region) × (region_contains r addr len ≡ true)
        × (region_contains r r.addr r.len ≡ true)
        × (r.addr + r.len < 2 ^ 64)
        × Serves gd' r pd r.addr r.len e
  unfolding find_or_register register_added new_region
  registered-Serves gd' w' e s range h = elim (add_region_outcome p gd addr len device s range) [
    | inl (x, q) ↦ absurd (failed x q)
    | inr (inl (r, q, has, c, d)) ↦
        let v = All-Has (λ x. IsRange x.addr x.len) gd.regions r s.ranges has in
        let whole : region_contains r r.addr r.len ≡ true = self r v in
        (
          r,
          c,
          whole,
          v.1,
          find_or_register-Serves gpu p gd w r pd r.addr r.len gd' w' e s has whole
              (sym (after (gd, ok r) q) ∙ h),
        )
    | inr (inr (n, q, fits)) ↦
        let x = new_region addr len device in
        let gd1 = record gd { regions = place region_before x gd.regions } in
        let whole : region_contains x x.addr x.len ≡ true = new_self in
        (
          x,
          new_self,
          whole,
          unfold new_region in range.1,
          find_or_register-Serves gpu p gd1 w x pd x.addr x.len gd' w' e
              (with_region-IsSound gd addr len device s range fits)
              (Has-place_self region_before x gd.regions) whole (sym (after (gd1, ok x) q) ∙ h),
        )
  ]
    where
      after :
          (out : Domain × Result Region)
          → add_region p gd addr len device ≡ out
          → register_locked gpu p gd w device pd addr len ≡ register_added gpu p out.0 w pd out.1
      after out q =
          unfold register_locked in
          subst
            (λ z.
              register_added gpu p (add_region p gd addr len device).0 w pd
                (add_region p gd addr len device).1
              ≡ register_added gpu p z.0 w pd z.1)
            q refl

      failed : (x : Errno) → add_region p gd addr len device ≡ (gd, err x) → ⊥
      failed x q =
          let out : register_added gpu p gd w pd (err x) ≡ (gd', w', ok e) =
            sym (after (gd, err x) q) ∙ h in
          unfold register_added in ground arith

      self : (r : Region) → IsRange r.addr r.len → region_contains r r.addr r.len ≡ true
      self r v = unfold region_contains in ground arith

      new_self : region_contains (new_region addr len device) addr len ≡ true
      new_self = unfold region_contains new_region in ground arith

  -- After a registration that succeeds, in a sound domain and for a range below 2^64, each part of
  -- the range translates to itself with the keys of the registered entry, and nothing changes.
  pub register-translate :
      (gd' : Domain) (w' w2 : World) (e : DmabufMr) (dst : RdmaDomain) (a n : ℕ)
      → IsSound gd
      → IsRange addr len
      → register_locked gpu p gd w device pd addr len ≡ (gd', w', ok e)
      → 0 < n
      → addr ≤ a
      → a + n ≤ addr + len
      → translate_locked gpu p gd' w2 dst pd a n ≡ (gd', w2, ok (translation dst a n e.mr))
  unfolding translate_locked find_or_register translated
  register-translate gd' w' w2 e dst a n s range h pos low high =
      let (r, c, whole, below, serves) = registered-Serves gd' w' e s range h in
      let sound : IsSound gd' =
        subst (λ z. IsSound z.0) h
          (register_locked-IsSound gpu p gd w device pd addr len s range) in
      let (found, mr) =
        find_part gpu p gd' w r pd r.addr r.len e a n sound serves whole below pos (lower r c below)
          (upper r c below) in
      ground arith
    where
      lower :
          (r : Region) → region_contains r addr len ≡ true → r.addr + r.len < 2 ^ 64 → r.addr ≤ a
      lower r c b = unfold region_contains in ground arith

      upper :
          (r : Region)
          → region_contains r addr len ≡ true
          → r.addr + r.len < 2 ^ 64
          → a + n ≤ r.addr + r.len
      upper r c b = unfold region_contains in ground arith

-- The translation is of the range itself, with the keys of an entry of the cache that holds the
-- whole range in the protection domain.
abbrev pub IsServed : Domain → ℕ → ℕ → ℕ → Translation → Type 0
IsServed gd pd addr len t =
    (t.iov_base ≡ addr)
    × (t.iov_len ≡ len)
    × ((e : DmabufMr) × Has e gd.mr_cache
        × (e.pd ≡ pd)
        × (e.addr ≤ addr)
        × (addr + len ≤ e.addr + e.len)
        × (t.lkey ≡ e.mr.lkey)
        × (t.rkey ≡ e.mr.rkey))

module _ (gpu : Gpu) (p : Platform) (gd : Domain) (w : World) (dst : RdmaDomain) (pd addr len : ℕ)
    (gd' : Domain) (w' : World) (t : Translation) where
  answered :
      (r : Region) (out : Domain × World × Result DmabufMr)
      → IsSound gd
      → addr + len < 2 ^ 64
      → Has r gd.regions
      → region_contains r addr len ≡ true
      → find_or_register gpu p gd w r pd addr len ≡ out
      → translated dst addr len out ≡ (gd', w', ok t)
      → IsServed gd' pd addr len t
  unfolding translated translation
  answered r (gd1, w1, err e) s below has c o h = absurd (cc h)
  answered r (gd1, w1, ok e) s below has c o h =
      let (there, hit, _) = find_or_register-Serves gpu p gd w r pd addr len gd1 w1 e s has c o in
      let gd_eq : gd1 ≡ gd' = ground arith in
      (
        ground arith,
        ground arith,
        (
          e,
          subst (λ z. Has e z.mr_cache) gd_eq there,
          unfold belongs_to in ground arith,
          unfold range_contains in ground arith,
          unfold range_contains in ground arith,
          ground arith,
          ground arith,
        ),
      )

  -- A translation that succeeds, in a sound domain and for a range below 2^64, answers the range
  -- itself with the keys of an entry of the cache that holds the whole range, in the protection
  -- domain that was asked for.
  pub translate_sound :
      IsSound gd
      → addr + len < 2 ^ 64
      → translate_locked gpu p gd w dst pd addr len ≡ (gd', w', ok t)
      → IsServed gd' pd addr len t
  translate_sound s below h = elim (Option-cases (find_region gd addr len)) [
    | inl n ↦ absurd (refused n)
    | inr (r, q) ↦
        let (has, c) = find_region_sound gd addr len r q in
        answered r (find_or_register gpu p gd w r pd addr len) s below has c refl
          (sym (found r q) ∙ h)
  ]
    where
      refused : find_region gd addr len ≡ none → ⊥
      refused n = unfold translate_locked in ground arith

      found :
          (r : Region)
          → find_region gd addr len ≡ some r
          → translate_locked gpu p gd w dst pd addr len
            ≡ translated dst addr len (find_or_register gpu p gd w r pd addr len)
      found r q = unfold translate_locked in ground arith

-- After the invalidation of a range that ends below 2^64 and does not start at NULL, in a sound
-- domain, no range below 2^64 that shares an address with it translates, until a region is added
-- again.
pub invalidate-translate :
    (gpu : Gpu) (p : Platform) (gd : Domain) (w w' : World) (dst : RdmaDomain) (pd addr len a n : ℕ)
    → IsSound gd
    → 0 < addr
    → IsRange addr len
    → IsRange a n
    → a < addr + len
    → addr < a + n
    → translate_locked gpu p (invalidate_range gd w addr len).0 w' dst pd a n
      ≡ ((invalidate_range gd w addr len).0, w', err einval)
unfolding translate_locked
invalidate-translate gpu p gd w w' dst pd addr len a n s pos range part left right =
    elim (Option-cases (find_region (invalidate_range gd w addr len).0 a n)) [
      | inl missing ↦ ground arith
      | inr (r, q) ↦
          let (has, c) = find_region_sound (invalidate_range gd w addr len).0 a n r q in
          let (there, clear) =
            drop_hits_sound (λ x. region_overlaps x addr len) gd.regions r
              (subst (λ z. Has r z) dropped has) in
          absurd (clash r c clear)
    ]
  where
    dropped :
        (invalidate_range gd w addr len).0.regions
        ≡ drop_hits (λ x. region_overlaps x addr len) gd.regions
    dropped = unfold invalidate_range in ground arith

    clash : (r : Region) → region_contains r a n ≡ true → region_overlaps r addr len ≡ false → ⊥
    clash r c o = unfold region_contains region_overlaps in ground arith
