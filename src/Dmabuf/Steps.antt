-- ===== src/Dmabuf/Steps.antt =====
-- Every operation on a domain of gpu_dmabuf.c keeps the domain sound.
use mooncake_maca_spdk_dmabu.Prelude.{
  ℕ, ℤ, ◌==◌, ◌||◌, false, none, some, List, [], ◌∷◌, ◌≡◌, inl, inr, refl, sym, subst, arith, All,
  Bool-cases, Option-cases,
}
use mooncake_maca_spdk_dmabu.Dmabuf.Types.{
  Result, ok, err, DmabufMr, Region, Domain, World, Gpu, Platform,
}
use mooncake_maca_spdk_dmabu.Dmabuf.Tree.{Has, All-Has, drop_hits}
use mooncake_maca_spdk_dmabu.Dmabuf.Tree.Insert.{
  Fits, place, Pairwise-place, All-place, Has-place, Has-place_self, All-drop_hits,
  Pairwise-drop_hits, Has-drop_hits,
}
use mooncake_maca_spdk_dmabu.Dmabuf.Ranges.{
  region_before, range_overlaps, region_overlaps, find_mr, find_region,
}
use mooncake_maca_spdk_dmabu.Dmabuf.Contexts.{RdmaDomain}
use mooncake_maca_spdk_dmabu.Dmabuf.Register.{
  new_region, add_region, register_mr, find_or_register, register_added, register_locked,
  translated, translate_locked,
}
use mooncake_maca_spdk_dmabu.Dmabuf.Lifecycle.{drop_range, invalidate_range}
use mooncake_maca_spdk_dmabu.Dmabuf.Lookup.{region_apart, mr_apart, find_region_sound}
use mooncake_maca_spdk_dmabu.Dmabuf.Invariant.{
  IsRange, IsBacked, IsSound, add_region_outcome, region_apart_trans,
}
use mooncake_maca_spdk_dmabu.Dmabuf.Caching.{register_mr-IsSound}

-- More regions back what some of them back.
IsBacked-mono :
    (regions regions' : List Region) (m : List DmabufMr)
    → ((r : Region) → Has r regions → Has r regions')
    → All (IsBacked regions) m
    → All (IsBacked regions') m
IsBacked-mono regions regions' [] f b = tt
IsBacked-mono regions regions' (e ∷ m) f ((r, has, a, l, d), rest) =
    ((r, f r has, a, l, d), IsBacked-mono regions regions' m f rest)

module _ (gpu : Gpu) (p : Platform) (gd : Domain) (w : World) where
  find_or_register-IsSound :
      (r : Region) (pd addr len : ℕ)
      → IsSound gd
      → Has r gd.regions
      → IsSound (find_or_register gpu p gd w r pd addr len).0
  unfolding find_or_register
  find_or_register-IsSound r pd addr len s has =
      elim (Option-cases (find_mr gd r.device_id pd addr len)) [
        | inr (e, q) ↦ subst IsSound (sym (kept e q)) s
        | inl n ↦ subst IsSound (sym (made n)) (
            register_mr-IsSound gpu p gd w r.device_id pd r.addr r.len s
              (All-Has (λ x. IsRange x.addr x.len) gd.regions r s.ranges has) r has refl refl refl)
      ]
    where
      kept :
          (e : DmabufMr)
          → find_mr gd r.device_id pd addr len ≡ some e
          → (find_or_register gpu p gd w r pd addr len).0 ≡ gd
      kept e q = unfold find_or_register in ground arith

      made :
          find_mr gd r.device_id pd addr len ≡ none
          → (find_or_register gpu p gd w r pd addr len).0
            ≡ (register_mr gpu p gd w r.device_id pd r.addr r.len).0
      made n = unfold find_or_register in ground arith

  -- A translation of any range keeps the domain sound.
  pub translate_locked-IsSound :
      (dst : RdmaDomain) (pd addr len : ℕ)
      → IsSound gd
      → IsSound (translate_locked gpu p gd w dst pd addr len).0
  translate_locked-IsSound dst pd addr len s = elim (Option-cases (find_region gd addr len)) [
    | inl n ↦ subst IsSound (sym (refused n)) s
    | inr (r, q) ↦
        subst IsSound (sym (found r q))
          (find_or_register-IsSound r pd addr len s (find_region_sound gd addr len r q).0)
  ]
    where
      refused :
          find_region gd addr len ≡ none → (translate_locked gpu p gd w dst pd addr len).0 ≡ gd
      refused n = unfold translate_locked in ground arith

      same : (out : Domain × World × Result DmabufMr) → (translated dst addr len out).0 ≡ out.0
      same (gd', w', ok e) = unfold translated in refl
      same (gd', w', err e) = unfold translated in refl

      found :
          (r : Region)
          → find_region gd addr len ≡ some r
          → (translate_locked gpu p gd w dst pd addr len).0
            ≡ (find_or_register gpu p gd w r pd addr len).0
      found r q =
          unfold translate_locked in
          ground (arith, same (find_or_register gpu p gd w r pd addr len))

-- A domain with one more region.
pub with_region-IsSound :
    (gd : Domain) (addr len : ℕ) (device : ℤ)
    → IsSound gd
    → IsRange addr len
    → All (Fits region_before region_apart (new_region addr len device)) gd.regions
    → IsSound (record gd { regions = place region_before (new_region addr len device) gd.regions })
unfolding new_region
with_region-IsSound gd addr len device s range fits =
    let x = new_region addr len device in
    record {
      apart =
          Pairwise-place region_before region_apart x (region_apart_trans x) gd.regions fits
            s.apart;
      ranges = All-place region_before x (λ r. IsRange r.addr r.len) gd.regions range s.ranges;
      cached = s.cached;
      backed =
          IsBacked-mono gd.regions (place region_before x gd.regions) gd.mr_cache
            (λ r h. Has-place region_before x gd.regions r h) s.backed;
    }

module _ (gpu : Gpu) (p : Platform) (gd : Domain) (w : World) (device : ℤ) (pd addr len : ℕ) where
  -- So does the registration of a range, whatever fails in it.
  pub register_locked-IsSound :
      IsSound gd → IsRange addr len → IsSound (register_locked gpu p gd w device pd addr len).0
  unfolding register_locked
  register_locked-IsSound s range = elim (add_region_outcome p gd addr len device s range) [
    | inl (e, q) ↦ after (gd, err e) q s
    | inr (inl (r, q, has, c, d)) ↦
        after (gd, ok r) q (find_or_register-IsSound gpu p gd w r pd r.addr r.len s has)
    | inr (inr (n, q, fits)) ↦
        let x = new_region addr len device in
        let gd' = record gd { regions = place region_before x gd.regions } in
        after (gd', ok x) q
          (find_or_register-IsSound gpu p gd' w x pd x.addr x.len
            (with_region-IsSound gd addr len device s range fits)
            (Has-place_self region_before x gd.regions))
  ]
    where
      after :
          (out : Domain × Result Region)
          → add_region p gd addr len device ≡ out
          → IsSound (register_added gpu p out.0 w pd out.1).0
          → IsSound (register_locked gpu p gd w device pd addr len).0
      after out q h =
          unfold register_locked in
          subst (λ z. IsSound (register_added gpu p z.0 w pd z.1).0) (sym q) h

-- The invalidation of a range.
module _ (gd : Domain) (w : World) (addr len : ℕ) where
  still-IsBacked :
      (m : List DmabufMr)
      → All (IsBacked gd.regions) m
      → All
          (IsBacked (drop_hits (λ r. region_overlaps r addr len) gd.regions))
          (drop_hits (λ e. range_overlaps e addr len) m)
  unfolding drop_hits
  still-IsBacked [] b = tt
  still-IsBacked (e ∷ m) ((r, has, a, l, d), rest) = elim (Bool-cases (range_overlaps e addr len)) [
    | inl h ↦ rw h (still-IsBacked m rest)
    | inr h ↦ rw h (
      (
        r,
        Has-drop_hits (λ x. region_overlaps x addr len) gd.regions r (overlap r a l h) has,
        a,
        l,
        d,
      ),
      still-IsBacked m rest,
    )
  ]
    where
      overlap :
          (r : Region)
          → e.addr ≡ r.addr
          → e.len ≡ r.len
          → range_overlaps e addr len ≡ false
          → region_overlaps r addr len ≡ false
      overlap r a l h = unfold range_overlaps region_overlaps in ground arith

  drop_range-IsSound : IsSound gd → IsSound (drop_range gd w addr len).0
  unfolding drop_range
  drop_range-IsSound s = record {
    apart = Pairwise-drop_hits (λ r. region_overlaps r addr len) region_apart gd.regions s.apart;
    ranges =
        All-drop_hits (λ r. region_overlaps r addr len) (λ r. IsRange r.addr r.len) gd.regions
          s.ranges;
    cached = Pairwise-drop_hits (λ e. range_overlaps e addr len) mr_apart gd.mr_cache s.cached;
    backed = still-IsBacked gd.mr_cache s.backed;
  }

  -- An invalidation keeps the domain sound too.
  pub invalidate_range-IsSound : IsSound gd → IsSound (invalidate_range gd w addr len).0
  unfolding invalidate_range
  invalidate_range-IsSound s = elim (Bool-cases (addr == 0 || len == 0)) [
    | inl b ↦ rw b s
    | inr b ↦ rw b (drop_range-IsSound s)
  ]
