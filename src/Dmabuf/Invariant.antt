-- ===== src/Dmabuf/Invariant.antt =====
-- The invariant of a domain of gpu_dmabuf.c, and how the steps under its lock change the trees.
use mooncake_maca_spdk_dmabu.Prelude.{
  Pairwise, sym, subst, ℕ, ℤ, ◌+◌, ◌<◌, ◌^◌, true, false, ltb, none, List, [], ◌∷◌, ◌≡◌, ◌⊎◌, inl,
  inr, arith, All, Bool-cases, Option-cases,
}
use mooncake_maca_spdk_dmabu.Dmabuf.Types.{
  Errno, einval, enomem, Result, ok, err, IbvMr, DmabufMr, Region, Domain, Platform,
}
use mooncake_maca_spdk_dmabu.Dmabuf.Tree.{Has}
use mooncake_maca_spdk_dmabu.Dmabuf.Tree.Insert.{Fits, place, insert-place}
use mooncake_maca_spdk_dmabu.Dmabuf.Ranges.{
  device_eq, device_lt, mr_before, region_before, range_overlaps, region_contains, region_overlaps,
  belongs_to, find_region, find_overlapping_region,
}
use mooncake_maca_spdk_dmabu.Dmabuf.Register.{new_region, add_region, new_mr}
use mooncake_maca_spdk_dmabu.Dmabuf.Lookup.{
  region_apart, mr_apart, same_key, find_region_sound, overlapping_region-none, overlaps_mr,
}

-- A range is not empty and ends below 2^64.
abbrev pub IsRange : ℕ → ℕ → Type 0
IsRange addr len = (0 < len) × (addr + len < 2 ^ 64)

-- The registered range is that of a region of its device.
abbrev pub IsBacked : List Region → DmabufMr → Type 0
IsBacked regions e =
    (r : Region) × Has r regions × (e.addr ≡ r.addr) × (e.len ≡ r.len) × (e.device_id ≡ r.device_id)

-- Regions are ranges that are apart; registered ranges are sorted, apart, and those of regions.
pub record IsSound (gd : Domain) : Type 0 where
  pub apart : Pairwise region_apart gd.regions
  pub ranges : All (λ r. IsRange r.addr r.len) gd.regions
  pub cached : Pairwise mr_apart gd.mr_cache
  pub backed : All (IsBacked gd.regions) gd.mr_cache

-- A domain is sound by the facts on its regions and its cache.
pub IsSound-at :
    (gd : Domain) (regions : List Region) (cache : List DmabufMr)
    → gd.regions ≡ regions
    → gd.mr_cache ≡ cache
    → Pairwise region_apart regions
    → All (λ r. IsRange r.addr r.len) regions
    → Pairwise mr_apart cache
    → All (IsBacked regions) cache
    → IsSound gd
IsSound-at gd regions cache er ec a r c b = record {
  apart = subst (λ z. Pairwise region_apart z) (sym er) a;
  ranges = subst (λ z. All (λ r. IsRange r.addr r.len) z) (sym er) r;
  cached = subst (λ z. Pairwise mr_apart z) (sym ec) c;
  backed =
      subst (λ z. All (IsBacked z) gd.mr_cache) (sym er)
        (subst (λ z. All (IsBacked regions) z) (sym ec) b);
}

module _ (addr len : ℕ) (device : ℤ) (range : IsRange addr len) where
  region-Fits :
      (m : List Region)
      → All (λ r. IsRange r.addr r.len) m
      → All (λ r. region_overlaps r addr len ≡ false) m
      → All (Fits region_before region_apart (new_region addr len device)) m
  unfolding new_region
  region-Fits [] v c = tt
  region-Fits (r ∷ m) (v, vs) (c, cs) = (fit r v c, region-Fits m vs cs)
    where
      fit :
          (r : Region)
          → IsRange r.addr r.len
          → region_overlaps r addr len ≡ false
          → Fits region_before region_apart
              (record { addr = addr; len = len; device_id = device })
              r
      fit r v c =
          unfold region_before region_overlaps in
          elim (Bool-cases (ltb r.addr addr)) [
            | inl b ↦ inl (ground arith)
            | inr b ↦ inr (ground arith)
          ]

pub region_apart_trans :
    (a b c : Region) → region_apart a b ≡ true → region_apart b c ≡ true → region_apart a c ≡ true
region_apart_trans a b c p q = ground arith

mr_before_trans :
    (a b c : DmabufMr) → mr_before a b ≡ true → mr_before b c ≡ true → mr_before a c ≡ true
unfolding mr_before device_eq device_lt
mr_before_trans a b c p q = ground arith

same_key_between :
    (a b c : DmabufMr)
    → mr_before a b ≡ true
    → mr_before b c ≡ true
    → same_key a c ≡ true
    → (same_key a b ≡ true) × (same_key b c ≡ true)
unfolding mr_before same_key device_eq device_lt
same_key_between a b c p q s = ground arith

pub mr_apart_trans :
    (a b c : DmabufMr) → mr_apart a b ≡ true → mr_apart b c ≡ true → mr_apart a c ≡ true
unfolding mr_apart
mr_apart_trans a b c p q = ground (arith, mr_before_trans a b c, same_key_between a b c)

pub mr-Fits :
    (addr len : ℕ) (device : ℤ) (pd : ℕ) (mr : IbvMr) (e : DmabufMr)
    → IsRange addr len
    → IsRange e.addr e.len
    → overlaps_mr device pd addr len e ≡ false
    → Fits mr_before mr_apart (new_mr addr len device pd mr) e
unfolding mr_apart mr_before same_key device_eq device_lt belongs_to range_overlaps new_mr
mr-Fits addr len device pd mr e range v c =
    elim (Bool-cases (mr_before e (new_mr addr len device pd mr))) [
      | inl b ↦ inl (ground arith)
      | inr b ↦ inr (ground arith)
    ]

-- What `add_region` leaves: the same domain and an error or a region that is there, or a domain
-- with a new region.
module _ (p : Platform) (gd : Domain) (addr len : ℕ) (device : ℤ) where
  abbrev pub added : Domain × Result Region
  added = add_region p gd addr len device

  abbrev region : Region
  region = new_region addr len device

  pub add_region_outcome :
      IsSound gd
      → IsRange addr len
      → ((e : Errno) × (added ≡ (gd, err e)))
        ⊎ ((r : Region) × (added ≡ (gd, ok r))
            × Has r gd.regions
            × (region_contains r addr len ≡ true)
            × (device_eq r.device_id device ≡ true))
        ⊎ ((find_region gd addr len ≡ none)
            × (added ≡ (record gd { regions = place region_before region gd.regions }, ok region))
            × All (Fits region_before region_apart region) gd.regions)
  unfolding add_region
  add_region_outcome s range = elim (Option-cases (find_region gd addr len)) [
    | inr (r, q) ↦
        let (has, c) = find_region_sound gd addr len r q in
        elim (Bool-cases (device_eq r.device_id device)) [
          | inl d ↦ inr (inl (r, ground arith, has, c, d))
          | inr d ↦ inl (einval, ground arith)
        ]
    | inl n ↦ elim (Option-cases (find_overlapping_region gd addr len)) [
      | inr (r, q) ↦ inl (einval, ground arith)
      | inl m ↦ elim (Bool-cases p.alloc_region) [
        | inr f ↦ inl (enomem, ground arith)
        | inl a ↦
            let clear = overlapping_region-none gd addr len s.apart range.0 range.1 m in
            let fits = region-Fits addr len device range gd.regions s.ranges clear in
            let ins =
              insert-place region_before region_apart region (region_apart_trans region) gd.regions
                fits in
            inr (inr (n, ground arith, fits))
      ]
    ]
  ]
