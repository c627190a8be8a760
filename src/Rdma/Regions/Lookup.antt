-- ===== src/Rdma/Regions/Lookup.antt =====
-- Finding a region in a map whose regions do not overlap.
use mooncake_maca_spdk_dmabu.Prelude.{
  ℕ, ◌+◌, ◌<◌, ◌≤◌, ◌⊎◌, inl, inr, true, Option, none, some, List, [], ◌∷◌, ◌≡◌, refl, subst,
  Option-cases, arith,
}
use mooncake_maca_spdk_dmabu.Rdma.Regions.{
  Entry, contains_address, last_before, find_memory_region_containing,
}

-- The entries lie at or above `lo`, are not empty, have their start for key and do not overlap.
abbrev pub IsDisjoint : ℕ → List Entry → Type 0
IsDisjoint lo [] = Unit {0}
IsDisjoint lo (e ∷ m) =
    (lo ≤ e.key)
    × (e.meta.addr ≡ e.key)
    × (0 < e.meta.mr.length)
    × IsDisjoint (e.key + e.meta.mr.length) m

abbrev pub Has : Entry → List Entry → Type 0
Has e [] = ⊥
Has e (x ∷ m) = (x ≡ e) ⊎ Has e m

-- `addr` is a byte of the entry's region.
abbrev pub Covers : Entry → ℕ → Type 0
Covers e addr = (e.key ≤ addr) × (addr < e.key + e.meta.mr.length)

pub Has-lower : (lo : ℕ) (m : List Entry) (e : Entry) → IsDisjoint lo m → Has e m → lo ≤ e.key
Has-lower lo [] e d h = absurd h
Has-lower lo (x ∷ m) e d (inl q) = let k : x.key ≡ e.key = cc in omega arith
Has-lower lo (x ∷ m) e d (inr h) = omega (arith, Has-lower (x.key + x.meta.mr.length) m e d.3 h)

last_before_stop :
    (lo addr : ℕ) (m : List Entry) (prev : Option Entry)
    → IsDisjoint lo m
    → addr < lo
    → last_before addr m prev ≡ prev
unfolding last_before
last_before_stop lo addr [] prev d h = refl
last_before_stop lo addr (e ∷ m) prev d h = ground arith

last_before-Has :
    (lo addr : ℕ) (m : List Entry) (prev : Option Entry) (e : Entry)
    → IsDisjoint lo m
    → Has e m
    → Covers e addr
    → last_before addr m prev ≡ some e
unfolding last_before
last_before-Has lo addr [] prev e d h c = absurd h
last_before-Has lo addr (x ∷ m) prev e d (inl q) c =
    let k : x.key ≡ e.key = cc in
    let l : x.meta.mr.length ≡ e.meta.mr.length = cc in
    ground (arith, last_before_stop (x.key + x.meta.mr.length) addr m (some x) d.3)
last_before-Has lo addr (x ∷ m) prev e d (inr h) c = ground (
  arith,
  Has-lower (x.key + x.meta.mr.length) m e d.3 h,
  last_before-Has (x.key + x.meta.mr.length) addr m (some x) e d.3 h c,
)

pub Has-addr :
    (lo : ℕ) (m : List Entry) (e : Entry) → IsDisjoint lo m → Has e m → e.meta.addr ≡ e.key
Has-addr lo [] e d h = absurd h
Has-addr lo (x ∷ m) e d (inl q) = cc (d.1)
Has-addr lo (x ∷ m) e d (inr h) = Has-addr (x.key + x.meta.mr.length) m e d.3 h

-- In a map of regions that do not overlap, every byte of a region finds that region.
pub find-Has :
    (lo addr : ℕ) (m : List Entry) (e : Entry)
    → IsDisjoint lo m
    → Has e m
    → Covers e addr
    → find_memory_region_containing m addr ≡ some e
unfolding find_memory_region_containing contains_address
find-Has lo addr m e d h c =
    ground (arith, last_before-Has lo addr m none e d h c, Has-addr lo m e d h)

last_before_sound_step :
    (addr : ℕ) (x : Entry) (m : List Entry) (prev : Option Entry) (e : Entry)
    → last_before addr (x ∷ m) prev ≡ some e
    → (prev ≡ some e) ⊎ (last_before addr m (some x) ≡ some e)
unfolding last_before
last_before_sound_step addr x m prev e h = ground arith

last_before_sound :
    (addr : ℕ) (m : List Entry) (prev : Option Entry) (e : Entry)
    → last_before addr m prev ≡ some e
    → (prev ≡ some e) ⊎ Has e m
last_before_sound addr [] prev e h = inl (unfold last_before in h)
last_before_sound addr (x ∷ m) prev e h = elim (last_before_sound_step addr x m prev e h) [
  | inl q ↦ inl q
  | inr q ↦ elim (last_before_sound addr m (some x) e q) [
    | inl r ↦ inr (inl (cc))
    | inr r ↦ inr (inr r)
  ]
]

find_none :
    (addr : ℕ) (m : List Entry)
    → last_before addr m none ≡ none
    → find_memory_region_containing m addr ≡ none
unfolding find_memory_region_containing
find_none addr m q = ground arith

module _ (addr : ℕ) (m : List Entry) (x e : Entry) (q : last_before addr m none ≡ some x)
    (h : find_memory_region_containing m addr ≡ some e) where
  found_same : x ≡ e
  unfolding find_memory_region_containing
  found_same = ground arith

  found_contains : contains_address e.meta addr ≡ true
  unfolding find_memory_region_containing
  found_contains = ground arith

-- What is found is an entry of the map, and its region has the address.
pub find_sound :
    (addr : ℕ) (m : List Entry) (e : Entry)
    → find_memory_region_containing m addr ≡ some e
    → Has e m × (contains_address e.meta addr ≡ true)
find_sound addr m e h = elim (Option-cases (last_before addr m none)) [
  | inl q ↦ absurd (cc (find_none addr m q))
  | inr (x, q) ↦
      let same : x ≡ e = found_same addr m x e q h in
      (
        elim (last_before_sound addr m none x q) [
          | inl r ↦ absurd (cc)
          | inr r ↦ subst (λ y. Has y m) same r
        ],
        found_contains addr m x e q h,
      )
]
