-- ===== src/Rdma/Regions/Updates.antt =====
-- Registering and unregistering a region, in a map whose regions do not overlap.
use mooncake_maca_spdk_dmabu.Prelude.{
  ℕ, ◌+◌, ◌<◌, ◌≤◌, ◌≢◌, ◌⊎◌, inl, inr, Bool, true, false, Option, none, some, List, [], ◌∷◌, ◌≡◌,
  refl, ap, arith, ◌==◌, Bool-cases, Option-cases, ==→eq,
}
use mooncake_maca_spdk_dmabu.Rdma.Regions.{
  Mr, MemoryRegionMeta, Entry, Driver, Fds, contains_address, find_memory_region_containing, insert,
  erase, register_memory_region, register_memory_region_internal, unregister_memory_region, lkey,
  rkey,
}
use mooncake_maca_spdk_dmabu.Rdma.Regions.Lookup.{
  IsDisjoint, Has, Covers, Has-lower, Has-addr, find-Has, find_sound,
}

-- The range `[k, k + len)` meets no region of the map.
abbrev pub IsFree : ℕ → ℕ → List Entry → Type 0
IsFree k len [] = Unit {0}
IsFree k len (e ∷ m) = ((k + len ≤ e.key) ⊎ (e.key + e.meta.mr.length ≤ k)) × IsFree k len m

abbrev entry : ℕ → MemoryRegionMeta → Entry
entry k meta = record { key = k; meta = meta }

insert-IsDisjoint :
    (lo k : ℕ) (meta : MemoryRegionMeta) (m : List Entry)
    → lo ≤ k
    → meta.addr ≡ k
    → 0 < meta.mr.length
    → IsFree k meta.mr.length m
    → IsDisjoint lo m
    → IsDisjoint lo (insert k meta m)
unfolding insert
insert-IsDisjoint lo k meta [] l a p f d = (l, a, p, tt)
insert-IsDisjoint lo k meta (e ∷ m) l a p f d =
    ground (arith, insert-IsDisjoint (e.key + e.meta.mr.length) k meta m)

insert-Has_self :
    (k : ℕ) (meta : MemoryRegionMeta) (m : List Entry) → Has (entry k meta) (insert k meta m)
unfolding insert
insert-Has_self k meta [] = inl refl
insert-Has_self k meta (e ∷ m) = ground (arith, insert-Has_self k meta m)

insert-Has_other :
    (k : ℕ) (meta : MemoryRegionMeta) (m : List Entry) (x : Entry)
    → x.key ≢ k
    → Has x m
    → Has x (insert k meta m)
unfolding insert
insert-Has_other k meta [] x n h = absurd h
insert-Has_other k meta (e ∷ m) x n h = ground (arith, insert-Has_other k meta m x n)

IsDisjoint-mono : (lo lo' : ℕ) (m : List Entry) → lo' ≤ lo → IsDisjoint lo m → IsDisjoint lo' m
IsDisjoint-mono lo lo' [] h d = tt
IsDisjoint-mono lo lo' (e ∷ m) h d = (omega arith, d.1, d.2, d.3)

erase-IsDisjoint : (lo k : ℕ) (m : List Entry) → IsDisjoint lo m → IsDisjoint lo (erase k m)
unfolding erase
erase-IsDisjoint lo k [] d = tt
erase-IsDisjoint lo k (e ∷ m) d = ground (
  arith,
  erase-IsDisjoint (e.key + e.meta.mr.length) k m d.3,
  IsDisjoint-mono (e.key + e.meta.mr.length) lo m (omega arith) d.3,
)

erase-Has_other : (k : ℕ) (m : List Entry) (x : Entry) → x.key ≢ k → Has x m → Has x (erase k m)
unfolding erase
erase-Has_other k [] x n h = absurd h
erase-Has_other k (e ∷ m) x n h = ground (arith, erase-Has_other k m x n)

-- What is left after `erase k` was there, and its key is another.
erase-Has :
    (lo k : ℕ) (m : List Entry) (x : Entry)
    → IsDisjoint lo m
    → Has x (erase k m)
    → Has x m × (x.key ≢ k)
erase-Has lo k [] x d h = absurd (unfold erase in h)
erase-Has lo k (e ∷ m) x d h = elim (Bool-cases (k == e.key)) [
  | inl q ↦
      let h' : Has x m = erased h q in
      (inr h', λ r. omega (arith, Has-lower (e.key + e.meta.mr.length) m x d.3 h', ==→eq k e.key q))
  | inr q ↦ elim (kept h q) [
    | inl r ↦ (inl r, λ t. ground arith)
    | inr r ↦ let rest = erase-Has (e.key + e.meta.mr.length) k m x d.3 r in (inr rest.0, rest.1)
  ]
]
  where
    erased : Has x (erase k (e ∷ m)) → (k == e.key) ≡ true → Has x m
    erased g q = unfold erase in ground arith

    kept : Has x (erase k (e ∷ m)) → (k == e.key) ≡ false → (e ≡ x) ⊎ Has x (erase k m)
    kept g q = unfold erase in ground arith

free-Has :
    (lo addr len : ℕ) (m : List Entry) (old : Entry)
    → IsFree addr len m
    → Has old m
    → IsDisjoint lo m
    → 0 < len
    → old.key ≢ addr
free-Has lo addr len [] old f h dis p = absurd h
free-Has lo addr len (e ∷ m) old f (inl q) dis p =
    let k : e.key ≡ old.key = cc in elim f.0 [ inl g ↦ λ t. omega arith | inr g ↦ λ t. omega arith ]
free-Has lo addr len (e ∷ m) old f (inr h) dis p =
    free-Has (e.key + e.meta.mr.length) addr len m old f.1 h dis.3 p

module _ (d : Driver) (garbage : Option Mr) (addr length access : ℕ) (allow_gpu_dmabuf : Bool)
    (m : List Entry) (fds fds' : Fds) (r : Mr) where
  abbrev pub registered : Bool × List Entry × Fds
  registered = register_memory_region d garbage addr length access allow_gpu_dmabuf m fds

  abbrev AnswersRegion : Type 0
  AnswersRegion =
      register_memory_region_internal d garbage addr length access allow_gpu_dmabuf fds
      ≡ (some r, fds')

  registered_lem :
      AnswersRegion → registered ≡ (true, insert addr (record { addr = addr; mr = r }) m, fds')
  unfolding register_memory_region
  registered_lem e = ground arith

  -- When the driver registers a non-empty range that meets no region of the map, the call succeeds,
  -- the map has no overlaps afterwards, and each address of the new region finds its keys.
  pub register-lookup :
      (x : ℕ)
      → register_memory_region_internal d garbage addr length access allow_gpu_dmabuf fds
        ≡ (some r, fds')
      → 0 < r.length
      → IsDisjoint 0 m
      → IsFree addr r.length m
      → addr ≤ x
      → x < addr + r.length
      → (registered.0 ≡ true)
        × IsDisjoint 0 registered.1
        × (lkey registered.1 x ≡ r.lkey)
        × (rkey registered.1 x ≡ r.rkey)
  unfolding lkey rkey
  register-lookup x e p dis free low high =
      let meta : MemoryRegionMeta = record { addr = addr; mr = r } in
      let dis' = insert-IsDisjoint 0 addr meta m (omega arith) refl p free dis in
      let found =
        find-Has 0 x (insert addr meta m) (entry addr meta) dis' (insert-Has_self addr meta m)
          (low, high) in
      rw (registered_lem e) (refl, dis', ground (arith, found), ground (arith, found))

  -- It leaves the regions that were registered before as they are: each of their addresses finds
  -- the same entry.
  pub register_keeps :
      (x : ℕ) (old : Entry)
      → register_memory_region_internal d garbage addr length access allow_gpu_dmabuf fds
        ≡ (some r, fds')
      → 0 < r.length
      → IsDisjoint 0 m
      → IsFree addr r.length m
      → Has old m
      → Covers old x
      → find_memory_region_containing registered.1 x ≡ some old
  register_keeps x old e p dis free has c =
      let meta : MemoryRegionMeta = record { addr = addr; mr = r } in
      let dis' = insert-IsDisjoint 0 addr meta m (omega arith) refl p free dis in
      rw (registered_lem e) (
        find-Has 0 x (insert addr meta m) old dis'
          (insert-Has_other addr meta m old (free-Has 0 addr r.length m old free has dis p) has) c)

-- Two entries of the map that share an address are one.
Covers-unique :
    (m : List Entry) (x : ℕ) (e f : Entry)
    → IsDisjoint 0 m
    → Has e m
    → Has f m
    → Covers e x
    → Covers f x
    → e ≡ f
Covers-unique m x e f dis he hf ce cf =
    let a = find-Has 0 x m e dis he ce in let b = find-Has 0 x m f dis hf cf in cc

-- What is found covers the address it was found for.
find-Covers :
    (m : List Entry) (x : ℕ) (e : Entry)
    → IsDisjoint 0 m
    → find_memory_region_containing m x ≡ some e
    → Covers e x
unfolding contains_address
find-Covers m x e dis h =
    let (has, c) = find_sound x m e h in let a = Has-addr 0 m e dis has in ground arith

module _ (d : Driver) (addr : ℕ) (m : List Entry) (e : Entry) where
  abbrev pub unregistered : Bool × List Entry
  unregistered = unregister_memory_region d addr m

  unregistered_lem :
      find_memory_region_containing m addr ≡ some e
      → d.dereg_mr e.meta.mr ≡ false
      → unregistered ≡ (true, erase e.key m)
  unfolding unregister_memory_region
  unregistered_lem h n = ground arith

  -- When the driver deregisters the region that contains `addr`, the call succeeds, the map has no
  -- overlaps afterwards, and no address of that region finds a key any more.
  pub unregister-lookup :
      (x : ℕ)
      → IsDisjoint 0 m
      → find_memory_region_containing m addr ≡ some e
      → d.dereg_mr e.meta.mr ≡ false
      → Covers e x
      → (unregistered.0 ≡ true)
        × IsDisjoint 0 unregistered.1
        × (lkey unregistered.1 x ≡ 0)
        × (rkey unregistered.1 x ≡ 0)
  unfolding lkey rkey
  unregister-lookup x dis h n c =
      let none_left : find_memory_region_containing (erase e.key m) x ≡ none =
        elim (Option-cases (find_memory_region_containing (erase e.key m) x)) [
          | inl q ↦ q
          | inr (f, q) ↦
              let (has, other) = erase-Has 0 e.key m f dis (find_sound x (erase e.key m) f q).0 in
              let cf = find-Covers (erase e.key m) x f (erase-IsDisjoint 0 e.key m dis) q in
              let same = Covers-unique m x f e dis has (find_sound addr m e h).0 cf c in
              absurd (other (ap (λ y. y.key) same))
        ] in
      rw (unregistered_lem h n)
        (refl, erase-IsDisjoint 0 e.key m dis, ground (arith, none_left), ground (arith, none_left))

  -- The other regions stay as they are.
  pub unregister_keeps :
      (x : ℕ) (old : Entry)
      → IsDisjoint 0 m
      → find_memory_region_containing m addr ≡ some e
      → d.dereg_mr e.meta.mr ≡ false
      → Has old m
      → old.key ≢ e.key
      → Covers old x
      → find_memory_region_containing unregistered.1 x ≡ some old
  unregister_keeps x old dis h n has other c = rw (unregistered_lem h n) (
      find-Has 0 x (erase e.key m) old (erase-IsDisjoint 0 e.key m dis)
        (erase-Has_other e.key m old other has) c)
