-- ===== src/Dmabuf/Releases.antt =====
-- Releasing in gpu_dmabuf.c: what invalidation, destruction and a failed creation give back.
use mooncake_maca_spdk_dmabu.Prelude.{
  total, ℕ, ℤ, ◌+◌, ◌<◌, ◌≤◌, ◌==◌, ◌||◌, Bool, true, List, [], ◌∷◌, ◌≡◌, refl, ap, arith,
  if◌then◌else◌, if_keeps, Bool-cases, inl, inr,
}
use mooncake_maca_spdk_dmabu.Dmabuf.Types.{DmabufMr, CudaCtx, Domain, World}
use mooncake_maca_spdk_dmabu.Dmabuf.Tree.{drop_hits}
use mooncake_maca_spdk_dmabu.Dmabuf.Ranges.{device_eq, range_overlaps}
use mooncake_maca_spdk_dmabu.Dmabuf.Register.{remove_first, dereg_mr}
use mooncake_maca_spdk_dmabu.Dmabuf.Lifecycle.{
  dereg_hits, drop_range, invalidate_range, release_device, primary_ctx_release, release_owned,
  release_cuda_ctxs,
}
use mooncake_maca_spdk_dmabu.Dmabuf.Accounts.{
  one, one_device, count, mrs_of, count_device, ctxs_of, Moves, Moves-refl,
}

-- A handle that is there is removed once.
count-remove_first :
    (x h : ℕ) (xs : List ℕ) → 0 < count x xs → count h (remove_first x xs) + one h x ≡ count h xs
unfolding remove_first
count-remove_first x h [] p = absurd (omega arith)
count-remove_first x h (y ∷ ys) p = ground (arith, count-remove_first x h ys)

count-release_device :
    (x d : ℤ) (xs : List ℤ)
    → 0 < count_device x xs
    → count_device d (release_device x xs) + one_device d x ≡ count_device d xs
unfolding release_device one_device device_eq
count-release_device x d [] p = absurd (omega arith)
count-release_device x d (y ∷ ys) p = ground (arith, count-release_device x d ys)

one_self : (x : ℕ) → one x x ≡ 1
one_self x = ground arith

one_device_self : (x : ℤ) → one_device x x ≡ 1
unfolding one_device device_eq
one_device_self x = ground arith

handles : ℕ → List DmabufMr → ℕ
handles h = total (λ e. one h e.mr.handle)

-- Deregistering what hits takes it from the world and leaves the rest.
count-dereg_hits :
    (hits : DmabufMr → Bool) (m : List DmabufMr) (w : World)
    → ((h : ℕ) → handles h m ≤ count h w.live)
    → (h : ℕ)
    → count h (dereg_hits hits m w).live + handles h m
      ≡ count h w.live + handles h (drop_hits hits m)
unfolding dereg_hits drop_hits handles
count-dereg_hits hits [] w enough h = refl
count-dereg_hits hits (e ∷ m) w enough h = elim (Bool-cases (hits e)) [
  | inr b ↦
      rw (b, dereg_hits)
        (let rest = count-dereg_hits hits m w (λ k. omega (arith, enough k)) h in
          omega (arith, rest))
  | inl b ↦
      let there : 0 < count e.mr.handle w.live =
        omega (arith, enough e.mr.handle, one_self e.mr.handle) in
      let gone : (k : ℕ) → count k (dereg_mr w e.mr).live + one k e.mr.handle ≡ count k w.live =
        λ k. unfold dereg_mr in count-remove_first e.mr.handle k w.live there in
      let rest =
        count-dereg_hits hits m (dereg_mr w e.mr) (λ k. omega (arith, enough k, gone k)) h in
      rw (b, dereg_hits) (omega (arith, rest, gone h))
]

dereg_hits_keeps :
    (hits : DmabufMr → Bool) (m : List DmabufMr) (w : World)
    → ((dereg_hits hits m w).fds ≡ w.fds) × ((dereg_hits hits m w).retained ≡ w.retained)
unfolding dereg_hits dereg_mr
dereg_hits_keeps hits [] w = (refl, refl)
dereg_hits_keeps hits (e ∷ m) w =
    if_keeps
      (λ z. ((dereg_hits hits m z).fds ≡ w.fds) × ((dereg_hits hits m z).retained ≡ w.retained))
      (hits e) _ _ (dereg_hits_keeps hits m (dereg_mr w e.mr)) (dereg_hits_keeps hits m w)

-- An invalidation balances, where the world has what the domain holds.
pub invalidate_range-Moves :
    (gd : Domain) (w : World) (addr len : ℕ)
    → ((h : ℕ) → mrs_of h gd ≤ count h w.live)
    → Moves gd w (invalidate_range gd w addr len).0 (invalidate_range gd w addr len).1
unfolding invalidate_range drop_range ctxs_of handles
invalidate_range-Moves gd w addr len enough =
    let hits : DmabufMr → Bool = λ e. range_overlaps e addr len in
    let (fds, retained) = dereg_hits_keeps hits gd.mr_cache w in
    if_keeps (λ (z : Domain × World). Moves gd w z.0 z.1) (addr == 0 || len == 0) _ _
      (Moves-refl gd w)
      (
        count-dereg_hits hits gd.mr_cache w enough,
        λ d. ap (λ z. count_device d z + ctxs_of d gd) retained,
        fds,
        refl,
      )

drop_all : (m : List DmabufMr) → drop_hits (λ e. true) m ≡ []
unfolding drop_hits
drop_all [] = refl
drop_all (e ∷ m) = drop_all m

-- Deregistering a whole cache takes all its handles from the world.
pub count-dereg_all :
    (m : List DmabufMr) (w : World)
    → ((h : ℕ) → total (λ (e : DmabufMr). one h e.mr.handle) m ≤ count h w.live)
    → (h : ℕ)
    → count h (dereg_hits (λ e. true) m w).live + total (λ (e : DmabufMr). one h e.mr.handle) m
      ≡ count h w.live
unfolding handles
count-dereg_all m w enough h =
    let sum = count-dereg_hits (λ e. true) m w enough h in
    let none_left = ap (λ z. total (λ (e : DmabufMr). one h e.mr.handle) z) (drop_all m) in
    omega (arith, sum, none_left)

pub dereg_all_keeps :
    (m : List DmabufMr) (w : World)
    → ((dereg_hits (λ e. true) m w).fds ≡ w.fds)
      × ((dereg_hits (λ e. true) m w).retained ≡ w.retained)
dereg_all_keeps m w = dereg_hits_keeps (λ e. true) m w

-- Releasing the contexts of a domain takes them from the world, where they are there.
pub count-release_cuda_ctxs :
    (cs : List CudaCtx) (w : World)
    → ((d : ℤ) → total (λ (c : CudaCtx). one_device d c.device_id) cs ≤ count_device d w.retained)
    → (d : ℤ)
    → count_device d (release_cuda_ctxs cs w).retained
        + total (λ (c : CudaCtx). one_device d c.device_id) cs
      ≡ count_device d w.retained
unfolding release_cuda_ctxs primary_ctx_release
count-release_cuda_ctxs [] w enough d = omega arith
count-release_cuda_ctxs (c ∷ cs) w enough d =
    let there : 0 < count_device c.device_id w.retained =
      omega (arith, enough c.device_id, one_device_self c.device_id) in
    let gone : (k : ℤ)
        → count_device k (primary_ctx_release c.device_id w).retained + one_device k c.device_id
          ≡ count_device k w.retained =
      λ k. count-release_device c.device_id k w.retained there in
    let rest =
      count-release_cuda_ctxs cs (primary_ctx_release c.device_id w)
        (λ k. omega (arith, enough k, gone k)) d in
    omega (arith, rest, gone d)

pub release_cuda_ctxs_keeps :
    (cs : List CudaCtx) (w : World)
    → ((release_cuda_ctxs cs w).fds ≡ w.fds) × ((release_cuda_ctxs cs w).live ≡ w.live)
unfolding release_cuda_ctxs primary_ctx_release
release_cuda_ctxs_keeps [] w = (refl, refl)
release_cuda_ctxs_keeps (c ∷ cs) w = release_cuda_ctxs_keeps cs (primary_ctx_release c.device_id w)

-- The context of a fixed device, where the domain owns it.
abbrev pub owned_of : ℤ → Domain → ℕ
owned_of d gd = if gd.owns_cuda_ctx then one_device d gd.cuda_device_id else 0

pub count-release_owned :
    (gd : Domain) (w : World)
    → ((d : ℤ) → owned_of d gd ≤ count_device d w.retained)
    → (d : ℤ)
    → count_device d (release_owned gd w).retained + owned_of d gd ≡ count_device d w.retained
unfolding release_owned primary_ctx_release
count-release_owned gd w enough d = elim (Bool-cases gd.owns_cuda_ctx) [
  | inr b ↦ rw b (omega arith)
  | inl b ↦
      let there : 0 < count_device gd.cuda_device_id w.retained =
        ground (arith, enough gd.cuda_device_id, one_device_self gd.cuda_device_id) in
      rw b (count-release_device gd.cuda_device_id d w.retained there)
]

pub release_owned_keeps :
    (gd : Domain) (w : World)
    → ((release_owned gd w).fds ≡ w.fds) × ((release_owned gd w).live ≡ w.live)
unfolding release_owned primary_ctx_release
release_owned_keeps gd w = (ground arith, ground arith)
