-- ===== src/Dmabuf/Accounts.antt =====
-- Accounts of what gpu_dmabuf.c holds of its environment: the memory regions at the verbs library,
-- the retained contexts and the open descriptors.
use mooncake_maca_spdk_dmabu.Prelude.{
  total, total-append, ℕ, ℤ, ◌+◌, ◌==◌, Bool, some, List, [], ◌∷◌, ◌≡◌, inl, inr, refl, arith,
  Option-cases, if◌then◌else◌, if_keeps, option_keeps, is_nonneg,
}
use mooncake_maca_spdk_dmabu.Dmabuf.Types.{CudaCtx, Domain, World, Gpu, Platform}
use mooncake_maca_spdk_dmabu.Dmabuf.Tree.{rb_insert}
use mooncake_maca_spdk_dmabu.Dmabuf.Ranges.{device_eq}
use mooncake_maca_spdk_dmabu.Dmabuf.Contexts.{get_cuda_ctx, cached_ctx, retain_ctx}
use mooncake_maca_spdk_dmabu.Dmabuf.Register.{remove_first}

abbrev pub one : ℕ → ℕ → ℕ
one h x = if x == h then 1 else 0

unfoldable pub one_device : ℤ → ℤ → ℕ
unfolding device_eq
one_device d x = if device_eq x d then 1 else 0

-- How often the handle stands in a list, and in a domain's cache.
abbrev pub count : ℕ → List ℕ → ℕ
count h = total (one h)

abbrev pub mrs_of : ℕ → Domain → ℕ
mrs_of h gd = total (λ e. one h e.mr.handle) gd.mr_cache

-- The same for the contexts of a device.
abbrev pub count_device : ℤ → List ℤ → ℕ
count_device d = total (one_device d)

unfoldable pub ctxs_of : ℤ → Domain → ℕ
ctxs_of d gd =
    (if gd.owns_cuda_ctx then one_device d gd.cuda_device_id else 0)
    + total (λ c. one_device d c.device_id) gd.cuda_ctxs

-- What an operation adds to the world it adds to the domain, and no descriptor stays open.
abbrev pub Moves : Domain → World → Domain → World → Type 0
Moves gd w gd' w' =
    ((h : ℕ) → count h w'.live + mrs_of h gd ≡ count h w.live + mrs_of h gd')
    × ((d : ℤ)
        → count_device d w'.retained + ctxs_of d gd ≡ count_device d w.retained + ctxs_of d gd')
    × (w'.fds ≡ w.fds)
    × (gd'.domain ≡ gd.domain)

pub Moves-refl : (gd : Domain) (w : World) → Moves gd w gd w
Moves-refl gd w = (λ h. refl, λ d. refl, refl, refl)

pub Moves-trans :
    (gd gd1 gd2 : Domain) (w w1 w2 : World)
    → Moves gd w gd1 w1
    → Moves gd1 w1 gd2 w2
    → Moves gd w gd2 w2
Moves-trans gd gd1 gd2 w w1 w2 (a, b, c, d) (a', b', c', d') =
    (λ h. omega (arith, a h, a' h), λ x. omega (arith, b x, b' x), cc, cc)

pub total-rb_insert :
    {A : Type 0} (before : A → A → Bool) (f : A → ℕ) (x : A) (m m' : List A)
    → rb_insert before x m ≡ some m'
    → total f m' ≡ f x + total f m
unfolding rb_insert
total-rb_insert before f x [] m' h = let q : m' ≡ x ∷ [] = cc in rw q refl
total-rb_insert before f x (e ∷ m) m' h = elim (Option-cases (rb_insert before x m)) [
  | inl n ↦ ground arith
  | inr (r, q) ↦ ground (arith, total-rb_insert before f x m r q)
]

pub remove_first_head : (h : ℕ) (xs : List ℕ) → remove_first h (h ∷ xs) ≡ xs
unfolding remove_first
remove_first_head h xs = ground arith

-- A step on the domain whose result is of any type.
abbrev pub MovesTo : {A : Type 0} → Domain → World → Domain × World × A → Type 0
MovesTo gd w out = Moves gd w out.0 out.1

retain_ctx-Moves :
    (gpu : Gpu) (gd : Domain) (w : World) (device : ℤ) → MovesTo gd w (retain_ctx gpu gd w device)
unfolding retain_ctx ctxs_of
retain_ctx-Moves gpu gd w device =
    option_keeps (MovesTo gd w) (gpu.device_get device) _ _ (Moves-refl gd w) λ c q.
      option_keeps (MovesTo gd w) (gpu.primary_ctx_retain c) _ _ (Moves-refl gd w) λ ctx q'. (
        λ h. refl,
        λ d. omega (
          arith,
          total-append (λ (x : CudaCtx). one_device d x.device_id) gd.cuda_ctxs
              (record { device_id = device; cuda_ctx = ctx } ∷ []),
        ),
        refl,
        refl,
      )

pub get_cuda_ctx-Moves :
    (gpu : Gpu) (p : Platform) (gd : Domain) (w : World) (device : ℤ)
    → MovesTo gd w (get_cuda_ctx gpu p gd w device)
unfolding get_cuda_ctx
get_cuda_ctx-Moves gpu p gd w device =
    let stays = Moves-refl gd w in
    if_keeps (MovesTo gd w) (gd.cuda_ctx == 0) _ _
      (if_keeps (MovesTo gd w) (is_nonneg device) _ _
        (option_keeps (MovesTo gd w) (cached_ctx device gd.cuda_ctxs) _ _
          (if_keeps (MovesTo gd w) p.alloc_ctx _ _ (retain_ctx-Moves gpu gd w device) stays)
          (λ ctx q. stays))
        stays)
      stays
