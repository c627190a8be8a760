-- ===== src/Dmabuf/Runs.antt =====
-- Runs of calls of the interface of gpu_dmabuf.c, from a process that holds nothing.
use mooncake_maca_spdk_dmabu.Prelude.{
  total, ℕ, ℤ, ◌+◌, ◌≤◌, ◌==◌, ◌||◌, Bool, true, false, Option, some, List, [], ◌∷◌, ◌≡◌, ◌∙◌, ap,
  arith, if_keeps, option_keeps,
}
use mooncake_maca_spdk_dmabu.Dmabuf.Types.{Result, Domain, World, Gpu, Platform, result_keeps}
use mooncake_maca_spdk_dmabu.Dmabuf.Contexts.{RdmaDomain, get_rdma_pd, get_ptr_device_id}
use mooncake_maca_spdk_dmabu.Dmabuf.Register.{register_locked, translate_locked, Translation}
use mooncake_maca_spdk_dmabu.Dmabuf.Lifecycle.{
  Library, domain_find, update_domain, with_domain, register, translate, invalidate_range,
  invalidate, Opts, Layout, release_owned, create, remove_domain, release_cuda_ctxs, destroy,
  dereg_hits,
}
use mooncake_maca_spdk_dmabu.Dmabuf.Accounts.{count, mrs_of, count_device, ctxs_of, Moves}
use mooncake_maca_spdk_dmabu.Dmabuf.Balance.{register_locked-Settles, translate_locked-Settles}
use mooncake_maca_spdk_dmabu.Dmabuf.Releases.{
  invalidate_range-Moves, count-dereg_all, dereg_all_keeps, count-release_cuda_ctxs,
  release_cuda_ctxs_keeps, owned_of, count-release_owned, release_owned_keeps,
}

-- A call of the interface.
pub data Call : Type 0 where
  create_domain : Bool → Option Opts → Call
  register_range translate_range : ℕ → RdmaDomain → ℕ → ℕ → Call
  invalidate_domain : ℕ → ℕ → ℕ → Call
  destroy_domain : ℕ → Call

-- What the runtime, the allocator and the verbs library answer during one call.
pub record Answers : Type 0 where
  pub gpu : Gpu
  pub platform : Platform
  pub refuses_dereg : List ℕ → ℕ → Bool
  pub refuses_release : List ℤ → ℤ → Bool

abbrev pub answering : Answers → Library → Library
answering a lib = record lib {
  world = record lib.world { refuses_dereg = a.refuses_dereg; refuses_release = a.refuses_release };
}

module _ (pd_end : ℕ) (l : Layout) where
  unfoldable pub execute : Gpu → Platform → Library → Call → Library
  unfolding create register translate invalidate destroy
  execute gpu p lib (create_domain has_domain opts) = (create gpu p l lib has_domain opts).0
  execute gpu p lib (register_range id rdma addr len) =
      (register gpu p pd_end lib id rdma addr len).0
  execute gpu p lib (translate_range id dst addr len) =
      (translate gpu p pd_end lib id dst addr len).0
  execute gpu p lib (invalidate_domain id addr len) = invalidate lib id addr len
  execute gpu p lib (destroy_domain id) = destroy lib id

  -- Every call with answers of its own.
  unfoldable pub run : Library → List (Answers × Call) → Library
  unfolding execute
  run lib [] = lib
  run lib ((a, c) ∷ cs) = run (execute a.gpu a.platform (answering a lib) c) cs

-- The process at its start.
abbrev pub nothing_held : Library
nothing_held = record {
  domains = [];
  world = record {
    current = 0;
    fds = [];
    live = [];
    undereg = [];
    refuses_dereg = λ live h. false;
    retained = [];
    unreleased = [];
    refuses_release = λ retained d. false;
  };
}

-- The regions that the library was not asked to deregister are exactly those that the caches hold,
-- the contexts that were not released exactly those of the domains, and no descriptor is open.
abbrev pub IsEven : Library → Type 0
IsEven lib =
    ((h : ℕ) → count h lib.world.live ≡ total (mrs_of h) lib.domains)
    × ((d : ℤ) → count_device d lib.world.retained ≡ total (ctxs_of d) lib.domains)
    × (lib.world.fds ≡ [])

domain_find_id :
    (id : ℕ) (ds : List Domain) (gd : Domain) → domain_find id ds ≡ some gd → gd.domain ≡ id
unfolding domain_find
domain_find_id id [] gd h = absurd (cc h)
domain_find_id id (d ∷ ds) gd h = ground (arith, domain_find_id id ds gd)

total-update :
    (f : Domain → ℕ) (id : ℕ) (ds : List Domain) (gd gd' : Domain)
    → domain_find id ds ≡ some gd
    → gd'.domain ≡ id
    → total f (update_domain gd' ds) + f gd ≡ total f ds + f gd'
unfolding domain_find update_domain
total-update f id [] gd gd' h q = absurd (cc h)
total-update f id (d ∷ ds) gd gd' h q = ground (arith, total-update f id ds gd gd')

total-remove_domain :
    (f : Domain → ℕ) (id : ℕ) (ds : List Domain) (gd : Domain)
    → domain_find id ds ≡ some gd
    → total f (remove_domain id ds) + f gd ≡ total f ds
unfolding domain_find remove_domain
total-remove_domain f id [] gd h = absurd (cc h)
total-remove_domain f id (d ∷ ds) gd h = ground (arith, total-remove_domain f id ds gd)

-- A balanced step on a domain that is found balances the table.
with_domain-IsEven :
    (lib : Library) (id : ℕ) (gd gd' : Domain) (w' : World)
    → domain_find id lib.domains ≡ some gd
    → Moves gd lib.world gd' w'
    → IsEven lib
    → IsEven (with_domain lib gd' w')
unfolding with_domain
with_domain-IsEven lib id gd gd' w' found (live, held, fds, same) (a, b, c) =
    let q : gd'.domain ≡ id = same ∙ domain_find_id id lib.domains gd found in
    (
      λ h. omega (arith, live h, a h, total-update (mrs_of h) id lib.domains gd gd' found q),
      λ d. omega (arith, held d, b d, total-update (ctxs_of d) id lib.domains gd gd' found q),
      fds ∙ c,
    )

module _ (gpu : Gpu) (p : Platform) (pd_end : ℕ) (l : Layout) where
  pub register-IsEven :
      (lib : Library) (id : ℕ) (rdma : RdmaDomain) (addr len : ℕ)
      → IsEven lib
      → IsEven (register gpu p pd_end lib id rdma addr len).0
  unfolding register
  register-IsEven lib id rdma addr len b =
      let P : Library × Result (Unit {0}) → Type 0 = λ z. IsEven z.0 in
      if_keeps P (addr == 0 || len == 0) _ _ b (
        option_keeps P (domain_find id lib.domains) _ _ b λ gd found.
          result_keeps P (get_rdma_pd pd_end rdma) _ _ (λ e. b)
            λ pd q.
              result_keeps P (get_ptr_device_id gpu gd addr) _ _ (λ e. b)
                λ device q'.
                  with_domain-IsEven lib id gd
                    (register_locked gpu p gd lib.world device pd addr len).0
                    (register_locked gpu p gd lib.world device pd addr len).1 found
                    (register_locked-Settles gpu p gd lib.world device pd addr len).0 b)

  pub translate-IsEven :
      (lib : Library) (id : ℕ) (dst : RdmaDomain) (addr len : ℕ)
      → IsEven lib
      → IsEven (translate gpu p pd_end lib id dst addr len).0
  unfolding translate
  translate-IsEven lib id dst addr len b =
      let P : Library × Result Translation → Type 0 = λ z. IsEven z.0 in
      option_keeps P (domain_find id lib.domains) _ _ b λ gd found.
        result_keeps P (get_rdma_pd pd_end dst) _ _ (λ e. b)
          λ pd q.
            with_domain-IsEven lib id gd (translate_locked gpu p gd lib.world dst pd addr len).0
              (translate_locked gpu p gd lib.world dst pd addr len).1 found
              (translate_locked-Settles gpu p gd lib.world dst pd addr len).0 b

-- One domain holds no more than all.
le-total :
    (f : Domain → ℕ) (id : ℕ) (ds : List Domain) (gd : Domain)
    → domain_find id ds ≡ some gd
    → f gd ≤ total f ds
le-total f id ds gd h = omega (arith, total-remove_domain f id ds gd h)

pub invalidate-IsEven :
    (lib : Library) (id addr len : ℕ) → IsEven lib → IsEven (invalidate lib id addr len)
unfolding invalidate
invalidate-IsEven lib id addr len b =
    option_keeps IsEven (domain_find id lib.domains) _ _ b λ gd found.
      with_domain-IsEven lib id gd (invalidate_range gd lib.world addr len).0
        (invalidate_range gd lib.world addr len).1 found
        (invalidate_range-Moves gd lib.world addr len
          (λ h. omega (arith, b.0 h, le-total (mrs_of h) id lib.domains gd found)))
        b

pub destroy-IsEven : (lib : Library) (id : ℕ) → IsEven lib → IsEven (destroy lib id)
unfolding destroy
destroy-IsEven lib id b =
    option_keeps IsEven (domain_find id lib.domains) _ _ b (λ gd found. destroyed gd found)
  where
    destroyed :
        (gd : Domain)
        → domain_find id lib.domains ≡ some gd
        → IsEven (record {
          domains = remove_domain id lib.domains;
          world =
              release_cuda_ctxs gd.cuda_ctxs
                (release_owned gd (dereg_hits (λ e. true) gd.mr_cache lib.world));
        })
    destroyed gd found =
        let w = dereg_hits (λ e. true) gd.mr_cache lib.world in
        let w1 = release_owned gd w in
        let w2 = release_cuda_ctxs gd.cuda_ctxs w1 in
        let (fds, held) = dereg_all_keeps gd.mr_cache lib.world in
        let (fds1, live1) = release_owned_keeps gd w in
        let (fds2, live2) = release_cuda_ctxs_keeps gd.cuda_ctxs w1 in
        let mrs : (h : ℕ) → count h w.live + mrs_of h gd ≡ count h lib.world.live =
          count-dereg_all gd.mr_cache lib.world
            (λ h. omega (arith, b.0 h, le-total (mrs_of h) id lib.domains gd found)) in
        let before : (d : ℤ) → count_device d w.retained ≡ total (ctxs_of d) lib.domains =
          λ d. ap (count_device d) held ∙ b.1 d in
        let enough : (d : ℤ) → ctxs_of d gd ≤ count_device d w.retained =
          λ d. omega (arith, before d, le-total (ctxs_of d) id lib.domains gd found) in
        let owned : (d : ℤ)
            → count_device d w1.retained + owned_of d gd ≡ count_device d w.retained =
          count-release_owned gd w (λ d. unfold ctxs_of in omega (arith, enough d)) in
        let ctxs =
          count-release_cuda_ctxs gd.cuda_ctxs w1
            (λ d. unfold ctxs_of in omega (arith, enough d, owned d)) in
        (
          λ h.
              let same : count h w2.live ≡ count h w.live = ap (count h) (live2 ∙ live1) in
              omega
                (arith, same, mrs h, b.0 h, total-remove_domain (mrs_of h) id lib.domains gd found),
          λ d.
              unfold ctxs_of in
              omega (
                arith,
                ctxs d,
                owned d,
                before d,
                total-remove_domain (ctxs_of d) id lib.domains gd found,
              ),
          fds2 ∙ fds1 ∙ fds ∙ b.2,
        )
