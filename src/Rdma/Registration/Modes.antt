-- ===== src/Rdma/Registration/Modes.antt =====
-- Working on the contexts one after the other and in parallel.
use mooncake_maca_spdk_dmabu.Prelude.{
  ℕ, Bool, true, false, Option, List, [], ◌∷◌, ◌≡◌, inl, inr, refl, sym, subst, ap, ◌∙◌, arith,
  ◌==◌, if◌then◌else◌, Text, Bool-cases, Option-cases, ==→eq, length, map,
}
use mooncake_maca_spdk_dmabu.Rdma.Select.{BufferDesc}
use mooncake_maca_spdk_dmabu.Rdma.Regions.{Mr, lkey, rkey}
use mooncake_maca_spdk_dmabu.Rdma.Registration.{
  Context, Settings, Metadata, Machine, RegisterResult, registered, pre_touch_failed, region_failed,
  register_in, do_pre_touch, transport_pre_touch, use_parallel_reg, sequential, parallel,
  in_contexts, allow_gpu_dmabuf, describe, buffer_name, publish_buffer, register_local_memory,
}

module _ (f : Context → Bool × Context) where
  -- Both orders answer the same.
  pub sequential-parallel : (cs : List Context) → (sequential f cs).0 ≡ (parallel f cs).0
  unfolding sequential parallel
  sequential-parallel [] = refl
  sequential-parallel (c ∷ cs) = ground (arith, sequential-parallel cs)

  sequential_contexts :
      (cs : List Context) → (sequential f cs).0 ≡ true → (sequential f cs).1 ≡ (parallel f cs).1
  unfolding sequential parallel
  sequential_contexts [] e = refl
  sequential_contexts (c ∷ cs) e = ground (arith, sequential_contexts cs)

  parallel-length : (cs : List Context) → length (parallel f cs).1 ≡ length cs
  unfolding parallel
  parallel-length [] = refl
  parallel-length (c ∷ cs) = ground (arith, parallel-length cs)

  -- What succeeds in one order gives the same contexts in the other.
  pub in_contexts-order :
      (a b : Bool) (cs cs' : List Context)
      → in_contexts a f cs ≡ (true, cs')
      → in_contexts b f cs ≡ (true, cs')
  in_contexts-order true true cs cs' e = e
  in_contexts-order false false cs cs' e = e
  in_contexts-order true false cs cs' e =
      ground (arith, sequential-parallel cs, sequential_contexts cs)
  in_contexts-order false true cs cs' e =
      ground (arith, sequential-parallel cs, sequential_contexts cs)

  in_contexts-length :
      (a : Bool) (cs cs' : List Context) → in_contexts a f cs ≡ (true, cs') → length cs' ≡ length cs
  in_contexts-length a cs cs' e =
      let p = in_contexts-order a true cs cs' e in ap (λ z. length z.1) (sym p) ∙ parallel-length cs

map-length : (g : Context → ℕ) (cs : List Context) → length (map g cs) ≡ length cs
map-length g [] = refl
map-length g (c ∷ cs) = omega (arith, map-length g cs)

module _ (settings : Settings) (garbage : Option Mr) (metadata : Metadata) (machine : Machine)
    (cs : List Context) (addr len : ℕ) (name : Text) (update_metadata : Bool) where
  abbrev touched : Bool
  touched =
      if do_pre_touch settings garbage cs len
      then transport_pre_touch settings garbage cs addr len
          (allow_gpu_dmabuf settings garbage metadata machine name)
      else true

  abbrev run : Bool → RegisterResult × List Context
  run force =
      register_local_memory settings garbage metadata machine cs addr len name update_metadata force

  abbrev each : Context → Bool × Context
  each =
      register_in settings garbage addr len
        (allow_gpu_dmabuf settings garbage metadata machine name)

  abbrev mode : Bool → Bool
  mode force = use_parallel_reg settings garbage cs (do_pre_touch settings garbage cs len) force

  run_stop : (force : Bool) → touched ≡ false → run force ≡ (pre_touch_failed, cs)
  unfolding register_local_memory
  run_stop force t = ground arith

  run_fail :
      (force : Bool) (cs' : List Context)
      → touched ≡ true
      → in_contexts (mode force) each cs ≡ (false, cs')
      → run force ≡ (region_failed, cs')
  unfolding register_local_memory
  run_fail force cs' t i = ground arith

  run_on :
      (force : Bool) (cs' : List Context)
      → touched ≡ true
      → in_contexts (mode force) each cs ≡ (true, cs')
      → run force
        ≡ (publish_buffer settings garbage metadata machine cs' addr len name update_metadata, cs')
  unfolding register_local_memory
  run_on force cs' t i = ground arith

  run_inv :
      (force : Bool) (desc : BufferDesc) (cs' : List Context)
      → run force ≡ (registered desc, cs')
      → (touched ≡ true)
        × (in_contexts (mode force) each cs ≡ (true, cs'))
        × (publish_buffer settings garbage metadata machine cs' addr len name update_metadata
            ≡ registered desc)
  run_inv force desc cs' e = elim (Bool-cases touched) [
    | inr t ↦ absurd (cc (run_stop force t))
    | inl t ↦ go (in_contexts (mode force) each cs) refl t
  ]
    where
      go :
          (r : Bool × List Context)
          → in_contexts (mode force) each cs ≡ r
          → touched ≡ true
          → (touched ≡ true)
            × (in_contexts (mode force) each cs ≡ (true, cs'))
            × (publish_buffer settings garbage metadata machine cs' addr len name update_metadata
                ≡ registered desc)
      go (false, ds) q t = absurd (cc (run_fail force ds t q))
      go (true, ds) q t =
          let on = run_on force ds t q in
          let same : ds ≡ cs' = cc in
          (
            t,
            subst (λ z. in_contexts (mode force) each cs ≡ (true, z)) same q,
            subst
                (λ z.
                  publish_buffer settings garbage metadata machine z addr len name update_metadata
                  ≡ registered desc)
                same (cc),
          )

  described :
      (cs' : List Context) (place : Text)
      → let d = describe settings garbage metadata machine cs' addr len place in
        (d.addr ≡ addr)
        × (d.length ≡ len)
        × (length d.lkey ≡ length cs')
        × (length d.rkey ≡ length cs')
  unfolding describe
  described cs' place = (
    refl,
    refl,
    map-length (λ c. lkey c.regions addr) cs',
    map-length (λ c. rkey c.regions addr) cs',
  )

  publish_inv :
      (cs' : List Context) (desc : BufferDesc)
      → publish_buffer settings garbage metadata machine cs' addr len name update_metadata
        ≡ registered desc
      → (place : Text) × (describe settings garbage metadata machine cs' addr len place ≡ desc)
        × (metadata.add_buffer desc update_metadata ≡ 0)
  publish_inv cs' desc p =
      elim (Option-cases (buffer_name settings garbage metadata machine addr len name)) [
        | inl q ↦ absurd (unfold publish_buffer in ground arith)
        | inr (place, q) ↦
            let d = describe settings garbage metadata machine cs' addr len place in
            elim (Bool-cases (metadata.add_buffer d update_metadata == 0)) [
              | inr z ↦ absurd (unfold publish_buffer in ground arith)
              | inl z ↦
                  let same : d ≡ desc = unfold publish_buffer in ground arith in
                  (
                    place,
                    same,
                    subst (λ x. metadata.add_buffer x update_metadata ≡ 0) same
                        (==→eq (metadata.add_buffer d update_metadata) 0 z),
                  )
            ]
      ]

  published :
      (cs' : List Context) (desc : BufferDesc)
      → publish_buffer settings garbage metadata machine cs' addr len name update_metadata
        ≡ registered desc
      → (desc.addr ≡ addr)
        × (desc.length ≡ len)
        × (length desc.lkey ≡ length cs')
        × (length desc.rkey ≡ length cs')
        × (metadata.add_buffer desc update_metadata ≡ 0)
  published cs' desc p =
      let (place, same, z) = publish_inv cs' desc p in
      let (a, l, k, r) = described cs' place in
      (
        ap (λ x. x.addr) (sym same) ∙ a,
        ap (λ x. x.length) (sym same) ∙ l,
        ap (λ x. length x.lkey) (sym same) ∙ k,
        ap (λ x. length x.rkey) (sym same) ∙ r,
        z,
      )

  -- A registration that succeeds does so with and without `force_sequential`, and leaves the same
  -- regions and the same descriptor.
  pub register-order :
      (a b : Bool) (desc : BufferDesc) (cs' : List Context)
      → run a ≡ (registered desc, cs')
      → run b ≡ (registered desc, cs')
  register-order a b desc cs' e =
      let (t, i, p) = run_inv a desc cs' e in
      run_on b cs' t (in_contexts-order each (mode a) (mode b) cs cs' i) ∙ ap (λ z. (z, cs')) p

  -- The descriptor that a successful registration publishes has the range that was asked for and a
  -- pair of keys for every context, and the metadata service took it.
  pub register-published :
      (a : Bool) (desc : BufferDesc) (cs' : List Context)
      → run a ≡ (registered desc, cs')
      → (desc.addr ≡ addr)
        × (desc.length ≡ len)
        × (length desc.lkey ≡ length cs)
        × (length desc.rkey ≡ length cs)
        × (metadata.add_buffer desc update_metadata ≡ 0)
  register-published a desc cs' e =
      let (t, i, p) = run_inv a desc cs' e in
      let n = in_contexts-length each (mode a) cs cs' i in
      let (a', l, k, r, z) = published cs' desc p in (a', l, k ∙ n, r ∙ n, z)
