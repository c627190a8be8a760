-- ===== src/Rdma/Gid/Switch.antt =====
-- What a GID reprobe changes, in the context and in what other nodes are told.
use mooncake_maca_spdk_dmabu.Prelude.{
  ℕ, true, false, not, ◌&&◌, Option, none, some, List, ◌≡◌, ◌⊎◌, inl, inr, arith, refl, ℤ,
  if_splits, option_splits, int_eq, text_eq, is_empty, Text, if◌then◌else◌,
}
use mooncake_maca_spdk_dmabu.Rdma.Registration.Refresh.{DeviceDesc, refresh-Updates, Updates}
use mooncake_maca_spdk_dmabu.Rdma.Gid.{
  Gid, GidContext, GidSources, GidSelectionSnapshot, Reprobe, gid_bytes_to_string, is_null_gid,
  switch_gid, choose_gid, reprobe_auto_gid, stay, gid_candidates, hex_word, hex_byte,
}

module _ (env : GidSources) (publish : List DeviceDesc → ℕ) (c : GidContext)
    (ds : List DeviceDesc) where
  abbrev current : Text
  current = gid_bytes_to_string c.gid

  -- The index is the one that is chosen among the candidates of the port.
  abbrev Chooses : ℕ → ℤ → Type 0
  Chooses len i =
      (env.query_port ≡ some len)
      × (env.reselect (gid_candidates env 0 len) c.gid_index current ≡ some i)

  -- The context has the GID that the library answers for the chosen index, other nodes were given
  -- it for the device, and the call says so.
  abbrev Switched : Reprobe → Type 0
  Switched r =
      (len : ℕ) × (i : ℤ) × (new : Gid) × Chooses len i
      × (env.query_gid i ≡ some new)
      × (is_null_gid new ≡ false)
      × (r.context ≡ record c { gid = new; gid_index = i })
      × (new_ds : List DeviceDesc) × (r.local ≡ some new_ds)
      × Updates c.device_name c.lid (gid_bytes_to_string new) ds new_ds
      × (publish new_ds ≡ 0)
      × (r.next_gid ≡ some (gid_bytes_to_string new))

  abbrev Settles : Reprobe → Type 0
  Settles r =
      ((r.switched ≡ true) × Switched r)
      ⊎ ((r.switched ≡ false) × (r.context ≡ c) × (r.local ≡ some ds))

  has_text : (g : Gid) → is_empty (gid_bytes_to_string g) ≡ false
  unfolding gid_bytes_to_string hex_word hex_byte
  has_text g = refl

  switch-Settles :
      (len : ℕ) (i : ℤ) (new : Gid)
      → Chooses len i
      → env.query_gid i ≡ some new
      → is_null_gid new ≡ false
      → Settles (switch_gid env publish c (some ds) i new)
  unfolding switch_gid stay
  switch-Settles len i new chosen q z =
      elim (refresh-Updates c.device_name c.lid (gid_bytes_to_string new) publish ds) [
        | inl (e, new_ds, l, u, p) ↦ inl (
          ground (arith, has_text new),
          (len, i, new, chosen, q, z, ground arith, new_ds, ground arith, u, p, ground arith),
        )
        | inr (n, l) ↦ inr (ground arith, ground arith, ground arith)
      ]

  stays : (previous next : Option Text) → Settles (stay env publish c (some ds) previous next)
  unfolding stay
  stays previous next = inr (refl, refl, refl)

  query-Settles :
      (len : ℕ) (i : ℤ)
      → Chooses len i
      → Settles (elim (env.query_gid i) [
        | none ↦ stay env publish c (some ds) none none
        | some new ↦
            if is_null_gid new
            then stay env publish c (some ds) none none
            else switch_gid env publish c (some ds) i new
      ])
  query-Settles len i chosen =
      option_splits Settles (env.query_gid i) _ _ (λ e. stays none none)
        (λ new q.
          if_splits Settles (is_null_gid new) _ _ (λ z. stays none none)
            (λ z. switch-Settles len i new chosen q z))

  choose-Settles :
      (len : ℕ) → env.query_port ≡ some len → Settles (choose_gid env publish c (some ds) len)
  unfolding choose_gid
  choose-Settles len port =
      option_splits Settles (env.reselect (gid_candidates env 0 len) c.gid_index current) _ _
        (λ e. stays none (some current)) (λ i e. query-Settles len i (port, e))

  abbrev idle : Reprobe
  idle = stay env publish c (some ds) none none

  -- Behind the guards.
  abbrev probed : Reprobe
  probed = elim env.query_port [ none ↦ idle | some len ↦ choose_gid env publish c (some ds) len ]

  probed-Settles : Settles probed
  probed-Settles =
      option_splits Settles env.query_port idle (choose_gid env publish c (some ds))
        (λ q. stays none none) (λ len q. choose-Settles len q)

  -- The conditions under which a reprobe goes on: the context chooses its GID itself, is open, and
  -- has the selection that the caller expects.
  abbrev IsExpected : GidSelectionSnapshot → Type 0
  IsExpected expected =
      (c.auto_gid_selection_enabled ≡ true)
      × (c.has_context ≡ true)
      × (int_eq c.gid_index expected.gid_index ≡ true)
      × (text_eq current expected.gid ≡ true)

  abbrev pub Reprobed : GidSelectionSnapshot → Reprobe → Type 0
  Reprobed expected r =
      ((r.switched ≡ true) × IsExpected expected × Switched r)
      ⊎ ((r.switched ≡ false) × (r.context ≡ c) × (r.local ≡ some ds))

  switched-IsExpected :
      (expected : GidSelectionSnapshot)
      → (reprobe_auto_gid env publish expected c (some ds)).switched ≡ true
      → IsExpected expected
  unfolding reprobe_auto_gid stay
  switched-IsExpected expected h = (ground arith, ground arith, ground arith, ground arith)

  settled :
      (expected : GidSelectionSnapshot)
      → Settles (reprobe_auto_gid env publish expected c (some ds))
  unfolding reprobe_auto_gid
  settled expected =
      let same = int_eq c.gid_index expected.gid_index && text_eq current expected.gid in
      if_splits Settles (not (c.auto_gid_selection_enabled && c.has_context)) idle
        (if not same then idle else probed) (λ e. stays none none)
        (λ e.
          if_splits Settles (not same) idle probed (λ e'. stays none none) (λ e'. probed-Settles))

  -- Reprobing the GID of a device of the local segment, on any branch and whatever the libraries
  -- answer, either switches, and then the context chooses its GID itself, was open and had the
  -- expected selection; it has now the valid GID of the index that was chosen among the port's
  -- candidates, the published local segment differs in the identifiers of the first device with the
  -- context's name alone, and these are the context's. Or it answers false, and then the context
  -- and the local segment are as before.
  pub reprobe-Reprobed :
      (expected : GidSelectionSnapshot)
      → Reprobed expected (reprobe_auto_gid env publish expected c (some ds))
  reprobe-Reprobed expected = elim (settled expected) [
    | inl (t, s) ↦ inl (t, switched-IsExpected expected t, s)
    | inr s ↦ inr s
  ]
