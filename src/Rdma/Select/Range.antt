-- ===== src/Rdma/Select/Range.antt =====
-- The buffer that `selectDevice` chooses holds the whole range.
use mooncake_maca_spdk_dmabu.Prelude.{
  ℕ, ◌+◌, ◌-◌, ◌≤◌, ◌⊎◌, inl, inr, false, Option, none, some, List, [], ◌∷◌, ◌≡◌, refl, sym, subst,
  ◌≢◌, suc, zero, arith, Text, get_elem?,
}
use mooncake_maca_spdk_dmabu.Rdma.Select.{
  BufferDesc, Topology, outside, buffer_device, select_from, select_device,
}

-- Every byte of the range is a byte of the buffer.
abbrev pub Holds : BufferDesc → ℕ → ℕ → Type 0
Holds b offset length = (b.addr ≤ offset) × (offset + length ≤ b.addr + b.length)

Holds-of_outside :
    (b : BufferDesc) (offset length : ℕ) → outside b offset length ≡ false → Holds b offset length
unfolding outside
Holds-of_outside b offset length h = ground arith

outside_of_Holds :
    (b : BufferDesc) (offset length : ℕ) → Holds b offset length → outside b offset length ≡ false
unfolding outside
outside_of_Holds b offset length h = ground arith

-- Buffer number `i` of the list holds the range, and `device` is what the topology gives for it.
abbrev pub Serves : Topology → List BufferDesc → ℕ → ℕ → ℕ → Text → ℕ → ℕ → Type 0
Serves t bs i offset length hint retry_count device =
    (b : BufferDesc) × (get_elem? bs i ≡ some b)
    × Holds b offset length
    × (buffer_device t b offset hint retry_count ≡ some device)

minus_zero : (n : ℕ) → n - 0 ≡ n
minus_zero n = omega arith

module _ (t : Topology) (offset length : ℕ) (hint : Text) (retry_count : ℕ) where
  abbrev from : ℕ → List BufferDesc → Option (ℕ × ℕ)
  from i bs = select_from t i bs offset length hint retry_count

  select_step :
      (i : ℕ) (b : BufferDesc) (bs : List BufferDesc) (r : ℕ × ℕ)
      → from i (b ∷ bs) ≡ some r
      → (from (i + 1) bs ≡ some r)
        ⊎ ((outside b offset length ≡ false)
            × (buffer_device t b offset hint retry_count ≡ some r.1)
            × (r.0 ≡ i))
  unfolding select_from
  select_step i b bs r h = ground arith

  select_from_sound :
      (i : ℕ) (bs : List BufferDesc) (r : ℕ × ℕ)
      → from i bs ≡ some r
      → (i ≤ r.0) × Serves t bs (r.0 - i) offset length hint retry_count r.1
  select_from_sound i [] r h = absurd (unfold select_from in ground arith)
  select_from_sound i (b ∷ bs) r h = elim (select_step i b bs r h) [
    | inl q ↦
        let (le, s) = select_from_sound (i + 1) bs r q in
        let e : r.0 - i ≡ suc (r.0 - (i + 1)) = omega arith in
        (omega arith, subst (λ k. Serves t (b ∷ bs) k offset length hint retry_count r.1) (sym e) s)
    | inr (o, d, e) ↦
        let z : 0 ≡ r.0 - i = omega arith in
        (
          omega arith,
          subst (λ k. Serves t (b ∷ bs) k offset length hint retry_count r.1) z
              (b, refl, Holds-of_outside b offset length o, d),
        )
  ]

  select_hit :
      (i : ℕ) (b : BufferDesc) (bs : List BufferDesc) (device : ℕ)
      → outside b offset length ≡ false
      → buffer_device t b offset hint retry_count ≡ some device
      → from i (b ∷ bs) ≡ some (i, device)
  unfolding select_from
  select_hit i b bs device o d = ground arith

  select_from_none :
      (i : ℕ) (b : BufferDesc) (bs : List BufferDesc)
      → from i (b ∷ bs) ≡ none
      → from (i + 1) bs ≡ none
  unfolding select_from
  select_from_none i b bs q = ground arith

  select_from_some :
      (i k : ℕ) (bs : List BufferDesc) (device : ℕ)
      → Serves t bs k offset length hint retry_count device
      → from i bs ≢ none
  select_from_some i k [] device s = λ q. absurd (cc (s.1))
  select_from_some i zero (b ∷ bs) device s = λ q.
      let same : b ≡ s.0 = cc (s.1) in
      let o : outside b offset length ≡ false = rw same (outside_of_Holds s.0 offset length s.2) in
      let v : buffer_device t b offset hint retry_count ≡ some device = rw same s.3 in
      absurd (cc (select_hit i b bs device o v))
  select_from_some i (suc k) (b ∷ bs) device s =
      λ q. select_from_some (i + 1) k bs device s (select_from_none i b bs q)

  -- `selectDevice` answers a buffer of the descriptor that holds the whole range, with a device
  -- that the topology gives for that buffer's location or for the wildcard.
  pub select_device-Serves :
      (bs : List BufferDesc) (r : ℕ × ℕ)
      → select_device (some (record { buffers = bs; topology = t })) offset length hint retry_count
        ≡ some r
      → Serves t bs r.0 offset length hint retry_count r.1
  unfolding select_device
  select_device-Serves bs r h =
      subst (λ k. Serves t bs k offset length hint retry_count r.1) (minus_zero r.0)
        (select_from_sound 0 bs r h).1

  -- It fails only when no buffer that holds the range has a device.
  pub select_device-fails :
      (bs : List BufferDesc) (k device : ℕ)
      → select_device (some (record { buffers = bs; topology = t })) offset length hint retry_count
        ≡ none
      → ¬ Serves t bs k offset length hint retry_count device
  unfolding select_device
  select_device-fails bs k device h s = select_from_some 0 k bs device s h
