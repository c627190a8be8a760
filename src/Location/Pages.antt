-- ===== src/Location/Pages.antt =====
-- What `getMemoryLocation` answers for memory of the host.
use mooncake_maca_spdk_dmabu.Prelude.{
  ap, ◌∙◌, Option-cases, inl, inr, ℕ, zero, suc, ◌+◌, ◌-◌, ◌*◌, ◌^◌, ◌<◌, ◌≤◌, false, ◌&&◌, Option,
  none, some, List, [], ◌∷◌, Text, ◌≡◌, refl, ℤ, int_eq, int_eq→eq, arith, length, get_elem?, ltb,
  leb, if◌then◌else◌, Bool-cases,
}
use mooncake_maca_spdk_dmabu.Location.{
  Probe, get_memory_location, wildcard_location, cpu_locations, MemoryLocationEntry, align_page,
  page_addresses, page_count, runs, gen_cpu_node_name, pagesize,
}

-- The entries are not empty and lie end to end from `a` to `b`.
abbrev pub Tiles : ℕ → List MemoryLocationEntry → ℕ → Type 0
Tiles a [] b = a ≡ b
Tiles a (e ∷ es) b = (e.start ≡ a) × (0 < e.len) × Tiles (a + e.len) es b

-- The location of the entry that an address lies in.
abbrev pub location_at : List MemoryLocationEntry → ℕ → Option Text
location_at [] a = none
location_at (e ∷ es) a =
    if leb e.start a && ltb a (e.start + e.len) then some e.location else location_at es a

runs-Tiles :
    (base end i start_addr : ℕ) (node : ℤ) (rest : List ℤ)
    → start_addr < base + i * pagesize
    → start_addr < end
    → base + (i + length rest) * pagesize < end + pagesize
    → Tiles start_addr (runs base end i start_addr node rest) end
unfolding runs
runs-Tiles base end i start_addr node [] low some_byte high = omega arith
runs-Tiles base end i start_addr node (status ∷ rest) low some_byte high =
    elim (Bool-cases (int_eq status node)) [
      | inl e ↦
          rw e
            (runs-Tiles base end (i + 1) start_addr node rest (omega arith) some_byte (omega arith))
      | inr e ↦ rw e (
        refl,
        (omega arith),
        (let z : start_addr + (base + i * pagesize - start_addr) ≡ base + i * pagesize =
              omega arith in
            rw z (
              runs-Tiles base end (i + 1) (base + i * pagesize) status rest (omega arith)
                (omega arith) (omega arith))),
      )
    ]

runs-current :
    (base end i start_addr a : ℕ) (node : ℤ) (rest : List ℤ)
    → start_addr ≤ a
    → a < base + i * pagesize
    → a < end
    → location_at (runs base end i start_addr node rest) a ≡ some (gen_cpu_node_name node)
unfolding runs
runs-current base end i start_addr a node [] low high inside = ground arith
runs-current base end i start_addr a node (status ∷ rest) low high inside =
    ground (arith, runs-current base end (i + 1) start_addr a node rest)

runs-later :
    (base end i start_addr a k : ℕ) (node z : ℤ) (rest : List ℤ)
    → get_elem? rest k ≡ some z
    → start_addr ≤ base + i * pagesize
    → base + (i + k) * pagesize ≤ a
    → a < base + (i + k + 1) * pagesize
    → a < end
    → location_at (runs base end i start_addr node rest) a ≡ some (gen_cpu_node_name z)
unfolding runs
runs-later base end i start_addr a k node z [] e s low high inside = cc
runs-later base end i start_addr a zero node z (status ∷ rest) e s low high inside = ground (
  arith,
  int_eq→eq status node,
  runs-current base end (i + 1) start_addr a node rest,
  runs-current base end (i + 1) (base + i * pagesize) a status rest,
)
runs-later base end i start_addr a (suc k) node z (status ∷ rest) e s low high inside = ground (
  arith,
  runs-later base end (i + 1) start_addr a k node z rest,
  runs-later base end (i + 1) (base + i * pagesize) a k status z rest,
)

length-page_addresses : (aligned n i : ℕ) → length (page_addresses aligned n i) ≡ n
unfolding page_addresses
length-page_addresses aligned zero i = refl
length-page_addresses aligned (suc n) i = ap suc (length-page_addresses aligned n (i + 1))

-- Where nothing wraps, the pages asked for begin below the end, and cover all of the buffer.
page_count_bounds :
    (start len : ℕ)
    → 0 < len
    → start + len + pagesize ≤ 2 ^ 64
    → (0 < page_count start len false)
      × (align_page start + page_count start len false * pagesize < start + len + pagesize)
      × (start + len ≤ align_page start + page_count start len false * pagesize)
      × (align_page start ≤ start)
      × (start < align_page start + pagesize)
unfolding page_count align_page
page_count_bounds start len h fits =
    (omega arith, omega arith, omega arith, omega arith, omega arith)

abbrev asked_pages : ℕ → ℕ → List ℕ
asked_pages start len = page_addresses (align_page start) (page_count start len false) 0

start-lt : (start : ℕ) → start < align_page start + pagesize
unfolding align_page
start-lt start = omega arith

module _ (gpu_prefix : Text) (probe : Probe) (numa_move_pages : List ℕ → Option (List ℤ)) where
  abbrev pub host_locations : ℕ → ℕ → Option (List MemoryLocationEntry)
  host_locations start len =
      get_memory_location gpu_prefix probe numa_move_pages start len false false

  from_statuses :
      (start len : ℕ) (node : ℤ) (rest : List ℤ)
      → numa_move_pages (asked_pages start len) ≡ some (node ∷ rest)
      → host_locations start len ≡ some (runs (align_page start) (start + len) 1 start node rest)
  unfolding get_memory_location cpu_locations
  from_statuses start len node rest e = ground arith

  from_failure :
      (start len : ℕ)
      → numa_move_pages (asked_pages start len) ≡ none
      → host_locations start len
        ≡ some (record { start = start; len = len; location = wildcard_location } ∷ [])
  unfolding get_memory_location cpu_locations
  from_failure start len e = ground arith

  -- If the kernel answers with one status for each page asked for or fails, then for every
  -- non-empty buffer whose end does not wrap the scan of all pages returns, and its entries are not
  -- empty and lie end to end from the start of the buffer to its end.
  pub get_memory_location-Tiles :
      (start len : ℕ)
      → ((pages : List ℕ) (statuses : List ℤ)
          → numa_move_pages pages ≡ some statuses
          → length statuses ≡ length pages)
      → 0 < len
      → start + len + pagesize ≤ 2 ^ 64
      → (es : List MemoryLocationEntry) × (host_locations start len ≡ some es)
        × Tiles start es (start + len)
  get_memory_location-Tiles start len answers some_byte fits =
      let count = page_count start len false in
      let asked = length-page_addresses (align_page start) count 0 in
      let b = page_count_bounds start len some_byte fits in
      elim (Option-cases (numa_move_pages (asked_pages start len))) [
        | inl e ↦ (_, from_failure start len e, (refl, some_byte, refl))
        | inr ([], e) ↦ absurd (omega (arith, answers (asked_pages start len) [] e))
        | inr (node ∷ rest, e) ↦ (
          _,
          from_statuses start len node rest e,
          runs-Tiles (align_page start) (start + len) 1 start node rest (omega arith) (omega arith)
              (omega (arith, answers (asked_pages start len) (node ∷ rest) e)),
        )
      ]

  -- The entry that an address of the buffer lies in has the node of the address's page for its
  -- location, for every page whose status the kernel answered.
  pub get_memory_location-page :
      (start len a k : ℕ) (z : ℤ) (statuses : List ℤ)
      → numa_move_pages (asked_pages start len) ≡ some statuses
      → get_elem? statuses k ≡ some z
      → start ≤ a
      → a < start + len
      → align_page start + k * pagesize ≤ a
      → a < align_page start + (k + 1) * pagesize
      → (es : List MemoryLocationEntry) × (host_locations start len ≡ some es)
        × (location_at es a ≡ some (gen_cpu_node_name z))
  get_memory_location-page start len a k z [] e g low high page_low page_high = cc
  get_memory_location-page start len a zero z (node ∷ rest) e g low high page_low page_high =
      let q : node ≡ z = cc in
      (
        _,
        from_statuses start len node rest e,
        runs-current (align_page start) (start + len) 1 start a node rest low (omega arith) high
            ∙ ap (λ n. some (gen_cpu_node_name n)) q,
      )
  get_memory_location-page start len a (suc k) z (node ∷ rest) e g low high page_low page_high = (
    _,
    from_statuses start len node rest e,
    runs-later (align_page start) (start + len) 1 start a k node z rest g
        (omega (arith, start-lt start)) (omega arith) (omega arith) high,
  )
