-- ===== src/Location/RoundTrip.antt =====
-- A "segments:" name is read back as it was built.
use mooncake_maca_spdk_dmabu.Prelude.{
  ℕ, ◌+◌, ◌^◌, ◌<◌, ◌≢◌, true, not, some, List, [], ◌∷◌, ◌++◌, Text, codes, ◌⊎◌, inl, inr, ◌≡◌,
  refl, sym, ap, ◌∙◌, ℤ, pos, negsuc, arith, All, append_assoc, append-nil, is_empty,
}
use mooncake_maca_spdk_dmabu.Decimal.{
  to_string, int_to_string, stoull, stoi, skip_space, read_sign, read_digits,
}
use mooncake_maca_spdk_dmabu.Decimal.RoundTrip.{
  IsDigit, IsInt32, to_string-All, stoull-to_string, stoi-int_to_string,
}
use mooncake_maca_spdk_dmabu.Location.{
  SegmentsLocationInfo, segments_location_prefix, append_nodes, build_segments_location,
  strip_prefix, split_at, done, push_node, scan_nodes, parse_segments_location,
}

abbrev Lacks : ℕ → Text → Type 0
Lacks b = All (λ c. c ≢ b)

digits-Lacks : (b : ℕ) (s : Text) → b < b'0' ⊎ b'9' < b → All IsDigit s → Lacks b s
digits-Lacks b [] o h = tt
digits-Lacks b (c ∷ s) o (h, hs) = ((λ e. omega arith), digits-Lacks b s o hs)

int_to_string-Lacks : (z : ℤ) → Lacks b',' (int_to_string z)
unfolding int_to_string
int_to_string-Lacks (pos n) = digits-Lacks b',' (to_string n) (inl (omega arith)) (to_string-All n)
int_to_string-Lacks (negsuc n) = (
  (λ e. omega arith),
  digits-Lacks b',' (to_string (n + 1)) (inl (omega arith)) (to_string-All (n + 1)),
)

-- Every node but the first behind a comma.
abbrev behind_commas : List ℤ → Text
behind_commas [] = []
behind_commas (z ∷ zs) = b',' ∷ (int_to_string z ++ behind_commas zs)

append_nodes_later : (zs : List ℤ) (r : Text) → append_nodes zs true r ≡ r ++ behind_commas zs
unfolding append_nodes
append_nodes_later [] r = sym (append-nil r)
append_nodes_later (z ∷ zs) r =
    append_nodes_later zs ((r ++ codes ",") ++ int_to_string z) ∙ simp append_assoc

scan-Lacks :
    (s rest cur : Text) (nodes : List ℤ)
    → Lacks b',' s
    → scan_nodes (s ++ rest) cur nodes ≡ scan_nodes rest (cur ++ s) nodes
unfolding scan_nodes
scan-Lacks [] rest cur nodes h = rw append-nil
scan-Lacks (c ∷ s) rest cur nodes h =
    ground (arith, scan-Lacks s rest (cur ++ c ∷ []) nodes, append_assoc cur (c ∷ []) s)

push_stoi :
    (s : Text) (z : ℤ) (nodes : List ℤ)
    → stoi s ≡ some z
    → push_node s nodes ≡ done (nodes ++ z ∷ [])
unfolding push_node
push_stoi [] z nodes e = absurd (empty_throws e)
  where
    empty_throws : stoi [] ≡ some z → ⊥
    empty_throws q = unfold stoi skip_space read_sign read_digits in cc
push_stoi (c ∷ s) z nodes e = rw (e, push_node)

scan_comma :
    (z : ℤ) (rest cur : Text) (nodes : List ℤ)
    → stoi cur ≡ some z
    → scan_nodes (b',' ∷ rest) cur nodes ≡ scan_nodes rest [] (nodes ++ z ∷ [])
unfolding scan_nodes
scan_comma z rest cur nodes e = rw (push_stoi cur z nodes e, scan_nodes)

scan_end :
    (z : ℤ) (cur : Text) (nodes : List ℤ)
    → stoi cur ≡ some z
    → scan_nodes [] cur nodes ≡ done (nodes ++ z ∷ [])
unfolding scan_nodes
scan_end z cur nodes e = push_stoi cur z nodes e

scan-nodes :
    (z : ℤ) (zs : List ℤ) (nodes : List ℤ)
    → IsInt32 z
    → All IsInt32 zs
    → scan_nodes (int_to_string z ++ behind_commas zs) [] nodes ≡ done (nodes ++ z ∷ zs)
scan-nodes z [] nodes h hs =
    scan-Lacks (int_to_string z) [] [] nodes (int_to_string-Lacks z)
    ∙ scan_end z (int_to_string z) nodes (stoi-int_to_string z h)
scan-nodes z (w ∷ zs) nodes h (hw, hs) =
    scan-Lacks (int_to_string z) (behind_commas (w ∷ zs)) [] nodes (int_to_string-Lacks z)
    ∙ scan_comma z (int_to_string w ++ behind_commas zs) (int_to_string z) nodes
        (stoi-int_to_string z h)
    ∙ scan-nodes w zs (nodes ++ z ∷ []) hw hs
    ∙ ap done (append_assoc nodes (z ∷ []) (w ∷ zs))

strip_prefix-append : (p s : Text) → strip_prefix p (p ++ s) ≡ some s
unfolding strip_prefix
strip_prefix-append [] s = refl
strip_prefix-append (c ∷ p) s = ground (arith, strip_prefix-append p s)

split_at-append : (b : ℕ) (s rest : Text) → Lacks b s → split_at b (s ++ b ∷ rest) ≡ some (s, rest)
unfolding split_at
split_at-append b [] rest h = ground arith
split_at-append b (c ∷ s) rest h = ground (arith, split_at-append b s rest h.1)

build_closed :
    (page_size : ℕ) (z : ℤ) (zs : List ℤ)
    → build_segments_location page_size (z ∷ zs)
      ≡ segments_location_prefix
        ++ (to_string page_size ++ b':' ∷ (int_to_string z ++ behind_commas zs))
unfolding build_segments_location append_nodes
build_closed page_size z zs = append_nodes_later zs _ ∙ simp append_assoc

parse_parts :
    (name body page nodes_str : Text) (size : ℕ) (ns : List ℤ) (info : SegmentsLocationInfo)
    → strip_prefix segments_location_prefix name ≡ some body
    → split_at b':' body ≡ some (page, nodes_str)
    → stoull page ≡ some size
    → scan_nodes nodes_str [] [] ≡ done ns
    → parse_segments_location name info
      ≡ (not (is_empty ns), record { page_size = size; numa_nodes = ns })
unfolding parse_segments_location
parse_parts name body page nodes_str size ns info p q r t = ground arith

-- A location name built from a 64-bit page size and a non-empty list of 32-bit node numbers is
-- parsed back to exactly these, whatever `info` held before.
pub parse-build :
    (page_size : ℕ) (z : ℤ) (zs : List ℤ) (info : SegmentsLocationInfo)
    → page_size < 2 ^ 64
    → All IsInt32 (z ∷ zs)
    → parse_segments_location (build_segments_location page_size (z ∷ zs)) info
      ≡ (true, record { page_size = page_size; numa_nodes = z ∷ zs })
parse-build page_size z zs info h (hz, hzs) =
    let nodes = int_to_string z ++ behind_commas zs in
    let colon =
      digits-Lacks b':' (to_string page_size) (inr (omega arith)) (to_string-All page_size) in
    rw (build_closed page_size z zs) (
      parse_parts _ (to_string page_size ++ b':' ∷ nodes) (to_string page_size) nodes page_size
        (z ∷ zs) info
        (strip_prefix-append segments_location_prefix (to_string page_size ++ b':' ∷ nodes))
        (split_at-append b':' (to_string page_size) nodes colon) (stoull-to_string page_size h)
        (scan-nodes z zs [] hz hzs))
