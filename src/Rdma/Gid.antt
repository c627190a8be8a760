-- ===== src/Rdma/Gid.antt =====
-- `reprobeAutoGid` of mooncake-transfer-engine/src/transport/rdma_transport/rdma_context.cpp and the
-- tests on a GID it is built on. A GID is its four words of 32 bits in the host's order. The verbs
-- library, sysfs and the choice among candidates are parameters.
pub mod Switch
use mooncake_maca_spdk_dmabu.Prelude.{
  ℕ, zero, suc, ◌+◌, ◌/◌, ◌%◌, ◌^◌, Bool, true, false, not, ◌&&◌, ◌||◌, Option, none, some, List,
  [], ◌∷◌, Text, leb, ltb, ◌++◌, ◌==◌, if◌then◌else◌, codes, text_eq, is_empty, ℤ, pos, int_eq, ◌≡◌,
  ◌⊎◌, inl, inr, arith, refl, Bool-cases, Option-cases,
}
use mooncake_maca_spdk_dmabu.Location.{strip_prefix}
use mooncake_maca_spdk_dmabu.Rdma.Registration.Refresh.{
  DeviceDesc, RefreshResult, refreshed, refresh_local_device_desc,
}

pub record Gid : Type 0 where
  pub word0 : ℕ
  pub word1 : ℕ
  pub word2 : ℕ
  pub word3 : ℕ

unfoldable pub is_null_gid : Gid → Bool
is_null_gid g = (g.word0 == 0) && (g.word1 == 0) && (g.word2 == 0) && (g.word3 == 0)

-- A word is zero after `^ k` exactly when it is `k`; `|` is zero when both words are.
unfoldable pub ipv6_addr_v4mapped : Gid → Bool
ipv6_addr_v4mapped g =
    ((g.word0 == 0) && (g.word1 == 0) && (g.word2 == 65535))
    || ((g.word0 == 4279107584) && (g.word1 == 0) && (g.word2 == 65535))

unfoldable pub starts_with : Text → Text → Bool
unfolding strip_prefix
starts_with ndev p = elim (strip_prefix p ndev) [ none ↦ false | some rest ↦ true ]

unfoldable pub is_overlay_network : Text → Bool
is_overlay_network ndev =
    starts_with ndev (codes "flannel")
    || starts_with ndev (codes "cni")
    || starts_with ndev (codes "calico")
    || starts_with ndev (codes "vxlan")
    || starts_with ndev (codes "docker")
    || text_eq ndev (codes "tunl0")

unfoldable pub is_overlay_ipv4 : Gid → Bool
is_overlay_ipv4 g =
    let octet1 = g.word3 / 2 ^ 24 % 256 in
    let octet2 = g.word3 / 2 ^ 16 % 256 in
    if not (ipv6_addr_v4mapped g)
    then false
    else if octet1 == 10
    then true
    else if (octet1 == 172) && leb 16 octet2 && leb octet2 31
    then true
    else (octet1 == 100) && leb 64 octet2 && leb octet2 127

-- `%02x` of a byte, and the bytes of a word.
unfoldable pub hex_digit : ℕ → ℕ
hex_digit n = if ltb n 10 then 48 + n else 87 + n

unfoldable pub hex_byte : ℕ → Text
hex_byte b = hex_digit (b / 16 % 16) ∷ hex_digit (b % 16) ∷ []

unfoldable pub hex_word : ℕ → Text
hex_word w =
    hex_byte (w / 2 ^ 24 % 256)
    ++ codes ":"
    ++ hex_byte (w / 2 ^ 16 % 256)
    ++ codes ":"
    ++ hex_byte (w / 2 ^ 8 % 256)
    ++ codes ":"
    ++ hex_byte (w % 256)

unfoldable pub gid_bytes_to_string : Gid → Text
gid_bytes_to_string g =
    hex_word g.word0
    ++ codes ":"
    ++ hex_word g.word1
    ++ codes ":"
    ++ hex_word g.word2
    ++ codes ":"
    ++ hex_word g.word3

-- What the code fills in of a candidate; one whose query fails keeps the defaults of the rest.
pub record GidFacts : Type 0 where
  pub gid : Text
  pub gid_type : ℕ
  pub has_network_device : Bool
  pub is_ipv4_mapped : Bool
  pub is_link_local_ipv6 : Bool
  pub is_overlay_network : Bool
  pub is_overlay_ipv4 : Bool
  pub is_null_gid : Bool

pub record AutoGidCandidate : Type 0 where
  pub gid_index : ℕ
  pub facts : Option GidFacts

-- The answers of the libraries: `query_port` is the length of the GID table, `none` a failed call;
-- `reselect` is `reselectAutoGidCandidate` with the selections that were tried.
pub record GidSources : Type 0 where
  pub query_port : Option ℕ
  pub query_gid_ex : ℕ → Option (Gid × ℕ)
  pub query_gid : ℤ → Option Gid
  pub read_gid_ndev : ℕ → Text
  pub is_link_local_ipv6 : Gid → Bool
  pub reselect : List AutoGidCandidate → ℤ → Text → Option ℤ

pub record GidContext : Type 0 where
  pub device_name : Text
  pub auto_gid_selection_enabled : Bool
  pub has_context : Bool
  pub gid_index : ℤ
  pub gid : Gid
  pub lid : ℕ

pub record GidSelectionSnapshot : Type 0 where
  pub gid : Text
  pub gid_index : ℤ

unfoldable pub gid_selection : GidContext → GidSelectionSnapshot
gid_selection c = record { gid = gid_bytes_to_string c.gid; gid_index = c.gid_index }

-- What a call leaves: its answer, the context, the local segment and the two strings it writes.
pub record Reprobe : Type 0 where
  pub switched : Bool
  pub context : GidContext
  pub local : Option (List DeviceDesc)
  pub previous_gid : Option Text
  pub next_gid : Option Text

module _ (env : GidSources) where
  unfoldable pub gid_facts : ℕ → Gid × ℕ → GidFacts
  gid_facts i (g, type) =
      let ndev = env.read_gid_ndev i in
      record {
        gid = gid_bytes_to_string g;
        gid_type = type;
        has_network_device = not (is_empty ndev);
        is_ipv4_mapped = ipv6_addr_v4mapped g;
        is_link_local_ipv6 = env.is_link_local_ipv6 g;
        is_overlay_network = not (is_empty ndev) && is_overlay_network ndev;
        is_overlay_ipv4 = ipv6_addr_v4mapped g && is_overlay_ipv4 g;
        is_null_gid = is_null_gid g;
      }

  unfoldable pub gid_candidate : ℕ → AutoGidCandidate
  gid_candidate i = record {
    gid_index = i;
    facts = elim (env.query_gid_ex i) [ none ↦ none | some e ↦ some (gid_facts i e) ];
  }

  -- The candidates from index `i` on, of which `n` are left.
  unfoldable pub gid_candidates : ℕ → ℕ → List AutoGidCandidate
  gid_candidates i zero = []
  gid_candidates i (suc n) = gid_candidate i ∷ gid_candidates (suc i) n

  module _ (publish : List DeviceDesc → ℕ) where
    unfoldable pub stay :
        GidContext → Option (List DeviceDesc) → Option Text → Option Text → Reprobe
    stay c ds previous next = record {
      switched = false;
      context = c;
      local = ds;
      previous_gid = previous;
      next_gid = next;
    }

    -- From the publication of the new GID on.
    unfoldable pub switch_gid : GidContext → Option (List DeviceDesc) → ℤ → Gid → Reprobe
    unfolding stay
    switch_gid c ds i new =
        let text = gid_bytes_to_string new in
        let previous = some (gid_bytes_to_string c.gid) in
        let (r, ds') = refresh_local_device_desc publish c.device_name c.lid text ds in
        elim r [
          | refreshed ↦ record {
            switched = not (is_empty text);
            context = record c { gid = new; gid_index = i };
            local = ds';
            previous_gid = previous;
            next_gid = some text;
          }
          | _ ↦ stay c ds' previous none
        ]

    unfoldable pub choose_gid : GidContext → Option (List DeviceDesc) → ℕ → Reprobe
    unfolding stay
    choose_gid c ds len =
        let current = gid_bytes_to_string c.gid in
        elim (env.reselect (gid_candidates 0 len) c.gid_index current) [
          | none ↦ stay c ds none (some current)
          | some i ↦ elim (env.query_gid i) [
            | none ↦ stay c ds none none
            | some new ↦ if is_null_gid new then stay c ds none none else switch_gid c ds i new
          ]
        ]

    unfoldable pub reprobe_auto_gid :
        GidSelectionSnapshot → GidContext → Option (List DeviceDesc) → Reprobe
    unfolding stay
    reprobe_auto_gid expected c ds =
        if not (c.auto_gid_selection_enabled && c.has_context)
        then stay c ds none none
        else if not (
            int_eq c.gid_index expected.gid_index
            && text_eq (gid_bytes_to_string c.gid) expected.gid)
        then stay c ds none none
        else elim env.query_port [ none ↦ stay c ds none none | some len ↦ choose_gid c ds len ]
