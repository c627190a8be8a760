-- ===== src/Rdma/Tests/Gid.antt =====
-- A reprobe of a GID table of two entries, on a device with the first one.
use mooncake_maca_spdk_dmabu.Prelude.{
  ℕ, zero, suc, true, false, Option, none, some, List, [], ◌∷◌, ◌≡◌, refl, codes, ℤ, pos, text_eq,
}
use mooncake_maca_spdk_dmabu.Rdma.Registration.Refresh.{
  DeviceDesc, update_device, refresh_local_device_desc,
}
use mooncake_maca_spdk_dmabu.Location.{strip_prefix}
use mooncake_maca_spdk_dmabu.Rdma.Gid.{
  Gid, GidContext, GidSources, gid_bytes_to_string, gid_selection, reprobe_auto_gid,
  ipv6_addr_v4mapped, is_overlay_ipv4, is_overlay_network, starts_with, hex_word, hex_byte,
  hex_digit, choose_gid, is_null_gid, switch_gid,
}
use mooncake_maca_spdk_dmabu.Rdma.Gid.Switch.{Reprobed, reprobe-Reprobed}

-- 192.168.0.1 and 172.17.0.1 as IPv4 addresses in IPv6.
abbrev first_gid : Gid
first_gid = record { word0 = 0; word1 = 0; word2 = 65535; word3 = 3232235521 }

abbrev docker_gid : Gid
docker_gid = record { word0 = 0; word1 = 0; word2 = 65535; word3 = 2886795265 }

abbrev entry_at : ℕ → Option (Gid × ℕ)
entry_at zero = some (first_gid, 2)
entry_at (suc zero) = some (docker_gid, 2)
entry_at _ = none

abbrev gid_at : ℤ → Option Gid
gid_at (pos zero) = some first_gid
gid_at (pos (suc zero)) = some docker_gid
gid_at _ = none

abbrev two_gids : GidSources
two_gids = record {
  query_port = some 2;
  query_gid_ex = entry_at;
  query_gid = gid_at;
  read_gid_ndev = λ i. codes "docker0";
  is_link_local_ipv6 = λ g. false;
  reselect = λ candidates index gid. some (pos 1);
}

abbrev on_first : GidContext
on_first = record {
  device_name = codes "mlx5_0";
  auto_gid_selection_enabled = true;
  has_context = true;
  gid_index = pos 0;
  gid = first_gid;
  lid = 7;
}

abbrev one_device : List DeviceDesc
one_device = record { name = codes "mlx5_0"; lid = 7; gid = gid_bytes_to_string first_gid } ∷ []

docker_is_overlay : is_overlay_ipv4 docker_gid ≡ true
unfolding is_overlay_ipv4 ipv6_addr_v4mapped
docker_is_overlay = refl

first_is_no_overlay : is_overlay_ipv4 first_gid ≡ false
unfolding is_overlay_ipv4 ipv6_addr_v4mapped
first_is_no_overlay = refl

docker0_is_overlay : is_overlay_network (codes "docker0") ≡ true
unfolding is_overlay_network starts_with strip_prefix text_eq
docker0_is_overlay = refl

abbrev published : List DeviceDesc → ℕ
published ds = 0

reprobe-Reprobed_example :
    Reprobed two_gids published on_first one_device
      (gid_selection on_first)
      (reprobe_auto_gid two_gids published (gid_selection on_first) on_first (some one_device))
reprobe-Reprobed_example =
    reprobe-Reprobed two_gids published on_first one_device (gid_selection on_first)

-- The selection of the context is the expected one, and the reprobe switches to the other entry.
first_switches :
    (reprobe_auto_gid two_gids published
      (gid_selection on_first)
      on_first
      (some one_device)).switched
    ≡ true
unfolding reprobe_auto_gid gid_selection text_eq gid_bytes_to_string hex_word hex_byte hex_digit
    choose_gid is_null_gid switch_gid refresh_local_device_desc update_device
first_switches = refl
