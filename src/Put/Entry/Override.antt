-- ===== src/Put/Entry/Override.antt =====
-- What the environment can do to a configuration.
use mooncake_maca_spdk_dmabu.Prelude.{◌+◌, ◌<◌, String, Option, ◌≡◌, arith, Text}
use mooncake_maca_spdk_dmabu.Put.Types.{ReplicateConfig}
use mooncake_maca_spdk_dmabu.Put.Entry.{Strtoull, apply_override}

module _ (getenv : String → Option Text) (strtoull : Text → Strtoull)
    (config : ReplicateConfig) where
  -- A configuration that asks for a replica still asks for one, and its preferred segment and node
  -- preference are its own.
  pub apply_override-asks :
      0 < config.replica_num + config.nof_replica_num
      → (0
          < (apply_override getenv strtoull config).replica_num
            + (apply_override getenv strtoull config).nof_replica_num)
        × ((apply_override getenv strtoull config).preferred_segment ≡ config.preferred_segment)
        × ((apply_override getenv strtoull config).prefer_alloc_in_same_node
            ≡ config.prefer_alloc_in_same_node)
  unfolding apply_override
  apply_override-asks h = ground arith
