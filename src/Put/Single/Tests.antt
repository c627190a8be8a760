-- ===== src/Put/Single/Tests.antt =====
-- A put and an upsert of one object, run.
use mooncake_maca_spdk_dmabu.Prelude.{
  ◌+◌, ◌≤◌, true, false, none, some, List, [], ◌∷◌, ◌≡◌, ◌⊎◌, refl, All,
}
use mooncake_maca_spdk_dmabu.Put.Types.{
  ok_code, ok, has_value, memory, nof_ssd, Replica, ReplicateConfig, Slice,
}
use mooncake_maca_spdk_dmabu.Put.Single.{Objects, put_allocated, upsert_allocated}
use mooncake_maca_spdk_dmabu.Put.Single.Settled.{ended_count, revoked_count, put_settles}
use mooncake_maca_spdk_dmabu.Put.Single.Upserted.{IsWritten, upsert_settles}

abbrev replica : Replica
replica = record { kind = memory; endpoint = "node"; size = 100 }

abbrev remote : Replica
remote = record { kind = nof_ssd; endpoint = "target"; size = 100 }

-- The NoF target cannot be written.
abbrev objects : Objects
objects = record {
  is_flexible = λ c. true;
  is_cxl = false;
  local_hostname = "node";
  has_hot_cache = true;
  has_storage = false;
  has_submitter = true;
  submit = λ r slices. elim (r.kind) [ memory ↦ some ok_code | _ ↦ none ];
  start = λ key sizes config. ok (replica ∷ remote ∷ []);
  end_type = λ key t. ok tt;
  revoke_type = λ key t. ok tt;
}

abbrev config : ReplicateConfig
config = record {
  replica_num = 1;
  nof_replica_num = 1;
  prefer_alloc_in_same_node = false;
  preferred_segment = "";
}

abbrev slices : List Slice
slices = record { ptr = 4096; size = 100 } ∷ []

put_settles_example :
    (ended_count objects memory (put_allocated objects "k" slices config (replica ∷ remote ∷ []))
        + revoked_count objects memory
            (put_allocated objects "k" slices config (replica ∷ remote ∷ []))
      ≡ 1)
    × (ended_count objects nof_ssd (put_allocated objects "k" slices config (replica ∷ remote ∷ []))
          + revoked_count objects nof_ssd
              (put_allocated objects "k" slices config (replica ∷ remote ∷ []))
        ≡ 1)
    × ((has_value (put_allocated objects "k" slices config (replica ∷ remote ∷ [])).0 ≡ true)
          × (1
              ≤ ended_count objects memory
                  (put_allocated objects "k" slices config (replica ∷ remote ∷ []))
                + ended_count objects nof_ssd
                    (put_allocated objects "k" slices config (replica ∷ remote ∷ [])))
        ⊎ (has_value (put_allocated objects "k" slices config (replica ∷ remote ∷ [])).0 ≡ false)
          × (ended_count objects memory
                  (put_allocated objects "k" slices config (replica ∷ remote ∷ []))
                + ended_count objects nof_ssd
                    (put_allocated objects "k" slices config (replica ∷ remote ∷ []))
              ≡ 0))
put_settles_example =
    put_settles objects "k" slices config (replica ∷ remote ∷ []) (λ t. refl) (λ t. refl)

upsert_settles_example :
    (ended_count objects memory (upsert_allocated objects "k" slices (replica ∷ []))
        + revoked_count objects memory (upsert_allocated objects "k" slices (replica ∷ []))
      ≡ 1)
    × ((has_value (upsert_allocated objects "k" slices (replica ∷ [])).0 ≡ true)
          × (ended_count objects memory (upsert_allocated objects "k" slices (replica ∷ [])) ≡ 1)
          × All (IsWritten objects slices) (replica ∷ [])
        ⊎ (has_value (upsert_allocated objects "k" slices (replica ∷ [])).0 ≡ false))
upsert_settles_example = upsert_settles objects "k" slices (replica ∷ [])
