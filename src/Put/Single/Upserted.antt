-- ===== src/Put/Single/Upserted.antt =====
-- How an upsert of one object ends at the master.
use mooncake_maca_spdk_dmabu.Prelude.{
  ℕ, ◌+◌, String, true, false, Option, none, some, List, [], ◌∷◌, ◌≡◌, ◌⊎◌, inl, inr, refl, arith,
  total, All, Bool-cases,
}
use mooncake_maca_spdk_dmabu.Put.Types.{
  ErrorCode, is_ok_code, Expected, has_value, memory, Replica, is_memory, Slice, expected_keeps,
}
use mooncake_maca_spdk_dmabu.Put.Single.{
  Made, wrote, Objects, transfer_write, disk_write, upsert_replicas, finish_upsert,
  upsert_allocated,
}
use mooncake_maca_spdk_dmabu.Put.Single.Settled.{
  ends, revokes, ends_of, revokes_of, ended_count, revoked_count, disk-none, front,
}

module _ (o : Objects) where
  -- A memory replica is written without an error.
  abbrev pub IsWritten : List Slice → Replica → Type 0
  IsWritten slices r = (is_memory r.kind ≡ false) ⊎ (is_ok_code (transfer_write o r slices) ≡ true)

  upsert_replicas-none :
      (slices : List Slice) (rs : List Replica)
      → (upsert_replicas o slices rs).0 ≡ none
      → All (IsWritten slices) rs
  unfolding upsert_replicas
  upsert_replicas-none slices [] h = tt
  upsert_replicas-none slices (r ∷ rs) h = elim (Bool-cases (is_memory r.kind)) [
    | inr b ↦ (inl b, upsert_replicas-none slices rs (ground arith))
    | inl b ↦ elim (Bool-cases (is_ok_code (transfer_write o r slices))) [
      | inl c ↦ (inr c, upsert_replicas-none slices rs (ground arith))
      | inr c ↦ absurd (ground arith)
    ]
  ]

  upserted-none :
      (f : Made → ℕ) (slices : List Slice) (rs : List Replica)
      → ((r : Replica) → f (wrote r) ≡ 0)
      → total f (upsert_replicas o slices rs).1 ≡ 0
  unfolding upsert_replicas
  upserted-none f slices [] w = refl
  upserted-none f slices (r ∷ rs) w = ground (arith, w r, upserted-none f slices rs w)

  -- One call ends or revokes, and a success has no failure in front of it and ends.
  abbrev Finishes : Option ErrorCode → Expected (Unit {0}) × List Made → Type 0
  Finishes failure out =
      (ends_of memory out.1 + revokes_of memory out.1 ≡ 1)
      × ((has_value out.0 ≡ true) × (failure ≡ none) × (ends_of memory out.1 ≡ 1)
          ⊎ (has_value out.0 ≡ false))

  finish_upsert-Finishes :
      (key : String) (failure : Option ErrorCode) → Finishes failure (finish_upsert o key failure)
  unfolding finish_upsert
  finish_upsert-Finishes key (some e) =
      expected_keeps (Finishes (some e)) (o.revoke_type key memory) _ _ (λ e'. (refl, inr refl))
        (λ u q. (refl, inr refl))
  finish_upsert-Finishes key none =
      expected_keeps (Finishes none) (o.end_type key memory) _ _ (λ e'. (refl, inr refl))
        (λ u q. (ground arith, inl (refl, refl, ground arith)))

  -- Behind a start call that allocates replicas, whatever the master and the transfers answer: the
  -- memory replicas are ended or revoked by exactly one call; the upsert succeeds only if they are
  -- ended and every memory replica was written without an error.
  pub upsert_settles :
      (key : String) (slices : List Slice) (rs : List Replica)
      → (ended_count o memory (upsert_allocated o key slices rs)
            + revoked_count o memory (upsert_allocated o key slices rs)
          ≡ 1)
        × ((has_value (upsert_allocated o key slices rs).0 ≡ true)
              × (ended_count o memory (upsert_allocated o key slices rs) ≡ 1)
              × All (IsWritten slices) rs
            ⊎ (has_value (upsert_allocated o key slices rs).0 ≡ false))
  unfolding upsert_allocated
  upsert_settles key slices rs =
      let failure = (upsert_replicas o slices rs).0 in
      let (sum, ends_well) = finish_upsert-Finishes key failure in
      let e =
        front o (ends memory) (disk_write o rs) (upsert_replicas o slices rs).1
          (finish_upsert o key failure).1 (disk-none o (ends memory) (λ r. refl) rs)
          (upserted-none (ends memory) slices rs (λ r. refl)) in
      let v =
        front o (revokes memory) (disk_write o rs) (upsert_replicas o slices rs).1
          (finish_upsert o key failure).1 (disk-none o (revokes memory) (λ r. refl) rs)
          (upserted-none (revokes memory) slices rs (λ r. refl)) in
      (
        omega (arith, sum, e, v),
        elim ends_well [
          | inl w ↦ inl (w.0, omega (arith, w.2, e), upsert_replicas-none slices rs w.1)
          | inr w ↦ inr w
        ],
      )
