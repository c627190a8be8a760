-- ===== src/Replicas/Settled.antt =====
-- How a copy or a move of an object ends at the master.
use mooncake_maca_spdk_dmabu.Prelude.{
  ℕ, true, false, not, List, [], ◌∷◌, ◌≡◌, ◌⊎◌, inl, inr, refl, arith, All, total, total-append,
  if_keeps, if_splits, Bool-cases,
}
use mooncake_maca_spdk_dmabu.Put.Types.{
  is_ok_code, Expected, ok, unexpected, has_value, Replica, is_memory, Slice,
}
use mooncake_maca_spdk_dmabu.Replicas.{
  Descriptor, Store, ReplicaCall, written, end_called, revoke_called, transfer_to, write_targets,
  end_transfer, is_replica_on_local_memory, execute_replica_transfer,
}

abbrev is_end : ReplicaCall → ℕ
is_end end_called = 1
is_end _ = 0

abbrev is_revoke : ReplicaCall → ℕ
is_revoke revoke_called = 1
is_revoke _ = 0

module _ (s : Store) where
  written-none :
      (f : ReplicaCall → ℕ) (slices : List Slice) (ts : List Replica)
      → ((r : Replica) → f (written r) ≡ 0)
      → total f (write_targets s slices ts).1 ≡ 0
  unfolding write_targets
  written-none f slices [] w = refl
  written-none f slices (t ∷ ts) w = ground (arith, w t, written-none f slices ts w)

  -- All targets are written without an error.
  abbrev pub AllWritten : List Slice → List Replica → Type 0
  AllWritten slices = All (λ t. is_ok_code (transfer_to s t slices) ≡ true)

  write_targets-AllWritten :
      (slices : List Slice) (ts : List Replica)
      → (write_targets s slices ts).0 ≡ true
      → AllWritten slices ts
  unfolding write_targets
  write_targets-AllWritten slices [] h = tt
  write_targets-AllWritten slices (t ∷ ts) h =
      elim (Bool-cases (is_ok_code (transfer_to s t slices))) [
        | inl b ↦ (b, write_targets-AllWritten slices ts (ground arith))
        | inr b ↦ absurd (ground arith)
      ]

  module _ (source : Descriptor) (targets : List Replica) where
    abbrev slices_of : List Slice
    slices_of = s.split_into_slices source.buffer_address source.replica.size

    -- A success is ended and not revoked, its source is in local memory and every target is
    -- written; a failure is revoked once.
    abbrev pub IsSettled : Expected (Unit {0}) × List ReplicaCall → Type 0
    IsSettled out =
        ((has_value out.0 ≡ true)
          × (total is_end out.1 ≡ 1)
          × (total is_revoke out.1 ≡ 0)
          × (is_replica_on_local_memory s source.replica ≡ true)
          × AllWritten slices_of targets)
        ⊎ ((has_value out.0 ≡ false) × (total is_revoke out.1 ≡ 1))

    end_transfer-IsSettled :
        (a : Expected (Unit {0})) (calls : List ReplicaCall)
        → total is_end calls ≡ 0
        → total is_revoke calls ≡ 0
        → is_replica_on_local_memory s source.replica ≡ true
        → AllWritten slices_of targets
        → IsSettled (end_transfer s a calls)
    unfolding end_transfer
    end_transfer-IsSettled (ok u) calls e r here all = inl (
      refl,
      omega (arith, e, total-append is_end calls (end_called ∷ [])),
      omega (arith, r, total-append is_revoke calls (end_called ∷ [])),
      here,
      all,
    )
    end_transfer-IsSettled (unexpected x) calls e r here all =
        inr (refl, omega (arith, r, total-append is_revoke calls (end_called ∷ revoke_called ∷ [])))

    -- A replica transfer that succeeds has its source in local memory and every target written, and
    -- is ended by one call and not revoked; one that fails, on any branch, is revoked by one call.
    pub execute_replica_transfer-IsSettled :
        (end_answer : Expected (Unit {0}))
        → IsSettled (execute_replica_transfer s end_answer source targets)
    unfolding execute_replica_transfer
    execute_replica_transfer-IsSettled end_answer =
        let calls = (write_targets s slices_of targets).1 in
        let no_end = written-none is_end slices_of targets (λ r. refl) in
        let no_revoke = written-none is_revoke slices_of targets (λ r. refl) in
        if_keeps IsSettled (not (is_memory source.replica.kind)) _ _ (inr (refl, refl)) (
          if_splits IsSettled (not (is_replica_on_local_memory s source.replica)) _ _
            (λ b. inr (refl, refl))
            λ here.
              if_splits IsSettled (write_targets s slices_of targets).0 _ _
                (λ done.
                  end_transfer-IsSettled end_answer calls no_end no_revoke (ground arith)
                    (write_targets-AllWritten slices_of targets done))
                (λ b. inr (
                  refl,
                  omega (arith, no_revoke, total-append is_revoke calls (revoke_called ∷ [])),
                )))
