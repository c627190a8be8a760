-- ===== src/Put/SameNode/Reach.antt =====
-- Every operation that is still pending finds its batch.
use mooncake_maca_spdk_dmabu.Prelude.{
  String, true, Option, none, some, List, [], ◌∷◌, map, str_eq, eq_iff, subst, ◌==◌, ◌≡◌, ◌≢◌, ◌⊎◌,
  inl, inr, refl, arith, All, Bool-cases, Text, codes,
}
use mooncake_maca_spdk_dmabu.Put.Types.{
  ErrorCode, internal_error, invalid_params, PutOperation, Replica, is_memory, is_resolved,
  set_error,
}
use mooncake_maca_spdk_dmabu.Put.Transfers.{WaitCall}
use mooncake_maca_spdk_dmabu.Put.SameNode.{
  Batch, SubmitBatch, add_batch, classify, join, classify_all, merge_batch, wait_batch, batch_at,
  write_back, write_back_all, transfer_merged, transfer_batches,
}

-- A batch of the endpoint is in the list.
abbrev Reaches : String → List Batch → Type 0
Reaches seg [] = ⊥
Reaches seg (b ∷ bs) = (str_eq b.endpoint seg ≡ true) ⊎ Reaches seg bs

str_eq_refl : (s : String) → str_eq s s ≡ true
str_eq_refl s = (eq_iff s s).1 refl

add_batch-Reaches :
    (op : PutOperation) (r : Replica) (bs : List Batch) → Reaches r.endpoint (add_batch op r bs)
unfolding add_batch
add_batch-Reaches op r [] = inl (str_eq_refl r.endpoint)
add_batch-Reaches op r (b ∷ bs) = ground (arith, add_batch-Reaches op r bs)

add_batch_keeps :
    (seg : String) (op : PutOperation) (r : Replica) (bs : List Batch)
    → Reaches seg bs
    → Reaches seg (add_batch op r bs)
unfolding add_batch
add_batch_keeps seg op r [] h = absurd h
add_batch_keeps seg op r (b ∷ bs) h = ground (arith, add_batch_keeps seg op r bs)

join_keeps :
    (seg : String) (op : PutOperation) (r : Option Replica) (bs : List Batch)
    → Reaches seg bs
    → Reaches seg (join op r bs)
join_keeps seg op none bs h = h
join_keeps seg op (some r) bs h = add_batch_keeps seg op r bs h

joined :
    (op : PutOperation) (j : Option Replica) (r : Replica) (bs : List Batch)
    → j ≡ some r
    → Reaches r.endpoint (join op j bs)
joined op none r bs e = absurd (cc e)
joined op (some r') r bs e =
    let same : r' ≡ r = cc in
    subst (λ z. Reaches z.endpoint (add_batch op r' bs)) same (add_batch-Reaches op r' bs)

-- The operation is resolved, or its first replica's endpoint has a batch.
abbrev Finds : List Batch → PutOperation → Type 0
Finds bs op =
    (is_resolved op ≡ true)
    ⊎ ((r : Replica) × (rs : List Replica) × (op.replicas ≡ r ∷ rs) × Reaches r.endpoint bs)

module _ (error_text : ErrorCode → Text) where
  classify_all_keeps :
      (seg : String) (ops : List PutOperation) (bs : List Batch)
      → Reaches seg bs
      → Reaches seg (classify_all error_text ops bs).1
  unfolding classify_all
  classify_all_keeps seg [] bs h = h
  classify_all_keeps seg (op ∷ ops) bs h =
      let (op', r) = classify error_text op in
      classify_all_keeps seg ops (join op r bs) (join_keeps seg op r bs h)

  set_error-resolved :
      (e : ErrorCode) (c : Text) (op : PutOperation)
      → is_resolved (set_error error_text e c op) ≡ true
  unfolding set_error
  set_error-resolved e c op = ground arith

  abbrev Classified : PutOperation → Type 0
  Classified op =
      (is_resolved (classify error_text op).0 ≡ true)
      ⊎ ((r : Replica) × (rs : List Replica) × ((classify error_text op).0.replicas ≡ r ∷ rs)
          × ((classify error_text op).1 ≡ some r))

  classify_by : (op : PutOperation) (rs : List Replica) → op.replicas ≡ rs → Classified op
  unfolding classify
  classify_by op [] e = inl (
      ground
        (arith, set_error-resolved internal_error (codes "No replicas available for transfer") op))
  classify_by op (r ∷ rs) e = elim (Bool-cases (is_resolved op)) [
    | inl q ↦ inl (ground arith)
    | inr q ↦ elim (Bool-cases (is_memory r.kind)) [
      | inr k ↦
          inl (
            ground
              (arith, set_error-resolved invalid_params (codes "only memory is supported.") op))
      | inl k ↦ elim (Bool-cases (r.size == 0)) [
        | inl z ↦
            inl (ground (arith, set_error-resolved invalid_params (codes "buffer size is 0.") op))
        | inr z ↦ inr (r, rs, ground arith, ground arith)
      ]
    ]
  ]

  classify_all-Finds :
      (ops : List PutOperation) (bs : List Batch)
      → All (Finds (classify_all error_text ops bs).1) (classify_all error_text ops bs).0
  unfolding classify_all
  classify_all-Finds [] bs = tt
  classify_all-Finds (op ∷ ops) bs =
      let (op', j) = classify error_text op in
      let found : Finds (classify_all error_text ops (join op j bs)).1 op' =
        elim (classify_by op op.replicas refl) [
          | inl q ↦ inl q
          | inr (r, rs, e, q) ↦
              inr (r, rs, e, classify_all_keeps r.endpoint ops (join op j bs) (joined op j r bs q))
        ] in
      (found, classify_all-Finds ops (join op j bs))

module _ (submit_batch : SubmitBatch) (get : WaitCall) where
  abbrev waited : List Batch → List (String × PutOperation)
  waited bs = map (λ b. wait_batch get (merge_batch submit_batch b)) bs

  batch_at-Reaches :
      (seg : String) (bs : List Batch) → Reaches seg bs → batch_at seg (waited bs) ≢ none
  unfolding batch_at wait_batch merge_batch
  batch_at-Reaches seg [] h = absurd h
  batch_at-Reaches seg (b ∷ bs) (inl h) = λ e. ground arith
  batch_at-Reaches seg (b ∷ bs) (inr h) = λ e. ground (arith, batch_at-Reaches seg bs h)

  write_back_some :
      (bs : List Batch) (op : PutOperation) → Finds bs op → write_back (waited bs) op ≢ none
  unfolding write_back
  write_back_some bs op (inl q) = λ e. ground arith
  write_back_some bs op (inr (r, rs, e, h)) = λ n. ground (arith, batch_at-Reaches r.endpoint bs h)

  write_back_all_some :
      (bs : List Batch) (ops : List PutOperation)
      → All (Finds bs) ops
      → write_back_all (waited bs) ops ≢ none
  unfolding write_back_all
  write_back_all_some bs [] h = λ e. ground arith
  write_back_all_some bs (op ∷ ops) (h, hs) =
      λ e. ground (arith, write_back_some bs op h, write_back_all_some bs ops hs)

  merged_all : (bs : List Batch) → transfer_merged (some submit_batch) get bs ≡ some (waited bs)
  unfolding transfer_merged
  merged_all [] = refl
  merged_all (b ∷ bs) = refl

  -- With a submitter, and whatever the transfers answer, `BatchPutWhenPreferSameNode` finds the batch of every operation
  -- that is still pending: its lookups by endpoint do not throw.
  pub transfer_batches-Reaches :
      (error_text : ErrorCode → Text) (ops : List PutOperation)
      → transfer_batches error_text (some submit_batch) get ops ≢ none
  unfolding transfer_batches
  transfer_batches-Reaches error_text ops =
      rw (transfer_batches, merged_all (classify_all error_text ops []).1)
        (write_back_all_some (classify_all error_text ops []).1 (classify_all error_text ops []).0
          (classify_all-Finds error_text ops []))
