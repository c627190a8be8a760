-- ===== src/Put/Finalize/Actions.antt =====
-- The counters `pending_finalize_actions`: they count the entries of the groups, and are all zero
-- when the groups are processed.
use mooncake_maca_spdk_dmabu.Prelude.{
  ℕ, suc, zero, ◌+◌, ◌-◌, ◌<◌, ◌≤◌, String, Bool, true, false, Option, none, some, List, [], ◌∷◌,
  ◌++◌, ◌≡◌, refl, ap, ◌∙◌, arith, length, get_or, modify, Text, ◌==◌, if◌then◌else◌,
  get_or-replicate, length-replicate, length-modify, Bool-cases, not, ◌&&◌, is_empty, inl, inr,
}
use mooncake_maca_spdk_dmabu.Put.Types.{
  ErrorCode, Expected, ok, unexpected, ReplicaType, all_types, memory, nof_ssd, ReplicateConfig,
  PutOperation, is_successful, rpc_fail,
}
use mooncake_maca_spdk_dmabu.Put.Decision.{FinalizeDecision}
use mooncake_maca_spdk_dmabu.Put.Finalize.{
  Verdict, no_verdict, Group, Plan, FinalizeRpc, add_pending, add_finalize_action, plan_operation,
  plan_resolved, plan_decision, plan_all, settle, fail_with, settle_each, fail_each, process_group,
  process_groups, initial_plan, group_keys, decide, result_error,
}

-- How many entries of a group are for the operation at `i`.
abbrev pub entries : ℕ → Group → ℕ
entries i [] = 0
entries i ((key, j) ∷ g) = if j == i then suc (entries i g) else entries i g

entries-append : (i : ℕ) (g h : Group) → entries i (g ++ h) ≡ entries i g + entries i h
entries-append i [] h = omega arith
entries-append i ((key, j) ∷ g) h = ground (arith, entries-append i g h)

abbrev pub actions : List Verdict → ℕ → ℕ
actions vs i = (get_or vs i no_verdict).pending_actions

-- What `modify` does to the counters, for a change of the counter by `f`.
actions-modify_complete :
    (f : Verdict → Verdict)
    → ((v : Verdict) → (f v).pending_actions ≡ v.pending_actions - 1)
    → (vs : List Verdict) (j i : ℕ)
    → actions (modify j f vs) i ≡ (if j == i then actions vs i - 1 else actions vs i)
actions-modify_complete f e [] j i = ground arith
actions-modify_complete f e (v ∷ vs) zero zero = ground (arith, e v)
actions-modify_complete f e (v ∷ vs) zero (suc i) = ground arith
actions-modify_complete f e (v ∷ vs) (suc j) zero = ground arith
actions-modify_complete f e (v ∷ vs) (suc j) (suc i) =
    ground (arith, actions-modify_complete f e vs j i)

actions-modify_add :
    (vs : List Verdict) (j i : ℕ)
    → j < length vs
    → actions (modify j add_pending vs) i ≡ (if j == i then actions vs i + 1 else actions vs i)
actions-modify_add [] j i h = absurd (omega arith)
actions-modify_add (v ∷ vs) zero zero h = ground arith
actions-modify_add (v ∷ vs) zero (suc i) h = ground arith
actions-modify_add (v ∷ vs) (suc j) zero h = ground arith
actions-modify_add (v ∷ vs) (suc j) (suc i) h = ground (arith, actions-modify_add vs j i)

actions-modify_same :
    (f : Verdict → Verdict)
    → ((v : Verdict) → (f v).pending_actions ≡ v.pending_actions)
    → (vs : List Verdict) (j i : ℕ) → actions (modify j f vs) i ≡ actions vs i
actions-modify_same f e [] j i = refl
actions-modify_same f e (v ∷ vs) zero zero = e v
actions-modify_same f e (v ∷ vs) zero (suc i) = refl
actions-modify_same f e (v ∷ vs) (suc j) zero = refl
actions-modify_same f e (v ∷ vs) (suc j) (suc i) = actions-modify_same f e vs j i

settle-actions :
    (r : Expected (Unit {0})) (v : Verdict) → (settle r v).pending_actions ≡ v.pending_actions - 1
settle-actions (ok _) v = refl
settle-actions (unexpected e) v = refl

settle_each-actions :
    (rs : List (Expected (Unit {0}))) (g : Group) (vs : List Verdict) (i : ℕ)
    → length rs ≡ length g
    → actions (settle_each rs g vs) i ≡ actions vs i - entries i g
unfolding settle_each
settle_each-actions [] [] vs i e = omega arith
settle_each-actions [] (x ∷ g) vs i e = absurd (omega arith)
settle_each-actions (r ∷ rs) [] vs i e = absurd (omega arith)
settle_each-actions (r ∷ rs) ((key, j) ∷ g) vs i e = ground (
  arith,
  settle_each-actions rs g (modify j (settle r) vs) i,
  actions-modify_complete (settle r) (settle-actions r) vs j i,
)

fail_each-actions :
    (g : Group) (vs : List Verdict) (i : ℕ)
    → actions (fail_each g vs) i ≡ actions vs i - entries i g
unfolding fail_each
fail_each-actions [] vs i = omega arith
fail_each-actions ((key, j) ∷ g) vs i = ground (
  arith,
  fail_each-actions g (modify j (fail_with rpc_fail) vs) i,
  actions-modify_complete (fail_with rpc_fail) (λ v. refl) vs j i,
)

pub process_group-actions :
    (rpc : FinalizeRpc) (t : ReplicaType) (g : Group) (vs : List Verdict) (i : ℕ)
    → actions (process_group rpc t g vs) i ≡ actions vs i - entries i g
unfolding process_group
process_group-actions rpc t [] vs i = omega arith
process_group-actions rpc t (e ∷ g) vs i =
    let rs = rpc (group_keys (e ∷ g)) t in
    elim (Bool-cases (length rs == length (e ∷ g))) [
      | inl h ↦ rw h (settle_each-actions rs (e ∷ g) vs i (ground arith))
      | inr h ↦ rw h (fail_each-actions (e ∷ g) vs i)
    ]

-- How many entries of the six groups are for the operation at `i`.
abbrev pub planned : ℕ → Plan → ℕ
planned i p =
    entries i p.end_all
    + entries i p.end_memory
    + entries i p.end_nof
    + entries i p.revoke_all
    + entries i p.revoke_memory
    + entries i p.revoke_nof

-- The counters of a plan for `n` operations are the entries of its groups.
record IsCounted (n : ℕ) (p : Plan) : Type 0 where
  sized : length p.verdicts ≡ n
  counted : (i : ℕ) → actions p.verdicts i ≡ planned i p

add-planned :
    (t : Option ReplicaType) (is_end : Bool) (key : String) (j : ℕ) (p : Plan) (i : ℕ)
    → j < length p.verdicts
    → actions p.verdicts i ≡ planned i p
    → actions (add_finalize_action t is_end key j p).verdicts i
      ≡ planned i (add_finalize_action t is_end key j p)
unfolding add_finalize_action
add-planned none is_end key j p i h c = c
add-planned (some all_types) true key j p i h c =
    ground (arith, actions-modify_add p.verdicts j i h, entries-append i p.end_all ((key, j) ∷ []))
add-planned (some all_types) false key j p i h c =
    ground
      (arith, actions-modify_add p.verdicts j i h, entries-append i p.revoke_all ((key, j) ∷ []))
add-planned (some memory) true key j p i h c =
    ground
      (arith, actions-modify_add p.verdicts j i h, entries-append i p.end_memory ((key, j) ∷ []))
add-planned (some memory) false key j p i h c =
    ground
      (arith, actions-modify_add p.verdicts j i h, entries-append i p.revoke_memory ((key, j) ∷ []))
add-planned (some nof_ssd) true key j p i h c =
    ground (arith, actions-modify_add p.verdicts j i h, entries-append i p.end_nof ((key, j) ∷ []))
add-planned (some nof_ssd) false key j p i h c =
    ground
      (arith, actions-modify_add p.verdicts j i h, entries-append i p.revoke_nof ((key, j) ∷ []))
add-planned (some _) is_end key j p i h c = actions-modify_same _ (λ v. refl) p.verdicts j i ∙ c

pub add-length :
    (t : Option ReplicaType) (is_end : Bool) (key : String) (j : ℕ) (p : Plan)
    → length (add_finalize_action t is_end key j p).verdicts ≡ length p.verdicts
unfolding add_finalize_action
add-length none is_end key j p = refl
add-length (some all_types) true key j p = length-modify j _ p.verdicts
add-length (some all_types) false key j p = length-modify j _ p.verdicts
add-length (some memory) true key j p = length-modify j _ p.verdicts
add-length (some memory) false key j p = length-modify j _ p.verdicts
add-length (some nof_ssd) true key j p = length-modify j _ p.verdicts
add-length (some nof_ssd) false key j p = length-modify j _ p.verdicts
add-length (some _) is_end key j p = length-modify j _ p.verdicts

add-IsCounted :
    (t : Option ReplicaType) (is_end : Bool) (key : String) (j : ℕ) {n : ℕ} (p : Plan)
    → j < n
    → IsCounted n p
    → IsCounted n (add_finalize_action t is_end key j p)
add-IsCounted t is_end key j p h c = record {
  sized = add-length t is_end key j p ∙ c.sized;
  counted = λ i. add-planned t is_end key j p i (omega (arith, c.sized)) (c.counted i);
}

change-IsCounted :
    (f : Verdict → Verdict)
    → ((v : Verdict) → (f v).pending_actions ≡ v.pending_actions)
    → (j : ℕ) {n : ℕ} (p : Plan) → IsCounted n p
    → IsCounted n (record p { verdicts = modify j f p.verdicts })
change-IsCounted f e j p c = record {
  sized = length-modify j f p.verdicts ∙ c.sized;
  counted = λ i. actions-modify_same f e p.verdicts j i ∙ c.counted i;
}

process_groups-actions :
    (put_end put_revoke : FinalizeRpc) (p : Plan) (i : ℕ)
    → actions (process_groups put_end put_revoke p) i ≡ actions p.verdicts i - planned i p
unfolding process_groups
process_groups-actions put_end put_revoke p i =
    rw
      (
        process_group-actions put_revoke nof_ssd p.revoke_nof,
        process_group-actions put_revoke memory p.revoke_memory,
        process_group-actions put_revoke all_types p.revoke_all,
        process_group-actions put_end nof_ssd p.end_nof,
        process_group-actions put_end memory p.end_memory,
        process_group-actions put_end all_types p.end_all,
      )
      (omega arith)

plan_resolved-IsCounted :
    (op : PutOperation) (j : ℕ) {n : ℕ} (p : Plan)
    → j < n
    → IsCounted n p
    → IsCounted n (plan_resolved op j p)
unfolding plan_resolved
plan_resolved-IsCounted op j p h c =
    elim (Bool-cases (not (is_successful op) && not (is_empty op.replicas))) [
      | inl e ↦ rw e (
          add-IsCounted _ _ _ j _ h (
            change-IsCounted (λ v. record v { terminal_error = result_error op.result }) (λ v. refl)
              j p c))
      | inr e ↦ rw e c
    ]

plan_decision-IsCounted :
    (d : FinalizeDecision) (key : String) (j : ℕ) {n : ℕ} (p : Plan)
    → j < n
    → IsCounted n p
    → IsCounted n (plan_decision d key j p)
unfolding plan_decision
plan_decision-IsCounted d key j p h c = add-IsCounted _ _ _ j _ h (
    add-IsCounted _ _ _ j _ h (
      change-IsCounted (λ v. record v { should_succeed = d.success; terminal_error = d.error })
        (λ v. refl) j p c))

module _ (error_text : ErrorCode → Text) (is_flexible : ReplicateConfig → Bool) where
  plan_operation-IsCounted :
      (op : PutOperation) (j : ℕ) {n : ℕ} (p : Plan)
      → j < n
      → IsCounted n p
      → IsCounted n (plan_operation error_text is_flexible op j p).1
  unfolding plan_operation
  plan_operation-IsCounted op j p h c = ground (
    arith,
    plan_resolved-IsCounted op j p h c,
    plan_decision-IsCounted (decide is_flexible op) op.key j p h c,
  )

  plan_all-IsCounted :
      (ops : List PutOperation) (j : ℕ) {n : ℕ} (p : Plan)
      → j + length ops ≤ n
      → IsCounted n p
      → IsCounted n (plan_all error_text is_flexible ops j p).1
  unfolding plan_all
  plan_all-IsCounted [] j p h c = c
  plan_all-IsCounted (op ∷ ops) j p h c =
      plan_all-IsCounted ops (j + 1) (plan_operation error_text is_flexible op j p).1 (omega arith)
        (plan_operation-IsCounted op j p (omega arith) c)

  initial_plan-IsCounted : (n : ℕ) → IsCounted n (initial_plan n)
  unfolding initial_plan
  initial_plan-IsCounted n = record {
    sized = length-replicate n no_verdict;
    counted = λ i. ap (λ (v : Verdict). v.pending_actions) (get_or-replicate n i no_verdict);
  }

  -- When the groups are processed, no operation has an unfinished finalize action left, so the
  -- branch of the last loop for such operations is never taken.
  pub finalize_actions_done :
      (put_end put_revoke : FinalizeRpc) (ops : List PutOperation) (i : ℕ)
      → actions
          (process_groups put_end put_revoke
            (plan_all error_text is_flexible ops 0 (initial_plan (length ops))).1)
          i
        ≡ 0
  finalize_actions_done put_end put_revoke ops i =
      let p = (plan_all error_text is_flexible ops 0 (initial_plan (length ops))).1 in
      let c : IsCounted (length ops) p =
        plan_all-IsCounted ops 0 (initial_plan (length ops)) (omega arith)
          (initial_plan-IsCounted (length ops)) in
      omega (arith, process_groups-actions put_end put_revoke p i, c.counted i)
