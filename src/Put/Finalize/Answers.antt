-- ===== src/Put/Finalize/Answers.antt =====
-- The answers of the master: when they leave an operation without an RPC error.
use mooncake_maca_spdk_dmabu.Prelude.{
  ℕ, suc, zero, ◌<◌, ◌≢◌, Bool, true, false, ◌&&◌, none, some, List, [], ◌∷◌, ◌≡◌, refl, ap, ◌∙◌,
  arith, length, get_or, modify, ◌==◌, if◌then◌else◌, length-modify, Bool-cases, inl, inr,
}
use mooncake_maca_spdk_dmabu.Put.Types.{
  Expected, ok, unexpected, has_value, ReplicaType, all_types, memory, nof_ssd, rpc_fail,
}
use mooncake_maca_spdk_dmabu.Put.Finalize.{
  Verdict, no_verdict, Group, Plan, FinalizeRpc, settle, fail_with, settle_each, fail_each,
  process_group, process_groups, group_keys,
}
use mooncake_maca_spdk_dmabu.Put.Finalize.Actions.{entries}

abbrev pub verdict : List Verdict → ℕ → Verdict
verdict vs i = get_or vs i no_verdict

-- No call for the operation failed so far.
abbrev pub is_clean : Verdict → Bool
is_clean v = elim v.rpc_error [ none ↦ true | some _ ↦ false ]

-- The answers for the entries of the operation at `i` are all good.
abbrev pub each_ok : List (Expected (Unit {0})) → Group → ℕ → Bool
each_ok [] g i = true
each_ok (r ∷ rs) [] i = true
each_ok (r ∷ rs) ((key, j) ∷ g) i = (if j == i then has_value r else true) && each_ok rs g i

-- The master answered the call for a group well, as far as the operation at `i` is concerned: it
-- has no entry, or there is one answer for each key and those for its entries are good.
unfoldable pub acknowledged : FinalizeRpc → ReplicaType → Group → ℕ → Bool
acknowledged rpc t [] i = true
acknowledged rpc t (e ∷ g) i =
    let responses = rpc (group_keys (e ∷ g)) t in
    if length responses == length (e ∷ g)
    then each_ok responses (e ∷ g) i
    else (entries i (e ∷ g) == 0)

pub verdict-modify_self :
    (f : Verdict → Verdict) (vs : List Verdict) (i : ℕ)
    → i < length vs
    → verdict (modify i f vs) i ≡ f (verdict vs i)
verdict-modify_self f [] i h = absurd (omega arith)
verdict-modify_self f (v ∷ vs) zero h = refl
verdict-modify_self f (v ∷ vs) (suc i) h = verdict-modify_self f vs i (omega arith)

pub verdict-modify_ne :
    (f : Verdict → Verdict) (vs : List Verdict) (j i : ℕ)
    → j ≢ i
    → verdict (modify j f vs) i ≡ verdict vs i
verdict-modify_ne f [] j i h = refl
verdict-modify_ne f (v ∷ vs) zero zero h = absurd (h refl)
verdict-modify_ne f (v ∷ vs) zero (suc i) h = refl
verdict-modify_ne f (v ∷ vs) (suc j) zero h = refl
verdict-modify_ne f (v ∷ vs) (suc j) (suc i) h = verdict-modify_ne f vs j i (λ e. h (ap suc e))

-- `modify` in one equation.
verdict-modify :
    (f : Verdict → Verdict) (vs : List Verdict) (j i : ℕ)
    → i < length vs
    → verdict (modify j f vs) i ≡ (if j == i then f (verdict vs i) else verdict vs i)
verdict-modify f [] j i h = absurd (omega arith)
verdict-modify f (v ∷ vs) zero zero h = refl
verdict-modify f (v ∷ vs) zero (suc i) h = ground arith
verdict-modify f (v ∷ vs) (suc j) zero h = ground arith
verdict-modify f (v ∷ vs) (suc j) (suc i) h = ground (arith, verdict-modify f vs j i)

-- A processed group keeps what is expected of the operation, and keeps it clean exactly when the
-- master acknowledged the group.
pub record Keeps (b : Bool) (v w : Verdict) : Type 0 where
  pub expected : w.should_succeed ≡ v.should_succeed
  pub clean : is_clean w ≡ (is_clean v && b)

settle_each-Keeps :
    (rs : List (Expected (Unit {0}))) (g : Group) (vs : List Verdict) (i : ℕ)
    → i < length vs
    → Keeps (each_ok rs g i) (verdict vs i) (verdict (settle_each rs g vs) i)
unfolding settle_each
settle_each-Keeps [] g vs i h = ground arith
settle_each-Keeps (r ∷ rs) [] vs i h = ground arith
settle_each-Keeps (ok u ∷ rs) ((key, j) ∷ g) vs i h = ground (
  arith,
  settle_each-Keeps rs g (modify j (settle (ok u)) vs) i,
  length-modify j (settle (ok u)) vs,
  verdict-modify (settle (ok u)) vs j i h,
)
settle_each-Keeps (unexpected e ∷ rs) ((key, j) ∷ g) vs i h = ground (
  arith,
  settle_each-Keeps rs g (modify j (settle (unexpected e)) vs) i,
  length-modify j (settle (unexpected e)) vs,
  verdict-modify (settle (unexpected e)) vs j i h,
)

fail_each-Keeps :
    (g : Group) (vs : List Verdict) (i : ℕ)
    → i < length vs
    → Keeps (entries i g == 0) (verdict vs i) (verdict (fail_each g vs) i)
unfolding fail_each
fail_each-Keeps [] vs i h = ground arith
fail_each-Keeps ((key, j) ∷ g) vs i h = ground (
  arith,
  fail_each-Keeps g (modify j (fail_with rpc_fail) vs) i,
  length-modify j (fail_with rpc_fail) vs,
  verdict-modify (fail_with rpc_fail) vs j i h,
)

pub process_group-Keeps :
    (rpc : FinalizeRpc) (t : ReplicaType) (g : Group) (vs : List Verdict) (i : ℕ)
    → i < length vs
    → Keeps (acknowledged rpc t g i) (verdict vs i) (verdict (process_group rpc t g vs) i)
unfolding process_group acknowledged
process_group-Keeps rpc t [] vs i h = ground arith
process_group-Keeps rpc t (e ∷ g) vs i h =
    let rs = rpc (group_keys (e ∷ g)) t in
    elim (Bool-cases (length rs == length (e ∷ g))) [
      | inl q ↦ rw q (settle_each-Keeps rs (e ∷ g) vs i h)
      | inr q ↦ rw q (fail_each-Keeps (e ∷ g) vs i h)
    ]

settle_each-length :
    (rs : List (Expected (Unit {0}))) (g : Group) (vs : List Verdict)
    → length (settle_each rs g vs) ≡ length vs
unfolding settle_each
settle_each-length [] g vs = refl
settle_each-length (r ∷ rs) [] vs = refl
settle_each-length (r ∷ rs) ((key, j) ∷ g) vs =
    settle_each-length rs g (modify j (settle r) vs) ∙ length-modify j (settle r) vs

fail_each-length : (g : Group) (vs : List Verdict) → length (fail_each g vs) ≡ length vs
unfolding fail_each
fail_each-length [] vs = refl
fail_each-length ((key, j) ∷ g) vs =
    fail_each-length g (modify j (fail_with rpc_fail) vs) ∙ length-modify j (fail_with rpc_fail) vs

pub process_group-length :
    (rpc : FinalizeRpc) (t : ReplicaType) (g : Group) (vs : List Verdict)
    → length (process_group rpc t g vs) ≡ length vs
unfolding process_group
process_group-length rpc t [] vs = refl
process_group-length rpc t (e ∷ g) vs =
    ground (
      arith,
      settle_each-length (rpc (group_keys (e ∷ g)) t) (e ∷ g) vs,
      fail_each-length (e ∷ g) vs,
    )

-- Every call that `FinalizeBatchPut` makes for the operation at `i` is acknowledged.
abbrev pub all_acknowledged : FinalizeRpc → FinalizeRpc → Plan → ℕ → Bool
all_acknowledged put_end put_revoke p i =
    acknowledged put_end all_types p.end_all i
    && acknowledged put_end memory p.end_memory i
    && acknowledged put_end nof_ssd p.end_nof i
    && acknowledged put_revoke all_types p.revoke_all i
    && acknowledged put_revoke memory p.revoke_memory i
    && acknowledged put_revoke nof_ssd p.revoke_nof i

pub process_groups-Keeps :
    (put_end put_revoke : FinalizeRpc) (p : Plan) (i : ℕ)
    → i < length p.verdicts
    → Keeps
        (all_acknowledged put_end put_revoke p i)
        (verdict p.verdicts i)
        (verdict (process_groups put_end put_revoke p) i)
unfolding process_groups
process_groups-Keeps put_end put_revoke p i h =
    let a = process_group put_end all_types p.end_all p.verdicts in
    let b = process_group put_end memory p.end_memory a in
    let c = process_group put_end nof_ssd p.end_nof b in
    let d = process_group put_revoke all_types p.revoke_all c in
    let e = process_group put_revoke memory p.revoke_memory d in
    let la = process_group-length put_end all_types p.end_all p.verdicts in
    let lb = process_group-length put_end memory p.end_memory a in
    let lc = process_group-length put_end nof_ssd p.end_nof b in
    let ld = process_group-length put_revoke all_types p.revoke_all c in
    let le = process_group-length put_revoke memory p.revoke_memory d in
    ground (
      arith,
      process_group-Keeps put_end all_types p.end_all p.verdicts i h,
      process_group-Keeps put_end memory p.end_memory a i (omega arith),
      process_group-Keeps put_end nof_ssd p.end_nof b i (omega arith),
      process_group-Keeps put_revoke all_types p.revoke_all c i (omega arith),
      process_group-Keeps put_revoke memory p.revoke_memory d i (omega arith),
      process_group-Keeps put_revoke nof_ssd p.revoke_nof e i (omega arith),
    )
