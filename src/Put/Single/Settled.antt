-- ===== src/Put/Single/Settled.antt =====
-- Which calls to the master end and revoke the replicas of one object.
use mooncake_maca_spdk_dmabu.Prelude.{
  ℕ, ◌+◌, ◌≤◌, String, Bool, true, false, not, ◌||◌, Option, none, some, List, [], ◌∷◌, ◌++◌, ◌≡◌,
  ◌⊎◌, inl, inr, refl, ap, ◌∙◌, arith, if◌then◌else◌, total, total-append, Option-cases, if_keeps,
  option_keeps,
}
use mooncake_maca_spdk_dmabu.Put.Types.{
  Expected, ok, unexpected, has_value, ReplicaType, memory, nof_ssd, Replica, ReplicateConfig,
  Slice,
}
use mooncake_maca_spdk_dmabu.Put.Decision.{FinalizeDecision, determine_finalize_decision}
use mooncake_maca_spdk_dmabu.Put.Decision.Sides.{covers, decision_sides}
use mooncake_maca_spdk_dmabu.Put.Transfers.{last_disk_replica}
use mooncake_maca_spdk_dmabu.Put.Single.{
  Made, wrote_to_file, wrote, ended, revoked, Objects, disk_write, writes, revoke_decided,
  finish_put, put_allocated, summary_of,
}

-- Whether a call ends, or revokes, the replicas of a type.
abbrev pub ends : ReplicaType → Made → ℕ
ends t (ended u) = if covers (some u) t then 1 else 0
ends t _ = 0

abbrev pub revokes : ReplicaType → Made → ℕ
revokes t (revoked u) = if covers (some u) t then 1 else 0
revokes t _ = 0

-- How many calls end, and how many revoke, the replicas of a type.
abbrev pub ends_of : ReplicaType → List Made → ℕ
ends_of t = total (ends t)

abbrev pub revokes_of : ReplicaType → List Made → ℕ
revokes_of t = total (revokes t)

module _ (o : Objects) where
  pub written-none :
      (f : Made → ℕ)
      → ((r : Replica) → f (wrote r) ≡ 0)
      → (rs : List Replica) → total f (writes o rs) ≡ 0
  unfolding writes
  written-none f w [] = refl
  written-none f w (r ∷ rs) = ground (arith, w r, written-none f w rs)

  pub disk-none :
      (f : Made → ℕ)
      → ((r : Replica) → f (wrote_to_file r) ≡ 0)
      → (rs : List Replica) → total f (disk_write o rs) ≡ 0
  unfolding disk_write
  disk-none f w rs =
      let P : List Made → Type 0 = λ z. total f z ≡ 0 in
      if_keeps P o.has_storage _ _
        (option_keeps P (last_disk_replica rs) _ _ refl (λ r q. ground (arith, w r))) refl

  -- The writes in front of the calls to the master count for nothing.
  pub front :
      (f : Made → ℕ) (disk_made written made : List Made)
      → total f disk_made ≡ 0
      → total f written ≡ 0
      → total f (disk_made ++ (written ++ made)) ≡ total f made
  front f disk_made written made a b =
      omega (arith, total-append f disk_made (written ++ made), total-append f written made)

  abbrev calls_of : (ReplicaType → Made) → Option ReplicaType → List Made
  calls_of made none = []
  calls_of made (some t) = made t ∷ []

  -- When the master acknowledges every call, exactly the decided ones are made.
  finish_put_acknowledged :
      (key : String) (d : FinalizeDecision)
      → ((t : ReplicaType) → o.end_type key t ≡ ok tt)
      → ((t : ReplicaType) → o.revoke_type key t ≡ ok tt)
      → finish_put o key d ≡ (
        if d.success then ok tt else unexpected d.error,
        calls_of ended d.end_type ++ calls_of revoked d.revoke_type,
      )
  unfolding finish_put revoke_decided
  finish_put_acknowledged key d e r = elim (Option-cases d.end_type) [
    | inl n ↦ elim (Option-cases d.revoke_type) [
      | inl n' ↦ ground arith
      | inr (u, q') ↦ ground (arith, r u)
    ]
    | inr (t, q) ↦ elim (Option-cases d.revoke_type) [
      | inl n' ↦ ground (arith, e t)
      | inr (u, q') ↦ ground (arith, e t, r u)
    ]
  ]

  abbrev bit : Bool → ℕ
  bit true = 1
  bit false = 0

  ends-calls :
      (t : ReplicaType) (e r : Option ReplicaType)
      → (ends_of t (calls_of ended e ++ calls_of revoked r) ≡ bit (covers e t))
        × (revokes_of t (calls_of ended e ++ calls_of revoked r) ≡ bit (covers r t))
  ends-calls t none none = (refl, refl)
  ends-calls t none (some u) = (refl, ground arith)
  ends-calls t (some u) none = (ground arith, refl)
  ends-calls t (some u) (some v) = (ground arith, ground arith)

  abbrev pub ended_count : ReplicaType → Expected (Unit {0}) × List Made → ℕ
  ended_count t out = ends_of t out.1

  abbrev pub revoked_count : ReplicaType → Expected (Unit {0}) × List Made → ℕ
  revoked_count t out = revokes_of t out.1

  module _ (key : String) (slices : List Slice) (config : ReplicateConfig) (rs : List Replica) where
    abbrev pub allocated : Expected (Unit {0}) × List Made
    allocated = put_allocated o key slices config rs

    abbrev decided : FinalizeDecision
    decided = determine_finalize_decision o.is_flexible config (summary_of o slices rs)

    counts :
        (t : ReplicaType)
        → ((u : ReplicaType) → o.end_type key u ≡ ok tt)
        → ((u : ReplicaType) → o.revoke_type key u ≡ ok tt)
        → (ended_count t allocated ≡ bit (covers decided.end_type t))
          × (revoked_count t allocated ≡ bit (covers decided.revoke_type t))
    unfolding put_allocated
    counts t e r =
        let made = calls_of ended decided.end_type ++ calls_of revoked decided.revoke_type in
        let same : (finish_put o key decided).1 ≡ made =
          ap (λ (z : Expected (Unit {0}) × List Made). z.1)
            (finish_put_acknowledged key decided e r) in
        let (a, b) = ends-calls t decided.end_type decided.revoke_type in
        (
          front (ends t) (disk_write o rs) (writes o rs) (finish_put o key decided).1
                (disk-none (ends t) (λ x. refl) rs) (written-none (ends t) (λ x. refl) rs)
              ∙ (ap (ends_of t) same ∙ a),
          front (revokes t) (disk_write o rs) (writes o rs) (finish_put o key decided).1
                (disk-none (revokes t) (λ x. refl) rs) (written-none (revokes t) (λ x. refl) rs)
              ∙ (ap (revokes_of t) same ∙ b),
        )

    answer :
        ((u : ReplicaType) → o.end_type key u ≡ ok tt)
        → ((u : ReplicaType) → o.revoke_type key u ≡ ok tt)
        → has_value allocated.0 ≡ decided.success
    unfolding put_allocated
    answer e r =
        let same =
          ap (λ (z : Expected (Unit {0}) × List Made). has_value z.0)
            (finish_put_acknowledged key decided e r) in
        same ∙ ground arith

    -- Behind a start call that allocates replicas, when the master acknowledges every call: the
    -- memory replicas and the NoF replicas are each ended or revoked by exactly one call, and the
    -- put succeeds exactly when it ends one of the two.
    pub put_settles :
        ((u : ReplicaType) → o.end_type key u ≡ ok tt)
        → ((u : ReplicaType) → o.revoke_type key u ≡ ok tt)
        → (ended_count memory allocated + revoked_count memory allocated ≡ 1)
          × (ended_count nof_ssd allocated + revoked_count nof_ssd allocated ≡ 1)
          × ((has_value allocated.0 ≡ true)
                × (1 ≤ ended_count memory allocated + ended_count nof_ssd allocated)
              ⊎ (has_value allocated.0 ≡ false)
                × (ended_count memory allocated + ended_count nof_ssd allocated ≡ 0))
    put_settles e r =
        let (a, b) = counts memory e r in
        let (c, d) = counts nof_ssd e r in
        let s = answer e r in
        let (m, n, won, _) = decision_sides o.is_flexible config (summary_of o slices rs) in
        settle (covers decided.end_type memory) (covers decided.end_type nof_ssd)
          (covers decided.revoke_type memory) (covers decided.revoke_type nof_ssd) a b c d m n
          (s ∙ won)
      where
        settle :
            (em en rm rn : Bool)
            → ended_count memory allocated ≡ bit em
            → revoked_count memory allocated ≡ bit rm
            → ended_count nof_ssd allocated ≡ bit en
            → revoked_count nof_ssd allocated ≡ bit rn
            → em ≡ not rm
            → en ≡ not rn
            → has_value allocated.0 ≡ (em || en)
            → (ended_count memory allocated + revoked_count memory allocated ≡ 1)
              × (ended_count nof_ssd allocated + revoked_count nof_ssd allocated ≡ 1)
              × ((has_value allocated.0 ≡ true)
                    × (1 ≤ ended_count memory allocated + ended_count nof_ssd allocated)
                  ⊎ (has_value allocated.0 ≡ false)
                    × (ended_count memory allocated + ended_count nof_ssd allocated ≡ 0))
        settle em en rm rn a b c d m n s = ground arith
