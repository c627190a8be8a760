-- ===== src/Dmabuf/Tree.antt =====
-- The search trees of gpu_dmabuf.c (spdk/tree.h) as sorted lists: RB_NFIND, RB_PREV, RB_MAX and
-- RB_INSERT, and the two-sided lookup that the finders of the file share.
pub mod Lookup
pub mod Insert
use mooncake_maca_spdk_dmabu.Prelude.{
  Bool, true, false, Option, none, some, List, [], ◌∷◌, ◌≡◌, ◌≢◌, ◌⊎◌, inl, inr, refl, arith,
  if◌then◌else◌, All, Bool-cases, Option-cases, subst, sym,
}

module _ {A : Type 0} where
  -- RB_NFIND: the first entry that is not before the key.
  unfoldable pub nfind : (A → Bool) → List A → Option A
  nfind before [] = none
  nfind before (e ∷ m) = let rest = nfind before m in if before e then rest else some e

  abbrev pub or_else : Option A → A → Option A
  or_else none e = some e
  or_else (some x) e = some x

  -- RB_PREV of the entry that RB_NFIND finds, RB_MAX when it finds none.
  unfoldable pub last_before : (A → Bool) → List A → Option A
  last_before before [] = none
  last_before before (e ∷ m) =
      let rest = or_else (last_before before m) e in if before e then rest else none

  abbrev pub if_hits : (A → Bool) → Option A → Option A
  if_hits hits none = none
  if_hits hits (some e) = if hits e then some e else none

  abbrev pub first_of : Option A → Option A → Option A
  first_of none o = o
  first_of (some e) o = some e

  -- The entry at or after the key if it hits, else the one in front of it if that hits.
  unfoldable pub find_near : (before hits : A → Bool) → List A → Option A
  find_near before hits m =
      first_of (if_hits hits (nfind before m)) (if_hits hits (last_before before m))

  abbrev pub option_cons : A → Option (List A) → Option (List A)
  option_cons e none = none
  option_cons e (some m) = some (e ∷ m)

  -- RB_INSERT; `none` when an entry with the same key is there.
  unfoldable pub rb_insert : (A → A → Bool) → A → List A → Option (List A)
  rb_insert before x [] = some (x ∷ [])
  rb_insert before x (e ∷ m) =
      let rest = option_cons e (rb_insert before x m) in
      if before e x then rest else if before x e then some (x ∷ e ∷ m) else none

  -- The linear search.
  unfoldable pub first_hit : (A → Bool) → List A → Option A
  first_hit hits [] = none
  first_hit hits (e ∷ m) = let rest = first_hit hits m in if hits e then some e else rest

  abbrev pub Has : A → List A → Type 0
  Has x [] = ⊥
  Has x (e ∷ m) = (e ≡ x) ⊎ Has x m

  -- What is removed while the tree is walked.
  unfoldable pub drop_hits : (A → Bool) → List A → List A
  drop_hits hits [] = []
  drop_hits hits (e ∷ m) = let rest = drop_hits hits m in if hits e then rest else e ∷ rest

  pub All-Has {κ} : (P : A → Type κ) (m : List A) (x : A) → All P m → Has x m → P x
  All-Has P [] x a h = absurd h
  All-Has P (e ∷ m) x a (inl q) = subst P q a.0
  All-Has P (e ∷ m) x a (inr h) = All-Has P m x a.1 h

  pub nfind_sound :
      (before : A → Bool) (m : List A) (x : A)
      → nfind before m ≡ some x
      → Has x m × (before x ≡ false)
  unfolding nfind
  nfind_sound before [] x h = absurd (cc h)
  nfind_sound before (e ∷ m) x h = ground (arith, nfind_sound before m x)

  pub last_before_sound :
      (before : A → Bool) (m : List A) (x : A)
      → last_before before m ≡ some x
      → Has x m × (before x ≡ true)
  unfolding last_before
  last_before_sound before [] x h = absurd (cc h)
  last_before_sound before (e ∷ m) x h = elim (Option-cases (last_before before m)) [
    | inl n ↦ ground arith
    | inr (y, q) ↦ ground (arith, last_before_sound before m y q)
  ]

  -- What is found is in the tree and hits.
  pub find_near_sound :
      (before hits : A → Bool) (m : List A) (x : A)
      → find_near before hits m ≡ some x
      → Has x m × (hits x ≡ true)
  unfolding find_near
  find_near_sound before hits m x h =
      ground (arith, nfind_sound before m x, last_before_sound before m x)
