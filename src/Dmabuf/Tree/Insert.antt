-- ===== src/Dmabuf/Tree/Insert.antt =====
-- Inserting into and removing from a tree whose entries are pairwise apart.
use mooncake_maca_spdk_dmabu.Prelude.{
  total, Pairwise, ℕ, ◌+◌, Bool, true, false, some, List, [], ◌∷◌, ◌≡◌, ◌⊎◌, inl, inr, refl, arith,
  if◌then◌else◌, All, Bool-cases,
}
use mooncake_maca_spdk_dmabu.Dmabuf.Tree.{rb_insert, drop_hits, Has}

-- An entry in the tree and a new one stand in the order of their keys, and apart.
abbrev pub Fits : {A : Type 0} → (before apart : A → A → Bool) → A → A → Type 0
Fits before apart x e =
    ((before e x ≡ true) × (apart e x ≡ true))
    ⊎ ((before e x ≡ false) × (before x e ≡ true) × (apart x e ≡ true))

module _ {A : Type 0} (before : A → A → Bool) (x : A) where
  -- The tree with the new entry.
  unfoldable pub place : List A → List A
  place [] = x ∷ []
  place (e ∷ m) = let rest = e ∷ place m in if before e x then rest else x ∷ e ∷ m

  pub All-place {κ} : (P : A → Type κ) (m : List A) → P x → All P m → All P (place m)
  unfolding place
  All-place P [] p a = (p, tt)
  All-place P (e ∷ m) p (a, rest) = elim (Bool-cases (before e x)) [
    | inl b ↦ rw b (a, All-place P m p rest)
    | inr b ↦ rw b (p, (a, rest))
  ]

  pub Has-place_self : (m : List A) → Has x (place m)
  unfolding place
  Has-place_self [] = inl refl
  Has-place_self (e ∷ m) = ground (arith, Has-place_self m)

  pub Has-place : (m : List A) (y : A) → Has y m → Has y (place m)
  unfolding place
  Has-place [] y h = absurd h
  Has-place (e ∷ m) y h = ground (arith, Has-place m y)

  -- Counting by a measure of the entries.
  pub sum-place : (f : A → ℕ) (m : List A) → total f (place m) ≡ f x + total f m
  unfolding place
  sum-place f [] = refl
  sum-place f (e ∷ m) = ground (arith, sum-place f m)

module _ {A : Type 0} (before apart : A → A → Bool) (x : A)
    (trans : (a b : A) → apart x a ≡ true → apart a b ≡ true → apart x b ≡ true) where
  pub insert-place :
      (m : List A) → All (Fits before apart x) m → rb_insert before x m ≡ some (place before x m)
  unfolding rb_insert place
  insert-place [] f = refl
  insert-place (e ∷ m) (f, rest) = ground (arith, insert-place m rest)

  apart-All :
      (e : A) (m : List A)
      → apart x e ≡ true
      → All (λ y. apart e y ≡ true) m
      → All (λ y. apart x y ≡ true) m
  apart-All e [] h a = tt
  apart-All e (y ∷ m) h (a, rest) = (trans e y h a, apart-All e m h rest)

  pub Pairwise-place :
      (m : List A)
      → All (Fits before apart x) m
      → Pairwise apart m
      → Pairwise apart (place before x m)
  unfolding place
  Pairwise-place [] f p = (tt, tt)
  Pairwise-place (e ∷ m) (inl (b, q), rest) (a, p) =
      rw b (All-place before x (λ y. apart e y ≡ true) m q a, Pairwise-place m rest p)
  Pairwise-place (e ∷ m) (inr (b, c, q), rest) (a, p) = rw b ((q, apart-All e m q a), (a, p))

-- What is left after a removal, from a tree and of its entries.
module _ {A : Type 0} (hits : A → Bool) where
  pub All-drop_hits {κ} : (P : A → Type κ) (m : List A) → All P m → All P (drop_hits hits m)
  unfolding drop_hits
  All-drop_hits P [] a = tt
  All-drop_hits P (e ∷ m) (a, rest) = elim (Bool-cases (hits e)) [
    | inl b ↦ rw b (All-drop_hits P m rest)
    | inr b ↦ rw b (a, All-drop_hits P m rest)
  ]

  pub Pairwise-drop_hits :
      (apart : A → A → Bool) (m : List A) → Pairwise apart m → Pairwise apart (drop_hits hits m)
  unfolding drop_hits
  Pairwise-drop_hits apart [] p = tt
  Pairwise-drop_hits apart (e ∷ m) (a, p) = elim (Bool-cases (hits e)) [
    | inl b ↦ rw b (Pairwise-drop_hits apart m p)
    | inr b ↦ rw b (All-drop_hits (λ y. apart e y ≡ true) m a, Pairwise-drop_hits apart m p)
  ]

  pub Has-drop_hits : (m : List A) (x : A) → hits x ≡ false → Has x m → Has x (drop_hits hits m)
  unfolding drop_hits
  Has-drop_hits [] x n h = absurd h
  Has-drop_hits (e ∷ m) x n h = ground (arith, Has-drop_hits m x n)

  pub drop_hits_sound : (m : List A) (x : A) → Has x (drop_hits hits m) → Has x m × (hits x ≡ false)
  unfolding drop_hits
  drop_hits_sound [] x h = absurd h
  drop_hits_sound (e ∷ m) x h = ground (arith, drop_hits_sound m x)
