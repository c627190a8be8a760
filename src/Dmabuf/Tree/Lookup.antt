-- ===== src/Dmabuf/Tree/Lookup.antt =====
-- The two-sided lookup of gpu_dmabuf.c finds what a search of the whole tree would find.
use mooncake_maca_spdk_dmabu.Prelude.{
  Pairwise, Bool, true, false, none, some, List, [], ◌∷◌, ◌≡◌, ◌⊎◌, inl, inr, refl, arith, All,
  Bool-cases, Option-cases, subst,
}
use mooncake_maca_spdk_dmabu.Dmabuf.Tree.{
  nfind, last_before, if_hits, find_near, first_hit, Has, All-Has, last_before_sound,
  find_near_sound,
}

module _ {A : Type 0} where
  -- One entry hits; those in front of it are before the key, those behind it are not and do not hit.
  abbrev pub Alone : (A → Bool) → (A → Bool) → A → List A → Type 0
  Alone before hits x [] = ⊥
  Alone before hits x (e ∷ m) =
      ((e ≡ x) × All (λ y. (before y ≡ false) × (hits y ≡ false)) m)
      ⊎ ((before e ≡ true) × Alone before hits x m)

  none_after :
      (before hits : A → Bool) (m : List A)
      → All (λ y. (before y ≡ false) × (hits y ≡ false)) m
      → (if_hits hits (nfind before m) ≡ none) × (last_before before m ≡ none)
  unfolding nfind last_before
  none_after before hits [] h = (refl, refl)
  none_after before hits (e ∷ m) h = ground arith

  -- Whatever `or_else` keeps, the lookup in the rest decides.
  near_step :
      (before hits : A → Bool) (e x : A) (m : List A)
      → before e ≡ true
      → find_near before hits m ≡ some x
      → find_near before hits (e ∷ m) ≡ some x
  unfolding find_near nfind last_before
  near_step before hits e x m b h = elim (Option-cases (last_before before m)) [
    | inl n ↦ ground arith
    | inr (y, q) ↦ ground arith
  ]

  Alone-find_near :
      (before hits : A → Bool) (m : List A) (x : A)
      → hits x ≡ true
      → Alone before hits x m
      → find_near before hits m ≡ some x
  unfolding find_near nfind last_before
  Alone-find_near before hits [] x h a = absurd a
  Alone-find_near before hits (e ∷ m) x h (inl (q, a)) =
      let (u, v) = none_after before hits m a in
      elim (Bool-cases (before e)) [ inl b ↦ ground arith | inr b ↦ ground arith ]
  Alone-find_near before hits (e ∷ m) x h (inr (b, a)) =
      near_step before hits e x m b (Alone-find_near before hits m x h a)

  -- A miss on both sides, in a tree whose first entry is before the key, is one in the rest.
  near_none :
      (before hits : A → Bool) (e : A) (m : List A)
      → before e ≡ true
      → find_near before hits (e ∷ m) ≡ none
      → (find_near before hits m ≡ none)
        × ((hits e ≡ false) ⊎ ((p : A) × Has p m × (before p ≡ true)))
  unfolding find_near nfind last_before
  near_none before hits e m b h = elim (Option-cases (last_before before m)) [
    | inl n ↦ (ground arith, inl (ground arith))
    | inr (p, q) ↦
        let (has, b') = last_before_sound before m p q in (ground arith, inr (p, has, b'))
  ]

-- The lookup in a tree whose entries are pairwise apart.
module _ {A : Type 0} (apart : A → A → Bool) (before hits : A → Bool) where
  -- If an entry that hits shuts out all others, it is the one that is found.
  pub unique-find_near :
      (m : List A) (x : A)
      → ((e : A) → apart e x ≡ true → before e ≡ true)
      → ((y : A) → apart x y ≡ true → (before y ≡ false) × (hits y ≡ false))
      → hits x ≡ true
      → Pairwise apart m
      → Has x m
      → find_near before hits m ≡ some x
  unique-find_near m x front back h p has = Alone-find_near before hits m x h (alone m p has)
    where
      behind :
          (e : A) (n : List A)
          → e ≡ x
          → All (λ y. apart e y ≡ true) n
          → All (λ y. (before y ≡ false) × (hits y ≡ false)) n
      behind e [] q a = tt
      behind e (y ∷ n) q (a, rest) = (back y (subst (λ z. apart z y ≡ true) q a), behind e n q rest)

      alone : (n : List A) → Pairwise apart n → Has x n → Alone before hits x n
      alone [] p h = h
      alone (e ∷ n) (a, p) (inl q) = inl (q, behind e n q a)
      alone (e ∷ n) (a, p) (inr h) =
          inr (front e (All-Has (λ y. apart e y ≡ true) n x a h), alone n p h)

  -- A miss is a miss everywhere, if no entry in front of a missed one at the key hits, and no
  -- entry in front of another that is before the key.
  pub find_near-none :
      (m : List A)
      → ((e y : A) → apart e y ≡ true → before e ≡ false → hits e ≡ false → hits y ≡ false)
      → ((e p : A) → apart e p ≡ true → before p ≡ true → hits e ≡ false)
      → Pairwise apart m
      → find_near before hits m ≡ none
      → All (λ y. hits y ≡ false) m
  unfolding find_near nfind
  find_near-none [] after front p h = tt
  find_near-none (e ∷ m) after front (a, p) h = elim (Bool-cases (before e)) [
    | inl b ↦
        let (rest, why) = near_none before hits e m b h in
        let clear : hits e ≡ false = elim why [
          | inl c ↦ c
          | inr (q, has, bq) ↦ front e q (All-Has (λ y. apart e y ≡ true) m q a has) bq
        ] in
        (clear, find_near-none m after front p rest)
    | inr b ↦ let miss : hits e ≡ false = ground arith in (miss, spread m (λ y. after e y) miss b a)
  ]
    where
      spread :
          (n : List A) {e : A}
          → ((y : A) → apart e y ≡ true → before e ≡ false → hits e ≡ false → hits y ≡ false)
          → hits e ≡ false
          → before e ≡ false
          → All (λ y. apart e y ≡ true) n
          → All (λ y. hits y ≡ false) n
      spread [] f c b a = tt
      spread (y ∷ n) f c b (a, rest) = (f y a b c, spread n f c b rest)

  -- The lookup agrees with a search of the whole tree.
  pub find_near-first_hit :
      (m : List A)
      → ((x e : A) → hits x ≡ true → apart e x ≡ true → (before e ≡ true) × (hits e ≡ false))
      → ((x y : A) → hits x ≡ true → apart x y ≡ true → (before y ≡ false) × (hits y ≡ false))
      → Pairwise apart m
      → find_near before hits m ≡ first_hit hits m
  unfolding first_hit
  find_near-first_hit m front back p = elim (Option-cases (first_hit hits m)) [
    | inl n ↦ elim (Option-cases (find_near before hits m)) [
      | inl q ↦ cc
      | inr (x, q) ↦ let (has, h) = find_near_sound before hits m x q in absurd (missed m x n has h)
    ]
    | inr (x, q) ↦
        let (has, h) = found m x q in
        let near = unique-find_near m x (λ e a. (front x e h a).0) (λ y a. back x y h a) h p has in
        cc
  ]
    where
      missed : (n : List A) (x : A) → first_hit hits n ≡ none → Has x n → hits x ≡ true → ⊥
      missed [] x q has h = has
      missed (e ∷ n) x q has h = unfold first_hit in ground (arith, missed n x)

      found : (n : List A) (x : A) → first_hit hits n ≡ some x → Has x n × (hits x ≡ true)
      found [] x q = absurd (cc q)
      found (e ∷ n) x q = unfold first_hit in ground (arith, found n x)
