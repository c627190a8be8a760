-- ===== src/Http/Table.antt =====
-- Lookup in the store after an assignment and after an erasure.
use mooncake_maca_spdk_dmabu.Prelude.{
  true, false, none, some, [], ◌∷◌, ◌==◌, Text, text_eq, ◌≡◌, refl, sym, arith, inl, inr,
  Bool-cases, ==→eq, ==-refl,
}
use mooncake_maca_spdk_dmabu.Http.{Store, find, erase, assign}

pub text_eq_refl : (t : Text) → text_eq t t ≡ true
unfolding text_eq
text_eq_refl [] = refl
text_eq_refl (c ∷ t) = ground (arith, ==-refl c, text_eq_refl t)

pub text_eq→eq : (s t : Text) → text_eq s t ≡ true → s ≡ t
unfolding text_eq
text_eq→eq [] [] e = refl
text_eq→eq [] (d ∷ t) e = absurd (cc)
text_eq→eq (c ∷ s) [] e = absurd (cc)
text_eq→eq (c ∷ s) (d ∷ t) e =
    let h : (c == d) ≡ true = ground arith in
    let r : text_eq s t ≡ true = ground arith in
    let q : c ≡ d = ==→eq c d h in let w = text_eq→eq s t r in cc

pub find-erase : (key : Text) (s : Store) → find key (erase key s) ≡ none
unfolding find erase
find-erase key [] = refl
find-erase key ((k, v) ∷ s) = ground (arith, find-erase key s)

not_key :
    (key k other : Text)
    → text_eq key other ≡ false
    → text_eq other k ≡ true
    → text_eq key k ≡ false
not_key key k other n e = rw (sym (text_eq→eq other k e)) n

pub find-erase_other :
    (key other : Text) (s : Store)
    → text_eq key other ≡ false
    → find key (erase other s) ≡ find key s
unfolding find erase
find-erase_other key other [] n = refl
find-erase_other key other ((k, v) ∷ s) n = elim (Bool-cases (text_eq other k)) [
  | inl e ↦ ground (arith, not_key key k other n e, find-erase_other key other s n)
  | inr e ↦ ground (arith, find-erase_other key other s n)
]

pub find-assign : (key body : Text) (s : Store) → find key (assign key body s) ≡ some body
unfolding find assign
find-assign key body s = ground (arith, text_eq_refl key)

pub find-assign_other :
    (key other body : Text) (s : Store)
    → text_eq key other ≡ false
    → find key (assign other body s) ≡ find key s
unfolding find assign
find-assign_other key other body s n = ground (arith, find-erase_other key other s n)
