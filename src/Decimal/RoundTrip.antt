-- ===== src/Decimal/RoundTrip.antt =====
-- What is printed is read back.
use mooncake_maca_spdk_dmabu.Prelude.{
  ℕ, zero, suc, ◌+◌, ◌/◌, ◌%◌, ◌^◌, ◌<◌, ◌≤◌, true, false, none, some, [], ◌∷◌, Text, ◌≡◌, refl,
  ◌∙◌, ap, ℤ, pos, negsuc, arith, All,
}
use mooncake_maca_spdk_dmabu.Decimal.{
  digits, to_string, int_to_string, skip_space, read_sign, read_digits, stoull, stoi,
}

abbrev pub IsDigit : ℕ → Type 0
IsDigit c = (b'0' ≤ c) × (c ≤ b'9')

-- Reading the digits of `n` in front of a rest is reading the rest behind `n`.
read-digits :
    (f n : ℕ) (out : Text)
    → n ≤ f
    → read_digits (digits (suc f) n out) none ≡ read_digits out (some n)
unfolding digits read_digits
read-digits zero n out h = ground arith
read-digits (suc f) n out h = ground (arith, read-digits f (n / 10) ((b'0' + n % 10) ∷ out))

digits-All : (f n : ℕ) (out : Text) → All IsDigit out → All IsDigit (digits f n out)
unfolding digits
digits-All zero n out h = h
digits-All (suc f) n out h =
    ground (arith, digits-All f (n / 10) ((b'0' + n % 10) ∷ out) ((omega arith, omega arith), h))

-- The text begins with a digit.
abbrev StartsDigit : Text → Type 0
StartsDigit [] = ⊥
StartsDigit (c ∷ s) = IsDigit c

digits-start : (f n : ℕ) (out : Text) → StartsDigit out → StartsDigit (digits f n out)
unfolding digits
digits-start zero n out h = h
digits-start (suc f) n out h = ground (arith, digits-start f (n / 10) ((b'0' + n % 10) ∷ out))

digits-suc-start : (f n : ℕ) (out : Text) → StartsDigit (digits (suc f) n out)
unfolding digits
digits-suc-start f n out = ground (arith, digits-start f (n / 10) ((b'0' + n % 10) ∷ out))

skip_space-digit : (s : Text) → StartsDigit s → skip_space s ≡ s
unfolding skip_space
skip_space-digit [] h = absurd h
skip_space-digit (c ∷ s) h = ground arith

read_sign-digit : (s : Text) → StartsDigit s → read_sign s ≡ (false, s)
unfolding read_sign
read_sign-digit [] h = absurd h
read_sign-digit (c ∷ s) h = ground arith

to_string-start : (n : ℕ) → StartsDigit (to_string n)
unfolding to_string
to_string-start n = digits-suc-start n n []

pub to_string-All : (n : ℕ) → All IsDigit (to_string n)
unfolding to_string
to_string-All n = digits-All (suc n) n [] tt

read-to_string : (n : ℕ) → read_digits (to_string n) none ≡ some n
unfolding to_string
read-to_string n = read-digits n n [] (omega arith) ∙ unfold read_digits in refl

read_front : (n : ℕ) → read_sign (skip_space (to_string n)) ≡ (false, to_string n)
read_front n =
    ap read_sign (skip_space-digit (to_string n) (to_string-start n))
    ∙ read_sign-digit (to_string n) (to_string-start n)

pub stoull-to_string : (n : ℕ) → n < 2 ^ 64 → stoull (to_string n) ≡ some n
unfolding stoull
stoull-to_string n h = rw (read_front n, read-to_string n) (ground arith)

-- The integers of a 32-bit `int`.
abbrev pub IsInt32 : ℤ → Type 0
IsInt32 (pos n) = n < 2 ^ 31
IsInt32 (negsuc n) = n < 2 ^ 31

read_minus : (s : Text) → read_sign (skip_space (b'-' ∷ s)) ≡ (true, s)
unfolding skip_space read_sign
read_minus s = refl

pub stoi-int_to_string : (z : ℤ) → IsInt32 z → stoi (int_to_string z) ≡ some z
unfolding stoi int_to_string
stoi-int_to_string (pos n) h = rw (read_front n, read-to_string n) (ground arith)
stoi-int_to_string (negsuc n) h =
    rw (read_minus (to_string (n + 1)), read-to_string (n + 1))
      (let e : n + 1 ≡ suc n = omega arith in rw e (ground arith))
