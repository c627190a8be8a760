-- ===== src/Decimal.antt =====
-- The decimal conversions of the C++ library that the source uses: `std::to_string`,
-- `std::stoull` and `std::stoi`, the last two with `none` for an exception.
pub mod RoundTrip
use mooncake_maca_spdk_dmabu.Prelude.{
  ℕ, zero, suc, ◌+◌, ◌-◌, ◌*◌, ◌/◌, ◌%◌, ◌^◌, Bool, true, false, ◌&&◌, ◌||◌, Option, none, some,
  List, [], ◌∷◌, Text, ltb, leb, ◌==◌, if◌then◌else◌, ◌≡◌, refl, codes, ℤ, pos, negsuc,
}

-- The digits of `n` in front of `out`; `suc n` rounds are enough, since each divides by ten.
unfoldable pub digits : ℕ → ℕ → Text → Text
digits zero n out = out
digits (suc fuel) n out =
    let here = (b'0' + n % 10) ∷ out in
    let rest = digits fuel (n / 10) here in if ltb n 10 then here else rest

unfoldable pub to_string : ℕ → Text
unfolding digits
to_string n = digits (suc n) n []

unfoldable pub int_to_string : ℤ → Text
unfolding to_string
int_to_string (pos n) = to_string n
int_to_string (negsuc n) = b'-' ∷ to_string (n + 1)

abbrev pub is_digit : ℕ → Bool
is_digit c = leb b'0' c && leb c b'9'

abbrev pub is_space : ℕ → Bool
is_space c = (c == b' ') || (leb 9 c && leb c 13)

unfoldable pub skip_space : Text → Text
skip_space [] = []
skip_space (c ∷ s) = elim (is_space c) [ true ↦ skip_space s | false ↦ c ∷ s ]

-- Whether the number has a minus, and the text behind the sign.
unfoldable pub read_sign : Text → Bool × Text
read_sign [] = (false, [])
read_sign (c ∷ s) =
    if c == b'-' then (true, s) else if c == b'+' then (false, s) else (false, c ∷ s)

abbrev so_far : Option ℕ → ℕ
so_far none = 0
so_far (some n) = n

-- The digits at the front; `none` if there is none.
unfoldable pub read_digits : Text → Option ℕ → Option ℕ
read_digits [] n = n
read_digits (c ∷ s) n =
    let rest = read_digits s (some (so_far n * 10 + (c - b'0'))) in if is_digit c then rest else n

abbrev unsigned_value : Bool → Option ℕ → Option ℕ
unsigned_value negative none = none
unsigned_value negative (some v) =
    if ltb (2 ^ 64 - 1) v then none else some (if negative then (2 ^ 64 - v) % 2 ^ 64 else v)

-- `std::stoull`: a minus negates modulo 2^64.
unfoldable pub stoull : Text → Option ℕ
stoull s =
    let (negative, rest) = read_sign (skip_space s) in
    unsigned_value negative (read_digits rest none)

abbrev signed_value : Bool → Option ℕ → Option ℤ
signed_value negative none = none
signed_value false (some v) = if ltb v (2 ^ 31) then some (pos v) else none
signed_value true (some zero) = some (pos 0)
signed_value true (some (suc v)) = if ltb v (2 ^ 31) then some (negsuc v) else none

-- `std::stoi`, for a 32-bit `int`.
unfoldable pub stoi : Text → Option ℤ
stoi s =
    let (negative, rest) = read_sign (skip_space s) in signed_value negative (read_digits rest none)

to_string_runs : to_string 4096 ≡ codes "4096"
unfolding to_string
to_string_runs = refl

stoi_runs : stoi (codes " -12x") ≡ some (negsuc 11)
unfolding stoi read_sign skip_space read_digits
stoi_runs = refl
