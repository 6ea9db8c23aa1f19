-- ===== src/Json/Numbers.antt =====
-- The C library's conversions that the JSON texts and the log use: `std::to_string`, `%0<n>x`,
-- `std::stoll`, `std::stoi` and `strtoul`.
use matching_engine_cpp.Base.{
  ℕ, zero, suc, ◌+◌, ◌-◌, ◌*◌, ◌/◌, ◌%◌, ◌^◌, Bool, false, ◌&&◌, ◌||◌, Option, none, some, [], ◌∷◌,
  ◌++◌, ltb, leb, ◌==◌, if◌then◌else◌, ℤ, pos, negsuc, pos_part, neg_part, Text, codes, threw,
  Result, ok, err,
}

abbrev pub is_digit : ℕ → Bool
is_digit c = leb b'0' c && leb c b'9'

-- The decimal digits of a number in front of `out`, on fuel above the number.
unfoldable pub digits : ℕ → ℕ → Text → Text
digits zero n out = out
digits (suc fuel) n out =
    let more = digits fuel (n / 10) ((b'0' + n % 10) ∷ out) in
    if ltb n 10 then (b'0' + n) ∷ out else more

unfoldable pub to_string : ℤ → Text
to_string (pos n) = digits (suc n) n []
to_string (negsuc n) = b'-' ∷ digits (suc (suc n)) (suc n) []

abbrev pub hex_digit : ℕ → ℕ
hex_digit d = if ltb d 10 then b'0' + d else b'a' + (d - 10)

-- The last `k` hexadecimal digits of a number.
unfoldable pub hex : ℕ → ℕ → Text
hex zero v = []
hex (suc k) v = hex k (v / 16) ++ (hex_digit (v % 16) ∷ [])

-- What a character is worth as a digit; 16 where it is none.
abbrev pub digit_value : ℕ → ℕ
digit_value c =
    if is_digit c
    then c - b'0'
    else if leb b'a' c && leb c b'f'
    then c - b'a' + 10
    else if leb b'A' c && leb c b'F'
    then c - b'A' + 10
    else 16

-- The digits in front of a text, behind a number that was read.
unfoldable pub read_digits : ℕ → ℕ → Text → ℕ
read_digits base n [] = n
read_digits base n (c ∷ ts) =
    if ltb (digit_value c) base then read_digits base (n * base + digit_value c) ts else n

abbrev pub starts_digit : ℕ → Text → Bool
starts_digit base [] = false
starts_digit base (c ∷ ts) = ltb (digit_value c) base

-- `0x` may stand before hexadecimal digits.
unfoldable pub skip_prefix : ℕ → Text → Text
skip_prefix base (z ∷ x ∷ ts) =
    if base == 16 && (z == b'0' && ((x == b'x' || x == b'X') && starts_digit 16 ts))
    then ts
    else z ∷ x ∷ ts
skip_prefix base (z ∷ []) = z ∷ []
skip_prefix base [] = []

unfoldable pub magnitude : ℕ → Text → Option ℕ
unfolding read_digits skip_prefix
magnitude base ts =
    let ts' = skip_prefix base ts in
    if starts_digit base ts' then some (read_digits base 0 ts') else none

abbrev pub negate : ℕ → ℤ
negate zero = pos 0
negate (suc n) = negsuc n

abbrev pub map_sign : (ℕ → ℤ) → Option ℕ → Option ℤ
map_sign f none = none
map_sign f (some n) = some (f n)

abbrev pub is_space : ℕ → Bool
is_space c = c == b' ' || (leb 9 c && leb c 13)

-- `strtol` and its like: spaces, a sign, digits. `none` where there is no digit.
unfoldable pub read_number : ℕ → Text → Option ℤ
unfolding magnitude
read_number base [] = none
read_number base (c ∷ ts) =
    if is_space c
    then read_number base ts
    else if c == b'-'
    then map_sign negate (magnitude base ts)
    else if c == b'+'
    then map_sign pos (magnitude base ts)
    else map_sign pos (magnitude base (c ∷ ts))

abbrev pub fits_i64 : ℤ → Bool
fits_i64 n = ltb (pos_part n) (2 ^ 63) && leb (neg_part n) (2 ^ 63)

abbrev pub in_range : Text → (ℤ → Bool) → Option ℤ → Result ℤ
in_range name fits none = err (threw name)
in_range name fits (some n) = if fits n then ok n else err (threw name)

unfoldable pub stoll : Text → Result ℤ
unfolding read_number
stoll ts = in_range (codes "stoll") fits_i64 (read_number 10 ts)

abbrev pub fits_i32 : ℤ → Bool
fits_i32 n = ltb (pos_part n) (2 ^ 31) && leb (neg_part n) (2 ^ 31)

unfoldable pub stoi_hex : Text → Result ℤ
unfolding read_number
stoi_hex ts = in_range (codes "stoi") fits_i32 (read_number 16 ts)

abbrev pub wrapped : ℕ → Option ℤ → ℕ
wrapped w none = 0
wrapped w (some (pos n)) = n % 2 ^ w
wrapped w (some (negsuc n)) = (2 ^ w - suc n % 2 ^ w) % 2 ^ w

-- `static_cast<std::uint32_t>(strtoul(s, nullptr, 16))` of a text of eight characters.
unfoldable pub strtoul_hex : Text → ℕ
unfolding read_number
strtoul_hex ts = wrapped 32 (read_number 16 ts)
