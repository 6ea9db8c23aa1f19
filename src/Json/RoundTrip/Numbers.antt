-- ===== src/Json/RoundTrip/Numbers.antt =====
-- A number that was printed is scanned and read back.
use matching_engine_cpp.Base.{
  ℕ, zero, suc, ◌+◌, ◌/◌, ◌%◌, ◌<◌, ◌≡◌, refl, ap, subst, inl, inr, true, false, ◌||◌, some, [],
  ◌∷◌, ◌++◌, arith, ltb, ◌==◌, Bool-cases, ℤ, pos, negsuc, All, Text, Result, ok,
}
use matching_engine_cpp.Json.{Double, int}
use matching_engine_cpp.Json.Numbers.{
  is_digit, digits, to_string, digit_value, read_digits, skip_prefix, magnitude, negate, is_space,
  read_number, fits_i64, stoll,
}
use matching_engine_cpp.Json.Parse.{scan_number, number_from, parse_number}

digits-append : (f n : ℕ) (out after : Text) → digits f n (out ++ after) ≡ digits f n out ++ after
unfolding digits
digits-append zero n out after = refl
digits-append (suc f) n out after = elim (Bool-cases (ltb n 10)) [
  | inl one ↦ rw one
  | inr more ↦ rw more (digits-append f (n / 10) ((b'0' + n % 10) ∷ out) after)
]

abbrev IsDigit : ℕ → Type 0
IsDigit c = is_digit c ≡ true

digits-All : (f n : ℕ) (out : Text) → All IsDigit out → All IsDigit (digits f n out)
unfolding digits
digits-All zero n out h = h
digits-All (suc f) n out h = elim (Bool-cases (ltb n 10)) [
  | inl one ↦ rw one (ground arith, h)
  | inr more ↦ rw more (digits-All f (n / 10) ((b'0' + n % 10) ∷ out) (ground arith, h))
]

-- The print of a number has a digit.
digits-cons : (f n : ℕ) (out : Text) → n < f → (c : ℕ) × (t : Text) × (digits f n out ≡ c ∷ t)
unfolding digits
digits-cons zero n out h = absurd (omega arith)
digits-cons (suc f) n out h = elim (Bool-cases (ltb n 10)) [
  | inl one ↦ (b'0' + n, out, rw one)
  | inr more ↦ rw more (digits-cons f (n / 10) ((b'0' + n % 10) ∷ out) (ground arith))
]

read-digits :
    (f n : ℕ) (out : Text) → n < f → read_digits 10 0 (digits f n out) ≡ read_digits 10 n out
unfolding digits read_digits
read-digits zero n out h = absurd (omega arith)
read-digits (suc f) n out h = elim (Bool-cases (ltb n 10)) [
  | inl one ↦ rw one (ground arith)
  | inr more ↦ rw more (ground (arith, read-digits f (n / 10) ((b'0' + n % 10) ∷ out)))
]

skip_prefix-ten : (ts : Text) → skip_prefix 10 ts ≡ ts
unfolding skip_prefix
skip_prefix-ten [] = refl
skip_prefix-ten (x ∷ []) = refl
skip_prefix-ten (x ∷ y ∷ ts) = refl

magnitude-digits : (f n : ℕ) → n < f → magnitude 10 (digits f n []) ≡ some n
unfolding magnitude read_digits
magnitude-digits f n h =
    let (c, t, e) = digits-cons f n [] h in
    let (first, _) = subst (All IsDigit) e (digits-All f n [] tt) in
    let value : read_digits 10 0 (c ∷ t) ≡ n = rw e at (read-digits f n [] h) in
    let starts : ltb (digit_value c) 10 ≡ true = ground arith in
    rw (e, skip_prefix-ten (c ∷ t), starts) (rw starts at (ap some value))

scan-digits :
    (s rest : Text)
    → All IsDigit s
    → scan_number rest ≡ ([], false, rest)
    → scan_number (s ++ rest) ≡ (s, false, rest)
unfolding scan_number
scan-digits [] rest h e = e
scan-digits (c ∷ s) rest h e = rw (scan-digits s rest h.1 e, h.0)

-- No number goes on in the text.
abbrev pub IsBehind : Text → Type 0
IsBehind rest = scan_number rest ≡ ([], false, rest)

negate-suc : (n : ℕ) → negate (suc n) ≡ negsuc n
negate-suc n = refl

read_number-digit :
    (c : ℕ) (t : Text) (n : ℕ)
    → IsDigit c
    → magnitude 10 (c ∷ t) ≡ some n
    → read_number 10 (c ∷ t) ≡ some (pos n)
unfolding read_number
read_number-digit c t n h e =
    let no_space : is_space c ≡ false = ground arith in
    let no_minus : (c == b'-') ≡ false = ground arith in
    let no_plus : (c == b'+') ≡ false = ground arith in rw (no_space, no_minus, no_plus, e)

-- The print of a number: digits that are worth the number.
numeral :
    (n : ℕ)
    → (c : ℕ) × (t : Text) × (digits (suc n) n [] ≡ c ∷ t)
      × All IsDigit (c ∷ t)
      × (magnitude 10 (c ∷ t) ≡ some n)
numeral n =
    let (c, t, e) = digits-cons (suc n) n [] (omega arith) in
    (
      c,
      t,
      e,
      subst (All IsDigit) e (digits-All (suc n) n [] tt),
      rw e at (magnitude-digits (suc n) n (omega arith)),
    )

module _ (stod : Text → Result Double) where
  number_from-digits :
      (sign : Text) (c : ℕ) (t rest : Text) (n : ℤ)
      → stoll (sign ++ (c ∷ t)) ≡ ok n
      → number_from stod sign (c ∷ t, false, rest) ≡ ok (int n, rest)
  unfolding number_from
  number_from-digits [] c t rest n h = rw h
  number_from-digits (s ∷ sign) c t rest n h = rw h

  pub parse_number-to_string :
      (n : ℤ) (rest : Text)
      → fits_i64 n ≡ true
      → IsBehind rest
      → parse_number stod (to_string n ++ rest) ≡ ok (int n, rest)
  unfolding parse_number to_string
  parse_number-to_string (pos n) rest fits behind =
      let (c, t, e, all_digits, value) = numeral n in
      let no_minus : (c == b'-') ≡ false = ground (arith, all_digits.0) in
      let read : stoll (c ∷ t) ≡ ok (pos n) =
        unfold stoll in rw (read_number-digit c t n all_digits.0 value, fits) refl in
      let token : scan_number (c ∷ (t ++ rest)) ≡ (c ∷ t, false, rest) =
        scan-digits (c ∷ t) rest all_digits behind in
      rw (e, no_minus, token) (number_from-digits [] c t rest (pos n) read)
  parse_number-to_string (negsuc n) rest fits behind =
      let (c, t, e, all_digits, value) = numeral (suc n) in
      let read : stoll (b'-' ∷ c ∷ t) ≡ ok (negsuc n) =
        unfold stoll in unfold read_number in rw (value, fits) refl in
      let token : scan_number (c ∷ (t ++ rest)) ≡ (c ∷ t, false, rest) =
        scan-digits (c ∷ t) rest all_digits behind in
      rw (e, token) (number_from-digits (b'-' ∷ []) c t rest (negsuc n) read)

pub to_string-cons :
    (n : ℤ) → (c : ℕ) × (t : Text) × (to_string n ≡ c ∷ t) × ((is_digit c || c == b'-') ≡ true)
unfolding to_string
to_string-cons (pos n) = let (c, t, e, all_digits, _) = numeral n in (c, t, e, rw all_digits.0)
to_string-cons (negsuc n) = (b'-', digits (suc (suc n)) (suc n) [], refl, refl)
